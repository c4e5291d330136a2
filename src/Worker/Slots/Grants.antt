-- ===== src/Worker/Slots/Grants.antt =====
-- Whom a released slot goes to.
use backend.Prelude.{
  ℕ, ◌+◌, ◌-◌, ◌≡◌, ◌≤◌, refl, ◌⊎◌, inl, inr, List, [], ◌∷◌, ◌++◌, none, some, ltb, order_by,
  insert, arith, Bool-cases, Option-cases, All, All-map,
}
use backend.Worker.Slots.{
  Waiter, Slots, no_later, acquire, pop, shift, is_starved_turn, next_waiter, release, acquires,
  releases, Reach, starts, next,
}

-- In the order of their priorities, the first before the others.
abbrev pub IsSorted : List Waiter → Type 0
IsSorted [] = Unit
IsSorted (w ∷ ws) = All (λ v. w.priority ≤ v.priority) ws × IsSorted ws

-- No loop waits while a slot is free, and the waiters are in order.
pub record IsFair (slots : ℕ) (s : Slots) : Type 0 where
  pub bounded : s.active ≤ slots
  pub busy : (s.waiters ≡ []) ⊎ (s.active ≡ slots)
  pub sorted : IsSorted s.waiters

insert-All :
    (P : Waiter → Type 0) (w : Waiter) (ws : List Waiter)
    → P w
    → All P ws
    → All P (insert no_later w ws)
insert-All P w [] p h = (p, tt)
insert-All P w (v ∷ ws) p h = elim (Bool-cases (no_later w v)) [
  | inl e ↦ rw e (p, h)
  | inr e ↦ rw e (h.0, insert-All P w ws p h.1)
]

insert-IsSorted : (w : Waiter) (ws : List Waiter) → IsSorted ws → IsSorted (insert no_later w ws)
insert-IsSorted w [] h = (tt, tt)
insert-IsSorted w (v ∷ ws) h = elim (Bool-cases (no_later w v)) [
  | inl e ↦ rw e (
    (
      ground arith,
      All-map (λ u. v.priority ≤ u.priority) (λ u. w.priority ≤ u.priority) ws (λ u k. ground arith)
          h.0,
    ),
    h,
  )
  | inr e ↦
      rw e (
        insert-All (λ u. v.priority ≤ u.priority) w ws (ground arith) h.0,
        insert-IsSorted w ws h.1,
      )
]

order_by-IsSorted : (ws : List Waiter) → IsSorted (order_by no_later ws)
order_by-IsSorted [] = tt
order_by-IsSorted (w ∷ ws) = insert-IsSorted w (order_by no_later ws) (order_by-IsSorted ws)

-- `pop` takes the latest of the waiters, and leaves the order of the others.
pop-All : (P : Waiter → Type 0) (ws : List Waiter) → All P ws → All P (pop ws).0
unfolding pop
pop-All P [] h = tt
pop-All P (w ∷ []) h = tt
pop-All P (w ∷ v ∷ ws) h = (h.0, pop-All P (v ∷ ws) h.1)

pop-IsSorted : (ws : List Waiter) → IsSorted ws → IsSorted (pop ws).0
unfolding pop
pop-IsSorted [] h = tt
pop-IsSorted (w ∷ []) h = tt
pop-IsSorted (w ∷ v ∷ ws) h =
    (pop-All (λ u. w.priority ≤ u.priority) (v ∷ ws) h.0, pop-IsSorted (v ∷ ws) h.1)

pub pop-last :
    (ws : List Waiter) (w : Waiter)
    → IsSorted ws
    → (pop ws).1 ≡ some w
    → All (λ v. v.priority ≤ w.priority) ws
unfolding pop
pop-last [] w h e = tt
pop-last (v ∷ []) w h e = (ground arith, tt)
pop-last (u ∷ v ∷ ws) w h e =
    let rest = pop-last (v ∷ ws) w h.1 (ground arith) in (ground (arith, rest.0, h.0.0), rest)

pub shift-first :
    (ws : List Waiter) (w : Waiter)
    → IsSorted ws
    → (shift ws).1 ≡ some w
    → All (λ v. w.priority ≤ v.priority) ws
unfolding shift
shift-first [] w h e = tt
shift-first (v ∷ ws) w h e = (
  ground arith,
  All-map (λ u. v.priority ≤ u.priority) (λ u. w.priority ≤ u.priority) ws (λ u k. ground arith)
      h.0,
)

shift-IsSorted : (ws : List Waiter) → IsSorted ws → IsSorted (shift ws).0
unfolding shift
shift-IsSorted [] h = tt
shift-IsSorted (w ∷ ws) h = h.1

next_waiter-IsSorted : (s : Slots) → IsSorted s.waiters → IsSorted (next_waiter s).0
next_waiter-IsSorted s h = elim (Bool-cases (is_starved_turn s)) [
  | inl e ↦ rw e (pop-IsSorted s.waiters h)
  | inr e ↦ rw e (shift-IsSorted s.waiters h)
]

pub pop-none : (ws : List Waiter) → (pop ws).1 ≡ none → ((pop ws).0 ≡ []) × (ws ≡ [])
unfolding pop
pop-none [] h = (refl, refl)
pop-none (w ∷ []) h = ground arith
pop-none (w ∷ v ∷ ws) h = let rest = pop-none (v ∷ ws) (ground arith) in ground (arith, rest.1)

pub shift-none : (ws : List Waiter) → (shift ws).1 ≡ none → ((shift ws).0 ≡ []) × (ws ≡ [])
unfolding shift
shift-none [] h = (refl, refl)
shift-none (w ∷ ws) h = ground arith

none_left : (s : Slots) → (next_waiter s).1 ≡ none → (next_waiter s).0 ≡ []
none_left s h = elim (Bool-cases (is_starved_turn s)) [
  | inl e ↦ let k = pop-none s.waiters in ground arith
  | inr e ↦ let k = shift-none s.waiters in ground arith
]

none_waits : (s : Slots) → s.waiters ≡ [] → (next_waiter s).1 ≡ none
unfolding pop shift
none_waits s h = ground arith

acquire-IsFair :
    (slots : ℕ) (w : Waiter) (s : Slots) → IsFair slots s → IsFair slots (acquire slots w s).0
unfolding acquire
acquire-IsFair slots w s h = elim (Bool-cases (ltb s.active slots)) [
  | inl e ↦
      let fair : IsFair slots (record s { active = s.active + 1 }) = record {
        bounded = ground arith;
        busy = inl (ground arith);
        sorted = h.sorted;
      } in
      rw (e, acquire) fair
  | inr e ↦
      let fair : IsFair slots (record s { waiters = order_by no_later (s.waiters ++ w ∷ []) }) =
        record {
          bounded = h.bounded;
          busy = inr (ground arith);
          sorted = order_by-IsSorted (s.waiters ++ w ∷ []);
        } in
      rw (e, acquire) fair
]

release-IsFair : (slots : ℕ) (s : Slots) → IsFair slots s → IsFair slots (release s).0
unfolding release
release-IsFair slots s h =
    let rest = next_waiter-IsSorted s h.sorted in
    elim (Option-cases (next_waiter s).1) [
      | inl e ↦
          let fair : IsFair slots
              (record { active = s.active - 1; waiters = (next_waiter s).0; grants = s.grants }) =
            record { bounded = ground arith; busy = inl (none_left s e); sorted = rest } in
          rw (e, release) fair
      | inr (w, e) ↦
          let k = none_waits s in
          let fair : IsFair slots
              (record { active = s.active; waiters = (next_waiter s).0; grants = s.grants + 1 }) =
            record { bounded = h.bounded; busy = inr (ground (arith, k)); sorted = rest } in
          rw (e, release) fair
    ]

-- However the loops take and release slots, no more than `slots` of them go on, none waits while a
-- slot is free, and the waiters are in the order of their priorities.
pub Reach-IsFair : (slots : ℕ) (s : Slots) → Reach slots s → IsFair slots s
Reach-IsFair slots s starts = record { bounded = ground arith; busy = inl refl; sorted = tt }
Reach-IsFair slots s (next {s = t} r (acquires w)) =
    acquire-IsFair slots w t (Reach-IsFair slots t r)
Reach-IsFair slots s (next {s = t} r (releases held)) =
    release-IsFair slots t (Reach-IsFair slots t r)
