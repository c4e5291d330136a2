-- ===== src/Worker/Slots/Priority.antt =====
-- Which waiter a release lets go on, by the number of grants so far.
use mathlib.Core.List.{Memᴰ}
use mathlib.Core.Path.{subst}
use backend.Prelude.{
  ℕ, ◌+◌, ◌%◌, ◌==◌, ◌≡◌, ◌∙◌, ◌≤◌, refl, inl, inr, List, [], ◌∷◌, none, some, is_null,
  if◌then◌else◌, arith, Bool-cases, Option-cases, All,
}
use backend.Worker.Slots.{
  Waiter, Slots, acquire, pop, shift, is_starved_turn, next_waiter, release, acquires, releases,
  Reach, starts, next,
}
use backend.Worker.Slots.Grants.{
  IsSorted, pop-last, shift-first, pop-none, shift-none, Reach-IsFair,
}

-- The calls of the loops so far, and how many of the releases let a waiter go on.
pub data Granted (slots : ℕ) : ℕ → Slots → Type 0 where
  nothing : Granted slots 0 (record { active = 0; waiters = []; grants = 0 })
  takes :
      {n : ℕ} {s : Slots} (w : Waiter) → Granted slots n s → Granted slots n (acquire slots w s).0
  frees :
      {n : ℕ} {s : Slots}
      → Granted slots n s
      → 1 ≤ s.active
      → Granted slots (if is_null (release s).1 then n else n + 1) (release s).0

Granted-Reach : (slots n : ℕ) (s : Slots) → Granted slots n s → Reach slots s
Granted-Reach slots n s nothing = starts
Granted-Reach slots n s (takes w g) = next (Granted-Reach slots _ _ g) (acquires w)
Granted-Reach slots n s (frees g held) = next (Granted-Reach slots _ _ g) (releases held)

-- The count that the code keeps is the number of grants.
acquire-grants : (slots : ℕ) (w : Waiter) (s : Slots) → (acquire slots w s).0.grants ≡ s.grants
unfolding acquire
acquire-grants slots w s = ground arith

release-grants :
    (s : Slots) → (release s).0.grants ≡ (if is_null (release s).1 then s.grants else s.grants + 1)
unfolding release
release-grants s = elim (Option-cases (next_waiter s).1) [
  | inl e ↦ rw (e, release) refl
  | inr (w, e) ↦ rw (e, release) refl
]

Granted-grants : (slots n : ℕ) (s : Slots) → Granted slots n s → s.grants ≡ n
Granted-grants slots n s nothing = refl
Granted-grants slots n s (takes {s = t} w g) = acquire-grants slots w t ∙ Granted-grants slots n t g
Granted-grants slots n s (frees {n = m} {s = t} g held) =
    let before = Granted-grants slots m t g in let count = release-grants t in ground arith

-- The waiter that a release lets go on, of the ones in the queue.
next_waiter-priority :
    (s : Slots) (w : Waiter)
    → IsSorted s.waiters
    → (next_waiter s).1 ≡ some w
    → All
        (λ v. if s.grants % 8 == 7 then v.priority ≤ w.priority else w.priority ≤ v.priority)
        s.waiters
next_waiter-priority s w sorted h = elim (Bool-cases (s.grants % 8 == 7)) [
  | inl e ↦ rw e (pop-last s.waiters w sorted (ground arith))
  | inr e ↦ rw e (shift-first s.waiters w sorted (ground arith))
]

pop-mem : (ws : List Waiter) (w : Waiter) → (pop ws).1 ≡ some w → Memᴰ w ws
unfolding pop
pop-mem [] w e = absurd (cc)
pop-mem (v ∷ []) w e = Memᴰ.head (ground arith)
pop-mem (v ∷ u ∷ ws) w e = Memᴰ.tail (pop-mem (u ∷ ws) w e)

shift-mem : (ws : List Waiter) (w : Waiter) → (shift ws).1 ≡ some w → Memᴰ w ws
unfolding shift
shift-mem [] w e = absurd (cc)
shift-mem (v ∷ ws) w e = Memᴰ.head (ground arith)

next_waiter-mem : (s : Slots) (w : Waiter) → (next_waiter s).1 ≡ some w → Memᴰ w s.waiters
next_waiter-mem s w e = elim (Bool-cases (is_starved_turn s)) [
  | inl k ↦ pop-mem s.waiters w (rw k at e)
  | inr k ↦ shift-mem s.waiters w (rw k at e)
]

queue_empty : (s : Slots) → (next_waiter s).1 ≡ none → s.waiters ≡ []
queue_empty s e = elim (Bool-cases (is_starved_turn s)) [
  | inl k ↦ (pop-none s.waiters (rw k at e)).1
  | inr k ↦ (shift-none s.waiters (rw k at e)).1
]

-- However the loops have taken and released slots, where `n` of the releases let a waiter go on: if
-- any waits, the next release lets one of the waiters go on, one with the least priority number, but
-- one with the greatest if `n` leaves 7 on division by 8, so on each eighth such grant.
pub release-priority :
    (slots n : ℕ) (s : Slots) (v : Waiter) (vs : List Waiter)
    → Granted slots n s
    → s.waiters ≡ v ∷ vs
    → (w : Waiter) × ((release s).1 ≡ some w.loop)
      × Memᴰ w s.waiters
      × All (λ u. if n % 8 == 7 then u.priority ≤ w.priority else w.priority ≤ u.priority) s.waiters
unfolding release
release-priority slots n s v vs g waits =
    let sorted = (Reach-IsFair slots s (Granted-Reach slots n s g)).sorted in
    let count = Granted-grants slots n s g in
    elim (Option-cases (next_waiter s).1) [
      | inl e ↦ absurd (ground (arith, queue_empty s e))
      | inr (w, e) ↦ (
        w,
        rw (e, release) refl,
        next_waiter-mem s w e,
        subst
            (λ k.
              All (λ u. if k % 8 == 7 then u.priority ≤ w.priority else w.priority ≤ u.priority)
                s.waiters)
            count (next_waiter-priority s w sorted e),
      )
    ]
