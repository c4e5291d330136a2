-- ===== src/Worker/Slots.antt =====
-- The slots of the worker's consumer loops: `acquire` and `release` of
-- apps/conversion-worker/src/app/queue/queue-consumer.service.ts. A waiter is its priority and the
-- loop that waits; the loop a call lets go on is its result.
pub mod Grants
pub mod Priority
use backend.Prelude.{
  ℕ, ◌+◌, ◌-◌, ◌%◌, ◌≡◌, ◌≤◌, Bool, true, false, List, [], ◌∷◌, ◌++◌, Option, none, some, ◌==◌, ltb,
  leb, if◌then◌else◌, order_by,
}

pub record Waiter : Type 0 where
  pub priority : ℕ
  pub loop : ℕ

pub record Slots : Type 0 where
  pub active : ℕ
  pub waiters : List Waiter
  pub grants : ℕ

-- `STARVATION_GRANT_PERIOD`
abbrev pub starvation_grant_period : ℕ
starvation_grant_period = 8

abbrev pub no_later : Waiter → Waiter → Bool
no_later v w = leb v.priority w.priority

unfoldable pub acquire : ℕ → Waiter → Slots → Slots × Option ℕ
acquire slots w s =
    if ltb s.active slots
    then (record s { active = s.active + 1 }, some w.loop)
    else (record s { waiters = order_by no_later (s.waiters ++ w ∷ []) }, none)

-- `pop`: all but the last, and the last.
unfoldable pub pop : List Waiter → List Waiter × Option Waiter
pop [] = ([], none)
pop (w ∷ []) = ([], some w)
pop (w ∷ v ∷ ws) = let rest = pop (v ∷ ws) in (w ∷ rest.0, rest.1)

-- `shift`: all but the first, and the first.
unfoldable pub shift : List Waiter → List Waiter × Option Waiter
shift [] = ([], none)
shift (w ∷ ws) = (ws, some w)

abbrev pub is_starved_turn : Slots → Bool
is_starved_turn s = s.grants % starvation_grant_period == starvation_grant_period - 1

abbrev pub next_waiter : Slots → List Waiter × Option Waiter
next_waiter s = if is_starved_turn s then pop s.waiters else shift s.waiters

unfoldable pub release : Slots → Slots × Option ℕ
unfolding pop shift
release s =
    let next = next_waiter s in
    elim next.1 [
      | some w ↦
          (record { active = s.active; waiters = next.0; grants = s.grants + 1 }, some w.loop)
      | none ↦ (record { active = s.active - 1; waiters = next.0; grants = s.grants }, none)
    ]

-- The calls of the loops: a loop that goes on releases its slot, in any order.
pub data Step (slots : ℕ) (s : Slots) : Slots → Type 0 where
  acquires : (w : Waiter) → Step slots s (acquire slots w s).0
  releases : 1 ≤ s.active → Step slots s (release s).0

pub data Reach (slots : ℕ) : Slots → Type 0 where
  starts : Reach slots (record { active = 0; waiters = []; grants = 0 })
  next : {s t : Slots} → Reach slots s → Step slots s t → Reach slots t
