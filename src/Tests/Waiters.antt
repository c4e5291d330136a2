-- ===== src/Tests/Waiters.antt =====
-- Two loops for one slot.
use mathlib.Core.List.{Memᴰ}
use backend.Prelude.{
  ℕ, zero, suc, ◌%◌, ◌==◌, ◌≡◌, ◌≤◌, refl, [], ◌∷◌, some, All, if◌then◌else◌, arith,
}
use backend.Worker.Slots.{
  Waiter, Slots, acquire, pop, shift, release, Reach, starts, next, acquires,
}
use backend.Worker.Slots.Grants.{IsFair, Reach-IsFair}
use backend.Worker.Slots.Priority.{Granted, nothing, takes, frees, release-priority}

abbrev idle : Slots
idle = record { active = 0; waiters = []; grants = 0 }

abbrev first : Waiter
first = record { priority = 3; loop = 1 }

abbrev second : Waiter
second = record { priority = 0; loop = 2 }

abbrev taken : Slots
taken = (acquire 1 first idle).0

abbrev crowded : Slots
crowded = (acquire 1 second taken).0

crowded-Reach : Reach 1 crowded
crowded-Reach = next (next starts (acquires first)) (acquires second)

Reach-IsFair_example : IsFair 1 crowded
Reach-IsFair_example = Reach-IsFair 1 crowded crowded-Reach

-- The first loop goes on holding the slot, and seven others wait for it and get it, one by one.
abbrev handed : ℕ → Slots
handed zero = taken
handed (suc n) = (release (acquire 1 second (handed n)).0).0

abbrev last : Waiter
last = record { priority = 2; loop = 9 }

abbrev two_wait : Slots
two_wait = (acquire 1 last (acquire 1 second (handed 7)).0).0

two_wait-Granted : Granted 1 7 two_wait
unfolding acquire release pop shift
two_wait-Granted =
    let g0 : Granted 1 0 taken = takes first nothing in
    let g1 : Granted 1 1 (handed 1) = frees (takes second g0) (omega arith) in
    let g2 : Granted 1 2 (handed 2) = frees (takes second g1) (omega arith) in
    let g3 : Granted 1 3 (handed 3) = frees (takes second g2) (omega arith) in
    let g4 : Granted 1 4 (handed 4) = frees (takes second g3) (omega arith) in
    let g5 : Granted 1 5 (handed 5) = frees (takes second g4) (omega arith) in
    let g6 : Granted 1 6 (handed 6) = frees (takes second g5) (omega arith) in
    let g7 : Granted 1 7 (handed 7) = frees (takes second g6) (omega arith) in
    takes last (takes second g7)

two_wait-waiters : two_wait.waiters ≡ second ∷ last ∷ []
unfolding acquire release pop shift
two_wait-waiters = refl

-- The eighth grant.
release-priority_example :
    (w : Waiter) × ((release two_wait).1 ≡ some w.loop)
    × Memᴰ w two_wait.waiters
    × All
        (λ u. if 7 % 8 == 7 then u.priority ≤ w.priority else w.priority ≤ u.priority)
        two_wait.waiters
release-priority_example =
    release-priority 1 7 two_wait second (last ∷ []) two_wait-Granted two_wait-waiters
