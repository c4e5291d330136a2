-- ===== src/Tests/Commands.antt =====
-- A command that is attempted, and a sweep and an event after it.
use backend.Prelude.{◌≡◌, ◌≤◌, List, [], ◌∷◌, arith}
use backend.Notifications.Delivery.{EmailDelivery, record_provider_acceptance}
use backend.Notifications.Command.{claim_attempt, expire_stale_claims}
use backend.Notifications.Command.Steps.{Reach, here, next, sweeps, accepts}
use backend.Notifications.Command.WriteOnce.{Evolves, Reach-Evolves}
use backend.Notifications.Command.SubmitOnce.{claim_attempt-once}
use backend.Tests.Deliveries.{row, arrived}

abbrev attempted : List EmailDelivery
attempted = (claim_attempt 1 (row ∷ [])).0

abbrev later : List EmailDelivery
later = record_provider_acceptance 50 1 arrived.feedback (expire_stale_claims 40 attempted)

reached : Reach attempted later
reached = next (next here (sweeps 40)) (accepts 50 1 arrived.feedback)

is_attempted : 1 ≤ (claim_attempt 1 (row ∷ [])).1
unfolding claim_attempt
is_attempted = omega arith

claim_attempt-once_example : (claim_attempt 1 later).1 ≡ 0
claim_attempt-once_example = claim_attempt-once 1 (row ∷ []) later is_attempted reached

Reach-Evolves_example : Evolves attempted later
Reach-Evolves_example = Reach-Evolves attempted later reached
