-- ===== src/Notifications/Destination/Recovery/Stale.antt =====
-- A suppression in the middle of a recovery makes the operator's evidence stale.
use backend.Prelude.{
  ℕ, ◌+◌, ◌≤◌, ◌≡◌, ap, Bool, true, List, [], ◌∷◌, some, arith, All, All-map, find_many,
}
use backend.Text.{Text}
use backend.Notifications.Feedback.{SesFeedback, EmailDestinationStatus}
use backend.Notifications.Revision.{EventRevision}
use backend.Notifications.Destination.{RecipientHash, EmailDestination, has_key, is_alias}
use backend.Notifications.Destination.Suppress.{
  max_suppression_revision, suppress_destination_aliases,
}
use backend.Notifications.Destination.Suppress.Aliases.{IsOwned, HasRow}
use backend.Notifications.Destination.Suppress.Outcome.{suppress_aliases_outcome, All-IsOf}
use backend.Notifications.Destination.Recovery.Evidence.{RecoveryEvidence, EmailRecoveryAction}
use backend.Notifications.Destination.Recovery.{RecoveryTables, done, transition}
use backend.Notifications.Destination.Recovery.Moves.{IsNewOperation, transition-moves}

revision_reached :
    (hashes : List RecipientHash) (h : RecipientHash) (n : ℕ) (ds : List EmailDestination)
    → ((d : EmailDestination) → has_key h d ≡ true → is_alias hashes d ≡ true)
    → HasRow h ds
    → All (λ d. is_alias hashes d ≡ true → d.suppression_revision ≡ n) ds
    → n ≤ max_suppression_revision (find_many (is_alias hashes) ds)
unfolding max_suppression_revision
revision_reached hashes h n [] of r a = cc
revision_reached hashes h n (d ∷ ds) of r (a, as?) =
    ground (arith, of d, revision_reached hashes h n ds of)

-- Let the rows of an address be suppressed by an event. Then no recovery step with a new operation
-- id succeeds if its evidence names a revision that the address had before, whatever the step and
-- the statuses: the operator has to look at the new suppression first.
pub transition-stale :
    (is_uuid : Text → Bool) (new_id : List EmailDestination → ℕ) (owns : ℕ → Bool)
    (h : RecipientHash) (hs : List RecipientHash) (delivery_id event_id : ℕ)
    (feedback : SesFeedback) (revision : EventRevision) (ds : List EmailDestination)
    (expected next : EmailDestinationStatus) (action : EmailRecoveryAction)
    (evidence : RecoveryEvidence) (t t' : RecoveryTables)
    → ((u : List EmailDestination) → owns (new_id u) ≡ true)
    → IsOwned owns (h ∷ hs) ds
    → suppress_destination_aliases new_id (h ∷ hs) delivery_id event_id feedback revision ds
      ≡ some t.destinations
    → evidence.expected_suppression_revision
      ≤ max_suppression_revision (find_many (is_alias (h ∷ hs)) ds)
    → IsNewOperation evidence t
    → ¬ (transition is_uuid (h ∷ hs) expected next action evidence t ≡ done t')
transition-stale is_uuid new_id owns h hs delivery_id event_id feedback revision ds expected next
      action evidence t t' fresh owned suppressed old new moved =
    let (a, ds', outcome, _, rows, all_at_n) =
      suppress_aliases_outcome new_id owns h hs delivery_id event_id feedback revision ds fresh
        owned in
    let same : ds' ≡ t.destinations = ground arith in
    let hashes = h ∷ hs in
    let n = max_suppression_revision (find_many (is_alias hashes) ds) + 1 in
    let reached =
      revision_reached hashes h n ds' (All-IsOf hashes).0 rows.0
        (All-map _ _ ds' (λ d k m. (k m).1) all_at_n) in
    let named = (transition-moves is_uuid hashes expected next action evidence t t' new moved).1 in
    omega (
      arith,
      ap (λ rows. max_suppression_revision (find_many (is_alias hashes) rows)) same,
      reached,
      named,
    )
