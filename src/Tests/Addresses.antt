-- ===== src/Tests/Addresses.antt =====
-- An address that is suppressed, and recovered.
use backend.Prelude.{
  ℕ, ◌+◌, ◌≡◌, ◌≤◌, refl, Bool, true, false, ◌&&◌, ◌||◌, ◌==◌, leb, List, [], ◌∷◌, ◌++◌, map, none,
  some, arith, any, All, find_many,
}
use backend.Text.{codes}
use backend.Notifications.Feedback.{
  EmailDestinationStatus, active, suppressed, recovery_pending, delivery, is_terminal_mailbox_event,
  delivery_failure_code,
}
use backend.Notifications.Revision.{EventRevision, event_revision_data}
use backend.Notifications.Destination.{
  RecipientHash, EmailDestination, has_key, is_alias, is_blocked, is_suppressed,
  find_authoritative_destination,
}
use backend.Notifications.Destination.Suppress.{
  suppress_destination, suppress_destination_aliases, max_suppression_revision, min_suppressed_at,
  earliest_suppressed_at,
}
use backend.Notifications.Destination.Suppress.Aliases.{others, HasRow, IsOwned}
use backend.Notifications.Destination.Suppress.Outcome.{suppress_aliases_outcome, IsSuppressedLike}
use backend.Notifications.Destination.Nonterminal.Blocked.{blocked}
use backend.Notifications.Destination.Transition.Blocking.{
  open_feedback-blocked, open_feedback-after_block,
}
use backend.Notifications.Destination.Recovery.Evidence.{
  RecoveryEvidence, requested, is_valid_evidence,
}
use backend.Notifications.Destination.Recovery.{
  RecoveryTables, done, transition, audit_of, move_rows, is_expected_state, status_eq, is_read_row,
  destination_update,
}
use backend.Notifications.Destination.Recovery.Moves.{aliases, transition-moves}
use backend.Notifications.Destination.Recovery.Stale.{transition-stale}
use backend.Notifications.Destination.Recovery.Replay.{transition-replay}
use backend.Tests.Deliveries.{feedback_at, hard}

abbrev key : RecipientHash
key = record { value = 5; key_version = 1 }

abbrev address : EmailDestinationStatus → ℕ → EmailDestination
address status n = record {
  id = 1;
  recipient_hash = 5;
  recipient_hash_key_version = 1;
  status = status;
  reason_code = none;
  suppressed_at = none;
  last_delivery_id = none;
  last_event_id = none;
  last = record { last_event_at = none; last_event_rank = none; last_event_fingerprint = none };
  suppression_revision = n;
}

abbrev other_address : EmailDestination
other_address = record (address active 0) { id = 2; recipient_hash = 6 }

abbrev is_own : ℕ → Bool
is_own id = id == 1 || leb 100 id

abbrev draw : List EmailDestination → ℕ
draw t = 100

abbrev revision : EventRevision
revision = record { occurred_at = 20; rank = 50; fingerprint = 2 }

abbrev rows : List EmailDestination
rows = address active 3 ∷ other_address ∷ []

rows-IsOwned : IsOwned is_own (key ∷ []) rows
unfolding is_alias
rows-IsOwned = (refl, (refl, tt))

suppress_aliases_outcome_example :
    (a : EmailDestination) × (ds' : List EmailDestination) × (suppress_destination_aliases draw
        (key ∷ [])
        1
        2
        (feedback_at 20 hard)
        revision
        rows
      ≡ some ds')
    × (others (key ∷ []) ds' ≡ others (key ∷ []) rows)
    × All (λ g. HasRow g ds') (key ∷ [])
    × (let found = find_many (is_alias (key ∷ [])) rows in
        All
          (λ d.
            is_alias (key ∷ []) d ≡ true
            → IsSuppressedLike a
                (earliest_suppressed_at (feedback_at 20 hard) (min_suppressed_at found))
                (max_suppression_revision found + 1)
                d)
          ds')
suppress_aliases_outcome_example =
    suppress_aliases_outcome draw is_own key [] 1 2 (feedback_at 20 hard) revision rows (λ t. refl)
      rows-IsOwned

delivery_open : is_terminal_mailbox_event delivery ≡ false
unfolding is_terminal_mailbox_event
delivery_open = refl

abbrev blocked_rows : List EmailDestination
blocked_rows = address suppressed 3 ∷ other_address ∷ []

is_blocked_here : any (λ d. is_blocked d && is_alias (key ∷ []) d) blocked_rows ≡ true
unfolding is_blocked is_alias
is_blocked_here = refl

open_feedback-blocked_example : blocked blocked_rows ≡ blocked blocked_rows
open_feedback-blocked_example =
    open_feedback-blocked draw (key ∷ []) 1 2 (feedback_at 30 delivery) revision blocked_rows
      blocked_rows delivery_open
      (open_feedback-after_block draw (key ∷ []) 1 2 (feedback_at 30 delivery) revision blocked_rows
        delivery_open is_blocked_here)

abbrev evidence : RecoveryEvidence
evidence = record {
  operation_id = codes "op";
  expected_suppression_revision = 3;
  actor_id = codes "alice";
  reason_code = codes "USER_REQUEST";
  evidence_reference = codes "T1";
  provider_request_id = none;
}

abbrev before : RecoveryTables
before = record { destinations = blocked_rows; audits = [] }

abbrev after : RecoveryTables
after = record {
  destinations = address recovery_pending 3 ∷ other_address ∷ [];
  audits = audit_of suppressed recovery_pending requested evidence (address suppressed 3) ∷ [];
}

moved :
    transition (λ s. true) (key ∷ []) suppressed recovery_pending requested evidence before
    ≡ done after
unfolding transition is_valid_evidence is_alias move_rows is_expected_state status_eq
    max_suppression_revision is_read_row destination_update
moved = refl

transition-replay_example :
    transition (λ s. true) (key ∷ []) suppressed recovery_pending requested evidence after
    ≡ done after
transition-replay_example =
    transition-replay (λ s. true) (key ∷ []) suppressed recovery_pending requested evidence before
      after moved

transition-moves_example :
    All (λ d. d.status ≡ suppressed) (aliases (key ∷ []) before)
    × (max_suppression_revision (aliases (key ∷ []) before) ≡ 3)
    × All (λ d. is_alias (key ∷ []) d ≡ true → d.status ≡ recovery_pending) after.destinations
    × (after.audits
        ≡ []
          ++ map
              (audit_of suppressed recovery_pending requested evidence)
              (aliases (key ∷ []) before))
transition-moves_example =
    transition-moves (λ s. true) (key ∷ []) suppressed recovery_pending requested evidence before
      after refl moved

abbrev hit : RecoveryTables
hit = record {
  destinations =
      record (address suppressed 4) {
        reason_code = delivery_failure_code hard;
        suppressed_at = some 20;
        last_delivery_id = some 1;
        last_event_id = some 2;
        last = event_revision_data revision;
      }
      ∷ other_address
      ∷ [];
  audits = [];
}

hit_suppressed :
    suppress_destination_aliases draw
      (key ∷ [])
      1
      2
      (feedback_at 20 hard)
      revision
      (address active 3 ∷ other_address ∷ [])
    ≡ some hit.destinations
unfolding suppress_destination_aliases find_authoritative_destination suppress_destination has_key
    is_alias is_suppressed min_suppressed_at max_suppression_revision
hit_suppressed = refl

reaches : 3 ≤ max_suppression_revision (find_many (is_alias (key ∷ [])) rows)
unfolding max_suppression_revision is_alias
reaches = omega arith

transition-stale_example : ¬ (
    transition (λ s. true) (key ∷ []) suppressed recovery_pending requested evidence hit
    ≡ done after)
transition-stale_example =
    transition-stale (λ s. true) draw is_own key [] 1 2 (feedback_at 20 hard) revision rows
      suppressed recovery_pending requested evidence hit after (λ t. refl) rows-IsOwned
      hit_suppressed reaches refl
