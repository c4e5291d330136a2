-- ===== src/Notifications/Destination/Nonterminal.antt =====
-- An event that closes no mailbox: `updateNonterminalDestination` and `convergeNonterminalAliases`
-- of apps/notifications/src/app/feedback/ses-feedback-transitions.ts.
pub mod Blocked
use backend.Prelude.{
  ℕ, ◌≡◌, Bool, true, false, not, ◌&&◌, List, [], ◌∷◌, ◌++◌, Option, none, some, ltb, length,
  if◌then◌else◌, update_many, find_unique,
}
use backend.Text.{Text}
use backend.Notifications.Feedback.{
  SesFeedback, EmailDestinationStatus, temporary_failure, delivery_failure_code,
}
use backend.Notifications.Revision.{EventRevision, event_revision_data, newer_event_filters}
use backend.Notifications.Destination.{
  RecipientHash, EmailDestination, has_key, is_alias, is_blocked, find_authoritative_destination,
  authoritative_destination_data,
}

-- The reason of a temporary failure; other statuses have none.
nonterminal_reason : EmailDestinationStatus → SesFeedback → Option Text
nonterminal_reason temporary_failure feedback = delivery_failure_code feedback.event
nonterminal_reason _ feedback = none

-- The `data` of the `updateMany`.
record_event :
    ℕ
    → ℕ
    → SesFeedback
    → EventRevision
    → EmailDestinationStatus
    → EmailDestination
    → EmailDestination
unfolding nonterminal_reason
record_event delivery_id event_id feedback revision status d = record d {
  status = status;
  reason_code = nonterminal_reason status feedback;
  last_delivery_id = some delivery_id;
  last_event_id = some event_id;
  last = event_revision_data revision;
}

-- The row that the `upsert` creates; the columns that it does not name have their defaults.
new_nonterminal :
    ℕ
    → RecipientHash
    → ℕ
    → ℕ
    → SesFeedback
    → EventRevision
    → EmailDestinationStatus
    → EmailDestination
unfolding nonterminal_reason
new_nonterminal id h delivery_id event_id feedback revision status = record {
  id = id;
  recipient_hash = h.value;
  recipient_hash_key_version = h.key_version;
  status = status;
  reason_code = nonterminal_reason status feedback;
  suppressed_at = none;
  last_delivery_id = some delivery_id;
  last_event_id = some event_id;
  last = event_revision_data revision;
  suppression_revision = 0;
}

-- `upsert` with an empty `update`: a row is created only if there is none.
create_if_missing : RecipientHash → EmailDestination → List EmailDestination → List EmailDestination
create_if_missing h new ds = elim (find_unique (has_key h) ds) [
  | none ↦ ds ++ new ∷ []
  | some d ↦ ds
]

module _ (new_id : List EmailDestination → ℕ) where
  unfoldable pub update_nonterminal_destination :
      RecipientHash
      → ℕ
      → ℕ
      → SesFeedback
      → EventRevision
      → EmailDestinationStatus
      → List EmailDestination
      → List EmailDestination
  unfolding create_if_missing new_nonterminal record_event
  update_nonterminal_destination h delivery_id event_id feedback revision status ds =
      update_many (λ d. has_key h d && not (is_blocked d) && newer_event_filters revision d.last)
        (record_event delivery_id event_id feedback revision status)
        (create_if_missing h
          (new_nonterminal (new_id ds) h delivery_id event_id feedback revision status) ds)

  -- The `for` loop over the hashes.
  unfoldable pub update_nonterminal_each :
      List RecipientHash
      → ℕ
      → ℕ
      → SesFeedback
      → EventRevision
      → EmailDestinationStatus
      → List EmailDestination
      → List EmailDestination
  update_nonterminal_each [] delivery_id event_id feedback revision status ds = ds
  update_nonterminal_each (h ∷ hs) delivery_id event_id feedback revision status ds =
      update_nonterminal_each hs delivery_id event_id feedback revision status
        (update_nonterminal_destination h delivery_id event_id feedback revision status ds)

-- `unblockedAliases`
abbrev pub is_unblocked_alias : List RecipientHash → EmailDestination → Bool
is_unblocked_alias hashes d = not (is_blocked d) && is_alias hashes d

converge_row : EmailDestination → EmailDestination → EmailDestination
unfolding authoritative_destination_data
converge_row a d = record (authoritative_destination_data a d) { status = a.status }

unfoldable pub converge_nonterminal_aliases :
    List RecipientHash → List EmailDestination → Option (List EmailDestination)
unfolding converge_row
converge_nonterminal_aliases hashes ds =
    if ltb (length hashes) 2
    then some ds
    else elim (find_authoritative_destination (is_unblocked_alias hashes) ds) [
      | none ↦ none
      | some a ↦ some (update_many (is_unblocked_alias hashes) (converge_row a) ds)
    ]
