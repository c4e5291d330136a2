-- ===== src/Notifications/Destination/Suppress.antt =====
-- An event that closes a mailbox suppresses every alias of the address: `suppressDestinationAliases`
-- and `suppressDestination` of apps/notifications/src/app/feedback/ses-feedback-transitions.ts.
pub mod Aliases
pub mod Outcome
use backend.Prelude.{
  ℕ, ◌+◌, ◌≡◌, Bool, true, false, not, ◌&&◌, ◌||◌, List, [], ◌∷◌, ◌++◌, Option, none, some, ◌==◌,
  ltb, max, min, is_null, null_or, if◌then◌else◌, update_many, find_many, find_unique,
}
use backend.Notifications.Feedback.{SesFeedback, EmailDestinationStatus, delivery_failure_code}
use backend.Notifications.Revision.{EventRevision, event_revision_data, newer_event_filters}
use backend.Notifications.Destination.{
  RecipientHash, EmailDestination, has_key, is_alias, is_suppressed, find_authoritative_destination,
  authoritative_destination_data,
}

-- `aggregate({ _max: { suppressionRevision } })` with `?? 0`.
unfoldable pub max_suppression_revision : List EmailDestination → ℕ
max_suppression_revision [] = 0
max_suppression_revision (d ∷ ds) = max d.suppression_revision (max_suppression_revision ds)

-- The smaller of two nullable times, as `MIN` reads them.
abbrev min_time : Option ℕ → Option ℕ → Option ℕ
min_time none b = b
min_time (some a) none = some a
min_time (some a) (some b) = some (min a b)

-- `aggregate({ _min: { suppressedAt } })`
unfoldable pub min_suppressed_at : List EmailDestination → Option ℕ
min_suppressed_at [] = none
min_suppressed_at (d ∷ ds) = min_time d.suppressed_at (min_suppressed_at ds)

-- What the event says of a row: the `data` of the first `updateMany` of `suppressDestination`.
unfoldable pub suppress_by_event :
    ℕ → ℕ → SesFeedback → EventRevision → EmailDestination → EmailDestination
suppress_by_event delivery_id event_id feedback revision d = record d {
  status = EmailDestinationStatus.suppressed;
  reason_code = delivery_failure_code feedback.event;
  last_delivery_id = some delivery_id;
  last_event_id = some event_id;
  last = event_revision_data revision;
}

-- The conditions of the two updates of the row with this id.
abbrev pub takes_suppression : ℕ → EventRevision → EmailDestination → Bool
takes_suppression id revision d =
    d.id == id && (not (is_suppressed d) || newer_event_filters revision d.last)

abbrev pub suppressed_later : ℕ → SesFeedback → EmailDestination → Bool
suppressed_later id feedback d =
    d.id == id && null_or (λ at. ltb feedback.provider_timestamp at) d.suppressed_at

-- The two updates.
settle_suppressed :
    ℕ → ℕ → ℕ → SesFeedback → EventRevision → List EmailDestination → List EmailDestination
unfolding suppress_by_event
settle_suppressed id delivery_id event_id feedback revision ds =
    update_many (suppressed_later id feedback)
      (λ d. record d { suppressed_at = some feedback.provider_timestamp })
      (update_many (takes_suppression id revision)
        (suppress_by_event delivery_id event_id feedback revision) ds)

-- `earliestSuppressedAt`
abbrev pub earliest_suppressed_at : SesFeedback → Option ℕ → ℕ
earliest_suppressed_at feedback none = feedback.provider_timestamp
earliest_suppressed_at feedback (some at) =
    if ltb feedback.provider_timestamp at then feedback.provider_timestamp else at

-- The last `updateMany`, for the authoritative row `a`.
pub make_alike : EmailDestination → ℕ → ℕ → EmailDestination → EmailDestination
unfolding authoritative_destination_data
make_alike a at n d = record (authoritative_destination_data a d) {
  status = EmailDestinationStatus.suppressed;
  suppressed_at = some at;
  suppression_revision = n;
}

-- `new_id` stands for the `uuid()` that the database draws for a new row.
module _ (new_id : List EmailDestination → ℕ) where
  -- The row that the `upsert` creates.
  new_suppressed :
      RecipientHash
      → ℕ
      → ℕ
      → SesFeedback
      → EventRevision
      → ℕ
      → List EmailDestination
      → EmailDestination
  new_suppressed h delivery_id event_id feedback revision suppression_revision ds = record {
    id = new_id ds;
    recipient_hash = h.value;
    recipient_hash_key_version = h.key_version;
    status = EmailDestinationStatus.suppressed;
    reason_code = delivery_failure_code feedback.event;
    suppressed_at = some feedback.provider_timestamp;
    last_delivery_id = some delivery_id;
    last_event_id = some event_id;
    last = event_revision_data revision;
    suppression_revision = suppression_revision;
  }

  -- The `upsert`: the table after it, and the id of the row.
  upsert_suppressed :
      RecipientHash
      → ℕ
      → ℕ
      → SesFeedback
      → EventRevision
      → ℕ
      → List EmailDestination
      → List EmailDestination × ℕ
  unfolding new_suppressed
  upsert_suppressed h delivery_id event_id feedback revision suppression_revision ds =
      elim (find_unique (has_key h) ds) [
        | none ↦ (
          ds
              ++ new_suppressed h delivery_id event_id feedback revision suppression_revision ds
                ∷ [],
          new_id ds,
        )
        | some d ↦ (
          update_many (has_key h)
              (λ row. record row { suppression_revision = suppression_revision }) ds,
          d.id,
        )
      ]

  unfoldable pub suppress_destination :
      RecipientHash
      → ℕ
      → ℕ
      → SesFeedback
      → EventRevision
      → ℕ
      → List EmailDestination
      → List EmailDestination
  unfolding upsert_suppressed settle_suppressed
  suppress_destination h delivery_id event_id feedback revision suppression_revision ds =
      let (ds', id) =
        upsert_suppressed h delivery_id event_id feedback revision suppression_revision ds in
      settle_suppressed id delivery_id event_id feedback revision ds'

  -- The `for` loop over the hashes.
  pub suppress_each :
      List RecipientHash
      → ℕ
      → ℕ
      → SesFeedback
      → EventRevision
      → ℕ
      → List EmailDestination
      → List EmailDestination
  suppress_each [] delivery_id event_id feedback revision n ds = ds
  suppress_each (h ∷ hs) delivery_id event_id feedback revision n ds =
      suppress_each hs delivery_id event_id feedback revision n
        (suppress_destination h delivery_id event_id feedback revision n ds)

  -- `none` is the exception of `findFirstOrThrow`, which undoes the transaction.
  unfoldable pub suppress_destination_aliases :
      List RecipientHash
      → ℕ
      → ℕ
      → SesFeedback
      → EventRevision
      → List EmailDestination
      → Option (List EmailDestination)
  unfolding suppress_each make_alike
  suppress_destination_aliases hashes delivery_id event_id feedback revision ds =
      let aliases = find_many (is_alias hashes) ds in
      let n = max_suppression_revision aliases + 1 in
      let each = suppress_each hashes delivery_id event_id feedback revision n ds in
      let at = earliest_suppressed_at feedback (min_suppressed_at aliases) in
      elim (find_authoritative_destination (is_alias hashes) each) [
        | none ↦ none
        | some a ↦ some (update_many (is_alias hashes) (make_alike a at n) each)
      ]
