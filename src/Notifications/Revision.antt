-- ===== src/Notifications/Revision.antt =====
-- The revision of an event, by which the rows of deliveries and destinations are ordered:
-- `EventRevision`, `createEventRevision` and `newerEventFilters` of
-- apps/notifications/src/app/feedback/ses-feedback-transitions.ts. A fingerprint is a hexadecimal
-- digest of fixed length, here the number that it spells.
use backend.Prelude.{
  ℕ, ◌<◌, ◌≡◌, ◌⊎◌, ◌↔◌, Bool, true, ◌&&◌, ◌||◌, Option, none, some, arith, ltb, ◌==◌, is_null,
  non_null_and,
}
use backend.Notifications.Feedback.{SesFeedback, feedback_precedence}

pub record EventRevision : Type 0 where
  pub occurred_at : ℕ
  pub rank : ℕ
  pub fingerprint : ℕ

unfoldable pub create_event_revision : ℕ → SesFeedback → EventRevision
create_event_revision semantic_fingerprint feedback = record {
  occurred_at = feedback.provider_timestamp;
  rank = feedback_precedence feedback.event;
  fingerprint = semantic_fingerprint;
}

-- The columns of a row that hold its last event's revision.
pub record LastEvent : Type 0 where
  pub last_event_at : Option ℕ
  pub last_event_rank : Option ℕ
  pub last_event_fingerprint : Option ℕ

unfoldable pub event_revision_data : EventRevision → LastEvent
event_revision_data r = record {
  last_event_at = some r.occurred_at;
  last_event_rank = some r.rank;
  last_event_fingerprint = some r.fingerprint;
}

-- The six alternatives of the `OR`, in their order.
unfoldable pub newer_event_filters : EventRevision → LastEvent → Bool
newer_event_filters r row =
    is_null row.last_event_at
    || non_null_and (λ at. ltb at r.occurred_at) row.last_event_at
    || (at_same_time && is_null row.last_event_rank)
    || (at_same_time && non_null_and (λ k. ltb k r.rank) row.last_event_rank)
    || (at_same_time && same_rank && is_null row.last_event_fingerprint)
    || (at_same_time
        && same_rank
        && non_null_and (λ f. ltb f r.fingerprint) row.last_event_fingerprint)
  where
    at_same_time : Bool
    at_same_time = non_null_and (λ at. at == r.occurred_at) row.last_event_at

    same_rank : Bool
    same_rank = non_null_and (λ k. k == r.rank) row.last_event_rank

-- The order of revisions: by time, then by rank, then by fingerprint.
abbrev pub IsNewer : EventRevision → EventRevision → Type 0
IsNewer r s =
    (s.occurred_at < r.occurred_at)
    ⊎ ((s.occurred_at ≡ r.occurred_at)
        × ((s.rank < r.rank) ⊎ ((s.rank ≡ r.rank) × (s.fingerprint < r.fingerprint))))

-- The `where` clause admits an event to a row that holds revision `s` exactly when the event's
-- revision is newer in the lexicographic order.
pub newer_event_filters-IsNewer :
    (r s : EventRevision) → (newer_event_filters r (event_revision_data s) ≡ true) ↔ IsNewer r s
unfolding newer_event_filters event_revision_data
newer_event_filters-IsNewer r s = ground arith

-- A row that has seen no event takes any.
pub newer_event_filters-first :
    (r : EventRevision) (row : LastEvent)
    → row.last_event_at ≡ none
    → newer_event_filters r row ≡ true
unfolding newer_event_filters
newer_event_filters-first r row h = ground arith

pub IsNewer-irrefl : (r : EventRevision) → ¬ IsNewer r r
IsNewer-irrefl r h = omega arith

pub IsNewer-trans : (r s t : EventRevision) → IsNewer r s → IsNewer s t → IsNewer r t
IsNewer-trans r s t h k = ground arith
