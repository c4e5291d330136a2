-- ===== src/Notifications/Destination.antt =====
-- The `email_destinations` table (apps/notifications/prisma/schema.prisma): one row for each hash of
-- an address, by key version; the rows of one address are its aliases. `RecipientHash`,
-- `recipientHashFilter` and `matchesRecipientHash` of
-- apps/notifications/src/app/delivery/recipient-hash.service.ts.
pub mod Suppress
pub mod Nonterminal
pub mod Transition
pub mod Recovery
use backend.Prelude.{
  ℕ, Bool, true, false, ◌&&◌, ◌||◌, List, [], ◌∷◌, Option, none, some, ◌==◌, ltb, any,
  if◌then◌else◌, find_many,
}
use backend.Text.{Text}
use backend.Notifications.Feedback.{EmailDestinationStatus, suppressed, recovery_pending}
use backend.Notifications.Revision.{LastEvent}

pub record RecipientHash : Type 0 where
  pub value : ℕ
  pub key_version : ℕ

pub record EmailDestination : Type 0 where
  pub id : ℕ
  pub recipient_hash : ℕ
  pub recipient_hash_key_version : ℕ
  pub status : EmailDestinationStatus
  pub reason_code : Option Text
  pub suppressed_at : Option ℕ
  pub last_delivery_id : Option ℕ
  pub last_event_id : Option ℕ
  pub last : LastEvent
  pub suppression_revision : ℕ

-- `where: destinationKey(recipientHash)`
unfoldable pub has_key : RecipientHash → EmailDestination → Bool
has_key h d = d.recipient_hash == h.value && d.recipient_hash_key_version == h.key_version

-- `OR: recipientHashFilter(recipientHashes)`: the row is an alias of the address.
unfoldable pub is_alias : List RecipientHash → EmailDestination → Bool
unfolding has_key
is_alias hashes d = any (λ h. has_key h d) hashes

-- `BLOCKED_DESTINATION_STATUSES.includes(status)`
unfoldable pub is_blocked : EmailDestination → Bool
is_blocked d = elim d.status [
  | EmailDestinationStatus.active ↦ false
  | EmailDestinationStatus.temporary_failure ↦ false
  | EmailDestinationStatus.suppressed ↦ true
  | EmailDestinationStatus.recovery_pending ↦ true
]

unfoldable pub is_suppressed : EmailDestination → Bool
is_suppressed d = elim d.status [
  | EmailDestinationStatus.active ↦ false
  | EmailDestinationStatus.temporary_failure ↦ false
  | EmailDestinationStatus.suppressed ↦ true
  | EmailDestinationStatus.recovery_pending ↦ false
]

-- `sort: 'desc', nulls: 'last'` on one column: whether `a` stands strictly before `b`.
abbrev column_before : Option ℕ → Option ℕ → Bool
column_before none b = false
column_before (some a) none = true
column_before (some a) (some b) = ltb b a

abbrev column_same : Option ℕ → Option ℕ → Bool
column_same none none = true
column_same (some a) (some b) = a == b
column_same _ _ = false

-- The `orderBy` of `findAuthoritativeDestination`: whether row `a` stands strictly before row `b`.
unfoldable pub sorts_before : LastEvent → LastEvent → Bool
sorts_before a b =
    column_before a.last_event_at b.last_event_at
    || (column_same a.last_event_at b.last_event_at
        && (column_before a.last_event_rank b.last_event_rank
            || (column_same a.last_event_rank b.last_event_rank
                && column_before a.last_event_fingerprint b.last_event_fingerprint)))

-- The first of the rows in that order; of rows that tie, the database may give any, here the one
-- that stands first in the table.
first_in_order : List EmailDestination → Option EmailDestination
first_in_order [] = none
first_in_order (d ∷ ds) = elim (first_in_order ds) [
  | none ↦ some d
  | some best ↦ if sorts_before best.last d.last then some best else some d
]

-- `findAuthoritativeDestination`; `none` is the exception of `findFirstOrThrow`.
unfoldable pub find_authoritative_destination :
    (EmailDestination → Bool) → List EmailDestination → Option EmailDestination
unfolding first_in_order sorts_before
find_authoritative_destination where? ds = first_in_order (find_many where? ds)

-- `authoritativeDestinationData`: the columns that are copied from row `a`.
unfoldable pub authoritative_destination_data :
    EmailDestination → EmailDestination → EmailDestination
authoritative_destination_data a d = record d {
  reason_code = a.reason_code;
  last_delivery_id = a.last_delivery_id;
  last_event_id = a.last_event_id;
  last = a.last;
}
