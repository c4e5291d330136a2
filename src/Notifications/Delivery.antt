-- ===== src/Notifications/Delivery.antt =====
-- The `email_deliveries` table (apps/notifications/prisma/schema.prisma) and what provider feedback
-- does to its rows: `recordProviderAcceptance` and `applyDeliveryTransition` of
-- apps/notifications/src/app/feedback/ses-feedback-transitions.ts.
pub mod Convergence
pub mod Order
pub mod SoftBounce
use backend.Prelude.{
  ℕ, ◌≡◌, Bool, true, false, not, ◌&&◌, ◌||◌, List, Option, none, some, ◌==◌, is_null,
  if◌then◌else◌, update_many,
}
use backend.Text.{Text}
use backend.Notifications.Feedback.{
  SesFeedback, EmailDeliveryStatus, bounced, complained, is_terminal_mailbox_event, delivery_status,
  delivery_failure_code,
}
use backend.Notifications.Revision.{
  EventRevision, LastEvent, event_revision_data, newer_event_filters,
}

pub data EmailPurpose : Type 0 where
  email_verification password_reset : EmailPurpose

pub data EmailCommandResult : Type 0 where
  accepted failed rejected suppressed submission_unknown : EmailCommandResult

pub record EmailDelivery : Type 0 where
  pub id : ℕ
  pub request_id : ℕ
  pub public_subject : ℕ
  pub recipient_hash : ℕ
  pub recipient_hash_key_version : ℕ
  pub purpose : EmailPurpose
  pub content_version : ℕ
  pub token_fingerprint : ℕ
  pub status : EmailDeliveryStatus
  pub caller_result : Option EmailCommandResult
  pub caller_result_code : Option Text
  pub provider_message_id : Option ℕ
  pub attempt_count : ℕ
  pub lease_expires_at : Option ℕ
  pub failure_code : Option Text
  pub submitted_at : Option ℕ
  pub finalized_at : Option ℕ
  pub last : LastEvent

-- `TERMINAL_DELIVERY_STATUSES.includes(status)`
unfoldable pub is_terminal_delivery_status : EmailDeliveryStatus → Bool
is_terminal_delivery_status bounced = true
is_terminal_delivery_status complained = true
is_terminal_delivery_status EmailDeliveryStatus.suppressed = true
is_terminal_delivery_status _ = false

abbrev by_id : ℕ → EmailDelivery → Bool
by_id id d = d.id == id

abbrev pub awaits_submission : ℕ → EmailDelivery → Bool
awaits_submission id d = by_id id d && is_null d.submitted_at

abbrev pub awaits_answer : ℕ → EmailDelivery → Bool
awaits_answer id d = by_id id d && is_null d.caller_result

unfoldable pub accept_submission : SesFeedback → EmailDelivery → EmailDelivery
accept_submission feedback d = record d { submitted_at = some feedback.mail_timestamp }

unfoldable pub accept_command : ℕ → EmailDelivery → EmailDelivery
accept_command now d = record d {
  caller_result = some EmailCommandResult.accepted;
  caller_result_code = none;
  lease_expires_at = none;
  finalized_at = some now;
}

-- `now` is the `new Date()` of the second update.
unfoldable pub record_provider_acceptance :
    ℕ → ℕ → SesFeedback → List EmailDelivery → List EmailDelivery
unfolding accept_submission accept_command
record_provider_acceptance now id feedback deliveries =
    let submitted = update_many (awaits_submission id) (accept_submission feedback) deliveries in
    update_many (awaits_answer id) (accept_command now) submitted

-- The condition on the row, in both branches of `applyDeliveryTransition`.
unfoldable pub takes_event : SesFeedback → EventRevision → EmailDelivery → Bool
takes_event feedback revision d =
    if is_terminal_mailbox_event feedback.event
    then not (is_terminal_delivery_status d.status) || newer_event_filters revision d.last
    else not (is_terminal_delivery_status d.status) && newer_event_filters revision d.last

-- The `data` of `applyDeliveryTransition`.
unfoldable pub store_event : SesFeedback → EventRevision → EmailDelivery → EmailDelivery
store_event feedback revision d = record d {
  status = delivery_status feedback.event;
  failure_code = delivery_failure_code feedback.event;
  last = event_revision_data revision;
}

abbrev pub is_transitioned : ℕ → SesFeedback → EventRevision → EmailDelivery → Bool
is_transitioned id feedback revision d = by_id id d && takes_event feedback revision d

unfoldable pub apply_delivery_transition :
    ℕ → SesFeedback → EventRevision → List EmailDelivery → List EmailDelivery
unfolding takes_event store_event
apply_delivery_transition id feedback revision =
    update_many (is_transitioned id feedback revision) (store_event feedback revision)
