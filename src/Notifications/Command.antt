-- ===== src/Notifications/Command.antt =====
-- The command that sends a security e-mail: the transactions of
-- apps/notifications/src/app/delivery/security-email.service.ts on the table of deliveries, with
-- apps/notifications/src/app/delivery/delivery-lease.ts. Each function is one transaction or one
-- statement; the calls of Amazon SES stand between them.
pub mod Steps
pub mod Moves
pub mod WriteOnce
pub mod SubmitOnce
use backend.Prelude.{
  ℕ, ◌+◌, ◌≡◌, Bool, true, false, not, ◌&&◌, ◌||◌, List, [], ◌∷◌, ◌++◌, Option, none, some, ◌==◌,
  leb, any, is_null, non_null_and, if◌then◌else◌, update_many, count_where, find_unique,
}
use backend.Text.{Text, codes}
use backend.Notifications.Feedback.{EmailDeliveryStatus}
use backend.Notifications.Revision.{LastEvent}
use backend.Notifications.Delivery.{
  EmailDelivery, EmailPurpose, email_verification, password_reset, EmailCommandResult, accepted,
  failed, rejected, submission_unknown, is_terminal_delivery_status,
}
use backend.Notifications.Destination.{RecipientHash, EmailDestination, is_alias, is_blocked}

pub record SendSecurityEmailRequest : Type 0 where
  pub request_id : ℕ
  pub public_subject : ℕ
  pub purpose : EmailPurpose
  pub content_version : ℕ
  pub token : ℕ

-- `SesSubmissionResult` of apps/notifications/src/app/delivery/ses-email.service.ts.
pub data SesSubmissionResult : Type 0 where
  sent : (message_id : ℕ) → SesSubmissionResult
  fails rejects leaves_unknown : (code : Text) → SesSubmissionResult

abbrev pub is_pending : EmailDeliveryStatus → Bool
is_pending EmailDeliveryStatus.pending = true
is_pending _ = false

abbrev pub is_unknown : EmailDeliveryStatus → Bool
is_unknown EmailDeliveryStatus.submission_unknown = true
is_unknown _ = false

abbrev lease_expired_code : Option Text
lease_expired_code = some (codes "SUBMISSION_LEASE_EXPIRED")

unfoldable pub expired_lease_filter : ℕ → EmailDelivery → Bool
expired_lease_filter expired_at d =
    is_pending d.status
    && is_null d.caller_result
    && non_null_and (λ at. leb at expired_at) d.lease_expires_at

unfoldable pub expired_lease_update : ℕ → EmailDelivery → EmailDelivery
expired_lease_update expired_at d = record d {
  status = EmailDeliveryStatus.submission_unknown;
  caller_result = some submission_unknown;
  caller_result_code = lease_expired_code;
  failure_code = lease_expired_code;
  lease_expires_at = none;
  finalized_at = some expired_at;
}

-- `expireStaleClaims` of
-- apps/notifications/src/app/operations/email-submission-reconciliation.service.ts.
unfoldable pub expire_stale_claims : ℕ → List EmailDelivery → List EmailDelivery
unfolding expired_lease_filter expired_lease_update
expire_stale_claims now = update_many (expired_lease_filter now) (expired_lease_update now)

abbrev pub is_expired_claim : ℕ → ℕ → EmailDelivery → Bool
is_expired_claim id now d = d.id == id && expired_lease_filter now d

-- The update of `expireClaim`.
unfoldable pub expire_claim : ℕ → ℕ → List EmailDelivery → List EmailDelivery
unfolding expired_lease_filter expired_lease_update
expire_claim id now = update_many (is_expired_claim id now) (expired_lease_update now)

-- `matchesRecipientHash` and the rest of `assertSameCommand`; `fingerprint` is the SHA-256 of the
-- token.
abbrev same_purpose : EmailPurpose → EmailPurpose → Bool
same_purpose email_verification email_verification = true
same_purpose password_reset password_reset = true
same_purpose _ _ = false

unfoldable pub is_same_command :
    (ℕ → ℕ) → SendSecurityEmailRequest → List RecipientHash → EmailDelivery → Bool
is_same_command fingerprint request hashes d =
    d.public_subject == request.public_subject
    && any
        (λ (h : RecipientHash).
          d.recipient_hash == h.value && d.recipient_hash_key_version == h.key_version)
        hashes
    && same_purpose d.purpose request.purpose
    && d.content_version == request.content_version
    && d.token_fingerprint == fingerprint request.token

pub data Claim : Type 0 where
  conflict : Claim
  existing : EmailDelivery → Claim
  created : EmailDelivery → (is_new : Bool) → Claim

-- The row that `claimDelivery` creates; its other columns have their defaults.
unfoldable pub new_delivery :
    (ℕ → ℕ) → ℕ → SendSecurityEmailRequest → RecipientHash → ℕ → ℕ → Bool → EmailDelivery
new_delivery fingerprint id request h now lease_ms blocked = record {
  id = id;
  request_id = request.request_id;
  public_subject = request.public_subject;
  recipient_hash = h.value;
  recipient_hash_key_version = h.key_version;
  purpose = request.purpose;
  content_version = request.content_version;
  token_fingerprint = fingerprint request.token;
  status = if blocked then EmailDeliveryStatus.suppressed else EmailDeliveryStatus.pending;
  caller_result = if blocked then some EmailCommandResult.suppressed else none;
  caller_result_code = if blocked then some (codes "DESTINATION_SUPPRESSED") else none;
  provider_message_id = none;
  attempt_count = 0;
  lease_expires_at = if blocked then none else some (now + lease_ms);
  failure_code = if blocked then some (codes "DESTINATION_SUPPRESSED") else none;
  submitted_at = none;
  finalized_at = if blocked then some now else none;
  last = record { last_event_at = none; last_event_rank = none; last_event_fingerprint = none };
}

-- The transaction of `claimDelivery`: what it returns, and the table after it. Its retry after a
-- unique-constraint error takes the branch of the existing row.
unfoldable pub claim_delivery :
    (ℕ → ℕ)
    → (List EmailDelivery → ℕ)
    → SendSecurityEmailRequest
    → RecipientHash
    → List RecipientHash
    → ℕ
    → ℕ
    → List EmailDestination
    → List EmailDelivery
    → Claim × List EmailDelivery
claim_delivery fingerprint new_id request h hashes now lease_ms destinations ds =
    elim (find_unique (λ (d : EmailDelivery). d.request_id == request.request_id) ds) [
      | some d ↦ (if is_same_command fingerprint request hashes d then existing d else conflict, ds)
      | none ↦
          let blocked = any (λ d. is_blocked d && is_alias hashes d) destinations in
          let d = new_delivery fingerprint (new_id ds) request h now lease_ms blocked in
          (created d (not blocked), ds ++ d ∷ [])
    ]

abbrev pub is_unattempted : ℕ → EmailDelivery → Bool
is_unattempted id d = d.id == id && is_pending d.status && d.attempt_count == 0

abbrev pub mark_attempted : EmailDelivery → EmailDelivery
mark_attempted d = record d { attempt_count = 1 }

-- The first statement of `submit`: the table, and the count that must be 1 to go on to SES.
unfoldable pub claim_attempt : ℕ → List EmailDelivery → List EmailDelivery × ℕ
claim_attempt id ds =
    (update_many (is_unattempted id) mark_attempted ds, count_where (is_unattempted id) ds)

-- `EmailCommandResult[submission.status]` and `EmailDeliveryStatus[submission.status]`.
abbrev pub submission_result : SesSubmissionResult → EmailCommandResult
submission_result (sent _) = accepted
submission_result (fails _) = failed
submission_result (rejects _) = rejected
submission_result (leaves_unknown _) = submission_unknown

abbrev pub status_of_result : EmailCommandResult → EmailDeliveryStatus
status_of_result accepted = EmailDeliveryStatus.accepted
status_of_result failed = EmailDeliveryStatus.failed
status_of_result rejected = EmailDeliveryStatus.rejected
status_of_result EmailCommandResult.suppressed = EmailDeliveryStatus.suppressed
status_of_result submission_unknown = EmailDeliveryStatus.submission_unknown

abbrev pub submission_code : SesSubmissionResult → Option Text
submission_code (sent _) = none
submission_code (fails code) = some code
submission_code (rejects code) = some code
submission_code (leaves_unknown code) = some code
