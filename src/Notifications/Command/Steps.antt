-- ===== src/Notifications/Command/Steps.antt =====
-- `finalizeSubmission`, `persistProviderOutcome`, and the steps of commands, the sweep and feedback
-- that change deliveries.
use backend.Prelude.{
  ℕ, ◌≡◌, Bool, false, ◌&&◌, ◌||◌, List, Option, none, some, ◌==◌, is_null, non_null_and, any,
  if◌then◌else◌, update_many, count_where, find_unique,
}
use backend.Notifications.Feedback.{SesFeedback, EmailDeliveryStatus}
use backend.Notifications.Revision.{EventRevision}
use backend.Notifications.Delivery.{
  EmailDelivery, record_provider_acceptance, apply_delivery_transition,
}
use backend.Notifications.Destination.{RecipientHash, EmailDestination}
use backend.Notifications.Command.{
  SesSubmissionResult, sent, leaves_unknown, is_pending, is_unknown, submission_result,
  status_of_result, submission_code, SendSecurityEmailRequest, expire_stale_claims, expire_claim,
  claim_delivery, claim_attempt,
}

abbrev pub has_no_message : ℕ → EmailDelivery → Bool
has_no_message id d = d.id == id && is_null d.provider_message_id

abbrev pub set_message : ℕ → EmailDelivery → EmailDelivery
set_message message_id d = record d { provider_message_id = some message_id }

abbrev pub is_unsubmitted : ℕ → EmailDelivery → Bool
is_unsubmitted id d = d.id == id && is_null d.submitted_at

abbrev pub set_submitted : ℕ → EmailDelivery → EmailDelivery
set_submitted now d = record d { submitted_at = some now }

-- The part of `persistProviderOutcome` for an accepted submission; `none` is the thrown error.
unfoldable pub attach_message : ℕ → ℕ → ℕ → List EmailDelivery → Option (List EmailDelivery)
attach_message id message_id now ds =
    let attached = update_many (has_no_message id) (set_message message_id) ds in
    let stamped = update_many (is_unsubmitted id) (set_submitted now) attached in
    if count_where (has_no_message id) ds == 0
    then elim (find_unique (λ (d : EmailDelivery). d.id == id) attached) [
      | none ↦ none
      | some d ↦
          if non_null_and (λ m. m == message_id) d.provider_message_id then some stamped else none
    ]
    else some stamped

-- `replaceableStatuses.includes(status)`
abbrev pub is_replaceable : SesSubmissionResult → EmailDeliveryStatus → Bool
is_replaceable (leaves_unknown _) status = is_pending status
is_replaceable _ status = is_pending status || is_unknown status

abbrev pub takes_outcome : ℕ → SesSubmissionResult → EmailDelivery → Bool
takes_outcome id submission d = d.id == id && is_replaceable submission d.status

abbrev pub set_outcome : SesSubmissionResult → EmailDelivery → EmailDelivery
set_outcome submission d = record d {
  status = status_of_result (submission_result submission);
  failure_code = submission_code submission;
  lease_expires_at = none;
}

-- The last update of `persistProviderOutcome`.
unfoldable pub replace_status : ℕ → SesSubmissionResult → List EmailDelivery → List EmailDelivery
replace_status id submission = update_many (takes_outcome id submission) (set_outcome submission)

unfoldable pub persist_provider_outcome :
    ℕ → SesSubmissionResult → ℕ → List EmailDelivery → Option (List EmailDelivery)
unfolding attach_message replace_status
persist_provider_outcome id (sent message_id) now ds = elim (attach_message id message_id now ds) [
  | none ↦ none
  | some ds' ↦ some (replace_status id (sent message_id) ds')
]
persist_provider_outcome id submission now ds = some (replace_status id submission ds)

abbrev pub is_unanswered : ℕ → EmailDelivery → Bool
is_unanswered id d = d.id == id && is_null d.caller_result

abbrev pub set_answer : SesSubmissionResult → ℕ → EmailDelivery → EmailDelivery
set_answer submission now d = record d {
  caller_result = some (submission_result submission);
  caller_result_code = submission_code submission;
  lease_expires_at = none;
  finalized_at = some now;
}

-- The second update of `finalizeSubmission`.
unfoldable pub record_result : ℕ → SesSubmissionResult → ℕ → List EmailDelivery → List EmailDelivery
record_result id submission now = update_many (is_unanswered id) (set_answer submission now)

unfoldable pub finalize_submission :
    ℕ → SesSubmissionResult → ℕ → List EmailDelivery → Option (List EmailDelivery)
unfolding persist_provider_outcome record_result
finalize_submission id submission now ds = elim (persist_provider_outcome id submission now ds) [
  | none ↦ none
  | some ds' ↦ some (record_result id submission now ds')
]

abbrev pub may_attach : ℕ → ℕ → EmailDelivery → Bool
may_attach id message_id d =
    d.id == id
    && (is_null d.provider_message_id || non_null_and (λ m. m == message_id) d.provider_message_id)

-- `attachProviderMessageId` of apps/notifications/src/app/feedback/ses-feedback.processor.ts, for a
-- delivery whose message id is another; `none` is the thrown error.
unfoldable pub attach_provider_message_id : ℕ → ℕ → List EmailDelivery → Option (List EmailDelivery)
attach_provider_message_id id message_id ds =
    if count_where (may_attach id message_id) ds == 1
    then some (update_many (may_attach id message_id) (set_message message_id) ds)
    else none

-- One statement or transaction of the commands, their submissions, the sweep of stale claims, or the
-- provider feedback, by any of the workers that share the table, in any order. The deletion of old
-- rows, of apps/notifications/src/app/operations/email-retention.service.ts, is not one of them. A
-- new row's primary key is one that the table does not have.
pub data Step (ds : List EmailDelivery) : List EmailDelivery → Type 0 where
  claims :
      (fingerprint : ℕ → ℕ) (new_id : List EmailDelivery → ℕ) (request : SendSecurityEmailRequest)
      (h : RecipientHash) (hashes : List RecipientHash) (now lease_ms : ℕ)
      (destinations : List EmailDestination)
      → any (λ (d : EmailDelivery). d.id == new_id ds) ds ≡ false
      → Step ds (claim_delivery fingerprint new_id request h hashes now lease_ms destinations ds).1
  attempts : (id : ℕ) → Step ds (claim_attempt id ds).0
  finalizes :
      (id : ℕ) (submission : SesSubmissionResult) (now : ℕ) (ds' : List EmailDelivery)
      → finalize_submission id submission now ds ≡ some ds'
      → Step ds ds'
  expires : (id now : ℕ) → Step ds (expire_claim id now ds)
  sweeps : (now : ℕ) → Step ds (expire_stale_claims now ds)
  attaches :
      (id message_id : ℕ) (ds' : List EmailDelivery)
      → attach_provider_message_id id message_id ds ≡ some ds'
      → Step ds ds'
  accepts :
      (now id : ℕ) (feedback : SesFeedback)
      → Step ds (record_provider_acceptance now id feedback ds)
  transitions :
      (id : ℕ) (feedback : SesFeedback) (revision : EventRevision)
      → Step ds (apply_delivery_transition id feedback revision ds)

pub data Reach (ds : List EmailDelivery) : List EmailDelivery → Type 0 where
  here : Reach ds ds
  next : {ds' ds'' : List EmailDelivery} → Reach ds ds' → Step ds' ds'' → Reach ds ds''
