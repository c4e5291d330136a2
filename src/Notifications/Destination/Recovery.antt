-- ===== src/Notifications/Destination/Recovery.antt =====
-- apps/notifications/src/app/operations/email-recovery.service.ts: an operator asks for, completes or
-- fails the recovery of a suppressed address. A transaction is one step on the two tables.
pub mod Evidence
pub mod Moves
pub mod Stale
pub mod Replay
use backend.Prelude.{
  ℕ, ◌+◌, ◌≡◌, Bool, true, false, not, ◌&&◌, ◌||◌, List, [], ◌∷◌, ◌++◌, map, Option, none, some,
  ◌==◌, max, length, any, all, if◌then◌else◌, is_null, update_many, count_where, find_many,
}
use backend.Text.{Text, text_eq}
use backend.Notifications.Feedback.{EmailDestinationStatus, active, temporary_failure}
use backend.Notifications.Destination.{RecipientHash, EmailDestination, is_alias}
use backend.Notifications.Destination.Suppress.{max_suppression_revision}
use Evidence.{RecoveryEvidence, EmailRecoveryAction, requested, completed, is_valid_evidence}

pub record EmailRecoveryAudit : Type 0 where
  pub destination_id : ℕ
  pub operation_id : Text
  pub action : EmailRecoveryAction
  pub actor_id : Text
  pub reason_code : Text
  pub evidence_reference : Text
  pub provider_request_id : Option Text
  pub previous_status : EmailDestinationStatus
  pub next_status : EmailDestinationStatus
  pub suppression_revision : ℕ

pub record RecoveryTables : Type 0 where
  pub destinations : List EmailDestination
  pub audits : List EmailRecoveryAudit

-- The thrown errors: a plain `Error`, `EmailRecoveryStateError`, `EmailRecoveryOperationConflictError`.
pub data RecoveryError : Type 0 where
  invalid_evidence state_error operation_conflict : RecoveryError

pub data RecoveryResult : Type 0 where
  done : RecoveryTables → RecoveryResult
  err : RecoveryError → RecoveryResult

-- `===` on statuses, actions and nullable texts.
unfoldable pub status_eq : EmailDestinationStatus → EmailDestinationStatus → Bool
status_eq active active = true
status_eq temporary_failure temporary_failure = true
status_eq EmailDestinationStatus.suppressed EmailDestinationStatus.suppressed = true
status_eq EmailDestinationStatus.recovery_pending EmailDestinationStatus.recovery_pending = true
status_eq _ _ = false

unfoldable pub action_eq : EmailRecoveryAction → EmailRecoveryAction → Bool
action_eq requested requested = true
action_eq completed completed = true
action_eq EmailRecoveryAction.failed EmailRecoveryAction.failed = true
action_eq _ _ = false

unfoldable pub optional_text_eq : Option Text → Option Text → Bool
optional_text_eq none none = true
optional_text_eq (some a) (some b) = text_eq a b
optional_text_eq _ _ = false

-- `destinationUpdate`
unfoldable pub destination_update : EmailDestinationStatus → EmailDestination → EmailDestination
destination_update active d = record d { status = active; reason_code = none; suppressed_at = none }
destination_update next d = record d { status = next }

-- `Math.max` over the audits' revisions.
unfoldable pub max_audit_revision : List EmailRecoveryAudit → ℕ
max_audit_revision [] = 0
max_audit_revision (a ∷ audits) = max a.suppression_revision (max_audit_revision audits)

-- The callback of `audits.every` in `isExactReplay`.
unfoldable pub is_replayed :
    List EmailDestination
    → EmailDestinationStatus
    → EmailDestinationStatus
    → EmailRecoveryAction
    → RecoveryEvidence
    → EmailRecoveryAudit
    → Bool
is_replayed rows previous next action evidence audit =
    any (λ (d : EmailDestination). d.id == audit.destination_id) rows
    && action_eq audit.action action
    && text_eq audit.actor_id evidence.actor_id
    && text_eq audit.reason_code evidence.reason_code
    && text_eq audit.evidence_reference evidence.evidence_reference
    && optional_text_eq audit.provider_request_id evidence.provider_request_id
    && status_eq audit.previous_status previous
    && status_eq audit.next_status next

unfoldable pub is_exact_replay :
    List EmailRecoveryAudit
    → List EmailDestination
    → EmailDestinationStatus
    → EmailDestinationStatus
    → EmailRecoveryAction
    → RecoveryEvidence
    → Bool
is_exact_replay audits rows previous next action evidence =
    max_audit_revision audits == evidence.expected_suppression_revision
    && all (is_replayed rows previous next action evidence) audits

-- `assertExpectedState`
unfoldable pub is_expected_state :
    List EmailDestination → EmailDestinationStatus → RecoveryEvidence → Bool
is_expected_state rows expected evidence =
    not (any (λ (d : EmailDestination). not (status_eq d.status expected)) rows)
    && max_suppression_revision rows == evidence.expected_suppression_revision

-- The `where` of the `updateMany`: one alternative for each row that was read.
unfoldable pub is_read_row :
    List EmailDestination → EmailDestinationStatus → EmailDestination → Bool
is_read_row rows expected d =
    any
      (λ (r : EmailDestination).
        d.id == r.id
        && status_eq d.status expected
        && d.suppression_revision == r.suppression_revision)
      rows

unfoldable pub audit_of :
    EmailDestinationStatus
    → EmailDestinationStatus
    → EmailRecoveryAction
    → RecoveryEvidence
    → EmailDestination
    → EmailRecoveryAudit
audit_of previous next action evidence d = record {
  destination_id = d.id;
  operation_id = evidence.operation_id;
  action = action;
  actor_id = evidence.actor_id;
  reason_code = evidence.reason_code;
  evidence_reference = evidence.evidence_reference;
  provider_request_id = evidence.provider_request_id;
  previous_status = previous;
  next_status = next;
  suppression_revision = d.suppression_revision;
}

abbrev pub is_empty {ℓ} : {A : Type ℓ} → List A → Bool
is_empty [] = true
is_empty (x ∷ xs) = false

abbrev pub has_operation : RecoveryEvidence → EmailRecoveryAudit → Bool
has_operation evidence audit = text_eq audit.operation_id evidence.operation_id

-- The end of the transaction, for the rows that were read.
unfoldable pub move_rows :
    EmailDestinationStatus
    → EmailDestinationStatus
    → EmailRecoveryAction
    → RecoveryEvidence
    → List EmailDestination
    → RecoveryTables
    → RecoveryResult
move_rows expected next action evidence rows t =
    if not (is_expected_state rows expected evidence)
    then err state_error
    else if not (count_where (is_read_row rows expected) t.destinations == length rows)
    then err state_error
    else done (record {
      destinations =
          update_many (is_read_row rows expected) (destination_update next) t.destinations;
      audits = t.audits ++ map (audit_of expected next action evidence) rows;
    })

-- `transition`, for the hashes of the address; `is_uuid` is `isUUID(…, '4')` of class-validator.
unfoldable pub transition :
    (Text → Bool)
    → List RecipientHash
    → EmailDestinationStatus
    → EmailDestinationStatus
    → EmailRecoveryAction
    → RecoveryEvidence
    → RecoveryTables
    → RecoveryResult
transition is_uuid hashes expected next action evidence t =
    let rows = find_many (is_alias hashes) t.destinations in
    let existing = find_many (has_operation evidence) t.audits in
    if not (is_valid_evidence is_uuid evidence action)
    then err invalid_evidence
    else if is_empty rows
    then err state_error
    else if not (is_empty existing)
    then (if is_exact_replay existing rows expected next action evidence
        then done t
        else err operation_conflict)
    else move_rows expected next action evidence rows t

module _ (is_uuid : Text → Bool) (hashes : List RecipientHash) (evidence : RecoveryEvidence) where
  unfoldable pub request_recovery : RecoveryTables → RecoveryResult
  request_recovery =
      transition is_uuid hashes EmailDestinationStatus.suppressed
        EmailDestinationStatus.recovery_pending requested evidence

  unfoldable pub complete_recovery : RecoveryTables → RecoveryResult
  complete_recovery =
      transition is_uuid hashes EmailDestinationStatus.recovery_pending active completed evidence

  unfoldable pub fail_recovery : RecoveryTables → RecoveryResult
  fail_recovery =
      transition is_uuid hashes EmailDestinationStatus.recovery_pending
        EmailDestinationStatus.suppressed EmailRecoveryAction.failed evidence
