-- ===== src/Conversion/Messages.antt =====
-- The events of the workers: `parseWorkerEvent` of
-- apps/conversion-api/src/app/events/worker-events.consumer.ts, after `JSON.parse`, and the objects of
-- libs/conversion-contract/src/lib/messages.ts that `JSON.stringify` writes.
pub mod RoundTrip
pub mod Valid
pub mod Contract
pub mod Requests
use backend.Prelude.{
  ℕ, zero, suc, Bool, true, false, not, ◌&&◌, ◌||◌, List, [], ◌∷◌, Option, none, some, ◌==◌, ltb,
  leb, ◌>>=◌, if◌then◌else◌,
}
use backend.Text.{Text, text_eq, codes, is_alphanumeric}
use backend.Conversion.{
  ResultKind, saved, no_savings, sanitized_larger, Mode, lossless, lossy, Strength, low, medium,
  high,
}
use backend.Conversion.Admission.{RetentionClass, short, standard, extended}

-- A field's value; booleans, objects, lists, and numbers that are not natural, are `other_value`.
pub data Value : Type 0 where
  null_value other_value : Value
  text_value : Text → Value
  number_value : ℕ → Value

-- What `JSON.parse` gives: an object with its fields, or something else or an error.
pub data Parsed : Type 0 where
  no_object : Parsed
  object : List (Text × Value) → Parsed

-- The value of a field; `none` is `undefined`.
abbrev pub field : Text → List (Text × Value) → Option Value
field name [] = none
field name ((key, value) ∷ fields) = if text_eq key name then some value else field name fields

-- `isNonEmptyString`
abbrev pub non_empty_text : Option Value → Option Text
non_empty_text (some (text_value (c ∷ s))) = some (c ∷ s)
non_empty_text _ = none

-- `MAX_SIGNED_INT`
abbrev pub max_signed_int : ℕ
max_signed_int = 2147483647

abbrev pub is_positive : ℕ → Bool
is_positive n = ltb 0 n && leb n max_signed_int

-- `isPositiveInteger`
abbrev pub positive_integer : Option Value → Option ℕ
positive_integer (some (number_value n)) = if is_positive n then some n else none
positive_integer _ = none

-- `isNullOrNonEmptyString`
abbrev pub null_or_text : Option Value → Option (Option Text)
null_or_text (some null_value) = some none
null_or_text (some (text_value (c ∷ s))) = some (some (c ∷ s))
null_or_text _ = none

abbrev pub is_base64 : ℕ → Bool
is_base64 c = is_alphanumeric c || c == b'+' || c == b'/'

-- `n` characters of base64 and an equals sign.
abbrev pub base64_then_equals : ℕ → Text → Bool
base64_then_equals zero (c ∷ []) = c == b'='
base64_then_equals zero _ = false
base64_then_equals (suc n) [] = false
base64_then_equals (suc n) (c ∷ s) = is_base64 c && base64_then_equals n s

-- `SHA256_BASE64`
unfoldable pub is_sha256_base64 : Text → Bool
is_sha256_base64 s = base64_then_equals 43 s

abbrev pub kind_name : ResultKind → Text
kind_name saved = codes "SAVED"
kind_name no_savings = codes "NO_SAVINGS"
kind_name sanitized_larger = codes "SANITIZED_LARGER"

-- `isMember(RESULT_KINDS, value)`
unfoldable pub result_kind_of : Option Value → Option ResultKind
result_kind_of (some (text_value s)) =
    if text_eq s (codes "SAVED")
    then some saved
    else if text_eq s (codes "NO_SAVINGS")
    then some no_savings
    else if text_eq s (codes "SANITIZED_LARGER")
    then some sanitized_larger
    else none
result_kind_of _ = none

pub record MessageIdentity : Type 0 where
  pub file_id : Text
  pub batch_id : Text
  pub attempt : ℕ

pub record CompletedMessage : Type 0 where
  pub result_kind : ResultKind
  pub input_format : Text
  pub frame_count : ℕ
  pub output_object_key : Text
  pub output_bytes : ℕ
  pub output_checksum_sha256 : Text
  pub output_format : Text
  pub width : ℕ
  pub height : ℕ
  pub preview_object_key : Option Text

-- `WorkerStartedEvent` and `WorkerResultEvent`
pub data WorkerMessage : Type 0 where
  started_message : MessageIdentity → WorkerMessage
  failed_message : MessageIdentity → (failure_code : Text) → WorkerMessage
  completed_message : MessageIdentity → CompletedMessage → WorkerMessage

unfoldable pub parse_identity : List (Text × Value) → Option MessageIdentity
parse_identity fields = do
  file_id ← non_empty_text (field (codes "fileId") fields)
  batch_id ← non_empty_text (field (codes "batchId") fields)
  attempt ← positive_integer (field (codes "attempt") fields)
  some (record { file_id = file_id; batch_id = batch_id; attempt = attempt })

abbrev check_checksum : Text → Option Text
check_checksum s = if is_sha256_base64 s then some s else none

unfoldable pub parse_completed : List (Text × Value) → Option CompletedMessage
unfolding is_sha256_base64 result_kind_of
parse_completed fields = do
  result_kind ← result_kind_of (field (codes "resultKind") fields)
  input_format ← non_empty_text (field (codes "inputFormat") fields)
  output_format ← non_empty_text (field (codes "outputFormat") fields)
  output_object_key ← non_empty_text (field (codes "outputObjectKey") fields)
  sum ← non_empty_text (field (codes "outputChecksumSha256") fields)
  checksum ← check_checksum sum
  frame_count ← positive_integer (field (codes "frameCount") fields)
  output_bytes ← positive_integer (field (codes "outputBytes") fields)
  width ← positive_integer (field (codes "width") fields)
  height ← positive_integer (field (codes "height") fields)
  preview_object_key ← null_or_text (field (codes "previewObjectKey") fields)
  some (record {
    result_kind = result_kind;
    input_format = input_format;
    frame_count = frame_count;
    output_object_key = output_object_key;
    output_bytes = output_bytes;
    output_checksum_sha256 = checksum;
    output_format = output_format;
    width = width;
    height = height;
    preview_object_key = preview_object_key;
  })

-- `event['type'] === name`
abbrev pub is_text : Text → Option Value → Bool
is_text name (some (text_value s)) = text_eq s name
is_text name _ = false

unfoldable pub parse_result : MessageIdentity → List (Text × Value) → Option WorkerMessage
unfolding parse_completed
parse_result identity fields =
    if is_text (codes "FAILED") (field (codes "outcome") fields)
    then (do
      failure_code ← non_empty_text (field (codes "failureCode") fields)
      some (failed_message identity failure_code))
    else if is_text (codes "COMPLETED") (field (codes "outcome") fields)
    then (do completed ← parse_completed fields; some (completed_message identity completed))
    else none

unfoldable pub parse_by_type : List (Text × Value) → MessageIdentity → Option WorkerMessage
unfolding parse_result
parse_by_type fields identity =
    if is_text (codes "STARTED") (field (codes "type") fields)
    then some (started_message identity)
    else if is_text (codes "RESULT") (field (codes "type") fields)
    then parse_result identity fields
    else none

unfoldable pub parse_worker_event : Parsed → Option WorkerMessage
unfolding parse_identity parse_by_type
parse_worker_event no_object = none
parse_worker_event (object fields) = parse_identity fields >>= parse_by_type fields

abbrev pub null_or_value : Option Text → Value
null_or_value none = null_value
null_or_value (some s) = text_value s

abbrev pub identity_fields : MessageIdentity → List (Text × Value) → List (Text × Value)
identity_fields m rest =
    (codes "fileId", text_value m.file_id)
    ∷ (codes "batchId", text_value m.batch_id)
    ∷ (codes "attempt", number_value m.attempt)
    ∷ rest

abbrev pub completed_fields : MessageIdentity → CompletedMessage → List (Text × Value)
completed_fields m c =
    (codes "type", text_value (codes "RESULT"))
    ∷ identity_fields m (
        (codes "outcome", text_value (codes "COMPLETED"))
        ∷ (codes "resultKind", text_value (kind_name c.result_kind))
        ∷ (codes "inputFormat", text_value c.input_format)
        ∷ (codes "frameCount", number_value c.frame_count)
        ∷ (codes "outputObjectKey", text_value c.output_object_key)
        ∷ (codes "outputBytes", number_value c.output_bytes)
        ∷ (codes "outputChecksumSha256", text_value c.output_checksum_sha256)
        ∷ (codes "outputFormat", text_value c.output_format)
        ∷ (codes "width", number_value c.width)
        ∷ (codes "height", number_value c.height)
        ∷ (codes "previewObjectKey", null_or_value c.preview_object_key)
        ∷ [])

-- The object of a message, as the worker publishes it.
abbrev pub event_object : WorkerMessage → Parsed
event_object (started_message m) =
    object ((codes "type", text_value (codes "STARTED")) ∷ identity_fields m [])
event_object (failed_message m failure_code) = object (
    (codes "type", text_value (codes "RESULT"))
    ∷ identity_fields m (
        (codes "outcome", text_value (codes "FAILED"))
        ∷ (codes "failureCode", text_value failure_code)
        ∷ []))
event_object (completed_message m c) = object (completed_fields m c)
