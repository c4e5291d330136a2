-- ===== src/Conversion/Messages/Requests.antt =====
-- The requests of the API to the workers: `parseConversionRequest` of
-- apps/conversion-worker/src/app/queue/queue-consumer.service.ts, and that it reads what the API writes.
use backend.Prelude.{◌≡◌, refl, true, [], ◌∷◌, Option, none, some, ◌>>=◌, if◌then◌else◌}
use backend.Text.{Text, text_eq, codes}
use backend.Conversion.{Mode, lossless, lossy, Strength, low, medium, high}
use backend.Conversion.Admission.{RetentionClass, short, standard, extended}
use backend.Conversion.Messages.{
  Value, text_value, Parsed, no_object, object, field, non_empty_text, is_text,
}
use backend.Conversion.Messages.RoundTrip.{is_non_empty, non_empty_text-text_value}

-- `ConversionRequestMessage`
pub record RequestMessage : Type 0 where
  pub file_id : Text
  pub batch_id : Text
  pub input_object_key : Text
  pub input_etag : Text
  pub output_retention : RetentionClass
  pub mode : Mode
  pub strength : Strength

-- A text that is not one of the names, or no text, is the default.
unfoldable pub retention_of : Option Value → RetentionClass
retention_of value =
    if is_text (codes "short") value
    then short
    else if is_text (codes "extended") value
    then extended
    else standard

unfoldable pub mode_of : Option Value → Mode
mode_of value = if is_text (codes "LOSSLESS") value then lossless else lossy

unfoldable pub strength_of : Option Value → Strength
strength_of value =
    if is_text (codes "MEDIUM") value
    then medium
    else if is_text (codes "HIGH") value
    then high
    else low

unfoldable pub parse_conversion_request : Parsed → Option RequestMessage
unfolding retention_of mode_of strength_of
parse_conversion_request no_object = none
parse_conversion_request (object fields) = do
  file_id ← non_empty_text (field (codes "fileId") fields)
  batch_id ← non_empty_text (field (codes "batchId") fields)
  input_object_key ← non_empty_text (field (codes "inputObjectKey") fields)
  input_etag ← non_empty_text (field (codes "inputEtag") fields)
  some (record {
    file_id = file_id;
    batch_id = batch_id;
    input_object_key = input_object_key;
    input_etag = input_etag;
    output_retention = retention_of (field (codes "outputRetention") fields);
    mode = mode_of (field (codes "mode") fields);
    strength = strength_of (field (codes "strength") fields);
  })

abbrev pub retention_name : RetentionClass → Text
retention_name short = codes "short"
retention_name standard = codes "standard"
retention_name extended = codes "extended"

abbrev pub mode_name : Mode → Text
mode_name lossless = codes "LOSSLESS"
mode_name lossy = codes "LOSSY"

abbrev pub strength_name : Strength → Text
strength_name low = codes "LOW"
strength_name medium = codes "MEDIUM"
strength_name high = codes "HIGH"

-- The payload that the outbox sends.
abbrev pub request_object : RequestMessage → Parsed
request_object m = object (
    (codes "fileId", text_value m.file_id)
    ∷ (codes "batchId", text_value m.batch_id)
    ∷ (codes "inputObjectKey", text_value m.input_object_key)
    ∷ (codes "inputEtag", text_value m.input_etag)
    ∷ (codes "outputRetention", text_value (retention_name m.output_retention))
    ∷ (codes "mode", text_value (mode_name m.mode))
    ∷ (codes "strength", text_value (strength_name m.strength))
    ∷ [])

retention_of-retention_name :
    (r : RetentionClass) → retention_of (some (text_value (retention_name r))) ≡ r
unfolding retention_of text_eq
retention_of-retention_name short = refl
retention_of-retention_name standard = refl
retention_of-retention_name extended = refl

mode_of-mode_name : (m : Mode) → mode_of (some (text_value (mode_name m))) ≡ m
unfolding mode_of text_eq
mode_of-mode_name lossless = refl
mode_of-mode_name lossy = refl

strength_of-strength_name : (s : Strength) → strength_of (some (text_value (strength_name s))) ≡ s
unfolding strength_of text_eq
strength_of-strength_name low = refl
strength_of-strength_name medium = refl
strength_of-strength_name high = refl

-- A request whose identifiers, key and e-tag are not empty is parsed from its object to itself.
pub parse_conversion_request-request_object :
    (m : RequestMessage)
    → is_non_empty m.file_id ≡ true
    → is_non_empty m.batch_id ≡ true
    → is_non_empty m.input_object_key ≡ true
    → is_non_empty m.input_etag ≡ true
    → parse_conversion_request (request_object m) ≡ some m
unfolding parse_conversion_request text_eq
parse_conversion_request-request_object m a b c d = rw (non_empty_text-text_value m.file_id a) (
    rw (non_empty_text-text_value m.batch_id b) (
      rw (non_empty_text-text_value m.input_object_key c) (
        rw (non_empty_text-text_value m.input_etag d) (
          rw (retention_of-retention_name m.output_retention)
            (rw (mode_of-mode_name m.mode) (rw (strength_of-strength_name m.strength) refl))))))
