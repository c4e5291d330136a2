-- ===== src/Conversion/Messages/Contract.antt =====
-- What `parseWorkerEvent` of apps/conversion-api/src/app/events/worker-events.consumer.ts lets
-- through, in terms of the texts and numbers themselves.
use backend.Prelude.{
  ℕ, zero, suc, ◌≤◌, ◌≡◌, ◌≢◌, ◌⊎◌, refl, true, [], ◌∷◌, ◌++◌, none, some, length, All, null_or,
  Option, arith,
}
use backend.Text.{Text}
use backend.Conversion.Messages.{
  Parsed, is_positive, is_base64, base64_then_equals, is_sha256_base64, MessageIdentity,
  CompletedMessage, WorkerMessage, started_message, failed_message, completed_message,
  parse_worker_event,
}
use backend.Conversion.Messages.RoundTrip.{
  is_non_empty, is_valid_identity, is_valid_completed, is_valid, both,
}
use backend.Conversion.Messages.Valid.{parse_worker_event-is_valid}

-- A positive number of 31 bits.
abbrev pub IsInt : ℕ → Type 0
IsInt n = (1 ≤ n) × (n ≤ 2147483647)

-- A digit, a letter, a plus sign or a slash.
abbrev pub IsBase64 : ℕ → Type 0
IsBase64 c =
    ((48 ≤ c) × (c ≤ 57)) ⊎ ((65 ≤ c) × (c ≤ 90)) ⊎ ((97 ≤ c) × (c ≤ 122)) ⊎ (c ≡ 43) ⊎ (c ≡ 47)

-- 43 such characters, and an equals sign.
abbrev pub IsSha256Base64 : Text → Type 0
IsSha256Base64 s =
    (digits : Text) × (s ≡ digits ++ b'=' ∷ []) × (length digits ≡ 43) × All IsBase64 digits

pub record IsIdentity (m : MessageIdentity) : Type 0 where
  pub has_file : m.file_id ≢ []
  pub has_batch : m.batch_id ≢ []
  pub has_attempt : IsInt m.attempt

pub record IsCompletion (c : CompletedMessage) : Type 0 where
  pub has_input_format : c.input_format ≢ []
  pub has_output_format : c.output_format ≢ []
  pub has_output_key : c.output_object_key ≢ []
  pub has_checksum : IsSha256Base64 c.output_checksum_sha256
  pub has_frames : IsInt c.frame_count
  pub has_bytes : IsInt c.output_bytes
  pub has_width : IsInt c.width
  pub has_height : IsInt c.height
  pub preview_not_empty : c.preview_object_key ≢ some []

abbrev pub IsContractual : WorkerMessage → Type 0
IsContractual (started_message m) = IsIdentity m
IsContractual (failed_message m failure_code) = IsIdentity m × (failure_code ≢ [])
IsContractual (completed_message m c) = IsIdentity m × IsCompletion c

not_empty : (s : Text) → is_non_empty s ≡ true → s ≢ []
not_empty [] h = absurd (cc)
not_empty (c ∷ s) h = λ e. absurd (cc)

preview-not_empty : (s : Option Text) → null_or is_non_empty s ≡ true → s ≢ some []
preview-not_empty none h = λ e. absurd (cc)
preview-not_empty (some []) h = absurd (cc)
preview-not_empty (some (c ∷ s)) h = λ e. absurd (cc)

is_base64-IsBase64 : (c : ℕ) → is_base64 c ≡ true → IsBase64 c
is_base64-IsBase64 c h = ground (arith, h)

base64_then_equals-digits :
    (n : ℕ) (s : Text)
    → base64_then_equals n s ≡ true
    → (digits : Text) × (s ≡ digits ++ b'=' ∷ []) × (length digits ≡ n) × All IsBase64 digits
base64_then_equals-digits zero [] h = absurd (cc)
base64_then_equals-digits zero (c ∷ []) h = ([], ground (arith, h), refl, tt)
base64_then_equals-digits zero (c ∷ d ∷ s) h = absurd (cc)
base64_then_equals-digits (suc n) [] h = absurd (cc)
base64_then_equals-digits (suc n) (c ∷ s) h =
    let (digits, e, l, all) = base64_then_equals-digits n s (ground (arith, h)) in
    (c ∷ digits, rw e refl, ground (arith, l), (is_base64-IsBase64 c (ground (arith, h)), all))

is_positive-IsInt : (n : ℕ) → is_positive n ≡ true → IsInt n
is_positive-IsInt n h = ground (arith, h)

is_valid-IsIdentity : (m : MessageIdentity) → is_valid_identity m ≡ true → IsIdentity m
is_valid-IsIdentity m h = record {
  has_file = not_empty m.file_id (ground (arith, h));
  has_batch = not_empty m.batch_id (ground (arith, h));
  has_attempt = is_positive-IsInt m.attempt (ground (arith, h));
}

is_valid-IsCompletion : (c : CompletedMessage) → is_valid_completed c ≡ true → IsCompletion c
unfolding is_sha256_base64
is_valid-IsCompletion c h =
    let (h9, preview) = both _ _ h in
    let (h8, height) = both _ _ h9 in
    let (h7, width) = both _ _ h8 in
    let (h6, bytes) = both _ _ h7 in
    let (h5, frames) = both _ _ h6 in
    let (h4, checksum) = both _ _ h5 in
    let (h3, present) = both _ _ h4 in
    let (h2, key) = both _ _ h3 in
    let (input, output) = both _ _ h2 in
    record {
      has_input_format = not_empty c.input_format input;
      has_output_format = not_empty c.output_format output;
      has_output_key = not_empty c.output_object_key key;
      has_checksum = base64_then_equals-digits 43 c.output_checksum_sha256 checksum;
      has_frames = is_positive-IsInt c.frame_count frames;
      has_bytes = is_positive-IsInt c.output_bytes bytes;
      has_width = is_positive-IsInt c.width width;
      has_height = is_positive-IsInt c.height height;
      preview_not_empty = preview-not_empty c.preview_object_key preview;
    }

is_valid-IsContractual : (m : WorkerMessage) → is_valid m ≡ true → IsContractual m
is_valid-IsContractual (started_message m) h = is_valid-IsIdentity m h
is_valid-IsContractual (failed_message m code) h =
    (is_valid-IsIdentity m (ground (arith, h)), not_empty code (ground (arith, h)))
is_valid-IsContractual (completed_message m c) h =
    (is_valid-IsIdentity m (ground (arith, h)), is_valid-IsCompletion c (ground (arith, h)))

-- A message that is accepted has texts that are not empty, numbers from 1 to 2147483647, and, if it
-- is a completion, a checksum of 43 characters of base64 and an equals sign.
pub parse_worker_event-IsContractual :
    (parsed : Parsed) (m : WorkerMessage) → parse_worker_event parsed ≡ some m → IsContractual m
parse_worker_event-IsContractual parsed m e =
    is_valid-IsContractual m (parse_worker_event-is_valid parsed m e)
