-- ===== src/Conversion/Uploads.antt =====
-- Batches and their uploads: `createBatch` of
-- apps/conversion-api/src/app/admission/admission.service.ts, and the statements of
-- `completeUploads` of apps/conversion-api/src/app/admission/upload-completion.service.ts.
use backend.Prelude.{
  ℕ, ◌+◌, Bool, true, false, not, ◌&&◌, ◌||◌, List, [], ◌∷◌, ◌++◌, map, Option, none, some, ◌==◌,
  ltb, non_null_and, null_or, if◌then◌else◌, update_many, count_where, find_many, find_unique,
}
use backend.Conversion.{
  BatchStatus, FileStatus, Mode, lossless, lossy, Strength, low, medium, high, PlanCode, ObjectKey,
  input_object_key, ConversionBatch, ConversionFile, Tables,
}
use backend.Conversion.Rollup.{in_batch}
use backend.Conversion.Events.{StoredObject}

abbrev pub is_uploading : ConversionFile → Bool
is_uploading f = elim f.status [ FileStatus.uploading ↦ true | _ ↦ false ]

abbrev pub takes_upload : ℕ → ConversionFile → Bool
takes_upload id f = f.id == id && is_uploading f

abbrev pub set_ready : StoredObject → ConversionFile → ConversionFile
set_ready stored f = record f {
  status = FileStatus.ready;
  input_bytes = some stored.bytes;
  input_etag = some stored.etag;
}

-- The update of one file whose upload is there, and the count of its rows.
unfoldable pub verify_upload : ℕ → StoredObject → List ConversionFile → List ConversionFile × ℕ
verify_upload id stored files =
    (update_many (takes_upload id) (set_ready stored) files, count_where (takes_upload id) files)

-- The verifications of `completeUploads`, in an order of their statements; the sum is
-- `verifiedFiles`.
unfoldable pub verify_uploads :
    (head : ObjectKey → Option StoredObject)
    → List ConversionFile
    → List ConversionFile
    → List ConversionFile × ℕ
unfolding verify_upload
verify_uploads head [] files = (files, 0)
verify_uploads head (f ∷ uploading) files = elim (head f.input_key) [
  | none ↦ verify_uploads head uploading files
  | some stored ↦
      let one = verify_upload f.id stored files in
      let rest = verify_uploads head uploading one.0 in (rest.0, one.1 + rest.1)
]

pub record CreateBatchInput : Type 0 where
  pub subject : ℕ
  pub is_anonymous : Bool
  pub idempotency_key : ℕ
  pub file_count : ℕ
  pub mode : Mode
  pub strength : Strength
  pub batch_token : Option ℕ

pub data AdmissionError : Type 0 where
  batch_not_found batch_not_admittable batch_size_invalid batch_token_mismatch : AdmissionError
  daily_quota_exceeded file_not_measured file_too_large : AdmissionError
  idempotency_conflict storage_limit_exceeded : AdmissionError

-- `assertOwnership`: the error it throws. `digest` is the SHA-256 of the token.
unfoldable pub assert_ownership :
    (digest : ℕ → ℕ)
    → ConversionBatch
    → (subject : ℕ) → (batch_token : Option ℕ) → AdmissionError
    → Option AdmissionError
assert_ownership digest b subject batch_token mismatch =
    if not (b.subject == subject)
    then some batch_not_found
    else if null_or (λ hash. non_null_and (λ token. digest token == hash) batch_token)
        b.batch_token_hash
    then none
    else some mismatch

abbrev same_mode : Mode → Mode → Bool
same_mode lossless lossless = true
same_mode lossy lossy = true
same_mode _ _ = false

abbrev same_strength : Strength → Strength → Bool
same_strength low low = true
same_strength medium medium = true
same_strength high high = true
same_strength _ _ = false

-- The random values of one call: the identifiers and the token.
pub record Fresh : Type 0 where
  pub batch_id : ℕ
  pub file_ids : List ℕ
  pub token : ℕ

unfoldable pub new_file : ℕ → ℕ → ℕ → ConversionFile
new_file batch_id expires_at id = record {
  id = id;
  batch_id = batch_id;
  status = FileStatus.uploading;
  input_key = input_object_key batch_id id;
  input_etag = none;
  output_key = none;
  preview_key = none;
  input_format = none;
  output_format = none;
  input_bytes = none;
  output_bytes = none;
  output_checksum = none;
  result_kind = none;
  width = none;
  height = none;
  frame_count = none;
  attempt = 0;
  failure_code = none;
  started_at = none;
  completed_at = none;
  expires_at = expires_at;
}

unfoldable pub new_batch :
    (digest : ℕ → ℕ) → CreateBatchInput → PlanCode → ℕ → Fresh → ℕ → ConversionBatch
new_batch digest input plan_code revision fresh expires_at = record {
  id = fresh.batch_id;
  subject = input.subject;
  batch_token_hash = if input.is_anonymous then some (digest fresh.token) else none;
  idempotency_key = input.idempotency_key;
  plan_code = plan_code;
  plan_revision = revision;
  mode = input.mode;
  strength = input.strength;
  status = BatchStatus.uploading;
  file_count = input.file_count;
  expires_at = expires_at;
}

-- `UPLOAD_WINDOW_MS`
abbrev pub upload_window_ms : ℕ
upload_window_ms = 86400000

pub data CreatedBatch : Type 0 where
  refused : AdmissionError → CreatedBatch
  created : ConversionBatch → List ConversionFile → Option ℕ → (is_replayed : Bool) → CreatedBatch

abbrev pub has_idempotency_key : CreateBatchInput → ConversionBatch → Bool
has_idempotency_key input b =
    b.subject == input.subject && b.idempotency_key == input.idempotency_key

-- The branch of `createBatch` for a batch that is there.
unfoldable pub replay_batch :
    (digest : ℕ → ℕ) → CreateBatchInput → List ConversionFile → ConversionBatch → CreatedBatch
unfolding assert_ownership
replay_batch digest input files b =
    elim (assert_ownership digest b input.subject input.batch_token batch_token_mismatch) [
      | some e ↦ refused e
      | none ↦
          if b.file_count == input.file_count
            && same_mode b.mode input.mode
            && same_strength b.strength input.strength
          then created b (find_many (in_batch b.id) files) none true
          else refused idempotency_conflict
    ]

-- `createBatch` for a snapshot with `plan_code`, `revision` and `max_batch_files`: what it returns
-- or throws, and the tables after it. The insert fails on the key of subject and idempotency key.
unfoldable pub create_batch :
    (digest : ℕ → ℕ)
    → CreateBatchInput
    → PlanCode
    → (revision max_batch_files now : ℕ) → Fresh
    → Tables
    → CreatedBatch × Tables
unfolding replay_batch new_batch new_file
create_batch digest input plan_code revision max_batch_files now fresh t =
    let b = new_batch digest input plan_code revision fresh (now + upload_window_ms) in
    let files = map (new_file b.id b.expires_at) fresh.file_ids in
    if ltb input.file_count 1 || ltb max_batch_files input.file_count
    then (refused batch_size_invalid, t)
    else elim (find_unique (has_idempotency_key input) t.batches) [
      | some existing ↦ (replay_batch digest input t.files existing, t)
      | none ↦ (
        created b files (if input.is_anonymous then some fresh.token else none) false,
        record { batches = t.batches ++ b ∷ []; files = t.files ++ files },
      )
    ]
