-- ===== src/Conversion/Events.antt =====
-- What the worker's events do to the tables: `apply` and `verifiedCompletion` of
-- apps/conversion-api/src/app/events/worker-event-processor.service.ts, with the events of
-- libs/conversion-contract/src/lib/messages.ts.
use backend.Prelude.{
  ℕ, Bool, true, false, ◌&&◌, Option, none, some, ◌==◌, ltb, leb, null_or, if◌then◌else◌,
  update_many, count_where,
}
use backend.Conversion.{
  BatchStatus, FileStatus, ResultKind, ObjectKey, output_object_key, preview_object_key, same_key,
  ConversionBatch, ConversionFile, Tables,
}
use backend.Conversion.Rollup.{roll_up_batch, set_batch_status}

pub record EventIdentity : Type 0 where
  pub file_id : ℕ
  pub batch_id : ℕ
  pub attempt : ℕ

pub record Completion : Type 0 where
  pub result_kind : ResultKind
  pub input_format : ℕ
  pub frame_count : ℕ
  pub output_key : ObjectKey
  pub output_bytes : ℕ
  pub output_checksum : ℕ
  pub output_format : ℕ
  pub width : ℕ
  pub height : ℕ
  pub preview_key : Option ObjectKey

pub data Outcome : Type 0 where
  completes : Completion → Outcome
  fails : (failure_code : ℕ) → Outcome

pub data WorkerEvent : Type 0 where
  started : EventIdentity → WorkerEvent
  result : EventIdentity → Outcome → WorkerEvent

-- `StoredObject` of apps/conversion-api/src/app/storage/input-object-storage.service.ts
pub record StoredObject : Type 0 where
  pub bytes : ℕ
  pub etag : ℕ
  pub checksum_sha256 : Option ℕ

-- `EVENT_ACCEPTING_FILE_STATUSES.includes(status)`
abbrev pub accepts_events : FileStatus → Bool
accepts_events FileStatus.queued = true
accepts_events FileStatus.processing = true
accepts_events _ = false

abbrev pub is_of_event : EventIdentity → ConversionFile → Bool
is_of_event e f = f.id == e.file_id && f.batch_id == e.batch_id && accepts_events f.status

abbrev pub takes_start : EventIdentity → ConversionFile → Bool
takes_start e f = is_of_event e f && ltb f.attempt e.attempt

abbrev pub takes_result : EventIdentity → ConversionFile → Bool
takes_result e f = is_of_event e f && leb f.attempt e.attempt

abbrev pub set_started : EventIdentity → ℕ → ConversionFile → ConversionFile
set_started e now f = record f {
  status = FileStatus.processing;
  attempt = e.attempt;
  started_at = some now;
}

abbrev pub is_queued_batch : ℕ → ConversionBatch → Bool
is_queued_batch batch_id b = elim b.status [ BatchStatus.queued ↦ b.id == batch_id | _ ↦ false ]

-- The first branch of `apply`.
unfoldable pub apply_started : EventIdentity → ℕ → Tables → Tables
apply_started e now t = if count_where (takes_start e) t.files == 0 then t else record {
  files = update_many (takes_start e) (set_started e now) t.files;
  batches =
      update_many (is_queued_batch e.batch_id) (set_batch_status BatchStatus.processing) t.batches;
}

-- The checks of `verifiedCompletion`; `head` is the storage's answer for a key.
unfoldable pub is_verified :
    (head : ObjectKey → Option StoredObject) → EventIdentity → Completion → Bool
is_verified head e c =
    same_key c.output_key (output_object_key e.batch_id e.file_id e.attempt)
    && null_or (λ k. same_key k (preview_object_key e.batch_id e.file_id e.attempt)) c.preview_key
    && elim (head c.output_key) [
      | none ↦ false
      | some stored ↦ elim stored.checksum_sha256 [
        | none ↦ false
        | some sum ↦ stored.bytes == c.output_bytes && sum == c.output_checksum
      ]
    ]

abbrev pub set_completed : Completion → ℕ → ConversionFile → ConversionFile
set_completed c now f = record f {
  status = FileStatus.completed;
  result_kind = some c.result_kind;
  output_key = some c.output_key;
  preview_key = c.preview_key;
  output_bytes = some c.output_bytes;
  output_checksum = some c.output_checksum;
  input_format = some c.input_format;
  output_format = some c.output_format;
  frame_count = some c.frame_count;
  width = some c.width;
  height = some c.height;
  completed_at = some now;
}

abbrev pub set_failed : ℕ → ℕ → ConversionFile → ConversionFile
set_failed code now f = record f {
  status = FileStatus.failed;
  failure_code = some code;
  completed_at = some now;
}

abbrev pub set_outcome : Outcome → ℕ → ConversionFile → ConversionFile
set_outcome (completes c) now f = set_completed c now f
set_outcome (fails code) now f = set_failed code now f

-- The transaction of `apply`.
unfoldable pub apply_result : EventIdentity → Outcome → ℕ → Tables → Tables
apply_result e o now t =
    let files = update_many (takes_result e) (set_outcome o now) t.files in
    if count_where (takes_result e) t.files == 0
    then t
    else record { files = files; batches = (roll_up_batch e.batch_id files t.batches).1 }

-- `apply`; `none` is a thrown error.
unfoldable pub apply :
    (head : ObjectKey → Option StoredObject) → WorkerEvent → ℕ → Tables → Option Tables
unfolding apply_started apply_result is_verified
apply head (started e) now t = some (apply_started e now t)
apply head (result e (completes c)) now t =
    if is_verified head e c then some (apply_result e (completes c) now t) else none
apply head (result e (fails code)) now t = some (apply_result e (fails code) now t)
