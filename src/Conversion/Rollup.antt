-- ===== src/Conversion/Rollup.antt =====
-- The status of a batch from the statuses of its files:
-- apps/conversion-api/src/app/lifecycle/batch-rollup.ts.
pub mod Outcome
use backend.Prelude.{
  ℕ, Bool, true, false, not, ◌&&◌, ◌||◌, List, Option, none, some, ◌==◌, any, length, if◌then◌else◌,
  update_many, count_where, find_many,
}
use backend.Conversion.{BatchStatus, FileStatus, ConversionBatch, ConversionFile, Tables}

-- `OPEN_BATCH_STATUSES.includes(status)`
abbrev pub is_open_batch : BatchStatus → Bool
is_open_batch BatchStatus.uploading = true
is_open_batch BatchStatus.queued = true
is_open_batch BatchStatus.processing = true
is_open_batch _ = false

-- `LIVE_FILE_STATUSES.includes(status)`
abbrev pub is_live_file : FileStatus → Bool
is_live_file FileStatus.uploading = true
is_live_file FileStatus.ready = true
is_live_file FileStatus.queued = true
is_live_file FileStatus.processing = true
is_live_file FileStatus.completed = true
is_live_file _ = false

-- `TERMINAL_FILE_STATUSES.has(status)`
abbrev pub is_terminal_file : FileStatus → Bool
is_terminal_file FileStatus.completed = true
is_terminal_file FileStatus.failed = true
is_terminal_file FileStatus.cancelled = true
is_terminal_file FileStatus.expired = true
is_terminal_file _ = false

abbrev pub is_completed : ConversionFile → Bool
is_completed f = elim f.status [ FileStatus.completed ↦ true | _ ↦ false ]

abbrev pub is_expired : ConversionFile → Bool
is_expired f = elim f.status [ FileStatus.expired ↦ true | _ ↦ false ]

abbrev pub is_unfinished : ConversionFile → Bool
is_unfinished f = not (is_terminal_file f.status)

abbrev pub in_batch : ℕ → ConversionFile → Bool
in_batch batch_id f = f.batch_id == batch_id

-- The two counts and the choice of the status.
unfoldable pub settled_status : List ConversionFile → BatchStatus
settled_status files =
    if count_where is_expired files == length files
    then BatchStatus.expired
    else if count_where is_completed files == length files
    then BatchStatus.completed
    else if count_where is_completed files == 0
    then BatchStatus.failed
    else BatchStatus.partial

abbrev pub is_finished_batch : BatchStatus → Bool
is_finished_batch BatchStatus.completed = true
is_finished_batch BatchStatus.partial = true
is_finished_batch _ = false

abbrev pub all_expired : List ConversionFile → Bool
all_expired files = count_where is_expired files == length files

abbrev pub is_rolled : ℕ → List ConversionFile → ConversionBatch → Bool
is_rolled batch_id files b =
    b.id == batch_id
    && (is_open_batch b.status || (all_expired files && is_finished_batch b.status))

abbrev pub set_batch_status : BatchStatus → ConversionBatch → ConversionBatch
set_batch_status status b = record b { status = status }

-- `rollUpBatch`: the status it returns, and the table of batches after it.
unfoldable pub roll_up_batch :
    ℕ → List ConversionFile → List ConversionBatch → Option BatchStatus × List ConversionBatch
unfolding settled_status
roll_up_batch batch_id all_files batches =
    let files = find_many (in_batch batch_id) all_files in
    let status = settled_status files in
    let rolled = update_many (is_rolled batch_id files) (set_batch_status status) batches in
    if any is_unfinished files
    then (none, batches)
    else if count_where (is_rolled batch_id files) batches == 1
    then (some status, rolled)
    else (none, rolled)
