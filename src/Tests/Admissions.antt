-- ===== src/Tests/Admissions.antt =====
-- An admission that evicts a file, and a reservation of a day.
use mathlib.Core.List.{Memᴰ}
use backend.Prelude.{◌+◌, ◌≡◌, ◌≤◌, ◌⊎◌, inl, inr, sym, ◌∙◌, refl, List, [], ◌∷◌, none, some, arith}
use backend.Conversion.{BatchStatus, FileStatus, ConversionFile}
use backend.Conversion.Rollup.{roll_up_batch}
use backend.Conversion.Quota.{DailyUsage, storage_used_for, reserve_daily, remaining_today}
use backend.Conversion.Quota.Daily.{reserve_daily-remaining_today, purge_usage-remaining_today}
use backend.Conversion.Retention.{purge_usage}
use backend.Conversion.Quota.Room.{IsKeyed}
use backend.Conversion.Admission.{EntitlementSnapshot, Store, Admission, admits, admit_ready_files}
use backend.Conversion.Admission.Storage.{admit_ready_files-within_storage}
use backend.Tests.Batches.{batch, file}

abbrev snapshot : EntitlementSnapshot
snapshot = record {
  max_file_bytes = 500;
  storage_bytes = some 120;
  daily_files = some 5;
  output_retention_hours = 48;
  queue_tier = 1;
}

abbrev files : List ConversionFile
files = file 10 FileStatus.completed ∷ file 11 FileStatus.ready ∷ []

abbrev store : Store
store = record {
  tables = record { batches = batch BatchStatus.uploading ∷ []; files = files };
  usage = [];
  outbox = [];
}

one_of :
    (f : ConversionFile)
    → Memᴰ f files
    → (f ≡ file 10 FileStatus.completed) ⊎ (f ≡ file 11 FileStatus.ready)
one_of f (Memᴰ.head e) = inl e
one_of f (Memᴰ.tail (Memᴰ.head e)) = inr e
one_of f (Memᴰ.tail (Memᴰ.tail m)) = elim m [ ]

files-IsKeyed : IsKeyed files
files-IsKeyed f g m n e = elim (one_of f m) [
  | inl i ↦ elim (one_of g n) [ inl j ↦ i ∙ sym j | inr j ↦ absurd (ground arith) ]
  | inr i ↦ elim (one_of g n) [ inl j ↦ absurd (ground arith) | inr j ↦ i ∙ sym j ]
]

abbrev admission : Admission
admission = admit_ready_files (λ k. k) 50 snapshot 1 7 none 20 0 20 store

abbrev stored : Admission → Store
stored (admits n s) = s
stored _ = store

is_admitted : admission ≡ admits 1 (stored admission)
unfolding admit_ready_files roll_up_batch
is_admitted = refl

admit_ready_files-within_storage_example : storage_used_for 20 7 (stored admission).tables ≤ 120
admit_ready_files-within_storage_example =
    admit_ready_files-within_storage (λ k. k) 50 snapshot 1 7 none 20 0 20 120 1 store
      (stored admission) files-IsKeyed refl is_admitted (omega arith)

abbrev usage : List DailyUsage
usage = record { subject = 7; usage_date = 0; admitted_files = 2 } ∷ []

reserved :
    reserve_daily 7 0 5 3 usage
    ≡ some (record { subject = 7; usage_date = 0; admitted_files = 5 } ∷ [])
unfolding reserve_daily
reserved = refl

reserve_daily-remaining_today_example :
    remaining_today 7 0 5 (record { subject = 7; usage_date = 0; admitted_files = 5 } ∷ []) + 3
    ≡ remaining_today 7 0 5 usage
reserve_daily-remaining_today_example =
    reserve_daily-remaining_today 7 0 5 3 usage
      (record { subject = 7; usage_date = 0; admitted_files = 5 } ∷ []) reserved

-- The row of day 3 goes, and that of day 20 stays.
purge_usage-remaining_today_example :
    remaining_today 7 20 5 (
      purge_usage 4 (
        record { subject = 7; usage_date = 3; admitted_files = 5 }
        ∷ record { subject = 7; usage_date = 20; admitted_files = 2 }
        ∷ []))
    ≡ remaining_today 7 20 5 (
        record { subject = 7; usage_date = 3; admitted_files = 5 }
        ∷ record { subject = 7; usage_date = 20; admitted_files = 2 }
        ∷ [])
purge_usage-remaining_today_example =
    purge_usage-remaining_today 7 20 5 4
      (record { subject = 7; usage_date = 3; admitted_files = 5 }
        ∷ record { subject = 7; usage_date = 20; admitted_files = 2 }
        ∷ [])
      (omega arith)
