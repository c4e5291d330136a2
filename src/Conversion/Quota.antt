-- ===== src/Conversion/Quota.antt =====
-- The quotas of an admission: `storageUsedFor`, and the parts of `admitReadyFiles` for storage and for
-- the files of a day, of apps/conversion-api/src/app/admission/admission.service.ts.
pub mod Sums
pub mod Room
pub mod Daily
use backend.Prelude.{
  ℕ, ◌+◌, ◌-◌, Bool, true, false, not, ◌&&◌, ◌||◌, List, [], ◌∷◌, ◌++◌, Option, none, some, ◌==◌,
  ltb, leb, any, sum_by, if◌then◌else◌, update_many, find_many, find_unique, order_by,
}
use backend.Conversion.{FileStatus, ConversionBatch, ConversionFile, Tables}
use backend.Conversion.Rollup.{is_completed, roll_up_batch}

pub record DailyUsage : Type 0 where
  pub subject : ℕ
  pub usage_date : ℕ
  pub admitted_files : ℕ

abbrev pub by_id : ConversionFile → ConversionFile → Bool
by_id f g = leb f.id g.id

abbrev pub by_expiry : ConversionFile → ConversionFile → Bool
by_expiry f g = ltb f.expires_at g.expires_at || (f.expires_at == g.expires_at && leb f.id g.id)

abbrev pub or_zero : Option ℕ → ℕ
or_zero none = 0
or_zero (some n) = n

-- The join with the batches, on the subject.
abbrev pub is_owned : ℕ → List ConversionBatch → ConversionFile → Bool
is_owned subject batches f =
    any (λ (b : ConversionBatch). b.id == f.batch_id && b.subject == subject) batches

abbrev pub holds_storage : FileStatus → Bool
holds_storage FileStatus.queued = true
holds_storage FileStatus.processing = true
holds_storage FileStatus.completed = true
holds_storage _ = false

abbrev pub stored_bytes : ConversionFile → ℕ
stored_bytes f = if is_completed f then or_zero f.output_bytes else or_zero f.input_bytes

abbrev pub counts : ℕ → ℕ → List ConversionBatch → ConversionFile → Bool
counts db_now subject batches f =
    is_owned subject batches f && holds_storage f.status && ltb db_now f.expires_at

-- `storageUsedFor`
unfoldable pub storage_used_for : ℕ → ℕ → Tables → ℕ
storage_used_for db_now subject t =
    sum_by (λ f. if counts db_now subject t.batches f then stored_bytes f else 0) t.files

abbrev pub is_evictable : ℕ → ℕ → List ConversionBatch → ConversionFile → Bool
is_evictable db_now subject batches f =
    is_owned subject batches f && is_completed f && ltb db_now f.expires_at

-- The loop over the candidates: those evicted, and the deficit that is left. It tests only whether
-- the deficit is positive, so a deficit below 0 is 0 here.
unfoldable pub evict : ℕ → List ConversionFile → List ConversionFile × ℕ
evict deficit [] = ([], deficit)
evict deficit (c ∷ cs) =
    let rest = evict (deficit - or_zero c.output_bytes) cs in
    if deficit == 0 then ([], 0) else (c ∷ rest.0, rest.1)

-- `id: { in: … }`
abbrev pub has_id_of : List ConversionFile → ConversionFile → Bool
has_id_of chosen f = any (λ (c : ConversionFile). c.id == f.id) chosen

abbrev pub set_evicted : ℕ → ConversionFile → ConversionFile
set_evicted now f = record f { status = FileStatus.expired; expires_at = now }

-- The `Set` of the batches of the evicted files.
unfoldable pub batches_of : List ConversionFile → List ℕ
batches_of [] = []
batches_of (c ∷ cs) = c.batch_id ∷ find_many (λ id. not (id == c.batch_id)) (batches_of cs)

unfoldable pub roll_up_each :
    List ℕ → List ConversionFile → List ConversionBatch → List ConversionBatch
roll_up_each [] files batches = batches
roll_up_each (id ∷ ids) files batches = roll_up_each ids files (roll_up_batch id files batches).1

-- The updates of the evicted files and of their batches.
unfoldable pub evict_files : ℕ → List ConversionFile → Tables → Tables
unfolding batches_of roll_up_each
evict_files now chosen t =
    let files = update_many (has_id_of chosen) (set_evicted now) t.files in
    record { files = files; batches = roll_up_each (batches_of chosen) files t.batches }

-- The part under `snapshot.storageBytes !== undefined`: `none` is STORAGE_LIMIT_EXCEEDED.
unfoldable pub make_room : ℕ → ℕ → ℕ → ℕ → List ConversionFile → Tables → Option Tables
unfolding evict storage_used_for evict_files
make_room db_now now subject limit claimed t =
    let incoming = sum_by (λ (f : ConversionFile). or_zero f.input_bytes) claimed in
    let deficit = storage_used_for db_now subject t + incoming - limit in
    let evictable =
      order_by by_expiry (find_many (is_evictable db_now subject t.batches) t.files) in
    let evicted = evict deficit evictable in
    if deficit == 0
    then some t
    else if evicted.1 == 0
    then some (evict_files now evicted.0 t)
    else none

abbrev pub is_usage_of : ℕ → ℕ → DailyUsage → Bool
is_usage_of subject date u = u.subject == subject && u.usage_date == date

abbrev pub add_admitted : ℕ → DailyUsage → DailyUsage
add_admitted n u = record u { admitted_files = u.admitted_files + n }

-- The part under `snapshot.dailyFiles !== undefined`, with the upsert; `none` is
-- DAILY_QUOTA_EXCEEDED.
unfoldable pub reserve_daily : ℕ → ℕ → ℕ → ℕ → List DailyUsage → Option (List DailyUsage)
reserve_daily subject db_date daily_files n usage =
    if ltb daily_files n then none else elim (find_unique (is_usage_of subject db_date) usage) [
      | none ↦
          some
            (usage ++ record { subject = subject; usage_date = db_date; admitted_files = n } ∷ [])
      | some u ↦
          if leb (u.admitted_files + n) daily_files
          then some (update_many (is_usage_of subject db_date) (add_admitted n) usage)
          else none
    ]

-- `remainingToday`
unfoldable pub remaining_today : ℕ → ℕ → ℕ → List DailyUsage → ℕ
remaining_today subject db_date daily_files usage =
    elim (find_unique (is_usage_of subject db_date) usage) [
      | none ↦ daily_files
      | some u ↦ daily_files - u.admitted_files
    ]
