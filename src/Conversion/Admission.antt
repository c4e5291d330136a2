-- ===== src/Conversion/Admission.antt =====
-- The admission of uploaded files: `admitReadyFiles` of
-- apps/conversion-api/src/app/admission/admission.service.ts, with its quotas of storage and of
-- files a day, and the messages it puts in the outbox. The result of a transaction that throws has
-- no tables. `db_now` and `db_date` are the database's clock, `now` is the process's.
pub mod Effects
pub mod Settled
pub mod Storage
use backend.Prelude.{
  order_by, ℕ, ◌+◌, ◌-◌, ◌*◌, Bool, true, false, not, ◌&&◌, ◌||◌, List, [], ◌∷◌, ◌++◌, map, Option,
  none, some, ◌==◌, ltb, leb, any, length, sum_by, if◌then◌else◌, update_many, count_where,
  find_many, find_unique,
}
use backend.Conversion.{
  BatchStatus, FileStatus, Mode, Strength, ObjectKey, ConversionBatch, ConversionFile, Tables,
}
use backend.Conversion.Rollup.{is_completed, in_batch, roll_up_batch}
use backend.Conversion.Quota.{DailyUsage, by_id, has_id_of, or_zero, make_room, reserve_daily}
use backend.Conversion.Uploads.{
  AdmissionError, batch_not_found, batch_not_admittable, daily_quota_exceeded, file_not_measured,
  file_too_large, storage_limit_exceeded, assert_ownership,
}

pub data RetentionClass : Type 0 where
  short standard extended : RetentionClass

-- `RETENTION_CLASS_BY_HOURS`
abbrev pub retention_class : ℕ → Option RetentionClass
retention_class hours =
    if hours == 1
    then some short
    else if hours == 48
    then some standard
    else if hours == 96 || hours == 168
    then some extended
    else none

-- `TIER_QUEUES` by their index, and `PAID_LARGE_QUEUE`.
pub data Queue : Type 0 where
  anon_queue free_queue light_queue pro_queue paid_large_queue : Queue

abbrev pub queue_for_tier : ℕ → Option Queue
queue_for_tier tier =
    if tier == 0
    then some anon_queue
    else if tier == 1
    then some free_queue
    else if tier == 2
    then some light_queue
    else if tier == 3
    then some pro_queue
    else none

-- The fields of `EntitlementSnapshot` that an admission reads.
pub record EntitlementSnapshot : Type 0 where
  pub max_file_bytes : ℕ
  pub storage_bytes : Option ℕ
  pub daily_files : Option ℕ
  pub output_retention_hours : ℕ
  pub queue_tier : ℕ

-- `ConversionRequestMessage` of libs/conversion-contract/src/lib/messages.ts.
pub record ConversionRequest : Type 0 where
  pub file_id : ℕ
  pub batch_id : ℕ
  pub input_key : ObjectKey
  pub input_etag : Option ℕ
  pub output_retention : RetentionClass
  pub mode : Mode
  pub strength : Strength

pub record OutboxEvent : Type 0 where
  pub queue : Queue
  pub payload : ConversionRequest

pub record Store : Type 0 where
  pub tables : Tables
  pub usage : List DailyUsage
  pub outbox : List OutboxEvent

pub data Admission : Type 0 where
  refuses : AdmissionError → Admission
  throws_unmapped : Admission
  admits : (admitted_files : ℕ) → Store → Admission

-- The loop over the claimed files: the error it throws.
unfoldable pub check_measured : ℕ → List ConversionFile → Option AdmissionError
check_measured max_file_bytes [] = none
check_measured max_file_bytes (f ∷ fs) =
    let rest = check_measured max_file_bytes fs in
    elim f.input_bytes [
      | none ↦ some file_not_measured
      | some bytes ↦ elim f.input_etag [
        | none ↦ some file_not_measured
        | some etag ↦ if ltb max_file_bytes bytes then some file_too_large else rest
      ]
    ]

abbrev pub set_queued : ℕ → ConversionFile → ConversionFile
set_queued expires_at f = record f { status = FileStatus.queued; expires_at = expires_at }

abbrev pub is_admittable : BatchStatus → Bool
is_admittable BatchStatus.uploading = true
is_admittable BatchStatus.queued = true
is_admittable _ = false

abbrev pub takes_admission : ℕ → ConversionBatch → Bool
takes_admission id b = b.id == id && is_admittable b.status

abbrev pub set_admitted : ℕ → ConversionBatch → ConversionBatch
set_admitted expires_at b = record b { status = BatchStatus.queued; expires_at = expires_at }

abbrev pub is_ready_in : ℕ → ConversionFile → Bool
is_ready_in batch_id f = elim f.status [ FileStatus.ready ↦ in_batch batch_id f | _ ↦ false ]

abbrev request_of : RetentionClass → ConversionBatch → ConversionFile → ConversionRequest
request_of retention b f = record {
  file_id = f.id;
  batch_id = b.id;
  input_key = f.input_key;
  input_etag = f.input_etag;
  output_retention = retention;
  mode = b.mode;
  strength = b.strength;
}

-- The queue of a file: `FIRST_PAID_TIER` is 2.
unfoldable pub queue_of : ℕ → ℕ → Queue → ConversionFile → Queue
queue_of large_queue_bytes tier tier_queue f =
    if leb 2 tier && ltb large_queue_bytes (or_zero f.input_bytes)
    then paid_large_queue
    else tier_queue

-- The updates of the admitted files and of their batch, and the outbox.
unfoldable pub queue_files :
    ℕ → RetentionClass → ℕ → Queue → ℕ → ConversionBatch → List ConversionFile → Store → Store
unfolding queue_of
queue_files large_queue_bytes retention tier tier_queue expires_at b claimed s = record {
  tables = record {
    batches = update_many (takes_admission b.id) (set_admitted expires_at) s.tables.batches;
    files = update_many (has_id_of claimed) (set_queued expires_at) s.tables.files;
  };
  usage = s.usage;
  outbox =
      s.outbox
      ++ map
          (λ (f : ConversionFile). record {
            queue = queue_of large_queue_bytes tier tier_queue f;
            payload = request_of retention b f;
          })
          claimed;
}

abbrev pub room_for : EntitlementSnapshot → ℕ → ℕ → ℕ → List ConversionFile → Tables → Option Tables
room_for snapshot db_now now subject claimed t = elim snapshot.storage_bytes [
  | none ↦ some t
  | some limit ↦ make_room db_now now subject limit claimed t
]

abbrev pub usage_for : EntitlementSnapshot → ℕ → ℕ → ℕ → List DailyUsage → Option (List DailyUsage)
usage_for snapshot subject db_date n usage = elim snapshot.daily_files [
  | none ↦ some usage
  | some daily_files ↦ reserve_daily subject db_date daily_files n usage
]

-- Its part for files that are there and measured.
unfoldable pub admit_claimed :
    (large_queue_bytes : ℕ)
    → EntitlementSnapshot
    → RetentionClass
    → (db_now db_date now : ℕ) → ConversionBatch
    → List ConversionFile
    → Store
    → Admission
unfolding make_room reserve_daily queue_files
admit_claimed large_queue_bytes snapshot retention db_now db_date now b claimed s =
    elim (room_for snapshot db_now now b.subject claimed s.tables) [
      | none ↦ refuses storage_limit_exceeded
      | some t ↦ elim (usage_for snapshot b.subject db_date (length claimed) s.usage) [
        | none ↦ refuses daily_quota_exceeded
        | some usage ↦
            if not (count_where (takes_admission b.id) t.batches == 1)
            then refuses batch_not_admittable
            else elim (queue_for_tier snapshot.queue_tier) [
              | none ↦ throws_unmapped
              | some tier_queue ↦ admits (length claimed) (
                  queue_files large_queue_bytes retention snapshot.queue_tier tier_queue
                    (now + snapshot.output_retention_hours * 3600000) b claimed
                    (record { tables = t; usage = usage; outbox = s.outbox }))
            ]
      ]
    ]

-- The transaction of `admitReadyFiles`, with the row of the batch that was read before it.
unfoldable pub admit_batch :
    (large_queue_bytes : ℕ)
    → EntitlementSnapshot
    → RetentionClass
    → (db_now db_date now : ℕ) → ConversionBatch
    → Store
    → Admission
unfolding check_measured admit_claimed
admit_batch large_queue_bytes snapshot retention db_now db_date now b s =
    let claimed = order_by by_id (find_many (is_ready_in b.id) s.tables.files) in
    if length claimed == 0
    then admits 0 s
    else elim (check_measured snapshot.max_file_bytes claimed) [
      | some e ↦ refuses e
      | none ↦ admit_claimed large_queue_bytes snapshot retention db_now db_date now b claimed s
    ]

-- `admitReadyFiles`, when no other request comes between its read and its transaction. The steps of
-- Conversion/Steps have the transaction with a row that was read at any time before.
unfoldable pub admit_ready_files :
    (digest : ℕ → ℕ)
    → (large_queue_bytes : ℕ) → EntitlementSnapshot
    → (batch_id subject : ℕ) → (batch_token : Option ℕ) → (db_now db_date now : ℕ) → Store
    → Admission
unfolding admit_batch assert_ownership
admit_ready_files digest large snapshot batch_id subject batch_token db_now db_date now s =
    elim (retention_class snapshot.output_retention_hours) [
      | none ↦ throws_unmapped
      | some retention ↦
          elim (find_unique (λ (b : ConversionBatch). b.id == batch_id) s.tables.batches) [
            | none ↦ refuses batch_not_found
            | some b ↦ elim (assert_ownership digest b subject batch_token batch_not_found) [
              | some e ↦ refuses e
              | none ↦
                  if not (is_admittable b.status) || leb b.expires_at now
                  then refuses batch_not_admittable
                  else admit_batch large snapshot retention db_now db_date now b s
            ]
          ]
    ]
