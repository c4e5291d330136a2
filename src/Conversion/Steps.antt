-- ===== src/Conversion/Steps.antt =====
-- The statements and transactions that change the tables of batches and files, and the tables that
-- a sequence of them reaches. A new batch has an identifier of its own. An admission finds different
-- identifiers in the table of files; it is the transaction of `admitReadyFiles` with whatever row of
-- the batch the call read before, so that other steps can come between the read and the transaction.
use backend.Prelude.{List, ℕ, ◌≡◌, ◌==◌, false, any, length, update_many}
use backend.Conversion.{BatchStatus, PlanCode, ConversionBatch, Tables}
use backend.Conversion.Rollup.{set_batch_status}
use backend.Conversion.Events.{
  EventIdentity, Outcome, StoredObject, takes_start, set_started, is_queued_batch, apply_result,
}
use backend.Conversion.Retention.{expire_batch, purge_dead_rows}
use backend.Conversion.Quota.{DailyUsage}
use backend.Conversion.Quota.Room.{IsKeyed}
use backend.Conversion.Admission.{
  EntitlementSnapshot, RetentionClass, OutboxEvent, Store, admits, admit_batch,
}
use backend.Conversion.Uploads.{CreateBatchInput, Fresh, verify_upload, create_batch}

-- The two updates of the first branch of `apply`, which are not in a transaction.
abbrev pub start_file : EventIdentity → ℕ → Tables → Tables
start_file e now t = record {
  batches = t.batches;
  files = update_many (takes_start e) (set_started e now) t.files;
}

abbrev pub start_batch : ℕ → Tables → Tables
start_batch batch_id t = record {
  batches =
      update_many (is_queued_batch batch_id) (set_batch_status BatchStatus.processing) t.batches;
  files = t.files;
}

abbrev pub upload_file : ℕ → StoredObject → Tables → Tables
upload_file id stored t = record {
  batches = t.batches;
  files = (verify_upload id stored t.files).0;
}

pub data Step (t : Tables) : Tables → Type 0 where
  creates :
      (digest : ℕ → ℕ) (input : CreateBatchInput) (plan_code : PlanCode)
      (revision max_batch_files now : ℕ) (fresh : Fresh)
      → length fresh.file_ids ≡ input.file_count
      → any (λ (b : ConversionBatch). b.id == fresh.batch_id) t.batches ≡ false
      → Step t (create_batch digest input plan_code revision max_batch_files now fresh t).1
  uploads : (id : ℕ) (stored : StoredObject) → Step t (upload_file id stored t)
  starts_file : (e : EventIdentity) (now : ℕ) → Step t (start_file e now t)
  starts_batch : (batch_id : ℕ) → Step t (start_batch batch_id t)
  finishes : (e : EventIdentity) (o : Outcome) (now : ℕ) → Step t (apply_result e o now t)
  expires : (now batch_id : ℕ) → Step t (expire_batch now batch_id t)
  admits_files :
      (large : ℕ) (snapshot : EntitlementSnapshot) (retention : RetentionClass)
      (db_now db_date now n : ℕ) (usage : List DailyUsage) (outbox : List OutboxEvent)
      (read : ConversionBatch) (s : Store)
      → IsKeyed t.files
      → admit_batch large snapshot retention db_now db_date now read
          (record { tables = t; usage = usage; outbox = outbox })
        ≡ admits n s
      → Step t s.tables
  purges : (cutoff : ℕ) → Step t (purge_dead_rows cutoff t)

pub data Reach (t : Tables) : Tables → Type 0 where
  here : Reach t t
  next : {u v : Tables} → Reach t u → Step u v → Reach t v
