-- ===== src/Conversion/Retention.antt =====
-- The sweeps of apps/conversion-api/src/app/lifecycle/retention.service.ts. The reads that choose
-- the batches are outside the transactions: a sweep is the transaction of `expireOverdueFiles` for
-- each batch that it chose, and the two deletions of `purgeDeadRows`.
use backend.Prelude.{
  ℕ, Bool, not, ◌&&◌, List, [], ◌∷◌, any, leb, ltb, update_many, find_many, delete_many,
}
use backend.Conversion.{FileStatus, ConversionBatch, ConversionFile, Tables}
use backend.Conversion.Quota.{DailyUsage}
use backend.Conversion.Rollup.{is_live_file, in_batch, roll_up_batch}

abbrev pub is_overdue : ℕ → ConversionFile → Bool
is_overdue now f = is_live_file f.status && leb f.expires_at now

abbrev pub takes_expiry : ℕ → ℕ → ConversionFile → Bool
takes_expiry batch_id now f = in_batch batch_id f && is_overdue now f

abbrev pub set_expired : ConversionFile → ConversionFile
set_expired f = record f { status = FileStatus.expired }

-- The transaction of `expireOverdueFiles`.
unfoldable pub expire_batch : ℕ → ℕ → Tables → Tables
expire_batch now batch_id t =
    let files = update_many (takes_expiry batch_id now) set_expired t.files in
    record { files = files; batches = (roll_up_batch batch_id files t.batches).1 }

unfoldable pub expire_overdue_files : ℕ → List ℕ → Tables → Tables
unfolding expire_batch
expire_overdue_files now [] t = t
expire_overdue_files now (batch_id ∷ ids) t =
    expire_overdue_files now ids (expire_batch now batch_id t)

abbrev pub is_dead : ℕ → List ConversionFile → ConversionBatch → Bool
is_dead cutoff files b =
    leb b.expires_at cutoff
    && not (any (λ (f : ConversionFile). in_batch b.id f && is_live_file f.status) files)

-- The `deleteMany` of `purgeDeadRows` for batches; the files of a batch are deleted with it.
unfoldable pub purge_dead_rows : ℕ → Tables → Tables
purge_dead_rows cutoff t = record {
  batches = find_many (λ b. not (is_dead cutoff t.files b)) t.batches;
  files =
      find_many
        (λ (f : ConversionFile).
          not
            (any (λ (b : ConversionBatch). is_dead cutoff t.files b && in_batch b.id f) t.batches))
        t.files;
}

-- The `deleteMany` of `purgeDeadRows` for the counts of the days. The column holds dates, and the
-- cutoff is compared by its date.
unfoldable pub purge_usage : ℕ → List DailyUsage → List DailyUsage
purge_usage cutoff_date = delete_many (λ (u : DailyUsage). ltb u.usage_date cutoff_date)
