-- ===== src/Conversion/Settled.antt =====
-- The statements of apps/conversion-api keep every batch open while a file of it is not finished.
use backend.Prelude.{
  ℕ, ◌+◌, ◌≤◌, ◌≡◌, refl, inl, inr, Bool, true, false, not, ◌&&◌, ◌||◌, List, [], ◌∷◌, ◌++◌, map,
  ◌==◌, ltb, arith, any, All, All-append, any-append, any_intro, any-find_many, All-find_many,
  Bool-cases, Option-cases, update_many, count_where, find_many, find_unique, length,
}
use mathlib.Core.List.{Memᴰ}
use backend.Conversion.{BatchStatus, PlanCode, ConversionBatch, ConversionFile, Tables}
use backend.Conversion.Rollup.{
  is_live_file, is_unfinished, in_batch, set_batch_status, roll_up_batch,
}
use backend.Conversion.Events.{
  EventIdentity, Outcome, completes, fails, StoredObject, takes_start, set_started, takes_result,
  set_outcome, is_queued_batch, apply_result,
}
use backend.Conversion.Retention.{takes_expiry, set_expired, expire_batch, is_dead, purge_dead_rows}
use backend.Conversion.Uploads.{
  CreateBatchInput, Fresh, new_batch, new_file, upload_window_ms, has_idempotency_key, takes_upload,
  set_ready, verify_upload, create_batch,
}
use backend.Conversion.Admission.Effects.{batch-Admitted}
use backend.Conversion.Admission.Settled.{Admitted-IsConsistent}
use backend.Conversion.Steps.{
  admits_files, start_file, start_batch, upload_file, Step, creates, uploads, starts_file,
  starts_batch, finishes, expires, purges, Reach, here, next,
}
use backend.Conversion.Consistency.{
  unfinished_in, IsSettled, IsConsistent, SameOpen, Closes, update-SameOpen, update-Closes,
  roll_up_batch-IsSettled, SameOpen-IsSettled, Closes-MaySettle, update-IsSettled,
}

module _ (t : Tables) (h : IsConsistent t) where
  upload-IsConsistent : (id : ℕ) (stored : StoredObject) → IsConsistent (upload_file id stored t)
  unfolding IsConsistent verify_upload
  upload-IsConsistent id stored =
      SameOpen-IsSettled t.files _ t.batches
        (update-SameOpen (takes_upload id) (set_ready stored) t.files (λ f m e k. ground arith)) h

  start_file-IsConsistent : (e : EventIdentity) (now : ℕ) → IsConsistent (start_file e now t)
  unfolding IsConsistent
  start_file-IsConsistent e now =
      SameOpen-IsSettled t.files _ t.batches
        (update-SameOpen (takes_start e) (set_started e now) t.files (λ f m k i. ground arith)) h

  start_batch-IsConsistent : (batch_id : ℕ) → IsConsistent (start_batch batch_id t)
  unfolding IsConsistent
  start_batch-IsConsistent batch_id =
      update-IsSettled t.files (is_queued_batch batch_id) (set_batch_status BatchStatus.processing)
        t.batches (λ b e. ground arith) h

  closed-IsConsistent :
      (id : ℕ) (files : List ConversionFile)
      → Closes id t.files files
      → IsConsistent (record { files = files; batches = (roll_up_batch id files t.batches).1 })
  unfolding IsConsistent
  closed-IsConsistent id files closes =
      roll_up_batch-IsSettled id files t.batches
        (Closes-MaySettle id t.files files t.batches closes h)

  finish-Closes :
      (e : EventIdentity) (o : Outcome) (now : ℕ)
      → Closes e.batch_id t.files (update_many (takes_result e) (set_outcome o now) t.files)
  finish-Closes e (completes c) now =
      update-Closes e.batch_id (takes_result e) (set_outcome (completes c) now) t.files
        (λ f k. ground arith)
  finish-Closes e (fails c) now =
      update-Closes e.batch_id (takes_result e) (set_outcome (fails c) now) t.files
        (λ f k. ground arith)

  finish-IsConsistent :
      (e : EventIdentity) (o : Outcome) (now : ℕ) → IsConsistent (apply_result e o now t)
  unfolding apply_result
  finish-IsConsistent e o now = elim (Bool-cases (count_where (takes_result e) t.files == 0)) [
    | inl k ↦ rw (k, apply_result) h
    | inr k ↦ rw (k, apply_result) (closed-IsConsistent e.batch_id _ (finish-Closes e o now))
  ]

  expire-IsConsistent : (now batch_id : ℕ) → IsConsistent (expire_batch now batch_id t)
  unfolding expire_batch
  expire-IsConsistent now batch_id =
      closed-IsConsistent batch_id _ (
        update-Closes batch_id (takes_expiry batch_id now) set_expired t.files
          (λ f k. ground arith))

abbrev is_deleted : ℕ → List ConversionFile → List ConversionBatch → ConversionFile → Bool
is_deleted cutoff files batches f =
    any (λ (b : ConversionBatch). is_dead cutoff files b && in_batch b.id f) batches

-- The files that `purgeDeadRows` deletes are finished.
unfinished-kept :
    (cutoff : ℕ) (files : List ConversionFile) (f : ConversionFile) (batches : List ConversionBatch)
    → Memᴰ f files
    → is_unfinished f ≡ true
    → is_deleted cutoff files batches f ≡ false
unfinished-kept cutoff files f [] m h = refl
unfinished-kept cutoff files f (b ∷ batches) m h =
    let live = λ (g : ConversionFile). in_batch b.id g && is_live_file g.status in
    let seen : live f ≡ true → any live files ≡ true = any_intro live f files m in
    let rest = unfinished-kept cutoff files f batches m h in ground (arith, seen, rest)

purge-IsConsistent :
    (t : Tables) → IsConsistent t → (cutoff : ℕ) → IsConsistent (purge_dead_rows cutoff t)
unfolding IsConsistent purge_dead_rows SameOpen
purge-IsConsistent t h cutoff =
    let keeps = λ (b : ConversionBatch). not (is_dead cutoff t.files b) in
    let stays = λ (f : ConversionFile). not (is_deleted cutoff t.files t.batches f) in
    SameOpen-IsSettled t.files (find_many stays t.files) (find_many keeps t.batches)
      (λ id.
        any-find_many (unfinished_in id) stays t.files (λ f m e.
          let kept = unfinished-kept cutoff t.files f t.batches m in ground (arith, kept)))
      (All-find_many (IsSettled t.files) keeps t.batches h)

new_files-other :
    (batch_id expires_at other : ℕ) (ids : List ℕ)
    → (other == batch_id) ≡ false
    → any (unfinished_in other) (map (new_file batch_id expires_at) ids) ≡ false
unfolding new_file
new_files-other batch_id expires_at other [] h = refl
new_files-other batch_id expires_at other (i ∷ ids) h =
    ground (arith, new_files-other batch_id expires_at other ids)

new_files-own :
    (batch_id expires_at : ℕ) (ids : List ℕ)
    → 1 ≤ length ids
    → any (unfinished_in batch_id) (map (new_file batch_id expires_at) ids) ≡ true
unfolding new_file
new_files-own batch_id expires_at [] h = ground arith
new_files-own batch_id expires_at (i ∷ ids) h = ground arith

old_batches-IsSettled :
    (batch_id expires_at : ℕ) (ids : List ℕ) (files : List ConversionFile)
    (batches : List ConversionBatch)
    → any (λ (b : ConversionBatch). b.id == batch_id) batches ≡ false
    → All (IsSettled files) batches
    → All (IsSettled (files ++ map (new_file batch_id expires_at) ids)) batches
old_batches-IsSettled batch_id expires_at ids files [] fresh h = tt
old_batches-IsSettled batch_id expires_at ids files (b ∷ batches) fresh h =
    let split = any-append (unfinished_in b.id) files (map (new_file batch_id expires_at) ids) in
    let none_new = new_files-other batch_id expires_at b.id ids (ground arith) in
    (
      ground (arith, split, none_new, h.0),
      old_batches-IsSettled batch_id expires_at ids files batches (ground arith) h.1,
    )

module _ (t : Tables) (h : IsConsistent t) (digest : ℕ → ℕ) (input : CreateBatchInput)
    (plan_code : PlanCode) (revision max_batch_files now : ℕ) (fresh : Fresh) where
  insert-IsConsistent :
      (expires_at : ℕ)
      → 1 ≤ length fresh.file_ids
      → any (λ (b : ConversionBatch). b.id == fresh.batch_id) t.batches ≡ false
      → IsConsistent (record {
        batches = t.batches ++ new_batch digest input plan_code revision fresh expires_at ∷ [];
        files = t.files ++ map (new_file fresh.batch_id expires_at) fresh.file_ids;
      })
  unfolding IsConsistent new_batch
  insert-IsConsistent expires_at some_file no_batch =
      let new = map (new_file fresh.batch_id expires_at) fresh.file_ids in
      let own = new_files-own fresh.batch_id expires_at fresh.file_ids some_file in
      let split = any-append (unfinished_in fresh.batch_id) t.files new in
      All-append (IsSettled (t.files ++ new)) t.batches
        (new_batch digest input plan_code revision fresh expires_at ∷ [])
        (old_batches-IsSettled fresh.batch_id expires_at fresh.file_ids t.files t.batches no_batch
          h)
        (ground (arith, split, own), tt)

  create-IsConsistent :
      length fresh.file_ids ≡ input.file_count
      → any (λ (b : ConversionBatch). b.id == fresh.batch_id) t.batches ≡ false
      → IsConsistent (create_batch digest input plan_code revision max_batch_files now fresh t).1
  unfolding create_batch new_batch
  create-IsConsistent sized no_batch =
      elim (Bool-cases (ltb input.file_count 1 || ltb max_batch_files input.file_count)) [
        | inl e ↦ rw (e, create_batch) h
        | inr e ↦ elim (Option-cases (find_unique (has_idempotency_key input) t.batches)) [
          | inl k ↦
              rw (e, k, create_batch)
                (insert-IsConsistent (now + upload_window_ms) (ground arith) no_batch)
          | inr (b, k) ↦ rw (e, k, create_batch) h
        ]
      ]

Step-IsConsistent : {t u : Tables} → Step t u → IsConsistent t → IsConsistent u
Step-IsConsistent {t = t} (creates digest input plan_code revision max now fresh s b) h =
    create-IsConsistent t h digest input plan_code revision max now fresh s b
Step-IsConsistent {t = t} (uploads id stored) h = upload-IsConsistent t h id stored
Step-IsConsistent {t = t} (starts_file e now) h = start_file-IsConsistent t h e now
Step-IsConsistent {t = t} (starts_batch id) h = start_batch-IsConsistent t h id
Step-IsConsistent {t = t} (finishes e o now) h = finish-IsConsistent t h e o now
Step-IsConsistent {t = t} (expires now id) h = expire-IsConsistent t h now id
Step-IsConsistent {t = t}
      (admits_files large snapshot retention db_now db_date now n usage outbox read s keyed e) h =
    Admitted-IsConsistent t s.tables keyed h (
      batch-Admitted large snapshot retention db_now db_date now read
        (record { tables = t; usage = usage; outbox = outbox }) keyed n s e)
Step-IsConsistent {t = t} (purges cutoff) h = purge-IsConsistent t h cutoff

-- From tables where a batch is open exactly when a file of it is not finished, every sequence of
-- new batches, uploads, admissions, worker events and sweeps, in any order, leads to tables where
-- this holds: no batch stays open when its files are finished, and none closes before.
pub Reach-IsConsistent : (t u : Tables) → Reach t u → IsConsistent t → IsConsistent u
Reach-IsConsistent t u here h = h
Reach-IsConsistent t u (next {u = v} r s) h = Step-IsConsistent s (Reach-IsConsistent t v r h)
