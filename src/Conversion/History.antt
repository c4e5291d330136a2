-- ===== src/Conversion/History.antt =====
-- What no statement of apps/conversion-api undoes in a file.
use mathlib.Core.List.{Memᴰ}
use mathlib.Core.Path.{subst}
use backend.Prelude.{
  ℕ, ◌+◌, ◌≡◌, sym, ◌∙◌, inl, inr, Bool, true, false, not, ◌||◌, List, [], ◌∷◌, map, any, any_intro,
  ◌==◌, ltb, arith, All, All_at, All-intro, All-append, All-update, All-find_many, Bool-cases,
  Option-cases, update_many, count_where, find_unique,
}
use backend.Conversion.Keeps.{Keeps, Keeps-refl, Keeps-trans}
use backend.Conversion.{PlanCode, ConversionFile, Tables}
use backend.Conversion.Events.{
  EventIdentity, Outcome, completes, fails, takes_start, set_started, takes_result, set_outcome,
  apply_result,
}
use backend.Conversion.Retention.{takes_expiry, set_expired, expire_batch, purge_dead_rows}
use backend.Conversion.Uploads.{
  CreateBatchInput, Fresh, new_file, new_batch, upload_window_ms, has_idempotency_key, takes_upload,
  set_ready, verify_upload, create_batch,
}
use backend.Conversion.Rollup.{is_completed}
use backend.Conversion.Quota.{has_id_of, set_evicted, evict_files}
use backend.Conversion.Quota.Room.{IsKeyed, chosen-is}
use backend.Conversion.Admission.{is_ready_in, set_queued}
use backend.Conversion.Admission.Effects.{
  AreRows, Admitted, unchanged, queued, made_room, batch-Admitted,
}
use backend.Conversion.Admission.Settled.{AreReady, claimed-AreReady, evicted-AreReady}
use backend.Conversion.Steps.{
  admits_files, Step, creates, uploads, starts_file, starts_batch, finishes, expires, purges,
}

-- A file of the table has the identifier.
abbrev pub is_id_of : List ConversionFile → ℕ → Bool
is_id_of files id = any (λ f. f.id == id) files

-- The files that a step creates have identifiers that no file of `first` has.
abbrev pub gives_new : List ConversionFile → {t u : Tables} → Step t u → Bool
gives_new first (creates digest input plan_code revision max now fresh s b) =
    not (any (is_id_of first) fresh.file_ids)
gives_new first _ = true

-- A file of `files` in a later state, or, in a later state, a new file whose identifier no file of
-- `first` has.
data Continues (first files : List ConversionFile) : ConversionFile → Type 0 where
  goes_on :
      {g : ConversionFile} (f : ConversionFile) → Memᴰ f files → Keeps f g → Continues first files g
  starts :
      {g : ConversionFile} (batch_id expires_at id : ℕ)
      → is_id_of first id ≡ false
      → Keeps (new_file batch_id expires_at id) g
      → Continues first files g

Continues-then :
    (first files : List ConversionFile) (g h : ConversionFile)
    → Continues first files g
    → Keeps g h
    → Continues first files h
Continues-then first files g h (goes_on f m k) j = goes_on f m (Keeps-trans f g h k j)
Continues-then first files g h (starts b e i new k) j = starts b e i new (Keeps-trans _ g h k j)

Continues-trans :
    (first files gs : List ConversionFile) (h : ConversionFile)
    → All (Continues first files) gs
    → Continues first gs h
    → Continues first files h
Continues-trans first files gs h all (goes_on g m k) =
    Continues-then first files g h (All_at (Continues first files) g gs all m) k
Continues-trans first files gs h all (starts b e i new k) = starts b e i new k

module _ (first files : List ConversionFile) where
  same-Continue : All (Continues first files) files
  same-Continue = All-intro (Continues first files) files (λ f m. goes_on f m (Keeps-refl f))

  update-Continue :
      (p : ConversionFile → Bool) (new : ConversionFile → ConversionFile)
      → ((f : ConversionFile) → p f ≡ true → Keeps f (new f))
      → All (Continues first files) (update_many p new files)
  update-Continue p new keep =
      All-update (Continues first files) p new files (λ f m e. goes_on f m (keep f e))
        (λ f m e. goes_on f m (Keeps-refl f))

  new-Continue :
      (batch_id expires_at : ℕ) (ids : List ℕ)
      → any (is_id_of first) ids ≡ false
      → All (Continues first files) (map (new_file batch_id expires_at) ids)
  new-Continue batch_id expires_at [] new = tt
  new-Continue batch_id expires_at (i ∷ ids) new = (
    starts batch_id expires_at i (ground arith) (Keeps-refl _),
    new-Continue batch_id expires_at ids (ground arith),
  )

module _ (first : List ConversionFile) (t : Tables) where
  queue-Continue :
      (id expires_at : ℕ) (claimed files : List ConversionFile)
      → All (Continues first t.files) files
      → AreReady id claimed files
      → All
          (Continues first t.files)
          (update_many (has_id_of claimed) (set_queued expires_at) files)
  queue-Continue id expires_at claimed files before ready =
      All-update (Continues first t.files) (has_id_of claimed) (set_queued expires_at) files
        (λ f m e.
          let one =
            All_at (λ g. has_id_of claimed g ≡ true → is_ready_in id g ≡ true) f files ready m e in
          Continues-then first t.files f (set_queued expires_at f)
            (All_at (Continues first t.files) f files before m) (ground arith))
        (λ f m e. All_at (Continues first t.files) f files before m)

  finish-Continue :
      (e : EventIdentity) (o : Outcome) (now : ℕ)
      → All (Continues first t.files) (update_many (takes_result e) (set_outcome o now) t.files)
  finish-Continue e (completes c) now =
      update-Continue first t.files (takes_result e) (set_outcome (completes c) now)
        (λ f k. ground arith)
  finish-Continue e (fails c) now =
      update-Continue first t.files (takes_result e) (set_outcome (fails c) now)
        (λ f k. ground arith)

  apply_result-Continue :
      (e : EventIdentity) (o : Outcome) (now : ℕ)
      → All (Continues first t.files) (apply_result e o now t).files
  unfolding apply_result
  apply_result-Continue e o now = elim (Bool-cases (count_where (takes_result e) t.files == 0)) [
    | inl k ↦ rw (k, apply_result) (same-Continue first t.files)
    | inr k ↦ rw (k, apply_result) (finish-Continue e o now)
  ]

  create-Continue :
      (digest : ℕ → ℕ) (input : CreateBatchInput) (plan_code : PlanCode)
      (revision max_batch_files now : ℕ) (fresh : Fresh)
      → any (is_id_of first) fresh.file_ids ≡ false
      → All
          (Continues first t.files)
          (create_batch digest input plan_code revision max_batch_files now fresh t).1.files
  unfolding create_batch new_batch
  create-Continue digest input plan_code revision max_batch_files now fresh new =
      let none_new = same-Continue first t.files in
      elim (Bool-cases (ltb input.file_count 1 || ltb max_batch_files input.file_count)) [
        | inl e ↦ rw (e, create_batch) none_new
        | inr e ↦ elim (Option-cases (find_unique (has_idempotency_key input) t.batches)) [
          | inl k ↦
              rw (e, k, create_batch)
                (All-append (Continues first t.files) t.files _ none_new (
                  new-Continue first t.files fresh.batch_id (now + upload_window_ms) fresh.file_ids
                    new))
          | inr (b, k) ↦ rw (e, k, create_batch) none_new
        ]
      ]

  evict-Continue :
      (keyed : IsKeyed t.files) (now : ℕ) (chosen : List ConversionFile)
      → AreRows is_completed t.files chosen
      → All (Continues first t.files) (update_many (has_id_of chosen) (set_evicted now) t.files)
  evict-Continue keyed now chosen done =
      All-update (Continues first t.files) (has_id_of chosen) (set_evicted now) t.files
        (λ f m e.
          let one = chosen-is is_completed t.files chosen f keyed m done e in
          goes_on f m (ground arith))
        (λ f m e. goes_on f m (Keeps-refl f))

  Admitted-Continue :
      {u : Tables} → IsKeyed t.files → Admitted t u → All (Continues first t.files) u.files
  unfolding evict_files
  Admitted-Continue keyed unchanged = same-Continue first t.files
  Admitted-Continue keyed (queued id expires_at claimed ready) =
      queue-Continue id expires_at claimed t.files (same-Continue first t.files)
        (claimed-AreReady t.files keyed id claimed ready)
  Admitted-Continue keyed (made_room now id expires_at chosen claimed done ready) =
      queue-Continue id expires_at claimed
        (update_many (has_id_of chosen) (set_evicted now) t.files)
        (evict-Continue keyed now chosen done)
        (evicted-AreReady t.files keyed now id chosen claimed done ready)

  Step-Continue :
      {u : Tables} (s : Step t u) → gives_new first s ≡ true → All (Continues first t.files) u.files
  unfolding verify_upload expire_batch purge_dead_rows
  Step-Continue (creates digest input plan_code revision max now fresh s b) new =
      create-Continue digest input plan_code revision max now fresh (ground arith)
  Step-Continue (uploads id stored) new =
      update-Continue first t.files (takes_upload id) (set_ready stored) (λ f k. ground arith)
  Step-Continue (starts_file e now) new =
      update-Continue first t.files (takes_start e) (set_started e now) (λ f k. ground arith)
  Step-Continue (starts_batch id) new = same-Continue first t.files
  Step-Continue (finishes e o now) new = apply_result-Continue e o now
  Step-Continue (expires now id) new =
      update-Continue first t.files (takes_expiry id now) set_expired (λ f k. ground arith)
  Step-Continue
        (admits_files large snapshot retention db_now db_date now n usage outbox read s keyed e)
        new =
      Admitted-Continue keyed (
        batch-Admitted large snapshot retention db_now db_date now read
          (record { tables = t; usage = usage; outbox = outbox }) keyed n s e)
  Step-Continue (purges cutoff) new =
      All-find_many (Continues first t.files) _ t.files (same-Continue first t.files)

-- The tables that a sequence of new batches, uploads, admissions, worker events and sweeps leads to,
-- in any order; no new file is given an identifier that a file of the first table has, as
-- `randomUUID` gives none twice.
pub data Later (t : Tables) : Tables → Type 0 where
  now : Later t t
  after : {u v : Tables} → Later t u → (s : Step u v) → gives_new t.files s ≡ true → Later t v

Later-Continues : (t u : Tables) → Later t u → All (Continues t.files t.files) u.files
Later-Continues t u now = same-Continue t.files t.files
Later-Continues t u (after {u = v} r s new) =
    let before = Later-Continues t v r in
    All-intro (Continues t.files t.files) u.files (λ g m.
      Continues-trans t.files t.files v.files g before
        (All_at (Continues t.files v.files) g u.files (Step-Continue t.files v s new) m))

-- A file that continues has the identifier of a file of the table only as that file.
Continues-Keeps :
    (files : List ConversionFile) (f g : ConversionFile)
    → IsKeyed files
    → Memᴰ f files
    → g.id ≡ f.id
    → Continues files files g
    → Keeps f g
unfolding new_file
Continues-Keeps files f g keyed m same (goes_on x n k) =
    let one : f ≡ x = keyed f x m n (ground (arith, k.same_id)) in
    subst (λ y. Keeps y g) (sym one) k
Continues-Keeps files f g keyed m same (starts b e i new k) =
    let eq : f.id ≡ i = sym same ∙ k.same_id in
    let given = any_intro (λ (x : ConversionFile). x.id == i) f files m (ground arith) in
    absurd (ground (arith, given, new))

-- After any sequence of new batches, uploads, admissions, worker events and sweeps, in any order, a
-- file of the table, if its row is still there, is the same upload; its attempt is not less, its
-- status is not an earlier one, and if it was finished, its output, failure code and completion time
-- are what they were, and so is its status unless it was completed and has expired. The files of the
-- table have different identifiers, and no new file is given one of these.
pub Later-Keeps :
    (t u : Tables) (f g : ConversionFile)
    → IsKeyed t.files
    → Later t u
    → Memᴰ f t.files
    → Memᴰ g u.files
    → g.id ≡ f.id
    → Keeps f g
Later-Keeps t u f g keyed r m n same =
    Continues-Keeps t.files f g keyed m same
      (All_at (Continues t.files t.files) g u.files (Later-Continues t u r) n)
