-- ===== src/Conversion/Admission/Settled.antt =====
-- An admission keeps every batch open while a file of it is not finished.
use backend.Prelude.{ℕ, ◌≡◌, true, List, arith, All, All_at, All-intro, All-update, update_many}
use backend.Conversion.{ConversionFile, Tables}
use backend.Conversion.Rollup.{is_completed}
use backend.Conversion.Quota.{has_id_of, set_evicted, batches_of, evict_files}
use backend.Conversion.Quota.Room.{IsKeyed, chosen-is}
use backend.Conversion.Consistency.{
  IsConsistent, update-SameOpen, SameOpen-IsSettled, update-IsSettled, roll_up_each-IsSettled,
}
use backend.Conversion.Admission.{is_ready_in, set_queued, takes_admission, set_admitted}
use backend.Conversion.Admission.Effects.{
  AreRows, queue_tables, Admitted, unchanged, queued, made_room,
}

-- The rows that an admission queues are uploaded files.
abbrev pub AreReady : ℕ → List ConversionFile → List ConversionFile → Type 0
AreReady id claimed = All (λ f. has_id_of claimed f ≡ true → is_ready_in id f ≡ true)

module _ (files : List ConversionFile) (keyed : IsKeyed files) where
  pub claimed-AreReady :
      (id : ℕ) (claimed : List ConversionFile)
      → AreRows (is_ready_in id) files claimed
      → AreReady id claimed files
  claimed-AreReady id claimed rows =
      All-intro (λ f. has_id_of claimed f ≡ true → is_ready_in id f ≡ true) files
        (λ f m e. chosen-is (is_ready_in id) files claimed f keyed m rows e)

  pub evicted-AreReady :
      (now id : ℕ) (chosen claimed : List ConversionFile)
      → AreRows is_completed files chosen
      → AreRows (is_ready_in id) files claimed
      → AreReady id claimed (update_many (has_id_of chosen) (set_evicted now) files)
  evicted-AreReady now id chosen claimed done ready =
      All-update (λ f. has_id_of claimed f ≡ true → is_ready_in id f ≡ true) (has_id_of chosen)
        (set_evicted now) files
        (λ f m hit e.
          let one = chosen-is is_completed files chosen f keyed m done hit in
          let other = chosen-is (is_ready_in id) files claimed f keyed m ready e in
          absurd (ground arith))
        (λ f m miss e. chosen-is (is_ready_in id) files claimed f keyed m ready e)

module _ (t : Tables) (h : IsConsistent t) where
  evict-IsConsistent :
      (keyed : IsKeyed t.files) (now : ℕ) (chosen : List ConversionFile)
      → AreRows is_completed t.files chosen
      → IsConsistent (evict_files now chosen t)
  unfolding IsConsistent evict_files
  evict-IsConsistent keyed now chosen done =
      let files = update_many (has_id_of chosen) (set_evicted now) t.files in
      roll_up_each-IsSettled (batches_of chosen) files t.batches (
        SameOpen-IsSettled t.files files t.batches
          (update-SameOpen (has_id_of chosen) (set_evicted now) t.files (λ f m e id.
            let one = chosen-is is_completed t.files chosen f keyed m done e in ground arith))
          h)

  queue-IsConsistent :
      (id expires_at : ℕ) (claimed : List ConversionFile)
      → AreReady id claimed t.files
      → IsConsistent (queue_tables id expires_at claimed t)
  unfolding IsConsistent
  queue-IsConsistent id expires_at claimed ready =
      let files = update_many (has_id_of claimed) (set_queued expires_at) t.files in
      update-IsSettled files (takes_admission id) (set_admitted expires_at) t.batches
        (λ b e. ground arith)
        (SameOpen-IsSettled t.files files t.batches
          (update-SameOpen (has_id_of claimed) (set_queued expires_at) t.files (λ f m e k.
            let one =
              All_at (λ f. has_id_of claimed f ≡ true → is_ready_in id f ≡ true) f t.files ready m
                e in
            ground arith))
          h)

pub Admitted-IsConsistent :
    (t u : Tables) → IsKeyed t.files → IsConsistent t → Admitted t u → IsConsistent u
unfolding evict_files
Admitted-IsConsistent t u keyed h unchanged = h
Admitted-IsConsistent t u keyed h (queued id expires_at claimed ready) =
    queue-IsConsistent t h id expires_at claimed (claimed-AreReady t.files keyed id claimed ready)
Admitted-IsConsistent t u keyed h (made_room now id expires_at chosen claimed done ready) =
    queue-IsConsistent (evict_files now chosen t) (evict-IsConsistent t h keyed now chosen done) id
      expires_at claimed (evicted-AreReady t.files keyed now id chosen claimed done ready)
