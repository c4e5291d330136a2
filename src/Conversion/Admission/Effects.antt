-- ===== src/Conversion/Admission/Effects.antt =====
-- What an admission does to the tables of batches and files.
use mathlib.Core.Path.{subst}
use mathlib.Core.List.{Memᴰ}
use backend.Prelude.{
  ℕ, ◌+◌, ◌*◌, ◌≡◌, inl, inr, Bool, true, List, some, ◌==◌, arith, All, All-map, length, order_by,
  Bool-cases, Option-cases, update_many, find_many,
}
use backend.Conversion.{ConversionBatch, ConversionFile, Tables}
use backend.Conversion.Rollup.{is_completed}
use backend.Conversion.Quota.{by_id, is_evictable, has_id_of, evict_files, make_room}
use backend.Conversion.Quota.Sums.{All-order_by, All-chosen}
use backend.Conversion.Quota.Room.{IsKeyed, make_room-tables}
use backend.Conversion.Admission.{
  EntitlementSnapshot, RetentionClass, Store, admits, is_ready_in, set_queued, takes_admission,
  set_admitted, room_for, usage_for, queue_for_tier, check_measured, queue_files, admit_claimed,
  admit_batch,
}

-- Rows of the table that pass a test.
abbrev pub AreRows : (ConversionFile → Bool) → List ConversionFile → List ConversionFile → Type 0
AreRows p files = All (λ c. Memᴰ c files × (p c ≡ true))

abbrev pub queue_tables : ℕ → ℕ → List ConversionFile → Tables → Tables
queue_tables id expires_at claimed t = record {
  batches = update_many (takes_admission id) (set_admitted expires_at) t.batches;
  files = update_many (has_id_of claimed) (set_queued expires_at) t.files;
}

-- Finished files are evicted, or none is, and uploaded files of the batch are queued.
pub data Admitted (t : Tables) : Tables → Type 0 where
  unchanged : Admitted t t
  queued :
      (id expires_at : ℕ) (claimed : List ConversionFile)
      → AreRows (is_ready_in id) t.files claimed
      → Admitted t (queue_tables id expires_at claimed t)
  made_room :
      (now id expires_at : ℕ) (chosen claimed : List ConversionFile)
      → AreRows is_completed t.files chosen
      → AreRows (is_ready_in id) t.files claimed
      → Admitted t (queue_tables id expires_at claimed (evict_files now chosen t))

claimed-AreRows :
    (id : ℕ) (files : List ConversionFile)
    → AreRows (is_ready_in id) files (order_by by_id (find_many (is_ready_in id) files))
claimed-AreRows id files =
    All-order_by (λ c. Memᴰ c files × (is_ready_in id c ≡ true)) by_id
      (find_many (is_ready_in id) files)
      (All-chosen (λ c. Memᴰ c files × (is_ready_in id c ≡ true)) (is_ready_in id) files
        (λ f m e. (m, e)))

module _ (large : ℕ) (snapshot : EntitlementSnapshot) (retention : RetentionClass)
    (db_now db_date now : ℕ) (b : ConversionBatch) (s : Store)
    (keyed : IsKeyed s.tables.files) where
  room-Admitted :
      (expires_at : ℕ) (claimed : List ConversionFile) (u : Tables)
      → AreRows (is_ready_in b.id) s.tables.files claimed
      → room_for snapshot db_now now b.subject claimed s.tables ≡ some u
      → Admitted s.tables (queue_tables b.id expires_at claimed u)
  room-Admitted expires_at claimed u ready e = elim (Option-cases snapshot.storage_bytes) [
    | inl k ↦
        let same : s.tables ≡ u = ground arith in
        subst (λ (v : Tables). Admitted s.tables (queue_tables b.id expires_at claimed v)) same
          (queued b.id expires_at claimed ready)
    | inr (limit, k) ↦
        let room : make_room db_now now b.subject limit claimed s.tables ≡ some u = ground arith in
        elim (make_room-tables db_now now b.subject limit claimed s.tables u keyed room) [
          | inl same ↦
              subst (λ (v : Tables). Admitted s.tables (queue_tables b.id expires_at claimed v))
                same (queued b.id expires_at claimed ready)
          | inr (chosen, all, same) ↦
              let done =
                All-map
                  (λ c.
                    Memᴰ c s.tables.files
                    × (is_evictable db_now b.subject s.tables.batches c ≡ true))
                  (λ c. Memᴰ c s.tables.files × (is_completed c ≡ true)) chosen
                  (λ c k. (k.0, ground arith)) all in
              subst (λ (v : Tables). Admitted s.tables (queue_tables b.id expires_at claimed v))
                same (made_room now b.id expires_at chosen claimed done ready)
        ]
  ]

  claimed-Admitted :
      (n : ℕ) (s' : Store) (claimed : List ConversionFile)
      → AreRows (is_ready_in b.id) s.tables.files claimed
      → admit_claimed large snapshot retention db_now db_date now b claimed s ≡ admits n s'
      → Admitted s.tables s'.tables
  unfolding admit_claimed queue_files
  claimed-Admitted n s' claimed ready h =
      elim (Option-cases (room_for snapshot db_now now b.subject claimed s.tables)) [
        | inl e ↦ absurd (ground arith)
        | inr (u, e) ↦
            elim (Option-cases (usage_for snapshot b.subject db_date (length claimed) s.usage)) [
              | inl k ↦ absurd (ground arith)
              | inr (usage, k) ↦ elim (Option-cases (queue_for_tier snapshot.queue_tier)) [
                | inl q ↦ absurd (ground arith)
                | inr (queue, q) ↦
                    let expires_at = now + snapshot.output_retention_hours * 3600000 in
                    let same : queue_tables b.id expires_at claimed u ≡ s'.tables = ground arith in
                    subst (Admitted s.tables) same (room-Admitted expires_at claimed u ready e)
              ]
            ]
      ]

  pub batch-Admitted :
      (n : ℕ) (s' : Store)
      → admit_batch large snapshot retention db_now db_date now b s ≡ admits n s'
      → Admitted s.tables s'.tables
  unfolding admit_batch
  batch-Admitted n s' h =
      let claimed = order_by by_id (find_many (is_ready_in b.id) s.tables.files) in
      elim (Bool-cases (length claimed == 0)) [
        | inl e ↦
            let same : s.tables ≡ s'.tables = ground arith in
            subst (Admitted s.tables) same unchanged
        | inr e ↦ elim (Option-cases (check_measured snapshot.max_file_bytes claimed)) [
          | inl k ↦
              claimed-Admitted n s' claimed (claimed-AreRows b.id s.tables.files) (ground arith)
          | inr (error, k) ↦ absurd (ground arith)
        ]
      ]
