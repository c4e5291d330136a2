-- ===== src/Conversion/Admission/Storage.antt =====
-- An admission keeps the storage of its subject within the plan.
use mathlib.Core.List.{Memᴰ}
use backend.Prelude.{
  order_by, ℕ, ◌+◌, ◌*◌, ◌≤◌, ◌≡◌, refl, sym, ap, ◌∙◌, inl, inr, true, not, ◌&&◌, ◌||◌, List,
  Option, none, some, ◌==◌, leb, arith, sum_by, length, if◌then◌else◌, Bool-cases, Option-cases,
  update_many, find_many, find_unique,
}
use backend.Conversion.{ConversionBatch, ConversionFile, Tables}
use backend.Conversion.Quota.{
  by_id, or_zero, is_owned, storage_used_for, set_evicted, has_id_of, make_room,
}
use backend.Conversion.Quota.Sums.{
  sum_by-order_by, sum_by-find_many, sum_by_le, sum_by-update_le, sum_by-update_same,
  any-update_same, All-order_by, All-chosen,
}
use backend.Conversion.Quota.Room.{IsKeyed, used_by, chosen-is, make_room-within, make_room-files}
use backend.Conversion.Uploads.{assert_ownership, batch_not_found}
use backend.Conversion.Admission.{
  EntitlementSnapshot, RetentionClass, Queue, Store, admits, is_ready_in, set_queued,
  takes_admission, set_admitted, room_for, usage_for, queue_for_tier, retention_class,
  is_admittable, check_measured, queue_files, admit_claimed, admit_batch, admit_ready_files,
}

abbrev input_bytes_of : ConversionFile → ℕ
input_bytes_of f = or_zero f.input_bytes

module _ (claimed : List ConversionFile) where
  -- The bytes that a row adds when its file is queued.
  abbrev added_by : ConversionFile → ℕ
  added_by f = if has_id_of claimed f then input_bytes_of f else 0

  queued-sum :
      (db_now subject expires_at : ℕ) (files : List ConversionFile)
      (before after : List ConversionBatch)
      → ((f : ConversionFile) → is_owned subject after f ≡ is_owned subject before f)
      → sum_by
          (used_by db_now subject after)
          (update_many (has_id_of claimed) (set_queued expires_at) files)
        ≤ sum_by (used_by db_now subject before) files + sum_by added_by files
  queued-sum db_now subject expires_at files before after same =
      let all =
        sum_by-update_le (used_by db_now subject before) (used_by db_now subject after) (λ f. 0)
          added_by (has_id_of claimed) (set_queued expires_at) files
          (λ f m. ground (arith, same f)) in
      ground (arith, all)

  room-added :
      (db_now now subject limit : ℕ) (t u : Tables)
      → IsKeyed t.files
      → make_room db_now now subject limit claimed t ≡ some u
      → sum_by added_by u.files ≡ sum_by added_by t.files
  room-added db_now now subject limit t u keyed h =
      elim (make_room-files db_now now subject limit claimed t u keyed h) [
        | inl same ↦ ap (sum_by added_by) (sym same)
        | inr (chosen, same) ↦
            ap (sum_by added_by) (sym same)
            ∙ sum_by-update_same added_by (has_id_of chosen) (set_evicted now) t.files (λ f. refl)
      ]

module _ (batch_id : ℕ) (files : List ConversionFile) (keyed : IsKeyed files) where
  abbrev claimed_of : List ConversionFile
  claimed_of = order_by by_id (find_many (is_ready_in batch_id) files)

  claimed-sum : sum_by (added_by claimed_of) files ≤ sum_by input_bytes_of claimed_of
  claimed-sum =
      let ready = λ (f : ConversionFile). if is_ready_in batch_id f then input_bytes_of f else 0 in
      let are_ready =
        All-order_by (λ c. Memᴰ c files × (is_ready_in batch_id c ≡ true)) by_id
          (find_many (is_ready_in batch_id) files)
          (All-chosen (λ c. Memᴰ c files × (is_ready_in batch_id c ≡ true)) (is_ready_in batch_id)
            files (λ f m e. (m, e))) in
      let le = sum_by_le (added_by claimed_of) ready files (λ f m.
        let own = chosen-is (is_ready_in batch_id) files claimed_of f keyed m are_ready in
        ground (arith, own)) in
      let sorted = sum_by-order_by input_bytes_of by_id (find_many (is_ready_in batch_id) files) in
      let chosen = sum_by-find_many input_bytes_of (is_ready_in batch_id) files in
      ground (arith, le, sorted, chosen)

queue_files-within :
    (large : ℕ) (retention : RetentionClass) (tier : ℕ) (queue : Queue)
    (db_now subject limit expires_at : ℕ) (b : ConversionBatch) (claimed : List ConversionFile)
    (u : Store)
    → storage_used_for db_now subject u.tables + sum_by (added_by claimed) u.tables.files ≤ limit
    → storage_used_for db_now subject
        (queue_files large retention tier queue expires_at b claimed u).tables
      ≤ limit
unfolding storage_used_for queue_files
queue_files-within large retention tier queue db_now subject limit expires_at b claimed u h =
    let batches = u.tables.batches in
    let le =
      queued-sum claimed db_now subject expires_at u.tables.files batches
        (update_many (takes_admission b.id) (set_admitted expires_at) batches)
        (λ f.
          any-update_same (λ (c : ConversionBatch). c.id == f.batch_id && c.subject == subject)
            (takes_admission b.id) (set_admitted expires_at) batches (λ c. refl)) in
    ground (arith, le)

module _ (large : ℕ) (snapshot : EntitlementSnapshot) (retention : RetentionClass)
    (db_now db_date now limit : ℕ) (b : ConversionBatch) (s : Store)
    (limited : snapshot.storage_bytes ≡ some limit) (keyed : IsKeyed s.tables.files) where
  room-within :
      (t : Tables)
      → room_for snapshot db_now now b.subject (claimed_of b.id s.tables.files keyed) s.tables
        ≡ some t
      → storage_used_for db_now b.subject t
          + sum_by (added_by (claimed_of b.id s.tables.files keyed)) t.files
        ≤ limit
  room-within t e =
      let claimed = claimed_of b.id s.tables.files keyed in
      let room : make_room db_now now b.subject limit claimed s.tables ≡ some t = ground arith in
      let within = make_room-within db_now now b.subject limit claimed s.tables t keyed room in
      let added = room-added claimed db_now now b.subject limit s.tables t keyed room in
      let less = claimed-sum b.id s.tables.files keyed in omega (arith, within, added, less)

  admit_claimed-within :
      (n : ℕ) (s' : Store)
      → admit_claimed large snapshot retention db_now db_date now b
          (claimed_of b.id s.tables.files keyed)
          s
        ≡ admits n s'
      → storage_used_for db_now b.subject s'.tables ≤ limit
  unfolding admit_claimed
  admit_claimed-within n s' h =
      let claimed = claimed_of b.id s.tables.files keyed in
      elim (Option-cases (room_for snapshot db_now now b.subject claimed s.tables)) [
        | inl e ↦ absurd (ground arith)
        | inr (t, e) ↦
            elim (Option-cases (usage_for snapshot b.subject db_date (length claimed) s.usage)) [
              | inl k ↦ absurd (ground arith)
              | inr (usage, k) ↦ elim (Option-cases (queue_for_tier snapshot.queue_tier)) [
                | inl q ↦ absurd (ground arith)
                | inr (queue, q) ↦
                    let expires_at = now + snapshot.output_retention_hours * 3600000 in
                    let u : Store = record { tables = t; usage = usage; outbox = s.outbox } in
                    let same : queue_files large retention snapshot.queue_tier queue expires_at b
                          claimed u
                        ≡ s' =
                      ground arith in
                    rw (← same) (
                      queue_files-within large retention snapshot.queue_tier queue db_now b.subject
                        limit expires_at b claimed u (room-within t e))
              ]
            ]
      ]

  admit_batch-within :
      (n : ℕ) (s' : Store)
      → admit_batch large snapshot retention db_now db_date now b s ≡ admits n s'
      → 1 ≤ n
      → storage_used_for db_now b.subject s'.tables ≤ limit
  unfolding admit_batch
  admit_batch-within n s' h some_file =
      let claimed = claimed_of b.id s.tables.files keyed in
      elim (Bool-cases (length claimed == 0)) [
        | inl e ↦ absurd (ground arith)
        | inr e ↦ elim (Option-cases (check_measured snapshot.max_file_bytes claimed)) [
          | inl k ↦ admit_claimed-within n s' (ground arith)
          | inr (error, k) ↦ absurd (ground arith)
        ]
      ]

owner :
    (digest : ℕ → ℕ) (b : ConversionBatch) (subject : ℕ) (batch_token : Option ℕ)
    → assert_ownership digest b subject batch_token batch_not_found ≡ none
    → b.subject ≡ subject
unfolding assert_ownership
owner digest b subject batch_token h = ground arith

-- If the rows of the files have different identifiers and the plan limits storage, an admission of
-- at least one file leaves the storage that the subject uses within the limit of the plan, the
-- admitted files included.
pub admit_ready_files-within_storage :
    (digest : ℕ → ℕ) (large : ℕ) (snapshot : EntitlementSnapshot) (batch_id subject : ℕ)
    (batch_token : Option ℕ) (db_now db_date now limit n : ℕ) (s s' : Store)
    → IsKeyed s.tables.files
    → snapshot.storage_bytes ≡ some limit
    → admit_ready_files digest large snapshot batch_id subject batch_token db_now db_date now s
      ≡ admits n s'
    → 1 ≤ n
    → storage_used_for db_now subject s'.tables ≤ limit
unfolding admit_ready_files
admit_ready_files-within_storage digest large snapshot batch_id subject batch_token db_now db_date
      now limit n s s' keyed limited h some_file =
    elim (Option-cases (retention_class snapshot.output_retention_hours)) [
      | inl e ↦ absurd (ground arith)
      | inr (retention, e) ↦
          elim (Option-cases
            (find_unique (λ (b : ConversionBatch). b.id == batch_id) s.tables.batches)) [
              | inl k ↦ absurd (ground arith)
              | inr (b, k) ↦
                  elim (Option-cases
                    (assert_ownership digest b subject batch_token batch_not_found)) [
                      | inl owned ↦
                          elim (Bool-cases (not (is_admittable b.status) || leb b.expires_at now)) [
                            | inl late ↦ absurd (ground arith)
                            | inr in_time ↦ rw (← owner digest b subject batch_token owned) (
                                admit_batch-within large snapshot retention db_now db_date now limit
                                  b s limited keyed n s' (ground arith) some_file)
                          ]
                      | inr (error, owned) ↦ absurd (ground arith)
                    ]
            ]
    ]
