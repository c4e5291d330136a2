-- ===== src/Conversion/Quota/Room.antt =====
-- What `make_room` leaves: the storage that is used, with what comes in, is within the limit.
use mathlib.Core.List.{Memᴰ}
use backend.Prelude.{
  ℕ, ◌+◌, ◌-◌, ◌≤◌, ◌≡◌, refl, sym, ap, ◌∙◌, ◌⊎◌, inl, inr, Bool, true, ◌&&◌, List, [], ◌∷◌, some,
  ◌==◌, ==_iff, arith, any_intro, All, sum_by, if◌then◌else◌, Bool-cases, update_many, find_many,
  order_by,
}
use backend.Conversion.{ConversionBatch, ConversionFile, Tables}
use backend.Conversion.Rollup.{is_rolled, settled_status, set_batch_status, in_batch, roll_up_batch}
use backend.Conversion.Quota.{
  by_expiry, or_zero, is_owned, stored_bytes, counts, storage_used_for, is_evictable, evict,
  has_id_of, set_evicted, batches_of, roll_up_each, evict_files, make_room,
}
use backend.Conversion.Quota.Sums.{
  sum_by-order_by, sum_by-find_many, sum_by_le, sum_by-update_le, any-update_same, All-order_by,
  All-chosen,
}

-- The identifier is the table's primary key.
abbrev pub IsKeyed : List ConversionFile → Type 0
IsKeyed files = (f g : ConversionFile) → Memᴰ f files → Memᴰ g files → f.id ≡ g.id → f ≡ g

abbrev pub output_bytes_of : ConversionFile → ℕ
output_bytes_of c = or_zero c.output_bytes

abbrev pub used_by : ℕ → ℕ → List ConversionBatch → ConversionFile → ℕ
used_by db_now subject batches f = if counts db_now subject batches f then stored_bytes f else 0

-- A row of the table with the identifier of a chosen row is that row.
pub chosen-is :
    (q : ConversionFile → Bool) (files chosen : List ConversionFile) (f : ConversionFile)
    → IsKeyed files
    → Memᴰ f files
    → All (λ c. Memᴰ c files × (q c ≡ true)) chosen
    → has_id_of chosen f ≡ true
    → q f ≡ true
chosen-is q files [] f keyed m h e = ground arith
chosen-is q files (c ∷ cs) f keyed m (h, hs) e = elim (Bool-cases (c.id == f.id)) [
  | inl k ↦ let same : c ≡ f = keyed c f h.0 m (ground arith) in ap q (sym same) ∙ h.1
  | inr k ↦ chosen-is q files cs f keyed m hs (ground arith)
]

module _ (batch_id : ℕ) (files : List ConversionFile) (batches : List ConversionBatch) where
  pub roll_up_batch-is_owned :
      (subject : ℕ) (f : ConversionFile)
      → is_owned subject (roll_up_batch batch_id files batches).1 f ≡ is_owned subject batches f
  unfolding roll_up_batch
  roll_up_batch-is_owned subject f =
      let own = find_many (in_batch batch_id) files in
      let same =
        any-update_same (λ (b : ConversionBatch). b.id == f.batch_id && b.subject == subject)
          (is_rolled batch_id own) (set_batch_status (settled_status own)) batches (λ b. refl) in
      ground (arith, same)

roll_up_each-is_owned :
    (ids : List ℕ) (files : List ConversionFile) (batches : List ConversionBatch) (subject : ℕ)
    (f : ConversionFile)
    → is_owned subject (roll_up_each ids files batches) f ≡ is_owned subject batches f
unfolding roll_up_each
roll_up_each-is_owned [] files batches subject f = refl
roll_up_each-is_owned (i ∷ ids) files batches subject f =
    roll_up_each-is_owned ids files (roll_up_batch i files batches).1 subject f
    ∙ roll_up_batch-is_owned i files batches subject f

pub sum_by-none : (files : List ConversionFile) → sum_by (λ (f : ConversionFile). 0) files ≡ 0
sum_by-none [] = refl
sum_by-none (f ∷ files) = ground (arith, sum_by-none files)

evict-enough :
    (deficit : ℕ) (cs : List ConversionFile)
    → (evict deficit cs).1 ≡ 0
    → deficit ≤ sum_by output_bytes_of (evict deficit cs).0
unfolding evict
evict-enough deficit [] h = ground arith
evict-enough deficit (c ∷ cs) h =
    let rest = evict-enough (deficit - output_bytes_of c) cs in ground (arith, rest)

evict-prefix :
    (w : ConversionFile → ℕ) (deficit : ℕ) (cs : List ConversionFile)
    → sum_by w (evict deficit cs).0 ≤ sum_by w cs
unfolding evict
evict-prefix w deficit [] = ground arith
evict-prefix w deficit (c ∷ cs) =
    let rest = evict-prefix w (deficit - output_bytes_of c) cs in ground (arith, rest)

evict-All {ℓ} :
    (P : ConversionFile → Type ℓ) (deficit : ℕ) (cs : List ConversionFile)
    → All P cs
    → All P (evict deficit cs).0
unfolding evict
evict-All P deficit [] h = tt
evict-All P deficit (c ∷ cs) h = elim (Bool-cases (deficit == 0)) [
  | inl e ↦ rw e tt
  | inr e ↦ rw e (h.0, evict-All P (deficit - output_bytes_of c) cs h.1)
]

module _ (db_now now subject : ℕ) (t : Tables) (keyed : IsKeyed t.files) (deficit : ℕ) where
  abbrev frees : ConversionFile → Bool
  frees = is_evictable db_now subject t.batches

  abbrev candidates : List ConversionFile
  candidates = order_by by_expiry (find_many frees t.files)

  abbrev evicted : List ConversionFile
  evicted = (evict deficit candidates).0

  -- The bytes that a row gives back.
  abbrev freed_by : ConversionFile → ℕ
  freed_by f = if frees f then (if has_id_of evicted f then output_bytes_of f else 0) else 0

  candidates-All : All (λ c. Memᴰ c t.files × (frees c ≡ true)) candidates
  candidates-All =
      All-order_by (λ c. Memᴰ c t.files × (frees c ≡ true)) by_expiry (find_many frees t.files)
        (All-chosen (λ c. Memᴰ c t.files × (frees c ≡ true)) frees t.files (λ f m e. (m, e)))

  freed-sum : sum_by output_bytes_of evicted ≤ sum_by freed_by t.files
  freed-sum =
      let w = λ (f : ConversionFile). if has_id_of evicted f then output_bytes_of f else 0 in
      let own = sum_by_le output_bytes_of w evicted (λ f m.
        let k = any_intro (λ (c : ConversionFile). c.id == f.id) f evicted m (ground arith) in
        ground (arith, k)) in
      let prefix = evict-prefix w deficit candidates in
      let sorted = sum_by-order_by w by_expiry (find_many frees t.files) in
      let chosen = sum_by-find_many w frees t.files in ground (arith, own, prefix, sorted, chosen)

  evicted-sum :
      (batches : List ConversionBatch)
      → ((f : ConversionFile) → is_owned subject batches f ≡ is_owned subject t.batches f)
      → sum_by
            (used_by db_now subject batches)
            (update_many (has_id_of evicted) (set_evicted now) t.files)
          + sum_by freed_by t.files
        ≤ sum_by (used_by db_now subject t.batches) t.files
  evicted-sum batches same =
      let all =
        sum_by-update_le (used_by db_now subject t.batches) (used_by db_now subject batches)
          freed_by (λ f. 0) (has_id_of evicted) (set_evicted now) t.files
          (λ f m.
            let own = chosen-is frees t.files evicted f keyed m (
              evict-All (λ c. Memᴰ c t.files × (frees c ≡ true)) deficit candidates
                candidates-All) in
            ground (arith, own, same f)) in
      let none = sum_by-none t.files in ground (arith, all, none)

pub make_room-within :
    (db_now now subject limit : ℕ) (claimed : List ConversionFile) (t u : Tables)
    → IsKeyed t.files
    → make_room db_now now subject limit claimed t ≡ some u
    → storage_used_for db_now subject u + sum_by (λ f. or_zero f.input_bytes) claimed ≤ limit
unfolding make_room storage_used_for evict_files
make_room-within db_now now subject limit claimed t u keyed h =
    let incoming = sum_by (λ (f : ConversionFile). or_zero f.input_bytes) claimed in
    let used = λ (v : Tables). sum_by (used_by db_now subject v.batches) v.files in
    let deficit = used t + incoming - limit in
    let cs = candidates db_now now subject t keyed deficit in
    let chosen = evict deficit cs in
    elim (Bool-cases (deficit == 0)) [
      | inl fits ↦
          let same : t ≡ u = ground arith in
          let zero_left : deficit ≡ 0 = (==_iff deficit 0).0 fits in
          rw (← same) (omega (arith, zero_left))
      | inr over ↦ elim (Bool-cases (chosen.1 == 0)) [
        | inl done ↦
            let batches =
              roll_up_each (batches_of chosen.0)
                (update_many (has_id_of chosen.0) (set_evicted now) t.files) t.batches in
            let after : Tables = record {
              batches = batches;
              files = update_many (has_id_of chosen.0) (set_evicted now) t.files;
            } in
            let same : after ≡ u = ground arith in
            let enough = evict-enough deficit cs (ground arith) in
            let freed = freed-sum db_now now subject t keyed deficit in
            let less =
              evicted-sum db_now now subject t keyed deficit batches
                (λ f. roll_up_each-is_owned (batches_of chosen.0) _ t.batches subject f) in
            rw (← same) (omega (arith, enough, freed, less))
        | inr stuck ↦ absurd (ground arith)
      ]
    ]

-- Either it changes nothing, or it evicts finished rows of the table.
pub make_room-tables :
    (db_now now subject limit : ℕ) (claimed : List ConversionFile) (t u : Tables)
    → IsKeyed t.files
    → make_room db_now now subject limit claimed t ≡ some u
    → (t ≡ u)
      ⊎ ((chosen : List ConversionFile) × All
            (λ c. Memᴰ c t.files × (is_evictable db_now subject t.batches c ≡ true))
            chosen
          × (evict_files now chosen t ≡ u))
unfolding make_room evict_files
make_room-tables db_now now subject limit claimed t u keyed h =
    let incoming = sum_by (λ (f : ConversionFile). or_zero f.input_bytes) claimed in
    let used = λ (v : Tables). sum_by (used_by db_now subject v.batches) v.files in
    let deficit = used t + incoming - limit in
    let cs = candidates db_now now subject t keyed deficit in
    let chosen = evict deficit cs in
    elim (Bool-cases (deficit == 0)) [
      | inl fits ↦ inl (ground arith)
      | inr over ↦ elim (Bool-cases (chosen.1 == 0)) [
        | inl done ↦ inr (
          chosen.0,
          evict-All (λ c. Memᴰ c t.files × (frees db_now now subject t keyed deficit c ≡ true))
              deficit cs (candidates-All db_now now subject t keyed deficit),
          ground arith,
        )
        | inr stuck ↦ absurd (ground arith)
      ]
    ]

pub make_room-files :
    (db_now now subject limit : ℕ) (claimed : List ConversionFile) (t u : Tables)
    → IsKeyed t.files
    → make_room db_now now subject limit claimed t ≡ some u
    → (t.files ≡ u.files)
      ⊎ ((chosen : List ConversionFile) × (update_many (has_id_of chosen) (set_evicted now) t.files
            ≡ u.files))
unfolding evict_files
make_room-files db_now now subject limit claimed t u keyed h =
    elim (make_room-tables db_now now subject limit claimed t u keyed h) [
      | inl same ↦ inl (ap (λ (v : Tables). v.files) same)
      | inr (chosen, all, same) ↦ inr (chosen, ap (λ (v : Tables). v.files) same)
    ]
