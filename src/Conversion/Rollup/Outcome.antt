-- ===== src/Conversion/Rollup/Outcome.antt =====
-- `rollUpBatch` against a description without counts.
use backend.Prelude.{
  ℕ, ◌≤◌, ◌≡◌, refl, inl, inr, Bool, not, ◌&&◌, List, [], ◌∷◌, map, ◌==◌, arith, any, all, length,
  if◌then◌else◌, Bool-cases, update_many, count_where, find_many,
}
use backend.Conversion.{BatchStatus, ConversionBatch, ConversionFile}
use backend.Conversion.Rollup.{
  is_open_batch, is_finished_batch, is_completed, is_expired, is_unfinished, in_batch,
  settled_status, is_rolled, set_batch_status, roll_up_batch,
}

-- Every file expired, every file completed, some completed, or none.
abbrev pub outcome_of : List ConversionFile → BatchStatus
outcome_of files =
    if all is_expired files
    then BatchStatus.expired
    else if all is_completed files
    then BatchStatus.completed
    else if any is_completed files
    then BatchStatus.partial
    else BatchStatus.failed

-- A batch whose files are finished: an open one takes their outcome, and a completed or partial one
-- expires with the last of them.
abbrev pub settle : ℕ → List ConversionFile → ConversionBatch → ConversionBatch
settle id files b =
    if (b.id == id) && is_open_batch b.status
    then record b { status = outcome_of files }
    else if (b.id == id) && is_finished_batch b.status && all is_expired files
    then record b { status = BatchStatus.expired }
    else b

module _ {ℓ} {A : Type ℓ} where
  count_where-bound : (p : A → Bool) (xs : List A) → count_where p xs ≤ length xs
  count_where-bound p [] = ground arith
  count_where-bound p (x ∷ xs) = ground (arith, count_where-bound p xs)

  count_where-all : (p : A → Bool) (xs : List A) → (count_where p xs == length xs) ≡ all p xs
  count_where-all p [] = ground arith
  count_where-all p (x ∷ xs) = ground (arith, count_where-all p xs, count_where-bound p xs)

  count_where-any : (p : A → Bool) (xs : List A) → (count_where p xs == 0) ≡ not (any p xs)
  count_where-any p [] = ground arith
  count_where-any p (x ∷ xs) = ground (arith, count_where-any p xs)

  update_many-map :
      (p : A → Bool) (new g : A → A) (xs : List A)
      → ((x : A) → (if p x then new x else x) ≡ g x)
      → update_many p new xs ≡ map g xs
  update_many-map p new g [] same = refl
  update_many-map p new g (x ∷ xs) same = ground (arith, same x, update_many-map p new g xs same)

settled_status-outcome : (files : List ConversionFile) → settled_status files ≡ outcome_of files
unfolding settled_status
settled_status-outcome files = ground (
  arith,
  count_where-all is_expired files,
  count_where-all is_completed files,
  count_where-any is_completed files,
)

rolled-settle :
    (id : ℕ) (files : List ConversionFile) (b : ConversionBatch)
    → (if is_rolled id files b then set_batch_status (settled_status files) b else b)
      ≡ settle id files b
rolled-settle id files b =
    ground (arith, settled_status-outcome files, count_where-all is_expired files)

-- While a file of a batch is not finished, `rollUpBatch` changes nothing. Then it gives each open row
-- of the batch the status EXPIRED if every file expired, else COMPLETED if every file completed, else
-- PARTIAL if one did, else FAILED; a completed or partial row becomes EXPIRED if every file expired;
-- all else stays.
pub roll_up_batch-outcome :
    (id : ℕ) (files : List ConversionFile) (batches : List ConversionBatch)
    → (roll_up_batch id files batches).1 ≡ (
        if any is_unfinished (find_many (in_batch id) files)
        then batches
        else map (settle id (find_many (in_batch id) files)) batches)
unfolding roll_up_batch
roll_up_batch-outcome id files batches =
    let own = find_many (in_batch id) files in
    let same =
      update_many-map (is_rolled id own) (set_batch_status (settled_status own)) (settle id own)
        batches (rolled-settle id own) in
    elim (Bool-cases (any is_unfinished own)) [
      | inl more ↦ rw more refl
      | inr done ↦ elim (Bool-cases (count_where (is_rolled id own) batches == 1)) [
        | inl one ↦ rw (done, one) same
        | inr more ↦ rw (done, more) same
      ]
    ]
