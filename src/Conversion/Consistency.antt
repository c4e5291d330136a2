-- ===== src/Conversion/Consistency.antt =====
-- A batch is open while a file of it is not finished: the invariant of the tables of
-- apps/conversion-api, and what a change of the files and `rollUpBatch` do to it.
use mathlib.Core.List.{Memᴰ}
use backend.Prelude.{
  ℕ, ◌≡◌, refl, sym, ap, ◌∙◌, inl, inr, Bool, true, false, ◌&&◌, List, [], ◌∷◌, ◌==◌, arith, any,
  All, All-map, if◌then◌else◌, Bool-cases, update_many, count_where, find_many,
}
use backend.Conversion.{ConversionBatch, ConversionFile, Tables}
use backend.Conversion.Quota.{roll_up_each}
use backend.Conversion.Rollup.{
  is_open_batch, is_unfinished, in_batch, settled_status, is_rolled, set_batch_status,
  roll_up_batch,
}

abbrev pub unfinished_in : ℕ → ConversionFile → Bool
unfinished_in id f = in_batch id f && is_unfinished f

-- The batch is open exactly when it has a file that is not finished.
abbrev pub IsSettled : List ConversionFile → ConversionBatch → Type 0
IsSettled files b = is_open_batch b.status ≡ any (unfinished_in b.id) files

unfoldable pub IsConsistent : Tables → Type 0
IsConsistent t = All (IsSettled t.files) t.batches

-- The same of all batches but `id`, which may be open still when its files are finished.
abbrev pub MaySettle : ℕ → List ConversionFile → ConversionBatch → Type 0
MaySettle id files b =
    ((b.id == id) ≡ false → IsSettled files b)
    × ((b.id == id) ≡ true → any (unfinished_in b.id) files ≡ true → is_open_batch b.status ≡ true)

-- A change of the files that keeps, for each batch, whether a file of it is not finished.
unfoldable pub SameOpen : List ConversionFile → List ConversionFile → Type 0
SameOpen files files' = (id : ℕ) → any (unfinished_in id) files' ≡ any (unfinished_in id) files

-- A change of the files that may finish files of the batch `id`, and no other.
unfoldable pub Closes : ℕ → List ConversionFile → List ConversionFile → Type 0
Closes id files files' =
    (other : ℕ)
    → ((other == id) ≡ false → any (unfinished_in other) files' ≡ any (unfinished_in other) files)
      × ((other == id) ≡ true
          → any (unfinished_in other) files' ≡ true
          → any (unfinished_in other) files ≡ true)

pub update-SameOpen :
    (p : ConversionFile → Bool) (new : ConversionFile → ConversionFile)
    (files : List ConversionFile)
    → ((f : ConversionFile)
        → Memᴰ f files
        → p f ≡ true
        → (id : ℕ) → unfinished_in id (new f) ≡ unfinished_in id f)
    → SameOpen files (update_many p new files)
unfolding SameOpen
update-SameOpen p new [] keep id = refl
update-SameOpen p new (f ∷ files) keep id =
    let rest = update-SameOpen p new files (λ g m. keep g (Memᴰ.tail m)) id in
    elim (Bool-cases (p f)) [
      | inl e ↦ let same = keep f (Memᴰ.head refl) e id in ground (arith, same, rest)
      | inr e ↦ ground (arith, rest)
    ]

pub update-Closes :
    (id : ℕ) (p : ConversionFile → Bool) (new : ConversionFile → ConversionFile)
    (files : List ConversionFile)
    → ((f : ConversionFile)
        → p f ≡ true
        → (in_batch id f ≡ true)
          × (unfinished_in id (new f) ≡ false)
          × ((new f).batch_id ≡ f.batch_id))
    → Closes id files (update_many p new files)
unfolding Closes
update-Closes id p new [] closes other = ground arith
update-Closes id p new (f ∷ files) closes other = elim (Bool-cases (p f)) [
  | inl e ↦
      let here = closes f e in
      let rest = update-Closes id p new files closes other in ground (arith, here, rest)
  | inr e ↦ let rest = update-Closes id p new files closes other in ground (arith, rest)
]

settled_status-closed : (files : List ConversionFile) → is_open_batch (settled_status files) ≡ false
unfolding settled_status
settled_status-closed files = ground arith

any_own :
    (id : ℕ) (files : List ConversionFile)
    → any is_unfinished (find_many (in_batch id) files) ≡ any (unfinished_in id) files
any_own id [] = refl
any_own id (f ∷ files) = ground (arith, any_own id files)

own_any :
    (id : ℕ) (all : List ConversionFile) (b : ConversionBatch)
    → (b.id == id) ≡ true
    → any (unfinished_in b.id) all ≡ any (unfinished_in id) all
own_any id all b e =
    let same : b.id ≡ id = ground arith in ap (λ (k : ℕ). any (unfinished_in k) all) same

module _ (id : ℕ) (all own : List ConversionFile) (b : ConversionBatch)
    (h : MaySettle id all b) where
  rolled-IsSettled :
      any (unfinished_in id) all ≡ false
      → IsSettled all (if is_rolled id own b then set_batch_status (settled_status own) b else b)
  rolled-IsSettled done = elim (Bool-cases (b.id == id)) [
    | inl e ↦
        let none_left = own_any id all b e ∙ done in
        elim (Bool-cases (is_rolled id own b)) [
          | inl r ↦ rw r (settled_status-closed own ∙ sym none_left)
          | inr r ↦
              let closed : is_open_batch b.status ≡ false = ground arith in
              rw r (closed ∙ sym none_left)
        ]
    | inr e ↦ let kept : is_rolled id own b ≡ false = ground arith in rw kept (h.0 e)
  ]

  open-IsSettled : any (unfinished_in id) all ≡ true → IsSettled all b
  open-IsSettled more = elim (Bool-cases (b.id == id)) [
    | inl e ↦ let some_left = own_any id all b e ∙ more in h.1 e some_left ∙ sym some_left
    | inr e ↦ h.0 e
  ]

module _ (id : ℕ) (all own : List ConversionFile) where
  all_rolled-IsSettled :
      (batches : List ConversionBatch)
      → any (unfinished_in id) all ≡ false
      → All (MaySettle id all) batches
      → All
          (IsSettled all)
          (update_many (is_rolled id own) (set_batch_status (settled_status own)) batches)
  all_rolled-IsSettled [] done h = tt
  all_rolled-IsSettled (b ∷ batches) done h =
      (rolled-IsSettled id all own b h.0 done, all_rolled-IsSettled batches done h.1)

  all_open-IsSettled :
      (batches : List ConversionBatch)
      → any (unfinished_in id) all ≡ true
      → All (MaySettle id all) batches
      → All (IsSettled all) batches
  all_open-IsSettled [] more h = tt
  all_open-IsSettled (b ∷ batches) more h =
      (open-IsSettled id all own b h.0 more, all_open-IsSettled batches more h.1)

pub roll_up_batch-IsSettled :
    (id : ℕ) (all : List ConversionFile) (batches : List ConversionBatch)
    → All (MaySettle id all) batches
    → All (IsSettled all) (roll_up_batch id all batches).1
unfolding roll_up_batch
roll_up_batch-IsSettled id all batches h =
    let own = find_many (in_batch id) all in
    let split = any_own id all in
    elim (Bool-cases (any is_unfinished own)) [
      | inl more ↦ rw more (all_open-IsSettled id all own batches (sym split ∙ more) h)
      | inr done ↦
          let rolled = all_rolled-IsSettled id all own batches (sym split ∙ done) h in
          elim (Bool-cases (count_where (is_rolled id own) batches == 1)) [
            | inl one ↦ rw (done, one) rolled
            | inr more ↦ rw (done, more) rolled
          ]
    ]

-- Changes that keep what is open.
pub SameOpen-IsSettled :
    (files files' : List ConversionFile) (batches : List ConversionBatch)
    → SameOpen files files'
    → All (IsSettled files) batches
    → All (IsSettled files') batches
unfolding SameOpen
SameOpen-IsSettled files files' [] same h = tt
SameOpen-IsSettled files files' (b ∷ batches) same h =
    (h.0 ∙ sym (same b.id), SameOpen-IsSettled files files' batches same h.1)

pub Closes-MaySettle :
    (id : ℕ) (files files' : List ConversionFile) (batches : List ConversionBatch)
    → Closes id files files'
    → All (IsSettled files) batches
    → All (MaySettle id files') batches
unfolding Closes
Closes-MaySettle id files files' [] closes h = tt
Closes-MaySettle id files files' (b ∷ batches) closes h =
    let c = closes b.id in
    (
      ((λ e. h.0 ∙ sym (c.0 e)), (λ e k. h.0 ∙ c.1 e k)),
      Closes-MaySettle id files files' batches closes h.1,
    )

-- An update of the batches that keeps whether each is open.
pub update-IsSettled :
    (files : List ConversionFile) (p : ConversionBatch → Bool)
    (new : ConversionBatch → ConversionBatch) (batches : List ConversionBatch)
    → ((b : ConversionBatch)
        → p b ≡ true
        → ((new b).id ≡ b.id) × (is_open_batch (new b).status ≡ is_open_batch b.status))
    → All (IsSettled files) batches
    → All (IsSettled files) (update_many p new batches)
update-IsSettled files p new [] keep h = tt
update-IsSettled files p new (b ∷ batches) keep h =
    let rest = update-IsSettled files p new batches keep h.1 in
    elim (Bool-cases (p b)) [
      | inl e ↦
          let (same_id, same_open) = keep b e in
          (rw e (same_open ∙ h.0 ∙ ap (λ (k : ℕ). any (unfinished_in k) files) (sym same_id)), rest)
      | inr e ↦ (rw e h.0, rest)
    ]

pub roll_up_each-IsSettled :
    (ids : List ℕ) (files : List ConversionFile) (batches : List ConversionBatch)
    → All (IsSettled files) batches
    → All (IsSettled files) (roll_up_each ids files batches)
unfolding roll_up_each
roll_up_each-IsSettled [] files batches h = h
roll_up_each-IsSettled (id ∷ ids) files batches h =
    roll_up_each-IsSettled ids files (roll_up_batch id files batches).1 (
      roll_up_batch-IsSettled id files batches (
        All-map (IsSettled files) (MaySettle id files) batches
          (λ b k. ((λ e. k), (λ e more. k ∙ more))) h))
