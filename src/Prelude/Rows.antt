-- ===== src/Prelude/Rows.antt =====
-- A database table as the list of its rows. An `updateMany` gives each row that meets the `where`
-- clause its new data and leaves the others; its `count` is the number of rows that it met.
use Prim.Native.Nat.{ℕ, suc, ◌+◌}
use mathlib.Core.Path.{◌≡◌, refl, sym, ap, subst, ◌∙◌}
use mathlib.Core.List.{Memᴰ}
use mathlib.Core.List.Memᴰ.{cases_cons}
use mathlib.Core.Bool.{Bool, true, false, not}
use mathlib.Core.Logic.{inl, inr}
use mathlib.Core.List.{List, [], ◌∷◌, ◌++◌}
use mathlib.Core.Option.{Option, none, some}
use native.Mathlib.Omega.{arith}
use backend.Prelude.Tests.{if◌then◌else◌, Bool-cases, is_null}
use backend.Prelude.Lists.{any, All, length}

module _ {ℓ} {A : Type ℓ} where
  -- `updateMany({ where, data })`
  abbrev pub update_many : (A → Bool) → (A → A) → List A → List A
  update_many where? new [] = []
  update_many where? new (x ∷ xs) = (if where? x then new x else x) ∷ update_many where? new xs

  -- The `count` of an `updateMany`, and `count({ where })`.
  abbrev pub count_where : (A → Bool) → List A → ℕ
  count_where where? [] = 0
  count_where where? (x ∷ xs) = (if where? x then 1 else 0) + count_where where? xs

  -- `findMany({ where })`
  abbrev pub find_many : (A → Bool) → List A → List A
  find_many where? [] = []
  find_many where? (x ∷ xs) = let rest = find_many where? xs in if where? x then x ∷ rest else rest

  -- `findUnique({ where })`: the first row that matches, where at most one can.
  abbrev pub find_unique : (A → Bool) → List A → Option A
  find_unique where? [] = none
  find_unique where? (x ∷ xs) = if where? x then some x else find_unique where? xs

  -- `deleteMany({ where })`
  abbrev pub delete_many : (A → Bool) → List A → List A
  delete_many where? xs = find_many (λ x. not (where? x)) xs

  pub length-update_many :
      (p : A → Bool) (new : A → A) (xs : List A) → length (update_many p new xs) ≡ length xs
  length-update_many p new [] = refl
  length-update_many p new (x ∷ xs) = ap suc (length-update_many p new xs)

  pub update_many_none :
      (p : A → Bool) (new : A → A) (xs : List A) → count_where p xs ≡ 0 → update_many p new xs ≡ xs
  update_many_none p new [] h = refl
  update_many_none p new (x ∷ xs) h = ground (arith, update_many_none p new xs)

  pub find_unique-eq_some :
      (p : A → Bool) (xs : List A) (a : A) → find_unique p xs ≡ some a → p a ≡ true
  find_unique-eq_some p [] a h = cc
  find_unique-eq_some p (x ∷ xs) a h = ground (arith, find_unique-eq_some p xs a)

module _ {ℓ κ} {A : Type ℓ} (P : A → Type κ) where
  -- A predicate that each touched row gets, and that each untouched row had, holds of all rows.
  pub update_many-All' :
      (p : A → Bool) (new : A → A) (xs : List A)
      → ((x : A) → p x ≡ true → P (new x))
      → ((x : A) → p x ≡ false → P x)
      → All P (update_many p new xs)
  update_many-All' p new [] hit miss = tt
  update_many-All' p new (x ∷ xs) hit miss = elim (Bool-cases (p x)) [
    | inl e ↦ (rw e (hit x e), update_many-All' p new xs hit miss)
    | inr e ↦ (rw e (miss x e), update_many-All' p new xs hit miss)
  ]

module _ {ℓ} {A : Type ℓ} where
  -- An update that meets none of the rows of interest, and makes none of them, leaves these rows,
  -- and their order, as they were.
  pub find_many-update_many :
      (p q : A → Bool) (new : A → A) (xs : List A)
      → All (λ x. p x ≡ true → (q x ≡ false) × (q (new x) ≡ false)) xs
      → find_many q (update_many p new xs) ≡ find_many q xs
  find_many-update_many p q new [] h = refl
  find_many-update_many p q new (x ∷ xs) (h, hs) =
      ground (arith, h, find_many-update_many p q new xs hs)

  pub find_many-append :
      (q : A → Bool) (xs ys : List A) → find_many q (xs ++ ys) ≡ find_many q xs ++ find_many q ys
  find_many-append q [] ys = refl
  find_many-append q (x ∷ xs) ys = ground (arith, find_many-append q xs ys)

  pub find_unique-update_many :
      (p q : A → Bool) (new : A → A) (xs : List A)
      → ((x : A) → q (new x) ≡ q x)
      → is_null (find_unique q (update_many p new xs)) ≡ is_null (find_unique q xs)
  find_unique-update_many p q new [] h = refl
  find_unique-update_many p q new (x ∷ xs) h =
      ground (arith, h x, find_unique-update_many p q new xs h)

  pub find_unique-append_last :
      (q : A → Bool) (xs : List A) (x : A)
      → q x ≡ true
      → is_null (find_unique q (xs ++ x ∷ [])) ≡ false
  find_unique-append_last q [] x h = rw h
  find_unique-append_last q (y ∷ ys) x h = ground (arith, find_unique-append_last q ys x h)

  pub find_unique-append :
      (q : A → Bool) (xs ys : List A)
      → is_null (find_unique q xs) ≡ false
      → is_null (find_unique q (xs ++ ys)) ≡ false
  find_unique-append q [] ys h = cc
  find_unique-append q (x ∷ xs) ys h = ground (arith, find_unique-append q xs ys)

module _ {ℓ κ} {A : Type ℓ} (P : A → Type κ) where
  -- A predicate that every row has and every update keeps.
  pub update_many-All :
      (p : A → Bool) (new : A → A) (xs : List A)
      → ((x : A) → P x → P (new x))
      → All P xs
      → All P (update_many p new xs)
  update_many-All p new [] keep h = tt
  update_many-All p new (x ∷ xs) keep (h, hs) = elim (Bool-cases (p x)) [
    | inl e ↦ (rw e (keep x h), update_many-All p new xs keep hs)
    | inr e ↦ (rw e h, update_many-All p new xs keep hs)
  ]

  pub find_unique-All :
      (p : A → Bool) (xs : List A) (a : A) → All P xs → find_unique p xs ≡ some a → P a
  find_unique-All p [] a h e = absurd (cc)
  find_unique-All p (x ∷ xs) a (h, hs) e = elim (Bool-cases (p x)) [
    | inl hit ↦ let same : x ≡ a = ground arith in subst P same h
    | inr miss ↦ find_unique-All p xs a hs (ground arith)
  ]

module _ {ℓ} {A : Type ℓ} where
  pub mem-find_many :
      (p : A → Bool) (x : A) (xs : List A) → Memᴰ x xs → p x ≡ true → Memᴰ x (find_many p xs)
  mem-find_many p x [] m h = elim m [ ]
  mem-find_many p x (y ∷ ys) (Memᴰ.head e) h =
      let k : p y ≡ true = ap p (sym e) ∙ h in rw k (Memᴰ.head e)
  mem-find_many p x (y ∷ ys) (Memᴰ.tail m) h = elim (Bool-cases (p y)) [
    | inl k ↦ rw k (Memᴰ.tail (mem-find_many p x ys m h))
    | inr k ↦ rw k (mem-find_many p x ys m h)
  ]

  pub mem-find_many_of :
      (p : A → Bool) (x : A) (xs : List A) → Memᴰ x (find_many p xs) → Memᴰ x xs × (p x ≡ true)
  mem-find_many_of p x [] m = elim m [ ]
  mem-find_many_of p x (y ∷ ys) m = elim (Bool-cases (p y)) [
    | inl k ↦ elim (cases_cons (rw k at m)) [
      | inl e ↦ (Memᴰ.head e, ap p e ∙ k)
      | inr n ↦ let (l, h) = mem-find_many_of p x ys n in (Memᴰ.tail l, h)
    ]
    | inr k ↦ let (l, h) = mem-find_many_of p x ys (rw k at m) in (Memᴰ.tail l, h)
  ]

module _ {ℓ κ} {A : Type ℓ} (P : A → Type κ) where
  -- As `update_many_all`, where the rows are known to be of the table.
  pub All-update :
      (p : A → Bool) (new : A → A) (xs : List A)
      → ((x : A) → Memᴰ x xs → p x ≡ true → P (new x))
      → ((x : A) → Memᴰ x xs → p x ≡ false → P x)
      → All P (update_many p new xs)
  All-update p new [] hit miss = tt
  All-update p new (x ∷ xs) hit miss =
      let rest = All-update p new xs (λ y m. hit y (Memᴰ.tail m)) (λ y m. miss y (Memᴰ.tail m)) in
      elim (Bool-cases (p x)) [
        | inl e ↦ (rw e (hit x (Memᴰ.head refl) e), rest)
        | inr e ↦ (rw e (miss x (Memᴰ.head refl) e), rest)
      ]

module _ {ℓ} {A : Type ℓ} where
  -- A test that only rows which stay can pass.
  pub any-find_many :
      (q p : A → Bool) (xs : List A)
      → ((x : A) → Memᴰ x xs → q x ≡ true → p x ≡ true)
      → any q (find_many p xs) ≡ any q xs
  any-find_many q p [] keep = refl
  any-find_many q p (x ∷ xs) keep =
      let here = keep x (Memᴰ.head refl) in
      let rest = any-find_many q p xs (λ y m. keep y (Memᴰ.tail m)) in ground (arith, here, rest)

module _ {ℓ κ} {A : Type ℓ} (P : A → Type κ) where
  pub All-find_many : (p : A → Bool) (xs : List A) → All P xs → All P (find_many p xs)
  All-find_many p [] h = tt
  All-find_many p (x ∷ xs) h = elim (Bool-cases (p x)) [
    | inl e ↦ rw e (h.0, All-find_many p xs h.1)
    | inr e ↦ rw e (All-find_many p xs h.1)
  ]

module _ {ℓ} {A : Type ℓ} where
  pub find_unique-mem : (p : A → Bool) (xs : List A) (a : A) → find_unique p xs ≡ some a → Memᴰ a xs
  find_unique-mem p [] a h = absurd (cc)
  find_unique-mem p (x ∷ xs) a h = elim (Bool-cases (p x)) [
    | inl e ↦ Memᴰ.head (ground arith)
    | inr e ↦ Memᴰ.tail (find_unique-mem p xs a (ground arith))
  ]
