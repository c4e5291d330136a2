-- ===== src/Prelude/Counts.antt =====
-- How many rows of a table meet a condition, after the statements that change the table.
use Prim.Native.Nat.{◌+◌, ◌≤◌}
use mathlib.Core.Path.{◌≡◌, refl, sym, ap, ◌∙◌}
use mathlib.Core.List.{Memᴰ, List, [], ◌∷◌, ◌++◌}
use mathlib.Core.Logic.{inl, inr}
use mathlib.Core.Bool.{Bool, true, false, not, ◌&&◌}
use native.Mathlib.Omega.{arith}
use backend.Prelude.Tests.{Bool-cases}
use backend.Prelude.Lists.{any, All}
use backend.Prelude.Rows.{update_many, count_where, find_many}

module _ {ℓ} {A : Type ℓ} where
  pub count_where-append :
      (q : A → Bool) (xs ys : List A)
      → count_where q (xs ++ ys) ≡ count_where q xs + count_where q ys
  count_where-append q [] ys = omega arith
  count_where-append q (x ∷ xs) ys = ground (arith, count_where-append q xs ys)

  -- An update of some of the rows counted, which count no longer.
  pub count_where-update_out :
      (q p : A → Bool) (new : A → A) (xs : List A)
      → ((x : A) → p x ≡ true → (q x ≡ true) × (q (new x) ≡ false))
      → count_where q (update_many p new xs) + count_where p xs ≡ count_where q xs
  count_where-update_out q p new [] h = refl
  count_where-update_out q p new (x ∷ xs) h =
      ground (arith, h x, count_where-update_out q p new xs h)

  -- An update that no row enters or leaves the count by.
  pub count_where-update_same :
      (q p : A → Bool) (new : A → A) (xs : List A)
      → ((x : A) → p x ≡ true → q (new x) ≡ q x)
      → count_where q (update_many p new xs) ≡ count_where q xs
  count_where-update_same q p new [] h = refl
  count_where-update_same q p new (x ∷ xs) h =
      ground (arith, h x, count_where-update_same q p new xs h)

  -- An update that no row enters the count by.
  pub count_where-update_le :
      (q p : A → Bool) (new : A → A) (xs : List A)
      → ((x : A) → p x ≡ true → q (new x) ≡ true → q x ≡ true)
      → count_where q (update_many p new xs) ≤ count_where q xs
  count_where-update_le q p new [] h = omega arith
  count_where-update_le q p new (x ∷ xs) h = ground (arith, h x, count_where-update_le q p new xs h)

  pub count_where-find_many :
      (q p : A → Bool) (xs : List A) → count_where q (find_many p xs) ≤ count_where q xs
  count_where-find_many q p [] = omega arith
  count_where-find_many q p (x ∷ xs) = ground (arith, count_where-find_many q p xs)

  pub count_where-find_many_same :
      (q p : A → Bool) (xs : List A)
      → ((x : A) → Memᴰ x xs → q x ≡ true → p x ≡ true)
      → count_where q (find_many p xs) ≡ count_where q xs
  count_where-find_many_same q p [] h = refl
  count_where-find_many_same q p (x ∷ xs) h =
      ground
        (arith, h x (Memᴰ.head refl), count_where-find_many_same q p xs (λ y m. h y (Memᴰ.tail m)))

  pub count_where-split :
      (q p : A → Bool) (xs : List A)
      → count_where q xs ≡ count_where (λ x. q x && p x) xs + count_where (λ x. q x && not (p x)) xs
  count_where-split q p [] = refl
  count_where-split q p (x ∷ xs) = ground (arith, count_where-split q p xs)

  pub count_where_pos :
      (q : A → Bool) (x : A) (xs : List A) → Memᴰ x xs → q x ≡ true → 1 ≤ count_where q xs
  count_where_pos q x [] m h = elim m [ ]
  count_where_pos q x (y ∷ ys) (Memᴰ.head e) h =
      let k : q y ≡ true = ap q (sym e) ∙ h in ground (arith, k)
  count_where_pos q x (y ∷ ys) (Memᴰ.tail m) h = ground (arith, count_where_pos q x ys m h)

  pub count_where-any : (q : A → Bool) (xs : List A) → any q xs ≡ true → 1 ≤ count_where q xs
  count_where-any q [] h = absurd (cc)
  count_where-any q (x ∷ xs) h = ground (arith, count_where-any q xs)

  pub count_where_none :
      (q : A → Bool) (xs : List A) → All (λ x. q x ≡ false) xs → count_where q xs ≡ 0
  count_where_none q [] h = refl
  count_where_none q (x ∷ xs) (h, hs) = ground (arith, h, count_where_none q xs hs)

  pub count_where_zero :
      (q : A → Bool) (xs : List A) → count_where q xs ≡ 0 → All (λ x. q x ≡ false) xs
  count_where_zero q [] h = tt
  count_where_zero q (x ∷ xs) h = elim (Bool-cases (q x)) [
    | inl k ↦ absurd (ground (arith, k))
    | inr k ↦ (k, count_where_zero q xs (ground (arith, k)))
  ]

  pub count_where-not_any : (q : A → Bool) (xs : List A) → any q xs ≡ false → count_where q xs ≡ 0
  count_where-not_any q [] h = refl
  count_where-not_any q (x ∷ xs) h = ground (arith, count_where-not_any q xs)

  pub count_where-pointwise_le :
      (q p : A → Bool) (xs : List A)
      → ((x : A) → q x ≡ true → p x ≡ true)
      → count_where q xs ≤ count_where p xs
  count_where-pointwise_le q p [] h = omega arith
  count_where-pointwise_le q p (x ∷ xs) h = ground (arith, h x, count_where-pointwise_le q p xs h)

module _ {ℓ κ} {A : Type ℓ} (P : A → Type κ) where
  -- A row that is counted, with what all rows have.
  pub counted_row :
      (q : A → Bool) (xs : List A) → All P xs → 1 ≤ count_where q xs → (x : A) × P x × (q x ≡ true)
  counted_row q [] hs h = absurd (omega arith)
  counted_row q (x ∷ xs) (k, ks) h = elim (Bool-cases (q x)) [
    | inl e ↦ (x, k, e)
    | inr e ↦ counted_row q xs ks (ground (arith, e))
  ]
