-- ===== src/Conversion/Quota/Sums.antt =====
-- Sums, tests and predicates on a list, through `order_by`, an update and a selection.
use mathlib.Core.List.{Memᴰ}
use backend.Prelude.{
  ℕ, ◌+◌, ◌≤◌, ◌≡◌, refl, inl, inr, Bool, true, List, [], ◌∷◌, arith, any, All, sum_by,
  if◌then◌else◌, Bool-cases, update_many, find_many, insert, order_by,
}

module _ {ℓ} {A : Type ℓ} where
  sum_by-insert :
      (w : A → ℕ) (before : A → A → Bool) (x : A) (xs : List A)
      → sum_by w (insert before x xs) ≡ w x + sum_by w xs
  sum_by-insert w before x [] = refl
  sum_by-insert w before x (y ∷ ys) = ground (arith, sum_by-insert w before x ys)

  pub sum_by-order_by :
      (w : A → ℕ) (before : A → A → Bool) (xs : List A)
      → sum_by w (order_by before xs) ≡ sum_by w xs
  sum_by-order_by w before [] = refl
  sum_by-order_by w before (x ∷ xs) =
      ground (arith, sum_by-insert w before x (order_by before xs), sum_by-order_by w before xs)

  pub sum_by-find_many :
      (w : A → ℕ) (p : A → Bool) (xs : List A)
      → sum_by w (find_many p xs) ≡ sum_by (λ x. if p x then w x else 0) xs
  sum_by-find_many w p [] = refl
  sum_by-find_many w p (x ∷ xs) = ground (arith, sum_by-find_many w p xs)

  -- Term by term, on the items of the list.
  pub sum_by_le :
      (v w : A → ℕ) (xs : List A) → ((x : A) → Memᴰ x xs → v x ≤ w x) → sum_by v xs ≤ sum_by w xs
  sum_by_le v w [] h = ground arith
  sum_by_le v w (x ∷ xs) h =
      let here = h x (Memᴰ.head refl) in
      let rest = sum_by_le v w xs (λ y m. h y (Memᴰ.tail m)) in ground (arith, here, rest)

  -- An update that trades `a` for `b` in each item.
  pub sum_by-update_le :
      (v w a b : A → ℕ) (p : A → Bool) (new : A → A) (xs : List A)
      → ((x : A) → Memᴰ x xs → w (if p x then new x else x) + a x ≤ v x + b x)
      → sum_by w (update_many p new xs) + sum_by a xs ≤ sum_by v xs + sum_by b xs
  sum_by-update_le v w a b p new [] h = ground arith
  sum_by-update_le v w a b p new (x ∷ xs) h =
      let here = h x (Memᴰ.head refl) in
      let rest = sum_by-update_le v w a b p new xs (λ y m. h y (Memᴰ.tail m)) in
      omega (arith, here, rest)

  pub sum_by-update_same :
      (w : A → ℕ) (p : A → Bool) (new : A → A) (xs : List A)
      → ((x : A) → w (new x) ≡ w x)
      → sum_by w (update_many p new xs) ≡ sum_by w xs
  sum_by-update_same w p new [] h = refl
  sum_by-update_same w p new (x ∷ xs) h = ground (arith, h x, sum_by-update_same w p new xs h)

  pub any-update_same :
      (q p : A → Bool) (new : A → A) (xs : List A)
      → ((x : A) → q (new x) ≡ q x)
      → any q (update_many p new xs) ≡ any q xs
  any-update_same q p new [] h = refl
  any-update_same q p new (x ∷ xs) h = ground (arith, h x, any-update_same q p new xs h)

module _ {ℓ κ} {A : Type ℓ} (P : A → Type κ) where
  All-insert :
      (before : A → A → Bool) (x : A) (xs : List A) → P x → All P xs → All P (insert before x xs)
  All-insert before x [] px h = (px, tt)
  All-insert before x (y ∷ ys) px h = elim (Bool-cases (before x y)) [
    | inl e ↦ rw e (px, h)
    | inr e ↦ rw e (h.0, All-insert before x ys px h.1)
  ]

  pub All-order_by : (before : A → A → Bool) (xs : List A) → All P xs → All P (order_by before xs)
  All-order_by before [] h = tt
  All-order_by before (x ∷ xs) h =
      All-insert before x (order_by before xs) h.0 (All-order_by before xs h.1)

  pub All-chosen :
      (p : A → Bool) (xs : List A)
      → ((x : A) → Memᴰ x xs → p x ≡ true → P x)
      → All P (find_many p xs)
  All-chosen p [] h = tt
  All-chosen p (x ∷ xs) h =
      let rest = All-chosen p xs (λ y m. h y (Memᴰ.tail m)) in
      elim (Bool-cases (p x)) [ inl e ↦ rw e (h x (Memᴰ.head refl) e, rest) | inr e ↦ rw e rest ]
