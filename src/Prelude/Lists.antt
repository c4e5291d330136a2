-- ===== src/Prelude/Lists.antt =====
-- Lists measured by native numbers, and predicates on all or some of their items.
use Prim.Native.Nat.{ℕ, suc, ◌+◌}
use mathlib.Core.Path.{◌≡◌, refl, ap, ◌∙◌}
use mathlib.Core.Bool.{Bool, true, false, ◌&&◌, ◌||◌}
use mathlib.Core.Path.{subst, sym}
use mathlib.Core.List.{Memᴰ, List, [], ◌∷◌, ◌++◌}
use native.Mathlib.Omega.{arith}

module _ {ℓ} {A : Type ℓ} where
  abbrev pub length : List A → ℕ
  length [] = 0
  length (x ∷ xs) = suc (length xs)

  abbrev pub all : (A → Bool) → List A → Bool
  all p [] = true
  all p (x ∷ xs) = p x && all p xs

  abbrev pub any : (A → Bool) → List A → Bool
  any p [] = false
  any p (x ∷ xs) = p x || any p xs

  -- The sum of a number over the items.
  abbrev pub sum_by : (A → ℕ) → List A → ℕ
  sum_by f [] = 0
  sum_by f (x ∷ xs) = f x + sum_by f xs

  pub length-append : (xs ys : List A) → length (xs ++ ys) ≡ length xs + length ys
  length-append [] ys = omega arith
  length-append (x ∷ xs) ys = omega (arith, length-append xs ys)

  pub any-append : (p : A → Bool) (xs ys : List A) → any p (xs ++ ys) ≡ (any p xs || any p ys)
  any-append p [] ys = refl
  any-append p (x ∷ xs) ys = ground (arith, any-append p xs ys)

  pub sum_by-append : (f : A → ℕ) (xs ys : List A) → sum_by f (xs ++ ys) ≡ sum_by f xs + sum_by f ys
  sum_by-append f [] ys = omega arith
  sum_by-append f (x ∷ xs) ys = omega (arith, sum_by-append f xs ys)

module _ {ℓ κ} {A : Type ℓ} where
  abbrev pub All : (A → Type κ) → List A → Type κ
  All P [] = Unit
  All P (x ∷ xs) = P x × All P xs

  pub All-append : (P : A → Type κ) (xs ys : List A) → All P xs → All P ys → All P (xs ++ ys)
  All-append P [] ys hx hy = hy
  All-append P (x ∷ xs) ys hx hy = (hx.0, All-append P xs ys hx.1 hy)

  pub All-pointwise : (P : A → Type κ) → ((x : A) → P x) → (xs : List A) → All P xs
  All-pointwise P h [] = tt
  All-pointwise P h (x ∷ xs) = (h x, All-pointwise P h xs)

  pub All_at : (P : A → Type κ) (x : A) (xs : List A) → All P xs → Memᴰ x xs → P x
  All_at P x [] h m = elim m [ ]
  All_at P x (y ∷ ys) h (Memᴰ.head e) = subst P (sym e) h.0
  All_at P x (y ∷ ys) h (Memᴰ.tail m) = All_at P x ys h.1 m

  pub All-intro : (P : A → Type κ) (xs : List A) → ((x : A) → Memᴰ x xs → P x) → All P xs
  All-intro P [] h = tt
  All-intro P (x ∷ xs) h = (h x (Memᴰ.head refl), All-intro P xs (λ y m. h y (Memᴰ.tail m)))

module _ {ℓ} {A : Type ℓ} where
  pub any_intro : (p : A → Bool) (x : A) (xs : List A) → Memᴰ x xs → p x ≡ true → any p xs ≡ true
  any_intro p x [] m h = elim m [ ]
  any_intro p x (y ∷ ys) (Memᴰ.head e) h = let k : p y ≡ true = ap p (sym e) ∙ h in rw k
  any_intro p x (y ∷ ys) (Memᴰ.tail m) h = ground (arith, any_intro p x ys m h)

module _ {ℓ κ ι} {A : Type ℓ} where
  pub All-map :
      (P : A → Type κ) (Q : A → Type ι) (xs : List A) → ((x : A) → P x → Q x) → All P xs → All Q xs
  All-map P Q [] h k = tt
  All-map P Q (x ∷ xs) h (k, ks) = (h x k, All-map P Q xs h ks)
