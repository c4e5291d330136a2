-- ===== src/Prelude/Order.antt =====
-- Sorting by an order that is given, stable as `ORDER BY` with a total order and JavaScript's `sort` are.
use mathlib.Core.Bool.{Bool}
use mathlib.Core.List.{List, [], ◌∷◌}
use backend.Prelude.Tests.{if◌then◌else◌}

module _ {ℓ} {A : Type ℓ} where
  abbrev pub insert : (A → A → Bool) → A → List A → List A
  insert before x [] = x ∷ []
  insert before x (y ∷ ys) =
      let rest = insert before x ys in if before x y then x ∷ y ∷ ys else y ∷ rest

  abbrev pub order_by : (A → A → Bool) → List A → List A
  order_by before [] = []
  order_by before (x ∷ xs) = insert before x (order_by before xs)
