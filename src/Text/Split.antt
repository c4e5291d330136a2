-- ===== src/Text/Split.antt =====
-- `split` of a text at a separator of one character.
use backend.Prelude.{ℕ, ◌≡◌, refl, false, List, [], ◌∷◌, ◌++◌, ◌==◌, if◌then◌else◌, All, arith}
use backend.Text.{Text}

abbrev cons_head : ℕ → List Text → List Text
cons_head c [] = (c ∷ []) ∷ []
cons_head c (w ∷ ws) = (c ∷ w) ∷ ws

unfoldable pub split : ℕ → Text → List Text
split sep [] = [] ∷ []
split sep (c ∷ s) = let rest = split sep s in if c == sep then [] ∷ rest else cons_head c rest

-- The text has no separator.
abbrev pub IsFree : ℕ → Text → Type 0
IsFree sep s = All (λ c. (c == sep) ≡ false) s

pub split_last : (sep : ℕ) (s : Text) → IsFree sep s → split sep s ≡ s ∷ []
unfolding split
split_last sep [] h = refl
split_last sep (c ∷ s) (h, hs) = rw h (rw (split_last sep s hs))

pub split_next : (sep : ℕ) (s t : Text) → IsFree sep s → split sep (s ++ sep ∷ t) ≡ s ∷ split sep t
unfolding split
split_next sep [] t h = ground arith
split_next sep (c ∷ s) t (h, hs) = rw h (rw (split_next sep s t hs))
