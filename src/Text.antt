-- ===== src/Text.antt =====
-- Text as the list of its UTF-16 code units, for the string operations of
-- apps/notifications/src/app/feedback/ses-feedback-policy.ts.
pub mod Equality
pub mod Split
use Prim.Native.Char.{code}
use Prim.Native.String.{String}
use backend.Prelude.{
  ℕ, zero, suc, ◌+◌, ◌-◌, Bool, true, false, ◌&&◌, ◌||◌, List, [], ◌∷◌, ◌++◌, leb, ◌==◌,
  if◌then◌else◌,
}

abbrev pub Text : Type 0
Text = List ℕ

abbrev pub codes : String → Text
codes String.[] = []
codes (String.◌∷◌ c s) = code c ∷ codes s

-- `===` on texts.
unfoldable pub text_eq : Text → Text → Bool
text_eq [] [] = true
text_eq (a ∷ s) (b ∷ t) = a == b && text_eq s t
text_eq _ _ = false

abbrev pub is_upper : ℕ → Bool
is_upper c = leb b'A' c && leb c b'Z'

abbrev pub is_lower : ℕ → Bool
is_lower c = leb b'a' c && leb c b'z'

abbrev pub is_digit : ℕ → Bool
is_digit c = leb b'0' c && leb c b'9'

-- `[A-Za-z0-9]`
abbrev pub is_alphanumeric : ℕ → Bool
is_alphanumeric c = is_upper c || is_lower c || is_digit c

-- `toLowerCase` on the ASCII letters.
unfoldable pub to_lower : ℕ → ℕ
to_lower c = if is_upper c then c + 32 else c

-- `toUpperCase` on the ASCII letters.
unfoldable pub to_upper : ℕ → ℕ
to_upper c = if is_lower c then c - 32 else c

-- `slice(0, n)`
unfoldable pub slice_to : ℕ → Text → Text
slice_to zero s = []
slice_to (suc n) [] = []
slice_to (suc n) (c ∷ s) = c ∷ slice_to n s

-- `join('_')`
unfoldable pub join_underscore : List Text → Text
join_underscore [] = []
join_underscore (s ∷ []) = s
join_underscore (s ∷ t ∷ more) = s ++ b'_' ∷ join_underscore (t ∷ more)
