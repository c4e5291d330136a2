-- ===== src/Notifications/Feedback/Codes.antt =====
-- The failure codes that are stored: at most 100 characters of `A-Z`, `0-9` and `_`.
use backend.Prelude.{
  ℕ, zero, suc, ◌≤◌, ◌≡◌, refl, Bool, true, false, ◌||◌, List, [], ◌∷◌, map, Option, arith, length,
  ◌==◌, All, All-append,
}
use backend.Text.{Text, is_upper, is_digit, is_alphanumeric, to_upper, slice_to, join_underscore}
use backend.Notifications.Feedback.{squeeze, safe_part, present, safe_code}

-- A character of `[A-Z0-9_]`.
abbrev pub is_code_char : ℕ → Bool
is_code_char c = is_upper c || is_digit c || c == b'_'

abbrev pub IsCode : Text → Type 0
IsCode = All (λ c. is_code_char c ≡ true)

to_upper-is_code_char : (c : ℕ) → is_alphanumeric c ≡ true → is_code_char (to_upper c) ≡ true
unfolding to_upper
to_upper-is_code_char c h = ground arith

squeeze-IsCode : (in_run : Bool) (s : Text) → IsCode (map to_upper (squeeze in_run s))
unfolding squeeze to_upper
squeeze-IsCode in_run [] = tt
squeeze-IsCode true (c ∷ s) =
    ground (arith, to_upper-is_code_char c, squeeze-IsCode false s, squeeze-IsCode true s)
squeeze-IsCode false (c ∷ s) =
    ground (arith, to_upper-is_code_char c, squeeze-IsCode false s, squeeze-IsCode true s)

join-IsCode : (parts : List Text) → IsCode (join_underscore (map safe_part parts))
unfolding join_underscore safe_part
join-IsCode [] = tt
join-IsCode (s ∷ []) = squeeze-IsCode false s
join-IsCode (s ∷ t ∷ more) =
    All-append _ (safe_part s) _ (squeeze-IsCode false s) (refl, join-IsCode (t ∷ more))

slice_to-IsCode : (n : ℕ) (s : Text) → IsCode s → IsCode (slice_to n s)
unfolding slice_to
slice_to-IsCode zero s h = tt
slice_to-IsCode (suc n) [] h = tt
slice_to-IsCode (suc n) (c ∷ s) h = (h.0, slice_to-IsCode n s h.1)

length-slice_to : (n : ℕ) (s : Text) → length (slice_to n s) ≤ n
unfolding slice_to
length-slice_to zero s = omega arith
length-slice_to (suc n) [] = omega arith
length-slice_to (suc n) (c ∷ s) = omega (arith, length-slice_to n s)

-- Whatever the provider sent, the code built from it has at most 100 characters (the width of the
-- column) and only the characters `A-Z`, `0-9` and `_`.
pub safe_code-IsCode :
    (parts : List (Option Text)) → (length (safe_code parts) ≤ 100) × IsCode (safe_code parts)
unfolding safe_code
safe_code-IsCode parts =
    (length-slice_to 100 _, slice_to-IsCode 100 _ (join-IsCode (present parts)))
