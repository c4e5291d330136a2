-- ===== src/Notifications/Destination/Recovery/Evidence.antt =====
-- `RecoveryEvidence` and `validateRecoveryEvidence` of
-- apps/notifications/src/app/operations/email-recovery.service.ts.
use backend.Prelude.{
  ℕ, ◌^◌, Bool, true, false, not, ◌&&◌, ◌||◌, [], ◌∷◌, Option, none, some, ltb, leb, ◌==◌, length,
  all, any,
}
use backend.Text.{Text, codes, is_upper, is_digit, is_alphanumeric}

pub record RecoveryEvidence : Type 0 where
  pub operation_id : Text
  pub expected_suppression_revision : ℕ
  pub actor_id : Text
  pub reason_code : Text
  pub evidence_reference : Text
  pub provider_request_id : Option Text

pub data EmailRecoveryAction : Type 0 where
  requested completed failed : EmailRecoveryAction

-- The white space and line ends that `trim` removes.
abbrev is_space : ℕ → Bool
is_space c =
    (leb 9 c && leb c 13)
    || c == 0x20
    || c == 0xa0
    || c == 0x1680
    || (leb 0x2000 c && leb c 0x200a)
    || c == 0x2028
    || c == 0x2029
    || c == 0x202f
    || c == 0x205f
    || c == 0x3000
    || c == 0xfeff

-- `value === value.trim()`: neither the first nor the last unit is white space.
ends_clean : Text → Bool
ends_clean [] = true
ends_clean (c ∷ []) = not (is_space c)
ends_clean (c ∷ d ∷ s) = ends_clean (d ∷ s)

is_trimmed : Text → Bool
unfolding ends_clean
is_trimmed [] = true
is_trimmed (c ∷ s) = not (is_space c) && ends_clean (c ∷ s)

-- A pattern `/^[first][rest]{0,most}$/`.
matches : (ℕ → Bool) → (ℕ → Bool) → ℕ → Text → Bool
matches first rest most [] = false
matches first rest most (c ∷ s) = first c && all rest s && leb (length s) most

abbrev is_one_of : Text → ℕ → Bool
is_one_of cs c = any (λ d. c == d) cs

-- The four patterns, in the order of their constants.
abbrev is_actor_id : Text → Bool
is_actor_id = matches is_alphanumeric (λ c. is_alphanumeric c || is_one_of (codes "._:/-") c) 127

abbrev is_reason_code : Text → Bool
is_reason_code = matches is_upper (λ c. is_upper c || is_digit c || c == b'_') 99

abbrev is_evidence_reference : Text → Bool
is_evidence_reference =
    matches is_alphanumeric (λ c. is_alphanumeric c || is_one_of (codes "._:/#-") c) 254

abbrev is_provider_request_id : Text → Bool
is_provider_request_id = matches is_alphanumeric (λ c. is_alphanumeric c || c == b'-') 254

-- `validateIdentifier`
abbrev is_identifier : Text → (Text → Bool) → Bool
is_identifier value pattern? = is_trimmed value && pattern? value

abbrev is_completed : EmailRecoveryAction → Bool
is_completed completed = true
is_completed _ = false

-- An absent or empty request id is falsy: it is refused for a completion only.
is_valid_provider_request : Option Text → EmailRecoveryAction → Bool
is_valid_provider_request none action = not (is_completed action)
is_valid_provider_request (some []) action = not (is_completed action)
is_valid_provider_request (some (c ∷ s)) action = is_provider_request_id (c ∷ s)

-- `Number.isSafeInteger` bounds the revision by 2 ^ 53 - 1.
unfoldable pub is_valid_evidence : (Text → Bool) → RecoveryEvidence → EmailRecoveryAction → Bool
unfolding is_trimmed matches is_valid_provider_request
is_valid_evidence is_uuid evidence action =
    is_uuid evidence.operation_id
    && ltb evidence.expected_suppression_revision (2 ^ 53)
    && leb 1 evidence.expected_suppression_revision
    && is_identifier evidence.actor_id is_actor_id
    && is_identifier evidence.reason_code is_reason_code
    && is_identifier evidence.evidence_reference is_evidence_reference
    && is_valid_provider_request evidence.provider_request_id action
