-- ===== src/Conversion/Messages/RoundTrip.antt =====
-- The API reads what the worker writes: a message that keeps to the contract is parsed to itself.
use backend.Prelude.{
  ℕ, ◌≡◌, refl, Bool, true, false, ◌&&◌, List, [], ◌∷◌, Option, none, some, ◌>>=◌, null_or, arith,
}
use backend.Text.{Text, text_eq, codes}
use backend.Conversion.{ResultKind, saved, no_savings, sanitized_larger}
use backend.Conversion.Messages.{
  Value, text_value, number_value, field, non_empty_text, is_positive, positive_integer,
  null_or_text, is_sha256_base64, kind_name, result_kind_of, MessageIdentity, CompletedMessage,
  WorkerMessage, started_message, failed_message, completed_message, parse_identity,
  parse_completed, parse_result, parse_by_type, parse_worker_event, event_object, null_or_value,
  completed_fields,
}

abbrev pub is_non_empty : Text → Bool
is_non_empty [] = false
is_non_empty (c ∷ s) = true

abbrev pub is_valid_identity : MessageIdentity → Bool
is_valid_identity m = is_non_empty m.file_id && is_non_empty m.batch_id && is_positive m.attempt

abbrev pub is_valid_completed : CompletedMessage → Bool
is_valid_completed c =
    is_non_empty c.input_format
    && is_non_empty c.output_format
    && is_non_empty c.output_object_key
    && is_non_empty c.output_checksum_sha256
    && is_sha256_base64 c.output_checksum_sha256
    && is_positive c.frame_count
    && is_positive c.output_bytes
    && is_positive c.width
    && is_positive c.height
    && null_or is_non_empty c.preview_object_key

-- The message keeps to the contract: its texts are not empty, its numbers positive and of 31 bits,
-- and its checksum the base64 of 32 bytes.
abbrev pub is_valid : WorkerMessage → Bool
is_valid (started_message m) = is_valid_identity m
is_valid (failed_message m failure_code) = is_valid_identity m && is_non_empty failure_code
is_valid (completed_message m c) = is_valid_identity m && is_valid_completed c

pub non_empty_text-text_value :
    (s : Text) → is_non_empty s ≡ true → non_empty_text (some (text_value s)) ≡ some s
non_empty_text-text_value [] h = absurd (cc)
non_empty_text-text_value (c ∷ s) h = refl

positive_integer-number_value :
    (n : ℕ) → is_positive n ≡ true → positive_integer (some (number_value n)) ≡ some n
positive_integer-number_value n h = rw h refl

null_or_text-null_or_value :
    (s : Option Text)
    → null_or is_non_empty s ≡ true
    → null_or_text (some (null_or_value s)) ≡ some s
null_or_text-null_or_value none h = refl
null_or_text-null_or_value (some []) h = absurd (cc)
null_or_text-null_or_value (some (c ∷ s)) h = refl

result_kind_of-kind_name :
    (k : ResultKind) → result_kind_of (some (text_value (kind_name k))) ≡ some k
unfolding result_kind_of text_eq
result_kind_of-kind_name saved = refl
result_kind_of-kind_name no_savings = refl
result_kind_of-kind_name sanitized_larger = refl

pub both : (a b : Bool) → (a && b) ≡ true → (a ≡ true) × (b ≡ true)
both a b h = (ground (arith, h), ground (arith, h))

completed-parsed :
    (m : MessageIdentity) (c : CompletedMessage)
    → is_valid_completed c ≡ true
    → parse_completed (completed_fields m c) ≡ some c
unfolding parse_completed text_eq
completed-parsed m c h =
    let (h9, l) = both _ _ h in
    let (h8, k) = both _ _ h9 in
    let (h7, j) = both _ _ h8 in
    let (h6, i) = both _ _ h7 in
    let (h5, g) = both _ _ h6 in
    let (h4, f) = both _ _ h5 in
    let (h3, e) = both _ _ h4 in
    let (h2, d) = both _ _ h3 in
    let (a, b) = both _ _ h2 in
    rw (result_kind_of-kind_name c.result_kind) (
      rw (non_empty_text-text_value c.input_format a) (
        rw (non_empty_text-text_value c.output_format b) (
          rw (non_empty_text-text_value c.output_object_key d) (
            rw (non_empty_text-text_value c.output_checksum_sha256 e) (
              rw f (
                rw (positive_integer-number_value c.frame_count g) (
                  rw (positive_integer-number_value c.output_bytes i) (
                    rw (positive_integer-number_value c.width j) (
                      rw (positive_integer-number_value c.height k)
                        (rw (null_or_text-null_or_value c.preview_object_key l) refl))))))))))

-- A message that keeps to the contract is parsed from its object to itself.
pub parse_worker_event-event_object :
    (m : WorkerMessage) → is_valid m ≡ true → parse_worker_event (event_object m) ≡ some m
unfolding parse_worker_event parse_by_type parse_identity parse_result parse_completed text_eq
parse_worker_event-event_object (started_message m) h = ground (
  arith,
  h,
  non_empty_text-text_value m.file_id,
  non_empty_text-text_value m.batch_id,
  positive_integer-number_value m.attempt,
)
parse_worker_event-event_object (failed_message m failure_code) h = ground (
  arith,
  h,
  non_empty_text-text_value m.file_id,
  non_empty_text-text_value m.batch_id,
  positive_integer-number_value m.attempt,
  non_empty_text-text_value failure_code,
)
parse_worker_event-event_object (completed_message m c) h =
    let (hm, hc) = both (is_valid_identity m) (is_valid_completed c) h in
    ground (
      arith,
      hm,
      non_empty_text-text_value m.file_id,
      non_empty_text-text_value m.batch_id,
      positive_integer-number_value m.attempt,
      completed-parsed m c hc,
    )

-- A chain of checks that succeeds has a value from each.
pub bind-eq_some :
    {A B : Type 0} (o : Option A) (f : A → Option B) (b : B)
    → (o >>= f) ≡ some b
    → (a : A) × (o ≡ some a) × (f a ≡ some b)
bind-eq_some none f b h = absurd (cc)
bind-eq_some (some a) f b h = (a, refl, h)

pub non_empty_text-valid :
    (v : Option Value) (s : Text) → non_empty_text v ≡ some s → is_non_empty s ≡ true
non_empty_text-valid v s h = ground (arith, h)

pub positive_integer-valid :
    (v : Option Value) (n : ℕ) → positive_integer v ≡ some n → is_positive n ≡ true
positive_integer-valid v n h = ground (arith, h)

pub null_or_text-valid :
    (v : Option Value) (s : Option Text) → null_or_text v ≡ some s → null_or is_non_empty s ≡ true
null_or_text-valid v s h = ground (arith, h)

pub parse_identity-valid :
    (fields : List (Text × Value)) (m : MessageIdentity)
    → parse_identity fields ≡ some m
    → is_valid_identity m ≡ true
unfolding parse_identity
parse_identity-valid fields m h =
    let (file_id, e, h1) = bind-eq_some (non_empty_text (field (codes "fileId") fields)) _ m h in
    let (batch_id, f, h2) = bind-eq_some (non_empty_text (field (codes "batchId") fields)) _ m h1 in
    let (attempt, g, h3) =
      bind-eq_some (positive_integer (field (codes "attempt") fields)) _ m h2 in
    ground (
      arith,
      h3,
      non_empty_text-valid (field (codes "fileId") fields) file_id e,
      non_empty_text-valid (field (codes "batchId") fields) batch_id f,
      positive_integer-valid (field (codes "attempt") fields) attempt g,
    )
