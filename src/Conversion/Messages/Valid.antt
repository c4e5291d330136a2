-- ===== src/Conversion/Messages/Valid.antt =====
-- What `parseWorkerEvent` accepts keeps to the contract of the messages.
use mathlib.Core.Path.{subst}
use backend.Prelude.{◌≡◌, Bool, true, ◌&&◌, List, Option, some, Bool-cases, inl, inr, arith}
use backend.Text.{Text, codes}
use backend.Conversion.Messages.{
  Value, Parsed, no_object, object, field, non_empty_text, positive_integer, null_or_text,
  is_sha256_base64, result_kind_of, MessageIdentity, CompletedMessage, WorkerMessage,
  started_message, failed_message, completed_message, parse_identity, check_checksum,
  parse_completed, is_text, parse_result, parse_by_type, parse_worker_event,
}
use backend.Conversion.Messages.RoundTrip.{
  is_non_empty, is_valid_identity, is_valid_completed, is_valid, bind-eq_some, non_empty_text-valid,
  positive_integer-valid, null_or_text-valid, parse_identity-valid,
}

infixl 3 ◌and◌
◌and◌ : {a b : Bool} → a ≡ true → b ≡ true → (a && b) ≡ true
h and k = ground (arith, h, k)

some-eq : {A : Type 0} (a b : A) → some a ≡ some b → a ≡ b
some-eq a b h = cc

check_checksum-valid :
    (s t : Text) → check_checksum s ≡ some t → (s ≡ t) × (is_sha256_base64 t ≡ true)
check_checksum-valid s t h = elim (Bool-cases (is_sha256_base64 s)) [
  | inl e ↦
      let same : s ≡ t = ground (arith, h, e) in
      (same, subst (λ x. is_sha256_base64 x ≡ true) same e)
  | inr e ↦ absurd (ground (arith, h, e))
]

module _ (fields : List (Text × Value)) where
  parse_completed-valid :
      (c : CompletedMessage) → parse_completed fields ≡ some c → is_valid_completed c ≡ true
  unfolding parse_completed
  parse_completed-valid c h0 =
      let at : Text → Option Value = λ name. field name fields in
      let (kind, e1, h1) = bind-eq_some (result_kind_of (at (codes "resultKind"))) _ c h0 in
      let (input_format, e2, h2) =
        bind-eq_some (non_empty_text (at (codes "inputFormat"))) _ c h1 in
      let (output_format, e3, h3) =
        bind-eq_some (non_empty_text (at (codes "outputFormat"))) _ c h2 in
      let (key, e4, h4) = bind-eq_some (non_empty_text (at (codes "outputObjectKey"))) _ c h3 in
      let (sum, e5, h5) =
        bind-eq_some (non_empty_text (at (codes "outputChecksumSha256"))) _ c h4 in
      let (checksum, e6, h6) = bind-eq_some (check_checksum sum) _ c h5 in
      let (frames, e7, h7) = bind-eq_some (positive_integer (at (codes "frameCount"))) _ c h6 in
      let (size, e8, h8) = bind-eq_some (positive_integer (at (codes "outputBytes"))) _ c h7 in
      let (width, e9, h9) = bind-eq_some (positive_integer (at (codes "width"))) _ c h8 in
      let (height, e10, h10) = bind-eq_some (positive_integer (at (codes "height"))) _ c h9 in
      let (preview, e11, h11) =
        bind-eq_some (null_or_text (at (codes "previewObjectKey"))) _ c h10 in
      let (same, verified) = check_checksum-valid sum checksum e6 in
      let found : is_non_empty checksum ≡ true =
        subst (λ x. is_non_empty x ≡ true) same
          (non_empty_text-valid (at (codes "outputChecksumSha256")) sum e5) in
      let read : CompletedMessage = record {
        result_kind = kind;
        input_format = input_format;
        frame_count = frames;
        output_object_key = key;
        output_bytes = size;
        output_checksum_sha256 = checksum;
        output_format = output_format;
        width = width;
        height = height;
        preview_object_key = preview;
      } in
      let eq = some-eq read c h11 in
      subst (λ x. is_valid_completed x ≡ true) eq
        (non_empty_text-valid (at (codes "inputFormat")) input_format e2
          and non_empty_text-valid (at (codes "outputFormat")) output_format e3
          and non_empty_text-valid (at (codes "outputObjectKey")) key e4
          and found
          and verified
          and positive_integer-valid (at (codes "frameCount")) frames e7
          and positive_integer-valid (at (codes "outputBytes")) size e8
          and positive_integer-valid (at (codes "width")) width e9
          and positive_integer-valid (at (codes "height")) height e10
          and null_or_text-valid (at (codes "previewObjectKey")) preview e11)

  parse_result-valid :
      (i : MessageIdentity) (m : WorkerMessage)
      → is_valid_identity i ≡ true
      → parse_result i fields ≡ some m
      → is_valid m ≡ true
  unfolding parse_result
  parse_result-valid i m valid h =
      elim (Bool-cases (is_text (codes "FAILED") (field (codes "outcome") fields))) [
        | inl e ↦
            let (code, f, g) =
              bind-eq_some (non_empty_text (field (codes "failureCode") fields)) _ m
                (rw (parse_result, e) at h) in
            let eq = some-eq (failed_message i code) m g in
            subst (λ x. is_valid x ≡ true) eq
              (valid and non_empty_text-valid (field (codes "failureCode") fields) code f)
        | inr e ↦ elim (Bool-cases (is_text (codes "COMPLETED") (field (codes "outcome") fields))) [
          | inl k ↦
              let (c, f, g) =
                bind-eq_some (parse_completed fields) _ m (rw k at (rw (parse_result, e) at h)) in
              let eq = some-eq (completed_message i c) m g in
              subst (λ x. is_valid x ≡ true) eq (valid and parse_completed-valid c f)
          | inr k ↦ absurd (ground (arith, h, e, k))
        ]
      ]

-- An object is parsed only to a message that passes the checks of the round trip.
pub parse_worker_event-is_valid :
    (parsed : Parsed) (m : WorkerMessage) → parse_worker_event parsed ≡ some m → is_valid m ≡ true
unfolding parse_worker_event parse_by_type
parse_worker_event-is_valid no_object m h = absurd (cc)
parse_worker_event-is_valid (object fields) m h =
    let (i, e, h1) = bind-eq_some (parse_identity fields) (parse_by_type fields) m h in
    let valid = parse_identity-valid fields i e in
    elim (Bool-cases (is_text (codes "STARTED") (field (codes "type") fields))) [
      | inl f ↦
          subst (λ x. is_valid x ≡ true)
            (some-eq (started_message i) m (rw (parse_by_type, f) at h1)) valid
      | inr f ↦ elim (Bool-cases (is_text (codes "RESULT") (field (codes "type") fields))) [
        | inl g ↦ parse_result-valid fields i m valid (rw g at (rw (parse_by_type, f) at h1))
        | inr g ↦ absurd (ground (arith, h1, f, g))
      ]
    ]
