-- ===== src/Worker/Image/Compress/Outcome.antt =====
-- What `compress` returns: the sizes its kinds stand for, and clean JPEG files.
use backend.Prelude.{
  ℕ, ◌≤◌, ◌<◌, ◌≡◌, refl, sym, ◌∙◌, ap, inl, inr, true, false, some, ltb, length, Bool-cases,
  Option-cases, arith,
}
use mathlib.Core.Path.{subst}
use backend.Text.{text_eq}
use backend.Text.Equality.{text_eq-eq}
use backend.Conversion.{Mode, lossless, Strength, ResultKind, saved, no_savings, sanitized_larger}
use backend.Worker.Image.Bytes.{Bytes, Walk, kept}
use backend.Worker.Image.Jpeg.{rewrite_jpeg_metadata}
use backend.Worker.Image.Jpeg.Clean.{rewrite_jpeg_metadata-again}
use backend.Worker.Image.Walks.{ImageFormat, jpeg, carries_only_allowed_types}
use backend.Worker.Image.Compress.{
  Metadata, Encoded, Codec, Compressed, map_bytes, succeeds, or_default, detect, carries_metadata,
  encode, encode_lossless, choose_result, compress,
}

-- What the kind of a result says of its bytes.
abbrev pub IsOfKind : ImageFormat → Metadata → Bytes → ResultKind → Bytes → Type 0
IsOfKind format m input saved bytes = length bytes < length input
IsOfKind format m input no_savings bytes = bytes ≡ input
IsOfKind format m input sanitized_larger bytes =
    (length input ≤ length bytes) × (carries_metadata format m input ≡ some true)

succeeds-eq : (x c : Compressed) → succeeds x ≡ succeeds c → x ≡ c
succeeds-eq x c e = cc

choose_result-IsOfKind :
    (format : ImageFormat) (m : Metadata) (input : Bytes) (e : Encoded) (c : Compressed)
    → choose_result format m input e ≡ succeeds c
    → (c.format ≡ format) × IsOfKind format m input c.kind c.bytes
unfolding choose_result
choose_result-IsOfKind format m input e c h =
    let goal : Compressed → Type 0 =
      λ x. (x.format ≡ format) × IsOfKind format m input x.kind x.bytes in
    elim (Bool-cases (ltb (length e.bytes) (length input))) [
      | inl f ↦ subst goal (succeeds-eq _ c (rw f at h)) (refl, ground (arith, f))
      | inr f ↦ elim (Bool-cases (text_eq e.bytes input)) [
        | inl g ↦ subst goal (succeeds-eq _ c (rw g at (rw f at h))) (refl, refl)
        | inr g ↦ elim (Option-cases (carries_metadata format m input)) [
          | inl k ↦ absurd (ground (arith, h, f, g, k))
          | inr (b, k) ↦ elim (Bool-cases b) [
            | inl l ↦
                let carries : carries_metadata format m input ≡ some true = k ∙ ap some l in
                subst goal (succeeds-eq _ c (rw carries at (rw g at (rw f at h))))
                  (refl, (ground (arith, f), carries))
            | inr l ↦
                let carries : carries_metadata format m input ≡ some false = k ∙ ap some l in
                subst goal (succeeds-eq _ c (rw carries at (rw g at (rw f at h)))) (refl, refl)
          ]
        ]
      ]
    ]

compress-eq_succeeds :
    (max_input_bytes max_pixels : ℕ) (codec : Codec) (input : Bytes) (mode : Mode)
    (strength : Strength) (c : Compressed)
    → compress max_input_bytes max_pixels codec input mode strength ≡ succeeds c
    → (m : Metadata) × (e : Encoded) × (format : ImageFormat) × (length input ≤ max_input_bytes)
      × (codec.metadata input ≡ some m)
      × (encode codec format m input mode strength ≡ some e)
      × (choose_result format m input e ≡ succeeds c)
unfolding compress
compress-eq_succeeds max_input_bytes max_pixels codec input mode strength c h =
    elim (Option-cases (codec.metadata input)) [
      | inl f ↦ absurd (ground (arith, h, f))
      | inr (m, f) ↦ elim (Option-cases (detect m)) [
        | inl g ↦ absurd (ground (arith, h, f, g))
        | inr (format, g) ↦ elim (Option-cases (encode codec format m input mode strength)) [
          | inl k ↦ absurd (ground (arith, h, f, g, k))
          | inr (e, k) ↦ (m, e, format, ground (arith, h), f, k, ground (arith, h, f, g, k))
        ]
      ]
    ]

-- A success is for an input within the limit, and its kind says what its bytes are: fewer than the
-- input's, the input, or as many at least where the input carries metadata.
pub compress-IsOfKind :
    (max_input_bytes max_pixels : ℕ) (codec : Codec) (input : Bytes) (mode : Mode)
    (strength : Strength) (c : Compressed)
    → compress max_input_bytes max_pixels codec input mode strength ≡ succeeds c
    → (m : Metadata) × (codec.metadata input ≡ some m)
      × (length input ≤ max_input_bytes)
      × IsOfKind c.format m input c.kind c.bytes
compress-IsOfKind max_input_bytes max_pixels codec input mode strength c h =
    let (m, e, format, small, f, k, chosen) =
      compress-eq_succeeds max_input_bytes max_pixels codec input mode strength c h in
    let (same, kind) = choose_result-IsOfKind format m input e c chosen in
    (m, f, small, subst (λ x. IsOfKind x m input c.kind c.bytes) (sym same) kind)

map_bytes-some :
    (w h : ℕ) (walk : Walk) (e : Encoded) → map_bytes w h walk ≡ some e → walk ≡ kept e.bytes
map_bytes-some w h walk e k = ground (arith, k)

-- The bytes of a lossless JPEG result are the rewritten ones, whatever its kind.
choose_result-rewritten :
    (m : Metadata) (input : Bytes) (e : Encoded) (c : Compressed)
    → rewrite_jpeg_metadata input 1 ≡ kept e.bytes
    → choose_result jpeg m input e ≡ succeeds c
    → c.bytes ≡ e.bytes
unfolding choose_result carries_metadata carries_only_allowed_types
choose_result-rewritten m input e c rewritten h =
    elim (Bool-cases (ltb (length e.bytes) (length input))) [
      | inl f ↦ ground (arith, h, f)
      | inr f ↦ elim (Bool-cases (text_eq e.bytes input)) [
        | inl g ↦ let same = text_eq-eq e.bytes input g in ground (arith, h, f, g, same)
        | inr g ↦ ground (arith, h, f, g, rewritten)
      ]
    ]

-- A lossless success for a JPEG file without an orientation of its own has clean bytes: rewriting
-- them changes nothing.
pub compress-clean_jpeg :
    (max_input_bytes max_pixels : ℕ) (codec : Codec) (input : Bytes) (strength : Strength)
    (m : Metadata) (c : Compressed)
    → codec.metadata input ≡ some m
    → or_default 1 m.orientation ≡ 1
    → c.format ≡ jpeg
    → compress max_input_bytes max_pixels codec input lossless strength ≡ succeeds c
    → rewrite_jpeg_metadata c.bytes 1 ≡ kept c.bytes
unfolding encode_lossless
compress-clean_jpeg max_input_bytes max_pixels codec input strength m c found_m upright is_jpeg h =
    let (n, e, format, _, f, k, chosen) =
      compress-eq_succeeds max_input_bytes max_pixels codec input lossless strength c h in
    let same_m : n ≡ m = ground (arith, found_m, f) in
    let same_format : format ≡ jpeg =
      sym (choose_result-IsOfKind format n input e c chosen).0 ∙ is_jpeg in
    let jpeg_encoded : encode_lossless codec jpeg m input ≡ some e =
      rw same_m at (rw same_format at k) in
    let walked = map_bytes-some _ _ _ e jpeg_encoded in
    let rewritten : rewrite_jpeg_metadata input 1 ≡ kept e.bytes = rw upright at walked in
    let jpeg_chosen : choose_result jpeg n input e ≡ succeeds c = rw same_format at chosen in
    let bytes = choose_result-rewritten n input e c rewritten jpeg_chosen in
    rw bytes (rewrite_jpeg_metadata-again input e.bytes 1 rewritten ∙ rewritten)
