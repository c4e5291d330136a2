-- ===== src/Worker/Image/Jpeg.antt =====
-- `rewriteJpegMetadata` of apps/conversion-worker/src/app/pipeline/image-compressor.service.ts. The
-- loop stands on the bytes from its offset on.
pub mod Terminates
pub mod Scan
pub mod Rewritten
pub mod Clean
use backend.Prelude.{
  ℕ, zero, suc, ◌+◌, ◌*◌, Bool, true, false, not, ◌&&◌, ◌||◌, List, [], ◌∷◌, ◌++◌, Option, none,
  some, ◌==◌, leb, non_null_and, length, take, drop, get_elem?, if◌then◌else◌,
}
use backend.Text.{text_eq, codes}
use backend.Worker.Image.Bytes.{
  Bytes, Walk, out_of_fuel, threw, kept, prepend, exif_orientation_block,
}

abbrev pub exif_prefix : Bytes
exif_prefix = codes "Exif" ++ 0 ∷ 0 ∷ []

abbrev pub jfif_prefix : Bytes
jfif_prefix = codes "JFIF" ++ 0 ∷ []

abbrev pub icc_prefix : Bytes
icc_prefix = codes "ICC_PROFILE" ++ 0 ∷ []

abbrev pub adobe_prefix : Bytes
adobe_prefix = codes "Adobe"

-- `payload.subarray(0, prefix.length).equals(prefix)`
abbrev pub has_prefix : Bytes → Bytes → Bool
has_prefix prefix payload = text_eq (take (length prefix) payload) prefix

unfoldable pub is_canonical_jfif : Bytes → Bool
is_canonical_jfif payload =
    has_prefix jfif_prefix payload
    && non_null_and
        (λ x. non_null_and (λ y. length payload == 14 + 3 * x * y) (get_elem? payload 13))
        (get_elem? payload 12)

-- `JPEG_APP0` to `JPEG_APP15`
abbrev pub is_application : ℕ → Bool
is_application marker = leb 224 marker && leb marker 239

unfoldable pub is_decoding_hint : ℕ → Bytes → Bool
unfolding is_canonical_jfif
is_decoding_hint marker payload =
    (marker == 224 && is_canonical_jfif payload)
    || (marker == 226 && has_prefix icc_prefix payload)
    || (marker == 238 && has_prefix adobe_prefix payload)

-- The segments that stay.
unfoldable pub keeps_segment : ℕ → Bytes → Bool
unfolding is_decoding_hint
keeps_segment marker payload =
    (not (is_application marker) && not (marker == 254)) || is_decoding_hint marker payload

abbrev pub cons_some : ℕ → Option Bytes → Option Bytes
cons_some a none = none
cons_some a (some s) = some (a ∷ s)

-- The bytes up to the first `JPEG_END` and with it, if there is one.
abbrev pub until_end : Bytes → Option Bytes
until_end [] = none
until_end (a ∷ []) = none
until_end (a ∷ b ∷ s) =
    let rest = until_end (b ∷ s) in
    if a == 255 && b == 217 then some (a ∷ b ∷ []) else cons_some a rest

abbrev pub keep_scan : Option Bytes → Walk
keep_scan none = threw
keep_scan (some s) = kept s

-- `readUInt16BE(offset + 2)` and the two bytes of the marker.
abbrev pub segment_length : ℕ → ℕ → ℕ
segment_length high low = 2 + (high * 256 + low)

-- What is kept of the segment at the head of the bytes.
unfoldable pub kept_segment : ℕ → Bytes → Bytes
unfolding keeps_segment
kept_segment marker segment = if keeps_segment marker (drop 4 segment) then segment else []

unfoldable pub rewrite_segments : ℕ → Bytes → Walk
unfolding kept_segment
rewrite_segments zero rest = out_of_fuel
rewrite_segments (suc n) (a ∷ marker ∷ high ∷ low ∷ more) = elim (a == 255) [
  | false ↦ threw
  | true ↦ elim (marker == 255) [
    | true ↦ rewrite_segments n (marker ∷ high ∷ low ∷ more)
    | false ↦ elim (marker == 218) [
      | true ↦ keep_scan (until_end (a ∷ marker ∷ high ∷ low ∷ more))
      | false ↦
          let end = segment_length high low in
          prepend (kept_segment marker (take end (a ∷ marker ∷ high ∷ low ∷ more)))
            (rewrite_segments n (drop end (a ∷ marker ∷ high ∷ low ∷ more)))
    ]
  ]
]
rewrite_segments (suc n) _ = threw

-- The segment of an orientation that the pixels do not have.
unfoldable pub orientation_segment : ℕ → Bytes
unfolding exif_orientation_block
orientation_segment orientation =
    if orientation == 1
    then []
    else 255 ∷ 225 ∷ 0 ∷ 34 ∷ exif_prefix ++ exif_orientation_block orientation

-- Fuel for each byte and one more.
unfoldable pub rewrite_jpeg_metadata : Bytes → ℕ → Walk
unfolding rewrite_segments orientation_segment
rewrite_jpeg_metadata input orientation =
    prepend (take 2 input ++ orientation_segment orientation)
      (rewrite_segments (suc (length input)) (drop 2 input))
