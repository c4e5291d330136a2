-- ===== src/Worker/Image/Webp.antt =====
-- `stripWebpMetadata` of apps/conversion-worker/src/app/pipeline/image-compressor.service.ts. The
-- loop stands on the bytes from its offset on; what it keeps comes in order.
use backend.Prelude.{
  ℕ, zero, suc, ◌+◌, ◌-◌, ◌*◌, ◌/◌, ◌%◌, Bool, true, false, not, ◌&&◌, List, [], ◌∷◌, ◌++◌, ◌==◌,
  leb, any, length, take, drop, if◌then◌else◌,
}
use backend.Text.{text_eq, codes}
use backend.Worker.Image.Bytes.{
  Bytes, Walk, out_of_fuel, kept, from_le, uint32_le, exif_orientation_block,
}
use backend.Worker.Image.Walks.{is_one_of, webp_clean_chunks, webp_end}

pub record Chunk : Type 0 where
  pub is_features : Bool
  pub is_image : Bool
  pub bytes : Bytes

pub data Strip : Type 0 where
  no_fuel unchanged : Strip
  chunks : List Chunk → Strip

abbrev pub cons_chunk : Chunk → Strip → Strip
cons_chunk c no_fuel = no_fuel
cons_chunk c unchanged = unchanged
cons_chunk c (chunks cs) = chunks (c ∷ cs)

abbrev pub map_at : ℕ → (ℕ → ℕ) → Bytes → Bytes
map_at n f [] = []
map_at zero f (b ∷ s) = f b ∷ s
map_at (suc n) f (b ∷ s) = b ∷ map_at n f s

-- `&= ~WEBP_METADATA_FLAGS`: the bits 4 and 8 are cleared.
abbrev pub clear_metadata_flags : ℕ → ℕ
clear_metadata_flags b = b - b / 4 % 4 * 4

-- `|= WEBP_EXIF_FLAG`: the bit 8 is set.
abbrev pub set_exif_flag : ℕ → ℕ
set_exif_flag b = if b / 8 % 2 == 0 then b + 8 else b

abbrev pub webp_image_chunks : List Bytes
webp_image_chunks = codes "VP8 " ∷ codes "VP8L" ∷ []

unfoldable pub chunk_of : Bytes → Bytes → Chunk
chunk_of chunk_type bytes = record {
  is_features = text_eq chunk_type (codes "VP8X");
  is_image = is_one_of webp_image_chunks chunk_type;
  bytes = if text_eq chunk_type (codes "VP8X") then map_at 8 clear_metadata_flags bytes else bytes;
}

unfoldable pub strip_chunks : ℕ → Bytes → Strip
unfolding chunk_of
strip_chunks zero rest = no_fuel
strip_chunks (suc n) [] = chunks []
strip_chunks (suc n) (t ∷ u ∷ v ∷ w ∷ a ∷ b ∷ c ∷ d ∷ more) =
    let rest = t ∷ u ∷ v ∷ w ∷ a ∷ b ∷ c ∷ d ∷ more in
    let chunk_type = t ∷ u ∷ v ∷ w ∷ [] in
    let end = webp_end (from_le a b c d) in
    elim (leb end (length rest)) [
      | false ↦ unchanged
      | true ↦ elim (text_eq chunk_type (codes "VP8X") && not (from_le a b c d == 10)) [
        | true ↦ unchanged
        | false ↦ elim (is_one_of webp_clean_chunks chunk_type) [
          | false ↦ strip_chunks n (drop end rest)
          | true ↦ cons_chunk (chunk_of chunk_type (take end rest)) (strip_chunks n (drop end rest))
        ]
      ]
    ]
strip_chunks (suc n) rest = unchanged

abbrev pub has_features : List Chunk → Bool
has_features cs = any (λ (c : Chunk). c.is_features) cs

abbrev pub has_image : List Chunk → Bool
has_image cs = any (λ (c : Chunk). c.is_image) cs

-- The last features chunk is the one that the variable `features` holds.
unfoldable pub flag_features : List Chunk → List Chunk
flag_features [] = []
flag_features (c ∷ cs) =
    let rest = flag_features cs in
    if has_features cs
    then c ∷ rest
    else (if c.is_features then record c { bytes = map_at 8 set_exif_flag c.bytes } else c) ∷ cs

abbrev pub concat : List Chunk → Bytes
concat [] = []
concat (c ∷ cs) = c.bytes ++ concat cs

unfoldable pub exif_chunk : ℕ → Bytes
unfolding exif_orientation_block
exif_chunk orientation = codes "EXIF" ++ uint32_le 26 ++ exif_orientation_block orientation

-- The header with the length of the body. A length past 32 bits throws; inputs are shorter.
abbrev pub with_header : Bytes → Bytes → Bytes
with_header input body =
    take 4 input ++ uint32_le (length body + 4) ++ take 4 (drop 8 input) ++ body

unfoldable pub assemble : Bytes → ℕ → List Chunk → Bytes
unfolding flag_features exif_chunk
assemble input orientation cs =
    if not (has_image cs)
    then input
    else if orientation == 1
    then with_header input (concat cs)
    else if has_features cs
    then with_header input (concat (flag_features cs) ++ exif_chunk orientation)
    else input

unfoldable pub strip_webp_metadata : Bytes → ℕ → Walk
unfolding strip_chunks assemble
strip_webp_metadata input orientation = elim (strip_chunks (suc (length input)) (drop 12 input)) [
  | no_fuel ↦ out_of_fuel
  | unchanged ↦ kept input
  | chunks cs ↦ kept (assemble input orientation cs)
]
