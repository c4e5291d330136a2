-- ===== src/Worker/Image/Walks.antt =====
-- `carriesOnlyAllowedTypes` of apps/conversion-worker/src/app/pipeline/image-compressor.service.ts:
-- the walks over the containers. Each loop stands on the bytes from its offset on.
pub mod Ends
use backend.Prelude.{
  ℕ, zero, suc, ◌+◌, ◌-◌, ◌%◌, Bool, true, false, not, ◌&&◌, ◌||◌, List, [], ◌∷◌, ◌++◌, ◌==◌, leb,
  ltb, min, all, any, length, take, drop, if◌then◌else◌,
}
use backend.Text.{text_eq, codes}
use backend.Worker.Image.Bytes.{
  Bytes, Walk, kept, Check, out_of_fuel, threw, found, from_be, from_le,
}
use backend.Worker.Image.Jpeg.{rewrite_jpeg_metadata}

-- `set.has(type)`
abbrev pub is_one_of : List Bytes → Bytes → Bool
is_one_of names name = any (text_eq name) names

abbrev pub png_clean_chunks : List Bytes
png_clean_chunks =
    codes "IHDR"
    ∷ codes "PLTE"
    ∷ codes "IDAT"
    ∷ codes "tRNS"
    ∷ codes "gAMA"
    ∷ codes "cHRM"
    ∷ codes "sRGB"
    ∷ codes "iCCP"
    ∷ codes "sBIT"
    ∷ codes "bKGD"
    ∷ codes "pHYs"
    ∷ codes "cICP"
    ∷ codes "mDCv"
    ∷ codes "cLLi"
    ∷ []

abbrev pub webp_clean_chunks : List Bytes
webp_clean_chunks = codes "VP8 " ∷ codes "VP8L" ∷ codes "VP8X" ∷ codes "ALPH" ∷ codes "ICCP" ∷ []

abbrev pub avif_clean_boxes : List Bytes
avif_clean_boxes = codes "ftyp" ∷ codes "meta" ∷ codes "mdat" ∷ codes "free" ∷ codes "skip" ∷ []

abbrev pub avif_clean_items : List Bytes
avif_clean_items = codes "av01" ∷ codes "grid" ∷ []

unfoldable pub png_walk : ℕ → Bytes → Check
png_walk zero rest = out_of_fuel
png_walk (suc n) (a ∷ b ∷ c ∷ d ∷ t ∷ u ∷ v ∷ w ∷ more) =
    let chunk_type = t ∷ u ∷ v ∷ w ∷ [] in
    let end = 12 + from_be a b c d in
    elim (text_eq chunk_type (codes "IEND")) [
      | true ↦ found (end == length (a ∷ b ∷ c ∷ d ∷ t ∷ u ∷ v ∷ w ∷ more))
      | false ↦ elim (is_one_of png_clean_chunks chunk_type) [
        | false ↦ found false
        | true ↦ png_walk n (drop end (a ∷ b ∷ c ∷ d ∷ t ∷ u ∷ v ∷ w ∷ more))
      ]
    ]
png_walk (suc n) _ = found false

-- The length of a chunk with its header and its padding.
abbrev pub webp_end : ℕ → ℕ
webp_end n = 8 + n + n % 2

-- A chunk that reaches past the end leaves the offset past the end.
unfoldable pub webp_walk : ℕ → Bytes → Check
webp_walk zero rest = out_of_fuel
webp_walk (suc n) (t ∷ u ∷ v ∷ w ∷ a ∷ b ∷ c ∷ d ∷ more) =
    let chunk_type = t ∷ u ∷ v ∷ w ∷ [] in
    let end = webp_end (from_le a b c d) in
    elim (is_one_of webp_clean_chunks chunk_type) [
      | false ↦ found false
      | true ↦ elim (text_eq chunk_type (codes "VP8X") && not (from_le a b c d == 10)) [
        | true ↦ found false
        | false ↦ elim (leb end (length (t ∷ u ∷ v ∷ w ∷ a ∷ b ∷ c ∷ d ∷ more))) [
          | false ↦ found false
          | true ↦ webp_walk n (drop end (t ∷ u ∷ v ∷ w ∷ a ∷ b ∷ c ∷ d ∷ more))
        ]
      ]
    ]
webp_walk (suc n) rest = found (length rest == 0)

unfoldable pub webp_clean : Bytes → Check
unfolding webp_walk
webp_clean (r ∷ i ∷ f ∷ g ∷ a ∷ b ∷ c ∷ d ∷ more) =
    let input = r ∷ i ∷ f ∷ g ∷ a ∷ b ∷ c ∷ d ∷ more in
    elim (from_le a b c d + 8 == length input) [
      | false ↦ found false
      | true ↦ webp_walk (suc (length input)) (drop 12 input)
    ]
webp_clean _ = threw

-- The items that a walk over AVIF boxes finds, or its answer.
pub data Items : Type 0 where
  no_fuel refused : Items
  items : List Bytes → Items

abbrev pub join_items : Items → Items → Items
join_items no_fuel more = no_fuel
join_items refused more = refused
join_items (items xs) no_fuel = no_fuel
join_items (items xs) refused = refused
join_items (items xs) (items ys) = items (xs ++ ys)

-- `id` is where the type of the item begins.
abbrev pub item_type : ℕ → Bytes → Bytes
item_type version entry = take 4 (drop (if version == 2 then 16 else 18) entry)

-- The entries of an `iinf` box; `within` is what is left of the box, and `entry` of the input.
unfoldable pub entry_walk : ℕ → ℕ → Bytes → Items
entry_walk zero within entry = no_fuel
entry_walk (suc n) within (a ∷ b ∷ c ∷ d ∷ t ∷ u ∷ v ∷ w ∷ version ∷ more) =
    let entry = a ∷ b ∷ c ∷ d ∷ t ∷ u ∷ v ∷ w ∷ version ∷ more in
    let end = from_be a b c d in
    elim (leb 12 within) [
      | false ↦ items []
      | true ↦ elim (not (text_eq (t ∷ u ∷ v ∷ w ∷ []) (codes "infe")) || ltb end 20) [
        | true ↦ refused
        | false ↦
            join_items (items (item_type version entry ∷ []))
              (entry_walk n (within - end) (drop end entry))
      ]
    ]
entry_walk (suc n) within entry = items []

-- The children of a `meta` box.
unfoldable pub child_walk : ℕ → ℕ → Bytes → Items
unfolding entry_walk
child_walk zero within child = no_fuel
child_walk (suc n) within (a ∷ b ∷ c ∷ d ∷ t ∷ u ∷ v ∷ w ∷ more) =
    let child = a ∷ b ∷ c ∷ d ∷ t ∷ u ∷ v ∷ w ∷ more in
    let end = from_be a b c d in
    let next = child_walk n (within - end) (drop end child) in
    elim (leb 8 within) [
      | false ↦ items []
      | true ↦ elim (ltb end 8) [
        | true ↦ refused
        | false ↦ elim (text_eq (t ∷ u ∷ v ∷ w ∷ []) (codes "iinf")) [
          | true ↦
              let header = 12 + (if text_eq (take 1 more) (0 ∷ []) then 2 else 4) in
              join_items
                (entry_walk (suc (length child)) (min end (length child) - header)
                  (drop header child))
                next
          | false ↦ next
        ]
      ]
    ]
child_walk (suc n) within child = items []

unfoldable pub box_walk : ℕ → Bytes → Items
unfolding child_walk
box_walk zero rest = no_fuel
box_walk (suc n) [] = items []
box_walk (suc n) (a ∷ b ∷ c ∷ d ∷ t ∷ u ∷ v ∷ w ∷ more) =
    let rest = a ∷ b ∷ c ∷ d ∷ t ∷ u ∷ v ∷ w ∷ more in
    let box_type = t ∷ u ∷ v ∷ w ∷ [] in
    let end = from_be a b c d in
    let children =
      if text_eq box_type (codes "meta")
      then child_walk (suc (length rest)) (min end (length rest) - 12) (drop 12 rest)
      else items [] in
    elim (not (is_one_of avif_clean_boxes box_type) || ltb end 8) [
      | true ↦ refused
      | false ↦
          join_items children
            (if leb end (length rest) then box_walk n (drop end rest) else refused)
    ]
box_walk (suc n) rest = refused

abbrev pub items_clean : Items → Check
items_clean no_fuel = out_of_fuel
items_clean refused = found false
items_clean (items []) = found false
items_clean (items (x ∷ xs)) = found (all (is_one_of avif_clean_items) (x ∷ xs))

-- `equals(input)` of the rewritten bytes.
abbrev pub same_bytes : Bytes → Walk → Check
same_bytes input Walk.out_of_fuel = out_of_fuel
same_bytes input Walk.threw = threw
same_bytes input (kept bytes) = found (text_eq bytes input)

pub data ImageFormat : Type 0 where
  jpeg png webp avif : ImageFormat

unfoldable pub carries_only_allowed_types : ImageFormat → Bytes → Check
unfolding rewrite_jpeg_metadata png_walk webp_clean box_walk
carries_only_allowed_types jpeg input = same_bytes input (rewrite_jpeg_metadata input 1)
carries_only_allowed_types png input = png_walk (suc (length input)) (drop 8 input)
carries_only_allowed_types webp input = webp_clean input
carries_only_allowed_types avif input = items_clean (box_walk (suc (length input)) input)
