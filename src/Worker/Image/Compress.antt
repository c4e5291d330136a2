-- ===== src/Worker/Image/Compress.antt =====
-- `compress`, `encodeLossy`, `encodeLossless` and `carriesMetadata` of
-- apps/conversion-worker/src/app/pipeline/image-compressor.service.ts. The codecs, the library sharp,
-- are a parameter; `none` is what they throw.
pub mod Outcome
use backend.Prelude.{
  ℕ, zero, suc, ◌+◌, ◌*◌, ◌≡◌, Bool, true, false, not, ◌&&◌, ◌||◌, List, [], ◌∷◌, Option, none,
  some, ◌==◌, ltb, leb, length, if◌then◌else◌,
}
use backend.Text.{Text, text_eq, codes}
use backend.Conversion.{
  Mode, lossless, lossy, Strength, low, medium, high, ResultKind, saved, no_savings,
  sanitized_larger,
}
use backend.Worker.Image.Bytes.{Bytes, Walk, kept, Check, found}
use backend.Worker.Image.Jpeg.{rewrite_jpeg_metadata}
use backend.Worker.Image.Walks.{ImageFormat, jpeg, png, webp, avif, carries_only_allowed_types}
use backend.Worker.Image.Webp.{strip_webp_metadata}

-- What sharp says of an input, where it says it.
pub record Metadata : Type 0 where
  pub format : Text
  pub compression : Text
  pub pages : Option ℕ
  pub width : Option ℕ
  pub height : Option ℕ
  pub orientation : Option ℕ
  pub exif : Bool
  pub iptc : Bool
  pub xmp : Bool
  pub is_palette : Bool

pub record Encoded : Type 0 where
  pub bytes : Bytes
  pub width : ℕ
  pub height : ℕ

pub record Codec : Type 0 where
  pub metadata : Bytes → Option Metadata
  pub lossy_encode : ImageFormat → (quality : ℕ) → Bytes → Option Encoded
  pub deflate : Bytes → Option Encoded
  pub index : Bytes → Option Encoded
  pub pixels : Bytes → Option Bytes

pub data FailureCode : Type 0 where
  animated_unsupported decode_failed input_too_large pixels_exceeded unsupported_format :
      FailureCode

pub record Compressed : Type 0 where
  pub kind : ResultKind
  pub bytes : Bytes
  pub format : ImageFormat
  pub frames : ℕ
  pub width : ℕ
  pub height : ℕ

pub data CompressionResult : Type 0 where
  fails : FailureCode → CompressionResult
  succeeds : Compressed → CompressionResult

abbrev pub or_default : ℕ → Option ℕ → ℕ
or_default a none = a
or_default a (some b) = b

-- The format that the metadata name, of those that are supported.
unfoldable pub detect : Metadata → Option ImageFormat
detect m =
    if text_eq m.format (codes "heif")
    then (if text_eq m.compression (codes "av1") then some avif else none)
    else if text_eq m.format (codes "jpeg")
    then some jpeg
    else if text_eq m.format (codes "png")
    then some png
    else if text_eq m.format (codes "webp")
    then some webp
    else if text_eq m.format (codes "avif")
    then some avif
    else none

-- `LOSSY_QUALITY`
unfoldable pub lossy_quality : Strength → ImageFormat → ℕ
lossy_quality low jpeg = 75
lossy_quality low png = 60
lossy_quality low webp = 75
lossy_quality low avif = 50
lossy_quality medium jpeg = 60
lossy_quality medium png = 35
lossy_quality medium webp = 60
lossy_quality medium avif = 38
lossy_quality high jpeg = 45
lossy_quality high png = 10
lossy_quality high webp = 35
lossy_quality high avif = 30

-- `carriesMetadata`; `none` is a thrown error.
unfoldable pub carries_metadata : ImageFormat → Metadata → Bytes → Option Bool
carries_metadata format m input =
    if not (or_default 1 m.orientation == 1) || m.exif || m.iptc || m.xmp
    then some true
    else elim (carries_only_allowed_types format input) [ found b ↦ some (not b) | _ ↦ none ]

abbrev pub map_bytes : ℕ → ℕ → Walk → Option Encoded
map_bytes w h (kept s) = some (record { bytes = s; width = w; height = h })
map_bytes w h _ = none

-- The two images have the same pixels; the code compares their SHA-256.
abbrev pub same_pixels : Option Bytes → Option Bytes → Option Bool
same_pixels (some a) (some b) = some (text_eq a b)
same_pixels _ _ = none

unfoldable pub repack_palette : Codec → Encoded → Option Encoded
repack_palette codec image = elim (codec.index image.bytes) [
  | none ↦ none
  | some indexed ↦
      if leb (length image.bytes) (length indexed.bytes)
      then some image
      else elim (same_pixels (codec.pixels image.bytes) (codec.pixels indexed.bytes)) [
        | none ↦ none
        | some same ↦ some (if same then indexed else image)
      ]
]

abbrev pub has_colour : ℕ → List ℕ → Bool
has_colour c [] = false
has_colour c (d ∷ seen) = c == d || has_colour c seen

-- The loop of `fitsPalette` over the pixels, four bytes each, with the colours seen.
unfoldable pub fits_palette : List ℕ → Bytes → Option Bool
fits_palette seen [] = some true
fits_palette seen (r ∷ g ∷ b ∷ a ∷ pixels) =
    let colour = ((r * 256 + g) * 256 + b) * 256 + a in
    let now = if has_colour colour seen then seen else colour ∷ seen in
    elim (ltb 256 (length now)) [ true ↦ some false | false ↦ fits_palette now pixels ]
fits_palette seen _ = none

-- `encodeLossless`
unfoldable pub encode_lossless : Codec → ImageFormat → Metadata → Bytes → Option Encoded
unfolding repack_palette fits_palette
encode_lossless codec format m input =
    let orientation = or_default 1 m.orientation in
    let w = or_default 0 (if leb 5 orientation then m.height else m.width) in
    let h = or_default 0 (if leb 5 orientation then m.width else m.height) in
    elim format [
      | jpeg ↦ map_bytes w h (rewrite_jpeg_metadata input orientation)
      | png ↦ elim (codec.deflate input) [
        | none ↦ none
        | some deflated ↦ elim (codec.pixels input) [
          | none ↦ none
          | some pixels ↦ elim (fits_palette [] pixels) [
            | none ↦ none
            | some fits ↦ if fits then repack_palette codec deflated else some deflated
          ]
        ]
      ]
      | webp ↦ map_bytes w h (strip_webp_metadata input orientation)
      | avif ↦ some (record { bytes = input; width = w; height = h })
    ]

-- `LOSSY_MIN_SAVING`: at most nine tenths of the input.
abbrev pub buys_enough : Bytes → Encoded → Bool
buys_enough input candidate = leb (10 * length candidate.bytes) (9 * length input)

-- The branch of WebP and AVIF, with both candidates.
unfoldable pub choose_lossy :
    ImageFormat → Metadata → Bytes → (lossy_one lossless_one : Encoded) → Option Encoded
unfolding carries_metadata
choose_lossy format m input lossy_one lossless_one =
    if buys_enough input lossy_one
    then some (
        if leb (length lossless_one.bytes) (length lossy_one.bytes)
        then lossless_one
        else lossy_one)
    else if not (text_eq lossless_one.bytes input)
    then some lossless_one
    else elim (carries_metadata format m input) [
      | none ↦ none
      | some carries ↦ some (if carries then lossy_one else lossless_one)
    ]

-- `encodeLossy`
unfoldable pub encode_lossy : Codec → ImageFormat → Metadata → Bytes → Strength → Option Encoded
unfolding encode_lossless choose_lossy lossy_quality
encode_lossy codec format m input strength =
    let quality = lossy_quality strength format in
    let lossless_one = encode_lossless codec format m input in
    elim format [
      | jpeg ↦ elim (codec.lossy_encode jpeg quality input) [
        | none ↦ none
        | some lossy_one ↦ if buys_enough input lossy_one then some lossy_one else lossless_one
      ]
      | png ↦ elim lossless_one [
        | none ↦ none
        | some best ↦
            if m.is_palette then some best else elim (codec.lossy_encode png quality input) [
              | none ↦ none
              | some encoded ↦ elim (repack_palette codec encoded) [
                | none ↦ none
                | some quantized ↦ some (
                    if ltb (length quantized.bytes) (length best.bytes)
                      && buys_enough input quantized
                    then quantized
                    else best)
              ]
            ]
      ]
      | other ↦ elim (codec.lossy_encode other quality input) [
        | none ↦ none
        | some lossy_one ↦ elim lossless_one [
          | none ↦ none
          | some best ↦ choose_lossy other m input lossy_one best
        ]
      ]
    ]

abbrev pub encode : Codec → ImageFormat → Metadata → Bytes → Mode → Strength → Option Encoded
encode codec format m input lossy strength = encode_lossy codec format m input strength
encode codec format m input lossless strength = encode_lossless codec format m input

abbrev pub with_shape : ResultKind → Bytes → ImageFormat → Metadata → Encoded → CompressionResult
with_shape kind bytes format m e = succeeds (record {
  kind = kind;
  bytes = bytes;
  format = format;
  frames = or_default 1 m.pages;
  width = e.width;
  height = e.height;
})

-- The choice of the result from what was encoded.
unfoldable pub choose_result : ImageFormat → Metadata → Bytes → Encoded → CompressionResult
unfolding carries_metadata
choose_result format m input e =
    if ltb (length e.bytes) (length input)
    then with_shape saved e.bytes format m e
    else if text_eq e.bytes input
    then with_shape no_savings input format m e
    else elim (carries_metadata format m input) [
      | none ↦ fails decode_failed
      | some carries ↦
          if carries
          then with_shape sanitized_larger e.bytes format m e
          else with_shape no_savings input format m e
    ]

unfoldable pub compress :
    (max_input_bytes max_pixels : ℕ) → Codec → Bytes → Mode → Strength → CompressionResult
unfolding detect encode_lossless encode_lossy choose_result
compress max_input_bytes max_pixels codec input mode strength =
    if ltb max_input_bytes (length input)
    then fails input_too_large
    else elim (codec.metadata input) [
      | none ↦ fails decode_failed
      | some m ↦ elim (detect m) [
        | none ↦ fails unsupported_format
        | some format ↦
            if ltb 1 (or_default 1 m.pages)
            then fails animated_unsupported
            else if ltb max_pixels (or_default 0 m.width * or_default 0 m.height)
            then fails pixels_exceeded
            else elim (encode codec format m input mode strength) [
              | none ↦ fails decode_failed
              | some e ↦ choose_result format m input e
            ]
      ]
    ]
