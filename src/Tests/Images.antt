-- ===== src/Tests/Images.antt =====
-- A small JPEG file with a comment. The codec says what the header says and encodes nothing.
use backend.Prelude.{◌≡◌, ◌≢◌, ◌≤◌, refl, false, [], ◌∷◌, none, some, length}
use backend.Text.{text_eq, codes}
use backend.Conversion.{lossless, low, saved}
use backend.Worker.Image.Bytes.{Bytes, kept}
use backend.Worker.Image.Jpeg.{
  rewrite_jpeg_metadata, rewrite_segments, kept_segment, keeps_segment, is_decoding_hint,
  orientation_segment,
}
use backend.Worker.Image.Jpeg.Clean.{rewrite_jpeg_metadata-again}
use backend.Worker.Image.Walks.{jpeg, png, carries_only_allowed_types}
use backend.Worker.Image.Walks.Ends.{carries_only_allowed_types-ends}
use backend.Worker.Image.Bytes.{Check}
use backend.Worker.Image.Compress.{
  Metadata, Codec, Compressed, succeeds, compress, detect, encode_lossless, choose_result,
}
use backend.Worker.Image.Compress.Outcome.{IsOfKind, compress-IsOfKind, compress-clean_jpeg}

abbrev pub photo : Bytes
photo = 255 ∷ 216 ∷ 255 ∷ 254 ∷ 0 ∷ 4 ∷ 65 ∷ 66 ∷ 255 ∷ 218 ∷ 0 ∷ 2 ∷ 255 ∷ 217 ∷ []

abbrev clean_photo : Bytes
clean_photo = 255 ∷ 216 ∷ 255 ∷ 218 ∷ 0 ∷ 2 ∷ 255 ∷ 217 ∷ []

abbrev photo_metadata : Metadata
photo_metadata = record {
  format = codes "jpeg";
  compression = [];
  pages = none;
  width = some 1;
  height = some 1;
  orientation = none;
  exif = false;
  iptc = false;
  xmp = false;
  is_palette = false;
}

abbrev pub codec : Codec
codec = record {
  metadata = λ input. some photo_metadata;
  lossy_encode = λ format quality input. none;
  deflate = λ input. none;
  index = λ input. none;
  pixels = λ input. none;
}

photo_rewritten : rewrite_jpeg_metadata photo 1 ≡ kept clean_photo
unfolding text_eq rewrite_jpeg_metadata rewrite_segments kept_segment keeps_segment is_decoding_hint
    orientation_segment
photo_rewritten = refl

rewrite_jpeg_metadata-again_example :
    rewrite_jpeg_metadata clean_photo 1 ≡ rewrite_jpeg_metadata photo 1
rewrite_jpeg_metadata-again_example =
    rewrite_jpeg_metadata-again photo clean_photo 1 photo_rewritten

abbrev compressed : Compressed
compressed = record {
  kind = saved;
  bytes = clean_photo;
  format = jpeg;
  frames = 1;
  width = 1;
  height = 1;
}

smaller_photo : compress 100 100 codec photo lossless low ≡ succeeds compressed
unfolding compress detect encode_lossless choose_result text_eq rewrite_jpeg_metadata
    rewrite_segments kept_segment keeps_segment is_decoding_hint orientation_segment
smaller_photo = refl

compress-IsOfKind_example :
    (m : Metadata) × (codec.metadata photo ≡ some m)
    × (length photo ≤ 100)
    × IsOfKind compressed.format m photo compressed.kind compressed.bytes
compress-IsOfKind_example =
    compress-IsOfKind 100 100 codec photo lossless low compressed smaller_photo

compress-clean_jpeg_example : rewrite_jpeg_metadata compressed.bytes 1 ≡ kept compressed.bytes
compress-clean_jpeg_example =
    compress-clean_jpeg 100 100 codec photo low photo_metadata compressed refl refl refl
      smaller_photo

carries_only_allowed_types-ends_example : carries_only_allowed_types png photo ≢ Check.out_of_fuel
carries_only_allowed_types-ends_example = carries_only_allowed_types-ends png photo
