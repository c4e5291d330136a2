-- ===== src/Tests/Requests.antt =====
-- The delivery of a request for the small photo, with services that all succeed.
use backend.Prelude.{◌≡◌, refl, true, some, All, any, length}
use backend.Text.{text_eq}
use backend.Conversion.{input_object_key, lossless, low}
use backend.Conversion.Admission.{ConversionRequest, standard}
use backend.Worker.Image.Jpeg.{
  rewrite_jpeg_metadata, rewrite_segments, kept_segment, keeps_segment, is_decoding_hint,
  orientation_segment,
}
use backend.Worker.Image.Compress.{compress, detect, encode_lossless, choose_result}
use backend.Worker.Handle.{Services, reads, handle, identity_of, convert, store_preview}
use backend.Worker.Handle.Order.{deletes, EndsWithResult, handle-EndsWithResult}
use backend.Worker.Handle.Accepted.{stored_by, IsAccepted, handle-IsAccepted}
use backend.Tests.Images.{photo, codec}

abbrev services : Services
services = record {
  succeeds = λ action. true;
  get_input = λ key etag. reads photo;
  compress = compress 100 100 codec;
  preview = λ bytes. some bytes;
  sha256 = λ bytes. length bytes;
  etag = λ bytes. 5;
  format_name = λ format. 1;
  failure_name = λ code. 2;
}

abbrev request : ConversionRequest
request = record {
  file_id = 3;
  batch_id = 4;
  input_key = input_object_key 4 3;
  input_etag = some 9;
  output_retention = standard;
  mode = lossless;
  strength = low;
}

request_deleted : any deletes (handle services (some request) 1) ≡ true
unfolding handle convert store_preview compress detect encode_lossless choose_result text_eq
    rewrite_jpeg_metadata rewrite_segments kept_segment keeps_segment is_decoding_hint
    orientation_segment
request_deleted = refl

handle-EndsWithResult_example :
    EndsWithResult (identity_of request 1) (handle services (some request) 1)
handle-EndsWithResult_example = handle-EndsWithResult services request 1 request_deleted

handle-IsAccepted_example :
    All
      (IsAccepted (stored_by (handle services (some request) 1)))
      (handle services (some request) 1)
handle-IsAccepted_example = handle-IsAccepted services request 1
