-- ===== src/Tests/Messages.antt =====
-- A completion and a request, written and read.
use backend.Prelude.{◌≡◌, refl, true, none, some}
use backend.Text.{Text, codes, text_eq}
use backend.Conversion.{saved, lossless, low}
use backend.Conversion.Admission.{standard}
use backend.Conversion.Messages.{
  WorkerMessage, completed_message, event_object, parse_worker_event, parse_by_type, parse_identity,
  parse_result, parse_completed, is_sha256_base64, result_kind_of,
}
use backend.Conversion.Messages.RoundTrip.{is_valid, parse_worker_event-event_object}
use backend.Conversion.Messages.Contract.{IsContractual, parse_worker_event-IsContractual}
use backend.Conversion.Messages.Requests.{
  RequestMessage, request_object, parse_conversion_request, parse_conversion_request-request_object,
}

abbrev checksum : Text
checksum = codes "47DEQpj8HBSa+/TImW+5JCeuQeRkm5NMpJWZG3hSuFU="

abbrev message : WorkerMessage
message =
    completed_message (record { file_id = codes "f"; batch_id = codes "b"; attempt = 1 })
      (record {
        result_kind = saved;
        input_format = codes "jpeg";
        frame_count = 1;
        output_object_key = codes "outputs/b/f/1";
        output_bytes = 8;
        output_checksum_sha256 = checksum;
        output_format = codes "jpeg";
        width = 1;
        height = 1;
        preview_object_key = none;
      })

message_valid : is_valid message ≡ true
unfolding is_sha256_base64
message_valid = refl

parse_worker_event-event_object_example : parse_worker_event (event_object message) ≡ some message
parse_worker_event-event_object_example = parse_worker_event-event_object message message_valid

message_parsed : parse_worker_event (event_object message) ≡ some message
unfolding parse_worker_event parse_by_type parse_identity parse_result parse_completed
    is_sha256_base64 result_kind_of text_eq
message_parsed = refl

parse_worker_event-IsContractual_example : IsContractual message
parse_worker_event-IsContractual_example =
    parse_worker_event-IsContractual (event_object message) message message_parsed

abbrev request : RequestMessage
request = record {
  file_id = codes "f";
  batch_id = codes "b";
  input_object_key = codes "inputs/b/f";
  input_etag = codes "e";
  output_retention = standard;
  mode = lossless;
  strength = low;
}

parse_conversion_request-request_object_example :
    parse_conversion_request (request_object request) ≡ some request
parse_conversion_request-request_object_example =
    parse_conversion_request-request_object request refl refl refl refl
