-- ===== src/Worker/Handle.antt =====
-- `handle` of apps/conversion-worker/src/app/queue/queue-consumer.service.ts: the calls it makes of
-- the queues and the object store, in order. A call that fails throws, and what follows is not done.
pub mod Order
pub mod Accepted
use backend.Prelude.{
  ℕ, Bool, true, false, ◌&&◌, List, [], ◌∷◌, Option, none, some, length, if◌then◌else◌,
}
use backend.Conversion.{ObjectKey, output_object_key, preview_object_key, same_key, Mode, Strength}
use backend.Conversion.Events.{
  EventIdentity, Completion, Outcome, completes, WorkerEvent, started, result, StoredObject,
}
use backend.Conversion.Admission.{ConversionRequest}
use backend.Worker.Image.Bytes.{Bytes}
use backend.Worker.Image.Walks.{ImageFormat}
use backend.Worker.Image.Compress.{FailureCode, Compressed, CompressionResult}

pub data Action : Type 0 where
  publishes : WorkerEvent → Action
  puts_output : ObjectKey → StoredObject → Action
  deletes_message : Action

-- What `getInput` answers: the bytes, an `InputIntegrityError` with its code, or another error.
pub data InputAnswer : Type 0 where
  reads : Bytes → InputAnswer
  is_broken : (failure_code : ℕ) → InputAnswer
  throws_other : InputAnswer

-- The services around the consumer: whether a call succeeds, the answers of the object store, the
-- compressor with its previews, the hash, and the texts of formats, failures and e-tags as numbers.
pub record Services : Type 0 where
  pub succeeds : Action → Bool
  pub get_input : ObjectKey → ℕ → InputAnswer
  pub compress : Bytes → Mode → Strength → CompressionResult
  pub preview : Bytes → Option Bytes
  pub sha256 : Bytes → ℕ
  pub etag : Bytes → ℕ
  pub format_name : ImageFormat → ℕ
  pub failure_name : FailureCode → ℕ

-- `await` of a call, and what follows if it does not throw.
abbrev pub after : Services → Action → List Action → List Action
after s a rest = if s.succeeds a then a ∷ rest else []

abbrev pub stored : Services → Bytes → StoredObject
stored s bytes = record {
  bytes = length bytes;
  etag = s.etag bytes;
  checksum_sha256 = some (s.sha256 bytes);
}

abbrev pub publish_failure : Services → EventIdentity → ℕ → List Action
publish_failure s e code =
    after s (publishes (result e (Outcome.fails code))) (after s deletes_message [])

abbrev pub completion_of : Services → EventIdentity → Compressed → Option ObjectKey → Completion
completion_of s e c preview_key = record {
  result_kind = c.kind;
  input_format = s.format_name c.format;
  frame_count = c.frames;
  output_key = output_object_key e.batch_id e.file_id e.attempt;
  output_bytes = length c.bytes;
  output_checksum = s.sha256 c.bytes;
  output_format = s.format_name c.format;
  width = c.width;
  height = c.height;
  preview_key = preview_key;
}

abbrev pub publish_completion :
    Services → EventIdentity → Compressed → Option ObjectKey → List Action
publish_completion s e c preview_key =
    after s (publishes (result e (completes (completion_of s e c preview_key))))
      (after s deletes_message [])

-- A preview that fails, or that cannot be stored, is skipped.
unfoldable pub store_preview : Services → EventIdentity → Compressed → List Action
store_preview s e c =
    let key = preview_object_key e.batch_id e.file_id e.attempt in
    elim (s.preview c.bytes) [
      | none ↦ publish_completion s e c none
      | some preview ↦
          if s.succeeds (puts_output key (stored s preview))
          then puts_output key (stored s preview) ∷ publish_completion s e c (some key)
          else publish_completion s e c none
    ]

-- What follows the input's reading.
unfoldable pub convert : Services → EventIdentity → Bytes → Mode → Strength → List Action
unfolding store_preview
convert s e input mode strength = elim (s.compress input mode strength) [
  | CompressionResult.fails code ↦ publish_failure s e (s.failure_name code)
  | CompressionResult.succeeds c ↦
      after s (puts_output (output_object_key e.batch_id e.file_id e.attempt) (stored s c.bytes))
        (store_preview s e c)
]

abbrev pub identity_of : ConversionRequest → ℕ → EventIdentity
identity_of request attempt = record {
  file_id = request.file_id;
  batch_id = request.batch_id;
  attempt = attempt;
}

-- `handle` of a message in its `attempt`-th delivery; `none` is a body that does not parse. A request
-- without an e-tag does not parse.
unfoldable pub handle : Services → Option ConversionRequest → (attempt : ℕ) → List Action
unfolding convert
handle s none attempt = []
handle s (some request) attempt =
    let e = identity_of request attempt in
    elim request.input_etag [
      | none ↦ []
      | some etag ↦ after s (publishes (started e)) (elim (s.get_input request.input_key etag) [
        | reads input ↦ convert s e input request.mode request.strength
        | is_broken code ↦ publish_failure s e code
        | throws_other ↦ []
      ])
    ]
