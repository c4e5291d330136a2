-- ===== src/Conversion.antt =====
-- The service that takes image conversions: apps/conversion-api. This file has its tables, by the
-- models of apps/conversion-api/prisma/schema.prisma without the times of creation and update.
-- Identifiers, e-tags, formats and checksums are numbers that stand for their texts.
pub mod Rollup
pub mod Events
pub mod Retention
pub mod Uploads
pub mod Quota
pub mod Admission
pub mod Steps
pub mod Consistency
pub mod Settled
pub mod Keeps
pub mod History
pub mod Messages
use backend.Prelude.{ℕ, Bool, true, false, ◌&&◌, List, Option, ◌==◌}

pub data BatchStatus : Type 0 where
  uploading queued processing completed partial failed cancelled expired : BatchStatus

pub data FileStatus : Type 0 where
  uploading ready queued processing completed failed cancelled expired : FileStatus

pub data ResultKind : Type 0 where
  saved no_savings sanitized_larger : ResultKind

pub data Mode : Type 0 where
  lossless lossy : Mode

pub data Strength : Type 0 where
  low medium high : Strength

pub data PlanCode : Type 0 where
  anonymous free light pro : PlanCode

-- The keys `inputs/…`, `outputs/…` and `outputs/…/preview` by their parts, and every other text.
pub data ObjectKey : Type 0 where
  input_object_key : (batch_id file_id : ℕ) → ObjectKey
  output_object_key preview_object_key : (batch_id file_id attempt : ℕ) → ObjectKey
  other_key : ℕ → ObjectKey

abbrev pub same_key : ObjectKey → ObjectKey → Bool
same_key (input_object_key b f) (input_object_key c g) = b == c && f == g
same_key (output_object_key b f a) (output_object_key c g d) = b == c && f == g && a == d
same_key (preview_object_key b f a) (preview_object_key c g d) = b == c && f == g && a == d
same_key (other_key k) (other_key l) = k == l
same_key _ _ = false

pub record ConversionBatch : Type 0 where
  pub id : ℕ
  pub subject : ℕ
  pub batch_token_hash : Option ℕ
  pub idempotency_key : ℕ
  pub plan_code : PlanCode
  pub plan_revision : ℕ
  pub mode : Mode
  pub strength : Strength
  pub status : BatchStatus
  pub file_count : ℕ
  pub expires_at : ℕ

pub record ConversionFile : Type 0 where
  pub id : ℕ
  pub batch_id : ℕ
  pub status : FileStatus
  pub input_key : ObjectKey
  pub input_etag : Option ℕ
  pub output_key : Option ObjectKey
  pub preview_key : Option ObjectKey
  pub input_format : Option ℕ
  pub output_format : Option ℕ
  pub input_bytes : Option ℕ
  pub output_bytes : Option ℕ
  pub output_checksum : Option ℕ
  pub result_kind : Option ResultKind
  pub width : Option ℕ
  pub height : Option ℕ
  pub frame_count : Option ℕ
  pub attempt : ℕ
  pub failure_code : Option ℕ
  pub started_at : Option ℕ
  pub completed_at : Option ℕ
  pub expires_at : ℕ

pub record Tables : Type 0 where
  pub batches : List ConversionBatch
  pub files : List ConversionFile
