-- ===== src/Conversion/Keeps.antt =====
-- What stays of a file of apps/conversion-api from one state of its row to a later one.
use backend.Prelude.{ℕ, ◌≤◌, ◌≡◌, ◌⊎◌, false, arith}
use backend.Conversion.{FileStatus, ConversionFile}
use backend.Conversion.Rollup.{is_terminal_file}

-- How far a file is.
abbrev pub progress : FileStatus → ℕ
progress FileStatus.uploading = 0
progress FileStatus.ready = 1
progress FileStatus.queued = 2
progress FileStatus.processing = 3
progress FileStatus.completed = 4
progress _ = 5

-- From one state of a file to a later one: it is the same upload, its attempt does not fall and its
-- status does not go back; once it is finished, its status stays, unless it was completed and
-- expires, and its result stays.
pub record Keeps (f g : ConversionFile) : Type 0 where
  pub same_id : g.id ≡ f.id
  pub same_batch : g.batch_id ≡ f.batch_id
  pub same_input : g.input_key ≡ f.input_key
  pub attempts : f.attempt ≤ g.attempt
  pub forward : progress f.status ≤ progress g.status
  pub settled :
      (is_terminal_file f.status ≡ false)
      ⊎ (g.status ≡ f.status)
      ⊎ ((f.status ≡ FileStatus.completed) × (g.status ≡ FileStatus.expired))
  pub output :
      (is_terminal_file f.status ≡ false)
      ⊎ ((g.output_key ≡ f.output_key)
          × (g.preview_key ≡ f.preview_key)
          × (g.output_bytes ≡ f.output_bytes)
          × (g.output_checksum ≡ f.output_checksum))
  pub failure : (is_terminal_file f.status ≡ false) ⊎ (g.failure_code ≡ f.failure_code)
  pub finish : (is_terminal_file f.status ≡ false) ⊎ (g.completed_at ≡ f.completed_at)

pub Keeps-refl : (f : ConversionFile) → Keeps f f
Keeps-refl f = ground arith

pub Keeps-trans : (f g h : ConversionFile) → Keeps f g → Keeps g h → Keeps f h
Keeps-trans f g h j k = ground arith
