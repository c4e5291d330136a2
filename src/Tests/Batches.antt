-- ===== src/Tests/Batches.antt =====
-- A batch of two files, one done and one at work.
use mathlib.Core.List.{Memᴰ}
use backend.Prelude.{
  arith, ◌⊎◌, inl, inr, ℕ, ◌≡◌, refl, false, sym, ◌∙◌, [], ◌∷◌, map, none, some, any, find_many,
  if◌then◌else◌,
}
use backend.Conversion.{
  BatchStatus, FileStatus, lossy, low, free, input_object_key, ConversionBatch, ConversionFile,
  Tables,
}
use backend.Conversion.Rollup.{roll_up_batch, is_unfinished, in_batch}
use backend.Conversion.Rollup.Outcome.{settle, roll_up_batch-outcome}
use backend.Conversion.Events.{EventIdentity, fails, apply_result}
use backend.Conversion.Retention.{expire_batch}
use backend.Conversion.Steps.{Reach, here, next, finishes, expires, creates}
use backend.Conversion.Uploads.{CreateBatchInput, Fresh, create_batch}
use backend.Conversion.Quota.Room.{IsKeyed}
use backend.Conversion.Consistency.{IsConsistent}
use backend.Conversion.Settled.{Reach-IsConsistent}
use backend.Conversion.Keeps.{Keeps}
use backend.Conversion.History.{Later, now, after, Later-Keeps}

abbrev pub batch : BatchStatus → ConversionBatch
batch status = record {
  id = 1;
  subject = 7;
  batch_token_hash = none;
  idempotency_key = 3;
  plan_code = free;
  plan_revision = 1;
  mode = lossy;
  strength = low;
  status = status;
  file_count = 2;
  expires_at = 1000;
}

abbrev pub file : ℕ → FileStatus → ConversionFile
file id status = record {
  id = id;
  batch_id = 1;
  status = status;
  input_key = input_object_key 1 id;
  input_etag = some 4;
  output_key = none;
  preview_key = none;
  input_format = none;
  output_format = none;
  input_bytes = some 100;
  output_bytes = some 60;
  output_checksum = none;
  result_kind = none;
  width = none;
  height = none;
  frame_count = none;
  attempt = 0;
  failure_code = none;
  started_at = none;
  completed_at = none;
  expires_at = 1000;
}

abbrev at_work : Tables
at_work = record {
  batches = batch BatchStatus.processing ∷ [];
  files = file 10 FileStatus.completed ∷ file 11 FileStatus.processing ∷ [];
}

abbrev failure : EventIdentity
failure = record { file_id = 11; batch_id = 1; attempt = 1 }

abbrev finished : Tables
finished = apply_result failure (fails 9) 20 at_work

abbrev swept : Tables
swept = expire_batch 2000 1 finished

swept-Reach : Reach at_work swept
swept-Reach = next (next here (finishes failure (fails 9) 20)) (expires 2000 1)

at_work-IsConsistent : IsConsistent at_work
unfolding IsConsistent
at_work-IsConsistent = (refl, tt)

Reach-IsConsistent_example : IsConsistent swept
Reach-IsConsistent_example = Reach-IsConsistent at_work swept swept-Reach at_work-IsConsistent

-- A new batch, whose file has another identifier.
abbrev input : CreateBatchInput
input = record {
  subject = 7;
  is_anonymous = false;
  idempotency_key = 5;
  file_count = 1;
  mode = lossy;
  strength = low;
  batch_token = none;
}

abbrev fresh : Fresh
fresh = record { batch_id = 2; file_ids = 12 ∷ []; token = 77 }

abbrev grown : Tables
grown = (create_batch (λ x. x) input free 1 10 2100 fresh swept).1

grown-Later : Later at_work grown
unfolding apply_result expire_batch roll_up_batch
grown-Later =
    after (after (after now (finishes failure (fails 9) 20) refl) (expires 2000 1) refl)
      (creates (λ x. x) input free 1 10 2100 fresh refl refl) refl

one_of :
    (f : ConversionFile)
    → Memᴰ f at_work.files
    → (f ≡ file 10 FileStatus.completed) ⊎ (f ≡ file 11 FileStatus.processing)
one_of f (Memᴰ.head e) = inl e
one_of f (Memᴰ.tail (Memᴰ.head e)) = inr e
one_of f (Memᴰ.tail (Memᴰ.tail m)) = elim m [ ]

at_work-IsKeyed : IsKeyed at_work.files
at_work-IsKeyed f g m n e = elim (one_of f m) [
  | inl i ↦ elim (one_of g n) [ inl j ↦ i ∙ sym j | inr j ↦ absurd (ground arith) ]
  | inr i ↦ elim (one_of g n) [ inl j ↦ absurd (ground arith) | inr j ↦ i ∙ sym j ]
]

abbrev done_expired : ConversionFile
done_expired = record (file 10 FileStatus.completed) { status = FileStatus.expired }

Later-Keeps_example : Keeps (file 10 FileStatus.completed) done_expired
unfolding apply_result expire_batch create_batch roll_up_batch
Later-Keeps_example =
    Later-Keeps at_work grown (file 10 FileStatus.completed) done_expired at_work-IsKeyed
      grown-Later (Memᴰ.head refl) (Memᴰ.head refl) refl

roll_up_batch-outcome_example :
    (roll_up_batch 1 (file 10 FileStatus.completed ∷ []) (batch BatchStatus.queued ∷ [])).1 ≡ (
      if any is_unfinished (find_many (in_batch 1) (file 10 FileStatus.completed ∷ []))
      then batch BatchStatus.queued ∷ []
      else map
          (settle 1 (find_many (in_batch 1) (file 10 FileStatus.completed ∷ [])))
          (batch BatchStatus.queued ∷ []))
roll_up_batch-outcome_example =
    roll_up_batch-outcome 1 (file 10 FileStatus.completed ∷ []) (batch BatchStatus.queued ∷ [])
