-- ===== src/Worker/Handle/Order.antt =====
-- The order of the calls of `handle`: the message goes last, after its result.
use backend.Prelude.{
  ℕ, ◌≡◌, ◌⊎◌, refl, Bool, true, false, List, [], ◌∷◌, ◌++◌, Option, none, some, any, Bool-cases,
  Option-cases, inl, inr, ap, ◌∙◌, arith,
}
use backend.Conversion.{ObjectKey, Mode, Strength, preview_object_key}
use backend.Conversion.Events.{EventIdentity, Outcome, completes, result}
use backend.Conversion.Admission.{ConversionRequest}
use backend.Worker.Image.Bytes.{Bytes}
use backend.Worker.Image.Compress.{FailureCode, Compressed, CompressionResult}
use backend.Worker.Handle.{
  Action, publishes, puts_output, deletes_message, InputAnswer, reads, is_broken, throws_other,
  Services, after, stored, publish_failure, publish_completion, completion_of, store_preview,
  convert, identity_of, handle,
}

abbrev pub deletes : Action → Bool
deletes deletes_message = true
deletes _ = false

-- The calls end with the publication of a result and the deletion.
abbrev pub EndsWithResult : EventIdentity → List Action → Type 0
EndsWithResult e actions =
    (before : List Action) × (o : Outcome) × (any deletes before ≡ false)
    × (actions ≡ before ++ publishes (result e o) ∷ deletes_message ∷ [])

pub CompressionResult-cases :
    (r : CompressionResult)
    → ((code : FailureCode) × (r ≡ CompressionResult.fails code))
      ⊎ ((c : Compressed) × (r ≡ CompressionResult.succeeds c))
CompressionResult-cases (CompressionResult.fails code) = inl (code, refl)
CompressionResult-cases (CompressionResult.succeeds c) = inr (c, refl)

pub InputAnswer-cases :
    (a : InputAnswer)
    → ((input : Bytes) × (a ≡ reads input))
      ⊎ ((code : ℕ) × (a ≡ is_broken code))
      ⊎ (a ≡ throws_other)
InputAnswer-cases (reads input) = inl (input, refl)
InputAnswer-cases (is_broken code) = inr (inl (code, refl))
InputAnswer-cases throws_other = inr (inr refl)

after-EndsWithResult :
    (s : Services) (e : EventIdentity) (a : Action) (rest : List Action)
    → deletes a ≡ false
    → (any deletes rest ≡ true → EndsWithResult e rest)
    → any deletes (after s a rest) ≡ true
    → EndsWithResult e (after s a rest)
after-EndsWithResult s e a rest f h k = elim (Bool-cases (s.succeeds a)) [
  | inr g ↦ absurd (ground (arith, k, g))
  | inl g ↦
      let (before, o, none_before, shape) = h (ground (arith, k, g, f)) in
      let goes : after s a rest ≡ a ∷ rest = rw g refl in
      (a ∷ before, o, ground (arith, f, none_before), goes ∙ ap (λ xs. a ∷ xs) shape)
]

publish-EndsWithResult :
    (s : Services) (e : EventIdentity) (o : Outcome)
    → let actions = after s (publishes (result e o)) (after s deletes_message []) in
      any deletes actions ≡ true → EndsWithResult e actions
publish-EndsWithResult s e o h = ([], o, refl, ground (arith, h))

store_preview-EndsWithResult :
    (s : Services) (e : EventIdentity) (c : Compressed)
    → any deletes (store_preview s e c) ≡ true
    → EndsWithResult e (store_preview s e c)
unfolding store_preview
store_preview-EndsWithResult s e c h =
    let key = preview_object_key e.batch_id e.file_id e.attempt in
    let publish : (pk : Option ObjectKey)
        → any deletes (publish_completion s e c pk) ≡ true
        → EndsWithResult e (publish_completion s e c pk) =
      λ pk. publish-EndsWithResult s e (completes (completion_of s e c pk)) in
    elim (Option-cases (s.preview c.bytes)) [
      | inl f ↦ rw (store_preview, f) (publish none (rw (store_preview, f) at h))
      | inr (p, f) ↦ elim (Bool-cases (s.succeeds (puts_output key (stored s p)))) [
        | inr g ↦ rw (store_preview, f) (rw g (publish none (rw g at (rw (store_preview, f) at h))))
        | inl g ↦
            let (before, o, none_before, shape) =
              publish (some key) (rw g at (rw (store_preview, f) at h)) in
            rw (store_preview, f)
              (rw g (
                puts_output key (stored s p) ∷ before,
                o,
                none_before,
                ap (λ xs. puts_output key (stored s p) ∷ xs) shape,
              ))
      ]
    ]

convert-EndsWithResult :
    (s : Services) (e : EventIdentity) (input : Bytes) (mode : Mode) (strength : Strength)
    → any deletes (convert s e input mode strength) ≡ true
    → EndsWithResult e (convert s e input mode strength)
unfolding convert
convert-EndsWithResult s e input mode strength h =
    elim (CompressionResult-cases (s.compress input mode strength)) [
      | inl (code, f) ↦
          rw (convert, f)
            (publish-EndsWithResult s e (Outcome.fails (s.failure_name code))
              (rw (convert, f) at h))
      | inr (c, f) ↦
          rw (convert, f)
            (after-EndsWithResult s e _ (store_preview s e c) refl
              (store_preview-EndsWithResult s e c) (rw (convert, f) at h))
    ]

-- When a delivery of a request leads to the deletion of its message, the deletion is the last call,
-- and the one before it publishes the result of that request and delivery.
pub handle-EndsWithResult :
    (s : Services) (request : ConversionRequest) (attempt : ℕ)
    → any deletes (handle s (some request) attempt) ≡ true
    → EndsWithResult (identity_of request attempt) (handle s (some request) attempt)
unfolding handle
handle-EndsWithResult s request attempt h =
    let e = identity_of request attempt in
    elim (Option-cases request.input_etag) [
      | inl f ↦ absurd (ground (arith, h, f))
      | inr (etag, f) ↦ elim (InputAnswer-cases (s.get_input request.input_key etag)) [
        | inl (input, g) ↦ rw f (
            rw g (
              after-EndsWithResult s e _ (convert s e input request.mode request.strength) refl
                (convert-EndsWithResult s e input request.mode request.strength)
                (rw g at (rw f at h))))
        | inr (inl (code, g)) ↦ rw f (
            rw g (
              after-EndsWithResult s e _ (publish_failure s e code) refl
                (publish-EndsWithResult s e (Outcome.fails code)) (rw g at (rw f at h))))
        | inr (inr g) ↦
            rw f
              (rw g (after-EndsWithResult s e _ [] refl (λ k. absurd (cc)) (rw g at (rw f at h))))
      ]
    ]
