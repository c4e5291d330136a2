-- ===== src/Worker/Handle/Accepted.antt =====
-- The API applies what the worker publishes: a completion names the objects that the worker has put,
-- so that `verifiedCompletion` of worker-event-processor.service.ts holds of it.
use backend.Prelude.{
  ℕ, ◌≡◌, ◌⊎◌, refl, inl, inr, true, false, List, [], ◌∷◌, Option, none, some, All, Bool-cases,
  Option-cases, if◌then◌else◌, arith, is_null,
}
use backend.Conversion.{
  ObjectKey, output_object_key, preview_object_key, same_key, Tables, Mode, Strength,
}
use backend.Conversion.Events.{
  EventIdentity, completes, started, result, StoredObject, is_verified, apply,
}
use backend.Conversion.Admission.{ConversionRequest}
use backend.Worker.Image.Bytes.{Bytes}
use backend.Worker.Image.Compress.{Compressed, CompressionResult}
use backend.Worker.Handle.{
  Action, publishes, puts_output, Services, after, stored, publish_failure, publish_completion,
  completion_of, store_preview, convert, identity_of, handle,
}
use backend.Worker.Handle.Order.{CompressionResult-cases, InputAnswer-cases}

-- What the object store has for a key after the calls: what was put last.
abbrev pub stored_by : List Action → ObjectKey → Option StoredObject
stored_by [] key = none
stored_by (puts_output k o ∷ actions) key = elim (stored_by actions key) [
  | some later ↦ some later
  | none ↦ if same_key k key then some o else none
]
stored_by (_ ∷ actions) key = stored_by actions key

-- The API's processor does not throw on the event.
abbrev pub IsAccepted : (ObjectKey → Option StoredObject) → Action → Type 0
IsAccepted head (publishes event) =
    (now : ℕ) (t : Tables) → is_null (apply head event now t) ≡ false
IsAccepted head _ = Unit

completion-IsAccepted :
    (head : ObjectKey → Option StoredObject) (s : Services) (e : EventIdentity) (c : Compressed)
    (preview_key : Option ObjectKey)
    → head (output_object_key e.batch_id e.file_id e.attempt) ≡ some (stored s c.bytes)
    → (preview_key ≡ none)
      ⊎ (preview_key ≡ some (preview_object_key e.batch_id e.file_id e.attempt))
    → IsAccepted head (publishes (result e (completes (completion_of s e c preview_key))))
unfolding apply is_verified
completion-IsAccepted head s e c preview_key there (inl none_stored) now t =
    ground (arith, there, none_stored)
completion-IsAccepted head s e c preview_key there (inr some_stored) now t =
    ground (arith, there, some_stored)

All-after :
    (P : Action → Type 0) (s : Services) (a : Action) (rest : List Action)
    → P a
    → (s.succeeds a ≡ true → All P rest)
    → All P (after s a rest)
All-after P s a rest h k = elim (Bool-cases (s.succeeds a)) [
  | inl e ↦ rw e (h, k e)
  | inr e ↦ rw e tt
]

failure-IsAccepted :
    (head : ObjectKey → Option StoredObject) (s : Services) (e : EventIdentity) (code : ℕ)
    → All (IsAccepted head) (publish_failure s e code)
unfolding apply
failure-IsAccepted head s e code =
    All-after _ s _ _ (λ now t. refl) (λ _. All-after _ s _ [] tt (λ _. tt))

publish_completion-IsAccepted :
    (head : ObjectKey → Option StoredObject) (s : Services) (e : EventIdentity) (c : Compressed)
    (preview_key : Option ObjectKey)
    → head (output_object_key e.batch_id e.file_id e.attempt) ≡ some (stored s c.bytes)
    → (preview_key ≡ none)
      ⊎ (preview_key ≡ some (preview_object_key e.batch_id e.file_id e.attempt))
    → All (IsAccepted head) (publish_completion s e c preview_key)
publish_completion-IsAccepted head s e c preview_key there h =
    All-after _ s _ _ (completion-IsAccepted head s e c preview_key there h)
      (λ _. All-after _ s _ [] tt (λ _. tt))

store_preview-IsAccepted :
    (head : ObjectKey → Option StoredObject) (s : Services) (e : EventIdentity) (c : Compressed)
    → head (output_object_key e.batch_id e.file_id e.attempt) ≡ some (stored s c.bytes)
    → All (IsAccepted head) (store_preview s e c)
unfolding store_preview
store_preview-IsAccepted head s e c there =
    let key = preview_object_key e.batch_id e.file_id e.attempt in
    let without = publish_completion-IsAccepted head s e c none there (inl refl) in
    elim (Option-cases (s.preview c.bytes)) [
      | inl f ↦ rw (store_preview, f) without
      | inr (p, f) ↦ elim (Bool-cases (s.succeeds (puts_output key (stored s p)))) [
        | inr g ↦ rw (store_preview, f) (rw g without)
        | inl g ↦
            rw (store_preview, f)
              (rw g (tt, publish_completion-IsAccepted head s e c (some key) there (inr refl)))
      ]
    ]

-- The calls after the output's leave it as it is.
stored_by-store_preview :
    (s : Services) (e : EventIdentity) (c : Compressed)
    → stored_by (store_preview s e c) (output_object_key e.batch_id e.file_id e.attempt) ≡ none
unfolding store_preview
stored_by-store_preview s e c = ground arith

convert-IsAccepted :
    (head : ObjectKey → Option StoredObject) (s : Services) (e : EventIdentity) (input : Bytes)
    (mode : Mode) (strength : Strength)
    → ((c : Compressed)
        → s.compress input mode strength ≡ CompressionResult.succeeds c
        → s.succeeds
            (puts_output (output_object_key e.batch_id e.file_id e.attempt) (stored s c.bytes))
          ≡ true
        → head (output_object_key e.batch_id e.file_id e.attempt) ≡ some (stored s c.bytes))
    → All (IsAccepted head) (convert s e input mode strength)
unfolding convert
convert-IsAccepted head s e input mode strength there =
    elim (CompressionResult-cases (s.compress input mode strength)) [
      | inl (code, f) ↦ rw (convert, f) (failure-IsAccepted head s e (s.failure_name code))
      | inr (c, f) ↦
          rw (convert, f)
            (All-after _ s _ (store_preview s e c) tt
              (λ g. store_preview-IsAccepted head s e c (there c f g)))
    ]

stored_by-convert :
    (s : Services) (e : EventIdentity) (input : Bytes) (mode : Mode) (strength : Strength)
    (c : Compressed)
    → let key = output_object_key e.batch_id e.file_id e.attempt in
      s.compress input mode strength ≡ CompressionResult.succeeds c
      → s.succeeds (puts_output key (stored s c.bytes)) ≡ true
      → stored_by (convert s e input mode strength) key ≡ some (stored s c.bytes)
unfolding convert
stored_by-convert s e input mode strength c f g =
    ground (arith, f, g, stored_by-store_preview s e c)

-- Where the object store holds what the calls have put, the API's processor takes every event that
-- a delivery of a request publishes, without an error and in any tables.
pub handle-IsAccepted :
    (s : Services) (request : ConversionRequest) (attempt : ℕ)
    → let actions = handle s (some request) attempt in All (IsAccepted (stored_by actions)) actions
unfolding handle apply
handle-IsAccepted s request attempt =
    let e = identity_of request attempt in
    elim (Option-cases request.input_etag) [
      | inl f ↦ rw (handle, f) tt
      | inr (etag, f) ↦ elim (InputAnswer-cases (s.get_input request.input_key etag)) [
        | inl (input, g) ↦
            let shape : handle s (some request) attempt
                ≡ after s (publishes (started e))
                    (convert s e input request.mode request.strength) =
              rw (handle, f) (rw g refl) in
            rw shape (
              All-after _ s _ _ (λ now t. refl)
                (λ k. convert-IsAccepted _ s e input request.mode request.strength (λ c l m.
                  rw k (stored_by-convert s e input request.mode request.strength c l m))))
        | inr (inl (code, g)) ↦
            rw (handle, f)
              (rw g (All-after _ s _ _ (λ now t. refl) (λ _. failure-IsAccepted _ s e code)))
        | inr (inr g) ↦ rw (handle, f) (rw g (All-after _ s _ [] (λ now t. refl) (λ _. tt)))
      ]
    ]
