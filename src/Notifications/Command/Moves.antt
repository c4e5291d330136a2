-- ===== src/Notifications/Command/Moves.antt =====
-- Each step on the table of deliveries is a sequence of updates that keep what was written, and of
-- inserts.
use backend.Prelude.{
  ℕ, ◌≤◌, ◌≡◌, ◌⊎◌, inl, inr, Bool, true, false, List, [], ◌∷◌, ◌++◌, Option, none, some, ◌==◌,
  arith, Option-cases, update_many, find_unique, any,
}
use backend.Notifications.Feedback.{SesFeedback, FeedbackEvent, delivery_status}
use backend.Notifications.Revision.{EventRevision}
use backend.Notifications.Delivery.{
  EmailDelivery, record_provider_acceptance, apply_delivery_transition, store_event,
  awaits_submission, awaits_answer, accept_submission, accept_command, is_transitioned,
}
use backend.Notifications.Command.{
  SesSubmissionResult, sent, fails, rejects, leaves_unknown, expired_lease_filter,
  expired_lease_update, expire_stale_claims, expire_claim, claim_delivery, claim_attempt,
  is_pending, is_unattempted, mark_attempted, is_expired_claim, new_delivery,
  SendSecurityEmailRequest,
}
use backend.Notifications.Destination.{RecipientHash, EmailDestination}
use backend.Notifications.Command.Steps.{
  attach_message, has_no_message, set_message, is_unsubmitted, set_submitted, takes_outcome,
  set_outcome, is_unanswered, set_answer, may_attach, replace_status, persist_provider_outcome,
  record_result, finalize_submission, attach_provider_message_id, Step, claims, attempts, finalizes,
  expires, sweeps, attaches, accepts, transitions,
}

-- A column that is written at most once.
abbrev pub Once {ℓ} : {A : Type ℓ} → Option A → Option A → Type ℓ
Once before after = (before ≡ none) ⊎ (after ≡ before)

-- From one state of a delivery to a later one: it is the same command; the answer to the caller, the
-- provider's message id and the time of submission do not change once they are set; it does not
-- become pending again, and attempts are not taken back.
pub record Keeps (d e : EmailDelivery) : Type 0 where
  pub same_id : e.id ≡ d.id
  pub same_request : e.request_id ≡ d.request_id
  pub same_recipient : e.recipient_hash ≡ d.recipient_hash
  pub same_token : e.token_fingerprint ≡ d.token_fingerprint
  pub answer : Once d.caller_result e.caller_result
  pub answer_code : (d.caller_result ≡ none) ⊎ (e.caller_result_code ≡ d.caller_result_code)
  pub message : Once d.provider_message_id e.provider_message_id
  pub submitted : Once d.submitted_at e.submitted_at
  pub settled : (is_pending d.status ≡ true) ⊎ (is_pending e.status ≡ false)
  pub attempted : d.attempt_count ≤ e.attempt_count

pub Keeps-refl : (d : EmailDelivery) → Keeps d d
Keeps-refl d = ground arith

pub Keeps-trans : (c d e : EmailDelivery) → Keeps c d → Keeps d e → Keeps c e
Keeps-trans c d e h k = ground arith

-- A change of the table by updates that keep each row they take, and by new rows.
pub data Moves : List EmailDelivery → List EmailDelivery → Type 0 where
  stay : {ds : List EmailDelivery} → Moves ds ds
  edit :
      {ds : List EmailDelivery} (p : EmailDelivery → Bool) (new : EmailDelivery → EmailDelivery)
      → ((d : EmailDelivery) → p d ≡ true → Keeps d (new d))
      → Moves ds (update_many p new ds)
  add :
      {ds : List EmailDelivery} (d : EmailDelivery)
      → any (λ (c : EmailDelivery). c.id == d.id) ds ≡ false
      → Moves ds (ds ++ d ∷ [])
  seq : {ds es fs : List EmailDelivery} → Moves ds es → Moves es fs → Moves ds fs

delivery_status-settles : (e : FeedbackEvent) → is_pending (delivery_status e) ≡ false
unfolding delivery_status
delivery_status-settles e = ground arith

module _ (ds : List EmailDelivery) (id : ℕ) where
  attach-Moves :
      (m now : ℕ) (ds' : List EmailDelivery) → attach_message id m now ds ≡ some ds' → Moves ds ds'
  unfolding attach_message
  attach-Moves m now ds' h =
      let attached = update_many (has_no_message id) (set_message m) ds in
      let same : update_many (is_unsubmitted id) (set_submitted now) attached ≡ ds' =
        ground arith in
      rw (← same) (
        seq {es = attached} (edit (has_no_message id) (set_message m) (λ d e. ground arith))
          (edit (is_unsubmitted id) (set_submitted now) (λ d e. ground arith)))

  replace-Moves : (s : SesSubmissionResult) → Moves ds (replace_status id s ds)
  unfolding replace_status
  replace-Moves s = edit (takes_outcome id s) (set_outcome s) (λ d e. ground arith)

  answer-Moves : (s : SesSubmissionResult) (now : ℕ) → Moves ds (record_result id s now ds)
  unfolding record_result
  answer-Moves s now = edit (is_unanswered id) (set_answer s now) (λ d e. ground arith)

module _ (ds : List EmailDelivery) (id : ℕ) where
  other-Moves :
      (s : SesSubmissionResult) (ds' : List EmailDelivery)
      → replace_status id s ds ≡ ds'
      → Moves ds ds'
  other-Moves s ds' same = rw (← same) (replace-Moves ds id s)

  persist-Moves :
      (s : SesSubmissionResult) (now : ℕ) (ds' : List EmailDelivery)
      → persist_provider_outcome id s now ds ≡ some ds'
      → Moves ds ds'
  unfolding persist_provider_outcome
  persist-Moves (sent m) now ds' h = elim (Option-cases (attach_message id m now ds)) [
    | inl e ↦ ground arith
    | inr (es, e) ↦
        let same : replace_status id (sent m) es ≡ ds' = ground arith in
        rw (← same) (seq {es = es} (attach-Moves ds id m now es e) (replace-Moves es id (sent m)))
  ]
  persist-Moves (fails c) now ds' h = other-Moves (fails c) ds' (ground arith)
  persist-Moves (rejects c) now ds' h = other-Moves (rejects c) ds' (ground arith)
  persist-Moves (leaves_unknown c) now ds' h = other-Moves (leaves_unknown c) ds' (ground arith)

  finalize-Moves :
      (s : SesSubmissionResult) (now : ℕ) (ds' : List EmailDelivery)
      → finalize_submission id s now ds ≡ some ds'
      → Moves ds ds'
  unfolding finalize_submission
  finalize-Moves s now ds' h = elim (Option-cases (persist_provider_outcome id s now ds)) [
    | inl e ↦ ground arith
    | inr (es, e) ↦
        let same : record_result id s now es ≡ ds' = ground arith in
        rw (← same) (seq {es = es} (persist-Moves s now es e) (answer-Moves es id s now))
  ]

  accept-Moves :
      (now : ℕ) (feedback : SesFeedback) → Moves ds (record_provider_acceptance now id feedback ds)
  unfolding record_provider_acceptance accept_submission accept_command
  accept-Moves now feedback =
      let es = update_many (awaits_submission id) (accept_submission feedback) ds in
      seq {es = es} (edit (awaits_submission id) (accept_submission feedback) (λ d e. ground arith))
        (edit (awaits_answer id) (accept_command now) (λ d e. ground arith))

  expire-Moves : (now : ℕ) → Moves ds (expire_claim id now ds)
  unfolding expire_claim expired_lease_filter expired_lease_update
  expire-Moves now = edit (is_expired_claim id now) (expired_lease_update now) (λ d e. ground arith)

  attempt-Moves : Moves ds (claim_attempt id ds).0
  unfolding claim_attempt
  attempt-Moves = edit (is_unattempted id) mark_attempted (λ d e. ground arith)

  provider-Moves :
      (m : ℕ) (ds' : List EmailDelivery)
      → attach_provider_message_id id m ds ≡ some ds'
      → Moves ds ds'
  unfolding attach_provider_message_id
  provider-Moves m ds' h =
      let same : update_many (may_attach id m) (set_message m) ds ≡ ds' = ground arith in
      rw (← same) (edit (may_attach id m) (set_message m) (λ d e. ground arith))

  transition-Moves :
      (feedback : SesFeedback) (revision : EventRevision)
      → Moves ds (apply_delivery_transition id feedback revision ds)
  unfolding apply_delivery_transition store_event
  transition-Moves feedback revision =
      edit (is_transitioned id feedback revision) (store_event feedback revision)
        (λ d e. ground (arith, delivery_status-settles feedback.event))

sweep-Moves : (now : ℕ) (ds : List EmailDelivery) → Moves ds (expire_stale_claims now ds)
unfolding expire_stale_claims expired_lease_filter expired_lease_update
sweep-Moves now ds =
    edit (expired_lease_filter now) (expired_lease_update now) (λ d e. ground arith)

claim-Moves :
    (fingerprint : ℕ → ℕ) (new_id : List EmailDelivery → ℕ) (request : SendSecurityEmailRequest)
    (h : RecipientHash) (hashes : List RecipientHash) (now lease_ms : ℕ)
    (destinations : List EmailDestination) (ds : List EmailDelivery)
    → any (λ (d : EmailDelivery). d.id == new_id ds) ds ≡ false
    → Moves ds (claim_delivery fingerprint new_id request h hashes now lease_ms destinations ds).1
unfolding claim_delivery new_delivery
claim-Moves fingerprint new_id request h hashes now lease_ms destinations ds fresh =
    elim (Option-cases
      (find_unique (λ (d : EmailDelivery). d.request_id == request.request_id) ds)) [
        | inl e ↦ rw (e, claim_delivery) (add _ fresh)
        | inr (d, e) ↦ rw (e, claim_delivery) stay
      ]

pub Step-Moves : {ds es : List EmailDelivery} → Step ds es → Moves ds es
Step-Moves {ds = ds} (claims fingerprint new_id request h hashes now lease_ms destinations fresh) =
    claim-Moves fingerprint new_id request h hashes now lease_ms destinations ds fresh
Step-Moves {ds = ds} (attempts id) = attempt-Moves ds id
Step-Moves {ds = ds} (finalizes id s now es h) = finalize-Moves ds id s now es h
Step-Moves {ds = ds} (expires id now) = expire-Moves ds id now
Step-Moves {ds = ds} (sweeps now) = sweep-Moves now ds
Step-Moves {ds = ds} (attaches id m es h) = provider-Moves ds id m es h
Step-Moves {ds = ds} (accepts now id feedback) = accept-Moves ds id now feedback
Step-Moves {ds = ds} (transitions id feedback revision) = transition-Moves ds id feedback revision
