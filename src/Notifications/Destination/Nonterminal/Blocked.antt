-- ===== src/Notifications/Destination/Nonterminal/Blocked.antt =====
-- Feedback that closes no mailbox neither blocks an address nor lifts a block.
use mathlib.Core.List.{append-nil}
use backend.Prelude.{
  ℕ, ◌≡◌, refl, ◌∙◌, ◌⊎◌, inl, inr, Bool, true, false, ltb, List, [], ◌∷◌, Option, none, some,
  arith, Bool-cases, Option-cases, All-pointwise, length, update_many, find_many, find_unique,
  find_many-update_many, find_many-append,
}
use backend.Notifications.Feedback.{
  SesFeedback, FeedbackEvent, EmailDestinationStatus, active, temporary_failure, destination_status,
  delivery, delivery_delay, bounce,
}
use backend.Notifications.Revision.{EventRevision}
use backend.Notifications.Destination.{
  RecipientHash, EmailDestination, has_key, is_blocked, first_in_order,
  find_authoritative_destination,
}
use backend.Notifications.Destination.Nonterminal.{
  record_event, new_nonterminal, create_if_missing, update_nonterminal_destination,
  update_nonterminal_each, is_unblocked_alias, converge_row, converge_nonterminal_aliases,
}

-- A status that such feedback gives.
abbrev pub IsOpen : EmailDestinationStatus → Type 0
IsOpen status = (status ≡ active) ⊎ (status ≡ temporary_failure)

pub destination_status-IsOpen :
    (e : FeedbackEvent) {status : EmailDestinationStatus}
    → destination_status e ≡ some status
    → IsOpen status
unfolding destination_status
destination_status-IsOpen delivery h = ground arith
destination_status-IsOpen (delivery_delay _) h = ground arith
destination_status-IsOpen (bounce _ _ _) h = ground arith
destination_status-IsOpen _ h = cc

-- The blocked rows of the table.
abbrev pub blocked : List EmailDestination → List EmailDestination
blocked = find_many is_blocked

create_if_missing-blocked :
    (h : RecipientHash) (new : EmailDestination) (ds : List EmailDestination)
    → is_blocked new ≡ false
    → blocked (create_if_missing h new ds) ≡ blocked ds
unfolding create_if_missing
create_if_missing-blocked h new ds b = elim (Option-cases (find_unique (has_key h) ds)) [
  | inl e ↦
      rw (e, create_if_missing)
        (find_many-append is_blocked ds (new ∷ []) ∙ rw b (append-nil (blocked ds)))
  | inr (d, e) ↦ rw (e, create_if_missing)
]

module _ (new_id : List EmailDestination → ℕ) (delivery_id event_id : ℕ) (feedback : SesFeedback)
    (revision : EventRevision) (status : EmailDestinationStatus) (open? : IsOpen status) where
  new-unblocked :
      (id : ℕ) (h : RecipientHash)
      → is_blocked (new_nonterminal id h delivery_id event_id feedback revision status) ≡ false
  unfolding new_nonterminal is_blocked
  new-unblocked id h = ground arith

  event-unblocked :
      (d : EmailDestination)
      → is_blocked (record_event delivery_id event_id feedback revision status d) ≡ false
  unfolding record_event is_blocked
  event-unblocked d = ground arith

  update-blocked :
      (h : RecipientHash) (ds : List EmailDestination)
      → blocked
          (update_nonterminal_destination new_id h delivery_id event_id feedback revision status ds)
        ≡ blocked ds
  unfolding update_nonterminal_destination
  update-blocked h ds =
      find_many-update_many _ is_blocked _ _
        (All-pointwise _ (λ x k. (ground arith, event-unblocked x)) _)
      ∙ create_if_missing-blocked h _ ds (new-unblocked (new_id ds) h)

  pub each-blocked :
      (hs : List RecipientHash) (ds : List EmailDestination)
      → blocked (update_nonterminal_each new_id hs delivery_id event_id feedback revision status ds)
        ≡ blocked ds
  unfolding update_nonterminal_each
  each-blocked [] ds = refl
  each-blocked (h ∷ hs) ds = each-blocked hs _ ∙ update-blocked h ds

abbrev met : (EmailDestination → Bool) → Option EmailDestination → Bool
met p none = true
met p (some a) = p a

first_in_order-met :
    (p : EmailDestination → Bool) (ds : List EmailDestination)
    → met p (first_in_order (find_many p ds)) ≡ true
unfolding first_in_order
first_in_order-met p [] = refl
first_in_order-met p (d ∷ ds) = ground (arith, first_in_order-met p ds)

authoritative-unblocked :
    (hashes : List RecipientHash) (ds : List EmailDestination) (a : EmailDestination)
    → find_authoritative_destination (is_unblocked_alias hashes) ds ≡ some a
    → is_blocked a ≡ false
unfolding find_authoritative_destination
authoritative-unblocked hashes ds a e =
    ground (arith, e, first_in_order-met (is_unblocked_alias hashes) ds)

converge_row-blocked : (a d : EmailDestination) → is_blocked (converge_row a d) ≡ is_blocked a
unfolding converge_row is_blocked
converge_row-blocked a d = refl

pub converge-blocked :
    (hashes : List RecipientHash) (ds ds' : List EmailDestination)
    → converge_nonterminal_aliases hashes ds ≡ some ds'
    → blocked ds' ≡ blocked ds
unfolding converge_nonterminal_aliases
converge-blocked hashes ds ds' h = elim (Bool-cases (ltb (length hashes) 2)) [
  | inl few ↦ let same : ds ≡ ds' = ground arith in rw (← same)
  | inr many ↦ elim (Option-cases (find_authoritative_destination (is_unblocked_alias hashes) ds)) [
    | inl e ↦ cc
    | inr (a, e) ↦
        let same : update_many (is_unblocked_alias hashes) (converge_row a) ds ≡ ds' =
          ground arith in
        rw (← same) (
          find_many-update_many _ is_blocked _ ds (
            All-pointwise _
              (λ x k.
                (ground arith, converge_row-blocked a x ∙ authoritative-unblocked hashes ds a e))
              ds))
  ]
]
