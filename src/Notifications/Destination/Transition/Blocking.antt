-- ===== src/Notifications/Destination/Transition/Blocking.antt =====
-- Which feedback can block an address, and which cannot touch a block.
use backend.Prelude.{
  ℕ, ◌≡◌, ◌∙◌, inl, inr, true, false, ◌&&◌, List, some, arith, any, Bool-cases, Option-cases,
}
use backend.Notifications.Feedback.{
  SesFeedback, EmailDestinationStatus, is_terminal_mailbox_event, destination_status,
}
use backend.Notifications.Revision.{EventRevision}
use backend.Notifications.Destination.{RecipientHash, EmailDestination, is_alias, is_blocked}
use backend.Notifications.Destination.Nonterminal.{
  update_nonterminal_each, converge_nonterminal_aliases,
}
use backend.Notifications.Destination.Nonterminal.Blocked.{
  IsOpen, destination_status-IsOpen, blocked, each-blocked, converge-blocked,
}
use backend.Notifications.Destination.Transition.{apply_nonterminal, apply_destination_transition}

nonterminal-blocked :
    (new_id : List EmailDestination → ℕ) (hashes : List RecipientHash) (delivery_id event_id : ℕ)
    (feedback : SesFeedback) (revision : EventRevision) (next : EmailDestinationStatus)
    (ds ds' : List EmailDestination)
    → IsOpen next
    → apply_nonterminal new_id hashes delivery_id event_id feedback revision next ds ≡ some ds'
    → blocked ds' ≡ blocked ds
unfolding apply_nonterminal
nonterminal-blocked new_id hashes delivery_id event_id feedback revision next ds ds' o h =
    elim (Bool-cases (any (λ d. is_blocked d && is_alias hashes d) ds)) [
      | inl some_blocked ↦ let same : ds ≡ ds' = ground arith in rw (← same)
      | inr none_blocked ↦
          let each =
            update_nonterminal_each new_id hashes delivery_id event_id feedback revision next ds in
          let converged : converge_nonterminal_aliases hashes each ≡ some ds' = ground arith in
          converge-blocked hashes each ds' converged
          ∙ each-blocked new_id delivery_id event_id feedback revision next o hashes ds
    ]

-- Feedback that closes no mailbox leaves every blocked row of the table (suppressed or in recovery)
-- exactly as it was, and blocks no row that was not blocked: the list of blocked rows is the same.
pub open_feedback-blocked :
    (new_id : List EmailDestination → ℕ) (hashes : List RecipientHash) (delivery_id event_id : ℕ)
    (feedback : SesFeedback) (revision : EventRevision) (ds ds' : List EmailDestination)
    → is_terminal_mailbox_event feedback.event ≡ false
    → apply_destination_transition new_id hashes delivery_id event_id feedback revision ds
      ≡ some ds'
    → blocked ds' ≡ blocked ds
unfolding apply_destination_transition
open_feedback-blocked new_id hashes delivery_id event_id feedback revision ds ds' t h =
    elim (Option-cases (destination_status feedback.event)) [
      | inl e ↦ let same : ds ≡ ds' = ground arith in rw (← same)
      | inr (next, e) ↦
          let applied : apply_nonterminal new_id hashes delivery_id event_id feedback revision next
                ds
              ≡ some ds' =
            ground arith in
          nonterminal-blocked new_id hashes delivery_id event_id feedback revision next ds ds'
            (destination_status-IsOpen feedback.event e) applied
    ]

-- Feedback about an address of which some row is blocked changes no row at all, unless it closes the
-- mailbox: a late delivery does not lift a suppression.
pub open_feedback-after_block :
    (new_id : List EmailDestination → ℕ) (hashes : List RecipientHash) (delivery_id event_id : ℕ)
    (feedback : SesFeedback) (revision : EventRevision) (ds : List EmailDestination)
    → is_terminal_mailbox_event feedback.event ≡ false
    → any (λ d. is_blocked d && is_alias hashes d) ds ≡ true
    → apply_destination_transition new_id hashes delivery_id event_id feedback revision ds ≡ some ds
unfolding apply_destination_transition apply_nonterminal
open_feedback-after_block new_id hashes delivery_id event_id feedback revision ds t b = ground arith
