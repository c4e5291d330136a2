-- ===== src/Notifications/Destination/Transition.antt =====
-- `applyDestinationTransition` of apps/notifications/src/app/feedback/ses-feedback-transitions.ts.
-- The advisory locks of `lockRecipientAliases` order transactions on one address; within a
-- transaction they change nothing.
pub mod Blocking
use backend.Prelude.{ℕ, Bool, ◌&&◌, List, Option, none, some, any, if◌then◌else◌}
use backend.Notifications.Feedback.{
  SesFeedback, EmailDestinationStatus, is_terminal_mailbox_event, destination_status,
}
use backend.Notifications.Revision.{EventRevision}
use backend.Notifications.Destination.{RecipientHash, EmailDestination, is_alias, is_blocked}
use backend.Notifications.Destination.Suppress.{suppress_destination_aliases}
use backend.Notifications.Destination.Nonterminal.{
  update_nonterminal_each, converge_nonterminal_aliases,
}

module _ (new_id : List EmailDestination → ℕ) where
  -- What follows the lock in the case of an event that closes no mailbox.
  unfoldable pub apply_nonterminal :
      List RecipientHash
      → ℕ
      → ℕ
      → SesFeedback
      → EventRevision
      → EmailDestinationStatus
      → List EmailDestination
      → Option (List EmailDestination)
  apply_nonterminal hashes delivery_id event_id feedback revision next ds =
      if any (λ d. is_blocked d && is_alias hashes d) ds
      then some ds
      else converge_nonterminal_aliases hashes
          (update_nonterminal_each new_id hashes delivery_id event_id feedback revision next ds)

  -- `none` is an exception, which undoes the transaction.
  unfoldable pub apply_destination_transition :
      List RecipientHash
      → ℕ
      → ℕ
      → SesFeedback
      → EventRevision
      → List EmailDestination
      → Option (List EmailDestination)
  apply_destination_transition hashes delivery_id event_id feedback revision ds =
      if is_terminal_mailbox_event feedback.event
      then suppress_destination_aliases new_id hashes delivery_id event_id feedback revision ds
      else elim (destination_status feedback.event) [
        | none ↦ some ds
        | some next ↦ apply_nonterminal hashes delivery_id event_id feedback revision next ds
      ]
