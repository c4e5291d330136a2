-- ===== src/Notifications/Feedback/Ranks.antt =====
-- How the policy's tables of an event agree with one another.
use backend.Prelude.{◌<◌, ◌≤◌, ◌≡◌, true, false, arith}
use backend.Notifications.Feedback.{
  FeedbackEvent, is_terminal_mailbox_event, feedback_precedence, is_provider_suppression, bounce,
  complaint,
}

closing_rank : (e : FeedbackEvent) → is_terminal_mailbox_event e ≡ true → 50 ≤ feedback_precedence e
unfolding feedback_precedence is_terminal_mailbox_event
closing_rank (complaint _ _ _) t = ground arith
closing_rank (bounce _ _ _) t = ground arith
closing_rank _ t = cc

open_rank : (e : FeedbackEvent) → is_terminal_mailbox_event e ≡ false → feedback_precedence e ≤ 45
unfolding feedback_precedence is_terminal_mailbox_event is_provider_suppression
open_rank (complaint _ _ _) t = cc
open_rank (bounce _ _ _) t = ground arith
open_rank _ t = ground arith

-- An event that closes a mailbox has a higher rank than every event that does not: of two events of
-- one time the closing one is the newer revision.
pub precedence-terminal_lt :
    (e f : FeedbackEvent)
    → is_terminal_mailbox_event e ≡ true
    → is_terminal_mailbox_event f ≡ false
    → feedback_precedence f < feedback_precedence e
precedence-terminal_lt e f t n = omega (arith, closing_rank e t, open_rank f n)
