-- ===== src/Tests/Deliveries.antt =====
-- Events of one delivery, and their revisions.
use mathlib.Core.Bool.{false≢true}
use mathlib.Core.List.{Memᴰ}
use backend.Prelude.{
  ℕ, ◌≡◌, ◌≤◌, ◌≢◌, ◌↔◌, ◌⊎◌, refl, sym, ◌∙◌, inl, inr, true, false, [], ◌∷◌, none, some, arith,
  length,
}
use backend.Text.{codes}
use backend.Notifications.Feedback.{
  SesFeedback, FeedbackEvent, delivery, bounce, bounced, pending, is_terminal_mailbox_event,
  is_permanent, is_provider_suppression, delivery_status, safe_code,
}
use backend.Notifications.Feedback.Codes.{safe_code-IsCode, IsCode}
use backend.Notifications.Revision.{
  IsNewer, event_revision_data, newer_event_filters, newer_event_filters-IsNewer,
}
use backend.Notifications.Delivery.{EmailDelivery, email_verification, is_terminal_delivery_status}
use backend.Notifications.Delivery.Convergence.{
  Recorded, IsDecisive, IsUnbeaten, receive_all, receive_all-outcome, store,
}
use backend.Notifications.Delivery.Order.{apply_all, apply_all-order, Within, IsKeyed}
use backend.Notifications.Delivery.SoftBounce.{soft_bounce_order}

abbrev pub row : EmailDelivery
row = record {
  id = 1;
  request_id = 7;
  public_subject = 2;
  recipient_hash = 5;
  recipient_hash_key_version = 1;
  purpose = email_verification;
  content_version = 1;
  token_fingerprint = 9;
  status = pending;
  caller_result = none;
  caller_result_code = none;
  provider_message_id = none;
  attempt_count = 0;
  lease_expires_at = none;
  failure_code = none;
  submitted_at = none;
  finalized_at = none;
  last = record { last_event_at = none; last_event_rank = none; last_event_fingerprint = none };
}

abbrev pub feedback_at : ℕ → FeedbackEvent → SesFeedback
feedback_at at event = record {
  sns_message_id = 1;
  ses_message_id = 2;
  recipient = 3;
  request_id = some 7;
  mail_timestamp = 10;
  provider_timestamp = at;
  event = event;
}

abbrev pub hard : FeedbackEvent
hard = bounce (codes "Permanent") (codes "General") 4

abbrev soft : FeedbackEvent
soft = bounce (codes "Transient") (codes "General") 4

abbrev pub arrived : Recorded
arrived = record {
  feedback = feedback_at 20 delivery;
  revision = record { occurred_at = 20; rank = 30; fingerprint = 1 };
}

abbrev closed : Recorded
closed = record {
  feedback = feedback_at 20 hard;
  revision = record { occurred_at = 20; rank = 50; fingerprint = 2 };
}

abbrev deferred : Recorded
deferred = record {
  feedback = feedback_at 15 soft;
  revision = record { occurred_at = 15; rank = 45; fingerprint = 3 };
}

one_of : (a b x : Recorded) → Memᴰ x (a ∷ b ∷ []) → (x ≡ a) ⊎ (x ≡ b)
one_of a b x (Memᴰ.head e) = inl e
one_of a b x (Memᴰ.tail (Memᴰ.head e)) = inr e
one_of a b x (Memᴰ.tail (Memᴰ.tail m)) = elim m [ ]

swapped : (a b : Recorded) → Within (a ∷ b ∷ []) (b ∷ a ∷ [])
swapped a b x m = elim (one_of a b x m) [ inl e ↦ Memᴰ.tail (Memᴰ.head e) | inr e ↦ Memᴰ.head e ]

open_status : is_terminal_delivery_status row.status ≡ false
unfolding is_terminal_delivery_status
open_status = refl

arrived-IsDecisive : IsDecisive arrived
unfolding is_terminal_mailbox_event is_terminal_delivery_status delivery_status
arrived-IsDecisive h = ground arith

closed-IsDecisive : IsDecisive closed
unfolding is_terminal_mailbox_event is_permanent is_provider_suppression
closed-IsDecisive h = false≢true (sym h.0)

two-IsKeyed : IsKeyed (arrived ∷ closed ∷ [])
two-IsKeyed x y m n e = elim (one_of arrived closed x m) [
  | inl i ↦ elim (one_of arrived closed y n) [ inl j ↦ i ∙ sym j | inr j ↦ absurd (ground arith) ]
  | inr i ↦ elim (one_of arrived closed y n) [ inl j ↦ absurd (ground arith) | inr j ↦ i ∙ sym j ]
]

apply_all-order_example :
    apply_all 1 (arrived ∷ closed ∷ []) (row ∷ []) ≡ apply_all 1 (closed ∷ arrived ∷ []) (row ∷ [])
apply_all-order_example =
    apply_all-order 1 (row ∷ []) (arrived ∷ closed ∷ []) (closed ∷ arrived ∷ [])
      ((λ e. (open_status, refl)), tt) (arrived-IsDecisive, (closed-IsDecisive, tt))
      (swapped arrived closed) (swapped closed arrived) two-IsKeyed

receive_all-outcome_example :
    (w : Recorded) × Memᴰ w (arrived ∷ closed ∷ [])
    × (receive_all row (arrived ∷ closed ∷ []) ≡ store w row)
    × IsUnbeaten w (arrived ∷ closed ∷ [])
receive_all-outcome_example =
    receive_all-outcome row arrived (closed ∷ []) (open_status, refl)
      (arrived-IsDecisive, (closed-IsDecisive, tt))

newer_event_filters-IsNewer_example :
    (newer_event_filters closed.revision (event_revision_data arrived.revision) ≡ true)
    ↔ IsNewer closed.revision arrived.revision
newer_event_filters-IsNewer_example = newer_event_filters-IsNewer closed.revision arrived.revision

hard_closes : is_terminal_mailbox_event hard ≡ true
unfolding is_terminal_mailbox_event is_permanent is_provider_suppression
hard_closes = refl

delivery_open : is_terminal_mailbox_event delivery ≡ false
unfolding is_terminal_mailbox_event is_permanent is_provider_suppression
delivery_open = refl

safe_code-IsCode_example :
    (length (safe_code (some (codes "a b") ∷ none ∷ [])) ≤ 100)
    × IsCode (safe_code (some (codes "a b") ∷ none ∷ []))
safe_code-IsCode_example = safe_code-IsCode (some (codes "a b") ∷ none ∷ [])

soft_open : is_terminal_mailbox_event soft ≡ false
unfolding is_terminal_mailbox_event is_permanent is_provider_suppression
soft_open = refl

soft_terminal : is_terminal_delivery_status (delivery_status soft) ≡ true
unfolding is_terminal_delivery_status delivery_status is_provider_suppression
soft_terminal = refl

delivered_open : is_terminal_delivery_status (delivery_status delivery) ≡ false
unfolding is_terminal_delivery_status delivery_status is_provider_suppression
delivered_open = refl

soft_bounce_order_example :
    ((receive_all row (deferred ∷ arrived ∷ [])).status ≡ bounced)
    × ((receive_all row (arrived ∷ deferred ∷ [])).status ≡ delivery_status delivery)
    × (delivery_status delivery ≢ bounced)
soft_bounce_order_example =
    soft_bounce_order row deferred arrived (open_status, refl) (soft_open, soft_terminal)
      delivery_open delivered_open (inl (ground arith))
