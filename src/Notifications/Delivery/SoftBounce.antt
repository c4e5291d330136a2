-- ===== src/Notifications/Delivery/SoftBounce.antt =====
-- The one kind of event for which the order of arrival decides the status of a delivery.
use backend.Prelude.{◌≡◌, false, [], ◌∷◌, arith, ◌≢◌}
use backend.Notifications.Feedback.{
  FeedbackEvent, bounced, bounce, complaint, delivery_status, is_terminal_mailbox_event,
}
use backend.Notifications.Revision.{
  IsNewer, newer_event_filters-IsNewer, IsNewer-trans, IsNewer-irrefl,
}
use backend.Notifications.Delivery.{
  EmailDelivery, is_terminal_delivery_status, takes_event, store_event,
}
use backend.Notifications.Delivery.Convergence.{
  IsSoftBounce, Recorded, IsFresh, receive_all, takes_event-first, store,
}

soft_bounce-status : (e : FeedbackEvent) → IsSoftBounce e → delivery_status e ≡ bounced
unfolding delivery_status is_terminal_mailbox_event is_terminal_delivery_status
soft_bounce-status (bounce kind sub_type id) h = ground arith
soft_bounce-status (complaint _ _ _) h = cc
soft_bounce-status _ h = cc

takes_event-after_bounce :
    (d : EmailDelivery) (e f : Recorded)
    → IsSoftBounce e.feedback.event
    → is_terminal_mailbox_event f.feedback.event ≡ false
    → takes_event f.feedback f.revision (store e d) ≡ false
unfolding takes_event store_event
takes_event-after_bounce d e f soft open? = ground arith

takes_event-older :
    (d : EmailDelivery) (e f : Recorded)
    → IsSoftBounce e.feedback.event
    → IsNewer f.revision e.revision
    → takes_event e.feedback e.revision (store f d) ≡ false
unfolding takes_event store_event
takes_event-older d e f soft newer = ground (
  arith,
  newer_event_filters-IsNewer e.revision f.revision,
  IsNewer-trans e.revision f.revision e.revision,
  IsNewer-irrefl e.revision,
)

-- Let a soft bounce (neither permanent nor a suppression) be older than an event that closes no
-- mailbox and has no terminal status, such as a delivery after a retry. If the bounce arrives first,
-- the delivery stays BOUNCED and the newer event is ignored; if it arrives second, the newer event's
-- status stays, which is another.
pub soft_bounce_order :
    (d : EmailDelivery) (e f : Recorded)
    → IsFresh d
    → IsSoftBounce e.feedback.event
    → is_terminal_mailbox_event f.feedback.event ≡ false
    → is_terminal_delivery_status (delivery_status f.feedback.event) ≡ false
    → IsNewer f.revision e.revision
    → ((receive_all d (e ∷ f ∷ [])).status ≡ bounced)
      × ((receive_all d (f ∷ e ∷ [])).status ≡ delivery_status f.feedback.event)
      × (delivery_status f.feedback.event ≢ bounced)
unfolding store_event is_terminal_delivery_status
soft_bounce_order d e f fresh soft open? live newer = (
  rw (takes_event-first d e fresh, takes_event-after_bounce d e f soft open?)
      (soft_bounce-status e.feedback.event soft),
  rw (takes_event-first d f fresh, takes_event-older d e f soft newer),
  ground arith,
)
