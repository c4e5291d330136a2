-- ===== src/Notifications/Delivery/Convergence.antt =====
-- The status of a delivery does not depend on the order in which its events arrive.
use mathlib.Core.Path.{subst}
use mathlib.Core.Bool.{false≢true}
use mathlib.Core.List.{Memᴰ}
use backend.Prelude.{
  ◌≡◌, refl, ◌⊎◌, ◌↔◌, inl, inr, sym, ◌∙◌, Bool, true, false, List, [], ◌∷◌, none, arith,
  if◌then◌else◌, All, Bool-cases,
}
use backend.Notifications.Feedback.{
  SesFeedback, is_terminal_mailbox_event, delivery_status, delivery_failure_code, FeedbackEvent,
  bounce, complaint,
}
use backend.Notifications.Revision.{
  EventRevision, event_revision_data, IsNewer, newer_event_filters-IsNewer,
  newer_event_filters-first, IsNewer-irrefl, IsNewer-trans,
}
use backend.Notifications.Delivery.{
  EmailDelivery, is_terminal_delivery_status, takes_event, store_event,
}

-- A bounce that does not close the mailbox: neither permanent nor a suppression by the provider.
abbrev pub IsSoftBounce : FeedbackEvent → Type 0
IsSoftBounce e =
    (is_terminal_mailbox_event e ≡ false) × (is_terminal_delivery_status (delivery_status e) ≡ true)

-- A recorded event: what was parsed, and its revision.
pub record Recorded : Type 0 where
  pub feedback : SesFeedback
  pub revision : EventRevision

abbrev closes : Recorded → Bool
closes e = is_terminal_mailbox_event e.feedback.event

-- `e` takes precedence over `f`: it closes the mailbox and `f` does not, or both do or both do not
-- and its revision is newer.
abbrev pub Outranks : Recorded → Recorded → Type 0
Outranks e f =
    ((closes e ≡ true) × (closes f ≡ false))
    ⊎ ((closes e ≡ closes f) × IsNewer e.revision f.revision)

pub Outranks-trans : (d e f : Recorded) → Outranks d e → Outranks e f → Outranks d f
Outranks-trans d e f h k = ground (arith, IsNewer-trans d.revision e.revision f.revision)

abbrev pub IsDecisive : Recorded → Type 0
IsDecisive e = ¬ IsSoftBounce e.feedback.event

-- The row shows the event `e`.
abbrev pub Shows : EmailDelivery → Recorded → Type 0
Shows d e =
    (d.status ≡ delivery_status e.feedback.event)
    × (d.failure_code ≡ delivery_failure_code e.feedback.event)
    × (d.last ≡ event_revision_data e.revision)

closing-IsTerminal :
    (e : FeedbackEvent)
    → is_terminal_mailbox_event e ≡ true
    → is_terminal_delivery_status (delivery_status e) ≡ true
unfolding is_terminal_mailbox_event delivery_status is_terminal_delivery_status
closing-IsTerminal (bounce kind sub_type id) h = ground arith
closing-IsTerminal (complaint _ _ _) h = ground arith
closing-IsTerminal _ h = cc

-- A row's status is terminal exactly when the event that it shows closes the mailbox.
terminal-closes :
    (e : Recorded)
    → IsDecisive e
    → is_terminal_delivery_status (delivery_status e.feedback.event) ≡ closes e
terminal-closes e h = ground (arith, closing-IsTerminal e.feedback.event)

-- One event at one row: `applyDeliveryTransition` on the row with its id.
abbrev pub receive : EmailDelivery → Recorded → EmailDelivery
receive d e = if takes_event e.feedback e.revision d then store_event e.feedback e.revision d else d

abbrev pub receive_all : EmailDelivery → List Recorded → EmailDelivery
receive_all d [] = d
receive_all d (e ∷ es) = receive_all (receive d e) es

-- What the row's condition decides, at a row that shows a decisive event: precedence.
takes_event-Outranks :
    (d : EmailDelivery) (f e : Recorded)
    → Shows d f
    → IsDecisive f
    → (takes_event e.feedback e.revision d ≡ true) ↔ Outranks e f
unfolding takes_event
takes_event-Outranks d f e (s, _, l) h =
    rw (s, l, terminal-closes f h)
      (ground (arith, newer_event_filters-IsNewer e.revision f.revision))

-- A row that no event has reached, and that is not suppressed.
abbrev pub IsFresh : EmailDelivery → Type 0
IsFresh d = (is_terminal_delivery_status d.status ≡ false) × (d.last.last_event_at ≡ none)

abbrev pub store : Recorded → EmailDelivery → EmailDelivery
store e = store_event e.feedback e.revision

store-Shows : (d : EmailDelivery) (e : Recorded) → Shows (store e d) e
unfolding store_event
store-Shows d e = (refl, refl, refl)

store-store : (d : EmailDelivery) (e f : Recorded) → store f (store e d) ≡ store f d
unfolding store_event
store-store d e f = refl

pub takes_event-first :
    (d : EmailDelivery) (e : Recorded) → IsFresh d → takes_event e.feedback e.revision d ≡ true
unfolding takes_event
takes_event-first d e (fresh, new) = ground (arith, newer_event_filters-first e.revision d.last new)

Outranks-irrefl : (e : Recorded) → ¬ Outranks e e
Outranks-irrefl e h = ground (arith, IsNewer-irrefl e.revision)

abbrev AtLeast : Recorded → Recorded → Type 0
AtLeast e f = (e ≡ f) ⊎ Outranks e f

AtLeast-unbeaten : (e w v : Recorded) → AtLeast w v → ¬ Outranks e v → ¬ Outranks e w
AtLeast-unbeaten e w v (inl same) nb h = nb (subst (Outranks e) same h)
AtLeast-unbeaten e w v (inr o) nb h = nb (Outranks-trans e w v h o)

abbrev pub IsUnbeaten : Recorded → List Recorded → Type 0
IsUnbeaten e = All (λ x. ¬ Outranks x e)

-- The loop's invariant: the row shows `v`; at the end it shows a `w` that is `v` or outranks it.
receive_all-from :
    (d : EmailDelivery) (v : Recorded) (es : List Recorded)
    → IsDecisive v
    → All IsDecisive es
    → (w : Recorded) × ((w ≡ v) ⊎ Memᴰ w es)
      × (receive_all (store v d) es ≡ store w d)
      × AtLeast w v
      × IsUnbeaten w es
receive_all-from d v [] dv des = (v, inl refl, refl, inl refl, tt)
receive_all-from d v (e ∷ es) dv (de, des) =
    elim (Bool-cases (takes_event e.feedback e.revision (store v d))) [
      | inl taken ↦
          let o = (takes_event-Outranks (store v d) v e (store-Shows d v) dv).0 taken in
          let (w, from, ends, least, unbeaten) = receive_all-from d e es de des in
          (
            w,
            inr (elim from [ inl same ↦ Memᴰ.head same | inr m ↦ Memᴰ.tail m ]),
            rw (taken, store-store d v e) ends,
            inr (elim least [
              | inl same ↦ subst (λ x. Outranks x v) (sym same) o
              | inr more ↦ Outranks-trans w e v more o
            ]),
            (AtLeast-unbeaten e w e least (Outranks-irrefl e), unbeaten),
          )
      | inr left ↦
          let nb : ¬ Outranks e v = λ h.
            false≢true
              (sym left ∙ (takes_event-Outranks (store v d) v e (store-Shows d v) dv).1 h) in
          let (w, from, ends, least, unbeaten) = receive_all-from d v es dv des in
          (
            w,
            elim from [ inl same ↦ inl same | inr m ↦ inr (Memᴰ.tail m) ],
            rw left ends,
            least,
            (AtLeast-unbeaten e w v least nb, unbeaten),
          )
    ]

-- Take any non-empty sequence of events without a soft bounce and a row that no event has reached.
-- After the sequence the row stores one event of it that no event of it outranks (an event that
-- closes the mailbox outranks one that does not, and of two alike the newer one does), and every
-- column that does not belong to the event is as it was.
pub receive_all-outcome :
    (d : EmailDelivery) (e : Recorded) (es : List Recorded)
    → IsFresh d
    → All IsDecisive (e ∷ es)
    → (w : Recorded) × Memᴰ w (e ∷ es)
      × (receive_all d (e ∷ es) ≡ store w d)
      × IsUnbeaten w (e ∷ es)
receive_all-outcome d e es fresh (de, des) =
    let (w, from, ends, least, unbeaten) = receive_all-from d e es de des in
    (
      w,
      elim from [ inl same ↦ Memᴰ.head same | inr m ↦ Memᴰ.tail m ],
      rw (takes_event-first d e fresh) ends,
      (AtLeast-unbeaten e w e least (Outranks-irrefl e), unbeaten),
    )
