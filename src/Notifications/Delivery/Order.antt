-- ===== src/Notifications/Delivery/Order.antt =====
-- Two arrivals of the same events leave the same table.
use mathlib.Core.Path.{ap₂}
use mathlib.Core.List.{Memᴰ}
use mathlib.Core.List.Memᴰ.{not-nil}
use backend.Prelude.{
  ℕ, ◌≡◌, refl, sym, ap, ◌∙◌, List, [], ◌∷◌, ◌==◌, arith, All, All_at, All-intro, update_many,
  Bool-cases, inl, inr, ==_iff,
}
use backend.Notifications.Delivery.{EmailDelivery, apply_delivery_transition}
use backend.Notifications.Delivery.Convergence.{
  Recorded, Outranks, IsDecisive, IsFresh, store, receive_all, receive_all-outcome,
}

-- The events of one delivery, applied one after the other.
unfoldable pub apply_all : ℕ → List Recorded → List EmailDelivery → List EmailDelivery
apply_all id [] ds = ds
apply_all id (e ∷ es) ds = apply_all id es (apply_delivery_transition id e.feedback e.revision ds)

apply-receive :
    (id : ℕ) (e : Recorded) (es : List Recorded) (ds : List EmailDelivery)
    → update_many
        (λ d. d.id == id)
        (λ d. receive_all d es)
        (apply_delivery_transition id e.feedback e.revision ds)
      ≡ update_many (λ d. d.id == id) (λ d. receive_all d (e ∷ es)) ds
unfolding apply_delivery_transition
apply-receive id e es [] = refl
apply-receive id e es (d ∷ ds) = ground (arith, apply-receive id e es ds)

update_many_same :
    (id : ℕ) (ds : List EmailDelivery)
    → update_many (λ d. d.id == id) (λ d. receive_all d []) ds ≡ ds
update_many_same id [] = refl
update_many_same id (d ∷ ds) = ground (arith, update_many_same id ds)

apply_all-receive_all :
    (id : ℕ) (es : List Recorded) (ds : List EmailDelivery)
    → apply_all id es ds ≡ update_many (λ d. d.id == id) (λ d. receive_all d es) ds
unfolding apply_all
apply_all-receive_all id [] ds = sym (update_many_same id ds)
apply_all-receive_all id (e ∷ es) ds =
    apply_all-receive_all id es (apply_delivery_transition id e.feedback e.revision ds)
    ∙ apply-receive id e es ds

abbrev pub Within : List Recorded → List Recorded → Type 0
Within es fs = (x : Recorded) → Memᴰ x es → Memᴰ x fs

-- Events of one revision are one event: the fingerprint is a digest of what identifies an event.
abbrev pub IsKeyed : List Recorded → Type 0
IsKeyed es = (x y : Recorded) → Memᴰ x es → Memᴰ y es → x.revision ≡ y.revision → x ≡ y

tied-revision : (w v : Recorded) → ¬ Outranks w v → ¬ Outranks v w → w.revision ≡ v.revision
tied-revision w v h k = ground arith

receive_all-order :
    (d : EmailDelivery) (es fs : List Recorded)
    → IsFresh d
    → All IsDecisive es
    → Within es fs
    → Within fs es
    → IsKeyed es
    → receive_all d es ≡ receive_all d fs
receive_all-order d [] [] fresh des sub sup keyed = refl
receive_all-order d [] (f ∷ fs) fresh des sub sup keyed = absurd (not-nil (sup f (Memᴰ.head refl)))
receive_all-order d (e ∷ es) [] fresh des sub sup keyed = absurd (not-nil (sub e (Memᴰ.head refl)))
receive_all-order d (e ∷ es) (f ∷ fs) fresh des sub sup keyed =
    let dfs : All IsDecisive (f ∷ fs) =
      All-intro IsDecisive (f ∷ fs) (λ x m. All_at IsDecisive x (e ∷ es) des (sup x m)) in
    let (w, w_in, w_ends, w_best) = receive_all-outcome d e es fresh des in
    let (v, v_in, v_ends, v_best) = receive_all-outcome d f fs fresh dfs in
    let tied =
      tied-revision w v (All_at (λ x. ¬ Outranks x v) w (f ∷ fs) v_best (sub w w_in))
        (All_at (λ x. ¬ Outranks x w) v (e ∷ es) w_best (sup v v_in)) in
    w_ends ∙ ap (λ x. store x d) (keyed w v w_in (sup v v_in) tied) ∙ sym v_ends

-- Let two sequences hold the same events of one delivery, without a soft bounce, and events of one
-- revision be equal. If no event has reached the delivery's rows before, then the table is the same
-- after either sequence: the order of arrival, and repeated arrivals, make no difference.
pub apply_all-order :
    (id : ℕ) (ds : List EmailDelivery) (es fs : List Recorded)
    → All (λ d. d.id ≡ id → IsFresh d) ds
    → All IsDecisive es
    → Within es fs
    → Within fs es
    → IsKeyed es
    → apply_all id es ds ≡ apply_all id fs ds
apply_all-order id ds es fs fresh des sub sup keyed =
    apply_all-receive_all id es ds ∙ go ds fresh ∙ sym (apply_all-receive_all id fs ds)
  where
    go :
        (ds : List EmailDelivery)
        → All (λ d. d.id ≡ id → IsFresh d) ds
        → update_many (λ d. d.id == id) (λ d. receive_all d es) ds
          ≡ update_many (λ d. d.id == id) (λ d. receive_all d fs) ds
    go [] h = refl
    go (d ∷ ds) (h, hs) =
        ap₂ ◌∷◌
          (elim (Bool-cases (d.id == id)) [
            | inl hit ↦
                rw hit (receive_all-order d es fs (h ((==_iff d.id id).0 hit)) des sub sup keyed)
            | inr miss ↦ rw miss
          ])
          (go ds hs)
