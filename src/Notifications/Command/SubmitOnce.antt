-- ===== src/Notifications/Command/SubmitOnce.antt =====
-- A delivery is submitted to Amazon SES at most once.
use backend.Prelude.{
  refl, ℕ, ◌≡◌, ◌≤◌, Bool, true, false, inl, inr, List, [], ◌∷◌, ◌++◌, ◌==◌, any, Bool-cases,
  update_many, count_where, arith,
}
use backend.Notifications.Delivery.{EmailDelivery}
use backend.Notifications.Command.{claim_attempt, is_unattempted, mark_attempted}
use backend.Notifications.Command.Steps.{Reach, here, next}
use backend.Notifications.Command.Moves.{Keeps, Moves, stay, edit, add, seq, Step-Moves}

-- The table has the delivery `id`, and no row of it can be claimed.
pub record Spent (id : ℕ) (ds : List EmailDelivery) : Type 0 where
  pub has_row : any (λ (d : EmailDelivery). d.id == id) ds ≡ true
  pub none_left : count_where (is_unattempted id) ds ≡ 0

any-update :
    (id : ℕ) (p : EmailDelivery → Bool) (new : EmailDelivery → EmailDelivery)
    (ds : List EmailDelivery)
    → ((d : EmailDelivery) → p d ≡ true → Keeps d (new d))
    → any (λ (d : EmailDelivery). d.id == id) ds ≡ true
    → any (λ (d : EmailDelivery). d.id == id) (update_many p new ds) ≡ true
any-update id p new [] keep h = h
any-update id p new (d ∷ ds) keep h =
    ground (arith, any-update id p new ds keep, (λ (e : p d ≡ true). (keep d e).same_id))

none-update :
    (id : ℕ) (p : EmailDelivery → Bool) (new : EmailDelivery → EmailDelivery)
    (ds : List EmailDelivery)
    → ((d : EmailDelivery) → p d ≡ true → Keeps d (new d))
    → count_where (is_unattempted id) ds ≡ 0
    → count_where (is_unattempted id) (update_many p new ds) ≡ 0
none-update id p new [] keep h = refl
none-update id p new (d ∷ ds) keep h = elim (Bool-cases (p d)) [
  | inl e ↦
      let k = keep d e in
      let rest = none-update id p new ds keep in
      ground (arith, rest, k.same_id, k.settled, k.attempted)
  | inr e ↦ ground (arith, none-update id p new ds keep)
]

any-append :
    (id : ℕ) (ds : List EmailDelivery) (d : EmailDelivery)
    → any (λ (e : EmailDelivery). e.id == id) ds ≡ true
    → any (λ (e : EmailDelivery). e.id == id) (ds ++ d ∷ []) ≡ true
any-append id [] d h = ground arith
any-append id (e ∷ ds) d h = ground (arith, any-append id ds d)

none-append :
    (id : ℕ) (ds : List EmailDelivery) (d : EmailDelivery)
    → count_where (is_unattempted id) ds ≡ 0
    → (d.id == id) ≡ false
    → count_where (is_unattempted id) (ds ++ d ∷ []) ≡ 0
none-append id [] d h other = ground arith
none-append id (e ∷ ds) d h other = ground (arith, none-append id ds d)

fresh-other :
    (id : ℕ) (ds : List EmailDelivery) (d : EmailDelivery)
    → any (λ (e : EmailDelivery). e.id == id) ds ≡ true
    → any (λ (e : EmailDelivery). e.id == d.id) ds ≡ false
    → (d.id == id) ≡ false
fresh-other id [] d h fresh = ground arith
fresh-other id (e ∷ ds) d h fresh = ground (arith, fresh-other id ds d)

Moves-Spent : (id : ℕ) (ds es : List EmailDelivery) → Moves ds es → Spent id ds → Spent id es
Moves-Spent id ds es stay h = h
Moves-Spent id ds es (edit p new keep) h = record {
  has_row = any-update id p new ds keep h.has_row;
  none_left = none-update id p new ds keep h.none_left;
}
Moves-Spent id ds es (add d fresh) h = record {
  has_row = any-append id ds d h.has_row;
  none_left = none-append id ds d h.none_left (fresh-other id ds d h.has_row fresh);
}
Moves-Spent id ds es (seq {es = cs} m n) h = Moves-Spent id cs es n (Moves-Spent id ds cs m h)

Reach-Spent : (id : ℕ) (ds es : List EmailDelivery) → Reach ds es → Spent id ds → Spent id es
Reach-Spent id ds es here h = h
Reach-Spent id ds es (next {ds' = cs} r s) h =
    Moves-Spent id cs es (Step-Moves s) (Reach-Spent id ds cs r h)

marked-has_row :
    (id : ℕ) (ds : List EmailDelivery)
    → 1 ≤ count_where (is_unattempted id) ds
    → any (λ (d : EmailDelivery). d.id == id) (update_many (is_unattempted id) mark_attempted ds)
      ≡ true
marked-has_row id [] h = ground arith
marked-has_row id (d ∷ ds) h = ground (arith, marked-has_row id ds)

marked-none_left :
    (id : ℕ) (ds : List EmailDelivery)
    → count_where (is_unattempted id) (update_many (is_unattempted id) mark_attempted ds) ≡ 0
marked-none_left id [] = refl
marked-none_left id (d ∷ ds) = ground (arith, marked-none_left id ds)

claim_attempt-Spent :
    (id : ℕ) (ds : List EmailDelivery)
    → 1 ≤ (claim_attempt id ds).1
    → Spent id (claim_attempt id ds).0
unfolding claim_attempt
claim_attempt-Spent id ds h = record {
  has_row = marked-has_row id ds h;
  none_left = marked-none_left id ds;
}

-- If one submission's claim of a delivery takes a row, then after any sequence of commands,
-- submissions, sweeps and provider events, in any order, another claim of it takes none: the
-- delivery is handed to the provider at most once.
pub claim_attempt-once :
    (id : ℕ) (ds es : List EmailDelivery)
    → 1 ≤ (claim_attempt id ds).1
    → Reach (claim_attempt id ds).0 es
    → (claim_attempt id es).1 ≡ 0
unfolding claim_attempt
claim_attempt-once id ds es h r =
    (Reach-Spent id (claim_attempt id ds).0 es r (claim_attempt-Spent id ds h)).none_left
