-- ===== src/Notifications/Command/WriteOnce.antt =====
-- What no interleaving of the workers can undo in a delivery.
use backend.Prelude.{◌≡◌, Bool, true, inl, inr, List, [], ◌∷◌, ◌++◌, Bool-cases, update_many}
use backend.Notifications.Delivery.{EmailDelivery}
use backend.Notifications.Command.Steps.{Reach, here, next}
use backend.Notifications.Command.Moves.{
  Keeps, Keeps-refl, Keeps-trans, Moves, stay, edit, add, seq, Step-Moves,
}

-- Each row of the first table stands, in a later state, at its place in the second.
abbrev pub Evolves : List EmailDelivery → List EmailDelivery → Type 0
Evolves [] es = Unit
Evolves (d ∷ ds) [] = ⊥
Evolves (d ∷ ds) (e ∷ es) = Keeps d e × Evolves ds es

Evolves-refl : (ds : List EmailDelivery) → Evolves ds ds
Evolves-refl [] = tt
Evolves-refl (d ∷ ds) = (Keeps-refl d, Evolves-refl ds)

Evolves-trans : (bs ds es : List EmailDelivery) → Evolves bs ds → Evolves ds es → Evolves bs es
Evolves-trans [] ds es h k = tt
Evolves-trans (b ∷ bs) [] es h k = elim h [ ]
Evolves-trans (b ∷ bs) (d ∷ ds) [] h k = elim k [ ]
Evolves-trans (b ∷ bs) (d ∷ ds) (e ∷ es) h k =
    (Keeps-trans b d e h.0 k.0, Evolves-trans bs ds es h.1 k.1)

Evolves-append : (ds : List EmailDelivery) (d : EmailDelivery) → Evolves ds (ds ++ d ∷ [])
Evolves-append [] d = tt
Evolves-append (e ∷ ds) d = (Keeps-refl e, Evolves-append ds d)

-- An update that keeps each row that it meets.
Evolves-update :
    (p : EmailDelivery → Bool) (new : EmailDelivery → EmailDelivery) (ds : List EmailDelivery)
    → ((d : EmailDelivery) → p d ≡ true → Keeps d (new d))
    → Evolves ds (update_many p new ds)
Evolves-update p new [] keep = tt
Evolves-update p new (d ∷ ds) keep = elim (Bool-cases (p d)) [
  | inl e ↦ (rw e (keep d e), Evolves-update p new ds keep)
  | inr e ↦ (rw e (Keeps-refl d), Evolves-update p new ds keep)
]

Moves-Evolves : (ds es : List EmailDelivery) → Moves ds es → Evolves ds es
Moves-Evolves ds es stay = Evolves-refl ds
Moves-Evolves ds es (edit p new keep) = Evolves-update p new ds keep
Moves-Evolves ds es (add d fresh) = Evolves-append ds d
Moves-Evolves ds es (seq {es = cs} m n) =
    Evolves-trans ds cs es (Moves-Evolves ds cs m) (Moves-Evolves cs es n)

-- After any sequence of commands, submissions, sweeps and provider events, in any order, each
-- delivery that the table had stands at the same place, for the same command: once they are set, its
-- answer to the caller with the answer's code, its provider message id and its time of submission
-- are what they were; it is not pending if it was not, and its count of attempts is at least what it
-- was.
pub Reach-Evolves : (ds es : List EmailDelivery) → Reach ds es → Evolves ds es
Reach-Evolves ds es here = Evolves-refl ds
Reach-Evolves ds es (next {ds' = ds'} r s) =
    Evolves-trans ds ds' es (Reach-Evolves ds ds' r) (Moves-Evolves ds' es (Step-Moves s))
