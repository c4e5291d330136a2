-- ===== src/Notifications/Destination/Suppress/Outcome.antt =====
-- The outcome of a suppression, for all aliases of the address at once.
use mathlib.Core.Bool.{false≢true}
use backend.Prelude.{
  ℕ, ◌+◌, ◌≡◌, refl, sym, ap, ◌∙◌, inl, inr, Bool, true, false, not, List, [], ◌∷◌, some, arith,
  is_null, Option-cases, any_intro, All, All-pointwise, All-intro, All-map, update_many, find_many,
  find_unique, find_many-update_many, find_unique-update_many, update_many-All',
}
use backend.Notifications.Feedback.{SesFeedback, EmailDestinationStatus}
use backend.Notifications.Revision.{EventRevision}
use backend.Notifications.Destination.{
  RecipientHash, EmailDestination, has_key, is_alias, first_in_order,
  find_authoritative_destination,
}
use backend.Notifications.Destination.Suppress.{
  max_suppression_revision, min_suppressed_at, earliest_suppressed_at, make_alike, suppress_each,
  suppress_destination_aliases,
}
use backend.Notifications.Destination.Suppress.Aliases.{
  others, HasRow, IsOwned, IsOf, after_each-HasRow, after_each-others,
}

pub All-IsOf : (hashes : List RecipientHash) → All (IsOf hashes) hashes
unfolding is_alias
All-IsOf hashes =
    All-intro (IsOf hashes) hashes (λ h m d k. any_intro (λ g. has_key g d) h hashes m k)

first_in_order-found :
    (p q : EmailDestination → Bool) (ds : List EmailDestination)
    → ((d : EmailDestination) → p d ≡ true → q d ≡ true)
    → is_null (find_unique p ds) ≡ false
    → is_null (first_in_order (find_many q ds)) ≡ false
unfolding first_in_order
first_in_order-found p q [] imp h = cc
first_in_order-found p q (d ∷ ds) imp h = ground (arith, imp d, first_in_order-found p q ds imp)

-- The row of an address after its suppression: suppressed, at revision `n`, since `at`, with the
-- reason and the last event of `a`.
abbrev pub IsSuppressedLike : EmailDestination → ℕ → ℕ → EmailDestination → Type 0
IsSuppressedLike a at n d =
    (d.status ≡ EmailDestinationStatus.suppressed)
    × (d.suppression_revision ≡ n)
    × (d.suppressed_at ≡ some at)
    × (d.reason_code ≡ a.reason_code)
    × (d.last_event_id ≡ a.last_event_id)
    × (d.last ≡ a.last)

make_alike-apart :
    (hashes : List RecipientHash) (a : EmailDestination) (at n : ℕ) (ds : List EmailDestination)
    → others hashes (update_many (is_alias hashes) (make_alike a at n) ds) ≡ others hashes ds
unfolding make_alike is_alias
make_alike-apart hashes a at n ds =
    find_many-update_many (is_alias hashes) _ _ ds
      (All-pointwise _ (λ x k. (ap not k, ap not k)) ds)

make_alike-keeps_row :
    (hashes : List RecipientHash) (a : EmailDestination) (at n : ℕ) (ds : List EmailDestination)
    (g : RecipientHash)
    → HasRow g ds
    → HasRow g (update_many (is_alias hashes) (make_alike a at n) ds)
unfolding make_alike has_key
make_alike-keeps_row hashes a at n ds g r =
    find_unique-update_many (is_alias hashes) (has_key g) _ ds (λ x. refl) ∙ r

make_alike-outcome :
    (hashes : List RecipientHash) (a : EmailDestination) (at n : ℕ) (ds : List EmailDestination)
    → All
        (λ d. is_alias hashes d ≡ true → IsSuppressedLike a at n d)
        (update_many (is_alias hashes) (make_alike a at n) ds)
unfolding make_alike
make_alike-outcome hashes a at n ds =
    update_many-All' _ (is_alias hashes) _ ds (λ x k l. (refl, refl, refl, refl, refl, refl))
      (λ x k l. absurd (false≢true (sym k ∙ l)))

authoritative_found :
    (h : RecipientHash) (hs : List RecipientHash) (ds : List EmailDestination)
    → HasRow h ds
    → (a : EmailDestination) × (find_authoritative_destination (is_alias (h ∷ hs)) ds ≡ some a)
unfolding find_authoritative_destination
authoritative_found h hs ds r =
    elim (Option-cases (find_authoritative_destination (is_alias (h ∷ hs)) ds)) [
      | inl e ↦
          let found =
            first_in_order-found (has_key h) (is_alias (h ∷ hs)) ds (All-IsOf (h ∷ hs)).0 r in
          absurd (false≢true (sym found ∙ ap is_null e))
      | inr w ↦ w
    ]

-- Let `h ∷ hs` be the hashes of an address and the ids of its rows be no ids of other rows. Then
-- the suppression does not throw; it leaves the rows of other addresses, and their order, as they
-- were; afterwards every hash has a row, and every row of the address is suppressed, with the same
-- reason and last event, at the revision one above the greatest that a row of the address had, since
-- the earlier of the event's time and the earliest recorded suppression.
pub suppress_aliases_outcome :
    (new_id : List EmailDestination → ℕ) (owns : ℕ → Bool) (h : RecipientHash)
    (hs : List RecipientHash) (delivery_id event_id : ℕ) (feedback : SesFeedback)
    (revision : EventRevision) (ds : List EmailDestination)
    → ((t : List EmailDestination) → owns (new_id t) ≡ true)
    → IsOwned owns (h ∷ hs) ds
    → (a : EmailDestination) × (ds' : List EmailDestination) × (suppress_destination_aliases new_id
          (h ∷ hs)
          delivery_id
          event_id
          feedback
          revision
          ds
        ≡ some ds')
      × (others (h ∷ hs) ds' ≡ others (h ∷ hs) ds)
      × All (λ g. HasRow g ds') (h ∷ hs)
      × (let aliases = find_many (is_alias (h ∷ hs)) ds in
          All
            (λ d.
              is_alias (h ∷ hs) d ≡ true
              → IsSuppressedLike a
                  (earliest_suppressed_at feedback (min_suppressed_at aliases))
                  (max_suppression_revision aliases + 1)
                  d)
            ds')
unfolding suppress_destination_aliases
suppress_aliases_outcome new_id owns h hs delivery_id event_id feedback revision ds fresh owned =
    let hashes = h ∷ hs in
    let aliases = find_many (is_alias hashes) ds in
    let n = max_suppression_revision aliases + 1 in
    let at = earliest_suppressed_at feedback (min_suppressed_at aliases) in
    let each = suppress_each new_id hashes delivery_id event_id feedback revision n ds in
    let rows =
      after_each-HasRow owns hashes delivery_id event_id feedback revision new_id n hashes ds in
    let (a, found) = authoritative_found h hs each rows.0 in
    (
      a,
      update_many (is_alias hashes) (make_alike a at n) each,
      rw (found, suppress_destination_aliases),
      make_alike-apart hashes a at n each
          ∙ after_each-others owns hashes delivery_id event_id feedback revision new_id n fresh
              hashes ds (All-IsOf hashes) owned,
      All-map (λ g. HasRow g each) _ hashes (make_alike-keeps_row hashes a at n each) rows,
      make_alike-outcome hashes a at n each,
    )
