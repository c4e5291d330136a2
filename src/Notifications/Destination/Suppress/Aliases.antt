-- ===== src/Notifications/Destination/Suppress/Aliases.antt =====
-- What the suppression does to the rows of the address, and that it leaves all other rows alone.
use backend.Prelude.{
  ℕ, ◌≡◌, refl, sym, ap, ◌∙◌, inl, inr, Bool, true, false, not, List, [], ◌∷◌, some, arith, is_null,
  if◌then◌else◌, Bool-cases, Option-cases, All, All-append, All-pointwise, update_many, find_many,
  find_unique, find_many-update_many, find_many-append, find_unique-update_many,
  find_unique-append_last, find_unique-append, update_many-All, find_unique-All,
  find_unique-eq_some,
}
use mathlib.Core.List.{append-nil}
use backend.Notifications.Feedback.{SesFeedback}
use backend.Notifications.Revision.{EventRevision}
use backend.Notifications.Destination.{RecipientHash, EmailDestination, has_key, is_alias}
use backend.Notifications.Destination.Suppress.{
  suppress_by_event, new_suppressed, upsert_suppressed, settle_suppressed, suppress_destination,
  suppress_each, takes_suppression, suppressed_later,
}

-- The rows of other addresses.
abbrev pub others : List RecipientHash → List EmailDestination → List EmailDestination
others hashes = find_many (λ d. not (is_alias hashes d))

abbrev pub HasRow : RecipientHash → List EmailDestination → Type 0
HasRow h ds = is_null (find_unique (has_key h) ds) ≡ false

-- `owns` tells the ids of the address's rows from those of other rows: ids are primary keys.
abbrev pub IsOwned : (ℕ → Bool) → List RecipientHash → List EmailDestination → Type 0
IsOwned owns hashes = All (λ d. owns d.id ≡ is_alias hashes d)

-- A hash of the address.
abbrev pub IsOf : List RecipientHash → RecipientHash → Type 0
IsOf hashes h = (d : EmailDestination) → has_key h d ≡ true → is_alias hashes d ≡ true

module _ (owns : ℕ → Bool) (hashes : List RecipientHash) where
  -- An update of rows with one of the address's ids, that keeps the id and the key.
  IsOwned-update :
      (id : ℕ) (p : EmailDestination → Bool) (new : EmailDestination → EmailDestination)
      (ds : List EmailDestination)
      → owns id ≡ true
      → ((x : EmailDestination) → p x ≡ true → x.id ≡ id)
      → ((x : EmailDestination)
          → ((new x).id ≡ x.id) × (is_alias hashes (new x) ≡ is_alias hashes x))
      → IsOwned owns hashes ds
      → (others hashes (update_many p new ds) ≡ others hashes ds)
        × IsOwned owns hashes (update_many p new ds)
  IsOwned-update id p new [] o hit keep h = (refl, tt)
  IsOwned-update id p new (d ∷ ds) o hit keep (h, hs) =
      let (same, owned) = IsOwned-update id p new ds o hit keep hs in
      elim (Bool-cases (p d)) [
        | inl e ↦
            let mine : is_alias hashes d ≡ true = sym h ∙ ap owns (hit d e) ∙ o in
            (rw (e, (keep d).1, mine) same, (rw e (ap owns (keep d).0 ∙ h ∙ sym (keep d).1), owned))
        | inr e ↦
            (rw e (ap (λ t. if not (is_alias hashes d) then d ∷ t else t) same), (rw e h, owned))
      ]

  module _ (delivery_id event_id : ℕ) (feedback : SesFeedback) (revision : EventRevision) where
    takes_suppression-id :
        (id : ℕ) (x : EmailDestination) → takes_suppression id revision x ≡ true → x.id ≡ id
    takes_suppression-id id x e = ground arith

    suppressed_later-id :
        (id : ℕ) (x : EmailDestination) → suppressed_later id feedback x ≡ true → x.id ≡ id
    suppressed_later-id id x e = ground arith

    settle-others :
        (id : ℕ) (ds : List EmailDestination)
        → owns id ≡ true
        → IsOwned owns hashes ds
        → (others hashes (settle_suppressed id delivery_id event_id feedback revision ds)
            ≡ others hashes ds)
          × IsOwned owns hashes (settle_suppressed id delivery_id event_id feedback revision ds)
    unfolding settle_suppressed suppress_by_event is_alias
    settle-others id ds o h =
        let (same, owned) =
          IsOwned-update id (takes_suppression id revision)
            (suppress_by_event delivery_id event_id feedback revision) ds o
            (takes_suppression-id id) (λ x. (refl, refl)) h in
        let (same', owned') =
          IsOwned-update id (suppressed_later id feedback)
            (λ d. record d { suppressed_at = some feedback.provider_timestamp }) _ o
            (suppressed_later-id id) (λ x. (refl, refl)) owned in
        (same' ∙ same, owned')

    module _ (new_id : List EmailDestination → ℕ) (n : ℕ) where
      abbrev created : RecipientHash → List EmailDestination → EmailDestination
      created h = new_suppressed new_id h delivery_id event_id feedback revision n

      abbrev upserted : RecipientHash → List EmailDestination → List EmailDestination × ℕ
      upserted h = upsert_suppressed new_id h delivery_id event_id feedback revision n

      abbrev after : RecipientHash → List EmailDestination → List EmailDestination
      after h = suppress_destination new_id h delivery_id event_id feedback revision n

      abbrev pub after_each : List RecipientHash → List EmailDestination → List EmailDestination
      after_each hs = suppress_each new_id hs delivery_id event_id feedback revision n

      created-has_key :
          (h : RecipientHash) (ds : List EmailDestination) → has_key h (created h ds) ≡ true
      unfolding new_suppressed has_key
      created-has_key h ds = ground arith

      upsert-HasRow : (h : RecipientHash) (ds : List EmailDestination) → HasRow h (upserted h ds).0
      unfolding upsert_suppressed has_key
      upsert-HasRow h ds = elim (Option-cases (find_unique (has_key h) ds)) [
        | inl e ↦
            rw (e, upsert_suppressed)
              (find_unique-append_last (has_key h) ds (created h ds) (created-has_key h ds))
        | inr (d, e) ↦
            rw (e, upsert_suppressed)
              (find_unique-update_many (has_key h) (has_key h) _ ds (λ x. refl) ∙ ap is_null e)
      ]

      upsert-keeps_row :
          (h g : RecipientHash) (ds : List EmailDestination)
          → HasRow g ds
          → HasRow g (upserted h ds).0
      unfolding upsert_suppressed has_key
      upsert-keeps_row h g ds r = elim (Option-cases (find_unique (has_key h) ds)) [
        | inl e ↦ rw (e, upsert_suppressed) (find_unique-append (has_key g) ds _ r)
        | inr (d, e) ↦
            rw (e, upsert_suppressed)
              (find_unique-update_many (has_key h) (has_key g) _ ds (λ x. refl) ∙ r)
      ]

      settle-keeps_row :
          (g : RecipientHash) (id : ℕ) (ds : List EmailDestination)
          → HasRow g ds
          → HasRow g (settle_suppressed id delivery_id event_id feedback revision ds)
      unfolding settle_suppressed suppress_by_event has_key
      settle-keeps_row g id ds r =
          find_unique-update_many (suppressed_later id feedback) (has_key g) _ _ (λ x. refl)
          ∙ find_unique-update_many (takes_suppression id revision) (has_key g) _ ds (λ x. refl)
          ∙ r

      after-HasRow : (h : RecipientHash) (ds : List EmailDestination) → HasRow h (after h ds)
      unfolding suppress_destination
      after-HasRow h ds = settle-keeps_row h _ _ (upsert-HasRow h ds)

      after-keeps_row :
          (h g : RecipientHash) (ds : List EmailDestination) → HasRow g ds → HasRow g (after h ds)
      unfolding suppress_destination
      after-keeps_row h g ds r = settle-keeps_row g _ _ (upsert-keeps_row h g ds r)

      after_each-keeps_row :
          (hs : List RecipientHash) (g : RecipientHash) (ds : List EmailDestination)
          → HasRow g ds
          → HasRow g (after_each hs ds)
      unfolding suppress_each
      after_each-keeps_row [] g ds r = r
      after_each-keeps_row (h ∷ hs) g ds r = after_each-keeps_row hs g _ (after-keeps_row h g ds r)

      pub after_each-HasRow :
          (hs : List RecipientHash) (ds : List EmailDestination)
          → All (λ h. HasRow h (after_each hs ds)) hs
      unfolding suppress_each
      after_each-HasRow [] ds = tt
      after_each-HasRow (h ∷ hs) ds =
          (after_each-keeps_row hs h _ (after-HasRow h ds), after_each-HasRow hs _)

      module _ (fresh : (t : List EmailDestination) → owns (new_id t) ≡ true) where
        upsert-others :
            (h : RecipientHash) (ds : List EmailDestination)
            → IsOf hashes h
            → IsOwned owns hashes ds
            → (others hashes (upserted h ds).0 ≡ others hashes ds)
              × IsOwned owns hashes (upserted h ds).0
              × (owns (upserted h ds).1 ≡ true)
        unfolding upsert_suppressed is_alias
        upsert-others h ds of owned = elim (Option-cases (find_unique (has_key h) ds)) [
          | inl e ↦
              let mine = of (created h ds) (created-has_key h ds) in
              rw (e, upsert_suppressed)
                (
                  find_many-append _ ds (created h ds ∷ [])
                      ∙ rw mine (append-nil (others hashes ds)),
                  All-append _ ds _ owned (fresh ds ∙ sym mine, tt),
                  fresh ds,
                )
          | inr (d, e) ↦
              rw (e, upsert_suppressed)
                (
                  find_many-update_many (has_key h) _ _ ds
                      (All-pointwise _ (λ x k. (ap not (of x k), ap not (of x k))) ds),
                  update_many-All _ (has_key h) _ ds (λ x o. o) owned,
                  find_unique-All _ (has_key h) ds d owned e
                      ∙ of d (find_unique-eq_some (has_key h) ds d e),
                )
        ]

        after-others :
            (h : RecipientHash) (ds : List EmailDestination)
            → IsOf hashes h
            → IsOwned owns hashes ds
            → (others hashes (after h ds) ≡ others hashes ds) × IsOwned owns hashes (after h ds)
        unfolding suppress_destination
        after-others h ds of owned =
            let (same, owned', o) = upsert-others h ds of owned in
            let (same', owned'') = settle-others (upserted h ds).1 (upserted h ds).0 o owned' in
            (same' ∙ same, owned'')

        pub after_each-others :
            (hs : List RecipientHash) (ds : List EmailDestination)
            → All (IsOf hashes) hs
            → IsOwned owns hashes ds
            → others hashes (after_each hs ds) ≡ others hashes ds
        unfolding suppress_each
        after_each-others [] ds of owned = refl
        after_each-others (h ∷ hs) ds (of, ofs) owned =
            let (same, owned') = after-others h ds of owned in
            after_each-others hs (after h ds) ofs owned' ∙ same
