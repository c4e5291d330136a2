-- ===== src/Auth/Session/Replay/Twice.antt =====
-- A cookie that is used twice, in `refreshSession` of
-- apps/auth/src/app/session/services/session.service.ts.
use backend.Prelude.{
  ℕ, ◌+◌, ◌<◌, ◌≤◌, ◌≡◌, ◌⊎◌, ◌∙◌, refl, inl, inr, leb, Bool, true, List, [], ◌∷◌, ◌++◌, Option,
  some, ap, find_unique, update_many, Bool-cases, arith,
}
use backend.Text.{Text}
use backend.Auth.Session.{Session, SessionRefreshToken, RequestMetadata, unauthorized, signed_in}
use backend.Auth.Session.Create.{new_token, IssuedRefreshCredential}
use backend.Auth.Session.Refresh.{
  RefreshContext, is_session, is_token, handle_consumed_refresh_token, finish_refresh,
  refresh_session, takes_rotation, takes_consumption, set_rotated, set_consumed,
  record_refresh_metadata_changes, rotate_refresh_credential_atomically,
}
use backend.Auth.Session.Steps.{History, Reach}
use backend.Auth.Session.Admitted.{IsAdmitted, load-loaded}
use backend.Auth.Session.Live.{admitted-TakesBoth, refresh_session-signs_in}
use backend.Auth.Session.Replay.{IsSpent, IsUntouched, IsEnding, refresh_session-spent}

-- The row that is found is found after an update of the rows that keeps its key.
find-updated :
    {A : Type 0} (p q : A → Bool) (new : A → A) (xs : List A) (x : A)
    → ((y : A) → q (new y) ≡ q y)
    → find_unique q xs ≡ some x
    → p x ≡ true
    → find_unique q (update_many p new xs) ≡ some (new x)
find-updated p q new [] x keep e h = absurd (cc)
find-updated p q new (y ∷ ys) x keep e h = elim (Bool-cases (q y)) [
  | inl k ↦ ground (arith, keep y, k, e, h)
  | inr k ↦ ground (arith, keep y, k, e, find-updated p q new ys x keep (ground arith) h)
]

find-appended :
    {A : Type 0} (q : A → Bool) (xs ys : List A) (x : A)
    → find_unique q xs ≡ some x
    → find_unique q (xs ++ ys) ≡ some x
find-appended q [] ys x e = absurd (cc)
find-appended q (y ∷ xs) ys x e = ground (arith, find-appended q xs ys x)

module _ (compare : Text → Text → Bool) (cookie : Option Text) (fresh : IssuedRefreshCredential)
    (metadata : RequestMetadata) (now : ℕ) (h : History) (s : Session) (r : SessionRefreshToken)
    (reach : Reach h) (a : IsAdmitted compare cookie now h.tables s r) where
  abbrev admitted : RefreshContext
  admitted = record { parsed_token = a.parsed; refresh_token = r; session = s }

  rotated-tables :
      let u = (refresh_session compare cookie fresh metadata now h.tables).tables in
      (u.sessions
        ≡ update_many
            (takes_rotation admitted now)
            (set_rotated fresh metadata now)
            h.tables.sessions)
      × (u.refresh_tokens
          ≡ update_many (takes_consumption admitted) (set_consumed now) h.tables.refresh_tokens
            ++ new_token s.id fresh ∷ [])
  unfolding refresh_session handle_consumed_refresh_token finish_refresh
      rotate_refresh_credential_atomically record_refresh_metadata_changes
  rotated-tables =
      let both = admitted-TakesBoth compare cookie now h s r reach a in
      ground (
        arith,
        load-loaded compare cookie now h.tables s r a,
        a.not_consumed,
        both.one_session,
        both.one_token,
      )

  rotated-IsSpent :
      IsSpent compare cookie
        (refresh_session compare cookie fresh metadata now h.tables).tables
        (set_rotated fresh metadata now s)
        (set_consumed now r)
        now
  rotated-IsSpent =
      let both = admitted-TakesBoth compare cookie now h s r reach a in
      let t = h.tables in
      let found =
        find-updated (takes_rotation admitted now) (is_session a.parsed.session_id)
          (set_rotated fresh metadata now) t.sessions s (λ x. refl) a.session_found
          both.session_taken in
      let spent =
        find-appended (is_token a.parsed.token_id) _ (new_token s.id fresh ∷ [])
          (set_consumed now r)
          (find-updated (takes_consumption admitted) (is_token a.parsed.token_id) (set_consumed now)
            t.refresh_tokens r (λ x. refl) a.token_found both.token_taken) in
      record {
        parsed = a.parsed;
        is_parsed = a.is_parsed;
        session_found = ap (find_unique (is_session a.parsed.session_id)) rotated-tables.0 ∙ found;
        token_found = ap (find_unique (is_token a.parsed.token_id)) rotated-tables.1 ∙ spent;
        not_revoked = a.not_revoked;
        consumed = refl;
        is_owned = a.is_owned;
        is_verified = a.is_verified;
      }

-- In the tables that statements of any requests lead to, a cookie for an unspent token of a session
-- that is neither revoked nor over signs in, and used again right after or at any later time, with no
-- other request between, it is refused. Up to 3000 milliseconds after the rotation, if the session
-- is not over, the cookies stay and the second refresh changes no session and no token; else the
-- cookies are cleared and no session of the identifier is live.
pub refresh_session-replay :
    (compare : Text → Text → Bool) (cookie : Option Text) (fresh again : IssuedRefreshCredential)
    (metadata later_metadata : RequestMetadata) (now later : ℕ) (h : History) (s : Session)
    (r : SessionRefreshToken)
    → Reach h
    → IsAdmitted compare cookie now h.tables s r
    → now ≤ later
    → let first = refresh_session compare cookie fresh metadata now h.tables in
      let second = refresh_session compare cookie again later_metadata later first.tables in
      (first.outcome ≡ signed_in s.user_id)
      × (second.outcome ≡ unauthorized)
      × (((later ≤ now + 3000) × (later < s.expires_at) × IsUntouched first.tables second)
          ⊎ (((now + 3000 < later) ⊎ (s.expires_at ≤ later)) × IsEnding s.id second))
refresh_session-replay compare cookie fresh again metadata later_metadata now later h s r reach a
      order =
    let first = refresh_session compare cookie fresh metadata now h.tables in
    let (denied, rest) =
      refresh_session-spent compare cookie again later_metadata now later first.tables _ _
        (rotated-IsSpent compare cookie fresh metadata now h s r reach a) in
    (
      refresh_session-signs_in compare cookie fresh metadata now h s r reach a,
      denied,
      elim rest [
        | inl (early, grace, x) ↦ inl (grace.not_late, early, x)
        | inr (inl over, x) ↦ inr (inr over, x)
        | inr (inr outside, x) ↦ elim (Bool-cases (leb later (now + 3000))) [
          | inl e ↦ absurd (
              outside (record {
                is_last = refl;
                not_late = ground (arith, e);
                not_early = omega (arith, order);
              }))
          | inr e ↦ inr (inl (ground (arith, e)), x)
        ]
      ],
    )
