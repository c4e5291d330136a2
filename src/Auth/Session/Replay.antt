-- ===== src/Auth/Session/Replay.antt =====
-- What comes of a refresh token that was spent: the grace of `handleConsumedRefreshToken` of
-- apps/auth/src/app/session/services/session.service.ts.
pub mod Twice
use backend.Prelude.{
  ℕ, ◌+◌, ◌<◌, ◌≤◌, ◌≡◌, ◌⊎◌, ◌∙◌, refl, inl, inr, ◌==◌, leb, Bool, true, false, List, [], ◌∷◌,
  ◌++◌, Option, none, some, find_unique, update_many, update_many-All', count_where,
  count_where_none, Bool-cases, Option-cases, arith,
}
use backend.Text.{Text, text_eq}
use backend.Auth.Session.{
  Session, SessionRefreshToken, RequestMetadata, Tables, kept, cleared, unauthorized, signed_in,
  expired, refresh_reuse, session_expired, refresh_failed, concurrent_refresh_rotation,
  refresh_reuse_detected, Answer, audit,
}
use backend.Auth.Session.Token.{ParsedRefreshToken, parse_refresh_token}
use backend.Auth.Session.Create.{new_token, IssuedRefreshCredential}
use backend.Auth.Session.Refresh.{
  RefreshContext, loaded, refused, reject_session, throw_unauthorized, is_session, is_token,
  is_live_session, revoke, revoke_reused, expire_session, is_concurrent_reuse,
  assert_refresh_allowed, check_credential, credential_matches, load_and_validate_refresh_context,
  handle_consumed_refresh_token, finish_refresh, refresh_session, takes_rotation, takes_consumption,
  set_rotated, set_consumed, record_refresh_metadata_changes, rotate_refresh_credential_atomically,
}
use backend.Auth.Session.Steps.{History, Reach}
use backend.Auth.Session.Admitted.{IsAdmitted, load-loaded}
use backend.Auth.Session.Live.{admitted-TakesBoth, refresh_session-signs_in}

-- The cookie is for a session that is there, not revoked, and for a token of it that was spent.
pub record IsSpent (compare : Text → Text → Bool) (cookie : Option Text) (t : Tables) (s : Session)
    (r : SessionRefreshToken) (spent_at : ℕ) : Type 0 where
  pub parsed : ParsedRefreshToken
  pub is_parsed : parse_refresh_token cookie ≡ some parsed
  pub session_found : find_unique (is_session parsed.session_id) t.sessions ≡ some s
  pub token_found : find_unique (is_token parsed.token_id) t.refresh_tokens ≡ some r
  pub not_revoked : s.revoked_at ≡ none
  pub consumed : r.consumed_at ≡ some spent_at
  pub is_owned : text_eq r.session_id s.id ≡ true
  pub is_verified : compare parsed.refresh_credential r.credential_hash ≡ true

-- The last rotation of the session spent the token, and that is at most 3000 away from `now`.
pub record IsWithinGrace (s : Session) (spent_at now : ℕ) : Type 0 where
  pub is_last : s.rotated_at ≡ some spent_at
  pub not_late : now ≤ spent_at + 3000
  pub not_early : spent_at ≤ now + 3000

-- The cookies stay, and so do the sessions and the tokens.
pub record IsUntouched (t : Tables) (a : Answer) : Type 0 where
  pub cookies_kept : a.cookies ≡ kept
  pub sessions_same : a.tables.sessions ≡ t.sessions
  pub tokens_same : a.tables.refresh_tokens ≡ t.refresh_tokens

-- The cookies are cleared, and no session of the identifier is live.
pub record IsEnding (id : Text) (a : Answer) : Type 0 where
  pub cookies_cleared : a.cookies ≡ cleared
  pub none_live : count_where (is_live_session id) a.tables.sessions ≡ 0

grace-cases :
    (s : Session) (spent_at now : ℕ)
    → (IsWithinGrace s spent_at now × (is_concurrent_reuse s spent_at now ≡ true))
      ⊎ ((¬ IsWithinGrace s spent_at now) × (is_concurrent_reuse s spent_at now ≡ false))
unfolding is_concurrent_reuse
grace-cases s spent_at now = elim (Bool-cases (is_concurrent_reuse s spent_at now)) [
  | inr e ↦ inr (λ g. ground (arith, g.is_last, g.not_late, g.not_early, e), e)
  | inl e ↦ elim (Option-cases s.rotated_at) [
    | inl n ↦ absurd (ground (arith, n, e))
    | inr (last, l) ↦ inl (
      record {
        is_last = ground (arith, l, e);
        not_late = ground (arith, l, e);
        not_early = ground (arith, l, e);
      },
      e,
    )
  ]
]

module _ (compare : Text → Text → Bool) (cookie : Option Text) (now : ℕ) (t : Tables) (s : Session)
    (r : SessionRefreshToken) (spent_at : ℕ) (i : IsSpent compare cookie t s r spent_at) where
  abbrev context : RefreshContext
  context = record { parsed_token = i.parsed; refresh_token = r; session = s }

  load-spent :
      now < s.expires_at → load_and_validate_refresh_context compare cookie now t ≡ loaded context
  unfolding load_and_validate_refresh_context assert_refresh_allowed check_credential
      credential_matches
  load-spent early = ground (
    arith, i.is_parsed, i.session_found, i.token_found, i.not_revoked, early, i.is_owned,
    i.is_verified,
  )

  load-over :
      s.expires_at ≤ now
      → load_and_validate_refresh_context compare cookie now t
        ≡ refused
            (reject_session (audit (session_expired s.id s.user_id) (expire_session s.id now t)))
  unfolding load_and_validate_refresh_context assert_refresh_allowed
  load-over over = ground (arith, i.is_parsed, i.session_found, i.not_revoked, over)

  expire-ends : count_where (is_live_session s.id) (expire_session s.id now t).sessions ≡ 0
  unfolding expire_session
  expire-ends = count_where_none (is_live_session s.id) _ (
      update_many-All' (λ x. is_live_session s.id x ≡ false) (is_session s.id) (revoke now expired)
        t.sessions (λ x h. ground arith) (λ x h. ground (arith, h)))

  reuse-ends : count_where (is_live_session s.id) (revoke_reused s.id now t).sessions ≡ 0
  unfolding revoke_reused
  reuse-ends = count_where_none (is_live_session s.id) _ (
      update_many-All' (λ x. is_live_session s.id x ≡ false) (is_live_session s.id)
        (revoke now refresh_reuse) t.sessions (λ x h. ground arith) (λ x h. h))

  module _ (fresh : IssuedRefreshCredential) (metadata : RequestMetadata) where
    abbrev answer : Answer
    answer = refresh_session compare cookie fresh metadata now t

    over-outcome : s.expires_at ≤ now → (answer.outcome ≡ unauthorized) × IsEnding s.id answer
    unfolding refresh_session
    over-outcome over =
        let load = load-over over in
        let ended = expire-ends in
        rw (refresh_session, load) (refl, record { cookies_cleared = refl; none_live = ended })

    grace-outcome :
        now < s.expires_at
        → is_concurrent_reuse s spent_at now ≡ true
        → (answer.outcome ≡ unauthorized) × IsUntouched t answer
    unfolding refresh_session handle_consumed_refresh_token
    grace-outcome early within =
        let load = load-spent early in
        let handle : handle_consumed_refresh_token context now t
            ≡ some (
                throw_unauthorized
                  (audit (refresh_failed s.id s.user_id concurrent_refresh_rotation) t)) =
          ground (arith, i.consumed, within) in
        rw (refresh_session, load)
          (rw handle
            (refl, record { cookies_kept = refl; sessions_same = refl; tokens_same = refl }))

    reuse-outcome :
        now < s.expires_at
        → is_concurrent_reuse s spent_at now ≡ false
        → (answer.outcome ≡ unauthorized) × IsEnding s.id answer
    unfolding refresh_session handle_consumed_refresh_token
    reuse-outcome early late =
        let load = load-spent early in
        let ended = reuse-ends in
        let u = revoke_reused s.id now t in
        elim (Bool-cases (count_where (is_live_session s.id) t.sessions == 1)) [
          | inl one ↦
              let handle : handle_consumed_refresh_token context now t
                  ≡ some (reject_session (audit (refresh_reuse_detected s.id s.user_id) u)) =
                ground (arith, i.consumed, late, one) in
              rw (refresh_session, load)
                (rw handle (refl, record { cookies_cleared = refl; none_live = ended }))
          | inr many ↦
              let handle : handle_consumed_refresh_token context now t ≡ some (reject_session u) =
                ground (arith, i.consumed, late, many) in
              rw (refresh_session, load)
                (rw handle (refl, record { cookies_cleared = refl; none_live = ended }))
        ]

-- A refresh with the credential of a spent token of a session that is not revoked is refused. If the
-- session is not over, its last rotation is the one that spent the token, and the time of that is at
-- most 3000 milliseconds from now, then the cookies stay and no session and no token changes; else
-- the cookies are cleared, and no session of the identifier is live.
pub refresh_session-spent :
    (compare : Text → Text → Bool) (cookie : Option Text) (fresh : IssuedRefreshCredential)
    (metadata : RequestMetadata) (spent_at now : ℕ) (t : Tables) (s : Session)
    (r : SessionRefreshToken)
    → IsSpent compare cookie t s r spent_at
    → let a = refresh_session compare cookie fresh metadata now t in
      (a.outcome ≡ unauthorized)
      × (((now < s.expires_at) × IsWithinGrace s spent_at now × IsUntouched t a)
          ⊎ (((s.expires_at ≤ now) ⊎ (¬ IsWithinGrace s spent_at now)) × IsEnding s.id a))
refresh_session-spent compare cookie fresh metadata spent_at now t s r i =
    elim (Bool-cases (leb s.expires_at now)) [
      | inl over ↦
          let past : s.expires_at ≤ now = ground (arith, over) in
          let (e, x) = over-outcome compare cookie now t s r spent_at i fresh metadata past in
          (e, inr (inl past, x))
      | inr live ↦
          let early : now < s.expires_at = ground (arith, live) in
          elim (grace-cases s spent_at now) [
            | inl (grace, k) ↦
                let (e, x) =
                  grace-outcome compare cookie now t s r spent_at i fresh metadata early k in
                (e, inl (early, grace, x))
            | inr (no_grace, k) ↦
                let (e, x) =
                  reuse-outcome compare cookie now t s r spent_at i fresh metadata early k in
                (e, inr (inr no_grace, x))
          ]
    ]
