-- ===== src/Auth/Session/Admitted.antt =====
-- What `refreshSession` of apps/auth/src/app/session/services/session.service.ts lets through.
use backend.Prelude.{ℕ, ◌<◌, ◌≡◌, Bool, true, Option, none, some, find_unique, count_where, arith}
use backend.Text.{Text, text_eq}
use backend.Auth.Session.{Session, SessionRefreshToken, RequestMetadata, Tables, signed_in}
use backend.Auth.Session.Token.{ParsedRefreshToken, parse_refresh_token}
use backend.Auth.Session.Create.{IssuedRefreshCredential}
use backend.Auth.Session.Refresh.{
  RefreshContext, is_session, is_token, loaded, assert_refresh_allowed, check_credential,
  credential_matches, load_and_validate_refresh_context, handle_consumed_refresh_token,
  finish_refresh, refresh_session, takes_rotation, takes_consumption,
  rotate_refresh_credential_atomically,
}

-- The cookie is for this session and this unspent token of its, and the session may go on.
pub record IsAdmitted (compare : Text → Text → Bool) (cookie : Option Text) (now : ℕ) (t : Tables)
    (s : Session) (r : SessionRefreshToken) : Type 0 where
  pub parsed : ParsedRefreshToken
  pub is_parsed : parse_refresh_token cookie ≡ some parsed
  pub session_found : find_unique (is_session parsed.session_id) t.sessions ≡ some s
  pub token_found : find_unique (is_token parsed.token_id) t.refresh_tokens ≡ some r
  pub not_revoked : s.revoked_at ≡ none
  pub not_expired : now < s.expires_at
  pub not_consumed : r.consumed_at ≡ none
  pub is_owned : text_eq r.session_id s.id ≡ true
  pub is_verified : compare parsed.refresh_credential r.credential_hash ≡ true

pub load-eq_loaded :
    (compare : Text → Text → Bool) (cookie : Option Text) (now : ℕ) (t : Tables)
    (c : RefreshContext)
    → load_and_validate_refresh_context compare cookie now t ≡ loaded c
    → (parse_refresh_token cookie ≡ some c.parsed_token)
      × (find_unique (is_session c.parsed_token.session_id) t.sessions ≡ some c.session)
      × (find_unique (is_token c.parsed_token.token_id) t.refresh_tokens ≡ some c.refresh_token)
      × (c.session.revoked_at ≡ none)
      × (now < c.session.expires_at)
      × (text_eq c.refresh_token.session_id c.session.id ≡ true)
      × (compare c.parsed_token.refresh_credential c.refresh_token.credential_hash ≡ true)
unfolding load_and_validate_refresh_context assert_refresh_allowed check_credential
    credential_matches
load-eq_loaded compare cookie now t c e = ground arith

refresh_session-eq_signed_in :
    (compare : Text → Text → Bool) (cookie : Option Text) (fresh : IssuedRefreshCredential)
    (metadata : RequestMetadata) (now : ℕ) (t : Tables) (user_id : ℕ)
    → (refresh_session compare cookie fresh metadata now t).outcome ≡ signed_in user_id
    → (c : RefreshContext) × (load_and_validate_refresh_context compare cookie now t ≡ loaded c)
      × (c.refresh_token.consumed_at ≡ none)
      × (c.session.user_id ≡ user_id)
unfolding refresh_session handle_consumed_refresh_token finish_refresh
refresh_session-eq_signed_in compare cookie fresh metadata now t user_id e = ground arith

-- A refresh that signs a user in had a cookie for a session of that user that is neither revoked nor
-- over, with a token of that session that is not spent and with the credential of that token.
pub refresh_session-IsAdmitted :
    (compare : Text → Text → Bool) (cookie : Option Text) (fresh : IssuedRefreshCredential)
    (metadata : RequestMetadata) (now : ℕ) (t : Tables) (user_id : ℕ)
    → (refresh_session compare cookie fresh metadata now t).outcome ≡ signed_in user_id
    → (s : Session) × (r : SessionRefreshToken) × IsAdmitted compare cookie now t s r
      × (s.user_id ≡ user_id)
refresh_session-IsAdmitted compare cookie fresh metadata now t user_id e =
    let (c, l, unspent, user) =
      refresh_session-eq_signed_in compare cookie fresh metadata now t user_id e in
    let (p, s, r, live, early, own, verified) = load-eq_loaded compare cookie now t c l in
    (
      c.session,
      c.refresh_token,
      record {
        parsed = c.parsed_token;
        is_parsed = p;
        session_found = s;
        token_found = r;
        not_revoked = live;
        not_expired = early;
        not_consumed = unspent;
        is_owned = own;
        is_verified = verified;
      },
      user,
    )

pub load-loaded :
    (compare : Text → Text → Bool) (cookie : Option Text) (now : ℕ) (t : Tables) (s : Session)
    (r : SessionRefreshToken) (a : IsAdmitted compare cookie now t s r)
    → load_and_validate_refresh_context compare cookie now t
      ≡ loaded (record { parsed_token = a.parsed; refresh_token = r; session = s })
unfolding load_and_validate_refresh_context assert_refresh_allowed check_credential
    credential_matches
load-loaded compare cookie now t s r a = ground (
  arith, a.is_parsed, a.session_found, a.token_found, a.not_revoked, a.not_expired, a.is_owned,
  a.is_verified,
)

-- A refresh that is admitted signs in, where the rotation takes its rows.
pub refresh_session-rotates :
    (compare : Text → Text → Bool) (cookie : Option Text) (fresh : IssuedRefreshCredential)
    (metadata : RequestMetadata) (now : ℕ) (t : Tables) (s : Session) (r : SessionRefreshToken)
    (a : IsAdmitted compare cookie now t s r)
    → let c : RefreshContext = record { parsed_token = a.parsed; refresh_token = r; session = s } in
      count_where (takes_rotation c now) t.sessions ≡ 1
      → count_where (takes_consumption c) t.refresh_tokens ≡ 1
      → (refresh_session compare cookie fresh metadata now t).outcome ≡ signed_in s.user_id
unfolding refresh_session handle_consumed_refresh_token finish_refresh
    rotate_refresh_credential_atomically
refresh_session-rotates compare cookie fresh metadata now t s r a one taken =
    ground (arith, load-loaded compare cookie now t s r a, a.not_consumed, one, taken)
