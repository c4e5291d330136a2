-- ===== src/Auth/Session/Refresh.antt =====
-- `refreshSession` of apps/auth/src/app/session/services/session.service.ts and its parts. `compare`
-- is bcrypt's comparison of a credential with a hash.
use backend.Prelude.{
  ℕ, ◌+◌, ◌-◌, Bool, false, not, ◌&&◌, [], ◌∷◌, ◌++◌, Option, none, some, ◌==◌, ltb, leb, is_null,
  non_null_and, find_unique, update_many, count_where, if◌then◌else◌,
}
use backend.Text.{Text, text_eq}
use backend.Auth.Session.{
  SessionRevokedReason, expired, refresh_reuse, Session, SessionRefreshToken, session_revoked,
  invalid_refresh_secret, concurrent_refresh_rotation, refresh_failed, refresh_reuse_detected,
  session_expired, refresh_success, suspicious_ip, suspicious_user_agent, Tables, RequestMetadata,
  kept, cleared, set_auth_cookies, unauthorized, signed_in, Answer, audit,
}
use backend.Auth.Session.Token.{ParsedRefreshToken, parse_refresh_token, refresh_cookie}
use backend.Auth.Session.Create.{IssuedRefreshCredential, new_token}

pub record RefreshContext : Type 0 where
  pub parsed_token : ParsedRefreshToken
  pub refresh_token : SessionRefreshToken
  pub session : Session

pub data Loaded : Type 0 where
  refused : Answer → Loaded
  loaded : RefreshContext → Loaded

-- `REFRESH_REUSE_GRACE_MS`
abbrev pub refresh_reuse_grace_ms : ℕ
refresh_reuse_grace_ms = 3000

abbrev pub is_session : Text → Session → Bool
is_session id s = text_eq s.id id

abbrev pub is_token : Text → SessionRefreshToken → Bool
is_token id r = text_eq r.id id

-- `rejectSession`: the cookies are cleared.
abbrev pub reject_session : Tables → Answer
reject_session t = record { outcome = unauthorized; cookies = cleared; tables = t }

-- An `UnauthorizedException` of its own.
abbrev pub throw_unauthorized : Tables → Answer
throw_unauthorized t = record { outcome = unauthorized; cookies = kept; tables = t }

abbrev pub revoke : ℕ → SessionRevokedReason → Session → Session
revoke now reason s = record s { revoked_at = some now; revoked_reason = some reason }

-- The update of a session that is over.
unfoldable pub expire_session : Text → ℕ → Tables → Tables
expire_session id now t = record t {
  sessions = update_many (is_session id) (revoke now expired) t.sessions;
}

unfoldable pub assert_refresh_allowed : Session → ℕ → Tables → Option Answer
unfolding expire_session
assert_refresh_allowed s now t =
    if not (is_null s.revoked_at)
    then some (reject_session (audit (refresh_failed s.id s.user_id session_revoked) t))
    else if leb s.expires_at now
    then some (reject_session (audit (session_expired s.id s.user_id) (expire_session s.id now t)))
    else none

-- The token found is of the session, and the credential is the one it was made for.
unfoldable pub credential_matches :
    (compare : Text → Text → Bool)
    → ParsedRefreshToken
    → Session
    → Option SessionRefreshToken
    → Bool
credential_matches compare parsed s token =
    non_null_and
      (λ (r : SessionRefreshToken).
        text_eq r.session_id s.id && compare parsed.refresh_credential r.credential_hash)
      token

unfoldable pub check_credential :
    (compare : Text → Text → Bool)
    → ParsedRefreshToken
    → Option SessionRefreshToken
    → Session
    → Tables
    → Loaded
unfolding credential_matches
check_credential compare parsed none s t =
    refused (throw_unauthorized (audit (refresh_failed s.id s.user_id invalid_refresh_secret) t))
check_credential compare parsed (some r) s t =
    if credential_matches compare parsed s (some r)
    then loaded (record { parsed_token = parsed; refresh_token = r; session = s })
    else refused
        (throw_unauthorized (audit (refresh_failed s.id s.user_id invalid_refresh_secret) t))

unfoldable pub load_and_validate_refresh_context :
    (compare : Text → Text → Bool) → (cookie : Option Text) → (now : ℕ) → Tables → Loaded
unfolding assert_refresh_allowed check_credential
load_and_validate_refresh_context compare cookie now t = elim (parse_refresh_token cookie) [
  | none ↦ refused (reject_session t)
  | some parsed ↦ elim (find_unique (is_session parsed.session_id) t.sessions) [
    | none ↦ refused (reject_session t)
    | some s ↦ elim (assert_refresh_allowed s now t) [
      | some answer ↦ refused answer
      | none ↦
          check_credential compare parsed (find_unique (is_token parsed.token_id) t.refresh_tokens)
            s t
    ]
  ]
]

abbrev pub is_live_session : Text → Session → Bool
is_live_session id s = text_eq s.id id && is_null s.revoked_at

-- The update of a session whose spent token came back.
unfoldable pub revoke_reused : Text → ℕ → Tables → Tables
revoke_reused id now t = record t {
  sessions = update_many (is_live_session id) (revoke now refresh_reuse) t.sessions;
}

-- `Math.abs` of a difference of times; one of the two is 0.
abbrev pub distance : ℕ → ℕ → ℕ
distance a b = (a - b) + (b - a)

-- The token is the one that the last rotation spent, not longer ago than the grace.
unfoldable pub is_concurrent_reuse : Session → ℕ → ℕ → Bool
is_concurrent_reuse s consumed_at now =
    non_null_and (λ at. at == consumed_at) s.rotated_at
    && leb (distance now consumed_at) refresh_reuse_grace_ms

unfoldable pub handle_consumed_refresh_token : RefreshContext → ℕ → Tables → Option Answer
unfolding revoke_reused is_concurrent_reuse
handle_consumed_refresh_token c now t = elim c.refresh_token.consumed_at [
  | none ↦ none
  | some consumed_at ↦
      let s = c.session in
      if is_concurrent_reuse s consumed_at now
      then some
          (throw_unauthorized (audit (refresh_failed s.id s.user_id concurrent_refresh_rotation) t))
      else some (
          reject_session (
            if count_where (is_live_session s.id) t.sessions == 1
            then audit (refresh_reuse_detected s.id s.user_id) (revoke_reused s.id now t)
            else revoke_reused s.id now t))
]

abbrev pub takes_rotation : RefreshContext → ℕ → Session → Bool
takes_rotation c now s =
    text_eq s.id c.session.id
    && text_eq s.refresh_token_hash c.refresh_token.credential_hash
    && is_null s.revoked_at
    && ltb now s.expires_at

abbrev pub set_rotated : IssuedRefreshCredential → RequestMetadata → ℕ → Session → Session
set_rotated next metadata now s = record s {
  refresh_token_hash = next.hash;
  last_used_at = some now;
  rotated_at = some now;
  user_agent = metadata.user_agent;
  ip_hash = metadata.ip_hash;
}

abbrev pub takes_consumption : RefreshContext → SessionRefreshToken → Bool
takes_consumption c r =
    text_eq r.id c.parsed_token.token_id
    && text_eq r.session_id c.session.id
    && text_eq r.credential_hash c.refresh_token.credential_hash
    && is_null r.consumed_at

abbrev pub set_consumed : ℕ → SessionRefreshToken → SessionRefreshToken
set_consumed now r = record r { consumed_at = some now }

-- The transaction: `none` is the `SessionRotationConflictError` that rolls it back.
unfoldable pub rotate_refresh_credential_atomically :
    RefreshContext → IssuedRefreshCredential → RequestMetadata → ℕ → Tables → Option Tables
rotate_refresh_credential_atomically c next metadata now t =
    if not (count_where (takes_rotation c now) t.sessions == 1)
    then none
    else if not (count_where (takes_consumption c) t.refresh_tokens == 1)
    then none
    else some (record {
      users = t.users;
      sessions = update_many (takes_rotation c now) (set_rotated next metadata now) t.sessions;
      refresh_tokens =
          update_many (takes_consumption c) (set_consumed now) t.refresh_tokens
          ++ new_token c.session.id next ∷ [];
      events = t.events;
    })

-- An empty text is falsy.
abbrev pub is_change : Option Text → Option Text → Bool
is_change (some (a ∷ s)) (some (b ∷ t)) = not (text_eq (a ∷ s) (b ∷ t))
is_change _ _ = false

-- `recordRefreshMetadataChanges`
unfoldable pub record_refresh_metadata_changes : Session → RequestMetadata → Tables → Tables
record_refresh_metadata_changes s metadata t =
    let u =
      if is_change s.ip_hash metadata.ip_hash then audit (suspicious_ip s.id s.user_id) t else t in
    if is_change s.user_agent metadata.user_agent
    then audit (suspicious_user_agent s.id s.user_id) u
    else u

-- The part of `refreshSession` after the spent tokens are refused.
unfoldable pub finish_refresh :
    RefreshContext → IssuedRefreshCredential → RequestMetadata → ℕ → Tables → Answer
unfolding rotate_refresh_credential_atomically record_refresh_metadata_changes
finish_refresh c next metadata now t =
    let s = c.session in
    elim (rotate_refresh_credential_atomically c next metadata now t) [
      | none ↦
          throw_unauthorized (audit (refresh_failed s.id s.user_id concurrent_refresh_rotation) t)
      | some u ↦ record {
        outcome = signed_in s.user_id;
        cookies = set_auth_cookies s.user_id (refresh_cookie s.id next.credential) s.remember_me;
        tables =
            audit (refresh_success s.id s.user_id) (record_refresh_metadata_changes s metadata u);
      }
    ]

unfoldable pub refresh_session :
    (compare : Text → Text → Bool)
    → (cookie : Option Text) → IssuedRefreshCredential
    → RequestMetadata
    → ℕ
    → Tables
    → Answer
unfolding load_and_validate_refresh_context handle_consumed_refresh_token finish_refresh
refresh_session compare cookie next metadata now t =
    elim (load_and_validate_refresh_context compare cookie now t) [
      | refused answer ↦ answer
      | loaded c ↦ elim (handle_consumed_refresh_token c now t) [
        | some answer ↦ answer
        | none ↦ finish_refresh c next metadata now t
      ]
    ]
