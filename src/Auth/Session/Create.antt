-- ===== src/Auth/Session/Create.antt =====
-- `createSession` of apps/auth/src/app/session/services/session.service.ts.
use backend.Prelude.{
  ℕ, ◌+◌, Bool, true, false, not, [], ◌∷◌, ◌++◌, Option, none, some, ◌==◌, find_unique,
  if◌then◌else◌, non_null_and,
}
use backend.Text.{Text, text_eq}
use backend.Auth.Session.{
  User, Session, SessionRefreshToken, session_started, Tables, RequestMetadata, kept,
  set_auth_cookies, unauthorized, credential_changed, signed_in, Answer, audit,
}
use backend.Auth.Session.Token.{refresh_cookie}

-- `issueRefreshCredential`: a random token and secret, and the hash of the two.
pub record IssuedRefreshCredential : Type 0 where
  pub token_id : Text
  pub credential : Text
  pub hash : Text

-- `REFRESH_EXPIRATION_MS` and `SESSION_REFRESH_EXPIRATION_MS`
pub record Lifetimes : Type 0 where
  pub refresh_ms : ℕ
  pub session_refresh_ms : ℕ

unfoldable pub get_refresh_expires_at : Lifetimes → ℕ → Bool → ℕ
get_refresh_expires_at l now remember_me =
    now + (if remember_me then l.refresh_ms else l.session_refresh_ms)

abbrev pub is_user : ℕ → User → Bool
is_user user_id u = u.id == user_id

-- `credentials[0]?.password !== expectedPasswordHash`, where a password is expected.
unfoldable pub credentials_changed : Option Text → Option User → Bool
credentials_changed none user = false
credentials_changed (some expected) none = true
credentials_changed (some expected) (some u) =
    not (non_null_and (λ hash. text_eq hash expected) u.password)

unfoldable pub new_session :
    Lifetimes
    → (user_id now : ℕ) → Bool
    → RequestMetadata
    → Text
    → IssuedRefreshCredential
    → Session
unfolding get_refresh_expires_at
new_session l user_id now remember_me metadata session_id issued = record {
  id = session_id;
  user_id = user_id;
  refresh_token_hash = issued.hash;
  expires_at = get_refresh_expires_at l now remember_me;
  revoked_at = none;
  revoked_reason = none;
  last_used_at = some now;
  rotated_at = some now;
  remember_me = remember_me;
  user_agent = metadata.user_agent;
  ip_hash = metadata.ip_hash;
}

abbrev pub new_token : Text → IssuedRefreshCredential → SessionRefreshToken
new_token session_id issued = record {
  id = issued.token_id;
  session_id = session_id;
  credential_hash = issued.hash;
  consumed_at = none;
}

abbrev pub insert_session : Session → IssuedRefreshCredential → Tables → Tables
insert_session s issued t = record {
  users = t.users;
  sessions = t.sessions ++ s ∷ [];
  refresh_tokens = t.refresh_tokens ++ new_token s.id issued ∷ [];
  events = t.events;
}

-- `session_id` is the identifier that the table gives the new row.
unfoldable pub create_session :
    Lifetimes
    → (user_id now : ℕ) → (remember_me : Bool) → (expected_password_hash : Option Text)
    → RequestMetadata
    → (session_id : Text) → IssuedRefreshCredential
    → Tables
    → Answer
unfolding credentials_changed new_session
create_session l user_id now remember_me expected metadata session_id issued t =
    let user = find_unique (is_user user_id) t.users in
    let s = new_session l user_id now remember_me metadata session_id issued in
    if credentials_changed expected user
    then record { outcome = credential_changed; cookies = kept; tables = t }
    else elim user [
      | none ↦ record { outcome = unauthorized; cookies = kept; tables = t }
      | some u ↦ record {
        outcome = signed_in u.id;
        cookies = set_auth_cookies u.id (refresh_cookie session_id issued.credential) remember_me;
        tables = audit (session_started session_id user_id) (insert_session s issued t);
      }
    ]
