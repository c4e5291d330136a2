-- ===== src/Auth/Session/Logout.antt =====
-- `logout` and `logoutAll` of apps/auth/src/app/session/services/session.service.ts, the change of a
-- password that ends the sessions, and `deleteExpiredData` of session-cleanup.service.ts as far as
-- the sessions go.
use backend.Prelude.{
  ℕ, ◌-◌, Bool, ◌&&◌, ◌||◌, List, Option, none, some, ◌==◌, ltb, is_null, non_null_and, any,
  find_unique, update_many, count_where, delete_many, if◌then◌else◌,
}
use backend.Text.{Text, text_eq}
use backend.Auth.Session.{
  SessionRevokedReason, logout_all, Session, SessionRefreshToken, logged_out, logged_out_all,
  Tables, Cookies, cleared, audit,
}
use backend.Auth.Session.Token.{parse_refresh_token}
use backend.Auth.Session.Refresh.{is_session, revoke}

-- The update of `logout`.
unfoldable pub revoke_session : Text → ℕ → Tables → Tables
revoke_session id now t = record t {
  sessions = update_many (is_session id) (revoke now SessionRevokedReason.logout) t.sessions;
}

-- What is returned is `true` always; the cookies are cleared and these are the tables.
unfoldable pub logout :
    (compare : Text → Text → Bool) → (cookie : Option Text) → ℕ → Tables → Cookies × Tables
unfolding revoke_session
logout compare cookie now t = elim (parse_refresh_token cookie) [
  | none ↦ (cleared, t)
  | some parsed ↦ elim (find_unique (is_session parsed.session_id) t.sessions) [
    | none ↦ (cleared, t)
    | some s ↦
        if is_null s.revoked_at && compare parsed.refresh_credential s.refresh_token_hash
        then (cleared, audit (logged_out s.id s.user_id) (revoke_session s.id now t))
        else (cleared, t)
  ]
]

abbrev pub is_live_of : ℕ → Session → Bool
is_live_of user_id s = s.user_id == user_id && is_null s.revoked_at

-- `updateMany` of the live sessions of a user.
unfoldable pub revoke_all : ℕ → SessionRevokedReason → ℕ → Tables → Tables
revoke_all user_id reason now t = record t {
  sessions = update_many (is_live_of user_id) (revoke now reason) t.sessions;
}

unfoldable pub logout_all_sessions : ℕ → ℕ → Tables → Cookies × Tables
unfolding revoke_all
logout_all_sessions user_id now t = (
  cleared,
  audit (logged_out_all user_id (count_where (is_live_of user_id) t.sessions))
      (revoke_all user_id logout_all now t),
)

-- 30 days.
abbrev pub session_retention_ms : ℕ
session_retention_ms = 2592000000

-- `expiresAt < cutoff` or `revokedAt < cutoff`, for the cutoff of 30 days ago.
unfoldable pub is_dead_session : ℕ → Session → Bool
is_dead_session cutoff s =
    ltb s.expires_at cutoff || non_null_and (λ at. ltb at cutoff) s.revoked_at

abbrev pub is_token_of_dead : ℕ → List Session → SessionRefreshToken → Bool
is_token_of_dead cutoff sessions r =
    any (λ (s : Session). text_eq s.id r.session_id && is_dead_session cutoff s) sessions

-- The tokens go with their sessions. The times are later than 30 days after the epoch.
unfoldable pub delete_dead_sessions : (now : ℕ) → Tables → Tables
unfolding is_dead_session
delete_dead_sessions now t =
    let cutoff = now - session_retention_ms in
    record t {
      sessions = delete_many (is_dead_session cutoff) t.sessions;
      refresh_tokens = delete_many (is_token_of_dead cutoff t.sessions) t.refresh_tokens;
    }
