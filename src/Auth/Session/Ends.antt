-- ===== src/Auth/Session/Ends.antt =====
-- What ends sessions: `logout` and `logoutAll` of
-- apps/auth/src/app/session/services/session.service.ts.
use backend.Prelude.{
  ℕ, ◌≡◌, Bool, true, false, List, [], ◌∷◌, Option, none, some, ◌==◌, find_unique, update_many,
  update_many-All', count_where, count_where_none, if◌then◌else◌, arith,
}
use backend.Text.{Text}
use backend.Auth.Session.{Session, Tables, cleared, SessionRevokedReason, logout_all}
use backend.Auth.Session.Token.{ParsedRefreshToken, parse_refresh_token}
use backend.Auth.Session.Refresh.{is_session, is_live_session, revoke}
use backend.Auth.Session.Logout.{
  revoke_session, logout, is_live_of, revoke_all, logout_all_sessions,
}

-- A logout with the current credential of a session that is not revoked leaves no live session of
-- its identifier, and clears the cookies.
pub logout-ends :
    (compare : Text → Text → Bool) (cookie : Option Text) (parsed : ParsedRefreshToken) (now : ℕ)
    (t : Tables) (s : Session)
    → parse_refresh_token cookie ≡ some parsed
    → find_unique (is_session parsed.session_id) t.sessions ≡ some s
    → s.revoked_at ≡ none
    → compare parsed.refresh_credential s.refresh_token_hash ≡ true
    → ((logout compare cookie now t).0 ≡ cleared)
      × (count_where (is_live_session s.id) (logout compare cookie now t).1.sessions ≡ 0)
unfolding logout revoke_session
logout-ends compare cookie parsed now t s is_parsed found live verified =
    let ended = count_where_none (is_live_session s.id) _ (
      update_many-All' (λ x. is_live_session s.id x ≡ false) (is_session s.id)
        (revoke now SessionRevokedReason.logout) t.sessions (λ x h. ground arith)
        (λ x h. ground (arith, h))) in
    ground (arith, is_parsed, found, live, verified, ended)

live_of-revoke :
    (user_id other now : ℕ) (sessions : List Session)
    → count_where
        (is_live_of other)
        (update_many (is_live_of user_id) (revoke now logout_all) sessions)
      ≡ (if user_id == other then 0 else count_where (is_live_of other) sessions)
live_of-revoke user_id other now [] = ground arith
live_of-revoke user_id other now (s ∷ sessions) =
    ground (arith, live_of-revoke user_id other now sessions)

-- After `logoutAll` no session of the user is live, and the sessions of the other users are live
-- as they were.
pub logout_all_sessions-ends :
    (user_id now other : ℕ) (t : Tables)
    → count_where (is_live_of other) (logout_all_sessions user_id now t).1.sessions
      ≡ (if user_id == other then 0 else count_where (is_live_of other) t.sessions)
unfolding logout_all_sessions revoke_all
logout_all_sessions-ends user_id now other t = live_of-revoke user_id other now t.sessions
