-- ===== src/Auth/Session/Ended.antt =====
-- A session that has ended stays ended: no later statement makes it live again, and no refresh
-- with a cookie of it signs in.
use backend.Prelude.{
  ℕ, ◌-◌, ◌≡◌, ◌≢◌, sym, inl, inr, Bool, true, not, List, [], ◌∷◌, Option, some, find_unique,
  find_unique-mem, find_unique-eq_some, count_where_pos, update_many, count_where,
  count_where-append, count_where-update_le, count_where-find_many, arith,
}
use backend.Text.{Text}
use backend.Auth.Session.{Session, expired, refresh_reuse, logout, RequestMetadata, signed_in}
use backend.Auth.Session.Token.{ParsedRefreshToken, parse_refresh_token}
use backend.Auth.Session.Create.{IssuedRefreshCredential, new_session}
use backend.Auth.Session.Refresh.{
  is_session, is_live_session, expire_session, revoke_reused, refresh_session, revoke,
  takes_rotation, set_rotated,
}
use backend.Auth.Session.Logout.{
  revoke_session, revoke_all, delete_dead_sessions, is_dead_session, is_live_of,
  session_retention_ms,
}
use backend.Auth.Session.Steps.{
  expires, finds_reuse, logs_out, ends_all, cleans, audits, changes_users, History, is_issued, Step,
  creates, rotates, states, Run, stops, goes,
}
use backend.Auth.Session.Effects.{create_session-refresh_tokens, rotate-eq_some}
use backend.Auth.Session.SingleUse.{unlike_sym}
use backend.Auth.Session.Admitted.{refresh_session-IsAdmitted}

-- The identifier was given, and no live session has it.
pub record IsEnded (id : Text) (h : History) : Type 0 where
  pub was_issued : is_issued h.issued id ≡ true
  pub none_live : count_where (is_live_session id) h.tables.sessions ≡ 0

none_live-update :
    (id : Text) (p : Session → Bool) (new : Session → Session) (sessions : List Session)
    → ((s : Session) → p s ≡ true → is_live_session id (new s) ≡ true → is_live_session id s ≡ true)
    → count_where (is_live_session id) sessions ≡ 0
    → count_where (is_live_session id) (update_many p new sessions) ≡ 0
none_live-update id p new sessions keep none_there =
    omega (arith, none_there, count_where-update_le (is_live_session id) p new sessions keep)

Step-IsEnded : (id : Text) (h k : History) → IsEnded id h → Step h k → IsEnded id k
unfolding expire_session revoke_reused revoke_session revoke_all delete_dead_sessions new_session
Step-IsEnded id h k e (creates l user_id now remember_me expected metadata session_id issued f g) =
    record {
      was_issued = ground (arith, e.was_issued);
      none_live =
          elim (create_session-refresh_tokens l user_id now remember_me expected metadata session_id
            issued h.tables) [
              | inl (_, d) ↦ rw d e.none_live
              | inr (_, d) ↦
                  let s = new_session l user_id now remember_me metadata session_id issued in
                  rw d (
                    ground (
                      arith,
                      count_where-append (is_live_session id) h.tables.sessions (s ∷ []),
                      e.none_live,
                      unlike_sym h.issued session_id id f e.was_issued,
                    ))
            ];
    }
Step-IsEnded id h k e (rotates c fresh metadata now u f r) =
    let ((_, sessions), _) = rotate-eq_some c fresh metadata now h.tables u r in
    record {
      was_issued = ground (arith, e.was_issued);
      none_live = rw sessions (
          none_live-update id (takes_rotation c now) (set_rotated fresh metadata now)
            h.tables.sessions (λ s p q. q) e.none_live);
    }
Step-IsEnded id h k e (states u (expires i now)) = record {
  was_issued = e.was_issued;
  none_live =
      none_live-update id (is_session i) (revoke now expired) h.tables.sessions
        (λ s p q. ground (arith, q)) e.none_live;
}
Step-IsEnded id h k e (states u (finds_reuse i now)) = record {
  was_issued = e.was_issued;
  none_live =
      none_live-update id (is_live_session i) (revoke now refresh_reuse) h.tables.sessions
        (λ s p q. ground (arith, q)) e.none_live;
}
Step-IsEnded id h k e (states u (logs_out i now)) = record {
  was_issued = e.was_issued;
  none_live =
      none_live-update id (is_session i) (revoke now logout) h.tables.sessions
        (λ s p q. ground (arith, q)) e.none_live;
}
Step-IsEnded id h k e (states u (ends_all user_id reason now)) = record {
  was_issued = e.was_issued;
  none_live =
      none_live-update id (is_live_of user_id) (revoke now reason) h.tables.sessions
        (λ s p q. ground (arith, q)) e.none_live;
}
Step-IsEnded id h k e (states u (cleans now)) = record {
  was_issued = e.was_issued;
  none_live = omega (
    arith,
    e.none_live,
    count_where-find_many (is_live_session id)
        (λ s. not (is_dead_session (now - session_retention_ms) s)) h.tables.sessions,
  );
}
Step-IsEnded id h k e (states u (audits ev)) = record {
  was_issued = e.was_issued;
  none_live = e.none_live;
}
Step-IsEnded id h k e (states u (changes_users users)) = record {
  was_issued = e.was_issued;
  none_live = e.none_live;
}

pub Run-IsEnded : (id : Text) (h k : History) → IsEnded id h → Run h k → IsEnded id k
Run-IsEnded id h k e stops = e
Run-IsEnded id h k e (goes {k = g} r s) = Step-IsEnded id g k (Run-IsEnded id h g e r) s

-- Once no live session has an identifier that was given, no refresh with a cookie of that session
-- signs a user in, whatever statements of other requests run in between.
pub IsEnded-refresh_session :
    (compare : Text → Text → Bool) (cookie : Option Text) (parsed : ParsedRefreshToken)
    (fresh : IssuedRefreshCredential) (metadata : RequestMetadata) (now user_id : ℕ) (h k : History)
    → parse_refresh_token cookie ≡ some parsed
    → IsEnded parsed.session_id h
    → Run h k
    → (refresh_session compare cookie fresh metadata now k.tables).outcome ≢ signed_in user_id
IsEnded-refresh_session compare cookie parsed fresh metadata now user_id h k is_parsed e run
      signed =
    let ended = Run-IsEnded parsed.session_id h k e run in
    let (s, r, a, _) =
      refresh_session-IsAdmitted compare cookie fresh metadata now k.tables user_id signed in
    let same : a.parsed ≡ parsed = ground (arith, a.is_parsed) in
    let found : find_unique (is_session parsed.session_id) k.tables.sessions ≡ some s =
      rw (sym same) a.session_found in
    let matches = find_unique-eq_some _ k.tables.sessions s found in
    let live : is_live_session parsed.session_id s ≡ true =
      ground (arith, matches, a.not_revoked) in
    let one =
      count_where_pos (is_live_session parsed.session_id) s k.tables.sessions
        (find_unique-mem _ k.tables.sessions s found) live in
    omega (arith, one, ended.none_live)
