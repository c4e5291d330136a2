-- ===== src/Auth/Session/Refines.antt =====
-- A whole `refreshSession`, `logout` or `logoutAll` of apps/auth/src/app/session/services/
-- session.service.ts is a sequence of the statements that interleave.
use backend.Prelude.{
  ℕ, ◌≡◌, refl, sym, ◌⊎◌, inl, inr, Bool, false, ◌∷◌, Option, none, some, Option-cases, is_null,
  leb, count_where, ◌==◌, find_unique, Bool-cases,
}
use mathlib.Core.Path.{subst}
use backend.Text.{Text}
use backend.Auth.Session.{
  RequestMetadata, SessionRefreshToken, refresh_failed, invalid_refresh_secret, session_revoked,
  session_expired, concurrent_refresh_rotation, refresh_reuse_detected, suspicious_ip,
  suspicious_user_agent, refresh_success, Tables, Session, Answer,
}
use backend.Auth.Session.Token.{ParsedRefreshToken, parse_refresh_token}
use backend.Auth.Session.Create.{IssuedRefreshCredential}
use backend.Auth.Session.Refresh.{
  RefreshContext, Loaded, refused, loaded, expire_session, assert_refresh_allowed, check_credential,
  credential_matches, load_and_validate_refresh_context, handle_consumed_refresh_token,
  is_concurrent_reuse, rotate_refresh_credential_atomically, record_refresh_metadata_changes,
  finish_refresh, refresh_session, is_session, is_token, is_live_session, is_change,
}
use backend.Auth.Session.Steps.{
  Statement, expires, finds_reuse, audits, History, is_issued, rotates, states, Run, stops, goes,
}

Loaded-cases :
    (l : Loaded) → ((a : Answer) × (l ≡ refused a)) ⊎ ((c : RefreshContext) × (l ≡ loaded c))
Loaded-cases (refused a) = inl (a, refl)
Loaded-cases (loaded c) = inr (c, refl)

-- Statements lead from one state of the tables to another.
abbrev Leads : History → Tables → Type 0
Leads h u = (k : History) × Run h k × (k.tables ≡ u)

state : (h : History) (u v : Tables) → Leads h u → Statement u v → Leads h v
state h u v (k, r, e) s = (
  record { tables = v; issued = k.issued; rotated = k.rotated },
  goes r (states v (subst (λ x. Statement x v) (sym e) s)),
  refl,
)

abbrev loaded_tables : Tables → Loaded → Tables
loaded_tables t (refused a) = a.tables
loaded_tables t (loaded c) = t

abbrev answer_tables : Tables → Option Answer → Tables
answer_tables t none = t
answer_tables t (some a) = a.tables

check-Leads :
    (compare : Text → Text → Bool) (parsed : ParsedRefreshToken)
    (token : Option SessionRefreshToken) (s : Session) (h : History)
    → Leads h (loaded_tables h.tables (check_credential compare parsed token s h.tables))
unfolding check_credential
check-Leads compare parsed none s h =
    state h h.tables _ (h, stops, refl)
      (audits (refresh_failed s.id s.user_id invalid_refresh_secret))
check-Leads compare parsed (some r) s h =
    elim (Bool-cases (credential_matches compare parsed s (some r))) [
      | inl e ↦ rw e (h, stops, refl)
      | inr e ↦ rw e (
          state h h.tables _ (h, stops, refl)
            (audits (refresh_failed s.id s.user_id invalid_refresh_secret)))
    ]

assert-Leads :
    (s : Session) (now : ℕ) (h : History)
    → Leads h (answer_tables h.tables (assert_refresh_allowed s now h.tables))
unfolding assert_refresh_allowed
assert-Leads s now h = elim (Bool-cases (is_null s.revoked_at)) [
  | inr e ↦
      rw e (
        state h h.tables _ (h, stops, refl)
          (audits (refresh_failed s.id s.user_id session_revoked)))
  | inl e ↦ elim (Bool-cases (leb s.expires_at now)) [
    | inr l ↦ rw e (rw l (h, stops, refl))
    | inl l ↦
        let t = expire_session s.id now h.tables in
        rw e (
          rw l (
            state h t _ (state h h.tables t (h, stops, refl) (expires s.id now))
              (audits (session_expired s.id s.user_id))))
  ]
]

load-Leads :
    (compare : Text → Text → Bool) (cookie : Option Text) (now : ℕ) (h : History)
    → Leads h
        (loaded_tables h.tables (load_and_validate_refresh_context compare cookie now h.tables))
unfolding load_and_validate_refresh_context
load-Leads compare cookie now h =
    let t = h.tables in
    elim (Option-cases (parse_refresh_token cookie)) [
      | inl e ↦ rw (loaded_tables, load_and_validate_refresh_context, e) (h, stops, refl)
      | inr (p, e) ↦ elim (Option-cases (find_unique (is_session p.session_id) t.sessions)) [
        | inl f ↦ rw (loaded_tables, load_and_validate_refresh_context, e) (rw f (h, stops, refl))
        | inr (s, f) ↦ elim (Option-cases (assert_refresh_allowed s now t)) [
          | inl g ↦
              rw (loaded_tables, load_and_validate_refresh_context, e)
                (rw f (
                  rw g (
                    check-Leads compare p (find_unique (is_token p.token_id) t.refresh_tokens) s
                      h)))
          | inr (a, g) ↦
              rw (loaded_tables, load_and_validate_refresh_context, e)
                (rw f (rw g (subst (λ x. Leads h (answer_tables t x)) g (assert-Leads s now h))))
        ]
      ]
    ]

handle-Leads :
    (c : RefreshContext) (now : ℕ) (h : History)
    → Leads h (answer_tables h.tables (handle_consumed_refresh_token c now h.tables))
unfolding handle_consumed_refresh_token
handle-Leads c now h =
    let s = c.session in
    let t = h.tables in
    let ended = state h t _ (h, stops, refl) (finds_reuse s.id now) in
    elim (Option-cases c.refresh_token.consumed_at) [
      | inl e ↦ rw e (h, stops, refl)
      | inr (at, e) ↦ elim (Bool-cases (is_concurrent_reuse s at now)) [
        | inl f ↦ rw e (
            rw f (
              state h t _ (h, stops, refl)
                (audits (refresh_failed s.id s.user_id concurrent_refresh_rotation))))
        | inr f ↦ elim (Bool-cases (count_where (is_live_session s.id) t.sessions == 1)) [
          | inl g ↦
              rw e
                (rw f (rw g (state h _ _ ended (audits (refresh_reuse_detected s.id s.user_id)))))
          | inr g ↦ rw e (rw f (rw g ended))
        ]
      ]
    ]

metadata-Leads :
    (s : Session) (metadata : RequestMetadata) (h : History) (t : Tables)
    → Leads h t
    → Leads h (record_refresh_metadata_changes s metadata t)
unfolding record_refresh_metadata_changes
metadata-Leads s metadata h t l =
    let ip = is_change s.ip_hash metadata.ip_hash in
    let agent = is_change s.user_agent metadata.user_agent in
    let one = state h t _ l (audits (suspicious_ip s.id s.user_id)) in
    elim (Bool-cases ip) [
      | inl e ↦ elim (Bool-cases agent) [
        | inl f ↦ rw e (rw f (state h _ _ one (audits (suspicious_user_agent s.id s.user_id))))
        | inr f ↦ rw e (rw f one)
      ]
      | inr e ↦ elim (Bool-cases agent) [
        | inl f ↦ rw e (rw f (state h t _ l (audits (suspicious_user_agent s.id s.user_id))))
        | inr f ↦ rw e (rw f l)
      ]
    ]

finish-Leads :
    (c : RefreshContext) (fresh : IssuedRefreshCredential) (metadata : RequestMetadata) (now : ℕ)
    (h : History)
    → is_issued h.issued fresh.token_id ≡ false
    → Leads h (finish_refresh c fresh metadata now h.tables).tables
unfolding finish_refresh
finish-Leads c fresh metadata now h new =
    let s = c.session in
    elim (Option-cases (rotate_refresh_credential_atomically c fresh metadata now h.tables)) [
      | inl e ↦
          rw (finish_refresh, e)
            (state h h.tables _ (h, stops, refl)
              (audits (refresh_failed s.id s.user_id concurrent_refresh_rotation)))
      | inr (u, e) ↦
          let k : History = record {
            tables = u;
            issued = fresh.token_id ∷ h.issued;
            rotated = c.parsed_token.token_id ∷ h.rotated;
          } in
          let rotated : Leads h u = (k, goes stops (rotates c fresh metadata now u new e), refl) in
          rw (finish_refresh, e)
            (state h _ _ (metadata-Leads s metadata h u rotated)
              (audits (refresh_success s.id s.user_id)))
    ]

-- The tables after a whole refresh, with a token identifier that was not given before, are those
-- after a sequence of the statements that interleave.
pub refresh_session-Leads :
    (compare : Text → Text → Bool) (cookie : Option Text) (fresh : IssuedRefreshCredential)
    (metadata : RequestMetadata) (now : ℕ) (h : History)
    → is_issued h.issued fresh.token_id ≡ false
    → (k : History) × Run h k
      × (k.tables ≡ (refresh_session compare cookie fresh metadata now h.tables).tables)
unfolding refresh_session
refresh_session-Leads compare cookie fresh metadata now h new =
    let t = h.tables in
    let loads = load-Leads compare cookie now h in
    elim (Loaded-cases (load_and_validate_refresh_context compare cookie now t)) [
      | inl (a, e) ↦ rw (refresh_session, e) (subst (λ x. Leads h (loaded_tables t x)) e loads)
      | inr (c, e) ↦ elim (Option-cases (handle_consumed_refresh_token c now t)) [
        | inl f ↦ rw (refresh_session, e) (rw f (finish-Leads c fresh metadata now h new))
        | inr (a, f) ↦
            rw (refresh_session, e)
              (rw f (subst (λ x. Leads h (answer_tables t x)) f (handle-Leads c now h)))
      ]
    ]
