-- ===== src/Auth/Session/Live.antt =====
-- A refresh with the unspent token of a session goes through: in the tables that statements of any
-- requests lead to, the rotation takes the one row of the session and the one row of the token.
use backend.Prelude.{
  ℕ, ◌≤◌, ◌≡◌, refl, inl, inr, Bool, true, not, ◌&&◌, List, Option, Bool-cases, All_at, count_where,
  find_unique-mem, find_unique-eq_some, count_where-split, count_where_pos,
  count_where-pointwise_le, Memᴰ, arith,
}
use backend.Text.{Text, text_eq}
use backend.Text.Equality.{text_eq_refl, text_eq-eq}
use backend.Auth.Session.{Session, SessionRefreshToken, RequestMetadata, Tables, signed_in}
use backend.Auth.Session.Create.{IssuedRefreshCredential}
use backend.Auth.Session.Refresh.{
  RefreshContext, is_session, is_token, takes_rotation, takes_consumption, refresh_session,
}
use backend.Auth.Session.Steps.{History, Reach}
use backend.Auth.Session.SingleUse.{tokens-keyed}
use backend.Auth.Session.Current.{is_unspent_of, HasCurrent}
use backend.Auth.Session.Current.Kept.{Reach-IsCurrent}
use backend.Auth.Session.Admitted.{IsAdmitted, refresh_session-rotates}

-- An unspent token of a session has the hash of the session's row.
unspent-hash :
    (s : Session) (r : SessionRefreshToken) (tokens : List SessionRefreshToken)
    → HasCurrent tokens s
    → Memᴰ r tokens
    → is_unspent_of s.id r ≡ true
    → text_eq r.credential_hash s.refresh_token_hash ≡ true
unspent-hash s r tokens (one, matching) m unspent =
    elim (Bool-cases (text_eq r.credential_hash s.refresh_token_hash)) [
      | inl e ↦ e
      | inr e ↦
          let hash : SessionRefreshToken → Bool =
            λ x. text_eq x.credential_hash s.refresh_token_hash in
          let split = count_where-split (is_unspent_of s.id) hash tokens in
          let here =
            count_where_pos (λ x. is_unspent_of s.id x && not (hash x)) r tokens m
              (rw unspent (rw e refl)) in
          absurd (omega (arith, one, matching, split, here))
    ]

-- The rotation takes the row of the session and the row of the token, and no other.
pub record TakesBoth (c : RefreshContext) (now : ℕ) (t : Tables) : Type 0 where
  pub session_taken : takes_rotation c now c.session ≡ true
  pub one_session : count_where (takes_rotation c now) t.sessions ≡ 1
  pub token_taken : takes_consumption c c.refresh_token ≡ true
  pub one_token : count_where (takes_consumption c) t.refresh_tokens ≡ 1

pub admitted-TakesBoth :
    (compare : Text → Text → Bool) (cookie : Option Text) (now : ℕ) (h : History) (s : Session)
    (r : SessionRefreshToken)
    → Reach h
    → (a : IsAdmitted compare cookie now h.tables s r)
    → TakesBoth (record { parsed_token = a.parsed; refresh_token = r; session = s }) now h.tables
admitted-TakesBoth compare cookie now h s r reach a =
    let i = Reach-IsCurrent h reach in
    let t = h.tables in
    let c : RefreshContext = record { parsed_token = a.parsed; refresh_token = r; session = s } in
    let sm = find_unique-mem _ t.sessions s a.session_found in
    let rm = find_unique-mem _ t.refresh_tokens r a.token_found in
    let rk = find_unique-eq_some _ t.refresh_tokens r a.token_found in
    let hash =
      unspent-hash s r t.refresh_tokens (All_at _ s t.sessions i.current sm) rm
        (ground (arith, a.is_owned, a.not_consumed)) in
    let same = text_eq-eq r.credential_hash s.refresh_token_hash hash in
    let takes : takes_rotation c now s ≡ true = rw same (
      ground (
        arith,
        text_eq_refl s.id,
        text_eq_refl s.refresh_token_hash,
        a.not_revoked,
        a.not_expired,
      )) in
    let one : count_where (takes_rotation c now) t.sessions ≡ 1 =
      let upper : count_where (takes_rotation c now) t.sessions
          ≤ count_where (is_session s.id) t.sessions =
        count_where-pointwise_le _ _ t.sessions (λ x h. ground (arith, h)) in
      omega (
        arith,
        upper,
        i.keyed s.id,
        count_where_pos (takes_rotation c now) s t.sessions sm takes,
      ) in
    let consumes : takes_consumption c r ≡ true =
      ground (arith, rk, a.is_owned, text_eq_refl r.credential_hash, a.not_consumed) in
    let taken : count_where (takes_consumption c) t.refresh_tokens ≡ 1 =
      let upper : count_where (takes_consumption c) t.refresh_tokens
          ≤ count_where (is_token a.parsed.token_id) t.refresh_tokens =
        count_where-pointwise_le _ _ t.refresh_tokens (λ x h. ground (arith, h)) in
      omega (
        arith,
        upper,
        tokens-keyed h a.parsed.token_id reach,
        count_where_pos (takes_consumption c) r t.refresh_tokens rm consumes,
      ) in
    record { session_taken = takes; one_session = one; token_taken = consumes; one_token = taken }

-- In the tables that statements of any requests in any order lead to, a refresh with a cookie for an
-- unspent token of a session that is neither revoked nor over signs in the user of the session.
pub refresh_session-signs_in :
    (compare : Text → Text → Bool) (cookie : Option Text) (fresh : IssuedRefreshCredential)
    (metadata : RequestMetadata) (now : ℕ) (h : History) (s : Session) (r : SessionRefreshToken)
    → Reach h
    → IsAdmitted compare cookie now h.tables s r
    → (refresh_session compare cookie fresh metadata now h.tables).outcome ≡ signed_in s.user_id
refresh_session-signs_in compare cookie fresh metadata now h s r reach a =
    let both = admitted-TakesBoth compare cookie now h s r reach a in
    refresh_session-rotates compare cookie fresh metadata now h.tables s r a both.one_session
      both.one_token
