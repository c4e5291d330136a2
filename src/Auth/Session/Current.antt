-- ===== src/Auth/Session/Current.antt =====
-- Each session has one unspent token at a time, the one whose hash its row has: the invariant of
-- the rows, and what the single statements make of it.
pub mod Kept
use backend.Prelude.{
  ℕ, ◌+◌, ◌≤◌, ◌≡◌, refl, sym, inl, inr, Bool, true, false, not, ◌&&◌, List, [], ◌∷◌, ◌++◌, some,
  ◌==◌, is_null, Bool-cases, any, All, All_at, All-map, All-append, All-intro, All-find_many,
  All-update, update_many, update_many-All, count_where, find_many, mem-find_many_of, delete_many,
  if◌then◌else◌, count_where-append, count_where-update_out, count_where-update_same,
  count_where-find_many, count_where-find_many_same, count_where-split, count_where_pos,
  count_where-any, count_where_none, count_where-pointwise_le, Memᴰ, arith,
}
use backend.Text.{Text, text_eq}
use backend.Text.Equality.{text_eq_refl, text_eq-eq}
use backend.Auth.Session.{Session, SessionRefreshToken, SessionRevokedReason, RequestMetadata}
use backend.Auth.Session.Create.{IssuedRefreshCredential, new_token}
use backend.Auth.Session.Refresh.{
  RefreshContext, is_session, revoke, takes_rotation, set_rotated, takes_consumption, set_consumed,
}
use backend.Auth.Session.Logout.{is_dead_session, is_token_of_dead}
use backend.Auth.Session.Steps.{is_issued}
use backend.Auth.Session.SingleUse.{is_issued-cons, unlike, unlike_sym}

-- An unspent token of a session.
abbrev pub is_unspent_of : Text → SessionRefreshToken → Bool
is_unspent_of session_id r = text_eq r.session_id session_id && is_null r.consumed_at

-- An unspent token of a session with the hash that is given.
abbrev pub is_current_of : Text → Text → SessionRefreshToken → Bool
is_current_of session_id hash r = is_unspent_of session_id r && text_eq r.credential_hash hash

abbrev pub HasCurrent : List SessionRefreshToken → Session → Type 0
HasCurrent tokens s =
    (count_where (is_unspent_of s.id) tokens ≡ 1)
    × (count_where (is_current_of s.id s.refresh_token_hash) tokens ≡ 1)

pub record IsCurrent (sessions : List Session) (tokens : List SessionRefreshToken)
    (issued : List Text) : Type 0 where
  pub sessions_issued : All (λ (s : Session). is_issued issued s.id ≡ true) sessions
  pub owners_issued : All (λ (r : SessionRefreshToken). is_issued issued r.session_id ≡ true) tokens
  pub keyed : (id : Text) → count_where (is_session id) sessions ≤ 1
  pub current : All (HasCurrent tokens) sessions

-- A token that another session is given.
pub HasCurrent-other :
    (new : SessionRefreshToken) (tokens : List SessionRefreshToken) (x : Session)
    → text_eq new.session_id x.id ≡ false
    → HasCurrent tokens x
    → HasCurrent (tokens ++ new ∷ []) x
HasCurrent-other new tokens x other (one, hash) =
    let unspent = count_where-append (is_unspent_of x.id) tokens (new ∷ []) in
    let matching = count_where-append (is_current_of x.id x.refresh_token_hash) tokens (new ∷ []) in
    (ground (arith, unspent, other, one), ground (arith, matching, other, hash))

-- A token for a session that has none unspent.
pub HasCurrent-first :
    (session_id : Text) (x : Session) (issued : IssuedRefreshCredential)
    (tokens : List SessionRefreshToken)
    → x.id ≡ session_id
    → x.refresh_token_hash ≡ issued.hash
    → count_where (is_unspent_of x.id) tokens ≡ 0
    → HasCurrent (tokens ++ new_token session_id issued ∷ []) x
HasCurrent-first session_id x issued tokens same_id same none_there =
    let new = new_token session_id issued in
    let unspent = count_where-append (is_unspent_of x.id) tokens (new ∷ []) in
    let matching = count_where-append (is_current_of x.id x.refresh_token_hash) tokens (new ∷ []) in
    let fewer : count_where (is_current_of x.id x.refresh_token_hash) tokens
        ≤ count_where (is_unspent_of x.id) tokens =
      count_where-pointwise_le _ _ tokens (λ r h. ground (arith, h)) in
    let own_id : text_eq session_id x.id ≡ true = rw same_id (text_eq_refl session_id) in
    let own_hash : text_eq issued.hash x.refresh_token_hash ≡ true =
      rw same (text_eq_refl issued.hash) in
    (
      ground (arith, unspent, none_there, own_id),
      ground (arith, matching, fewer, none_there, own_id, own_hash),
    )

pub issue :
    (x : Text) (sessions : List Session) (tokens : List SessionRefreshToken) (issued : List Text)
    → IsCurrent sessions tokens issued
    → IsCurrent sessions tokens (x ∷ issued)
issue x sessions tokens issued i = record {
  sessions_issued = All-map _ _ sessions (λ s. is_issued-cons x issued s.id) i.sessions_issued;
  owners_issued = All-map _ _ tokens (λ r. is_issued-cons x issued r.session_id) i.owners_issued;
  keyed = i.keyed;
  current = i.current;
}

-- An update of the sessions that keeps their identifiers and hashes.
pub update_same :
    (p : Session → Bool) (new : Session → Session) (sessions : List Session)
    (tokens : List SessionRefreshToken) (issued : List Text)
    → ((s : Session) → ((new s).id ≡ s.id) × ((new s).refresh_token_hash ≡ s.refresh_token_hash))
    → IsCurrent sessions tokens issued
    → IsCurrent (update_many p new sessions) tokens issued
update_same p new sessions tokens issued same i = record {
  sessions_issued = update_many-All _ p new sessions (λ s h. rw (same s).0 h) i.sessions_issued;
  owners_issued = i.owners_issued;
  keyed = λ id. omega (
    arith,
    i.keyed id,
    count_where-update_same (is_session id) p new sessions (λ s h. rw (same s).0 refl),
  );
  current = update_many-All _ p new sessions (λ s h. rw (same s).0 (rw (same s).1 h)) i.current;
}

-- A new session with its first token.
pub insert :
    (s : Session) (issued : IssuedRefreshCredential) (sessions : List Session)
    (tokens : List SessionRefreshToken) (ids : List Text)
    → is_issued ids s.id ≡ false
    → s.refresh_token_hash ≡ issued.hash
    → IsCurrent sessions tokens ids
    → IsCurrent (sessions ++ s ∷ []) (tokens ++ new_token s.id issued ∷ []) (s.id ∷ ids)
insert s issued sessions tokens ids fresh same_hash i =
    let j = issue s.id sessions tokens ids i in
    let here : is_issued (s.id ∷ ids) s.id ≡ true = rw (text_eq_refl s.id) refl in
    let new = new_token s.id issued in
    let no_session : count_where (is_session s.id) sessions ≡ 0 =
      count_where_none (is_session s.id) sessions
        (All-map _ _ sessions (λ x. unlike ids s.id x.id fresh) i.sessions_issued) in
    let no_token : count_where (is_unspent_of s.id) tokens ≡ 0 =
      count_where_none (is_unspent_of s.id) tokens (
        All-map _ _ tokens (λ r h. rw (unlike ids s.id r.session_id fresh h) refl)
          i.owners_issued) in
    record {
      sessions_issued = All-append _ sessions (s ∷ []) j.sessions_issued (here, tt);
      owners_issued = All-append _ tokens (new ∷ []) j.owners_issued (here, tt);
      keyed = λ id. elim (Bool-cases (text_eq s.id id)) [
        | inl e ↦
            let same = text_eq-eq s.id id e in
            ground
              (arith, count_where-append (is_session id) sessions (s ∷ []), no_session, e, same)
        | inr e ↦
            ground (arith, count_where-append (is_session id) sessions (s ∷ []), i.keyed id, e)
      ];
      current =
          All-append _ sessions (s ∷ [])
            (All-intro _ sessions (λ x m.
              HasCurrent-other new tokens x
                (unlike_sym ids s.id x.id fresh (All_at _ x sessions i.sessions_issued m))
                (All_at _ x sessions i.current m)))
            (HasCurrent-first s.id s issued tokens refl same_hash no_token, tt);
    }
