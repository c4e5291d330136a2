-- ===== src/Auth/Session/SingleUse.antt =====
-- A refresh token is spent once: no two rotations of apps/auth/src/app/session/services/
-- session.service.ts take the same token, however the statements of the requests interleave.
use backend.Prelude.{
  ℕ, ◌+◌, ◌≤◌, ◌≡◌, refl, sym, inl, inr, Bool, true, false, ◌&&◌, List, [], ◌∷◌, ◌++◌, is_null,
  Bool-cases, All, All-map, All-append, update_many, update_many-All, count_where, find_many,
  All-find_many, count_where-append, count_where-update_out, count_where-update_same,
  count_where-update_le, count_where-find_many, count_where_none, count_where-not_any,
  count_where-pointwise_le, counted_row, arith,
}
use backend.Text.{Text, text_eq}
use backend.Text.Equality.{text_eq_refl, text_eq-eq}
use backend.Auth.Session.{SessionRefreshToken}
use backend.Auth.Session.Create.{new_token}
use backend.Auth.Session.Refresh.{
  RefreshContext, is_token, takes_consumption, set_consumed, rotate_refresh_credential_atomically,
  expire_session, revoke_reused,
}
use backend.Auth.Session.Effects.{create_session-refresh_tokens, rotate-eq_some}
use backend.Auth.Session.Logout.{revoke_session, revoke_all, delete_dead_sessions}
use backend.Auth.Session.Steps.{
  expires, finds_reuse, logs_out, ends_all, cleans, audits, changes_users, History, is_issued, Step,
  creates, rotates, states, Reach, starts, next,
}

abbrev pub is_unconsumed : Text → SessionRefreshToken → Bool
is_unconsumed id r = is_token id r && is_null r.consumed_at

-- What the tokens keep: a key of its own for each, which was issued, and none that is spent is
-- there unconsumed.
record IsSpentOnce (tokens : List SessionRefreshToken) (issued rotated : List Text) : Type 0 where
  tokens_issued : All (λ (r : SessionRefreshToken). is_issued issued r.id ≡ true) tokens
  keyed : (id : Text) → count_where (is_token id) tokens ≤ 1
  spent_issued : (id : Text) → is_issued rotated id ≡ true → is_issued issued id ≡ true
  spent_consumed :
      (id : Text) → is_issued rotated id ≡ true → count_where (is_unconsumed id) tokens ≡ 0
  once : (id : Text) → count_where (text_eq id) rotated ≤ 1

pub is_issued-cons :
    (x : Text) (ids : List Text) (id : Text)
    → is_issued ids id ≡ true
    → is_issued (x ∷ ids) id ≡ true
is_issued-cons x ids id h = ground (arith, h)

issue :
    (x : Text) (tokens : List SessionRefreshToken) (issued rotated : List Text)
    → IsSpentOnce tokens issued rotated
    → IsSpentOnce tokens (x ∷ issued) rotated
issue x tokens issued rotated i = record {
  tokens_issued = All-map _ _ tokens (λ r. is_issued-cons x issued r.id) i.tokens_issued;
  keyed = i.keyed;
  spent_issued = λ id h. is_issued-cons x issued id (i.spent_issued id h);
  spent_consumed = i.spent_consumed;
  once = i.once;
}

-- An identifier that was not issued is not the one of an identifier that was.
pub unlike :
    (issued : List Text) (new id : Text)
    → is_issued issued new ≡ false
    → is_issued issued id ≡ true
    → text_eq id new ≡ false
unlike issued new id fresh h = elim (Bool-cases (text_eq id new)) [
  | inl e ↦ let same = text_eq-eq id new e in absurd (cc)
  | inr e ↦ e
]

pub unlike_sym :
    (issued : List Text) (new id : Text)
    → is_issued issued new ≡ false
    → is_issued issued id ≡ true
    → text_eq new id ≡ false
unlike_sym issued new id fresh h = elim (Bool-cases (text_eq new id)) [
  | inl e ↦ let same = text_eq-eq new id e in absurd (cc)
  | inr e ↦ e
]

insert :
    (new : SessionRefreshToken) (tokens : List SessionRefreshToken) (issued rotated : List Text)
    → is_issued issued new.id ≡ false
    → IsSpentOnce tokens issued rotated
    → IsSpentOnce (tokens ++ new ∷ []) (new.id ∷ issued) rotated
insert new tokens issued rotated fresh i =
    let j = issue new.id tokens issued rotated i in
    let here : is_issued (new.id ∷ issued) new.id ≡ true = rw (text_eq_refl new.id) refl in
    let none_there : count_where (is_token new.id) tokens ≡ 0 =
      count_where_none (is_token new.id) tokens
        (All-map _ _ tokens (λ r. unlike issued new.id r.id fresh) i.tokens_issued) in
    record {
      tokens_issued = All-append _ tokens (new ∷ []) j.tokens_issued (here, tt);
      keyed = λ id. elim (Bool-cases (text_eq new.id id)) [
        | inl e ↦
            let same = text_eq-eq new.id id e in
            ground (arith, count_where-append (is_token id) tokens (new ∷ []), none_there, e, same)
        | inr e ↦ ground (arith, count_where-append (is_token id) tokens (new ∷ []), i.keyed id, e)
      ];
      spent_issued = j.spent_issued;
      spent_consumed = λ id h. ground (
        arith,
        count_where-append (is_unconsumed id) tokens (new ∷ []),
        i.spent_consumed id h,
        unlike_sym issued new.id id fresh (i.spent_issued id h),
      );
      once = i.once;
    }

taken_issued :
    (c : RefreshContext) (tokens : List SessionRefreshToken) (issued : List Text)
    → count_where (takes_consumption c) tokens ≡ 1
    → All (λ (r : SessionRefreshToken). is_issued issued r.id ≡ true) tokens
    → is_issued issued c.parsed_token.token_id ≡ true
taken_issued c tokens issued one all_issued =
    let (r, h, k) = counted_row _ (takes_consumption c) tokens all_issued (omega arith) in
    let same = text_eq-eq r.id c.parsed_token.token_id (ground (arith, k)) in rw (sym same) h

-- The update of a rotation spends the one token it takes.
consume :
    (c : RefreshContext) (now : ℕ) (tokens : List SessionRefreshToken) (issued rotated : List Text)
    → count_where (takes_consumption c) tokens ≡ 1
    → IsSpentOnce tokens issued rotated
    → IsSpentOnce
        (update_many (takes_consumption c) (set_consumed now) tokens)
        issued
        (c.parsed_token.token_id ∷ rotated)
consume c now tokens issued rotated one i =
    let id = c.parsed_token.token_id in
    let p = takes_consumption c in
    let new = set_consumed now in
    let taken : count_where (is_unconsumed id) (update_many p new tokens) + count_where p tokens
        ≡ count_where (is_unconsumed id) tokens =
      count_where-update_out (is_unconsumed id) p new tokens
        (λ r h. (ground (arith, h), ground arith)) in
    let one_row =
      count_where-pointwise_le (is_unconsumed id) (is_token id) tokens (λ r h. ground (arith, h)) in
    let was_issued : is_issued issued id ≡ true =
      taken_issued c tokens issued one i.tokens_issued in
    let unspent : is_issued rotated id ≡ false = elim (Bool-cases (is_issued rotated id)) [
      | inl e ↦ absurd (omega (arith, i.spent_consumed id e, taken, one))
      | inr e ↦ e
    ] in
    record {
      tokens_issued = update_many-All _ p new tokens (λ r h. h) i.tokens_issued;
      keyed = λ id'.
          omega
            (arith, i.keyed id', count_where-update_same (is_token id') p new tokens (λ r h. refl));
      spent_issued = λ id' h. elim (Bool-cases (text_eq id' id)) [
        | inl e ↦ let same = text_eq-eq id' id e in rw same was_issued
        | inr e ↦ i.spent_issued id' (ground (arith, h, e))
      ];
      spent_consumed = λ id' h. elim (Bool-cases (text_eq id' id)) [
        | inl e ↦
            let same = text_eq-eq id' id e in
            rw same (omega (arith, taken, one, one_row, i.keyed id))
        | inr e ↦ omega (
          arith,
          i.spent_consumed id' (ground (arith, h, e)),
          count_where-update_le (is_unconsumed id') p new tokens (λ r _ k. ground (arith, k)),
        )
      ];
      once = λ id'. elim (Bool-cases (text_eq id' id)) [
        | inl e ↦
            let same = text_eq-eq id' id e in
            let zero_before : count_where (text_eq id') rotated ≡ 0 =
              rw same (count_where-not_any (text_eq id) rotated unspent) in
            ground (arith, zero_before)
        | inr e ↦ ground (arith, e, i.once id')
      ];
    }

remove :
    (p : SessionRefreshToken → Bool) (tokens : List SessionRefreshToken)
    (issued rotated : List Text)
    → IsSpentOnce tokens issued rotated
    → IsSpentOnce (find_many p tokens) issued rotated
remove p tokens issued rotated i = record {
  tokens_issued = All-find_many _ p tokens i.tokens_issued;
  keyed = λ id. omega (arith, i.keyed id, count_where-find_many (is_token id) p tokens);
  spent_issued = i.spent_issued;
  spent_consumed = λ id h.
      omega (arith, i.spent_consumed id h, count_where-find_many (is_unconsumed id) p tokens);
  once = i.once;
}

abbrev IsSpentOnceIn : History → Type 0
IsSpentOnceIn h = IsSpentOnce h.tables.refresh_tokens h.issued h.rotated

Step-IsSpentOnce : (h k : History) → IsSpentOnceIn h → Step h k → IsSpentOnceIn k
unfolding expire_session revoke_reused revoke_session revoke_all delete_dead_sessions
    rotate_refresh_credential_atomically
Step-IsSpentOnce h k i (creates l user_id now remember_me expected metadata session_id issued f g) =
    elim (create_session-refresh_tokens l user_id now remember_me expected metadata session_id
      issued h.tables) [
        | inl e ↦
            rw e.0 (issue issued.token_id _ _ h.rotated (issue session_id _ h.issued h.rotated i))
        | inr e ↦ rw e.0 (
            insert (new_token session_id issued) h.tables.refresh_tokens _ h.rotated g
              (issue session_id _ h.issued h.rotated i))
      ]
Step-IsSpentOnce h k i (rotates c fresh metadata now u f e) =
    let (_, (one, tokens)) = rotate-eq_some c fresh metadata now h.tables u e in
    rw tokens (
      insert (new_token c.session.id fresh) _ h.issued _ f
        (consume c now h.tables.refresh_tokens h.issued h.rotated one i))
Step-IsSpentOnce h k i (states u (expires id now)) = i
Step-IsSpentOnce h k i (states u (finds_reuse id now)) = i
Step-IsSpentOnce h k i (states u (logs_out id now)) = i
Step-IsSpentOnce h k i (states u (ends_all user_id reason now)) = i
Step-IsSpentOnce h k i (states u (cleans now)) =
    remove _ h.tables.refresh_tokens h.issued h.rotated i
Step-IsSpentOnce h k i (states u (audits e)) = i
Step-IsSpentOnce h k i (states u (changes_users users)) = i

Reach-IsSpentOnce : (h : History) → Reach h → IsSpentOnceIn h
Reach-IsSpentOnce h starts = record {
  tokens_issued = tt;
  keyed = λ id. omega arith;
  spent_issued = λ id e. absurd (cc);
  spent_consumed = λ id e. absurd (cc);
  once = λ id. omega arith;
}
Reach-IsSpentOnce h (next {h = g} r s) = Step-IsSpentOnce g h (Reach-IsSpentOnce g r) s

pub tokens-keyed :
    (h : History) (id : Text) → Reach h → count_where (is_token id) h.tables.refresh_tokens ≤ 1
tokens-keyed h id r = (Reach-IsSpentOnce h r).keyed id

-- In a history of statements of any requests in any order, at most one rotation has spent the token
-- of an identifier.
pub rotate-once : (h : History) (id : Text) → Reach h → count_where (text_eq id) h.rotated ≤ 1
rotate-once h id r = (Reach-IsSpentOnce h r).once id
