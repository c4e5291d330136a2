-- ===== src/Auth/Session/Current/Kept.antt =====
-- The rotation and the deletion keep the invariant, and so every history has it.
use backend.Prelude.{
  ℕ, ◌-◌, ◌≤◌, ◌≡◌, refl, sym, ◌∙◌, inl, inr, Bool, true, false, not, ◌&&◌, List, [], ◌∷◌, ◌++◌,
  Bool-cases, any, All, All_at, All-append, All-intro, All-find_many, All-update, update_many,
  update_many-All, count_where, mem-find_many_of, delete_many, count_where-update_out,
  count_where-update_same, count_where-find_many, count_where-find_many_same, count_where-split,
  count_where_pos, count_where-any, count_where-pointwise_le, counted_row, Memᴰ, arith,
}
use backend.Text.{Text, text_eq}
use backend.Text.Equality.{text_eq_refl, text_eq-eq}
use backend.Auth.Session.{Session, SessionRefreshToken, RequestMetadata}
use backend.Auth.Session.Create.{IssuedRefreshCredential, new_token, new_session}
use backend.Auth.Session.Refresh.{
  RefreshContext, is_session, takes_rotation, set_rotated, takes_consumption, set_consumed,
  expire_session, revoke_reused,
}
use backend.Auth.Session.Logout.{
  is_dead_session, is_token_of_dead, revoke_session, revoke_all, delete_dead_sessions,
  session_retention_ms,
}
use backend.Auth.Session.Steps.{
  expires, finds_reuse, logs_out, ends_all, cleans, audits, changes_users, History, is_issued, Step,
  creates, rotates, states, Reach, starts, next,
}
use backend.Auth.Session.Current.{
  is_unspent_of, is_current_of, HasCurrent, IsCurrent, HasCurrent-other, HasCurrent-first, issue,
  insert, update_same,
}
use backend.Auth.Session.Effects.{create_session-refresh_tokens, rotate-eq_some}

-- Two sessions of one identifier are one.
same_row :
    (p : Session → Bool) (x : Session) (sessions : List Session)
    → Memᴰ x sessions
    → p x ≡ false
    → count_where (is_session x.id) sessions ≤ 1
    → count_where (λ s. is_session x.id s && p s) sessions ≡ 0
same_row p x sessions m miss keyed =
    let split = count_where-split (is_session x.id) p sessions in
    let here =
      count_where_pos (λ s. is_session x.id s && not (p s)) x sessions m
        (rw (text_eq_refl x.id) (rw miss refl)) in
    omega (arith, split, here, keyed)

-- Where a rotation takes one row, that is the one row of its session.
rotation_misses :
    (c : RefreshContext) (now : ℕ) (x : Session) (sessions : List Session)
    → Memᴰ x sessions
    → takes_rotation c now x ≡ false
    → count_where (takes_rotation c now) sessions ≡ 1
    → count_where (is_session x.id) sessions ≤ 1
    → text_eq c.session.id x.id ≡ false
rotation_misses c now x sessions m miss one keyed = elim (Bool-cases (text_eq c.session.id x.id)) [
  | inr e ↦ e
  | inl e ↦
      let same = text_eq-eq c.session.id x.id e in
      let rotated = same_row (takes_rotation c now) x sessions m miss keyed in
      let fewer : count_where (takes_rotation c now) sessions
          ≤ count_where (λ s. is_session x.id s && takes_rotation c now s) sessions =
        count_where-pointwise_le _ _ sessions (λ s h.
          let k : text_eq s.id c.session.id ≡ true = ground (arith, h) in
          let l : text_eq s.id x.id ≡ true = rw (sym same) k in rw l h) in
      absurd (omega (arith, rotated, fewer, one))
]

-- The tokens after a rotation has spent one, before it makes the next.
abbrev spend : RefreshContext → ℕ → List SessionRefreshToken → List SessionRefreshToken
spend c now tokens = update_many (takes_consumption c) (set_consumed now) tokens

HasCurrent-spend :
    (c : RefreshContext) (now : ℕ) (x : Session) (tokens : List SessionRefreshToken)
    → text_eq c.session.id x.id ≡ false
    → HasCurrent tokens x
    → HasCurrent (spend c now tokens) x
HasCurrent-spend c now x tokens other (one, hash) =
    let not_of : (r : SessionRefreshToken)
        → takes_consumption c r ≡ true
        → text_eq r.session_id x.id ≡ false =
      λ r h. rw (text_eq-eq r.session_id c.session.id (ground (arith, h))) other in
    let p = takes_consumption c in
    let unspent =
      count_where-update_same (is_unspent_of x.id) p (set_consumed now) tokens
        (λ r h. rw (not_of r h) refl) in
    let matching =
      count_where-update_same (is_current_of x.id x.refresh_token_hash) p (set_consumed now) tokens
        (λ r h. rw (not_of r h) refl) in
    (unspent ∙ one, matching ∙ hash)

spend-none :
    (c : RefreshContext) (now : ℕ) (tokens : List SessionRefreshToken)
    → count_where (takes_consumption c) tokens ≡ 1
    → count_where (is_unspent_of c.session.id) tokens ≡ 1
    → count_where (is_unspent_of c.session.id) (spend c now tokens) ≡ 0
spend-none c now tokens taken one =
    let out =
      count_where-update_out (is_unspent_of c.session.id) (takes_consumption c) (set_consumed now)
        tokens (λ r h. (ground (arith, h), ground arith)) in
    omega (arith, out, taken, one)

rotate :
    (c : RefreshContext) (fresh : IssuedRefreshCredential) (metadata : RequestMetadata) (now : ℕ)
    (sessions : List Session) (tokens : List SessionRefreshToken) (issued : List Text)
    → count_where (takes_rotation c now) sessions ≡ 1
    → count_where (takes_consumption c) tokens ≡ 1
    → IsCurrent sessions tokens issued
    → IsCurrent
        (update_many (takes_rotation c now) (set_rotated fresh metadata now) sessions)
        (spend c now tokens ++ new_token c.session.id fresh ∷ [])
        issued
rotate c fresh metadata now sessions tokens issued one taken i =
    let p = takes_rotation c now in
    let new = set_rotated fresh metadata now in
    let token = new_token c.session.id fresh in
    let (row, owner, hit) = counted_row _ p sessions i.sessions_issued (omega arith) in
    let own : is_issued issued c.session.id ≡ true =
      rw (sym (text_eq-eq row.id c.session.id (ground (arith, hit)))) owner in
    record {
      sessions_issued = update_many-All _ p new sessions (λ s h. h) i.sessions_issued;
      owners_issued =
          All-append _ (spend c now tokens) (token ∷ [])
            (update_many-All _ (takes_consumption c) (set_consumed now) tokens (λ r h. h)
              i.owners_issued)
            (own, tt);
      keyed = λ id.
          omega (
            arith,
            i.keyed id,
            count_where-update_same (is_session id) p new sessions (λ s h. refl),
          );
      current =
          All-update _ p new sessions
            (λ x m h.
              let same = text_eq-eq x.id c.session.id (ground (arith, h)) in
              let before = (All_at _ x sessions i.current m).0 in
              let spent : count_where (is_unspent_of x.id) (spend c now tokens) ≡ 0 =
                rw same (spend-none c now tokens taken (rw (sym same) before)) in
              HasCurrent-first c.session.id (new x) fresh (spend c now tokens) same refl spent)
            (λ x m h.
              let other = rotation_misses c now x sessions m h one (i.keyed x.id) in
              HasCurrent-other token (spend c now tokens) x other
                (HasCurrent-spend c now x tokens other (All_at _ x sessions i.current m)));
    }

-- The tokens of a session that stays, stay.
delete-unspent :
    (cutoff : ℕ) (q : SessionRefreshToken → Bool) (x : Session) (sessions : List Session)
    (tokens : List SessionRefreshToken)
    → Memᴰ x sessions
    → is_dead_session cutoff x ≡ false
    → count_where (is_session x.id) sessions ≤ 1
    → ((r : SessionRefreshToken) → q r ≡ true → text_eq r.session_id x.id ≡ true)
    → count_where q (delete_many (is_token_of_dead cutoff sessions) tokens) ≡ count_where q tokens
delete-unspent cutoff q x sessions tokens m alive keyed owned =
    let none_dead = same_row (is_dead_session cutoff) x sessions m alive keyed in
    let dead = any (λ (s : Session). text_eq s.id x.id && is_dead_session cutoff s) sessions in
    let stays : dead ≡ false = elim (Bool-cases dead) [
      | inl e ↦ absurd (omega (arith, none_dead, count_where-any _ sessions e))
      | inr e ↦ e
    ] in
    count_where-find_many_same q (λ r. not (is_token_of_dead cutoff sessions r)) tokens
      (λ r _ h. let same = text_eq-eq r.session_id x.id (owned r h) in rw same (rw stays refl))

delete :
    (cutoff : ℕ) (sessions : List Session) (tokens : List SessionRefreshToken) (issued : List Text)
    → IsCurrent sessions tokens issued
    → IsCurrent
        (delete_many (is_dead_session cutoff) sessions)
        (delete_many (is_token_of_dead cutoff sessions) tokens)
        issued
delete cutoff sessions tokens issued i = record {
  sessions_issued = All-find_many _ _ sessions i.sessions_issued;
  owners_issued = All-find_many _ _ tokens i.owners_issued;
  keyed = λ id. omega (
    arith,
    i.keyed id,
    count_where-find_many (is_session id) (λ s. not (is_dead_session cutoff s)) sessions,
  );
  current = All-intro _ (delete_many (is_dead_session cutoff) sessions) (λ x m.
      let (l, k) = mem-find_many_of _ x sessions m in
      let alive : is_dead_session cutoff x ≡ false = ground (arith, k) in
      let (one, hash) = All_at _ x sessions i.current l in
      (
        delete-unspent cutoff (is_unspent_of x.id) x sessions tokens l alive (i.keyed x.id)
              (λ r h. ground (arith, h))
            ∙ one,
        delete-unspent cutoff (is_current_of x.id x.refresh_token_hash) x sessions tokens l alive
              (i.keyed x.id) (λ r h. ground (arith, h))
            ∙ hash,
      ));
}

abbrev pub IsCurrentIn : History → Type 0
IsCurrentIn h = IsCurrent h.tables.sessions h.tables.refresh_tokens h.issued

Step-IsCurrent : (h k : History) → IsCurrentIn h → Step h k → IsCurrentIn k
unfolding expire_session revoke_reused revoke_session revoke_all delete_dead_sessions new_session
Step-IsCurrent h k i (creates l user_id now remember_me expected metadata session_id issued f g) =
    let t = h.tables in
    let s = new_session l user_id now remember_me metadata session_id issued in
    elim (create_session-refresh_tokens l user_id now remember_me expected metadata session_id
      issued t) [
        | inl (e, d) ↦ rw e (
            rw d (
              issue issued.token_id _ _ _
                (issue session_id t.sessions t.refresh_tokens h.issued i)))
        | inr (e, d) ↦ rw e (
            rw d (
              issue issued.token_id _ _ _
                (insert s issued t.sessions t.refresh_tokens h.issued f refl i)))
      ]
Step-IsCurrent h k i (rotates c fresh metadata now u f e) =
    let ((one, sessions), (taken, tokens)) = rotate-eq_some c fresh metadata now h.tables u e in
    rw sessions (
      rw tokens (
        issue fresh.token_id _ _ h.issued (
          rotate c fresh metadata now h.tables.sessions h.tables.refresh_tokens h.issued one taken
            i)))
Step-IsCurrent h k i (states u (expires id now)) =
    update_same _ _ h.tables.sessions h.tables.refresh_tokens h.issued (λ s. (refl, refl)) i
Step-IsCurrent h k i (states u (finds_reuse id now)) =
    update_same _ _ h.tables.sessions h.tables.refresh_tokens h.issued (λ s. (refl, refl)) i
Step-IsCurrent h k i (states u (logs_out id now)) =
    update_same _ _ h.tables.sessions h.tables.refresh_tokens h.issued (λ s. (refl, refl)) i
Step-IsCurrent h k i (states u (ends_all user_id reason now)) =
    update_same _ _ h.tables.sessions h.tables.refresh_tokens h.issued (λ s. (refl, refl)) i
Step-IsCurrent h k i (states u (cleans now)) =
    delete (now - session_retention_ms) h.tables.sessions h.tables.refresh_tokens h.issued i
Step-IsCurrent h k i (states u (audits e)) = i
Step-IsCurrent h k i (states u (changes_users users)) = i

pub Reach-IsCurrent : (h : History) → Reach h → IsCurrentIn h
Reach-IsCurrent h starts = record {
  sessions_issued = tt;
  owners_issued = tt;
  keyed = λ id. omega arith;
  current = tt;
}
Reach-IsCurrent h (next {h = g} r s) = Step-IsCurrent g h (Reach-IsCurrent g r) s

-- In the tables that statements of any requests in any order lead to, each session has one unspent
-- token, and the hash of that token is the one of the session's row.
pub Reach-HasCurrent :
    (h : History) → Reach h → All (HasCurrent h.tables.refresh_tokens) h.tables.sessions
Reach-HasCurrent h r = (Reach-IsCurrent h r).current
