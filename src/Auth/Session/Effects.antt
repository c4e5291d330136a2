-- ===== src/Auth/Session/Effects.antt =====
-- What the transactions of apps/auth/src/app/session/services/session.service.ts make of the tables
-- of sessions and tokens.
use backend.Prelude.{
  ℕ, ◌≡◌, refl, ◌⊎◌, inl, inr, Bool, [], ◌∷◌, ◌++◌, Option, some, Bool-cases, Option-cases,
  update_many, count_where, find_unique, arith,
}
use backend.Text.{Text}
use backend.Auth.Session.{RequestMetadata, Tables}
use backend.Auth.Session.Create.{
  IssuedRefreshCredential, Lifetimes, create_session, new_token, new_session, is_user,
  credentials_changed,
}
use backend.Auth.Session.Refresh.{
  RefreshContext, takes_rotation, set_rotated, takes_consumption, set_consumed,
  rotate_refresh_credential_atomically,
}

pub create_session-refresh_tokens :
    (l : Lifetimes) (user_id now : ℕ) (remember_me : Bool) (expected : Option Text)
    (metadata : RequestMetadata) (session_id : Text) (issued : IssuedRefreshCredential) (t : Tables)
    → let u =
        (create_session l user_id now remember_me expected metadata session_id issued t).tables in
      ((u.refresh_tokens ≡ t.refresh_tokens) × (u.sessions ≡ t.sessions))
      ⊎ ((u.refresh_tokens ≡ t.refresh_tokens ++ new_token session_id issued ∷ [])
          × (u.sessions
              ≡ t.sessions
                ++ new_session l user_id now remember_me metadata session_id issued ∷ []))
unfolding create_session new_session
create_session-refresh_tokens l user_id now remember_me expected metadata session_id issued t =
    let user = find_unique (is_user user_id) t.users in
    elim (Bool-cases (credentials_changed expected user)) [
      | inl e ↦ rw e (inl (refl, refl))
      | inr e ↦ elim (Option-cases user) [
        | inl n ↦ rw e (rw n (inl (refl, refl)))
        | inr (u, n) ↦ rw e (rw n (inr (refl, refl)))
      ]
    ]

pub rotate-eq_some :
    (c : RefreshContext) (fresh : IssuedRefreshCredential) (metadata : RequestMetadata) (now : ℕ)
    (t u : Tables)
    → rotate_refresh_credential_atomically c fresh metadata now t ≡ some u
    → ((count_where (takes_rotation c now) t.sessions ≡ 1)
        × (u.sessions
            ≡ update_many (takes_rotation c now) (set_rotated fresh metadata now) t.sessions))
      × ((count_where (takes_consumption c) t.refresh_tokens ≡ 1)
          × (u.refresh_tokens
              ≡ update_many (takes_consumption c) (set_consumed now) t.refresh_tokens
                ++ new_token c.session.id fresh ∷ []))
unfolding rotate_refresh_credential_atomically
rotate-eq_some c fresh metadata now t u e = ground arith
