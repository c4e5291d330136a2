-- ===== src/Auth/Session/Steps.antt =====
-- The statements and transactions on the tables of sessions, in any order and with arguments read
-- at any time before: the calls of several requests interleave at their statements.
use backend.Prelude.{ℕ, ◌≡◌, Bool, false, List, [], ◌∷◌, Option, some, any}
use backend.Text.{Text, text_eq}
use backend.Auth.Session.{SessionRevokedReason, User, AuditEvent, Tables, RequestMetadata, audit}
use backend.Auth.Session.Create.{IssuedRefreshCredential, Lifetimes, create_session}
use backend.Auth.Session.Refresh.{
  RefreshContext, expire_session, revoke_reused, rotate_refresh_credential_atomically,
}
use backend.Auth.Session.Logout.{revoke_session, revoke_all, delete_dead_sessions}

-- The statements that make no token.
pub data Statement (t : Tables) : Tables → Type 0 where
  expires : (id : Text) (now : ℕ) → Statement t (expire_session id now t)
  finds_reuse : (id : Text) (now : ℕ) → Statement t (revoke_reused id now t)
  logs_out : (id : Text) (now : ℕ) → Statement t (revoke_session id now t)
  ends_all :
      (user_id : ℕ) (reason : SessionRevokedReason) (now : ℕ)
      → Statement t (revoke_all user_id reason now t)
  cleans : (now : ℕ) → Statement t (delete_dead_sessions now t)
  audits : (e : AuditEvent) → Statement t (audit e t)
  changes_users : (users : List User) → Statement t (record t { users = users })

-- The tables, the identifiers that sessions and tokens were given so far, and the tokens that
-- rotations have spent, the last one first.
pub record History : Type 0 where
  pub tables : Tables
  pub issued : List Text
  pub rotated : List Text

abbrev pub is_issued : List Text → Text → Bool
is_issued ids id = any (text_eq id) ids

-- `randomUUID` and the default of the column `id` give identifiers that were not given before.
pub data Step (h : History) : History → Type 0 where
  creates :
      (l : Lifetimes) (user_id now : ℕ) (remember_me : Bool) (expected : Option Text)
      (metadata : RequestMetadata) (session_id : Text) (issued : IssuedRefreshCredential)
      → is_issued h.issued session_id ≡ false
      → is_issued (session_id ∷ h.issued) issued.token_id ≡ false
      → Step h (record {
        tables =
            (create_session l user_id now remember_me expected metadata session_id issued
              h.tables).tables;
        issued = issued.token_id ∷ session_id ∷ h.issued;
        rotated = h.rotated;
      })
  rotates :
      (c : RefreshContext) (next : IssuedRefreshCredential) (metadata : RequestMetadata) (now : ℕ)
      (u : Tables)
      → is_issued h.issued next.token_id ≡ false
      → rotate_refresh_credential_atomically c next metadata now h.tables ≡ some u
      → Step h (record {
        tables = u;
        issued = next.token_id ∷ h.issued;
        rotated = c.parsed_token.token_id ∷ h.rotated;
      })
  states :
      (u : Tables)
      → Statement h.tables u
      → Step h (record { tables = u; issued = h.issued; rotated = h.rotated })

abbrev empty_history : History
empty_history = record {
  tables = record { users = []; sessions = []; refresh_tokens = []; events = [] };
  issued = [];
  rotated = [];
}

pub data Reach : History → Type 0 where
  starts : Reach empty_history
  next : {h k : History} → Reach h → Step h k → Reach k

pub data Run (h : History) : History → Type 0 where
  stops : Run h h
  goes : {k l : History} → Run h k → Step k l → Run h l
