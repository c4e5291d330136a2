-- ===== src/Auth/Session.antt =====
-- The tables of sessions and their refresh tokens, from apps/auth/prisma/schema.prisma, and the
-- types of apps/auth/src/app/session: what a request brings and what a response takes.
pub mod Token
pub mod Create
pub mod Refresh
pub mod Logout
pub mod Steps
pub mod Effects
pub mod SingleUse
pub mod Current
pub mod Admitted
pub mod Ended
pub mod Ends
pub mod Replay
pub mod Live
pub mod Refines
use backend.Prelude.{ℕ, Bool, List, [], ◌∷◌, ◌++◌, Option}
use backend.Text.{Text}

pub data SessionRevokedReason : Type 0 where
  logout logout_all refresh_reuse password_changed : SessionRevokedReason
  expired admin_revoked security_risk : SessionRevokedReason

-- The rows of `users` as far as the sessions read them.
pub record User : Type 0 where
  pub id : ℕ
  pub password : Option Text

pub record Session : Type 0 where
  pub id : Text
  pub user_id : ℕ
  pub refresh_token_hash : Text
  pub expires_at : ℕ
  pub revoked_at : Option ℕ
  pub revoked_reason : Option SessionRevokedReason
  pub last_used_at : Option ℕ
  pub rotated_at : Option ℕ
  pub remember_me : Bool
  pub user_agent : Option Text
  pub ip_hash : Option Text

pub record SessionRefreshToken : Type 0 where
  pub id : Text
  pub session_id : Text
  pub credential_hash : Text
  pub consumed_at : Option ℕ

pub data RefreshFailure : Type 0 where
  session_revoked invalid_refresh_secret concurrent_refresh_rotation : RefreshFailure

-- The audit events of the session service, with their metadata.
pub data AuditEvent : Type 0 where
  session_started : (session_id : Text) → (user_id : ℕ) → AuditEvent
  refresh_failed : (session_id : Text) → (user_id : ℕ) → RefreshFailure → AuditEvent
  refresh_reuse_detected session_expired refresh_success :
      (session_id : Text) → (user_id : ℕ) → AuditEvent
  suspicious_ip suspicious_user_agent logged_out : (session_id : Text) → (user_id : ℕ) → AuditEvent
  logged_out_all : (user_id revoked_sessions : ℕ) → AuditEvent

pub record Tables : Type 0 where
  pub users : List User
  pub sessions : List Session
  pub refresh_tokens : List SessionRefreshToken
  pub events : List AuditEvent

pub record RequestMetadata : Type 0 where
  pub ip_hash : Option Text
  pub user_agent : Option Text

-- What a call does with the cookies of its response. The access token is named by its user.
pub data Cookies : Type 0 where
  kept cleared : Cookies
  set_auth_cookies : (access_user : ℕ) → (refresh_token : Text) → (remember_me : Bool) → Cookies

pub data Outcome : Type 0 where
  unauthorized credential_changed : Outcome
  signed_in : (user_id : ℕ) → Outcome

pub record Answer : Type 0 where
  pub outcome : Outcome
  pub cookies : Cookies
  pub tables : Tables

-- `createEvent`
abbrev pub audit : AuditEvent → Tables → Tables
audit e t = record t { events = t.events ++ e ∷ [] }
