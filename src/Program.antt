-- ===== src/Program.antt =====
-- The state the handlers share, and what a handler takes from outside: clock readings, random tokens,
-- the code check of the authenticator library, and the outcomes of file writes.
pub mod Pending
pub mod Login
pub mod Accounts
pub mod Roles
pub mod Calls
pub mod Tables
pub mod Current
pub mod Steps
pub mod Revoked
pub mod Safe
pub mod SecondFactor
mod Examples
use dingbap.Base.{Bool, Option, ℕ}
use dingbap.Text.{Text}
use dingbap.Table.{Table}
use dingbap.Users.{UserStore}
use dingbap.Sessions.{SessionManager}

pub record PendingLogin : Type 0 where
  pub username : Text
  pub role : Text
  pub expires_at : ℕ

pub record PendingTotpSetup : Type 0 where
  pub secret : Text
  pub expires_at : ℕ

pub record Program : Type 0 where
  pub users : UserStore
  pub sessions : SessionManager
  pub pending_logins : Table PendingLogin
  pub pending_setups : Table PendingTotpSetup

-- `accepts code secret` is the answer of `totp.Validate` during the call. The clock readings are
-- those of `allowLogin`, `recordFailure`, a new session and its save, and the pending tables.
pub record Outside : Type 0 where
  pub allow_at : ℕ
  pub allow_again : ℕ
  pub fail_at : ℕ
  pub fail_again : ℕ
  pub create_at : ℕ
  pub save_at : ℕ
  pub take_at : ℕ
  pub put_at : ℕ
  pub accepts : Text → Text → Bool
  pub session_token : Option Text
  pub pending_token : Option Text
  pub users_written : Bool
  pub users_rewritten : Bool
  pub sessions_written : Bool
