-- ===== src/Program/Calls.antt =====
-- The requests that clients make, in the order in which they are handled.
use dingbap.Text.{Text}
use dingbap.Base.{◌∷◌, [], ◌≡◌, true, Bool, List, Option, ℕ}
use dingbap.Program.{Program, Outside}
use dingbap.Program.Login.{handle_login_api, handle_login_totp, handle_logout_api}
use dingbap.Program.Accounts.{
  handle_users_create, handle_users_delete, handle_users_set_password, handle_users_set_role,
  handle_change_own_password, handle_totp_begin, handle_totp_confirm, handle_totp_disable,
}
use dingbap.Web.{Request}
use dingbap.Users.{Passwords}
use dingbap.Sessions.{Session, get, reap}

-- A request with what it reads of the outside; `looks_up` is the session cookie of any request, and
-- `sweeps` the hourly sweep.
pub data Call : Type 0 where
  logs_in : Outside → Request → Text → Option (Text × Text) → Call
  enters_code : Outside → Request → Text → Option (Text × Text) → Call
  logs_out : Outside → Request → Option Text → Call
  looks_up : Text → ℕ → ℕ → Bool → Call
  sweeps : ℕ → ℕ → Bool → Call
  creates : Outside → Request → Option (Text × Text × Text) → Call
  deletes : Outside → Request → Option Session → Option Text → Call
  resets : Outside → Request → Option (Text × Text) → Call
  assigns : Outside → Request → Option Session → Option (Text × Text) → Call
  changes : Outside → Request → Option Session → Option (Text × Text) → Call
  begins : Outside → Request → Option Session → Option Text → Call
  confirms : Outside → Request → Option Session → Option Text → Option (List Text) → Call
  disables : Outside → Request → Option Session → Option (Text × Text) → Call

module _ (pw : Passwords) (digest : Text → Text) where
  unfoldable pub apply : Program → Call → Program
  unfolding get reap handle_login_api handle_login_totp handle_logout_api handle_users_create
      handle_users_delete handle_users_set_password handle_users_set_role handle_change_own_password
      handle_totp_begin handle_totp_confirm handle_totp_disable
  apply p (logs_in o r ip body) = (handle_login_api pw o r ip body p).0
  apply p (enters_code o r ip body) = (handle_login_totp digest o r ip body p).0
  apply p (logs_out o r cookie) = (handle_logout_api o r cookie p).0
  apply p (looks_up id now later w) = record p { sessions = (get id now later w p.sessions).0 }
  apply p (sweeps now later w) = record p { sessions = reap now later w p.sessions }
  apply p (creates o r body) = (handle_users_create pw o r body p).0
  apply p (deletes o r own body) = (handle_users_delete o r own body p).0
  apply p (resets o r body) = (handle_users_set_password pw o r body p).0
  apply p (assigns o r own body) = (handle_users_set_role o r own body p).0
  apply p (changes o r own body) = (handle_change_own_password pw o r own body p).0
  apply p (begins o r own secret) = (handle_totp_begin o r own secret p).0
  apply p (confirms o r own body hashes) = (handle_totp_confirm o r own body hashes p).0
  apply p (disables o r own body) = (handle_totp_disable pw digest o r own body p).0

  unfoldable pub run : Program → List Call → Program
  run p [] = p
  run p (c ∷ cs) = run (apply p c) cs

-- The write of the accounts succeeds in the calls that take a role or an account away.
abbrev pub IsWritten : Call → Type 0
IsWritten (deletes o r own body) = o.users_written ≡ true
IsWritten (assigns o r own body) = o.users_written ≡ true
IsWritten c = Unit
