-- ===== src/Program/Login.antt =====
-- Signing in (middleware.go, totp.go): the password step, the code step, and signing out.
use dingbap.Text.{Text, trim, codes, trim_space}
use dingbap.Base.{
  ◌&&◌, if◌then◌else◌, none, some, true, false, Bool, Option, not, is_empty, leb, length,
}
use dingbap.Program.{Program, Outside, PendingLogin}
use dingbap.Program.Pending.{put_pending_login, take_pending_login}
use dingbap.Web.{Request, has_method, same_origin}
use dingbap.Users.{
  User, UserStore, Passwords, authenticate, totp_enabled, totp_secret, consume_recovery_code,
  is_admin, refused, granted,
}
use dingbap.Sessions.{allow_login, record_failure, clear_failures, create, destroy}

pub data LoginReply : Type 0 where
  method_not_allowed invalid_origin too_many_attempts bad_body : LoginReply
  bad_credentials pending_failed pending_expired session_failed : LoginReply
  totp_required : Text → LoginReply
  invalid_code : Option Text → LoginReply
  signed_in : Text → Text → Text → LoginReply
  logged_out : LoginReply

-- A session for the account, its failures forgotten.
unfoldable pub open_session : Outside → Text → Text → Text → Program → Program × LoginReply
unfolding create clear_failures
open_session o ip username role p =
    let (sm, token) =
      create o.session_token username role o.create_at o.save_at o.sessions_written p.sessions in
    elim token [
      | none ↦ (record p { sessions = sm }, session_failed)
      | some id ↦ (record p { sessions = clear_failures ip sm }, signed_in id username role)
    ]

unfoldable pub finish_login_after_password : Outside → Text → User → Program → Program × LoginReply
unfolding totp_enabled put_pending_login clear_failures open_session
finish_login_after_password o ip user p =
    let (pending, token) =
      put_pending_login o.pending_token user.username user.role o.put_at p.pending_logins in
    if is_admin user && totp_enabled user.username p.users
    then elim token [
      | none ↦ (p, pending_failed)
      | some tok ↦ (
        record p { pending_logins = pending; sessions = clear_failures ip p.sessions },
        totp_required tok,
      )
    ]
    else open_session o ip user.username user.role p

abbrev pub fail_login : Outside → Text → Program → Program
fail_login o ip p = record p { sessions = record_failure ip o.fail_at o.fail_again p.sessions }

-- The guards that both steps begin with: the method, the origin, and the lock of the address.
unfoldable pub admit :
    Outside → Request → Text → (Program → Program × LoginReply) → Program → Program × LoginReply
unfolding same_origin allow_login
admit o r ip next p =
    let (sm, allowed) = allow_login ip o.allow_at o.allow_again p.sessions in
    let p' = record p { sessions = sm } in
    if not (has_method (codes "POST") r)
    then (p, method_not_allowed)
    else if not (same_origin r)
    then (p, invalid_origin)
    else if not allowed
    then (p', too_many_attempts)
    else next p'

-- The password step after the guards, on the name and the password, where the body can be decoded.
unfoldable pub check_password :
    Passwords → Outside → Text → Option (Text × Text) → Program → Program × LoginReply
unfolding authenticate record_failure finish_login_after_password
check_password pw o ip none p = (p, bad_body)
check_password pw o ip (some b) p = elim (authenticate pw b.0 b.1 p.users) [
  | refused e ↦ (fail_login o ip p, bad_credentials)
  | granted user ↦ finish_login_after_password o ip user p
]

unfoldable pub handle_login_api :
    Passwords → Outside → Request → Text → Option (Text × Text) → Program → Program × LoginReply
unfolding admit check_password
handle_login_api pw o r ip body p = admit o r ip (check_password pw o ip body) p

unfoldable pub verify_totp_or_recovery :
    (Text → Text) → Outside → Text → Text → UserStore → UserStore × Bool
unfolding totp_secret consume_recovery_code trim
verify_totp_or_recovery digest o username code s = elim (totp_secret username s) [
  | none ↦ (s, false)
  | some t ↦
      if is_empty (trim_space code)
      then (s, false)
      else if o.accepts (trim_space code) t.0
      then (s, true)
      else if leb 12 (length (trim_space code))
      then consume_recovery_code digest username (trim_space code) o.users_written s
      else (s, false)
]

-- A wrong code counts as a failure, and the login waits under a new token.
unfoldable pub retry_code : Outside → Text → PendingLogin → Program → Program × LoginReply
unfolding record_failure put_pending_login
retry_code o ip pending p =
    let (m, token) =
      put_pending_login o.pending_token pending.username pending.role o.put_at p.pending_logins in
    (record (fail_login o ip p) { pending_logins = m }, invalid_code token)

-- The code step for a login that waits.
unfoldable pub check_pending :
    (Text → Text) → Outside → Text → PendingLogin → Text → Program → Program × LoginReply
unfolding verify_totp_or_recovery retry_code open_session
check_pending digest o ip pending code p =
    let (us, ok) = verify_totp_or_recovery digest o pending.username code p.users in
    let q = record p { users = us } in
    if ok then open_session o ip pending.username pending.role q else retry_code o ip pending q

-- The code step after the guards, on the pending token and the code.
unfoldable pub check_code :
    (Text → Text) → Outside → Text → Option (Text × Text) → Program → Program × LoginReply
unfolding take_pending_login record_failure check_pending
check_code digest o ip none p = (p, bad_body)
check_code digest o ip (some b) p =
    let (m, taken) = take_pending_login b.0 o.take_at p.pending_logins in
    let q = record p { pending_logins = m } in
    elim taken [
      | none ↦ (fail_login o ip q, pending_expired)
      | some pending ↦ check_pending digest o ip pending b.1 q
    ]

unfoldable pub handle_login_totp :
    (Text → Text) → Outside → Request → Text → Option (Text × Text) → Program → Program × LoginReply
unfolding admit check_code
handle_login_totp digest o r ip body p = admit o r ip (check_code digest o ip body) p

-- `cookie` is the session cookie.
unfoldable pub handle_logout_api : Outside → Request → Option Text → Program → Program × LoginReply
unfolding destroy
handle_logout_api o r cookie p =
    if not (has_method (codes "POST") r) then (p, method_not_allowed) else elim cookie [
      | none ↦ (p, logged_out)
      | some id ↦
          (record p { sessions = destroy id o.save_at o.sessions_written p.sessions }, logged_out)
    ]
