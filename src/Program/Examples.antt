-- ===== src/Program/Examples.antt =====
-- Runs of the handlers on an administrator with a second factor and a viewer.
use dingbap.Program.SecondFactor.{lookup-check_code}
use dingbap.Program.Accounts.{handle_users_set_role, and_drop_sessions}
use dingbap.Program.Pending.{take_pending_login, put_pending_login}
use dingbap.Table.{lookup, insert, delete}
use dingbap.Text.{text_eq, Text, codes, equal_fold, trim, has_prefix}
use dingbap.Base.{
  ◌∷◌, [], ◌≡◌, ◌&&◌, none, some, true, false, List, Option, refl, length, find?, modify_first,
  keep, ◌≤◌, arith,
}
use dingbap.Program.{Program, Outside, PendingLogin}
use dingbap.Program.Login.{
  handle_login_api, handle_login_totp, check_code, signed_in, totp_required, admit, check_password,
  verify_totp_or_recovery, check_pending, finish_login_after_password, open_session, retry_code,
}
use dingbap.Program.Calls.{Call, logs_in, enters_code, assigns, run, apply}
use dingbap.Program.Current.{IsSafe}
use dingbap.Program.Safe.{run-IsSafe}
use dingbap.Program.SecondFactor.{
  sessions-handle_login_api, handle_login_totp-signed_in, attempt-handle_login_api,
}
use dingbap.Users.{
  User, Passwords, role_admin, role_viewer, new_user, authenticate, by_username, totp_enabled,
  totp_secret, set_role, save,
}
use dingbap.Users.Invariant.{Valid, IsSound}
use dingbap.Sessions.{
  attempt, no_attempt, allow_login, record_failure, clear_failures, create, persist, get,
  destroy_by_username, fail_once,
}
use dingbap.Web.{Request, same_origin}

-- Names what the runs below compute with.
program : Unit {0}
unfolding run apply handle_login_api handle_login_totp admit check_password check_code check_pending
    finish_login_after_password verify_totp_or_recovery open_session retry_code put_pending_login
    take_pending_login handle_users_set_role and_drop_sessions authenticate by_username totp_enabled
    totp_secret set_role same_origin allow_login record_failure clear_failures create persist lookup
    insert delete text_eq equal_fold trim find? modify_first keep has_prefix save get
    destroy_by_username fail_once
program = tt

abbrev toy : Passwords
toy = record { hash = λ p. some (b'#' ∷ p); verify = λ h q. some (text_eq h (b'#' ∷ q)) }

abbrev digest : Text → Text
digest code = code

abbrev root_user : User
root_user = record (new_user (codes "root") (codes "#root-pass") role_admin) {
  totp_secret = codes "KEY";
  totp_active = true;
}

abbrev guest_user : User
guest_user = new_user (codes "guest") (codes "#guest-pass") role_viewer

abbrev start : Program
start = record {
  users = record { users = root_user ∷ guest_user ∷ []; file = root_user ∷ guest_user ∷ [] };
  sessions = record { sessions = []; failures = []; file = []; memory_only = false };
  pending_logins = [];
  pending_setups = [];
}

abbrev outside : Outside
outside = record {
  allow_at = 10;
  allow_again = 10;
  fail_at = 11;
  fail_again = 11;
  create_at = 12;
  save_at = 12;
  take_at = 11;
  put_at = 11;
  accepts = λ code secret. text_eq code (codes "123456") && text_eq secret (codes "KEY");
  session_token = some (codes "sid");
  pending_token = some (codes "tok");
  users_written = true;
  users_rewritten = true;
  sessions_written = true;
}

abbrev post : Request
post = record {
  method = codes "POST";
  path = codes "/api/login";
  host = codes "h";
  tls = false;
  forwarded_proto = [];
  origin = codes "http://h";
  referer = [];
  accept = [];
}

abbrev ip : Text
ip = codes "10.0.0.1"

abbrev password_step : Option (Text × Text)
password_step = some (codes "ROOT", codes "root-pass")

abbrev waiting : Program
waiting = record start {
  pending_logins =
      (
        codes "tok",
        record { username = codes "root"; role = role_admin; expires_at = 300000000011 },
      )
      ∷ [];
}

password_step_waits :
    handle_login_api toy outside post ip password_step start
    ≡ (waiting, totp_required (codes "tok"))
unfolding program
password_step_waits = refl

code_step_signs_in :
    (handle_login_totp digest outside post ip (some (codes "tok", codes "123456")) waiting).1
    ≡ signed_in (codes "sid") (codes "root") role_admin
unfolding program
code_step_signs_in = refl

start-Valid : Valid start.users
unfolding program
start-Valid = (
  record { distinct = (refl, (refl, tt)); sound = (root, (guest, tt)) },
  record { distinct = (refl, (refl, tt)); sound = (root, (guest, tt)) },
)
  where
    root : IsSound root_user
    root = record { known_role = refl; trimmed = refl; nonempty = cc; second_factor = λ _. refl }

    guest : IsSound guest_user
    guest = record { known_role = refl; trimmed = refl; nonempty = cc; second_factor = λ e. cc }

start-IsSafe : IsSafe start
start-IsSafe = record { valid = start-Valid; current = tt; waiting = tt }

abbrev history : List Call
history =
    logs_in outside post ip (some (codes "guest", codes "guest-pass"))
    ∷ assigns outside post none (some (codes " Guest", role_admin))
    ∷ logs_in outside post ip password_step
    ∷ enters_code outside post ip (some (codes "tok", codes "123456"))
    ∷ []

one_session : length (run toy digest start history).sessions.sessions ≡ 1
unfolding program
one_session = refl

run-IsSafe_example : IsSafe (run toy digest start history)
run-IsSafe_example = run-IsSafe toy digest start history (tt, (refl, (tt, (tt, tt)))) start-IsSafe

sessions-handle_login_api_example :
    (handle_login_api toy outside post ip password_step start).0.sessions.sessions ≡ []
unfolding program
sessions-handle_login_api_example =
    sessions-handle_login_api toy outside post ip (codes "ROOT") (codes "root-pass") root_user start
      refl refl

attempt-handle_login_api_example :
    attempt ip (handle_login_api toy outside post ip password_step start).0.sessions ≡ no_attempt
unfolding program
attempt-handle_login_api_example =
    attempt-handle_login_api toy outside post ip (codes "tok") (codes "ROOT") (codes "root-pass")
      start refl

handle_login_totp-signed_in_example :
    (b : Text × Text) × (pending : PendingLogin) × (some (codes "tok", codes "123456") ≡ some b)
    × (lookup b.0 waiting.pending_logins ≡ some pending)
    × (outside.take_at ≤ pending.expires_at)
    × ((pending.username ≡ codes "root") × (pending.role ≡ role_admin))
    × ((verify_totp_or_recovery digest outside pending.username b.1 waiting.users).1 ≡ true)
    × (lookup b.0
          (handle_login_totp digest outside post ip
            (some (codes "tok", codes "123456"))
            waiting).0.pending_logins
        ≡ none)
unfolding program
handle_login_totp-signed_in_example =
    handle_login_totp-signed_in digest outside post ip (codes "sid") (codes "root") role_admin
      (some (codes "tok", codes "123456")) waiting refl

lookup-check_code_example :
    lookup
      (codes "tok")
      (check_code digest
        (record outside { pending_token = some (codes "tik") })
        ip
        (some (codes "tok", codes "000000"))
        waiting).0.pending_logins
    ≡ none
unfolding program
lookup-check_code_example =
    lookup-check_code digest (record outside { pending_token = some (codes "tik") }) ip
      (codes "tok") (codes "000000") waiting (λ t e. ground arith)
