-- ===== src/Access/Examples.antt =====
-- Requests with a cookie and with the header of a proxy.
use dingbap.Sessions.{Session}
use dingbap.Text.{codes, Text, has_prefix, text_eq, equal_fold, trim, contains_byte}
use dingbap.Base.{◌∷◌, [], ◌≡◌, if◌then◌else◌, none, some, true, false, refl, find?}
use dingbap.Access.{
  safe_next_path, sanitize_proxy_username, with_session, require_admin, should_redirect_to_login,
  session_from_proxy, proxy_username, by_username, local_part, before_at, ProxyAuth, Session,
}
use dingbap.Access.Laws.{require_admin-current}
use dingbap.Program.{Program}
use dingbap.Program.Current.{IsSafe}
use dingbap.Program.Roles.{role_of}
use dingbap.Users.{User, role_admin, new_user, by_username}
use dingbap.Users.Invariant.{IsSound, IsValid}
use dingbap.Web.{Request}

-- Names what the runs below compute with.
program : Unit {0}
unfolding safe_next_path sanitize_proxy_username should_redirect_to_login with_session
    session_from_proxy proxy_username require_admin by_username find? equal_fold text_eq trim
    contains_byte has_prefix local_part before_at
program = tt

next_paths :
    (safe_next_path (codes "//evil") (codes "viewer") ≡ codes "/")
    × (safe_next_path (codes "/admin/users") (codes "viewer") ≡ codes "/")
    × (safe_next_path (codes "/admin/users") role_admin ≡ codes "/admin/users")
unfolding program
next_paths = (refl, refl, refl)

proxy_names :
    (sanitize_proxy_username (codes " ann@corp ") ≡ codes "ann")
    × (sanitize_proxy_username (codes "../ann") ≡ [])
unfolding program
proxy_names = (refl, refl)

abbrev ann : User
ann = new_user (codes "ann") (codes "#pass") role_admin

abbrev start : Program
start = record {
  users = record { users = ann ∷ []; file = ann ∷ [] };
  sessions = record { sessions = []; failures = []; file = []; memory_only = false };
  pending_logins = [];
  pending_setups = [];
}

start-IsSafe : IsSafe start
unfolding program
start-IsSafe = record { valid = (valid, valid); current = tt; waiting = tt }
  where
    sound : IsSound ann
    sound = record { known_role = refl; trimmed = refl; nonempty = cc; second_factor = λ e. cc }

    valid : IsValid (ann ∷ [])
    valid = record { distinct = (refl, tt); sound = (sound, tt) }

abbrev page : Request
page = record {
  method = codes "GET";
  path = codes "/admin";
  host = codes "h";
  tls = true;
  forwarded_proto = [];
  origin = [];
  referer = [];
  accept = [];
}

abbrev proxy : ProxyAuth
proxy = record { enabled = true; header = [] }

abbrev header : Text → Text
header h = if text_eq h (codes "X-Remote-User") then codes "Ann@corp" else []

require_admin-current_example :
    (s : Session) × ((with_session proxy header none 5 6 true start.users start.sessions).1
      ≡ some s)
    × (role_of s.username start.users ≡ some role_admin)
unfolding program
require_admin-current_example =
    require_admin-current proxy header none 5 6 true (codes "%2Fadmin") page start start-IsSafe refl
