-- ===== src/Sessions.antt =====
-- The session manager (session.go): sign-in sessions, their file, and the lockout of addresses that
-- fail to sign in. Times are nanoseconds since Go's zero time, each reading of the clock is an
-- argument, and so is the outcome of each file write.
pub mod Laws
pub mod Lookup
pub mod Restart
pub mod Lockout
mod Examples
use dingbap.Base.{
  ℕ, suc, ◌+◌, ◌*◌, Bool, true, false, not, ◌&&◌, ◌||◌, List, [], ◌∷◌, Option, none, some,
  if◌then◌else◌, ltb, leb, ◌==◌, is_empty, is_some, find?, keep,
}
use dingbap.Text.{Text, equal_fold, trim_space}
use dingbap.Table.{Table, lookup, insert, delete}

abbrev pub second : ℕ
second = 1_000_000_000

abbrev pub minute : ℕ
minute = 60 * second

abbrev pub hour : ℕ
hour = 60 * minute

abbrev pub session_ttl : ℕ
session_ttl = 7 * 24 * hour

abbrev pub login_max_failures : ℕ
login_max_failures = 5

abbrev pub login_lock_duration : ℕ
login_lock_duration = minute

pub record Session : Type 0 where
  pub username : Text
  pub role : Text
  pub expires_at : ℕ

-- The time 0 is Go's zero time: no lock, no failure yet.
pub record LoginAttempt : Type 0 where
  pub count : ℕ
  pub locked_until : ℕ
  pub last_fail : ℕ

abbrev pub no_attempt : LoginAttempt
no_attempt = record { count = 0; locked_until = 0; last_fail = 0 }

-- `memory_only` is an empty `path`; `file` is the content of `sessions.json`.
pub record SessionManager : Type 0 where
  pub sessions : Table Session
  pub memory_only : Bool
  pub failures : Table LoginAttempt
  pub file : Table Session

abbrev pub expired : ℕ → Session → Bool
expired now s = ltb s.expires_at now

abbrev pub loadable : ℕ → Text → Session → Bool
loadable now id s = not ((is_empty id || (is_empty s.username || is_empty s.role)) || expired now s)

-- The loop of `load` over the entries of the file.
unfoldable pub load_entries : ℕ → Table Session → Table Session → Table Session
load_entries now [] m = m
load_entries now ((id, s) ∷ f) m =
    load_entries now f (if loadable now id s then insert id s m else m)

-- `newSessionManager` on the content of the file.
unfoldable pub new_session_manager : ℕ → Bool → Table Session → SessionManager
unfolding load_entries
new_session_manager now memory_only file = record {
  sessions = if memory_only then [] else load_entries now file [];
  memory_only = memory_only;
  failures = [];
  file = file;
}

unfoldable pub persist : ℕ → Bool → SessionManager → SessionManager
persist now written sm =
    if sm.memory_only
    then sm
    else if written
    then record sm { file = keep (λ e. not (expired now e.1)) sm.sessions }
    else sm

-- Whether `reap` forgets the failures of an address.
unfoldable pub stale : ℕ → LoginAttempt → Bool
stale now a =
    let window = a.last_fail + login_lock_duration in
    let expiry = if ltb window a.locked_until then a.locked_until else window in
    if a.last_fail == 0 && a.locked_until == 0 then true else ltb expiry now

unfoldable pub reap : ℕ → ℕ → Bool → SessionManager → SessionManager
unfolding persist stale
reap now later written sm =
    let changed = is_some (find? (λ e. expired now e.1) sm.sessions) in
    let swept = record sm {
      sessions = keep (λ e. not (expired now e.1)) sm.sessions;
      failures = keep (λ e. not (stale now e.1)) sm.failures;
    } in
    if changed then persist later written swept else swept

abbrev pub new_session : Text → Text → ℕ → Session
new_session username role now = record {
  username = username;
  role = role;
  expires_at = now + session_ttl;
}

-- `token` is the result of `randomToken(32)`.
unfoldable pub create :
    Option Text → Text → Text → ℕ → ℕ → Bool → SessionManager → SessionManager × Option Text
unfolding persist
create none username role now later written sm = (sm, none)
create (some id) username role now later written sm =
    let s = new_session username role now in
    (persist later written (record sm { sessions = insert id s sm.sessions }), some id)

unfoldable pub destroy : Text → ℕ → Bool → SessionManager → SessionManager
unfolding persist
destroy id now written sm =
    if is_some (lookup id sm.sessions)
    then persist now written (record sm { sessions = delete id sm.sessions })
    else sm

unfoldable pub get : Text → ℕ → ℕ → Bool → SessionManager → SessionManager × Option Session
unfolding destroy
get id now later written sm = if is_empty id then (sm, none) else elim (lookup id sm.sessions) [
  | none ↦ (sm, none)
  | some s ↦ if expired now s then (destroy id later written sm, none) else (sm, some s)
]

unfoldable pub destroy_by_username : Text → ℕ → Bool → SessionManager → SessionManager
unfolding persist
destroy_by_username username now written sm =
    let name = trim_space username in
    let owned = λ (e : Text × Session). equal_fold e.1.username name in
    if is_empty name
    then sm
    else if is_some (find? owned sm.sessions)
    then persist now written (record sm { sessions = keep (λ e. not (owned e)) sm.sessions })
    else sm

-- `fromRequest` on the value of the session cookie, if the request has one.
unfoldable pub from_request :
    Option Text → ℕ → ℕ → Bool → SessionManager → SessionManager × Option Session
unfolding get
from_request none now later written sm = (sm, none)
from_request (some id) now later written sm = get id now later written sm

-- `failures[ip]`, with Go's zero value for a missing key.
abbrev pub or_no_attempt : Option LoginAttempt → LoginAttempt
or_no_attempt none = no_attempt
or_no_attempt (some a) = a

abbrev pub attempt : Text → SessionManager → LoginAttempt
attempt ip sm = or_no_attempt (lookup ip sm.failures)

unfoldable pub allow_login : Text → ℕ → ℕ → SessionManager → SessionManager × Bool
allow_login ip now later sm =
    let a = attempt ip sm in
    if ltb now a.locked_until
    then (sm, false)
    else if not (a.locked_until == 0) && ltb a.locked_until later
    then (record sm { failures = insert ip no_attempt sm.failures }, true)
    else (sm, true)

-- One more failure at `now`; a lock starts at `later`.
unfoldable pub fail_once : ℕ → ℕ → LoginAttempt → LoginAttempt
fail_once now later a =
    let counted = record a { count = a.count + 1; last_fail = now } in
    if leb login_max_failures counted.count
    then record counted { locked_until = later + login_lock_duration; count = 0 }
    else counted

unfoldable pub record_failure : Text → ℕ → ℕ → SessionManager → SessionManager
unfolding fail_once
record_failure ip now later sm = record sm {
  failures = insert ip (fail_once now later (attempt ip sm)) sm.failures;
}

unfoldable pub clear_failures : Text → SessionManager → SessionManager
clear_failures ip sm = record sm { failures = delete ip sm.failures }
