-- ===== src/Sessions/Lookup.antt =====
-- What a token answers after each call.
use dingbap.Base.{
  ℕ, ◌+◌, ◌≤◌, ◌≡◌, Bool, false, not, Option, none, some, arith, keep, if◌then◌else◌, is_empty, ltb,
}
use dingbap.Text.{Text, trim_space, equal_fold, text_eq}
use dingbap.Text.Laws.{text_eq_iff}
use dingbap.Table.{insert, delete}
use dingbap.Table.Laws.{Distinct, when, lookup-keep, lookup-insert, lookup-delete, keep_all}
use dingbap.Sessions.{
  new_session, Session, SessionManager, LoginAttempt, session_ttl, expired, persist, stale, reap,
  create, destroy, get, destroy_by_username,
}

sessions-persist :
    (now : ℕ) (w : Bool) (sm : SessionManager) → (persist now w sm).sessions ≡ sm.sessions
unfolding persist
sessions-persist now w sm = ground arith

-- The session that a token gives at a time, whatever becomes of the table.
abbrev pub answer : Text → ℕ → ℕ → Bool → SessionManager → Option Session
answer id now later w sm = (get id now later w sm).1

-- A new session is given for its token until its seven days are over, and not after that; every
-- other token answers as before.
pub get-create :
    (id name role other : Text) (now later t t' : ℕ) (w w' : Bool) (sm : SessionManager)
    → is_empty id ≡ false
    → answer other t t' w' (create (some id) name role now later w sm).0 ≡ (
        if text_eq id other
        then if ltb (now + session_ttl) t then none else some (new_session name role now)
        else answer other t t' w' sm)
unfolding create get
get-create id name role other now later t t' w w' sm h =
    let s = new_session name role now in
    ground (
      arith,
      sessions-persist later w (record sm { sessions = insert id s sm.sessions }),
      lookup-insert id other s sm.sessions,
      text_eq_iff id other,
    )

-- After a sign-out the token gives no session, and every other token answers as before.
pub get-destroy :
    (id other : Text) (now t t' : ℕ) (w w' : Bool) (sm : SessionManager)
    → answer other t t' w' (destroy id now w sm)
      ≡ (if text_eq id other then none else answer other t t' w' sm)
unfolding destroy get
get-destroy id other now t t' w w' sm = ground (
  arith,
  sessions-persist now w (record sm { sessions = delete id sm.sessions }),
  lookup-delete id other sm.sessions,
  text_eq_iff id other,
)

-- What is left of an answer when the sessions of a user are dropped.
abbrev pub unless_owned : Text → Option Session → Option Session
unless_owned name = when (λ s. not (equal_fold s.username name))

-- After a change of password or role, or a deletion, no token gives a session of the user, under any
-- spelling of the name, and every token of another user answers as before.
pub get-destroy_by_username :
    (username id : Text) (now t t' : ℕ) (w w' : Bool) (sm : SessionManager)
    → Distinct sm.sessions
    → is_empty (trim_space username) ≡ false
    → answer id t t' w' (destroy_by_username username now w sm)
      ≡ unless_owned (trim_space username) (answer id t t' w' sm)
unfolding destroy_by_username get
get-destroy_by_username username id now t t' w w' sm d h =
    let owned = λ (e : Text × Session). equal_fold e.1.username (trim_space username) in
    ground (
      arith,
      sessions-persist now w (record sm { sessions = keep (λ e. not (owned e)) sm.sessions }),
      lookup-keep (λ e. not (owned e)) id sm.sessions d,
      keep_all owned sm.sessions,
    )

-- The hourly sweep is not seen by anyone: at every later time each token gives the same session.
pub get-reap :
    (id : Text) (now later t t' : ℕ) (w w' : Bool) (sm : SessionManager)
    → Distinct sm.sessions
    → now ≤ t
    → answer id t t' w' (reap now later w sm) ≡ answer id t t' w' sm
unfolding reap get
get-reap id now later t t' w w' sm d h =
    let p = λ (e : Text × Session). not (expired now e.1) in
    let q = λ (e : Text × LoginAttempt). not (stale now e.1) in
    let swept = record sm { sessions = keep p sm.sessions; failures = keep q sm.failures } in
    ground (arith, sessions-persist later w swept, lookup-keep p id sm.sessions d)
