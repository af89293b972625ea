-- ===== src/Sessions/Laws.antt =====
-- The tables of the session manager hold a key once, and an address has fewer failures on record
-- than the lockout takes, after every history of calls.
use dingbap.Base.{
  inl, inr, Option-cases, ℕ, ◌<◌, Bool, not, List, [], ◌∷◌, Option, none, some, arith, keep, All,
  All-keep,
}
use dingbap.Text.{Text, trim_space, equal_fold}
use dingbap.Table.{Table, lookup, insert, delete}
use dingbap.Table.Laws.{
  Distinct, keep-Distinct, insert-Distinct, delete-Distinct, All-insert, All-lookup,
}
use dingbap.Sessions.{
  new_session, Session, SessionManager, LoginAttempt, no_attempt, login_max_failures, expired,
  load_entries, new_session_manager, persist, stale, reap, create, destroy, get,
  destroy_by_username, attempt, allow_login, fail_once, record_failure, clear_failures,
}

pub record IsValid (sm : SessionManager) : Type 0 where
  pub sessions_distinct : Distinct sm.sessions
  pub failures_distinct : Distinct sm.failures
  pub file_distinct : Distinct sm.file
  pub counts : All (λ e. e.1.count < login_max_failures) sm.failures

load_entries-Distinct :
    (now : ℕ) (f m : Table Session) → Distinct m → Distinct (load_entries now f m)
unfolding load_entries
load_entries-Distinct now [] m d = d
load_entries-Distinct now ((id, s) ∷ f) m d =
    load_entries-Distinct now f _ (ground (arith, insert-Distinct id s m))

-- A manager made from a file starts valid.
pub new_session_manager-IsValid :
    (now : ℕ) (memory_only : Bool) (file : Table Session)
    → Distinct file
    → IsValid (new_session_manager now memory_only file)
unfolding new_session_manager
new_session_manager-IsValid now memory_only file d =
    ground (arith, load_entries-Distinct now file [])

pub persist-IsValid :
    (now : ℕ) (w : Bool) (sm : SessionManager) → IsValid sm → IsValid (persist now w sm)
unfolding persist
persist-IsValid now w sm v = ground (arith, keep-Distinct (λ e. not (expired now e.1)) sm.sessions)

-- The calls on the manager, with their clock readings and the outcome of the file write.
pub data Call : Type 0 where
  reaps : ℕ → ℕ → Bool → Call
  creates : Option Text → Text → Text → ℕ → ℕ → Bool → Call
  gets : Text → ℕ → ℕ → Bool → Call
  destroys : Text → ℕ → Bool → Call
  drops : Text → ℕ → Bool → Call
  allows : Text → ℕ → ℕ → Call
  fails : Text → ℕ → ℕ → Call
  clears : Text → Call

unfoldable pub apply : SessionManager → Call → SessionManager
apply sm (reaps now later w) = reap now later w sm
apply sm (creates token name role now later w) = (create token name role now later w sm).0
apply sm (gets id now later w) = (get id now later w sm).0
apply sm (destroys id now w) = destroy id now w sm
apply sm (drops name now w) = destroy_by_username name now w sm
apply sm (allows ip now later) = (allow_login ip now later sm).0
apply sm (fails ip now later) = record_failure ip now later sm
apply sm (clears ip) = clear_failures ip sm

unfoldable pub run : SessionManager → List Call → SessionManager
run sm [] = sm
run sm (c ∷ cs) = run (apply sm c) cs

destroy-IsValid :
    (id : Text) (now : ℕ) (w : Bool) (sm : SessionManager)
    → IsValid sm
    → IsValid (destroy id now w sm)
unfolding destroy
destroy-IsValid id now w sm v = ground (
  arith,
  delete-Distinct id sm.sessions,
  persist-IsValid now w (record sm { sessions = delete id sm.sessions }),
)

create-IsValid :
    (token : Option Text) (name role : Text) (now later : ℕ) (w : Bool) (sm : SessionManager)
    → IsValid sm
    → IsValid (create token name role now later w sm).0
unfolding create
create-IsValid none name role now later w sm v = v
create-IsValid (some id) name role now later w sm v =
    let s = new_session name role now in
    persist-IsValid later w (record sm { sessions = insert id s sm.sessions })
      (record {
        sessions_distinct = insert-Distinct id s sm.sessions v.sessions_distinct;
        failures_distinct = v.failures_distinct;
        file_distinct = v.file_distinct;
        counts = v.counts;
      })

reap-IsValid :
    (now later : ℕ) (w : Bool) (sm : SessionManager) → IsValid sm → IsValid (reap now later w sm)
unfolding reap
reap-IsValid now later w sm v =
    let p = λ (e : Text × Session). not (expired now e.1) in
    let q = λ (e : Text × LoginAttempt). not (stale now e.1) in
    let swept = record sm { sessions = keep p sm.sessions; failures = keep q sm.failures } in
    ground (
      arith,
      keep-Distinct p sm.sessions,
      keep-Distinct q sm.failures,
      All-keep (λ e. e.1.count < login_max_failures) q sm.failures v.counts,
      persist-IsValid later w swept,
    )

destroy_by_username-IsValid :
    (name : Text) (now : ℕ) (w : Bool) (sm : SessionManager)
    → IsValid sm
    → IsValid (destroy_by_username name now w sm)
unfolding destroy_by_username
destroy_by_username-IsValid name now w sm v =
    let p = λ (e : Text × Session). not (equal_fold e.1.username (trim_space name)) in
    ground (
      arith,
      keep-Distinct p sm.sessions,
      persist-IsValid now w (record sm { sessions = keep p sm.sessions }),
    )

set_attempt-IsValid :
    (ip : Text) (a : LoginAttempt) (sm : SessionManager)
    → a.count < login_max_failures
    → IsValid sm
    → IsValid (record sm { failures = insert ip a sm.failures })
set_attempt-IsValid ip a sm h v = record {
  sessions_distinct = v.sessions_distinct;
  failures_distinct = insert-Distinct ip a sm.failures v.failures_distinct;
  file_distinct = v.file_distinct;
  counts = All-insert (λ e. e.1.count < login_max_failures) ip a sm.failures v.counts (λ k. h);
}

-- An address has at most four failures counted against it.
pub attempt-count-lt :
    (ip : Text) (sm : SessionManager) → IsValid sm → (attempt ip sm).count < login_max_failures
attempt-count-lt ip sm v = elim (Option-cases (lookup ip sm.failures)) [
  | inl e ↦ ground arith
  | inr (a, e) ↦
      let low = All-lookup (λ e. e.1.count < login_max_failures) ip sm.failures v.counts a e in
      ground arith
]

fail_once-count-lt :
    (now later : ℕ) (a : LoginAttempt) → (fail_once now later a).count < login_max_failures
unfolding fail_once
fail_once-count-lt now later a = ground arith

clear_failures-IsValid :
    (ip : Text) (sm : SessionManager) → IsValid sm → IsValid (clear_failures ip sm)
unfolding clear_failures delete
clear_failures-IsValid ip sm v = record {
  sessions_distinct = v.sessions_distinct;
  failures_distinct = delete-Distinct ip sm.failures v.failures_distinct;
  file_distinct = v.file_distinct;
  counts = All-keep (λ e. e.1.count < login_max_failures) _ sm.failures v.counts;
}

apply-IsValid : (sm : SessionManager) (c : Call) → IsValid sm → IsValid (apply sm c)
unfolding apply get allow_login record_failure
apply-IsValid sm (reaps now later w) v = reap-IsValid now later w sm v
apply-IsValid sm (creates token name role now later w) v =
    create-IsValid token name role now later w sm v
apply-IsValid sm (gets id now later w) v = ground (arith, destroy-IsValid id later w sm v)
apply-IsValid sm (destroys id now w) v = destroy-IsValid id now w sm v
apply-IsValid sm (drops name now w) v = destroy_by_username-IsValid name now w sm v
apply-IsValid sm (allows ip now later) v =
    ground (arith, set_attempt-IsValid ip no_attempt sm (omega arith) v)
apply-IsValid sm (fails ip now later) v =
    set_attempt-IsValid ip _ sm (fail_once-count-lt now later (attempt ip sm)) v
apply-IsValid sm (clears ip) v = clear_failures-IsValid ip sm v

-- After every history of calls on a valid manager, each token and each address stands in its table
-- once, and no address has five failures counted.
pub run-IsValid : (sm : SessionManager) (cs : List Call) → IsValid sm → IsValid (run sm cs)
unfolding run
run-IsValid sm [] v = v
run-IsValid sm (c ∷ cs) v = run-IsValid (apply sm c) cs (apply-IsValid sm c v)
