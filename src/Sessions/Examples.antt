-- ===== src/Sessions/Examples.antt =====
-- Runs of the session manager with two sessions and one address that failed before.
use dingbap.Base.{◌≡◌, refl, true, false, List, [], ◌∷◌, some, arith, ◌+◌, ltb, not, ◌*◌}
use dingbap.Text.{codes, text_eq}
use dingbap.Table.{lookup}
use dingbap.Table.Laws.{when}
use dingbap.Sessions.{
  minute, hour, session_ttl, login_lock_duration, SessionManager, new_session, new_session_manager,
  persist, allow_login, record_failure,
}
use dingbap.Sessions.Laws.{
  IsValid, Call, reaps, creates, gets, destroys, drops, allows, run, run-IsValid,
  new_session_manager-IsValid,
}
use dingbap.Sessions.Laws
use dingbap.Sessions.Lookup.{answer}
use dingbap.Sessions.Restart.{complete, get-restart}
use dingbap.Sessions.Lockout.{fails, allow_login-fails_five}

abbrev manager : SessionManager
manager = record {
  sessions =
      (codes "t1", new_session (codes "root") (codes "admin") hour)
      ∷ (codes "t2", new_session (codes "guest") (codes "viewer") 0)
      ∷ [];
  memory_only = false;
  failures =
      (codes "ip1", record { count = 0; locked_until = 2 * minute; last_fail = minute }) ∷ [];
  file = [];
}

manager-IsValid : IsValid manager
unfolding lookup text_eq
manager-IsValid = record {
  sessions_distinct = (refl, (refl, tt));
  failures_distinct = (refl, tt);
  file_distinct = tt;
  counts = (omega arith, tt);
}

abbrev history : List Call
history =
    Laws.fails (codes "ip1") (3 * minute) (3 * minute)
    ∷ creates (some (codes "t3")) (codes "bob") (codes "viewer") hour hour true
    ∷ reaps (session_ttl + 1) (session_ttl + 1) false
    ∷ gets (codes "t2") (session_ttl + 2) (session_ttl + 2) true
    ∷ drops (codes "ROOT ") hour true
    ∷ []

get-restart_example :
    answer
      (codes "t1")
      (2 * hour)
      0
      true
      (new_session_manager (2 * hour) false (persist hour true manager).file)
    ≡ when complete (answer (codes "t1") (2 * hour) 0 true manager)
get-restart_example =
    get-restart (codes "t1") hour (2 * hour) (2 * hour) 0 true manager
      manager-IsValid.sessions_distinct refl (omega arith) (omega arith)

allow_login-fails_five_example :
    (allow_login (codes "ip1") 9 9 (
      record_failure
        (codes "ip1")
        7
        8
        (fails (codes "ip1") ((3, 3) ∷ (4, 4) ∷ (5, 5) ∷ (6, 6) ∷ []) manager))).1
    ≡ not (ltb 9 (8 + login_lock_duration))
unfolding lookup text_eq
allow_login-fails_five_example =
    allow_login-fails_five (codes "ip1") ((3, 3) ∷ (4, 4) ∷ (5, 5) ∷ (6, 6) ∷ []) 7 8 9 9 manager
      refl refl
