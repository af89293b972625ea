-- ===== src/Sessions/Lockout.antt =====
-- When an address may try to sign in.
use dingbap.Base.{
  ℕ, ◌+◌, ◌≤◌, ◌<◌, ◌≡◌, refl, Bool, false, not, List, [], ◌∷◌, arith, keep, if◌then◌else◌, ltb,
  length,
}
use dingbap.Text.{Text, text_eq}
use dingbap.Text.Laws.{text_eq_refl}
use dingbap.Table.Laws.{Distinct, lookup-keep, lookup-insert}
use dingbap.Sessions.{
  Session, SessionManager, LoginAttempt, login_max_failures, login_lock_duration, expired, persist,
  stale, reap, attempt, allow_login, fail_once, record_failure,
}

-- Failed attempts in a row, each with its two readings of the clock.
unfoldable pub fails : Text → List (ℕ × ℕ) → SessionManager → SessionManager
fails ip [] sm = sm
fails ip ((now, later) ∷ ts) sm = fails ip ts (record_failure ip now later sm)

attempt-record_failure :
    (ip other : Text) (now later : ℕ) (sm : SessionManager)
    → attempt other (record_failure ip now later sm)
      ≡ (if text_eq ip other then fail_once now later (attempt ip sm) else attempt other sm)
unfolding record_failure
attempt-record_failure ip other now later sm =
    ground (arith, lookup-insert ip other (fail_once now later (attempt ip sm)) sm.failures)

attempt-fails_few :
    (ip : Text) (ts : List (ℕ × ℕ)) (sm : SessionManager)
    → (attempt ip sm).count + length ts < login_max_failures
    → ((attempt ip (fails ip ts sm)).count ≡ (attempt ip sm).count + length ts)
      × ((attempt ip (fails ip ts sm)).locked_until ≡ (attempt ip sm).locked_until)
unfolding fails fail_once
attempt-fails_few ip [] sm h = (omega arith, refl)
attempt-fails_few ip ((now, later) ∷ ts) sm h = ground (
  arith,
  text_eq_refl ip,
  attempt-record_failure ip ip now later sm,
  attempt-fails_few ip ts (record_failure ip now later sm),
)

-- After a clean record, up to four failures in a row change nothing about when the address may try.
pub allow_login-fails_few :
    (ip : Text) (ts : List (ℕ × ℕ)) (t t' : ℕ) (sm : SessionManager)
    → (attempt ip sm).count ≡ 0
    → length ts < login_max_failures
    → (allow_login ip t t' (fails ip ts sm)).1 ≡ (allow_login ip t t' sm).1
unfolding allow_login
allow_login-fails_few ip ts t t' sm z h = ground (arith, attempt-fails_few ip ts sm)

-- After a clean record, the fifth failure in a row locks the address for one minute from then, to the
-- moment: until that time it may not try, and from that time on it may.
pub allow_login-fails_five :
    (ip : Text) (ts : List (ℕ × ℕ)) (now later t t' : ℕ) (sm : SessionManager)
    → (attempt ip sm).count ≡ 0
    → length ts + 1 ≡ login_max_failures
    → (allow_login ip t t' (record_failure ip now later (fails ip ts sm))).1
      ≡ not (ltb t (later + login_lock_duration))
unfolding allow_login fail_once
allow_login-fails_five ip ts now later t t' sm z e = ground (
  arith,
  text_eq_refl ip,
  attempt-fails_few ip ts sm,
  attempt-record_failure ip ip now later (fails ip ts sm),
)

attempt-fails_other :
    (ip other : Text) (ts : List (ℕ × ℕ)) (sm : SessionManager)
    → text_eq ip other ≡ false
    → attempt other (fails ip ts sm) ≡ attempt other sm
unfolding fails
attempt-fails_other ip other [] sm h = refl
attempt-fails_other ip other ((now, later) ∷ ts) sm h = ground (
  arith,
  attempt-record_failure ip other now later sm,
  attempt-fails_other ip other ts (record_failure ip now later sm),
)

-- The failures of one address lock no other.
pub allow_login-fails_other :
    (ip other : Text) (ts : List (ℕ × ℕ)) (t t' : ℕ) (sm : SessionManager)
    → text_eq ip other ≡ false
    → (allow_login other t t' (fails ip ts sm)).1 ≡ (allow_login other t t' sm).1
unfolding allow_login
allow_login-fails_other ip other ts t t' sm h = ground (arith, attempt-fails_other ip other ts sm h)

failures-persist :
    (now : ℕ) (w : Bool) (sm : SessionManager) → (persist now w sm).failures ≡ sm.failures
unfolding persist
failures-persist now w sm = ground arith

-- The hourly sweep forgets only what no longer matters: at every later time the same addresses may
-- try to sign in.
pub allow_login-reap :
    (ip : Text) (now later t t' : ℕ) (w : Bool) (sm : SessionManager)
    → Distinct sm.failures
    → now ≤ t
    → (allow_login ip t t' (reap now later w sm)).1 ≡ (allow_login ip t t' sm).1
unfolding allow_login reap stale
allow_login-reap ip now later t t' w sm d h =
    let p = λ (e : Text × Session). not (expired now e.1) in
    let q = λ (e : Text × LoginAttempt). not (stale now e.1) in
    let swept = record sm { sessions = keep p sm.sessions; failures = keep q sm.failures } in
    ground (arith, failures-persist later w swept, lookup-keep q ip sm.failures d)
