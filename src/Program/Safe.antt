-- ===== src/Program/Safe.antt =====
-- No session outlives the role or the account that it was given for.
use dingbap.Program.Pending.{put_pending_setup, take_pending_setup, peek_pending_setup}
use dingbap.Text.{Text}
use dingbap.Web.{Request}
use dingbap.Users.{Passwords, authenticate, disable_totp, enable_totp}
use dingbap.Program.Accounts.{handle_totp_begin, handle_totp_confirm, handle_totp_disable}
use dingbap.Program.Login.{handle_logout_api, verify_totp_or_recovery}
use dingbap.Table.{Table}
use dingbap.Sessions.{SessionManager, destroy, Session, get, reap}
use dingbap.Users.Invariant.{password}
use dingbap.Base.{◌∷◌, [], none, some, List, Option, arith, All, inl, inr, Option-cases}
use dingbap.Program.{Program, Outside, SessionManager, Table, PendingTotpSetup}
use dingbap.Program.Calls.{
  Call, apply, run, IsWritten, logs_in, enters_code, logs_out, looks_up, sweeps, creates, deletes,
  resets, assigns, changes, begins, confirms, disables,
}
use dingbap.Program.Current.{IsCurrent, IsSafe, step-Valid, users-IsSafe}
use dingbap.Program.Roles.{enable_totp-KeepsRoles, disable_totp-KeepsRoles}
use dingbap.Program.Tables.{destroy-AllSessions, get-AllSessions, reap-AllSessions}
use dingbap.Program.Steps.{
  handle_login_api-IsSafe, handle_login_totp-IsSafe, verify-KeepsRoles, verify-Valid, auth_cases,
}
use dingbap.Program.Revoked.{
  handle_users_create-IsSafe, handle_users_delete-IsSafe, handle_users_set_password-IsSafe,
  handle_users_set_role-IsSafe, handle_change_own_password-IsSafe, replied-IsSafe,
}
use dingbap.Users.Invariant

sessions-IsSafe :
    (p : Program) (sm : SessionManager)
    → All (IsCurrent p.users) sm.sessions
    → IsSafe p
    → IsSafe (record p { sessions = sm })
sessions-IsSafe p sm k h = record { valid = h.valid; current = k; waiting = h.waiting }

setups-IsSafe :
    (p : Program) (m : Table PendingTotpSetup) → IsSafe p → IsSafe (record p { pending_setups = m })
setups-IsSafe p m h = record { valid = h.valid; current = h.current; waiting = h.waiting }

handle_logout_api-IsSafe :
    (o : Outside) (r : Request) (cookie : Option Text) (p : Program)
    → IsSafe p
    → IsSafe (handle_logout_api o r cookie p).0
unfolding handle_logout_api
handle_logout_api-IsSafe o r none p h = ground (arith, h)
handle_logout_api-IsSafe o r (some id) p h =
    let sm = destroy id o.save_at o.sessions_written p.sessions in
    ground (
      arith,
      h,
      sessions-IsSafe p sm
          (destroy-AllSessions (IsCurrent p.users) id o.save_at o.sessions_written p.sessions
            h.current)
          h,
    )

handle_totp_begin-IsSafe :
    (o : Outside) (r : Request) (own : Option Session) (secret : Option Text) (p : Program)
    → IsSafe p
    → IsSafe (handle_totp_begin o r own secret p).0
unfolding handle_totp_begin
handle_totp_begin-IsSafe o r none secret p h = ground (arith, h)
handle_totp_begin-IsSafe o r (some s) none p h = ground (arith, h)
handle_totp_begin-IsSafe o r (some s) (some k) p h =
    ground (arith, h, setups-IsSafe p (put_pending_setup s.username k o.put_at p.pending_setups) h)

module _ (pw : Passwords) (digest : Text → Text) where
  handle_totp_confirm-IsSafe :
      (o : Outside) (r : Request) (own : Option Session) (body : Option Text)
      → (hashes : Option (List Text)) (p : Program) → IsSafe p
      → IsSafe (handle_totp_confirm o r own body hashes p).0
  unfolding handle_totp_confirm Invariant.apply
  handle_totp_confirm-IsSafe o r none body hashes p h = ground (arith, h)
  handle_totp_confirm-IsSafe o r (some s) none hashes p h = ground (arith, h)
  handle_totp_confirm-IsSafe o r (some s) (some code) none p h =
      let (m, taken) = take_pending_setup s.username o.put_at p.pending_setups in
      let hq = setups-IsSafe p m h in
      elim (Option-cases (peek_pending_setup s.username o.take_at p.pending_setups)) [
        | inl e ↦ ground (arith, h)
        | inr (seen, e) ↦ ground (arith, h, hq)
      ]
  handle_totp_confirm-IsSafe o r (some s) (some code) (some hs) p h =
      let (m, taken) = take_pending_setup s.username o.put_at p.pending_setups in
      let q = record p { pending_setups = m } in
      let hq = setups-IsSafe p m h in
      let w = o.users_written in
      elim (Option-cases taken) [
        | inl e ↦ ground (arith, h, hq)
        | inr (secret, e) ↦ ground (
          arith,
          h,
          hq,
          replied-IsSafe (enable_totp s.username secret hs w p.users) q
              (enable_totp-KeepsRoles s.username secret hs w p.users)
              (step-Valid pw digest p.users (Invariant.enable s.username secret hs w) h.valid) hq,
        )
      ]

  handle_totp_disable-IsSafe :
      (o : Outside) (r : Request) (own : Option Session) (body : Option (Text × Text)) (p : Program)
      → IsSafe p
      → IsSafe (handle_totp_disable pw digest o r own body p).0
  unfolding handle_totp_disable Invariant.apply
  handle_totp_disable-IsSafe o r none body p h = ground (arith, h)
  handle_totp_disable-IsSafe o r (some s) none p h = ground (arith, h)
  handle_totp_disable-IsSafe o r (some s) (some b) p h =
      let n = s.username in
      let w = o.users_written in
      let us = (verify_totp_or_recovery digest o n b.1 p.users).0 in
      let hq =
        users-IsSafe p us (verify-KeepsRoles pw digest o n b.1 p.users)
          (verify-Valid pw digest o n b.1 p.users h.valid) h in
      elim (auth_cases (authenticate pw n b.0 p.users)) [
        | inl (e, k) ↦ ground (arith, h)
        | inr (u, k) ↦ ground (
          arith,
          h,
          hq,
          replied-IsSafe (disable_totp n w p.users) p (disable_totp-KeepsRoles n w p.users)
              (step-Valid pw digest p.users (Invariant.disable n w) h.valid) h,
          replied-IsSafe (disable_totp n o.users_rewritten us) (record p { users = us })
              (disable_totp-KeepsRoles n o.users_rewritten us)
              (step-Valid pw digest us (Invariant.disable n o.users_rewritten) hq.valid) hq,
        )
      ]

  apply-IsSafe : (p : Program) (c : Call) → IsWritten c → IsSafe p → IsSafe (apply pw digest p c)
  unfolding apply
  apply-IsSafe p (logs_in o r ip body) w h = handle_login_api-IsSafe pw o r ip body p h
  apply-IsSafe p (enters_code o r ip body) w h = handle_login_totp-IsSafe pw digest o r ip body p h
  apply-IsSafe p (logs_out o r cookie) w h = handle_logout_api-IsSafe o r cookie p h
  apply-IsSafe p (looks_up id now later b) w h =
      sessions-IsSafe p (get id now later b p.sessions).0
        (get-AllSessions (IsCurrent p.users) id now later b p.sessions h.current) h
  apply-IsSafe p (sweeps now later b) w h =
      sessions-IsSafe p (reap now later b p.sessions)
        (reap-AllSessions (IsCurrent p.users) now later b p.sessions h.current) h
  apply-IsSafe p (creates o r body) w h = handle_users_create-IsSafe pw digest o r body p h
  apply-IsSafe p (deletes o r own body) w h =
      handle_users_delete-IsSafe pw digest o r own body p w h
  apply-IsSafe p (resets o r body) w h = handle_users_set_password-IsSafe pw digest o r body p h
  apply-IsSafe p (assigns o r own body) w h =
      handle_users_set_role-IsSafe pw digest o r own body p w h
  apply-IsSafe p (changes o r own body) w h =
      handle_change_own_password-IsSafe pw digest o r own body p h
  apply-IsSafe p (begins o r own secret) w h = handle_totp_begin-IsSafe o r own secret p h
  apply-IsSafe p (confirms o r own body hashes) w h =
      handle_totp_confirm-IsSafe o r own body hashes p h
  apply-IsSafe p (disables o r own body) w h = handle_totp_disable-IsSafe o r own body p h

  -- Whatever requests are handled, one after the other, every session names an account that exists
  -- and carries the role that the account has now, only administrators wait for a code, and the
  -- accounts stay valid, provided that the program starts so and the write of the accounts
  -- succeeds in each request that deletes an account or sets a role.
  pub run-IsSafe :
      (p : Program) (cs : List Call) → All IsWritten cs → IsSafe p → IsSafe (run pw digest p cs)
  unfolding run
  run-IsSafe p [] w h = h
  run-IsSafe p (c ∷ cs) w h = run-IsSafe (apply pw digest p c) cs w.1 (apply-IsSafe p c w.0 h)
