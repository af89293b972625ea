-- ===== src/Program/Steps.antt =====
-- Signing in and the calls that keep roles leave every session current.
use dingbap.Program.Pending.{take_pending_login}
use dingbap.Users.Invariant.{recover}
use dingbap.Web.{Request}
use dingbap.Text.{Text, trim_space}
use dingbap.Sessions.{clear_failures, allow_login, record_failure, LoginAttempt}
use dingbap.Table.{Table}
use dingbap.Base.{◌≡◌, inl, inr, some, true, Option, arith, Option-cases, find?, ◌⊎◌, none, refl}
use dingbap.Program.{Program, Outside, PendingLogin, Table}
use dingbap.Program.Current.{IsAdminLogin, IsSafe, step-Valid, users-IsSafe, open_session-IsSafe}
use dingbap.Program.Roles.{
  role_of, KeepsRoles, consume_recovery_code-KeepsRoles, by_username-authenticate,
}
use dingbap.Program.Tables.{put-All, take-All, taken_lem}
use dingbap.Program.Login.{
  handle_login_api, handle_login_totp, finish_login_after_password, retry_code,
  verify_totp_or_recovery, admit, check_password, check_pending, check_code, LoginReply,
}
use dingbap.Users.{
  User, UserStore, by_username, role_admin, Passwords, totp_secret, named, UserError, authenticate,
  refused, granted, AuthResult,
}
use dingbap.Users.Invariant
use dingbap.Text.Laws.{text_eq_iff}

-- Changes of the failures are not seen.
pub failures-IsSafe :
    (p : Program) (t : Table LoginAttempt)
    → IsSafe p
    → IsSafe (record p { sessions = record p.sessions { failures = t } })
failures-IsSafe p t h = record { valid = h.valid; current = h.current; waiting = h.waiting }

finish_login-IsSafe :
    (o : Outside) (ip : Text) (user : User) (p : Program)
    → IsSafe p
    → by_username user.username p.users ≡ some user
    → IsSafe (finish_login_after_password o ip user p).0
unfolding finish_login_after_password clear_failures
finish_login-IsSafe o ip user p h e = ground (
  arith,
  h.valid,
  h.current,
  h.waiting,
  text_eq_iff user.role role_admin,
  put-All IsAdminLogin o.pending_token user.username user.role o.put_at p.pending_logins h.waiting,
  open_session-IsSafe o ip user.username user.role p h,
)

admit-IsSafe :
    (o : Outside) (r : Request) (ip : Text) (next : Program → Program × LoginReply) (p : Program)
    → ((q : Program) → IsSafe q → IsSafe (next q).0)
    → IsSafe p
    → IsSafe (admit o r ip next p).0
unfolding admit allow_login
admit-IsSafe o r ip next p k h =
    let q = record p { sessions = (allow_login ip o.allow_at o.allow_again p.sessions).0 } in
    let hq : IsSafe q = ground (arith, h.valid, h.current, h.waiting) in
    ground (arith, h, hq, k q hq)

pub auth_cases :
    (a : AuthResult) → ((e : UserError) × (a ≡ refused e)) ⊎ ((u : User) × (a ≡ granted u))
auth_cases (refused e) = inl (e, refl)
auth_cases (granted u) = inr (u, refl)

check_password-IsSafe :
    (pw : Passwords) (o : Outside) (ip : Text) (body : Option (Text × Text)) (p : Program)
    → IsSafe p
    → IsSafe (check_password pw o ip body p).0
unfolding check_password record_failure
check_password-IsSafe pw o ip none p h = h
check_password-IsSafe pw o ip (some b) p h = elim (auth_cases (authenticate pw b.0 b.1 p.users)) [
  | inl (e, k) ↦
      ground
        (arith, failures-IsSafe p (record_failure ip o.fail_at o.fail_again p.sessions).failures h)
  | inr (u, k) ↦
      ground
        (arith, finish_login-IsSafe o ip u p h (by_username-authenticate pw b.0 b.1 p.users u k))
]

pub handle_login_api-IsSafe :
    (pw : Passwords) (o : Outside) (r : Request) (ip : Text) (body : Option (Text × Text))
    (p : Program)
    → IsSafe p
    → IsSafe (handle_login_api pw o r ip body p).0
unfolding handle_login_api
handle_login_api-IsSafe pw o r ip body p h =
    admit-IsSafe o r ip (check_password pw o ip body) p (check_password-IsSafe pw o ip body) h

module _ (pw : Passwords) (digest : Text → Text) where
  pub verify-KeepsRoles :
      (o : Outside) (name code : Text) (s : UserStore)
      → KeepsRoles s (verify_totp_or_recovery digest o name code s).0
  unfolding verify_totp_or_recovery
  verify-KeepsRoles o name code s n r h = ground (
    arith,
    consume_recovery_code-KeepsRoles digest name (trim_space code) o.users_written s n r h,
  )

  pub verify-Valid :
      (o : Outside) (name code : Text) (s : UserStore)
      → Invariant.Valid s
      → Invariant.Valid (verify_totp_or_recovery digest o name code s).0
  unfolding verify_totp_or_recovery Invariant.apply
  verify-Valid o name code s v =
      ground (arith, step-Valid pw digest s (recover name (trim_space code) o.users_written) v)

  verified_role :
      (o : Outside) (name code : Text) (s : UserStore)
      → (verify_totp_or_recovery digest o name code s).1 ≡ true
      → role_of name s ≡ some role_admin
  unfolding verify_totp_or_recovery totp_secret by_username
  verified_role o name code s h = elim (Option-cases (find? (named name) s.users)) [
    | inl e ↦ ground arith
    | inr (u, e) ↦ ground (arith, text_eq_iff u.role role_admin)
  ]

  retry-IsSafe :
      (o : Outside) (ip : Text) (pending : PendingLogin) (p : Program)
      → IsSafe p
      → pending.role ≡ role_admin
      → IsSafe (retry_code o ip pending p).0
  unfolding retry_code record_failure
  retry-IsSafe o ip pending p h e = record {
    valid = h.valid;
    current = h.current;
    waiting =
        put-All IsAdminLogin o.pending_token pending.username pending.role o.put_at p.pending_logins
          h.waiting (λ j. e);
  }

  check_pending-IsSafe :
      (o : Outside) (ip : Text) (pending : PendingLogin) (code : Text) (p : Program)
      → IsSafe p
      → pending.role ≡ role_admin
      → IsSafe (check_pending digest o ip pending code p).0
  unfolding check_pending
  check_pending-IsSafe o ip pending code p h e =
      let s' = (verify_totp_or_recovery digest o pending.username code p.users).0 in
      let k = verify-KeepsRoles o pending.username code p.users in
      let hq = users-IsSafe p s' k (verify-Valid o pending.username code p.users h.valid) h in
      ground (
        arith,
        e,
        verified_role o pending.username code p.users,
        k pending.username role_admin,
        open_session-IsSafe o ip pending.username pending.role (record p { users = s' }) hq,
        retry-IsSafe o ip pending (record p { users = s' }) hq e,
      )

  check_code-IsSafe :
      (o : Outside) (ip : Text) (body : Option (Text × Text)) (p : Program)
      → IsSafe p
      → IsSafe (check_code digest o ip body p).0
  unfolding check_code record_failure
  check_code-IsSafe o ip none p h = h
  check_code-IsSafe o ip (some b) p h =
      let m = (take_pending_login b.0 o.take_at p.pending_logins).0 in
      let q = record p { pending_logins = m } in
      let hq : IsSafe q = record {
        valid = h.valid;
        current = h.current;
        waiting = take-All IsAdminLogin b.0 o.take_at p.pending_logins h.waiting;
      } in
      elim (Option-cases (take_pending_login b.0 o.take_at p.pending_logins).1) [
        | inl e ↦ ground (
          arith,
          failures-IsSafe q (record_failure ip o.fail_at o.fail_again q.sessions).failures hq,
        )
        | inr (pending, e) ↦ ground (
          arith,
          check_pending-IsSafe o ip pending b.1 q hq
              (taken_lem IsAdminLogin b.0 o.take_at p.pending_logins pending h.waiting e),
        )
      ]

  pub handle_login_totp-IsSafe :
      (o : Outside) (r : Request) (ip : Text) (body : Option (Text × Text)) (p : Program)
      → IsSafe p
      → IsSafe (handle_login_totp digest o r ip body p).0
  unfolding handle_login_totp
  handle_login_totp-IsSafe o r ip body p h =
      admit-IsSafe o r ip (check_code digest o ip body) p (check_code-IsSafe o ip body) h
