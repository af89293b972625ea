-- ===== src/Program/SecondFactor.antt =====
-- The second factor: what a password alone gives, and what it takes to get past the code step.
use dingbap.Text.Laws.{text_eq_refl}
use dingbap.Table.{lookup, Table}
use dingbap.Web.{Request}
use dingbap.Text.{Text, text_eq}
use dingbap.Base.{
  ◌≡◌, inl, inr, none, some, true, false, Option, arith, not, Option-cases, ◌+◌, ◌∙◌, ℕ, refl, ltb,
  find?, keep, ◌≤◌,
}
use dingbap.Program.{Program, Outside, PendingLogin, UserStore, Table}
use dingbap.Program.Pending.{put_pending_login, take_pending_login, totp_pending_ttl}
use dingbap.Program.Login.{
  handle_login_api, handle_login_totp, admit, check_password, check_code, check_pending,
  finish_login_after_password, verify_totp_or_recovery, open_session, retry_code, signed_in,
  totp_required,
}
use dingbap.Program.Roles.{by_username-authenticate}
use dingbap.Program.Steps.{auth_cases}
use dingbap.Table.Laws.{lookup-delete, lookup-insert, lookup-keep-eq-none}
use dingbap.Users.{
  User, Passwords, by_username, totp_on, authenticate, totp_enabled, UserStore, granted, named,
}
use dingbap.Sessions.{attempt, no_attempt, allow_login, clear_failures, record_failure}

module _ (pw : Passwords) (o : Outside) where
  -- The password step of an account with a second factor.
  finish_login_held :
      (ip : Text) (u : User) (p : Program)
      → by_username u.username p.users ≡ some u
      → totp_on u ≡ true
      → (finish_login_after_password o ip u p).0.sessions.sessions ≡ p.sessions.sessions
  unfolding finish_login_after_password totp_enabled by_username clear_failures
  finish_login_held ip u p e t = elim (Option-cases o.pending_token) [
    | inl n ↦ ground arith
    | inr (tk, n) ↦ ground arith
  ]

  finish_login_clears :
      (ip tok : Text) (u : User) (p : Program)
      → (finish_login_after_password o ip u p).1 ≡ totp_required tok
      → attempt ip (finish_login_after_password o ip u p).0.sessions ≡ no_attempt
  unfolding finish_login_after_password open_session clear_failures
  finish_login_clears ip tok u p k =
      ground (arith, lookup-delete ip ip p.sessions.failures, text_eq_refl ip)

  granted_account :
      (name password : Text) (v : User) (s : UserStore)
      → authenticate pw name password s ≡ granted v
      → by_username name s ≡ some v
  unfolding authenticate by_username
  granted_account name password v s k = elim (Option-cases (find? (named name) s.users)) [
    | inl e ↦ ground arith
    | inr (x, e) ↦ ground arith
  ]

  -- A password alone opens no session of an account with a second factor, whatever becomes of the
  -- request.
  pub sessions-handle_login_api :
      (r : Request) (ip name password : Text) (u : User) (p : Program)
      → by_username name p.users ≡ some u
      → totp_on u ≡ true
      → (handle_login_api pw o r ip (some (name, password)) p).0.sessions.sessions
        ≡ p.sessions.sessions
  unfolding handle_login_api admit check_password allow_login record_failure authenticate
      by_username
  sessions-handle_login_api r ip name password u p e t =
      let q = record p { sessions = (allow_login ip o.allow_at o.allow_again p.sessions).0 } in
      elim (auth_cases (authenticate pw name password p.users)) [
        | inl (x, k) ↦ ground arith
        | inr (v, k) ↦
            let found = by_username-authenticate pw name password p.users v k in
            ground
              (arith, finish_login_held ip v q found, granted_account name password v p.users k)
      ]

  -- A password step that asks for a code forgets every failure of the address.
  pub attempt-handle_login_api :
      (r : Request) (ip tok name password : Text) (p : Program)
      → (handle_login_api pw o r ip (some (name, password)) p).1 ≡ totp_required tok
      → attempt ip (handle_login_api pw o r ip (some (name, password)) p).0.sessions ≡ no_attempt
  unfolding handle_login_api admit check_password
  attempt-handle_login_api r ip tok name password p k =
      let q = record p { sessions = (allow_login ip o.allow_at o.allow_again p.sessions).0 } in
      elim (auth_cases (authenticate pw name password p.users)) [
        | inl (x, e) ↦ ground arith
        | inr (v, e) ↦ ground (arith, finish_login_clears ip tok v q)
      ]

lookup-take :
    (token : Text) (now : ℕ) (m : Table PendingLogin)
    → lookup token (take_pending_login token now m).0 ≡ none
unfolding take_pending_login
lookup-take token now m = ground (arith, lookup-delete token token m, text_eq_refl token)

put_absent :
    (token name role : Text) (now : ℕ) (new : Option Text) (m : Table PendingLogin)
    → lookup token m ≡ none
    → ((t : Text) → new ≡ some t → text_eq t token ≡ false)
    → lookup token (put_pending_login new name role now m).0 ≡ none
unfolding put_pending_login
put_absent token name role now none m h f = h
put_absent token name role now (some t) m h f =
    let live = λ (e : Text × PendingLogin). not (ltb e.1.expires_at now) in
    let p : PendingLogin = record {
      username = name;
      role = role;
      expires_at = now + totp_pending_ttl;
    } in
    lookup-insert t token p (keep live m)
    ∙ ground (arith, f t refl, lookup-keep-eq-none live token m h)

-- What is taken stands in the table, and its time is not over.
take_pending_login_lem :
    (token : Text) (now : ℕ) (m : Table PendingLogin) (pending : PendingLogin)
    → (take_pending_login token now m).1 ≡ some pending
    → (lookup token m ≡ some pending) × (now ≤ pending.expires_at)
unfolding take_pending_login
take_pending_login_lem token now m pending e = elim (Option-cases (lookup token m)) [
  | inl k ↦ ground (arith, k, e)
  | inr (q, k) ↦ ground (arith, k, e)
]

module _ (digest : Text → Text) (o : Outside) where
  check_pending-signed_in :
      (ip id name role : Text) (pending : PendingLogin) (code : Text) (p : Program)
      → (check_pending digest o ip pending code p).1 ≡ signed_in id name role
      → (((pending.username ≡ name) × (pending.role ≡ role))
          × ((verify_totp_or_recovery digest o pending.username code p.users).1 ≡ true))
        × ((check_pending digest o ip pending code p).0.pending_logins ≡ p.pending_logins)
  unfolding check_pending open_session retry_code
  check_pending-signed_in ip id name role pending code p h =
      (((ground arith, ground arith), ground arith), ground arith)

  -- A code step that signs in was made with a token of a login that waited for a code and whose time
  -- was not over, for the account of that login, with a code that the account accepts at that moment; and
  -- the token is spent.
  pub handle_login_totp-signed_in :
      (r : Request) (ip id name role : Text) (body : Option (Text × Text)) (p : Program)
      → (handle_login_totp digest o r ip body p).1 ≡ signed_in id name role
      → (b : Text × Text) × (pending : PendingLogin) × (body ≡ some b)
        × (lookup b.0 p.pending_logins ≡ some pending)
        × (o.take_at ≤ pending.expires_at)
        × ((pending.username ≡ name) × (pending.role ≡ role))
        × ((verify_totp_or_recovery digest o pending.username b.1 p.users).1 ≡ true)
        × (lookup b.0 (handle_login_totp digest o r ip body p).0.pending_logins ≡ none)
  unfolding handle_login_totp admit check_code check_pending open_session retry_code
  handle_login_totp-signed_in r ip id name role none p h = ground arith
  handle_login_totp-signed_in r ip id name role (some b) p h =
      elim (Option-cases (take_pending_login b.0 o.take_at p.pending_logins).1) [
        | inl e ↦ ground arith
        | inr (pending, e) ↦
            let q = record p {
              sessions = (allow_login ip o.allow_at o.allow_again p.sessions).0;
              pending_logins = (take_pending_login b.0 o.take_at p.pending_logins).0;
            } in
            let gone = lookup-take b.0 o.take_at p.pending_logins in
            let k : (check_pending digest o ip pending b.1 q).1 ≡ signed_in id name role =
              ground arith in
            let (right, same) = check_pending-signed_in ip id name role pending b.1 q k in
            let (there, live) = take_pending_login_lem b.0 o.take_at p.pending_logins pending e in
            (b, pending, refl, there, live, right.0, right.1, ground (arith, gone, same))
      ]

  -- A token is good for one code: a request that gets past the guards leaves no login under its token,
  -- whatever the code, unless a new token is drawn equal to it.
  pub lookup-check_code :
      (ip token code : Text) (p : Program)
      → ((t : Text) → o.pending_token ≡ some t → text_eq t token ≡ false)
      → lookup token (check_code digest o ip (some (token, code)) p).0.pending_logins ≡ none
  unfolding check_code check_pending open_session retry_code take_pending_login put_pending_login
  lookup-check_code ip token code p f =
      let m = (take_pending_login token o.take_at p.pending_logins).0 in
      let gone = lookup-take token o.take_at p.pending_logins in
      elim (Option-cases (take_pending_login token o.take_at p.pending_logins).1) [
        | inl e ↦ ground (arith, gone)
        | inr (pending, e) ↦ ground (
          arith,
          gone,
          put_absent token pending.username pending.role o.put_at o.pending_token m gone f,
        )
      ]
