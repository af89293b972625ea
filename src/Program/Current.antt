-- ===== src/Program/Current.antt =====
-- Every session names an account that exists and carries the role it has.
use dingbap.Table.{Table}
use dingbap.Text.{Text}
use dingbap.Base.{◌∷◌, [], ◌≡◌, some, arith, All}
use dingbap.Program.{Program, Outside, PendingLogin, Table}
use dingbap.Program.Roles.{role_of, KeepsRoles}
use dingbap.Program.Tables.{create-AllSessions}
use dingbap.Program.Login
use dingbap.Users.{UserStore, role_admin, Passwords}
use dingbap.Users.Invariant
use dingbap.Sessions.{Session, clear_failures}

abbrev pub IsCurrent : UserStore → Text × Session → Type 0
IsCurrent us e = role_of e.1.username us ≡ some e.1.role

abbrev pub IsAdminLogin : Text × PendingLogin → Type 0
IsAdminLogin e = e.1.role ≡ role_admin

-- The accounts are valid, every session is current, and only administrators wait for a code.
pub record IsSafe (p : Program) : Type 0 where
  pub valid : Invariant.Valid p.users
  pub current : All (IsCurrent p.users) p.sessions.sessions
  pub waiting : All IsAdminLogin p.pending_logins

pub All-IsCurrent :
    (s s' : UserStore) (m : Table Session)
    → KeepsRoles s s'
    → All (IsCurrent s) m
    → All (IsCurrent s') m
All-IsCurrent s s' [] k h = tt
All-IsCurrent s s' (e ∷ m) k h = (k e.1.username e.1.role h.0, All-IsCurrent s s' m k h.1)

module _ (pw : Passwords) (digest : Text → Text) where
  pub step-Valid :
      (s : UserStore) (c : Invariant.Call)
      → Invariant.Valid s
      → Invariant.Valid (Invariant.apply pw digest s c)
  unfolding Invariant.run
  step-Valid s c h = Invariant.run-Valid pw digest s (c ∷ []) h

-- The accounts change and keep their roles.
pub users-IsSafe :
    (p : Program) (s' : UserStore)
    → KeepsRoles p.users s'
    → Invariant.Valid s'
    → IsSafe p
    → IsSafe (record p { users = s' })
users-IsSafe p s' k v h = record {
  valid = v;
  current = All-IsCurrent p.users s' p.sessions.sessions k h.current;
  waiting = h.waiting;
}

pub open_session-IsSafe :
    (o : Outside) (ip name role : Text) (p : Program)
    → IsSafe p
    → role_of name p.users ≡ some role
    → IsSafe (Login.open_session o ip name role p).0
unfolding Login.open_session clear_failures
open_session-IsSafe o ip name role p h e = ground (
  arith,
  h.valid,
  h.current,
  h.waiting,
  create-AllSessions (IsCurrent p.users) o.session_token name role o.create_at o.save_at
      o.sessions_written p.sessions h.current (λ j. e),
)
