-- ===== src/Program/Revoked.antt =====
-- Where a role or an account is taken away, so are its sessions.
use dingbap.Program.Steps.{auth_cases}
use dingbap.Sessions.{Session, destroy_by_username}
use dingbap.Web.{Request}
use dingbap.Table.{Table}
use dingbap.Text.{Text, equal_fold, trim_space, text_eq}
use dingbap.Base.{
  ◌∷◌, [], ◌≡◌, ◌∙◌, inl, inr, none, some, true, false, List, Option, refl, arith, not, sym, subst,
  is_empty, All, find?, Option-cases, All-find?, find?_sound,
}
use dingbap.Program.{Program, Outside, Table}
use dingbap.Program.Current.{IsCurrent, IsSafe, step-Valid, users-IsSafe}
use dingbap.Program.Roles.{
  role_of, KeepsRoles, add_user-KeepsRoles, set_password-KeepsRoles, role_of-set_role_other,
  role_of-delete_user_other, set_role_refused, delete_user_refused,
}
use dingbap.Program.Tables.{destroy_by_username-AllSessions, destroy_by_username-gone}
use dingbap.Program.Accounts.{
  and_drop_sessions, handle_users_create, handle_users_delete, handle_users_set_password,
  handle_users_set_role, handle_change_own_password, drop_sessions, reply_to, role_or_viewer,
}
use dingbap.Users.{
  User, UserStore, UserError, Passwords, set_role, delete_user, named, save, set_password, add_user,
  authenticate,
}
use dingbap.Users.Invariant
use dingbap.Text.Laws.{equal_fold_iff}

-- What every account but the named one keeps.
abbrev pub KeepsOthers : Text → UserStore → UserStore → Type 0
KeepsOthers name s s' = (n : Text) → equal_fold name n ≡ false → role_of n s' ≡ role_of n s

All-IsCurrent_others :
    (name : Text) (s s' : UserStore) (m : Table Session)
    → KeepsOthers name s s'
    → All (IsCurrent s) m
    → All (λ e. not (equal_fold e.1.username name) ≡ true) m
    → All (IsCurrent s') m
All-IsCurrent_others name s s' [] k h g = tt
All-IsCurrent_others name s s' (e ∷ m) k h g = (
  k e.1.username
        (ground (arith, g.0, equal_fold_iff name e.1.username, equal_fold_iff e.1.username name))
      ∙ h.0,
  All-IsCurrent_others name s s' m k h.1 g.1,
)

-- A change of roles and the sessions of the account dropped.
pub revoked-IsSafe :
    (o : Outside) (name : Text) (p : Program) (s' : UserStore)
    → is_empty (trim_space name) ≡ false
    → KeepsOthers (trim_space name) p.users s'
    → Invariant.Valid s'
    → IsSafe p
    → IsSafe (drop_sessions o name (record p { users = s' }))
revoked-IsSafe o name p s' n k v h = record {
  valid = v;
  current =
      All-IsCurrent_others (trim_space name) p.users s'
        (destroy_by_username name o.save_at o.sessions_written p.sessions).sessions k
        (destroy_by_username-AllSessions (IsCurrent p.users) name o.save_at o.sessions_written
          p.sessions h.current)
        (destroy_by_username-gone name o.save_at o.sessions_written p.sessions n);
  waiting = h.waiting;
}

-- A change that keeps roles, with or without the sessions of the account dropped.
pub kept-IsSafe :
    (o : Outside) (name : Text) (res : UserStore × Option UserError) (p : Program)
    → KeepsRoles p.users res.0
    → Invariant.Valid res.0
    → IsSafe p
    → IsSafe (and_drop_sessions o name res p).0
unfolding and_drop_sessions
kept-IsSafe o name (s', some e) p k v h = users-IsSafe p s' k v h
kept-IsSafe o name (s', none) p k v h =
    let hq = users-IsSafe p s' k v h in
    record {
      valid = v;
      current =
          destroy_by_username-AllSessions (IsCurrent s') name o.save_at o.sessions_written
            p.sessions hq.current;
      waiting = h.waiting;
    }

-- A change that keeps roles.
pub replied-IsSafe :
    (res : UserStore × Option UserError) (p : Program)
    → KeepsRoles p.users res.0
    → Invariant.Valid res.0
    → IsSafe p
    → IsSafe (reply_to res p).0
replied-IsSafe (s', some e) p k v h = users-IsSafe p s' k v h
replied-IsSafe (s', none) p k v h = users-IsSafe p s' k v h

equal_fold_empty : (s : Text) → equal_fold s [] ≡ true → s ≡ []
unfolding equal_fold text_eq
equal_fold_empty [] h = refl
equal_fold_empty (c ∷ s) h = cc

nonempty_of_found :
    (n : Text) (us : List User) (u : User)
    → All Invariant.IsSound us
    → find? (named n) us ≡ some u
    → is_empty n ≡ false
nonempty_of_found [] us u h e =
    let sound = All-find? (named []) Invariant.IsSound us u h e in
    ground (arith, sound.nonempty, equal_fold_empty u.username, find?_sound (named []) us u e)
nonempty_of_found (c ∷ n) us u h e = refl

set_role_nonempty :
    (name role : Text) (s : UserStore)
    → Invariant.Valid s
    → (set_role name role true s).1 ≡ none
    → is_empty (trim_space name) ≡ false
unfolding set_role save
set_role_nonempty name role s v h = elim (Option-cases (find? (named (trim_space name)) s.users)) [
  | inl e ↦ ground arith
  | inr (u, e) ↦ nonempty_of_found (trim_space name) s.users u v.0.sound e
]

delete_user_nonempty :
    (name : Text) (s : UserStore)
    → Invariant.Valid s
    → (delete_user name true s).1 ≡ none
    → is_empty (trim_space name) ≡ false
unfolding delete_user save
delete_user_nonempty name s v h = elim (Option-cases (find? (named (trim_space name)) s.users)) [
  | inl e ↦ ground arith
  | inr (u, e) ↦ nonempty_of_found (trim_space name) s.users u v.0.sound e
]

-- A change of roles that is refused changes nothing, and one that is made drops the sessions.
changed-IsSafe :
    (o : Outside) (name : Text) (res : UserStore × Option UserError) (p : Program)
    → (res.1 ≡ none → is_empty (trim_space name) ≡ false)
    → ((e : UserError) → res.1 ≡ some e → res.0 ≡ p.users)
    → KeepsOthers (trim_space name) p.users res.0
    → Invariant.Valid res.0
    → IsSafe p
    → IsSafe (and_drop_sessions o name res p).0
unfolding and_drop_sessions
changed-IsSafe o name (s', none) p n r k v h = revoked-IsSafe o name p s' (n refl) k v h
changed-IsSafe o name (s', some e) p n r k v h =
    users-IsSafe p s' (λ m q z. subst (λ s. role_of m s ≡ some q) (sym (r e refl)) z) v h

module _ (pw : Passwords) (digest : Text → Text) where
  pub handle_users_set_role-IsSafe :
      (o : Outside) (r : Request) (own : Option Session) (body : Option (Text × Text)) (p : Program)
      → o.users_written ≡ true
      → IsSafe p
      → IsSafe (handle_users_set_role o r own body p).0
  unfolding handle_users_set_role Invariant.apply
  handle_users_set_role-IsSafe o r own none p w h = ground arith
  handle_users_set_role-IsSafe o r own (some b) p w h =
      let res = set_role b.0 b.1 true p.users in
      ground (
        arith,
        h,
        changed-IsSafe o b.0 res p (set_role_nonempty b.0 b.1 p.users h.valid)
            (set_role_refused b.0 b.1 p.users)
            (λ n z. role_of-set_role_other b.0 b.1 n true p.users z)
            (step-Valid pw digest p.users (Invariant.role b.0 b.1 true) h.valid) h,
      )

  pub handle_users_delete-IsSafe :
      (o : Outside) (r : Request) (own : Option Session) (body : Option Text) (p : Program)
      → o.users_written ≡ true
      → IsSafe p
      → IsSafe (handle_users_delete o r own body p).0
  unfolding handle_users_delete Invariant.apply
  handle_users_delete-IsSafe o r own none p w h = ground arith
  handle_users_delete-IsSafe o r own (some name) p w h =
      let res = delete_user name true p.users in
      ground (
        arith,
        h,
        changed-IsSafe o name res p (delete_user_nonempty name p.users h.valid)
            (delete_user_refused name p.users)
            (λ n z. role_of-delete_user_other name n true p.users z)
            (step-Valid pw digest p.users (Invariant.remove name true) h.valid) h,
      )

  pub handle_users_set_password-IsSafe :
      (o : Outside) (r : Request) (body : Option (Text × Text)) (p : Program)
      → IsSafe p
      → IsSafe (handle_users_set_password pw o r body p).0
  unfolding handle_users_set_password Invariant.apply
  handle_users_set_password-IsSafe o r none p h = ground arith
  handle_users_set_password-IsSafe o r (some b) p h = ground (
    arith,
    h,
    kept-IsSafe o b.0 (set_password pw b.0 b.1 o.users_written p.users) p
        (set_password-KeepsRoles pw b.0 b.1 o.users_written p.users)
        (step-Valid pw digest p.users (Invariant.password b.0 b.1 o.users_written) h.valid) h,
  )

  pub handle_users_create-IsSafe :
      (o : Outside) (r : Request) (body : Option (Text × Text × Text)) (p : Program)
      → IsSafe p
      → IsSafe (handle_users_create pw o r body p).0
  unfolding handle_users_create Invariant.apply
  handle_users_create-IsSafe o r none p h = ground arith
  handle_users_create-IsSafe o r (some b) p h =
      let role = role_or_viewer b.2 in
      ground (
        arith,
        h,
        replied-IsSafe (add_user pw b.0 b.1 role o.users_written p.users) p
            (add_user-KeepsRoles pw b.0 b.1 role o.users_written p.users)
            (step-Valid pw digest p.users (Invariant.add b.0 b.1 role o.users_written) h.valid) h,
      )

  pub handle_change_own_password-IsSafe :
      (o : Outside) (r : Request) (own : Option Session) (body : Option (Text × Text)) (p : Program)
      → IsSafe p
      → IsSafe (handle_change_own_password pw o r own body p).0
  unfolding handle_change_own_password Invariant.apply
  handle_change_own_password-IsSafe o r none body p h = ground arith
  handle_change_own_password-IsSafe o r (some s) none p h = ground arith
  handle_change_own_password-IsSafe o r (some s) (some b) p h =
      let name = s.username in
      elim (auth_cases (authenticate pw name b.0 p.users)) [
        | inl (e, k) ↦ ground (arith, h)
        | inr (u, k) ↦ ground (
          arith,
          h,
          kept-IsSafe o name (set_password pw name b.1 o.users_written p.users) p
              (set_password-KeepsRoles pw name b.1 o.users_written p.users)
              (step-Valid pw digest p.users (Invariant.password name b.1 o.users_written) h.valid)
              h,
        )
      ]
