-- ===== src/Users/Admins.antt =====
-- The last administrator stays.
use dingbap.Base.{
  inl, inr, ◌<◌, ◌≡◌, refl, Bool, List, [], ◌∷◌, ◌++◌, arith, find?, modify_first, remove_first,
  count, count-append, count-modify_first, count-modify_first_same, count-remove_first,
  Option-cases,
}
use dingbap.Text.{Text, trim_space}
use dingbap.Users.{
  User, UserStore, Passwords, is_admin, named, save, new_user, append_user, add_user, set_password,
  set_role, delete_user, enable_totp, disable_totp, consume_recovery_code, clear_totp, assign_role,
  grant_totp, spend_hash, hash_recovery_code,
}
use dingbap.Users.Invariant.{
  Call, add, password, role, remove, enable, disable, recover, apply, run,
}

-- An administrator is left in memory and in the file.
pub record HasAdmin (s : UserStore) : Type 0 where
  pub in_memory : 0 < count is_admin s.users
  pub in_file : 0 < count is_admin s.file

save-HasAdmin :
    (w : Bool) (s : UserStore) (us : List User)
    → 0 < count is_admin us
    → HasAdmin s
    → HasAdmin (save w (record s { users = us })).0
unfolding save
save-HasAdmin w s us v h = ground arith

save_same-HasAdmin :
    (q : User → Bool) (f : User → User)
    → ((u : User) → is_admin (f u) ≡ is_admin u)
    → (w : Bool) (s : UserStore) → HasAdmin s
    → HasAdmin (save w (record s { users = modify_first q f s.users })).0
save_same-HasAdmin q f k w s h =
    save-HasAdmin w s _ (omega (arith, count-modify_first_same q is_admin f k s.users)) h

append_user-HasAdmin :
    (w : Bool) (u : User) (s : UserStore) → HasAdmin s → HasAdmin (append_user w u s).0
append_user-HasAdmin w u s h =
    ground (arith, count-append is_admin s.users (u ∷ []), save-HasAdmin w s (s.users ++ (u ∷ [])))

module _ (pw : Passwords) (digest : Text → Text) where
  add_user-HasAdmin :
      (name pass kind : Text) (w : Bool) (s : UserStore)
      → HasAdmin s
      → HasAdmin (add_user pw name pass kind w s).0
  unfolding add_user
  add_user-HasAdmin name pass kind w s h = elim (Option-cases (pw.hash pass)) [
    | inl e ↦ ground arith
    | inr (hash, e) ↦
        ground (arith, append_user-HasAdmin w (new_user (trim_space name) hash kind) s h)
  ]

  set_password-HasAdmin :
      (name pass : Text) (w : Bool) (s : UserStore)
      → HasAdmin s
      → HasAdmin (set_password pw name pass w s).0
  unfolding set_password
  set_password-HasAdmin name pass w s h = elim (Option-cases (pw.hash pass)) [
    | inl e ↦ ground arith
    | inr (hash, e) ↦ ground (
      arith,
      save_same-HasAdmin (named (trim_space name)) (λ u. record u { password_hash = hash })
          (λ u. refl) w s h,
    )
  ]

  set_role-HasAdmin :
      (name kind : Text) (w : Bool) (s : UserStore)
      → HasAdmin s
      → HasAdmin (set_role name kind w s).0
  unfolding set_role
  set_role-HasAdmin name kind w s h =
      let q = named (trim_space name) in
      elim (Option-cases (find? q s.users)) [
        | inl e ↦ ground arith
        | inr (u, e) ↦ ground (
          arith,
          count-modify_first q is_admin (assign_role kind) s.users u e,
          save-HasAdmin w s (modify_first q (assign_role kind) s.users),
        )
      ]

  delete_user-HasAdmin :
      (name : Text) (w : Bool) (s : UserStore) → HasAdmin s → HasAdmin (delete_user name w s).0
  unfolding delete_user
  delete_user-HasAdmin name w s h =
      let q = named (trim_space name) in
      elim (Option-cases (find? q s.users)) [
        | inl e ↦ ground arith
        | inr (u, e) ↦ ground (
          arith,
          count-remove_first q is_admin s.users u e,
          save-HasAdmin w s (remove_first q s.users),
        )
      ]

  apply-HasAdmin : (s : UserStore) (c : Call) → HasAdmin s → HasAdmin (apply pw digest s c)
  unfolding apply enable_totp disable_totp consume_recovery_code
  apply-HasAdmin s (add name pass kind w) h = add_user-HasAdmin name pass kind w s h
  apply-HasAdmin s (password name pass w) h = set_password-HasAdmin name pass w s h
  apply-HasAdmin s (role name kind w) h = set_role-HasAdmin name kind w s h
  apply-HasAdmin s (remove name w) h = delete_user-HasAdmin name w s h
  apply-HasAdmin s (enable name secret hashes w) h =
      ground (arith, save_same-HasAdmin (named name) (grant_totp secret hashes) (λ u. refl) w s h)
  apply-HasAdmin s (disable name w) h =
      ground (arith, save_same-HasAdmin (named name) clear_totp (λ u. refl) w s h)
  apply-HasAdmin s (recover name code w) h = ground (
    arith,
    save_same-HasAdmin (named name) (spend_hash (hash_recovery_code digest code)) (λ u. refl) w s h,
  )

  -- No history of calls, whatever the outcome of each file write, deletes or demotes the last
  -- administrator: where one is left in memory and in the file, one is left in both afterwards.
  pub run-HasAdmin : (s : UserStore) (cs : List Call) → HasAdmin s → HasAdmin (run pw digest s cs)
  unfolding run
  run-HasAdmin s [] h = h
  run-HasAdmin s (c ∷ cs) h = run-HasAdmin (apply pw digest s c) cs (apply-HasAdmin s c h)
