-- ===== src/Program/Roles.antt =====
-- Which calls on the user store leave the role of an account as it is.
use dingbap.Text.Laws.{equal_fold_iff}
use dingbap.Text.{Text, trim_space, equal_fold}
use dingbap.Base.{
  ◌∷◌, [], ◌++◌, ◌≡◌, inl, inr, some, true, false, Bool, List, Option, refl, arith, find?,
  modify_first, Option-cases, find?_sound, none,
}
use dingbap.Users.{
  User, UserStore, by_username, add_user, set_password, set_role, delete_user, enable_totp,
  disable_totp, consume_recovery_code, authenticate, granted, named, save, Passwords, grant_totp,
  clear_totp, hash_recovery_code, assign_role, UserError, spend_hash, new_user,
}
use dingbap.Users.Laws.{KeepsName, find?-fold, find?-modify_first_other, find?-remove_first_other}

abbrev role_in : Option User → Option Text
role_in none = none
role_in (some u) = some u.role

abbrev pub role_of : Text → UserStore → Option Text
role_of name s = role_in (by_username name s)

-- Whatever role an account has, it keeps.
abbrev pub KeepsRoles : UserStore → UserStore → Type 0
KeepsRoles s s' = (n r : Text) → role_of n s ≡ some r → role_of n s' ≡ some r

role-modify_first :
    (q : User → Bool) (f : User → User)
    → KeepsName f
    → ((u : User) → (f u).role ≡ u.role)
    → (n : Text) (us : List User)
    → role_in (find? (named n) (modify_first q f us)) ≡ role_in (find? (named n) us)
unfolding find? modify_first
role-modify_first q f k l n [] = refl
role-modify_first q f k l n (u ∷ us) = ground (arith, k u, l u, role-modify_first q f k l n us)

role-append :
    (n r : Text) (us vs : List User)
    → role_in (find? (named n) us) ≡ some r
    → role_in (find? (named n) (us ++ vs)) ≡ some r
unfolding find?
role-append n r [] vs h = cc
role-append n r (u ∷ us) vs h = ground (arith, role-append n r us vs)

pub add_user-KeepsRoles :
    (pw : Passwords) (name password role : Text) (w : Bool) (s : UserStore)
    → KeepsRoles s (add_user pw name password role w s).0
unfolding add_user by_username save
add_user-KeepsRoles pw name password role w s n r h = elim (Option-cases (pw.hash password)) [
  | inl e ↦ ground arith
  | inr (hash, e) ↦
      let u = new_user (trim_space name) hash role in
      ground (arith, role-append n r s.users (u ∷ []) h)
]

pub set_password-KeepsRoles :
    (pw : Passwords) (name password : Text) (w : Bool) (s : UserStore)
    → KeepsRoles s (set_password pw name password w s).0
unfolding set_password by_username save
set_password-KeepsRoles pw name password w s n r h = elim (Option-cases (pw.hash password)) [
  | inl e ↦ ground arith
  | inr (hash, e) ↦
      let rehash = λ (u : User). record u { password_hash = hash } in
      ground (
        arith,
        role-modify_first (named (trim_space name)) rehash (λ u. refl) (λ u. refl) n s.users,
      )
]

pub enable_totp-KeepsRoles :
    (name secret : Text) (hashes : List Text) (w : Bool) (s : UserStore)
    → KeepsRoles s (enable_totp name secret hashes w s).0
unfolding enable_totp by_username save
enable_totp-KeepsRoles name secret hashes w s n r h = ground (
  arith,
  role-modify_first (named name) (grant_totp secret hashes) (λ u. refl) (λ u. refl) n s.users,
)

pub disable_totp-KeepsRoles :
    (name : Text) (w : Bool) (s : UserStore) → KeepsRoles s (disable_totp name w s).0
unfolding disable_totp by_username save
disable_totp-KeepsRoles name w s n r h =
    ground (arith, role-modify_first (named name) clear_totp (λ u. refl) (λ u. refl) n s.users)

pub consume_recovery_code-KeepsRoles :
    (digest : Text → Text) (name code : Text) (w : Bool) (s : UserStore)
    → KeepsRoles s (consume_recovery_code digest name code w s).0
unfolding consume_recovery_code by_username save
consume_recovery_code-KeepsRoles digest name code w s n r h =
    let sum = hash_recovery_code digest code in
    ground
      (arith, role-modify_first (named name) (spend_hash sum) (λ u. refl) (λ u. refl) n s.users)

assign_role_keeps : (role : Text) → KeepsName (assign_role role)
assign_role_keeps role u = ground arith

pub role_of-set_role_other :
    (name role n : Text) (w : Bool) (s : UserStore)
    → equal_fold (trim_space name) n ≡ false
    → role_of n (set_role name role w s).0 ≡ role_of n s
unfolding set_role by_username save
role_of-set_role_other name role n w s h = ground (
  arith,
  find?-modify_first_other (trim_space name) n (assign_role role) (assign_role_keeps role) s.users
      h,
)

pub role_of-delete_user_other :
    (name n : Text) (w : Bool) (s : UserStore)
    → equal_fold (trim_space name) n ≡ false
    → role_of n (delete_user name w s).0 ≡ role_of n s
unfolding delete_user by_username save
role_of-delete_user_other name n w s h =
    ground (arith, find?-remove_first_other (trim_space name) n s.users)

-- Where the file is written, a refusal changes nothing.
pub set_role_refused :
    (name role : Text) (s : UserStore) (e : UserError)
    → (set_role name role true s).1 ≡ some e
    → (set_role name role true s).0 ≡ s
unfolding set_role save
set_role_refused name role s e h = ground arith

pub delete_user_refused :
    (name : Text) (s : UserStore) (e : UserError)
    → (delete_user name true s).1 ≡ some e
    → (delete_user name true s).0 ≡ s
unfolding delete_user save
delete_user_refused name s e h = ground arith

-- An account that is found is found under its own name.
pub by_username_self :
    (name : Text) (s : UserStore) (u : User)
    → by_username name s ≡ some u
    → by_username u.username s ≡ some u
unfolding by_username
by_username_self name s u e = ground (
  arith,
  find?_sound (named name) s.users u e,
  equal_fold_iff u.username name,
  find?-fold u.username name s.users,
)

-- A granted login is that of the account found.
pub by_username-authenticate :
    (pw : Passwords) (name password : Text) (s : UserStore) (u : User)
    → authenticate pw name password s ≡ granted u
    → by_username u.username s ≡ some u
unfolding authenticate by_username
by_username-authenticate pw name password s u h = elim (Option-cases (find? (named name) s.users)) [
  | inl e ↦ ground arith
  | inr (v, e) ↦ ground (arith, by_username_self name s v e)
]
