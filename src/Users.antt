-- ===== src/Users.antt =====
-- The user store (users.go): `users.json` and the accounts in memory. The outcome of a write of the
-- file and of the password functions are arguments.
pub mod Laws
pub mod Invariant
pub mod Admins
pub mod Access
pub mod Hashing
pub mod SignIn
mod Examples
use dingbap.Base.{
  ℕ, Bool, true, false, not, ◌&&◌, ◌||◌, List, [], ◌∷◌, ◌++◌, Option, none, some, if◌then◌else◌,
  ltb, leb, length, is_empty, is_some, find?, modify_first, remove_first, count, map,
}
use dingbap.Text.{Text, codes, text_eq, equal_fold, trim_space, to_lower}

pub record User : Type 0 where
  pub username : Text
  pub password_hash : Text
  pub role : Text
  pub totp_secret : Text
  pub totp_active : Bool
  pub totp_recovery_hash : List Text

-- `file` is the content of `users.json`.
pub record UserStore : Type 0 where
  pub users : List User
  pub file : List User

pub data UserError : Type 0 where
  missing_fields short_password bad_role hash_failed already_exists not_found : UserError
  last_admin not_admin invalid_credentials verify_failed save_failed : UserError

-- Go's `error` result: `none` is `nil`.
abbrev pub Reply : Type 0
Reply = Option UserError

-- `hashPassword`, with the salt drawn, and `verifyPassword`.
pub record Passwords : Type 0 where
  pub hash : Text → Option Text
  pub verify : Text → Text → Option Bool

abbrev pub role_admin : Text
role_admin = codes "admin"

abbrev pub role_viewer : Text
role_viewer = codes "viewer"

abbrev pub is_admin_role : Text → Bool
is_admin_role role = text_eq role role_admin

abbrev pub is_admin : User → Bool
is_admin u = is_admin_role u.role

abbrev pub valid_role : Text → Bool
valid_role role = is_admin_role role || text_eq role role_viewer

abbrev pub named : Text → User → Bool
named name u = equal_fold u.username name

unfoldable pub save : Bool → UserStore → UserStore × Reply
save written s = if written then (record s { file = s.users }, none) else (s, some save_failed)

abbrev pub new_user : Text → Text → Text → User
new_user name hash role = record {
  username = name;
  password_hash = hash;
  role = role;
  totp_secret = [];
  totp_active = false;
  totp_recovery_hash = [];
}

abbrev pub append_user : Bool → User → UserStore → UserStore × Reply
append_user written u s =
    if is_some (find? (named u.username) s.users)
    then (s, some already_exists)
    else save written (record s { users = s.users ++ (u ∷ []) })

unfoldable pub add_user : Passwords → Text → Text → Text → Bool → UserStore → UserStore × Reply
unfolding save
add_user pw username password role written s =
    let name = trim_space username in
    if is_empty name || is_empty password
    then (s, some missing_fields)
    else if ltb (length password) 8
    then (s, some short_password)
    else if not (valid_role role)
    then (s, some bad_role)
    else elim (pw.hash password) [
      | none ↦ (s, some hash_failed)
      | some hash ↦ append_user written (new_user name hash role) s
    ]

pub data AuthResult : Type 0 where
  granted : User → AuthResult
  refused : UserError → AuthResult

abbrev pub judge : User → Option Bool → AuthResult
judge u none = refused verify_failed
judge u (some false) = refused invalid_credentials
judge u (some true) = granted u

unfoldable pub authenticate : Passwords → Text → Text → UserStore → AuthResult
authenticate pw username password s = elim (find? (named username) s.users) [
  | none ↦ refused invalid_credentials
  | some u ↦ judge u (pw.verify u.password_hash password)
]

unfoldable pub by_username : Text → UserStore → Option User
by_username username s = find? (named username) s.users

unfoldable pub admin_count : UserStore → ℕ
admin_count s = count is_admin s.users

unfoldable pub set_password : Passwords → Text → Text → Bool → UserStore → UserStore × Reply
unfolding save
set_password pw username password written s =
    let name = trim_space username in
    if is_empty name || is_empty password
    then (s, some missing_fields)
    else if ltb (length password) 8
    then (s, some short_password)
    else elim (pw.hash password) [
      | none ↦ (s, some hash_failed)
      | some hash ↦
          if is_some (find? (named name) s.users)
          then save written (record s {
            users = modify_first (named name) (λ u. record u { password_hash = hash }) s.users;
          })
          else (s, some not_found)
    ]

-- The account with the second factor taken away.
abbrev pub clear_totp : User → User
clear_totp u = record u { totp_secret = []; totp_active = false; totp_recovery_hash = [] }

abbrev pub assign_role : Text → User → User
assign_role role u =
    if is_admin_role role then record u { role = role } else clear_totp (record u { role = role })

unfoldable pub set_role : Text → Text → Bool → UserStore → UserStore × Reply
unfolding save
set_role username role written s =
    let name = trim_space username in
    if not (valid_role role) then (s, some bad_role) else elim (find? (named name) s.users) [
      | none ↦ (s, some not_found)
      | some u ↦
          if (is_admin u && not (is_admin_role role)) && leb (count is_admin s.users) 1
          then (s, some last_admin)
          else save written
              (record s { users = modify_first (named name) (assign_role role) s.users })
    ]

unfoldable pub delete_user : Text → Bool → UserStore → UserStore × Reply
unfolding save
delete_user username written s =
    let name = trim_space username in
    elim (find? (named name) s.users) [
      | none ↦ (s, some not_found)
      | some u ↦
          if is_admin u && leb (count is_admin s.users) 1
          then (s, some last_admin)
          else save written (record s { users = remove_first (named name) s.users })
    ]

-- An account of which the second factor is asked.
abbrev pub totp_on : User → Bool
totp_on u = (is_admin u && u.totp_active) && not (is_empty u.totp_secret)

unfoldable pub totp_enabled : Text → UserStore → Bool
totp_enabled username s = elim (find? (named username) s.users) [
  | none ↦ false
  | some u ↦ totp_on u
]

unfoldable pub totp_secret : Text → UserStore → Option (Text × List Text)
totp_secret username s = elim (find? (named username) s.users) [
  | none ↦ none
  | some u ↦ if totp_on u then some (u.totp_secret, u.totp_recovery_hash) else none
]

abbrev pub grant_totp : Text → List Text → User → User
grant_totp secret hashes u = record u {
  totp_secret = secret;
  totp_active = true;
  totp_recovery_hash = hashes;
}

unfoldable pub enable_totp : Text → Text → List Text → Bool → UserStore → UserStore × Reply
unfolding save
enable_totp username secret hashes written s = elim (find? (named username) s.users) [
  | none ↦ (s, some not_found)
  | some u ↦
      if is_admin u
      then save written
          (record s { users = modify_first (named username) (grant_totp secret hashes) s.users })
      else (s, some not_admin)
]

unfoldable pub disable_totp : Text → Bool → UserStore → UserStore × Reply
unfolding save
disable_totp username written s =
    if is_some (find? (named username) s.users)
    then save written (record s { users = modify_first (named username) clear_totp s.users })
    else (s, some not_found)

-- `hashRecoveryCode`; `digest` is SHA-256 printed in hexadecimal.
unfoldable pub hash_recovery_code : (Text → Text) → Text → Text
hash_recovery_code digest code = digest (trim_space (to_lower code))

abbrev pub spend_hash : Text → User → User
spend_hash sum u = record u {
  totp_recovery_hash = remove_first (λ h. text_eq h sum) u.totp_recovery_hash;
}

unfoldable pub consume_recovery_code :
    (Text → Text) → Text → Text → Bool → UserStore → UserStore × Bool
unfolding save
consume_recovery_code digest username code written s =
    let sum = hash_recovery_code digest code in
    elim (find? (named username) s.users) [
      | none ↦ (s, false)
      | some u ↦
          if is_some (find? (λ h. text_eq h sum) u.totp_recovery_hash)
          then (
            (save written
                (record s { users = modify_first (named username) (spend_hash sum) s.users })).0,
            true,
          )
          else (s, false)
    ]

-- `listPublic`: what the admin page shows of an account.
abbrev publish : User → User
publish u = record (new_user u.username [] u.role) {
  totp_active = u.totp_active && not (is_empty u.totp_secret);
}

unfoldable pub list_public : UserStore → List User
list_public s = map publish s.users
