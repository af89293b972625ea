-- ===== src/Users/Examples.antt =====
-- Runs of the user store on a store with an administrator and a viewer.
use dingbap.Users.SignIn.{same_key, authenticate-set_password}
use dingbap.Users.Hashing.{passwords}
use dingbap.Users.Hashing.{
  Argon, IsCodec, hash_password, verify_password, verify_parts, verify_password-hash_password,
}
use dingbap.Text.{contains_byte, split}
use dingbap.Base.{
  ◌≡◌, refl, true, false, List, [], ◌∷◌, some, arith, find?, modify_first, remove_first, ltb, ◌-◌,
  if◌then◌else◌, ◌++◌, ◌+◌, none, ℕ, zero, suc, ap, length,
}
use dingbap.Text.{Text, codes, text_eq, equal_fold, trim}
use dingbap.Users.{
  User, UserStore, last_admin, Passwords, role_admin, role_viewer, new_user, add_user, set_password,
  set_role, delete_user, enable_totp, disable_totp, consume_recovery_code, hash_recovery_code,
  authenticate, by_username, granted, refused, invalid_credentials,
}
use dingbap.Users.Invariant.{Call, add, role, remove, apply, run, Valid, IsSound, run-Valid}
use dingbap.Users.Admins.{HasAdmin, run-HasAdmin}
use dingbap.Users.Access.{uses, uses-consume_recovery_code}

-- Names what the runs below compute with.
program : Unit {0}
unfolding hash_password add_user set_password set_role delete_user enable_totp disable_totp
    consume_recovery_code hash_recovery_code authenticate by_username run apply equal_fold trim
    find? modify_first remove_first
program = tt

-- Password functions that keep the text of the password.
abbrev toy : Passwords
toy = record { hash = λ p. some (b'#' ∷ p); verify = λ h q. some (text_eq h (b'#' ∷ q)) }

abbrev root_user : User
root_user = record (new_user (codes "root") (codes "#root-pass") role_admin) {
  totp_secret = codes "KEY";
  totp_active = true;
  totp_recovery_hash = codes "c1" ∷ codes "c2" ∷ [];
}

abbrev guest_user : User
guest_user = new_user (codes "guest") (codes "#guest-pass") role_viewer

abbrev store : UserStore
store = record { users = root_user ∷ guest_user ∷ []; file = root_user ∷ guest_user ∷ [] }

abbrev digest : Text → Text
digest code = code

abbrev history : List Call
history =
    add (codes " bob ") (codes "bobs-pass") role_admin true
    ∷ remove (codes "ROOT") false
    ∷ remove (codes "bob") true
    ∷ role (codes "bob") role_viewer true
    ∷ []

store-Valid : Valid store
unfolding program
store-Valid = (
  record { distinct = (refl, (refl, tt)); sound = (root, (guest, tt)) },
  record { distinct = (refl, (refl, tt)); sound = (root, (guest, tt)) },
)
  where
    root : IsSound root_user
    root = record { known_role = refl; trimmed = refl; nonempty = cc; second_factor = λ _. refl }

    guest : IsSound guest_user
    guest = record { known_role = refl; trimmed = refl; nonempty = cc; second_factor = λ e. cc }

-- `root` is deleted while `bob` is an administrator too; then `bob` is the last one.
last_admin_stays :
    (delete_user (codes "bob") true (run toy digest store history)).1 ≡ some last_admin
unfolding program
last_admin_stays = refl

run-Valid_example : Valid (run toy digest store history)
run-Valid_example = run-Valid toy digest store history store-Valid

run-HasAdmin_example : HasAdmin (run toy digest store history)
unfolding text_eq
run-HasAdmin_example =
    run-HasAdmin toy digest store history
      (record { in_memory = omega arith; in_file = omega arith })

uses-consume_recovery_code_example :
    let sum = hash_recovery_code digest (codes " C1") in
    let after = consume_recovery_code digest (codes "root") (codes " C1") false store in
    (after.1 ≡ ltb 0 (uses (codes "root") sum store))
    × (uses (codes "root") (codes "c2") after.0 ≡ (
        if text_eq sum (codes "c2")
        then uses (codes "root") (codes "c2") store - 1
        else uses (codes "root") (codes "c2") store))
uses-consume_recovery_code_example =
    uses-consume_recovery_code digest (codes "root") (codes " C1") (codes "c2") false store

-- A key function that pads the password to the length, and a code that has no dollar sign.
abbrev fill : ℕ → Text → Text
fill zero s = []
fill (suc n) [] = 0 ∷ fill n []
fill (suc n) (c ∷ s) = c ∷ fill n s

length-fill : (n : ℕ) (s : Text) → length (fill n s) ≡ n
length-fill zero s = refl
length-fill (suc n) [] = ground (arith, length-fill n [])
length-fill (suc n) (c ∷ s) = ground (arith, length-fill n s)

abbrev shift_up : Text → Text
shift_up [] = []
shift_up (c ∷ s) = (c + 37) ∷ shift_up s

abbrev shift_down : Text → Text
shift_down [] = []
shift_down (c ∷ s) = (c - 37) ∷ shift_down s

shift_down-shift_up : (s : Text) → shift_down (shift_up s) ≡ s
shift_down-shift_up [] = refl
shift_down-shift_up (c ∷ s) = ground (arith, shift_down-shift_up s)

contains_byte-shift_up : (s : Text) → contains_byte b'$' (shift_up s) ≡ false
unfolding contains_byte
contains_byte-shift_up [] = refl
contains_byte-shift_up (c ∷ s) = ground (arith, contains_byte-shift_up s)

abbrev padding : Argon
padding = record {
  id_key = λ password salt t m p n. fill n password;
  encode = shift_up;
  decode = λ s. some (shift_down s);
}

padding-IsCodec : IsCodec padding
padding-IsCodec = record {
  read_back = λ s. ap some (shift_down-shift_up s);
  no_dollar = contains_byte-shift_up;
  key_length = λ password salt t m p n. length-fill n password;
}

abbrev stored_hash : Text
stored_hash =
    codes "$argon2id$v=19$m=65536,t=3,p=4$"
    ++ (shift_up (codes "salt") ++ (codes "$" ++ shift_up (fill 32 (codes "pw"))))

verify_password-hash_password_example :
    (verify_password padding stored_hash (codes "pq")
      ≡ some (
          text_eq
            (padding.id_key (codes "pq") (codes "salt") 3 65536 4 32)
            (padding.id_key (codes "pw") (codes "salt") 3 65536 4 32)))
    × (verify_password padding stored_hash (codes "pw") ≡ some true)
unfolding hash_password
verify_password-hash_password_example =
    verify_password-hash_password padding (codes "salt") (codes "pw") (codes "pq") stored_hash
      padding-IsCodec refl

not_a_hash : verify_password padding (codes "$2b$abc") (codes "pw") ≡ none
unfolding verify_password verify_parts split text_eq
not_a_hash = refl

authenticate-set_password_example :
    (u : User) × (hash : Text) × (by_username (codes "Guest") store ≡ some u)
    × (authenticate
          (passwords padding (some (codes "salt")))
          (codes "Guest")
          (codes "guest-pass")
          (set_password
            (passwords padding (some (codes "salt")))
            (codes "guest ")
            (codes "new-password")
            true
            store).0
        ≡ (if same_key padding (codes "salt") (codes "new-password") (codes "guest-pass")
            then granted (record u { password_hash = hash })
            else refused invalid_credentials))
unfolding program
authenticate-set_password_example =
    authenticate-set_password padding (codes "salt") (codes "guest ") (codes "new-password")
      (codes "Guest") (codes "guest-pass") true store padding-IsCodec refl refl
