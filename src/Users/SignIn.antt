-- ===== src/Users/SignIn.antt =====
-- Signing in with the hashes of argon2 that the program stores.
use dingbap.Base.{◌≡◌, none, some, Bool, if◌then◌else◌, true}
use dingbap.Text.{Text, trim_space, equal_fold, text_eq}
use dingbap.Users.{
  set_password, authenticate, by_username, granted, refused, invalid_credentials, UserStore, User,
}
use dingbap.Users.Access.{Accepts, granted-set_password}
use dingbap.Users.Hashing.{Argon, IsCodec, passwords, key_of, verified_lem}

-- A password is accepted where its key under the salt is the same.
abbrev pub same_key : Argon → Text → Text → Text → Bool
same_key a salt p q = text_eq (key_of a salt q) (key_of a salt p)

passwords-Accepts :
    (a : Argon) (salt : Text) → IsCodec a → Accepts (passwords a (some salt)) (same_key a salt)
passwords-Accepts a salt c p q h e = verified_lem a salt p q h c e

-- Let base64 be read back and write no dollar sign, and let a key of argon2 have the length asked. After
-- a successful change of the password with a salt, under every spelling of the name, a password signs
-- in exactly where its key of argon2 under that salt is that of the new password: as the account with
-- nothing but its hash changed; any other is refused.
pub authenticate-set_password :
    (a : Argon) (salt name pass n q : Text) (w : Bool) (s : UserStore)
    → IsCodec a
    → (set_password (passwords a (some salt)) name pass w s).1 ≡ none
    → equal_fold (trim_space name) n ≡ true
    → (u : User) × (hash : Text) × (by_username n s ≡ some u)
      × (authenticate
            (passwords a (some salt))
            n
            q
            (set_password (passwords a (some salt)) name pass w s).0
          ≡ (if same_key a salt pass q
              then granted (record u { password_hash = hash })
              else refused invalid_credentials))
authenticate-set_password a salt name pass n q w s c h e =
    granted-set_password (passwords a (some salt)) (same_key a salt) (passwords-Accepts a salt c)
      name pass n q w s h e
