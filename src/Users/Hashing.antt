-- ===== src/Users/Hashing.antt =====
-- `hashPassword` and `verifyPassword` (users.go). The key function of argon2 and the coding in base64
-- are arguments; `Sscanf` is read as digits behind fixed text.
use dingbap.Text.Laws.{text_eq_refl}
use dingbap.Base.{
  ◌∷◌, [], ◌≡◌, ◌++◌, ◌+◌, ◌*◌, none, some, true, false, refl, arith, Bool, Option, List, ℕ, ◌-◌,
  ◌^◌, ◌&&◌, if◌then◌else◌, not, leb, ltb, ◌∙◌, ap, length, subst,
}
use dingbap.Text.{Text, codes, split, has_prefix, trim_prefix, text_eq, contains_byte}
use dingbap.Users.{Passwords}

-- `argon2.IDKey` of a password, a salt, the time, the memory, the threads and the length; and
-- `base64.RawStdEncoding`.
pub record Argon : Type 0 where
  pub id_key : Text → Text → ℕ → ℕ → ℕ → ℕ → Text
  pub encode : Text → Text
  pub decode : Text → Option Text

abbrev argon_time : ℕ
argon_time = 3

abbrev argon_memory : ℕ
argon_memory = 64 * 1024

abbrev argon_threads : ℕ
argon_threads = 4

abbrev argon_key_len : ℕ
argon_key_len = 32

infixl 5 ◌>>=◌
abbrev ◌>>=◌ : {A B : Type 0} → Option A → (A → Option B) → Option B
none >>= f = none
some a >>= f = f a

-- The salt is `none` where the random source fails.
unfoldable pub hash_password : Argon → Option Text → Text → Option Text
hash_password a none password = none
hash_password a (some salt) password = some (
    codes "$argon2id$v=19$m=65536,t=3,p=4$"
    ++ (a.encode salt
        ++ (codes "$"
            ++ a.encode
                (a.id_key password salt argon_time argon_memory argon_threads argon_key_len))))

abbrev is_digit : ℕ → Bool
is_digit c = leb b'0' c && leb c b'9'

-- The number that the digits at the begin make with one read so far, and what follows.
abbrev read_digits : ℕ → Text → ℕ × Text
read_digits n [] = (n, [])
read_digits n (c ∷ s) =
    let more = read_digits (n * 10 + (c - b'0')) s in if is_digit c then more else (n, c ∷ s)

-- `%d` of a type with the numbers below `bound`.
abbrev scan_number : ℕ → Text → Option (ℕ × Text)
scan_number bound [] = none
scan_number bound (c ∷ s) =
    let (n, rest) = read_digits 0 (c ∷ s) in
    if is_digit c && ltb n bound then some (n, rest) else none

-- A number behind fixed text.
unfoldable pub scan_after : Text → ℕ → Text → Option (ℕ × Text)
unfolding has_prefix trim_prefix
scan_after label bound s =
    if has_prefix s label then scan_number bound (trim_prefix s label) else none

-- `m=%d,t=%d,p=%d`
unfoldable pub scan_params : Text → Option (ℕ × ℕ × ℕ)
unfolding scan_after
scan_params s = do
  (memory, s1) ← scan_after (codes "m=") (2 ^ 32) s
  (time, s2) ← scan_after (codes ",t=") (2 ^ 32) s1
  (threads, s3) ← scan_after (codes ",p=") (2 ^ 8) s2
  some (memory, time, threads)

-- The checks on the six parts.
unfoldable pub verify_parts : Argon → Text → List Text → Option Bool
unfolding scan_after scan_params text_eq
verify_parts a password (p0 ∷ p1 ∷ p2 ∷ p3 ∷ p4 ∷ p5 ∷ []) =
    if not (text_eq p1 (codes "argon2id")) then none else do
      version ← scan_after (codes "v=") (2 ^ 63) p2
      (memory, time, threads) ← scan_params p3
      salt ← a.decode p4
      want ← a.decode p5
      some (text_eq (a.id_key password salt time memory threads (length want)) want)
verify_parts a password parts = none

unfoldable pub verify_password : Argon → Text → Text → Option Bool
unfolding split verify_parts
verify_password a encoded password = verify_parts a password (split b'$' encoded)

-- The functions that the user store takes, with the salt drawn.
abbrev pub passwords : Argon → Option Text → Passwords
passwords a salt = record { hash = hash_password a salt; verify = verify_password a }

-- What is read from the parts that `hash_password` writes.
fixed_params : scan_params (codes "m=65536,t=3,p=4") ≡ some (65536, 3, 4)
unfolding scan_params scan_after has_prefix trim_prefix
fixed_params = refl

fixed_version : scan_after (codes "v=") (2 ^ 63) (codes "v=19") ≡ some (19, [])
unfolding scan_after has_prefix trim_prefix
fixed_version = refl

split_last : (s : Text) → contains_byte b'$' s ≡ false → split b'$' s ≡ s ∷ []
unfolding split contains_byte
split_last [] h = refl
split_last (c ∷ s) h = ground (arith, h, split_last s)

split_first :
    (s t : Text) → contains_byte b'$' s ≡ false → split b'$' (s ++ (b'$' ∷ t)) ≡ s ∷ split b'$' t
unfolding split contains_byte
split_first [] t h = refl
split_first (c ∷ s) t h = ground (arith, h, split_first s t)

-- What the code relies on: base64 is read back and has no dollar sign, and a key has the length asked.
pub record IsCodec (a : Argon) : Type 0 where
  pub read_back : (s : Text) → a.decode (a.encode s) ≡ some s
  pub no_dollar : (s : Text) → contains_byte b'$' (a.encode s) ≡ false
  pub key_length :
      (password salt : Text) (t m p n : ℕ) → length (a.id_key password salt t m p n) ≡ n

-- The six parts of a stored hash.
parts_of :
    (x y : Text)
    → contains_byte b'$' x ≡ false
    → contains_byte b'$' y ≡ false
    → split b'$' (codes "$argon2id$v=19$m=65536,t=3,p=4$" ++ (x ++ (codes "$" ++ y)))
      ≡ [] ∷ codes "argon2id" ∷ codes "v=19" ∷ codes "m=65536,t=3,p=4" ∷ x ∷ y ∷ []
unfolding split
parts_of x y h k =
    ap (λ ps. [] ∷ codes "argon2id" ∷ codes "v=19" ∷ codes "m=65536,t=3,p=4" ∷ ps)
      (split_first x y h ∙ ap (λ ps. x ∷ ps) (split_last y k))

abbrev pub key_of : Argon → Text → Text → Text
key_of a salt password = a.id_key password salt argon_time argon_memory argon_threads argon_key_len

-- What `verifyPassword` says of the text that `hashPassword` makes.
pub verified_lem :
    (a : Argon) (salt password given hash : Text)
    → IsCodec a
    → hash_password a (some salt) password ≡ some hash
    → verify_password a hash given ≡ some (text_eq (key_of a salt given) (key_of a salt password))
unfolding verify_password verify_parts hash_password scan_params scan_after has_prefix trim_prefix
    text_eq
verified_lem a salt password given hash c e =
    let key = key_of a salt password in
    let text : Text =
      codes "$argon2id$v=19$m=65536,t=3,p=4$" ++ (a.encode salt ++ (codes "$" ++ a.encode key)) in
    let same : text ≡ hash = ground (arith, e) in
    subst (λ h. verify_password a h given ≡ some (text_eq (key_of a salt given) key)) same
      (ap (verify_parts a given)
          (parts_of (a.encode salt) (a.encode key) (c.no_dollar salt) (c.no_dollar key))
        ∙ rw
            (
              c.read_back salt,
              c.read_back key,
              c.key_length password salt argon_time argon_memory argon_threads argon_key_len,
            )
            refl)

-- Let base64 be read back and write no dollar sign, and let a key of argon2 have the length asked. Then
-- `verifyPassword` reads every hash that `hashPassword` makes, and accepts a password exactly where its
-- key under the salt of the hash is that of the password hashed; so it accepts that password.
pub verify_password-hash_password :
    (a : Argon) (salt password given hash : Text)
    → IsCodec a
    → hash_password a (some salt) password ≡ some hash
    → (verify_password a hash given
        ≡ some (
            text_eq
              (a.id_key given salt argon_time argon_memory argon_threads argon_key_len)
              (a.id_key password salt argon_time argon_memory argon_threads argon_key_len)))
      × (verify_password a hash password ≡ some true)
verify_password-hash_password a salt password given hash c e = (
  verified_lem a salt password given hash c e,
  verified_lem a salt password password hash c e ∙ ap some (text_eq_refl (key_of a salt password)),
)
