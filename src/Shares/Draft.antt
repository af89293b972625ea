-- ===== src/Shares/Draft.antt =====
-- `shareStore.create`: the checks that make a new share, and its publication.
use dingbap.Paths.Names.{base}
use dingbap.Shares.{
  ShareError, bad_path, path_not_found, Share, prune, ShareStore, share_kind_drop, base,
  save_shares, drop_needs_expiry, drop_default_max_uploads, share_kind_link, cannot_share_root,
  bad_expiry, bad_kind, drop_needs_folder, short_share_password, token_failed, hash_failed,
}
use dingbap.Base.{
  ◌∷◌, [], ◌++◌, ◌+◌, ◌*◌, ◌||◌, if◌then◌else◌, none, some, true, false, Bool, Option, ℕ, not,
  is_empty, ltb, length,
}
use dingbap.Text.{Text, codes, text_eq, trim, trim_space, trim_slashes, to_lower}
use dingbap.Users.{Passwords}
use dingbap.Paths.{Storage, safe_path}
use dingbap.Paths
use dingbap.Sessions.{hour}

pub data Result {ℓ} (A : Type ℓ) : Type ℓ where
  made : A → Result A
  denied : ShareError → Result A

infixl 5 ◌>>=◌ ◌>>◌
abbrev pub ◌>>=◌ {ℓ κ} : {A : Type ℓ} {B : Type κ} → Result A → (A → Result B) → Result B
made a >>= f = f a
denied e >>= f = denied e

abbrev pub ◌>>◌ {ℓ} : {B : Type ℓ} → Result (Unit {0}) → Result B → Result B
m >> k = m >>= λ _. k

abbrev pub require : Bool → ShareError → Result (Unit {0})
require true e = made tt
require false e = denied e

abbrev pub or_denied {ℓ} : {A : Type ℓ} → ShareError → Option A → Result A
or_denied e none = denied e
or_denied e (some a) = made a

-- How long a share lives, and how often it may be used: expiry, downloads, uploads.
abbrev pub Terms : Type 0
Terms = Option ℕ × ℕ × ℕ

abbrev lifetime : Text → Option ℕ
lifetime mode =
    if text_eq mode (codes "24h")
    then some (24 * hour)
    else if text_eq mode (codes "7d")
    then some (7 * 24 * hour)
    else if text_eq mode (codes "30d")
    then some (30 * 24 * hour)
    else none

unfoldable pub terms_of : Text → Text → ℕ → Result Terms
terms_of kind mode now =
    if text_eq kind share_kind_drop
    then elim (lifetime mode) [
      | none ↦ denied drop_needs_expiry
      | some d ↦ made (some (now + d), 0, drop_default_max_uploads)
    ]
    else elim (lifetime mode) [
      | none ↦
          if text_eq mode (codes "never")
          then made (none, 0, 0)
          else if text_eq mode (codes "1download")
          then made (none, 1, 0)
          else denied bad_expiry
      | some d ↦ made (some (now + d), 0, 0)
    ]

unfoldable pub kind_of : Text → Result Text
unfolding trim
kind_of kind =
    let k = trim_space (to_lower kind) in
    if is_empty k
    then made share_kind_link
    else if text_eq k share_kind_link || text_eq k share_kind_drop
    then made k
    else denied bad_kind

abbrev resolved : Paths.PathResult → Result Paths.FilePath
resolved (Paths.ok path) = made path
resolved (Paths.err e) = denied bad_path

-- Whether the path is a folder.
abbrev folder_at : Paths.Stat → Result Bool
folder_at Paths.absent = denied path_not_found
folder_at Paths.broken = denied path_not_found
folder_at Paths.folder = made true
folder_at (Paths.file n) = made false

unfoldable pub hash_of : Passwords → Text → Result Text
unfolding trim
hash_of pw password =
    let p = trim_space password in
    if is_empty p
    then made []
    else if ltb (length p) 4
    then denied short_share_password
    else or_denied hash_failed (pw.hash p)

abbrev pub new_share : Text → Text → Bool → Text → ℕ → Text → Text → Terms → Share
new_share token rel is_dir kind now created_by hash terms = record {
  token = token;
  path = rel;
  name = base rel;
  is_dir = is_dir;
  kind = kind;
  created_at = now;
  expires_at = terms.0;
  max_downloads = terms.1;
  download_count = 0;
  max_uploads = terms.2;
  upload_count = 0;
  created_by = created_by;
  password_hash = hash;
}

unfoldable pub draft :
    Storage → Passwords → Option Text → ℕ → Text → Text → Text → Text → Text → Result Share
unfolding kind_of hash_of terms_of
draft st pw token now rel_path created_by mode password kind = do
  let rel = trim_slashes rel_path
  require (not (is_empty rel)) cannot_share_root
  k ← kind_of kind
  path ← resolved (safe_path st rel)
  is_dir ← folder_at (st.fs.stat path)
  require (not (text_eq k share_kind_drop) || is_dir) drop_needs_folder
  t ← or_denied token_failed token
  hash ← hash_of pw password
  terms ← terms_of k mode now
  made (new_share t rel is_dir k now created_by hash terms)

abbrev reply_of : Share → Option ShareError → Result Share
reply_of sh none = made (record sh { password_hash = [] })
reply_of sh (some e) = denied e

-- The locked part of `create`.
unfoldable pub publish : Share → ℕ → Bool → ShareStore → ShareStore × Result Share
unfolding prune save_shares
publish sh now written s =
    let pruned = prune now s in
    let (s', e) = save_shares written (record pruned { shares = pruned.shares ++ (sh ∷ []) }) in
    (s', reply_of sh e)

unfoldable pub create :
    Storage
    → Passwords
    → Option Text
    → ℕ
    → Text
    → Text
    → Text
    → Text
    → Text
    → Bool
    → ShareStore
    → ShareStore × Result Share
unfolding draft publish
create st pw token now rel_path created_by mode password kind written s =
    elim (draft st pw token now rel_path created_by mode password kind) [
      | denied e ↦ (s, denied e)
      | made sh ↦ publish sh now written s
    ]
