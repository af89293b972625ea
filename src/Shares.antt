-- ===== src/Shares.antt =====
-- Share links (shares.go): the store of links, their expiry and their download and upload quotas.
-- Clock readings, the random token and the outcome of each file write are arguments; a time is in
-- nanoseconds since Go's zero time.
pub mod Draft
pub mod Counting
pub mod Calls
pub mod Shrinks
pub mod Quota
pub mod Uploads
pub mod Moves
mod Examples
use dingbap.Paths.Names.{base}
use dingbap.Base.{
  ◌++◌, ◌+◌, ◌-◌, ◌*◌, ◌==◌, ◌&&◌, ◌||◌, if◌then◌else◌, none, some, true, false, Bool, List, Option,
  ℕ, not, map, ltb, leb, find?, keep, remove_first, modify_first, length, is_some, drop,
}
use dingbap.Text.{Text, codes, text_eq, has_prefix, trim_slashes}

-- An expiry of `none` is a nil pointer.
pub record Share : Type 0 where
  pub token : Text
  pub path : Text
  pub name : Text
  pub is_dir : Bool
  pub kind : Text
  pub created_at : ℕ
  pub expires_at : Option ℕ
  pub max_downloads : ℕ
  pub download_count : ℕ
  pub max_uploads : ℕ
  pub upload_count : ℕ
  pub created_by : Text
  pub password_hash : Text

-- `file` is the content of `shares.json`.
pub record ShareStore : Type 0 where
  pub shares : List Share
  pub file : List Share

pub data ShareError : Type 0 where
  cannot_share_root bad_kind bad_path path_not_found drop_needs_folder token_failed : ShareError
  short_share_password hash_failed drop_needs_expiry bad_expiry : ShareError
  share_not_found share_expired_now not_download not_drop save_failed : ShareError

abbrev pub share_token_bytes : ℕ
share_token_bytes = 32

abbrev pub share_kind_link : Text
share_kind_link = codes "link"

abbrev pub share_kind_drop : Text
share_kind_drop = codes "drop"

abbrev pub drop_default_max_uploads : ℕ
drop_default_max_uploads = 50

abbrev pub has_token : Text → Share → Bool
has_token token sh = text_eq sh.token token

unfoldable pub share_kind_or_link : Share → Text
share_kind_or_link sh = if text_eq sh.kind share_kind_drop then share_kind_drop else share_kind_link

abbrev pub share_is_drop : Share → Bool
share_is_drop sh = text_eq (share_kind_or_link sh) share_kind_drop

abbrev pub past : Option ℕ → ℕ → Bool
past none now = false
past (some t) now = not (t == 0) && ltb t now

abbrev pub spent : ℕ → ℕ → Bool
spent max count = ltb 0 max && leb max count

unfoldable pub share_expired : ℕ → Share → Bool
unfolding share_kind_or_link
share_expired now sh =
    past sh.expires_at now
    || (spent sh.max_downloads sh.download_count
        || (share_is_drop sh && spent sh.max_uploads sh.upload_count))

abbrev is_hex : ℕ → Bool
is_hex c = (leb b'0' c && leb c b'9') || (leb b'a' c && leb c b'f')

unfoldable pub valid_share_token : Text → Bool
unfolding find?
valid_share_token token =
    length token == share_token_bytes * 2 && not (is_some (find? (λ c. not (is_hex c)) token))

unfoldable pub save_shares : Bool → ShareStore → ShareStore × Option ShareError
save_shares written s =
    if written then (record s { file = s.shares }, none) else (s, some save_failed)

unfoldable pub prune : ℕ → ShareStore → ShareStore
unfolding share_expired keep
prune now s = record s { shares = keep (λ sh. not (share_expired now sh)) s.shares }

-- `removeIndexLocked` at the share found, and the save that follows it.
unfoldable pub drop_share : Text → Bool → ShareStore → ShareStore
unfolding save_shares remove_first
drop_share token written s =
    (save_shares written (record s { shares = remove_first (has_token token) s.shares })).0

pub data Found : Type 0 where
  found : Share → Found
  lost : ShareError → Found

unfoldable pub get_valid : Text → ℕ → ℕ → Bool → ShareStore → ShareStore × Found
unfolding valid_share_token prune share_expired drop_share find?
get_valid token now later written s =
    let pruned = prune now s in
    if not (valid_share_token token)
    then (s, lost share_not_found)
    else elim (find? (has_token token) pruned.shares) [
      | none ↦ (pruned, lost share_not_found)
      | some sh ↦
          if share_expired later sh
          then (drop_share token written pruned, lost share_expired_now)
          else (pruned, found sh)
    ]

abbrev pub count_download : Share → Share
count_download sh = record sh { download_count = sh.download_count + 1 }

-- The part of `beginDownload` that counts: the first write, its rollback, and the removal of a share
-- that is used up.
unfoldable pub reserve_download :
    Text → Share → Bool → Bool → ShareStore → ShareStore × Option ShareError
unfolding save_shares drop_share modify_first
reserve_download token sh written written' s =
    let counted = record s { shares = modify_first (has_token token) count_download s.shares } in
    let saved = (save_shares written counted).0 in
    if not written
    then (s, some save_failed)
    else if spent sh.max_downloads (sh.download_count + 1)
    then (drop_share token written' saved, none)
    else (saved, none)

unfoldable pub begin_download :
    Text → ℕ → ℕ → Bool → Bool → ShareStore → ShareStore × Option ShareError
unfolding valid_share_token prune share_expired drop_share find? reserve_download
begin_download token now later written written' s =
    let pruned = prune now s in
    if not (valid_share_token token)
    then (s, some share_not_found)
    else elim (find? (has_token token) pruned.shares) [
      | none ↦ (pruned, some share_not_found)
      | some sh ↦
          if share_is_drop sh
          then (pruned, some not_download)
          else if share_expired later sh || spent sh.max_downloads sh.download_count
          then (drop_share token written pruned, some share_expired_now)
          else reserve_download token sh written written' pruned
    ]

unfoldable pub revoke : Text → Bool → ShareStore → ShareStore × Bool
unfolding drop_share find?
revoke token written s =
    if is_some (find? (has_token token) s.shares)
    then (drop_share token written s, true)
    else (s, false)

abbrev pub at_or_under : Text → Text → Bool
at_or_under rel path = text_eq path rel || has_prefix path (rel ++ codes "/")

unfoldable pub remove_by_path_prefix : Text → Bool → ShareStore → ShareStore
unfolding keep save_shares
remove_by_path_prefix rel written s =
    let kept = keep (λ sh. not (at_or_under (trim_slashes rel) sh.path)) s.shares in
    if length kept == length s.shares
    then s
    else (save_shares written (record s { shares = kept })).0

abbrev pub moved : Text → Text → Share → Share
moved old new sh =
    if text_eq sh.path old
    then record sh { path = new; name = base new }
    else if has_prefix sh.path (old ++ codes "/")
    then record sh {
      path = new ++ drop (length old) sh.path;
      name = base (new ++ drop (length old) sh.path);
    }
    else sh

unfoldable pub rewrite_path_prefix : Text → Text → Bool → ShareStore → ShareStore
unfolding find? save_shares
rewrite_path_prefix old_rel new_rel written s =
    let old = trim_slashes old_rel in
    let new = trim_slashes new_rel in
    if is_some (find? (λ sh. at_or_under old sh.path) s.shares)
    then (save_shares written (record s { shares = map (moved old new) s.shares })).0
    else s

abbrev pub count_upload : Share → Share
count_upload sh = record sh { upload_count = sh.upload_count + 1 }

unfoldable pub begin_upload : Text → ℕ → ℕ → Bool → ShareStore → ShareStore × Option ShareError
unfolding valid_share_token prune share_expired drop_share find? modify_first save_shares
begin_upload token now later written s =
    let pruned = prune now s in
    if not (valid_share_token token)
    then (s, some share_not_found)
    else elim (find? (has_token token) pruned.shares) [
      | none ↦ (pruned, some share_not_found)
      | some sh ↦
          if not (share_is_drop sh)
          then (pruned, some not_drop)
          else if share_expired later sh || spent sh.max_uploads sh.upload_count
          then (drop_share token written pruned, some share_expired_now)
          else save_shares written
              (record pruned { shares = modify_first (has_token token) count_upload pruned.shares })
    ]

abbrev pub uncount_upload : Share → Share
uncount_upload sh = record sh { upload_count = sh.upload_count - 1 }

unfoldable pub undo_upload : Text → Bool → ShareStore → ShareStore
unfolding valid_share_token find? modify_first save_shares
undo_upload token written s =
    if not (valid_share_token token) then s else elim (find? (has_token token) s.shares) [
      | none ↦ s
      | some sh ↦
          if ltb 0 sh.upload_count
          then (save_shares written
              (record s { shares = modify_first (has_token token) uncount_upload s.shares })).0
          else s
    ]
