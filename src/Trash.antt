-- ===== src/Trash.antt =====
-- The trash (trash.go): the items in memory, the content of `trash_info.json`, and the names that lie
-- in `.trash/items`. The answers of the operating system are arguments.
pub mod Laws
pub mod Kept
pub mod Restored
pub mod Undone
mod Examples
use dingbap.Base.{
  ◌∷◌, [], ◌++◌, ◌+◌, ◌&&◌, ◌||◌, if◌then◌else◌, none, some, true, false, Bool, List, Option, ℕ,
  not, keep, is_empty, remove_first, find?, ltb, is_some, length,
}
use dingbap.Text.{Text, codes, text_eq, trim_slashes}
use dingbap.Paths.{Storage, safe_path, Stat}
use dingbap.Paths.Names.{base, is_trash_path}
use dingbap.Shares.{valid_share_token}
use dingbap.Paths

pub record TrashItem : Type 0 where
  pub id : Text
  pub original_path : Text
  pub name : Text
  pub is_dir : Bool
  pub deleted_at : ℕ
  pub deleted_by : Text
  pub size : ℕ

pub record TrashStore : Type 0 where
  pub items : List TrashItem
  pub file : List TrashItem
  pub stored : List Text

pub data TrashError : Type 0 where
  cannot_trash invalid_path stat_failed token_failed mkdir_failed rename_failed : TrashError
  save_failed invalid_id not_found missing_on_disk invalid_original occupied : TrashError

-- What the operating system answers during a call: `at` is the clock, `token` the random name,
-- `found` what `os.Stat` says of the path, `tree_size` the size of a folder, `removes` which names
-- `os.RemoveAll` gets rid of.
pub record Disk : Type 0 where
  pub at : ℕ
  pub token : Option Text
  pub found : Stat
  pub tree_size : ℕ
  pub made_dir : Bool
  pub renamed : Bool
  pub renamed_back : Bool
  pub written : Bool
  pub removes : Text → Bool

abbrev pub has_id : Text → TrashItem → Bool
has_id id item = text_eq item.id id

unfoldable pub save_trash : Bool → TrashStore → TrashStore × Option TrashError
save_trash written s =
    if written then (record s { file = s.items }, none) else (s, some save_failed)

-- Takes a name out of `.trash/items`.
unfoldable pub without : Text → List Text → List Text
without id names = keep (λ n. not (text_eq n id)) names

abbrev pub new_item : Text → Text → Text → Disk → Bool → ℕ → TrashItem
new_item id rel deleted_by d is_dir size = record {
  id = id;
  original_path = rel;
  name = base rel;
  is_dir = is_dir;
  deleted_at = d.at;
  deleted_by = deleted_by;
  size = size;
}

-- The locked part of `moveToTrash`, with the rollback.
unfoldable pub put_in_trash : TrashItem → Disk → TrashStore → TrashStore × Option TrashError
unfolding without
put_in_trash item d s =
    if not d.renamed
    then (s, some rename_failed)
    else if d.written
    then (
      record {
        items = s.items ++ (item ∷ []);
        file = s.items ++ (item ∷ []);
        stored = item.id ∷ s.stored;
      },
      none,
    )
    else (
      record s {
        stored =
            if d.renamed_back then without item.id (item.id ∷ s.stored) else item.id ∷ s.stored;
      },
      some save_failed,
    )

-- Whether `os.Stat` finds a folder, and its size or that of the file.
abbrev pub found_size : Disk → Stat → Option (Bool × ℕ)
found_size d Paths.absent = none
found_size d Paths.broken = none
found_size d Paths.folder = some (true, d.tree_size)
found_size d (Paths.file n) = some (false, n)

unfoldable pub trash_found : Text → Text → Disk → TrashStore → TrashStore × Option TrashError
unfolding put_in_trash
trash_found rel deleted_by d s = elim (found_size d d.found) [
  | none ↦ (s, some stat_failed)
  | some f ↦ elim d.token [
    | none ↦ (s, some token_failed)
    | some id ↦
        if d.made_dir
        then put_in_trash (new_item id rel deleted_by d f.0 f.1) d s
        else (s, some mkdir_failed)
  ]
]

unfoldable pub move_to_trash :
    Storage → Text → Text → Disk → TrashStore → TrashStore × Option TrashError
unfolding safe_path trash_found is_trash_path
move_to_trash st rel deleted_by d s =
    let path = trim_slashes rel in
    if is_empty path || is_trash_path path
    then (s, some cannot_trash)
    else elim (safe_path st path) [
      | Paths.err e ↦ (s, some invalid_path)
      | Paths.ok src ↦ trash_found path deleted_by d s
    ]

-- The item goes from the list, and the list is saved.
unfoldable pub forget : Text → Disk → TrashStore → TrashStore × Option TrashError
unfolding save_trash remove_first
forget id d s = save_trash d.written (record s { items = remove_first (has_id id) s.items })

-- The part of `restore` after the path of the item is resolved.
unfoldable pub put_back : Text → Disk → TrashStore → TrashStore × Option TrashError
unfolding forget without
put_back id d s = if not d.made_dir then (s, some mkdir_failed) else elim d.found [
  | Paths.folder ↦ (s, some occupied)
  | Paths.file n ↦ (s, some occupied)
  | Paths.broken ↦ (s, some stat_failed)
  | Paths.absent ↦
      if d.renamed
      then forget id d (record s { stored = without id s.stored })
      else (s, some rename_failed)
]

abbrev pub path_if_none : Option TrashError → Text → Text
path_if_none none path = path
path_if_none (some e) path = []

-- The last component is the path restored.
unfoldable pub restore : Storage → Text → Disk → TrashStore → TrashStore × Option TrashError × Text
unfolding valid_share_token find? forget put_back safe_path is_trash_path
restore st id d s =
    if not (valid_share_token id)
    then (s, some invalid_id, [])
    else elim (find? (has_id id) s.items) [
      | none ↦ (s, some not_found, [])
      | some item ↦
          if not (is_some (find? (λ n. text_eq n id) s.stored))
          then ((forget id d s).0, some missing_on_disk, [])
          else elim (safe_path st item.original_path) [
            | Paths.err e ↦ (s, some invalid_original, [])
            | Paths.ok dest ↦
                if is_trash_path item.original_path
                then (s, some invalid_original, [])
                else let (s', e) = put_back id d s in (s', e, path_if_none e item.original_path)
          ]
    ]

-- `os.RemoveAll` of a name.
abbrev pub remove_all : Text → Disk → List Text → List Text
remove_all id d names = keep (λ n. not (text_eq n id && d.removes n)) names

unfoldable pub purge : Text → Disk → TrashStore → TrashStore × Option TrashError
unfolding valid_share_token find? forget
purge id d s =
    let removed = record s { stored = remove_all id d s.stored } in
    if not (valid_share_token id)
    then (s, some invalid_id)
    else if is_some (find? (has_id id) s.items)
    then forget id d removed
    else (removed, some not_found)

abbrev pub remove_each : List TrashItem → Disk → List Text → List Text
remove_each [] d names = names
remove_each (item ∷ items) d names = remove_each items d (remove_all item.id d names)

-- The number of items removed comes with the state.
unfoldable pub empty : Disk → TrashStore → TrashStore × Option TrashError × ℕ
unfolding save_trash
empty d s =
    let gone = record s { items = []; stored = remove_each s.items d s.stored } in
    let saved = (save_trash d.written gone).0 in
    if d.written
    then (
      record saved { stored = keep (λ n. not (d.removes n)) saved.stored },
      none,
      length s.items,
    )
    else (saved, some save_failed, 0)

abbrev pub before_cutoff : ℕ → ℕ → TrashItem → Bool
before_cutoff older_than now item = ltb (item.deleted_at + older_than) now

unfoldable pub purge_expired : ℕ → Disk → TrashStore → TrashStore × ℕ
unfolding keep save_trash
purge_expired older_than d s =
    let old = keep (before_cutoff older_than d.at) s.items in
    let kept = keep (λ item. not (before_cutoff older_than d.at item)) s.items in
    let swept = record s { items = kept; stored = remove_each old d s.stored } in
    if is_empty old then (s, 0) else ((save_trash d.written swept).0, length old)
