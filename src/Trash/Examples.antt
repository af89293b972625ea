-- ===== src/Trash/Examples.antt =====
-- Moves to the trash and back, in a storage folder without links.
use dingbap.Paths.Names.{is_trash_path, base}
use dingbap.Shares.{valid_share_token}
use dingbap.Text.{codes, Text, text_eq, trim, contains_byte}
use dingbap.Base.{
  ◌∷◌, [], ◌≡◌, none, some, true, false, List, ℕ, refl, zero, suc, find?, keep, remove_first,
}
use dingbap.Trash.{
  TrashItem, TrashStore, Disk, new_item, move_to_trash, restore, purge_expired, trash_found,
  put_in_trash, put_back, forget, save_trash, empty, without, valid_share_token, is_trash_path,
}
use dingbap.Trash.Kept.{Call, moves, restores, expires, run, AreFresh, IsSound, run-IsSound, apply}
use dingbap.Trash.Restored.{restore-move_to_trash}
use dingbap.Paths.{Storage, FileSystem, safe_path}
use dingbap.Paths

-- Names what the runs below compute with.
program : Unit {0}
unfolding run apply AreFresh move_to_trash trash_found put_in_trash restore put_back forget
    save_trash purge_expired empty without valid_share_token find? keep remove_first text_eq trim
    contains_byte is_trash_path safe_path base
program = tt

abbrev root : Paths.FilePath
root = codes "data" ∷ []

abbrev plain_files : FileSystem
plain_files = record {
  abs = λ dir. some root;
  eval_symlinks = λ path. some path;
  lstat = λ path. Paths.plain;
  stat = λ path. Paths.folder;
}

abbrev storage : Storage
storage = record { fs = plain_files; path_root = none; root_dir = codes "." }

abbrev zeros : ℕ → Text
zeros zero = []
zeros (suc n) = b'0' ∷ zeros n

abbrev id : Text
id = b'a' ∷ zeros 63

abbrev disk : Disk
disk = record {
  at = 1000;
  token = some id;
  found = Paths.file 12;
  tree_size = 0;
  made_dir = true;
  renamed = true;
  renamed_back = true;
  written = true;
  removes = λ n. true;
}

abbrev free : Disk
free = record disk { found = Paths.absent; at = 2000 }

abbrev old_item : TrashItem
old_item =
    new_item (b'b' ∷ zeros 63) (codes "x/old.txt") (codes "ann") (record disk { at = 5 }) false 3

abbrev start : TrashStore
start = record { items = old_item ∷ []; file = old_item ∷ []; stored = old_item.id ∷ [] }

start-IsSound : IsSound start
unfolding program
start-IsSound = record { distinct = (refl, tt); stored = (refl, tt) }

abbrev history : List Call
history =
    moves storage (codes "/docs/a.txt") (codes "ann") disk
    ∷ expires 900 disk
    ∷ restores storage id free
    ∷ []

history_empties : (run start history).items ≡ []
unfolding program
history_empties = refl

run-IsSound_example : IsSound (run start history)
unfolding program
run-IsSound_example = run-IsSound start history (refl, (tt, (tt, tt))) start-IsSound

restore-move_to_trash_example :
    let after =
      restore storage id free
        (move_to_trash storage (codes "/docs/a.txt") (codes "ann") disk start).0 in
    (after.1 ≡ none) × (after.2 ≡ codes "docs/a.txt") × (after.0.items ≡ old_item ∷ [])
unfolding program
restore-move_to_trash_example =
    restore-move_to_trash storage (codes "/docs/a.txt") (codes "ann") id disk free start refl refl
      refl refl (refl, refl, refl, refl)
