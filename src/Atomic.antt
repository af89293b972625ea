-- ===== src/Atomic.antt =====
-- `writeFileAtomic` (atomic.go): the states that the directory goes through while a file is written.
pub mod Laws
mod Examples
use dingbap.Base.{
  ◌∷◌, [], ◌||◌, if◌then◌else◌, none, some, true, false, Bool, List, Option, ℕ, not, take, ◌&&◌,
}
use dingbap.Text.{Text}

-- A file, and whether its content would outlive a power loss.
pub record StoredFile : Type 0 where
  pub content : Text
  pub durable : Bool

-- `replaced` is the file that a power loss may bring back, because the rename over it is not synced.
pub record Directory : Type 0 where
  pub target : Option StoredFile
  pub temp : Option StoredFile
  pub replaced : Option (Option StoredFile)

-- The answers of the operating system; `taken` is how much of the data a write that fails has put
-- into the file.
pub record Answers : Type 0 where
  pub made_dir : Bool
  pub opened : Bool
  pub taken : ℕ
  pub wrote : Bool
  pub synced : Bool
  pub closed : Bool
  pub renamed : Bool
  pub removed : Bool
  pub dir_opened : Bool
  pub dir_synced : Bool

abbrev pub with_temp : Text → Bool → Directory → Directory
with_temp content durable d = record d {
  temp = some (record { content = content; durable = durable });
}

-- `os.Remove(tmp)`
abbrev pub remove_temp : Answers → Directory → Directory
remove_temp a d = if a.removed then record d { temp = none } else d

-- `os.Rename(tmp, path)`
abbrev pub rename_temp : Directory → Directory
rename_temp d = record { target = d.temp; temp = none; replaced = some d.target }

-- `d.Sync()` of the directory, where it can be opened; its errors are ignored.
abbrev pub sync_dir : Answers → Directory → Directory
sync_dir a d = if a.dir_opened && a.dir_synced then record d { replaced = none } else d

-- The states in order, and whether the reply is no error.
unfoldable pub write_file_atomic : Answers → Text → Directory → List Directory × Bool
write_file_atomic a bytes d =
    let empty = with_temp [] false d in
    let part = with_temp (take a.taken bytes) false d in
    let full = with_temp bytes false d in
    let safe = with_temp bytes true d in
    if not a.made_dir || not a.opened
    then (d ∷ [], false)
    else if not a.wrote
    then (d ∷ empty ∷ part ∷ remove_temp a part ∷ [], false)
    else if not a.synced
    then (d ∷ empty ∷ full ∷ remove_temp a full ∷ [], false)
    else if not a.closed || not a.renamed
    then (d ∷ empty ∷ full ∷ safe ∷ remove_temp a safe ∷ [], false)
    else (d ∷ empty ∷ full ∷ safe ∷ rename_temp safe ∷ sync_dir a (rename_temp safe) ∷ [], true)
