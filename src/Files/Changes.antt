-- ===== src/Files/Changes.antt =====
-- The handlers of handlers.go that change files: the change of the file system, the shares that
-- follow it, the trash, and the cache of listings.
use dingbap.Paths
use dingbap.Web.{Request, has_method}
use dingbap.Cache.{invalidate, ListingCache}
use dingbap.Trash.{Disk, move_to_trash, TrashStore, TrashError}
use dingbap.Text.{Text, trim, codes, trim_slashes}
use dingbap.Paths.{FilePath, Storage, PathResult, safe_path}
use dingbap.Shares.{ShareStore, rewrite_path_prefix, remove_by_path_prefix}
use dingbap.Base.{
  ◌∷◌, [], ◌+◌, if◌then◌else◌, inl, inr, none, some, Bool, List, Option, ℕ, not, ltb, length, take,
}
use dingbap.Files.{
  Plan, FilePath, Text, plan_mkdir, plan_rename, plan_move, plan_delete, plan_upload, Rename,
  Storage, trim, codes, trim_slashes, safe_path,
}

-- The state that the handlers share; `A` is the type of a listing.
pub record Files {ℓ} (A : Type ℓ) : Type ℓ where
  pub shares : ShareStore
  pub trash : TrashStore
  pub cache : ListingCache A

-- A change of the file system below the root that stays; `trashes` is a rename into `.trash/items`.
pub data Action : Type 0 where
  makes_folder : FilePath → Action
  makes_file : FilePath → Text → Action
  renames : FilePath → FilePath → Action
  trashes : FilePath → Action

-- The status code of a refusal, or the name that a success reports.
pub data FileReply : Type 0 where
  rejects : ℕ → FileReply
  accepts : Text → FileReply
  reports : ℕ → List Text → FileReply

pub record Handled {ℓ} (A : Type ℓ) : Type ℓ where
  pub files : Files A
  pub acts : List Action
  pub reply : FileReply

-- What the operating system answers during a request: `did` is whether the change succeeds, `exists`
-- whether a file appeared in the meantime, `taken` how much a copy that fails has written, `removed`
-- whether the file of a failed upload is removed.
pub record System : Type 0 where
  pub did : Bool
  pub exists : Bool
  pub copied : Bool
  pub taken : ℕ
  pub removed : Bool
  pub shares_written : Bool
  pub disk : Disk

abbrev pub trash_source : PathResult → List Action
trash_source (Paths.err e) = []
trash_source (Paths.ok src) = trashes src ∷ []

-- The rename of `moveToTrash`: it stays where more lies in the trash than before.
unfoldable pub trash_acts : Storage → Text → TrashStore → TrashStore → List Action
unfolding safe_path trim
trash_acts st rel before after =
    if ltb (length before.stored) (length after.stored)
    then trash_source (safe_path st (trim_slashes rel))
    else []

module _ {ℓ} {A : Type ℓ} where
  abbrev pub rejected : ℕ → Files A → Handled A
  rejected code f = record { files = f; acts = []; reply = rejects code }

  -- After a change: `invalidateListingCache`.
  unfoldable pub changed : List Action → Text → Files A → Handled A
  unfolding invalidate
  changed acts name f = record {
    files = record f { cache = invalidate f.cache };
    acts = acts;
    reply = accepts name;
  }

  unfoldable pub make_folder : System → Plan (FilePath × Text) → Files A → Handled A
  unfolding changed
  make_folder sys (inr code) f = rejected code f
  make_folder sys (inl (path, name)) f =
      if sys.did then changed (makes_folder path ∷ []) name f else rejected 500 f

  unfoldable pub rename_to : System → Text → Plan Rename → Files A → Handled A
  unfolding changed rewrite_path_prefix
  rename_to sys old_rel (inr code) f = rejected code f
  rename_to sys old_rel (inl r) f =
      if sys.did
      then changed (renames r.from r.to ∷ []) r.to_rel
          (record f { shares = rewrite_path_prefix old_rel r.to_rel sys.shares_written f.shares })
      else rejected 500 f

  -- The shares of a trashed path go.
  unfoldable pub after_trash :
      Storage → Bool → Text → TrashStore × Option TrashError → Files A → Handled A
  unfolding changed remove_by_path_prefix trash_acts
  after_trash st written rel (t, some e) f = record {
    files = record f { trash = t };
    acts = trash_acts st rel f.trash t;
    reply = rejects 500;
  }
  after_trash st written rel (t, none) f =
      changed (trash_acts st rel f.trash t) rel
        (record f { trash = t; shares = remove_by_path_prefix rel written f.shares })

  unfoldable pub trash_it : Storage → System → Text → Plan Text → Files A → Handled A
  unfolding move_to_trash after_trash
  trash_it st sys deleted_by (inr code) f = rejected code f
  trash_it st sys deleted_by (inl rel) f =
      after_trash st sys.shares_written rel (move_to_trash st rel deleted_by sys.disk f.trash) f

  -- The file of a failed upload is removed, where `os.Remove` does so.
  abbrev pub removed_again : ℕ → System → FilePath → Text → Files A → Handled A
  removed_again code sys dest bytes f = record {
    files = f;
    acts = if sys.removed then [] else makes_file dest bytes ∷ [];
    reply = rejects code;
  }

  -- The bytes are written up to one more than the bound; a file that is too large goes again.
  unfoldable pub write_upload : ℕ → System → Text → Plan (FilePath × Text) → Files A → Handled A
  unfolding changed
  write_upload max_bytes sys bytes (inr code) f = rejected code f
  write_upload max_bytes sys bytes (inl (dest, name)) f =
      if sys.exists
      then rejected 409 f
      else if not sys.did
      then rejected 500 f
      else if not sys.copied
      then removed_again 500 sys dest (take sys.taken bytes) f
      else if ltb max_bytes (length (take (max_bytes + 1) bytes))
      then removed_again 413 sys dest (take (max_bytes + 1) bytes) f
      else changed (makes_file dest (take (max_bytes + 1) bytes) ∷ []) name f

  -- A body that cannot be decoded is a bad request.
  unfoldable pub handle_mkdir :
      Storage → System → Request → Option (Text × Text) → Files A → Handled A
  unfolding plan_mkdir make_folder
  handle_mkdir st sys r body f =
      if not (has_method (codes "POST") r)
      then rejected 405 f
      else elim body [ none ↦ rejected 400 f | some b ↦ make_folder sys (plan_mkdir st b.0 b.1) f ]

  unfoldable pub handle_rename :
      Storage → System → Request → Option (Text × Text) → Files A → Handled A
  unfolding plan_rename rename_to trim
  handle_rename st sys r body f =
      if not (has_method (codes "POST") r) then rejected 405 f else elim body [
        | none ↦ rejected 400 f
        | some b ↦ rename_to sys (trim_slashes b.0) (plan_rename st b.0 b.1) f
      ]

  unfoldable pub handle_move :
      Storage → System → Request → Option (Text × Text) → Files A → Handled A
  unfolding plan_move rename_to trim
  handle_move st sys r body f =
      if not (has_method (codes "POST") r) then rejected 405 f else elim body [
        | none ↦ rejected 400 f
        | some b ↦ rename_to sys (trim_slashes b.0) (plan_move st b.0 b.1) f
      ]

  unfoldable pub handle_delete :
      Storage → System → Request → Text → Option (Text × Bool × Text) → Files A → Handled A
  unfolding plan_delete trash_it
  handle_delete st sys r deleted_by body f =
      if not (has_method (codes "POST") r) then rejected 405 f else elim body [
        | none ↦ rejected 400 f
        | some b ↦ trash_it st sys deleted_by (plan_delete st b.0 b.1 b.2) f
      ]

-- A form of an upload: too large, unreadable, or a folder with a file or without.
pub data Form : Type 0 where
  form_too_large form_unreadable : Form
  fields : Text → Option (Text × Text) → Form

abbrev pub name_of : Option (Text × Text) → Option Text
name_of none = none
name_of (some file) = some file.0

abbrev pub bytes_of : Option (Text × Text) → Text
bytes_of none = []
bytes_of (some file) = file.1

module _ {ℓ} {A : Type ℓ} where
  unfoldable pub handle_upload : Storage → ℕ → System → Request → Form → Files A → Handled A
  unfolding plan_upload write_upload
  handle_upload st max_bytes sys r form f =
      if not (has_method (codes "POST") r) then rejected 405 f else elim form [
        | form_too_large ↦ rejected 413 f
        | form_unreadable ↦ rejected 400 f
        | fields dir part ↦
            write_upload max_bytes sys (bytes_of part) (plan_upload st dir (name_of part)) f
      ]
