-- ===== src/Files/Refused.antt =====
-- A refused request changes nothing, and after a change no listing from before is answered.
use dingbap.Trash.Undone.{move_to_trash-Undone}
use dingbap.Shares.{remove_by_path_prefix, rewrite_path_prefix}
use dingbap.Web.{Request}
use dingbap.Trash.{TrashStore, move_to_trash, TrashError}
use dingbap.Paths.{Storage, FilePath}
use dingbap.Text.{Text, trim_slashes}
use dingbap.Cache.{invalidate}
use dingbap.Files.Requests.{handle, Change, mkdirs, renames_one, moves_one, deletes, uploads}
use dingbap.Base.{
  [], ◌+◌, ◌≡◌, inl, inr, none, some, Bool, List, Option, ℕ, refl, arith, not, if_both, ltb, length,
  take, ◌∷◌, true, false,
}
use dingbap.Files.{
  Plan, Rename, Text, Storage, FilePath, plan_mkdir, trim_slashes, plan_rename, plan_move,
  plan_delete, plan_upload,
}
use dingbap.Files.Changes.{
  form_too_large, form_unreadable, fields, rejects, accepts, Files, changed, make_folder, rename_to,
  after_trash, trash_it, write_upload, Handled, rejected, System, handle_mkdir, Action,
  handle_rename, handle_move, handle_delete, handle_upload, bytes_of, name_of, renames, trash_acts,
  removed_again,
}

-- A refusal makes no change and leaves the shares and the listings; an accepted request leaves no
-- listing in the cache.
abbrev pub LeavesClean {ℓ} : {A : Type ℓ} → Files A → Handled A → Type ℓ
LeavesClean {A = A} f h =
    ((code : ℕ)
      → h.reply ≡ rejects code
      → (h.acts ≡ []) × (h.files.shares ≡ f.shares) × (h.files.cache ≡ f.cache))
    × ((name : Text) → h.reply ≡ accepts name → h.files.cache.lru ≡ [])

module _ {ℓ} {A : Type ℓ} where
  rejected-LeavesClean : (code : ℕ) (f : Files A) → LeavesClean f (rejected code f)
  rejected-LeavesClean code f = ((λ c e. (refl, refl, refl)), λ name e. ground arith)

  changed-LeavesClean :
      (acts : List Action) (name : Text) (f g : Files A) → LeavesClean f (changed acts name g)
  unfolding changed invalidate
  changed-LeavesClean acts name f g = ((λ c e. ground arith), λ n e. refl)

  make_folder-LeavesClean :
      (sys : System) (p : Plan (FilePath × Text)) (f : Files A)
      → LeavesClean f (make_folder sys p f)
  unfolding make_folder
  make_folder-LeavesClean sys (inr code) f = rejected-LeavesClean code f
  make_folder-LeavesClean sys (inl (path, name)) f =
      if_both (LeavesClean f) sys.did (changed-LeavesClean _ name f f) (rejected-LeavesClean 500 f)

  rename_to-LeavesClean :
      (sys : System) (rel : Text) (p : Plan Rename) (f : Files A)
      → LeavesClean f (rename_to sys rel p f)
  unfolding rename_to
  rename_to-LeavesClean sys rel (inr code) f = rejected-LeavesClean code f
  rename_to-LeavesClean sys rel (inl q) f =
      if_both (LeavesClean f) sys.did
        (changed-LeavesClean (renames q.from q.to ∷ []) q.to_rel f
          (record f { shares = rewrite_path_prefix rel q.to_rel sys.shares_written f.shares }))
        (rejected-LeavesClean 500 f)

  after_trash-LeavesClean :
      (st : Storage) (w : Bool) (rel : Text) (t : TrashStore) (e : Option TrashError) (f : Files A)
      → ((x : TrashError) → e ≡ some x → ltb (length f.trash.stored) (length t.stored) ≡ false)
      → LeavesClean f (after_trash st w rel (t, e) f)
  unfolding after_trash trash_acts
  after_trash-LeavesClean st w rel t none f u =
      changed-LeavesClean (trash_acts st rel f.trash t) rel f
        (record f { trash = t; shares = remove_by_path_prefix rel w f.shares })
  after_trash-LeavesClean st w rel t (some e) f u =
      ((λ c k. (rw (u e refl) refl, refl, refl)), λ name k. ground arith)

  trash_it-LeavesClean :
      (st : Storage) (sys : System) (who : Text) (p : Plan Text) (f : Files A)
      → sys.disk.renamed_back ≡ true
      → LeavesClean f (trash_it st sys who p f)
  unfolding trash_it
  trash_it-LeavesClean st sys who (inr code) f b = rejected-LeavesClean code f
  trash_it-LeavesClean st sys who (inl rel) f b =
      let (t, e) = move_to_trash st rel who sys.disk f.trash in
      after_trash-LeavesClean st sys.shares_written rel t e f
        (move_to_trash-Undone st rel who sys.disk f.trash b)

  removed_again-LeavesClean :
      (code : ℕ) (sys : System) (dest : FilePath) (bytes : Text) (f : Files A)
      → sys.removed ≡ true
      → LeavesClean f (removed_again code sys dest bytes f)
  removed_again-LeavesClean code sys dest bytes f d =
      ((λ c e. (rw d refl, refl, refl)), λ name e. ground arith)

  write_upload-LeavesClean :
      (max : ℕ) (sys : System) (bytes : Text) (p : Plan (FilePath × Text)) (f : Files A)
      → sys.removed ≡ true
      → LeavesClean f (write_upload max sys bytes p f)
  unfolding write_upload
  write_upload-LeavesClean max sys bytes (inr code) f d = rejected-LeavesClean code f
  write_upload-LeavesClean max sys bytes (inl (path, name)) f d =
      let content = take (max + 1) bytes in
      if_both (LeavesClean f) sys.exists (rejected-LeavesClean 409 f) (
        if_both (LeavesClean f) (not sys.did) (rejected-LeavesClean 500 f) (
          if_both (LeavesClean f) (not sys.copied)
            (removed_again-LeavesClean 500 sys path (take sys.taken bytes) f d)
            (if_both (LeavesClean f) (ltb max (length content))
              (removed_again-LeavesClean 413 sys path content f d)
              (changed-LeavesClean _ name f f))))

  -- A request to make a folder, rename, move, delete or upload that is refused, or that fails, leaves
  -- the files, the shares and the cached listings as they were, and one that is accepted leaves no
  -- listing in the cache. It holds where the operating system lets the program clean up: where the
  -- rename back out of the trash succeeds after a list of the trash that cannot be saved, and the file
  -- of an upload that fails can be removed.
  pub handle-LeavesClean :
      (st : Storage) (max : ℕ) (sys : System) (req : Request) (who : Text) (c : Change)
      (f : Files A)
      → sys.disk.renamed_back ≡ true
      → sys.removed ≡ true
      → LeavesClean f (handle st max sys req who c f)
  unfolding handle handle_mkdir handle_rename handle_move handle_delete handle_upload
  handle-LeavesClean st max sys req who (mkdirs none) f back gone =
      if_both (LeavesClean f) _ (rejected-LeavesClean 405 f) (rejected-LeavesClean 400 f)
  handle-LeavesClean st max sys req who (mkdirs (some b)) f back gone =
      if_both (LeavesClean f) _ (rejected-LeavesClean 405 f)
        (make_folder-LeavesClean sys (plan_mkdir st b.0 b.1) f)
  handle-LeavesClean st max sys req who (renames_one none) f back gone =
      if_both (LeavesClean f) _ (rejected-LeavesClean 405 f) (rejected-LeavesClean 400 f)
  handle-LeavesClean st max sys req who (renames_one (some b)) f back gone =
      if_both (LeavesClean f) _ (rejected-LeavesClean 405 f)
        (rename_to-LeavesClean sys (trim_slashes b.0) (plan_rename st b.0 b.1) f)
  handle-LeavesClean st max sys req who (moves_one none) f back gone =
      if_both (LeavesClean f) _ (rejected-LeavesClean 405 f) (rejected-LeavesClean 400 f)
  handle-LeavesClean st max sys req who (moves_one (some b)) f back gone =
      if_both (LeavesClean f) _ (rejected-LeavesClean 405 f)
        (rename_to-LeavesClean sys (trim_slashes b.0) (plan_move st b.0 b.1) f)
  handle-LeavesClean st max sys req who (deletes none) f back gone =
      if_both (LeavesClean f) _ (rejected-LeavesClean 405 f) (rejected-LeavesClean 400 f)
  handle-LeavesClean st max sys req who (deletes (some b)) f back gone =
      if_both (LeavesClean f) _ (rejected-LeavesClean 405 f)
        (trash_it-LeavesClean st sys who (plan_delete st b.0 b.1 b.2) f back)
  handle-LeavesClean st max sys req who (uploads form_too_large) f back gone =
      if_both (LeavesClean f) _ (rejected-LeavesClean 405 f) (rejected-LeavesClean 413 f)
  handle-LeavesClean st max sys req who (uploads form_unreadable) f back gone =
      if_both (LeavesClean f) _ (rejected-LeavesClean 405 f) (rejected-LeavesClean 400 f)
  handle-LeavesClean st max sys req who (uploads (fields dir part)) f back gone =
      if_both (LeavesClean f) _ (rejected-LeavesClean 405 f) (
        write_upload-LeavesClean max sys (bytes_of part) (plan_upload st dir (name_of part)) f gone)
