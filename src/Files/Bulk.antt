-- ===== src/Files/Bulk.antt =====
-- The handlers of bulk.go that trash and move many paths. Each path is handled in the file system as
-- it stands then: `world` gives it, with the answers of the operating system.
use dingbap.Web.{Request, has_method}
use dingbap.Trash.{TrashStore, TrashError, move_to_trash}
use dingbap.Paths.Names.{unique_non_empty_paths, is_trash_path}
use dingbap.Cache.{invalidate}
use dingbap.Shares.{rewrite_path_prefix, remove_by_path_prefix}
use dingbap.Text.{Text, trim, trim_slashes, codes}
use dingbap.Files.Changes.{Files, Action, System, Handled, renames, reports, rejected, trash_acts}
use dingbap.Paths.{file, safe_path, Storage, FilePath}
use dingbap.Base.{
  ◌∷◌, [], ◌++◌, ◌+◌, ◌||◌, if◌then◌else◌, inl, inr, none, some, Bool, List, Option, ℕ, not,
  is_empty, ltb, length,
}
use dingbap.Files.{
  Plan, Rename, safe_path, Text, trim, is_trash_path, Storage, plan_into, FilePath, trim_slashes,
  codes, is_dir,
}
use dingbap.Paths

abbrev pub max_paths : ℕ
max_paths = 500

-- What the loop has done: the files, the changes, the number of paths moved, and those that failed.
pub record Progress {ℓ} (A : Type ℓ) : Type ℓ where
  pub files : Files A
  pub acts : List Action
  pub moved : ℕ
  pub failed : List Text

unfoldable pub plan_bulk_move : Storage → Text → FilePath → Text → Plan Rename
unfolding safe_path is_trash_path plan_into
plan_bulk_move st dest_dir dest_abs rel =
    if is_empty rel || is_trash_path rel then inr 400 else elim (safe_path st rel) [
      | Paths.err e ↦ inr 400
      | Paths.ok src_abs ↦ plan_into st dest_dir dest_abs src_abs
    ]

module _ {ℓ} {A : Type ℓ} where
  abbrev pub fail_path : Text → Progress A → Progress A
  fail_path rel p = record p { failed = p.failed ++ (rel ∷ []) }

  unfoldable pub move_one : System → Text → Plan Rename → Progress A → Progress A
  unfolding rewrite_path_prefix
  move_one sys rel (inr code) p = fail_path rel p
  move_one sys rel (inl r) p =
      if sys.did
      then record p {
        files = record p.files {
          shares = rewrite_path_prefix rel r.to_rel sys.shares_written p.files.shares;
        };
        acts = p.acts ++ (renames r.from r.to ∷ []);
        moved = p.moved + 1;
      }
      else fail_path rel p

  unfoldable pub move_each :
      (Text → Storage × System) → Text → FilePath → List Text → Progress A → Progress A
  unfolding trim plan_bulk_move move_one
  move_each world dest_dir dest_abs [] p = p
  move_each world dest_dir dest_abs (path ∷ paths) p =
      let rel = trim_slashes path in
      let (st, sys) = world path in
      move_each world dest_dir dest_abs paths
        (move_one sys rel (plan_bulk_move st dest_dir dest_abs rel) p)

  unfoldable pub trash_one :
      Storage → Text → Bool → TrashStore × Option TrashError → Progress A → Progress A
  unfolding remove_by_path_prefix trash_acts
  trash_one st rel written (t, some e) p = fail_path rel (record p {
    files = record p.files { trash = t };
    acts = p.acts ++ trash_acts st rel p.files.trash t;
  })
  trash_one st rel written (t, none) p = record p {
    acts = p.acts ++ trash_acts st rel p.files.trash t;
    files = record p.files { trash = t; shares = remove_by_path_prefix rel written p.files.shares };
    moved = p.moved + 1;
  }

  unfoldable pub trash_each : (Text → Storage × System) → Text → List Text → Progress A → Progress A
  unfolding trim is_trash_path move_to_trash trash_one
  trash_each world deleted_by [] p = p
  trash_each world deleted_by (path ∷ paths) p =
      let rel = trim_slashes path in
      let (st, sys) = world path in
      trash_each world deleted_by paths (
        if is_empty rel || is_trash_path rel
        then fail_path rel p
        else trash_one st rel sys.shares_written
            (move_to_trash st rel deleted_by sys.disk p.files.trash) p)

  abbrev pub started : Files A → Progress A
  started f = record { files = f; acts = []; moved = 0; failed = [] }

  -- The cache is emptied at the end, whatever was moved.
  unfoldable pub finish : Progress A → Handled A
  unfolding invalidate
  finish p = record {
    files = record p.files { cache = invalidate p.files.cache };
    acts = p.acts;
    reply = reports p.moved p.failed;
  }

  -- The paths of a request, where there are some and not too many.
  unfoldable pub handle_bulk_delete :
      (Text → Storage × System) → Request → Text → Option (List Text × Bool) → Files A → Handled A
  unfolding unique_non_empty_paths trash_each finish
  handle_bulk_delete world r deleted_by body f =
      if not (has_method (codes "POST") r) then rejected 405 f else elim body [
        | none ↦ rejected 400 f
        | some b ↦
            let paths = unique_non_empty_paths b.0 in
            if not b.1 || (is_empty paths || ltb max_paths (length paths))
            then rejected 400 f
            else finish (trash_each world deleted_by paths (started f))
      ]

  -- `st` is the file system at the start of the request.
  unfoldable pub handle_bulk_move :
      Storage
      → (Text → Storage × System)
      → Request
      → Option (List Text × Text)
      → Files A
      → Handled A
  unfolding unique_non_empty_paths is_trash_path safe_path move_each finish
  handle_bulk_move st world r body f =
      if not (has_method (codes "POST") r) then rejected 405 f else elim body [
        | none ↦ rejected 400 f
        | some b ↦
            let paths = unique_non_empty_paths b.0 in
            if is_empty paths || (ltb max_paths (length paths) || is_trash_path b.1)
            then rejected 400 f
            else elim (safe_path st b.1) [
              | Paths.err e ↦ rejected 400 f
              | Paths.ok dest_abs ↦
                  if is_dir (st.fs.stat dest_abs)
                  then finish (move_each world b.1 dest_abs paths (started f))
                  else rejected 400 f
            ]
      ]
