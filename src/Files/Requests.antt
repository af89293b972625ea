-- ===== src/Files/Requests.antt =====
-- The requests that change files, and what each does to the files under the root.
use dingbap.Files.Deleted.{trash_acts-IsConfined, plan_delete_cases}
use dingbap.Paths.Names.{is_trash_path}
use dingbap.Text.Laws.{trim_idem}
use dingbap.Text.{is_slash}
use dingbap.Files.Changes.{Action}
use dingbap.Paths.Names.{is_trash_path}
use dingbap.Web.{Request, has_method}
use dingbap.Trash.{TrashStore, TrashError, move_to_trash}
use dingbap.Paths.{FilePath, Storage, safe_path, ok}
use dingbap.Files.Changes.{
  form_too_large, form_unreadable, handle_mkdir, Form, handle_rename, handle_move, make_folder,
  rename_to, after_trash, trash_it, write_upload, handle_delete, changed, System, handle_upload,
  Files, Handled, fields, bytes_of, name_of, rejected, Action,
}
use dingbap.Text.{Text, trim_slashes, codes}
use dingbap.Base.{
  List, is_empty, ap, [], ◌≡◌, ◌≢◌, inl, inr, none, some, Bool, Option, ℕ, refl, arith, not, All,
  if_both, if◌then◌else◌, true, false, ◌∙◌, sym,
}
use dingbap.Files.{
  Plan, Rename, Text, FilePath, Storage, safe_path, plan_mkdir, trim_slashes, plan_rename,
  plan_move, plan_delete, plan_upload, codes, is_trash_path,
}
use dingbap.Files.Confined.{
  IsRooted, IsNewUnder, IsRename, IsConfined, mkdir-IsNewUnder, rename-IsRename, move-IsRename,
  upload-IsNewUnder,
}

-- A request with its decoded body.
pub data Change : Type 0 where
  mkdirs : Option (Text × Text) → Change
  renames_one moves_one : Option (Text × Text) → Change
  deletes : Option (Text × Bool × Text) → Change
  uploads : Form → Change

module _ {ℓ} {A : Type ℓ} where
  unfoldable pub handle : Storage → ℕ → System → Request → Text → Change → Files A → Handled A
  unfolding handle_mkdir handle_rename handle_move handle_delete handle_upload
  handle st max_bytes sys r who (mkdirs body) f = handle_mkdir st sys r body f
  handle st max_bytes sys r who (renames_one body) f = handle_rename st sys r body f
  handle st max_bytes sys r who (moves_one body) f = handle_move st sys r body f
  handle st max_bytes sys r who (deletes body) f = handle_delete st sys r who body f
  handle st max_bytes sys r who (uploads form) f = handle_upload st max_bytes sys r form f

-- A request to rename or delete does not name the root.
abbrev pub NotRoot : FilePath → Storage → Change → Type 0
NotRoot root st (renames_one (some b)) = safe_path st b.0 ≢ ok root
NotRoot root st (deletes (some b)) = safe_path st (trim_slashes b.0) ≢ ok root
NotRoot root st c = Unit

-- A request to delete that changes something was confirmed, and names neither the empty path nor the
-- trash.
abbrev pub Confirmed : Change → List Action → Type 0
Confirmed (deletes (some (path, confirm, name))) acts =
    acts ≢ []
    → (confirm ≡ true)
      × (is_empty (trim_slashes path) ≡ false)
      × (is_trash_path (trim_slashes path) ≡ false)
Confirmed c acts = Unit

module _ {ℓ} {A : Type ℓ} (root : FilePath) (st : Storage) (r : IsRooted root st) where
  make_folder-IsConfined :
      (sys : System) (p : Plan (FilePath × Text)) (f : Files A)
      → ((path : FilePath) (name : Text) → p ≡ inl (path, name) → IsNewUnder root st path)
      → All (IsConfined root st) (make_folder sys p f).acts
  unfolding make_folder changed
  make_folder-IsConfined sys (inr code) f h = tt
  make_folder-IsConfined sys (inl (path, name)) f h = ground (arith, h path name refl)

  rename_to-IsConfined :
      (sys : System) (rel : Text) (p : Plan Rename) (f : Files A)
      → ((q : Rename) → p ≡ inl q → IsRename root st r q)
      → All (IsConfined root st) (rename_to sys rel p f).acts
  unfolding rename_to changed
  rename_to-IsConfined sys rel (inr code) f h = tt
  rename_to-IsConfined sys rel (inl q) f h =
      let (from, below, to) = h q refl in
      if_both (λ (x : Handled A). All (IsConfined root st) x.acts) sys.did ((from, below, to), tt)
        tt

  after_trash-IsConfined :
      (w : Bool) (rel : Text) (t : TrashStore) (e : Option TrashError) (f : Files A)
      → safe_path st (trim_slashes rel) ≢ ok root
      → All (IsConfined root st) (after_trash st w rel (t, e) f).acts
  unfolding after_trash changed
  after_trash-IsConfined w rel t none f n = trash_acts-IsConfined root st r rel f.trash t n
  after_trash-IsConfined w rel t (some e) f n = trash_acts-IsConfined root st r rel f.trash t n

  trash_it-IsConfined :
      (sys : System) (who : Text) (p : Plan Text) (f : Files A)
      → ((rel : Text) → p ≡ inl rel → safe_path st (trim_slashes rel) ≢ ok root)
      → All (IsConfined root st) (trash_it st sys who p f).acts
  unfolding trash_it
  trash_it-IsConfined sys who (inr code) f n = tt
  trash_it-IsConfined sys who (inl rel) f n =
      let (t, e) = move_to_trash st rel who sys.disk f.trash in
      after_trash-IsConfined sys.shares_written rel t e f (n rel refl)

  write_upload-IsConfined :
      (max : ℕ) (sys : System) (bytes : Text) (p : Plan (FilePath × Text)) (f : Files A)
      → ((path : FilePath) (name : Text) → p ≡ inl (path, name) → IsNewUnder root st path)
      → All (IsConfined root st) (write_upload max sys bytes p f).acts
  unfolding write_upload changed
  write_upload-IsConfined max sys bytes (inr code) f h = tt
  write_upload-IsConfined max sys bytes (inl (path, name)) f h = ground (arith, h path name refl)

  -- Where the method is wrong, nothing is done.
  guarded :
      (b : Bool) (f : Files A) (x : Handled A)
      → All (IsConfined root st) x.acts
      → All (IsConfined root st) (if b then rejected 405 f else x).acts
  guarded true f x h = tt
  guarded false f x h = h

  acts-handle :
      (max : ℕ) (sys : System) (req : Request) (who : Text) (c : Change) (f : Files A)
      → NotRoot root st c
      → All (IsConfined root st) (handle st max sys req who c f).acts
  unfolding handle handle_mkdir handle_rename handle_move handle_delete handle_upload
  acts-handle max sys req who (mkdirs none) f n =
      guarded (not (has_method (codes "POST") req)) f (rejected 400 f) tt
  acts-handle max sys req who (mkdirs (some b)) f n =
      guarded (not (has_method (codes "POST") req)) f (make_folder sys (plan_mkdir st b.0 b.1) f)
        (make_folder-IsConfined sys (plan_mkdir st b.0 b.1) f (mkdir-IsNewUnder root st r b.0 b.1))
  acts-handle max sys req who (renames_one none) f n =
      guarded (not (has_method (codes "POST") req)) f (rejected 400 f) tt
  acts-handle max sys req who (renames_one (some b)) f n =
      let rel = trim_slashes b.0 in
      guarded (not (has_method (codes "POST") req)) f (rename_to sys rel (plan_rename st b.0 b.1) f)
        (rename_to-IsConfined sys rel (plan_rename st b.0 b.1) f
          (λ q e. rename-IsRename root st r b.0 b.1 q n e))
  acts-handle max sys req who (moves_one none) f n =
      guarded (not (has_method (codes "POST") req)) f (rejected 400 f) tt
  acts-handle max sys req who (moves_one (some b)) f n =
      let rel = trim_slashes b.0 in
      guarded (not (has_method (codes "POST") req)) f (rename_to sys rel (plan_move st b.0 b.1) f)
        (rename_to-IsConfined sys rel (plan_move st b.0 b.1) f (move-IsRename root st r b.0 b.1))
  acts-handle max sys req who (deletes none) f n =
      guarded (not (has_method (codes "POST") req)) f (rejected 400 f) tt
  acts-handle max sys req who (deletes (some b)) f n =
      let plan = plan_delete st b.0 b.1 b.2 in
      guarded (not (has_method (codes "POST") req)) f (trash_it st sys who plan f) (
        trash_it-IsConfined sys who plan f (λ rel e k. n (
          ap (λ p. safe_path st p)
            (sym
              (ap trim_slashes (plan_delete_cases st b.0 b.1 b.2 rel e).0 ∙ trim_idem is_slash b.0))
          ∙ k)))
  acts-handle max sys req who (uploads form_too_large) f n =
      guarded (not (has_method (codes "POST") req)) f (rejected 413 f) tt
  acts-handle max sys req who (uploads form_unreadable) f n =
      guarded (not (has_method (codes "POST") req)) f (rejected 400 f) tt
  acts-handle max sys req who (uploads (fields dir part)) f n =
      let plan = plan_upload st dir (name_of part) in
      guarded (not (has_method (codes "POST") req)) f (write_upload max sys (bytes_of part) plan f)
        (write_upload-IsConfined max sys (bytes_of part) plan f
          (upload-IsNewUnder root st r dir (name_of part)))

module _ {ℓ} {A : Type ℓ} (st : Storage) where
  trash_it_acts :
      (sys : System) (who : Text) (p : Plan Text) (f : Files A) {Q : Type 0}
      → ((rel : Text) → p ≡ inl rel → Q)
      → (trash_it st sys who p f).acts ≢ []
      → Q
  unfolding trash_it
  trash_it_acts sys who (inr code) f q n = absurd (n refl)
  trash_it_acts sys who (inl rel) f q n = q rel refl

  guarded_acts :
      (b : Bool) (f : Files A) (x : Handled A) {Q : Type 0}
      → (x.acts ≢ [] → Q)
      → (if b then rejected 405 f else x).acts ≢ []
      → Q
  guarded_acts true f x q n = absurd (n refl)
  guarded_acts false f x q n = q n

  handle-Confirmed :
      (max : ℕ) (sys : System) (req : Request) (who : Text) (c : Change) (f : Files A)
      → Confirmed c (handle st max sys req who c f).acts
  unfolding handle handle_delete
  handle-Confirmed max sys req who (mkdirs body) f = tt
  handle-Confirmed max sys req who (renames_one body) f = tt
  handle-Confirmed max sys req who (moves_one body) f = tt
  handle-Confirmed max sys req who (uploads form) f = tt
  handle-Confirmed max sys req who (deletes none) f = tt
  handle-Confirmed max sys req who (deletes (some (path, confirm, name))) f =
      let plan = plan_delete st path confirm name in
      guarded_acts (not (has_method (codes "POST") req)) f (trash_it st sys who plan f) (
        trash_it_acts sys who plan f
          (λ rel e. let k = plan_delete_cases st path confirm name rel e in (k.1, k.2, k.3)))

module _ {ℓ} {A : Type ℓ} (root : FilePath) (st : Storage) (r : IsRooted root st) where
  -- In a storage whose root is a folder, and whose links resolve to clean paths, every change that a
  -- request to make a folder, rename, move, delete or upload makes is of this kind: what is made or
  -- moved to lies under the root with no hidden segment in between and was not there, and what is
  -- moved or put into the trash lies under the root, with no hidden segment in between, and is not the
  -- root. A request to rename or delete must not name the root. A request to delete that makes a change
  -- was confirmed, and its path is neither empty nor that of the trash.
  pub handle-IsConfined :
      (max : ℕ) (sys : System) (req : Request) (who : Text) (c : Change) (f : Files A)
      → NotRoot root st c
      → All (IsConfined root st) (handle st max sys req who c f).acts
        × Confirmed c (handle st max sys req who c f).acts
  handle-IsConfined max sys req who c f n =
      (acts-handle root st r max sys req who c f n, handle-Confirmed st max sys req who c f)
