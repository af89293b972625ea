-- ===== src/Files/RenamedRoot.antt =====
-- A request to rename the root of the storage.
use dingbap.Paths.Sanitized.{sanitize_name_safe}
use dingbap.Files.Confined.{not_empty}
use dingbap.Files.Under.{append_part_shown}
use dingbap.Files.Plans.{renamed, rename_path}
use dingbap.Paths.Names.{sanitize_name, path_join, path_dir}
use dingbap.Text.{Text}
use dingbap.Paths.Confinement.{IsInside}
use dingbap.Paths.{FilePath, Storage, safe_path, Stat, ok, folder, drop_last, absent, append_part}
use dingbap.Base.{
  ◌∷◌, [], ◌≡◌, ◌∙◌, inl, false, refl, suc, arith, ap, is_empty, length, append-nil, length-append,
}
use dingbap.Files.{
  Rename, FilePath, rename_from, if_there, Storage, Text, if_free, safe_path, Stat, drop_last,
  append_part, sanitize_name, path_join, path_dir, plan_rename,
}

length-drop_last :
    (path : FilePath) → is_empty path ≡ false → suc (length (drop_last path)) ≡ length path
length-drop_last [] h = ground (arith, h)
length-drop_last (x ∷ []) h = refl
length-drop_last (x ∷ y ∷ path) h = ap suc (length-drop_last (y ∷ path) refl)

-- A path as long as the root lies inside it only if it is the root.
inside-same : (root path : FilePath) → IsInside root path → length path ≡ length root → path ≡ root
inside-same root path ([], e, s) l = e ∙ append-nil root
inside-same root path (part ∷ rest, e, s) l =
    ground (arith, ap length e, length-append root (part ∷ rest))

from_plan :
    (st : Storage) (old_abs p : FilePath) (name rel : Text)
    → is_empty name ≡ false
    → safe_path st rel ≡ ok p
    → rename_from st old_abs name rel
      ≡ if_there
          (st.fs.stat old_abs)
          500
          (if_free (st.fs.stat (append_part (drop_last old_abs) name)) (renamed old_abs name rel))
unfolding rename_from
from_plan st old_abs p [] rel n k = ground (arith, n)
from_plan st old_abs p (c ∷ name) rel n k = rw k refl

free_plan :
    (s t : Stat) (q : Rename) → s ≡ folder → t ≡ absent → if_there s 500 (if_free t q) ≡ inl q
unfolding if_there if_free
free_plan s t q e k = ground (arith, e, k)

-- A request to rename that names the root, as the empty path does, is not refused: where the new name
-- is not in use beside the root, the root itself is renamed, to a path that is not inside it.
pub plan_rename-root :
    (st : Storage) (root p : FilePath) (old_path new_name : Text)
    → is_empty root ≡ false
    → safe_path st old_path ≡ ok root
    → is_empty (sanitize_name new_name) ≡ false
    → safe_path st (path_join (path_dir old_path ∷ sanitize_name new_name ∷ [])) ≡ ok p
    → st.fs.stat root ≡ folder
    → st.fs.stat (append_part (drop_last root) (sanitize_name new_name)) ≡ absent
    → (plan_rename st old_path new_name
        ≡ inl (
            renamed root
              (sanitize_name new_name)
              (path_join (path_dir old_path ∷ sanitize_name new_name ∷ []))))
      × ¬ IsInside root (append_part (drop_last root) (sanitize_name new_name))
plan_rename-root st root p old_path new_name r k n c d a =
    let name = sanitize_name new_name in
    let rel = path_join (path_dir old_path ∷ name ∷ []) in
    let target = append_part (drop_last root) name in
    (
      rename_path st old_path new_name root k
          ∙ from_plan st root p name rel n c
          ∙ free_plan (st.fs.stat root) (st.fs.stat target) (renamed root name rel) d a,
      λ i.
          let snoc =
            append_part_shown (drop_last root) name (not_empty name n)
              (sanitize_name_safe new_name).2 in
          let long : length target ≡ length root = ground (
            arith,
            ap length snoc,
            length-append (drop_last root) (name ∷ []),
            length-drop_last root r,
          ) in
          let same = inside-same root target i long in ground (arith, ap st.fs.stat same, d, a),
    )
