-- ===== src/Files/Confined.antt =====
-- Every change of the file system that a handler makes lies under the root of the storage and makes
-- an entry that was not there.
use dingbap.Files.Plans.{
  if_free_lem, mkdir_cases, not_refused, upload_cases, rename_cases, into_cases, move_cases,
  renamed, if_there_lem, moved_into,
}
use dingbap.Files.Under.{
  IsInside-snoc, rel_parts-under, base-IsShown, shown-climbs, drop_last-IsInside,
}
use dingbap.Paths.Sanitized.{sanitize_name_safe}
use dingbap.Paths.Names.{path_join, sanitize_name, path_dir}
use dingbap.Text.{Text, has_prefix}
use dingbap.Files.Changes.{Action, makes_folder, makes_file, renames, trashes}
use dingbap.Paths.Confinement.{ResolvesClean, IsInside, IsClean, safe_path-IsInside}
use dingbap.Paths.{
  FilePath, Storage, absent, safe_path, ok, real_root, folder, append_part, dot, climbs, rel_parts,
  drop_last,
}
use dingbap.Base.{
  ◌∷◌, [], ◌≡◌, ◌≢◌, inl, inr, some, false, refl, arith, All, is_empty, ◌∙◌, ap, ◌&&◌, Option, not,
  sym, subst,
}
use dingbap.Files.{
  FilePath, if_free, Storage, plan_mkdir, Text, safe_path, path_join, sanitize_name, append_part,
  plan_upload, Rename, is_dir, plan_rename, climbs, plan_into, plan_move, rel_parts, drop_last,
  path_base, path_dir,
}

-- Storage below a root that is a folder.
pub record IsRooted (root : FilePath) (st : Storage) : Type 0 where
  pub clean_links : ResolvesClean st.fs
  pub clean : All IsClean root
  pub resolved : real_root st.fs st.path_root st.root_dir ≡ some root
  pub a_folder : st.fs.stat root ≡ folder

-- A new path under the root.
abbrev pub IsNewUnder : FilePath → Storage → FilePath → Type 0
IsNewUnder root st path = IsInside root path × (st.fs.stat path ≡ absent)

abbrev pub IsConfined : FilePath → Storage → Action → Type 0
IsConfined root st (makes_folder path) = IsNewUnder root st path
IsConfined root st (makes_file path bytes) = IsNewUnder root st path
IsConfined root st (renames from to) = IsInside root from × (from ≢ root) × IsNewUnder root st to
IsConfined root st (trashes from) = IsInside root from × (from ≢ root)

pub not_empty : (name : Text) → is_empty name ≡ false → name ≢ []
not_empty [] n e = ground (arith, n)
not_empty (c ∷ name) n e = ground (arith, e)

module _ (root : FilePath) (st : Storage) (r : IsRooted root st) where
  new_under :
      (parent : FilePath) (name given : Text) {A : Type 0} (a b : A)
      → IsInside root parent
      → name ≡ sanitize_name given
      → is_empty name ≡ false
      → if_free (st.fs.stat (append_part parent name)) a ≡ inl b
      → IsNewUnder root st (append_part parent name)
  new_under parent name given a b i s n e =
      let shown : has_prefix name dot ≡ false =
        ap (λ t. has_prefix t dot) s ∙ (sanitize_name_safe given).2 in
      (IsInside-snoc root parent name (not_empty name n) shown i, (if_free_lem _ a b e).0)

  -- What `safe_path` gives lies under the root.
  pub inside : (rel : Text) (path : FilePath) → safe_path st rel ≡ ok path → IsInside root path
  inside rel path k = safe_path-IsInside st rel root path r.clean_links r.clean r.resolved k

  pub mkdir-IsNewUnder :
      (path new_name : Text) (target : FilePath) (name : Text)
      → plan_mkdir st path new_name ≡ inl (target, name)
      → IsNewUnder root st target
  mkdir-IsNewUnder path new_name target name e = elim (mkdir_cases st path new_name) [
    | inl k ↦ not_refused (plan_mkdir st path new_name) (target, name) k e
    | inr (parent, k, n, f) ↦
        let given = sanitize_name new_name in
        let free = sym f ∙ e in
        let plan : FilePath × Text = (append_part parent given, given) in
        let new =
          new_under parent given new_name plan (target, name) (inside path parent k) refl n free in
        subst (IsNewUnder root st)
          (ap (λ (q : FilePath × Text). q.0) (if_free_lem _ plan (target, name) free).1) new
  ]

  pub upload-IsNewUnder :
      (dest_dir : Text) (file_name : Option Text) (target : FilePath) (name : Text)
      → plan_upload st dest_dir file_name ≡ inl (target, name)
      → IsNewUnder root st target
  upload-IsNewUnder dest_dir file_name target name e = elim (upload_cases st dest_dir file_name) [
    | inl k ↦ not_refused (plan_upload st dest_dir file_name) (target, name) k e
    | inr (original, (parent, k, n, f)) ↦
        let given = sanitize_name original in
        let free = sym f ∙ e in
        let plan : FilePath × Text = (append_part parent given, given) in
        let new =
          new_under parent given original plan (target, name) (inside dest_dir parent k) refl n
            free in
        subst (IsNewUnder root st)
          (ap (λ (q : FilePath × Text). q.0) (if_free_lem _ plan (target, name) free).1) new
  ]

  abbrev pub IsRename : Rename → Type 0
  IsRename q = IsInside root q.from × (q.from ≢ root) × IsNewUnder root st q.to

  pub rename-IsRename :
      (old_path new_name : Text) (q : Rename)
      → safe_path st old_path ≢ ok root
      → plan_rename st old_path new_name ≡ inl q
      → IsRename q
  rename-IsRename old_path new_name q no_root e = elim (rename_cases st old_path new_name) [
    | inl k ↦ not_refused (plan_rename st old_path new_name) q k e
    | inr (old_abs, k, (n, f)) ↦
        let there : IsInside root old_abs = inside old_path old_abs k in
        let below : old_abs ≢ root = λ same. no_root (k ∙ ap ok same) in
        let name = sanitize_name new_name in
        let plan = renamed old_abs name (path_join (path_dir old_path ∷ name ∷ [])) in
        let free =
          if_there_lem (st.fs.stat old_abs) 500 (if_free (st.fs.stat plan.to) plan) q (sym f ∙ e) in
        let new =
          new_under (drop_last old_abs) (sanitize_name new_name) new_name plan q
            (drop_last-IsInside root old_abs there below) refl n free in
        subst IsRename (if_free_lem _ plan q free).1 (there, below, new)
  ]

  -- The root is a folder that holds every destination, so it is not moved.
  not-root :
      (dest_abs src_abs : FilePath)
      → IsInside root dest_abs
      → (is_dir (st.fs.stat src_abs) && not (climbs (rel_parts src_abs dest_abs))) ≡ false
      → src_abs ≢ root
  not-root dest_abs src_abs (rest, e, s) c same =
      let flat : rel_parts src_abs dest_abs ≡ rest =
        ap (λ p. rel_parts p dest_abs) same ∙ ap (rel_parts root) e ∙ rel_parts-under root rest in
      let stays : climbs (rel_parts src_abs dest_abs) ≡ false =
        ap climbs flat ∙ shown-climbs rest s in
      let dir : st.fs.stat src_abs ≡ folder = ap st.fs.stat same ∙ r.a_folder in
      ground (arith, stays, dir, c)

  pub into-IsRename :
      (dest_dir : Text) (dest_abs src_abs : FilePath) (q : Rename)
      → IsInside root dest_abs
      → IsInside root src_abs
      → plan_into st dest_dir dest_abs src_abs ≡ inl q
      → IsRename q
  into-IsRename dest_dir dest_abs src_abs q d s e = elim (into_cases st dest_dir dest_abs src_abs) [
    | inl k ↦ not_refused (plan_into st dest_dir dest_abs src_abs) q k e
    | inr (c, f) ↦
        let below : src_abs ≢ root = not-root dest_abs src_abs d c in
        let shown = base-IsShown root src_abs s below in
        let plan = moved_into dest_dir dest_abs src_abs in
        let free =
          if_there_lem (st.fs.stat src_abs) 404 (if_free (st.fs.stat plan.to) plan) q (sym f ∙ e) in
        let under = IsInside-snoc root dest_abs (path_base src_abs) shown.0 shown.1 d in
        let (absent_there, same) = if_free_lem _ plan q free in
        subst IsRename same (s, below, (under, absent_there))
  ]

  pub move-IsRename :
      (path dest_dir : Text) (q : Rename) → plan_move st path dest_dir ≡ inl q → IsRename q
  move-IsRename path dest_dir q e = elim (move_cases st path dest_dir) [
    | inl k ↦ not_refused (plan_move st path dest_dir) q k e
    | inr (src_abs, dest_abs, k, c, f) ↦
        into-IsRename dest_dir dest_abs src_abs q (inside dest_dir dest_abs c)
          (inside path src_abs k) (sym f ∙ e)
  ]
