-- ===== src/Files/Deleted.antt =====
-- What a request to delete lets through, and where the path that goes into the trash lies.
use dingbap.Paths.Names.{is_trash_path}
use dingbap.Paths
use dingbap.Files.Plans.{not_refused, if_there_lem}
use dingbap.Text.{text_eq}
use dingbap.Files.Changes.{trash_source, trash_acts}
use dingbap.Files.Confined.{inside}
use dingbap.Paths.Names.{is_trash_path}
use dingbap.Trash.{TrashStore}
use dingbap.Paths.{FilePath, Storage, safe_path, ok}
use dingbap.Files.Changes.{trash_source, trash_acts}
use dingbap.Text.{Text, trim_slashes}
use dingbap.Base.{
  is_empty, ap, ltb, length, ◌≡◌, ◌≢◌, inl, inr, Bool, refl, arith, not, All, if_both,
  if◌then◌else◌, true, false, ◌&&◌, ◌||◌, Bool-cases,
}
use dingbap.Files.{
  Plan, Text, FilePath, Storage, safe_path, trim_slashes, plan_delete, is_trash_path, if_there,
  is_dir, text_eq, path_base,
}
use dingbap.Files.Confined.{IsRooted, IsConfined, inside}

module _ (root : FilePath) (st : Storage) (r : IsRooted root st) where
  source-IsConfined :
      (rel : Text) (found : Paths.PathResult)
      → safe_path st rel ≡ found
      → found ≢ ok root
      → All (IsConfined root st) (trash_source found)
  source-IsConfined rel (Paths.err e) k n = tt
  source-IsConfined rel (Paths.ok src) k n =
      ((inside root st r rel src k, λ same. n (ap ok same)), tt)

  pub trash_acts-IsConfined :
      (rel : Text) (before after : TrashStore)
      → safe_path st (trim_slashes rel) ≢ ok root
      → All (IsConfined root st) (trash_acts st rel before after)
  unfolding trash_acts
  trash_acts-IsConfined rel before after n =
      if_both (All (IsConfined root st)) (ltb (length before.stored) (length after.stored))
        (source-IsConfined (trim_slashes rel) (safe_path st (trim_slashes rel)) refl n) tt

-- The checks of `plan_delete` after the path.
named_rel :
    (b : Bool) (rel rel' : Text)
    → ◌≡◌ {A = Plan Text} (if b then inr 400 else inl rel) (inl rel')
    → rel' ≡ rel
named_rel true rel rel' e = ground arith
named_rel false rel rel' e = ground arith

resolved_rel :
    (st : Storage) (name rel rel' : Text) (found : Paths.PathResult)
    → ◌≡◌ {A = Plan Text}
        (elim found [
          | Paths.err e ↦ inr 400
          | Paths.ok target ↦ if_there (st.fs.stat target) 500 (
              if is_dir (st.fs.stat target) && not (text_eq name (path_base target))
              then inr 400
              else inl rel)
        ])
        (inl rel')
    → rel' ≡ rel
resolved_rel st name rel rel' (Paths.err x) e = ground arith
resolved_rel st name rel rel' (Paths.ok target) e =
    named_rel (is_dir (st.fs.stat target) && not (text_eq name (path_base target))) rel rel'
      (if_there_lem (st.fs.stat target) 500 _ rel' e)

passed :
    (b : Bool) (p : Plan Text) (rel : Text)
    → b ≡ false
    → ◌≡◌ {A = Plan Text} (if b then inr 400 else p) (inl rel)
    → p ≡ inl rel
passed true p rel k e = ground arith
passed false p rel k e = e

-- What `plan_delete` lets through.
pub plan_delete_cases :
    (st : Storage) (path : Text) (confirm : Bool) (name rel : Text)
    → plan_delete st path confirm name ≡ inl rel
    → (rel ≡ trim_slashes path)
      × (confirm ≡ true)
      × (is_empty (trim_slashes path) ≡ false)
      × (is_trash_path (trim_slashes path) ≡ false)
unfolding plan_delete
plan_delete_cases st path confirm name rel e =
    let bad = not confirm || (is_empty (trim_slashes path) || is_trash_path (trim_slashes path)) in
    elim (Bool-cases bad) [
      | inl b ↦ not_refused (plan_delete st path confirm name) rel (400, rw b refl) e
      | inr b ↦ (
        resolved_rel st name (trim_slashes path) rel (safe_path st path) (passed bad _ rel b e),
        ground (arith, b),
        ground (arith, b),
        ground (arith, b),
      )
    ]
