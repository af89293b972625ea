-- ===== src/Visits/Dropped.antt =====
-- What a drop link takes lands in its folder, within the bound on its size.
use dingbap.Copies.{unique_copy_name}
use dingbap.Files.{is_dir}
use dingbap.Paths
use dingbap.Copies.Shown.{IsPlainName, unique_copy_name-IsPlainName}
use dingbap.Files.Under.{append_part_shown}
use dingbap.Files.Confined.{not_empty}
use dingbap.Paths.Sanitized.{sanitize_name_safe}
use dingbap.Visits.Routes.{broken_form, with_file, begun}
use dingbap.Paths.Names.{sanitize_name}
use dingbap.Text.{Text, text_eq, codes}
use dingbap.Shares.{Share, ShareStore, ShareError, share_is_drop, begin_upload}
use dingbap.Visits.Routes.{
  write_drop, handle_drop_upload, visit_drop, Drop, drop_named, DropForm, Forms, with_file,
}
use dingbap.Paths.{Storage, FilePath, safe_path, append_part}
use dingbap.Base.{
  ◌≡◌, ◌≤◌, true, false, refl, arith, none, some, ◌+◌, ◌&&◌, ◌||◌, if◌then◌else◌, Option, ℕ, not,
  if_each, is_empty, length, ltb, take, ◌∷◌, [], ◌++◌,
}
use dingbap.Visits.{
  Answer, refused, drops, unlocks, lists, sends, zips, Storage, Share, Moment, Visit, Text, if_safe,
}

-- Nothing is shown or sent; a file is written into the shared folder itself, under a name that is not
-- hidden, and is not larger than the bound.
abbrev pub DropsInto : Storage → ℕ → Share → Answer → Type 0
DropsInto st max sh (drops target bytes) =
    (dir : FilePath) × (name : Text) × (safe_path st sh.path ≡ Paths.ok dir)
    × (is_dir (st.fs.stat dir) ≡ true)
    × (target ≡ dir ++ (name ∷ []))
    × IsPlainName name
    × (length bytes ≤ max)
DropsInto st max sh (sends target) = true ≡ false
DropsInto st max sh (lists target) = true ≡ false
DropsInto st max sh (zips path) = true ≡ false
DropsInto st max sh (unlocks name value) = true ≡ false
DropsInto st max sh a = Unit

abbrev Dropped : Storage → ℕ → Share → ShareStore × Answer → Type 0
Dropped st max sh r = DropsInto st max sh r.1

not_over : (max n : ℕ) → ltb max n ≡ false → n ≤ max
not_over max n h = ground arith

begun-DropsInto :
    (st : Storage) (max : ℕ) (d : Drop) (sh : Share) (dir : FilePath) (name bytes : Text)
    (r : ShareStore × Option ShareError)
    → safe_path st sh.path ≡ Paths.ok dir
    → is_dir (st.fs.stat dir) ≡ true
    → IsPlainName name
    → Dropped st max sh (begun st.fs max d sh dir name bytes r)
unfolding write_drop
begun-DropsInto st max d sh dir name bytes (s, some e) q i p = tt
begun-DropsInto st max d sh dir name bytes (s, none) q i p =
    if_each (Dropped st max sh) (not d.opened || not d.copied) (λ h. tt)
      (λ h.
        if_each (Dropped st max sh) (ltb max (length (take (max + 1) bytes))) (λ h. tt)
          (λ h.
            let plain = unique_copy_name-IsPlainName st.fs d.nanos dir name p in
            (
              dir,
              unique_copy_name st.fs d.nanos dir name,
              q,
              i,
              append_part_shown dir (unique_copy_name st.fs d.nanos dir name) plain.0 plain.1,
              plain,
              not_over max (length (take (max + 1) bytes)) h,
            )))

drop_named-DropsInto :
    (st : Storage) (max : ℕ) (o : Moment) (d : Drop) (sh : Share) (name bytes : Text)
    (s : ShareStore) (r : Paths.PathResult)
    → safe_path st sh.path ≡ r
    → IsPlainName name
    → Dropped st max sh (
        if_safe r s (λ dir.
          if is_dir (st.fs.stat dir)
          then begun st.fs max d sh dir name bytes
              (begin_upload sh.token o.counted_at o.counted_later o.counted s)
          else (s, refused 404)))
drop_named-DropsInto st max o d sh name bytes s (Paths.err e) q p = tt
drop_named-DropsInto st max o d sh name bytes s (Paths.ok dir) q p =
    if_each (Dropped st max sh) (is_dir (st.fs.stat dir))
      (λ i.
        begun-DropsInto st max d sh dir name bytes
          (begin_upload sh.token o.counted_at o.counted_later o.counted s) q i p)
      (λ i. tt)

handle_drop_upload-DropsInto :
    (st : Storage) (max : ℕ) (o : Moment) (d : Drop) (sh : Share) (form : DropForm) (s : ShareStore)
    → Dropped st max sh (handle_drop_upload st max o d sh form s)
unfolding handle_drop_upload drop_named
handle_drop_upload-DropsInto st max o d sh broken_form s =
    if_each (Dropped st max sh) (share_is_drop sh) (λ h. tt) (λ h. tt)
handle_drop_upload-DropsInto st max o d sh (with_file none) s =
    if_each (Dropped st max sh) (share_is_drop sh) (λ h. tt) (λ h. tt)
handle_drop_upload-DropsInto st max o d sh (with_file (some f)) s =
    if_each (Dropped st max sh) (not (share_is_drop sh)) (λ h. tt)
      (λ h.
        if_each (Dropped st max sh) (is_empty (sanitize_name f.0)) (λ h. tt)
          (λ h.
            drop_named-DropsInto st max o d sh (sanitize_name f.0) f.1 s (safe_path st sh.path) refl
              (
                not_empty (sanitize_name f.0) h,
                (sanitize_name_safe f.0).2,
                (sanitize_name_safe f.0).0,
              )))

-- Whatever a visitor asks of a drop link, no file, folder or archive is given out, and an upload that
-- is kept stands in the shared folder itself, which is there, under a name without a slash that does
-- not begin with a dot, and is not larger than the bound on uploads.
pub visit_drop-DropsInto :
    (st : Storage) (max : ℕ) (v : Visit) (o : Moment) (d : Drop) (forms : Forms) (sh : Share)
    (sub : Text) (s : ShareStore)
    → DropsInto st max sh (visit_drop st max v o d forms sh sub s).1
unfolding visit_drop
visit_drop-DropsInto st max v o d forms sh sub s =
    if_each (Dropped st max sh) (text_eq sub (codes "upload") && text_eq v.method (codes "POST"))
      (λ h. handle_drop_upload-DropsInto st max o d sh forms.upload s)
      (λ h. if_each (Dropped st max sh) (is_empty sub) (λ h. tt) (λ h. tt))
