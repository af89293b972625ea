-- ===== src/Copies/Placed.antt =====
-- Where a copy and a duplicate stand.
use dingbap.Paths
use dingbap.Files.{path_base, is_dir}
use dingbap.Paths.{safe_path, ok, folder, append_part, drop_last, FileSystem}
use dingbap.Copies.{unique_copy_name}
use dingbap.Copies.Requests.{if_plain, copying_to, copy_named, copy_into, duplicate_of}
use dingbap.Text.{Text}
use dingbap.Paths.{FilePath, Storage}
use dingbap.Base.{
  ◌≡◌, if◌then◌else◌, inl, inr, none, some, true, false, Bool, Option, ℕ, refl, arith, ap, subst,
  ◌∙◌, sym,
}
use dingbap.Files.{Plan}
use dingbap.Copies.Requests.{Copying, plan_copy, plan_duplicate}

-- The source is what the first path resolves to, and the copy stands under the name in the folder that
-- the second one resolves to.
abbrev pub CopiesInto : Storage → Option (Text × Text) → FilePath → FilePath → Text → Type 0
CopiesInto st none from to name = true ≡ false
CopiesInto st (some b) from to name =
    (safe_path st b.0 ≡ ok from)
    × (dest : FilePath) × (safe_path st b.1 ≡ ok dest)
    × (st.fs.stat dest ≡ folder)
    × (to ≡ append_part dest name)

-- The source is what the path resolves to, and the copy stands beside it.
abbrev pub CopiesBeside : Storage → Option Text → FilePath → FilePath → Text → Type 0
CopiesBeside st none from to name = true ≡ false
CopiesBeside st (some path) from to name =
    (safe_path st path ≡ ok from) × (to ≡ append_part (drop_last from) name)

if_plain_lem : (l : Paths.Lstat) (p : Plan Copying) (q : Copying) → if_plain l p ≡ inl q → p ≡ inl q
unfolding if_plain
if_plain_lem Paths.missing p q e = ground arith
if_plain_lem Paths.failed p q e = ground arith
if_plain_lem Paths.symlink p q e = ground arith
if_plain_lem Paths.plain p q e = e

passed :
    (b : Bool) (code : ℕ) (p : Plan Copying) (q : Copying)
    → ◌≡◌ {A = Plan Copying} (if b then inr code else p) (inl q)
    → (b ≡ false) × (p ≡ inl q)
passed true code p q e = ground arith
passed false code p q e = (refl, e)

only_in :
    (b : Bool) (code : ℕ) (p : Plan Copying) (q : Copying)
    → ◌≡◌ {A = Plan Copying} (if b then p else inr code) (inl q)
    → (b ≡ true) × (p ≡ inl q)
only_in true code p q e = (refl, e)
only_in false code p q e = ground arith

is_dir_folder : (s : Paths.Stat) → is_dir s ≡ true → s ≡ Paths.folder
is_dir_folder Paths.absent e = ground arith
is_dir_folder Paths.broken e = ground arith
is_dir_folder Paths.folder e = refl
is_dir_folder (Paths.file n) e = ground arith

-- From one path into the folder at another, under its name.
abbrev Places : FilePath → FilePath → Copying → Type 0
Places src dest q = (q.from ≡ src) × (q.to ≡ append_part dest q.name)

copying_to-Places :
    (src dest : FilePath) (name : Text) (q : Copying)
    → ◌≡◌ {A = Plan Copying} (inl (copying_to src dest name)) (inl q)
    → Places src dest q
copying_to-Places src dest name q e =
    let same : copying_to src dest name ≡ q = ground arith in
    subst (Places src dest) same (refl, refl)

copy_named-Places :
    (fs : FileSystem) (nanos : ℕ) (src dest : FilePath) (name : Text) (s : Paths.Stat) (q : Copying)
    → copy_named fs nanos src dest name s ≡ inl q
    → Places src dest q
unfolding copy_named
copy_named-Places fs nanos src dest name Paths.absent q e = copying_to-Places src dest name q e
copy_named-Places fs nanos src dest name Paths.broken q e = ground arith
copy_named-Places fs nanos src dest name Paths.folder q e =
    copying_to-Places src dest (unique_copy_name fs nanos dest name) q e
copy_named-Places fs nanos src dest name (Paths.file n) q e =
    copying_to-Places src dest (unique_copy_name fs nanos dest name) q e

copy_into-Places :
    (st : Storage) (nanos : ℕ) (src dest : FilePath) (q : Copying)
    → copy_into st nanos src dest ≡ inl q
    → Places src dest q
unfolding copy_into
copy_into-Places st nanos src dest q e =
    let apart = passed _ 400 _ q (if_plain_lem (st.fs.lstat src) _ q e) in
    let named = passed _ 400 _ q apart.1 in
    copy_named-Places st.fs nanos src dest (path_base src)
      (st.fs.stat (append_part dest (path_base src))) q named.1

abbrev pub Tied : (FilePath → FilePath → Text → Type 0) → Copying → Type 0
Tied T q = T q.from q.to q.name

into_folder :
    (st : Storage) (nanos : ℕ) (path dest_dir : Text) (src : FilePath) (r : Paths.PathResult)
    (q : Copying)
    → safe_path st path ≡ ok src
    → safe_path st dest_dir ≡ r
    → ◌≡◌ {A = Plan Copying}
        (elim r [
          | Paths.err e ↦ inr 400
          | Paths.ok dest_abs ↦
              if is_dir (st.fs.stat dest_abs) then copy_into st nanos src dest_abs else inr 400
        ])
        (inl q)
    → Tied (CopiesInto st (some (path, dest_dir))) q
into_folder st nanos path dest_dir src (Paths.err x) q k d e = ground arith
into_folder st nanos path dest_dir src (Paths.ok dest) q k d e =
    let (there, e') = only_in (is_dir (st.fs.stat dest)) 400 _ q e in
    let (from, to) = copy_into-Places st nanos src dest q e' in
    (k ∙ ap ok (sym from), dest, d, is_dir_folder (st.fs.stat dest) there, to)

from_source :
    (st : Storage) (nanos : ℕ) (path dest_dir : Text) (r : Paths.PathResult) (q : Copying)
    → safe_path st path ≡ r
    → ◌≡◌ {A = Plan Copying}
        (elim r [
          | Paths.err e ↦ inr 400
          | Paths.ok src_abs ↦ elim (safe_path st dest_dir) [
            | Paths.err e ↦ inr 400
            | Paths.ok dest_abs ↦
                if is_dir (st.fs.stat dest_abs)
                then copy_into st nanos src_abs dest_abs
                else inr 400
          ]
        ])
        (inl q)
    → Tied (CopiesInto st (some (path, dest_dir))) q
from_source st nanos path dest_dir (Paths.err x) q k e = ground arith
from_source st nanos path dest_dir (Paths.ok src) q k e =
    into_folder st nanos path dest_dir src (safe_path st dest_dir) q k refl e

pub plan_copy-Tied :
    (st : Storage) (nanos : ℕ) (path dest_dir : Text) (q : Copying)
    → plan_copy st nanos path dest_dir ≡ inl q
    → Tied (CopiesInto st (some (path, dest_dir))) q
unfolding plan_copy
plan_copy-Tied st nanos path dest_dir q e =
    from_source st nanos path dest_dir (safe_path st path) q refl (passed _ 400 _ q e).1

beside_source :
    (st : Storage) (nanos : ℕ) (path : Text) (r : Paths.PathResult) (q : Copying)
    → safe_path st path ≡ r
    → ◌≡◌ {A = Plan Copying}
        (elim r [ Paths.err e ↦ inr 400 | Paths.ok src_abs ↦ duplicate_of st nanos src_abs ])
        (inl q)
    → Tied (CopiesBeside st (some path)) q
unfolding duplicate_of
beside_source st nanos path (Paths.err x) q k e = ground arith
beside_source st nanos path (Paths.ok src) q k e =
    let name = unique_copy_name st.fs nanos (drop_last src) (path_base src) in
    let (from, to) =
      copying_to-Places src (drop_last src) name q (if_plain_lem (st.fs.lstat src) _ q e) in
    (k ∙ ap ok (sym from), to ∙ ap (λ p. append_part (drop_last p) q.name) (sym from))

pub plan_duplicate-Tied :
    (st : Storage) (nanos : ℕ) (path : Text) (q : Copying)
    → plan_duplicate st nanos path ≡ inl q
    → Tied (CopiesBeside st (some path)) q
unfolding plan_duplicate
plan_duplicate-Tied st nanos path q e =
    beside_source st nanos path (safe_path st path) q refl (passed _ 400 _ q e).1
