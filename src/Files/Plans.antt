-- ===== src/Files/Plans.antt =====
-- The forms that the plans of the handlers have.
use dingbap.Trash.Kept.{path_cases}
use dingbap.Paths.Names.{path_join, is_trash_path, path_dir, sanitize_name}
use dingbap.Text.{Text, trim_slashes}
use dingbap.Paths.{
  Storage, FilePath, Stat, safe_path, append_part, absent, ok, drop_last, climbs, rel_parts,
  path_eq, PathError, err,
}
use dingbap.Base.{
  ◌∷◌, [], ◌≡◌, ◌&&◌, ◌||◌, ◌⊎◌, inl, inr, false, Option, ℕ, refl, arith, not, Bool-cases, is_empty,
  Option-cases, ◌∙◌,
}
use dingbap.Files.{
  Plan, Rename, if_free, if_there, Storage, plan_mkdir, FilePath, plan_rename, Text, plan_into,
  plan_move, plan_upload, Stat, safe_path, append_part, path_join, is_dir, is_trash_path, drop_last,
  path_dir, path_base, climbs, sanitize_name, trim_slashes, rel_parts, path_eq, rename_from,
}
use dingbap.Paths

pub if_free_lem {ℓ} :
    {A : Type ℓ} (s : Stat) (a b : A) → if_free s a ≡ inl b → (s ≡ absent) × (a ≡ b)
unfolding if_free
if_free_lem Paths.absent a b e = (refl, ground arith)
if_free_lem Paths.broken a b e = ground arith
if_free_lem Paths.folder a b e = ground arith
if_free_lem (Paths.file n) a b e = ground arith

pub if_there_lem {ℓ} :
    {A : Type ℓ} (s : Stat) (code : ℕ) (p : Plan A) (a : A) → if_there s code p ≡ inl a → p ≡ inl a
unfolding if_there
if_there_lem Paths.absent code p a e = ground arith
if_there_lem Paths.broken code p a e = ground arith
if_there_lem Paths.folder code p a e = e
if_there_lem (Paths.file n) code p a e = e

-- A plan is a refusal, or has the form that a handler goes on with.
abbrev pub Refuses {ℓ} : {A : Type ℓ} → Plan A → Type ℓ
Refuses p = (code : ℕ) × (p ≡ inr code)

pub not_refused {ℓ κ} : {A : Type ℓ} {P : Type κ} (p : Plan A) (a : A) → Refuses p → p ≡ inl a → P
not_refused p a (code, k) e = ground (arith, k, e)

abbrev pub MkdirForm : Storage → Text → Text → Plan (FilePath × Text) → Type 0
MkdirForm st path new_name p =
    (parent : FilePath) × (safe_path st path ≡ ok parent)
    × (is_empty (sanitize_name new_name) ≡ false)
    × (p
        ≡ if_free (st.fs.stat (append_part parent (sanitize_name new_name)))
            (append_part parent (sanitize_name new_name), sanitize_name new_name))

pub mkdir_cases :
    (st : Storage) (path new_name : Text)
    → Refuses (plan_mkdir st path new_name)
      ⊎ MkdirForm st path new_name (plan_mkdir st path new_name)
unfolding plan_mkdir
mkdir_cases st path new_name =
    elim (Bool-cases (is_trash_path path || is_trash_path (path_join (path ∷ new_name ∷ [])))) [
      | inl t ↦ inl (400, rw t refl)
      | inr t ↦ elim (path_cases (safe_path st path)) [
        | inr (x, k) ↦ inl (400, rw (t, k) refl)
        | inl (parent, k) ↦ elim (Bool-cases (is_empty (sanitize_name new_name))) [
          | inl n ↦ inl (400, rw (t, k, n) refl)
          | inr n ↦ inr (parent, k, n, rw (t, k, n) refl)
        ]
      ]
    ]

abbrev pub renamed : FilePath → Text → Text → Rename
renamed old_abs name rel = record {
  from = old_abs;
  to = append_part (drop_last old_abs) name;
  to_rel = rel;
}

abbrev pub FromForm : Storage → FilePath → Text → Text → Plan Rename → Type 0
FromForm st old_abs name rel p =
    (is_empty name ≡ false)
    × (p
        ≡ if_there (st.fs.stat old_abs) 500 (
            if_free (st.fs.stat (append_part (drop_last old_abs) name)) (renamed old_abs name rel)))

from_cases :
    (st : Storage) (old_abs : FilePath) (name rel : Text)
    → Refuses (rename_from st old_abs name rel)
      ⊎ FromForm st old_abs name rel (rename_from st old_abs name rel)
unfolding rename_from
from_cases st old_abs [] rel = inl (400, refl)
from_cases st old_abs (c ∷ name) rel = elim (path_cases (safe_path st rel)) [
  | inr (x, k) ↦ inl (400, rw k refl)
  | inl (p, k) ↦ inr (refl, rw k refl)
]

abbrev pub RenameForm : Storage → Text → Text → Plan Rename → Type 0
RenameForm st old_path new_name p =
    let name = sanitize_name new_name in
    (old_abs : FilePath) × (safe_path st old_path ≡ ok old_abs)
    × FromForm st old_abs name (path_join (path_dir old_path ∷ name ∷ [])) p

pub rename_path :
    (st : Storage) (old_path new_name : Text) (old_abs : FilePath)
    → safe_path st old_path ≡ ok old_abs
    → plan_rename st old_path new_name
      ≡ rename_from st old_abs
          (sanitize_name new_name)
          (path_join (path_dir old_path ∷ sanitize_name new_name ∷ []))
unfolding plan_rename
rename_path st old_path new_name old_abs k = rw (k, plan_rename) refl

rename_no_path :
    (st : Storage) (old_path new_name : Text) (x : PathError)
    → safe_path st old_path ≡ err x
    → plan_rename st old_path new_name ≡ inr 400
unfolding plan_rename
rename_no_path st old_path new_name x k = rw (k, plan_rename) refl

pub rename_cases :
    (st : Storage) (old_path new_name : Text)
    → Refuses (plan_rename st old_path new_name)
      ⊎ RenameForm st old_path new_name (plan_rename st old_path new_name)
rename_cases st old_path new_name =
    let name = sanitize_name new_name in
    let rel = path_join (path_dir old_path ∷ name ∷ []) in
    elim (path_cases (safe_path st old_path)) [
      | inr (x, k) ↦ inl (400, rename_no_path st old_path new_name x k)
      | inl (old_abs, k) ↦
          let from = rename_path st old_path new_name old_abs k in
          elim (from_cases st old_abs name rel) [
            | inl (code, c) ↦ inl (code, from ∙ c)
            | inr (n, c) ↦ inr (old_abs, k, (n, from ∙ c))
          ]
    ]

abbrev pub moved_into : Text → FilePath → FilePath → Rename
moved_into dest_dir dest_abs src_abs = record {
  from = src_abs;
  to = append_part dest_abs (path_base src_abs);
  to_rel = path_join (trim_slashes dest_dir ∷ path_base src_abs ∷ []);
}

abbrev pub IntoForm : Storage → Text → FilePath → FilePath → Plan Rename → Type 0
IntoForm st dest_dir dest_abs src_abs p =
    ((is_dir (st.fs.stat src_abs) && not (climbs (rel_parts src_abs dest_abs))) ≡ false)
    × (p
        ≡ if_there (st.fs.stat src_abs) 404 (
            if_free (st.fs.stat (append_part dest_abs (path_base src_abs)))
              (moved_into dest_dir dest_abs src_abs)))

if_there_refused {ℓ} :
    {A : Type ℓ} (s : Stat) (code code' : ℕ) (p : Plan A)
    → p ≡ inr code'
    → Refuses (if_there s code p)
unfolding if_there
if_there_refused Paths.absent code code' p e = (404, refl)
if_there_refused Paths.broken code code' p e = (code, refl)
if_there_refused Paths.folder code code' p e = (code', e)
if_there_refused (Paths.file n) code code' p e = (code', e)

pub into_cases :
    (st : Storage) (dest_dir : Text) (dest_abs src_abs : FilePath)
    → Refuses (plan_into st dest_dir dest_abs src_abs)
      ⊎ IntoForm st dest_dir dest_abs src_abs (plan_into st dest_dir dest_abs src_abs)
unfolding plan_into
into_cases st dest_dir dest_abs src_abs =
    let new_abs = append_part dest_abs (path_base src_abs) in
    let stat = st.fs.stat src_abs in
    elim (Bool-cases (is_dir stat && not (climbs (rel_parts src_abs dest_abs)))) [
      | inl d ↦ inl (if_there_refused stat 404 400 _ (rw d refl))
      | inr d ↦ elim (Bool-cases (path_eq src_abs new_abs)) [
        | inl q ↦ inl (if_there_refused stat 404 400 _ (rw (d, q) refl))
        | inr q ↦ inr (d, rw (d, q) refl)
      ]
    ]

abbrev pub MoveForm : Storage → Text → Text → Plan Rename → Type 0
MoveForm st path dest_dir p =
    (src_abs : FilePath) × (dest_abs : FilePath) × (safe_path st path ≡ ok src_abs)
    × (safe_path st dest_dir ≡ ok dest_abs)
    × (p ≡ plan_into st dest_dir dest_abs src_abs)

pub move_cases :
    (st : Storage) (path dest_dir : Text)
    → Refuses (plan_move st path dest_dir) ⊎ MoveForm st path dest_dir (plan_move st path dest_dir)
unfolding plan_move
move_cases st path dest_dir = elim (Bool-cases (is_trash_path path || is_trash_path dest_dir)) [
  | inl t ↦ inl (400, rw t refl)
  | inr t ↦ elim (path_cases (safe_path st path)) [
    | inr (x, k) ↦ inl (400, rw (t, k) refl)
    | inl (src_abs, k) ↦ elim (path_cases (safe_path st dest_dir)) [
      | inr (x, c) ↦ inl (400, rw (t, k, c) refl)
      | inl (dest_abs, c) ↦ elim (Bool-cases (is_dir (st.fs.stat dest_abs))) [
        | inl d ↦ inr (src_abs, dest_abs, k, c, rw (t, k, c, d) refl)
        | inr d ↦ inl (400, rw (t, k, c, d) refl)
      ]
    ]
  ]
]

abbrev pub UploadForm : Storage → Text → Text → Plan (FilePath × Text) → Type 0
UploadForm st dest_dir given p =
    (target : FilePath) × (safe_path st dest_dir ≡ ok target)
    × (is_empty (sanitize_name given) ≡ false)
    × (p
        ≡ if_free (st.fs.stat (append_part target (sanitize_name given)))
            (append_part target (sanitize_name given), sanitize_name given))

pub upload_cases :
    (st : Storage) (dest_dir : Text) (file_name : Option Text)
    → Refuses (plan_upload st dest_dir file_name)
      ⊎ ((given : Text) × UploadForm st dest_dir given (plan_upload st dest_dir file_name))
unfolding plan_upload
upload_cases st dest_dir file_name = elim (Bool-cases (is_trash_path dest_dir)) [
  | inl t ↦ inl (400, rw t refl)
  | inr t ↦ elim (path_cases (safe_path st dest_dir)) [
    | inr (x, k) ↦ inl (400, rw (t, k) refl)
    | inl (target, k) ↦ elim (Bool-cases (is_dir (st.fs.stat target))) [
      | inr d ↦ inl (400, rw (t, k, d) refl)
      | inl d ↦ elim (Option-cases file_name) [
        | inl f ↦ inl (400, rw (t, k, d, f) refl)
        | inr (given, f) ↦ elim (Bool-cases (is_empty (sanitize_name given))) [
          | inl n ↦ inl (400, rw (t, k, d, f, n) refl)
          | inr n ↦ inr (given, (target, k, n, rw (t, k, d, f, n) refl))
        ]
      ]
    ]
  ]
]
