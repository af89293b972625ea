-- ===== src/Files/Moved.antt =====
-- The changes that a request to move many paths makes.
use dingbap.Trash.Kept.{path_cases}
use dingbap.Files.Plans.{not_refused}
use dingbap.Web.{Request, has_method}
use dingbap.Paths.Names.{is_trash_path, unique_non_empty_paths}
use dingbap.Files.Changes.{System, Action, Files, renames}
use dingbap.Paths.Confinement.{IsInside}
use dingbap.Text.{Text, trim_slashes, codes}
use dingbap.Paths.{FilePath, Storage, PathError, safe_path, ok, err}
use dingbap.Files.Bulk.{
  plan_bulk_move, move_one, move_each, finish, handle_bulk_move, Progress, max_paths, started,
}
use dingbap.Base.{
  ◌∷◌, [], ◌≡◌, ◌||◌, ◌∙◌, inl, inr, none, some, true, false, List, Option, refl, sym, subst,
  is_empty, Bool-cases, All, All-append, ltb, length,
}
use dingbap.Files.{
  Plan, Rename, FilePath, Storage, Text, is_trash_path, safe_path, plan_into, trim_slashes, codes,
  is_dir,
}
use dingbap.Files.Confined.{IsRooted, inside, IsRename, IsConfined, into-IsRename}

bulk_path :
    (st : Storage) (dest_dir : Text) (dest_abs src : FilePath) (rel : Text)
    → (is_empty rel || is_trash_path rel) ≡ false
    → safe_path st rel ≡ ok src
    → plan_bulk_move st dest_dir dest_abs rel ≡ plan_into st dest_dir dest_abs src
unfolding plan_bulk_move
bulk_path st dest_dir dest_abs src rel t k = rw (t, k) refl

bulk_refused :
    (st : Storage) (dest_dir : Text) (dest_abs : FilePath) (rel : Text) (x : PathError)
    → safe_path st rel ≡ err x
    → plan_bulk_move st dest_dir dest_abs rel ≡ inr 400
unfolding plan_bulk_move
bulk_refused st dest_dir dest_abs rel x k = elim (Bool-cases (is_empty rel || is_trash_path rel)) [
  | inl t ↦ rw t refl
  | inr t ↦ rw (t, k) refl
]

bulk_hidden :
    (st : Storage) (dest_dir : Text) (dest_abs : FilePath) (rel : Text)
    → (is_empty rel || is_trash_path rel) ≡ true
    → plan_bulk_move st dest_dir dest_abs rel ≡ inr 400
unfolding plan_bulk_move
bulk_hidden st dest_dir dest_abs rel t = rw t refl

bulk-IsRename :
    (root : FilePath) (st : Storage) (r : IsRooted root st) (dest_dir : Text) (dest_abs : FilePath)
    (rel : Text) (q : Rename)
    → IsInside root dest_abs
    → plan_bulk_move st dest_dir dest_abs rel ≡ inl q
    → IsRename root st r q
bulk-IsRename root st r dest_dir dest_abs rel q d e =
    let plan = plan_bulk_move st dest_dir dest_abs rel in
    elim (Bool-cases (is_empty rel || is_trash_path rel)) [
      | inl t ↦ not_refused plan q (400, bulk_hidden st dest_dir dest_abs rel t) e
      | inr t ↦ elim (path_cases (safe_path st rel)) [
        | inr (x, k) ↦ not_refused plan q (400, bulk_refused st dest_dir dest_abs rel x k) e
        | inl (src, k) ↦
            into-IsRename root st r dest_dir dest_abs src q d (inside root st r rel src k)
              (sym (bulk_path st dest_dir dest_abs src rel t k) ∙ e)
      ]
    ]

-- A change that is confined in the file system as it stood for one of the paths.
abbrev pub IsMoved : FilePath → (Text → Storage × System) → Action → Type 0
IsMoved root world a = (path : Text) × IsConfined root (world path).0 a

module _ {ℓ} {A : Type ℓ} (root : FilePath) (world : Text → Storage × System)
    (r : (path : Text) → IsRooted root (world path).0) where
  move_one-IsMoved :
      (path rel : Text) (plan : Plan Rename) (p : Progress A)
      → ((q : Rename) → plan ≡ inl q → IsRename root (world path).0 (r path) q)
      → All (IsMoved root world) p.acts
      → All (IsMoved root world) (move_one (world path).1 rel plan p).acts
  unfolding move_one
  move_one-IsMoved path rel (inr code) p h k = k
  move_one-IsMoved path rel (inl q) p h k =
      let done =
        All-append (IsMoved root world) p.acts (renames q.from q.to ∷ []) k
          ((path, h q refl), tt) in
      elim (Bool-cases (world path).1.did) [ inl e ↦ rw e done | inr e ↦ rw e k ]

  move_each-IsMoved :
      (dest_dir : Text) (dest_abs : FilePath) (paths : List Text) (p : Progress A)
      → IsInside root dest_abs
      → All (IsMoved root world) p.acts
      → All (IsMoved root world) (move_each world dest_dir dest_abs paths p).acts
  unfolding move_each
  move_each-IsMoved dest_dir dest_abs [] p d k = k
  move_each-IsMoved dest_dir dest_abs (path ∷ paths) p d k =
      let rel = trim_slashes path in
      let plan = plan_bulk_move (world path).0 dest_dir dest_abs rel in
      move_each-IsMoved dest_dir dest_abs paths (move_one (world path).1 rel plan p) d (
        move_one-IsMoved path rel plan p
          (λ q e. bulk-IsRename root (world path).0 (r path) dest_dir dest_abs rel q d e) k)

  acts-finish : (p : Progress A) → (finish p).acts ≡ p.acts
  unfolding finish
  acts-finish p = refl

  -- In a storage whose root is a folder and whose links resolve to clean paths, at the start of the
  -- request and at each of its paths, every rename of a bulk move takes an entry below the root, not
  -- the root itself, to a path below the root with no hidden segment in between, where nothing was.
  pub handle_bulk_move-IsMoved :
      (st : Storage) (req : Request) (body : Option (List Text × Text)) (f : Files A)
      → IsRooted root st
      → All (IsMoved root world) (handle_bulk_move st world req body f).acts
  unfolding handle_bulk_move
  handle_bulk_move-IsMoved st req none f s = elim (Bool-cases (has_method (codes "POST") req)) [
    | inl m ↦ rw m tt
    | inr m ↦ rw m tt
  ]
  handle_bulk_move-IsMoved st req (some b) f s =
      let paths = unique_non_empty_paths b.0 in
      elim (Bool-cases (has_method (codes "POST") req)) [
        | inr m ↦ rw m tt
        | inl m ↦
            elim (Bool-cases
              (is_empty paths || (ltb max_paths (length paths) || is_trash_path b.1))) [
                | inl t ↦ rw (m, t) tt
                | inr t ↦ elim (path_cases (safe_path st b.1)) [
                  | inr (x, k) ↦ rw (m, t, k) tt
                  | inl (dest_abs, k) ↦ elim (Bool-cases (is_dir (st.fs.stat dest_abs))) [
                    | inr d ↦ rw (m, t, k, d) tt
                    | inl d ↦
                        rw (m, t, k, d)
                          (subst (All (IsMoved root world))
                            (sym (acts-finish (move_each world b.1 dest_abs paths (started f))))
                            (move_each-IsMoved b.1 dest_abs paths (started f)
                              (inside root st s b.1 dest_abs k) tt))
                  ]
                ]
              ]
      ]
