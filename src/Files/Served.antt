-- ===== src/Files/Served.antt =====
-- What the handlers of handlers.go answer from the files: listings, downloads and previews.
use dingbap.Cache.{ListingCache, get, set}
use dingbap.Paths.Names.{path_join}
use dingbap.Files.{path_base, codes, Storage, path_join}
use dingbap.Text.{Text, text_eq, trim_prefix, lower, codes, contains_byte, to_lower, has_prefix}
use dingbap.Paths.{FilePath, Stat, PathResult, safe_path, Storage, dot}
use dingbap.Base.{
  ◌∷◌, [], ◌*◌, ◌^◌, ◌==◌, ◌&&◌, ◌||◌, ◌⊎◌, if◌then◌else◌, inl, inr, none, some, true, false, Bool,
  List, Option, ℕ, not, is_empty, ltb, is_some,
}
use dingbap.Paths

-- `filepath.Ext`
unfoldable pub ext : Text → Text
ext [] = []
ext (c ∷ s) =
    if is_empty (ext s)
    then (if c == b'.' && not (contains_byte b'/' s || contains_byte b'.' s) then c ∷ s else [])
    else ext s

abbrev pub one_of : Text → List Text → Bool
one_of e [] = false
one_of e (x ∷ xs) = text_eq e x || one_of e xs

abbrev pub dangerous_exts : List Text
dangerous_exts =
    codes ".html"
    ∷ codes ".htm"
    ∷ codes ".shtml"
    ∷ codes ".svg"
    ∷ codes ".svgz"
    ∷ codes ".xml"
    ∷ codes ".xhtml"
    ∷ codes ".js"
    ∷ codes ".mjs"
    ∷ codes ".css"
    ∷ []

unfoldable pub is_dangerous_inline_ext : Text → Bool
unfolding ext text_eq lower
is_dangerous_inline_ext name = one_of (to_lower (ext name)) dangerous_exts

pub data Kind : Type 0 where
  image pdf video text : Kind

-- The type and the kind of a file that can be previewed.
unfoldable pub content_type_of : Text → Option (Text × Kind)
unfolding text_eq
content_type_of e =
    if text_eq e (codes ".png")
    then some (codes "image/png", image)
    else if one_of e (codes ".jpg" ∷ codes ".jpeg" ∷ [])
    then some (codes "image/jpeg", image)
    else if text_eq e (codes ".webp")
    then some (codes "image/webp", image)
    else if text_eq e (codes ".gif")
    then some (codes "image/gif", image)
    else if text_eq e (codes ".pdf")
    then some (codes "application/pdf", pdf)
    else if text_eq e (codes ".mp4")
    then some (codes "video/mp4", video)
    else if text_eq e (codes ".webm")
    then some (codes "video/webm", video)
    else if one_of e (codes ".txt" ∷ codes ".md" ∷ codes ".go" ∷ [])
    then some (codes "text/plain; charset=utf-8", text)
    else if text_eq e (codes ".json")
    then some (codes "application/json", text)
    else none

unfoldable pub preview_content_type : Text → Option (Text × Kind)
unfolding ext lower content_type_of
preview_content_type name = content_type_of (to_lower (ext name))

-- The headers that a handler sets before the file is served; `content_type` is left to the library
-- where it is `none`.
pub record Headers : Type 0 where
  pub nosniff : Bool
  pub attachment : Bool
  pub content_type : Option Text

pub data Served : Type 0 where
  redirects : Served
  fails : ℕ → Served
  serves : FilePath → Headers → Served

unfoldable pub stored_headers : Text → Bool → Headers
unfolding is_dangerous_inline_ext
stored_headers name force_download = record {
  nosniff = true;
  attachment = force_download || is_dangerous_inline_ext name;
  content_type =
      if is_dangerous_inline_ext name then some (codes "application/octet-stream") else none;
}

unfoldable pub serve_stored_file : FilePath → Bool → Served
unfolding stored_headers path_base
serve_stored_file target force_download =
    serves target (stored_headers (path_base target) force_download)

-- A file that can be read, with its size.
abbrev pub file_size : Stat → Option ℕ
file_size (Paths.file n) = some n
file_size Paths.absent = none
file_size Paths.broken = none
file_size Paths.folder = none

unfoldable pub handle_download : Storage → Text → Served
unfolding trim_prefix safe_path serve_stored_file
handle_download st url_path =
    let rel = trim_prefix url_path (codes "/download/") in
    if is_empty rel then redirects else elim (safe_path st rel) [
      | Paths.err e ↦ fails 400
      | Paths.ok target ↦
          if is_some (file_size (st.fs.stat target))
          then serve_stored_file target true
          else fails 404
    ]

abbrev pub max_text_preview : ℕ
max_text_preview = 2 * 2 ^ 20

abbrev pub is_text : Kind → Bool
is_text text = true
is_text k = false

unfoldable pub preview_of : FilePath → Option ℕ → Option (Text × Kind) → Served
preview_of target none t = fails 404
preview_of target (some size) none = fails 415
preview_of target (some size) (some (ctype, kind)) =
    if is_text kind && ltb max_text_preview size
    then fails 413
    else serves target (record { nosniff = true; attachment = false; content_type = some ctype })

unfoldable pub handle_preview : Storage → Text → Served
unfolding trim_prefix safe_path preview_content_type preview_of path_base
handle_preview st url_path =
    let rel = trim_prefix url_path (codes "/preview/") in
    if is_empty rel then fails 404 else elim (safe_path st rel) [
      | Paths.err e ↦ fails 400
      | Paths.ok target ↦
          preview_of target (file_size (st.fs.stat target))
            (preview_content_type (path_base target))
    ]

pub record TreeNode : Type 0 where
  pub name : Text
  pub path : Text
  pub is_dir : Bool
  pub size : ℕ

-- An entry of a folder as `os.ReadDir` gives it; the size is that of `Info`, where it can be read.
pub record DirEntry : Type 0 where
  pub name : Text
  pub is_dir : Bool
  pub size : Option ℕ

abbrev pub size_or_zero : Bool → Option ℕ → ℕ
size_or_zero is_dir none = 0
size_or_zero is_dir (some n) = if is_dir then 0 else n

abbrev pub resolves : PathResult → Bool
resolves (Paths.ok path) = true
resolves (Paths.err e) = false

-- The loop of `listDirNodes` over the entries: hidden ones, and links that lead out, are left out.
unfoldable pub list_nodes : Storage → Text → List DirEntry → List TreeNode
unfolding safe_path path_join has_prefix
list_nodes st rel [] = []
list_nodes st rel (e ∷ es) =
    let child = path_join (rel ∷ e.name ∷ []) in
    let node : TreeNode = record {
      name = e.name;
      path = child;
      is_dir = e.is_dir;
      size = size_or_zero e.is_dir e.size;
    } in
    let rest = list_nodes st rel es in
    if has_prefix e.name dot || not (resolves (safe_path st child)) then rest else node ∷ rest

-- The status code of a failure, or the listing and whether the cache had it.
abbrev pub Listed : Type 0
Listed = ListingCache (List TreeNode) × ((List TreeNode × Bool) ⊎ ℕ)

-- The entries that `os.ReadDir` gives.
unfoldable pub list_entries :
    Storage → Text → ListingCache (List TreeNode) → Option (List DirEntry) → Listed
unfolding set list_nodes
list_entries st rel c none = (c, inr 500)
list_entries st rel c (some es) =
    (set rel (list_nodes st rel es) c, inl (list_nodes st rel es, false))

unfoldable pub list_found :
    Storage → Text → ListingCache (List TreeNode) → Option (List DirEntry) → Stat → Listed
unfolding list_entries
list_found st rel c entries Paths.absent = (c, inr 404)
list_found st rel c entries Paths.broken = (c, inr 500)
list_found st rel c entries (Paths.file n) = (c, inr 400)
list_found st rel c entries Paths.folder = list_entries st rel c entries

-- `read_dir` is the content of a folder, where it can be read.
unfoldable pub list_missed :
    Storage → (FilePath → Option (List DirEntry)) → Text → ListingCache (List TreeNode) → Listed
unfolding safe_path list_found
list_missed st read_dir rel c = elim (safe_path st rel) [
  | Paths.err e ↦ (c, inr 500)
  | Paths.ok target ↦ list_found st rel c (read_dir target) (st.fs.stat target)
]

unfoldable pub list_dir_nodes :
    Storage → (FilePath → Option (List DirEntry)) → Text → ListingCache (List TreeNode) → Listed
unfolding get list_missed
list_dir_nodes st read_dir rel c =
    let (c', cached) = get rel c in
    elim cached [ some nodes ↦ (c', inl (nodes, true)) | none ↦ list_missed st read_dir rel c' ]

unfoldable pub handle_tree :
    Storage → (FilePath → Option (List DirEntry)) → Text → ListingCache (List TreeNode) → Listed
unfolding safe_path list_dir_nodes
handle_tree st read_dir rel c =
    if resolves (safe_path st rel) then list_dir_nodes st read_dir rel c else (c, inr 400)
