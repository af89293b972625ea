-- ===== src/Visits/Routes.antt =====
-- `handlePublicShare` and `handleDropUpload` of shares.go.
use dingbap.Files.{is_dir}
use dingbap.Paths.Names.{sanitize_name}
use dingbap.Copies.{unique_copy_name}
use dingbap.Text.{Text, text_eq, trim_prefix, has_prefix, trim, codes, trim_slashes}
use dingbap.Paths.{FileSystem, safe_path, append_part, FilePath, Storage}
use dingbap.Base.{
  ◌∷◌, [], ◌+◌, ◌==◌, ◌&&◌, ◌||◌, if◌then◌else◌, none, some, Bool, Option, ℕ, not, is_empty, take,
  ltb, length,
}
use dingbap.Visits.{
  gone, asks_password, drop_page, refused, drops, Text, text_eq, handle_share_unlock,
  serve_share_download, share_unlocked, serve_share_content, serve_share_zip, serve_share_file,
  if_safe,
}
use dingbap.Shares.{
  Share, ShareStore, share_is_drop, begin_upload, undo_upload, ShareError, get_valid, lost, found,
}
use dingbap.Visits.{Visit, Answer, Moment}

-- A form of an upload: one that cannot be read, or the name and the bytes of its file.
pub data DropForm : Type 0 where
  broken_form : DropForm
  with_file : Option (Text × Text) → DropForm

-- What the operating system answers while a dropped file is written.
pub record Drop : Type 0 where
  pub nanos : ℕ
  pub opened : Bool
  pub copied : Bool
  pub undone : Bool

-- The file after its place in the quota is taken; each failure gives the place back.
unfoldable pub write_drop :
    FileSystem → ℕ → Drop → Share → FilePath → Text → Text → ShareStore → ShareStore × Answer
unfolding unique_copy_name append_part undo_upload
write_drop fs max_bytes d sh dir name bytes s =
    let dest = append_part dir (unique_copy_name fs d.nanos dir name) in
    let given_back = undo_upload sh.token d.undone s in
    let content = take (max_bytes + 1) bytes in
    if not d.opened || not d.copied
    then (given_back, refused 500)
    else if ltb max_bytes (length content)
    then (given_back, refused 413)
    else (s, drops dest content)

abbrev pub begun :
    FileSystem
    → ℕ
    → Drop
    → Share
    → FilePath
    → Text
    → Text
    → ShareStore × Option ShareError
    → ShareStore × Answer
begun fs max_bytes d sh dir name bytes (s, some e) = (s, refused 410)
begun fs max_bytes d sh dir name bytes (s, none) = write_drop fs max_bytes d sh dir name bytes s

unfoldable pub drop_named :
    Storage → ℕ → Moment → Drop → Share → Text → Text → ShareStore → ShareStore × Answer
unfolding safe_path begin_upload write_drop
drop_named st max_bytes o d sh name bytes s = if_safe (safe_path st sh.path) s (λ dir.
    if is_dir (st.fs.stat dir)
    then begun st.fs max_bytes d sh dir name bytes
        (begin_upload sh.token o.counted_at o.counted_later o.counted s)
    else (s, refused 404))

unfoldable pub handle_drop_upload :
    Storage → ℕ → Moment → Drop → Share → DropForm → ShareStore → ShareStore × Answer
unfolding sanitize_name drop_named
handle_drop_upload st max_bytes o d sh broken_form s =
    if share_is_drop sh then (s, refused 400) else (s, gone)
handle_drop_upload st max_bytes o d sh (with_file none) s =
    if share_is_drop sh then (s, refused 400) else (s, gone)
handle_drop_upload st max_bytes o d sh (with_file (some f)) s =
    let name = sanitize_name f.0 in
    if not (share_is_drop sh)
    then (s, gone)
    else if is_empty name
    then (s, refused 400)
    else drop_named st max_bytes o d sh name f.1 s

-- `strings.SplitN(rest, "/", 2)`: the token, and what follows it.
unfoldable pub split_token : Text → Text × Text
split_token [] = ([], [])
split_token (c ∷ s) =
    let (token, sub) = split_token s in if c == b'/' then ([], s) else (c ∷ token, sub)

-- The forms that a visit may carry: the password and the upload.
pub record Forms : Type 0 where
  pub password : Option Text
  pub upload : DropForm

-- A visit to a drop link.
unfoldable pub visit_drop :
    Storage → ℕ → Visit → Moment → Drop → Forms → Share → Text → ShareStore → ShareStore × Answer
unfolding handle_drop_upload text_eq
visit_drop st max_bytes v o d forms sh sub s =
    if text_eq sub (codes "upload") && text_eq v.method (codes "POST")
    then handle_drop_upload st max_bytes o d sh forms.upload s
    else if is_empty sub
    then (s, drop_page)
    else (s, gone)

-- A visit to a link that can be downloaded.
unfoldable pub visit_link :
    Storage → Visit → Moment → Share → Text → ShareStore → ShareStore × Answer
unfolding text_eq has_prefix trim_prefix serve_share_download serve_share_content serve_share_zip
    serve_share_file
visit_link st v o sh sub s =
    if text_eq sub (codes "download")
    then serve_share_download st o sh s
    else if is_empty sub || text_eq sub (codes "browse")
    then serve_share_content st o sh [] s
    else if has_prefix sub (codes "browse/")
    then serve_share_content st o sh (trim_prefix sub (codes "browse/")) s
    else if text_eq sub (codes "zip")
    then serve_share_zip v o sh s
    else if has_prefix sub (codes "f/")
    then serve_share_file st o sh (trim_prefix sub (codes "f/")) s
    else (s, gone)

-- The cases of `handlePublicShare` for a share that is found.
unfoldable pub visit_found :
    (Text → Text)
    → (Text → Text → Option Bool)
    → Storage
    → ℕ
    → Visit
    → Moment
    → Drop
    → Forms
    → Share
    → Text
    → ShareStore
    → ShareStore × Answer
unfolding text_eq handle_share_unlock share_unlocked visit_drop visit_link
visit_found digest verify st max_bytes v o d forms sh sub s =
    if text_eq sub (codes "unlock") && text_eq v.method (codes "POST")
    then (s, handle_share_unlock digest verify sh forms.password)
    else if not (share_unlocked digest v sh)
    then (s, asks_password)
    else if share_is_drop sh
    then visit_drop st max_bytes v o d forms sh sub s
    else visit_link st v o sh sub s

unfoldable pub handle_public_share :
    (Text → Text)
    → (Text → Text → Option Bool)
    → Storage
    → ℕ
    → Visit
    → Moment
    → Drop
    → Forms
    → ShareStore
    → ShareStore × Answer
unfolding trim_prefix trim split_token get_valid visit_found
handle_public_share digest verify st max_bytes v o d forms s =
    let rest = trim_slashes (trim_prefix v.path (codes "/s/")) in
    let (token, sub) = split_token rest in
    let (s', result) = get_valid token o.at o.later o.written s in
    if is_empty rest then (s, gone) else elim result [
      | lost e ↦ (s', gone)
      | found sh ↦ visit_found digest verify st max_bytes v o d forms sh sub s'
    ]
