-- ===== src/Visits.antt =====
-- Visits to a share link (shares.go): the password and its cookie, and the handlers behind `/s/`. The
-- digest and the check of a password are arguments.
pub mod Routes
pub mod Gate
pub mod Within
pub mod Dropped
mod Examples
use dingbap.Paths.Names.{path_join}
use dingbap.Text.{Text, trim, text_eq, codes, has_prefix, trim_slashes, replace_byte}
use dingbap.Paths.{safe_path, FilePath, rel_parts, Stat, Storage, dot_dot, PathResult}
use dingbap.Base.{
  ◌∷◌, [], ◌++◌, ◌==◌, ◌&&◌, ◌||◌, if◌then◌else◌, none, some, true, false, Bool, List, Option, ℕ,
  not, is_empty, take, length,
}
use dingbap.Shares.{Share, ShareStore, ShareError, begin_download}
use dingbap.Paths

-- What a handler reads of a visit; `cookie` gives the value of a cookie.
pub record Visit : Type 0 where
  pub method : Text
  pub path : Text
  pub cookie : Text → Option Text

abbrev pub share_cookie_prefix : Text
share_cookie_prefix = codes "dingbap_su_"

unfoldable pub share_needs_password : Share → Bool
share_needs_password sh = not (is_empty sh.password_hash)

unfoldable pub share_unlock_cookie_name : Text → Text
share_unlock_cookie_name token = share_cookie_prefix ++ take 16 token

-- `digest` is the hexadecimal SHA-256 of a text.
unfoldable pub share_unlock_value : (Text → Text) → Share → Text
share_unlock_value digest sh = digest (sh.password_hash ++ (codes "|" ++ (sh.token ++ codes "|ok")))

-- The loop over the bytes of two texts of one length.
abbrev pub same_bytes : Text → Text → Bool
same_bytes [] b = true
same_bytes (x ∷ a) [] = true
same_bytes (x ∷ a) (y ∷ b) = x == y && same_bytes a b

unfoldable pub subtle_constant_time_eq : Text → Text → Bool
subtle_constant_time_eq a b = length a == length b && same_bytes a b

abbrev pub has_value : Text → Option Text → Bool
has_value want none = false
has_value want (some value) = subtle_constant_time_eq value want

unfoldable pub share_unlocked : (Text → Text) → Visit → Share → Bool
unfolding share_needs_password share_unlock_cookie_name share_unlock_value subtle_constant_time_eq
share_unlocked digest v sh =
    not (share_needs_password sh)
    || has_value (share_unlock_value digest sh) (v.cookie (share_unlock_cookie_name sh.token))

-- What a visit gets.
pub data Answer : Type 0 where
  gone asks_password wrong_password bad_request drop_page file_page wrong_method : Answer
  unavailable to_zip : Answer
  refused : ℕ → Answer
  drops : FilePath → Text → Answer
  unlocks : Text → Text → Answer
  lists : FilePath → Answer
  sends : FilePath → Answer
  zips : Text → Answer

-- What the outside answers during a visit: the clock when the share is looked up and when the download
-- is counted, which writes of `shares.json` succeed, and whether the folder can be read.
pub record Moment : Type 0 where
  pub at : ℕ
  pub later : ℕ
  pub counted_at : ℕ
  pub counted_later : ℕ
  pub written : Bool
  pub counted : Bool
  pub dropped : Bool
  pub listed : Bool

abbrev pub counted_answer : Answer → ShareStore × Option ShareError → ShareStore × Answer
counted_answer a (s, none) = (s, a)
counted_answer a (s, some e) = (s, gone)

-- `beginDownload` before anything is sent.
unfoldable pub reserve_and_send : Moment → Share → Answer → ShareStore → ShareStore × Answer
unfolding begin_download
reserve_and_send o sh a s =
    counted_answer a (begin_download sh.token o.counted_at o.counted_later o.counted o.dropped s)

-- The first part of a relative path does not begin with two dots.
abbrev pub rises : List Text → Bool
rises [] = false
rises (part ∷ parts) = has_prefix part dot_dot

-- The check that a target stays under the shared path.
unfoldable pub under_share : Storage → Share → FilePath → Bool
unfolding safe_path rel_parts has_prefix
under_share st sh target = elim (safe_path st sh.path) [
  | Paths.err e ↦ false
  | Paths.ok shared ↦ not (rises (rel_parts shared target))
]

-- A file of a share.
unfoldable pub send_file : Moment → Share → FilePath → Stat → ShareStore → ShareStore × Answer
unfolding reserve_and_send
send_file o sh target (Paths.file n) s = reserve_and_send o sh (sends target) s
send_file o sh target Paths.absent s = (s, gone)
send_file o sh target Paths.broken s = (s, gone)
send_file o sh target Paths.folder s = (s, gone)

-- A path that does not resolve is answered as a link that is gone.
abbrev pub if_safe :
    PathResult → ShareStore → (FilePath → ShareStore × Answer) → ShareStore × Answer
if_safe (Paths.err e) s next = (s, gone)
if_safe (Paths.ok target) s next = next target

unfoldable pub serve_share_download : Storage → Moment → Share → ShareStore → ShareStore × Answer
unfolding safe_path send_file
serve_share_download st o sh s =
    if sh.is_dir
    then (s, to_zip)
    else if_safe (safe_path st sh.path) s (λ target. send_file o sh target (st.fs.stat target) s)

-- `strings.Trim(strings.ReplaceAll(rel, "\\", "/"), "/")`
unfoldable pub inside_path : Text → Text
unfolding trim
inside_path rel = trim_slashes (replace_byte b'\\' b'/' rel)

unfoldable pub serve_share_file : Storage → Moment → Share → Text → ShareStore → ShareStore × Answer
unfolding safe_path inside_path path_join under_share send_file
serve_share_file st o sh rel_inside s =
    let rel = inside_path rel_inside in
    if not sh.is_dir || is_empty rel
    then (s, gone)
    else if_safe (safe_path st (path_join (sh.path ∷ rel ∷ []))) s (λ target.
      if under_share st sh target then send_file o sh target (st.fs.stat target) s else (s, gone))

-- The page of a shared file, a file of a shared folder, or the listing of a folder.
unfoldable pub show_target :
    Moment → Share → Bool → FilePath → Stat → ShareStore → ShareStore × Answer
unfolding reserve_and_send
show_target o sh at_top target Paths.absent s = (s, unavailable)
show_target o sh at_top target Paths.broken s = (s, unavailable)
show_target o sh at_top target (Paths.file n) s =
    if not sh.is_dir && at_top then (s, file_page) else reserve_and_send o sh (sends target) s
show_target o sh at_top target Paths.folder s =
    if o.listed then (s, lists target) else (s, refused 500)

-- A path inside a shared file is refused.
unfoldable pub serve_share_content :
    Storage → Moment → Share → Text → ShareStore → ShareStore × Answer
unfolding safe_path inside_path path_join under_share show_target
serve_share_content st o sh rel_inside s =
    let rel = inside_path rel_inside in
    let target_rel = if is_empty rel then sh.path else path_join (sh.path ∷ rel ∷ []) in
    if not (is_empty rel) && not sh.is_dir
    then (s, gone)
    else if_safe (safe_path st target_rel) s (λ target.
      if sh.is_dir && not (under_share st sh target)
      then (s, gone)
      else show_target o sh (is_empty rel) target (st.fs.stat target) s)

unfoldable pub serve_share_zip : Visit → Moment → Share → ShareStore → ShareStore × Answer
unfolding reserve_and_send text_eq
serve_share_zip v o sh s =
    if text_eq v.method (codes "GET") || text_eq v.method (codes "POST")
    then reserve_and_send o sh (zips sh.path) s
    else (s, wrong_method)

-- The password of the form; `none` where the form cannot be read.
unfoldable pub handle_share_unlock :
    (Text → Text) → (Text → Text → Option Bool) → Share → Option Text → Answer
unfolding share_unlock_cookie_name share_unlock_value
handle_share_unlock digest verify sh none = bad_request
handle_share_unlock digest verify sh (some pass) = elim (verify sh.password_hash pass) [
  | none ↦ wrong_password
  | some right ↦
      if right
      then unlocks (share_unlock_cookie_name sh.token) (share_unlock_value digest sh)
      else wrong_password
]
