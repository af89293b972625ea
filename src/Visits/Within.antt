-- ===== src/Visits/Within.antt =====
-- What a link sends or lists lies under the shared path.
use dingbap.Visits.Routes.{visit_link}
use dingbap.Paths.Names.{path_join}
use dingbap.Shares.{Share, ShareStore, ShareError, begin_download}
use dingbap.Text.{has_prefix, text_eq, Text, codes, trim_prefix}
use dingbap.Paths.{Storage, FilePath, safe_path, Stat, climbs, rel_parts, dot_dot}
use dingbap.Paths
use dingbap.Text.Laws.{text_eq_iff}
use dingbap.Paths.Confinement.{rel_parts-append}
use dingbap.Base.{
  ◌∷◌, [], ◌≡◌, ◌++◌, true, false, refl, arith, none, some, List, Option, not, ◌||◌, if◌then◌else◌,
  inl, inr, sym, subst, Bool-cases, append-nil, is_empty, ◌&&◌, Bool, if_each,
}
use dingbap.Visits.{
  Answer, drops, lists, sends, zips, has_prefix, under_share, reserve_and_send, send_file, Share,
  Moment, rises, counted_answer, serve_share_download, serve_share_file, inside_path, path_join,
  if_safe, show_target, serve_share_content, serve_share_zip, Visit,
}

-- The path is the shared one, or lies below it where a folder is shared.
abbrev pub Lies : Storage → Share → FilePath → Type 0
Lies st sh target =
    (shared : FilePath) × (rest : FilePath) × (safe_path st sh.path ≡ Paths.ok shared)
    × (target ≡ shared ++ rest)
    × (sh.is_dir ≡ false → rest ≡ [])

abbrev pub Within : Storage → Share → Answer → Type 0
Within st sh (sends target) = Lies st sh target
Within st sh (lists target) = Lies st sh target
Within st sh (zips path) = path ≡ sh.path
Within st sh (drops target bytes) = true ≡ false
Within st sh a = Unit

rises-climbs : (parts : List Text) → rises parts ≡ false → climbs parts ≡ false
unfolding has_prefix text_eq
rises-climbs [] h = refl
rises-climbs (part ∷ parts) h = elim (Bool-cases (text_eq part dot_dot)) [
  | inl e ↦
      ground (arith, subst (λ p. has_prefix p dot_dot ≡ false) ((text_eq_iff part dot_dot).0 e) h)
  | inr e ↦ e
]

below :
    (st : Storage) (sh : Share) (target : FilePath) (r : Paths.PathResult)
    → safe_path st sh.path ≡ r
    → sh.is_dir ≡ true
    → elim r [ Paths.err e ↦ false | Paths.ok shared ↦ not (rises (rel_parts shared target)) ]
      ≡ true
    → Lies st sh target
below st sh target (Paths.err e) q d h = ground (arith, h)
below st sh target (Paths.ok shared) q d h = (
  shared,
  rel_parts shared target,
  q,
  rel_parts-append shared target (rises-climbs (rel_parts shared target) (ground (arith, h))),
  λ n. ground (arith, n, d),
)

under_share-Lies :
    (st : Storage) (sh : Share) (target : FilePath)
    → sh.is_dir ≡ true
    → under_share st sh target ≡ true
    → Lies st sh target
unfolding under_share
under_share-Lies st sh target d h = below st sh target (safe_path st sh.path) refl d h

counted_answer-Within :
    (st : Storage) (sh : Share) (a : Answer)
    → Within st sh a
    → (r : ShareStore × Option ShareError) → Within st sh (counted_answer a r).1
counted_answer-Within st sh a w (s, none) = w
counted_answer-Within st sh a w (s, some e) = tt

reserve_and_send-Within :
    (st : Storage) (o : Moment) (sh : Share) (a : Answer) (s : ShareStore)
    → Within st sh a
    → Within st sh (reserve_and_send o sh a s).1
unfolding reserve_and_send
reserve_and_send-Within st o sh a s w =
    counted_answer-Within st sh a w
      (begin_download sh.token o.counted_at o.counted_later o.counted o.dropped s)

send_file-Within :
    (st : Storage) (o : Moment) (sh : Share) (target : FilePath) (found : Stat) (s : ShareStore)
    → Lies st sh target
    → Within st sh (send_file o sh target found s).1
unfolding send_file
send_file-Within st o sh target (Paths.file n) s w =
    reserve_and_send-Within st o sh (sends target) s w
send_file-Within st o sh target Paths.absent s w = tt
send_file-Within st o sh target Paths.broken s w = tt
send_file-Within st o sh target Paths.folder s w = tt

if_safe-Within :
    (st : Storage) (sh : Share) (s : ShareStore) (next : FilePath → ShareStore × Answer)
    (r : Paths.PathResult)
    → ((target : FilePath) → r ≡ Paths.ok target → Within st sh (next target).1)
    → Within st sh (if_safe r s next).1
if_safe-Within st sh s next (Paths.err e) k = tt
if_safe-Within st sh s next (Paths.ok target) k = k target refl

abbrev AllWithin : Storage → Share → ShareStore × Answer → Type 0
AllWithin st sh r = Within st sh r.1

serve_share_download-Within :
    (st : Storage) (o : Moment) (sh : Share) (s : ShareStore)
    → Within st sh (serve_share_download st o sh s).1
unfolding serve_share_download
serve_share_download-Within st o sh s =
    if_each (AllWithin st sh) sh.is_dir (λ d. tt)
      (λ d. if_safe-Within st sh s _ (safe_path st sh.path) (λ target q.
        send_file-Within st o sh target (st.fs.stat target) s
          (target, [], q, sym (append-nil target), λ n. refl)))

serve_share_file-Within :
    (st : Storage) (o : Moment) (sh : Share) (rel : Text) (s : ShareStore)
    → Within st sh (serve_share_file st o sh rel s).1
unfolding serve_share_file
serve_share_file-Within st o sh rel s =
    if_each (AllWithin st sh) (not sh.is_dir || is_empty (inside_path rel)) (λ d. tt)
      (λ d.
        if_safe-Within st sh s _ (safe_path st (path_join (sh.path ∷ inside_path rel ∷ [])))
          (λ target q.
            if_each (AllWithin st sh) (under_share st sh target)
              (λ u.
                send_file-Within st o sh target (st.fs.stat target) s
                  (under_share-Lies st sh target (ground (arith, d)) u))
              (λ u. tt)))

-- A target that passed the check of a folder, or the shared path of a file.
show_target-Within :
    (st : Storage) (o : Moment) (sh : Share) (at_top : Bool) (target : FilePath) (found : Stat)
    (s : ShareStore)
    → Lies st sh target
    → Within st sh (show_target o sh at_top target found s).1
unfolding show_target
show_target-Within st o sh at_top target Paths.absent s w = tt
show_target-Within st o sh at_top target Paths.broken s w = tt
show_target-Within st o sh at_top target (Paths.file n) s w =
    if_each (AllWithin st sh) (not sh.is_dir && at_top) (λ d. tt)
      (λ d. reserve_and_send-Within st o sh (sends target) s w)
show_target-Within st o sh at_top target Paths.folder s w =
    if_each (AllWithin st sh) o.listed (λ d. w) (λ d. tt)

at_share :
    (st : Storage) (shared path : Text) (target : FilePath) (rel : Text)
    → is_empty rel ≡ true
    → safe_path st (if is_empty rel then shared else path) ≡ Paths.ok target
    → safe_path st shared ≡ Paths.ok target
at_share st shared path target [] h q = q
at_share st shared path target (c ∷ rel) h q = ground arith

content-Lies :
    (st : Storage) (sh : Share) (rel : Text) (target : FilePath)
    → (not (is_empty rel) && not sh.is_dir) ≡ false
    → safe_path st (if is_empty rel then sh.path else path_join (sh.path ∷ rel ∷ []))
      ≡ Paths.ok target
    → (sh.is_dir && not (under_share st sh target)) ≡ false
    → Lies st sh target
content-Lies st sh rel target h q u = elim (Bool-cases sh.is_dir) [
  | inl d ↦ under_share-Lies st sh target d (ground arith)
  | inr d ↦ (
    target,
    [],
    at_share st sh.path (path_join (sh.path ∷ rel ∷ [])) target rel (ground arith) q,
    sym (append-nil target),
    λ n. refl,
  )
]

serve_share_content-Within :
    (st : Storage) (o : Moment) (sh : Share) (rel : Text) (s : ShareStore)
    → Within st sh (serve_share_content st o sh rel s).1
unfolding serve_share_content
serve_share_content-Within st o sh rel s =
    if_each (AllWithin st sh) (not (is_empty (inside_path rel)) && not sh.is_dir) (λ h. tt)
      (λ h.
        if_safe-Within st sh s _
          (safe_path st (
            if is_empty (inside_path rel)
            then sh.path
            else path_join (sh.path ∷ inside_path rel ∷ [])))
          (λ target q.
            if_each (AllWithin st sh) (sh.is_dir && not (under_share st sh target)) (λ u. tt)
              (λ u.
                show_target-Within st o sh (is_empty (inside_path rel)) target (st.fs.stat target) s
                  (content-Lies st sh (inside_path rel) target h q u))))

serve_share_zip-Within :
    (st : Storage) (v : Visit) (o : Moment) (sh : Share) (s : ShareStore)
    → Within st sh (serve_share_zip v o sh s).1
unfolding serve_share_zip
serve_share_zip-Within st v o sh s =
    if_each (AllWithin st sh) (text_eq v.method (codes "GET") || text_eq v.method (codes "POST"))
      (λ g. reserve_and_send-Within st o sh (zips sh.path) s refl) (λ g. tt)

-- Whatever a visitor asks of a link that can be downloaded, a file that is sent and a folder that is
-- listed is the shared path or lies below it, and is the shared path itself where a file is shared; an
-- archive is of the shared path, and nothing is written.
pub visit_link-Within :
    (st : Storage) (v : Visit) (o : Moment) (sh : Share) (sub : Text) (s : ShareStore)
    → Within st sh (visit_link st v o sh sub s).1
unfolding visit_link
visit_link-Within st v o sh sub s =
    if_each (AllWithin st sh) (text_eq sub (codes "download"))
      (λ h. serve_share_download-Within st o sh s)
      (λ h.
        if_each (AllWithin st sh) (is_empty sub || text_eq sub (codes "browse"))
          (λ h. serve_share_content-Within st o sh [] s)
          (λ h.
            if_each (AllWithin st sh) (has_prefix sub (codes "browse/"))
              (λ h. serve_share_content-Within st o sh (trim_prefix sub (codes "browse/")) s)
              (λ h.
                if_each (AllWithin st sh) (text_eq sub (codes "zip"))
                  (λ h. serve_share_zip-Within st v o sh s)
                  (λ h.
                    if_each (AllWithin st sh) (has_prefix sub (codes "f/"))
                      (λ h. serve_share_file-Within st o sh (trim_prefix sub (codes "f/")) s)
                      (λ h. tt)))))
