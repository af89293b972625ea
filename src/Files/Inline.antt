-- ===== src/Files/Inline.antt =====
-- Files that a browser would run are never served inline.
use dingbap.Trash.Kept.{path_cases}
use dingbap.Text.Laws.{text_eq_iff}
use dingbap.Files.{path_base, codes, safe_path}
use dingbap.Text.{text_eq, Text, trim_prefix, codes, to_lower}
use dingbap.Paths.{Storage, FilePath, safe_path}
use dingbap.Base.{
  ◌∷◌, [], ◌≡◌, ◌&&◌, inl, inr, none, some, true, Bool, List, Option, ℕ, refl, arith, sym, subst,
  All, if_both, Bool-cases, is_empty, ltb, is_some,
}
use dingbap.Files.Served.{
  Served, is_dangerous_inline_ext, serves, serve_stored_file, preview_of, handle_preview,
  handle_download, preview_content_type, stored_headers, content_type_of, Kind, one_of, ext,
  is_text, dangerous_exts, max_text_preview, file_size,
}

one_of-All : (P : Text → Type 0) (e : Text) (xs : List Text) → All P xs → one_of e xs ≡ true → P e
unfolding text_eq
one_of-All P e [] h k = ground arith
one_of-All P e (x ∷ xs) h k = elim (Bool-cases (text_eq e x)) [
  | inl q ↦ subst P (sym ((text_eq_iff e x).0 q)) h.0
  | inr q ↦ one_of-All P e xs h.1 (ground (arith, q))
]

dangerous-preview_content_type :
    (name : Text) → is_dangerous_inline_ext name ≡ true → preview_content_type name ≡ none
unfolding is_dangerous_inline_ext preview_content_type
dangerous-preview_content_type name d =
    one_of-All (λ e. content_type_of e ≡ none) (to_lower (ext name)) dangerous_exts
      (refl, (refl, (refl, (refl, (refl, (refl, (refl, (refl, (refl, (refl, tt)))))))))) d

-- The endings of pages, images with scripts, scripts and style sheets.
abbrev pub active_endings : List Text
active_endings =
    codes ".html"
    ∷ codes ".htm"
    ∷ codes ".shtml"
    ∷ codes ".xhtml"
    ∷ codes ".xml"
    ∷ codes ".svg"
    ∷ codes ".svgz"
    ∷ codes ".js"
    ∷ codes ".mjs"
    ∷ codes ".css"
    ∷ []

-- The ending of a name, in lower case, is one of them.
abbrev pub IsActive : Text → Type 0
IsActive name = one_of (to_lower (ext name)) active_endings ≡ true

active_is_dangerous : (name : Text) → IsActive name → is_dangerous_inline_ext name ≡ true
unfolding is_dangerous_inline_ext text_eq
active_is_dangerous name a =
    one_of-All (λ e. one_of e dangerous_exts ≡ true) (to_lower (ext name)) active_endings
      (refl, (refl, (refl, (refl, (refl, (refl, (refl, (refl, (refl, (refl, tt)))))))))) a

-- An active file is an attachment, of a type that is not run or displayed, and its type is not guessed.
abbrev pub NeverInline : Served → Type 0
NeverInline (serves target h) =
    IsActive (path_base target)
    → (h.attachment ≡ true)
      × (h.nosniff ≡ true)
      × (h.content_type ≡ some (codes "application/octet-stream"))
NeverInline s = Unit

serve_stored_file-NeverInline :
    (target : FilePath) (force : Bool) → NeverInline (serve_stored_file target force)
unfolding serve_stored_file stored_headers
serve_stored_file-NeverInline target force a =
    rw (active_is_dangerous (path_base target) a) (ground arith, refl, refl)

preview_of-NeverInline :
    (target : FilePath) (size : Option ℕ) (t : Option (Text × Kind))
    → (IsActive (path_base target) → t ≡ none)
    → NeverInline (preview_of target size t)
unfolding preview_of
preview_of-NeverInline target none t h = tt
preview_of-NeverInline target (some n) none h = tt
preview_of-NeverInline target (some n) (some (ctype, kind)) h =
    if_both NeverInline (is_text kind && ltb max_text_preview n) tt (λ d. ground (arith, h d))

handle_preview-NeverInline : (st : Storage) (url : Text) → NeverInline (handle_preview st url)
unfolding handle_preview
handle_preview-NeverInline st url =
    let rel = trim_prefix url (codes "/preview/") in
    elim (Bool-cases (is_empty rel)) [
      | inl e ↦ rw e tt
      | inr e ↦ elim (path_cases (safe_path st rel)) [
        | inr (x, k) ↦ rw (e, k) tt
        | inl (target, k) ↦
            rw (e, k)
              (preview_of-NeverInline target (file_size (st.fs.stat target))
                (preview_content_type (path_base target))
                (λ a.
                  dangerous-preview_content_type (path_base target)
                    (active_is_dangerous (path_base target) a)))
      ]
    ]

handle_download-NeverInline : (st : Storage) (url : Text) → NeverInline (handle_download st url)
unfolding handle_download
handle_download-NeverInline st url =
    let rel = trim_prefix url (codes "/download/") in
    elim (Bool-cases (is_empty rel)) [
      | inl e ↦ rw e tt
      | inr e ↦ elim (path_cases (safe_path st rel)) [
        | inr (x, k) ↦ rw (e, k) tt
        | inl (target, k) ↦ elim (Bool-cases (is_some (file_size (st.fs.stat target)))) [
          | inl f ↦ rw (e, k, f) (serve_stored_file-NeverInline target true)
          | inr f ↦ rw (e, k, f) tt
        ]
      ]
    ]

-- Neither a preview nor a download serves a file that ends in .html, .htm, .shtml, .xhtml, .xml, .svg,
-- .svgz, .js, .mjs or .css, in whatever case, other than as an attachment of the type
-- `application/octet-stream` that must not be sniffed.
pub served-NeverInline :
    (st : Storage) (url : Text)
    → NeverInline (handle_preview st url) × NeverInline (handle_download st url)
served-NeverInline st url = (handle_preview-NeverInline st url, handle_download-NeverInline st url)
