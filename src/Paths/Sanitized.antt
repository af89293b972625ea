-- ===== src/Paths/Sanitized.antt =====
-- A sanitized name is one segment of a path and is not hidden.
use dingbap.Base.{◌≡◌, refl, keep, false, ℕ, ◌==◌, Bool, ◌∷◌, ◌⊎◌, arith, [], inl, inr, not}
use dingbap.Text.{Text, contains_byte, has_prefix, trim_left, codes}
use dingbap.Paths.Names.{sanitize_name, base}

contains_byte-keep :
    (b : ℕ) (p : ℕ → Bool) (s : Text)
    → (p b ≡ false) ⊎ (contains_byte b s ≡ false)
    → contains_byte b (keep p s) ≡ false
unfolding contains_byte keep
contains_byte-keep b p [] h = refl
contains_byte-keep b p (c ∷ s) h = ground (arith, contains_byte-keep b p s)

contains_byte-trim_left :
    (b : ℕ) (p : ℕ → Bool) (s : Text)
    → contains_byte b s ≡ false
    → contains_byte b (trim_left p s) ≡ false
unfolding contains_byte trim_left
contains_byte-trim_left b p [] h = refl
contains_byte-trim_left b p (c ∷ s) h = ground (arith, contains_byte-trim_left b p s)

has_prefix-trim_left : (s : Text) → has_prefix (trim_left (λ c. c == b'.') s) (codes ".") ≡ false
unfolding has_prefix trim_left
has_prefix-trim_left [] = refl
has_prefix-trim_left (c ∷ s) = ground (arith, has_prefix-trim_left s)

-- A sanitized name holds no slash and no backslash, and does not begin with a dot.
pub sanitize_name_safe :
    (name : Text)
    → (contains_byte b'/' (sanitize_name name) ≡ false)
      × (contains_byte b'\\' (sanitize_name name) ≡ false)
      × (has_prefix (sanitize_name name) (codes ".") ≡ false)
unfolding sanitize_name contains_byte has_prefix
sanitize_name_safe name =
    let raw = base name in
    let bare = keep (λ c. not (c == b'\\')) raw in
    let plain = keep (λ c. not (c == b'/')) bare in
    let no_slash = contains_byte-keep b'/' (λ c. not (c == b'/')) bare (inl refl) in
    let no_back = contains_byte-keep b'\\' (λ c. not (c == b'\\')) raw (inl refl) in
    let no_back' = contains_byte-keep b'\\' (λ c. not (c == b'/')) bare (inr no_back) in
    let slash = contains_byte-trim_left b'/' (λ c. c == b'.') plain no_slash in
    let back = contains_byte-trim_left b'\\' (λ c. c == b'.') plain no_back' in
    let shown = has_prefix-trim_left plain in
    (ground (arith, slash), ground (arith, back), ground (arith, shown))
