-- ===== src/Copies/Shown.antt =====
-- The name of a copy of a file that is shown is itself one that is shown, and has no slash.
use dingbap.Paths.{dot, FileSystem, FilePath, append_part}
use dingbap.Files.Served.{ext}
use dingbap.Copies.{
  digits, codes, copy_name_candidate, first_free, unique_copy_name, decimal, FileSystem, FilePath,
  or_dated, max_rounds, is_absent, append_part,
}
use dingbap.Base.{
  ◌∷◌, [], ◌++◌, ◌≡◌, false, refl, arith, zero, suc, ◌+◌, ◌/◌, ◌%◌, ◌≢◌, ℕ, take, if_both, ltb, ◌-◌,
  ◌==◌, ◌&&◌, ◌||◌, not, ap, subst, is_empty, length,
}
use dingbap.Text.{contains_byte, Text, has_prefix, codes}

-- A name of one segment that is not hidden.
abbrev pub IsPlainName : Text → Type 0
IsPlainName name = (name ≢ []) × (has_prefix name dot ≡ false) × (contains_byte b'/' name ≡ false)

contains_byte-append :
    (b : ℕ) (s t : Text)
    → contains_byte b s ≡ false
    → contains_byte b t ≡ false
    → contains_byte b (s ++ t) ≡ false
unfolding contains_byte
contains_byte-append b [] t h k = k
contains_byte-append b (c ∷ s) t h k = ground (arith, contains_byte-append b s t, h, k)

contains_byte-take :
    (b n : ℕ) (s : Text) → contains_byte b s ≡ false → contains_byte b (take n s) ≡ false
unfolding contains_byte
contains_byte-take b zero s h = refl
contains_byte-take b (suc n) [] h = refl
contains_byte-take b (suc n) (c ∷ s) h = ground (arith, contains_byte-take b n s, h)

contains_byte-digits : (fuel n : ℕ) → contains_byte b'/' (digits fuel n) ≡ false
unfolding contains_byte digits
contains_byte-digits zero n = refl
contains_byte-digits (suc fuel) n =
    let last : contains_byte b'/' ((b'0' + n % 10) ∷ []) ≡ false = ground arith in
    if_both (λ t. contains_byte b'/' t ≡ false) (ltb n 10) (ground arith)
      (contains_byte-append b'/' (digits fuel (n / 10)) _ (contains_byte-digits fuel (n / 10)) last)

contains_byte-ext : (s : Text) → contains_byte b'/' s ≡ false → contains_byte b'/' (ext s) ≡ false
unfolding contains_byte ext
contains_byte-ext [] h = refl
contains_byte-ext (c ∷ s) h =
    let later : contains_byte b'/' s ≡ false = ground (arith, h) in
    if_both (λ t. contains_byte b'/' t ≡ false) (is_empty (ext s))
      (if_both (λ t. contains_byte b'/' t ≡ false)
        (c == b'.' && not (contains_byte b'/' s || contains_byte b'.' s)) h refl)
      (contains_byte-ext s later)

take_all : (s : Text) → take (length s) s ≡ s
take_all [] = refl
take_all (c ∷ s) = ap (λ t. c ∷ t) (take_all s)

-- A plain name keeps its begin when something is put behind a part of it.
suffixed-IsPlainName :
    (n : ℕ) (name rest : Text)
    → IsPlainName name
    → contains_byte b'/' rest ≡ false
    → IsPlainName (take n name ++ (codes " copy" ++ rest))
unfolding has_prefix contains_byte
suffixed-IsPlainName zero name rest h k = ((λ e. ground arith), refl, k)
suffixed-IsPlainName (suc n) [] rest h k = absurd (h.0 refl)
suffixed-IsPlainName (suc n) (c ∷ name) rest h k = (
  (λ e. ground arith),
  h.1,
  contains_byte-append b'/' (take (suc n) (c ∷ name)) (codes " copy" ++ rest)
      (contains_byte-take b'/' (suc n) (c ∷ name) h.2) k,
)

candidate-IsPlainName :
    (name : Text) (n : ℕ) → IsPlainName name → IsPlainName (copy_name_candidate name n)
unfolding copy_name_candidate decimal contains_byte
candidate-IsPlainName name zero h = h
candidate-IsPlainName name (suc zero) h =
    suffixed-IsPlainName (length name - length (ext name)) name (ext name) h
      (contains_byte-ext name h.2)
candidate-IsPlainName name (suc (suc n)) h =
    suffixed-IsPlainName (length name - length (ext name)) name
      (codes " " ++ (decimal (suc (suc n)) ++ ext name)) h
      (contains_byte-append b'/' (decimal (suc (suc n))) (ext name)
        (contains_byte-digits (suc (suc n) + 1) (suc (suc n))) (contains_byte-ext name h.2))

first_free-IsPlainName :
    (rounds : ℕ) (fs : FileSystem) (dir : FilePath) (nanos : ℕ) (name : Text) (n : ℕ)
    → IsPlainName name
    → IsPlainName (or_dated nanos name (first_free rounds fs dir name n))
unfolding first_free decimal contains_byte
first_free-IsPlainName zero fs dir nanos name n h =
    subst (λ t. IsPlainName (t ++ (codes " copy " ++ decimal nanos))) (take_all name)
      (suffixed-IsPlainName (length name) name (codes " " ++ decimal nanos) h
        (contains_byte-digits (nanos + 1) nanos))
first_free-IsPlainName (suc rounds) fs dir nanos name n h =
    if_both (λ o. IsPlainName (or_dated nanos name o))
      (is_absent (fs.stat (append_part dir (copy_name_candidate name n))))
      (candidate-IsPlainName name n h) (first_free-IsPlainName rounds fs dir nanos name (suc n) h)

pub unique_copy_name-IsPlainName :
    (fs : FileSystem) (nanos : ℕ) (dir : FilePath) (name : Text)
    → IsPlainName name
    → IsPlainName (unique_copy_name fs nanos dir name)
unfolding unique_copy_name
unique_copy_name-IsPlainName fs nanos dir name h =
    first_free-IsPlainName max_rounds fs dir nanos name 0 h
