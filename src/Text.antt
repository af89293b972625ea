-- ===== src/Text.antt =====
-- Go strings as lists of bytes, with the functions of Go's `strings` package that the program
-- calls. Text is ASCII: `TrimSpace`, `ToLower` and `EqualFold` act on the ASCII letters and spaces.
pub mod Laws
use Prim.Native.Char.{code}
use dingbap.Base.{
  ℕ, zero, suc, ◌+◌, ◌==◌, leb, Bool, true, false, ◌&&◌, ◌||◌, List, [], ◌∷◌, ◌++◌, map, Option,
  none, some, String, if◌then◌else◌, is_empty, length, drop,
}

abbrev pub Text : Type 0
Text = List ℕ

-- The bytes of a literal.
abbrev pub codes : String → Text
codes String.[] = []
codes (String.◌∷◌ c s) = code c ∷ codes s

unfoldable pub text_eq : Text → Text → Bool
text_eq [] [] = true
text_eq [] (d ∷ t) = false
text_eq (c ∷ s) [] = false
text_eq (c ∷ s) (d ∷ t) = c == d && text_eq s t

-- `strings.HasPrefix(s, prefix)`
unfoldable pub has_prefix : Text → Text → Bool
has_prefix s [] = true
has_prefix [] (d ∷ p) = false
has_prefix (c ∷ s) (d ∷ p) = c == d && has_prefix s p

-- `strings.TrimPrefix(s, prefix)`
unfoldable pub trim_prefix : Text → Text → Text
unfolding has_prefix
trim_prefix s p = if has_prefix s p then drop (length p) s else s

-- `strings.TrimLeftFunc`, `strings.TrimRightFunc` and `strings.Trim` for a set of bytes.
unfoldable pub trim_left : (ℕ → Bool) → Text → Text
trim_left p [] = []
trim_left p (c ∷ s) = if p c then trim_left p s else c ∷ s

abbrev cons_unless : Bool → ℕ → Text → Text
cons_unless drops c [] = if drops then [] else c ∷ []
cons_unless drops c (d ∷ s) = c ∷ d ∷ s

unfoldable pub trim_right : (ℕ → Bool) → Text → Text
trim_right p [] = []
trim_right p (c ∷ s) = cons_unless (p c) c (trim_right p s)

unfoldable pub trim : (ℕ → Bool) → Text → Text
unfolding trim_left trim_right
trim p s = trim_right p (trim_left p s)

abbrev pub is_space : ℕ → Bool
is_space c = (leb 9 c && leb c 13) || c == 32

abbrev pub is_slash : ℕ → Bool
is_slash c = c == b'/'

-- `strings.TrimSpace(s)`
abbrev pub trim_space : Text → Text
trim_space = trim is_space

-- `strings.Trim(s, "/")`
abbrev pub trim_slashes : Text → Text
trim_slashes = trim is_slash

-- The lower case of a byte.
unfoldable pub lower : ℕ → ℕ
lower c = if leb b'A' c && leb c b'Z' then c + 32 else c

-- `strings.ToLower(s)`
abbrev pub to_lower : Text → Text
to_lower = map lower

-- `strings.EqualFold(s, t)`
unfoldable pub equal_fold : Text → Text → Bool
unfolding text_eq lower
equal_fold s t = text_eq (to_lower s) (to_lower t)

abbrev pub extend_first : ℕ → List Text → List Text
extend_first c [] = (c ∷ []) ∷ []
extend_first c (part ∷ parts) = (c ∷ part) ∷ parts

-- `strings.Split(s, sep)` for a separator of one byte.
unfoldable pub split : ℕ → Text → List Text
split sep [] = [] ∷ []
split sep (c ∷ s) = if c == sep then [] ∷ split sep s else extend_first c (split sep s)

-- `strings.Join(parts, sep)` for a separator of one byte.
unfoldable pub join : ℕ → List Text → Text
join sep [] = []
join sep (part ∷ []) = part
join sep (part ∷ part' ∷ parts) = part ++ (sep ∷ join sep (part' ∷ parts))

-- `strings.ReplaceAll(s, old, new)` for one byte by one byte.
abbrev pub replace_byte : ℕ → ℕ → Text → Text
replace_byte old new = map (λ c. if c == old then new else c)

-- `strings.ContainsRune` and `strings.Contains(s, t)` for a text of one byte.
unfoldable pub contains_byte : ℕ → Text → Bool
contains_byte b [] = false
contains_byte b (c ∷ s) = c == b || contains_byte b s
