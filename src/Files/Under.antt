-- ===== src/Files/Under.antt =====
-- Paths under the root of the storage.
use dingbap.Text.Laws.{text_eq_refl}
use dingbap.Paths.Confinement.{IsInside, IsShown}
use dingbap.Text.{has_prefix, text_eq, Text}
use dingbap.Files.{path_base, text_eq, Text, drop_last, climbs}
use dingbap.Paths.{append_part, FilePath, rel_parts, dot, drop_last, climbs}
use dingbap.Base.{
  ◌∷◌, [], ◌++◌, ◌≡◌, ◌≢◌, ◌∙◌, false, refl, arith, sym, ap, subst, All, append_assoc, append-nil,
  All-append,
}

-- A name that is not hidden is appended.
pub append_part_shown :
    (path : FilePath) (name : Text)
    → name ≢ []
    → has_prefix name dot ≡ false
    → append_part path name ≡ path ++ (name ∷ [])
unfolding append_part has_prefix text_eq
append_part_shown path [] n h = ground (arith, n refl)
append_part_shown path (c ∷ name) n h = ground arith

pub IsInside-snoc :
    (root path : FilePath) (name : Text)
    → name ≢ []
    → has_prefix name dot ≡ false
    → IsInside root path
    → IsInside root (append_part path name)
IsInside-snoc root path name n h (rest, e, s) = (
  rest ++ (name ∷ []),
  append_part_shown path name n h
      ∙ ap (λ p. p ++ (name ∷ [])) e
      ∙ append_assoc root rest (name ∷ []),
  All-append IsShown rest (name ∷ []) s ((n, h), tt),
)

drop_last-append :
    (root : FilePath) (part : Text) (rest : FilePath)
    → drop_last (root ++ (part ∷ rest)) ≡ root ++ drop_last (part ∷ rest)
drop_last-append [] part rest = refl
drop_last-append (x ∷ []) part rest = refl
drop_last-append (x ∷ y ∷ root) part rest = ap (λ p. x ∷ p) (drop_last-append (y ∷ root) part rest)

drop_last-All : (path : FilePath) → All IsShown path → All IsShown (drop_last path)
drop_last-All [] h = tt
drop_last-All (x ∷ []) h = tt
drop_last-All (x ∷ y ∷ path) h = (h.0, drop_last-All (y ∷ path) h.1)

pub drop_last-IsInside :
    (root path : FilePath) → IsInside root path → path ≢ root → IsInside root (drop_last path)
drop_last-IsInside root path ([], e, s) n = ground (arith, n (e ∙ append-nil root))
drop_last-IsInside root path (part ∷ rest, e, s) n = (
  drop_last (part ∷ rest),
  ap drop_last e ∙ drop_last-append root part rest,
  drop_last-All (part ∷ rest) s,
)

path_base-append :
    (root : FilePath) (part : Text) (rest : FilePath)
    → path_base (root ++ (part ∷ rest)) ≡ path_base (part ∷ rest)
unfolding path_base
path_base-append [] part rest = refl
path_base-append (x ∷ []) part rest = refl
path_base-append (x ∷ y ∷ root) part rest = path_base-append (y ∷ root) part rest

path_base-IsShown :
    (part : Text) (rest : FilePath) → All IsShown (part ∷ rest) → IsShown (path_base (part ∷ rest))
unfolding path_base
path_base-IsShown part [] h = h.0
path_base-IsShown part (x ∷ rest) h = path_base-IsShown x rest h.1

-- The name of an entry below the root can be shown.
pub base-IsShown :
    (root path : FilePath) → IsInside root path → path ≢ root → IsShown (path_base path)
base-IsShown root path ([], e, s) n = ground (arith, n (e ∙ append-nil root))
base-IsShown root path (part ∷ rest, e, s) n =
    subst IsShown (sym (ap path_base e ∙ path_base-append root part rest))
      (path_base-IsShown part rest s)

pub rel_parts-under : (root rest : FilePath) → rel_parts root (root ++ rest) ≡ rest
unfolding rel_parts
rel_parts-under [] rest = refl
rel_parts-under (x ∷ root) rest = ground (arith, text_eq_refl x, rel_parts-under root rest)

pub shown-climbs : (rest : FilePath) → All IsShown rest → climbs rest ≡ false
unfolding has_prefix text_eq
shown-climbs [] h = refl
shown-climbs (part ∷ rest) h = ground (arith, h.0.1)
