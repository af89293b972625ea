-- ===== src/Table.antt =====
-- A Go `map` with text keys as an association list.
pub mod Laws
use dingbap.Base.{Bool, not, List, [], ◌∷◌, Option, none, some, if◌then◌else◌, keep}
use dingbap.Text.{Text, text_eq}

abbrev pub Table {ℓ} : Type ℓ → Type ℓ
Table V = List (Text × V)

module _ {ℓ} {V : Type ℓ} where
  unfoldable pub lookup : Text → Table V → Option V
  lookup k [] = none
  lookup k ((j, v) ∷ m) = if text_eq j k then some v else lookup k m

  -- `m[k] = v`
  unfoldable pub insert : Text → V → Table V → Table V
  insert k v [] = (k, v) ∷ []
  insert k v ((j, w) ∷ m) = if text_eq j k then (j, v) ∷ m else (j, w) ∷ insert k v m

  -- `delete(m, k)`
  unfoldable pub delete : Text → Table V → Table V
  delete k m = keep (λ e. not (text_eq e.0 k)) m
