-- ===== src/Cache.antt =====
-- The cache of directory listings (cache.go): the map and the list of its elements, the most recent
-- first. `A` is the type of a listing.
pub mod Laws
pub mod Latest
mod Examples
use dingbap.Base.{
  ◌∷◌, [], ◌+◌, ◌==◌, ◌||◌, if◌then◌else◌, none, some, Bool, List, Option, ℕ, zero, suc, ltb,
  remove_first, find?, leb, length, is_some,
}
use dingbap.Text.{Text, codes, trim, text_eq}

abbrev pub dir_cache_max_entries : ℕ
dir_cache_max_entries = 1000

-- The map's keys are those of the list, so the list stands for both.
pub record ListingCache {ℓ} (A : Type ℓ) : Type ℓ where
  pub lru : List (Text × A)
  pub max : ℕ

-- `strings.Trim(rel, "/\\")`
unfoldable pub cache_key : Text → Text
unfolding trim
cache_key rel = trim (λ c. c == b'/' || c == b'\\') rel

module _ {ℓ} {A : Type ℓ} where
  abbrev pub keyed : Text → Text × A → Bool
  keyed key item = text_eq item.0 key

  unfoldable pub new_listing_cache : ℕ → ListingCache A
  new_listing_cache max = record {
    lru = [];
    max = if ltb max 1 then dir_cache_max_entries else max;
  }

  -- `MoveToFront` of the element with a key.
  unfoldable pub to_front : Text × A → List (Text × A) → List (Text × A)
  unfolding remove_first
  to_front item xs = item ∷ remove_first (keyed item.0) xs

  unfoldable pub get : Text → ListingCache A → ListingCache A × Option A
  unfolding cache_key find? to_front
  get rel c = elim (find? (keyed (cache_key rel)) c.lru) [
    | none ↦ (c, none)
    | some item ↦ (record c { lru = to_front item c.lru }, some item.1)
  ]

  -- `Remove(Back())`
  unfoldable pub drop_back : List (Text × A) → List (Text × A)
  drop_back [] = []
  drop_back (item ∷ []) = []
  drop_back (item ∷ next ∷ xs) = item ∷ drop_back (next ∷ xs)

  -- The loop that removes the last element while there are more than the bound, on fuel.
  unfoldable pub evict : ℕ → ℕ → List (Text × A) → List (Text × A)
  unfolding drop_back
  evict zero max xs = xs
  evict (suc fuel) max xs = if leb (length xs) max then xs else evict fuel max (drop_back xs)

  unfoldable pub set : Text → A → ListingCache A → ListingCache A
  unfolding cache_key find? to_front evict
  set rel nodes c =
      let key = cache_key rel in
      if is_some (find? (keyed key) c.lru)
      then record c { lru = to_front (key, nodes) c.lru }
      else record c { lru = evict (length c.lru + 1) c.max ((key, nodes) ∷ c.lru) }

  unfoldable pub invalidate : ListingCache A → ListingCache A
  invalidate c = record c { lru = [] }
