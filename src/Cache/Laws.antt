-- ===== src/Cache/Laws.antt =====
-- The list of elements: eviction from the back, and moves to the front.
use dingbap.Text.{Text, text_eq}
use dingbap.Base.{
  ◌∷◌, [], ◌+◌, ◌-◌, ◌≤◌, ◌≡◌, none, some, List, Option, ℕ, refl, zero, suc, arith, find?, length,
  if◌then◌else◌, remove_first, ◌<◌,
}
use dingbap.Cache.{keyed, to_front, evict, drop_back}
use dingbap.Table.{Table, lookup}
use dingbap.Text.Laws.{text_eq_iff, text_eq_refl}

module _ {ℓ} {A : Type ℓ} where
  -- What a list of elements answers.
  abbrev pub found : Text → List (Text × A) → Option (Text × A)
  found key xs = find? (keyed key) xs

  -- Every key stands once.
  abbrev pub OnceEach : List (Text × A) → Type ℓ
  OnceEach [] = Unit
  OnceEach (item ∷ xs) = (found item.0 xs ≡ none) × OnceEach xs

  abbrev pub Agrees : Table A → List (Text × A) → Type ℓ
  Agrees m xs =
      (key : Text) (item : Text × A) → found key xs ≡ some item → lookup key m ≡ some item.1

  length-drop_back : (xs : List (Text × A)) → length (drop_back xs) ≡ length xs - 1
  unfolding drop_back
  length-drop_back [] = refl
  length-drop_back (x ∷ []) = refl
  length-drop_back (x ∷ y ∷ xs) = ground (arith, length-drop_back (y ∷ xs))

  found-drop_back :
      (key : Text) (item : Text × A) (xs : List (Text × A))
      → found key (drop_back xs) ≡ some item
      → found key xs ≡ some item
  unfolding drop_back find?
  found-drop_back key item [] h = h
  found-drop_back key item (x ∷ []) h = cc
  found-drop_back key item (x ∷ y ∷ xs) h = ground (arith, found-drop_back key item (y ∷ xs))

  absent-drop_back :
      (key : Text) (xs : List (Text × A)) → found key xs ≡ none → found key (drop_back xs) ≡ none
  unfolding drop_back find?
  absent-drop_back key [] h = h
  absent-drop_back key (x ∷ []) h = refl
  absent-drop_back key (x ∷ y ∷ xs) h = ground (arith, absent-drop_back key (y ∷ xs))

  drop_back-OnceEach : (xs : List (Text × A)) → OnceEach xs → OnceEach (drop_back xs)
  unfolding drop_back
  drop_back-OnceEach [] h = tt
  drop_back-OnceEach (x ∷ []) h = tt
  drop_back-OnceEach (x ∷ y ∷ xs) h =
      (absent-drop_back x.0 (y ∷ xs) h.0, drop_back-OnceEach (y ∷ xs) h.1)

  -- Enough fuel: the loop ends within the bound.
  pub length-evict :
      (fuel max : ℕ) (xs : List (Text × A))
      → length xs ≤ fuel + max
      → length (evict fuel max xs) ≤ max
  unfolding evict
  length-evict zero max xs h = omega arith
  length-evict (suc fuel) max xs h =
      ground (arith, length-drop_back xs, length-evict fuel max (drop_back xs))

  pub evict-OnceEach :
      (fuel max : ℕ) (xs : List (Text × A)) → OnceEach xs → OnceEach (evict fuel max xs)
  unfolding evict
  evict-OnceEach zero max xs h = h
  evict-OnceEach (suc fuel) max xs h =
      ground (arith, drop_back-OnceEach xs h, evict-OnceEach fuel max (drop_back xs))

  pub evict-Agrees :
      (m : Table A) (fuel max : ℕ) (xs : List (Text × A))
      → Agrees m xs
      → Agrees m (evict fuel max xs)
  unfolding evict
  evict-Agrees m zero max xs h key item e = h key item e
  evict-Agrees m (suc fuel) max xs h key item e = ground (
    arith,
    h key item,
    evict-Agrees m fuel max (drop_back xs) (λ k i d. h k i (found-drop_back k i xs d)) key item,
  )

  -- Eviction keeps the front.
  pub found-evict :
      (fuel max : ℕ) (item : Text × A) (xs : List (Text × A))
      → 0 < max
      → found item.0 (evict fuel max (item ∷ xs)) ≡ some item
  unfolding evict drop_back find?
  found-evict zero max item xs h = ground (arith, text_eq_refl item.0)
  found-evict (suc fuel) max item [] h = ground (arith, text_eq_refl item.0)
  found-evict (suc fuel) max item (x ∷ xs) h =
      ground (arith, text_eq_refl item.0, found-evict fuel max item (drop_back (x ∷ xs)) h)

  found-remove_first :
      (key other : Text) (xs : List (Text × A))
      → OnceEach xs
      → found other (remove_first (keyed key) xs)
        ≡ (if text_eq key other then none else found other xs)
  unfolding find? remove_first
  found-remove_first key other [] h = ground arith
  found-remove_first key other (x ∷ xs) h = ground (
    arith,
    text_eq_iff key other,
    text_eq_iff x.0 key,
    text_eq_iff x.0 other,
    found-remove_first key other xs h.1,
  )

  remove_first-OnceEach :
      (key : Text) (xs : List (Text × A)) → OnceEach xs → OnceEach (remove_first (keyed key) xs)
  unfolding remove_first
  remove_first-OnceEach key [] h = tt
  remove_first-OnceEach key (x ∷ xs) h =
      ground (arith, found-remove_first key x.0 xs h.1, remove_first-OnceEach key xs h.1)

  pub length-remove_first :
      (key : Text) (xs : List (Text × A)) (item : Text × A)
      → found key xs ≡ some item
      → length (remove_first (keyed key) xs) + 1 ≡ length xs
  unfolding find? remove_first
  length-remove_first key [] item h = cc
  length-remove_first key (x ∷ xs) item h = ground (arith, length-remove_first key xs item)

  pub to_front-OnceEach :
      (item : Text × A) (xs : List (Text × A)) → OnceEach xs → OnceEach (to_front item xs)
  unfolding to_front
  to_front-OnceEach item xs h = (
    ground (arith, found-remove_first item.0 item.0 xs h, text_eq_refl item.0),
    remove_first-OnceEach item.0 xs h,
  )

  pub found-to_front :
      (item : Text × A) (other : Text) (xs : List (Text × A))
      → OnceEach xs
      → found other (to_front item xs)
        ≡ (if text_eq item.0 other then some item else found other xs)
  unfolding to_front find?
  found-to_front item other xs h = ground (arith, found-remove_first item.0 other xs h)
