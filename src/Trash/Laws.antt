-- ===== src/Trash/Laws.antt =====
-- Items with different ids, and the names that lie in `.trash/items`.
use dingbap.Text.{Text, text_eq}
use dingbap.Base.{
  ◌∷◌, [], ◌++◌, ◌≡◌, ◌&&◌, none, true, false, Bool, List, refl, arith, not, find?, remove_first,
  keep, is_some, All, All-keep,
}
use dingbap.Trash.{TrashItem, Disk, has_id, without, remove_all, remove_each}
use dingbap.Text.Laws.{text_eq_iff, text_eq_refl}

abbrev pub is_stored : Text → List Text → Bool
is_stored id names = is_some (find? (λ n. text_eq n id) names)

abbrev pub DistinctIds : List TrashItem → Type 0
DistinctIds [] = Unit
DistinctIds (x ∷ xs) = (find? (has_id x.id) xs ≡ none) × DistinctIds xs

abbrev pub AllStored : List Text → List TrashItem → Type 0
AllStored names = All (λ item. is_stored item.id names ≡ true)

stored-keep :
    (p : Text → Bool) (id : Text) (names : List Text)
    → p id ≡ true
    → is_stored id names ≡ true
    → is_stored id (keep p names) ≡ true
unfolding find? keep
stored-keep p id [] k h = h
stored-keep p id (n ∷ names) k h = ground (arith, text_eq_iff n id, stored-keep p id names k)

pub stored-cons :
    (id other : Text) (names : List Text)
    → is_stored id names ≡ true
    → is_stored id (other ∷ names) ≡ true
unfolding find?
stored-cons id other names h = ground arith

pub AllStored-cons :
    (other : Text) (names : List Text) (xs : List TrashItem)
    → AllStored names xs
    → AllStored (other ∷ names) xs
AllStored-cons other names [] h = tt
AllStored-cons other names (x ∷ xs) h =
    (stored-cons x.id other names h.0, AllStored-cons other names xs h.1)

-- What names the other ids keep.
abbrev pub Spares : Text → List Text → List Text → Type 0
Spares id names names' =
    (j : Text) → text_eq id j ≡ false → is_stored j names ≡ true → is_stored j names' ≡ true

pub without-Spares : (id : Text) (names : List Text) → Spares id names (without id names)
unfolding without
without-Spares id names j e h =
    stored-keep (λ n. not (text_eq n id)) j names
      (ground (arith, text_eq_iff id j, text_eq_iff j id)) h

pub remove_all-Spares :
    (id : Text) (d : Disk) (names : List Text) → Spares id names (remove_all id d names)
remove_all-Spares id d names j e h =
    stored-keep (λ n. not (text_eq n id && d.removes n)) j names
      (ground (arith, text_eq_iff id j, text_eq_iff j id)) h

-- Items of other ids stay stored.
pub others-AllStored :
    (id : Text) (names names' : List Text) (xs : List TrashItem)
    → Spares id names names'
    → find? (has_id id) xs ≡ none
    → AllStored names xs
    → AllStored names' xs
unfolding find?
others-AllStored id names names' [] k e h = tt
others-AllStored id names names' (x ∷ xs) k e h =
    ground (
      arith,
      text_eq_iff id x.id,
      text_eq_iff x.id id,
      k x.id,
      others-AllStored id names names' xs k,
    )

pub remove_first-AllStored :
    (id : Text) (names names' : List Text) (xs : List TrashItem)
    → Spares id names names'
    → DistinctIds xs
    → AllStored names xs
    → AllStored names' (remove_first (has_id id) xs)
unfolding remove_first
remove_first-AllStored id names names' [] k e h = tt
remove_first-AllStored id names names' (x ∷ xs) k e h = ground (
  arith,
  text_eq_iff id x.id,
  text_eq_iff x.id id,
  k x.id,
  others-AllStored id names names' xs k,
  remove_first-AllStored id names names' xs k e.1 h.1,
)

absent-remove_first :
    (id other : Text) (xs : List TrashItem)
    → find? (has_id other) xs ≡ none
    → find? (has_id other) (remove_first (has_id id) xs) ≡ none
unfolding find? remove_first
absent-remove_first id other [] h = h
absent-remove_first id other (x ∷ xs) h = ground (arith, absent-remove_first id other xs)

pub remove_first-DistinctIds :
    (id : Text) (xs : List TrashItem) → DistinctIds xs → DistinctIds (remove_first (has_id id) xs)
unfolding remove_first
remove_first-DistinctIds id [] h = tt
remove_first-DistinctIds id (x ∷ xs) h =
    ground (arith, absent-remove_first id x.id xs h.0, remove_first-DistinctIds id xs h.1)

absent-append :
    (other : Text) (xs : List TrashItem) (y : TrashItem)
    → find? (has_id other) xs ≡ none
    → text_eq y.id other ≡ false
    → find? (has_id other) (xs ++ (y ∷ [])) ≡ none
unfolding find?
absent-append other [] y h e = ground arith
absent-append other (x ∷ xs) y h e = ground (arith, absent-append other xs y)

pub append-DistinctIds :
    (xs : List TrashItem) (y : TrashItem)
    → find? (has_id y.id) xs ≡ none
    → DistinctIds xs
    → DistinctIds (xs ++ (y ∷ []))
unfolding find?
append-DistinctIds [] y h d = (refl, tt)
append-DistinctIds (x ∷ xs) y h d = ground (
  arith,
  text_eq_iff x.id y.id,
  text_eq_iff y.id x.id,
  absent-append x.id xs y d.0,
  append-DistinctIds xs y,
)

pub remove_first-append :
    (xs : List TrashItem) (y : TrashItem)
    → find? (has_id y.id) xs ≡ none
    → remove_first (has_id y.id) (xs ++ (y ∷ [])) ≡ xs
unfolding find? remove_first
remove_first-append [] y h = ground (arith, text_eq_refl y.id)
remove_first-append (x ∷ xs) y h = ground (arith, remove_first-append xs y)

absent-keep :
    (p : TrashItem → Bool) (id : Text) (xs : List TrashItem)
    → find? (has_id id) xs ≡ none
    → find? (has_id id) (keep p xs) ≡ none
unfolding find? keep
absent-keep p id [] h = h
absent-keep p id (x ∷ xs) h = ground (arith, absent-keep p id xs)

pub keep-DistinctIds :
    (p : TrashItem → Bool) (xs : List TrashItem) → DistinctIds xs → DistinctIds (keep p xs)
unfolding keep
keep-DistinctIds p [] h = tt
keep-DistinctIds p (x ∷ xs) h = ground (arith, absent-keep p x.id xs h.0, keep-DistinctIds p xs h.1)

-- Removing items spares the names of all others.
remove_each-spares :
    (j : Text) (d : Disk) (olds : List TrashItem) (names : List Text)
    → find? (has_id j) olds ≡ none
    → is_stored j names ≡ true
    → is_stored j (remove_each olds d names) ≡ true
unfolding find?
remove_each-spares j d [] names e h = h
remove_each-spares j d (x ∷ xs) names e h =
    ground
      (arith, remove_all-Spares x.id d names j, remove_each-spares j d xs (remove_all x.id d names))

abbrev Apart : List TrashItem → List TrashItem → Type 0
Apart olds = All (λ item. find? (has_id item.id) olds ≡ none)

cons-Apart :
    (x : TrashItem) (olds zs : List TrashItem)
    → find? (has_id x.id) zs ≡ none
    → Apart olds zs
    → Apart (x ∷ olds) zs
unfolding find?
cons-Apart x olds [] e h = tt
cons-Apart x olds (z ∷ zs) e h =
    ground (arith, text_eq_iff x.id z.id, text_eq_iff z.id x.id, cons-Apart x olds zs)

-- The items kept have none of the ids of those that go.
keep-Apart :
    (p : TrashItem → Bool) (xs : List TrashItem)
    → DistinctIds xs
    → Apart (keep p xs) (keep (λ item. not (p item)) xs)
unfolding keep
keep-Apart p [] h = tt
keep-Apart p (x ∷ xs) h =
    let q = λ (item : TrashItem). not (p item) in
    ground (
      arith,
      keep-Apart p xs h.1,
      cons-Apart x (keep p xs) (keep q xs) (absent-keep q x.id xs h.0),
      absent-keep p x.id xs h.0,
    )

spared-AllStored :
    (d : Disk) (names : List Text) (olds zs : List TrashItem)
    → Apart olds zs
    → AllStored names zs
    → AllStored (remove_each olds d names) zs
spared-AllStored d names olds [] a h = tt
spared-AllStored d names olds (z ∷ zs) a h =
    (remove_each-spares z.id d olds names a.0 h.0, spared-AllStored d names olds zs a.1 h.1)

pub swept-AllStored :
    (p : TrashItem → Bool) (d : Disk) (names : List Text) (xs : List TrashItem)
    → DistinctIds xs
    → AllStored names xs
    → AllStored (remove_each (keep p xs) d names) (keep (λ item. not (p item)) xs)
swept-AllStored p d names xs e h =
    let q = λ (item : TrashItem). not (p item) in
    spared-AllStored d names (keep p xs) (keep q xs) (keep-Apart p xs e)
      (All-keep (λ item. is_stored item.id names ≡ true) q xs h)
