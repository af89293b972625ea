-- ===== src/Table/Laws.antt =====
-- What a table answers after a write, a deletion and a sweep.
use dingbap.Base.{
  List, is_some, find?, All, ◌≡◌, refl, Bool, [], ◌∷◌, Option, none, some, arith, if◌then◌else◌,
  keep, false, not,
}
use dingbap.Text.{Text, text_eq}
use dingbap.Text.Laws.{text_eq_iff}
use dingbap.Table.{Table, lookup, insert, delete}

-- A Go map holds a key once.
abbrev pub Distinct {ℓ} : {V : Type ℓ} → Table V → Type ℓ
Distinct [] = Unit
Distinct ((k, v) ∷ m) = (lookup k m ≡ none) × Distinct m

abbrev pub when {ℓ} : {A : Type ℓ} → (A → Bool) → Option A → Option A
when p none = none
when p (some a) = if p a then some a else none

module _ {ℓ} {V : Type ℓ} where
  pub lookup-insert :
      (k j : Text) (v : V) (m : Table V)
      → lookup j (insert k v m) ≡ (if text_eq k j then some v else lookup j m)
  unfolding lookup insert
  lookup-insert k j v [] = refl
  lookup-insert k j v ((i, w) ∷ m) =
      ground (arith, text_eq_iff k j, text_eq_iff i k, text_eq_iff i j, lookup-insert k j v m)

  pub lookup-delete :
      (k j : Text) (m : Table V)
      → lookup j (delete k m) ≡ (if text_eq k j then none else lookup j m)
  unfolding lookup delete keep
  lookup-delete k j [] = ground arith
  lookup-delete k j ((i, w) ∷ m) =
      ground (arith, text_eq_iff k j, text_eq_iff i k, text_eq_iff i j, lookup-delete k j m)

  pub lookup-keep-eq-none :
      (p : Text × V → Bool) (j : Text) (m : Table V)
      → lookup j m ≡ none
      → lookup j (keep p m) ≡ none
  unfolding lookup keep
  lookup-keep-eq-none p j [] h = refl
  lookup-keep-eq-none p j ((i, w) ∷ m) h = ground (arith, lookup-keep-eq-none p j m)

  -- A sweep keeps the entries that pass the test.
  pub lookup-keep :
      (p : Text × V → Bool) (j : Text) (m : Table V)
      → Distinct m
      → lookup j (keep p m) ≡ when (λ v. p (j, v)) (lookup j m)
  unfolding lookup keep
  lookup-keep p j [] d = refl
  lookup-keep p j ((i, w) ∷ m) d =
      ground (arith, text_eq_iff i j, lookup-keep p j m d.1, lookup-keep-eq-none p i m)

  pub keep-Distinct : (p : Text × V → Bool) (m : Table V) → Distinct m → Distinct (keep p m)
  unfolding keep
  keep-Distinct p [] d = d
  keep-Distinct p ((i, w) ∷ m) d = ground (arith, lookup-keep-eq-none p i m, keep-Distinct p m d.1)

  pub delete-Distinct : (k : Text) (m : Table V) → Distinct m → Distinct (delete k m)
  unfolding delete
  delete-Distinct k m d = keep-Distinct _ m d

  pub insert-Distinct : (k : Text) (v : V) (m : Table V) → Distinct m → Distinct (insert k v m)
  unfolding insert lookup
  insert-Distinct k v [] d = (refl, tt)
  insert-Distinct k v ((i, w) ∷ m) d =
      ground
        (arith, lookup-insert k i v m, text_eq_iff i k, text_eq_iff k i, insert-Distinct k v m d.1)

module _ {ℓ κ} {V : Type ℓ} (P : Text × V → Type κ) where
  pub All-insert :
      (k : Text) (v : V) (m : Table V) → All P m → ((j : Text) → P (j, v)) → All P (insert k v m)
  unfolding insert
  All-insert k v [] h p = (p k, tt)
  All-insert k v ((j, w) ∷ m) h p = ground (arith, p j, All-insert k v m h.1 p)

  pub All-lookup : (k : Text) (m : Table V) → All P m → (v : V) → lookup k m ≡ some v → P (k, v)
  unfolding lookup
  All-lookup k [] h v e = cc
  All-lookup k ((j, w) ∷ m) h v e = ground (arith, text_eq_iff j k, All-lookup k m h.1 v)

-- Where no entry passes the test, a sweep of those that pass removes nothing.
pub keep_all {ℓ} :
    {A : Type ℓ} (p : A → Bool) (xs : List A)
    → is_some (find? p xs) ≡ false
    → keep (λ x. not (p x)) xs ≡ xs
unfolding find? keep
keep_all p [] h = refl
keep_all p (x ∷ xs) h = ground (arith, keep_all p xs)
