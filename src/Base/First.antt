-- ===== src/Base/First.antt =====
-- Loops that look for the first entry that passes a test, and read, change or remove it.
use Prim.Native.Nat.{ℕ, suc, ◌+◌, ◌-◌}
use mathlib.Core.Path.{◌≡◌, refl}
use mathlib.Core.Bool.{Bool, true, false}
use mathlib.Core.List.{List, [], ◌∷◌, ◌++◌}
use mathlib.Core.Option
use mathlib.Core.Option.{Option, none, some}
use native.Mathlib.Omega.{arith}
use dingbap.Base.Tests.{if◌then◌else◌, is_some, ltb}
use dingbap.Base.Lists.{All, length}

module _ {ℓ} {A : Type ℓ} (p : A → Bool) where
  unfoldable pub find? : List A → Option A
  find? [] = none
  find? (x ∷ xs) = if p x then some x else find? xs

  unfoldable pub modify_first : (A → A) → List A → List A
  modify_first f [] = []
  modify_first f (x ∷ xs) = if p x then f x ∷ xs else x ∷ modify_first f xs

  unfoldable pub remove_first : List A → List A
  remove_first [] = []
  remove_first (x ∷ xs) = if p x then xs else x ∷ remove_first xs

  pub find?-append : (xs ys : List A) → find? xs ≡ none → find? (xs ++ ys) ≡ find? ys
  unfolding find?
  find?-append [] ys h = refl
  find?-append (x ∷ xs) ys h = ground (arith, find?-append xs ys)

  pub find?_sound : (xs : List A) (x : A) → find? xs ≡ some x → p x ≡ true
  unfolding find?
  find?_sound [] x h = cc
  find?_sound (y ∷ xs) x h = ground (arith, find?_sound xs x)

  -- The changed entry is found where the old one was.
  pub find?-modify_first :
      (f : A → A)
      → ((x : A) → p x ≡ true → p (f x) ≡ true)
      → (xs : List A) → find? (modify_first f xs) ≡ Option.map f (find? xs)
  unfolding find? modify_first
  find?-modify_first f h [] = refl
  find?-modify_first f h (x ∷ xs) = ground (arith, h x, find?-modify_first f h xs)

  pub length-modify_first : (f : A → A) (xs : List A) → length (modify_first f xs) ≡ length xs
  unfolding modify_first
  length-modify_first f [] = refl
  length-modify_first f (x ∷ xs) = ground (arith, length-modify_first f xs)

  module _ {κ} (P : A → Type κ) where
    pub All-find? : (xs : List A) (x : A) → All P xs → find? xs ≡ some x → P x
    unfolding find?
    All-find? [] x h e = cc
    All-find? (y ∷ xs) x h e = ground (arith, All-find? xs x h.1)

    pub All-modify_first :
        (f : A → A)
        → ((x : A) → P x → P (f x))
        → (xs : List A) → All P xs
        → All P (modify_first f xs)
    unfolding modify_first
    All-modify_first f k [] h = h
    All-modify_first f k (x ∷ xs) h = ground (arith, k x h.0, All-modify_first f k xs h.1)

    pub All-modify_found :
        (f : A → A) (xs : List A) (x : A)
        → find? xs ≡ some x
        → P (f x)
        → All P xs
        → All P (modify_first f xs)
    unfolding find? modify_first
    All-modify_found f [] x e k h = h
    All-modify_found f (y ∷ xs) x e k h = ground (arith, All-modify_found f xs x)

    pub All-remove_first : (xs : List A) → All P xs → All P (remove_first xs)
    unfolding remove_first
    All-remove_first [] h = h
    All-remove_first (x ∷ xs) h = ground (arith, All-remove_first xs h.1)

-- How many entries pass a test.
abbrev pub count {ℓ} : {A : Type ℓ} → (A → Bool) → List A → ℕ
count q [] = 0
count q (x ∷ xs) = if q x then suc (count q xs) else count q xs

module _ {ℓ} {A : Type ℓ} (p q : A → Bool) where
  -- Removing the first entry that passes `p` lowers the count of `q` by one if it passes `q`.
  pub count-remove_first :
      (xs : List A) (x : A)
      → find? p xs ≡ some x
      → count q xs
        ≡ (if q x then suc (count q (remove_first p xs)) else count q (remove_first p xs))
  unfolding find? remove_first
  count-remove_first [] x h = cc
  count-remove_first (y ∷ xs) x h = ground (arith, count-remove_first xs x)

  pub count-modify_first :
      (f : A → A) (xs : List A) (x : A)
      → find? p xs ≡ some x
      → (if q (f x) then 1 else 0) + count q xs
        ≡ (if q x then 1 else 0) + count q (modify_first p f xs)
  unfolding find? modify_first
  count-modify_first f [] x h = cc
  count-modify_first f (y ∷ xs) x h = ground (arith, count-modify_first f xs x)

  pub count-modify_first_same :
      (f : A → A)
      → ((x : A) → q (f x) ≡ q x)
      → (xs : List A) → count q (modify_first p f xs) ≡ count q xs
  unfolding modify_first
  count-modify_first_same f h [] = refl
  count-modify_first_same f h (x ∷ xs) = ground (arith, h x, count-modify_first_same f h xs)

pub count-append {ℓ} :
    {A : Type ℓ} (q : A → Bool) (xs ys : List A) → count q (xs ++ ys) ≡ count q xs + count q ys
count-append q [] ys = omega arith
count-append q (x ∷ xs) ys = ground (arith, count-append q xs ys)

module _ {ℓ} {A : Type ℓ} (p : A → Bool) where
  pub is_some-find? : (xs : List A) → is_some (find? p xs) ≡ ltb 0 (count p xs)
  unfolding find?
  is_some-find? [] = refl
  is_some-find? (x ∷ xs) = ground (arith, is_some-find? xs)

  pub count-remove_first_self : (xs : List A) → count p (remove_first p xs) ≡ count p xs - 1
  unfolding remove_first
  count-remove_first_self [] = omega arith
  count-remove_first_self (x ∷ xs) = ground (arith, count-remove_first_self xs)

  pub count-remove_first_other :
      (q : A → Bool)
      → ((x : A) → p x ≡ true → q x ≡ false)
      → (xs : List A) → count q (remove_first p xs) ≡ count q xs
  unfolding remove_first
  count-remove_first_other q h [] = refl
  count-remove_first_other q h (x ∷ xs) = ground (arith, h x, count-remove_first_other q h xs)
