-- ===== src/Uploads/Indices.antt =====
-- The sets of indices of an upload, and the lists that the program makes of them.
use dingbap.Uploads.Chunks.{add_index}
use dingbap.Base.{
  ◌∷◌, [], ◌+◌, ◌<◌, ◌≡◌, ◌==◌, ◌&&◌, ◌||◌, if◌then◌else◌, inl, inr, true, false, Bool, List, ℕ,
  refl, zero, suc, arith, ap, All, leb, length, ltb, Bool-cases, ==_iff, sym, subst,
}
use dingbap.Uploads.{collect, member}

abbrev pub Once : List ℕ → Type 0
Once [] = Unit
Once (j ∷ js) = (member j js ≡ false) × Once js

abbrev pub Below : ℕ → List ℕ → Type 0
Below n = All (λ j. j < n)

pub collect_cong :
    (left i : ℕ) (f g : ℕ → Bool)
    → ((j : ℕ) → j < i + left → f j ≡ g j)
    → collect left i f ≡ collect left i g
unfolding collect
collect_cong zero i f g h = refl
collect_cong (suc left) i f g h =
    ground (arith, h i (omega arith), collect_cong left (suc i) f g (λ j l. h j (omega (arith, l))))

-- The list holds the indices of its range that pass the test.
pub member-collect :
    (left i j : ℕ) (f : ℕ → Bool)
    → member j (collect left i f) ≡ (leb i j && (ltb j (i + left) && f j))
unfolding collect
member-collect zero i j f = ground arith
member-collect (suc left) i j f = elim (Bool-cases (i == j)) [
  | inl e ↦
      let same : i ≡ j = (==_iff i j).0 e in
      ground (arith, same, ap f same, member-collect left (suc i) j f)
  | inr e ↦ ground (arith, member-collect left (suc i) j f)
]

-- A new index makes the list longer by one where it lies in the range.
length-collect_cons :
    (left i x : ℕ) (f : ℕ → Bool)
    → f x ≡ false
    → length (collect left i (λ j. j == x || f j)) ≡ (
        if leb i x && ltb x (i + left)
        then suc (length (collect left i f))
        else length (collect left i f))
unfolding collect
length-collect_cons zero i x f h = ground arith
length-collect_cons (suc left) i x f h = elim (Bool-cases (i == x)) [
  | inl e ↦
      let same : i ≡ x = (==_iff i x).0 e in
      ground (arith, same, ap f same, length-collect_cons left (suc i) x f h)
  | inr e ↦ ground (arith, length-collect_cons left (suc i) x f h)
]

length-collect_none : (left i : ℕ) → length (collect left i (λ j. false)) ≡ 0
unfolding collect
length-collect_none zero i = refl
length-collect_none (suc left) i = length-collect_none left (suc i)

-- A set of indices below a bound has as many entries as the list made of it.
pub length-collect :
    (n : ℕ) (js : List ℕ)
    → Once js
    → Below n js
    → length (collect n 0 (λ i. member i js)) ≡ length js
length-collect n [] o b = length-collect_none n 0
length-collect n (j ∷ js) o b =
    ground (arith, length-collect_cons n 0 j (λ i. member i js) o.0, length-collect n js o.1 b.1)

length-collect_all :
    (left i : ℕ) (f : ℕ → Bool)
    → ((j : ℕ) → j < i + left → f j ≡ true)
    → length (collect left i f) ≡ left
unfolding collect
length-collect_all zero i f h = refl
length-collect_all (suc left) i f h =
    ground
      (arith, h i (omega arith), length-collect_all left (suc i) f (λ j l. h j (omega (arith, l))))

-- A set that holds every index below the bound, and no other, has as many entries as the bound.
pub length_of_all :
    (n : ℕ) (js : List ℕ)
    → Once js
    → Below n js
    → ((j : ℕ) → j < n → member j js ≡ true)
    → length js ≡ n
length_of_all n js o b h = omega (
  arith,
  length-collect n js o b,
  length-collect_all n 0 (λ i. member i js) (λ j l. h j (omega (arith, l))),
)

pub collect-Once : (left i : ℕ) (f : ℕ → Bool) → Once (collect left i f)
unfolding collect
collect-Once zero i f = tt
collect-Once (suc left) i f =
    ground (arith, member-collect left (suc i) i f, collect-Once left (suc i) f)

pub collect-Below : (left i : ℕ) (f : ℕ → Bool) → Below (i + left) (collect left i f)
unfolding collect
collect-Below zero i f = tt
collect-Below (suc left) i f =
    let same : i + suc left ≡ suc i + left = omega arith in
    let rest =
      subst (λ n. Below n (collect left (suc i) f)) (sym same) (collect-Below left (suc i) f) in
    ground (arith, rest)

pub add_index-Once : (i : ℕ) (js : List ℕ) → Once js → Once (add_index i js)
add_index-Once i js o = ground arith

pub add_index-Below : (n i : ℕ) (js : List ℕ) → i < n → Below n js → Below n (add_index i js)
add_index-Below n i js l b = ground arith

pub member-add_index : (j i : ℕ) (js : List ℕ) → member j (add_index i js) ≡ (j == i || member j js)
member-add_index j i js = elim (Bool-cases (j == i)) [
  | inl e ↦ let same : j ≡ i = (==_iff j i).0 e in ground (arith, ap (λ k. member k js) same)
  | inr e ↦ ground arith
]
