-- ===== src/Uploads/Slices.antt =====
-- The chunks of a text: their sizes, and that they make the text again.
use native.Mathlib.Nat.{
  div-mul-le_self, lt-div-mul-add, le-div_iff_mul-le, mul-le-mul_right, add-mul,
}
use native.Mathlib.Numerals.{unary_clauses}
use dingbap.Uploads.Chunks.{expected_size, assemble}
use dingbap.Uploads.Start.{chunk_count}
use dingbap.Text.{Text}
use dingbap.Base.{
  ◌∷◌, [], ◌++◌, ◌+◌, ◌-◌, ◌*◌, ◌<◌, ◌≤◌, ◌≡◌, if◌then◌else◌, some, List, Option, ℕ, refl, zero,
  suc, arith, ap, length, take, drop, leb, ◌/◌, ◌==◌, ◌∙◌, inl, inr, sym, Bool-cases,
}
use dingbap.Uploads.{UploadMeta, Text}

abbrev pub slice : ℕ → ℕ → Text → Text
slice c i bytes = take c (drop (i * c) bytes)

pub take_all {ℓ} : {A : Type ℓ} (n : ℕ) (xs : List A) → length xs ≤ n → take n xs ≡ xs
take_all zero [] h = refl
take_all zero (x ∷ xs) h = ground (arith, h)
take_all (suc n) [] h = refl
take_all (suc n) (x ∷ xs) h = ap (λ ys. x ∷ ys) (take_all n xs (omega (arith, h)))

take-add {ℓ} :
    {A : Type ℓ} (n m : ℕ) (xs : List A) → take (n + m) xs ≡ take n xs ++ take m (drop n xs)
take-add zero m xs = let none_more : 0 + m ≡ m = omega arith in ap (λ n. take n xs) none_more
take-add (suc n) zero [] = simp unary_clauses refl
take-add (suc n) (suc m) [] = simp unary_clauses refl
take-add (suc n) m (x ∷ xs) =
    let more : suc n + m ≡ suc (n + m) = omega arith in
    ap (λ k. take k (x ∷ xs)) more ∙ ap (λ ys. x ∷ ys) (take-add n m xs)

drop-drop {ℓ} : {A : Type ℓ} (n m : ℕ) (xs : List A) → drop m (drop n xs) ≡ drop (n + m) xs
drop-drop zero m xs = let none_more : m ≡ 0 + m = omega arith in ap (λ n. drop n xs) none_more
drop-drop (suc n) zero [] = simp unary_clauses refl
drop-drop (suc n) (suc m) [] = simp unary_clauses refl
drop-drop (suc n) m (x ∷ xs) =
    let more : suc (n + m) ≡ suc n + m = omega arith in
    drop-drop n m xs ∙ ap (λ k. drop k (x ∷ xs)) more

length-take {ℓ} :
    {A : Type ℓ} (n : ℕ) (xs : List A)
    → length (take n xs) ≡ (if leb n (length xs) then n else length xs)
length-take zero xs = ground arith
length-take (suc n) [] = ground arith
length-take (suc n) (x ∷ xs) = ground (arith, length-take n xs)

length-drop {ℓ} : {A : Type ℓ} (n : ℕ) (xs : List A) → length (drop n xs) ≡ length xs - n
length-drop zero xs = omega arith
length-drop (suc n) [] = omega arith
length-drop (suc n) (x ∷ xs) = omega (arith, length-drop n xs)

-- The chunks have a size, they hold the whole file, and all but the last are full.
pub record IsSized (m : UploadMeta) : Type 0 where
  pub some_bytes : 0 < m.chunk_size
  pub some_chunk : 0 < m.total_chunks
  pub holds_all : m.size ≤ m.total_chunks * m.chunk_size
  pub full : (m.total_chunks - 1) * m.chunk_size ≤ m.size

pub chunk_count_lem :
    (size c : ℕ)
    → 0 < c
    → (0 < chunk_count size c)
      × (size ≤ chunk_count size c * c)
      × ((chunk_count size c - 1) * c ≤ size)
unfolding chunk_count
chunk_count_lem zero c h = ground arith
chunk_count_lem (suc n) c h =
    let q = (suc n + c - 1) / c in
    let below : q * c ≤ suc n + c - 1 = div-mul-le_self (suc n + c - 1) c in
    let above : suc n + c - 1 < q * c + c = lt-div-mul-add h in
    let some_chunk : 1 ≤ q = (le-div_iff_mul-le h).1 (omega arith) in
    let one_less : (q - 1) * c + 1 * c ≡ q * c =
      sym (add-mul (q - 1) 1 c) ∙ ap (λ k. k * c) (omega (arith, some_chunk)) in
    let same : chunk_count (suc n) c ≡ q = ground arith in
    rw same (some_chunk, omega (arith, above), omega (arith, one_less, below))

-- What `writeChunk` expects at an index is the size of that chunk.
pub expected_size-slice :
    (m : UploadMeta) (bytes : Text) (i : ℕ)
    → IsSized m
    → length bytes ≡ m.size
    → i < m.total_chunks
    → expected_size m i ≡ some (length (slice m.chunk_size i bytes))
unfolding expected_size
expected_size-slice m bytes i z e l =
    let c = m.chunk_size in
    let here : length (drop (i * c) bytes) ≡ m.size - i * c =
      length-drop (i * c) bytes ∙ ap (λ n. n - i * c) e in
    let taken = length-take c (drop (i * c) bytes) in
    elim (Bool-cases (i == m.total_chunks - 1)) [
      | inl last ↦
          let top : m.total_chunks * c ≡ i * c + 1 * c =
            ap (λ k. k * c) (ground arith) ∙ add-mul i 1 c in
          let low : i * c ≡ (m.total_chunks - 1) * c = ap (λ k. k * c) (ground arith) in
          ground (arith, here, taken, top, low, z.full, z.holds_all)
      | inr inner ↦
          let next : (i + 1) * c ≤ (m.total_chunks - 1) * c = mul-le-mul_right c (ground arith) in
          ground (arith, here, taken, next, add-mul i 1 c, z.full)
    ]

-- The chunks from an index on make the text from there on.
pub assemble-slice :
    (left i c : ℕ) (bytes : Text) (chunks : ℕ → Option Text)
    → ((j : ℕ) → j < i + left → chunks j ≡ some (slice c j bytes))
    → assemble left i chunks ≡ some (take (left * c) (drop (i * c) bytes))
unfolding assemble
assemble-slice zero i c bytes chunks h =
    let nothing : 0 ≡ 0 * c = omega arith in ap (λ n. some (take n (drop (i * c) bytes))) nothing
assemble-slice (suc left) i c bytes chunks h =
    let later = assemble-slice left (suc i) c bytes chunks (λ j l. h j (omega (arith, l))) in
    let on : drop c (drop (i * c) bytes) ≡ drop (suc i * c) bytes =
      drop-drop (i * c) c bytes ∙ ap (λ n. drop n bytes) (omega arith) in
    let whole : take (suc left * c) (drop (i * c) bytes)
        ≡ slice c i bytes ++ take (left * c) (drop (suc i * c) bytes) =
      ap (λ n. take n (drop (i * c) bytes)) (omega arith)
      ∙ take-add c (left * c) (drop (i * c) bytes)
      ∙ ap (λ t. slice c i bytes ++ take (left * c) t) on in
    ground (arith, h i (omega arith), later, whole)
