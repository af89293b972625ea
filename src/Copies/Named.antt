-- ===== src/Copies/Named.antt =====
-- The name of a copy is free, and the copy is the visible tree.
use dingbap.Paths
use dingbap.Text.{Text}
use dingbap.Copies.{
  first_free, is_absent, FileSystem, FilePath, Text, append_part, copy_name_candidate,
  unique_copy_name, max_rounds, or_dated,
}
use dingbap.Paths.{Stat, FileSystem, absent, FilePath, append_part}
use dingbap.Base.{
  ◌+◌, ◌<◌, ◌≤◌, ◌≡◌, inl, inr, some, true, ℕ, refl, zero, suc, arith, Bool-cases, ◌==◌, ◌∙◌, ap,
  ==_iff,
}

is_absent_lem : (s : Stat) → is_absent s ≡ true → s ≡ absent
is_absent_lem Paths.absent e = refl
is_absent_lem Paths.broken e = ground (arith, e)
is_absent_lem Paths.folder e = ground (arith, e)
is_absent_lem (Paths.file n) e = ground (arith, e)

-- The loop finds a free name if one of its candidates is free.
first_free_lem :
    (rounds : ℕ) (fs : FileSystem) (dir : FilePath) (name : Text) (n k : ℕ)
    → n ≤ k
    → k < n + rounds
    → is_absent (fs.stat (append_part dir (copy_name_candidate name k))) ≡ true
    → (found : Text) × (first_free rounds fs dir name n ≡ some found)
      × (is_absent (fs.stat (append_part dir found)) ≡ true)
unfolding first_free
first_free_lem zero fs dir name n k l h e = ground (arith, l, h)
first_free_lem (suc rounds) fs dir name n k l h e =
    let candidate = copy_name_candidate name n in
    elim (Bool-cases (is_absent (fs.stat (append_part dir candidate)))) [
      | inl f ↦ (candidate, rw f refl, f)
      | inr f ↦
          let later : suc n ≤ k = elim (Bool-cases (n == k)) [
            | inl q ↦
                let same : n ≡ k = (==_iff n k).0 q in
                let taken =
                  ap (λ j. is_absent (fs.stat (append_part dir (copy_name_candidate name j))))
                    same in
                ground (arith, taken, e, f)
            | inr q ↦ ground (arith, l, q)
          ] in
          let (found, same, free) =
            first_free_lem rounds fs dir name (suc n) k later (omega (arith, h)) e in
          (found, rw f same, free)
    ]

-- If one of the first 10,000 candidates for the name of a copy is not in use, the name that is chosen
-- is not in use.
pub unique_copy_name_free :
    (fs : FileSystem) (nanos k : ℕ) (dir : FilePath) (name : Text)
    → k < max_rounds
    → is_absent (fs.stat (append_part dir (copy_name_candidate name k))) ≡ true
    → fs.stat (append_part dir (unique_copy_name fs nanos dir name)) ≡ absent
unfolding unique_copy_name
unique_copy_name_free fs nanos k dir name h e =
    let (found, same, free) =
      first_free_lem max_rounds fs dir name 0 k (omega arith) (omega (arith, h)) e in
    is_absent_lem _
      (ap (λ o. is_absent (fs.stat (append_part dir (or_dated nanos name o)))) same ∙ free)
