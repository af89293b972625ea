-- ===== src/Text/Laws.antt =====
-- Laws of the text functions: equality, folding, prefixes and trimming.
use dingbap.Base.{
  ℕ, Bool, false, Bool-cases, inl, inr, ◌≡◌, refl, ap, sym, ◌∙◌, ◌↔◌, true, [], ◌∷◌, ◌++◌, arith,
}
use dingbap.Text.{trim_left, trim_right, trim, Text, text_eq, has_prefix, equal_fold, to_lower}

text_eq→eq : (s t : Text) → text_eq s t ≡ true → s ≡ t
unfolding text_eq
text_eq→eq [] [] h = refl
text_eq→eq [] (d ∷ t) h = cc
text_eq→eq (c ∷ s) [] h = cc
text_eq→eq (c ∷ s) (d ∷ t) h = ground (arith, text_eq→eq s t)

pub text_eq_refl : (s : Text) → text_eq s s ≡ true
unfolding text_eq
text_eq_refl [] = refl
text_eq_refl (c ∷ s) = ground (arith, text_eq_refl s)

pub text_eq_iff : (s t : Text) → (text_eq s t ≡ true) ↔ (s ≡ t)
text_eq_iff s t = (text_eq→eq s t, λ e. ap (text_eq s) (sym e) ∙ text_eq_refl s)

pub equal_fold_iff : (s t : Text) → (equal_fold s t ≡ true) ↔ (to_lower s ≡ to_lower t)
unfolding equal_fold
equal_fold_iff s t = text_eq_iff (to_lower s) (to_lower t)

pub equal_fold_refl : (s : Text) → equal_fold s s ≡ true
equal_fold_refl s = (equal_fold_iff s s).1 refl

pub has_prefix-append : (p s : Text) → has_prefix (p ++ s) p ≡ true
unfolding has_prefix
has_prefix-append [] s = refl
has_prefix-append (c ∷ p) s = ground (arith, has_prefix-append p s)

pub append_of_has_prefix : (s p : Text) → has_prefix s p ≡ true → (r : Text) × (s ≡ p ++ r)
unfolding has_prefix
append_of_has_prefix s [] h = (s, refl)
append_of_has_prefix [] (d ∷ p) h = cc
append_of_has_prefix (c ∷ s) (d ∷ p) h =
    let (r, e) = append_of_has_prefix s p (ground arith) in (r, ground arith)

module _ (p : ℕ → Bool) where
  trim_right_idem : (s : Text) → trim_right p (trim_right p s) ≡ trim_right p s
  unfolding trim_right
  trim_right_idem [] = refl
  trim_right_idem (c ∷ s) = ground (arith, trim_right_idem s)

  trim_left_stops :
      (c : ℕ) (s : Text) → p c ≡ false → trim_left p (trim_right p (c ∷ s)) ≡ trim_right p (c ∷ s)
  unfolding trim_left trim_right
  trim_left_stops c s h = ground arith

  trim_left-trim : (s : Text) → trim_left p (trim p s) ≡ trim p s
  unfolding trim
  trim_left-trim [] = refl
  trim_left-trim (c ∷ s) = elim (Bool-cases (p c)) [
    | inl e ↦ rw (e, trim, trim_left) (trim_left-trim s)
    | inr e ↦ rw (e, trim, trim_left) (trim_left_stops c s e)
  ]

  pub trim_idem : (s : Text) → trim p (trim p s) ≡ trim p s
  unfolding trim
  trim_idem s = ap (trim_right p) (trim_left-trim s) ∙ trim_right_idem (trim_left p s)
