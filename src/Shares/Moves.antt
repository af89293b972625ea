-- ===== src/Shares/Moves.antt =====
-- Shares follow the files they point at.
use dingbap.Text.Laws.{text_eq_refl, text_eq_iff, has_prefix-append, append_of_has_prefix}
use dingbap.Paths.Names.{base}
use dingbap.Base.{
  ◌∷◌, [], ◌++◌, ◌≡◌, ◌∙◌, false, Bool, List, refl, arith, not, map, ap, keep, find?, drop, All,
  length, is_some, length-keep-le, inl, inr, is_empty, Bool-cases, append_assoc,
}
use dingbap.Text.{Text, text_eq, trim_slashes, has_prefix, codes}
use dingbap.Shares.{
  Share, ShareStore, remove_by_path_prefix, rewrite_path_prefix, at_or_under, moved, save_shares,
  base,
}

keep-eq-of-length :
    (p : Share → Bool) (xs : List Share) → length (keep p xs) ≡ length xs → keep p xs ≡ xs
unfolding keep
keep-eq-of-length p [] h = refl
keep-eq-of-length p (x ∷ xs) h = ground (arith, keep-eq-of-length p xs, length-keep-le p xs)

-- When a file or folder goes, exactly the shares of it and of what lies under it go, in memory, and
-- the others keep their order.
pub shares-remove_by_path_prefix :
    (rel : Text) (w : Bool) (s : ShareStore)
    → (remove_by_path_prefix rel w s).shares
      ≡ keep (λ sh. not (at_or_under (trim_slashes rel) sh.path)) s.shares
unfolding remove_by_path_prefix save_shares
shares-remove_by_path_prefix rel w s =
    let p = λ (sh : Share). not (at_or_under (trim_slashes rel) sh.path) in
    ground (arith, keep-eq-of-length p s.shares)

moved_away :
    (old new : Text) (xs : List Share)
    → is_some (find? (λ sh. at_or_under old sh.path) xs) ≡ false
    → map (moved old new) xs ≡ xs
unfolding find?
moved_away old new [] h = refl
moved_away old new (x ∷ xs) h = ground (arith, moved_away old new xs)

shares-rewrite_path_prefix :
    (old_rel new_rel : Text) (w : Bool) (s : ShareStore)
    → (rewrite_path_prefix old_rel new_rel w s).shares
      ≡ map (moved (trim_slashes old_rel) (trim_slashes new_rel)) s.shares
unfolding rewrite_path_prefix save_shares
shares-rewrite_path_prefix old_rel new_rel w s =
    ground (arith, moved_away (trim_slashes old_rel) (trim_slashes new_rel) s.shares)

-- A share that is named after its path and does not point at or under `new`.
pub record IsElsewhere (new : Text) (sh : Share) : Type 0 where
  pub elsewhere : at_or_under new sh.path ≡ false
  pub own_name : base sh.path ≡ sh.name

drop-append : (s t : Text) → drop (length s) (s ++ t) ≡ t
drop-append [] t = refl
drop-append (c ∷ s) t = drop-append s t

append-ne_self : (s t : Text) → is_empty t ≡ false → text_eq (s ++ t) s ≡ false
unfolding text_eq
append-ne_self [] [] h = cc
append-ne_self [] (d ∷ t) h = refl
append-ne_self (c ∷ s) t h = ground (arith, append-ne_self s t)

-- What lies under `old`, moved: the path keeps its tail.
moved_under :
    (old new r : Text) (sh : Share)
    → sh.path ≡ old ++ (b'/' ∷ r)
    → moved old new sh ≡ record sh { path = new ++ (b'/' ∷ r); name = base (new ++ (b'/' ∷ r)) }
moved_under old new r sh e = ground (
  arith,
  append-ne_self old (b'/' ∷ r) refl,
  append_assoc old (codes "/") r,
  has_prefix-append (old ++ codes "/") r,
  drop-append old (b'/' ∷ r),
)

moved_at :
    (old new : Text) (sh : Share)
    → sh.path ≡ old
    → moved old new sh ≡ record sh { path = new; name = base new }
moved_at old new sh e = ground (arith, text_eq_refl old)

restored :
    (p : Text) (sh : Share)
    → sh.path ≡ p
    → base sh.path ≡ sh.name
    → record sh { path = p; name = base p } ≡ sh
restored p sh e n = ground arith

moved_back :
    (old new : Text) (sh : Share) → IsElsewhere new sh → moved new old (moved old new sh) ≡ sh
moved_back old new sh h = elim (Bool-cases (text_eq sh.path old)) [
  | inl e ↦
      let e' = (text_eq_iff sh.path old).0 e in
      ap (moved new old) (moved_at old new sh e')
      ∙ moved_at new old (record sh { path = new; name = base new }) refl
      ∙ restored old sh e' h.own_name
  | inr e ↦ elim (Bool-cases (has_prefix sh.path (old ++ codes "/"))) [
    | inl e' ↦
        let (r, er) = append_of_has_prefix sh.path (old ++ codes "/") e' in
        let under = er ∙ append_assoc old (codes "/") r in
        let there = new ++ (b'/' ∷ r) in
        ap (moved new old) (moved_under old new r sh under)
        ∙ moved_under new old r (record sh { path = there; name = base there }) refl
        ∙ restored (old ++ (b'/' ∷ r)) sh under h.own_name
    | inr e' ↦ ground (arith, h.elsewhere)
  ]
]

map-moved_back :
    (old new : Text) (xs : List Share)
    → All (IsElsewhere new) xs
    → map (moved new old) (map (moved old new) xs) ≡ xs
map-moved_back old new [] h = refl
map-moved_back old new (x ∷ xs) h = cc (moved_back old new x h.0, map-moved_back old new xs h.1)

-- A rename that is undone leaves every share as it was, provided that no share pointed at or under
-- the new path before and every share is named after its path.
pub rewrite_path_prefix_back :
    (old new : Text) (w w' : Bool) (s : ShareStore)
    → All (IsElsewhere (trim_slashes new)) s.shares
    → (rewrite_path_prefix new old w' (rewrite_path_prefix old new w s)).shares ≡ s.shares
rewrite_path_prefix_back old new w w' s h =
    shares-rewrite_path_prefix new old w' (rewrite_path_prefix old new w s)
    ∙ ap (map (moved (trim_slashes new) (trim_slashes old)))
        (shares-rewrite_path_prefix old new w s)
    ∙ map-moved_back (trim_slashes old) (trim_slashes new) s.shares h
