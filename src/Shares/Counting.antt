-- ===== src/Shares/Counting.antt =====
-- How much is left of the quota of a token, summed over the shares that carry it, and how the loops of
-- the store change it.
use dingbap.Shares.{Share, has_token, save_shares, drop_share, ShareStore}
use dingbap.Base.{
  ◌∷◌, [], ◌++◌, ◌+◌, ◌-◌, ◌<◌, ◌≤◌, ◌≡◌, if◌then◌else◌, some, true, Bool, List, ℕ, refl, arith,
  map, keep, remove_first, modify_first, find?,
}
use dingbap.Text.{Text}

-- What is left of a quota, where `max` and `count` read the quota of a share.
abbrev pub left : (Share → ℕ) → (Share → ℕ) → Text → List Share → ℕ
left max count token [] = 0
left max count token (sh ∷ shs) =
    if has_token token sh
    then (max sh - count sh) + left max count token shs
    else left max count token shs

-- Every share with the token has a quota.
abbrev pub Limited : (Share → ℕ) → Text → Share → Type 0
Limited max token sh = has_token token sh ≡ true → 0 < max sh

module _ (max count : Share → ℕ) (token : Text) where
  pub left-append :
      (xs ys : List Share)
      → left max count token (xs ++ ys) ≡ left max count token xs + left max count token ys
  left-append [] ys = omega arith
  left-append (x ∷ xs) ys = ground (arith, left-append xs ys)

  pub left-keep-le :
      (p : Share → Bool) (xs : List Share)
      → left max count token (keep p xs) ≤ left max count token xs
  unfolding keep
  left-keep-le p [] = omega arith
  left-keep-le p (x ∷ xs) = ground (arith, left-keep-le p xs)

  pub left-remove_first-le :
      (p : Share → Bool) (xs : List Share)
      → left max count token (remove_first p xs) ≤ left max count token xs
  unfolding remove_first
  left-remove_first-le p [] = omega arith
  left-remove_first-le p (x ∷ xs) = ground (arith, left-remove_first-le p xs)

  -- A change that leaves token, quota and count of every share alone changes nothing.
  pub left-modify_first :
      (p : Share → Bool) (f : Share → Share)
      → ((sh : Share) → (f sh).token ≡ sh.token)
      → ((sh : Share) → max (f sh) ≡ max sh)
      → ((sh : Share) → count (f sh) ≡ count sh)
      → (xs : List Share) → left max count token (modify_first p f xs) ≡ left max count token xs
  unfolding modify_first
  left-modify_first p f a b c [] = refl
  left-modify_first p f a b c (x ∷ xs) =
      ground (arith, a x, b x, c x, left-modify_first p f a b c xs)

  pub left-map :
      (f : Share → Share)
      → ((sh : Share) → (f sh).token ≡ sh.token)
      → ((sh : Share) → max (f sh) ≡ max sh)
      → ((sh : Share) → count (f sh) ≡ count sh)
      → (xs : List Share) → left max count token (map f xs) ≡ left max count token xs
  left-map f a b c [] = refl
  left-map f a b c (x ∷ xs) = ground (arith, a x, b x, c x, left-map f a b c xs)

  -- One more use of the share found takes one from what is left.
  pub left-modify_found :
      (f : Share → Share)
      → ((sh : Share) → (f sh).token ≡ sh.token)
      → ((sh : Share) → max (f sh) ≡ max sh)
      → ((sh : Share) → count (f sh) ≡ count sh + 1)
      → (xs : List Share) (sh : Share) → find? (has_token token) xs ≡ some sh
      → count sh < max sh
      → left max count token (modify_first (has_token token) f xs) + 1 ≡ left max count token xs
  unfolding find? modify_first
  left-modify_found f a b c [] sh e h = cc
  left-modify_found f a b c (x ∷ xs) sh e h =
      ground (arith, a x, b x, c x, left-modify_found f a b c xs sh)

  -- A change that only adds uses leaves no more than before.
  pub left-modify_first-le :
      (p : Share → Bool) (f : Share → Share)
      → ((sh : Share) → (f sh).token ≡ sh.token)
      → ((sh : Share) → max (f sh) ≡ max sh)
      → ((sh : Share) → count sh ≤ count (f sh))
      → (xs : List Share) → left max count token (modify_first p f xs) ≤ left max count token xs
  unfolding modify_first
  left-modify_first-le p f a b c [] = omega arith
  left-modify_first-le p f a b c (x ∷ xs) =
      ground (arith, a x, b x, c x, left-modify_first-le p f a b c xs)

pub shares-save_shares : (w : Bool) (s : ShareStore) → (save_shares w s).0.shares ≡ s.shares
unfolding save_shares
shares-save_shares w s = ground arith

pub shares-drop_share :
    (t : Text) (w : Bool) (s : ShareStore)
    → (drop_share t w s).shares ≡ remove_first (has_token t) s.shares
unfolding drop_share
shares-drop_share t w s = shares-save_shares w _
