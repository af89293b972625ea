-- ===== src/Shares/Shrinks.antt =====
-- Every call on the share store leaves at most the downloads that were left before.
use dingbap.Shares.Calls.{
  Shrinks, Call, apply, Avoids, publishes, gets, downloads, uploads, undoes, revokes, removes,
  rewrites,
}
use dingbap.Shares.Counting.{
  Limited, left-keep-le, left-remove_first-le, left-modify_first-le, shares-drop_share, left-append,
  shares-save_shares,
}
use dingbap.Shares.Draft.{publish}
use dingbap.Shares.{
  Share, ShareStore, has_token, drop_share, get_valid, begin_download, begin_upload, undo_upload,
  revoke, remove_by_path_prefix, rewrite_path_prefix, prune, save_shares, share_expired,
  count_download, reserve_download, count_upload, uncount_upload, moved, at_or_under,
}
use dingbap.Base.{
  ◌∷◌, [], ◌≤◌, ◌≡◌, false, Bool, List, ℕ, arith, sym, subst, keep, remove_first, modify_first,
  All-keep, All-remove_first, All-modify_first, ◌++◌, not, map, All-append, inl, inr, refl,
  Option-cases, find?,
}
use dingbap.Text.{Text, trim_slashes}

module _ (token : Text) where
  pub Shrinks-trans :
      (xs ys zs : List Share) → Shrinks token xs ys → Shrinks token ys zs → Shrinks token xs zs
  Shrinks-trans xs ys zs f g h = let (a, k) = f h in let (b, l) = g k in (omega arith, l)

  pub keep-Shrinks : (p : Share → Bool) (xs : List Share) → Shrinks token xs (keep p xs)
  keep-Shrinks p xs h = (
    left-keep-le (λ sh. sh.max_downloads) (λ sh. sh.download_count) token p xs,
    All-keep _ p xs h,
  )

  pub remove_first-Shrinks :
      (p : Share → Bool) (xs : List Share) → Shrinks token xs (remove_first p xs)
  remove_first-Shrinks p xs h = (
    left-remove_first-le (λ sh. sh.max_downloads) (λ sh. sh.download_count) token p xs,
    All-remove_first p _ xs h,
  )

  -- A change of a share that takes no use back and leaves its token and quota.
  pub modify_first-Shrinks :
      (p : Share → Bool) (f : Share → Share)
      → ((sh : Share) → (f sh).token ≡ sh.token)
      → ((sh : Share) → (f sh).max_downloads ≡ sh.max_downloads)
      → ((sh : Share) → sh.download_count ≤ (f sh).download_count)
      → (xs : List Share) → Shrinks token xs (modify_first p f xs)
  modify_first-Shrinks p f a b c xs h = (
    left-modify_first-le (λ sh. sh.max_downloads) (λ sh. sh.download_count) token p f a b c xs,
    All-modify_first p (Limited (λ sh. sh.max_downloads) token) f
        (λ sh k. ground (arith, a sh, b sh)) xs h,
  )

  pub map-Shrinks :
      (f : Share → Share)
      → ((sh : Share) → (f sh).token ≡ sh.token)
      → ((sh : Share) → (f sh).max_downloads ≡ sh.max_downloads)
      → ((sh : Share) → (f sh).download_count ≡ sh.download_count)
      → (xs : List Share) → Shrinks token xs (map f xs)
  map-Shrinks f a b c [] h = (omega arith, h)
  map-Shrinks f a b c (x ∷ xs) h = ground (arith, a x, b x, c x, map-Shrinks f a b c xs h.1)

  pub drop_share-Shrinks :
      (t : Text) (w : Bool) (s : ShareStore) → Shrinks token s.shares (drop_share t w s).shares
  drop_share-Shrinks t w s =
      subst (Shrinks token s.shares) (sym (shares-drop_share t w s))
        (remove_first-Shrinks (has_token t) s.shares)

  pub append-Shrinks :
      (sh : Share) (xs : List Share)
      → has_token token sh ≡ false
      → Shrinks token xs (xs ++ (sh ∷ []))
  append-Shrinks sh xs e h = (
    ground
        (arith, left-append (λ sh. sh.max_downloads) (λ sh. sh.download_count) token xs (sh ∷ [])),
    All-append (Limited (λ sh. sh.max_downloads) token) xs (sh ∷ []) h (λ k. cc, tt),
  )

  pub publish-Shrinks :
      (sh : Share) (now : ℕ) (w : Bool) (s : ShareStore)
      → has_token token sh ≡ false
      → Shrinks token s.shares (publish sh now w s).0.shares
  unfolding publish prune save_shares
  publish-Shrinks sh now w s e =
      let kept = keep (λ x. not (share_expired now x)) s.shares in
      ground (
        arith,
        Shrinks-trans s.shares kept (kept ++ (sh ∷ [])) (keep-Shrinks _ s.shares)
            (append-Shrinks sh kept e),
      )

  pub pruned_Shrinks :
      (now : ℕ) (s : ShareStore) (ys : List Share)
      → Shrinks token (prune now s).shares ys
      → Shrinks token s.shares ys
  unfolding prune
  pruned_Shrinks now s ys f = Shrinks-trans s.shares _ ys (keep-Shrinks _ s.shares) f

  pub get_valid-Shrinks :
      (t : Text) (now later : ℕ) (w : Bool) (s : ShareStore)
      → Shrinks token s.shares (get_valid t now later w s).0.shares
  unfolding get_valid
  get_valid-Shrinks t now later w s =
      let pruned = prune now s in
      ground (
        arith,
        pruned_Shrinks now s pruned.shares (λ h. (omega arith, h)),
        pruned_Shrinks now s (drop_share t w pruned).shares (drop_share-Shrinks t w pruned),
      )

  pub count-Shrinks :
      (t : Text) (s : ShareStore)
      → Shrinks token s.shares (modify_first (has_token t) count_download s.shares)
  count-Shrinks t s =
      modify_first-Shrinks (has_token t) count_download (λ sh. refl) (λ sh. refl)
        (λ sh. omega arith) s.shares

  pub reserve_download-Shrinks :
      (t : Text) (sh : Share) (w w' : Bool) (s : ShareStore)
      → Shrinks token s.shares (reserve_download t sh w w' s).0.shares
  unfolding reserve_download
  reserve_download-Shrinks t sh w w' s =
      let ys = modify_first (has_token t) count_download s.shares in
      let counted = record s { shares = ys } in
      let saved = (save_shares w counted).0 in
      let same = shares-save_shares w counted in
      let after = drop_share-Shrinks t w' saved in
      ground (
        arith,
        same,
        count-Shrinks t s,
        Shrinks-trans s.shares ys (drop_share t w' saved).shares (count-Shrinks t s),
        subst (λ xs. Shrinks token xs (drop_share t w' saved).shares) same after,
      )

  pub begin_download-Shrinks :
      (t : Text) (now later : ℕ) (w w' : Bool) (s : ShareStore)
      → Shrinks token s.shares (begin_download t now later w w' s).0.shares
  unfolding begin_download
  begin_download-Shrinks t now later w w' s =
      let pruned = prune now s in
      let ending = pruned_Shrinks now s in
      elim (Option-cases (find? (has_token t) pruned.shares)) [
        | inl e ↦ ground (arith, ending pruned.shares (λ h. (omega arith, h)))
        | inr (sh, e) ↦ ground (
          arith,
          ending pruned.shares (λ h. (omega arith, h)),
          ending (drop_share t w pruned).shares (drop_share-Shrinks t w pruned),
          ending (reserve_download t sh w w' pruned).0.shares
              (reserve_download-Shrinks t sh w w' pruned),
        )
      ]

  pub uploads-Shrinks :
      (t : Text) (f : Share → Share) (w : Bool) (s : ShareStore)
      → ((sh : Share) → (f sh).token ≡ sh.token)
      → ((sh : Share) → (f sh).max_downloads ≡ sh.max_downloads)
      → ((sh : Share) → (f sh).download_count ≡ sh.download_count)
      → Shrinks token s.shares
          (save_shares w (record s { shares = modify_first (has_token t) f s.shares })).0.shares
  uploads-Shrinks t f w s a b c =
      let ys = modify_first (has_token t) f s.shares in
      subst (Shrinks token s.shares) (sym (shares-save_shares w (record s { shares = ys })))
        (modify_first-Shrinks (has_token t) f a b (λ sh. omega (arith, c sh)) s.shares)

  pub begin_upload-Shrinks :
      (t : Text) (now later : ℕ) (w : Bool) (s : ShareStore)
      → Shrinks token s.shares (begin_upload t now later w s).0.shares
  unfolding begin_upload
  begin_upload-Shrinks t now later w s =
      let pruned = prune now s in
      let ending = pruned_Shrinks now s in
      let ys = modify_first (has_token t) count_upload pruned.shares in
      ground (
        arith,
        ending pruned.shares (λ h. (omega arith, h)),
        ending (drop_share t w pruned).shares (drop_share-Shrinks t w pruned),
        ending (save_shares w (record pruned { shares = ys })).0.shares
            (uploads-Shrinks t count_upload w pruned (λ sh. refl) (λ sh. refl) (λ sh. refl)),
      )

  pub same_Shrinks : (xs : List Share) → Shrinks token xs xs
  same_Shrinks xs h = (omega arith, h)

  pub undo_upload-Shrinks :
      (t : Text) (w : Bool) (s : ShareStore) → Shrinks token s.shares (undo_upload t w s).shares
  unfolding undo_upload
  undo_upload-Shrinks t w s = ground (
    arith,
    same_Shrinks s.shares,
    uploads-Shrinks t uncount_upload w s (λ sh. refl) (λ sh. refl) (λ sh. refl),
  )

  pub rewrite_path_prefix-Shrinks :
      (old_rel new_rel : Text) (w : Bool) (s : ShareStore)
      → Shrinks token s.shares (rewrite_path_prefix old_rel new_rel w s).shares
  unfolding rewrite_path_prefix save_shares
  rewrite_path_prefix-Shrinks old_rel new_rel w s =
      let f = moved (trim_slashes old_rel) (trim_slashes new_rel) in
      ground (
        arith,
        same_Shrinks s.shares,
        map-Shrinks f (λ sh. ground arith) (λ sh. ground arith) (λ sh. ground arith) s.shares,
      )

  pub remove_by_path_prefix-Shrinks :
      (rel : Text) (w : Bool) (s : ShareStore)
      → Shrinks token s.shares (remove_by_path_prefix rel w s).shares
  unfolding remove_by_path_prefix save_shares
  remove_by_path_prefix-Shrinks rel w s =
      let p = λ (sh : Share). not (at_or_under (trim_slashes rel) sh.path) in
      ground (arith, same_Shrinks s.shares, keep-Shrinks p s.shares)

  pub apply-Shrinks :
      (s : ShareStore) (c : Call) → Avoids token c → Shrinks token s.shares (apply s c).shares
  unfolding apply revoke
  apply-Shrinks s (publishes sh now w) a = publish-Shrinks sh now w s a
  apply-Shrinks s (gets t now later w) a = get_valid-Shrinks t now later w s
  apply-Shrinks s (downloads t now later w w') a = begin_download-Shrinks t now later w w' s
  apply-Shrinks s (uploads t now later w) a = begin_upload-Shrinks t now later w s
  apply-Shrinks s (undoes t w) a = undo_upload-Shrinks t w s
  apply-Shrinks s (revokes t w) a = ground (arith, same_Shrinks s.shares, drop_share-Shrinks t w s)
  apply-Shrinks s (removes rel w) a = remove_by_path_prefix-Shrinks rel w s
  apply-Shrinks s (rewrites old new w) a = rewrite_path_prefix-Shrinks old new w s
