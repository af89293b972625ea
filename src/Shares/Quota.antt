-- ===== src/Shares/Quota.antt =====
-- A share with a download quota is never served more often, whatever happens in between.
use dingbap.Shares.Shrinks.{
  count-Shrinks, pruned_Shrinks, begin_download-Shrinks, apply-Shrinks, drop_share-Shrinks,
  same_Shrinks,
}
use dingbap.Shares.Calls.{AllLimited, downloads, downloads_left, Avoids, Call, apply}
use dingbap.Text.Laws.{text_eq_iff}
use dingbap.Shares.Counting.{Limited, shares-save_shares, left-modify_found}
use dingbap.Shares.{
  Share, ShareStore, has_token, begin_download, prune, save_shares, share_expired, count_download,
  reserve_download,
}
use dingbap.Base.{
  ◌∷◌, [], ◌+◌, ◌≤◌, ◌≡◌, ◌&&◌, true, false, Bool, List, ℕ, arith, sym, subst, All, modify_first,
  is_none, ◌<◌, inl, inr, none, some, refl, Option-cases, find?, find?_sound, All-find?,
}
use dingbap.Text.{Text, text_eq}

abbrev pub as_number : Bool → ℕ
as_number true = 1
as_number false = 0

-- Whether a call is a granted download of the token.
unfoldable pub grants_download : Text → ShareStore → Call → Bool
grants_download token s (downloads t now later w w') =
    text_eq t token && is_none (begin_download t now later w w' s).1
grants_download token s c = false

-- How many downloads of the token a history grants.
unfoldable pub granted_downloads : Text → ShareStore → List Call → ℕ
granted_downloads token s [] = 0
granted_downloads token s (c ∷ cs) =
    as_number (grants_download token s c) + granted_downloads token (apply s c) cs

module _ (token : Text) where
  -- A granted download takes one.
  reserve_download_takes :
      (sh : Share) (w w' : Bool) (s : ShareStore)
      → AllLimited token s.shares
      → find? (has_token token) s.shares ≡ some sh
      → sh.download_count < sh.max_downloads
      → (reserve_download token sh w w' s).1 ≡ none
      → downloads_left token (reserve_download token sh w w' s).0.shares + 1
        ≤ downloads_left token s.shares
  unfolding reserve_download
  reserve_download_takes sh w w' s h e l k =
      let ys = modify_first (has_token token) count_download s.shares in
      let counted = record s { shares = ys } in
      let saved = (save_shares w counted).0 in
      let one =
        left-modify_found (λ x. x.max_downloads) (λ x. x.download_count) token count_download
          (λ x. refl) (λ x. refl) (λ x. omega arith) s.shares sh e l in
      let limited = (count-Shrinks token token s h).1 in
      let same = shares-save_shares w counted in
      let after =
        (drop_share-Shrinks token token w' saved (subst (AllLimited token) (sym same) limited)).0 in
      ground (arith, one, same, after)

  begin_download_takes :
      (now later : ℕ) (w w' : Bool) (s : ShareStore)
      → AllLimited token s.shares
      → (begin_download token now later w w' s).1 ≡ none
      → downloads_left token (begin_download token now later w w' s).0.shares + 1
        ≤ downloads_left token s.shares
  unfolding begin_download share_expired
  begin_download_takes now later w w' s h k =
      let pruned = prune now s in
      let (fewer, limited) =
        pruned_Shrinks token now s pruned.shares (same_Shrinks token pruned.shares) h in
      elim (Option-cases (find? (has_token token) pruned.shares)) [
        | inl e ↦ ground arith
        | inr (sh, e) ↦ ground (
          arith,
          fewer,
          find?_sound (has_token token) pruned.shares sh e,
          All-find? (has_token token) (Limited (λ x. x.max_downloads) token) pruned.shares sh
              limited e,
          reserve_download_takes sh w w' pruned limited e,
        )
      ]

  apply_takes :
      (s : ShareStore) (c : Call)
      → AllLimited token s.shares
      → Avoids token c
      → as_number (grants_download token s c) + downloads_left token (apply s c).shares
        ≤ downloads_left token s.shares
  unfolding grants_download apply
  apply_takes s (downloads t now later w w') h a = ground (
    arith,
    text_eq_iff t token,
    (begin_download-Shrinks token t now later w w' s h).0,
    begin_download_takes now later w w' s h,
  )
  apply_takes s c h a = omega (arith, (apply-Shrinks token s c a h).0)

  -- However calls on the store interleave, and whatever the outcomes of the file writes, the downloads
  -- granted on a token never exceed what the quotas of its shares leave, provided that each share of
  -- the token has a quota and no share with that token is published later.
  pub granted_downloads-le :
      (s : ShareStore) (cs : List Call)
      → AllLimited token s.shares
      → All (Avoids token) cs
      → granted_downloads token s cs ≤ downloads_left token s.shares
  unfolding granted_downloads
  granted_downloads-le s [] h a = omega arith
  granted_downloads-le s (c ∷ cs) h a = omega (
    arith,
    apply_takes s c h a.0,
    granted_downloads-le (apply s c) cs (apply-Shrinks token s c a.0 h).1 a.1,
  )
