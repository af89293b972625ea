-- ===== src/Shares/Uploads.antt =====
-- The counters of a share never pass its quotas.
use dingbap.Text.{Text, trim_slashes}
use dingbap.Shares.Draft.{publish}
use dingbap.Shares.{
  Share, ShareStore, save_shares, drop_share, prune, get_valid, reserve_download, begin_download,
  begin_upload, has_token, spent, count_upload, count_download, undo_upload, moved,
  rewrite_path_prefix, remove_by_path_prefix, uncount_upload, at_or_under, revoke,
}
use dingbap.Base.{
  ◌∷◌, [], ◌++◌, ◌<◌, ◌≤◌, ◌≡◌, inl, inr, some, false, Bool, List, ℕ, arith, All, All-keep,
  All-append, All-remove_first, find?, Option-cases, modify_first, All-find?, All-modify_found, not,
  map, All-modify_first, keep,
}
use dingbap.Shares.Calls.{
  Call, publishes, apply, gets, downloads, uploads, undoes, revokes, removes, rewrites,
}

-- Downloads and uploads are within the quota, where there is one.
abbrev pub IsBounded : Share → Type 0
IsBounded sh =
    (0 < sh.max_downloads → sh.download_count ≤ sh.max_downloads)
    × (0 < sh.max_uploads → sh.upload_count ≤ sh.max_uploads)

abbrev pub AllBounded : ShareStore → Type 0
AllBounded s = All IsBounded s.shares × All IsBounded s.file

-- A published share is new: its counters stand at zero.
abbrev pub IsNew : Call → Type 0
IsNew (publishes sh now w) = (sh.download_count ≡ 0) × (sh.upload_count ≡ 0)
IsNew c = Unit

save_shares-AllBounded :
    (w : Bool) (s : ShareStore) (xs : List Share)
    → All IsBounded xs
    → AllBounded s
    → AllBounded (save_shares w (record s { shares = xs })).0
unfolding save_shares
save_shares-AllBounded w s xs h b = ground arith

drop_share-AllBounded :
    (t : Text) (w : Bool) (s : ShareStore) → AllBounded s → AllBounded (drop_share t w s)
unfolding drop_share
drop_share-AllBounded t w s b =
    save_shares-AllBounded w s _ (All-remove_first (has_token t) IsBounded s.shares b.0) b

prune-AllBounded : (now : ℕ) (s : ShareStore) → AllBounded s → AllBounded (prune now s)
unfolding prune
prune-AllBounded now s b = (All-keep IsBounded _ s.shares b.0, b.1)

publish-AllBounded :
    (sh : Share) (now : ℕ) (w : Bool) (s : ShareStore)
    → (sh.download_count ≡ 0) × (sh.upload_count ≡ 0)
    → AllBounded s
    → AllBounded (publish sh now w s).0
unfolding publish
publish-AllBounded sh now w s z b =
    let p = prune-AllBounded now s b in
    let fresh : IsBounded sh = ((λ k. omega arith), (λ k. omega arith)) in
    save_shares-AllBounded w (prune now s) ((prune now s).shares ++ (sh ∷ []))
      (All-append IsBounded (prune now s).shares (sh ∷ []) p.0 (fresh, tt)) p

get_valid-AllBounded :
    (t : Text) (now later : ℕ) (w : Bool) (s : ShareStore)
    → AllBounded s
    → AllBounded (get_valid t now later w s).0
unfolding get_valid
get_valid-AllBounded t now later w s b =
    let p = prune-AllBounded now s b in ground (arith, p, drop_share-AllBounded t w (prune now s) p)

reserve_download-AllBounded :
    (t : Text) (sh : Share) (w w' : Bool) (s : ShareStore)
    → find? (has_token t) s.shares ≡ some sh
    → spent sh.max_downloads sh.download_count ≡ false
    → AllBounded s
    → AllBounded (reserve_download t sh w w' s).0
unfolding reserve_download
reserve_download-AllBounded t sh w w' s e l b =
    let k = All-find? (has_token t) IsBounded s.shares sh b.0 e in
    let counted : IsBounded (count_download sh) = ((λ j. ground arith), k.1) in
    let ys = modify_first (has_token t) count_download s.shares in
    let bounded =
      All-modify_found (has_token t) IsBounded count_download s.shares sh e counted b.0 in
    let saved = save_shares-AllBounded w s ys bounded b in
    let s' = (save_shares w (record s { shares = ys })).0 in
    ground (arith, saved, drop_share-AllBounded t w' s' saved)

begin_download-AllBounded :
    (t : Text) (now later : ℕ) (w w' : Bool) (s : ShareStore)
    → AllBounded s
    → AllBounded (begin_download t now later w w' s).0
unfolding begin_download
begin_download-AllBounded t now later w w' s b =
    let pruned = prune now s in
    let p = prune-AllBounded now s b in
    elim (Option-cases (find? (has_token t) pruned.shares)) [
      | inl e ↦ ground (arith, p)
      | inr (sh, e) ↦ ground (
        arith,
        p,
        drop_share-AllBounded t w pruned p,
        reserve_download-AllBounded t sh w w' pruned e,
      )
    ]

begin_upload-AllBounded :
    (t : Text) (now later : ℕ) (w : Bool) (s : ShareStore)
    → AllBounded s
    → AllBounded (begin_upload t now later w s).0
unfolding begin_upload
begin_upload-AllBounded t now later w s b =
    let pruned = prune now s in
    let p = prune-AllBounded now s b in
    let ys = modify_first (has_token t) count_upload pruned.shares in
    elim (Option-cases (find? (has_token t) pruned.shares)) [
      | inl e ↦ ground (arith, p)
      | inr (sh, e) ↦ ground (
        arith,
        p,
        drop_share-AllBounded t w pruned p,
        All-find? (has_token t) IsBounded pruned.shares sh p.0 e,
        All-modify_found (has_token t) IsBounded count_upload pruned.shares sh e,
        save_shares-AllBounded w pruned ys,
      )
    ]

undo_upload-AllBounded :
    (t : Text) (w : Bool) (s : ShareStore) → AllBounded s → AllBounded (undo_upload t w s)
unfolding undo_upload
undo_upload-AllBounded t w s b =
    let ys = modify_first (has_token t) uncount_upload s.shares in
    ground (
      arith,
      save_shares-AllBounded w s ys
          (All-modify_first (has_token t) IsBounded uncount_upload
            (λ sh k. (k.0, λ j. omega (arith, k.1 j))) s.shares b.0)
          b,
    )

map-IsBounded :
    (old new : Text) (xs : List Share) → All IsBounded xs → All IsBounded (map (moved old new) xs)
map-IsBounded old new [] h = tt
map-IsBounded old new (x ∷ xs) h = (ground arith, map-IsBounded old new xs h.1)

rewrite_path_prefix-AllBounded :
    (old_rel new_rel : Text) (w : Bool) (s : ShareStore)
    → AllBounded s
    → AllBounded (rewrite_path_prefix old_rel new_rel w s)
unfolding rewrite_path_prefix
rewrite_path_prefix-AllBounded old_rel new_rel w s b =
    let old = trim_slashes old_rel in
    let new = trim_slashes new_rel in
    ground (
      arith,
      save_shares-AllBounded w s (map (moved old new) s.shares) (map-IsBounded old new s.shares b.0)
          b,
    )

remove_by_path_prefix-AllBounded :
    (rel : Text) (w : Bool) (s : ShareStore)
    → AllBounded s
    → AllBounded (remove_by_path_prefix rel w s)
unfolding remove_by_path_prefix
remove_by_path_prefix-AllBounded rel w s b =
    let p = λ (sh : Share). not (at_or_under (trim_slashes rel) sh.path) in
    ground
      (arith, save_shares-AllBounded w s (keep p s.shares) (All-keep IsBounded p s.shares b.0) b)

apply-AllBounded : (s : ShareStore) (c : Call) → IsNew c → AllBounded s → AllBounded (apply s c)
unfolding apply revoke
apply-AllBounded s (publishes sh now w) z b = publish-AllBounded sh now w s z b
apply-AllBounded s (gets t now later w) z b = get_valid-AllBounded t now later w s b
apply-AllBounded s (downloads t now later w w') z b = begin_download-AllBounded t now later w w' s b
apply-AllBounded s (uploads t now later w) z b = begin_upload-AllBounded t now later w s b
apply-AllBounded s (undoes t w) z b = undo_upload-AllBounded t w s b
apply-AllBounded s (revokes t w) z b = ground (arith, drop_share-AllBounded t w s b)
apply-AllBounded s (removes rel w) z b = remove_by_path_prefix-AllBounded rel w s b
apply-AllBounded s (rewrites old new w) z b = rewrite_path_prefix-AllBounded old new w s b

unfoldable pub run : ShareStore → List Call → ShareStore
run s [] = s
run s (c ∷ cs) = run (apply s c) cs

-- In memory and in the file, after every history of calls in which new shares start at zero, on a store
-- of which this holds at the start, no share has more downloads or more uploads counted than its quota
-- allows.
pub run-AllBounded :
    (s : ShareStore) (cs : List Call) → All IsNew cs → AllBounded s → AllBounded (run s cs)
unfolding run
run-AllBounded s [] z b = b
run-AllBounded s (c ∷ cs) z b = run-AllBounded (apply s c) cs z.1 (apply-AllBounded s c z.0 b)
