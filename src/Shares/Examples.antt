-- ===== src/Shares/Examples.antt =====
-- Runs of the share store on a link with two downloads and a drop folder with two uploads.
use dingbap.Paths.Names.{base}
use dingbap.Text.{Text, codes, text_eq, has_prefix, trim}
use dingbap.Base.{
  ◌∷◌, [], ◌≤◌, ◌≡◌, none, some, true, false, List, ℕ, refl, zero, suc, arith, find?, modify_first,
  remove_first, keep, ◌<◌, All,
}
use dingbap.Shares.{
  Share, ShareStore, share_kind_link, share_kind_drop, remove_by_path_prefix, rewrite_path_prefix,
  begin_download, begin_upload, undo_upload, get_valid, revoke, prune, share_expired,
  share_kind_or_link, drop_share, valid_share_token, save_shares, base,
}
use dingbap.Shares.Calls.{Call, downloads, uploads, undoes, apply, downloads_left}
use dingbap.Shares.Quota.{granted_downloads, granted_downloads-le, grants_download}
use dingbap.Shares.Uploads.{run, run-AllBounded, AllBounded, IsBounded}
-- Names what the runs below compute with.
use dingbap.Shares.{save_shares, reserve_download, drop_share, prune}

program : Unit {0}
unfolding apply run granted_downloads grants_download begin_download begin_upload undo_upload
    get_valid revoke remove_by_path_prefix rewrite_path_prefix prune share_expired
    share_kind_or_link drop_share valid_share_token save_shares reserve_download text_eq has_prefix
    find? modify_first remove_first keep trim base
program = tt

abbrev zeros : ℕ → Text
zeros zero = []
zeros (suc n) = b'0' ∷ zeros n

abbrev token_of : ℕ → Text
token_of c = c ∷ zeros 63

abbrev link : Share
link = record {
  token = token_of b'a';
  path = codes "docs/a.txt";
  name = codes "a.txt";
  is_dir = false;
  kind = share_kind_link;
  created_at = 1;
  expires_at = none;
  max_downloads = 2;
  download_count = 0;
  max_uploads = 0;
  upload_count = 0;
  created_by = codes "root";
  password_hash = [];
}

abbrev inbox : Share
inbox = record link {
  token = token_of b'b';
  path = codes "in";
  name = codes "in";
  is_dir = true;
  kind = share_kind_drop;
  expires_at = some 100;
  max_downloads = 0;
  max_uploads = 2;
}

abbrev store : ShareStore
store = record { shares = link ∷ inbox ∷ []; file = link ∷ inbox ∷ [] }

-- Two of the three downloads are granted.
abbrev history : List Call
history =
    downloads link.token 5 5 true true
    ∷ uploads inbox.token 6 6 true
    ∷ downloads link.token 7 7 true true
    ∷ downloads link.token 8 8 true true
    ∷ undoes inbox.token true
    ∷ []

granted_two : granted_downloads link.token store history ≡ 2
unfolding program
granted_two = refl

granted_downloads-le_example :
    granted_downloads link.token store history ≤ downloads_left link.token store.shares
unfolding program
granted_downloads-le_example =
    granted_downloads-le link.token store history ((λ e. omega arith), ((λ e. ground arith), tt))
      (tt, (tt, (tt, (tt, (tt, tt)))))

run-AllBounded_example : AllBounded (run store history)
unfolding program
run-AllBounded_example =
    run-AllBounded store history (tt, (tt, (tt, (tt, (tt, tt))))) (bounded, bounded)
  where
    fits : (n : ℕ) → 0 < n → 0 ≤ n
    fits n k = omega arith

    bounded : All IsBounded store.shares
    bounded = ((fits 2, fits 0), ((fits 0, fits 2), tt))
