-- ===== src/Shares/Calls.antt =====
-- The calls on the share store, and what it means that a call takes no download quota back.
use dingbap.Shares.Counting.{left, Limited}
use dingbap.Shares.Draft.{publish}
use dingbap.Shares.{
  Share, ShareStore, has_token, get_valid, begin_download, begin_upload, undo_upload, revoke,
  remove_by_path_prefix, rewrite_path_prefix,
}
use dingbap.Base.{◌≤◌, ◌≡◌, false, Bool, List, ℕ, All}
use dingbap.Text.{Text}

-- The calls on the store, with clock readings and the outcomes of file writes.
pub data Call : Type 0 where
  publishes : Share → ℕ → Bool → Call
  gets : Text → ℕ → ℕ → Bool → Call
  downloads : Text → ℕ → ℕ → Bool → Bool → Call
  uploads : Text → ℕ → ℕ → Bool → Call
  undoes : Text → Bool → Call
  revokes : Text → Bool → Call
  removes : Text → Bool → Call
  rewrites : Text → Text → Bool → Call

-- The store after a call.
unfoldable pub apply : ShareStore → Call → ShareStore
apply s (publishes sh now w) = (publish sh now w s).0
apply s (gets t now later w) = (get_valid t now later w s).0
apply s (downloads t now later w w') = (begin_download t now later w w' s).0
apply s (uploads t now later w) = (begin_upload t now later w s).0
apply s (undoes t w) = undo_upload t w s
apply s (revokes t w) = (revoke t w s).0
apply s (removes rel w) = remove_by_path_prefix rel w s
apply s (rewrites old new w) = rewrite_path_prefix old new w s

-- A published share does not carry the token, as every token is drawn at random.
abbrev pub Avoids : Text → Call → Type 0
Avoids token (publishes sh now w) = has_token token sh ≡ false
Avoids token c = Unit

-- The downloads left to a token.
abbrev pub downloads_left : Text → List Share → ℕ
downloads_left = left (λ sh. sh.max_downloads) (λ sh. sh.download_count)

abbrev pub AllLimited : Text → List Share → Type 0
AllLimited token = All (Limited (λ sh. sh.max_downloads) token)

-- No more downloads are left than before, and every share of the token has its quota still.
abbrev pub Shrinks : Text → List Share → List Share → Type 0
Shrinks token xs ys =
    AllLimited token xs → (downloads_left token ys ≤ downloads_left token xs) × AllLimited token ys
