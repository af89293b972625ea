-- ===== src/Program/Pending.antt =====
-- The pending logins and the pending set-ups of the second factor (totp.go).
use dingbap.Table.{Table, lookup, insert, delete}
use dingbap.Text.{Text, to_lower}
use dingbap.Base.{◌+◌, ◌*◌, if◌then◌else◌, none, some, Option, ℕ, not, keep, ltb}
use dingbap.Program.{PendingLogin, PendingTotpSetup, Table}
use dingbap.Sessions.{minute}

abbrev pub totp_pending_ttl : ℕ
totp_pending_ttl = 5 * minute

-- `token` is the result of `newPendingToken`.
unfoldable pub put_pending_login :
    Option Text → Text → Text → ℕ → Table PendingLogin → Table PendingLogin × Option Text
unfolding keep
put_pending_login none username role now m = (m, none)
put_pending_login (some tok) username role now m =
    let live = keep (λ e. not (ltb e.1.expires_at now)) m in
    let p : PendingLogin = record {
      username = username;
      role = role;
      expires_at = now + totp_pending_ttl;
    } in
    (insert tok p live, some tok)

unfoldable pub take_pending_login :
    Text → ℕ → Table PendingLogin → Table PendingLogin × Option PendingLogin
take_pending_login token now m = elim (lookup token m) [
  | none ↦ (m, none)
  | some p ↦ (delete token m, if ltb p.expires_at now then none else some p)
]

unfoldable pub put_pending_setup : Text → Text → ℕ → Table PendingTotpSetup → Table PendingTotpSetup
put_pending_setup username secret now m =
    insert (to_lower username) (record { secret = secret; expires_at = now + totp_pending_ttl }) m

unfoldable pub take_pending_setup :
    Text → ℕ → Table PendingTotpSetup → Table PendingTotpSetup × Option Text
take_pending_setup username now m = elim (lookup (to_lower username) m) [
  | none ↦ (m, none)
  | some p ↦ (delete (to_lower username) m, if ltb p.expires_at now then none else some p.secret)
]

unfoldable pub peek_pending_setup : Text → ℕ → Table PendingTotpSetup → Option Text
peek_pending_setup username now m = elim (lookup (to_lower username) m) [
  | none ↦ none
  | some p ↦ if ltb p.expires_at now then none else some p.secret
]
