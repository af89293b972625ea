-- ===== src/Access/Laws.antt =====
-- What the guards let through.
use dingbap.Users.{by_username, role_admin, is_admin_role}
use dingbap.Text.{has_prefix, Text, codes, trim_space, is_space}
use dingbap.Base.{
  [], ◌≤◌, ◌≡◌, ◌&&◌, none, some, true, false, Bool, Option, ℕ, arith, not, length, inl, inr,
  Option-cases,
}
use dingbap.Access.{
  ProxyAuth, safe_next_path, sanitize_proxy_username, session_from_proxy, with_session,
  require_admin, passes, is_junk, local_part, by_username, deny_auth, is_admin_role, length,
  proxy_username,
}
use dingbap.Program.{Program}
use dingbap.Program.Current.{IsSafe, IsCurrent}
use dingbap.Program.Roles.{role_of, by_username_self}
use dingbap.Sessions.{Session, from_request, get}
use dingbap.Table.Laws.{All-lookup}
use dingbap.Text.Laws.{trim_idem, text_eq_iff}
use dingbap.Web.{Request}

-- The address after the login begins with one slash, and with `/admin` only for an administrator.
pub safe_next_path_local :
    (next role : Text)
    → (has_prefix (safe_next_path next role) (codes "/") ≡ true)
      × (has_prefix (safe_next_path next role) (codes "//") ≡ false)
      × ((has_prefix (safe_next_path next role) (codes "/admin") && not (is_admin_role role))
          ≡ false)
unfolding safe_next_path has_prefix
safe_next_path_local next role = (ground arith, ground arith, ground arith)

-- A user name that the proxy sends is used without space around it, in at most 64 bytes, and without
-- a slash, a backslash, a zero byte or an end of a line.
pub sanitize_proxy_username_safe :
    (raw : Text)
    → (trim_space (sanitize_proxy_username raw) ≡ sanitize_proxy_username raw)
      × (length (sanitize_proxy_username raw) ≤ 64)
      × (is_junk (sanitize_proxy_username raw) ≡ false)
unfolding sanitize_proxy_username
sanitize_proxy_username_safe raw =
    (ground (arith, trim_idem is_space (local_part (trim_space raw))), ground arith, ground arith)

proxy-IsCurrent :
    (auth : ProxyAuth) (header : Text → Text) (now : ℕ) (p : Program) (s : Session)
    → session_from_proxy auth header now p.users ≡ some s
    → IsCurrent p.users ([], s)
unfolding session_from_proxy by_username
proxy-IsCurrent auth header now p s h =
    elim (Option-cases (by_username (proxy_username auth header) p.users)) [
      | inl e ↦ ground arith
      | inr (u, e) ↦ ground (arith, by_username_self (proxy_username auth header) p.users u e)
    ]

cookie-IsCurrent :
    (cookie : Option Text) (now later : ℕ) (w : Bool) (p : Program) (s : Session)
    → IsSafe p
    → (from_request cookie now later w p.sessions).1 ≡ some s
    → IsCurrent p.users ([], s)
unfolding from_request get
cookie-IsCurrent none now later w p s h e = cc
cookie-IsCurrent (some id) now later w p s h e =
    ground (arith, All-lookup (IsCurrent p.users) id p.sessions.sessions h.current s)

with_session-IsCurrent :
    (auth : ProxyAuth) (header : Text → Text) (cookie : Option Text) (now later : ℕ) (w : Bool)
    → (p : Program) (s : Session) → IsSafe p
    → (with_session auth header cookie now later w p.users p.sessions).1 ≡ some s
    → IsCurrent p.users ([], s)
unfolding with_session
with_session-IsCurrent auth header cookie now later w p s h e =
    elim (Option-cases (session_from_proxy auth header now p.users)) [
      | inl k ↦ ground (arith, cookie-IsCurrent cookie now later w p s h)
      | inr (t, k) ↦ ground (arith, proxy-IsCurrent auth header now p t k)
    ]

-- Where the accounts and the sessions are safe, a request that the guard of the administrators
-- lets pass, by a session or by the proxy, comes with a session of an account that exists and is
-- an administrator at that moment.
pub require_admin-current :
    (auth : ProxyAuth) (header : Text → Text) (cookie : Option Text) (now later : ℕ) (w : Bool)
    → (next : Text) (r : Request) (p : Program) → IsSafe p
    → require_admin next r (with_session auth header cookie now later w p.users p.sessions).1
      ≡ passes
    → (s : Session) × ((with_session auth header cookie now later w p.users p.sessions).1 ≡ some s)
      × (role_of s.username p.users ≡ some role_admin)
unfolding require_admin with_session deny_auth
require_admin-current auth header cookie now later w next r p h e =
    elim (Option-cases (with_session auth header cookie now later w p.users p.sessions).1) [
      | inl k ↦ ground arith
      | inr (s, k) ↦ (
        s,
        k,
        ground (
          arith,
          with_session-IsCurrent auth header cookie now later w p s h k,
          text_eq_iff s.role role_admin,
        ),
      )
    ]
