-- ===== src/Access.antt =====
-- Who a request comes from and what it may reach (middleware.go, proxy_auth.go).
pub mod Laws
mod Examples
use dingbap.Base.{
  ◌∷◌, [], ◌++◌, ◌+◌, ◌*◌, ◌==◌, ◌&&◌, ◌||◌, if◌then◌else◌, none, some, false, Bool, List, Option,
  ℕ, not, map, is_empty, ltb, length,
}
use dingbap.Text.{Text, codes, text_eq, has_prefix, trim_space, contains_byte, trim}
use dingbap.Web.{Request, has_method}
use dingbap.Users.{UserStore, User, by_username, is_admin_role}
use dingbap.Sessions.{Session, SessionManager, from_request, hour}

-- Where the login page sends a user to.
unfoldable pub safe_next_path : Text → Text → Text
unfolding has_prefix
safe_next_path next role =
    if is_empty next || (not (has_prefix next (codes "/")) || has_prefix next (codes "//"))
    then if is_admin_role role then codes "/admin" else codes "/"
    else if has_prefix next (codes "/admin") && not (is_admin_role role)
    then codes "/"
    else next

-- `strings.Contains`
unfoldable pub contains : Text → Text → Bool
unfolding has_prefix
contains [] sub = is_empty sub
contains (c ∷ s) sub = has_prefix (c ∷ s) sub || contains s sub

unfoldable pub should_redirect_to_login : Request → Bool
unfolding has_prefix contains text_eq
should_redirect_to_login r =
    if not (has_method (codes "GET") r) && not (has_method (codes "HEAD") r)
    then false
    else if has_prefix r.path (codes "/api/")
        || (has_prefix r.path (codes "/download/") || has_prefix r.path (codes "/preview/"))
    then false
    else if has_prefix r.path (codes "/admin/")
    then false
    else is_empty r.accept
      || (contains r.accept (codes "text/html") || contains r.accept (codes "*/*"))

-- What a guard does: it passes the request on, sends it elsewhere, or answers with a status.
pub data Verdict : Type 0 where
  passes : Verdict
  redirects : Text → Verdict
  answers : ℕ → Verdict

-- `next` is the request's address as `url.QueryEscape` writes it.
unfoldable pub deny_auth : Text → Request → Verdict
unfolding should_redirect_to_login
deny_auth next r =
    if should_redirect_to_login r then redirects (codes "/login?next=" ++ next) else answers 401

unfoldable pub require_admin : Text → Request → Option Session → Verdict
unfolding deny_auth should_redirect_to_login
require_admin next r none = deny_auth next r
require_admin next r (some s) =
    if not (is_admin_role s.role)
    then if should_redirect_to_login r then redirects (codes "/") else answers 403
    else passes

unfoldable pub require_viewer_or_open : Bool → Text → Request → Option Session → Verdict
unfolding deny_auth
require_viewer_or_open public_open next r none = if public_open then passes else deny_auth next r
require_viewer_or_open public_open next r (some s) = passes

-- `proxyAuthEnabled` and `proxyAuthHeader`.
pub record ProxyAuth : Type 0 where
  pub enabled : Bool
  pub header : Text

-- The part before an `@`, unless the text begins with one.
unfoldable pub before_at : Text → Text
before_at [] = []
before_at (c ∷ s) = if c == b'@' then [] else c ∷ before_at s

unfoldable pub local_part : Text → Text
unfolding before_at has_prefix
local_part raw = if has_prefix raw (codes "@") then raw else before_at raw

abbrev pub is_junk : Text → Bool
is_junk raw =
    contains_byte b'/' raw
    || (contains_byte b'\\' raw
        || (contains_byte 0 raw || (contains_byte 13 raw || contains_byte 10 raw)))

unfoldable pub sanitize_proxy_username : Text → Text
unfolding local_part contains_byte trim
sanitize_proxy_username raw =
    let name = trim_space (local_part (trim_space raw)) in
    if is_empty (trim_space raw)
    then []
    else if is_empty name || ltb 64 (length name)
    then []
    else if is_junk name
    then []
    else name

abbrev pub first_nonempty : List Text → Text
first_nonempty [] = []
first_nonempty (v ∷ vs) = if is_empty v then first_nonempty vs else v

-- `header` is the request's `Header.Get`.
unfoldable pub proxy_username : ProxyAuth → (Text → Text) → Text
unfolding sanitize_proxy_username
proxy_username auth header =
    let tried =
      map header (codes "Remote-User" ∷ codes "X-Remote-User" ∷ codes "X-Forwarded-User" ∷ []) in
    if not auth.enabled
    then []
    else sanitize_proxy_username
        (if is_empty auth.header then first_nonempty tried else header auth.header)

unfoldable pub session_from_proxy : ProxyAuth → (Text → Text) → ℕ → UserStore → Option Session
unfolding proxy_username by_username
session_from_proxy auth header now users =
    let name = proxy_username auth header in
    if is_empty name then none else elim (by_username name users) [
      | none ↦ none
      | some u ↦
          some (record { username = u.username; role = u.role; expires_at = now + 24 * hour })
    ]

-- `withSession`: the user of the proxy first, then the session of the cookie.
unfoldable pub with_session :
    ProxyAuth
    → (Text → Text)
    → Option Text
    → ℕ
    → ℕ
    → Bool
    → UserStore
    → SessionManager
    → SessionManager × Option Session
unfolding session_from_proxy from_request
with_session auth header cookie now later w users sm =
    elim (session_from_proxy auth header now users) [
      | some s ↦ (sm, some s)
      | none ↦ from_request cookie now later w sm
    ]
