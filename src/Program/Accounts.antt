-- ===== src/Program/Accounts.antt =====
-- The handlers that change accounts (users_admin.go, totp.go): what they do to the user store and to
-- the sessions.
use dingbap.Text.{Text, equal_fold, trim, codes, text_eq, trim_space}
use dingbap.Base.{◌&&◌, if◌then◌else◌, none, some, false, Bool, List, Option, not, is_empty}
use dingbap.Program.{Program, Outside}
use dingbap.Program.Pending.{put_pending_setup, peek_pending_setup, take_pending_setup}
use dingbap.Program.Login.{verify_totp_or_recovery}
use dingbap.Web.{Request, has_method}
use dingbap.Users.{
  UserStore, UserError, Passwords, add_user, delete_user, set_password, set_role, authenticate,
  enable_totp, disable_totp, totp_enabled, role_viewer, refused, is_admin_role, role_admin, granted,
}
use dingbap.Sessions.{Session, destroy_by_username}

pub data AccountReply : Type 0 where
  method_not_allowed bad_body own_account not_signed_in wrong_password : AccountReply
  admin_only already_enabled no_setup invalid_code setup_expired no_codes no_secret : AccountReply
  failed : UserError → AccountReply
  done : AccountReply

abbrev pub drop_sessions : Outside → Text → Program → Program
drop_sessions o username p = record p {
  sessions = destroy_by_username username o.save_at o.sessions_written p.sessions;
}

-- The reply to a call on the user store, and the sessions of the account dropped where it is right.
unfoldable pub and_drop_sessions :
    Outside → Text → UserStore × Option UserError → Program → Program × AccountReply
unfolding destroy_by_username
and_drop_sessions o username (s, none) p = (drop_sessions o username (record p { users = s }), done)
and_drop_sessions o username (s, some e) p = (record p { users = s }, failed e)

abbrev pub reply_to : UserStore × Option UserError → Program → Program × AccountReply
reply_to (s, none) p = (record p { users = s }, done)
reply_to (s, some e) p = (record p { users = s }, failed e)

abbrev pub role_or_viewer : Text → Text
role_or_viewer role = if is_empty role then role_viewer else role

unfoldable pub handle_users_create :
    Passwords → Outside → Request → Option (Text × Text × Text) → Program → Program × AccountReply
unfolding add_user
handle_users_create pw o r body p =
    if not (has_method (codes "POST") r) then (p, method_not_allowed) else elim body [
      | none ↦ (p, bad_body)
      | some b ↦ reply_to (add_user pw b.0 b.1 (role_or_viewer b.2) o.users_written p.users) p
    ]

-- Whether the session in the request's context has the name.
abbrev pub is_own : Option Session → Text → Bool
is_own none username = false
is_own (some s) username = equal_fold s.username username

unfoldable pub handle_users_delete :
    Outside → Request → Option Session → Option Text → Program → Program × AccountReply
unfolding delete_user and_drop_sessions equal_fold
handle_users_delete o r own body p =
    if not (has_method (codes "POST") r) then (p, method_not_allowed) else elim body [
      | none ↦ (p, bad_body)
      | some username ↦
          if is_own own username
          then (p, own_account)
          else and_drop_sessions o username (delete_user username o.users_written p.users) p
    ]

unfoldable pub handle_users_set_password :
    Passwords → Outside → Request → Option (Text × Text) → Program → Program × AccountReply
unfolding set_password and_drop_sessions
handle_users_set_password pw o r body p =
    if not (has_method (codes "POST") r) then (p, method_not_allowed) else elim body [
      | none ↦ (p, bad_body)
      | some b ↦ and_drop_sessions o b.0 (set_password pw b.0 b.1 o.users_written p.users) p
    ]

unfoldable pub handle_users_set_role :
    Outside → Request → Option Session → Option (Text × Text) → Program → Program × AccountReply
unfolding set_role and_drop_sessions equal_fold
handle_users_set_role o r own body p =
    if not (has_method (codes "POST") r) then (p, method_not_allowed) else elim body [
      | none ↦ (p, bad_body)
      | some b ↦
          if is_own own b.0 && not (text_eq b.1 role_admin)
          then (p, own_account)
          else and_drop_sessions o b.0 (set_role b.0 b.1 o.users_written p.users) p
    ]

-- `body` is the current and the new password.
unfoldable pub handle_change_own_password :
    Passwords
    → Outside
    → Request
    → Option Session
    → Option (Text × Text)
    → Program
    → Program × AccountReply
unfolding authenticate set_password and_drop_sessions
handle_change_own_password pw o r own body p =
    if not (has_method (codes "POST") r) then (p, method_not_allowed) else elim own [
      | none ↦ (p, not_signed_in)
      | some s ↦ elim body [
        | none ↦ (p, bad_body)
        | some b ↦ elim (authenticate pw s.username b.0 p.users) [
          | refused e ↦ (p, wrong_password)
          | granted u ↦
              and_drop_sessions o s.username
                (set_password pw s.username b.1 o.users_written p.users) p
        ]
      ]
    ]

-- `secret` is the key that the library makes, where it makes one.
unfoldable pub handle_totp_begin :
    Outside → Request → Option Session → Option Text → Program → Program × AccountReply
unfolding totp_enabled put_pending_setup
handle_totp_begin o r own secret p =
    if not (has_method (codes "POST") r) then (p, method_not_allowed) else elim own [
      | none ↦ (p, admin_only)
      | some s ↦
          if not (is_admin_role s.role)
          then (p, admin_only)
          else if totp_enabled s.username p.users
          then (p, already_enabled)
          else elim secret [
            | none ↦ (p, no_secret)
            | some k ↦ (
              record p {
                pending_setups = put_pending_setup s.username k o.put_at p.pending_setups;
              },
              done,
            )
          ]
    ]

-- `hashes` are the digests of the recovery codes, where the random source gives them.
unfoldable pub handle_totp_confirm :
    Outside
    → Request
    → Option Session
    → Option Text
    → Option (List Text)
    → Program
    → Program × AccountReply
unfolding peek_pending_setup take_pending_setup enable_totp trim
handle_totp_confirm o r own body hashes p =
    if not (has_method (codes "POST") r) then (p, method_not_allowed) else elim own [
      | none ↦ (p, admin_only)
      | some s ↦ if not (is_admin_role s.role) then (p, admin_only) else elim body [
        | none ↦ (p, bad_body)
        | some code ↦ elim (peek_pending_setup s.username o.take_at p.pending_setups) [
          | none ↦ (p, no_setup)
          | some seen ↦
              let (m, taken) = take_pending_setup s.username o.put_at p.pending_setups in
              let p' = record p { pending_setups = m } in
              if not (o.accepts (trim_space code) seen) then (p, invalid_code) else elim taken [
                | none ↦ (p', setup_expired)
                | some secret ↦ elim hashes [
                  | none ↦ (p', no_codes)
                  | some hs ↦ reply_to (enable_totp s.username secret hs o.users_written p.users) p'
                ]
              ]
        ]
      ]
    ]

-- `body` is the password and the code.
unfoldable pub handle_totp_disable :
    Passwords
    → (Text → Text)
    → Outside
    → Request
    → Option Session
    → Option (Text × Text)
    → Program
    → Program × AccountReply
unfolding authenticate totp_enabled verify_totp_or_recovery disable_totp
handle_totp_disable pw digest o r own body p =
    if not (has_method (codes "POST") r) then (p, method_not_allowed) else elim own [
      | none ↦ (p, admin_only)
      | some s ↦ if not (is_admin_role s.role) then (p, admin_only) else elim body [
        | none ↦ (p, bad_body)
        | some b ↦ elim (authenticate pw s.username b.0 p.users) [
          | refused e ↦ (p, wrong_password)
          | granted u ↦
              let (us, ok) = verify_totp_or_recovery digest o s.username b.1 p.users in
              if not (totp_enabled s.username p.users)
              then reply_to (disable_totp s.username o.users_written p.users) p
              else if not ok
              then (record p { users = us }, invalid_code)
              else reply_to (disable_totp s.username o.users_rewritten us) (record p { users = us })
        ]
      ]
    ]
