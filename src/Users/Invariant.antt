-- ===== src/Users/Invariant.antt =====
-- What every history of calls on the user store keeps: names apart, roles known, the second factor
-- on administrators only, and an administrator left.
use dingbap.Base.{
  inl, inr, All-find?, All-modify_found, ◌≡◌, ◌≢◌, refl, Bool, true, false, List, [], ◌∷◌, ◌++◌,
  arith, find?, modify_first, remove_first, All, All-append, All-modify_first, All-remove_first,
  Option-cases, Bool-cases, is_some, is_empty,
}
use dingbap.Text.{Text, trim_space, is_space}
use dingbap.Text.Laws.{trim_idem}
use dingbap.Users.{
  hash_recovery_code, append_user, grant_totp, spend_hash, User, UserStore, Passwords, is_admin,
  valid_role, named, save, new_user, add_user, set_password, set_role, delete_user, enable_totp,
  disable_totp, consume_recovery_code, clear_totp, assign_role,
}
use dingbap.Users.Laws.{
  DistinctNames, KeepsName, modify_first-DistinctNames, remove_first-DistinctNames,
  append-DistinctNames,
}

pub record IsSound (u : User) : Type 0 where
  pub known_role : valid_role u.role ≡ true
  pub trimmed : trim_space u.username ≡ u.username
  pub nonempty : u.username ≢ []
  pub second_factor : u.totp_active ≡ true → is_admin u ≡ true

pub record IsValid (us : List User) : Type 0 where
  pub distinct : DistinctNames us
  pub sound : All IsSound us

-- The calls that change the store, with the outcome of the file write of each.
pub data Call : Type 0 where
  add : Text → Text → Text → Bool → Call
  password : Text → Text → Bool → Call
  role : Text → Text → Bool → Call
  remove : Text → Bool → Call
  enable : Text → Text → List Text → Bool → Call
  disable : Text → Bool → Call
  recover : Text → Text → Bool → Call

module _ (pw : Passwords) (digest : Text → Text) where
  unfoldable pub apply : UserStore → Call → UserStore
  apply s (add name pass kind w) = (add_user pw name pass kind w s).0
  apply s (password name pass w) = (set_password pw name pass w s).0
  apply s (role name kind w) = (set_role name kind w s).0
  apply s (remove name w) = (delete_user name w s).0
  apply s (enable name secret hashes w) = (enable_totp name secret hashes w s).0
  apply s (disable name w) = (disable_totp name w s).0
  apply s (recover name code w) = (consume_recovery_code digest name code w s).0

  unfoldable pub run : UserStore → List Call → UserStore
  run s [] = s
  run s (c ∷ cs) = run (apply s c) cs

abbrev pub Valid : UserStore → Type 0
Valid s = IsValid s.users × IsValid s.file

save-Valid :
    (w : Bool) (s : UserStore) (us : List User)
    → IsValid us
    → Valid s
    → Valid (save w (record s { users = us })).0
unfolding save
save-Valid w s us v h = ground arith

modify_first-IsValid :
    (q : User → Bool) (f : User → User)
    → KeepsName f
    → ((u : User) → IsSound u → IsSound (f u))
    → (us : List User) → IsValid us
    → IsValid (modify_first q f us)
modify_first-IsValid q f k sound us v = record {
  distinct = modify_first-DistinctNames q f k us v.distinct;
  sound = All-modify_first q IsSound f sound us v.sound;
}

new_user-IsSound :
    (name hash kind : Text)
    → valid_role kind ≡ true
    → is_empty (trim_space name) ≡ false
    → IsSound (new_user (trim_space name) hash kind)
new_user-IsSound name hash kind k e = record {
  known_role = k;
  trimmed = trim_idem is_space name;
  nonempty = λ p. cc;
  second_factor = λ p. cc;
}

append-IsValid :
    (us : List User) (v : User)
    → IsSound v
    → is_some (find? (named v.username) us) ≡ false
    → IsValid us
    → IsValid (us ++ (v ∷ []))
append-IsValid us v s e h = record {
  distinct = append-DistinctNames us v (ground arith) h.distinct;
  sound = All-append IsSound us (v ∷ []) h.sound (s, tt);
}

save_modified-Valid :
    (q : User → Bool) (f : User → User)
    → KeepsName f
    → ((u : User) → IsSound u → IsSound (f u))
    → (w : Bool) (s : UserStore) → Valid s
    → Valid (save w (record s { users = modify_first q f s.users })).0
save_modified-Valid q f k sound w s h =
    save-Valid w s _ (modify_first-IsValid q f k sound s.users h.0) h

append_user-Valid :
    (w : Bool) (u : User) (s : UserStore) → IsSound u → Valid s → Valid (append_user w u s).0
append_user-Valid w u s sound h =
    ground (arith, append-IsValid s.users u sound, save-Valid w s (s.users ++ (u ∷ [])))

module _ (pw : Passwords) where
  add_user-Valid :
      (name pass kind : Text) (w : Bool) (s : UserStore)
      → Valid s
      → Valid (add_user pw name pass kind w s).0
  unfolding add_user
  add_user-Valid name pass kind w s h = elim (Option-cases (pw.hash pass)) [
    | inl e ↦ ground arith
    | inr (hash, e) ↦ ground (
      arith,
      new_user-IsSound name hash kind,
      append_user-Valid w (new_user (trim_space name) hash kind) s,
    )
  ]

  set_password-Valid :
      (name pass : Text) (w : Bool) (s : UserStore)
      → Valid s
      → Valid (set_password pw name pass w s).0
  unfolding set_password
  set_password-Valid name pass w s h = elim (Option-cases (pw.hash pass)) [
    | inl e ↦ ground arith
    | inr (hash, e) ↦ ground (
      arith,
      save_modified-Valid (named (trim_space name)) (λ u. record u { password_hash = hash })
          (λ u. refl) (λ u k. ground arith) w s h,
    )
  ]

assign_role-IsSound :
    (kind : Text) → valid_role kind ≡ true → (u : User) → IsSound u → IsSound (assign_role kind u)
assign_role-IsSound kind k u h = ground arith

set_role-Valid :
    (name kind : Text) (w : Bool) (s : UserStore) → Valid s → Valid (set_role name kind w s).0
unfolding set_role
set_role-Valid name kind w s h = elim (Bool-cases (valid_role kind)) [
  | inl e ↦ ground (
    arith,
    save_modified-Valid (named (trim_space name)) (assign_role kind) (λ u. ground arith)
        (assign_role-IsSound kind e) w s h,
  )
  | inr e ↦ ground arith
]

delete_user-Valid :
    (name : Text) (w : Bool) (s : UserStore) → Valid s → Valid (delete_user name w s).0
unfolding delete_user
delete_user-Valid name w s h =
    let q = named (trim_space name) in
    ground (
      arith,
      save-Valid w s (remove_first q s.users)
          (record {
            distinct = remove_first-DistinctNames q s.users h.0.distinct;
            sound = All-remove_first q IsSound s.users h.0.sound;
          })
          h,
    )

enable_totp-Valid :
    (name secret : Text) (hashes : List Text) (w : Bool) (s : UserStore)
    → Valid s
    → Valid (enable_totp name secret hashes w s).0
unfolding enable_totp
enable_totp-Valid name secret hashes w s h = elim (Option-cases (find? (named name) s.users)) [
  | inl e ↦ ground arith
  | inr (u, e) ↦
      let f = grant_totp secret hashes in
      let us = modify_first (named name) f s.users in
      ground (
        arith,
        All-find? (named name) IsSound s.users u h.0.sound e,
        All-modify_found (named name) IsSound f s.users u e,
        modify_first-DistinctNames (named name) f (λ v. refl) s.users h.0.distinct,
        save-Valid w s us,
      )
]

disable_totp-Valid :
    (name : Text) (w : Bool) (s : UserStore) → Valid s → Valid (disable_totp name w s).0
unfolding disable_totp
disable_totp-Valid name w s h =
    ground
      (arith, save_modified-Valid (named name) clear_totp (λ u. refl) (λ u k. ground arith) w s h)

consume_recovery_code-Valid :
    (digest : Text → Text) (name code : Text) (w : Bool) (s : UserStore)
    → Valid s
    → Valid (consume_recovery_code digest name code w s).0
unfolding consume_recovery_code
consume_recovery_code-Valid digest name code w s h = ground (
  arith,
  save_modified-Valid (named name) (spend_hash (hash_recovery_code digest code)) (λ u. refl)
      (λ u k. ground arith) w s h,
)

module _ (pw : Passwords) (digest : Text → Text) where
  apply-Valid : (s : UserStore) (c : Call) → Valid s → Valid (apply pw digest s c)
  unfolding apply
  apply-Valid s (add name pass kind w) h = add_user-Valid pw name pass kind w s h
  apply-Valid s (password name pass w) h = set_password-Valid pw name pass w s h
  apply-Valid s (role name kind w) h = set_role-Valid name kind w s h
  apply-Valid s (remove name w) h = delete_user-Valid name w s h
  apply-Valid s (enable name secret hashes w) h = enable_totp-Valid name secret hashes w s h
  apply-Valid s (disable name w) h = disable_totp-Valid name w s h
  apply-Valid s (recover name code w) h = consume_recovery_code-Valid digest name code w s h

  -- From a valid store, every history of calls, whatever the outcome of each file write, leads to a
  -- store whose accounts, in memory and in the file, have names that differ in more than case, are
  -- trimmed and not empty, have a known role, and use the second factor on administrators only.
  pub run-Valid : (s : UserStore) (cs : List Call) → Valid s → Valid (run pw digest s cs)
  unfolding run
  run-Valid s [] h = h
  run-Valid s (c ∷ cs) h = run-Valid (apply pw digest s c) cs (apply-Valid s c h)
