-- ===== src/Users/Access.antt =====
-- Who can sign in after a change of the store.
use dingbap.Base.{
  is_some-find?, count-remove_first_self, count-remove_first_other, some_of_is_some, inl, inr, ℕ,
  ◌-◌, ◌≡◌, refl, Bool, true, false, [], ◌∷◌, ◌++◌, none, some, Option, arith, find?, remove_first,
  count, Option-cases, Bool-cases, if◌then◌else◌, ltb, find?-modify_first, find?-append, is_some,
}
use dingbap.Text.{Text, trim_space, equal_fold, text_eq}
use dingbap.Text.Laws.{equal_fold_refl, text_eq_iff}
use dingbap.Users.{
  User, UserStore, invalid_credentials, Passwords, named, save, new_user, add_user, set_password,
  delete_user, consume_recovery_code, spend_hash, hash_recovery_code, authenticate, granted,
  refused, by_username,
}
use dingbap.Users.Laws.{
  DistinctNames, find?-fold, find?-remove_first_self, find?-remove_first_other,
}

-- Which passwords the hash of one accepts.
abbrev pub Accepts : Passwords → (Text → Text → Bool) → Type 0
Accepts pw same = (p q h : Text) → pw.hash p ≡ some h → pw.verify h q ≡ some (same p q)

find?_single :
    (n : Text) (u : User) → equal_fold u.username n ≡ true → find? (named n) (u ∷ []) ≡ some u
unfolding find?
find?_single n u h = ground arith

module _ (pw : Passwords) (same : Text → Text → Bool) (reads : Accepts pw same) where
  granted_by_hash :
      (s : UserStore) (n pass hash q : Text) (u : User)
      → pw.hash pass ≡ some hash
      → find? (named n) s.users ≡ some u
      → u.password_hash ≡ hash
      → authenticate pw n q s ≡ (if same pass q then granted u else refused invalid_credentials)
  unfolding authenticate
  granted_by_hash s n pass hash q u e f g = ground (arith, reads pass q hash e)

  set_password_saved :
      (name pass hash : Text) (w : Bool) (s : UserStore) (u : User)
      → find? (named (trim_space name)) s.users ≡ some u
      → pw.hash pass ≡ some hash
      → (set_password pw name pass w s).1 ≡ none
      → find? (named (trim_space name)) (set_password pw name pass w s).0.users
        ≡ some (record u { password_hash = hash })
  unfolding set_password save
  set_password_saved name pass hash w s u f e h = ground (
    arith,
    find?-modify_first (named (trim_space name)) (λ v. record v { password_hash = hash }) (λ v k. k)
        s.users,
  )

  set_password_found :
      (name pass : Text) (w : Bool) (s : UserStore)
      → (set_password pw name pass w s).1 ≡ none
      → (is_some (pw.hash pass) ≡ true) × (is_some (find? (named (trim_space name)) s.users) ≡ true)
  unfolding set_password
  set_password_found name pass w s h = ground arith

  -- After a successful change of the password, under every spelling of the name, what the hash of the
  -- new password accepts signs in, as the account with nothing but its hash changed.
  pub granted-set_password :
      (name pass n q : Text) (w : Bool) (s : UserStore)
      → (set_password pw name pass w s).1 ≡ none
      → equal_fold (trim_space name) n ≡ true
      → (u : User) × (hash : Text) × (by_username n s ≡ some u)
        × (authenticate pw n q (set_password pw name pass w s).0 ≡ (
            if same pass q
            then granted (record u { password_hash = hash })
            else refused invalid_credentials))
  unfolding by_username
  granted-set_password name pass n q w s h e =
      let s' = (set_password pw name pass w s).0 in
      let (some_hash, some_user) = set_password_found name pass w s h in
      let (hash, e₁) = some_of_is_some (pw.hash pass) some_hash in
      let (u, e₂) = some_of_is_some (find? (named (trim_space name)) s.users) some_user in
      let e₃ = set_password_saved name pass hash w s u e₂ e₁ h in
      let e₄ = find?-fold (trim_space name) n s'.users e in
      let e₅ = find?-fold (trim_space name) n s.users e in
      let u' : User = record u { password_hash = hash } in
      (u, hash, cc, granted_by_hash s' n pass hash q u' e₁ (cc) refl)

  add_user_saved :
      (name pass kind hash : Text) (w : Bool) (s : UserStore)
      → pw.hash pass ≡ some hash
      → (add_user pw name pass kind w s).1 ≡ none
      → ((add_user pw name pass kind w s).0.users
          ≡ s.users ++ (new_user (trim_space name) hash kind ∷ []))
        × (find? (named (trim_space name)) s.users ≡ none)
  unfolding add_user save
  add_user_saved name pass kind hash w s e h = ground arith

  add_user_hashed :
      (name pass kind : Text) (w : Bool) (s : UserStore)
      → (add_user pw name pass kind w s).1 ≡ none
      → is_some (pw.hash pass) ≡ true
  unfolding add_user
  add_user_hashed name pass kind w s h = ground arith

  -- After a successful creation the name was free before, and the new account signs in with
  -- what the hash of its password accepts, in the role asked for and with no second factor.
  pub granted-add_user :
      (name pass kind q : Text) (w : Bool) (s : UserStore)
      → (add_user pw name pass kind w s).1 ≡ none
      → (hash : Text) × (by_username (trim_space name) s ≡ none)
        × (authenticate pw (trim_space name) q (add_user pw name pass kind w s).0 ≡ (
            if same pass q
            then granted (new_user (trim_space name) hash kind)
            else refused invalid_credentials))
  unfolding by_username
  granted-add_user name pass kind q w s h =
      let s' = (add_user pw name pass kind w s).0 in
      let n = trim_space name in
      let (hash, e) = some_of_is_some (pw.hash pass) (add_user_hashed name pass kind w s h) in
      let (saved, free) = add_user_saved name pass kind hash w s e h in
      let u = new_user n hash kind in
      let here = find?-append (named n) s.users (u ∷ []) free in
      let found : find? (named n) s'.users ≡ some u =
        rw (saved, here) (find?_single n u (equal_fold_refl n)) in
      (hash, free, granted_by_hash s' n pass hash q u e found refl)

-- After a successful deletion nobody signs in under any spelling of the name, and every account of
-- another name is as it was.
pub authenticate-delete_user :
    (pw : Passwords) (name n q : Text) (w : Bool) (s : UserStore)
    → DistinctNames s.users
    → (delete_user name w s).1 ≡ none
    → (authenticate pw n q (delete_user name w s).0 ≡ (
        if equal_fold (trim_space name) n
        then refused invalid_credentials
        else authenticate pw n q s))
      × (by_username n (delete_user name w s).0
          ≡ (if equal_fold (trim_space name) n then none else by_username n s))
unfolding authenticate by_username delete_user save
authenticate-delete_user pw name n q w s d h =
    let a = trim_space name in
    let s' = remove_first (named a) s.users in
    let gone = find?-remove_first_self a s.users d in
    (
      ground (arith, gone, find?-fold a n s', find?-remove_first_other a n s.users),
      ground (arith, gone, find?-fold a n s', find?-remove_first_other a n s.users),
    )

-- How many unused recovery codes with the digest `sum` an account has.
abbrev pub uses_of : Text → Option User → ℕ
uses_of sum none = 0
uses_of sum (some u) = count (λ h. text_eq h sum) u.totp_recovery_hash

abbrev pub uses : Text → Text → UserStore → ℕ
uses name sum s = uses_of sum (by_username name s)

apart : (a b : Text) → text_eq a b ≡ false → (h : Text) → text_eq h a ≡ true → text_eq h b ≡ false
apart a b d h e = ground (arith, text_eq_iff h a, text_eq_iff h b, text_eq_iff a b)

-- A recovery code is accepted as often as its hash is stored: each use is accepted exactly when one
-- is left and, whether or not the file is written, spends one. No other code is spent by it.
pub uses-consume_recovery_code :
    (digest : Text → Text) (name code sum' : Text) (w : Bool) (s : UserStore)
    → let sum = hash_recovery_code digest code in
      let after = consume_recovery_code digest name code w s in
      (after.1 ≡ ltb 0 (uses name sum s))
      × (uses name sum' after.0
          ≡ (if text_eq sum sum' then uses name sum' s - 1 else uses name sum' s))
unfolding by_username consume_recovery_code save
uses-consume_recovery_code digest name code sum' w s =
    let sum = hash_recovery_code digest code in
    let p = λ (h : Text). text_eq h sum in
    elim (Option-cases (find? (named name) s.users)) [
      | inl e ↦ (ground arith, ground arith)
      | inr (u, e) ↦
          let hs = u.totp_recovery_hash in
          let found = is_some-find? p hs in
          let moved = find?-modify_first (named name) (spend_hash sum) (λ v k. k) s.users in
          let spent = count-remove_first_self p hs in
          let others = count-remove_first_other p (λ h. text_eq h sum') in
          (
            ground (arith, found),
            elim (Bool-cases (text_eq sum sum')) [
              | inl k ↦ ground (arith, found, moved, spent, text_eq_iff sum sum')
              | inr k ↦ ground (arith, found, moved, others (apart sum sum' k) hs)
            ],
          )
    ]
