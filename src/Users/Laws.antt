-- ===== src/Users/Laws.antt =====
-- Accounts told apart by their folded names.
use dingbap.Base.{
  ◌≡◌, refl, Bool, true, false, List, [], ◌∷◌, ◌++◌, none, arith, find?, modify_first, remove_first,
}
use dingbap.Text.{Text, equal_fold}
use dingbap.Text.Laws.{equal_fold_iff}
use dingbap.Users.{User, named}

-- No two accounts have names that differ in case alone.
abbrev pub DistinctNames : List User → Type 0
DistinctNames [] = Unit
DistinctNames (u ∷ us) = (find? (named u.username) us ≡ none) × DistinctNames us

-- A change of an account that leaves its name alone.
abbrev pub KeepsName : (User → User) → Type 0
KeepsName f = (u : User) → (f u).username ≡ u.username

module _ (q : User → Bool) where
  pub absent-modify_first :
      (f : User → User)
      → KeepsName f
      → (name : Text) (us : List User) → find? (named name) us ≡ none
      → find? (named name) (modify_first q f us) ≡ none
  unfolding find? modify_first
  absent-modify_first f k name [] h = refl
  absent-modify_first f k name (u ∷ us) h = ground (arith, k u, absent-modify_first f k name us)

  pub absent-remove_first :
      (name : Text) (us : List User)
      → find? (named name) us ≡ none
      → find? (named name) (remove_first q us) ≡ none
  unfolding find? remove_first
  absent-remove_first name [] h = refl
  absent-remove_first name (u ∷ us) h = ground (arith, absent-remove_first name us)

  pub modify_first-DistinctNames :
      (f : User → User)
      → KeepsName f
      → (us : List User) → DistinctNames us
      → DistinctNames (modify_first q f us)
  unfolding modify_first
  modify_first-DistinctNames f k [] d = d
  modify_first-DistinctNames f k (u ∷ us) d =
      ground
        (arith, k u, absent-modify_first f k u.username us, modify_first-DistinctNames f k us d.1)

  pub remove_first-DistinctNames :
      (us : List User) → DistinctNames us → DistinctNames (remove_first q us)
  unfolding remove_first
  remove_first-DistinctNames [] d = d
  remove_first-DistinctNames (u ∷ us) d =
      ground (arith, absent-remove_first u.username us, remove_first-DistinctNames us d.1)

absent-append :
    (name : Text) (us : List User) (v : User)
    → find? (named name) us ≡ none
    → equal_fold v.username name ≡ false
    → find? (named name) (us ++ (v ∷ [])) ≡ none
unfolding find?
absent-append name [] v h e = ground arith
absent-append name (u ∷ us) v h e = ground (arith, absent-append name us v)

-- A new name that nobody has keeps the names apart.
pub append-DistinctNames :
    (us : List User) (v : User)
    → find? (named v.username) us ≡ none
    → DistinctNames us
    → DistinctNames (us ++ (v ∷ []))
unfolding find?
append-DistinctNames [] v h d = (refl, tt)
append-DistinctNames (u ∷ us) v h d = ground (
  arith,
  equal_fold_iff u.username v.username,
  equal_fold_iff v.username u.username,
  absent-append u.username us v,
  append-DistinctNames us v,
)

-- Two names that fold alike find the same account.
pub find?-fold :
    (a b : Text) (us : List User) → equal_fold a b ≡ true → find? (named a) us ≡ find? (named b) us
unfolding find?
find?-fold a b [] h = refl
find?-fold a b (u ∷ us) h = ground (
  arith,
  equal_fold_iff a b,
  equal_fold_iff u.username a,
  equal_fold_iff u.username b,
  find?-fold a b us h,
)

-- Where names are distinct, removing an account leaves nobody of its name.
pub find?-remove_first_self :
    (name : Text) (us : List User)
    → DistinctNames us
    → find? (named name) (remove_first (named name) us) ≡ none
unfolding find? remove_first
find?-remove_first_self name [] d = refl
find?-remove_first_self name (u ∷ us) d = ground (
  arith,
  equal_fold_iff u.username name,
  find?-fold u.username name us,
  find?-remove_first_self name us d.1,
)

-- A write to one account leaves every other account as it is.
pub find?-modify_first_other :
    (a b : Text) (f : User → User)
    → KeepsName f
    → (us : List User) → equal_fold a b ≡ false
    → find? (named b) (modify_first (named a) f us) ≡ find? (named b) us
unfolding find? modify_first
find?-modify_first_other a b f k [] h = refl
find?-modify_first_other a b f k (u ∷ us) h = ground (
  arith,
  k u,
  equal_fold_iff a b,
  equal_fold_iff u.username a,
  equal_fold_iff u.username b,
  find?-modify_first_other a b f k us h,
)

pub find?-remove_first_other :
    (a b : Text) (us : List User)
    → equal_fold a b ≡ false
    → find? (named b) (remove_first (named a) us) ≡ find? (named b) us
unfolding find? remove_first
find?-remove_first_other a b [] h = refl
find?-remove_first_other a b (u ∷ us) h = ground (
  arith,
  equal_fold_iff a b,
  equal_fold_iff u.username a,
  equal_fold_iff u.username b,
  find?-remove_first_other a b us h,
)
