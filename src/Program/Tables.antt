-- ===== src/Program/Tables.antt =====
-- What the calls on the sessions and on the pending logins leave of a property of every entry.
use dingbap.Text.{Text, text_eq, trim_space, equal_fold}
use dingbap.Base.{
  ◌∷◌, [], ◌+◌, ◌≡◌, none, some, true, false, Bool, List, Option, ℕ, arith, not, keep, All,
  All-keep, is_empty, ltb, inl, inr, sym, subst, Bool-cases,
}
use dingbap.Program.{PendingLogin, Table}
use dingbap.Program.Pending.{put_pending_login, take_pending_login, totp_pending_ttl}
use dingbap.Sessions.{
  Session, SessionManager, create, destroy, get, reap, destroy_by_username, persist, new_session,
  expired,
}
use dingbap.Table.{delete, Table}
use dingbap.Table.Laws.{All-insert, All-lookup, keep_all}

sessions-destroy_by_username :
    (name : Text) (now : ℕ) (w : Bool) (sm : SessionManager)
    → is_empty (trim_space name) ≡ false
    → (destroy_by_username name now w sm).sessions
      ≡ keep (λ e. not (equal_fold e.1.username (trim_space name))) sm.sessions
unfolding destroy_by_username persist
sessions-destroy_by_username name now w sm h =
    let owned = λ (e : Text × Session). equal_fold e.1.username (trim_space name) in
    ground (arith, keep_all owned sm.sessions)

module _ (P : Text × Session → Type 0) where
  abbrev pub AllSessions : SessionManager → Type 0
  AllSessions sm = All P sm.sessions

  pub create-AllSessions :
      (token : Option Text) (name role : Text) (now later : ℕ) (w : Bool) (sm : SessionManager)
      → AllSessions sm
      → ((j : Text) → P (j, new_session name role now))
      → AllSessions (create token name role now later w sm).0
  unfolding create persist
  create-AllSessions none name role now later w sm h k = h
  create-AllSessions (some id) name role now later w sm h k =
      ground (arith, All-insert P id (new_session name role now) sm.sessions h k)

  pub destroy-AllSessions :
      (id : Text) (now : ℕ) (w : Bool) (sm : SessionManager)
      → AllSessions sm
      → AllSessions (destroy id now w sm)
  unfolding destroy persist delete
  destroy-AllSessions id now w sm h =
      ground (arith, All-keep P (λ e. not (text_eq e.0 id)) sm.sessions h)

  pub get-AllSessions :
      (id : Text) (now later : ℕ) (w : Bool) (sm : SessionManager)
      → AllSessions sm
      → AllSessions (get id now later w sm).0
  unfolding get
  get-AllSessions id now later w sm h = ground (arith, destroy-AllSessions id later w sm h)

  pub reap-AllSessions :
      (now later : ℕ) (w : Bool) (sm : SessionManager)
      → AllSessions sm
      → AllSessions (reap now later w sm)
  unfolding reap persist
  reap-AllSessions now later w sm h =
      ground (arith, All-keep P (λ e. not (expired now e.1)) sm.sessions h)

  pub destroy_by_username-AllSessions :
      (name : Text) (now : ℕ) (w : Bool) (sm : SessionManager)
      → AllSessions sm
      → AllSessions (destroy_by_username name now w sm)
  unfolding destroy_by_username persist
  destroy_by_username-AllSessions name now w sm h = elim (Bool-cases (is_empty (trim_space name))) [
    | inl e ↦ ground arith
    | inr e ↦
        subst (All P) (sym (sessions-destroy_by_username name now w sm e))
          (All-keep P (λ e. not (equal_fold e.1.username (trim_space name))) sm.sessions h)
  ]

all_of_keep {ℓ} : {A : Type ℓ} (p : A → Bool) (xs : List A) → All (λ x. p x ≡ true) (keep p xs)
unfolding keep
all_of_keep p [] = tt
all_of_keep p (x ∷ xs) = ground (arith, all_of_keep p xs)

-- No session of the user is left.
pub destroy_by_username-gone :
    (name : Text) (now : ℕ) (w : Bool) (sm : SessionManager)
    → is_empty (trim_space name) ≡ false
    → All
        (λ e. not (equal_fold e.1.username (trim_space name)) ≡ true)
        (destroy_by_username name now w sm).sessions
unfolding destroy_by_username persist
destroy_by_username-gone name now w sm h =
    subst (All (λ (e : Text × Session). not (equal_fold e.1.username (trim_space name)) ≡ true))
      (sym (sessions-destroy_by_username name now w sm h))
      (all_of_keep (λ (e : Text × Session). not (equal_fold e.1.username (trim_space name)))
        sm.sessions)

module _ (P : Text × PendingLogin → Type 0) where
  pub put-All :
      (token : Option Text) (name role : Text) (now : ℕ) (m : Table PendingLogin)
      → All P m
      → ((j : Text)
          → P (j, record { username = name; role = role; expires_at = now + totp_pending_ttl }))
      → All P (put_pending_login token name role now m).0
  unfolding put_pending_login
  put-All none name role now m h k = h
  put-All (some tok) name role now m h k =
      All-insert P tok _ _ (All-keep P (λ e. not (ltb e.1.expires_at now)) m h) k

  pub take-All :
      (token : Text) (now : ℕ) (m : Table PendingLogin)
      → All P m
      → All P (take_pending_login token now m).0
  unfolding take_pending_login delete
  take-All token now m h = ground (arith, All-keep P (λ e. not (text_eq e.0 token)) m h)

  pub taken_lem :
      (token : Text) (now : ℕ) (m : Table PendingLogin) (p : PendingLogin)
      → All P m
      → (take_pending_login token now m).1 ≡ some p
      → P (token, p)
  unfolding take_pending_login
  taken_lem token now m p h e = ground (arith, All-lookup P token m h p)
