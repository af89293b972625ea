-- ===== src/Sessions/Restart.antt =====
-- What a restart of the program keeps of the sessions.
use dingbap.Base.{
  ℕ, ◌≤◌, ◌≡◌, refl, Bool, true, false, not, ◌||◌, [], ◌∷◌, Option, none, some, arith, keep,
  if◌then◌else◌, is_empty,
}
use dingbap.Text.{Text}
use dingbap.Text.Laws.{text_eq_iff}
use dingbap.Table.{Table, lookup, insert}
use dingbap.Table.Laws.{Distinct, when, lookup-keep, lookup-insert, keep-Distinct}
use dingbap.Sessions.{
  Session, SessionManager, expired, loadable, load_entries, new_session_manager, persist, get,
}
use dingbap.Sessions.Lookup.{answer}

-- An entry of the file that may be loaded hides what the table held.
abbrev loaded : ℕ → Text → Option Session → Option Session → Option Session
loaded now id none old = old
loaded now id (some s) old = if loadable now id s then some s else old

lookup-load_entries :
    (now : ℕ) (id : Text) (f m : Table Session)
    → Distinct f
    → lookup id (load_entries now f m) ≡ loaded now id (lookup id f) (lookup id m)
unfolding load_entries lookup
lookup-load_entries now id [] m d = refl
lookup-load_entries now id ((j, s) ∷ f) m d = ground (
  arith,
  lookup-load_entries now id f (if loadable now j s then insert j s m else m) d.1,
  lookup-insert j id s m,
  text_eq_iff j id,
)

-- A session that names a user and a role.
abbrev pub complete : Session → Bool
complete s = not (is_empty s.username || is_empty s.role)

-- A program that saves its sessions and starts again gives, at every time after the start, the same
-- session for each token as if it had gone on, provided that the session names a user and a role.
pub get-restart :
    (id : Text) (saved started t t' : ℕ) (w : Bool) (sm : SessionManager)
    → Distinct sm.sessions
    → sm.memory_only ≡ false
    → saved ≤ started
    → started ≤ t
    → answer id t t' w (new_session_manager started false (persist saved true sm).file)
      ≡ when complete (answer id t t' w sm)
unfolding new_session_manager persist get lookup
get-restart id saved started t t' w sm d m h k =
    let p = λ (e : Text × Session). not (expired saved e.1) in
    ground (
      arith,
      keep-Distinct p sm.sessions d,
      lookup-keep p id sm.sessions d,
      lookup-load_entries started id (keep p sm.sessions) [],
    )
