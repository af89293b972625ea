-- ===== src/Uploads/Resumed.antt =====
-- What a restart of the program and the end of an upload leave.
use dingbap.Table.Laws.{Distinct}
use dingbap.Uploads.Whole.{acquire_active}
use dingbap.Text.Laws.{text_eq_iff}
use dingbap.Table.Laws.{Distinct, lookup-delete}
use dingbap.Uploads.{new_upload_manager, reap_each, reap_expired, to_reap, remove_dir, drop_active}
use dingbap.Shares.{valid_share_token}
use dingbap.Uploads.Indices.{collect_cong, member-collect}
use dingbap.Text.{Text, text_eq}
use dingbap.Table.{lookup, Table, delete}
use dingbap.Uploads.Chunks.{status}
use dingbap.Base.{
  [], ◌<◌, ◌≡◌, ◌∙◌, inl, none, some, true, false, Bool, List, ℕ, refl, arith, ap, ◌⊎◌, sym,
  is_some, ◌∷◌, inr, All, Bool-cases, ◌+◌, subst, keep, if_both, ltb,
}
use dingbap.Uploads.{
  UploadMeta, ActiveUpload, UploadManager, Answers, received_list, read_meta_disk, acquire, lookup,
  member, Text, hydrate, SessionDir, valid_share_token, holds, scan_received_disk, is_over,
  meta_found, chunks_of, UploadError, reap_each, to_reap,
}
use dingbap.Uploads.Tracks.{IsGood}

received-cong :
    (m : UploadMeta) (xs ys : List ℕ) (x y : Bool)
    → ((j : ℕ) → j < m.total_chunks → member j xs ≡ member j ys)
    → received_list (record { meta = m; received = xs; aborted = x })
      ≡ received_list (record { meta = m; received = ys; aborted = y })
unfolding received_list
received-cong m xs ys x y h = collect_cong m.total_chunks 0 _ _ (λ j l. h j (omega (arith, l)))

read_meta_lem :
    (id : Text) (os : Answers) (um : UploadManager) (dir : SessionDir) (m : UploadMeta)
    → valid_share_token id ≡ true
    → lookup id um.disk ≡ some dir
    → dir.meta_file ≡ holds m
    → m.id ≡ id
    → is_over os.at m ≡ false
    → read_meta_disk id os.at um ≡ inl m
unfolding read_meta_disk
read_meta_lem id os um dir m v d k s o =
    let same : text_eq m.id id ≡ true = (text_eq_iff m.id id).1 s in
    rw (v, d) (ap (meta_found id os.at) k ∙ ground (arith, same, o))

hydrated_lem :
    (id : Text) (os : Answers) (um : UploadManager) (m : UploadMeta)
    → valid_share_token id ≡ true
    → lookup id um.active ≡ none
    → read_meta_disk id os.at um ≡ inl m
    → (acquire id os um).1
      ≡ inl
          (record { meta = m; received = scan_received_disk id m.total_chunks um; aborted = false })
unfolding acquire hydrate
hydrated_lem id os um m v n r = rw (v, n, r) refl

status-found :
    (id : Text) (os : Answers) (um : UploadManager) (a : ActiveUpload)
    → (acquire id os um).1 ≡ inl a
    → (status id os um).1 ≡ inl (a.meta, received_list a)
unfolding status
status-found id os um a e = ground (arith, e)

-- A manager with nothing in memory for a session, and its directory as it was, answers `status` from the
-- disk as the one before it did from memory.
status-reread :
    (id : Text) (os : Answers) (um um' : UploadManager) (a : ActiveUpload)
    → IsGood um
    → valid_share_token id ≡ true
    → lookup id um.active ≡ some a
    → is_over os.at a.meta ≡ false
    → lookup id um'.active ≡ none
    → lookup id um'.disk ≡ lookup id um.disk
    → (status id os um').1 ≡ (status id os um).1
unfolding scan_received_disk
status-reread id os um um' a g v e o n k =
    let (dir, d, t) = g.tracked id a e in
    let total = a.meta.total_chunks in
    let on : ℕ → Bool = λ i. is_some (chunks_of (lookup id um'.disk) i) in
    let read = read_meta_lem id os um' dir a.meta v (k ∙ d) t.same_meta t.same_id o in
    let received = scan_received_disk id total um' in
    let after : ActiveUpload = record { meta = a.meta; received = received; aborted = false } in
    let same : (j : ℕ) → j < total → member j received ≡ member j a.received =
      λ j l. ground (arith, k, d, member-collect total 0 j on, t.on_disk j l) in
    status-found id os um' after (hydrated_lem id os um' a.meta v n read)
    ∙ ap (λ rs. inl (a.meta, rs)) (received-cong a.meta received a.received false a.aborted same)
    ∙ sym (
        status-found id os um a (
          ap (λ (r : UploadManager × (ActiveUpload ⊎ UploadError)). r.1)
            (acquire_active id os um a v e o)))

-- Every entry under the name of a session is young enough.
abbrev Spares : Text → ℕ → Table SessionDir → Type 0
Spares id now entries = All (λ (e : Text × SessionDir). e.0 ≡ id → to_reap now e.1 ≡ false) entries

removed_lookup :
    (id k : Text) (removed : Bool) (um : UploadManager)
    → text_eq k id ≡ false
    → lookup id (remove_dir removed k (drop_active k um)).disk ≡ lookup id um.disk
removed_lookup id k removed um n = ground (arith, n, lookup-delete k id um.disk)

other_name : (id k : Text) (b : Bool) → b ≡ true → (k ≡ id → b ≡ false) → text_eq k id ≡ false
other_name id k b r s = elim (Bool-cases (text_eq k id)) [
  | inl q ↦ ground (arith, r, s ((text_eq_iff k id).0 q))
  | inr q ↦ q
]

reap_each_lem :
    (id : Text) (os : Answers) (entries : Table SessionDir) (um : UploadManager)
    → um.active ≡ []
    → Spares id os.at entries
    → ((reap_each os entries um).active ≡ [])
      × (lookup id (reap_each os entries um).disk ≡ lookup id um.disk)
unfolding reap_each delete keep
reap_each_lem id os [] um n s = (n, refl)
reap_each_lem id os ((k, dir) ∷ entries) um n s = elim (Bool-cases (to_reap os.at dir)) [
  | inr r ↦ rw r (reap_each_lem id os entries um n s.1)
  | inl r ↦
      let um' = remove_dir os.removed k (drop_active k um) in
      let later = reap_each_lem id os entries um' (ap (delete k) n) s.1 in
      rw r (
        later.0,
        later.1 ∙ removed_lookup id k os.removed um (other_name id k (to_reap os.at dir) r s.0),
      )
]

absent-Spares : (id : Text) (now : ℕ) (m : Table SessionDir) → lookup id m ≡ none → Spares id now m
unfolding lookup
absent-Spares id now [] e = tt
absent-Spares id now ((k, w) ∷ m) e =
    ((λ q. ground (arith, (text_eq_iff k id).1 q, e)), absent-Spares id now m (ground (arith, e)))

Distinct-Spares :
    (id : Text) (now : ℕ) (m : Table SessionDir) (dir : SessionDir)
    → Distinct m
    → lookup id m ≡ some dir
    → to_reap now dir ≡ false
    → Spares id now m
unfolding lookup
Distinct-Spares id now [] dir d e r = tt
Distinct-Spares id now ((k, w) ∷ m) dir d e r = elim (Bool-cases (text_eq k id)) [
  | inl q ↦
      let same : k ≡ id = (text_eq_iff k id).0 q in
      let found : w ≡ dir = ground (arith, q, e) in
      (
        (λ n. ap (to_reap now) found ∙ r),
        absent-Spares id now m (subst (λ j. lookup j m ≡ none) same d.0),
      )
  | inr q ↦ (
    (λ n. ground (arith, q, (text_eq_iff k id).1 n)),
    Distinct-Spares id now m dir d.1 (ground (arith, q, e)) r,
  )
]

reap_expired_lem :
    (id : Text) (os : Answers) (um : UploadManager)
    → um.active ≡ []
    → Spares id os.at um.disk
    → ((reap_expired os um).active ≡ []) × (lookup id (reap_expired os um).disk ≡ lookup id um.disk)
unfolding reap_expired
reap_expired_lem id os um n s =
    let P : UploadManager → Type 0 =
      λ q. (q.active ≡ []) × (lookup id q.disk ≡ lookup id um.disk) in
    let um' = record um { reaped = os.at } in
    if_both P (ltb os.at (um.reaped + 3600)) (n, refl)
      (if_both P os.listed (reap_each_lem id os um.disk um' n s) (n, refl))

-- A restart keeps the directory of a session that is not over.
restarted_lem :
    (id : Text) (os : Answers) (um um' : UploadManager)
    → Spares id os.at um.disk
    → new_upload_manager os um ≡ some um'
    → (um'.active ≡ []) × (lookup id um'.disk ≡ lookup id um.disk)
unfolding new_upload_manager
restarted_lem id os um um' s e =
    let fresh : UploadManager = record { active = []; disk = um.disk; reaped = 0 } in
    let kept = reap_expired_lem id os fresh refl s in
    let same : reap_expired os fresh ≡ um' = ground (arith, e) in
    subst (λ (q : UploadManager). (q.active ≡ []) × (lookup id q.disk ≡ lookup id um.disk)) same
      kept

-- Let the sessions in memory and on the disk agree, as they do after every history of calls, and let the
-- names in the folder of the uploads differ. If the program is started again while a session is in
-- memory and not over, and it is not over later either, `status` then answers as without the restart:
-- the start with its sweep keeps the session, and what the program reads from the disk is what it had
-- in memory.
pub status-restart :
    (id : Text) (os os' : Answers) (um um' : UploadManager) (a : ActiveUpload)
    → IsGood um
    → Distinct um.disk
    → valid_share_token id ≡ true
    → lookup id um.active ≡ some a
    → is_over os.at a.meta ≡ false
    → is_over os'.at a.meta ≡ false
    → new_upload_manager os um ≡ some um'
    → (status id os' um').1 ≡ (status id os' um).1
unfolding lookup
status-restart id os os' um um' a g d v e o o' n =
    let (dir, here, t) = g.tracked id a e in
    let young : to_reap os.at dir ≡ false = ground (arith, t.same_meta, o) in
    let (none_active, same) =
      restarted_lem id os um um' (Distinct-Spares id os.at um.disk dir d here young) n in
    status-reread id os' um um' a g v e o' (ap (lookup id) none_active) same
