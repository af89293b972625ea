-- ===== src/Uploads/Tracks.antt =====
-- What the sessions in memory say of the chunks on the disk, over every sequence of calls.
use dingbap.Uploads
use dingbap.Text.Laws.{text_eq_iff, text_eq_refl}
use dingbap.Table.Laws.{lookup-delete, lookup-insert}
use dingbap.Uploads.Indices.{Once, Below, collect-Once, collect-Below, member-collect}
use dingbap.Table.{lookup, Table, insert}
use dingbap.Uploads.Chunks.{expected_size}
use dingbap.Text.{Text, text_eq}
use dingbap.Base.{
  ◌∷◌, [], ◌<◌, ◌≡◌, inl, none, some, false, Bool, ℕ, refl, arith, length, is_some, ◌⊎◌, inr, ap,
  subst, Option-cases, Bool-cases, ◌+◌, Sum-cases,
}
use dingbap.Uploads.{
  UploadMeta, ActiveUpload, UploadManager, SessionDir, Text, reap_each, reap_expired,
  new_upload_manager, scan_received_disk, read_meta_disk, acquire, unexpected_size, holds, lookup,
  remove_dir, Answers, hydrate, drop_active, chunks_of, member, MetaFile, UploadError, meta_found,
  collect,
}

-- Every chunk on the disk is one of the file, and has the size of its index.
abbrev pub Fits : UploadMeta → SessionDir → Type 0
Fits m dir =
    (i : ℕ) (bytes : Text)
    → dir.chunks i ≡ some bytes
    → (i < m.total_chunks) × (expected_size m i ≡ some (length bytes))

-- The set in memory is that of the chunks on the disk.
pub record IsTracked (id : Text) (a : ActiveUpload) (dir : SessionDir) : Type 0 where
  pub same_meta : dir.meta_file ≡ holds a.meta
  pub same_id : a.meta.id ≡ id
  pub usable : a.aborted ≡ false
  pub once : Once a.received
  pub below : Below a.meta.total_chunks a.received
  pub on_disk : (i : ℕ) → i < a.meta.total_chunks → member i a.received ≡ is_some (dir.chunks i)

abbrev pub HasTracked : Table SessionDir → Text → ActiveUpload → Type 0
HasTracked disk id a = (dir : SessionDir) × (lookup id disk ≡ some dir) × IsTracked id a dir

-- Every session in memory has its directory, and every directory holds chunks that fit.
pub record IsGood (um : UploadManager) : Type 0 where
  pub fits :
      (id : Text) (dir : SessionDir) (m : UploadMeta)
      → lookup id um.disk ≡ some dir
      → dir.meta_file ≡ holds m
      → Fits m dir
  pub tracked :
      (id : Text) (a : ActiveUpload)
      → lookup id um.active ≡ some a
      → (dir : SessionDir) × (lookup id um.disk ≡ some dir) × IsTracked id a dir

pub drop-IsGood :
    (id : Text) (r : Bool) (um : UploadManager)
    → IsGood um
    → IsGood (remove_dir r id (drop_active id um))
drop-IsGood id r um g = record {
  fits = λ j dir m e k. g.fits j dir m (ground (arith, lookup-delete id j um.disk)) k;
  tracked = λ j a e.
      let before : lookup j um.active ≡ some a = ground (arith, lookup-delete id j um.active) in
      let (dir, here, t) = g.tracked j a before in
      (dir, ground (arith, lookup-delete id j um.active, lookup-delete id j um.disk), t);
}

pub remove_dir-IsGood :
    (id : Text) (r : Bool) (um : UploadManager)
    → lookup id um.active ≡ none
    → IsGood um
    → IsGood (remove_dir r id um)
remove_dir-IsGood id r um n g = record {
  fits = λ j dir m e k. g.fits j dir m (ground (arith, lookup-delete id j um.disk)) k;
  tracked = λ j a e.
      let (dir, here, t) = g.tracked j a e in
      (dir, ground (arith, text_eq_iff id j, lookup-delete id j um.disk), t);
}

reap_each-IsGood :
    (os : Answers) (entries : Table SessionDir) (um : UploadManager)
    → IsGood um
    → IsGood (reap_each os entries um)
unfolding reap_each
reap_each-IsGood os [] um g = g
reap_each-IsGood os ((id, dir) ∷ entries) um g =
    let um' = remove_dir os.removed id (drop_active id um) in
    ground (
      arith,
      reap_each-IsGood os entries um g,
      reap_each-IsGood os entries um' (drop-IsGood id os.removed um g),
    )

pub reap_expired-IsGood :
    (os : Answers) (um : UploadManager) → IsGood um → IsGood (reap_expired os um)
unfolding reap_expired
reap_expired-IsGood os um g =
    let g' : IsGood (record um { reaped = os.at }) = record {
      fits = g.fits;
      tracked = g.tracked;
    } in
    ground (arith, g, g', reap_each-IsGood os um.disk (record um { reaped = os.at }) g')

pub new_upload_manager-IsGood :
    (os : Answers) (um um' : UploadManager)
    → IsGood um
    → new_upload_manager os um ≡ some um'
    → IsGood um'
unfolding new_upload_manager lookup
new_upload_manager-IsGood os um um' g e =
    let started : UploadManager = record { active = []; disk = um.disk; reaped = 0 } in
    let none_active : (id : Text) (a : ActiveUpload)
        → lookup {V = ActiveUpload} id [] ≡ some a
        → HasTracked um.disk id a =
      λ id a k. cc in
    let g' : IsGood started = record { fits = g.fits; tracked = none_active } in
    ground (arith, reap_expired-IsGood os started g')

-- The session that a directory without one gives.
hydrated-IsTracked :
    (id : Text) (m : UploadMeta) (dir : SessionDir) (um : UploadManager)
    → lookup id um.disk ≡ some dir
    → dir.meta_file ≡ holds m
    → m.id ≡ id
    → IsTracked id
        (record { meta = m; received = scan_received_disk id m.total_chunks um; aborted = false })
        dir
unfolding scan_received_disk
hydrated-IsTracked id m dir um e k s =
    let f : ℕ → Bool = λ i. is_some (chunks_of (lookup id um.disk) i) in
    let none_before : 0 + m.total_chunks ≡ m.total_chunks = omega arith in
    record {
      same_meta = k;
      same_id = s;
      usable = refl;
      once = collect-Once m.total_chunks 0 f;
      below =
          subst (λ n. Below n (collect m.total_chunks 0 f)) none_before
            (collect-Below m.total_chunks 0 f);
      on_disk = λ i l. ground (arith, member-collect m.total_chunks 0 i f);
    }

found_cases :
    (id : Text) (now : ℕ) (content : MetaFile) (m : UploadMeta)
    → meta_found id now content ≡ inl m
    → (content ≡ holds m) × (m.id ≡ id)
found_cases id now Uploads.no_file m e = ground arith
found_cases id now Uploads.not_json m e = ground arith
found_cases id now (holds k) m e =
    let same : k ≡ m = ground arith in
    (ap holds same, ground (arith, text_eq_iff k.id id, ap (λ (x : UploadMeta). x.id) same))

pub read_cases :
    (id : Text) (now : ℕ) (um : UploadManager) (m : UploadMeta)
    → read_meta_disk id now um ≡ inl m
    → (dir : SessionDir) × (lookup id um.disk ≡ some dir) × (dir.meta_file ≡ holds m) × (m.id ≡ id)
unfolding read_meta_disk
read_cases id now um m e = elim (Option-cases (lookup id um.disk)) [
  | inl n ↦ ground (arith, n)
  | inr (dir, d) ↦
      let (k, s) = found_cases id now dir.meta_file m (ground (arith, d)) in (dir, d, k, s)
]

pub insert_active-tracked :
    (id : Text) (a : ActiveUpload) (active : Table ActiveUpload) (disk : Table SessionDir)
    → HasTracked disk id a
    → ((j : Text) (b : ActiveUpload)
        → text_eq id j ≡ false
        → lookup j active ≡ some b
        → HasTracked disk j b)
    → (j : Text) (b : ActiveUpload) → lookup j (insert id a active) ≡ some b
    → HasTracked disk j b
insert_active-tracked id a active disk t others j b k = elim (Bool-cases (text_eq id j)) [
  | inl e ↦
      let same_id : id ≡ j = (text_eq_iff id j).0 e in
      let same : a ≡ b = ground (arith, lookup-insert id j a active) in
      subst (HasTracked disk j) same (subst (λ q. HasTracked disk q a) same_id t)
  | inr e ↦ others j b e (ground (arith, lookup-insert id j a active))
]

insert_active-IsGood :
    (id : Text) (a : ActiveUpload) (um : UploadManager)
    → HasTracked um.disk id a
    → IsGood um
    → IsGood (record um { active = insert id a um.active })
insert_active-IsGood id a um t g = record {
  fits = g.fits;
  tracked = insert_active-tracked id a um.active um.disk t (λ j b e k. g.tracked j b k);
}

hydrate-IsGood :
    (id : Text) (os : Answers) (um : UploadManager) (r : UploadMeta ⊎ UploadError)
    → lookup id um.active ≡ none
    → read_meta_disk id os.at um ≡ r
    → IsGood um
    → IsGood (hydrate id os um r).0
unfolding hydrate
hydrate-IsGood id os um (inl m) n e g =
    let (dir, d, k, s) = read_cases id os.at um m e in
    insert_active-IsGood id _ um (dir, d, hydrated-IsTracked id m dir um d k s) g
hydrate-IsGood id os um (inr x) n e g = ground (arith, g, remove_dir-IsGood id os.removed um n g)

pub acquire-IsGood :
    (id : Text) (os : Answers) (um : UploadManager) → IsGood um → IsGood (acquire id os um).0
unfolding acquire
acquire-IsGood id os um g = elim (Option-cases (lookup id um.active)) [
  | inl n ↦
      let r = read_meta_disk id os.at um in ground (arith, g, n, hydrate-IsGood id os um r n refl g)
  | inr (a, e) ↦ ground (arith, g, drop-IsGood id os.removed um g)
]

-- Where `acquire` gives a session, it is in memory.
pub active-acquire :
    (id : Text) (os : Answers) (um : UploadManager) (a : ActiveUpload)
    → (acquire id os um).1 ≡ inl a
    → lookup id (acquire id os um).0.active ≡ some a
unfolding acquire hydrate
active-acquire id os um a e = elim (Sum-cases (read_meta_disk id os.at um)) [
  | inl (m, r) ↦
      let h : ActiveUpload = record {
        meta = m;
        received = scan_received_disk id m.total_chunks um;
        aborted = false;
      } in
      ground (arith, r, lookup-insert id id h um.active, text_eq_refl id)
  | inr (x, r) ↦ ground (arith, r)
]
