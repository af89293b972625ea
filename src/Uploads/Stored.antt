-- ===== src/Uploads/Stored.antt =====
-- A new directory, and a new chunk in one.
use dingbap.Text.Laws.{text_eq_refl, text_eq_iff}
use dingbap.Uploads.Indices.{add_index-Once, add_index-Below, member-add_index}
use dingbap.Table.Laws.{lookup-insert}
use dingbap.Uploads.Tracks.{
  IsTracked, HasTracked, IsGood, Fits, insert_active-tracked, remove_dir-IsGood,
}
use dingbap.Table.{lookup, insert}
use dingbap.Uploads.Chunks.{store_chunk, expected_size, add_index, put_chunk}
use dingbap.Text.{Text, text_eq}
use dingbap.Uploads.Start.{made_dir_of}
use dingbap.Base.{
  [], ◌<◌, ◌≡◌, ◌==◌, ◌∙◌, inl, inr, none, some, false, Bool, ℕ, refl, arith, sym, ap, subst,
  length, Option-cases, Bool-cases, ==_iff,
}
use dingbap.Uploads.{
  UploadMeta, Text, UploadManager, SessionDir, ActiveUpload, lookup, holds, remove_dir, no_file,
}

pub new_session-IsGood :
    (id : Text) (m : UploadMeta) (now : ℕ) (um : UploadManager)
    → m.id ≡ id
    → lookup id um.disk ≡ none
    → IsGood um
    → IsGood (record um {
      active = insert id (record { meta = m; received = []; aborted = false }) um.active;
      disk = insert id (made_dir_of id now (holds m) um) um.disk;
    })
unfolding made_dir_of
new_session-IsGood id m now um s n g =
    let dir = made_dir_of id now (holds m) um in
    let a : ActiveUpload = record { meta = m; received = []; aborted = false } in
    let t : IsTracked id a dir = record {
      same_meta = refl;
      same_id = s;
      usable = refl;
      once = tt;
      below = tt;
      on_disk = λ i l. ground (arith, n);
    } in
    record {
      fits = λ j d k e f i bytes c. ground (
        arith,
        n,
        lookup-insert id j dir um.disk,
        g.fits j d k (ground (arith, lookup-insert id j dir um.disk)) f i bytes c,
      );
      tracked =
          insert_active-tracked id a um.active (insert id dir um.disk)
            (dir, ground (arith, lookup-insert id id dir um.disk, text_eq_refl id), t)
            (λ j b e k.
              let (d, here, t') = g.tracked j b k in
              (d, ground (arith, lookup-insert id j dir um.disk), t'));
    }

insert_dir-Fits :
    (id : Text) (dir : SessionDir) (um : UploadManager)
    → ((m : UploadMeta) → dir.meta_file ≡ holds m → Fits m dir)
    → IsGood um
    → (j : Text) (d : SessionDir) (m : UploadMeta) → lookup j (insert id dir um.disk) ≡ some d
    → d.meta_file ≡ holds m
    → Fits m d
insert_dir-Fits id dir um h g j d m e k = elim (Bool-cases (text_eq id j)) [
  | inl s ↦
      let same : dir ≡ d = ground (arith, lookup-insert id j dir um.disk) in
      let same_file : dir.meta_file ≡ holds m = ap (λ (x : SessionDir). x.meta_file) same ∙ k in
      subst (Fits m) same (h m same_file)
  | inr s ↦ g.fits j d m (ground (arith, lookup-insert id j dir um.disk)) k
]

-- A session without a directory is not in memory.
not_active :
    (id : Text) (um : UploadManager)
    → lookup id um.disk ≡ none
    → IsGood um
    → lookup id um.active ≡ none
not_active id um n g = elim (Option-cases (lookup id um.active)) [
  | inl e ↦ e
  | inr (a, e) ↦ let (dir, d, t) = g.tracked id a e in ground (arith, n, d)
]

pub failed_session-IsGood :
    (id : Text) (now : ℕ) (r : Bool) (um : UploadManager)
    → lookup id um.disk ≡ none
    → IsGood um
    → IsGood
        (remove_dir r id (record um { disk = insert id (made_dir_of id now no_file um) um.disk }))
unfolding made_dir_of
failed_session-IsGood id now r um n g =
    let dir = made_dir_of id now no_file um in
    let made : IsGood (record um { disk = insert id dir um.disk }) = record {
      fits = insert_dir-Fits id dir um (λ m e. ground arith) g;
      tracked = λ j a e.
          let (d, here, t) = g.tracked j a e in
          (d, ground (arith, n, text_eq_iff id j, lookup-insert id j dir um.disk), t);
    } in
    remove_dir-IsGood id r (record um { disk = insert id dir um.disk }) (not_active id um n g) made

put_chunk-Fits :
    (m : UploadMeta) (i : ℕ) (bytes : Text) (dir : SessionDir)
    → i < m.total_chunks
    → expected_size m i ≡ some (length bytes)
    → Fits m dir
    → Fits m (put_chunk i bytes dir)
put_chunk-Fits m i bytes dir l e f j other c = elim (Bool-cases (j == i)) [
  | inl s ↦
      let same_index : i ≡ j = sym ((==_iff j i).0 s) in
      let same : bytes ≡ other = ground arith in
      subst (λ k. (k < m.total_chunks) × (expected_size m k ≡ some (length other))) same_index
        (l, e ∙ ap (λ (t : Text). some (length t)) same)
  | inr s ↦ f j other (ground arith)
]

put_chunk-IsTracked :
    (id : Text) (a : ActiveUpload) (i : ℕ) (bytes : Text) (dir : SessionDir)
    → i < a.meta.total_chunks
    → IsTracked id a dir
    → IsTracked id (record a { received = add_index i a.received }) (put_chunk i bytes dir)
put_chunk-IsTracked id a i bytes dir l t = record {
  same_meta = t.same_meta;
  same_id = t.same_id;
  usable = t.usable;
  once = add_index-Once i a.received t.once;
  below = add_index-Below a.meta.total_chunks i a.received l t.below;
  on_disk = λ j k. ground (arith, member-add_index j i a.received, t.on_disk j k);
}

pub store_chunk-IsGood :
    (id : Text) (a : ActiveUpload) (i : ℕ) (bytes : Text) (um : UploadManager)
    → HasTracked um.disk id a
    → i < a.meta.total_chunks
    → expected_size a.meta i ≡ some (length bytes)
    → IsGood um
    → IsGood (store_chunk id a i bytes um)
unfolding store_chunk
store_chunk-IsGood id a i bytes um (dir, d, t) l e g =
    let dir' = put_chunk i bytes dir in
    let disk = insert id dir' um.disk in
    let a' : ActiveUpload = record a { received = add_index i a.received } in
    let fit : (m : UploadMeta) → dir'.meta_file ≡ holds m → Fits m dir' = λ m k.
      let same : a.meta ≡ m = ground (arith, t.same_meta) in
      put_chunk-Fits m i bytes dir (subst (λ n. i < n.total_chunks) same l)
        (subst (λ n. expected_size n i ≡ some (length bytes)) same e) (g.fits id dir m d k) in
    let good : IsGood (record um { active = insert id a' um.active; disk = disk }) = record {
      fits = insert_dir-Fits id dir' um fit g;
      tracked =
          insert_active-tracked id a' um.active disk
            (
              dir',
              ground (arith, lookup-insert id id dir' um.disk, text_eq_refl id),
              put_chunk-IsTracked id a i bytes dir l t,
            )
            (λ j b f k.
              let (other, here, s) = g.tracked j b k in
              (other, ground (arith, lookup-insert id j dir' um.disk), s));
    } in
    ground (arith, d, good)
