-- ===== src/Paths/Resolution.antt =====
-- What resolution gives where the file system holds no link.
use dingbap.Text.Laws.{text_eq_refl}
use dingbap.Base.{
  ◌≡◌, refl, All, ◌++◌, ◌⊎◌, ◌∷◌, false, sym, true, arith, none, append-nil, append_assoc, [], some,
  All-append,
}
use dingbap.Text.{Text, contains_byte, replace_byte}
use dingbap.Paths.{
  FilePath, FileSystem, rel_parts, join_parts, within_root, reject_hidden_under_root, resolve_parts,
  resolve_under_root, plain, climbs, append_part, check_parts, PathRoot, missing, ok, real_root,
  clean_rooted, checked,
}
use dingbap.Paths.Confinement.{IsClean, clean_rooted-IsClean}

-- Every entry is plain or missing.
abbrev pub LinkFree : FileSystem → Type 0
LinkFree fs = (path : FilePath) → (fs.lstat path ≡ plain) ⊎ (fs.lstat path ≡ missing)

rel_parts-append_self : (root rest : FilePath) → rel_parts root (root ++ rest) ≡ rest
unfolding rel_parts
rel_parts-append_self [] rest = refl
rel_parts-append_self (x ∷ root) rest =
    ground (arith, text_eq_refl x, rel_parts-append_self root rest)

climbs_of_IsClean : (parts : FilePath) → All IsClean parts → climbs parts ≡ false
climbs_of_IsClean [] h = refl
climbs_of_IsClean (x ∷ parts) h = h.0.1

join_parts_of_IsClean :
    (path parts : FilePath) → All IsClean parts → join_parts path parts ≡ path ++ parts
unfolding join_parts append_part
join_parts_of_IsClean path [] h = sym (append-nil path)
join_parts_of_IsClean path (part ∷ parts) h = ground (
  arith,
  append_assoc path (part ∷ []) parts,
  join_parts_of_IsClean (path ++ (part ∷ [])) parts h.1,
)

within_root-append :
    (root rest : FilePath) → All IsClean rest → within_root root (root ++ rest) ≡ true
unfolding within_root
within_root-append root rest h =
    ground (arith, rel_parts-append_self root rest, climbs_of_IsClean rest h)

reject_hidden-append :
    (root rest : FilePath)
    → All IsClean rest
    → reject_hidden_under_root root (root ++ rest) ≡ check_parts rest
unfolding reject_hidden_under_root
reject_hidden-append root rest h =
    ground (arith, rel_parts-append_self root rest, climbs_of_IsClean rest h)

walk :
    (fs : FileSystem)
    → LinkFree fs
    → (root done parts : FilePath) → All IsClean done
    → All IsClean parts
    → check_parts (done ++ parts) ≡ none
    → resolve_parts fs root (root ++ done) parts ≡ ok (root ++ (done ++ parts))
unfolding resolve_parts
walk fs free root done [] hd hp e =
    ground (arith, append-nil done, reject_hidden-append root done hd)
walk fs free root done (part ∷ parts) hd hp e =
    let next = done ++ (part ∷ []) in
    let all = done ++ (part ∷ parts) in
    let next_clean = All-append IsClean done (part ∷ []) hd (hp.0, tt) in
    let all_clean = All-append IsClean done (part ∷ parts) hd hp in
    ground (
      arith,
      free (root ++ next),
      append_assoc root done (part ∷ []),
      append_assoc done (part ∷ []) parts,
      append_assoc root done (part ∷ parts),
      join_parts_of_IsClean (root ++ done) (part ∷ parts) hp,
      within_root-append root next next_clean,
      within_root-append root all all_clean,
      reject_hidden-append root all all_clean,
      walk fs free root next parts next_clean hp.1,
    )

-- Where the file system holds no link, a request without a zero byte resolves to its cleaned path
-- under the root, whether or not that exists, unless a segment begins with a dot: then it is refused.
pub resolve_under_root_lem :
    (fs : FileSystem) (cache : PathRoot) (dir requested : Text) (root : FilePath)
    → LinkFree fs
    → contains_byte 0 requested ≡ false
    → real_root fs cache dir ≡ some root
    → let parts = clean_rooted (replace_byte b'\\' b'/' requested) in
      resolve_under_root fs cache dir requested ≡ checked (root ++ parts) (check_parts parts)
unfolding resolve_under_root
resolve_under_root_lem fs cache dir requested root free z r =
    let parts = clean_rooted (replace_byte b'\\' b'/' requested) in
    ground (
      arith,
      append-nil root,
      walk fs free root [] parts tt (clean_rooted-IsClean (replace_byte b'\\' b'/' requested)),
    )
