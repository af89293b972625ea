-- ===== src/Trash/Restored.antt =====
-- What the trash gives back, and what the janitor takes.
use dingbap.Text.Laws.{text_eq_refl}
use dingbap.Paths.Names.{is_trash_path}
use dingbap.Text.{Text, trim_slashes}
use dingbap.Base.{
  ◌∷◌, [], ◌++◌, ◌+◌, ◌≡◌, inl, inr, none, some, true, false, Bool, List, ℕ, refl, arith, not, keep,
  find?, length, is_empty, Option-cases, sym, subst, find?-append,
}
use dingbap.Trash.{
  TrashItem, TrashStore, Disk, has_id, new_item, found_size, move_to_trash, restore, purge_expired,
  before_cutoff, trash_found, save_trash, put_in_trash, is_trash_path, put_back, forget,
}
use dingbap.Trash.Laws
use dingbap.Trash.Kept.{path_cases}
use dingbap.Paths.{Storage, safe_path}
use dingbap.Paths
use dingbap.Shares.{valid_share_token}

-- What a successful move leaves.
moved_lem :
    (st : Storage) (rel by id : Text) (d : Disk) (s : TrashStore)
    → d.token ≡ some id
    → (move_to_trash st rel by d s).1 ≡ none
    → (item : TrashItem) × (path : Paths.FilePath) × ((item.id ≡ id)
        × (item.original_path ≡ trim_slashes rel))
      × ((safe_path st (trim_slashes rel) ≡ Paths.ok path)
          × (is_trash_path (trim_slashes rel) ≡ false))
      × ((move_to_trash st rel by d s).0 ≡ record {
        items = s.items ++ (item ∷ []);
        file = s.items ++ (item ∷ []);
        stored = id ∷ s.stored;
      })
unfolding move_to_trash trash_found put_in_trash
moved_lem st rel by id d s t m = elim (path_cases (safe_path st (trim_slashes rel))) [
  | inr (x, e) ↦ ground arith
  | inl (src, e) ↦ elim (Option-cases (found_size d d.found)) [
    | inl k ↦ ground arith
    | inr (size, k) ↦ (
      new_item id (trim_slashes rel) by d size.0 size.1,
      src,
      (refl, refl),
      (e, ground arith),
      ground arith,
    )
  ]
]

-- The last item is restored.
restore_put :
    (st : Storage) (item : TrashItem) (path : Paths.FilePath) (d : Disk) (s : TrashStore)
    → valid_share_token item.id ≡ true
    → find? (has_id item.id) s.items ≡ none
    → safe_path st item.original_path ≡ Paths.ok path
    → is_trash_path item.original_path ≡ false
    → (d.found ≡ Paths.absent) × (d.made_dir ≡ true) × (d.renamed ≡ true) × (d.written ≡ true)
    → let after = restore st item.id d (record {
      items = s.items ++ (item ∷ []);
      file = s.items ++ (item ∷ []);
      stored = item.id ∷ s.stored;
    }) in
      (after.1 ≡ none) × (after.2 ≡ item.original_path) × (after.0.items ≡ s.items)
unfolding restore put_back forget save_trash find?
restore_put st item path d s v e p q o =
    let listed = find?-append (has_id item.id) s.items (item ∷ []) e in
    let left = Laws.remove_first-append s.items item e in
    let same = text_eq_refl item.id in
    (
      ground (arith, v, listed, same, p, q, o, left),
      ground (arith, v, listed, same, p, q, o, left),
      ground (arith, v, listed, same, p, q, o, left),
    )

-- A path that was moved to the trash under a fresh and valid id is given back by that id, where
-- its place is free and the disk does what it is asked: the reply names the path without its outer
-- slashes, and the trash lists what it listed before.
pub restore-move_to_trash :
    (st : Storage) (rel by id : Text) (d d' : Disk) (s : TrashStore)
    → d.token ≡ some id
    → valid_share_token id ≡ true
    → find? (has_id id) s.items ≡ none
    → (move_to_trash st rel by d s).1 ≡ none
    → (d'.found ≡ Paths.absent) × (d'.made_dir ≡ true) × (d'.renamed ≡ true) × (d'.written ≡ true)
    → let after = restore st id d' (move_to_trash st rel by d s).0 in
      (after.1 ≡ none) × (after.2 ≡ trim_slashes rel) × (after.0.items ≡ s.items)
restore-move_to_trash st rel by id d d' s t v e m o =
    let (item, path, here, there, after) = moved_lem st rel by id d s t m in
    let given =
      restore_put st item path d' s (subst (λ i. valid_share_token i ≡ true) (sym here.0) v)
        (subst (λ i. find? (has_id i) s.items ≡ none) (sym here.0) e)
        (subst (λ q. safe_path st q ≡ Paths.ok path) (sym here.1) there.0)
        (subst (λ q. is_trash_path q ≡ false) (sym here.1) there.1) o in
    ground (arith, given, here, after)

length-keep_split :
    (p : TrashItem → Bool) (xs : List TrashItem)
    → length (keep p xs) + length (keep (λ item. not (p item)) xs) ≡ length xs
unfolding keep
length-keep_split p [] = refl
length-keep_split p (x ∷ xs) = ground (arith, length-keep_split p xs)

keep_none_old :
    (p : TrashItem → Bool) (xs : List TrashItem)
    → is_empty (keep p xs) ≡ true
    → xs ≡ keep (λ item. not (p item)) xs
unfolding keep
keep_none_old p [] h = refl
keep_none_old p (x ∷ xs) h = ground (arith, keep_none_old p xs)

-- The janitor removes exactly the items that have lain in the trash for longer than the time, and says
-- how many.
pub purge_expired_lem :
    (older_than : ℕ) (d : Disk) (s : TrashStore)
    → ((purge_expired older_than d s).0.items
        ≡ keep (λ item. not (before_cutoff older_than d.at item)) s.items)
      × ((purge_expired older_than d s).1 + length (purge_expired older_than d s).0.items
          ≡ length s.items)
unfolding purge_expired save_trash
purge_expired_lem older_than d s =
    let old = before_cutoff older_than d.at in
    let split = length-keep_split old s.items in
    (ground (arith, keep_none_old old s.items), ground (arith, split, keep_none_old old s.items))
