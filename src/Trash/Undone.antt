-- ===== src/Trash/Undone.antt =====
-- A move to the trash that fails.
use dingbap.Paths.Names.{is_trash_path}
use dingbap.Paths.{Storage, safe_path}
use dingbap.Text.{Text, text_eq, trim_slashes}
use dingbap.Trash.{
  TrashStore, put_in_trash, trash_found, move_to_trash, TrashError, without, Text, Storage, Disk,
  TrashItem, found_size, stat_failed, new_item, is_trash_path,
}
use dingbap.Paths
use dingbap.Trash.{token_failed, mkdir_failed, stat_failed, invalid_path, cannot_trash}
use dingbap.Text.Laws.{text_eq_refl}
use dingbap.Base.{
  ◌≡◌, none, some, true, false, arith, length-keep-le, Option, not, ltb, keep, length, ◌||◌,
  if◌then◌else◌, Bool, ℕ, if_both, is_empty,
}

abbrev Undone : TrashStore → TrashStore × Option TrashError → Type 0
Undone s r = (e : TrashError) → r.1 ≡ some e → ltb (length s.stored) (length r.0.stored) ≡ false

same-Undone : (s : TrashStore) (o : Option TrashError) → Undone s (s, o)
same-Undone s o e k = ground arith

put_in_trash-Undone :
    (item : TrashItem) (d : Disk) (s : TrashStore)
    → d.renamed_back ≡ true
    → Undone s (put_in_trash item d s)
unfolding put_in_trash without keep
put_in_trash-Undone item d s b e k =
    let le = length-keep-le (λ (n : Text). not (text_eq n item.id)) s.stored in
    ground (arith, b, k, text_eq_refl item.id, le)

sized-Undone :
    (rel by : Text) (d : Disk) (s : TrashStore) (f : Bool × ℕ) (token : Option Text)
    → d.renamed_back ≡ true
    → Undone s (elim token [
      | none ↦ (s, some token_failed)
      | some id ↦
          if d.made_dir
          then put_in_trash (new_item id rel by d f.0 f.1) d s
          else (s, some mkdir_failed)
    ])
sized-Undone rel by d s f none b = same-Undone s (some token_failed)
sized-Undone rel by d s f (some id) b =
    if_both (Undone s) d.made_dir (put_in_trash-Undone (new_item id rel by d f.0 f.1) d s b)
      (same-Undone s (some mkdir_failed))

found-Undone :
    (rel by : Text) (d : Disk) (s : TrashStore) (size : Option (Bool × ℕ))
    → d.renamed_back ≡ true
    → Undone s (elim size [
      | none ↦ (s, some stat_failed)
      | some f ↦ elim d.token [
        | none ↦ (s, some token_failed)
        | some id ↦
            if d.made_dir
            then put_in_trash (new_item id rel by d f.0 f.1) d s
            else (s, some mkdir_failed)
      ]
    ])
found-Undone rel by d s none b = same-Undone s (some stat_failed)
found-Undone rel by d s (some f) b = sized-Undone rel by d s f d.token b

resolved-Undone :
    (rel by : Text) (d : Disk) (s : TrashStore) (r : Paths.PathResult)
    → d.renamed_back ≡ true
    → Undone s
        (elim r [ Paths.err e ↦ (s, some invalid_path) | Paths.ok src ↦ trash_found rel by d s ])
unfolding trash_found
resolved-Undone rel by d s (Paths.err e) b = same-Undone s (some invalid_path)
resolved-Undone rel by d s (Paths.ok src) b = found-Undone rel by d s (found_size d d.found) b

-- Where the rename back succeeds, a move that fails leaves no more in the trash than before.
pub move_to_trash-Undone :
    (st : Storage) (rel by : Text) (d : Disk) (s : TrashStore)
    → d.renamed_back ≡ true
    → (e : TrashError) → (move_to_trash st rel by d s).1 ≡ some e
    → ltb (length s.stored) (length (move_to_trash st rel by d s).0.stored) ≡ false
unfolding move_to_trash
move_to_trash-Undone st rel by d s b =
    let path = trim_slashes rel in
    if_both (Undone s) (is_empty path || is_trash_path path) (same-Undone s (some cannot_trash))
      (resolved-Undone path by d s (safe_path st path) b)
