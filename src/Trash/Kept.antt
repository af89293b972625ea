-- ===== src/Trash/Kept.antt =====
-- What the trash keeps, and what it gives back.
use dingbap.Text.Laws.{text_eq_refl}
use dingbap.Text.{Text, trim_slashes}
use dingbap.Base.{
  ◌∷◌, [], ◌≡◌, none, some, List, Option, ℕ, arith, not, find?, true, All-append, inl, inr, subst,
  Option-cases, ◌⊎◌, refl,
}
use dingbap.Trash.{
  TrashItem, TrashStore, Disk, has_id, new_item, move_to_trash, trash_found, put_in_trash, forget,
  put_back, restore, purge, empty, purge_expired, save_trash, without, before_cutoff, remove_all,
  found_size,
}
use dingbap.Trash.Laws
use dingbap.Paths.{Storage, safe_path, Stat}
use dingbap.Paths

-- The items have different ids, and what each one stands for lies in `.trash/items`.
pub record IsSound (s : TrashStore) : Type 0 where
  pub distinct : Laws.DistinctIds s.items
  pub stored : Laws.AllStored s.stored s.items

pub data Call : Type 0 where
  moves : Storage → Text → Text → Disk → Call
  restores : Storage → Text → Disk → Call
  purges : Text → Disk → Call
  empties : Disk → Call
  expires : ℕ → Disk → Call

unfoldable pub apply : TrashStore → Call → TrashStore
unfolding move_to_trash restore purge empty purge_expired
apply s (moves st rel by d) = (move_to_trash st rel by d s).0
apply s (restores st id d) = (restore st id d s).0
apply s (purges id d) = (purge id d s).0
apply s (empties d) = (empty d s).0
apply s (expires older_than d) = (purge_expired older_than d s).0

unfoldable pub run : TrashStore → List Call → TrashStore
run s [] = s
run s (c ∷ cs) = run (apply s c) cs

-- A name drawn for a new item is no item's id.
abbrev pub IsFresh : Option Text → TrashStore → Type 0
IsFresh none s = Unit
IsFresh (some id) s = find? (has_id id) s.items ≡ none

abbrev pub IsFreshCall : TrashStore → Call → Type 0
IsFreshCall s (moves st rel by d) = IsFresh d.token s
IsFreshCall s c = Unit

unfoldable pub AreFresh : TrashStore → List Call → Type 0
AreFresh s [] = Unit
AreFresh s (c ∷ cs) = IsFreshCall s c × AreFresh (apply s c) cs

put_in_trash-IsSound :
    (item : TrashItem) (d : Disk) (s : TrashStore)
    → find? (has_id item.id) s.items ≡ none
    → IsSound s
    → IsSound (put_in_trash item d s).0
unfolding put_in_trash find?
put_in_trash-IsSound item d s e h =
    let names = item.id ∷ s.stored in
    let more = Laws.AllStored-cons item.id s.stored s.items h.stored in
    let here : Laws.is_stored item.id names ≡ true = ground (arith, text_eq_refl item.id) in
    let both =
      All-append (λ i. Laws.is_stored i.id names ≡ true) s.items (item ∷ []) more (here, tt) in
    ground (
      arith,
      h.distinct,
      h.stored,
      more,
      both,
      Laws.append-DistinctIds s.items item e h.distinct,
      Laws.others-AllStored item.id names (without item.id names) s.items
          (Laws.without-Spares item.id names) e more,
    )

trash_found-IsSound :
    (rel by : Text) (d : Disk) (s : TrashStore)
    → IsFresh d.token s
    → IsSound s
    → IsSound (trash_found rel by d s).0
unfolding trash_found
trash_found-IsSound rel by d s f h = elim (Option-cases (found_size d d.found)) [
  | inl e ↦ ground (arith, h)
  | inr (size, e) ↦ elim (Option-cases d.token) [
    | inl k ↦ ground (arith, h)
    | inr (id, k) ↦
        let fresh = subst (λ t. IsFresh t s) k f in
        ground (arith, h, put_in_trash-IsSound (new_item id rel by d size.0 size.1) d s fresh h)
  ]
]

pub path_cases :
    (r : Paths.PathResult)
    → ((path : Paths.FilePath) × (r ≡ Paths.ok path)) ⊎ ((e : Paths.PathError) × (r ≡ Paths.err e))
path_cases (Paths.ok path) = inl (path, refl)
path_cases (Paths.err e) = inr (e, refl)

move_to_trash-IsSound :
    (st : Storage) (rel by : Text) (d : Disk) (s : TrashStore)
    → IsFresh d.token s
    → IsSound s
    → IsSound (move_to_trash st rel by d s).0
unfolding move_to_trash
move_to_trash-IsSound st rel by d s f h = elim (path_cases (safe_path st (trim_slashes rel))) [
  | inl (src, e) ↦ ground (arith, h, trash_found-IsSound (trim_slashes rel) by d s f h)
  | inr (x, e) ↦ ground (arith, h)
]

forget-IsSound :
    (id : Text) (d : Disk) (s : TrashStore) (names : List Text)
    → Laws.Spares id s.stored names
    → IsSound s
    → IsSound (forget id d (record s { stored = names })).0
unfolding forget save_trash
forget-IsSound id d s names k h =
    let items = Laws.remove_first-DistinctIds id s.items h.distinct in
    let stored = Laws.remove_first-AllStored id s.stored names s.items k h.distinct h.stored in
    ground (arith, items, stored)

put_back-IsSound : (id : Text) (d : Disk) (s : TrashStore) → IsSound s → IsSound (put_back id d s).0
unfolding put_back
put_back-IsSound id d s h =
    ground
      (arith, h, forget-IsSound id d s (without id s.stored) (Laws.without-Spares id s.stored) h)

restore-IsSound :
    (st : Storage) (id : Text) (d : Disk) (s : TrashStore)
    → IsSound s
    → IsSound (restore st id d s).0
unfolding restore
restore-IsSound st id d s h =
    ground (arith, h, forget-IsSound id d s s.stored (λ j e k. k) h, put_back-IsSound id d s h)

purge-IsSound : (id : Text) (d : Disk) (s : TrashStore) → IsSound s → IsSound (purge id d s).0
unfolding purge
purge-IsSound id d s h =
    let names = remove_all id d s.stored in
    let spares = Laws.remove_all-Spares id d s.stored in
    ground (
      arith,
      h,
      forget-IsSound id d s names spares h,
      Laws.others-AllStored id s.stored names s.items spares,
    )

purge_expired-IsSound :
    (older_than : ℕ) (d : Disk) (s : TrashStore)
    → IsSound s
    → IsSound (purge_expired older_than d s).0
unfolding purge_expired save_trash
purge_expired-IsSound older_than d s h =
    let old = before_cutoff older_than d.at in
    ground (
      arith,
      h,
      Laws.keep-DistinctIds (λ item. not (old item)) s.items h.distinct,
      Laws.swept-AllStored old d s.stored s.items h.distinct h.stored,
    )

empty-IsSound : (d : Disk) (s : TrashStore) → IsSound s → IsSound (empty d s).0
unfolding empty save_trash
empty-IsSound d s h = ground arith

apply-IsSound : (s : TrashStore) (c : Call) → IsFreshCall s c → IsSound s → IsSound (apply s c)
unfolding apply
apply-IsSound s (moves st rel by d) f h = move_to_trash-IsSound st rel by d s f h
apply-IsSound s (restores st id d) f h = restore-IsSound st id d s h
apply-IsSound s (purges id d) f h = purge-IsSound id d s h
apply-IsSound s (empties d) f h = empty-IsSound d s h
apply-IsSound s (expires older_than d) f h = purge_expired-IsSound older_than d s h

-- Whatever calls are made on the trash, and whatever fails in them on the disk, every item that it
-- lists lies in `.trash/items` under its id, and no two items share one, provided that the trash
-- starts so and the name drawn for each new item is no other item's.
pub run-IsSound : (s : TrashStore) (cs : List Call) → AreFresh s cs → IsSound s → IsSound (run s cs)
unfolding run AreFresh
run-IsSound s [] f h = h
run-IsSound s (c ∷ cs) f h = run-IsSound (apply s c) cs f.1 (apply-IsSound s c f.0 h)
