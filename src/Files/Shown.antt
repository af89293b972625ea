-- ===== src/Files/Shown.antt =====
-- What the listings show.
use dingbap.Paths
use dingbap.Trash.Kept.{path_cases}
use dingbap.Cache.{ListingCache, get, set, evict, drop_back, to_front, keyed, cache_key}
use dingbap.Paths.Names.{path_join}
use dingbap.Paths.{dot, Storage, safe_path, Stat, FilePath}
use dingbap.Text.{has_prefix, Text}
use dingbap.Base.{
  ◌∷◌, [], ◌≡◌, ◌||◌, inl, inr, true, false, List, arith, not, All, Bool-cases, ◌+◌, ◌⊎◌, some,
  Bool, ℕ, zero, suc, none, Option, subst, All-remove_first, if_both, Option-cases, is_some, leb,
  find?, length, All-find?, refl, sym,
}
use dingbap.Files.Served.{
  TreeNode, list_nodes, DirEntry, resolves, Listed, list_entries, list_found, list_missed,
  list_dir_nodes, handle_tree,
}

abbrev pub IsVisible : TreeNode → Type 0
IsVisible n = has_prefix n.name dot ≡ false

abbrev pub AllVisible : ListingCache (List TreeNode) → Type 0
AllVisible c = All (λ (item : Text × List TreeNode). All IsVisible item.1) c.lru

list_nodes-IsVisible :
    (st : Storage) (rel : Text) (es : List DirEntry)
    → All (λ n. IsVisible n × (resolves (safe_path st n.path) ≡ true)) (list_nodes st rel es)
unfolding list_nodes
list_nodes-IsVisible st rel [] = tt
list_nodes-IsVisible st rel (e ∷ es) =
    let child = path_join (rel ∷ e.name ∷ []) in
    elim (Bool-cases (has_prefix e.name dot || not (resolves (safe_path st child)))) [
      | inl h ↦ rw h (list_nodes-IsVisible st rel es)
      | inr h ↦ rw h ((ground arith, ground arith), list_nodes-IsVisible st rel es)
    ]

module _ {ℓ κ} {A : Type ℓ} (P : Text × A → Type κ) where
  All-to_front :
      (item : Text × A) (xs : List (Text × A)) → P item → All P xs → All P (to_front item xs)
  unfolding to_front
  All-to_front item xs p h = (p, All-remove_first (keyed item.0) P xs h)

  All-drop_back : (xs : List (Text × A)) → All P xs → All P (drop_back xs)
  unfolding drop_back
  All-drop_back [] h = tt
  All-drop_back (x ∷ []) h = tt
  All-drop_back (x ∷ y ∷ xs) h = (h.0, All-drop_back (y ∷ xs) h.1)

  All-evict : (fuel max : ℕ) (xs : List (Text × A)) → All P xs → All P (evict fuel max xs)
  unfolding evict
  All-evict zero max xs h = h
  All-evict (suc fuel) max xs h =
      if_both (All P) (leb (length xs) max) h
        (All-evict fuel max (drop_back xs) (All-drop_back xs h))

  get-none :
      (rel : Text) (c : ListingCache A)
      → find? (keyed (cache_key rel)) c.lru ≡ none
      → get rel c ≡ (c, none)
  unfolding get
  get-none rel c e = rw (e, get) refl

  get-some :
      (rel : Text) (c : ListingCache A) (item : Text × A)
      → find? (keyed (cache_key rel)) c.lru ≡ some item
      → get rel c ≡ (record c { lru = to_front item c.lru }, some item.1)
  unfolding get
  get-some rel c item e = rw (e, get) refl

  abbrev Holds : ListingCache A × Option A → Type (ℓ ⊔ κ)
  Holds r = All P r.0.lru × ((a : A) → r.1 ≡ some a → (item : Text × A) × P item × (item.1 ≡ a))

  All-get : (rel : Text) (c : ListingCache A) → All P c.lru → Holds (get rel c)
  All-get rel c h = elim (Option-cases (find? (keyed (cache_key rel)) c.lru)) [
    | inl e ↦ subst Holds (sym (get-none rel c e)) (h, λ a k. ground arith)
    | inr (item, e) ↦
        let p = All-find? (keyed (cache_key rel)) P c.lru item h e in
        subst Holds (sym (get-some rel c item e))
          (All-to_front item c.lru p h, λ a k. (item, p, ground arith))
  ]

  All-set :
      (rel : Text) (a : A) (c : ListingCache A)
      → P (cache_key rel, a)
      → All P c.lru
      → All P (set rel a c).lru
  unfolding set
  All-set rel a c p h =
      let key = cache_key rel in
      elim (Bool-cases (is_some (find? (keyed key) c.lru))) [
        | inl e ↦ rw e (All-to_front (key, a) c.lru p h)
        | inr e ↦ rw e (All-evict (length c.lru + 1) c.max ((key, a) ∷ c.lru) (p, h))
      ]

-- An answer shows no hidden entry; read from the disk, it shows nothing that `safe_path` refuses.
abbrev pub ShowsVisible : Storage → (List TreeNode × Bool) ⊎ ℕ → Type 0
ShowsVisible st (inr code) = Unit
ShowsVisible st (inl (nodes, hit)) =
    All IsVisible nodes × (hit ≡ false → All (λ n. resolves (safe_path st n.path) ≡ true) nodes)

-- The cache stays visible, and so is the answer.
abbrev pub AllShown : Storage → Listed → Type 0
AllShown st r = AllVisible r.0 × ShowsVisible st r.1

parts_of :
    (st : Storage) (xs : List TreeNode)
    → All (λ n. IsVisible n × (resolves (safe_path st n.path) ≡ true)) xs
    → All IsVisible xs × All (λ n. resolves (safe_path st n.path) ≡ true) xs
parts_of st [] h = (tt, tt)
parts_of st (x ∷ xs) h = let (v, r) = parts_of st xs h.1 in ((h.0.0, v), (h.0.1, r))

list_entries-AllShown :
    (st : Storage) (rel : Text) (c : ListingCache (List TreeNode)) (es : Option (List DirEntry))
    → AllVisible c
    → AllShown st (list_entries st rel c es)
unfolding list_entries
list_entries-AllShown st rel c none h = (h, tt)
list_entries-AllShown st rel c (some es) h =
    let nodes = list_nodes st rel es in
    let (v, r) = parts_of st nodes (list_nodes-IsVisible st rel es) in
    (All-set (λ (item : Text × List TreeNode). All IsVisible item.1) rel nodes c v h, (v, λ k. r))

list_found-AllShown :
    (st : Storage) (rel : Text) (c : ListingCache (List TreeNode)) (es : Option (List DirEntry))
    (s : Stat)
    → AllVisible c
    → AllShown st (list_found st rel c es s)
unfolding list_found
list_found-AllShown st rel c es Paths.absent h = (h, tt)
list_found-AllShown st rel c es Paths.broken h = (h, tt)
list_found-AllShown st rel c es (Paths.file n) h = (h, tt)
list_found-AllShown st rel c es Paths.folder h = list_entries-AllShown st rel c es h

list_missed-AllShown :
    (st : Storage) (read_dir : FilePath → Option (List DirEntry)) (rel : Text)
    (c : ListingCache (List TreeNode))
    → AllVisible c
    → AllShown st (list_missed st read_dir rel c)
unfolding list_missed
list_missed-AllShown st read_dir rel c h = elim (path_cases (safe_path st rel)) [
  | inr (x, k) ↦ rw (k, list_missed) (h, tt)
  | inl (target, k) ↦
      rw (k, list_missed) (list_found-AllShown st rel c (read_dir target) (st.fs.stat target) h)
]

list_dir_nodes-AllShown :
    (st : Storage) (read_dir : FilePath → Option (List DirEntry)) (rel : Text)
    (c : ListingCache (List TreeNode))
    → AllVisible c
    → AllShown st (list_dir_nodes st read_dir rel c)
unfolding list_dir_nodes
list_dir_nodes-AllShown st read_dir rel c h =
    let (visible, shown) =
      All-get (λ (item : Text × List TreeNode). All IsVisible item.1) rel c h in
    elim (Option-cases (get rel c).1) [
      | inl e ↦ rw (e, list_dir_nodes) (list_missed-AllShown st read_dir rel (get rel c).0 visible)
      | inr (nodes, e) ↦
          let (item, v, same) = shown nodes e in
          rw (e, list_dir_nodes) (visible, (subst (All IsVisible) same v, λ k. ground arith))
    ]

-- While the cached listings hold no hidden entry, neither does the answer to a request for a folder,
-- and the cached listings still hold none. An answer that is read from the disk has only entries
-- whose path `safe_path` accepts: links that lead out of the storage are left out.
pub handle_tree-AllShown :
    (st : Storage) (read_dir : FilePath → Option (List DirEntry)) (rel : Text)
    (c : ListingCache (List TreeNode))
    → AllVisible c
    → AllShown st (handle_tree st read_dir rel c)
unfolding handle_tree
handle_tree-AllShown st read_dir rel c h = elim (Bool-cases (resolves (safe_path st rel))) [
  | inl e ↦ rw e (list_dir_nodes-AllShown st read_dir rel c h)
  | inr e ↦ rw e (h, tt)
]
