-- ===== src/Cache/Latest.antt =====
-- The bound of the cache, and that it answers nothing but the latest listing.
use dingbap.Text.{Text, text_eq}
use dingbap.Base.{
  ◌∷◌, [], ◌+◌, ◌<◌, ◌≤◌, ◌≡◌, ◌∙◌, if◌then◌else◌, inl, inr, none, some, List, ℕ, refl, arith, ap,
  length, find?, find?_sound, Option-cases, ltb,
}
use dingbap.Cache.{
  ListingCache, cache_key, keyed, new_listing_cache, to_front, get, set, invalidate, evict,
  dir_cache_max_entries,
}
use dingbap.Cache.Laws.{
  found, OnceEach, Agrees, length-evict, evict-OnceEach, evict-Agrees, length-remove_first,
  to_front-OnceEach, found-to_front, found-evict,
}
use dingbap.Table.{Table, lookup, insert}
use dingbap.Table.Laws.{lookup-insert}
use dingbap.Text.Laws.{text_eq_iff, text_eq_refl}

-- Requests on the cache.
pub data Call {ℓ} (A : Type ℓ) : Type ℓ where
  gets : Text → Call A
  sets : Text → A → Call A
  invalidates : Call A

module _ {ℓ} {A : Type ℓ} where
  unfoldable pub apply : ListingCache A → Call A → ListingCache A
  apply c (gets rel) = (get rel c).0
  apply c (sets rel nodes) = set rel nodes c
  apply c invalidates = invalidate c

  unfoldable pub run : ListingCache A → List (Call A) → ListingCache A
  run c [] = c
  run c (d ∷ ds) = run (apply c d) ds

  -- The listings without a bound: the latest one of each key.
  unfoldable pub latest : Table A → List (Call A) → Table A
  latest m [] = m
  latest m (gets rel ∷ ds) = latest m ds
  latest m (sets rel nodes ∷ ds) = latest (insert (cache_key rel) nodes m) ds
  latest m (invalidates ∷ ds) = latest [] ds

  -- Within the bound, each key once, and in agreement with the latest listings.
  pub record IsGood (m : Table A) (c : ListingCache A) : Type ℓ where
    pub bounded : length c.lru ≤ c.max
    pub positive : 0 < c.max
    pub once : OnceEach c.lru
    pub agrees : Agrees m c.lru

  insert-Agrees :
      (m : Table A) (key : Text) (nodes : A) (xs ys : List (Text × A))
      → ((other : Text)
          → found other ys ≡ (if text_eq key other then some (key, nodes) else found other xs))
      → Agrees m xs
      → Agrees (insert key nodes m) ys
  insert-Agrees m key nodes xs ys f h other item e =
      ground (arith, lookup-insert key other nodes m, f other, h other item)

  key_of :
      (key : Text) (xs : List (Text × A)) (item : Text × A)
      → found key xs ≡ some item
      → found item.0 xs ≡ some item
  key_of key xs item e =
      let same = (text_eq_iff item.0 key).0 (find?_sound (keyed key) xs item e) in
      ap (λ k. found k xs) same ∙ e

  front-IsGood :
      (m : Table A) (item : Text × A) (c : ListingCache A)
      → found item.0 c.lru ≡ some item
      → IsGood m c
      → IsGood m (record c { lru = to_front item c.lru })
  unfolding to_front
  front-IsGood m item c e h = record {
    bounded = omega (arith, h.bounded, length-remove_first item.0 c.lru item e);
    positive = h.positive;
    once = to_front-OnceEach item c.lru h.once;
    agrees = λ other x d. ground (
      arith,
      found-to_front item other c.lru h.once,
      text_eq_iff item.0 other,
      h.agrees item.0 item e,
      h.agrees other x,
    );
  }

  get-IsGood : (m : Table A) (rel : Text) (c : ListingCache A) → IsGood m c → IsGood m (get rel c).0
  unfolding get
  get-IsGood m rel c h = elim (Option-cases (found (cache_key rel) c.lru)) [
    | inl e ↦ ground (arith, h.bounded, h.positive, h.once, h.agrees)
    | inr (item, e) ↦ rw (get, e) (front-IsGood m item c (key_of (cache_key rel) c.lru item e) h)
  ]

  replaced-IsGood :
      (m : Table A) (key : Text) (nodes : A) (c : ListingCache A) (item : Text × A)
      → found key c.lru ≡ some item
      → IsGood m c
      → IsGood (insert key nodes m) (record c { lru = to_front (key, nodes) c.lru })
  unfolding to_front
  replaced-IsGood m key nodes c item e h = record {
    bounded = omega (arith, h.bounded, length-remove_first key c.lru item e);
    positive = h.positive;
    once = to_front-OnceEach (key, nodes) c.lru h.once;
    agrees =
        insert-Agrees m key nodes c.lru (to_front (key, nodes) c.lru)
          (λ other. found-to_front (key, nodes) other c.lru h.once) h.agrees;
  }

  pushed-IsGood :
      (m : Table A) (key : Text) (nodes : A) (c : ListingCache A)
      → found key c.lru ≡ none
      → IsGood m c
      → IsGood
          (insert key nodes m)
          (record c { lru = evict (length c.lru + 1) c.max ((key, nodes) ∷ c.lru) })
  unfolding find?
  pushed-IsGood m key nodes c e h =
      let xs = (key, nodes) ∷ c.lru in
      record {
        bounded = length-evict (length c.lru + 1) c.max xs (omega arith);
        positive = h.positive;
        once = evict-OnceEach (length c.lru + 1) c.max xs (e, h.once);
        agrees =
            evict-Agrees (insert key nodes m) (length c.lru + 1) c.max xs
              (insert-Agrees m key nodes c.lru xs (λ other. refl) h.agrees);
      }

  set-IsGood :
      (m : Table A) (rel : Text) (nodes : A) (c : ListingCache A)
      → IsGood m c
      → IsGood (insert (cache_key rel) nodes m) (set rel nodes c)
  unfolding set
  set-IsGood m rel nodes c h = elim (Option-cases (found (cache_key rel) c.lru)) [
    | inl e ↦ rw (set, e) (pushed-IsGood m (cache_key rel) nodes c e h)
    | inr (item, e) ↦ rw (set, e) (replaced-IsGood m (cache_key rel) nodes c item e h)
  ]

  empty-IsGood : (c : ListingCache A) → 0 < c.max → IsGood [] (record c { lru = [] })
  unfolding find?
  empty-IsGood c h = record {
    bounded = omega arith;
    positive = h;
    once = tt;
    agrees = λ key item e. cc;
  }

  run-IsGood :
      (m : Table A) (c : ListingCache A) (ds : List (Call A))
      → IsGood m c
      → IsGood (latest m ds) (run c ds)
  unfolding run latest apply invalidate
  run-IsGood m c [] h = h
  run-IsGood m c (gets rel ∷ ds) h = run-IsGood m (get rel c).0 ds (get-IsGood m rel c h)
  run-IsGood m c (sets rel nodes ∷ ds) h =
      run-IsGood (insert (cache_key rel) nodes m) (set rel nodes c) ds (set-IsGood m rel nodes c h)
  run-IsGood m c (invalidates ∷ ds) h = run-IsGood [] (invalidate c) ds (empty-IsGood c h.positive)

  max-apply : (c : ListingCache A) (d : Call A) → (apply c d).max ≡ c.max
  unfolding apply get set invalidate
  max-apply c (gets rel) = ground arith
  max-apply c (sets rel nodes) = ground arith
  max-apply c invalidates = refl

  max-run : (c : ListingCache A) (ds : List (Call A)) → (run c ds).max ≡ c.max
  unfolding run apply get set invalidate
  max-run c [] = refl
  max-run c (d ∷ ds) = max-run (apply c d) ds ∙ max-apply c d

  get-latest :
      (m : Table A) (rel : Text) (c : ListingCache A) (nodes : A)
      → IsGood m c
      → (get rel c).1 ≡ some nodes
      → lookup (cache_key rel) m ≡ some nodes
  unfolding get
  get-latest m rel c nodes h e = elim (Option-cases (found (cache_key rel) c.lru)) [
    | inl k ↦ ground arith
    | inr (item, k) ↦ ground (arith, h.agrees (cache_key rel) item k)
  ]

  run_from_new-IsGood :
      (max : ℕ) (ds : List (Call A)) → IsGood (latest [] ds) (run (new_listing_cache max) ds)
  unfolding new_listing_cache
  run_from_new-IsGood max ds =
      run-IsGood [] (new_listing_cache max) ds (empty-IsGood (new_listing_cache max) (ground arith))

  -- From an empty cache, after every history of requests the cache holds no more listings than its
  -- bound, and each path once.
  pub length-run :
      (max : ℕ) (ds : List (Call A))
      → (length (run (new_listing_cache max) ds).lru
          ≤ (if ltb max 1 then dir_cache_max_entries else max))
        × OnceEach (run (new_listing_cache max) ds).lru
  unfolding new_listing_cache
  length-run max ds =
      let h = run_from_new-IsGood max ds in
      (ground (arith, h.bounded, max-run (new_listing_cache max) ds), h.once)

  -- From an empty cache, after every history of requests, a listing that the cache answers is the
  -- latest one that was set for the path, with no invalidation since.
  pub get-run :
      (max : ℕ) (rel : Text) (ds : List (Call A)) (nodes : A)
      → (get rel (run (new_listing_cache max) ds)).1 ≡ some nodes
      → lookup (cache_key rel) (latest [] ds) ≡ some nodes
  get-run max rel ds nodes =
      get-latest (latest [] ds) rel (run (new_listing_cache max) ds) nodes
        (run_from_new-IsGood max ds)

  -- A listing that was just set is answered, under every spelling of the path with the same key,
  -- however full the cache was.
  pub get-set :
      (max : ℕ) (rel other : Text) (ds : List (Call A)) (nodes : A)
      → cache_key rel ≡ cache_key other
      → (get other (set rel nodes (run (new_listing_cache max) ds))).1 ≡ some nodes
  unfolding get set to_front find?
  get-set max rel other ds nodes e =
      let c = run (new_listing_cache max) ds in
      let key = cache_key rel in
      ground (
        arith,
        text_eq_refl key,
        found-evict (length c.lru + 1) c.max (key, nodes) c.lru
            (run_from_new-IsGood max ds).positive,
      )
