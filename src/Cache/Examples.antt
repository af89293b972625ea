-- ===== src/Cache/Examples.antt =====
-- A cache of two listings.
use dingbap.Cache.Laws.{OnceEach}
use dingbap.Text.{codes, text_eq, trim}
use dingbap.Base.{◌∷◌, [], ◌≤◌, ◌≡◌, none, some, List, ℕ, refl, length, find?, remove_first}
use dingbap.Cache.{new_listing_cache, get, cache_key, set, evict, drop_back, to_front}
use dingbap.Cache.Latest.{Call, gets, sets, run, latest, get-run, apply, get-set, length-run}
use dingbap.Table.{lookup, insert}

-- Names what the runs below compute with.
program : Unit {0}
unfolding run apply latest get set new_listing_cache evict drop_back to_front find? remove_first
    text_eq cache_key trim lookup insert
program = tt

abbrev history : List (Call ℕ)
history =
    sets (codes "a") 1
    ∷ sets (codes "/b/") 2
    ∷ gets (codes "a")
    ∷ sets (codes "c") 3
    ∷ sets (codes "a") 4
    ∷ []

-- The listing of `b` was used least recently, so it goes.
answers :
    ((get (codes "b") (run (new_listing_cache 2) history)).1 ≡ none)
    × ((get (codes "a/") (run (new_listing_cache 2) history)).1 ≡ some 4)
unfolding program
answers = (refl, refl)

length-run_example :
    (length (run (new_listing_cache 2) history).lru ≤ 2)
    × OnceEach (run (new_listing_cache 2) history).lru
length-run_example = length-run 2 history

get-run_example : lookup (cache_key (codes "a/")) (latest [] history) ≡ some 4
unfolding program
get-run_example = get-run 2 (codes "a/") history 4 refl

get-set_example :
    (get (codes "d") (set (codes "/d") 7 (run (new_listing_cache 2) history))).1 ≡ some 7
unfolding program
get-set_example = get-set 2 (codes "/d") (codes "d") history 7 refl
