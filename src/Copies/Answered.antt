-- ===== src/Copies/Answered.antt =====
-- What the handlers of copies answer and do.
use dingbap.Files.Changes.{rejects, accepts}
use dingbap.Text.{Text}
use dingbap.Copies.Bounded.{visible}
use dingbap.Files.Changes.{rejects, accepts}
use dingbap.Cache.{ListingCache}
use dingbap.Paths.{FilePath}
use dingbap.Base.{[], ◌≡◌, none, some, ℕ}
use dingbap.Copies.Trees.{Tree}
use dingbap.Copies.Requests.{CopyHandled}

-- A refusal leaves nothing and keeps the listings; a success makes the visible part of the tree at the
-- source, at a place and under a name as `T` says, and leaves no listing in the cache.
abbrev pub IsCopyOf {ℓ} :
    {A : Type ℓ}
    → (FilePath → FilePath → Text → Type 0)
    → (FilePath → Tree)
    → ListingCache A
    → CopyHandled A
    → Type ℓ
IsCopyOf {A = A} T tree c h =
    ((code : ℕ) → h.reply ≡ rejects code → (h.copies ≡ none) × (h.cache ≡ c))
    × ((name : Text)
        → h.reply ≡ accepts name
        → (from : FilePath) × (to : FilePath) × T from to name
          × (h.copies ≡ some (to, visible (tree from)))
          × (h.cache.lru ≡ []))
