-- ===== src/Copies/Bounded.antt =====
-- A copy is the tree without its hidden entries and links, if that is within the bounds.
use dingbap.Base.{
  ◌+◌, ◌≤◌, ◌≡◌, ◌&&◌, ◌∙◌, if◌then◌else◌, inl, inr, none, some, true, false, Bool, ℕ, arith, ap,
  length, leb, Bool-cases,
}
use dingbap.Copies.Trees.{
  Tree, Entries, Copied, file, dir, link, unreadable, done, entry, left_out, copy_path, copy_dir,
  copy_file, copy_max_files, copy_max_bytes,
}

-- What a copy should have, and how much that is.
unfoldable mutual
  pub visible : Tree → Tree
  visible (file content) = file content
  visible (dir es) = dir (visible_entries es)
  visible link = link
  visible unreadable = unreadable

  pub visible_entries : Entries → Entries
  visible_entries done = done
  visible_entries (entry name t es) =
      if left_out name t then visible_entries es else entry name (visible t) (visible_entries es)

unfoldable mutual
  pub file_count : Tree → ℕ
  file_count (file content) = 1
  file_count (dir es) = entries_count es
  file_count link = 0
  file_count unreadable = 0

  pub entries_count : Entries → ℕ
  entries_count done = 0
  entries_count (entry name t es) =
      if left_out name t then entries_count es else file_count t + entries_count es

unfoldable mutual
  pub byte_count : Tree → ℕ
  byte_count (file content) = length content
  byte_count (dir es) = entries_bytes es
  byte_count link = 0
  byte_count unreadable = 0

  pub entries_bytes : Entries → ℕ
  entries_bytes done = 0
  entries_bytes (entry name t es) =
      if left_out name t then entries_bytes es else byte_count t + entries_bytes es

unfoldable mutual
  pub readable : Tree → Bool
  readable (file content) = true
  readable (dir es) = entries_readable es
  readable link = false
  readable unreadable = false

  pub entries_readable : Entries → Bool
  entries_readable done = true
  entries_readable (entry name t es) =
      if left_out name t then entries_readable es else readable t && entries_readable es

-- Within the bounds, with what is copied already.
unfoldable pub within : Bool → ℕ → ℕ → Copied → Bool
within can_read files bytes c =
    can_read && (leb (c.files + files) copy_max_files && leb (c.bytes + bytes) copy_max_bytes)

abbrev pub more : ℕ → ℕ → Copied → Copied
more files bytes c = record { files = c.files + files; bytes = c.bytes + bytes }

same_copied : (c : Copied) → more 0 0 c ≡ c
same_copied c =
    let f : c.files + 0 ≡ c.files = omega arith in
    let b : c.bytes + 0 ≡ c.bytes = omega arith in
    ap (λ n. record c { files = n; bytes = c.bytes + 0 }) f ∙ ap (λ n. record c { bytes = n }) b

more-more : (f b f' b' : ℕ) (c : Copied) → more f' b' (more f b c) ≡ more (f + f') (b + b') c
more-more f b f' b' c =
    let e : c.files + f + f' ≡ c.files + (f + f') = omega arith in
    let k : c.bytes + b + b' ≡ c.bytes + (b + b') = omega arith in
    ap (λ n. record c { files = n; bytes = c.bytes + b + b' }) e
    ∙ ap (λ n. record c { files = c.files + (f + f'); bytes = n }) k

mutual
  unfolding copy_path visible file_count byte_count readable within copy_file

  copy_path-within :
      (t : Tree) (c : Copied)
      → c.files ≤ copy_max_files
      → c.bytes ≤ copy_max_bytes
      → copy_path t c ≡ (
          if within (readable t) (file_count t) (byte_count t) c
          then some (visible t, more (file_count t) (byte_count t) c)
          else none)
  copy_path-within (file content) c f b = ground arith
  copy_path-within (dir es) c f b = ground (arith, copy_dir-within es c f b)
  copy_path-within link c f b = ground arith
  copy_path-within unreadable c f b = ground arith

  copy_dir-within :
      (es : Entries) (c : Copied)
      → c.files ≤ copy_max_files
      → c.bytes ≤ copy_max_bytes
      → copy_dir es c ≡ (
          if within (entries_readable es) (entries_count es) (entries_bytes es) c
          then some (visible_entries es, more (entries_count es) (entries_bytes es) c)
          else none)
  copy_dir-within done c f b = ground (arith, same_copied c)
  copy_dir-within (entry name t es) c f b =
      let first = copy_path-within t c f b in
      let c' = more (file_count t) (byte_count t) c in
      elim (Bool-cases (left_out name t)) [
        | inl l ↦ ground (arith, l, copy_dir-within es c f b)
        | inr l ↦ elim (Bool-cases (within (readable t) (file_count t) (byte_count t) c)) [
          | inr w ↦ ground (arith, l, w, first)
          | inl w ↦
              let rest = copy_dir-within es c' (ground arith) (ground arith) in
              ground (
                arith,
                l,
                w,
                first,
                rest,
                more-more (file_count t) (byte_count t) (entries_count es) (entries_bytes es) c,
              )
        ]
      ]
