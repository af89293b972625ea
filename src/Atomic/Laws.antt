-- ===== src/Atomic/Laws.antt =====
-- What a crash at any point of a write leaves.
use dingbap.Atomic.{sync_dir}
use dingbap.Base.{
  ◌∷◌, [], ◌≡◌, ◌⊎◌, if◌then◌else◌, some, true, List, inl, inr, false, Bool, refl, arith, All, take,
  ◌||◌, not, ◌&&◌, ◌∙◌, none, Option, if_both,
}
use dingbap.Atomic.{
  StoredFile, Directory, Answers, write_file_atomic, remove_temp, with_temp, take, rename_temp,
}
use dingbap.Text.{Text}

abbrev pub saved : Text → StoredFile
saved bytes = record { content = bytes; durable = true }

abbrev pub last_of : Directory → List Directory → Directory
last_of d [] = d
last_of d (q ∷ qs) = last_of q qs

-- What a power loss leaves of a directory: the file, or the one that it replaced without a sync.
abbrev pub Survives : Directory → Option StoredFile → Type 0
Survives q f = (f ≡ q.target) ⊎ (q.replaced ≡ some f)

-- The file, also after a power loss, is the old one or the whole new one.
abbrev pub IsWhole : Text → Directory → Directory → Type 0
IsWhole bytes d q =
    (f : Option StoredFile) → Survives q f → (f ≡ d.target) ⊎ (f ≡ some (saved bytes))

All-if :
    (P : Directory → Type 0) (b : Bool) (x y : List Directory × Bool)
    → All P x.0
    → All P y.0
    → All P (if b then x else y).0
All-if P true x y h k = h
All-if P false x y h k = k

-- Before the rename.
old-IsWhole :
    (bytes : Text) (d q : Directory) → q.target ≡ d.target → q.replaced ≡ none → IsWhole bytes d q
old-IsWhole bytes d q t r f (inl e) = inl (e ∙ t)
old-IsWhole bytes d q t r f (inr e) = ground (arith, r, e)

removed-IsWhole :
    (a : Answers) (bytes : Text) (d q : Directory)
    → q.target ≡ d.target
    → q.replaced ≡ none
    → IsWhole bytes d (remove_temp a q)
removed-IsWhole a bytes d q t r =
    if_both (IsWhole bytes d) a.removed (old-IsWhole bytes d (record q { temp = none }) t r)
      (old-IsWhole bytes d q t r)

-- After the rename, before and after the sync of the directory.
new-IsWhole :
    (bytes : Text) (d q : Directory)
    → q.target ≡ some (saved bytes)
    → (q.replaced ≡ some d.target) ⊎ (q.replaced ≡ none)
    → IsWhole bytes d q
new-IsWhole bytes d q t r f (inl e) = inr (e ∙ t)
new-IsWhole bytes d q t (inl r) f (inr e) = inl (ground (arith, e, r))
new-IsWhole bytes d q t (inr r) f (inr e) = ground (arith, r, e)

synced-IsWhole :
    (a : Answers) (bytes : Text) (d q : Directory)
    → q.target ≡ some (saved bytes)
    → q.replaced ≡ some d.target
    → IsWhole bytes d (sync_dir a q)
synced-IsWhole a bytes d q t r =
    if_both (IsWhole bytes d) (a.dir_opened && a.dir_synced)
      (new-IsWhole bytes d (record q { replaced = none }) t (inr refl))
      (new-IsWhole bytes d q t (inl r))

-- Let no rename be unsynced at the start. At whatever point the program stops or the power is lost, the
-- file is the one from before or the whole new content, which was synced before the rename. At the end
-- it is the new one if the reply is no error, and else the old one; and if then the directory could be
-- opened and synced, a power loss does not bring the old one back.
pub write_file_atomic_lem :
    (a : Answers) (bytes : Text) (d : Directory)
    → d.replaced ≡ none
    → All (IsWhole bytes d) (write_file_atomic a bytes d).0
      × ((last_of d (write_file_atomic a bytes d).0).target
          ≡ (if (write_file_atomic a bytes d).1 then some (saved bytes) else d.target))
      × ((a.dir_opened && a.dir_synced) ≡ true
          → (last_of d (write_file_atomic a bytes d).0).replaced ≡ none)
unfolding write_file_atomic
write_file_atomic_lem a bytes d r =
    let P = IsWhole bytes d in
    let empty = with_temp [] false d in
    let part = with_temp (take a.taken bytes) false d in
    let full = with_temp bytes false d in
    let safe = with_temp bytes true d in
    let begin = old-IsWhole bytes d d refl r in
    let made = old-IsWhole bytes d empty refl r in
    let filled = old-IsWhole bytes d full refl r in
    let kept = old-IsWhole bytes d safe refl r in
    let torn : All P (d ∷ empty ∷ part ∷ remove_temp a part ∷ []) = (
      begin,
      (made, (old-IsWhole bytes d part refl r, (removed-IsWhole a bytes d part refl r, tt))),
    ) in
    let loose : All P (d ∷ empty ∷ full ∷ remove_temp a full ∷ []) =
      (begin, (made, (filled, (removed-IsWhole a bytes d full refl r, tt)))) in
    let late : All P (d ∷ empty ∷ full ∷ safe ∷ remove_temp a safe ∷ []) =
      (begin, (made, (filled, (kept, (removed-IsWhole a bytes d safe refl r, tt))))) in
    let moved = rename_temp safe in
    let done : All P (d ∷ empty ∷ full ∷ safe ∷ moved ∷ sync_dir a moved ∷ []) = (
      begin,
      (
        made,
        (
          filled,
          (
            kept,
            (
              new-IsWhole bytes d moved refl (inl refl),
              (synced-IsWhole a bytes d moved refl refl, tt),
            ),
          ),
        ),
      ),
    ) in
    (
      All-if P (not a.made_dir || not a.opened) (d ∷ [], false) _ (begin, tt)
          (All-if P (not a.wrote) (d ∷ empty ∷ part ∷ remove_temp a part ∷ [], false) _ torn
            (All-if P (not a.synced) (d ∷ empty ∷ full ∷ remove_temp a full ∷ [], false) _ loose
              (All-if P (not a.closed || not a.renamed)
                (d ∷ empty ∷ full ∷ safe ∷ remove_temp a safe ∷ [], false)
                (d ∷ empty ∷ full ∷ safe ∷ moved ∷ sync_dir a moved ∷ [], true) late done))),
      ground arith,
      (λ s. ground (arith, s, r)),
    )
