-- ===== src/Activity/Recent.antt =====
-- The latest entry stands first in the list of activity.
use dingbap.Text.{Text, trim_space, text_eq, codes}
use dingbap.Base.{
  ◌∷◌, [], ◌++◌, ◌≡◌, ◌≤◌, true, false, refl, arith, none, some, ◌-◌, ◌∙◌, List, ℕ, zero, suc, ap,
  length, drop, length-append, is_empty, ◌==◌, ◌||◌, if◌then◌else◌, Bool, Option, not, if_both, ◌+◌,
  subst,
}
use dingbap.Activity.{
  length, last_of, newest_first, keep_lines, decode_lines, drop, Format, Text, trim_space,
  ActivityEntry, is_empty, has_fresh, decoded, file_lines, prune_lines, has_long, Logged,
  bounded_limit, ActivityLog, is_blank, recent_of, lines_of, activity_max_lines, append_line,
  activity_default_retention, audit_log, entry_of, handle_activity_list, read_activity_recent,
  text_eq, codes, entries_are, activity_list_limit, listed_entries,
}

abbrev Ends {ℓ} : {A : Type ℓ} → A → List A → Type ℓ
Ends {A} x xs = (before : List A) × (xs ≡ before ++ (x ∷ []))

drop-snoc {ℓ} :
    {A : Type ℓ} (n : ℕ) (xs : List A) (x : A)
    → n ≤ length xs
    → drop n (xs ++ (x ∷ [])) ≡ drop n xs ++ (x ∷ [])
drop-snoc zero xs x h = refl
drop-snoc (suc n) [] x h = ground arith
drop-snoc (suc n) (y ∷ xs) x h = drop-snoc n xs x (omega arith)

last_of-Ends {ℓ} :
    {A : Type ℓ} (n : ℕ) (xs : List A) (x : A) → 1 ≤ n → Ends x xs → Ends x (last_of n xs)
last_of-Ends n xs x h (before, e) = (
  drop (length xs - n) before,
  ap (drop (length xs - n)) e
      ∙ drop-snoc (length xs - n) before x
          (omega (arith, h, ap length e, length-append before (x ∷ []))),
)

newest_first-snoc {ℓ} :
    {A : Type ℓ} (xs : List A) (x : A) → newest_first (xs ++ (x ∷ [])) ≡ x ∷ newest_first xs
newest_first-snoc [] x = refl
newest_first-snoc (y ∷ xs) x = ap (λ ys. ys ++ (y ∷ [])) (newest_first-snoc xs x)

keep_lines-snoc :
    (f : Format) (now : ℕ) (lines : List Text) (line : Text)
    → trim_space line ≡ line
    → is_empty line ≡ false
    → has_fresh f now (f.unmarshal line) ≡ true
    → keep_lines f now (lines ++ (line ∷ [])) ≡ keep_lines f now lines ++ (line ∷ [])
unfolding keep_lines
keep_lines-snoc f now [] line t n h = rw (t, n, h) refl
keep_lines-snoc f now (l ∷ lines) line t n h =
    ground (arith, keep_lines-snoc f now lines line t n h)

decoded_snoc :
    (b : Bool) (r : Option ActivityEntry) (xs : List ActivityEntry) (e : ActivityEntry)
    → (if b then xs ++ (e ∷ []) else decoded r (xs ++ (e ∷ [])))
      ≡ (if b then xs else decoded r xs) ++ (e ∷ [])
decoded_snoc true r xs e = refl
decoded_snoc false none xs e = refl
decoded_snoc false (some x) xs e = refl

decode_lines-snoc :
    (f : Format) (lines : List Text) (line : Text) (e : ActivityEntry)
    → trim_space line ≡ line
    → is_empty line ≡ false
    → f.unmarshal line ≡ some e
    → decode_lines f (lines ++ (line ∷ [])) ≡ decode_lines f lines ++ (e ∷ [])
unfolding decode_lines
decode_lines-snoc f [] line e t n h = rw (t, n, h) refl
decode_lines-snoc f (l ∷ lines) line e t n h =
    (ap (λ r. if is_empty (trim_space l) then r else decoded (f.unmarshal (trim_space l)) r)
        (decode_lines-snoc f lines line e t n h)
      ∙ decoded_snoc (is_empty (trim_space l)) (f.unmarshal (trim_space l)) (decode_lines f lines)
          e)

file_lines_snoc :
    (before : List Text) (x : Text) → file_lines (before ++ (x ∷ [])) ≡ before ++ (x ∷ [])
file_lines_snoc [] x = refl
file_lines_snoc (y ∷ before) x = refl

file_lines-Ends : (xs : List Text) (x : Text) → Ends x xs → Ends x (file_lines xs)
file_lines-Ends xs x (before, e) = (before, ap file_lines e ∙ file_lines_snoc before x)

prune_lines-Ends :
    (f : Format) (o : Logged) (before : List Text) (line : Text)
    → trim_space line ≡ line
    → is_empty line ≡ false
    → has_fresh f o.now (f.unmarshal line) ≡ true
    → Ends line (prune_lines f o (before ++ (line ∷ [])))
unfolding prune_lines
prune_lines-Ends f o before line t n h =
    if_both (Ends line) (not o.readable || is_blank (before ++ (line ∷ []))) (before, refl)
      (if_both (Ends line)
        (length (last_of activity_max_lines (keep_lines f o.now (before ++ (line ∷ []))))
            == length (before ++ (line ∷ []))
          || not o.written)
        (before, refl)
        (file_lines-Ends (last_of activity_max_lines (keep_lines f o.now (before ++ (line ∷ []))))
          line
          (last_of-Ends activity_max_lines (keep_lines f o.now (before ++ (line ∷ []))) line
            (omega arith) (keep_lines f o.now before, keep_lines-snoc f o.now before line t n h))))

recent_of-Ends :
    (f : Format) (limit : ℕ) (lines : List Text) (line : Text) (e : ActivityEntry)
    → trim_space line ≡ line
    → is_empty line ≡ false
    → f.unmarshal line ≡ some e
    → has_long lines ≡ false
    → 1 ≤ bounded_limit limit
    → Ends line lines
    → (rest : List ActivityEntry) × (recent_of f limit true (some lines) ≡ some (e ∷ rest))
recent_of-Ends f limit lines line e t n h s l (before, q) =
    let (older, r) =
      last_of-Ends (bounded_limit limit) (decode_lines f lines) e l
        (decode_lines f before, ap (decode_lines f) q ∙ decode_lines-snoc f before line e t n h) in
    (newest_first older, rw s (ap some (ap newest_first r ∙ newest_first-snoc older e)))

if_false {ℓ} : {A : Type ℓ} (b : Bool) (x y : A) → b ≡ false → (if b then x else y) ≡ y
if_false b x y e = rw e refl

append_line_lem :
    (f : Format) (o : Logged) (line : Text) (j : ActivityLog)
    → o.made_dir ≡ true
    → o.opened ≡ true
    → o.appended ≡ true
    → append_line f o (some line) j
      ≡ record j { lines = some (prune_lines f o (lines_of j.lines ++ (line ∷ []))) }
append_line_lem f o line j m n a =
    if_false (not o.made_dir || not o.opened) _ _ (ground (arith, m, n))
    ∙ ap
        (λ b. record j {
          lines = some (prune_lines f o (lines_of j.lines ++ (if b then line ∷ [] else [])));
        })
        a

has_fresh_entry :
    (f : Format) (now ts : ℕ) (line : Text) (e : ActivityEntry)
    → f.unmarshal line ≡ some e
    → f.parse_time e.ts ≡ some ts
    → now ≤ ts + activity_default_retention
    → has_fresh f now (f.unmarshal line) ≡ true
has_fresh_entry f now ts line e u p h = rw (u, p) (ground (arith, h))

-- Where the log is on and the entry is written and can be read back, the next list of the activity
-- begins with this entry: neither the pruning nor the bound on the list drops it. It holds for a log with
-- whatever lines, as long as the clock is not further than the retention behind the time in the entry, and
-- no line that is left is too long for the scanner.
pub handle_activity_list-audit_log :
    (f : Format) (o : Logged) (user action path line : Text) (j : ActivityLog) (ts : ℕ)
    → j.enabled ≡ true
    → is_empty j.file_path ≡ false
    → o.made_dir ≡ true
    → o.opened ≡ true
    → o.appended ≡ true
    → f.marshal (entry_of o user action path j) ≡ some line
    → f.unmarshal line ≡ some (entry_of o user action path j)
    → trim_space line ≡ line
    → is_empty line ≡ false
    → f.parse_time o.stamp ≡ some ts
    → o.now ≤ ts + activity_default_retention
    → has_long (lines_of (audit_log f o user action path j).lines) ≡ false
    → (rest : List ActivityEntry) × (handle_activity_list f true
          (codes "GET")
          (audit_log f o user action path j)
        ≡ entries_are j.log_ip (entry_of o user action path j ∷ rest))
unfolding audit_log entry_of handle_activity_list read_activity_recent text_eq
handle_activity_list-audit_log f o user action path line j ts en p m n a ma u t ne pt fr s =
    let e = entry_of o user action path j in
    let logged : audit_log f o user action path j
        ≡ record j { lines = some (prune_lines f o (lines_of j.lines ++ (line ∷ []))) } =
      if_false (not j.enabled || is_empty j.file_path) _ _ (ground (arith, en, p))
      ∙ ap (λ r. append_line f o r j) ma
      ∙ append_line_lem f o line j m n a in
    let (rest, r) =
      recent_of-Ends f activity_list_limit (prune_lines f o (lines_of j.lines ++ (line ∷ []))) line
        e t ne u (subst (λ k. has_long (lines_of k.lines) ≡ false) logged s) (omega arith)
        (prune_lines-Ends f o (lines_of j.lines) line t ne
          (has_fresh_entry f o.now ts line e u pt fr)) in
    (
      rest,
      ap (handle_activity_list f true (codes "GET")) logged
          ∙ if_false (not j.enabled) _ _ (ground (arith, en))
          ∙ ap (listed_entries j.log_ip) (if_false (not j.enabled) _ _ (ground (arith, en)) ∙ r),
    )
