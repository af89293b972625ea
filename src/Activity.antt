-- ===== src/Activity.antt =====
-- The activity log (activity.go): the line that `auditLog` appends, the pruning, and the list of the
-- latest entries. JSON and the parsing of a time are arguments.
pub mod Recent
mod Examples
use dingbap.Text.{Text, trim_space, trim_slashes, text_eq, codes, trim}
use dingbap.Base.{
  ◌∷◌, [], ◌++◌, ◌==◌, ◌||◌, ◌-◌, if◌then◌else◌, none, some, true, false, Bool, List, Option, ℕ,
  not, is_empty, drop, length, ltb, leb, ◌+◌, ◌*◌,
}

pub record ActivityEntry : Type 0 where
  pub ts : Text
  pub user : Text
  pub action : Text
  pub path : Text
  pub ip : Text

-- The settings, and the lines of `activity.jsonl`, `none` where there is no such file.
pub record ActivityLog : Type 0 where
  pub enabled : Bool
  pub log_ip : Bool
  pub file_path : Text
  pub lines : Option (List Text)

-- The format of the file: `json.Marshal`, `json.Unmarshal` and `time.Parse`, a time in nanoseconds.
pub record Format : Type 0 where
  pub marshal : ActivityEntry → Option Text
  pub unmarshal : Text → Option ActivityEntry
  pub parse_time : Text → Option ℕ

-- What the operating system answers while an entry is logged; `stamp` is the time written out.
pub record Logged : Type 0 where
  pub now : ℕ
  pub stamp : Text
  pub client_ip : Option Text
  pub made_dir : Bool
  pub opened : Bool
  pub appended : Bool
  pub readable : Bool
  pub written : Bool

abbrev pub activity_default_retention : ℕ
activity_default_retention = 14 * 24 * 3600 * 1000000000

abbrev pub activity_max_lines : ℕ
activity_max_lines = 5000

abbrev pub activity_list_limit : ℕ
activity_list_limit = 200

abbrev pub max_line : ℕ
max_line = 1024 * 1024

-- The last `n`, or all where there are fewer.
abbrev pub last_of {ℓ} : {A : Type ℓ} → ℕ → List A → List A
last_of n xs = drop (length xs - n) xs

abbrev pub is_fresh : ℕ → Option ℕ → Bool
is_fresh now none = false
is_fresh now (some ts) = not (ltb (ts + activity_default_retention) now)

abbrev pub has_fresh : Format → ℕ → Option ActivityEntry → Bool
has_fresh f now none = false
has_fresh f now (some e) = is_fresh now (f.parse_time e.ts)

-- The loop of `pruneActivityLocked`.
unfoldable pub keep_lines : Format → ℕ → List Text → List Text
unfolding trim
keep_lines f now [] = []
keep_lines f now (l ∷ lines) =
    let rest = keep_lines f now lines in
    let line = trim_space l in
    if is_empty line then rest else if has_fresh f now (f.unmarshal line) then line ∷ rest else rest

abbrev pub is_blank : List Text → Bool
is_blank ([] ∷ []) = true
is_blank lines = is_empty lines

-- The lines of a file that is written from a list of lines.
abbrev pub file_lines : List Text → List Text
file_lines [] = [] ∷ []
file_lines (l ∷ lines) = l ∷ lines

unfoldable pub prune_lines : Format → Logged → List Text → List Text
unfolding keep_lines
prune_lines f o lines =
    let kept = last_of activity_max_lines (keep_lines f o.now lines) in
    if not o.readable || is_blank lines
    then lines
    else if length kept == length lines || not o.written
    then lines
    else file_lines kept

abbrev pub lines_of : Option (List Text) → List Text
lines_of none = []
lines_of (some lines) = lines

abbrev pub logged_ip : Bool → Option Text → Text
logged_ip log_ip none = []
logged_ip log_ip (some ip) = if log_ip then ip else []

unfoldable pub entry_of : Logged → Text → Text → Text → ActivityLog → ActivityEntry
unfolding trim
entry_of o user action path j = record {
  ts = o.stamp;
  user = user;
  action = action;
  path = trim_slashes path;
  ip = logged_ip j.log_ip o.client_ip;
}

abbrev pub append_line : Format → Logged → Option Text → ActivityLog → ActivityLog
append_line f o none j = j
append_line f o (some line) j = if not o.made_dir || not o.opened then j else record j {
  lines = some (prune_lines f o (lines_of j.lines ++ (if o.appended then line ∷ [] else [])));
}

unfoldable pub audit_log : Format → Logged → Text → Text → Text → ActivityLog → ActivityLog
unfolding prune_lines entry_of
audit_log f o user action path j =
    if not j.enabled || is_empty j.file_path
    then j
    else append_line f o (f.marshal (entry_of o user action path j)) j

abbrev pub decoded : Option ActivityEntry → List ActivityEntry → List ActivityEntry
decoded none rest = rest
decoded (some e) rest = e ∷ rest

-- The loop of `readActivityRecent`.
unfoldable pub decode_lines : Format → List Text → List ActivityEntry
unfolding trim
decode_lines f [] = []
decode_lines f (l ∷ lines) =
    let rest = decode_lines f lines in
    let line = trim_space l in if is_empty line then rest else decoded (f.unmarshal line) rest

-- A line that the scanner does not take.
abbrev pub has_long : List Text → Bool
has_long [] = false
has_long (l ∷ lines) = leb max_line (length l) || has_long lines

-- The loop that swaps from both ends.
abbrev pub newest_first {ℓ} : {A : Type ℓ} → List A → List A
newest_first [] = []
newest_first (x ∷ xs) = newest_first xs ++ (x ∷ [])

abbrev pub bounded_limit : ℕ → ℕ
bounded_limit limit =
    if limit == 0 || ltb activity_list_limit limit then activity_list_limit else limit

abbrev pub recent_of : Format → ℕ → Bool → Option (List Text) → Option (List ActivityEntry)
recent_of f limit readable none = some []
recent_of f limit readable (some lines) =
    if not readable || has_long lines
    then none
    else some (newest_first (last_of (bounded_limit limit) (decode_lines f lines)))

-- `none` is an error.
unfoldable pub read_activity_recent : Format → ℕ → Bool → ActivityLog → Option (List ActivityEntry)
unfolding decode_lines
read_activity_recent f limit readable j =
    if not j.enabled then some [] else recent_of f limit readable j.lines

pub data ActivityReply : Type 0 where
  get_required log_off cannot_read : ActivityReply
  entries_are : Bool → List ActivityEntry → ActivityReply

abbrev pub listed_entries : Bool → Option (List ActivityEntry) → ActivityReply
listed_entries log_ip none = cannot_read
listed_entries log_ip (some entries) = entries_are log_ip entries

unfoldable pub handle_activity_list : Format → Bool → Text → ActivityLog → ActivityReply
unfolding read_activity_recent text_eq
handle_activity_list f readable method j =
    if not (text_eq method (codes "GET"))
    then get_required
    else if not j.enabled
    then log_off
    else listed_entries j.log_ip (read_activity_recent f activity_list_limit readable j)
