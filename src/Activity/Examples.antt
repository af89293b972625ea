-- ===== src/Activity/Examples.antt =====
-- An entry is logged after an old one, which is pruned.
use dingbap.Text.{text_eq, codes, trim}
use dingbap.Activity.Recent.{handle_activity_list-audit_log}
use dingbap.Base.{◌∷◌, [], ◌≡◌, some, none, refl, true, false, arith, if◌then◌else◌, List}
use dingbap.Activity.{
  entries_are, audit_log, Format, Logged, ActivityLog, ActivityEntry, entry_of, text_eq, codes,
  handle_activity_list, prune_lines, keep_lines, decode_lines, read_activity_recent, trim,
}

-- Names what the runs below compute with.
program : Unit {0}
unfolding audit_log entry_of prune_lines keep_lines decode_lines handle_activity_list
    read_activity_recent text_eq trim
program = tt

-- A line is the action; the old one has no time that can be parsed.
abbrev format : Format
format = record {
  marshal = λ e. some e.action;
  unmarshal = λ line. some (record {
    ts = if text_eq line (codes "old") then codes "old" else codes "now";
    user = codes "ann";
    action = line;
    path = codes "a";
    ip = [];
  });
  parse_time = λ stamp. if text_eq stamp (codes "now") then some 7 else none;
}

abbrev answers : Logged
answers = record {
  now = 9;
  stamp = codes "now";
  client_ip = some (codes "::1");
  made_dir = true;
  opened = true;
  appended = true;
  readable = true;
  written = true;
}

abbrev journal : ActivityLog
journal = record {
  enabled = true;
  log_ip = false;
  file_path = codes "activity.jsonl";
  lines = some (codes "old" ∷ codes "first" ∷ []);
}

logged :
    (audit_log format answers (codes "ann") (codes "last") (codes "/a/") journal).lines
    ≡ some (codes "first" ∷ codes "last" ∷ [])
unfolding program
logged = refl

handle_activity_list-audit_log_example :
    (rest : List ActivityEntry) × (handle_activity_list format true
        (codes "GET")
        (audit_log format answers (codes "ann") (codes "last") (codes "/a/") journal)
      ≡ entries_are false
          (entry_of answers (codes "ann") (codes "last") (codes "/a/") journal ∷ rest))
unfolding program
handle_activity_list-audit_log_example =
    handle_activity_list-audit_log format answers (codes "ann") (codes "last") (codes "/a/")
      (codes "last") journal 7 refl refl refl refl refl refl refl refl refl refl (omega arith) refl
