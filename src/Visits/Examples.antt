-- ===== src/Visits/Examples.antt =====
-- A visitor without a cookie, at a shared folder with a password.
use dingbap.Text.{Text, codes, text_eq, has_prefix, trim_prefix, contains_byte}
use dingbap.Paths.{FilePath, Storage, path_eq, safe_path, rel_parts}
use dingbap.Shares.{Share, ShareStore}
use dingbap.Visits.Routes.{visit_found, Drop, Forms, broken_form, visit_link, visit_drop, with_file}
use dingbap.Paths
use dingbap.Visits.Within.{Within, visit_link-Within}
use dingbap.Visits.Dropped.{DropsInto, visit_drop-DropsInto}
use dingbap.Base.{◌∷◌, [], ◌≡◌, if◌then◌else◌, none, some, refl, true, Bool, Option}
use dingbap.Visits.{
  asks_password, Share, FilePath, Storage, ShareStore, Text, Moment, share_unlocked,
  share_needs_password, Visit, share_unlock_cookie_name, unlocks, share_unlock_value,
  subtle_constant_time_eq, serve_share_download, serve_share_content, serve_share_file,
  serve_share_zip, inside_path, under_share, send_file, show_target, reserve_and_send,
  handle_share_unlock, lists, gone,
}

-- Names what the runs below compute with.
program : Unit {0}
unfolding contains_byte path_eq visit_found safe_path rel_parts share_unlocked share_needs_password
    share_unlock_cookie_name share_unlock_value subtle_constant_time_eq text_eq visit_link
    has_prefix trim_prefix serve_share_download serve_share_content serve_share_file serve_share_zip
    inside_path under_share send_file show_target reserve_and_send handle_share_unlock
program = tt

abbrev shared : Share
shared = record {
  token = codes "t0";
  path = codes "docs";
  name = codes "docs";
  is_dir = true;
  kind = codes "link";
  created_at = 0;
  expires_at = none;
  max_downloads = 0;
  download_count = 0;
  max_uploads = 0;
  upload_count = 0;
  created_by = codes "ann";
  password_hash = codes "h";
}

abbrev root : FilePath
root = codes "data" ∷ []

abbrev storage : Storage
storage = record {
  fs = record {
    abs = λ dir. some root;
    eval_symlinks = λ path. some path;
    lstat = λ path. Paths.plain;
    stat = λ path.
        if path_eq path (codes "data" ∷ codes "docs" ∷ []) then Paths.folder else Paths.file 3;
  };
  path_root = none;
  root_dir = codes "data";
}

abbrev there : ShareStore
there = record { shares = shared ∷ []; file = shared ∷ [] }

abbrev visit : Text → Option Text → Visit
visit method value = record { method = method; path = codes "/s/t0"; cookie = λ name. value }

abbrev moment : Moment
moment = record {
  at = 1;
  later = 1;
  counted_at = 1;
  counted_later = 1;
  written = true;
  counted = true;
  dropped = true;
  listed = true;
}

abbrev digest : Text → Text
digest s = s

abbrev verify : Text → Text → Option Bool
verify hash pass = some (text_eq pass (codes "pw"))

abbrev upload_drop : Drop
upload_drop = record { nanos = 0; opened = true; copied = true; undone = true }

abbrev forms : Forms
forms = record { password = some (codes "pw"); upload = broken_form }

asked :
    (visit_found digest verify storage 10
      (visit (codes "GET") none)
      moment
      upload_drop
      forms
      shared
      []
      there).1
    ≡ asks_password
unfolding program
asked = refl

unlocked :
    (visit_found digest verify storage 10
      (visit (codes "POST") none)
      moment
      upload_drop
      forms
      shared
      (codes "unlock")
      there).1
    ≡ unlocks (codes "dingbap_su_t0") (codes "h|t0|ok")
unfolding program
unlocked = refl

-- The cookie opens the folder, and a path that climbs out of it is refused.
opened :
    ((visit_found digest verify storage 10
        (visit (codes "GET") (some (codes "h|t0|ok")))
        moment
        upload_drop
        forms
        shared
        (codes "browse")
        there).1
      ≡ lists (codes "data" ∷ codes "docs" ∷ []))
    × ((visit_found digest verify storage 10
          (visit (codes "GET") (some (codes "h|t0|ok")))
          moment
          upload_drop
          forms
          shared
          (codes "browse/../x")
          there).1
        ≡ gone)
unfolding program
opened = (refl, refl)

visit_link-Within_example :
    Within storage shared
      (visit_link storage (visit (codes "GET") none) moment shared (codes "browse") there).1
visit_link-Within_example =
    visit_link-Within storage (visit (codes "GET") none) moment shared (codes "browse") there

abbrev dropping : Share
dropping = record shared { kind = codes "drop"; password_hash = [] }

visit_drop-DropsInto_example :
    DropsInto storage 10 dropping
      (visit_drop storage 10
        (visit (codes "POST") none)
        moment
        upload_drop
        (record { password = none; upload = with_file (some (codes "a.txt", codes "abc")) })
        dropping
        (codes "upload")
        there).1
visit_drop-DropsInto_example =
    visit_drop-DropsInto storage 10 (visit (codes "POST") none) moment upload_drop
      (record { password = none; upload = with_file (some (codes "a.txt", codes "abc")) }) dropping
      (codes "upload") there
