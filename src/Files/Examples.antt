-- ===== src/Files/Examples.antt =====
-- Requests on a storage folder with a folder `albums` and a file `a.txt`, without links.
use dingbap.Shares.{rewrite_path_prefix}
use dingbap.Files.Bulk.{handle_bulk_move}
use dingbap.Files.Plans.{renamed}
use dingbap.Paths.Confinement.{IsClean, IsInside}
use dingbap.Files.{
  plan_rename, path_eq, append_part, drop_last, plan_mkdir, rename_from, plan_move, plan_into,
  plan_delete, plan_upload, if_free, if_there, path_base, rel_parts, safe_path,
}
use dingbap.Web.{Request}
use dingbap.Files.Confined.{IsRooted, IsConfined}
use dingbap.Files.Changes.{
  handle_mkdir, System, Files, handle_rename, renames, rejects, handle_move, handle_delete,
  handle_upload, make_folder, rename_to, trash_it, write_upload, changed,
}
use dingbap.Paths.{
  FilePath, FileSystem, Storage, file, path_eq, append_part, drop_last, rel_parts, safe_path,
}
use dingbap.Base.{
  ◌∷◌, [], ◌≡◌, ◌||◌, if◌then◌else◌, inl, none, some, true, false, List, Option, refl, arith, subst,
  All, find?, keep,
}
use dingbap.Files.Requests.{Confirmed, handle-IsConfined, Change, handle, moves_one}
use dingbap.Files.Refused.{handle-LeavesClean, LeavesClean}
use dingbap.Files.Inline.{served-NeverInline, NeverInline}
use dingbap.Files.Shown.{handle_tree-AllShown, AllShown}
use dingbap.Files.Moved.{handle_bulk_move-IsMoved, IsMoved}
use dingbap.Files.RenamedRoot.{plan_rename-root}
use dingbap.Files.Served.{
  handle_download, handle_preview, handle_tree, TreeNode, DirEntry, serve_stored_file,
  stored_headers, preview_of, preview_content_type, content_type_of, is_dangerous_inline_ext, ext,
  list_dir_nodes, list_missed, list_found, list_entries, list_nodes,
}
use dingbap.Text.{has_prefix, contains_byte, trim, split, join, text_eq, trim_prefix, lower, codes}
use dingbap.Paths.Names.{
  sanitize_name, base, path_join, is_trash_path, path_dir, unique_non_empty_paths,
}
use dingbap.Paths

-- Names what the runs below compute with.
program : Unit {0}
unfolding handle handle_mkdir handle_rename handle_move handle_delete handle_upload plan_mkdir
    plan_rename rename_from plan_move plan_into plan_delete plan_upload make_folder rename_to
    trash_it write_upload changed if_free if_there path_base rel_parts path_eq append_part
    rewrite_path_prefix handle_download handle_preview serve_stored_file stored_headers preview_of
    preview_content_type content_type_of is_dangerous_inline_ext ext trim_prefix lower handle_tree
    list_dir_nodes list_missed list_found list_entries list_nodes unique_non_empty_paths
    sanitize_name path_join path_dir trim split join find? keep text_eq has_prefix contains_byte
    is_trash_path safe_path base
program = tt

abbrev root : FilePath
root = codes "data" ∷ []

abbrev albums : FilePath
albums = codes "data" ∷ codes "albums" ∷ []

abbrev a_txt : FilePath
a_txt = codes "data" ∷ codes "a.txt" ∷ []

abbrev files_there : FileSystem
files_there = record {
  abs = λ dir. some root;
  eval_symlinks = λ path. if path_eq path root then some root else none;
  lstat = λ path. Paths.plain;
  stat = λ path.
      if path_eq path root || path_eq path albums
      then Paths.folder
      else if path_eq path a_txt
      then Paths.file 12
      else Paths.absent;
}

abbrev storage : Storage
storage = record { fs = files_there; path_root = none; root_dir = codes "." }

storage-IsRooted : IsRooted root storage
unfolding program
storage-IsRooted = record {
  clean_links = λ path target e.
      let same : root ≡ target = ground arith in subst (All IsClean) same ((refl, refl), tt);
  clean = ((refl, refl), tt);
  resolved = refl;
  a_folder = refl;
}

abbrev system : System
system = record {
  did = true;
  exists = false;
  copied = true;
  taken = 0;
  removed = true;
  shares_written = true;
  disk = record {
    at = 5;
    token = none;
    found = Paths.folder;
    tree_size = 0;
    made_dir = true;
    renamed = true;
    renamed_back = true;
    written = true;
    removes = λ n. true;
  };
}

abbrev files : Files (List TreeNode)
files = record {
  shares = record { shares = []; file = [] };
  trash = record { items = []; file = []; stored = [] };
  cache = record { lru = []; max = 3 };
}

abbrev post : Request
post = record {
  method = codes "POST";
  path = codes "/api/move";
  host = [];
  tls = false;
  forwarded_proto = [];
  origin = [];
  referer = [];
  accept = [];
}

abbrev move : Change
move = moves_one (some (codes "a.txt", codes "/albums/"))

moved_file :
    (handle storage 100 system post (codes "ada") move files).acts
    ≡ renames a_txt (codes "data" ∷ codes "albums" ∷ codes "a.txt" ∷ []) ∷ []
unfolding program
moved_file = refl

into_itself :
    (handle storage 100 system post
      (codes "ada")
      (moves_one (some (codes "albums", codes "albums")))
      files).reply
    ≡ rejects 400
unfolding program
into_itself = refl

handle-IsConfined_example :
    All (IsConfined root storage) (handle storage 100 system post (codes "ada") move files).acts
    × Confirmed move (handle storage 100 system post (codes "ada") move files).acts
handle-IsConfined_example =
    handle-IsConfined root storage storage-IsRooted 100 system post (codes "ada") move files tt

handle-LeavesClean_example :
    LeavesClean files (handle storage 100 system post (codes "ada") move files)
handle-LeavesClean_example =
    handle-LeavesClean storage 100 system post (codes "ada") move files refl refl

served-NeverInline_example :
    NeverInline (handle_preview storage (codes "/preview/a.SVG"))
    × NeverInline (handle_download storage (codes "/preview/a.SVG"))
served-NeverInline_example = served-NeverInline storage (codes "/preview/a.SVG")

abbrev in_root : FilePath → Option (List DirEntry)
in_root path = some (
    record { name = codes ".trash"; is_dir = true; size = none }
    ∷ record { name = codes "a.txt"; is_dir = false; size = some 12 }
    ∷ [])

handle_tree-AllShown_example :
    AllShown storage (handle_tree storage in_root (codes "/") files.cache)
handle_tree-AllShown_example = handle_tree-AllShown storage in_root (codes "/") files.cache tt

listed :
    (handle_tree storage in_root (codes "/") files.cache).1
    ≡ inl (
      record { name = codes "a.txt"; path = codes "a.txt"; is_dir = false; size = 12 } ∷ [],
      false,
    )
unfolding program
listed = refl

handle_bulk_move-IsMoved_example :
    All
      (IsMoved root (λ path. (storage, system)))
      (handle_bulk_move storage
        (λ path. (storage, system))
        post
        (some (codes "a.txt" ∷ codes "albums" ∷ [], codes "albums"))
        files).acts
handle_bulk_move-IsMoved_example =
    handle_bulk_move-IsMoved root (λ path. (storage, system)) (λ path. storage-IsRooted) storage
      post (some (codes "a.txt" ∷ codes "albums" ∷ [], codes "albums")) files storage-IsRooted

plan_rename-root_example :
    (plan_rename storage [] (codes "x")
      ≡ inl (
          renamed root
            (sanitize_name (codes "x"))
            (path_join ([] ∷ sanitize_name (codes "x") ∷ []))))
    × ¬ IsInside root (append_part (drop_last root) (sanitize_name (codes "x")))
unfolding program
plan_rename-root_example =
    plan_rename-root storage root (codes "data" ∷ codes "x" ∷ []) [] (codes "x") refl refl refl refl
      refl refl
