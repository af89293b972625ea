-- ===== src/Copies/Examples.antt =====
-- Copies in a storage folder with a file `a.txt` and a folder `d`, where names `copy` are taken.
use dingbap.Cache.{ListingCache}
use dingbap.Web.{Request}
use dingbap.Files.Served.{ext}
use dingbap.Copies.{copy_name_candidate, first_free, unique_copy_name, decimal, digits, ext, Text}
use dingbap.Text.{codes, has_prefix, text_eq, Text}
use dingbap.Paths.{FilePath, FileSystem, append_part, path_eq, Storage}
use dingbap.Base.{◌∷◌, [], ◌≡◌, ◌||◌, if◌then◌else◌, none, some, refl, arith, true, false}
use dingbap.Copies.Trees.{Tree, file, dir, link, done, entry, copy_path}
use dingbap.Copies.Bounded.{visible, file_count, byte_count, readable}
use dingbap.Copies.Named.{unique_copy_name_free}
use dingbap.Text.{contains_byte}
use dingbap.Paths
use dingbap.Copies.Requests.{CopyAnswers}

-- Names what the runs below compute with.
program : Unit {0}
unfolding copy_path visible file_count byte_count readable copy_name_candidate first_free
    unique_copy_name decimal digits ext contains_byte has_prefix text_eq append_part path_eq
program = tt

abbrev tree : Tree
tree = dir (
    entry (codes ".secret") (file (codes "s")) (
      entry (codes "a.txt") (file (codes "abc"))
        (entry (codes "out") link (entry (codes "e") (dir done) done))))

copied :
    copy_path tree (record { files = 0; bytes = 0 })
    ≡ some (
      dir (entry (codes "a.txt") (file (codes "abc")) (entry (codes "e") (dir done) done)),
      record { files = 1; bytes = 3 },
    )
unfolding program
copied = refl

names :
    (copy_name_candidate (codes "a.txt") 1 ≡ codes "a copy.txt")
    × (copy_name_candidate (codes "a.txt") 12 ≡ codes "a copy 12.txt")
    × (copy_name_candidate (codes "d") 2 ≡ codes "d copy 2")
unfolding program
names = (refl, refl, refl)

abbrev root : FilePath
root = codes "data" ∷ []

-- The first two candidates are taken.
abbrev files_there : FileSystem
files_there = record {
  abs = λ dir. some root;
  eval_symlinks = λ path. none;
  lstat = λ path. Paths.plain;
  stat = λ path.
      if path_eq path (codes "data" ∷ codes "a.txt" ∷ [])
        || path_eq path (codes "data" ∷ codes "a copy.txt" ∷ [])
      then Paths.file 3
      else Paths.absent;
}

unique_copy_name_free_example :
    files_there.stat (append_part root (unique_copy_name files_there 0 root (codes "a.txt")))
    ≡ Paths.absent
unfolding program
unique_copy_name_free_example =
    unique_copy_name_free files_there 0 2 root (codes "a.txt") (omega arith) refl

abbrev storage : Storage
storage = record { fs = files_there; path_root = none; root_dir = codes "." }

abbrev get_request : Request
get_request = record {
  method = codes "GET";
  path = codes "/api/copy";
  host = [];
  tls = false;
  forwarded_proto = [];
  origin = [];
  referer = [];
  accept = [];
}

abbrev post_request : Request
post_request = record get_request { method = codes "POST" }

abbrev cache : ListingCache Text
cache = record { lru = (codes "d", codes "x") ∷ []; max = 3 }

abbrev working : CopyAnswers
working = record { did = true; partial = dir done; removed = true }
