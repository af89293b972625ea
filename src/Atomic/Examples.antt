-- ===== src/Atomic/Examples.antt =====
-- A write that goes well.
use dingbap.Base.{refl, [], ◌≡◌, none, some, true, All}
use dingbap.Atomic.{Directory, Answers, write_file_atomic}
use dingbap.Atomic.Laws.{saved, last_of, IsWhole, write_file_atomic_lem}
use dingbap.Text.{codes}

abbrev disk : Directory
disk = record { target = some (saved []); temp = none; replaced = none }

abbrev working : Answers
working = record {
  made_dir = true;
  opened = true;
  taken = 0;
  wrote = true;
  synced = true;
  closed = true;
  renamed = true;
  removed = true;
  dir_opened = true;
  dir_synced = true;
}

write_file_atomic_lem_example :
    All (IsWhole (codes "{}") disk) (write_file_atomic working (codes "{}") disk).0
    × ((last_of disk (write_file_atomic working (codes "{}") disk).0).target
        ≡ some (saved (codes "{}")))
    × (true ≡ true → (last_of disk (write_file_atomic working (codes "{}") disk).0).replaced ≡ none)
unfolding write_file_atomic
write_file_atomic_lem_example = write_file_atomic_lem working (codes "{}") disk refl
