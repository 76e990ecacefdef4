-- ===== src/Filesys/Tests.antt =====
-- The file system theorems on a small disk without open inodes.
use dunkos.Common.{◌+◌, ◌-◌, ◌^◌, ◌≡◌, refl, false, some}
use dunkos.Block.{empty_ide}
use dunkos.Filesys.Inode.{InodeDisk, Sectors, inode_disk_at_third_level, inode_disk_foreach}
use dunkos.Filesys.State.{Fs}
use dunkos.Filesys.Files.{File}
use dunkos.Filesys.Dirs.{Frame, create_file}
use dunkos.Filesys.Visit.{plainly, visited, visit_all, foreach-visits}
use dunkos.Filesys.Create.{succeeded, create_file-fails}

abbrev blank_tables : Sectors
blank_tables = record {
  extents = λ sector i. record { start = sector; sectors = i };
  indices = λ sector i. sector + i;
}

-- An inode with two extents in its header.
abbrev small_inode : InodeDisk
small_inode = record {
  info = 0;
  length = 0;
  parent = 0;
  next_extent = 2;
  next_first_level = 0;
  next_second_level = 0;
  first_level_table = 2 ^ 32 - 1;
  second_level_table = 2 ^ 32 - 1;
  third_level_table = 2 ^ 32 - 1;
  header_extents = λ i. record { start = i; sectors = 7 };
}

-- One with tables of both lower levels.
abbrev large_inode : InodeDisk
large_inode = record small_inode { first_level_table = 3; second_level_table = 4 }

abbrev mounted : Fs
mounted = record {
  fs_block = record { name = 0; start = 0; size = 64; remainder = 9000 };
  fs_free_sectors = 0;
  fs_free_map = record { bitcount = 64; bufsize = 8; elems = λ _. 1 };
  misread_map = record { bitcount = 64; bufsize = 8; elems = λ _. 0 };
  fs_free_map_lock = 1;
  inode_map_lock = 1;
  inode_map = record {
    buckets = 10;
    entries = 0;
    bucket_con = 4000;
    fn = λ _. 0;
    eq = λ _ _. false;
  };
  links = record { next = λ q. q; prev = λ q. q; size = λ _. 0 };
  inodes = λ q. record {
    sector = 0;
    lock = 1;
    dir_lock = 1;
    open_count = 1;
    removed = false;
    inode_data = 500;
  };
  world = record { memory = λ q. 0; disk = λ x. 0 };
}

abbrev some_file : File
some_file = record { inode = 300; streampos = 0; is_directory = false }

abbrev some_frame : Frame
some_frame = record {
  ent = 7000;
  new_ent = 7040;
  key = 7080;
  dot = 1;
  dot_dot = 2;
  zeroes = 3;
  block = 6000;
  read_stale = λ _. 0;
  write_stale = 0;
}

not_third : inode_disk_at_third_level large_inode ≡ false
unfolding inode_disk_at_third_level
not_third = refl

foreach-visits_example :
    inode_disk_foreach (plainly (λ _ n. n + 1) blank_tables) blank_tables large_inode 0
    ≡ visit_all (λ _ n. n + 1) (visited blank_tables large_inode) 0
foreach-visits_example = foreach-visits (λ _ n. n + 1) blank_tables large_inode 0 not_third

create_file-fails_example :
    succeeded (
      create_file empty_ide blank_tables some_frame
        (record { filename = 8000; parent = some (record { base = some_file; next_entry = 80 }) })
        0x1B6
        mounted)
    ≡ false
create_file-fails_example = create_file-fails empty_ide blank_tables some_frame _ 0x1B6 mounted
