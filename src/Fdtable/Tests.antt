-- ===== src/Fdtable/Tests.antt =====
-- The descriptor theorems on a table of sixteen descriptors.
use dunkos.Common.{arith, ◌==◌, if◌then◌else◌}
use dunkos.LinkedList.{Mem}
use dunkos.Bitmap.{Bitmap}
use dunkos.Fdtable.Defs.{FdState, file, fdtable_open, fd_get}
use dunkos.Fdtable.Numbers.{IsTakenNumber, open-IsTakenNumber}

abbrev no_links : Mem
no_links = record { prev = λ _. 0; next = λ _. 0; size = λ _. 0 }

-- Bits 3 and 5 are set.
abbrev numbers : Bitmap
numbers = record { bitcount = 16; bufsize = 2; elems = λ i. if i == 0 then 40 else 0 }

abbrev state : FdState
state = record {
  links = no_links;
  number = λ _. 0;
  kind = λ _. file;
  io_object = λ _. 0;
  fdmap = record { buckets = 10; entries = 0; bucket_con = 1000; fn = λ e. e; eq = ◌==◌ };
  freefdmap = numbers;
}

open-IsTakenNumber_example :
    let s' = fdtable_open 5000 77 state in IsTakenNumber numbers (fd_get 5000 s') s'.freefdmap
open-IsTakenNumber_example = open-IsTakenNumber 5000 77 state (omega arith)
