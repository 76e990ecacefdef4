-- ===== src/Process/Life.antt =====
-- Processes of process.c. A process is its address, which is also that of its thread; the offsets are
-- those of the fields of `struct process`. What kcalloc and pml4_alloc return is an argument.
use dunkos.Common.{ℕ, ◌+◌, ◌-◌, ◌*◌, ◌^◌, Bool, true, ◌&&◌, List, []}
use dunkos.Common.{◌==◌, ltb, leb, if◌then◌else◌, update, word_limit}
use dunkos.Common.Memory.{zeroed}
use dunkos.LinkedList.{Mem, list_push_back}
use dunkos.Hashtable.{Hashtable, hashtable_visit, hashtable_destroy}
use dunkos.Bitmap.{Bitmap, bitmap_create}
use dunkos.Fdtable.{FdState, create_fdtable}
use dunkos.PageTable.{Words}
use dunkos.Threads.{Sys, thread_init, calloc_thread, lock_init}
use dunkos.Process.Pages.{Page, Spt, page_table_create, page_of, page_copy, page_destroy}

pub record ThreadContext : Type 0 where
  pub registers : ℕ → ℕ
  pub rflags : ℕ
  pub sp : ℕ
  pub ip : ℕ
  pub entry : ℕ
  pub aux : ℕ

-- The scheduler's state, the memory of pages and pointers, and the fields of each process. `fdtables`
-- has the descriptor table of each with its memory, `con` and `pml4` are those of its page table.
pub record Processes : Type 0 where
  pub sys : Sys
  pub links : Mem
  pub pages : ℕ → Page
  pub words : Words
  pub magic : ℕ → ℕ
  pub parent : ℕ → ℕ
  pub thread_context : ℕ → ThreadContext
  pub exit_code : ℕ → ℕ
  pub cwd : ℕ → ℕ
  pub con : ℕ → Hashtable
  pub pml4 : ℕ → ℕ
  pub fdtables : ℕ → FdState
  pub semtable : ℕ → ℕ
  pub semtable_map : ℕ → Bitmap
  pub freed : ℕ → Bool

abbrev pub kthread_magik : ℕ
kthread_magik = 0xF42069ACAB131214

-- `~KTHREAD_MAGIK` on 64 bits
abbrev pub process_magik : ℕ
process_magik = word_limit - 1 - kthread_magik

abbrev pub process_size : ℕ
process_size = 608

abbrev pub semtable_size : ℕ
semtable_size = 128

abbrev pub sleep_sema_of : ℕ → ℕ
sleep_sema_of thr = thr + 16

abbrev pub child_elem_of : ℕ → ℕ
child_elem_of thr = thr + 160

-- `elem_value(e, struct thread, child_elem)`
abbrev pub thread_of : ℕ → ℕ
thread_of e = e - 160

abbrev pub wait_sema_of : ℕ → ℕ
wait_sema_of p = p + 320

abbrev pub reap_sema_of : ℕ → ℕ
reap_sema_of p = p + 368

abbrev pub children_of : ℕ → ℕ
children_of p = p + 416

abbrev pub semtable_lock_of : ℕ → ℕ
semtable_lock_of p = p + 504

-- `-1` as an `int`
abbrev pub minus_one : ℕ
minus_one = 2 ^ 32 - 1

unfoldable pub is_process : ℕ → Processes → Bool
is_process thr s = s.magic thr == process_magik

unfoldable pub current_process : Processes → ℕ
unfolding is_process
current_process s = let cur = s.sys.running_thread in if is_process cur s then cur else s.parent cur

-- The lists of waiters in a zeroed block: an empty list need not be initialised.
abbrev no_waiters : ℕ → ℕ → (ℕ → List ℕ) → ℕ → List ℕ
no_waiters p n waiters q = if leb p q && ltb q (p + n) then [] else waiters q

-- The semaphores in a zeroed block of `n` bytes at `p`.
unfoldable pub calloc_semas : ℕ → ℕ → Sys → Sys
unfolding zeroed
calloc_semas p n y = record y {
  sema_value = zeroed p n y.sema_value;
  waiters = no_waiters p n y.waiters;
}

-- The list elements and lists in such a block.
unfoldable pub calloc_links : ℕ → ℕ → Mem → Mem
unfolding zeroed
calloc_links p n m = record {
  prev = zeroed p n m.prev;
  next = zeroed p n m.next;
  size = zeroed p n m.size;
}

abbrev zero_context : ThreadContext
zero_context = record { registers = λ r. 0; rflags = 0; sp = 0; ip = 0; entry = 0; aux = 0 }

-- `kcalloc(1, sizeof *pr)` for a process
unfoldable pub calloc_process : ℕ → Processes → Processes
unfolding calloc_semas calloc_links calloc_thread
calloc_process pr s = record s {
  sys = calloc_thread pr (calloc_semas pr process_size s.sys);
  links = calloc_links pr process_size s.links;
  magic = update s.magic pr 0;
  parent = update s.parent pr 0;
  thread_context = update s.thread_context pr zero_context;
  exit_code = update s.exit_code pr 0;
  cwd = update s.cwd pr 0;
}

-- The blocks of a new process: its own, the buckets and the root of its page table, the buckets of
-- its descriptors, its semaphores; and for the copying of pages the new page of each element, the
-- table that each mapping may take, the frames and where they are.
pub record Blocks : Type 0 where
  pub process : ℕ
  pub buckets : ℕ
  pub pml4 : ℕ
  pub fd_buckets : ℕ
  pub semtable : ℕ
  pub page : ℕ → ℕ
  pub table : ℕ → ℕ
  pub frame_table : ℕ
  pub user_base : ℕ

-- The page table of a process, and back into its fields.
abbrev pub spt_of : ℕ → Processes → Spt
spt_of p s = record {
  con = s.con p;
  pml4 = s.pml4 p;
  pages = s.pages;
  links = s.links;
  words = s.words;
}

abbrev pub set_spt : ℕ → Spt → Processes → Processes
set_spt p t s = record s {
  con = update s.con p t.con;
  pml4 = update s.pml4 p t.pml4;
  pages = t.pages;
  links = t.links;
  words = t.words;
}

-- What process_init does to the scheduler's state: thread_init, the zeroed semaphores and the lock.
unfoldable pub init_sys : ℕ → ℕ → Sys → Sys
unfolding thread_init calloc_semas lock_init
init_sys pr semtable y =
    lock_init (semtable_lock_of pr)
      (calloc_semas semtable (48 * semtable_size) (thread_init sleep_sema_of pr y))

unfoldable pub process_init : Blocks → ℕ → Processes → Processes
unfolding init_sys page_table_create create_fdtable
process_init b pr s =
    let s₁ = set_spt pr (page_table_create b.buckets b.pml4 (spt_of pr s)) s in
    record s₁ {
      sys = init_sys pr b.semtable s₁.sys;
      magic = update s₁.magic pr process_magik;
      exit_code = update s₁.exit_code pr minus_one;
      fdtables = update s₁.fdtables pr (create_fdtable b.fd_buckets 128 (s₁.fdtables pr));
      semtable = update s₁.semtable pr b.semtable;
      semtable_map = update s₁.semtable_map pr (bitmap_create semtable_size);
    }

-- `dest` and `src` are the processes that have the tables.
unfoldable pub page_table_copy : Blocks → ℕ → ℕ → Processes → Processes
unfolding hashtable_visit page_copy
page_table_copy b dest src s =
    hashtable_visit (λ t. t.links) (s.con src)
      (λ e aux t.
        set_spt aux (page_copy b.frame_table b.user_base (b.page e) (b.table e) e (spt_of aux t)) t)
      dest s

-- `kfree` as far as it is modelled: the block is free. The links that it writes are left out. They
-- are the first 16 bytes of the block: in a page, the fields before the element of the bucket,
-- whose link the walk through the table still reads.
abbrev pub free_block : ℕ → Processes → Processes
free_block a s = record s { freed = update s.freed a true }

-- The mappings that page_destroy clears are those of the current process's table.
unfoldable pub page_table_destroy : ℕ → Processes → Processes
unfolding hashtable_destroy page_destroy current_process
page_table_destroy p s =
    hashtable_destroy (λ t. t.links) free_block (s.con p)
      (λ e aux t.
        let cur = current_process t in
        free_block (page_of e) (set_spt cur (page_destroy e (spt_of cur t)) t))
      0 s

-- fork_process up to the copying of the pages
unfoldable pub new_child : Blocks → ℕ → Processes → Processes
unfolding calloc_process process_init list_push_back
new_child b cur s =
    let pr = b.process in
    let s₁ = process_init b pr (calloc_process pr s) in
    record s₁ {
      thread_context = update s₁.thread_context pr (s₁.thread_context cur);
      links = list_push_back (children_of cur) (child_elem_of pr) s₁.links;
    }

unfoldable pub fork_process : Blocks → Processes → ℕ × Processes
unfolding current_process new_child page_table_copy
fork_process b s =
    let cur = current_process s in (b.process, page_table_copy b b.process cur (new_child b cur s))
