-- ===== src/Syscall/Tests.antt =====
-- A parent at 1000 with the number 1 and its child at 5000 with the number 2.
use dunkos.Common.{ℕ, ◌+◌, ◌≡◌, refl, arith, true, false, some, none, [], ◌∷◌}
use dunkos.Common.{◌==◌, if◌then◌else◌}
use dunkos.LinkedList.{Mem, list_init, list_push_back, list_empty}
use dunkos.LinkedList.Chain.{IsList}
use dunkos.Hashtable.{Hashtable, hashtable_init, hashtable_insert}
use dunkos.Hashtable.Init.{init-IsTable}
use dunkos.Hashtable.Refine.{IsTable, inserted, insert-IsTable}
use dunkos.Hashtable.Visit.{entries_from}
use dunkos.Process.{page_of, page_table_destroy}
use dunkos.Process.Destroy.{page_table_destroy-frees}
use dunkos.Bitmap.{bitmap_create}
use dunkos.Fdtable.{FdState, file}
use dunkos.Threads.{Sys, running, blocked, ready, enabled}
use dunkos.Process.{Processes, Blocks, ThreadContext, Page, rovp_except, process_magik, minus_one}
use dunkos.Process.{exit_begin, current_process, is_process}
use dunkos.Process.Kept.{IsApart}
use dunkos.Process.{new_child}
use dunkos.Process.Children.{IsFresh, new_child-IsList}
use dunkos.Syscall.Family.{fork, wait, exit}
use dunkos.Syscall.Fork.{fork_lem}
use dunkos.Syscall.Wait.{wait_unknown, wait_running, reaped}
use dunkos.Syscall.Exit.{switched_to, exit_stuck, wait-exit}

-- The thread `t` runs, and the child's semaphore for waiting has the value `v`.
abbrev system : ℕ → ℕ → Sys
system t v = record {
  ready_threads = [];
  running_thread = t;
  idle_thread = 9;
  initial_thread = 1;
  next_tid = 3;
  threads_init = true;
  id = λ p. if p == 1000 then 1 else if p == 5000 then 2 else 0;
  priority = λ _. 31;
  donors = λ _. [];
  status = λ p. if p == t then running else blocked;
  freed = λ _. false;
  intr_level = enabled;
  sema_value = λ p. if p == 5320 then v else 0;
  waiters = λ _. [];
  holder = λ _. none;
  cond_waiters = λ _. [];
}

abbrev garbage : Mem
garbage = record { prev = λ p. p; next = λ _. 7; size = λ _. 3 }

abbrev memory : Mem
memory = list_push_back 1416 5160 (list_init 1416 (list_init 5416 garbage))

abbrev table : Hashtable
table = record { buckets = 10; entries = 0; bucket_con = 20000; fn = λ e. e; eq = ◌==◌ }

abbrev page : Page
page = record { phys = 0; useraddr = 0; ondisk = false; readonly = false; rovp = rovp_except }

abbrev fds : FdState
fds = record {
  links = garbage;
  number = λ _. 0;
  kind = λ _. file;
  io_object = λ _. 0;
  fdmap = table;
  freefdmap = bitmap_create 128;
}

abbrev context : ThreadContext
context = record { registers = λ r. r; rflags = 0; sp = 64; ip = 77; entry = 0; aux = 0 }

abbrev pub family : ℕ → ℕ → Processes
family t v = record {
  sys = system t v;
  links = memory;
  pages = λ _. page;
  words = λ _. 0;
  magic = λ p. if p == 1000 then process_magik else if p == 5000 then process_magik else 0;
  parent = λ _. 0;
  thread_context = λ _. context;
  exit_code = λ _. 42;
  cwd = λ _. 0;
  con = λ _. table;
  pml4 = λ _. 4096;
  fdtables = λ _. fds;
  semtable = λ _. 8000;
  semtable_map = λ _. bitmap_create 128;
  freed = λ _. false;
}

parent-IsList : IsList memory 1416 (5160 ∷ [])
unfolding list_init list_push_back list_empty
parent-IsList = record {
  chain = (refl, refl, (refl, refl));
  distinct = ground arith;
  size = refl;
  small = omega arith;
}

child-IsList : IsList memory 5416 []
unfolding list_init list_push_back list_empty
child-IsList = record {
  chain = (refl, refl);
  distinct = ground arith;
  size = refl;
  small = omega arith;
}

abbrev pub blocks : ℕ → Blocks
blocks p = record {
  process = p;
  buckets = 30000;
  pml4 = 8192;
  fd_buckets = 31000;
  semtable = 32000;
  page = λ e. e + 64;
  table = λ e. 12288;
  frame_table = 40000;
  user_base = 1048576;
}

fork_lem_example :
    let (pid, s') = fork 77 (blocks 50000) (blocks 60000) (family 1000 0) in
    (pid ≡ 4)
    × (s'.sys.id 60000 ≡ pid)
    × (s'.sys.id 50000 ≡ 3)
    × (s'.sys.ready_threads ≡ 50000 ∷ [])
    × (s'.sys.status 50000 ≡ ready)
    × (s'.sys.status 60000 ≡ blocked)
fork_lem_example =
    fork_lem 77 (blocks 50000) (blocks 60000) (family 1000 0) (omega arith) (omega arith)

blocks-IsFresh : IsFresh (blocks 50000) 1416 (5160 ∷ [])
blocks-IsFresh = record { process = λ q h. ground arith; buckets = λ q h. ground arith }

new_child-IsList_example :
    IsList (new_child (blocks 50000) 1000 (family 1000 0)).links 1416 (5160 ∷ 50160 ∷ [])
new_child-IsList_example =
    new_child-IsList (blocks 50000) 1000 (family 1000 0) (5160 ∷ []) parent-IsList blocks-IsFresh
      (omega arith)

wait_unknown_example : wait 7 [] (family 1000 1) ≡ (minus_one, some (family 1000 1))
unfolding current_process is_process
wait_unknown_example =
    wait_unknown (family 1000 1) [] 7 (5160 ∷ []) parent-IsList (λ x h. ground arith)

wait_running_example : (wait 2 [] (family 1000 0)).1 ≡ none
unfolding current_process is_process
wait_running_example =
    wait_running (family 1000 0) [] [] 5160 [] parent-IsList refl (λ x h. ground arith) refl

no_children-IsApart : IsApart 5000 []
no_children-IsApart = record { wait = λ x h. ground arith; reap = λ x h. ground arith }

exit_stuck_example : exit 42 [] (family 5000 0) ≡ none
unfolding current_process is_process
exit_stuck_example = exit_stuck 42 [] [] (family 5000 0) child-IsList no_children-IsApart refl

wait-exit_example :
    let s' = switched_to 1000 (exit_begin 42 (family 5000 0)) in
    (wait 2 [] s' ≡ (42, some (reaped 1000 5160 s'))) × IsList (reaped 1000 5160 s').links 1416 []
unfolding current_process is_process
wait-exit_example =
    wait-exit 42 [] (family 5000 0) [] child-IsList no_children-IsApart (omega arith) refl 1000 []
      5160 [] refl parent-IsList refl (λ x h. ground arith)

abbrev empty_table : Mem
empty_table = (hashtable_init 20000 (λ e. e) ◌==◌ garbage).1

empty_table-IsTable : IsTable empty_table table (λ i. [])
unfolding hashtable_init
empty_table-IsTable = (init-IsTable 20000 (λ e. e) ◌==◌ garbage).2

abbrev with_page : Hashtable × Mem
with_page = hashtable_insert table 1042 empty_table

with_page-IsTable : IsTable with_page.1 with_page.0 (inserted table 1042 (λ i. []))
with_page-IsTable =
    (insert-IsTable {m = empty_table} {h = table} {f = λ i. []} 1042 empty_table-IsTable
      (λ i hi. ground arith) (omega arith)).1

-- The process has one page, at 1026.
abbrev one_page : Processes
one_page = record (family 5000 0) { links = with_page.1; con = λ _. with_page.0 }

page_table_destroy-frees_example :
    ((page_table_destroy 5000 one_page).freed (page_of 1042) ≡ true)
    × ((page_table_destroy 5000 one_page).freed (one_page.con 5000).bucket_con ≡ true)
unfolding hashtable_insert entries_from
page_table_destroy-frees_example =
    page_table_destroy-frees 5000 one_page (inserted table 1042 (λ i. [])) 1042 with_page-IsTable
      (ground arith)
