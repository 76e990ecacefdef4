-- ===== src/User/Dispatch.antt =====
-- Which function of the kernel a call of the user library reaches.
use dunkos.Common.{ℕ, ◌≡◌, refl, Option, none, some, ◌<◌, arith}
use dunkos.User.Calls.{Call, fork, getpid, exec, exit, wait, create, remove}
use dunkos.User.Calls.{open_call, close, write_call, read_call}
use dunkos.User.Calls.{chmod, chmodfd, sleep, sleepts, growdata, sget, sunget, sinc, sdec}
use dunkos.User.Calls.{syscall0, number, sys_count, init_syscalls, trap, dispatch}

-- The function that each call reaches in a table that was zeroed.
abbrev pub reached : Call → Option Call
reached write_call = some open_call
reached growdata = none
reached c = some c

-- In a table that init_syscalls has filled, each call of the library but two reaches the kernel's
-- function of its name, within the table: write reaches open, and growdata has no entry.
pub dispatch-trap :
    (c : Call) (x y z : ℕ)
    → let t = trap c x y z in
      (dispatch (init_syscalls (λ n. none)) t ≡ reached c) × (t.rax < number sys_count)
unfolding dispatch init_syscalls trap number syscall0
dispatch-trap fork x y z = (refl, omega arith)
dispatch-trap getpid x y z = (refl, omega arith)
dispatch-trap exec x y z = (refl, omega arith)
dispatch-trap exit x y z = (refl, omega arith)
dispatch-trap wait x y z = (refl, omega arith)
dispatch-trap create x y z = (refl, omega arith)
dispatch-trap remove x y z = (refl, omega arith)
dispatch-trap open_call x y z = (refl, omega arith)
dispatch-trap close x y z = (refl, omega arith)
dispatch-trap write_call x y z = (refl, omega arith)
dispatch-trap read_call x y z = (refl, omega arith)
dispatch-trap chmod x y z = (refl, omega arith)
dispatch-trap chmodfd x y z = (refl, omega arith)
dispatch-trap sleep x y z = (refl, omega arith)
dispatch-trap sleepts x y z = (refl, omega arith)
dispatch-trap growdata x y z = (refl, omega arith)
dispatch-trap sget x y z = (refl, omega arith)
dispatch-trap sunget x y z = (refl, omega arith)
dispatch-trap sinc x y z = (refl, omega arith)
dispatch-trap sdec x y z = (refl, omega arith)
