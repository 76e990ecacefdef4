-- ===== src/User/Calls.antt =====
-- The numbers of the system calls, the kernel's table of them, and the calls of the user library.
use dunkos.Common.{ℕ, Option, some, List, [], ◌∷◌, update}

pub data SyscallNumber : Type 0 where
  sys_fork sys_getpid sys_exec sys_exit sys_wait sys_create sys_remove : SyscallNumber
  sys_open sys_close sys_write sys_read sys_chmod sys_chmodfd sys_sleep : SyscallNumber
  sys_sleepts sys_growdata sys_sget sys_sunget sys_sinc sys_sdec sys_count : SyscallNumber

-- The value of the enumerator.
unfoldable pub number : SyscallNumber → ℕ
number sys_fork = 0
number sys_getpid = 1
number sys_exec = 2
number sys_exit = 3
number sys_wait = 4
number sys_create = 5
number sys_remove = 6
number sys_open = 7
number sys_close = 8
number sys_write = 9
number sys_read = 10
number sys_chmod = 11
number sys_chmodfd = 12
number sys_sleep = 13
number sys_sleepts = 14
number sys_growdata = 15
number sys_sget = 16
number sys_sunget = 17
number sys_sinc = 18
number sys_sdec = 19
number sys_count = 20

-- The calls that a program has, by name; the kernel's functions have the same names.
-- `open_call`, `write_call` and `read_call` are open, write and read.
pub data Call : Type 0 where
  fork getpid exec exit wait create remove open_call close write_call read_call : Call
  chmod chmodfd sleep sleepts growdata sget sunget sinc sdec : Call

-- The table, with `none` for `NULL`.
abbrev pub Table : Type 0
Table = ℕ → Option Call

abbrev enter : SyscallNumber → Call → Table → Table
enter n c table = update table (number n) (some c)

unfoldable pub init_syscalls : Table → Table
unfolding number
init_syscalls t₀ =
    let t₁ = enter sys_close close t₀ in
    let t₂ = enter sys_create create t₁ in
    let t₃ = enter sys_exec exec t₂ in
    let t₄ = enter sys_exit exit t₃ in
    let t₅ = enter sys_fork fork t₄ in
    let t₆ = enter sys_getpid getpid t₅ in
    let t₇ = enter sys_open open_call t₆ in
    let t₈ = enter sys_read read_call t₇ in
    let t₉ = enter sys_remove remove t₈ in
    let t₁₀ = enter sys_wait wait t₉ in
    let t₁₁ = enter sys_write write_call t₁₀ in
    let t₁₂ = enter sys_sget sget t₁₁ in
    let t₁₃ = enter sys_sunget sunget t₁₂ in
    let t₁₄ = enter sys_sinc sinc t₁₃ in
    let t₁₅ = enter sys_sdec sdec t₁₄ in
    let t₁₆ = enter sys_chmod chmod t₁₅ in
    let t₁₇ = enter sys_chmodfd chmodfd t₁₆ in
    let t₁₈ = enter sys_sleep sleep t₁₇ in enter sys_sleepts sleepts t₁₈

-- What the `syscall` instruction finds in the registers: the number in `rax`, and the arguments in
-- `rdi`, `rsi` and `rdx`, as many as the macro loads.
pub record Trap : Type 0 where
  pub rax : ℕ
  pub arguments : List ℕ

unfoldable pub syscall0 : SyscallNumber → Trap
unfolding number
syscall0 n = record { rax = number n; arguments = [] }

unfoldable pub syscall1 : SyscallNumber → ℕ → Trap
unfolding number
syscall1 n arg0 = record { rax = number n; arguments = arg0 ∷ [] }

unfoldable pub syscall2 : SyscallNumber → ℕ → ℕ → Trap
unfolding number
syscall2 n arg0 arg1 = record { rax = number n; arguments = arg0 ∷ arg1 ∷ [] }

unfoldable pub syscall3 : SyscallNumber → ℕ → ℕ → ℕ → Trap
unfolding number
syscall3 n arg0 arg1 arg2 = record { rax = number n; arguments = arg0 ∷ arg1 ∷ arg2 ∷ [] }

-- The trap of each function of the library, for its arguments in order; a function reads as many as
-- it has.
unfoldable pub trap : Call → ℕ → ℕ → ℕ → Trap
unfolding syscall0 syscall1 syscall2 syscall3
trap fork x y z = syscall0 sys_fork
trap getpid x y z = syscall0 sys_getpid
trap exec x y z = syscall2 sys_exec x y
trap exit x y z = syscall1 sys_exit x
trap wait x y z = syscall1 sys_wait x
trap create x y z = syscall2 sys_create x y
trap remove x y z = syscall1 sys_remove x
trap chmod x y z = syscall2 sys_chmod x y
trap open_call x y z = syscall2 sys_open x y
trap close x y z = syscall1 sys_close x
trap chmodfd x y z = syscall2 sys_chmodfd x y
trap write_call x y z = syscall3 sys_open x y z
trap read_call x y z = syscall3 sys_read x y z
trap sleep x y z = syscall1 sys_sleep x
trap sleepts x y z = syscall1 sys_sleepts x
trap growdata x y z = syscall1 sys_growdata x
trap sget x y z = syscall1 sys_sget x
trap sunget x y z = syscall1 sys_sunget x
trap sinc x y z = syscall1 sys_sinc x
trap sdec x y z = syscall1 sys_sdec x

-- The table's entry for a trap.
unfoldable pub dispatch : Table → Trap → Option Call
dispatch table t = table t.rax
