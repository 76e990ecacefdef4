-- ===== src/Syscall/Sleep.antt =====
-- How long `sleep` sleeps.
use dunkos.Common.{ℕ, ◌+◌, ◌*◌, ◌<◌, ◌≡◌, arith}
use dunkos.Syscall.Defs.{sleep_parts}

-- The seconds and nanoseconds that `sleep` makes of a number of milliseconds are this time exactly,
-- and the nanoseconds are less than a second.
pub sleep_parts_lem :
    (ms : ℕ)
    → let (seconds, nano) = sleep_parts ms in
      (seconds * 1000000000 + nano ≡ ms * 1000000) × (nano < 1000000000)
unfolding sleep_parts
sleep_parts_lem ms = (omega arith, omega arith)
