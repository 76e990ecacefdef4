-- ===== src/Stdio/Read.antt =====
-- What a read from a stream that fopen has made does.
use dunkos.Common.{
  ℕ, ◌+◌, ◌-◌, ◌*◌, ◌%◌, ◌≡◌, refl, false, ltb, if◌then◌else◌, arith, List, word_limit,
}
use dunkos.Common.{Bool-cases, inl, inr}
use dunkos.Strings.{Bytes, memcpy}
use dunkos.Stdio.Defs.{fopen, Program}
use dunkos.Stdio.Streams.{Read, fread, read_direct}

-- On a stream that fopen has made for reading, fread calls `read` once, on descriptor 0 and with all
-- the bytes that it is asked for, straight into the destination, and returns what that returns; the
-- cache is never filled. For no bytes it does nothing.
pub fread-fopen :
    (read : Read) (junk block ptr size nmemb : ℕ) (mem : Bytes) (log : List (ℕ × List ℕ))
    → let bytes = (size * nmemb) % word_limit in
      let s : Program = record { stream = fopen junk block b'r' 0; memory = mem; written = log } in
      fread read ptr size nmemb s ≡ (
        if ltb 0 bytes
        then (let (n, mem') = read 0 ptr bytes mem in (n % word_limit, record s { memory = mem' }))
        else (0, s))
unfolding fopen fread read_direct memcpy
fread-fopen read junk block ptr size nmemb mem log =
    let bytes = (size * nmemb) % word_limit in
    let long : ltb bytes 0 ≡ false = ground arith in
    let whole : bytes - 0 ≡ bytes = omega arith in
    let sum : 0 + (read 0 ptr bytes mem).0 ≡ (read 0 ptr bytes mem).0 = omega arith in
    elim (Bool-cases (ltb 0 bytes)) [
      | inl e ↦ rw (long, whole, e, sum) refl
      | inr e ↦ rw (long, whole, e) refl
    ]
