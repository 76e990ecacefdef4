-- ===== src/Stdio/Write.antt =====
-- What becomes of a write to a stream that fopen has made.
use dunkos.Common.{ℕ, ◌*◌, ◌%◌, ◌≡◌, refl, false, ltb, arith, List, [], ◌∷◌, ◌++◌, word_limit}
use dunkos.Strings.{Bytes}
use dunkos.Stdio.Defs.{fopen, fwrite, bytes_at}

-- On a stream that fopen has made for writing, fwrite hands all its bytes at once to one call of
-- `write` on descriptor 0, whatever file the stream was opened for, returns what that returns, and
-- leaves the stream and memory as they were.
pub fwrite-fopen :
    (result : ℕ → List ℕ → ℕ) (junk block ptr size nmemb : ℕ) (mem : Bytes)
    (log : List (ℕ × List ℕ))
    → let f = fopen junk block b'w' 0 in
      let bytes = bytes_at mem ptr ((size * nmemb) % word_limit) in
      fwrite result ptr size nmemb (record { stream = f; memory = mem; written = log }) ≡ (
        result 0 bytes % word_limit,
        record { stream = f; memory = mem; written = log ++ ((0, bytes) ∷ []) },
      )
unfolding fopen fwrite
fwrite-fopen result junk block ptr size nmemb mem log =
    let direct : ltb ((size * nmemb) % word_limit) 0 ≡ false = ground arith in rw direct refl
