-- ===== src/Threads/Schedule.antt =====
-- The ready queue: rotation by yields, what blocking does, and the initial thread.
use mathlib.Core.List.{append_assoc, append-nil}
use dunkos.Common.{ℕ, zero, suc, ◌≡◌, refl, ◌≢◌, ◌∙◌, sym, ap, arith, ==-refl}
use dunkos.Common.{false, List, [], ◌∷◌, ◌++◌, ◌==◌, if◌then◌else◌, length}
use dunkos.Threads.Defs.{Sys, ThreadStatus, blocked, is_blocked, yield_current, block_current}
use dunkos.Threads.Defs.{init_threads}

-- The running thread with the ready queue behind it.
abbrev pub queue : Sys → List ℕ
queue s = s.running_thread ∷ s.ready_threads

abbrev pub yields : ℕ → Sys → Sys
yields zero s = s
yields (suc n) s = yields n (yield_current s)

-- No thread of the list is blocked.
abbrev pub AllRunnable : (ℕ → ThreadStatus) → List ℕ → Type 0
AllRunnable status [] = Unit
AllRunnable status (t ∷ ts) = (is_blocked (status t) ≡ false) × AllRunnable status ts

AllRunnable-snoc :
    (status : ℕ → ThreadStatus) (xs : List ℕ) (t : ℕ)
    → AllRunnable status xs
    → is_blocked (status t) ≡ false
    → AllRunnable status (xs ++ (t ∷ []))
AllRunnable-snoc status [] t h k = (k, tt)
AllRunnable-snoc status (x ∷ xs) t h k = (h.0, AllRunnable-snoc status xs t h.1 k)

-- One yield of a thread that is not blocked, with another one ready.
yield_lem :
    (s : Sys) (t : ℕ) (rest : List ℕ)
    → s.ready_threads ≡ t ∷ rest
    → is_blocked (s.status s.running_thread) ≡ false
    → yield_current s
      ≡ record s { running_thread = t; ready_threads = rest ++ (s.running_thread ∷ []) }
unfolding yield_current
yield_lem s t rest e h = rw (h, e) refl

-- The same on the queue.
yield_queue :
    (s : Sys) (x r : ℕ) (rest : List ℕ)
    → queue s ≡ x ∷ (r ∷ rest)
    → is_blocked (s.status x) ≡ false
    → (queue (yield_current s) ≡ (r ∷ rest) ++ (x ∷ [])) × ((yield_current s).status ≡ s.status)
yield_queue s x r rest e h =
    let here : s.running_thread ≡ x = cc in
    let next : s.ready_threads ≡ r ∷ rest = cc in
    let runs : is_blocked (s.status s.running_thread) ≡ false = rw here h in
    rw (yield_lem s r rest next runs) (ap (λ y. (r ∷ rest) ++ (y ∷ [])) here, refl)

-- If no thread of the queue is blocked, `n` yields with `n` threads in front of the queue's rest put
-- these behind the rest, in their order, so each ready thread runs in its turn. The statuses stay.
pub yields-rotate :
    (xs ys : List ℕ) (t : ℕ) (s : Sys)
    → queue s ≡ xs ++ (t ∷ ys)
    → AllRunnable s.status (xs ++ (t ∷ ys))
    → (queue (yields (length xs) s) ≡ (t ∷ ys) ++ xs) × ((yields (length xs) s).status ≡ s.status)
yields-rotate [] ys t s e h = (e ∙ sym (append-nil (t ∷ ys)), refl)
yields-rotate (x ∷ xs) ys t s e h =
    let (moved, statuses) = first xs e in
    let longer : (xs ++ (t ∷ ys)) ++ (x ∷ []) ≡ xs ++ (t ∷ (ys ++ (x ∷ []))) =
      append_assoc xs (t ∷ ys) (x ∷ []) in
    let runs : AllRunnable (yield_current s).status (xs ++ (t ∷ (ys ++ (x ∷ [])))) =
      rw (statuses, ← longer) (AllRunnable-snoc s.status (xs ++ (t ∷ ys)) x h.1 h.0) in
    let (turned, kept) =
      yields-rotate xs (ys ++ (x ∷ [])) t (yield_current s) (moved ∙ longer) runs in
    (turned ∙ ap (λ l. t ∷ l) (append_assoc ys (x ∷ []) xs), kept ∙ statuses)
  where
    first :
        (zs : List ℕ)
        → queue s ≡ x ∷ (zs ++ (t ∷ ys))
        → (queue (yield_current s) ≡ (zs ++ (t ∷ ys)) ++ (x ∷ []))
          × ((yield_current s).status ≡ s.status)
    first [] e = yield_queue s x t ys e h.0
    first (z ∷ zs) e = yield_queue s x z (zs ++ (t ∷ ys)) e h.0

-- Blocking the current thread with another one ready switches to that one, marks the thread as
-- blocked, and puts it in no queue.
pub block_lem :
    (s : Sys) (t : ℕ) (rest : List ℕ)
    → s.ready_threads ≡ t ∷ rest
    → let s' = block_current s in
      (s'.running_thread ≡ t)
      × (s'.ready_threads ≡ rest)
      × ((u : ℕ) → s'.status u ≡ (if u == s.running_thread then blocked else s.status u))
unfolding block_current
block_lem s t rest e = rw (==-refl s.running_thread, e) (refl, refl, λ u. refl)

record IsBooted (s : Sys) (initial idle : ℕ) : Type 0 where
  ready_empty : s.ready_threads ≡ []
  running : s.running_thread ≡ initial
  idle_set : s.idle_thread ≡ idle
  status : s.status initial ≡ blocked

init_threads-IsBooted :
    (sleep_sema : ℕ → ℕ) (initial idle : ℕ) (s : Sys)
    → initial ≢ idle
    → IsBooted (init_threads sleep_sema initial idle s) initial idle
unfolding init_threads
init_threads-IsBooted sleep_sema initial idle s ne =
    let apart : (initial == idle) ≡ false = ground arith in
    record {
      ready_empty = rw (==-refl idle);
      running = refl;
      idle_set = rw (==-refl idle);
      status = rw (==-refl idle, apart, ==-refl initial);
    }

-- Yielding while blocked with no thread ready runs the idle thread.
yield_lost :
    (s : Sys)
    → s.ready_threads ≡ []
    → s.status s.running_thread ≡ blocked
    → let s' = yield_current s in
      (s'.running_thread ≡ s.idle_thread) × (s'.ready_threads ≡ []) × (s'.status ≡ s.status)
unfolding yield_current
yield_lost s e h = rw (h, e) (refl, e, refl)

-- The initial thread is never given a status other than the zero of its block, which is `blocked`.
-- So after `init_threads` its first yield puts it in no queue, and the idle thread runs.
pub initial_thread-lost :
    (sleep_sema : ℕ → ℕ) (initial idle : ℕ) (s : Sys)
    → initial ≢ idle
    → let s' = yield_current (init_threads sleep_sema initial idle s) in
      (s'.running_thread ≡ idle) × (s'.ready_threads ≡ []) × (s'.status initial ≡ blocked)
initial_thread-lost sleep_sema initial idle s ne =
    let u = init_threads sleep_sema initial idle s in
    let b : IsBooted u initial idle = init_threads-IsBooted sleep_sema initial idle s ne in
    let (next, empty, kept) = yield_lost u b.ready_empty (rw b.running b.status) in
    (next ∙ b.idle_set, empty, rw kept b.status)
