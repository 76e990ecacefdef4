-- ===== src/Hashtable/Defs.antt =====
-- The operations of hashtable.c over the memory of list elements. The buckets are an array of
-- `struct list`, 40 bytes each, from `bucket_con` on.
use dunkos.Common.{ℕ, zero, suc, ◌+◌, ◌*◌, ◌%◌, Bool, true, false, not, ◌&&◌, ◌==◌, if◌then◌else◌}
use dunkos.Common.{word_limit}
use dunkos.LinkedList.{Mem, null, list_init, list_begin, list_end, list_next, list_size}
use dunkos.LinkedList.{list_push_back, list_remove, list_foreach, list_visit}

-- `fn` and `eq` are the callbacks of the owner of the elements.
pub record Hashtable : Type 0 where
  pub buckets : ℕ
  pub entries : ℕ
  pub bucket_con : ℕ
  pub fn : ℕ → ℕ
  pub eq : ℕ → ℕ → Bool

abbrev pub init_buckets : ℕ
init_buckets = 10

-- `h->bucket_con + i`
abbrev pub bucket_at : ℕ → ℕ → ℕ
bucket_at con i = con + 40 * i

unfoldable pub bucket_of : Hashtable → ℕ → ℕ
bucket_of h e = bucket_at h.bucket_con (h.fn e % h.buckets)

-- `for (i = 0; i < INIT_BUCKETS; ++i) list_init(h->bucket_con + i)`, from `i` on
unfoldable pub init_loop : ℕ → ℕ → ℕ → Mem → Mem
unfolding list_init
init_loop con zero i m = m
init_loop con (suc left) i m = init_loop con left (i + 1) (list_init (bucket_at con i) m)

-- `con` is the array that `kcalloc` returns.
unfoldable pub hashtable_init : ℕ → (ℕ → ℕ) → (ℕ → ℕ → Bool) → Mem → Hashtable × Mem
unfolding init_loop
hashtable_init con f id m = (
  record { buckets = init_buckets; entries = 0; bucket_con = con; fn = f; eq = id },
  init_loop con init_buckets 0 m,
)

unfoldable pub hashtable_size : Hashtable → ℕ
hashtable_size h = h.entries

-- `while (b_el != list_end(bucket) && !h->eq(e, b_el)) b_el = list_next(b_el)`, on fuel
unfoldable pub find_loop : Hashtable → ℕ → ℕ → ℕ → ℕ → Mem → ℕ
unfolding list_next
find_loop h e zero stop b_el m = b_el
find_loop h e (suc fuel) stop b_el m = elim (not (b_el == stop) && not (h.eq e b_el)) [
  | true ↦ find_loop h e fuel stop (list_next b_el m) m
  | false ↦ b_el
]

-- The element of the bucket that equals `e`, or the bucket's end. The loop has one round more than
-- the bucket says that it has elements.
unfoldable pub bucket_search : Hashtable → ℕ → Mem → ℕ
unfolding bucket_of find_loop list_begin list_end list_size
bucket_search h e m =
    let bucket = bucket_of h e in
    find_loop h e (suc (list_size bucket m)) (list_end bucket) (list_begin bucket m) m

unfoldable pub hashtable_find : Hashtable → ℕ → Mem → ℕ
unfolding bucket_search
hashtable_find h e m =
    let b_el = bucket_search h e m in if b_el == list_end (bucket_of h e) then null else b_el

unfoldable pub hashtable_insert : Hashtable → ℕ → Mem → Hashtable × Mem
unfolding bucket_search list_push_back list_remove
hashtable_insert h e m =
    let bucket = bucket_of h e in
    let b_el = bucket_search h e m in
    if b_el == list_end bucket
    then (record h { entries = (h.entries + 1) % word_limit }, list_push_back bucket e m)
    else (h, list_push_back bucket e (list_remove bucket b_el m))

unfoldable pub hashtable_remove : Hashtable → ℕ → Mem → Hashtable × Mem
unfolding bucket_search list_remove
hashtable_remove h e m =
    let bucket = bucket_of h e in
    let b_el = bucket_search h e m in
    if not (b_el == list_end bucket) then (h, list_remove bucket b_el m) else (h, m)

-- The loop over the buckets from `b` on. `no_aux` says that `aux` was `NULL`; each round then passes
-- the bucket itself. The action changes a state `s` of its own and no pointer of the table.
unfoldable pub foreach_loop {ℓ} :
    {S : Type ℓ} → (ℕ → ℕ → S → S) → ℕ → Bool → ℕ → ℕ → ℕ → Mem → S → S
unfolding list_foreach
foreach_loop action con no_aux zero b aux m s = s
foreach_loop action con no_aux (suc left) b aux m s =
    let bucket = bucket_at con b in
    let aux' = if no_aux then bucket else aux in
    foreach_loop action con no_aux left (b + 1) aux' m
      (list_foreach (λ e t. action e aux' t) bucket m s)

unfoldable pub hashtable_foreach {ℓ} : {S : Type ℓ} → Hashtable → (ℕ → ℕ → S → S) → ℕ → Mem → S → S
unfolding foreach_loop
hashtable_foreach h action aux m s =
    foreach_loop action h.bucket_con (aux == null) h.buckets 0 aux m s

-- The same loops for an action that may change the pointers of the state.
unfoldable pub visit_loop {ℓ} :
    {S : Type ℓ} → (S → Mem) → (ℕ → ℕ → S → S) → ℕ → Bool → ℕ → ℕ → ℕ → S → S
unfolding list_visit
visit_loop links action con no_aux zero b aux s = s
visit_loop links action con no_aux (suc left) b aux s =
    let bucket = bucket_at con b in
    let aux' = if no_aux then bucket else aux in
    visit_loop links action con no_aux left (b + 1) aux'
      (list_visit links (λ e. action e aux') bucket s)

unfoldable pub hashtable_visit {ℓ} :
    {S : Type ℓ} → (S → Mem) → Hashtable → (ℕ → ℕ → S → S) → ℕ → S → S
unfolding visit_loop
hashtable_visit links h action aux s =
    visit_loop links action h.bucket_con (aux == null) h.buckets 0 aux s

-- `free` is what kfree does to a state.
unfoldable pub hashtable_destroy {ℓ} :
    {S : Type ℓ} → (S → Mem) → (ℕ → S → S) → Hashtable → (ℕ → ℕ → S → S) → ℕ → S → S
unfolding hashtable_visit
hashtable_destroy links free h destructor aux s =
    free h.bucket_con (hashtable_visit links h destructor aux s)
