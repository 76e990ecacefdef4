-- ===== src/LinkedList/Defs.antt =====
-- The operations of list.c. A `struct list` at address `li` holds its sentinel `head` at `li`, its
-- sentinel `tail` at `li + 16` and its `size` behind them. An address is a number, 0 is `NULL`.
use dunkos.Common.{ℕ, zero, suc, ◌+◌, ◌-◌, ◌%◌, Bool, true, false, not, ◌==◌, if◌then◌else◌}
use dunkos.Common.{update, word_limit}

-- The fields of every `struct list_elem` and the `size` of every `struct list`, by address.
pub record Mem : Type 0 where
  pub prev : ℕ → ℕ
  pub next : ℕ → ℕ
  pub size : ℕ → ℕ

abbrev pub null : ℕ
null = 0

abbrev pub head_of : ℕ → ℕ
head_of li = li

abbrev pub tail_of : ℕ → ℕ
tail_of li = li + 16

-- `p->prev = v`, `p->next = v`, `li->size = v`
abbrev pub set_prev : ℕ → ℕ → Mem → Mem
set_prev p v m = record m { prev = update m.prev p v }

abbrev pub set_next : ℕ → ℕ → Mem → Mem
set_next p v m = record m { next = update m.next p v }

abbrev pub set_size : ℕ → ℕ → Mem → Mem
set_size li v m = record m { size = update m.size li v }

-- `li->size++` and `li->size--` on a `size_t`
abbrev pub inc_size : ℕ → Mem → Mem
inc_size li m = set_size li ((m.size li + 1) % word_limit) m

abbrev pub dec_size : ℕ → Mem → Mem
dec_size li m = set_size li ((m.size li + word_limit - 1) % word_limit) m

unfoldable pub list_size : ℕ → Mem → ℕ
list_size li m = m.size li

unfoldable pub list_empty : ℕ → Mem → Bool
unfolding list_size
list_empty li m = list_size li m == 0

unfoldable pub list_init : ℕ → Mem → Mem
list_init li m =
    let he = head_of li in
    let tl = tail_of li in
    set_size li 0 (set_next tl null (set_prev tl he (set_next he tl (set_prev he null m))))

unfoldable pub list_front : ℕ → Mem → ℕ
unfolding list_empty
list_front li m = if list_empty li m then null else m.next (head_of li)

unfoldable pub list_back : ℕ → Mem → ℕ
unfolding list_empty
list_back li m = if list_empty li m then null else m.prev (tail_of li)

unfoldable pub list_next : ℕ → Mem → ℕ
list_next el m = m.next el

unfoldable pub list_begin : ℕ → Mem → ℕ
unfolding list_empty
list_begin li m = if list_empty li m then tail_of li else m.next (head_of li)

unfoldable pub list_end : ℕ → ℕ
list_end li = tail_of li

unfoldable pub list_push_back : ℕ → ℕ → Mem → Mem
unfolding list_empty
list_push_back li el m =
    let tl = tail_of li in
    let he = head_of li in
    let linked =
      if list_empty li m
      then set_next he el (set_prev el he m)
      else set_next (m.prev tl) el (set_prev el (m.prev tl) m) in
    inc_size li (set_next el tl (set_prev tl el linked))

unfoldable pub list_push_front : ℕ → ℕ → Mem → Mem
unfolding list_empty
list_push_front li el m =
    let tl = tail_of li in
    let he = head_of li in
    let linked =
      if list_empty li m
      then set_prev tl el (set_next el tl m)
      else set_prev (m.next he) el (set_next el (m.next he) m) in
    inc_size li (set_prev el he (set_next he el linked))

-- `pr->next = ne; ne->prev = pr` for the neighbours of `el`, both read first.
unfoldable pub unlink : ℕ → Mem → Mem
unlink el m = let pr = m.prev el in let ne = m.next el in set_prev ne pr (set_next pr ne m)

-- The pops return the element, `NULL` if the list is empty.
unfoldable pub list_pop_back : ℕ → Mem → ℕ × Mem
unfolding list_empty list_end unlink
list_pop_back li m =
    let pb = m.prev (list_end li) in
    if list_empty li m then (null, m) else (pb, dec_size li (unlink pb m))

unfoldable pub list_pop_front : ℕ → Mem → ℕ × Mem
unfolding list_empty list_begin unlink
list_pop_front li m =
    let pf = list_begin li m in
    if list_empty li m then (null, m) else (pf, dec_size li (unlink pf m))

unfoldable pub list_remove : ℕ → ℕ → Mem → Mem
unfolding list_empty unlink
list_remove li el m = if list_empty li m then m else dec_size li (unlink el m)

-- `while (cmp(pr, el)) pr = pr->next;` on fuel: the element at which the comparison fails.
unfoldable pub insert_scan : (ℕ → ℕ → Bool) → ℕ → ℕ → ℕ → Mem → ℕ
insert_scan cmp zero el pr m = pr
insert_scan cmp (suc fuel) el pr m = elim (cmp pr el) [
  | true ↦ insert_scan cmp fuel el (m.next pr) m
  | false ↦ pr
]

unfoldable pub list_insert_ordered : (ℕ → ℕ → Bool) → ℕ → ℕ → ℕ → Mem → Mem
unfolding list_begin insert_scan
list_insert_ordered cmp fuel li el m =
    let first = list_begin li m in
    let he = head_of li in
    let tl = tail_of li in
    let pr = insert_scan cmp fuel el first m in
    let ne = m.next pr in
    inc_size li (
      if not (first == null)
      then set_prev el pr (set_next el ne (set_next pr el m))
      else set_next el tl (set_prev tl el (set_prev el he (set_next he el m))))

-- `for (el = list_begin(li); el != list_end(li); el = list_next(el))` on fuel, over a state `s`.
unfoldable pub list_fold {ℓ} : {S : Type ℓ} → ℕ → (ℕ → S → S) → ℕ → ℕ → Mem → S → S
unfolding list_next
list_fold zero action stop el m s = s
list_fold (suc fuel) action stop el m s = elim (el == stop) [
  | true ↦ s
  | false ↦ list_fold fuel action stop (list_next el m) m (action el s)
]

-- The loop with as many rounds as the list says it has elements.
unfoldable pub list_foreach {ℓ} : {S : Type ℓ} → (ℕ → S → S) → ℕ → Mem → S → S
unfolding list_begin list_end list_fold list_size
list_foreach action li m s =
    list_fold (suc (list_size li m)) action (list_end li) (list_begin li m) m s

-- The same loop where the body may change the list: `links` reads the pointers off the state, and the
-- next element is read after the body has run.
unfoldable pub list_walk {ℓ} : {S : Type ℓ} → (S → Mem) → (ℕ → S → S) → ℕ → ℕ → ℕ → S → S
unfolding list_next
list_walk links action zero stop el s = s
list_walk links action (suc fuel) stop el s = elim (el == stop) [
  | true ↦ s
  | false ↦ let s' = action el s in list_walk links action fuel stop (list_next el (links s')) s'
]

-- Over the list at `li`, with as many rounds as the list says at first that it has elements.
unfoldable pub list_visit {ℓ} : {S : Type ℓ} → (S → Mem) → (ℕ → S → S) → ℕ → S → S
unfolding list_begin list_end list_walk list_size
list_visit links action li s =
    list_walk links action (suc (list_size li (links s))) (list_end li) (list_begin li (links s)) s

unfoldable pub list_worstfit : (ℕ → ℕ → Bool) → ℕ → Mem → ℕ
unfolding list_foreach
list_worstfit cmp li m =
    list_foreach (λ el worst. if not (cmp el worst) then el else worst) li m (list_end li)

unfoldable pub list_bestfit : (ℕ → ℕ → Bool) → ℕ → Mem → ℕ
unfolding list_foreach
list_bestfit cmp li m =
    list_foreach (λ el best. if cmp el best then el else best) li m (list_end li)

unfoldable pub elem_swap : ℕ → ℕ → Mem → Mem
elem_swap lf ri m =
    let lpr = m.prev lf in
    let rpr = m.prev ri in
    let rne = m.next ri in
    let lne = m.next lf in
    set_next ri lne (
      set_next lf rne (
        set_prev rne lf (
          set_prev lne ri
            (set_prev ri lpr (set_prev lf rpr (set_next rpr lf (set_next lpr ri m)))))))
