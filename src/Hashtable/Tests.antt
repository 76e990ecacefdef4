-- ===== src/Hashtable/Tests.antt =====
-- The table theorems on a table of ten buckets at 1000, keyed by the address itself.
use dunkos.Common.{ℕ, List, ◌≡◌, refl, arith, [], ◌∷◌, ◌++◌}
use dunkos.Common.{◌==◌}
use mathlib.Core.Path.{subst}
use dunkos.LinkedList.{Mem}
use dunkos.Hashtable.Defs.{Hashtable, hashtable_init, hashtable_find, hashtable_insert}
use dunkos.Hashtable.Defs.{hashtable_remove}
use dunkos.Hashtable.Defs.{hashtable_destroy}
use dunkos.Hashtable.Visit.{destroy_lem, entries_from}
use dunkos.Hashtable.Init.{init-IsTable}
use dunkos.Hashtable.Refine.{IsTable, inserted, removed, find_lem, remove-IsTable, insert-IsTable}

abbrev garbage : Mem
garbage = record { prev = λ p. p; next = λ _. 7; size = λ _. 3 }

abbrev table : Hashtable
table = record { buckets = 10; entries = 0; bucket_con = 1000; fn = λ e. e; eq = ◌==◌ }

abbrev empty_memory : Mem
empty_memory = (hashtable_init 1000 (λ e. e) ◌==◌ garbage).1

table-IsTable : IsTable empty_memory table (λ i. [])
unfolding hashtable_init
table-IsTable = (init-IsTable 1000 (λ e. e) ◌==◌ garbage).2

abbrev with_42 : Hashtable × Mem
with_42 = hashtable_insert table 42 empty_memory

insert-IsTable_example :
    (with_42.0.entries ≡ 1) × IsTable with_42.1 with_42.0 (inserted table 42 (λ i. []))
insert-IsTable_example =
    insert-IsTable {m = empty_memory} {h = table} {f = λ i. []} 42 table-IsTable
      (λ i hi. ground arith) (omega arith)

-- The table with 42 in bucket 2.
abbrev one_table : Hashtable
one_table = record table { entries = 1 }

with_42-header : with_42.0 ≡ one_table
unfolding hashtable_insert hashtable_init
with_42-header = refl

one_table-IsTable : IsTable with_42.1 one_table (inserted table 42 (λ i. []))
one_table-IsTable =
    subst (λ h. IsTable with_42.1 h (inserted table 42 (λ i. []))) with_42-header
      (insert-IsTable {m = empty_memory} {h = table} {f = λ i. []} 42 table-IsTable
        (λ i hi. ground arith) (omega arith)).1

find_lem_example : hashtable_find one_table 42 with_42.1 ≡ 42
find_lem_example = find_lem {m = with_42.1} {h = one_table} 42 one_table-IsTable

remove-IsTable_example :
    let (h', m') = hashtable_remove one_table 42 with_42.1 in
    (h' ≡ one_table) × IsTable m' one_table (removed one_table 42 (inserted table 42 (λ i. [])))
remove-IsTable_example = remove-IsTable {m = with_42.1} {h = one_table} 42 one_table-IsTable

-- A destructor that notes the entries in order.
abbrev Noted : Type 0
Noted = Mem × List ℕ

abbrev note : ℕ → Noted → Noted
note e t = (t.0, t.1 ++ (e ∷ []))

abbrev links_of : Noted → Mem
links_of t = t.0

destroy_lem_example :
    hashtable_destroy links_of note one_table (λ e a. note e) 0 (with_42.1, [])
    ≡ (with_42.1, 42 ∷ 1000 ∷ [])
unfolding hashtable_insert entries_from
destroy_lem_example =
    destroy_lem links_of note (λ e t. refl) note one_table (inserted table 42 (λ i. [])) 0
      (with_42.1, []) one_table-IsTable
