-- ===== src/LinkedList/Tests.antt =====
-- The list theorems on a list of two elements.
use dunkos.Common.{ℕ, ◌+◌, refl, arith, [], ◌∷◌, ltb}
use dunkos.LinkedList.Defs.{Mem, list_init, list_push_back, list_remove}
use dunkos.LinkedList.Defs.{list_insert_ordered}
use dunkos.LinkedList.Chain.{footprint, IsList, SameOutside}
use dunkos.LinkedList.Insert.{init-IsList, push_back-IsList}
use dunkos.LinkedList.Remove.{remove-IsList}

abbrev blank : Mem
blank = record { prev = λ _. 0; next = λ _. 0; size = λ _. 0 }

abbrev one_item : Mem
one_item = list_push_back 100 200 (list_init 100 blank)

abbrev two_items : Mem
two_items = list_push_back 100 300 one_item

one_item-IsList : IsList one_item 100 (200 ∷ [])
one_item-IsList =
    (push_back-IsList {m = list_init 100 blank} {li = 100} {el = 200} [] (init-IsList blank 100)
      refl (omega arith)).0

two_items-IsList : IsList two_items 100 (200 ∷ 300 ∷ [])
two_items-IsList =
    (push_back-IsList {m = one_item} {li = 100} {el = 300} (200 ∷ []) one_item-IsList refl
      (omega arith)).0

push_back-IsList_example :
    IsList two_items 100 (200 ∷ 300 ∷ [])
    × SameOutside (300 ∷ footprint 100 (200 ∷ [])) 100 one_item two_items
push_back-IsList_example =
    push_back-IsList {m = one_item} {li = 100} {el = 300} (200 ∷ []) one_item-IsList refl
      (omega arith)

remove-IsList_example :
    IsList (list_remove 100 200 two_items) 100 (300 ∷ [])
    × SameOutside (footprint 100 (200 ∷ 300 ∷ [])) 100 two_items (list_remove 100 200 two_items)
remove-IsList_example = remove-IsList {m = two_items} {li = 100} [] 200 (300 ∷ []) two_items-IsList

abbrev add_to : ℕ → ℕ → ℕ
add_to x s = s + x

abbrev after_insert : Mem
after_insert = list_insert_ordered ltb 3 100 250 two_items
