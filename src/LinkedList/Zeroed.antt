-- ===== src/LinkedList/Zeroed.antt =====
-- A list that was zeroed and not initialised is an empty list to list_push_back.
use dunkos.Common.{ℕ, ◌≡◌, arith, [], ◌∷◌}
use dunkos.Common.{◌∉◌}
use dunkos.LinkedList.Defs.{Mem, list_empty, list_push_back}
use dunkos.LinkedList.Chain.{footprint, IsList}

-- list_push_back on a list of size 0, whatever its other fields are, makes the list of the element.
pub push_back_first :
    (m : Mem) (li el : ℕ)
    → m.size li ≡ 0
    → el ∉ footprint li []
    → IsList (list_push_back li el m) li (el ∷ [])
unfolding list_push_back list_empty
push_back_first m li el none fresh = rw none (record {
  chain = ground arith;
  distinct = ground arith;
  size = ground (arith, none);
  small = omega arith;
})
