-- ===== src/Hashtable/Init.antt =====
-- hashtable_init makes an empty table.
use dunkos.Common.{ℕ, zero, suc, ◌+◌, ◌<◌, ◌≡◌, refl, ◌≢◌, inl, inr, arith, sym}
use dunkos.Common.{Bool, ◌==◌, Bool-cases, [], ◌∈◌, ◌∉◌}
use mathlib.Core.Path.{subst}
use dunkos.LinkedList.{Mem, list_init}
use dunkos.LinkedList.Chain.{footprint, IsList, IsList-frame, SameOutside}
use dunkos.LinkedList.Insert.{init-IsList}
use dunkos.Hashtable.Defs.{bucket_at, init_loop, hashtable_init}
use dunkos.Hashtable.Refine.{IsTable}

-- Initialising a list changes pointers of its two sentinels only.
pub init-SameOutside : (m : Mem) (li : ℕ) → SameOutside (footprint li []) li m (list_init li m)
unfolding list_init
init-SameOutside m li = record {
  next = λ q out. ground arith;
  prev = λ q out. ground arith;
  size = λ l ne. ground arith;
}

-- The sentinels of two buckets of an array are apart.
buckets_apart :
    (con i j q : ℕ)
    → i ≢ j
    → q ∈ footprint (bucket_at con i) []
    → q ∉ footprint (bucket_at con j) []
buckets_apart con i j q ne h = ground arith

module _ (con : ℕ) where
  init_loop-IsList :
      (left i : ℕ) (m : Mem)
      → ((j : ℕ) → j < i → IsList m (bucket_at con j) [])
      → (j : ℕ) → j < i + left
      → IsList (init_loop con left i m) (bucket_at con j) []
  unfolding init_loop
  init_loop-IsList zero i m done j h = done j (omega arith)
  init_loop-IsList (suc left) i m done j h =
      init_loop-IsList left (i + 1) (list_init (bucket_at con i) m) more j (omega arith)
    where
      more : (k : ℕ) → k < i + 1 → IsList (list_init (bucket_at con i) m) (bucket_at con k) []
      more k lt = elim (Bool-cases (k == i)) [
        | inl e ↦
            let e' : k ≡ i = ground arith in
            subst (λ n. IsList (list_init (bucket_at con i) m) (bucket_at con n) []) (sym e')
              (init-IsList m (bucket_at con i))
        | inr e ↦
            IsList-frame [] (footprint (bucket_at con i) []) (init-SameOutside m (bucket_at con i))
              (ground arith) (λ q hq. buckets_apart con k i q (ground arith) hq)
              (done k (ground arith))
      ]

-- hashtable_init makes a table with ten empty buckets and no entries, wherever the array of buckets
-- is and whatever memory holds there.
pub init-IsTable :
    (con : ℕ) (fn : ℕ → ℕ) (eq : ℕ → ℕ → Bool) (m : Mem)
    → let (h, m') = hashtable_init con fn eq m in
      (h.buckets ≡ 10) × (h.entries ≡ 0) × IsTable m' h (λ i. [])
unfolding hashtable_init
init-IsTable con fn eq m = (
  refl,
  refl,
  record {
    some_bucket = omega arith;
    bucket = λ i hi. init_loop-IsList con 10 0 m (λ j lt. absurd (omega arith)) i hi;
    apart = λ i j hi hj ne q hq. buckets_apart con i j q ne hq;
    placed = λ i x hi hx. absurd (ground arith);
  },
)
