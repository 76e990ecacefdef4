-- ===== src/PageTable/Copy.antt =====
-- Copying the lowest tables: the same pages, present as before, writable unless copied on write.
use Prim.Native.Nat.{bit_and, bit_or}
use dunkos.Common.{ℕ, zero, suc, ◌+◌, ◌-◌, ◌%◌, ◌<◌, ◌≤◌, ◌≡◌, refl, ap, sym, ◌∙◌, arith}
use mathlib.Core.Path.{subst}
use dunkos.Common.{Bool, true, false, not, ◌&&◌, ◌||◌, ◌==◌, ltb, leb, if◌then◌else◌, update}
use dunkos.Common.{◌≢◌, inl, inr, Bool-cases, word_limit, ==-refl}
use dunkos.Common.Bits.{test_bit, test_bit-and, test_bit-or, bit_and-pow}
use dunkos.Common.Bits.Masks.{bit_and-le, bit_or-le-add}
use dunkos.PageTable.Defs.{Words, entry, table_of, copied_entry, copy_entries, pml_copy, Copying}
use dunkos.PageTable.Index.{table_of_lem, table_of-join}

-- A bit of a copied entry among the lowest ones.
module _ (e : ℕ) (cow : Bool) where
  copied-bit :
      (k : ℕ)
      → test_bit (word_limit - 0x1000) k ≡ false
      → test_bit (copied_entry (table_of e) e cow) k
        ≡ ((test_bit e k && test_bit 0xFFD k) || test_bit (if cow then 0 else 2) k)
  unfolding copied_entry table_of
  copied-bit k low = ground (
    arith,
    test_bit-or k (bit_and e (word_limit - 0x1000))
        (bit_or (bit_and e 0xFFD) (if cow then 0 else 2)),
    test_bit-or k (bit_and e 0xFFD) (if cow then 0 else 2),
    test_bit-and k e (word_limit - 0x1000),
    test_bit-and k e 0xFFD,
  )

  copied-writable : (bit_and (copied_entry (table_of e) e cow) 2 == 0) ≡ cow
  unfolding test_bit
  copied-writable =
      bit_and-pow 1 (copied_entry (table_of e) e cow) ∙ ap not (copied-bit 1 refl) ∙ go cow
    where
      go :
          (c : Bool)
          → not ((test_bit e 1 && test_bit 0xFFD 1) || test_bit (if c then 0 else 2) 1) ≡ c
      go true = ground arith
      go false = ground arith

  copied-present : (bit_and (copied_entry (table_of e) e cow) 1 == 0) ≡ (bit_and e 1 == 0)
  unfolding test_bit
  copied-present =
      bit_and-pow 0 (copied_entry (table_of e) e cow)
      ∙ ap not (copied-bit 0 refl)
      ∙ go cow
      ∙ sym (bit_and-pow 0 e)
    where
      go :
          (c : Bool)
          → not ((test_bit e 0 && test_bit 0xFFD 0) || test_bit (if c then 0 else 2) 0)
            ≡ not (test_bit e 0)
      go true = ground arith
      go false = ground arith

  copied-table_of : e < word_limit → table_of (copied_entry (table_of e) e cow) ≡ table_of e
  unfolding copied_entry
  copied-table_of small =
      let t = table_of e in
      let shape = table_of_lem e small in
      table_of-join t (bit_or (bit_and e 0xFFD) (if cow then 0 else 2)) (omega (arith, shape))
        (omega (arith, shape)) (low cow)
    where
      low : (c : Bool) → bit_or (bit_and e 0xFFD) (if c then 0 else 2) < 4096
      low true = omega (arith, bit_or-le-add (bit_and e 0xFFD) 0, bit_and-le e 0xFFD)
      low false = omega (arith, bit_or-le-add (bit_and e 0xFFD) 2, bit_and-le e 0xFFD)

-- Copying between two pages: what the loop from entry `i` on writes.
module _ (dest src : ℕ) (cow : Bool) (hd : dest % 4096 ≡ 0) (hs : src % 4096 ≡ 0)
    (ne : dest ≢ src) where
  copy_entries-at :
      (left i j : ℕ) (mem : Words)
      → i + left ≤ 512
      → j < 512
      → copy_entries left i dest src cow mem (entry dest j) ≡ (
          if leb i j && ltb j (i + left)
          then copied_entry (table_of (mem (entry src j))) (mem (entry src j)) cow
          else mem (entry dest j))
  unfolding copy_entries
  copy_entries-at zero i j mem room h = ground arith
  copy_entries-at (suc left) i j mem room h =
      let e = mem (entry src i) in
      let v = copied_entry (table_of e) e cow in
      let mem' = update mem (entry dest i) v in
      elim (Bool-cases (j == i)) [
        | inl p ↦
            let p' : i ≡ j = ground arith in
            let before : leb (i + 1) i ≡ false = ground arith in
            let inside : (leb i i && ltb i (i + suc left)) ≡ true = ground arith in
            subst
              (λ k. copy_entries (suc left) i dest src cow mem (entry dest k) ≡ (
                if leb i k && ltb k (i + suc left)
                then copied_entry (table_of (mem (entry src k))) (mem (entry src k)) cow
                else mem (entry dest k)))
              p'
              (copy_entries-at left (i + 1) i mem' (omega arith) (omega arith)
                ∙ rw (before, inside, ==-refl (entry dest i)) refl)
        | inr p ↦
            let src_kept : (entry src j == entry dest i) ≡ false = ground arith in
            let dest_kept : (entry dest j == entry dest i) ≡ false = ground arith in
            let behind : (leb (i + 1) j && ltb j (i + 1 + left))
                ≡ (leb i j && ltb j (i + suc left)) =
              ground arith in
            copy_entries-at left (i + 1) j mem' (omega arith) h
            ∙ rw (src_kept, dest_kept, behind) refl
      ]

-- Copying a lowest table to another page: every entry names the same page and is present or not as
-- before, and it is writable exactly when the copy is not to be made on write. (The entries are
-- words.)
pub lowest-copy :
    (dest src j : ℕ) (cow : Bool) (c : Copying)
    → dest % 4096 ≡ 0
    → src % 4096 ≡ 0
    → dest ≢ src
    → j < 512
    → c.mem (entry src j) < word_limit
    → let e = c.mem (entry src j) in
      let e' = (pml_copy 0 dest src cow c).mem (entry dest j) in
      (table_of e' ≡ table_of e)
      × ((bit_and e' 1 == 0) ≡ (bit_and e 1 == 0))
      × ((bit_and e' 2 == 0) ≡ cow)
unfolding pml_copy
lowest-copy dest src j cow c hd hs ne h small =
    let e = c.mem (entry src j) in
    let inside : (leb 0 j && ltb j (0 + 512)) ≡ true = ground arith in
    let same : copy_entries 512 0 dest src cow c.mem (entry dest j)
        ≡ copied_entry (table_of e) e cow =
      copy_entries-at dest src cow hd hs ne 512 0 j c.mem (omega arith) h ∙ rw inside refl in
    rw same (copied-table_of e cow small, copied-present e cow, copied-writable e cow)
