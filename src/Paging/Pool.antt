-- ===== src/Paging/Pool.antt =====
-- What allocation and release do to a pool's map.
use dunkos.Common.{ℕ, ◌+◌, ◌-◌, ◌*◌, ◌/◌, ◌%◌, ◌≤◌, ◌<◌, ◌≡◌, refl, ◌⊎◌, inl, inr, arith}
use dunkos.Common.{true, false, ◌&&◌, ◌==◌, ltb, leb, if◌then◌else◌, word_limit, Bool-cases}
use dunkos.Bitmap.{Bitmap, bitmap_npos, bitmap_test, bitmap_scan_and_flip}
use dunkos.Bitmap.Update.{test-set}
use dunkos.Bitmap.Scan.{IsFirstRun, NoRun, IsClaimed, scan_and_flip-IsClaimed}
use dunkos.Paging.Defs.{PagePool, page_size, page_pool_init, page_pool_alloc, page_pool_free}

-- The pages of the pool's map lie below the end of the address space.
abbrev pub FitsSpace : PagePool → Type 0
FitsSpace p =
    (0 < p.base)
    × (p.base + p.occupancy_map.bitcount * page_size ≤ word_limit)
    × (p.occupancy_map.bitcount < word_limit)

-- The outcome of an allocation that finds pages.
pub record IsAllocated (p : PagePool) (npages : ℕ) (page : ℕ) (p' : PagePool) : Type 0 where
  pub index : ℕ
  pub place : page ≡ p.base + index * page_size
  pub first : IsFirstRun p.occupancy_map false npages 0 index
  pub taken :
      (i : ℕ)
      → bitmap_test p'.occupancy_map i
        ≡ (if leb index i && ltb i (index + npages) then true else bitmap_test p.occupancy_map i)
  pub base : p'.base ≡ p.base
  pub bitcount : p'.occupancy_map.bitcount ≡ p.occupancy_map.bitcount

abbrev pub NoneFree : PagePool → ℕ → ℕ → PagePool → Type 0
NoneFree p npages page p' = (page ≡ 0) × (p' ≡ p) × NoRun p.occupancy_map false npages 0

-- For a pool inside the address space, page_pool_alloc returns the first run of free pages, which are
-- then taken, with no other page's state changed; or `NULL`, with the pool as it was, and there is no
-- run of that many free pages.
pub alloc-IsAllocated :
    (p : PagePool) (npages : ℕ)
    → FitsSpace p
    → let (page, p') = page_pool_alloc p npages in
      IsAllocated p npages page p' ⊎ NoneFree p npages page p'
unfolding page_pool_alloc
alloc-IsAllocated p npages (pos, fits, word) =
    let (r, map) = bitmap_scan_and_flip p.occupancy_map 0 npages false in
    go r map (scan_and_flip-IsClaimed p.occupancy_map 0 npages false word)
  where
    go :
        (r : ℕ) (map : Bitmap)
        → IsClaimed p.occupancy_map false npages 0 (r, map)
        → let page = if r == bitmap_npos then 0 else (p.base + r * page_size) % word_limit in
          let p' = record p { occupancy_map = map } in
          IsAllocated p npages page p' ⊎ NoneFree p npages page p'
    go r map (inl (f, count, bits)) = inl (record {
      index = r;
      place = ground (arith, f.inside);
      first = f;
      taken = bits;
      base = refl;
      bitcount = count;
    })
    go r map (inr (e, same, no_run)) = inr (ground (arith), ground arith, no_run)

free_index :
    (p p' : PagePool) (npages page : ℕ)
    → FitsSpace p
    → (a : IsAllocated p npages page p')
    → (page + word_limit - p'.base) % word_limit / page_size ≡ a.index
free_index p p' npages page (pos, fits, word) a = ground (arith, a.place, a.base, a.first.inside)

-- For a pool inside the address space, releasing what an allocation has returned makes every page's
-- state what it was before it.
pub free-alloc :
    (p p' : PagePool) (npages page i : ℕ)
    → FitsSpace p
    → IsAllocated p npages page p'
    → bitmap_test (page_pool_free p' page npages).occupancy_map i ≡ bitmap_test p.occupancy_map i
unfolding page_pool_free
free-alloc p p' npages page i fits a =
    rw (free_index p p' npages page fits a, test-set)
      (elim (Bool-cases (leb a.index i && ltb i (a.index + npages))) [
        | inl e ↦
            let (inside, clear) = a.first.run i (ground arith) (ground arith) in
            ground (arith, a.bitcount)
        | inr e ↦ ground (arith, a.taken i)
      ])

-- A pool that starts out as zeroes and is given some pages, inside the address space, keeps one for
-- its map, but the map has a bit for each of them; the last bit stands for the page right behind
-- the end of the pool.
pub last_page-behind :
    (p : PagePool) (pages base : ℕ) (words : ℕ → ℕ)
    → p.pages ≡ 0
    → 0 < pages
    → base + (pages + 1) * page_size ≤ word_limit
    → let p' = page_pool_init p pages base words in
      (p'.pages + 1 ≡ pages)
      × (p'.occupancy_map.bitcount ≡ pages)
      × (p'.base + p'.pages * page_size ≡ base + pages * page_size)
      × (p'.base + (p'.occupancy_map.bitcount - 1) * page_size ≡ base + pages * page_size)
unfolding page_pool_init
last_page-behind p pages base words zeroed some_page fits = rw zeroed (omega arith)
