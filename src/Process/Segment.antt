-- ===== src/Process/Segment.antt =====
-- Loading a segment defers each of its pages once.
use dunkos.Common.{ℕ, zero, suc, ◌+◌, ◌-◌, ◌*◌, ◌/◌, ◌%◌, ◌<◌, ◌≡◌, refl, ap, arith}
use dunkos.Common.{has, leb, ◌&&◌, ◌∙◌}
use dunkos.Common.{Bool, List, [], ◌∷◌, ltb, Bool-cases, inl, inr, word_limit}
use dunkos.Paging.{page_size}
use dunkos.Process.Exec.{Deferred, segment_loop, load_segment}

-- The calls for `n` pages from an address and an offset on.
unfoldable pub page_calls : ℕ → ℕ → ℕ → Bool → List Deferred
page_calls zero vaddr ofs readonly = []
page_calls (suc n) vaddr ofs readonly =
    record { vaddr = vaddr; ofs = ofs; readonly = readonly }
    ∷ page_calls n (vaddr + page_size) (ofs + page_size) readonly

-- The pages of a segment of `size` bytes that starts at a page.
abbrev pub pages_in : ℕ → ℕ
pages_in size = (size + (page_size - 1)) / page_size

segment_loop_lem :
    (fuel page ofs size : ℕ) (readonly : Bool)
    → size < suc fuel
    → page + pages_in size * page_size < word_limit
    → ofs + pages_in size * page_size < word_limit
    → segment_loop fuel page ofs size readonly ≡ page_calls (pages_in size) page ofs readonly
unfolding segment_loop page_calls
segment_loop_lem zero page ofs size readonly enough pages offsets =
    let none_left : pages_in size ≡ 0 = omega (arith, enough) in rw none_left refl
segment_loop_lem (suc fuel) page ofs size readonly enough pages offsets =
    elim (Bool-cases (ltb 0 size)) [
      | inl e ↦
          let some_left : 0 < size = ground (arith, e) in
          let more : pages_in size ≡ suc (pages_in (size - page_size)) = omega (arith, some_left) in
          let next_page : (page + page_size) % word_limit ≡ page + page_size =
            omega (arith, pages, more) in
          let next_ofs : (ofs + page_size) % word_limit ≡ ofs + page_size =
            omega (arith, offsets, more) in
          rw (segment_loop, e, more, next_page, next_ofs)
            (ap (λ rest. record { vaddr = page; ofs = ofs; readonly = readonly } ∷ rest)
              (segment_loop_lem fuel (page + page_size) (ofs + page_size) (size - page_size)
                readonly (omega (arith, enough, some_left)) (omega (arith, pages, more))
                (omega (arith, offsets, more))))
      | inr e ↦
          let none_left : pages_in size ≡ 0 = ground (arith, e) in
          rw (segment_loop, e, none_left) refl
    ]

-- The addresses of the calls.
abbrev pub vaddrs : List Deferred → List ℕ
vaddrs [] = []
vaddrs (d ∷ ds) = d.vaddr ∷ vaddrs ds

has-page_calls :
    (v n start ofs : ℕ) (readonly : Bool)
    → v % page_size ≡ 0
    → start % page_size ≡ 0
    → has v (vaddrs (page_calls n start ofs readonly))
      ≡ (leb start v && ltb v (start + n * page_size))
unfolding page_calls
has-page_calls v zero start ofs readonly hv hs = ground arith
has-page_calls v (suc n) start ofs readonly hv hs = ground (
  arith,
  has-page_calls v n (start + page_size) (ofs + page_size) readonly hv (omega (arith, hs)),
)

pages_in-cover :
    (v start size : ℕ)
    → v % page_size ≡ 0
    → start % page_size ≡ 0
    → (leb start v && ltb v (start + pages_in size * page_size))
      ≡ (leb start v && ltb v (start + size))
pages_in-cover v start size hv hs = ground arith

-- load_segment ends. For a segment that starts at a page, it calls page_defer_load for the pages
-- that the segment has bytes on and no others (`v` is the address of any page), in order: the first
-- for its first address and its place in the file, each other one page further in both. (Neither
-- the addresses nor the places in the file wrap around.)
pub load_segment-pages :
    (start ofs size v : ℕ) (readonly : Bool)
    → start % page_size ≡ 0
    → v % page_size ≡ 0
    → start + pages_in size * page_size < word_limit
    → ofs + pages_in size * page_size < word_limit
    → (load_segment start ofs size readonly ≡ page_calls (pages_in size) start ofs readonly)
      × (has v (vaddrs (load_segment start ofs size readonly))
          ≡ (leb start v && ltb v (start + size)))
unfolding load_segment
load_segment-pages start ofs size v readonly aligned page pages offsets =
    let calls = segment_loop_lem size start ofs size readonly (omega arith) pages offsets in
    (
      calls,
      rw calls (
          has-page_calls v (pages_in size) start ofs readonly page aligned
          ∙ pages_in-cover v start size page aligned),
    )
