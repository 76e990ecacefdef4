-- ===== src/Process/Pages.antt =====
-- The supplemental page table. A `struct page` is named by its address; its `bucket_elem` is 16 bytes
-- into it and its `alias_elem` 32, and a frame begins with its list of aliases. allocate_frame has no
-- return statement, so the frame is an argument.
use dunkos.Common.{ℕ, ◌+◌, ◌-◌, ◌*◌, ◌/◌, ◌%◌, ◌^◌, Bool, true, false, ◌&&◌, ◌||◌}
use dunkos.Common.{◌==◌, leb, ltb, if◌then◌else◌, update, word_limit}
use dunkos.LinkedList.{Mem, list_push_back}
use dunkos.Hashtable.{Hashtable, hashtable_init, hashtable_find, hashtable_insert}
use dunkos.Fdtable.{hash_uint64}
use dunkos.Paging.{page_size, phys_base, kernel_to_phys}
use dunkos.PageTable.{Words, pml4_map_address, pml4_clear_mapping}

pub data ReadonlyViolationPolicy : Type 0 where
  rovp_except rovp_copy : ReadonlyViolationPolicy

pub record Page : Type 0 where
  pub phys : ℕ
  pub useraddr : ℕ
  pub ondisk : Bool
  pub readonly : Bool
  pub rovp : ReadonlyViolationPolicy

-- A page table, and the memory that it stands in.
pub record Spt : Type 0 where
  pub con : Hashtable
  pub pml4 : ℕ
  pub pages : ℕ → Page
  pub links : Mem
  pub words : Words

-- `elem_value(e, struct page, bucket_elem)`
abbrev pub page_of : ℕ → ℕ
page_of e = (e + (word_limit - 16)) % word_limit

unfoldable pub page_equal : (ℕ → Page) → ℕ → ℕ → Bool
page_equal pages l r = (pages (page_of l)).useraddr == (pages (page_of r)).useraddr

unfoldable pub page_hash : (ℕ → Page) → ℕ → ℕ
unfolding hash_uint64
page_hash pages e = hash_uint64 (pages (page_of e)).useraddr

-- The callbacks read the pages as they are when the table is used.
abbrev pub page_callbacks : (ℕ → Page) → Spt → Hashtable
page_callbacks pages s = record (s.con) { fn = page_hash pages; eq = page_equal pages }

-- `buckets` is the array of the new table, and `pml4` what pml4_alloc returns.
unfoldable pub page_table_create : ℕ → ℕ → Spt → Spt
unfolding hashtable_init page_hash page_equal
page_table_create buckets pml4 s =
    let (con, links) = hashtable_init buckets (page_hash s.pages) (page_equal s.pages) s.links in
    record s { con = con; pml4 = pml4; links = links }

abbrev pub set_page : ℕ → Page → Spt → Spt
set_page a pg s = record s { pages = update s.pages a pg }

-- `frame_table` is the array of frames of 48 bytes, `user_base` what get_user_base returns.
unfoldable pub frame_to_kernaddr : ℕ → ℕ → ℕ → ℕ
frame_to_kernaddr frame_table user_base f =
    let upage_number = (f + (word_limit - frame_table)) % word_limit / 48 in
    (user_base + upage_number * page_size) % word_limit

abbrev copied_policy : ReadonlyViolationPolicy → ReadonlyViolationPolicy
copied_policy rovp_except = rovp_except
copied_policy rovp_copy = rovp_copy

-- `pg` is the new page and `table` the table that pml4_map_address may take; the frame is mapped at
-- its kernel address.
unfoldable pub page_copy : ℕ → ℕ → ℕ → ℕ → ℕ → Spt → Spt
unfolding list_push_back hashtable_insert pml4_map_address frame_to_kernaddr
page_copy frame_table user_base pg table src_e s =
    let src = s.pages (page_of src_e) in
    let copy : Page = record src { rovp = copied_policy src.rovp; readonly = true } in
    let s₁ = set_page pg copy s in
    let links = list_push_back copy.phys (pg + 32) s₁.links in
    let (con, links') = hashtable_insert (page_callbacks s₁.pages s₁) (pg + 16) links in
    let frame = frame_to_kernaddr frame_table user_base copy.phys in
    record s₁ {
      con = con;
      links = links';
      words = pml4_map_address table s.pml4 copy.useraddr frame s.words;
    }

unfoldable pub page_destroy : ℕ → Spt → Spt
unfolding pml4_clear_mapping
page_destroy e s = record s {
  words = pml4_clear_mapping s.pml4 (s.pages (page_of e)).useraddr s.words;
}

-- The page for an address that has none: what is put into the table is the address of the local
-- pointer, `pg_at`, not that of the page's element.
unfoldable pub insert_page : ℕ → ℕ → ℕ → Spt → Spt
unfolding hashtable_insert
insert_page fresh pg_at p s =
    let pg : Page = record {
      phys = 0;
      useraddr = p;
      ondisk = false;
      readonly = false;
      rovp = rovp_except;
    } in
    let s₁ = set_page fresh pg s in
    let (con, links) = hashtable_insert (page_callbacks s₁.pages s₁) pg_at s₁.links in
    record s₁ { con = con; links = links }

-- `key`, `pg_at` are the addresses of the locals, `fresh` the new page, `f` the frame.
unfoldable pub page_load : ℕ → ℕ → ℕ → ℕ → ℕ → ℕ → ℕ → ℕ → Spt → Spt
unfolding hashtable_find insert_page list_push_back pml4_map_address frame_to_kernaddr
    kernel_to_phys
page_load frame_table user_base key pg_at fresh table f p s =
    let with_key = update s.pages key (record (s.pages key) { useraddr = p }) in
    let pg_el = hashtable_find (page_callbacks with_key s) (key + 16) s.links in
    let pg = if pg_el == 0 then fresh else page_of pg_el in
    let s₁ = if pg_el == 0 then insert_page fresh pg_at p s else s in
    let s₂ = set_page pg (record (s₁.pages pg) { phys = f }) s₁ in
    record s₂ {
      links = list_push_back f (pg + 32) s₂.links;
      words =
          pml4_map_address table s.pml4 p
            (kernel_to_phys (frame_to_kernaddr frame_table user_base f)) s.words;
    }

-- The fields of the current process that say which addresses it may use, and its stack pointer.
pub record Bounds : Type 0 where
  pub code_segment_begin : ℕ
  pub code_segment_end : ℕ
  pub data_segment_begin : ℕ
  pub data_segment_end : ℕ
  pub heap_begin : ℕ
  pub heap_end : ℕ
  pub sp : ℕ

unfoldable pub page_within_segment : Bounds → ℕ → Bool
page_within_segment cur ptr =
    (leb cur.code_segment_begin ptr && ltb ptr cur.code_segment_end)
    || (leb cur.data_segment_begin ptr && ltb ptr cur.data_segment_end)

-- `STACKLIMIT` is 1 GB below `PHYSBASE`, where `MB` is 1024 KB and `GB` is `MB * MB`.
abbrev pub stack_limit : ℕ
stack_limit = phys_base - 2 ^ 40

unfoldable pub page_valid_stack : Bounds → ℕ → Bool
page_valid_stack cur ptr = leb stack_limit ptr && leb ((cur.sp + (word_limit - 8)) % word_limit) ptr

unfoldable pub page_within_heap : Bounds → ℕ → Bool
page_within_heap cur ptr = leb cur.heap_begin ptr && ltb ptr cur.heap_end

-- `user_limit` is the end of the kernel's image.
unfoldable pub page_is_valid : ℕ → Bounds → ℕ → Bool
unfolding page_within_segment page_valid_stack page_within_heap
page_is_valid user_limit cur ptr =
    leb user_limit ptr
    && (ltb ptr phys_base
        && (page_within_segment cur ptr || (page_valid_stack cur ptr || page_within_heap cur ptr)))
