-- ===== src/Palloc.antt =====
-- threads/palloc.c: two pools of pages, a bit for each page. Addresses are 32-bit numbers and NULL is 0.
-- The lock of a pool makes each use of its bitmap one step; the bytes of the pages are in `memory`, apart
-- from the bitmaps. `none` is a failed ASSERT or a PANIC.
pub mod Laws
pub mod Free
use Prim.Native.Nat.{bit_and}
use project_pintos.Base.{
  ℕ, ◌+◌, ◌-◌, ◌*◌, ◌/◌, ◌%◌, ◌^◌, ◌==◌, ltb, leb, Bool, true, false, not, ◌&&◌, ◌||◌,
  if◌then◌else◌, List, Option, none, some,
}
use project_pintos.Sched.{◌>>=◌, ◌>>◌, assert}
use project_pintos.Bitmap.{
  Bitmap, bitmap_size, bitmap_scan_and_flip, bitmap_set_multiple, bitmap_all, bitmap_buf_size,
  bitmap_create_in_buf,
}

-- `PGSIZE`, `PHYS_BASE`.
abbrev pub page_size : ℕ
page_size = 4096

abbrev pub phys_base : ℕ
phys_base = 3221225472

-- `pg_ofs`, `pg_no` of threads/vaddr.h.
unfoldable pub pg_ofs : ℕ → ℕ
pg_ofs va = va % page_size

unfoldable pub pg_no : ℕ → ℕ
pg_no va = va / page_size

-- `ptov`.
unfoldable pub ptov : ℕ → Option ℕ
ptov paddr = do assert (ltb paddr phys_base); some ((paddr + phys_base) % 2 ^ 32)

-- `PAL_ASSERT`, `PAL_ZERO`, `PAL_USER`, and the test of a flag.
abbrev pub pal_assert : ℕ
pal_assert = 1

abbrev pub pal_zero : ℕ
pal_zero = 2

abbrev pub pal_user : ℕ
pal_user = 4

abbrev pub has_flag : ℕ → ℕ → Bool
has_flag flags flag = not (bit_and flags flag == 0)

-- `struct pool`.
pub record Pool : Type 0 where
  pub used_map : Bitmap
  pub base : ℕ

-- `kernel_pool`, `user_pool` and the bytes of memory.
pub record Pools : Type 0 where
  pub kernel_pool : Pool
  pub user_pool : Pool
  pub memory : ℕ → ℕ

-- `memset`.
abbrev pub memset : ℕ → ℕ → ℕ → (ℕ → ℕ) → ℕ → ℕ
memset dst value size memory a = if leb dst a && ltb a (dst + size) then value else memory a

-- `page_from_pool`.
unfoldable pub page_from_pool : Pool → ℕ → Bool
unfolding pg_no bitmap_size
page_from_pool pool page =
    let start_page = pg_no pool.base in
    let end_page = (start_page + bitmap_size pool.used_map) % 2 ^ 32 in
    leb start_page (pg_no page) && ltb (pg_no page) end_page

-- `init_pool`, where the memory at `base` holds `elems` as elements of a bitmap.
unfoldable pub init_pool : List ℕ → ℕ → ℕ → Option Pool
unfolding bitmap_buf_size bitmap_create_in_buf
init_pool elems base page_cnt = do
  let bm_pages = (bitmap_buf_size page_cnt + (page_size - 1)) / page_size
  assert (leb bm_pages page_cnt)
  made ← bitmap_create_in_buf (page_cnt - bm_pages) elems (bm_pages * page_size)
  some (record { used_map = made; base = (base + bm_pages * page_size) % 2 ^ 32 })

-- `palloc_init`, with what the memory holds at the starts of the pools.
unfoldable pub palloc_init : List ℕ → List ℕ → ℕ → ℕ → (ℕ → ℕ) → Option Pools
unfolding ptov init_pool
palloc_init kernel_elems user_elems init_ram_pages user_page_limit memory = do
  free_start ← ptov (1024 * 1024)
  free_end ← ptov (init_ram_pages * page_size)
  let free_pages = (free_end - free_start) / page_size
  let half = free_pages / 2
  let user_pages = if ltb user_page_limit half then user_page_limit else half
  let kernel_pages = free_pages - user_pages
  kernel ← init_pool kernel_elems free_start kernel_pages
  user ← init_pool user_elems (free_start + kernel_pages * page_size) user_pages
  some (record { kernel_pool = kernel; user_pool = user; memory = memory })

-- The pool that the flags name, and the pools with it replaced.
abbrev pub pool_of : Bool → Pools → Pool
pool_of user s = if user then s.user_pool else s.kernel_pool

abbrev pub with_pool : Bool → Pool → Pools → Pools
with_pool user pool s =
    if user then record s { user_pool = pool } else record s { kernel_pool = pool }

-- `palloc_get_multiple`: the pages, 0 for NULL.
unfoldable pub palloc_get_multiple : ℕ → ℕ → Pools → Option (ℕ × Pools)
unfolding bitmap_scan_and_flip
palloc_get_multiple flags page_cnt s =
    let user = has_flag flags pal_user in
    let pool = pool_of user s in
    if page_cnt == 0 then some (0, s) else (do
      (page_idx, b) ← bitmap_scan_and_flip 0 page_cnt false pool.used_map
      let s' = with_pool user (record pool { used_map = b }) s
      let pages = elim page_idx as (λ _. ℕ) [
        | none ↦ 0
        | some i ↦ (pool.base + page_size * i) % 2 ^ 32
      ]
      if not (pages == 0)
          then some (
            pages,
            if has_flag flags pal_zero
                then record s' { memory = memset pages 0 (page_size * page_cnt) s'.memory }
                else s',
          )
          else (if has_flag flags pal_assert then none else some (pages, s')))

unfoldable pub palloc_get_page : ℕ → Pools → Option (ℕ × Pools)
unfolding palloc_get_multiple
palloc_get_page flags s = palloc_get_multiple flags 1 s

-- The part of `palloc_free_multiple` after the choice of the pool.
unfoldable pub free_in : Bool → ℕ → ℕ → Pools → Option Pools
unfolding pg_no bitmap_all bitmap_set_multiple
free_in user pages page_cnt s = do
  let pool = pool_of user s
  let page_idx = pg_no pages - pg_no pool.base
  used ← bitmap_all page_idx page_cnt pool.used_map
  assert used
  b ← bitmap_set_multiple page_idx page_cnt false pool.used_map
  some (record (with_pool user (record pool { used_map = b }) s) {
    memory = memset pages 204 (page_size * page_cnt) s.memory;
  })

-- `palloc_free_multiple`.
unfoldable pub palloc_free_multiple : ℕ → ℕ → Pools → Option Pools
unfolding pg_ofs page_from_pool free_in
palloc_free_multiple pages page_cnt s = do
  assert (pg_ofs pages == 0)
  if pages == 0 || page_cnt == 0
      then some s
      else if page_from_pool s.kernel_pool pages
      then free_in false pages page_cnt s
      else if page_from_pool s.user_pool pages
      then free_in true pages page_cnt s
      else none

unfoldable pub palloc_free_page : ℕ → Pools → Option Pools
unfolding palloc_free_multiple
palloc_free_page page s = palloc_free_multiple page 1 s
