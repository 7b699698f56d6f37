-- ===== src/Mm/State.antt =====
-- The part of czl_gp (code/czl_vm.h) that code/czl_mm.c keeps, and the blocks in memory.
-- A block is named by the address of its payload, 0 being NULL: the header stands a fixed number
-- of bytes before it (CZL_MM_CACHE_GET, CZL_MM_SYS_HEAP_GET). A field of the headers is a map from
-- addresses. The build is 32-bit, so an unsigned long wraps at 2 ^ 32.
use czl.Prelude.{ℕ, ◌+◌, ◌-◌, ◌*◌, ◌%◌, ◌^◌, Bool, Option}

abbrev pub word : ℕ
word = 2 ^ 32

-- `a + b` and `a - b` on unsigned long.
abbrev pub add_ulong : ℕ → ℕ → ℕ
add_ulong a b = (a + b) % word

abbrev pub sub_ulong : ℕ → ℕ → ℕ
sub_ulong a b = (a + word - b) % word

-- CZL_MM_SP_515B, CZL_MM_1MB, CZL_MM_CACHE_RANGE, CZL_MM_CACHE_GAP, and the sizes of the headers.
abbrev pub sp_515b : ℕ
sp_515b = 515

abbrev pub mm_1mb : ℕ
mm_1mb = 1024 * 1024

abbrev pub cache_range : ℕ
cache_range = 8188

abbrev pub cache_gap : ℕ
cache_gap = 128

abbrev pub cache_head_size : ℕ
cache_head_size = 12

abbrev pub sh_head_size : ℕ
sh_head_size = 16

-- sizeof(czl_mm_cache_pool): two pointers and an unsigned long.
abbrev pub sizeof_cache_pool : ℕ
sizeof_cache_pool = 12

pub record Gp : Type 0 where
  -- czl_mm_cache: next, last, and state (nonzero while the block is in use)
  pub cache_next : ℕ → ℕ
  pub cache_last : ℕ → ℕ
  pub cache_state : ℕ → Bool
  -- the short in front of a payload: `none` for -1, the flag of a system block, and `some i` for
  -- the index of a cached block (czl_mm.h keeps the two at one offset)
  pub tag : ℕ → Option ℕ
  -- czl_mm_cache_pool, one for each index
  pub pool_head : ℕ → ℕ
  pub pool_tail : ℕ → ℕ
  pub pool_size : ℕ → ℕ
  -- czl_mm_cache_handle
  pub cache_count : ℕ
  pub cache_flag : Bool
  -- czl_mm_sys_heap: next, last, size
  pub sys_next : ℕ → ℕ
  pub sys_last : ℕ → ℕ
  pub sys_size : ℕ → ℕ
  -- mmp_sh_head, mm_cnt, mm_limit, mm_cache_size, mmp_gc_size
  pub sh_head : ℕ
  pub mm_cnt : ℕ
  pub mm_limit : ℕ
  pub mm_cache_size : ℕ
  pub gc_size : ℕ

-- What a function of czl_mm.c does: it returns, or it reads outside an array.
pub data Run (A : Type 0) : Type 0 where
  done : A → Gp → Run A
  fault : Run A
