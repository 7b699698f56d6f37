-- ===== src/Mm/Cache.antt =====
-- The cache of middle-sized blocks (516 bytes to 1 MB) of code/czl_mm.c: one list of blocks for
-- each of 8188 sizes, idle blocks in front and busy blocks behind.
-- `fresh` is the payload of the block that malloc returns, 0 when it returns NULL.
pub mod Index
pub mod Laws
pub mod Put
pub mod Take
pub mod Alloc
pub mod Scan
pub mod Gc
use czl.Prelude.{
  ℕ, zero, suc, ◌+◌, ◌-◌, ◌*◌, ◌/◌, ◌≡◌, ◌<◌, Bool, true, false, ◌&&◌, ◌||◌, not, Option, none,
  some, ltb, leb, ◌==◌, if◌then◌else◌, update, All, List, [], ◌∷◌,
}
use czl.Dll.{first, final, Distinct, Seg}
use czl.Mm.State.{
  Gp, Run, done, fault, add_ulong, sub_ulong, sp_515b, mm_1mb, cache_range, cache_gap,
  cache_head_size, sizeof_cache_pool,
}
use czl.Mm.Sys.{sys_alloc, sys_release}

-- What a block of pool `i` takes: CZL_MM_CACHE_HEAD_SIZE+pool->size.
abbrev pub block_size : ℕ → Gp → ℕ
block_size i g = cache_head_size + g.pool_size i

-- czl_mm_cache_create: a block in use, at the end of the list of pool `index`.
unfoldable pub cache_create : (fresh : ℕ) → ℕ → Gp → ℕ × Gp
cache_create fresh index g =
    if fresh == 0
    then (0, g)
    else let empty = g.pool_head index == 0 in
      let tail = g.pool_tail index in
      let next = update g.cache_next fresh 0 in
      (
        fresh,
        record g {
          cache_state = update g.cache_state fresh true;
          tag = update g.tag fresh (some index);
          cache_next = if empty then next else update next tail fresh;
          cache_last = update g.cache_last fresh (if empty then 0 else tail);
          pool_head = if empty then update g.pool_head index fresh else g.pool_head;
          pool_tail = update g.pool_tail index fresh;
          cache_count = add_ulong g.cache_count (block_size index g);
          mm_cnt = add_ulong g.mm_cnt (block_size index g);
        },
      )

-- czl_mm_cache_pools_init; `got` says whether calloc returned the array.
unfoldable pub pools_init : (got : Bool) → Gp → Bool × Gp
pools_init got g =
    if got
    then (
      true,
      record g {
        pool_head = λ i. 0;
        pool_tail = λ i. 0;
        pool_size = λ i. sp_515b + (i + 1) * cache_gap;
        mm_cnt = add_ulong g.mm_cnt (cache_range * sizeof_cache_pool);
        cache_flag = true;
      },
    )
    else (false, g)

-- The loop of czl_mm_cache_index, on `l` and `h + 1` (`h` may be -1). Fuel counts the rounds.
unfoldable pub index_loop : ℕ → (ℕ → ℕ) → ℕ → (l h1 : ℕ) → Option ℕ
index_loop zero pool size l h1 = none
index_loop (suc k) pool size l h1 =
    let m = (l + h1 - 1) / 2 in
    let low = index_loop k pool size l m in
    let high = index_loop k pool size (m + 1) h1 in
    if leb size (pool m - cache_gap)
    then (if ltb l m then low else none)
    else if ltb (pool m) size
    then (if ltb (m + 1) h1 then high else none)
    else some m

-- czl_mm_cache_index; `none` is -1. Fourteen rounds halve 8188 places to none.
unfoldable pub cache_index : (ℕ → ℕ) → ℕ → Option ℕ
unfolding index_loop
cache_index pool size = index_loop 14 pool size 0 cache_range

-- The idle head of pool `i` is taken into use, and goes to the end unless it stands alone.
unfoldable pub reuse : ℕ → Gp → Gp
reuse i g =
    let node = g.pool_head i in
    let next = g.cache_next node in
    let tail = g.pool_tail i in
    let g' = record g { cache_state = update g.cache_state node true } in
    if next == 0 then g' else record g' {
      cache_last = update (update g.cache_last next 0) node tail;
      pool_head = update g.pool_head i next;
      cache_next = update (update g.cache_next node 0) tail node;
      pool_tail = update g.pool_tail i node;
    }

-- `node && !node->state` for the head of pool `i`.
abbrev pub idle_head : ℕ → Gp → Bool
idle_head i g = not (g.pool_head i == 0) && not (g.cache_state (g.pool_head i))

-- czl_mm_cache_alloc from the search on, for the pool that it found.
unfoldable pub alloc_at : (fresh : ℕ) → ℕ → ℕ → Gp → ℕ × Gp
alloc_at fresh i size g =
    if idle_head i g
    then (g.pool_head i, reuse i g)
    else if ltb g.mm_cache_size (add_ulong (add_ulong g.cache_count cache_head_size) size)
    then sys_alloc fresh size g
    else cache_create fresh i g

-- czl_mm_cache_alloc once the pools are there. With the index -1 it would read in front of them.
unfoldable pub cache_serve : (fresh : ℕ) → ℕ → Gp → Run ℕ
cache_serve fresh size g = elim (cache_index g.pool_size size) [
  | none ↦ fault
  | some i ↦ let (p, g') = alloc_at fresh i size g in done p g'
]

-- czl_mm_cache_alloc
unfoldable pub cache_alloc : (got : Bool) (fresh : ℕ) → ℕ → Gp → Run ℕ
cache_alloc got fresh size g =
    if g.cache_flag
    then cache_serve fresh size g
    else let (ready, g') = pools_init got g in
      if ready then cache_serve fresh size g' else done 0 g'

-- The head of pool `i` is taken out of the list and freed.
unfoldable pub drop_head : ℕ → Gp → Gp
drop_head i g =
    let next = g.cache_next (g.pool_head i) in
    record g {
      pool_head = update g.pool_head i next;
      cache_last = if next == 0 then g.cache_last else update g.cache_last next 0;
      pool_tail = if next == 0 then update g.pool_tail i 0 else g.pool_tail;
      cache_count = sub_ulong g.cache_count (block_size i g);
      mm_cnt = sub_ulong g.mm_cnt (block_size i g);
    }

-- The loop of czl_mm_cache_scan from pool `i` on, with the pools that are left as fuel.
unfoldable pub scan_from : ℕ → ℕ → ℕ → Gp → Bool × Gp
scan_from zero i size g = (false, g)
scan_from (suc k) i size g =
    let rest = scan_from k (i + 1) size g in
    if leb size (block_size i g) && idle_head i g then (true, drop_head i g) else rest

-- czl_mm_cache_scan. With the index -1 it reads in front of the pools.
unfoldable pub cache_scan : ℕ → Gp → Run Bool
unfolding scan_from
cache_scan size g =
    if ltb mm_1mb size || g.cache_count == 0
    then done false g
    else elim (cache_index g.pool_size size) [
      | none ↦ fault
      | some i ↦ let (r, g') = scan_from (cache_range - i) i size g in done r g'
    ]

-- The block `p` of pool `i`, which has one in front of it, goes to the front.
unfoldable pub to_front : ℕ → ℕ → Gp → Gp
to_front p i g =
    let last = g.cache_last p in
    let next = g.cache_next p in
    let head = g.pool_head i in
    record g {
      cache_next = update (update g.cache_next last next) p head;
      cache_last =
          update (update (if next == 0 then g.cache_last else update g.cache_last next last) p 0)
            head p;
      pool_tail = if next == 0 then update g.pool_tail i last else g.pool_tail;
      pool_head = update g.pool_head i p;
    }

-- czl_mm_cache_free for a block with an index: it becomes idle, and goes to the front if a busy
-- block stands in front of it.
unfoldable pub cache_put : ℕ → ℕ → Gp → Gp
cache_put p i g =
    let g' = record g { cache_state = update g.cache_state p false } in
    let last = g'.cache_last p in
    if not (last == 0) && g'.cache_state last then to_front p i g' else g'

-- czl_mm_cache_free, which hands a block with the flag -1 to czl_mm_sys_free (and the reverse).
unfoldable pub cache_free : ℕ → Gp → Gp
unfolding cache_put
cache_free p g = elim (g.tag p) [ none ↦ sys_release p g | some i ↦ cache_put p i g ]

-- Every busy block is followed by busy blocks only.
abbrev pub IdleFirst : (ℕ → Bool) → List ℕ → Type 0
IdleFirst state [] = Unit
IdleFirst state (x ∷ xs) = (state x ≡ true → All (λ a. state a ≡ true) xs) × IdleFirst state xs

-- Pool `i` links the blocks `xs`, and each carries its index.
pub record IsChain (g : Gp) (i : ℕ) (xs : List ℕ) : Type 0 where
  pub links : Seg g.cache_next g.cache_last 0 xs 0
  pub distinct : Distinct xs
  pub head : g.pool_head i ≡ first xs 0
  pub tail : g.pool_tail i ≡ final 0 xs
  pub tags : All (λ a. g.tag a ≡ some i) xs

-- Pool `i` holds the blocks `xs`, the idle ones in front.
pub record IsPool (g : Gp) (i : ℕ) (xs : List ℕ) : Type 0 where
  pub chain : IsChain g i xs
  pub idle_first : IdleFirst g.cache_state xs

-- The cache holds the blocks `xs i` in pool `i`, each pool with the size of its place.
pub record IsCache (g : Gp) (xs : ℕ → List ℕ) : Type 0 where
  pub sizes : (i : ℕ) → g.pool_size i ≡ sp_515b + (i + 1) * cache_gap
  pub pools : (i : ℕ) → IsPool g i (xs i)
