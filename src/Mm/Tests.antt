-- ===== src/Mm/Tests.antt =====
-- The theorems on the memory manager at a small state: a fresh manager with a limit of 64 MB.
use czl.Prelude.{
  ℕ, ◌≡◌, ◌↔◌, ◌⊎◌, ◌<◌, ◌≢◌, ◌≤◌, ◌+◌, ◌-◌, ◌*◌, refl, true, false, none, some, List, [], ◌∷◌,
  ◌++◌, update, arith,
}
use czl.Mm.State.{
  add_ulong, sub_ulong, Gp, done, mm_1mb, sp_515b, sh_head_size, cache_range, cache_gap,
  cache_head_size,
}
use czl.Mm.Sizes.{SpType, sp_get, pool_init, max_of, sp_range}
use czl.Mm.Sizes.Classes.{min_of, sp_get_fits}
use czl.Mm.Sys.{IsSys, sys_alloc, sys_realloc, sys_release}
use czl.Mm.Sys.Laws.{sys_alloc-IsSys, sys_alloc-push, sys_release-remove}
use czl.Mm.Sys.Realloc.{sys_realloc-IsSys}
use czl.Mm.Cache.{
  IsCache, pools_init, cache_index, cache_alloc, alloc_at, cache_put, scan_from, idle_head,
  drop_head,
}
use czl.Mm.Cache.Index.{cache_index_iff}
use czl.Mm.Cache.Put.{freed, cache_put-IsCache}
use czl.Mm.Cache.Alloc.{allocated, Served, alloc_at-IsCache, cache_alloc-IsCache}
use czl.Mm.Cache.Scan.{pools_init-IsCache, tail_of, scan_from-IsCache}

abbrev blank : Gp
blank = record {
  cache_next = λ a. 0;
  cache_last = λ a. 0;
  cache_state = λ a. false;
  tag = λ a. none;
  pool_head = λ i. 0;
  pool_tail = λ i. 0;
  pool_size = λ i. 0;
  cache_count = 0;
  cache_flag = false;
  sys_next = λ a. 0;
  sys_last = λ a. 0;
  sys_size = λ a. 0;
  sh_head = 0;
  mm_cnt = 0;
  mm_limit = 64 * mm_1mb;
  mm_cache_size = 16 * mm_1mb;
  gc_size = 0;
}

abbrev no_blocks : ℕ → List ℕ
no_blocks i = []

abbrev ready : Gp
ready = (pools_init true blank).1

ready-IsCache : IsCache ready no_blocks
ready-IsCache = (pools_init-IsCache blank).2

ready-flag : ready.cache_flag ≡ true
ready-flag = (pools_init-IsCache blank).1

cache_alloc-IsCache_example :
    (i p : ℕ) × (g' : Gp) × (cache_alloc true 100 600 ready ≡ done p g')
    × (600 ≤ ready.pool_size i)
    × Served i p g'
    × IsCache g' (allocated 100 i 600 ready no_blocks)
cache_alloc-IsCache_example =
    cache_alloc-IsCache ready no_blocks true 100 600 ready-IsCache ready-flag (λ j. refl)
      (omega arith) (omega arith)

-- One block of pool 0, in use.
abbrev one : Gp
one = (alloc_at 100 0 600 ready).1

one-IsCache : IsCache one (allocated 100 0 600 ready no_blocks)
one-IsCache = alloc_at-IsCache ready no_blocks 100 0 600 ready-IsCache (λ j. refl)

cache_put-IsCache_example :
    ((cache_put 100 0 one).cache_state ≡ update one.cache_state 100 false)
    × IsCache
        (cache_put 100 0 one)
        (update (allocated 100 0 600 ready no_blocks) 0 (freed one 100 [] []))
unfolding pools_init
cache_put-IsCache_example =
    cache_put-IsCache one (allocated 100 0 600 ready no_blocks) 0 100 [] [] one-IsCache refl

-- The block is idle again.
abbrev idle : Gp
idle = cache_put 100 0 one

idle-IsCache : IsCache idle (update (allocated 100 0 600 ready no_blocks) 0 (freed one 100 [] []))
unfolding pools_init
idle-IsCache =
    (cache_put-IsCache one (allocated 100 0 600 ready no_blocks) 0 100 [] [] one-IsCache refl).1

-- A scan from pool 0 on finds the idle block.
scan_from-IsCache_example :
    let lists = update (allocated 100 0 600 ready no_blocks) 0 (freed one 100 [] []) in
    let (r, g') = scan_from 3 0 600 idle in
    ((r ≡ false) × (g' ≡ idle))
    ⊎ ((j : ℕ) × (r ≡ true)
        × (idle_head j idle ≡ true)
        × (600 ≤ cache_head_size + idle.pool_size j)
        × (g' ≡ drop_head j idle)
        × IsCache g' (update lists j (tail_of (lists j))))
scan_from-IsCache_example =
    scan_from-IsCache 3 0 600 idle
      (update (allocated 100 0 600 ready no_blocks) 0 (freed one 100 [] [])) idle-IsCache

cache_index_iff_example :
    (cache_index (λ i. sp_515b + (i + 1) * cache_gap) 700 ≡ some 1)
    ↔ ((1 < cache_range) × (sp_515b + 1 * cache_gap < 700) × (700 ≤ sp_515b + (1 + 1) * cache_gap))
cache_index_iff_example = cache_index_iff (λ i. sp_515b + (i + 1) * cache_gap) (λ i. refl) 700 1

sp_get_fits_example :
    let pools = pool_init 0 SpType.buf_sp in
    let k = sp_get 100 pools in
    (k < sp_range)
    × (min_of pools k ≤ 100)
    × (100 ≤ max_of pools k)
    × (9 * (max_of pools k - 100) ≤ 100 + 8)
sp_get_fits_example = sp_get_fits SpType.buf_sp 100 (omega arith) (omega arith)

blank-IsSys : IsSys blank []
blank-IsSys = record { links = tt; distinct = tt; head = refl; flags = tt }

abbrev large : Gp
large = (sys_alloc 5000 3000 blank).1

large-IsSys : IsSys large ([] ++ 5000 ∷ [])
large-IsSys =
    (sys_alloc-push 5000 3000 blank [] blank-IsSys (omega arith) refl (omega arith) (omega arith)).1

sys_release-remove_example :
    IsSys (sys_release 5000 large) ([] ++ [])
    × ((sys_release 5000 large).mm_cnt + large.sys_size 5000 ≡ large.mm_cnt)
unfolding sys_alloc
sys_release-remove_example =
    sys_release-remove [] [] 5000 large large-IsSys (omega arith) (omega arith)

abbrev idle_lists : ℕ → List ℕ
idle_lists = update (allocated 100 0 600 ready no_blocks) 0 (freed one 100 [] [])

sys_alloc-IsSys_example :
    let block : ℕ = 9000 in
    let (p, g') = sys_alloc 9000 4000 large in
    let total = add_ulong 4000 sh_head_size in
    (((large.mm_limit < add_ulong large.mm_cnt total) ⊎ (block ≡ 0)) × (p ≡ 0) × (g' ≡ large))
    ⊎ ((add_ulong large.mm_cnt total ≤ large.mm_limit)
        × (block ≢ 0)
        × (p ≡ 9000)
        × IsSys g' (9000 ∷ 5000 ∷ [])
        × (g'.sys_size 9000 ≡ total)
        × (g'.mm_cnt ≡ add_ulong large.mm_cnt total))
sys_alloc-IsSys_example = sys_alloc-IsSys 9000 4000 large (5000 ∷ []) large-IsSys refl

sys_realloc-IsSys_example :
    let block : ℕ = 9000 in
    let (q, g') = sys_realloc 9000 5000 4000 3000 large in
    let cnt = add_ulong (sub_ulong 4000 3000) large.mm_cnt in
    (((large.mm_limit < cnt) ⊎ (block ≡ 0)) × (q ≡ 0) × (g' ≡ large))
    ⊎ ((cnt ≤ large.mm_limit)
        × (block ≢ 0)
        × (q ≡ 9000)
        × IsSys g' ([] ++ 9000 ∷ [])
        × (g'.sys_size 9000 ≡ add_ulong sh_head_size 4000)
        × (g'.mm_cnt ≡ cnt))
sys_realloc-IsSys_example = sys_realloc-IsSys [] [] 5000 9000 4000 3000 large large-IsSys refl
