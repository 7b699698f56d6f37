-- ===== src/Mm/Cache/Gc.antt =====
-- czl_mm_cache_gc of code/czl_mm.c: idle blocks are freed, pool after pool, until enough is free.
-- `malloc_ok` says whether the trial malloc(size) succeeds in a state, and `fuel` bounds the blocks
-- of a pool.
use czl.Prelude.{
  ℕ, zero, suc, ◌+◌, ◌≡◌, ◌≢◌, ◌⊎◌, ◌≤◌, ◌<◌, Bool, true, false, ◌||◌, List, [], ◌∷◌, length, All,
  leb, ◌==◌, if◌then◌else◌,
}
use czl.Mm.State.{Gp, sub_ulong, cache_range}
use czl.Mm.Cache.{IsCache, idle_head, drop_head}

-- Whether the collection stops after a block: enough was freed since the start, when mm_cnt was
-- `cnt`, or malloc has room again.
abbrev pub enough : (Gp → Bool) → ℕ → Gp → Bool
enough malloc_ok cnt g = leb g.gc_size (sub_ulong cnt g.mm_cnt) || malloc_ok g

-- The inner loop, on pool `i`; the result says whether the collection stopped.
unfoldable pub gc_pool : ℕ → (Gp → Bool) → ℕ → ℕ → Gp → Bool × Gp
gc_pool zero malloc_ok cnt i g = (false, g)
gc_pool (suc fuel) malloc_ok cnt i g =
    let g' = drop_head i g in
    let rest = gc_pool fuel malloc_ok cnt i g' in
    if idle_head i g then if enough malloc_ok cnt g' then (true, g') else rest else (false, g)

-- The outer loop, on the `n` pools from `i` on.
unfoldable pub gc_from : ℕ → (fuel : ℕ) → (Gp → Bool) → ℕ → ℕ → Gp → Bool × Gp
gc_from zero fuel malloc_ok cnt i g = (false, g)
gc_from (suc n) fuel malloc_ok cnt i g =
    let step = gc_pool fuel malloc_ok cnt i g in
    let rest = gc_from n fuel malloc_ok cnt (i + 1) step.1 in if step.0 then step else rest

unfoldable pub cache_gc : (fuel : ℕ) → (Gp → Bool) → Gp → Gp
cache_gc fuel malloc_ok g =
    if g.cache_count == 0 then g else (gc_from cache_range fuel malloc_ok g.mm_cnt 0 g).1

-- What one pool's loop does: the cache stays well formed, no pool grows, no other pool's head
-- changes its state, and the loop stops because enough is free or no idle block heads the pool.
abbrev pub Collected : (most : ℕ) → (Gp → Bool) → (cnt i : ℕ) → Gp → Bool × Gp → Type 0
Collected most malloc_ok cnt i g out =
    ((lists : ℕ → List ℕ) × IsCache out.1 lists × ((j : ℕ) → length (lists j) ≤ most))
    × (((out.0 ≡ true) × (enough malloc_ok cnt out.1 ≡ true))
        ⊎ ((out.0 ≡ false) × (idle_head i out.1 ≡ false)))
    × ((j : ℕ) → j ≢ i → idle_head j out.1 ≡ idle_head j g)

abbrev pub places : (n i : ℕ) → List ℕ
places zero i = []
places (suc n) i = i ∷ places n (i + 1)

-- The same for the pools from `i` on; those in front keep their heads' states.
abbrev pub Swept : (most n : ℕ) → (Gp → Bool) → (cnt i : ℕ) → Gp → Bool × Gp → Type 0
Swept most n malloc_ok cnt i g out =
    ((lists : ℕ → List ℕ) × IsCache out.1 lists × ((j : ℕ) → length (lists j) ≤ most))
    × ((enough malloc_ok cnt out.1 ≡ true) ⊎ All (λ j. idle_head j out.1 ≡ false) (places n i))
    × ((j : ℕ) → j < i → idle_head j out.1 ≡ idle_head j g)
