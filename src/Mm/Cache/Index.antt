-- ===== src/Mm/Cache/Index.antt =====
-- The binary search of czl_mm_cache_index.
use czl.Prelude.{
  ℕ, zero, suc, ◌+◌, ◌-◌, ◌*◌, ◌/◌, ◌≤◌, ◌<◌, ◌^◌, ◌≡◌, ◌↔◌, inl, inr, Option-cases, none, some,
  arith,
}
use czl.Mm.State.{sp_515b, cache_range, cache_gap, mm_1mb}
use czl.Mm.Cache.{index_loop, cache_index}

module _ (pool : ℕ → ℕ) (sizes : (i : ℕ) → pool i ≡ sp_515b + (i + 1) * cache_gap) (size : ℕ) where
  -- With the place inside the window, the loop finds it.
  index_loop-some :
      (k l h i : ℕ)
      → l ≤ i
      → i < h
      → h - l < 2 ^ k
      → sp_515b + i * cache_gap < size
      → size ≤ sp_515b + (i + 1) * cache_gap
      → index_loop k pool size l h ≡ some i
  unfolding index_loop
  index_loop-some zero l h i a b fuel lo hi = absurd (omega arith)
  index_loop-some (suc k) l h i a b fuel lo hi =
      let m = (l + h - 1) / 2 in
      ground (arith, sizes m, index_loop-some k l m i, index_loop-some k (m + 1) h i)

  -- What the loop returns is a place of the window whose size fits.
  index_loop_sound :
      (k l h i : ℕ)
      → index_loop k pool size l h ≡ some i
      → l < h
      → (i < h) × (sp_515b + i * cache_gap < size) × (size ≤ sp_515b + (i + 1) * cache_gap)
  unfolding index_loop
  index_loop_sound zero l h i e b = cc
  index_loop_sound (suc k) l h i e b =
      let m = (l + h - 1) / 2 in
      ground (arith, sizes m, index_loop_sound k l m i, index_loop_sound k (m + 1) h i)

  -- The binary search returns the index i exactly when the size lies above the sizes of pool i - 1
  -- and not above those of pool i, for one of the 8188 pools; for every other size (515 bytes and
  -- less, or more than the largest pool) it returns -1. Fourteen rounds are enough for all of them.
  pub cache_index_iff :
      (i : ℕ)
      → (cache_index pool size ≡ some i) ↔ (
          (i < cache_range)
          × (sp_515b + i * cache_gap < size)
          × (size ≤ sp_515b + (i + 1) * cache_gap))
  unfolding cache_index
  cache_index_iff i = (
    λ e. index_loop_sound 14 0 cache_range i e (omega arith),
    λ (a, b, c). index_loop-some 14 0 cache_range i (omega arith) a (omega arith) b c,
  )

  -- Every size from 516 bytes to 1 MB has a pool.
  pub cache_index_total :
      sp_515b < size
      → size ≤ mm_1mb
      → (i : ℕ) × (cache_index pool size ≡ some i) × (size ≤ sp_515b + (i + 1) * cache_gap)
  cache_index_total lo hi =
      let i = (size - sp_515b - 1) / cache_gap in
      let fits : size ≤ sp_515b + (i + 1) * cache_gap = omega arith in
      (i, (cache_index_iff i).1 (omega arith, omega arith, fits), fits)

  -- A size of 515 bytes or less has none.
  pub cache_index_small : size ≤ sp_515b → cache_index pool size ≡ none
  cache_index_small small = elim (Option-cases (cache_index pool size)) [
    | inl e ↦ e
    | inr (i, e) ↦ absurd (let (a, b, c) = (cache_index_iff i).0 e in omega arith)
  ]
