-- ===== src/Mm/Cache/Scan.antt =====
-- czl_mm_cache_pools_init and czl_mm_cache_scan.
use czl.Prelude.{
  ℕ, zero, suc, ◌≡◌, refl, ◌≢◌, ◌≤◌, ◌+◌, true, false, List, [], ◌∷◌, arith, ◌==◌, ltb, leb, leb→le,
  and_split, ◌⊎◌, ◌&&◌, update, Bool-cases, inl, inr, update_same, update_other, ne→==,
}
use czl.Dll.{has}
use czl.Dll.Laws.{seg_relink_start}
use czl.Mm.State.{Gp, fault, sp_515b, mm_1mb, cache_head_size}
use czl.Mm.Cache.{IsChain, IsPool, IsCache, idle_head, drop_head, scan_from, cache_scan, pools_init}
use czl.Mm.Cache.Index.{cache_index_small}
use czl.Mm.Cache.Laws.{pools_disjoint, IsCache-update}

-- Where the array is allocated, every pool is empty and has the size of its place.
pub pools_init-IsCache :
    (g : Gp)
    → let (ok, g') = pools_init true g in
      (ok ≡ true) × (g'.cache_flag ≡ true) × IsCache g' (λ i. [])
unfolding pools_init
pools_init-IsCache g = (
  refl,
  refl,
  record {
    sizes = λ i. refl;
    pools = λ i. record {
      chain = record { links = tt; distinct = tt; head = refl; tail = refl; tags = tt };
      idle_first = tt;
    };
  },
)

abbrev pub tail_of : List ℕ → List ℕ
tail_of [] = []
tail_of (x ∷ xs) = xs

drop-IsPool :
    (g : Gp) (i : ℕ) (xs : List ℕ)
    → IsPool g i xs
    → (g.pool_head i == 0) ≡ false
    → IsPool (drop_head i g) i (tail_of xs)
unfolding drop_head
drop-IsPool g i [] v nz = absurd (let e = v.chain.head in let c : true ≡ false = ground arith in cc)
drop-IsPool g i (x ∷ []) v nz =
    let e : g.cache_next (g.pool_head i) ≡ 0 = rw v.chain.head v.chain.links.2 in
    rw e (record {
      chain = record {
        links = tt;
        distinct = tt;
        head = update_same g.pool_head i 0;
        tail = update_same g.pool_tail i 0;
        tags = tt;
      };
      idle_first = tt;
    })
drop-IsPool g i (x ∷ y ∷ ys) v nz =
    let c = v.chain in
    let r = c.links.3 in
    let e : g.cache_next (g.pool_head i) ≡ y = rw c.head c.links.2 in
    rw (e, ne→== y 0 r.0)
      (record {
        chain = record {
          links = seg_relink_start g.cache_next g.cache_last x 0 y ys 0 c.distinct.1 r;
          distinct = c.distinct.1;
          head = update_same g.pool_head i y;
          tail = c.tail;
          tags = c.tags.1;
        };
        idle_first = v.idle_first.1;
      })

drop-elsewhere :
    (g : Gp) (i : ℕ) (xs : List ℕ) (a : ℕ)
    → IsChain g i xs
    → (g.pool_head i == 0) ≡ false
    → has a xs ≡ false
    → (drop_head i g).cache_last a ≡ g.cache_last a
unfolding drop_head
drop-elsewhere g i [] a v nz out =
    absurd (let e = v.head in let c : true ≡ false = ground arith in cc)
drop-elsewhere g i (x ∷ []) a v nz out =
    let e : g.cache_next (g.pool_head i) ≡ 0 = rw v.head v.links.2 in rw e
drop-elsewhere g i (x ∷ y ∷ ys) a v nz out =
    let e : g.cache_next (g.pool_head i) ≡ y = rw v.head v.links.2 in
    rw (e, ne→== y 0 v.links.3.0) (update_other g.cache_last y a 0 (ground arith))

pub drop-IsCache :
    (g : Gp) (lists : ℕ → List ℕ) (i : ℕ)
    → IsCache g lists
    → (g.pool_head i == 0) ≡ false
    → IsCache (drop_head i g) (update lists i (tail_of (lists i)))
unfolding drop_head
drop-IsCache g lists i v nz =
    let own = v.pools i in
    IsCache-update g _ lists i (tail_of (lists i)) v (drop-IsPool g i (lists i) own nz) (λ j. refl)
      (λ j ne. drop_ends j ne)
      (λ j a ne h. (
        refl,
        drop-elsewhere g i (lists i) a own.chain nz
            (pools_disjoint g i j (lists i) (lists j) own.chain (v.pools j).chain ne a h),
        refl,
        refl,
      ))
  where
    drop_ends :
        (j : ℕ)
        → i ≢ j
        → ((drop_head i g).pool_head j ≡ g.pool_head j)
          × ((drop_head i g).pool_tail j ≡ g.pool_tail j)
    drop_ends j ne =
        let e : (j == i) ≡ false = ground arith in
        elim (Bool-cases (g.cache_next (g.pool_head i) == 0)) [
          | inl z ↦ rw z (rw e, rw e)
          | inr z ↦ rw z (rw e, refl)
        ]

-- The scan keeps the cache: it frees the head of one pool, which was idle, or changes nothing.
pub scan_from-IsCache :
    (k i size : ℕ) (g : Gp) (lists : ℕ → List ℕ)
    → IsCache g lists
    → let (r, g') = scan_from k i size g in
      ((r ≡ false) × (g' ≡ g))
      ⊎ ((j : ℕ) × (r ≡ true)
          × (idle_head j g ≡ true)
          × (size ≤ cache_head_size + g.pool_size j)
          × (g' ≡ drop_head j g)
          × IsCache g' (update lists j (tail_of (lists j))))
unfolding scan_from
scan_from-IsCache zero i size g lists v = inl (refl, refl)
scan_from-IsCache (suc k) i size g lists v =
    elim (Bool-cases (leb size (cache_head_size + g.pool_size i) && idle_head i g)) [
      | inl e ↦
          let h = and_split _ _ e in
          rw e (inr (i, refl, h.1, leb→le _ _ h.0, refl, drop-IsCache g lists i v (ground arith)))
      | inr e ↦ rw e (scan_from-IsCache k (i + 1) size g lists v)
    ]

-- For 515 bytes and less the scan starts at the index -1, in front of the pools.
pub cache_scan-fault :
    (size : ℕ) (g : Gp) (lists : ℕ → List ℕ)
    → IsCache g lists
    → (g.cache_count == 0) ≡ false
    → size ≤ sp_515b
    → cache_scan size g ≡ fault
unfolding cache_scan
cache_scan-fault size g lists v used small =
    let e : ltb mm_1mb size ≡ false = ground arith in
    let n = cache_index_small g.pool_size v.sizes size small in rw (e, used, n)
