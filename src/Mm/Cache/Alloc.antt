-- ===== src/Mm/Cache/Alloc.antt =====
-- czl_mm_cache_alloc on the whole cache.
use czl.Prelude.{
  ℕ, ◌≡◌, refl, ap, ◌⊎◌, ◌≢◌, ◌≤◌, ◌<◌, ◌∙◌, sym, Bool, true, false, Option, none, some, List, [],
  ◌∷◌, ◌++◌, arith, ◌==◌, ltb, ◌||◌, All, update, if◌then◌else◌, Bool-cases, if_true, inl, inr,
  subst, update_same, ne→==,
}
use czl.Dll.{first, has}
use czl.Dll.Laws.{final-ne, first-ne, has-ne}
use czl.Mm.Cache.Index.{cache_index_total}
use czl.Mm.State.{Gp, done, sp_515b, mm_1mb, add_ulong, cache_head_size, sh_head_size}
use czl.Mm.Sys.{sys_alloc}
use czl.Mm.Cache.{
  IsChain, IsPool, IsCache, cache_create, reuse, idle_head, alloc_at, cache_serve, cache_alloc,
}
use czl.Mm.Cache.Laws.{All-has, pools_disjoint, IsPool-frame, IsCache-update}
use czl.Mm.Cache.Take.{taken, reuse-fields, reuse-IsPool, create-IsPool}

-- The fields of a block that the cache reads.
abbrev SameBlock : Gp → Gp → ℕ → Type 0
SameBlock g g' a =
    (g'.cache_next a ≡ g.cache_next a)
    × (g'.cache_last a ≡ g.cache_last a)
    × (g'.cache_state a ≡ g.cache_state a)
    × (g'.tag a ≡ g.tag a)

reuse-elsewhere :
    (g : Gp) (i : ℕ) (xs : List ℕ) (a : ℕ)
    → IsChain g i xs
    → (g.pool_head i == 0) ≡ false
    → has a xs ≡ false
    → SameBlock g (reuse i g) a
unfolding reuse
reuse-elsewhere g i [] a v nz out =
    absurd (let e = v.head in let c : true ≡ false = ground arith in cc)
reuse-elsewhere g i (x ∷ xs) a v nz out =
    let h : (a == g.pool_head i) ≡ false = rw v.head (ground arith) in
    let t : (a == g.pool_tail i) ≡ false = rw v.tail (final-ne x xs a out) in
    let e : g.cache_next (g.pool_head i) ≡ first xs 0 = rw v.head v.links.2 in
    elim (Bool-cases (g.cache_next (g.pool_head i) == 0)) [
      | inl z ↦ rw z (refl, refl, rw h, refl)
      | inr z ↦
          let z' : (first xs 0 == 0) ≡ false = rw e at z in
          let n : (a == g.cache_next (g.pool_head i)) ≡ false =
            rw e (first-ne xs a (ground arith) z') in
          rw z (rw (t, h), rw (h, n), rw h, refl)
    ]

create-elsewhere :
    (fresh i : ℕ) (g : Gp) (xs : List ℕ) (a : ℕ)
    → IsChain g i xs
    → (a == fresh) ≡ false
    → has a xs ≡ false
    → SameBlock g (cache_create fresh i g).1 a
unfolding cache_create
create-elsewhere fresh i g xs a v nf out = elim (Bool-cases (fresh == 0)) [
  | inl z ↦ rw z (refl, refl, refl, refl)
  | inr z ↦ rw z (next xs v out, rw nf, rw nf, rw nf)
]
  where
    next :
        (xs : List ℕ)
        → IsChain g i xs
        → has a xs ≡ false
        → (if g.pool_head i == 0
              then update g.cache_next fresh 0
              else update (update g.cache_next fresh 0) (g.pool_tail i) fresh)
            a
          ≡ g.cache_next a
    next [] v out = let e : (g.pool_head i == 0) ≡ true = rw v.head in rw (e, nf)
    next (x ∷ xs) v out =
        let e : (g.pool_head i == 0) ≡ false = rw v.head (ne→== x 0 v.links.0) in
        let t : (a == g.pool_tail i) ≡ false = rw v.tail (final-ne x xs a out) in rw (e, t, nf)

module _ (g : Gp) (lists : ℕ → List ℕ) (i : ℕ) (v : IsCache g lists) where
  reuse-IsCache :
      (g.pool_head i == 0) ≡ false → IsCache (reuse i g) (update lists i (taken (lists i)))
  unfolding reuse
  reuse-IsCache nz =
      let own = v.pools i in
      let fields = reuse-fields g i in
      IsCache-update g (reuse i g) lists i (taken (lists i)) v (reuse-IsPool g i (lists i) own nz).0
        (λ j. ap (λ (f : ℕ → ℕ). f j) fields.2) (λ j ne. reuse_ends j ne)
        (λ j a ne h.
          reuse-elsewhere g i (lists i) a own.chain nz
            (pools_disjoint g i j (lists i) (lists j) own.chain (v.pools j).chain ne a h))
    where
      reuse_ends :
          (j : ℕ)
          → i ≢ j
          → ((reuse i g).pool_head j ≡ g.pool_head j) × ((reuse i g).pool_tail j ≡ g.pool_tail j)
      reuse_ends j ne =
          let e : (j == i) ≡ false = ground arith in
          elim (Bool-cases (g.cache_next (g.pool_head i) == 0)) [
            | inl z ↦ rw z (refl, refl)
            | inr z ↦ rw z (rw e, rw e)
          ]

  module _ (fresh : ℕ) (unused : (j : ℕ) → has fresh (lists j) ≡ false) where
    create-IsCache :
        (fresh == 0) ≡ false
        → IsCache (cache_create fresh i g).1 (update lists i (lists i ++ fresh ∷ []))
    unfolding cache_create
    create-IsCache nz =
        let own = v.pools i in
        let g' = (cache_create fresh i g).1 in
        IsCache-update g g' lists i (lists i ++ fresh ∷ []) v
          (create-IsPool fresh i g (lists i) own nz (unused i)) (λ j. ground arith)
          (λ j ne. ground arith)
          (λ j a ne h.
            create-elsewhere fresh i g (lists i) a own.chain (has-ne fresh (lists j) a (unused j) h)
              (pools_disjoint g i j (lists i) (lists j) own.chain (v.pools j).chain ne a h))

    sys_alloc-IsCache : (size : ℕ) → IsCache (sys_alloc fresh size g).1 lists
    unfolding sys_alloc
    sys_alloc-IsCache size = record {
      sizes = λ j. ground (arith, v.sizes j);
      pools = λ j.
          elim (Bool-cases
            (ltb g.mm_limit (add_ulong g.mm_cnt (add_ulong size sh_head_size)) || fresh == 0)) [
              | inl e ↦ rw e (v.pools j)
              | inr e ↦ rw e (
                  IsPool-frame g _ j (lists j) (v.pools j)
                    (λ a h. (refl, refl, refl, rw (has-ne fresh (lists j) a (unused j) h))) refl
                    refl)
            ];
    }

-- What pool lists are left by an allocation from pool `i`.
abbrev pub allocated : (fresh i size : ℕ) → Gp → (ℕ → List ℕ) → ℕ → List ℕ
allocated fresh i size g lists =
    if idle_head i g
    then update lists i (taken (lists i))
    else if ltb g.mm_cache_size (add_ulong (add_ulong g.cache_count cache_head_size) size)
    then lists
    else if fresh == 0
    then lists
    else update lists i (lists i ++ fresh ∷ [])

-- What the caller gets: nothing, a system block, or a busy block of pool `i`.
abbrev pub Served : (i p : ℕ) → Gp → Type 0
Served i p g = (p ≡ 0) ⊎ ((g.tag p ≡ none) ⊎ ((g.tag p ≡ some i) × (g.cache_state p ≡ true)))

cache_create-fail : (fresh i : ℕ) (g : Gp) → (fresh == 0) ≡ true → cache_create fresh i g ≡ (0, g)
unfolding cache_create
cache_create-fail fresh i g e = rw e

cache_create-Served : (fresh i : ℕ) (g : Gp) → let (p, g') = cache_create fresh i g in Served i p g'
unfolding cache_create
cache_create-Served fresh i g = elim (Bool-cases (fresh == 0)) [
  | inl e ↦ rw e (inl refl)
  | inr e ↦
      rw e (inr (inr (update_same g.tag fresh (some i), update_same g.cache_state fresh true)))
]

sys_alloc-Served :
    (fresh i size : ℕ) (g : Gp) → let (p, g') = sys_alloc fresh size g in Served i p g'
unfolding sys_alloc
sys_alloc-Served fresh i size g =
    elim (Bool-cases
      (ltb g.mm_limit (add_ulong g.mm_cnt (add_ulong size sh_head_size)) || fresh == 0)) [
        | inl e ↦ rw e (inl refl)
        | inr e ↦ rw e (inr (inl (update_same g.tag fresh none)))
      ]

module _ (g : Gp) (lists : ℕ → List ℕ) (fresh i size : ℕ) (v : IsCache g lists)
    (unused : (j : ℕ) → has fresh (lists j) ≡ false) where
  pub alloc_at-IsCache : IsCache (alloc_at fresh i size g).1 (allocated fresh i size g lists)
  unfolding alloc_at
  alloc_at-IsCache = elim (Bool-cases (idle_head i g)) [
    | inl idle ↦ rw idle (reuse-IsCache g lists i v (ground arith))
    | inr busy ↦ rw busy (elim (Bool-cases over) [
      | inl e ↦ rw e (sys_alloc-IsCache g lists i v fresh unused size)
      | inr e ↦ rw e (elim (Bool-cases (fresh == 0)) [
        | inl z ↦ rw (cache_create-fail fresh i g z, z) v
        | inr z ↦ rw z (create-IsCache g lists i v fresh unused z)
      ])
    ])
  ]
    where
      over : Bool
      over = ltb g.mm_cache_size (add_ulong (add_ulong g.cache_count cache_head_size) size)

  alloc_at-Served : let (p, g') = alloc_at fresh i size g in Served i p g'
  unfolding alloc_at cache_create sys_alloc
  alloc_at-Served = elim (Bool-cases (idle_head i g)) [
    | inl idle ↦
        let nz : (g.pool_head i == 0) ≡ false = ground arith in
        let busy = (reuse-IsPool g i (lists i) (v.pools i) nz).1 in
        rw idle (inr (inr (head_tag (lists i) (v.pools i) nz, busy)))
    | inr busy ↦ rw busy (elim (Bool-cases over) [
      | inl e ↦ rw e (sys_alloc-Served fresh i size g)
      | inr e ↦ rw e (cache_create-Served fresh i g)
    ])
  ]
    where
      over : Bool
      over = ltb g.mm_cache_size (add_ulong (add_ulong g.cache_count cache_head_size) size)

      head_tag :
          (xs : List ℕ)
          → IsPool g i xs
          → (g.pool_head i == 0) ≡ false
          → (reuse i g).tag (g.pool_head i) ≡ some i
      head_tag [] w nz = absurd (let e = w.chain.head in let c : true ≡ false = ground arith in cc)
      head_tag (x ∷ xs) w nz =
          subst (λ (t : ℕ → Option ℕ). t (g.pool_head i) ≡ some i) (sym (reuse-fields g i).1)
            (rw w.chain.head w.chain.tags.0)

-- If a pool holds an idle block, its head is idle.
idle_has :
    (g : Gp) (i a : ℕ) (xs : List ℕ)
    → IsPool g i xs
    → has a xs ≡ true
    → g.cache_state a ≡ false
    → idle_head i g ≡ true
idle_has g i a [] v h idle = cc
idle_has g i a (x ∷ xs) v h idle =
    let nz : (g.pool_head i == 0) ≡ false = rw v.chain.head (ne→== x 0 v.chain.links.0) in
    elim (Bool-cases (g.cache_state x)) [
      | inl busy ↦
          let all : All (λ c. g.cache_state c ≡ true) (x ∷ xs) = (busy, v.idle_first.0 busy) in
          let b = All-has (λ c. g.cache_state c ≡ true) (x ∷ xs) a all h in
          absurd (let c : true ≡ false = sym b ∙ idle in cc)
      | inr free ↦
          let f : g.cache_state (g.pool_head i) ≡ false = rw v.chain.head free in rw (nz, f)
    ]

-- An idle block is never passed over: while the pool of a size holds an idle block, an allocation
-- takes the pool's head, asks neither malloc nor the system list, and leaves mm_cnt as it was,
-- whatever malloc would return.
pub alloc_at-reuse :
    (g : Gp) (fresh i size a : ℕ) (xs : List ℕ)
    → IsPool g i xs
    → has a xs ≡ true
    → g.cache_state a ≡ false
    → (alloc_at fresh i size g ≡ (g.pool_head i, reuse i g))
      × ((alloc_at fresh i size g).1.mm_cnt ≡ g.mm_cnt)
unfolding alloc_at
alloc_at-reuse g fresh i size a xs v h idle =
    let e = idle_has g i a xs v h idle in (rw e, rw e (reuse-fields g i).3)

-- For every size from 516 bytes to 1 MB, czl_mm_cache_alloc on an initialised cache ends without a
-- read outside the pools, whatever malloc returns (if it is NULL or an address that the cache does
-- not hold). It serves the size from a pool whose blocks are large enough, with a block of that
-- pool that is now in use, or with a system block, or returns NULL; and the cache stays well formed.
pub cache_alloc-IsCache :
    (g : Gp) (lists : ℕ → List ℕ) (got : Bool) (fresh size : ℕ)
    → IsCache g lists
    → g.cache_flag ≡ true
    → ((j : ℕ) → has fresh (lists j) ≡ false)
    → sp_515b < size
    → size ≤ mm_1mb
    → (i p : ℕ) × (g' : Gp) × (cache_alloc got fresh size g ≡ done p g')
      × (size ≤ g.pool_size i)
      × Served i p g'
      × IsCache g' (allocated fresh i size g lists)
unfolding cache_alloc cache_serve
cache_alloc-IsCache g lists got fresh size v flag unused lo hi =
    let (i, found, fits) = cache_index_total g.pool_size v.sizes size lo hi in
    let r = alloc_at fresh i size g in
    (
      i,
      r.0,
      r.1,
      if_true g.cache_flag (cache_serve fresh size g) _ flag ∙ rw (found, cache_serve),
      rw (v.sizes i) fits,
      alloc_at-Served g lists fresh i size v unused,
      alloc_at-IsCache g lists fresh i size v unused,
    )
