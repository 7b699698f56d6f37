-- ===== src/Mm/Cache/Put.antt =====
-- czl_mm_cache_free on a cached block.
use czl.Prelude.{
  ℕ, ◌≡◌, refl, ◌≢◌, ◌∙◌, sym, Bool, true, false, not, some, List, [], ◌∷◌, ◌++◌, arith, ◌==◌, ◌&&◌,
  All, All-remove, All-middle, update, if◌then◌else◌, Bool-cases, inl, inr, subst₂, append-nil,
  ne→==,
}
use czl.Dll.{final, has, Distinct, Seg, unlink_next, unlink_last, push_next, push_last}
use czl.Dll.Laws.{final-append, has-append, has-final, final-ne, first-ne, seg_split}
use czl.Dll.Unlink.{Distinct-split, Distinct-remove, final-ne_zero, unlink-Seg, push-Seg}
use czl.Mm.State.{Gp}
use czl.Mm.Cache.{IdleFirst, IsChain, IsPool, IsCache, to_front, cache_put}
use czl.Mm.Cache.Laws.{All-has, All-of_has, IdleFirst-frame, pools_disjoint, IsCache-update}

IdleFirst-remove :
    (state : ℕ → Bool) (xs ys : List ℕ) (p : ℕ)
    → IdleFirst state (xs ++ p ∷ ys)
    → IdleFirst state (xs ++ ys)
IdleFirst-remove state [] ys p h = h.1
IdleFirst-remove state (x ∷ xs) ys p (h, r) = (
  λ busy.
      let B = λ (a : ℕ). state a ≡ true in
      let all = h busy in
      All-of_has B (xs ++ ys) (λ a i.
        All-has B (xs ++ p ∷ ys) a all
          (let e = has-append a xs ys in let f = has-append a xs (p ∷ ys) in ground arith)),
  IdleFirst-remove state xs ys p r,
)

-- In front of an idle block every block is idle, so one more block may become idle behind it.
IdleFirst-idle :
    (state : ℕ → Bool) (xs ys : List ℕ) (p : ℕ)
    → Distinct (xs ++ p ∷ ys)
    → (xs ≢ [] → state (final 0 xs) ≡ false)
    → IdleFirst state (xs ++ p ∷ ys)
    → IdleFirst (update state p false) (xs ++ p ∷ ys)
IdleFirst-idle state [] ys p (out, d) last (h, r) = (
  λ busy. absurd (let e : true ≡ false = ground arith in cc),
  IdleFirst-frame state (update state p false) ys (λ a i. ground arith) r,
)
IdleFirst-idle state (x ∷ xs) ys p (out, d) last (h, r) =
    let B = λ (a : ℕ). state a ≡ true in
    let ne : (x == p) ≡ false = let e = has-append x xs (p ∷ ys) in ground arith in
    let idle : state x ≡ true → ⊥ = λ busy. idle_last xs last busy (h busy) in
    (
      λ busy. absurd (idle (ground arith)),
      IdleFirst-idle state xs ys p d (λ nonempty. behind xs last nonempty) r,
    )
  where
    behind :
        (xs : List ℕ)
        → (x ∷ xs ≢ [] → state (final x xs) ≡ false)
        → xs ≢ []
        → state (final 0 xs) ≡ false
    behind [] last ne = absurd (ne refl)
    behind (y ∷ zs) last ne = last (λ e. cc)

    idle_last :
        (xs : List ℕ)
        → (x ∷ xs ≢ [] → state (final x xs) ≡ false)
        → state x ≡ true
        → All (λ a. state a ≡ true) (xs ++ p ∷ ys)
        → ⊥
    idle_last [] last busy all = let e = last (λ e. cc) in cc
    idle_last (y ∷ zs) last busy all =
        let e = last (λ e. cc) in
        let i : has (final y zs) ((y ∷ zs) ++ p ∷ ys) ≡ true =
          let f = has-append (final y zs) (y ∷ zs) (p ∷ ys) in ground (arith, has-final y zs) in
        let b = All-has (λ a. state a ≡ true) ((y ∷ zs) ++ p ∷ ys) (final y zs) all i in cc

-- A block `p` behind a block `x` moves to the front of the links.
module _ (g : Gp) (i p x : ℕ) (xs ys : List ℕ) (v : IsChain g i (x ∷ xs ++ p ∷ ys)) where
  behind :
      Seg g.cache_next g.cache_last 0 (x ∷ xs) p
      × Seg g.cache_next g.cache_last (final x xs) (p ∷ ys) 0
  behind = seg_split g.cache_next g.cache_last 0 (x ∷ xs) (p ∷ ys) 0 v.links

  nonzero : (g.cache_last p == 0) ≡ false
  nonzero =
      let e = behind.1.1 in
      let ne = final-ne_zero g.cache_next g.cache_last 0 x xs p behind.0 in
      rw e (ne→== (final x xs) 0 ne)

  removed : Distinct (x ∷ xs ++ ys) × (has p (x ∷ xs ++ ys) ≡ false)
  removed = Distinct-remove (x ∷ xs) ys p v.distinct

  to_front-links :
      Seg (to_front p i g).cache_next (to_front p i g).cache_last 0 (p ∷ x ∷ xs ++ ys) 0
  unfolding to_front unlink_next unlink_last push_next push_last
  to_front-links =
      let links =
        push-Seg _ _ (x ∷ xs ++ ys) p (g.pool_head i) v.head behind.1.0 removed.1 removed.0
          (unlink-Seg g.cache_next g.cache_last (x ∷ xs) ys p v.distinct v.links) in
      let nz : (g.pool_head i == 0) ≡ false = rw v.head (ne→== x 0 v.links.0) in
      let next : (to_front p i g).cache_next
          ≡ push_next (unlink_next g.cache_next g.cache_last p) (g.pool_head i) p =
        rw nonzero in
      let last : (to_front p i g).cache_last
          ≡ push_last (unlink_last g.cache_next g.cache_last p) (g.pool_head i) p =
        rw nz in
      subst₂ (λ n m. Seg n m 0 (p ∷ x ∷ xs ++ ys) 0) (sym next) (sym last) links

to_front-tail :
    (g : Gp) (i p x : ℕ) (xs ys : List ℕ)
    → IsChain g i (x ∷ xs ++ p ∷ ys)
    → (to_front p i g).pool_tail i ≡ final x (xs ++ ys)
unfolding to_front
to_front-tail g i p x xs [] v =
    let b = behind g i p x xs [] v in
    let e : (g.cache_next p == 0) ≡ true = ground (arith, b.1.2) in
    rw (e, append-nil) (ground (arith, b.1.1))
to_front-tail g i p x xs (y ∷ ys) v =
    let b = behind g i p x xs (y ∷ ys) v in
    let e : (g.cache_next p == 0) ≡ false = rw b.1.2 (ne→== y 0 b.1.3.0) in
    rw (e, final-append x xs (y ∷ ys)) (v.tail ∙ final-append x xs (p ∷ y ∷ ys))

to_front-IsChain :
    (g : Gp) (i p x : ℕ) (xs ys : List ℕ)
    → IsChain g i (x ∷ xs ++ p ∷ ys)
    → IsChain (to_front p i g) i (p ∷ x ∷ xs ++ ys)
unfolding to_front
to_front-IsChain g i p x xs ys v = record {
  links = to_front-links g i p x xs ys v;
  distinct = let r = removed g i p x xs ys v in (r.1, r.0);
  head = ground arith;
  tail = to_front-tail g i p x xs ys v;
  tags = (All-middle T (x ∷ xs) ys p v.tags, All-remove T (x ∷ xs) ys p v.tags);
}
  where
    T : ℕ → Type 0
    T a = g.tag a ≡ some i

-- Whether a busy block stands in front of `p`.
abbrev pub behind_busy : ℕ → Gp → Bool
behind_busy p g = not (g.cache_last p == 0) && g.cache_state (g.cache_last p)

abbrev pub freed : Gp → ℕ → (xs ys : List ℕ) → List ℕ
freed g p xs ys = if behind_busy p g then p ∷ xs ++ ys else xs ++ p ∷ ys

IsChain-state :
    (g : Gp) (i : ℕ) (xs : List ℕ) (f : ℕ → Bool)
    → IsChain g i xs
    → IsChain (record g { cache_state = f }) i xs
IsChain-state g i xs f v = record {
  links = v.links;
  distinct = v.distinct;
  head = v.head;
  tail = v.tail;
  tags = v.tags;
}

put-front :
    (g : Gp) (i p : ℕ) (xs ys : List ℕ)
    → IsPool g i (xs ++ p ∷ ys)
    → behind_busy p g ≡ true
    → let g' = record g { cache_state = update g.cache_state p false } in
      IsPool (to_front p i g') i (p ∷ xs ++ ys)
unfolding to_front
put-front g i p [] ys v busy =
    let e = v.chain.links.1 in absurd (let c : true ≡ false = ground arith in cc)
put-front g i p (x ∷ xs) ys v busy =
    let g' = record g { cache_state = update g.cache_state p false } in
    let out = (Distinct-remove (x ∷ xs) ys p v.chain.distinct).1 in
    record {
      chain = to_front-IsChain g' i p x xs ys (IsChain-state g i _ _ v.chain);
      idle_first = (
        λ b. absurd (let c : true ≡ false = ground arith in cc),
        IdleFirst-frame g.cache_state g'.cache_state (x ∷ xs ++ ys) (λ a h. ground arith)
            (IdleFirst-remove g.cache_state (x ∷ xs) ys p v.idle_first),
      );
    }

put-stay :
    (g : Gp) (i p : ℕ) (xs ys : List ℕ)
    → IsPool g i (xs ++ p ∷ ys)
    → behind_busy p g ≡ false
    → IsPool (record g { cache_state = update g.cache_state p false }) i (xs ++ p ∷ ys)
put-stay g i p xs ys v idle = record {
  chain = IsChain-state g i _ _ v.chain;
  idle_first = IdleFirst-idle g.cache_state xs ys p v.chain.distinct (last xs v.chain) v.idle_first;
}
  where
    last : (xs : List ℕ) → IsChain g i (xs ++ p ∷ ys) → xs ≢ [] → g.cache_state (final 0 xs) ≡ false
    last [] c nonempty = absurd (nonempty refl)
    last (x ∷ xs) c nonempty =
        let e = (behind g i p x xs ys c).1.1 in let nz = nonzero g i p x xs ys c in ground arith

last-ne_self :
    (g : Gp) (i p : ℕ) (xs ys : List ℕ) → IsChain g i (xs ++ p ∷ ys) → (g.cache_last p == p) ≡ false
last-ne_self g i p [] ys v = rw v.links.1 (ground (arith, v.links.0))
last-ne_self g i p (x ∷ xs) ys v =
    let e = (behind g i p x xs ys v).1.1 in
    let apart = (Distinct-split (x ∷ xs) (p ∷ ys) v.distinct).2 (final x xs) (has-final x xs) in
    rw e (ground arith)

-- The test of the code reads the state of the block in front, which the write to `p` leaves alone.
cache_put-eq :
    (g : Gp) (i p : ℕ) (xs ys : List ℕ)
    → IsChain g i (xs ++ p ∷ ys)
    → let g' = record g { cache_state = update g.cache_state p false } in
      cache_put p i g ≡ (if behind_busy p g then to_front p i g' else g')
unfolding cache_put
cache_put-eq g i p xs ys v = rw (last-ne_self g i p xs ys v)

-- A freed block becomes idle. It stays in its pool, which keeps its idle blocks in front: it goes
-- to the front if the block before it is busy, and stays in its place if not.
pub cache_put-IsPool :
    (g : Gp) (i p : ℕ) (xs ys : List ℕ)
    → IsPool g i (xs ++ p ∷ ys)
    → IsPool (cache_put p i g) i (freed g p xs ys)
cache_put-IsPool g i p xs ys v =
    rw (cache_put-eq g i p xs ys v.chain) (elim (Bool-cases (behind_busy p g)) [
      | inl e ↦ rw e (put-front g i p xs ys v e)
      | inr e ↦ rw e (put-stay g i p xs ys v e)
    ])

-- What a list with `p` in its middle lacks, its parts lack.
not-mem_parts :
    (a x p : ℕ) (xs ys : List ℕ)
    → has a (x ∷ xs ++ p ∷ ys) ≡ false
    → (has a (x ∷ xs) ≡ false) × ((a == p) ≡ false) × (has a ys ≡ false) × ((a == x) ≡ false)
not-mem_parts a x p xs ys out = ground (arith, has-append a (x ∷ xs) (p ∷ ys))

to_front-elsewhere :
    (g : Gp) (i p a : ℕ)
    → (a == p) ≡ false
    → (a == g.cache_last p) ≡ false
    → (a == g.pool_head i) ≡ false
    → ((g.cache_next p == 0) ≡ false → (a == g.cache_next p) ≡ false)
    → let g' = to_front p i g in
      (g'.cache_next a ≡ g.cache_next a) × (g'.cache_last a ≡ g.cache_last a)
unfolding to_front
to_front-elsewhere g i p a np nl nh nn = elim (Bool-cases (g.cache_next p == 0)) [
  | inl e ↦ (rw (np, nl), rw (nh, np, e))
  | inr e ↦ let n = nn e in (rw (np, nl), rw (nh, np, e, n))
]

-- A free writes only to blocks of its own pool.
put-elsewhere :
    (g : Gp) (i p : ℕ) (xs ys : List ℕ) (a : ℕ)
    → IsChain g i (xs ++ p ∷ ys)
    → has a (xs ++ p ∷ ys) ≡ false
    → let g' = cache_put p i g in
      (g'.cache_next a ≡ g.cache_next a)
      × (g'.cache_last a ≡ g.cache_last a)
      × (g'.cache_state a ≡ g.cache_state a)
      × (g'.tag a ≡ g.tag a)
unfolding cache_put to_front
put-elsewhere g i p [] ys a v out = ground (arith, v.links.1)
put-elsewhere g i p (x ∷ xs) ys a v out =
    let b = behind g i p x xs ys v in
    let (o, np, oy, nx) = not-mem_parts a x p xs ys out in
    let g' = record g { cache_state = update g.cache_state p false } in
    let t =
      to_front-elsewhere g' i p a np (rw b.1.1 (final-ne x xs a o)) (rw v.head nx)
        (rw b.1.2 (first-ne ys a oy)) in
    rw (cache_put-eq g i p (x ∷ xs) ys v) (elim (Bool-cases (behind_busy p g)) [
      | inl busy ↦ rw busy (t.0, t.1, rw np, refl)
      | inr idle ↦ rw idle (refl, refl, rw np, refl)
    ])

put-ends :
    (g : Gp) (i p j : ℕ)
    → i ≢ j
    → let g' = cache_put p i g in
      (g'.pool_head j ≡ g.pool_head j) × (g'.pool_tail j ≡ g.pool_tail j)
unfolding cache_put to_front
put-ends g i p j ne = ground arith

put-size : (g : Gp) (i p j : ℕ) → (cache_put p i g).pool_size j ≡ g.pool_size j
unfolding cache_put to_front
put-size g i p j = ground arith

-- Of the states only that of the freed block changes: it is idle.
put-state :
    (g : Gp) (i p : ℕ) (xs ys : List ℕ)
    → IsChain g i (xs ++ p ∷ ys)
    → (cache_put p i g).cache_state ≡ update g.cache_state p false
unfolding to_front
put-state g i p xs ys v =
    rw (cache_put-eq g i p xs ys v)
      (elim (Bool-cases (behind_busy p g)) [ inl busy ↦ rw busy refl | inr idle ↦ rw idle refl ])

-- czl_mm_cache_free makes the block idle, changes no other block's state and keeps the cache: the
-- block goes to the front of its own pool if the block before it is busy and stays in its place if
-- not, and no other pool changes.
pub cache_put-IsCache :
    (g : Gp) (lists : ℕ → List ℕ) (i p : ℕ) (xs ys : List ℕ)
    → IsCache g lists
    → lists i ≡ xs ++ p ∷ ys
    → ((cache_put p i g).cache_state ≡ update g.cache_state p false)
      × IsCache (cache_put p i g) (update lists i (freed g p xs ys))
cache_put-IsCache g lists i p xs ys v e =
    let own : IsPool g i (xs ++ p ∷ ys) = rw e at (v.pools i) in
    (
      put-state g i p xs ys own.chain,
      IsCache-update g (cache_put p i g) lists i (freed g p xs ys) v
          (cache_put-IsPool g i p xs ys own) (put-size g i p) (put-ends g i p)
          (λ j a ne h.
            put-elsewhere g i p xs ys a own.chain
              (pools_disjoint g i j (xs ++ p ∷ ys) (lists j) own.chain (v.pools j).chain ne a h)),
    )
