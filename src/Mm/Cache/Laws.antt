-- ===== src/Mm/Cache/Laws.antt =====
-- Pools of the cache under writes to other blocks.
use czl.Prelude.{
  ℕ, ◌≡◌, ◌≢◌, ◌∙◌, sym, Bool, true, false, some, List, [], ◌∷◌, arith, ◌==◌, All, update,
  Bool-cases, inl, inr, subst, ==_iff,
}
use czl.Dll.{has}
use czl.Dll.Laws.{seg_frame}
use czl.Mm.State.{Gp}
use czl.Mm.Cache.{IdleFirst, IsChain, IsPool, IsCache}

pub All-has : (P : ℕ → Type 0) (xs : List ℕ) (a : ℕ) → All P xs → has a xs ≡ true → P a
All-has P [] a h i = cc
All-has P (x ∷ xs) a (px, h) i = elim (Bool-cases (a == x)) [
  | inl e ↦ let q : a ≡ x = (==_iff a x).0 e in subst P (sym q) px
  | inr e ↦ All-has P xs a h (ground arith)
]

pub All-of_has : (P : ℕ → Type 0) (xs : List ℕ) → ((a : ℕ) → has a xs ≡ true → P a) → All P xs
All-of_has P [] h = tt
All-of_has P (x ∷ xs) h = (h x (ground arith), All-of_has P xs (λ a i. h a (ground arith)))

pub All-mono :
    (P Q : ℕ → Type 0) (xs : List ℕ) → ((a : ℕ) → has a xs ≡ true → P a → Q a) → All P xs → All Q xs
All-mono P Q xs f h = All-of_has Q xs (λ a i. f a i (All-has P xs a h i))

pub IdleFirst-frame :
    (state state' : ℕ → Bool) (xs : List ℕ)
    → ((a : ℕ) → has a xs ≡ true → state' a ≡ state a)
    → IdleFirst state xs
    → IdleFirst state' xs
IdleFirst-frame state state' [] same h = tt
IdleFirst-frame state state' (x ∷ xs) same (h, r) = (
  λ busy.
      All-mono (λ a. state a ≡ true) (λ a. state' a ≡ true) xs (λ a i e. ground (arith, same a))
        (h (ground (arith, same x))),
  IdleFirst-frame state state' xs (λ a i. same a (ground arith)) r,
)

-- What a function of the cache leaves alone keeps its pool.
pub IsPool-frame :
    (g g' : Gp) (i : ℕ) (xs : List ℕ)
    → IsPool g i xs
    → ((a : ℕ)
        → has a xs ≡ true
        → (g'.cache_next a ≡ g.cache_next a)
          × (g'.cache_last a ≡ g.cache_last a)
          × (g'.cache_state a ≡ g.cache_state a)
          × (g'.tag a ≡ g.tag a))
    → g'.pool_head i ≡ g.pool_head i
    → g'.pool_tail i ≡ g.pool_tail i
    → IsPool g' i xs
IsPool-frame g g' i xs v same eh et = record {
  chain = record {
    links =
        seg_frame g.cache_next g.cache_last g'.cache_next g'.cache_last 0 xs 0 (λ a h. (same a h).0)
          (λ a h. (same a h).1) v.chain.links;
    distinct = v.chain.distinct;
    head = eh ∙ v.chain.head;
    tail = et ∙ v.chain.tail;
    tags =
        All-mono (λ a. g.tag a ≡ some i) (λ a. g'.tag a ≡ some i) xs (λ a h e. (same a h).3 ∙ e)
          v.chain.tags;
  };
  idle_first = IdleFirst-frame g.cache_state g'.cache_state xs (λ a h. (same a h).2) v.idle_first;
}

-- The pools of the cache share no block.
pub pools_disjoint :
    (g : Gp) (i j : ℕ) (xs ys : List ℕ)
    → IsChain g i xs
    → IsChain g j ys
    → i ≢ j
    → (a : ℕ) → has a ys ≡ true
    → has a xs ≡ false
pools_disjoint g i j xs ys v w ne a h = elim (Bool-cases (has a xs)) [
  | inl k ↦
      let s = All-has (λ b. g.tag b ≡ some i) xs a v.tags k in
      let t = All-has (λ b. g.tag b ≡ some j) ys a w.tags h in absurd (ground arith)
  | inr k ↦ k
]

-- An operation on pool `i` that leaves alone all blocks outside it, and the other heads and tails,
-- keeps the cache.
pub IsCache-update :
    (g g' : Gp) (xs : ℕ → List ℕ) (i : ℕ) (zs : List ℕ)
    → IsCache g xs
    → IsPool g' i zs
    → ((j : ℕ) → g'.pool_size j ≡ g.pool_size j)
    → ((j : ℕ) → i ≢ j → (g'.pool_head j ≡ g.pool_head j) × (g'.pool_tail j ≡ g.pool_tail j))
    → ((j a : ℕ)
        → i ≢ j
        → has a (xs j) ≡ true
        → (g'.cache_next a ≡ g.cache_next a)
          × (g'.cache_last a ≡ g.cache_last a)
          × (g'.cache_state a ≡ g.cache_state a)
          × (g'.tag a ≡ g.tag a))
    → IsCache g' (update xs i zs)
IsCache-update g g' xs i zs v new sizes ends elsewhere = record {
  sizes = λ j. sizes j ∙ v.sizes j;
  pools = λ j. elim (Bool-cases (j == i)) [
    | inl e ↦ let q : i ≡ j = sym ((==_iff j i).0 e) in rw e (subst (λ k. IsPool g' k zs) q new)
    | inr e ↦
        let ne : i ≢ j = ground arith in
        rw e (
          IsPool-frame g g' j (xs j) (v.pools j) (λ a h. elsewhere j a ne h) (ends j ne).0
            (ends j ne).1)
  ];
}
