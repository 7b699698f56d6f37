-- ===== src/Mm/Cache/Take.antt =====
-- czl_mm_cache_alloc: an idle block is taken into use, or a new one is made.
use czl.Prelude.{
  ℕ, ◌≡◌, refl, ◌∙◌, sym, Bool, true, false, Option, some, List, [], ◌∷◌, ◌++◌, arith, ◌==◌, All,
  All-append, update, Bool-cases, inl, inr, subst, subst₂, update_same, update_other, ==_iff, ne→==,
}
use czl.Dll.{has, Distinct, Seg}
use czl.Dll.Laws.{final-append, has-ne, seg_relink_start}
use czl.Dll.Unlink.{Distinct-join, append-Seg}
use czl.Mm.State.{Gp}
use czl.Mm.Cache.{IdleFirst, IsChain, IsPool, cache_create, reuse}
use czl.Mm.Cache.Laws.{All-mono, IdleFirst-frame}

IdleFirst-append :
    (state : ℕ → Bool) (xs : List ℕ) (p : ℕ)
    → IdleFirst state xs
    → state p ≡ true
    → IdleFirst state (xs ++ p ∷ [])
IdleFirst-append state [] p h busy = (λ b. tt, tt)
IdleFirst-append state (x ∷ xs) p (h, r) busy = (
  λ b. All-append (λ a. state a ≡ true) xs (p ∷ []) (h b) (busy, tt),
  IdleFirst-append state xs p r busy,
)

Distinct-append : (xs : List ℕ) (p : ℕ) → Distinct xs → has p xs ≡ false → Distinct (xs ++ p ∷ [])
Distinct-append xs p d out =
    Distinct-join xs (p ∷ []) d (refl, tt)
      (λ a i. elim (Bool-cases (a == p)) [
        | inl e ↦
            let q : a ≡ p = (==_iff a p).0 e in absurd (let c : has p xs ≡ true = rw q at i in cc)
        | inr e ↦ rw e
      ])

-- The idle head `x` of a pool goes behind its last block.
reuse-links :
    (g : Gp) (i x y : ℕ) (ys : List ℕ)
    → IsChain g i (x ∷ y ∷ ys)
    → let g' = reuse i g in Seg g'.cache_next g'.cache_last 0 (y ∷ ys ++ x ∷ []) 0
unfolding reuse
reuse-links g i x y ys v =
    let (nz, l, n, r) = v.links in
    let (out, d) = v.distinct in
    let e : g.cache_next (g.pool_head i) ≡ y = rw v.head n in
    let nz' : (y == 0) ≡ false = ne→== y 0 r.0 in
    let start = seg_relink_start g.cache_next g.cache_last x 0 y ys 0 d r in
    let links =
      append-Seg g.cache_next (update g.cache_last y 0) y ys x (g.pool_tail i) v.tail nz out d
        start in
    let next : (reuse i g).cache_next ≡ update (update g.cache_next x 0) (g.pool_tail i) x =
      rw (e, nz', v.head) in
    let last : (reuse i g).cache_last ≡ update (update g.cache_last y 0) x (g.pool_tail i) =
      rw (e, nz', v.head) in
    subst₂ (λ n m. Seg n m 0 (y ∷ ys ++ x ∷ []) 0) (sym next) (sym last) links

-- What `reuse` does to the other fields.
pub reuse-fields :
    (g : Gp) (i : ℕ)
    → ((reuse i g).cache_state ≡ update g.cache_state (g.pool_head i) true)
      × ((reuse i g).tag ≡ g.tag)
      × ((reuse i g).pool_size ≡ g.pool_size)
      × ((reuse i g).mm_cnt ≡ g.mm_cnt)
unfolding reuse
reuse-fields g i = elim (Bool-cases (g.cache_next (g.pool_head i) == 0)) [
  | inl e ↦ (rw e, rw e, rw e, rw e)
  | inr e ↦ (rw e, rw e, rw e, rw e)
]

abbrev pub taken : List ℕ → List ℕ
taken [] = []
taken (x ∷ xs) = xs ++ x ∷ []

-- The idle head becomes busy and goes to the end of its pool.
pub reuse-IsPool :
    (g : Gp) (i : ℕ) (xs : List ℕ)
    → IsPool g i xs
    → (g.pool_head i == 0) ≡ false
    → IsPool (reuse i g) i (taken xs) × ((reuse i g).cache_state (g.pool_head i) ≡ true)
unfolding reuse
reuse-IsPool g i [] v nz =
    absurd (let e = v.chain.head in let c : true ≡ false = ground arith in cc)
reuse-IsPool g i (x ∷ []) v nz =
    let e : g.cache_next (g.pool_head i) ≡ 0 = rw v.chain.head v.chain.links.2 in
    let c = v.chain in
    let p : IsPool (record g { cache_state = update g.cache_state (g.pool_head i) true }) i
        (x ∷ []) =
      record {
        chain = record {
          links = c.links;
          distinct = c.distinct;
          head = c.head;
          tail = c.tail;
          tags = c.tags;
        };
        idle_first = (λ b. tt, tt);
      } in
    rw e (p, update_same g.cache_state (g.pool_head i) true)
reuse-IsPool g i (x ∷ y ∷ ys) v nz =
    let c = v.chain in
    let e : g.cache_next (g.pool_head i) ≡ y = rw c.head c.links.2 in
    let nz' : (y == 0) ≡ false = ne→== y 0 c.links.3.0 in
    let T = λ (a : ℕ). g.tag a ≡ some i in
    let state = (reuse-fields g i).0 in
    let tags = (reuse-fields g i).1 in
    let idle : IdleFirst g.cache_state (y ∷ ys) = v.idle_first.1 in
    let same : (a : ℕ)
        → has a (y ∷ ys) ≡ true
        → update g.cache_state (g.pool_head i) true a ≡ g.cache_state a =
      λ a h.
        update_other g.cache_state (g.pool_head i) a true
          (rw c.head (has-ne x (y ∷ ys) a c.distinct.0 h)) in
    let order : IdleFirst (update g.cache_state (g.pool_head i) true) (y ∷ ys ++ x ∷ []) =
      IdleFirst-append (update g.cache_state (g.pool_head i) true) (y ∷ ys) x
        (IdleFirst-frame g.cache_state (update g.cache_state (g.pool_head i) true) (y ∷ ys) same
          idle)
        (let q : update g.cache_state (g.pool_head i) true x ≡ true =
            rw c.head (update_same g.cache_state x true) in
          q) in
    (
      record {
        chain = record {
          links = reuse-links g i x y ys c;
          distinct = Distinct-append (y ∷ ys) x c.distinct.1 c.distinct.0;
          head = rw (e, nz') (update_same g.pool_head i y);
          tail =
              rw (e, nz')
                (update_same g.pool_tail i (g.pool_head i)
                  ∙ c.head
                  ∙ sym (final-append y ys (x ∷ [])));
          tags =
              subst (λ (t : ℕ → Option ℕ). All (λ a. t a ≡ some i) (y ∷ ys ++ x ∷ [])) (sym tags)
                (All-append T (y ∷ ys) (x ∷ []) c.tags.1 (c.tags.0, tt));
        };
        idle_first = subst (λ f. IdleFirst f (y ∷ ys ++ x ∷ [])) (sym state) order;
      },
      let h = g.pool_head i in
          subst (λ (f : ℕ → Bool). f h ≡ true) (sym state) (update_same g.cache_state h true),
    )

-- A new block stands at the end of its pool, in use.
pub create-IsPool :
    (fresh i : ℕ) (g : Gp) (xs : List ℕ)
    → IsPool g i xs
    → (fresh == 0) ≡ false
    → has fresh xs ≡ false
    → IsPool (cache_create fresh i g).1 i (xs ++ fresh ∷ [])
unfolding cache_create
create-IsPool fresh i g [] v nz out =
    let e : (g.pool_head i == 0) ≡ true = rw v.chain.head in
    rw (nz, e)
      (record {
        chain = record {
          links = (
            ground arith,
            update_same g.cache_last fresh 0,
            update_same g.cache_next fresh 0,
            tt,
          );
          distinct = (refl, tt);
          head = update_same g.pool_head i fresh;
          tail = update_same g.pool_tail i fresh;
          tags = (update_same g.tag fresh (some i), tt);
        };
        idle_first = (λ b. tt, tt);
      })
create-IsPool fresh i g (x ∷ xs) v nz out =
    let c = v.chain in
    let e : (g.pool_head i == 0) ≡ false = rw c.head (ne→== x 0 c.links.0) in
    let B = λ (a : ℕ). a ≡ fresh in
    let elsewhere : (a : ℕ) → has a (x ∷ xs) ≡ true → (a == fresh) ≡ false =
      λ a h. has-ne fresh (x ∷ xs) a out h in
    rw (nz, e)
      (record {
        chain = record {
          links =
              append-Seg g.cache_next g.cache_last x xs fresh (g.pool_tail i) c.tail (ground arith)
                out c.distinct c.links;
          distinct = Distinct-append (x ∷ xs) fresh c.distinct out;
          head = c.head;
          tail = update_same g.pool_tail i fresh ∙ sym (final-append x xs (fresh ∷ []));
          tags =
              All-append (λ a. update g.tag fresh (some i) a ≡ some i) (x ∷ xs) (fresh ∷ [])
                (All-mono (λ a. g.tag a ≡ some i) (λ a. update g.tag fresh (some i) a ≡ some i)
                  (x ∷ xs) (λ a h t. update_other g.tag fresh a (some i) (elsewhere a h) ∙ t)
                  c.tags)
                (update_same g.tag fresh (some i), tt);
        };
        idle_first =
            IdleFirst-append (update g.cache_state fresh true) (x ∷ xs) fresh
              (IdleFirst-frame g.cache_state (update g.cache_state fresh true) (x ∷ xs)
                (λ a h. update_other g.cache_state fresh a true (elsewhere a h)) v.idle_first)
              (update_same g.cache_state fresh true);
      })
