-- ===== src/Mm/Sys/Realloc.antt =====
-- czl_mm_sys_realloc of code/czl_mm.c: the block keeps its place in the list.
use czl.Prelude.{
  ℕ, ◌<◌, ◌≤◌, ◌≡◌, ◌≢◌, ◌⊎◌, ◌∙◌, refl, sym, subst, true, false, none, List, [], ◌∷◌, ◌++◌, arith,
  ◌==◌, if◌then◌else◌, update, update_same, All, Bool-cases, inl, inr, ne→==,
}
use mathlib.Core.Path.{fun_ext}
use czl.Dll.{first, final, has, Distinct, Seg}
use czl.Dll.Unlink.{Distinct-split, Distinct-join, final-ne_zero}
use czl.Dll.Laws.{
  has-ne, has-final, final-ne, has-append, seg_split, seg_join, seg-update_next, seg-update_last,
  seg_relink_end, seg_relink_start,
}
use czl.Mm.State.{Gp, add_ulong, sub_ulong, sh_head_size}
use czl.Mm.Sys.Laws.{limit_test}
use czl.Mm.Sys.{IsSys, sys_realloc}

-- The links of a list whose node `p` was copied to `q`, in two steps: the node in front is pointed to
-- the copy, then the node behind.
module _ (N L : ℕ → ℕ) (p q b : ℕ) where
  forward :
      (xs ys : List ℕ)
      → Distinct xs
      → ((a : ℕ) → has a xs ≡ true → has a ys ≡ false)
      → has q xs ≡ false
      → N q ≡ b
      → Seg N L 0 xs p
      → Seg N L p ys 0
      → let N' = if final 0 xs == 0 then N else update N (final 0 xs) q in
        Seg N' L 0 xs q × Seg N' L p ys 0 × (N' q ≡ b)
  forward [] ys d apart out e h k = (tt, k, e)
  forward (x ∷ xs) ys d apart out e h k =
      let z = ne→== (final x xs) 0 (final-ne_zero N L 0 x xs p h) in
      let f = final-ne x xs q out in
      let there = apart (final x xs) (has-final x xs) in
      let n : (if final x xs == 0 then N else update N (final x xs) q) ≡ update N (final x xs) q =
        rw z refl in
      subst (λ M. Seg M L 0 (x ∷ xs) q × Seg M L p ys 0 × (M q ≡ b)) (sym n)
        (
          seg_relink_end N L 0 x xs p q d h,
          seg-update_next N L p ys 0 (final x xs) q there k,
          rw f e,
        )

  backward :
      (xs ys : List ℕ)
      → Distinct ys
      → ((a : ℕ) → has a xs ≡ true → has a ys ≡ false)
      → has q ys ≡ false
      → L q ≡ b
      → Seg N L 0 xs q
      → Seg N L p ys 0
      → let L' = if first ys 0 == 0 then L else update L (first ys 0) q in
        Seg N L' 0 xs q × Seg N L' q ys 0 × (L' q ≡ b)
  backward xs [] d apart out e h k = (h, tt, e)
  backward xs (y ∷ ys) d apart out e h k =
      let z = ne→== y 0 k.0 in
      let there : has y xs ≡ false = ground (arith, apart y) in
      let f : (q == y) ≡ false = ground arith in
      let n : (if y == 0 then L else update L y q) ≡ update L y q = rw z refl in
      subst (λ M. Seg N M 0 xs q × Seg N M q (y ∷ ys) 0 × (M q ≡ b)) (sym n)
        (seg-update_last N L 0 xs q y q there h, seg_relink_start N L p q y ys 0 d k, rw f e)

-- The copy takes the node's place.
module _ (g : Gp) (xs ys : List ℕ) (p q : ℕ) (v : IsSys g (xs ++ p ∷ ys))
    (out : has q (xs ++ p ∷ ys) ≡ false) where
  out_parts : (has q xs ≡ false) × (has q ys ≡ false) × ((q == p) ≡ false)
  out_parts = let h = has-append q xs (p ∷ ys) in ground arith

  abbrev pub copied_next : ℕ → ℕ
  copied_next = update g.sys_next q (g.sys_next p)

  abbrev pub copied_last : ℕ → ℕ
  copied_last = update g.sys_last q (g.sys_last p)

  moved-links :
      q ≢ 0
      → Seg
          (if copied_last q == 0 then copied_next else update copied_next (copied_last q) q)
          (if copied_next q == 0 then copied_last else update copied_last (copied_next q) q)
          0
          (xs ++ q ∷ ys)
          0
  moved-links nz =
      let N = copied_next in
      let L = copied_last in
      let parts = seg_split g.sys_next g.sys_last 0 xs (p ∷ ys) 0 v.links in
      let d = Distinct-split xs (p ∷ ys) v.distinct in
      let o = out_parts in
      let lq : L q ≡ final 0 xs = update_same g.sys_last q (g.sys_last p) ∙ parts.1.1 in
      let nq : N q ≡ first ys 0 = update_same g.sys_next q (g.sys_next p) ∙ parts.1.2 in
      let apart : (a : ℕ) → has a xs ≡ true → has a ys ≡ false =
        λ a i. let h = d.2 a i in ground arith in
      let before =
        seg-update_last N g.sys_last 0 xs p q (g.sys_last p) o.0
          (seg-update_next g.sys_next g.sys_last 0 xs p q (g.sys_next p) o.0 parts.0) in
      let behind =
        seg-update_last N g.sys_last p ys 0 q (g.sys_last p) o.1
          (seg-update_next g.sys_next g.sys_last p ys 0 q (g.sys_next p) o.1 parts.1.3) in
      let f = forward N L p q (first ys 0) xs ys d.0 apart o.0 nq before behind in
      let N' = if final 0 xs == 0 then N else update N (final 0 xs) q in
      let b = backward N' L p q (final 0 xs) xs ys d.1.1 apart o.1 lq f.0 f.1 in
      let L' = if first ys 0 == 0 then L else update L (first ys 0) q in
      let joined : Seg N' L' 0 (xs ++ q ∷ ys) 0 =
        seg_join N' L' 0 xs (q ∷ ys) 0 b.0 (nz, b.2, f.2, b.1) in
      subst
        (λ a.
          Seg (if a == 0 then N else update N a q) (if N q == 0 then L else update L (N q) q) 0
            (xs ++ q ∷ ys) 0)
        (sym lq)
        (subst (λ c. Seg N' (if c == 0 then L else update L c q) 0 (xs ++ q ∷ ys) 0) (sym nq)
          joined)

  moved-Distinct : Distinct (xs ++ q ∷ ys)
  moved-Distinct =
      let d = Distinct-split xs (p ∷ ys) v.distinct in
      let o = out_parts in
      Distinct-join xs (q ∷ ys) d.0 (o.1, d.1.1)
        (λ a i. let h = d.2 a i in let n = has-ne q xs a o.0 i in ground arith)

  moved-head : (if copied_last q == 0 then q else g.sh_head) ≡ first (xs ++ q ∷ ys) 0
  moved-head =
      let parts = seg_split g.sys_next g.sys_last 0 xs (p ∷ ys) 0 v.links in
      let lq : copied_last q ≡ final 0 xs = update_same g.sys_last q (g.sys_last p) ∙ parts.1.1 in
      subst (λ a. (if a == 0 then q else g.sh_head) ≡ first (xs ++ q ∷ ys) 0) (sym lq)
        (on_front xs v.head parts.0)
    where
      on_front :
          (xs : List ℕ)
          → g.sh_head ≡ first (xs ++ p ∷ ys) 0
          → Seg g.sys_next g.sys_last 0 xs p
          → (if final 0 xs == 0 then q else g.sh_head) ≡ first (xs ++ q ∷ ys) 0
      on_front [] e h = refl
      on_front (x ∷ xs) e h =
          let z = ne→== (final x xs) 0 (final-ne_zero g.sys_next g.sys_last 0 x xs p h) in rw z e

  moved-flags : All (λ a. update (update g.tag q (g.tag p)) q none a ≡ none) (xs ++ q ∷ ys)
  moved-flags = go xs v.flags
    where
      here : (a : ℕ) → g.tag a ≡ none → update (update g.tag q (g.tag p)) q none a ≡ none
      here a e = elim (Bool-cases (a == q)) [ inl c ↦ rw c refl | inr c ↦ rw c e ]

      rest :
          (zs : List ℕ)
          → All (λ a. g.tag a ≡ none) zs
          → All (λ a. update (update g.tag q (g.tag p)) q none a ≡ none) zs
      rest [] h = tt
      rest (z ∷ zs) h = (here z h.0, rest zs h.1)

      go :
          (zs : List ℕ)
          → All (λ a. g.tag a ≡ none) (zs ++ p ∷ ys)
          → All (λ a. update (update g.tag q (g.tag p)) q none a ≡ none) (zs ++ q ∷ ys)
      go [] h = (update_same (update g.tag q (g.tag p)) q none, rest ys h.1)
      go (z ∷ zs) h = (here z h.0, go zs h.1)

-- A block that realloc left where it was has its own header written again.
module _ (g : Gp) (xs ys : List ℕ) (p q : ℕ) (v : IsSys g (xs ++ p ∷ ys)) (e : q ≡ p) where
  rewritten : {A : Type 0} (f : ℕ → A) → update f q (f p) ≡ f
  rewritten f = fun_ext λ a. elim (Bool-cases (a == q)) [
    | inl c ↦ let s : a ≡ p = ground (arith, e) in rw (c, s) refl
    | inr c ↦ rw c refl
  ]

  here-links :
      Seg
        (update g.sys_next q (g.sys_next p))
        (update g.sys_last q (g.sys_last p))
        0
        (xs ++ q ∷ ys)
        0
  here-links = rw (rewritten g.sys_next, rewritten g.sys_last, e) v.links

  here-flags : All (λ a. update g.tag q (g.tag p) a ≡ none) (xs ++ q ∷ ys)
  here-flags =
      subst (λ T. All (λ a. T a ≡ none) (xs ++ q ∷ ys)) (sym (rewritten g.tag)) (rw e v.flags)

-- What moves has left the address of the old block and stands at none of the others.
moved_away :
    (q p : ℕ) (xs ys : List ℕ)
    → has q (xs ++ ys) ≡ false
    → (q == p) ≡ false
    → has q (xs ++ p ∷ ys) ≡ false
moved_away q p xs ys out ne =
    let e = has-append q xs ys in let f = has-append q xs (p ∷ ys) in ground arith

-- Where the new count is above the limit, or realloc returns NULL, the result is 0 and nothing
-- changes. Elsewhere the block, which realloc left where it was or moved to an address of no other
-- block, keeps its place in the list of system blocks, and the manager's count changes by the
-- difference of the sizes, as words of 32 bits.
pub sys_realloc-IsSys :
    (xs ys : List ℕ) (p moved new_size old_size : ℕ) (g : Gp)
    → IsSys g (xs ++ p ∷ ys)
    → has moved (xs ++ ys) ≡ false
    → let (q, g') = sys_realloc moved p new_size old_size g in
      let cnt = add_ulong (sub_ulong new_size old_size) g.mm_cnt in
      (((g.mm_limit < cnt) ⊎ (moved ≡ 0)) × (q ≡ 0) × (g' ≡ g))
      ⊎ ((cnt ≤ g.mm_limit)
          × (moved ≢ 0)
          × (q ≡ moved)
          × IsSys g' (xs ++ moved ∷ ys)
          × (g'.sys_size moved ≡ add_ulong sh_head_size new_size)
          × (g'.mm_cnt ≡ cnt))
unfolding sys_realloc
sys_realloc-IsSys xs ys p moved new_size old_size g v out =
    elim (limit_test g.mm_limit (add_ulong (sub_ulong new_size old_size) g.mm_cnt) moved) [
      | inl (e, why) ↦ rw e (inl (why, refl, refl))
      | inr (e, within, nz) ↦ elim (Bool-cases (moved == p)) [
        | inl stays ↦
            let same : moved ≡ p = ground arith in
            rw (e, stays)
              (inr (
                within,
                nz,
                refl,
                record {
                  links = here-links g xs ys p moved v same;
                  distinct = rw same v.distinct;
                  head = rw same v.head;
                  flags = here-flags g xs ys p moved v same;
                },
                update_same g.sys_size moved (add_ulong sh_head_size new_size),
                refl,
              ))
        | inr moves ↦
            let away = moved_away moved p xs ys out moves in
            rw (e, moves)
              (inr (
                within,
                nz,
                refl,
                record {
                  links = moved-links g xs ys p moved v away nz;
                  distinct = moved-Distinct g xs ys p moved v away;
                  head = moved-head g xs ys p moved v away;
                  flags = moved-flags g xs ys p moved v away;
                },
                update_same g.sys_size moved (add_ulong sh_head_size new_size),
                refl,
              ))
      ]
    ]
