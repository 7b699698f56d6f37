-- ===== src/Mm/Sys/Laws.antt =====
-- The list of system blocks under allocation and release.
use czl.Prelude.{
  ℕ, ◌+◌, ◌≤◌, ◌<◌, ◌≡◌, refl, ◌≢◌, false, ◌||◌, List, [], ◌∷◌, ◌++◌, arith, Option, none, ltb,
  ◌==◌, update, update_same, All, All-remove, ◌⊎◌, inl, inr, true, Bool-cases,
}
use czl.Dll.{has}
use czl.Dll.Unlink.{Distinct-remove, unlink-Seg, unlink_head-first, push-Seg}
use czl.Mm.State.{Gp, word, add_ulong, sh_head_size}
use czl.Mm.Sys.{sys_alloc, sys_release, IsSys}

tags-update :
    (tag : ℕ → Option ℕ) (xs : List ℕ) (p : ℕ)
    → All (λ a. tag a ≡ none) xs
    → All (λ a. update tag p none a ≡ none) xs
tags-update tag [] p h = tt
tags-update tag (x ∷ xs) p (e, h) = (ground arith, tags-update tag xs p h)

-- When malloc gives an unused block and the limit leaves room, czl_mm_sys_alloc returns it at the
-- front of the list, with the size that was asked for and the header, and counts it.
pub sys_alloc-push :
    (fresh size : ℕ) (g : Gp) (xs : List ℕ)
    → IsSys g xs
    → fresh ≢ 0
    → has fresh xs ≡ false
    → g.mm_limit < word
    → g.mm_cnt + size + sh_head_size ≤ g.mm_limit
    → let (p, g') = sys_alloc fresh size g in
      (p ≡ fresh)
      × IsSys g' (fresh ∷ xs)
      × (g'.sys_size fresh ≡ size + sh_head_size)
      × (g'.mm_cnt ≡ g.mm_cnt + size + sh_head_size)
unfolding sys_alloc
sys_alloc-push fresh size g xs v nz out lim room =
    let ok : (ltb g.mm_limit (add_ulong g.mm_cnt (add_ulong size sh_head_size)) || fresh == 0)
        ≡ false =
      ground arith in
    rw ok (
      refl,
      record {
        links = push-Seg g.sys_next g.sys_last xs fresh g.sh_head v.head nz out v.distinct v.links;
        distinct = (out, v.distinct);
        head = refl;
        flags = (ground arith, tags-update g.tag xs fresh v.flags);
      },
      ground arith,
      ground arith,
    )

-- The test of both functions: the limit, and what the system returned.
pub limit_test :
    (limit cnt got : ℕ)
    → (((ltb limit cnt || got == 0) ≡ true) × ((limit < cnt) ⊎ (got ≡ 0)))
      ⊎ (((ltb limit cnt || got == 0) ≡ false) × (cnt ≤ limit) × (got ≢ 0))
limit_test limit cnt got = elim (Bool-cases (ltb limit cnt)) [
  | inl above ↦ inl (rw above refl, inl (ground arith))
  | inr below ↦ elim (Bool-cases (got == 0)) [
    | inl null ↦ inl (rw (below, null) refl, inr (ground arith))
    | inr served ↦ inr (rw (below, served) refl, ground arith, λ e. ground arith)
  ]
]

-- Where the new count is above the limit, or malloc returns NULL, czl_mm_sys_alloc returns 0 and
-- changes nothing. Elsewhere it returns the block that malloc gave, which is not in the list, at the
-- front of the list, with the size that was asked for and the header, and counts it, as words of 32
-- bits.
pub sys_alloc-IsSys :
    (fresh size : ℕ) (g : Gp) (xs : List ℕ)
    → IsSys g xs
    → has fresh xs ≡ false
    → let (p, g') = sys_alloc fresh size g in
      let total = add_ulong size sh_head_size in
      (((g.mm_limit < add_ulong g.mm_cnt total) ⊎ (fresh ≡ 0)) × (p ≡ 0) × (g' ≡ g))
      ⊎ ((add_ulong g.mm_cnt total ≤ g.mm_limit)
          × (fresh ≢ 0)
          × (p ≡ fresh)
          × IsSys g' (fresh ∷ xs)
          × (g'.sys_size fresh ≡ total)
          × (g'.mm_cnt ≡ add_ulong g.mm_cnt total))
unfolding sys_alloc
sys_alloc-IsSys fresh size g xs v out =
    elim (limit_test g.mm_limit (add_ulong g.mm_cnt (add_ulong size sh_head_size)) fresh) [
      | inl (e, why) ↦ rw e (inl (why, refl, refl))
      | inr (e, within, nz) ↦ rw e (
          inr (
            within,
            nz,
            refl,
            record {
              links =
                  push-Seg g.sys_next g.sys_last xs fresh g.sh_head v.head nz out v.distinct
                    v.links;
              distinct = (out, v.distinct);
              head = refl;
              flags = (update_same g.tag fresh none, tags-update g.tag xs fresh v.flags);
            },
            update_same g.sys_size fresh (add_ulong size sh_head_size),
            refl,
          ))
    ]

-- czl_mm_sys_free takes exactly its block out of the list and gives back the size that was counted.
pub sys_release-remove :
    (xs ys : List ℕ) (p : ℕ) (g : Gp)
    → IsSys g (xs ++ p ∷ ys)
    → g.sys_size p ≤ g.mm_cnt
    → g.mm_cnt < word
    → IsSys (sys_release p g) (xs ++ ys) × ((sys_release p g).mm_cnt + g.sys_size p ≡ g.mm_cnt)
unfolding sys_release
sys_release-remove xs ys p g v counted fits =
    let l = unlink-Seg g.sys_next g.sys_last xs ys p v.distinct v.links in
    let e = unlink_head-first g.sys_next g.sys_last xs ys p v.links in
    (
      record {
        links = l;
        distinct = (Distinct-remove xs ys p v.distinct).0;
        head = rw v.head e;
        flags = All-remove _ xs ys p v.flags;
      },
      ground arith,
    )
