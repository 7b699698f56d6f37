-- ===== src/Mm/Sizes/Classes.antt =====
-- The forty size classes, and what czl_mm_sp_get finds in them.
use czl.Prelude.{
  ℕ, ◌+◌, ◌-◌, ◌*◌, ◌≤◌, ◌<◌, ◌≡◌, refl, subst, sym, Bool, true, ◌&&◌, List, arith, leb, ltb,
  leb→le, and_split, ltb→lt, passes_under, passes_under_sound, get_or,
}
use czl.Mm.Sizes.{SpType, SpPool, obj_sp, sp_range, sp_pool_init, pool_init, max_of, sp_get}

abbrev pub min_of : List SpPool → ℕ → ℕ
min_of pools i = (get_or pools i (sp_pool_init SpType.undef_sp 0 0)).min

-- Whether a size lies in the class that is found for it, and wastes at most a ninth.
classified : List SpPool → ℕ → Bool
unfolding sp_get
classified pools n =
    let k = sp_get (n + 1) pools in
    ltb k sp_range
    && (leb (min_of pools k) (n + 1)
        && (leb (n + 1) (max_of pools k) && leb (9 * (max_of pools k - (n + 1))) (n + 1 + 8)))

all_classified : (type : SpType) → passes_under (classified (pool_init 0 type)) 515 ≡ true
unfolding classified pool_init passes_under
all_classified obj_sp = refl
all_classified _ = refl

-- Every size from 1 to 515 bytes has a class among the forty pools: its blocks are at least as
-- large as the size, the size lies in the class's own range, and the block exceeds it by at most
-- a ninth of it (rounded up by less than one byte).
pub sp_get_fits :
    (type : SpType) (size : ℕ)
    → 1 ≤ size
    → size ≤ 515
    → let pools = pool_init 0 type in
      let k = sp_get size pools in
      (k < sp_range)
      × (min_of pools k ≤ size)
      × (size ≤ max_of pools k)
      × (9 * (max_of pools k - size) ≤ size + 8)
unfolding classified
sp_get_fits type size lo hi =
    let pools = pool_init 0 type in
    let e : size ≡ (size - 1) + 1 = omega arith in
    let h =
      passes_under_sound (classified pools) 515 (size - 1) (omega arith) (all_classified type) in
    let (a, r) = and_split _ _ h in
    let (b, r') = and_split _ _ r in
    let (c, d) = and_split _ _ r' in
    let k = sp_get ((size - 1) + 1) pools in
    subst
      (λ (n : ℕ).
        let k = sp_get n pools in
        (k < sp_range)
        × (min_of pools k ≤ n)
        × (n ≤ max_of pools k)
        × (9 * (max_of pools k - n) ≤ n + 8))
      (sym e) (ltb→lt _ _ a, leb→le _ _ b, leb→le _ _ c, leb→le _ _ d)
