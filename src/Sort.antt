-- ===== src/Sort.antt =====
-- The sorting functions of code/czl_lib.c: the quick sort of arrays (czl_partition_0 to
-- czl_quick_sort_1) and the merge sort of tables (czl_merge to czl_recursive_merge_sort). A segment
-- of an array is the list of its elements, and so is a chain of table elements.
-- `cmp x y` is what czl_val_cmp or czl_key_cmp does: whether the result is below 0, and whether the
-- script's comparison function failed, which sets gp->error_flag.
pub mod Compare
pub mod Segments
pub mod Scan
pub mod Same
pub mod Ready
pub mod Partition
pub mod Split
pub mod Order
pub mod Quick
pub mod Merge
pub mod MergeSort
pub mod Laws
pub mod Tables
pub mod Words
mod Tests
use mathlib.Core.Option
use czl.Prelude.{
  ℕ, zero, suc, ◌+◌, ◌-◌, Bool, true, false, not, Option, none, some, List, [], ◌∷◌, ◌++◌, ltb,
  ◌==◌, ◌||◌, if◌then◌else◌, length, get_or, set,
}

module _ {A : Type 0} where
  abbrev pub take : ℕ → List A → List A
  take zero a = []
  take (suc n) [] = []
  take (suc n) (x ∷ a) = x ∷ take n a

  abbrev pub drop : ℕ → List A → List A
  drop zero a = a
  drop (suc n) [] = []
  drop (suc n) (x ∷ a) = drop n a

  -- CZL_VAL_SWAP and CZL_INT_SWAP on two elements.
  abbrev pub swap : A → List A → ℕ → ℕ → List A
  swap d a i j = set (set a i (get_or a j d)) j (get_or a i d)

-- The outcome of a comparison: `left` says that the first element goes to the left part.
pub record CmpRet : Type 0 where
  pub left : Bool
  pub failed : Bool

-- czl_partition_0 puts what is below the pivot to the left, czl_partition_1 what is not.
abbrev pub descending : {A : Type 0} → (A → A → CmpRet) → A → A → CmpRet
descending cmp x y = record { left = not ((cmp x y).left); failed = (cmp x y).failed }

module _ {A : Type 0} (cmp : A → A → CmpRet) (p : A) where
  -- `while (!gp->error_flag && lh < rh && czl_val_cmp(gp, a+rh, a) >= 0) --rh;`, with the pivot `p`
  -- in a[0], which the loop does not write.
  unfoldable pub scan_right : List A → (lh rh : ℕ) → Bool → ℕ × Bool
  scan_right a lh zero err = (0, err)
  scan_right a lh (suc r) err =
      let c = cmp (get_or a (suc r) p) p in
      let rest = scan_right a lh r c.failed in
      if err
      then (suc r, true)
      else if ltb lh (suc r)
      then if c.left then (suc r, c.failed) else rest
      else (suc r, false)

  -- The same for `++lh`; fuel counts the rounds.
  unfoldable pub scan_left : (fuel : ℕ) → List A → (lh rh : ℕ) → Bool → ℕ × Bool
  scan_left zero a lh rh err = (lh, err)
  scan_left (suc k) a lh rh err =
      let c = cmp (get_or a lh p) p in
      let rest = scan_left k a (lh + 1) rh c.failed in
      if err
      then (lh, true)
      else if ltb lh rh
      then if c.left then rest else (lh, c.failed)
      else (lh, false)

  -- What the loop of the partition leaves: the segment, the place where the scans met, and the flag.
  pub record Met : Type 0 where
    pub segment : List A
    pub place : ℕ
    pub err : Bool

  unfoldable pub part_loop : (fuel : ℕ) → List A → (lh rh : ℕ) → Option Met
  part_loop zero a lh rh = none
  part_loop (suc k) a lh rh =
      let (rh', e) = scan_right a lh rh false in
      let (lh', e') = scan_left (rh' - lh) a lh rh' e in
      let rest = part_loop k (swap p a lh' rh') lh' rh' in
      if e'
      then some (record { segment = a; place = 0; err = true })
      else if lh' == rh'
      then some (record { segment = a; place = lh'; err = false })
      else rest

-- A segment, the pivot's place, and whether a comparison failed.
pub record Parted (A : Type 0) : Type 0 where
  pub parts : List A
  pub pivot : ℕ
  pub stop : Bool

module _ {A : Type 0} where
  -- The segments on both sides of the pivot, in their places; a failure in the first stops the sort.
  abbrev pub join_parts :
      A → Parted A → Option (List A × Bool) → Option (List A × Bool) → Option (List A × Bool)
  join_parts p r none hi = none
  join_parts p r (some (lo, true)) hi = some (lo ++ drop r.pivot r.parts, true)
  join_parts p r (some (lo, false)) none = none
  join_parts p r (some (lo, false)) (some (hi, e)) = some (lo ++ get_or r.parts r.pivot p ∷ hi, e)

  abbrev pub sort_parts :
      (List A → Option (List A × Bool)) → A → Option (Parted A) → Option (List A × Bool)
  sort_parts sort p none = none
  sort_parts sort p (some r) =
      if r.stop
      then some (r.parts, true)
      else join_parts p r (sort (take r.pivot r.parts)) (sort (drop (suc r.pivot) r.parts))

  abbrev pub in_front : A → Option (List A × Bool) → Option (List A × Bool)
  in_front z none = none
  in_front z (some (a, err)) = some (z ∷ a, err)

  -- czl_divide_from on the chain x ∷ after: `position` runs over the chain twice as fast as
  -- midpoint, which starts at `x`. The halves.
  abbrev pub divide : A → (after position : List A) → List A × List A
  divide x after [] = (x ∷ [], after)
  divide x after (q ∷ []) = (x ∷ [], after)
  divide x [] (q ∷ r ∷ position) = (x ∷ [], [])
  divide x (y ∷ after) (q ∷ r ∷ position) =
      let (first, second) = divide y after position in (x ∷ first, second)

module _ {A : Type 0} (cmp : A → A → CmpRet) where
  -- The pivot changes places with the element where the scans met, if that belongs to the left.
  abbrev pub place_pivot : (p : A) → Met cmp p → Parted A
  place_pivot p m =
      let c = cmp (get_or m.segment m.place p) p in
      if m.err
      then record { parts = m.segment; pivot = 0; stop = true }
      else if c.left
      then if c.failed
        then record { parts = m.segment; pivot = 0; stop = true }
        else record { parts = swap p m.segment 0 m.place; pivot = m.place; stop = false }
      else record { parts = m.segment; pivot = 0; stop = c.failed }

  -- czl_partition_0 and, with `descending`, czl_partition_1, on a segment p ∷ a of two elements and
  -- more. Each round but the first brings the scans nearer.
  unfoldable pub partition : A → List A → Option (Parted A)
  partition p a = Option.map (place_pivot p) (part_loop cmp p (length a + 1) (p ∷ a) 1 (length a))

  -- czl_quick_sort_0. Fuel bounds the depth of the calls.
  unfoldable pub quick_sort : (fuel : ℕ) → List A → Option (List A × Bool)
  quick_sort zero a = none
  quick_sort (suc k) [] = some ([], false)
  quick_sort (suc k) (x ∷ []) = some (x ∷ [], false)
  quick_sort (suc k) (p ∷ x ∷ a) = sort_parts (λ b. quick_sort k b) p (partition p (x ∷ a))

  -- czl_merge: `err` is the mode 4, in which the first chain goes in front. The result is the chain
  -- and the flag. Fuel counts the elements.
  unfoldable pub merge : (fuel : ℕ) → Bool → List A → List A → Option (List A × Bool)
  merge zero err first second = none
  merge (suc k) err [] second = some (second, err)
  merge (suc k) err (x ∷ first) [] = some (x ∷ first, err)
  merge (suc k) err (x ∷ first) (y ∷ second) =
      let c = cmp x y in
      let err' = err || c.failed in
      let take_first = merge k err' first (y ∷ second) in
      let take_second = merge k err' (x ∷ first) second in
      if err || c.left then in_front x take_first else in_front y take_second

  abbrev pub merge_with : List A → Option (List A × Bool) → Option (List A × Bool)
  merge_with first none = none
  merge_with first (some (second, err)) =
      merge (suc (length first + length second)) err first second

  -- The halves merged, once the first is sorted; the second is sorted unless a comparison failed.
  abbrev pub merge_halves :
      (List A → Option (List A × Bool)) → List A → Option (List A × Bool) → Option (List A × Bool)
  merge_halves sort second none = none
  merge_halves sort second (some (first, true)) =
      merge (suc (length first + length second)) true first second
  merge_halves sort second (some (first, false)) = merge_with first (sort second)

  -- czl_recursive_merge_sort. Fuel bounds the depth of the calls.
  unfoldable pub merge_sort : (fuel : ℕ) → List A → Option (List A × Bool)
  merge_sort zero a = none
  merge_sort (suc k) [] = some ([], false)
  merge_sort (suc k) (x ∷ []) = some (x ∷ [], false)
  merge_sort (suc k) (x ∷ y ∷ a) =
      let (first, second) = divide x (y ∷ a) (y ∷ a) in
      merge_halves (λ b. merge_sort k b) second (merge_sort k first)
