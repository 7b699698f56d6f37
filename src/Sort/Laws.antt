-- ===== src/Sort/Laws.antt =====
-- The sorts that czl_sys_sort of code/czl_lib.c calls, for arrays and for tables: they end for every
-- comparison, and sort where the comparison is an order, as that of integers is.
use czl.Prelude.{
  ℕ, zero, suc, ◌≡◌, refl, ap, Bool, true, false, Option, none, some, List, ◌⊎◌, inl, inr, arith,
  ◌==◌, if◌then◌else◌, length, ◌<◌, sym, ◌∙◌,
}
use czl.Opt.Var.{less_long, long_word, int, Var, Fpu, Heap}
use czl.Opt.Compare.{num_less, num_equal}
use czl.Sort.{CmpRet, descending, quick_sort, merge_sort}
use czl.Sort.Compare.{val_cmp, sort_array, sort_table, by_mode}
use czl.Sort.Segments.{true_not_false}
use czl.Sort.Scan.{Fails}
use czl.Sort.Same.{SameAs}
use czl.Sort.Order.{IsSorted, Fits, IsOrder, NotGreater, NotLess, Fits-ascending, Fits-descending}
use czl.Sort.Quick.{SortsTo, quick_sort_lem}
use czl.Sort.MergeSort.{merge_sort_lem}

module _ {A : Type 0} where
  -- The order that a mode asks for.
  abbrev pub Direction : (mode : ℕ) → (A → A → CmpRet) → A → A → Type 0
  Direction zero cmp = NotGreater cmp
  Direction (suc n) cmp = NotLess cmp

  -- A sort returns, with the same elements; it reports a failure only where a comparison fails.
  unfoldable pub Returns : (A → A → CmpRet) → List A → Option (List A × Bool) → Type 0
  Returns cmp a o =
      (r : List A × Bool) × ((o ≡ some r)
        × (SameAs a r.0 × ((r.1 ≡ false) ⊎ ((r.1 ≡ true) × Fails cmp))))

  -- And what it returns is sorted unless a comparison failed.
  unfoldable pub Sorts :
      (A → A → Type 0) → (A → A → CmpRet) → List A → Option (List A × Bool) → Type 0
  Sorts R cmp a o =
      (r : List A × Bool) × ((o ≡ some r)
        × (SameAs a r.0 × (((r.1 ≡ false) × IsSorted R r.0) ⊎ ((r.1 ≡ true) × Fails cmp))))

  unrelated : (cmp : A → A → CmpRet) → Fits (λ x y. Unit) cmp
  unrelated cmp = record {
    sent_left = λ x y e. tt;
    sent_right = λ x y e. tt;
    trans = λ x y z xy yz. tt;
  }

  returns :
      (R : A → A → Type 0) (cmp : A → A → CmpRet) (a : List A) (o : Option (List A × Bool))
      → SortsTo R cmp a o
      → Returns cmp a o
  unfolding Returns
  returns R cmp a o (r, (e, s)) =
      (r, (e, (s.same, elim s.sorted [ inl f ↦ inr f | inr ok ↦ inl ok.0 ])))

  sorts :
      (R : A → A → Type 0) (cmp : A → A → CmpRet) (a : List A) (o : Option (List A × Bool))
      → SortsTo R cmp a o
      → Sorts R cmp a o
  unfolding Sorts
  sorts R cmp a o (r, (e, s)) =
      (r, (e, (s.same, elim s.sorted [ inl f ↦ inr f | inr ok ↦ inl ok ])))

  -- czl_sys_sort ends on every array, whatever the comparison answers and whether or not it fails,
  -- in each mode: the array then has the elements that it had, each as often, and a failure is
  -- reported only if some comparison fails.
  pub sort_array_ends :
      (cmp : A → A → CmpRet) (mode : ℕ) (a : List A) → Returns cmp a (sort_array cmp mode a)
  unfolding sort_array Returns
  sort_array_ends cmp zero a =
      returns (λ x y. Unit) cmp a (quick_sort cmp (suc (length a)) a)
        (quick_sort_lem (λ x y. Unit) cmp (unrelated cmp) (suc (length a)) a (omega arith))
  sort_array_ends cmp (suc mode) a =
      let down = descending cmp in
      let t : (suc mode == 0) ≡ false = ground arith in
      rw t (
        returns (λ x y. Unit) down a (quick_sort down (suc (length a)) a)
          (quick_sort_lem (λ x y. Unit) down (unrelated down) (suc (length a)) a (omega arith)))

  -- Where the comparison is a strict weak order, the array has the elements that it had, and if no
  -- comparison failed they ascend in mode 0 and descend in the others; a failure is reported only if
  -- some comparison fails.
  pub sort_array-Sorts :
      (cmp : A → A → CmpRet) (mode : ℕ) (a : List A)
      → IsOrder cmp
      → Sorts (Direction mode cmp) cmp a (sort_array cmp mode a)
  unfolding sort_array Sorts
  sort_array-Sorts cmp zero a o =
      sorts (NotGreater cmp) cmp a (quick_sort cmp (suc (length a)) a) (
        quick_sort_lem (NotGreater cmp) cmp (Fits-ascending cmp o) (suc (length a)) a (omega arith))
  sort_array-Sorts cmp (suc mode) a o =
      let down = descending cmp in
      let t : (suc mode == 0) ≡ false = ground arith in
      rw t (
        sorts (NotLess cmp) down a (quick_sort down (suc (length a)) a) (
          quick_sort_lem (NotLess cmp) down (Fits-descending cmp o) (suc (length a)) a
            (omega arith)))

  -- The same for tables, by values or by keys.
  abbrev pub TableDirection : (mode : ℕ) → (val key : A → A → CmpRet) → A → A → Type 0
  TableDirection zero val key = NotGreater val
  TableDirection (suc zero) val key = NotLess val
  TableDirection (suc (suc zero)) val key = NotGreater key
  TableDirection (suc (suc (suc n))) val key = NotLess key

  Fits-mode :
      (val key : A → A → CmpRet) (mode : ℕ)
      → IsOrder val
      → IsOrder key
      → Fits (TableDirection mode val key) (by_mode val key mode)
  Fits-mode val key zero ov ok = Fits-ascending val ov
  Fits-mode val key (suc zero) ov ok = Fits-descending val ov
  Fits-mode val key (suc (suc zero)) ov ok = Fits-ascending key ok
  Fits-mode val key (suc (suc (suc n))) ov ok = Fits-descending key ok

  -- czl_sys_sort ends on every table, whatever the comparisons answer and whether or not they fail,
  -- in each mode: no element is lost, none is doubled, and a failure is reported only if some
  -- comparison fails.
  pub sort_table_ends :
      (val key : A → A → CmpRet) (mode : ℕ) (a : List A)
      → Returns (by_mode val key mode) a (sort_table val key mode a)
  unfolding sort_table
  sort_table_ends val key mode a =
      let cmp = by_mode val key mode in
      returns (λ x y. Unit) cmp a (merge_sort cmp (suc (length a)) a)
        (merge_sort_lem (λ x y. Unit) cmp (unrelated cmp) (suc (length a)) a (omega arith))

  -- Where the comparisons of values and of keys are strict weak orders, the table's elements stay
  -- the same, and if no comparison failed they ascend by value in mode 0, descend by value in
  -- mode 1, ascend by key in mode 2 and descend by key in mode 3; a failure is reported only if some
  -- comparison fails.
  pub sort_table-Sorts :
      (val key : A → A → CmpRet) (mode : ℕ) (a : List A)
      → IsOrder val
      → IsOrder key
      → Sorts (TableDirection mode val key) (by_mode val key mode) a (sort_table val key mode a)
  unfolding sort_table
  sort_table-Sorts val key mode a ov ok =
      let cmp = by_mode val key mode in
      sorts (TableDirection mode val key) cmp a (merge_sort cmp (suc (length a)) a) (
        merge_sort_lem (TableDirection mode val key) cmp (Fits-mode val key mode ov ok)
          (suc (length a)) a (omega arith))

-- A variable that holds an integer.
abbrev pub IntVar : Type 0
IntVar = (v : Var) × ((v.type ≡ int) × (v.val < long_word))

module _ (F : Fpu) (H : Heap) (s : H.Store) where
  abbrev pub int_cmp : IntVar → IntVar → CmpRet
  int_cmp x y = val_cmp F H s none x.0 y.0

  -- On integers czl_val_cmp is `<`.
  int_cmp-left : (x y : IntVar) → (int_cmp x y).left ≡ less_long x.0.val y.0.val
  unfolding val_cmp num_less num_equal
  int_cmp-left (x, (xi, xw)) (y, (yi, yw)) = rw (xi, yi) (same x.val y.val)
    where
      same : (a b : ℕ) → (if a == b then false else less_long a b) ≡ less_long a b
      same a b = ground arith

  -- czl_val_cmp on integers is a strict weak order.
  pub int_cmp-IsOrder : IsOrder int_cmp
  int_cmp-IsOrder = record {
    asym = λ x y e. rw (int_cmp-left y x) (asym_long x.0.val y.0.val (sym (int_cmp-left x y) ∙ e));
    weak = λ x y z xy yz. rw (int_cmp-left x z) (
        weak_long x.0.val y.0.val z.0.val (sym (int_cmp-left x y) ∙ xy)
          (sym (int_cmp-left y z) ∙ yz));
  }
    where
      asym_long : (a b : ℕ) → less_long a b ≡ true → less_long b a ≡ false
      asym_long a b e = ground arith

      weak_long :
          (a b c : ℕ) → less_long a b ≡ false → less_long b c ≡ false → less_long a c ≡ false
      weak_long a b c ab bc = ground arith

  -- An array of integers, which no script's function compares, is sorted: for every array of them
  -- czl_sys_sort returns without a failure, with the same elements, no later one less than an earlier
  -- one in mode 0, and none greater in the other modes.
  pub sort_array_ints :
      (mode : ℕ) (a : List IntVar)
      → (r : List IntVar) × ((sort_array int_cmp mode a ≡ some (r, false))
          × (SameAs a r × IsSorted (Direction mode int_cmp) r))
  unfolding Sorts val_cmp
  sort_array_ints mode a =
      let (r, (e, (same, sorted))) = sort_array-Sorts int_cmp mode a int_cmp-IsOrder in
      elim sorted [
        | inl ok ↦ (r.0, (e ∙ ap (λ b. some (r.0, b)) ok.0, (same, ok.1)))
        | inr failed ↦ absurd (true_not_false failed.1.1.1 refl)
      ]
