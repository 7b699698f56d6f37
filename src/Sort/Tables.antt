-- ===== src/Sort/Tables.antt =====
-- The merge sort of tables in code/czl_lib.c with the program's own comparisons, czl_val_cmp and
-- czl_key_cmp, on tables whose values are integers.
use czl.Prelude.{
  ℕ, zero, suc, ◌≡◌, refl, sym, ◌∙◌, ap, true, false, none, some, List, [], ◌∷◌, inl, inr, arith,
  ◌==◌, if◌then◌else◌, ◌<◌,
}
use czl.Opt.Var.{less_long, long_word, int, Fpu, Heap}
use czl.Opt.Compare.{num_less, num_equal}
use czl.Sort.{CmpRet}
use czl.Sort.Compare.{TabEle, val_cmp, key_cmp, sort_table, by_mode}
use czl.Sort.Segments.{true_not_false}
use czl.Sort.Scan.{Fails}
use czl.Sort.Same.{SameAs}
use czl.Sort.Order.{IsSorted, IsOrder, All-map}
use czl.Sort.Laws.{TableDirection, sort_table-Sorts, Sorts}

-- An element with an integer as its value. The key's word is a number or holds a text's address.
abbrev pub IntEle : Type 0
IntEle = (e : TabEle) × ((e.value.type ≡ int) × ((e.value.val < long_word) × (e.key < long_word)))

-- The order of the elements that follow each other: by the numbers that are their values in the
-- modes 0 and 1, by the words of their keys, as signed numbers, in the others; ascending in the modes
-- 0 and 2.
abbrev pub InOrder : (mode : ℕ) → IntEle → IntEle → Type 0
InOrder zero x y = less_long y.0.value.val x.0.value.val ≡ false
InOrder (suc zero) x y = less_long x.0.value.val y.0.value.val ≡ false
InOrder (suc (suc zero)) x y = less_long y.0.key x.0.key ≡ false
InOrder (suc (suc (suc n))) x y = less_long x.0.key y.0.key ≡ false

module _ {A : Type 0} where
  IsSorted-map :
      (R S : A → A → Type 0) (xs : List A)
      → ((x y : A) → R x y → S x y)
      → IsSorted R xs
      → IsSorted S xs
  unfolding IsSorted
  IsSorted-map R S [] f h = tt
  IsSorted-map R S (x ∷ xs) f h = (All-map xs (f x) h.0, IsSorted-map R S xs f h.1)

  -- A comparison of words is a strict weak order.
  words-IsOrder :
      (cmp : A → A → CmpRet) (word : A → ℕ)
      → ((x y : A) → (cmp x y).left ≡ less_long (word x) (word y))
      → IsOrder cmp
  words-IsOrder cmp word reads = record {
    asym = λ x y e. rw (reads y x) (asym_long (word x) (word y) (sym (reads x y) ∙ e));
    weak = λ x y z xy yz.
        rw (reads x z)
          (weak_long (word x) (word y) (word z) (sym (reads x y) ∙ xy) (sym (reads y z) ∙ yz));
  }
    where
      asym_long : (a b : ℕ) → less_long a b ≡ true → less_long b a ≡ false
      asym_long a b e = ground arith

      weak_long :
          (a b c : ℕ) → less_long a b ≡ false → less_long b c ≡ false → less_long a c ≡ false
      weak_long a b c ab bc = ground arith

module _ (F : Fpu) (H : Heap) (s : H.Store) (strcmp : List ℕ → List ℕ → ℕ) where
  -- No function of the script compares.
  abbrev pub ele_val : IntEle → IntEle → CmpRet
  ele_val x y = val_cmp F H s none x.0.value y.0.value

  abbrev pub ele_key : IntEle → IntEle → CmpRet
  ele_key x y = key_cmp strcmp H s x.0 y.0

  same_long : (a b : ℕ) → (if a == b then false else less_long a b) ≡ less_long a b
  same_long a b = ground arith

  ele_val-left : (x y : IntEle) → (ele_val x y).left ≡ less_long x.0.value.val y.0.value.val
  unfolding val_cmp num_less num_equal
  ele_val-left (x, (xi, xw)) (y, (yi, yw)) = rw (xi, yi) (same_long x.value.val y.value.val)

  ele_key-left : (x y : IntEle) → (ele_key x y).left ≡ less_long x.0.key y.0.key
  unfolding key_cmp
  ele_key-left (x, (xi, xw)) (y, (yi, yw)) = rw (xi, yi) (same_long x.key y.key)

  without_failure : (mode : ℕ) → Fails (by_mode ele_val ele_key mode) → ⊥
  unfolding val_cmp key_cmp
  without_failure zero f = true_not_false f.1.1 refl
  without_failure (suc zero) f = true_not_false f.1.1 refl
  without_failure (suc (suc zero)) f = true_not_false f.1.1 refl
  without_failure (suc (suc (suc n))) f = true_not_false f.1.1 refl

  in_order : (mode : ℕ) (x y : IntEle) → TableDirection mode ele_val ele_key x y → InOrder mode x y
  in_order zero x y h = sym (ele_val-left y x) ∙ h
  in_order (suc zero) x y h = sym (ele_val-left x y) ∙ h
  in_order (suc (suc zero)) x y h = sym (ele_key-left y x) ∙ h
  in_order (suc (suc (suc n))) x y h = sym (ele_key-left x y) ∙ h

  -- A table whose values are integers, which no script's function compares, is sorted in every mode:
  -- czl_sys_sort returns without a failure and with the same elements. They ascend by value in mode
  -- 0 and descend by value in mode 1; they ascend by the word of the key in mode 2 and descend by it
  -- in mode 3, as which greater numbers count. That word is the number of an integer key; of a text
  -- key it holds the address.
  pub sort_table_ints :
      (mode : ℕ) (a : List IntEle)
      → (r : List IntEle) × ((sort_table ele_val ele_key mode a ≡ some (r, false))
          × (SameAs a r × IsSorted (InOrder mode) r))
  unfolding Sorts
  sort_table_ints mode a =
      let (r, (e, (same, sorted))) =
        sort_table-Sorts ele_val ele_key mode a
          (words-IsOrder ele_val (λ x. x.0.value.val) ele_val-left)
          (words-IsOrder ele_key (λ x. x.0.key) ele_key-left) in
      elim sorted [
        | inl ok ↦ (
          r.0,
          (
            e ∙ ap (λ b. some (r.0, b)) ok.0,
            (
              same,
              IsSorted-map (TableDirection mode ele_val ele_key) (InOrder mode) r.0 (in_order mode)
                  ok.1,
            ),
          ),
        )
        | inr failed ↦ absurd (without_failure mode failed.1)
      ]
