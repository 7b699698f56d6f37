-- ===== src/Sort/MergeSort.antt =====
-- czl_divide_from and czl_recursive_merge_sort of code/czl_lib.c: a chain is cut in the middle, and
-- the sort ends and sorts.
use czl.Prelude.{
  ℕ, zero, suc, ◌+◌, ◌/◌, ◌≤◌, ◌<◌, ◌≡◌, refl, ap, ◌∙◌, Bool, true, false, Option, some, List, [],
  ◌∷◌, ◌++◌, arith, length, length-append, inl, inr, subst, sym,
}
use czl.Sort.{CmpRet, merge, divide, merge_halves, merge_sort}
use czl.Sort.Segments.{true_not_false}
use czl.Sort.Scan.{Fails}
use czl.Sort.Same.{SameAs, SameAs-refl, SameAs-append, SameAs-trans}
use czl.Sort.Order.{IsSorted, Fits}
use czl.Sort.Merge.{merge_failed, merge_lem}
use czl.Sort.Quick.{Sorting, SortsTo}

module _ {A : Type 0} where
  -- The halves of the chain put together are the chain.
  divide_append :
      (x : A) (after position : List A)
      → (divide x after position).0 ++ (divide x after position).1 ≡ x ∷ after
  divide_append x after [] = refl
  divide_append x after (q ∷ []) = refl
  divide_append x [] (q ∷ r ∷ position) = refl
  divide_append x (y ∷ after) (q ∷ r ∷ position) = ap (λ a. x ∷ a) (divide_append y after position)

  divide_first :
      (x : A) (after position : List A)
      → length position ≤ length after
      → length ((divide x after position).0) ≡ 1 + length position / 2
  divide_first x after [] le = refl
  divide_first x after (q ∷ []) le = refl
  divide_first x [] (q ∷ r ∷ position) le = absurd (omega arith)
  divide_first x (y ∷ after) (q ∷ r ∷ position) le =
      omega (arith, divide_first y after position (omega arith))

  -- czl_divide_from cuts a chain of two elements and more in the middle: the halves, put together,
  -- are the chain, the first is as long as the second or longer by one element, and neither is empty.
  pub divide_halves :
      (x y : A) (a : List A)
      → let (first, second) = divide x (y ∷ a) (y ∷ a) in
        (first ++ second ≡ x ∷ y ∷ a)
        × ((length second ≤ length first)
            × ((length first ≤ length second + 1) × (1 ≤ length second)))
  divide_halves x y a =
      let whole = divide_append x (y ∷ a) (y ∷ a) in
      let both = length-append ((divide x (y ∷ a) (y ∷ a)).0) ((divide x (y ∷ a) (y ∷ a)).1) in
      let sum : length (x ∷ y ∷ a)
          ≡ length ((divide x (y ∷ a) (y ∷ a)).0) + length ((divide x (y ∷ a) (y ∷ a)).1) =
        ap length (sym whole) ∙ both in
      let half = divide_first x (y ∷ a) (y ∷ a) (omega arith) in
      (whole, (omega (arith, sum, half), (omega (arith, sum, half), omega (arith, sum, half))))

module _ {A : Type 0} (R : A → A → Type 0) (cmp : A → A → CmpRet) (fits : Fits R cmp) where
  -- A merge after a failed comparison.
  halves_failed :
      (a b first second : List A)
      → Fails cmp
      → SameAs a first
      → SameAs b second
      → SortsTo R cmp (a ++ b) (merge cmp (suc (length first + length second)) true first second)
  halves_failed a b first second f sf ss =
      let m = merge_failed cmp (suc (length first + length second)) first second (omega arith) in
      (
        (m.0, true),
        (
          m.1.0,
          record {
            same =
                SameAs-trans (a ++ b) (first ++ second) m.0 (SameAs-append a b first second sf ss)
                  m.1.1;
            sorted = inl (refl, f);
          },
        ),
      )

  -- And without one.
  halves_sorted :
      (a b first second : List A)
      → IsSorted R first
      → IsSorted R second
      → SameAs a first
      → SameAs b second
      → SortsTo R cmp (a ++ b) (merge cmp (suc (length first + length second)) false first second)
  halves_sorted a b first second of os sf ss =
      let m =
        merge_lem cmp R fits (suc (length first + length second)) first second (omega arith) of
          os in
      (
        m.0,
        (
          m.1.0,
          record {
            same =
                SameAs-trans (a ++ b) (first ++ second) (m.0.0)
                  (SameAs-append a b first second sf ss) m.1.1.same;
            sorted = m.1.1.sorted;
          },
        ),
      )

  second_half :
      (a b first : List A) (r : List A × Bool)
      → IsSorted R first
      → SameAs a first
      → Sorting R cmp b r
      → SortsTo R cmp (a ++ b) (merge cmp (suc (length first + length (r.0))) (r.1) first (r.0))
  second_half a b first (second, true) of sf s = elim s.sorted [
    | inl failed ↦ halves_failed a b first second failed.1 sf s.same
    | inr ok ↦ absurd (true_not_false refl ok.0)
  ]
  second_half a b first (second, false) of sf s = elim s.sorted [
    | inl failed ↦ absurd (true_not_false failed.0 refl)
    | inr ok ↦ halves_sorted a b first second of ok.1 sf s.same
  ]

  halves_lem :
      (sort : List A → Option (List A × Bool)) (a b : List A) (r : List A × Bool)
      → Sorting R cmp a r
      → SortsTo R cmp b (sort b)
      → SortsTo R cmp (a ++ b) (merge_halves cmp sort b (some r))
  halves_lem sort a b (first, true) s sb = elim s.sorted [
    | inl failed ↦ halves_failed a b first b failed.1 s.same (SameAs-refl b)
    | inr ok ↦ absurd (true_not_false refl ok.0)
  ]
  halves_lem sort a b (first, false) s sb = elim s.sorted [
    | inl failed ↦ absurd (true_not_false failed.0 refl)
    | inr ok ↦ rw sb.1.0 (second_half a b first sb.0 ok.1 s.same sb.1.1)
  ]

  merge_sort_empty : (k : ℕ) → SortsTo R cmp [] (merge_sort cmp (suc k) [])
  unfolding merge_sort IsSorted
  merge_sort_empty k =
      (([], false), (refl, record { same = SameAs-refl []; sorted = inr (refl, tt) }))

  merge_sort_one : (k : ℕ) (x : A) → SortsTo R cmp (x ∷ []) (merge_sort cmp (suc k) (x ∷ []))
  unfolding merge_sort IsSorted
  merge_sort_one k x = (
    (x ∷ [], false),
    (refl, record { same = SameAs-refl (x ∷ []); sorted = inr (refl, (tt, tt)) }),
  )

  merge_sort_step :
      (k : ℕ) (x y : A) (a : List A)
      → merge_sort cmp (suc k) (x ∷ y ∷ a)
        ≡ merge_halves cmp
            (λ b. merge_sort cmp k b)
            ((divide x (y ∷ a) (y ∷ a)).1)
            (merge_sort cmp k ((divide x (y ∷ a) (y ∷ a)).0))
  unfolding merge_sort
  merge_sort_step k x y a = refl

  pub merge_sort_lem : (k : ℕ) (a : List A) → length a < k → SortsTo R cmp a (merge_sort cmp k a)
  merge_sort_lem zero a lt = absurd (omega arith)
  merge_sort_lem (suc k) [] lt = merge_sort_empty k
  merge_sort_lem (suc k) (x ∷ []) lt = merge_sort_one k x
  merge_sort_lem (suc k) (x ∷ y ∷ a) lt =
      let first = (divide x (y ∷ a) (y ∷ a)).0 in
      let second = (divide x (y ∷ a) (y ∷ a)).1 in
      let halves = divide_halves x y a in
      let sum : length first + length second ≡ length (x ∷ y ∷ a) =
        sym (length-append first second) ∙ ap length halves.0 in
      let sorted_f = merge_sort_lem k first (omega (arith, lt, sum, halves.1.1.1)) in
      let sorted_s = merge_sort_lem k second (omega (arith, lt, sum, halves.1.0, halves.1.1.1)) in
      let both =
        halves_lem (λ b. merge_sort cmp k b) first second sorted_f.0 sorted_f.1.1 sorted_s in
      rw (merge_sort_step k x y a, sorted_f.1.0)
        (subst
          (λ b.
            SortsTo R cmp b (merge_halves cmp (λ c. merge_sort cmp k c) second (some sorted_f.0)))
          halves.0 both)
