-- ===== src/Sort/Quick.antt =====
-- czl_quick_sort_0 and czl_quick_sort_1 of code/czl_lib.c: they end, and they sort.
use czl.Prelude.{
  ℕ, zero, suc, ◌≤◌, ◌<◌, ◌≡◌, refl, ap, ◌∙◌, Bool, true, false, not, Option, some, List, [], ◌∷◌,
  ◌++◌, arith, get_or, length, length-append, ◌⊎◌, inl, inr, All,
}
use czl.Hash.Tally.{one_if, tally-append}
use czl.Sort.{CmpRet, Parted, partition, join_parts, sort_parts, quick_sort, take, drop}
use czl.Sort.Segments.{
  true_not_false, tally-cut, take-drop, length-take, length-drop, tally-take, tally-drop, tally-All,
}
use czl.Sort.Scan.{Fails}
use czl.Sort.Same.{SameAs, SameAs-refl}
use czl.Sort.Split.{Split, Parting, partition_lem}
use czl.Sort.Order.{IsSorted, IsSorted-join, Fits, All-map}

module _ {A : Type 0} where
  -- The lengths of a cut, and of a cut that leaves out one element.
  parted_same :
      (orig a lo hi : List A) (m : ℕ) (p : A)
      → m < length a
      → get_or a m p ≡ p
      → SameAs orig a
      → SameAs (take m a) lo
      → SameAs (drop (suc m) a) hi
      → SameAs orig (lo ++ p ∷ hi)
  parted_same orig a lo hi m p lt e s sl sh = record {
    long = omega (
      arith,
      length-append lo (p ∷ hi),
      sl.long,
      sh.long,
      s.long,
      length-take a m (omega (arith, lt)),
      length-drop a (suc m) (omega (arith, lt)),
    );
    count = λ P.
        let whole = take-drop P a m p lt in
        let middle : one_if (P (get_or a m p)) ≡ one_if (P p) = ap (λ x. one_if (P x)) e in
        omega (arith, tally-append P lo (p ∷ hi), sl.count P, sh.count P, s.count P, whole, middle);
  }

  stopped_same :
      (orig a lo : List A) (m : ℕ)
      → m < length a
      → SameAs orig a
      → SameAs (take m a) lo
      → SameAs orig (lo ++ drop m a)
  stopped_same orig a lo m lt s sl = record {
    long = omega (
      arith,
      length-append lo (drop m a),
      sl.long,
      s.long,
      length-take a m (omega (arith, lt)),
      length-drop a m (omega (arith, lt)),
    );
    count =
        λ P. omega (arith, tally-append P lo (drop m a), sl.count P, s.count P, tally-cut P a m);
  }

module _ {A : Type 0} (R : A → A → Type 0) (cmp : A → A → CmpRet) where
  -- A sort's result: the same elements, sorted unless a comparison has failed.
  pub record Sorting (orig : List A) (r : List A × Bool) : Type 0 where
    pub same : SameAs orig r.0
    pub sorted : ((r.1 ≡ true) × Fails cmp) ⊎ ((r.1 ≡ false) × IsSorted R r.0)

  abbrev pub SortsTo : List A → Option (List A × Bool) → Type 0
  SortsTo orig o = (r : List A × Bool) × ((o ≡ some r) × Sorting orig r)

  module _ (fits : Fits R cmp) where
    below :
        (a lo : List A) (m : ℕ) (p : A)
        → Split cmp p a m
        → SameAs (take m a) lo
        → All (λ x. R x p) lo
    below a lo m p s same =
        All-map lo (λ x e. fits.sent_left x p (not_false ((cmp x p).left) e))
          (tally-All (λ x. not ((cmp x p).left)) lo
            (same.count (λ x. not ((cmp x p).left))
              ∙ tally-take (λ x. not ((cmp x p).left)) a m p (λ j lt. ap not (s.before j lt))))
      where
        not_false : (b : Bool) → not b ≡ false → b ≡ true
        not_false true e = refl
        not_false false e = absurd cc

    above :
        (a hi : List A) (m : ℕ) (p : A)
        → Split cmp p a m
        → SameAs (drop (suc m) a) hi
        → All (R p) hi
    above a hi m p s same =
        All-map hi (λ x e. fits.sent_right x p e)
          (tally-All (λ x. (cmp x p).left) hi
            (same.count (λ x. (cmp x p).left)
              ∙ tally-drop (λ x. (cmp x p).left) a (suc m) p
                  (λ j le lt. s.after j (omega (arith, le)) lt)))

    -- The two sorted parts put together.
    join_lem :
        (p : A) (orig : List A) (r : Parted A) (lo hi : List A × Bool)
        → SameAs orig r.parts
        → Split cmp p r.parts r.pivot
        → Sorting (take r.pivot r.parts) lo
        → Sorting (drop (suc r.pivot) r.parts) hi
        → SortsTo orig (join_parts p r (some lo) (some hi))
    join_lem p orig r (lo, true) (hi, e) same s sl sh = (
      (lo ++ drop r.pivot r.parts, true),
      (
        refl,
        record {
          same = stopped_same orig r.parts lo r.pivot s.inside same sl.same;
          sorted = elim sl.sorted [ inl f ↦ inl f | inr ok ↦ absurd (true_not_false refl ok.0) ];
        },
      ),
    )
    join_lem p orig r (lo, false) (hi, e) same s sl sh = (
      (lo ++ p ∷ hi, e),
      (
        ap (λ x. some (lo ++ x ∷ hi, e)) s.middle,
        record {
          same = parted_same orig r.parts lo hi r.pivot p s.inside s.middle same sl.same sh.same;
          sorted = elim sh.sorted [
            | inl f ↦ inl f
            | inr ok ↦ inr (
              ok.0,
              IsSorted-join R lo hi p fits.trans (sorted_of sl) ok.1
                  (below r.parts lo r.pivot p s sl.same) (above r.parts hi r.pivot p s sh.same),
            )
          ];
        },
      ),
    )
      where
        sorted_of : {a lo : List A} → Sorting a (lo, false) → IsSorted R lo
        sorted_of sl = elim sl.sorted [ inl f ↦ absurd (true_not_false f.0 refl) | inr ok ↦ ok.1 ]

    parts_lem :
        (sort : List A → Option (List A × Bool)) (p : A) (orig : List A) (r : Parted A) (k : ℕ)
        → ((a : List A) → length a < k → SortsTo a (sort a))
        → length orig ≤ k
        → Parting cmp p orig r
        → SortsTo orig (sort_parts sort p (some r))
    parts_lem sort p orig r k ih le parting = elim parting.split [
      | inl stop ↦ (
        (r.parts, true),
        (rw stop.0 refl, record { same = parting.same; sorted = inl (refl, stop.1) }),
      )
      | inr go ↦
          let s = go.1 in
          let lo = ih (take r.pivot r.parts) (
            omega (
              arith,
              le,
              s.inside,
              parting.same.long,
              length-take r.parts r.pivot (omega (arith, s.inside)),
            )) in
          let hi = ih (drop (suc r.pivot) r.parts) (
            omega (
              arith,
              le,
              s.inside,
              parting.same.long,
              length-drop r.parts (suc r.pivot) (omega (arith, s.inside)),
            )) in
          rw (go.0, lo.1.0, hi.1.0) (join_lem p orig r lo.0 hi.0 parting.same s lo.1.1 hi.1.1)
    ]

    quick_sort_empty : (k : ℕ) → SortsTo [] (quick_sort cmp (suc k) [])
    unfolding quick_sort IsSorted
    quick_sort_empty k =
        (([], false), (refl, record { same = SameAs-refl []; sorted = inr (refl, tt) }))

    quick_sort_one : (k : ℕ) (x : A) → SortsTo (x ∷ []) (quick_sort cmp (suc k) (x ∷ []))
    unfolding quick_sort IsSorted
    quick_sort_one k x = (
      (x ∷ [], false),
      (refl, record { same = SameAs-refl (x ∷ []); sorted = inr (refl, (tt, tt)) }),
    )

    quick_sort_step :
        (k : ℕ) (p x : A) (a : List A)
        → quick_sort cmp (suc k) (p ∷ x ∷ a)
          ≡ sort_parts (λ b. quick_sort cmp k b) p (partition cmp p (x ∷ a))
    unfolding quick_sort
    quick_sort_step k p x a = refl

    -- With fuel for each element the quick sort ends.
    pub quick_sort_lem : (k : ℕ) (a : List A) → length a < k → SortsTo a (quick_sort cmp k a)
    quick_sort_lem zero a lt = absurd (omega arith)
    quick_sort_lem (suc k) [] lt = quick_sort_empty k
    quick_sort_lem (suc k) (x ∷ []) lt = quick_sort_one k x
    quick_sort_lem (suc k) (p ∷ x ∷ a) lt =
        let parted = partition_lem cmp p x a in
        let sorts =
          parts_lem (λ b. quick_sort cmp k b) p (p ∷ x ∷ a) parted.0 k (quick_sort_lem k)
            (omega (arith, lt)) parted.1.1 in
        rw (quick_sort_step k p x a, parted.1.0) sorts
