-- ===== src/Sort/Merge.antt =====
-- czl_merge of code/czl_lib.c: two chains become one, sorted where both are.
use czl.Prelude.{
  ℕ, zero, suc, ◌+◌, ◌<◌, ◌≡◌, refl, ◌∙◌, Bool, true, false, Option, some, List, [], ◌∷◌, ◌++◌,
  arith, length, ◌⊎◌, inl, inr, ◌||◌, if◌then◌else◌, All,
}
use czl.Sort.{CmpRet, merge, in_front}
use czl.Sort.Segments.{true_not_false}
use czl.Sort.Scan.{Fails}
use czl.Sort.Same.{SameAs, SameAs-refl, SameAs-first, SameAs-second, SameAs-nil}
use czl.Sort.Order.{IsSorted, Fits, All-map}

module _ {A : Type 0} (cmp : A → A → CmpRet) where
  merge_nil :
      (k : ℕ) (err : Bool) (second : List A) → merge cmp (suc k) err [] second ≡ some (second, err)
  unfolding merge
  merge_nil k err second = refl

  merge_nil_right :
      (k : ℕ) (err : Bool) (x : A) (first : List A)
      → merge cmp (suc k) err (x ∷ first) [] ≡ some (x ∷ first, err)
  unfolding merge
  merge_nil_right k err x first = refl

  merge_step :
      (k : ℕ) (err left failed : Bool) (x y : A) (first second : List A)
      → (cmp x y).left ≡ left
      → (cmp x y).failed ≡ failed
      → merge cmp (suc k) err (x ∷ first) (y ∷ second) ≡ (
          if err || left
          then in_front x (merge cmp k (err || failed) first (y ∷ second))
          else in_front y (merge cmp k (err || failed) (x ∷ first) second))
  unfolding merge
  merge_step k err left failed x y first second el ef = rw (el, ef) refl

  abbrev pub Joined : List A → List A → Option (List A × Bool) → Type 0
  Joined first second o = (r : List A) × ((o ≡ some (r, true)) × SameAs (first ++ second) r)

  -- After a failed comparison the first chain goes in front of the second.
  pub merge_failed :
      (k : ℕ) (first second : List A)
      → length first + length second < k
      → Joined first second (merge cmp k true first second)
  merge_failed zero first second lt = absurd (omega arith)
  merge_failed (suc k) [] second lt = (second, (merge_nil k true second, SameAs-refl second))
  merge_failed (suc k) (x ∷ first) [] lt =
      (x ∷ first, (merge_nil_right k true x first, SameAs-nil (x ∷ first)))
  merge_failed (suc k) (x ∷ first) (y ∷ second) lt =
      let c = cmp x y in
      let rest = merge_failed k first (y ∷ second) (omega (arith, lt)) in
      (
        x ∷ rest.0,
        (
          merge_step k true c.left c.failed x y first second refl refl ∙ rw rest.1.0 refl,
          SameAs-first x first (y ∷ second) rest.0 rest.1.1,
        ),
      )

  module _ (R : A → A → Type 0) (fits : Fits R cmp) where
    pub record Merged (first second : List A) (r : List A × Bool) : Type 0 where
      pub same : SameAs (first ++ second) r.0
      pub sorted : ((r.1 ≡ true) × Fails cmp) ⊎ ((r.1 ≡ false) × IsSorted R r.0)
      pub bound : (z : A) → All (R z) first → All (R z) second → (r.1 ≡ false) → All (R z) r.0

    abbrev pub MergesTo : List A → List A → Option (List A × Bool) → Type 0
    MergesTo first second o = (r : List A × Bool) × ((o ≡ some r) × Merged first second r)

    failed_merge :
        (first second : List A) (o : Option (List A × Bool))
        → Fails cmp
        → Joined first second o
        → MergesTo first second o
    failed_merge first second o f (r, (e, same)) = (
      (r, true),
      (
        e,
        record {
          same = same;
          sorted = inl (refl, f);
          bound = λ z hf hs e'. absurd (true_not_false refl e');
        },
      ),
    )

    first_lem :
        (x y : A) (first second : List A) (o : Option (List A × Bool))
        → (cmp x y).left ≡ true
        → IsSorted R (x ∷ first)
        → IsSorted R (y ∷ second)
        → MergesTo first (y ∷ second) o
        → MergesTo (x ∷ first) (y ∷ second) (in_front x o)
    unfolding IsSorted
    first_lem x y first second o e sf ss (r, (eo, m)) =
        let xy = fits.sent_left x y e in
        let behind = All-map second (λ z yz. fits.trans x y z xy yz) ss.0 in
        (
          (x ∷ r.0, r.1),
          (
            rw eo refl,
            record {
              same = SameAs-first x first (y ∷ second) r.0 m.same;
              sorted = elim m.sorted [
                | inl f ↦ inl f
                | inr ok ↦ inr (ok.0, (m.bound x sf.0 (xy, behind) ok.0, ok.1))
              ];
              bound = λ z hf hs e'. (hf.0, m.bound z hf.1 hs e');
            },
          ),
        )

    second_lem :
        (x y : A) (first second : List A) (o : Option (List A × Bool))
        → (cmp x y).left ≡ false
        → IsSorted R (x ∷ first)
        → IsSorted R (y ∷ second)
        → MergesTo (x ∷ first) second o
        → MergesTo (x ∷ first) (y ∷ second) (in_front y o)
    unfolding IsSorted
    second_lem x y first second o e sf ss (r, (eo, m)) =
        let yx = fits.sent_right x y e in
        let behind = All-map first (λ z xz. fits.trans y x z yx xz) sf.0 in
        (
          (y ∷ r.0, r.1),
          (
            rw eo refl,
            record {
              same = SameAs-second y (x ∷ first) second r.0 m.same;
              sorted = elim m.sorted [
                | inl f ↦ inl f
                | inr ok ↦ inr (ok.0, (m.bound y (yx, behind) ss.0 ok.0, ok.1))
              ];
              bound = λ z hf hs e'. (hs.0, m.bound z hf hs.1 e');
            },
          ),
        )

    merge_lem_nil :
        (k : ℕ) (second : List A)
        → IsSorted R second
        → MergesTo [] second (merge cmp (suc k) false [] second)
    merge_lem_nil k second ss = (
      (second, false),
      (
        merge_nil k false second,
        record { same = SameAs-refl second; sorted = inr (refl, ss); bound = λ z hf hs e. hs },
      ),
    )

    merge_lem_nil_right :
        (k : ℕ) (x : A) (first : List A)
        → IsSorted R (x ∷ first)
        → MergesTo (x ∷ first) [] (merge cmp (suc k) false (x ∷ first) [])
    merge_lem_nil_right k x first sf = (
      (x ∷ first, false),
      (
        merge_nil_right k false x first,
        record { same = SameAs-nil (x ∷ first); sorted = inr (refl, sf); bound = λ z hf hs e. hf },
      ),
    )

    tail-IsSorted : (x : A) (a : List A) → IsSorted R (x ∷ a) → IsSorted R a
    unfolding IsSorted
    tail-IsSorted x a s = s.1

    -- Two sorted chains are merged into a sorted one, with fuel for each element.
    pub merge_lem :
        (k : ℕ) (first second : List A)
        → length first + length second < k
        → IsSorted R first
        → IsSorted R second
        → MergesTo first second (merge cmp k false first second)
    merge_lem zero first second lt sf ss = absurd (omega arith)
    merge_lem (suc k) [] second lt sf ss = merge_lem_nil k second ss
    merge_lem (suc k) (x ∷ first) [] lt sf ss = merge_lem_nil_right k x first sf
    merge_lem (suc k) (x ∷ first) (y ∷ second) lt sf ss =
        let rest_f =
          merge_lem k first (y ∷ second) (omega (arith, lt)) (tail-IsSorted x first sf) ss in
        let rest_s =
          merge_lem k (x ∷ first) second (omega (arith, lt)) sf (tail-IsSorted y second ss) in
        round ((cmp x y).left) ((cmp x y).failed) refl refl rest_f rest_s
      where
        round :
            (left failed : Bool)
            → (cmp x y).left ≡ left
            → (cmp x y).failed ≡ failed
            → MergesTo first (y ∷ second) (merge cmp k false first (y ∷ second))
            → MergesTo (x ∷ first) second (merge cmp k false (x ∷ first) second)
            → MergesTo (x ∷ first) (y ∷ second) (merge cmp (suc k) false (x ∷ first) (y ∷ second))
        round true true el ef rf rs = rw (merge_step k false true true x y first second el ef) (
            first_lem x y first second (merge cmp k true first (y ∷ second)) el sf ss (
              failed_merge first (y ∷ second) (merge cmp k true first (y ∷ second)) (x, (y, ef))
                (merge_failed k first (y ∷ second) (omega (arith, lt)))))
        round true false el ef rf rs =
            rw (merge_step k false true false x y first second el ef)
              (first_lem x y first second (merge cmp k false first (y ∷ second)) el sf ss rf)
        round false true el ef rf rs = rw (merge_step k false false true x y first second el ef) (
            second_lem x y first second (merge cmp k true (x ∷ first) second) el sf ss (
              failed_merge (x ∷ first) second (merge cmp k true (x ∷ first) second) (x, (y, ef))
                (merge_failed k (x ∷ first) second (omega (arith, lt)))))
        round false false el ef rf rs =
            rw (merge_step k false false false x y first second el ef)
              (second_lem x y first second (merge cmp k false (x ∷ first) second) el sf ss rs)
