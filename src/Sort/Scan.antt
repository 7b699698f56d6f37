-- ===== src/Sort/Scan.antt =====
-- The two scans of the partition of code/czl_lib.c: where each stops.
use czl.Prelude.{
  ℕ, zero, suc, ◌+◌, ◌≤◌, ◌<◌, ◌≡◌, ◌≢◌, refl, subst, Bool, true, false, List, arith, get_or, ◌⊎◌,
  inl, inr, if◌then◌else◌, ltb,
}
use czl.Sort.{CmpRet, scan_right, scan_left}
use czl.Sort.Segments.{nat_cases}

-- Some comparison fails.
abbrev pub Fails : {A : Type 0} → (A → A → CmpRet) → Type 0
Fails {A} cmp = (x : A) × ((y : A) × ((cmp x y).failed ≡ true))

module _ {A : Type 0} (cmp : A → A → CmpRet) (p : A) where
  -- The element at `j` belongs to the left part.
  abbrev pub left_at : List A → ℕ → Bool
  left_at a j = (cmp (get_or a j p) p).left

  -- A scan from the right has stopped at `r`, no comparison having failed.
  pub record RightStop (a : List A) (lh rh r : ℕ) : Type 0 where
    pub from : lh ≤ r
    pub upto : r ≤ rh
    pub passed : (j : ℕ) → r < j → j ≤ rh → left_at a j ≡ false
    pub stop : (r ≡ lh) ⊎ (left_at a r ≡ true)

  -- A scan from the left has stopped at `l`.
  pub record LeftStop (a : List A) (lh rh l : ℕ) : Type 0 where
    pub from : lh ≤ l
    pub upto : l ≤ rh
    pub passed : (j : ℕ) → lh ≤ j → j < l → left_at a j ≡ true
    pub stop : (l ≡ rh) ⊎ (left_at a l ≡ false)

  pub scan_right_failed : (a : List A) (lh rh : ℕ) → (scan_right cmp p a lh rh true).1 ≡ true
  unfolding scan_right
  scan_right_failed a lh zero = refl
  scan_right_failed a lh (suc r) = refl

  pub scan_left_failed :
      (k : ℕ) (a : List A) (lh rh : ℕ) → (scan_left cmp p k a lh rh true).1 ≡ true
  unfolding scan_left
  scan_left_failed zero a lh rh = refl
  scan_left_failed (suc k) a lh rh = refl

  -- One round of the scan from the right.
  scan_right_step :
      (a : List A) (lh r : ℕ) (left failed : Bool)
      → left_at a (suc r) ≡ left
      → (cmp (get_or a (suc r) p) p).failed ≡ failed
      → lh < suc r
      → scan_right cmp p a lh (suc r) false
        ≡ (if left then (suc r, failed) else scan_right cmp p a lh r failed)
  unfolding scan_right
  scan_right_step a lh r left failed el ef lt =
      let t : ltb lh (suc r) ≡ true = ground arith in rw (t, el, ef) refl

  scan_left_step :
      (k : ℕ) (a : List A) (lh rh : ℕ) (left failed : Bool)
      → left_at a lh ≡ left
      → (cmp (get_or a lh p) p).failed ≡ failed
      → lh < rh
      → scan_left cmp p (suc k) a lh rh false
        ≡ (if left then scan_left cmp p k a (lh + 1) rh failed else (lh, failed))
  unfolding scan_left
  scan_left_step k a lh rh left failed el ef lt =
      let t : ltb lh rh ≡ true = ground arith in rw (t, el, ef) refl

  unfoldable pub RightEnd : List A → (lh rh : ℕ) → ℕ × Bool → Type 0
  RightEnd a lh rh r = ((r.1 ≡ true) × Fails cmp) ⊎ ((r.1 ≡ false) × RightStop a lh rh r.0)

  unfoldable pub LeftEnd : List A → (lh rh : ℕ) → ℕ × Bool → Type 0
  LeftEnd a lh rh r = ((r.1 ≡ true) × Fails cmp) ⊎ ((r.1 ≡ false) × LeftStop a lh rh r.0)

  -- A scan between equal bounds stops at once.
  scan_right_met : (a : List A) (lh rh : ℕ) → lh ≡ rh → scan_right cmp p a lh rh false ≡ (rh, false)
  unfolding scan_right
  scan_right_met a lh zero e = refl
  scan_right_met a lh (suc r) e = let t : ltb lh (suc r) ≡ false = ground arith in rw t refl

  right_at_once : (a : List A) (lh rh : ℕ) → lh ≡ rh → RightEnd a lh rh (rh, false)
  unfolding RightEnd
  right_at_once a lh rh e = inr (
    refl,
    record {
      from = omega arith;
      upto = omega arith;
      passed = λ j lt le. absurd (omega arith);
      stop = inl (omega arith);
    },
  )

  left_at_once : (a : List A) (lh rh : ℕ) → lh ≡ rh → LeftEnd a lh rh (lh, false)
  unfolding LeftEnd
  left_at_once a lh rh e = inr (
    refl,
    record {
      from = omega arith;
      upto = omega arith;
      passed = λ j le lt. absurd (omega arith);
      stop = inl (omega arith);
    },
  )

  scan_left_zero : (a : List A) (lh rh : ℕ) → scan_left cmp p 0 a lh rh false ≡ (lh, false)
  unfolding scan_left
  scan_left_zero a lh rh = refl

  left_failed : (a : List A) (lh rh : ℕ) → Fails cmp → LeftEnd a lh rh (lh, true)
  unfolding LeftEnd
  left_failed a lh rh f = inl (refl, f)

  -- A failed comparison is reported, whatever the scan does then.
  right_failed : (a : List A) (lh rh r : ℕ) → Fails cmp → RightEnd a lh rh (r, true)
  unfolding RightEnd
  right_failed a lh rh r f = inl (refl, f)

  right_stopped :
      (a : List A) (lh r : ℕ)
      → lh < suc r
      → left_at a (suc r) ≡ true
      → RightEnd a lh (suc r) (suc r, false)
  unfolding RightEnd
  right_stopped a lh r lt e = inr (
    refl,
    record {
      from = omega arith;
      upto = omega arith;
      passed = λ j lt le. absurd (omega arith);
      stop = inr e;
    },
  )

  right_further :
      (a : List A) (lh r : ℕ) (end : ℕ × Bool)
      → left_at a (suc r) ≡ false
      → RightEnd a lh r end
      → RightEnd a lh (suc r) end
  unfolding RightEnd
  right_further a lh r end e (inl failed) = inl failed
  right_further a lh r end e (inr (ok, st)) =
      inr (ok, record { from = st.from; upto = above st.upto; passed = after'; stop = st.stop })
    where
      above : end.0 ≤ r → end.0 ≤ suc r
      above le = omega arith

      after' : (j : ℕ) → end.0 < j → j ≤ suc r → left_at a j ≡ false
      after' j lt hi = elim (nat_cases (suc r) j) [
        | inl same ↦ subst (λ i. left_at a i ≡ false) same e
        | inr ne ↦ st.passed j lt (omega arith)
      ]

  left_stopped :
      (a : List A) (lh rh : ℕ) → lh < rh → left_at a lh ≡ false → LeftEnd a lh rh (lh, false)
  unfolding LeftEnd
  left_stopped a lh rh lt e = inr (
    refl,
    record {
      from = omega arith;
      upto = omega arith;
      passed = λ j le lt. absurd (omega arith);
      stop = inr e;
    },
  )

  left_further :
      (a : List A) (lh rh : ℕ) (end : ℕ × Bool)
      → left_at a lh ≡ true
      → LeftEnd a (lh + 1) rh end
      → LeftEnd a lh rh end
  unfolding LeftEnd
  left_further a lh rh end e (inl failed) = inl failed
  left_further a lh rh end e (inr (ok, st)) =
      inr (ok, record { from = above st.from; upto = st.upto; passed = upto'; stop = st.stop })
    where
      above : lh + 1 ≤ end.0 → lh ≤ end.0
      above le = omega arith

      upto' : (j : ℕ) → lh ≤ j → j < end.0 → left_at a j ≡ true
      upto' j le lt = elim (nat_cases lh j) [
        | inl same ↦ subst (λ i. left_at a i ≡ true) same e
        | inr ne ↦ st.passed j (omega arith) lt
      ]

  RightEnd-failed :
      (a : List A) (lh rh r : ℕ) → Fails cmp → RightEnd a lh rh (scan_right cmp p a lh r true)
  unfolding RightEnd
  RightEnd-failed a lh rh r f = inl (scan_right_failed a lh r, f)

  LeftEnd-failed :
      (k : ℕ) (a : List A) (l lh rh : ℕ)
      → Fails cmp
      → LeftEnd a l rh (scan_left cmp p k a lh rh true)
  unfolding LeftEnd
  LeftEnd-failed k a l lh rh f = inl (scan_left_failed k a lh rh, f)

  -- The scan from the right ends at the last element of the left part, or where it started from the
  -- left, or with a failed comparison.
  pub scan_right_lem :
      (a : List A) (lh rh : ℕ) → lh ≤ rh → RightEnd a lh rh (scan_right cmp p a lh rh false)
  scan_right_lem a lh rh le = elim (nat_cases lh rh) [
    | inl e ↦ rw (scan_right_met a lh rh e) (right_at_once a lh rh e)
    | inr ne ↦ go rh le ne
  ]
    where
      round :
          (r : ℕ) (left failed : Bool)
          → left_at a (suc r) ≡ left
          → (cmp (get_or a (suc r) p) p).failed ≡ failed
          → lh < suc r
          → RightEnd a lh r (scan_right cmp p a lh r false)
          → RightEnd a lh (suc r) (scan_right cmp p a lh (suc r) false)
      round r true true el ef lt rest =
          rw (scan_right_step a lh r true true el ef lt)
            (right_failed a lh (suc r) (suc r) (get_or a (suc r) p, (p, ef)))
      round r true false el ef lt rest =
          rw (scan_right_step a lh r true false el ef lt) (right_stopped a lh r lt el)
      round r false true el ef lt rest =
          rw (scan_right_step a lh r false true el ef lt)
            (RightEnd-failed a lh (suc r) r (get_or a (suc r) p, (p, ef)))
      round r false false el ef lt rest =
          rw (scan_right_step a lh r false false el ef lt)
            (right_further a lh r (scan_right cmp p a lh r false) el rest)

      go : (r : ℕ) → lh ≤ r → lh ≢ r → RightEnd a lh r (scan_right cmp p a lh r false)
      go zero le ne = absurd (omega arith)
      go (suc r) le ne =
          round r (left_at a (suc r)) ((cmp (get_or a (suc r) p) p).failed) refl refl (omega arith)
            (elim (nat_cases lh r) [
              | inl e ↦ rw (scan_right_met a lh r e) (right_at_once a lh r e)
              | inr ne' ↦ go r (omega arith) ne'
            ])

  -- The scan from the left ends at the first element of the right part, or at `rh`.
  pub scan_left_lem :
      (k : ℕ) (a : List A) (lh rh : ℕ)
      → k + lh ≡ rh
      → LeftEnd a lh rh (scan_left cmp p k a lh rh false)
  scan_left_lem zero a lh rh e = left_zero
    where
      left_zero : LeftEnd a lh rh (scan_left cmp p 0 a lh rh false)
      left_zero = rw (scan_left_zero a lh rh) (left_at_once a lh rh (omega arith))
  scan_left_lem (suc k) a lh rh e =
      round (left_at a lh) ((cmp (get_or a lh p) p).failed) refl refl
        (scan_left_lem k a (lh + 1) rh (omega arith))
    where
      round :
          (left failed : Bool)
          → left_at a lh ≡ left
          → (cmp (get_or a lh p) p).failed ≡ failed
          → LeftEnd a (lh + 1) rh (scan_left cmp p k a (lh + 1) rh false)
          → LeftEnd a lh rh (scan_left cmp p (suc k) a lh rh false)
      round true true el ef rest =
          rw (scan_left_step k a lh rh true true el ef (omega arith))
            (LeftEnd-failed k a lh (lh + 1) rh (get_or a lh p, (p, ef)))
      round true false el ef rest =
          rw (scan_left_step k a lh rh true false el ef (omega arith))
            (left_further a lh rh (scan_left cmp p k a (lh + 1) rh false) el rest)
      round false true el ef rest =
          rw (scan_left_step k a lh rh false true el ef (omega arith))
            (left_failed a lh rh (get_or a lh p, (p, ef)))
      round false false el ef rest =
          rw (scan_left_step k a lh rh false false el ef (omega arith))
            (left_stopped a lh rh (omega arith) el)
