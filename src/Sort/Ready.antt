-- ===== src/Sort/Ready.antt =====
-- A segment between two rounds of the loop of czl_partition_0 of code/czl_lib.c, and what a round
-- does to it.
use czl.Prelude.{
  ℕ, ◌+◌, ◌-◌, ◌≤◌, ◌<◌, ◌≡◌, ◌≢◌, sym, ap, ◌∙◌, subst, true, false, List, arith, get_or, length,
  ◌⊎◌, inl, inr,
}
use czl.Hash.Tally.{one_if}
use czl.Sort.{CmpRet, swap}
use czl.Sort.Segments.{nat_cases, lt_cases, get_or-swap_left, get_or-swap_right, get_or-swap_other}
use czl.Sort.Scan.{left_at, RightStop, LeftStop}
use czl.Sort.Same.{SameAs, SameAs-swap}

module _ {A : Type 0} (cmp : A → A → CmpRet) (p : A) (orig : List A) where
  -- Between two rounds: what stands before `lh` belongs to the left part, what stands after `rh` to
  -- the right one, and so does the element at `lh` once a swap has put it there.
  pub record Ready (a : List A) (lh rh : ℕ) : Type 0 where
    pub same : SameAs orig a
    pub from : 1 ≤ lh
    pub ordered : lh ≤ rh
    pub inside : rh < length orig
    pub low : (j : ℕ) → 1 ≤ j → j < lh → left_at cmp p a j ≡ true
    pub high : (j : ℕ) → rh < j → j < length orig → left_at cmp p a j ≡ false
    pub edge : (lh ≡ 1) ⊎ (left_at cmp p a lh ≡ true)
    pub head : get_or a 0 p ≡ p

  low_upto :
      (a : List A) (lh rh r l : ℕ)
      → Ready a lh rh
      → LeftStop cmp p a lh r l
      → (j : ℕ) → 1 ≤ j
      → j < l
      → left_at cmp p a j ≡ true
  low_upto a lh rh r l b left j hj lt = elim (lt_cases j lh) [
    | inl less ↦ b.low j hj less
    | inr more ↦ left.passed j more lt
  ]

  high_from :
      (a : List A) (lh rh r : ℕ)
      → Ready a lh rh
      → RightStop cmp p a lh rh r
      → (j : ℕ) → r < j
      → j < length orig
      → left_at cmp p a j ≡ false
  high_from a lh rh r b right j lt hj = elim (lt_cases rh j) [
    | inl less ↦ b.high j less hj
    | inr more ↦ right.passed j lt more
  ]

  -- Where the scans meet.
  pub meet :
      (a : List A) (lh rh r l : ℕ)
      → Ready a lh rh
      → RightStop cmp p a lh rh r
      → LeftStop cmp p a lh r l
      → l ≡ r
      → Ready a l l
  meet a lh rh r l b right left e = record {
    same = b.same;
    from = omega (arith, b.from, left.from);
    ordered = omega arith;
    inside = omega (arith, e, right.upto, b.inside);
    low = low_upto a lh rh r l b left;
    high = λ j lt hj. high_from a lh rh r b right j (omega (arith, e, lt)) hj;
    edge = elim right.stop [
      | inl first ↦ subst (λ i. (i ≡ 1) ⊎ (left_at cmp p a i ≡ true)) (sym (e ∙ first)) b.edge
      | inr here ↦ inr (subst (λ i. left_at cmp p a i ≡ true) (sym e) here)
    ];
    head = b.head;
  }

  -- The element that the scan from the right has found, and the one that the scan from the left has.
  left_element :
      (a : List A) (lh rh r l : ℕ)
      → RightStop cmp p a lh rh r
      → LeftStop cmp p a lh r l
      → l < r
      → left_at cmp p a r ≡ true
  left_element a lh rh r l right left lt = elim right.stop [
    | inl e ↦ absurd (omega (arith, e, left.from, lt))
    | inr here ↦ here
  ]

  right_element :
      (a : List A) (lh r l : ℕ) → LeftStop cmp p a lh r l → l < r → left_at cmp p a l ≡ false
  right_element a lh r l left lt = elim left.stop [
    | inl e ↦ absurd (omega (arith, e, lt))
    | inr here ↦ here
  ]

  -- The element at another place is the same after the swap.
  left_at-swap :
      (a : List A) (l r j : ℕ) → l ≢ j → r ≢ j → left_at cmp p (swap p a l r) j ≡ left_at cmp p a j
  left_at-swap a l r j hl hr = ap (λ x. (cmp x p).left) (get_or-swap_other p a l r j hl hr)

  -- Where they do not meet, the swap makes the segment ready for the next round.
  pub swapped :
      (a : List A) (lh rh r l : ℕ)
      → Ready a lh rh
      → RightStop cmp p a lh rh r
      → LeftStop cmp p a lh r l
      → l < r
      → Ready (swap p a l r) l r × (left_at cmp p (swap p a l r) r ≡ false)
  swapped a lh rh r l b right left lt = (
    record {
      same = SameAs-swap p orig a l r in_l in_r b.same;
      from = omega (arith, b.from, left.from);
      ordered = omega (arith, lt);
      inside = omega (arith, right.upto, b.inside);
      low = λ j hj hl.
          left_at-swap a l r j (λ e. absurd (omega arith)) (λ e. absurd (omega arith))
          ∙ low_upto a lh rh r l b left j hj hl;
      high = λ j hr hj.
          left_at-swap a l r j (λ e. absurd (omega arith)) (λ e. absurd (omega arith))
          ∙ high_from a lh rh r b right j hr hj;
      edge = inr (
          ap (λ x. (cmp x p).left) (get_or-swap_left p a l r in_l in_r)
          ∙ left_element a lh rh r l right left lt);
      head =
          get_or-swap_other p a l r 0 (λ e. absurd (omega (arith, b.from, left.from)))
            (λ e. absurd (omega arith))
          ∙ b.head;
    },
    ap (λ x. (cmp x p).left) (get_or-swap_right p a l r in_r) ∙ right_element a lh r l left lt,
  )
    where
      in_r : r < length a
      in_r = omega (arith, b.same.long, b.inside, right.upto)

      in_l : l < length a
      in_l = omega (arith, in_r, lt)

  -- Each round brings the scans nearer to each other, but one that only swaps; the next does not.
  abbrev pub distance : List A → (lh rh : ℕ) → ℕ
  distance a lh rh = rh - lh + one_if (left_at cmp p a rh)

  pub nearer :
      (a : List A) (lh rh r l : ℕ)
      → RightStop cmp p a lh rh r
      → LeftStop cmp p a lh r l
      → l < r
      → left_at cmp p (swap p a l r) r ≡ false
      → distance (swap p a l r) l r < distance a lh rh
  nearer a lh rh r l right left lt e = rw e (elim (nat_cases r rh) [
    | inl same ↦
        let one : left_at cmp p a rh ≡ true =
          subst (λ i. left_at cmp p a i ≡ true) same (left_element a lh rh r l right left lt) in
        rw one (omega (arith, left.from, left.upto, lt, same))
    | inr ne ↦ omega (arith, left.from, right.upto, lt)
  ])
