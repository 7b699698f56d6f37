-- ===== src/Sort/Split.antt =====
-- czl_partition_0 and czl_partition_1 of code/czl_lib.c: the pivot is put between the two parts.
use czl.Prelude.{
  ℕ, ◌+◌, ◌≤◌, ◌<◌, ◌≡◌, refl, ap, ◌∙◌, subst, Bool, true, false, some, List, ◌∷◌, arith, get_or,
  length, ◌⊎◌, inl, inr,
}
use czl.Hash.Tally.{one_if}
use czl.Sort.{CmpRet, Met, Parted, partition, place_pivot, swap}
use czl.Sort.Segments.{
  nat_cases, true_not_false, length-swap, get_or-swap_left, get_or-swap_right, get_or-swap_other,
}
use czl.Sort.Scan.{Fails, left_at}
use czl.Sort.Same.{SameAs, SameAs-refl, SameAs-swap}
use czl.Sort.Ready.{Ready}
use czl.Sort.Partition.{MeetsOrFails, part_loop_lem}

module _ {A : Type 0} (cmp : A → A → CmpRet) (p : A) where
  -- The left part stands before the pivot, the right part after it.
  pub record Split (a : List A) (m : ℕ) : Type 0 where
    pub inside : m < length a
    pub middle : get_or a m p ≡ p
    pub before : (j : ℕ) → j < m → left_at cmp p a j ≡ true
    pub after : (j : ℕ) → m < j → j < length a → left_at cmp p a j ≡ false

  pub record Parting (orig : List A) (r : Parted A) : Type 0 where
    pub same : SameAs orig r.parts
    pub split : ((r.stop ≡ true) × Fails cmp) ⊎ ((r.stop ≡ false) × Split r.parts r.pivot)

  -- The segment is ready before the first round.
  start : (x : A) (a : List A) → Ready cmp p (p ∷ x ∷ a) (p ∷ x ∷ a) 1 (length (x ∷ a))
  start x a = record {
    same = SameAs-refl (p ∷ x ∷ a);
    from = omega arith;
    ordered = omega arith;
    inside = omega arith;
    low = λ j hj lt. absurd (omega arith);
    high = λ j lt hj. absurd (omega arith);
    edge = inl refl;
    head = refl;
  }

  module _ (orig : List A) where
    -- The element where the scans met belongs to the left part: it changes places with the pivot.
    Split-left :
        (a : List A) (l : ℕ)
        → Ready cmp p orig a l l
        → left_at cmp p a l ≡ true
        → Split (swap p a 0 l) l
    Split-left a l b e = record {
      inside = omega (arith, long, b.same.long, b.inside);
      middle = get_or-swap_right p a 0 l in_l ∙ b.head;
      before = λ j lt. elim (nat_cases 0 j) [
        | inl zero_j ↦
            subst (λ i. left_at cmp p (swap p a 0 l) i ≡ true) zero_j
              (ap (λ x. (cmp x p).left) (get_or-swap_left p a 0 l (omega arith) in_l) ∙ e)
        | inr ne ↦
            ap (λ x. (cmp x p).left) (get_or-swap_other p a 0 l j ne (λ same. absurd (omega arith)))
            ∙ b.low j (omega arith) lt
      ];
      after = λ j lt hj.
          ap (λ x. (cmp x p).left)
            (get_or-swap_other p a 0 l j (λ same. absurd (omega arith))
              (λ same. absurd (omega arith)))
          ∙ b.high j lt (omega (arith, long, b.same.long));
    }
      where
        in_l : l < length a
        in_l = omega (arith, b.same.long, b.inside)

        long : length (swap p a 0 l) ≡ length a
        long = length-swap p a 0 l

    -- It does not, so the left part is empty and the pivot stays in front.
    Split-right :
        (a : List A) (l : ℕ) → Ready cmp p orig a l l → left_at cmp p a l ≡ false → Split a 0
    Split-right a l b e = record {
      inside = omega (arith, b.same.long, b.inside);
      middle = b.head;
      before = λ j lt. absurd (omega arith);
      after = λ j lt hj. elim b.edge [
        | inl first ↦ elim (nat_cases l j) [
          | inl here ↦ subst (λ i. left_at cmp p a i ≡ false) here e
          | inr ne ↦ b.high j (omega arith) (omega (arith, b.same.long))
        ]
        | inr left ↦ absurd (true_not_false left e)
      ];
    }

    place_lem :
        (m : Met cmp p) (left failed : Bool)
        → left_at cmp p m.segment m.place ≡ left
        → (cmp (get_or m.segment m.place p) p).failed ≡ failed
        → MeetsOrFails cmp p orig m
        → Parting orig (place_pivot cmp p m)
    unfolding MeetsOrFails
    place_lem m left failed el ef (inl (err, (f, same))) =
        rw err (record { same = same; split = inl (refl, f) })
    place_lem m true true el ef (inr (ok, b)) =
        rw (ok, el, ef)
          (record { same = b.same; split = inl (refl, (get_or m.segment m.place p, (p, ef))) })
    place_lem m true false el ef (inr (ok, b)) =
        rw (ok, el, ef)
          (record {
            same =
                SameAs-swap p orig m.segment 0 m.place (omega (arith, b.same.long, b.inside))
                  (omega (arith, b.same.long, b.inside)) b.same;
            split = inr (refl, Split-left m.segment m.place b el);
          })
    place_lem m false true el ef (inr (ok, b)) =
        rw (ok, el, ef)
          (record { same = b.same; split = inl (refl, (get_or m.segment m.place p, (p, ef))) })
    place_lem m false false el ef (inr (ok, b)) =
        rw (ok, el, ef)
          (record { same = b.same; split = inr (refl, Split-right m.segment m.place b el) })

  one_if_le : (b : Bool) → one_if b ≤ 1
  one_if_le true = omega arith
  one_if_le false = omega arith

  -- The partition returns, and it parts the segment.
  pub partition_lem :
      (x : A) (a : List A)
      → (r : Parted A) × ((partition cmp p (x ∷ a) ≡ some r) × Parting (p ∷ x ∷ a) r)
  unfolding partition
  partition_lem x a =
      let n = length (x ∷ a) in
      let met =
        part_loop_lem cmp p (p ∷ x ∷ a) (n + 1) (p ∷ x ∷ a) 1 n (start x a)
          (omega (arith, one_if_le (left_at cmp p (p ∷ x ∷ a) n))) in
      (
        place_pivot cmp p met.0,
        (
          rw met.1.0 refl,
          place_lem (p ∷ x ∷ a) met.0 (left_at cmp p (met.0.segment) (met.0.place))
              ((cmp (get_or (met.0.segment) (met.0.place) p) p).failed) refl refl met.1.1,
        ),
      )
