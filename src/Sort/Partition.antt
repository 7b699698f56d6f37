-- ===== src/Sort/Partition.antt =====
-- The loop of czl_partition_0 and czl_partition_1 of code/czl_lib.c: it ends, and where it ends the
-- segment is split around the place where the scans met.
use czl.Prelude.{
  ℕ, zero, suc, ◌-◌, ◌≤◌, ◌<◌, ◌≡◌, ◌≢◌, refl, sym, ap, ◌∙◌, subst, Bool, true, false, Option, some,
  List, arith, ◌⊎◌, inl, inr, if◌then◌else◌, ◌==◌, ==_iff,
}
use czl.Sort.{CmpRet, Met, scan_right, scan_left, part_loop, swap}
use czl.Sort.Segments.{true_not_false}
use czl.Sort.Scan.{
  Fails, RightStop, LeftStop, RightEnd, LeftEnd, scan_right_lem, scan_left_lem, scan_left_failed,
}
use czl.Sort.Same.{SameAs}
use czl.Sort.Ready.{Ready, distance, meet, swapped, nearer}

module _ {A : Type 0} (cmp : A → A → CmpRet) (p : A) (orig : List A) where
  -- How the loop ends: with a failed comparison, or at the place where the scans met.
  unfoldable pub MeetsOrFails : Met cmp p → Type 0
  MeetsOrFails m =
      ((m.err ≡ true) × (Fails cmp × SameAs orig m.segment))
      ⊎ ((m.err ≡ false) × Ready cmp p orig m.segment m.place m.place)

  abbrev after_round : (k : ℕ) → List A → (r l : ℕ) (failed met : Bool) → Option (Met cmp p)
  after_round k a r l failed met =
      if failed
      then some (record { segment = a; place = 0; err = true })
      else if met
      then some (record { segment = a; place = l; err = false })
      else part_loop cmp p k (swap p a l r) l r

  -- One round of the loop.
  part_loop_step :
      (k : ℕ) (a : List A) (lh rh : ℕ) (right left : ℕ × Bool) (met : Bool)
      → scan_right cmp p a lh rh false ≡ right
      → scan_left cmp p (right.0 - lh) a lh (right.0) (right.1) ≡ left
      → (left.0 == right.0) ≡ met
      → part_loop cmp p (suc k) a lh rh ≡ after_round k a (right.0) (left.0) (left.1) met
  unfolding part_loop
  part_loop_step k a lh rh right left met er el em = rw (er, el, em) refl

  failed_end :
      (a : List A) (lh rh : ℕ)
      → Fails cmp
      → Ready cmp p orig a lh rh
      → MeetsOrFails (record { segment = a; place = 0; err = true })
  unfolding MeetsOrFails
  failed_end a lh rh f b = inl (refl, (f, b.same))

  met_end :
      (a : List A) (l : ℕ)
      → Ready cmp p orig a l l
      → MeetsOrFails (record { segment = a; place = l; err = false })
  unfolding MeetsOrFails
  met_end a l b = inr (refl, b)

  -- The two scans of a round, one after the other.
  scans_lem :
      (a : List A) (lh rh : ℕ) (right left : ℕ × Bool)
      → lh ≤ rh
      → scan_right cmp p a lh rh false ≡ right
      → scan_left cmp p (right.0 - lh) a lh (right.0) (right.1) ≡ left
      → ((left.1 ≡ true) × Fails cmp)
        ⊎ ((left.1 ≡ false)
            × (RightStop cmp p a lh rh (right.0) × LeftStop cmp p a lh (right.0) (left.0)))
  unfolding RightEnd LeftEnd
  scans_lem a lh rh right left le er el =
      from_right (subst (RightEnd cmp p a lh rh) er (scan_right_lem cmp p a lh rh le))
    where
      from_left :
          RightStop cmp p a lh rh (right.0)
          → LeftEnd cmp p a lh (right.0) left
          → ((left.1 ≡ true) × Fails cmp)
            ⊎ ((left.1 ≡ false)
                × (RightStop cmp p a lh rh (right.0) × LeftStop cmp p a lh (right.0) (left.0)))
      from_left rs (inl failed) = inl failed
      from_left rs (inr (ok, ls)) = inr (ok, (rs, ls))

      from_right :
          RightEnd cmp p a lh rh right
          → ((left.1 ≡ true) × Fails cmp)
            ⊎ ((left.1 ≡ false)
                × (RightStop cmp p a lh rh (right.0) × LeftStop cmp p a lh (right.0) (left.0)))
      from_right (inl (failed, f)) = inl (
        ap (λ l. l.1) (sym el) ∙ rw failed (scan_left_failed cmp p (right.0 - lh) a lh (right.0)),
        f,
      )
      from_right (inr (ok, rs)) =
          let ends = scan_left_lem cmp p (right.0 - lh) a lh (right.0) (omega (arith, rs.from)) in
          from_left rs (subst (LeftEnd cmp p a lh (right.0)) (rw (sym ok) el) ends)

  abbrev pub Ends : ℕ → Type 0
  Ends k =
      (a : List A) (lh rh : ℕ)
      → Ready cmp p orig a lh rh
      → distance cmp p orig a lh rh < k
      → (m : Met cmp p) × ((part_loop cmp p k a lh rh ≡ some m) × MeetsOrFails m)

  round_lem :
      (k : ℕ) (a : List A) (lh rh : ℕ)
      → Ends k
      → Ready cmp p orig a lh rh
      → distance cmp p orig a lh rh < suc k
      → (right left : ℕ × Bool) (met : Bool) → scan_right cmp p a lh rh false ≡ right
      → scan_left cmp p (right.0 - lh) a lh (right.0) (right.1) ≡ left
      → (left.0 == right.0) ≡ met
      → ((left.1 ≡ true) × Fails cmp)
        ⊎ ((left.1 ≡ false)
            × (RightStop cmp p a lh rh (right.0) × LeftStop cmp p a lh (right.0) (left.0)))
      → (m : Met cmp p) × ((part_loop cmp p (suc k) a lh rh ≡ some m) × MeetsOrFails m)
  round_lem k a lh rh ih b lt right left met er el em (inl (failed, f)) = (
    record { segment = a; place = 0; err = true },
    (part_loop_step k a lh rh right left met er el em ∙ rw failed refl, failed_end a lh rh f b),
  )
  round_lem k a lh rh ih b lt right left true er el em (inr (ok, (rs, ls))) = (
    record { segment = a; place = left.0; err = false },
    (
      part_loop_step k a lh rh right left true er el em ∙ rw ok refl,
      met_end a (left.0)
          (meet cmp p orig a lh rh (right.0) (left.0) b rs ls ((==_iff (left.0) (right.0)).0 em)),
    ),
  )
  round_lem k a lh rh ih b lt right left false er el em (inr (ok, (rs, ls))) =
      let apart : (left.0) ≢ (right.0) =
        λ e. absurd (true_not_false ((==_iff (left.0) (right.0)).1 e) em) in
      let below : left.0 < right.0 = omega (arith, ls.upto, apart) in
      let next = swapped cmp p orig a lh rh (right.0) (left.0) b rs ls below in
      let nearer_lt = nearer cmp p orig a lh rh (right.0) (left.0) rs ls below next.1 in
      let rest =
        ih (swap p a (left.0) (right.0)) (left.0) (right.0) next.0 (omega (arith, nearer_lt, lt)) in
      (rest.0, (part_loop_step k a lh rh right left false er el em ∙ rw ok rest.1.0, rest.1.1))

  -- The loop ends, with fuel for each step of the distance.
  pub part_loop_lem : (k : ℕ) → Ends k
  part_loop_lem zero a lh rh b lt = absurd (omega arith)
  part_loop_lem (suc k) a lh rh b lt =
      let right = scan_right cmp p a lh rh false in
      let left = scan_left cmp p (right.0 - lh) a lh (right.0) (right.1) in
      round_lem k a lh rh (part_loop_lem k) b lt right left (left.0 == right.0) refl refl refl
        (scans_lem a lh rh right left b.ordered refl refl)
