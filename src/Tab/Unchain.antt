-- ===== src/Tab/Unchain.antt =====
-- What a chain or the ordered list of a table loses with the one element that passes a test.
use czl.Prelude.{
  ◌+◌, ◌≤◌, ◌≡◌, inl, inr, refl, ap, Bool, true, false, not, ◌&&◌, List, [], ◌∷◌, arith, Bool-cases,
}
use czl.Hash.Table.{unchain}
use czl.Hash.Tally.{tally, one_if}

module _ {A : Type 0} where
  tally-and :
      (S P : A → Bool) (xs : List A)
      → (tally (λ x. S x && P x) xs ≤ tally P xs) × (tally (λ x. S x && P x) xs ≤ tally S xs)
  tally-and S P [] = (omega arith, omega arith)
  tally-and S P (x ∷ xs) =
      let rest = tally-and S P xs in
      elim (Bool-cases (S x)) [
        | inl s ↦ elim (Bool-cases (P x)) [
          | inl p ↦ rw (s, p) (omega (arith, rest.0), omega (arith, rest.1))
          | inr p ↦ rw (s, p) (omega (arith, rest.0), omega (arith, rest.1))
        ]
        | inr s ↦ rw s (omega (arith, rest.0), omega (arith, rest.1))
      ]

  -- Every test that `p` passes counts an element.
  abbrev pub Occurs : A → List A → Type 0
  Occurs p xs = (P : A → Bool) → one_if (P p) ≤ tally P xs

  -- An element that alone passes a test passes the tests that `p` passes.
  alone :
      (S P : A → Bool) (p x : A) (xs : List A)
      → S p ≡ true
      → S x ≡ true
      → tally S (x ∷ xs) ≤ 1
      → Occurs p (x ∷ xs)
      → P p ≡ true
      → P x ≡ true
  alone S P p x xs sp sx one occ pp = elim (Bool-cases (P x)) [
    | inl e ↦ e
    | inr e ↦
        let seen : 1 ≤ 0 + tally (λ y. S y && P y) xs =
          rw (sp, pp, sx, e) at (occ (λ y. S y && P y)) in
        let only : 1 + tally S xs ≤ 1 = rw sx at one in
        absurd (omega (arith, seen, only, (tally-and S P xs).1))
  ]

  alone_not :
      (S P : A → Bool) (p x : A) (xs : List A)
      → S p ≡ true
      → S x ≡ true
      → tally S (x ∷ xs) ≤ 1
      → Occurs p (x ∷ xs)
      → P p ≡ false
      → P x ≡ false
  alone_not S P p x xs sp sx one occ pp =
      let e = alone S (λ y. not (P y)) p x xs sp sx one occ (ap not pp) in back (P x) e
    where
      back : (b : Bool) → not b ≡ true → b ≡ false
      back true e = absurd cc
      back false e = refl

  -- `unchain` takes out `p`, and nothing else, where `p` alone passes the test.
  pub unchain-alone :
      (S P : A → Bool) (p : A) (xs : List A)
      → S p ≡ true
      → tally S xs ≤ 1
      → Occurs p xs
      → tally P xs ≡ one_if (P p) + tally P (unchain S xs)
  unchain-alone S P p [] sp one occ =
      let seen : 1 ≤ 0 = rw sp at (occ S) in absurd (omega (arith, seen))
  unchain-alone S P p (x ∷ xs) sp one occ = elim (Bool-cases (S x)) [
    | inl hit ↦ rw hit (ap (λ n. n + tally P xs) (same hit))
    | inr miss ↦
        let one' : 0 + tally S xs ≤ 1 = rw miss at one in
        let ih = unchain-alone S P p xs sp (omega (arith, one')) (later miss) in
        rw miss (omega (arith, ih))
  ]
    where
      same : S x ≡ true → one_if (P x) ≡ one_if (P p)
      same hit = elim (Bool-cases (P p)) [
        | inl e ↦ rw (e, alone S P p x xs sp hit one occ e) refl
        | inr e ↦ rw (e, alone_not S P p x xs sp hit one occ e) refl
      ]

      later : S x ≡ false → Occurs p xs
      later miss Q =
          let seen : one_if (Q p) ≤ 0 + tally (λ y. S y && Q y) xs =
            rw (sp, miss) at (occ (λ y. S y && Q y)) in
          omega (arith, seen, (tally-and S Q xs).0)
