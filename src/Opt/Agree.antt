-- ===== src/Opt/Agree.antt =====
-- czl_cmp_cac of code/czl_opt.c against the other comparisons.
use czl.Prelude.{
  ℕ, ◌-◌, ◌<◌, ◌≡◌, ◌⊎◌, refl, Bool, true, false, arith, ◌==◌, Bool-cases, inl, inr, Option, none,
  some,
}
use czl.Opt.Var.{long_word, truth, obj_of, Var, Number, Fpu, Heap, is_string}
use czl.Opt.Compare.{
  minus_one, char_long, three_way, not_int, number_cmp, num_str_cmp, str_str_cmp, num_less,
  num_equal, str_cmp, Pair, numbers, texts, others, pair, relation_on, equ_on, equ_equ_cac,
  more_cac, less_cac, cmp_cac,
}
use czl.Opt.Relations.{IsFpu, num_trichotomy}
use czl.Opt.Order.{IsOperand, PairOk, pair-PairOk}

-- `c` is what `??` answers, and the others what `<`, `==` and `>` do.
abbrev pub Agree : ℕ → ℕ → ℕ → ℕ → Type 0
Agree c less equal more =
    (less ≡ truth (c == long_word - 1)) × (equal ≡ truth (c == 0)) × (more ≡ truth (c == 1))

module _ (F : Fpu) (H : Heap) where
  three_way-char : (e l : Bool) → three_way e l < 256
  three_way-char true l = omega arith
  three_way-char false true = omega arith
  three_way-char false false = omega arith

  number_cmp-char : (v : Var) (n : Option Number) → number_cmp F H v n < 256
  number_cmp-char v none = omega arith
  number_cmp-char v (some n) =
      three_way-char (num_equal F n.is_float n.bits (not_int v.type) v.val)
        (num_less F n.is_float n.bits (not_int v.type) v.val)

  str_cmp-char : (s : H.Store) (l r : Var) → str_cmp F H s l r < 256
  unfolding str_cmp str_str_cmp num_str_cmp
  str_cmp-char s l r = elim (Bool-cases (is_string l.type)) [
    | inr e ↦ rw e (omega arith)
    | inl e ↦ elim (Bool-cases (is_string r.type)) [
      | inr f ↦ rw (e, f) (number_cmp-char r (H.number (H.text s (obj_of l.val))))
      | inl f ↦ rw (e, f) (ground arith)
    ]
  ]

  char-Agree :
      (c : ℕ)
      → c < 256
      → Agree (char_long c) (truth (c == minus_one)) (truth (c == 0)) (truth (c == 1))
  char-Agree c lt = ground arith

  three_way-Agree :
      (l e m : Bool)
      → ((l ≡ true) × (e ≡ false) × (m ≡ false))
        ⊎ (((l ≡ false) × (e ≡ true) × (m ≡ false)) ⊎ ((l ≡ false) × (e ≡ false) × (m ≡ true)))
      → Agree (char_long (three_way e l)) (truth l) (truth e) (truth m)
  three_way-Agree l e m (inl (a, b, c)) = rw (a, b, c) (refl, refl, refl)
  three_way-Agree l e m (inr (inl (a, b, c))) = rw (a, b, c) (refl, refl, refl)
  three_way-Agree l e m (inr (inr (a, b, c))) = rw (a, b, c) (refl, refl, refl)

module _ (F : Fpu) (law : IsFpu F) (H : Heap) where
  -- For operands that are no NaN, `??` refuses as `<` and `>` do, or it answers -1, 0 or another
  -- value: `<` answers 1 exactly where it is -1, `==` exactly where it is 0, `>` exactly where it is 1.
  pub cmp_cac-Agree :
      (s : H.Store) (l r : Var)
      → IsOperand F law l.type l.val
      → IsOperand F law r.type r.val
      → ((cmp_cac F H s l r).ret ≡ false)
          × ((less_cac F H s l r).ret ≡ false)
          × ((more_cac F H s l r).ret ≡ false)
        ⊎ (((cmp_cac F H s l r).ret ≡ true)
            × Agree
                (cmp_cac F H s l r).left.val
                (less_cac F H s l r).left.val
                (equ_equ_cac F H s l r).left.val
                (more_cac F H s l r).left.val)
  unfolding cmp_cac less_cac more_cac equ_equ_cac relation_on equ_on
  cmp_cac-Agree s l r hl hr =
      on_pair (pair l.type r.type) (pair-PairOk F law l.type r.type l.val r.val hl hr)
    where
      on_pair :
          (p : Pair)
          → PairOk F law p l.val r.val
          → ((relation_on F H
                  (λ x a y b. char_long (three_way (num_equal F x a y b) (num_less F x a y b)))
                  char_long
                  p
                  s
                  l
                  r).ret
                ≡ false)
              × ((relation_on F H
                    (λ x a y b. truth (num_less F x a y b))
                    (λ c. truth (c == minus_one))
                    p
                    s
                    l
                    r).ret
                  ≡ false)
              × ((relation_on F H
                    (λ x a y b. truth (num_less F y b x a))
                    (λ c. truth (c == 1))
                    p
                    s
                    l
                    r).ret
                  ≡ false)
            ⊎ (((relation_on F H
                    (λ x a y b. char_long (three_way (num_equal F x a y b) (num_less F x a y b)))
                    char_long
                    p
                    s
                    l
                    r).ret
                  ≡ true)
                × Agree
                    (relation_on F H
                      (λ x a y b. char_long (three_way (num_equal F x a y b) (num_less F x a y b)))
                      char_long
                      p
                      s
                      l
                      r).left.val
                    (relation_on F H
                      (λ x a y b. truth (num_less F x a y b))
                      (λ c. truth (c == minus_one))
                      p
                      s
                      l
                      r).left.val
                    (equ_on F H p s l r).left.val
                    (relation_on F H
                      (λ x a y b. truth (num_less F y b x a))
                      (λ c. truth (c == 1))
                      p
                      s
                      l
                      r).left.val)
      on_pair (numbers x y) ok = inr (
        refl,
        three_way-Agree F H (num_less F x l.val y r.val) (num_equal F x l.val y r.val)
            (num_less F y r.val x l.val) (num_trichotomy F law x l.val y r.val ok.0 ok.1),
      )
      on_pair texts ok = inr (refl, char-Agree F H (str_cmp F H s l r) (str_cmp-char F H s l r))
      on_pair others ok = inl (refl, refl, refl)
