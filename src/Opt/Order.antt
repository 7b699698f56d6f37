-- ===== src/Opt/Order.antt =====
-- The comparison operators of code/czl_opt.c against each other, for all operands.
use czl.Prelude.{ℕ, ◌-◌, ◌≡◌, ◌⊎◌, refl, Bool, true, false, not, ◌==◌, inl, inr, if◌then◌else◌}
use czl.Opt.Var.{truth, OprType, int, float, string, obj, Var, Fpu, Heap, Outcome, tb_cf}
use czl.Opt.Compare.{
  minus_one, num_less, num_equal, num_less_equ, str_cmp, str_cmp_free, Pair, numbers, texts, others,
  pair, result, relation_on, equ_on, not_equ_on, equ_equ_cac, not_equ_cac, more_cac, less_cac,
  more_equ_cac, less_equ_cac, is_obj, same_obj,
}
use czl.Opt.Relations.{IsFpu, IsNumber, num_less_equ-not}

-- An operand: an integer is a 64-bit word and a float no NaN.
abbrev pub IsOperand : (F : Fpu) → IsFpu F → OprType → ℕ → Type 0
IsOperand F law int a = IsNumber F law false a
IsOperand F law float a = IsNumber F law true a
IsOperand F law string a = Unit
IsOperand F law (obj o) a = Unit

abbrev pub PairOk : (F : Fpu) → IsFpu F → Pair → ℕ → ℕ → Type 0
PairOk F law (numbers x y) a b = IsNumber F law x a × IsNumber F law y b
PairOk F law texts a b = Unit
PairOk F law others a b = Unit

pub pair-PairOk :
    (F : Fpu) (law : IsFpu F) (t u : OprType) (a b : ℕ)
    → IsOperand F law t a
    → IsOperand F law u b
    → PairOk F law (pair t u) a b
unfolding pair
pair-PairOk F law int int a b ha hb = (ha, hb)
pair-PairOk F law int float a b ha hb = (ha, hb)
pair-PairOk F law int string a b ha hb = tt
pair-PairOk F law int (obj o) a b ha hb = tt
pair-PairOk F law float int a b ha hb = (ha, hb)
pair-PairOk F law float float a b ha hb = (ha, hb)
pair-PairOk F law float string a b ha hb = tt
pair-PairOk F law float (obj o) a b ha hb = tt
pair-PairOk F law string int a b ha hb = tt
pair-PairOk F law string float a b ha hb = tt
pair-PairOk F law string string a b ha hb = tt
pair-PairOk F law string (obj o) a b ha hb = tt
pair-PairOk F law (obj o) u a b ha hb = tt

-- `e` answers 0 or 1, and `n` the other of them, both leaving the same heap and the same left
-- operand but for its value.
pub record Negates {S : Type 0} (e n : Outcome S) : Type 0 where
  pub same_store : n.store ≡ e.store
  pub both_answer : (e.ret ≡ true) × (n.ret ≡ true)
  pub flipped : n.left ≡ record e.left { val = 1 - e.left.val }
  pub integer : e.left.type ≡ int
  pub truth_value : (e.left.val ≡ 0) ⊎ (e.left.val ≡ 1)

-- Both refuse the operands, and change nothing.
pub record Refuses {S : Type 0} (s : S) (l : Var) (e n : Outcome S) : Type 0 where
  pub same : n ≡ e
  pub no_answer : e.ret ≡ false
  pub kept : (e.store ≡ s) × (e.left ≡ l)

module _ (F : Fpu) (H : Heap) where
  negates :
      (at : H.Store × Var) (b : Bool)
      → Negates (result F H at (truth b)) (result F H at (truth (not b)))
  negates at true = record {
    same_store = refl;
    both_answer = (refl, refl);
    flipped = refl;
    integer = refl;
    truth_value = inr refl;
  }
  negates at false = record {
    same_store = refl;
    both_answer = (refl, refl);
    flipped = refl;
    integer = refl;
    truth_value = inl refl;
  }

  -- `!=`, which has switches of its own, answers 1 where `==` answers 0 and 0 where it answers 1, for all operands of all types, and
  -- both leave the same heap.
  pub not_equ_cac-equ_equ :
      (s : H.Store) (l r : Var) → Negates (equ_equ_cac F H s l r) (not_equ_cac F H s l r)
  unfolding equ_equ_cac not_equ_cac equ_on not_equ_on
  not_equ_cac-equ_equ s l r = on_pair (pair l.type r.type)
    where
      as_tests :
          (at : H.Store × Var) (b : Bool)
          → Negates (result F H at (truth b)) (result F H at (truth (not b)))
          → Negates (result F H at (truth b)) (result F H at (if b then 0 else 1))
      as_tests at true h = h
      as_tests at false h = h

      on_object :
          (b : Bool)
          → Negates
              (result F H (tb_cf H s l) (if b then truth (same_obj l r) else 0))
              (result F H (tb_cf H s l) (if b then truth (not (same_obj l r)) else 1))
      on_object true = negates (tb_cf H s l) (same_obj l r)
      on_object false = negates (tb_cf H s l) false

      on_pair : (p : Pair) → Negates (equ_on F H p s l r) (not_equ_on F H p s l r)
      on_pair (numbers x y) = negates (s, l) (num_equal F x l.val y r.val)
      on_pair texts =
          as_tests (str_cmp_free F H s l) (str_cmp F H s l r == 0)
            (negates (str_cmp_free F H s l) (str_cmp F H s l r == 0))
      on_pair others = on_object (is_obj l.type)

module _ (F : Fpu) (law : IsFpu F) (H : Heap) where
  -- Two relations of which one is the negation of the other, on the numbers at hand and on what
  -- czl_str_cmp returns.
  relation-Negates :
      (p : Pair) (s : H.Store) (l r : Var) (num num' : Bool → ℕ → Bool → ℕ → Bool)
      (str str' : ℕ → Bool)
      → PairOk F law p l.val r.val
      → ((x : Bool) (a : ℕ) (y : Bool) (b : ℕ)
          → IsNumber F law x a
          → IsNumber F law y b
          → num' x a y b ≡ not (num x a y b))
      → ((c : ℕ) → str' c ≡ not (str c))
      → Negates
          (relation_on F H (λ x a y b. truth (num x a y b)) (λ c. truth (str c)) p s l r)
          (relation_on F H (λ x a y b. truth (num' x a y b)) (λ c. truth (str' c)) p s l r)
        ⊎ Refuses s l
            (relation_on F H (λ x a y b. truth (num x a y b)) (λ c. truth (str c)) p s l r)
            (relation_on F H (λ x a y b. truth (num' x a y b)) (λ c. truth (str' c)) p s l r)
  unfolding relation_on
  relation-Negates (numbers x y) s l r num num' str str' ok hn hs =
      inl (rw (hn x l.val y r.val ok.0 ok.1) (negates F H (s, l) (num x l.val y r.val)))
  relation-Negates texts s l r num num' str str' ok hn hs =
      let c = str_cmp F H s l r in inl (rw (hs c) (negates F H (str_cmp_free F H s l) (str c)))
  relation-Negates others s l r num num' str str' ok hn hs =
      inr (record { same = refl; no_answer = refl; kept = (refl, refl) })

  -- For operands that are no NaN, `<=` and `>` both answer, and then oppositely, or both refuse.
  pub less_equ_cac-more :
      (s : H.Store) (l r : Var)
      → IsOperand F law l.type l.val
      → IsOperand F law r.type r.val
      → Negates (more_cac F H s l r) (less_equ_cac F H s l r)
        ⊎ Refuses s l (more_cac F H s l r) (less_equ_cac F H s l r)
  unfolding more_cac less_equ_cac
  less_equ_cac-more s l r hl hr =
      relation-Negates (pair l.type r.type) s l r (λ x a y b. num_less F y b x a) (num_less_equ F)
        (λ c. c == 1) (λ c. not (c == 1)) (pair-PairOk F law l.type r.type l.val r.val hl hr)
        (λ x a y b ha hb. num_less_equ-not F law x a y b ha hb) (λ c. refl)

  -- For operands that are no NaN, `>=` and `<` both answer, and then oppositely, or both refuse.
  pub more_equ_cac-less :
      (s : H.Store) (l r : Var)
      → IsOperand F law l.type l.val
      → IsOperand F law r.type r.val
      → Negates (less_cac F H s l r) (more_equ_cac F H s l r)
        ⊎ Refuses s l (less_cac F H s l r) (more_equ_cac F H s l r)
  unfolding less_cac more_equ_cac
  more_equ_cac-less s l r hl hr =
      relation-Negates (pair l.type r.type) s l r (num_less F) (λ x a y b. num_less_equ F y b x a)
        (λ c. c == minus_one) (λ c. not (c == minus_one))
        (pair-PairOk F law l.type r.type l.val r.val hl hr)
        (λ x a y b ha hb. num_less_equ-not F law y b x a hb ha) (λ c. refl)
