-- ===== src/Opt/Relations.antt =====
-- What the comparisons of code/czl_opt.c answer, for all pairs of operands: a truth value, and the
-- negations `!=` of `==`, `<=` of `>` and `>=` of `<`.
use czl.Prelude.{ℕ, ◌<◌, ◌≡◌, ◌⊎◌, refl, Bool, true, false, not, arith, ◌==◌, inl, inr}
use czl.Opt.Var.{long_word, less_long, Fpu}
use czl.Opt.Compare.{num_less, num_equal, num_less_equ}

-- What IEEE 754 says of the comparisons of doubles: of two that are no NaN exactly one of `<`, `==`
-- and `>` holds, and the conversion of an integer is no NaN.
pub record IsFpu (F : Fpu) : Type 0 where
  pub is_nan : ℕ → Bool
  pub trichotomy :
      (a b : ℕ)
      → is_nan a ≡ false
      → is_nan b ≡ false
      → ((F.less a b ≡ true) × (F.equal a b ≡ false) × (F.less b a ≡ false))
        ⊎ (((F.less a b ≡ false) × (F.equal a b ≡ true) × (F.less b a ≡ false))
            ⊎ ((F.less a b ≡ false) × (F.equal a b ≡ false) × (F.less b a ≡ true)))
  pub equal_comm : (a b : ℕ) → F.equal a b ≡ F.equal b a
  pub of_long_number : (a : ℕ) → is_nan (F.of_long a) ≡ false

-- `a`, `b` and `c` are the outcomes of `<`, `==` and `>`.
abbrev pub ExactlyOne : Bool → Bool → Bool → Type 0
ExactlyOne a b c =
    ((a ≡ true) × (b ≡ false) × (c ≡ false))
    ⊎ (((a ≡ false) × (b ≡ true) × (c ≡ false)) ⊎ ((a ≡ false) × (b ≡ false) × (c ≡ true)))

-- An integer is a 64-bit word, and a float no NaN.
abbrev pub IsNumber : (F : Fpu) → IsFpu F → Bool → ℕ → Type 0
IsNumber F law false a = a < long_word
IsNumber F law true a = law.is_nan a ≡ false

module _ (F : Fpu) (law : IsFpu F) where
  long_trichotomy :
      (a b : ℕ)
      → a < long_word
      → b < long_word
      → ExactlyOne (less_long a b) (a == b) (less_long b a)
  long_trichotomy a b ha hb = ground arith

  pub num_trichotomy :
      (x : Bool) (a : ℕ) (y : Bool) (b : ℕ)
      → IsNumber F law x a
      → IsNumber F law y b
      → ExactlyOne (num_less F x a y b) (num_equal F x a y b) (num_less F y b x a)
  unfolding num_less num_equal
  num_trichotomy false a false b ha hb = long_trichotomy a b ha hb
  num_trichotomy false a true b ha hb = law.trichotomy (F.of_long a) b (law.of_long_number a) hb
  num_trichotomy true a false b ha hb = law.trichotomy a (F.of_long b) ha (law.of_long_number b)
  num_trichotomy true a true b ha hb = law.trichotomy a b ha hb

  num_equal_comm : (x : Bool) (a : ℕ) (y : Bool) (b : ℕ) → num_equal F x a y b ≡ num_equal F y b x a
  unfolding num_equal
  num_equal_comm false a false b = ground arith
  num_equal_comm false a true b = law.equal_comm (F.of_long a) b
  num_equal_comm true a false b = law.equal_comm a (F.of_long b)
  num_equal_comm true a true b = law.equal_comm a b

  -- `<=` is the negation of `>`.
  pub num_less_equ-not :
      (x : Bool) (a : ℕ) (y : Bool) (b : ℕ)
      → IsNumber F law x a
      → IsNumber F law y b
      → num_less_equ F x a y b ≡ not (num_less F y b x a)
  unfolding num_less_equ
  num_less_equ-not x a y b ha hb = elim (num_trichotomy x a y b ha hb) [
    | inl (l, e, g) ↦ rw (l, g) refl
    | inr (inl (l, e, g)) ↦ rw (l, e, g) refl
    | inr (inr (l, e, g)) ↦ rw (l, e, g) refl
  ]
