-- ===== src/Opt/Tests.antt =====
-- The theorems on the operators at small operands. The doubles are stood for by natural numbers
-- with their order, which meet what is asked of a machine's doubles.
use czl.Prelude.{
  ℕ, ◌≡◌, ◌⊎◌, ◌<◌, ◌+◌, ◌-◌, ◌*◌, ◌/◌, ◌%◌, refl, true, false, none, some, [], ◌∷◌, arith, ◌==◌,
  ltb, ◌&&◌,
}
use czl.Opt.Var.{long_word, int, obj, nil, Var, Fpu, Heap}
use czl.Opt.Arith.{magnitude, sets, fails, div_a_cac, mod_a_cac}
use czl.Opt.Compare.{more_cac, less_cac, less_equ_cac, more_equ_cac, equ_equ_cac, cmp_cac}
use czl.Opt.Swap.{is_scalar, swap_cac, swap_cac-swap_cac}
use czl.Opt.Relations.{IsFpu}
use czl.Opt.Order.{Negates, Refuses, less_equ_cac-more, more_equ_cac-less}
use czl.Opt.Agree.{Agree, cmp_cac-Agree}
use czl.Opt.Division.{mod_a_cac-div_a}

abbrev pub naturals : Fpu
naturals = record {
  add = λ a b. a + b;
  sub = λ a b. a - b;
  mul = λ a b. a * b;
  div = λ a b. a / b;
  neg = λ a. a;
  one = 1;
  less = ltb;
  equal = ◌==◌;
  of_long = λ a. a;
  to_long = λ a. a;
}

naturals-IsFpu : IsFpu naturals
naturals-IsFpu = record {
  is_nan = λ a. false;
  trichotomy = λ a b ha hb. ground arith;
  equal_comm = λ a b. ground arith;
  of_long_number = λ a. refl;
}

-- Texts that are no numbers, of which any two of one length are equal.
abbrev pub texts_only : Heap
texts_only = record {
  Store = ℕ;
  text = λ s a. 97 ∷ [];
  mem_cmp = λ l r. 0;
  number = λ t. none;
  tmp_buf_free = λ s v. s + 1;
}

abbrev pub number : ℕ → Var
number n = record { type = int; quality = 0; ot = obj nil; val = n }

abbrev minus : ℕ → Var
minus n = number (long_word - n)

cmp_cac-Agree_example :
    (((cmp_cac naturals texts_only 0 (minus 3) (number 5)).ret ≡ false)
      × ((less_cac naturals texts_only 0 (minus 3) (number 5)).ret ≡ false)
      × ((more_cac naturals texts_only 0 (minus 3) (number 5)).ret ≡ false))
    ⊎ (((cmp_cac naturals texts_only 0 (minus 3) (number 5)).ret ≡ true)
        × Agree
            (cmp_cac naturals texts_only 0 (minus 3) (number 5)).left.val
            (less_cac naturals texts_only 0 (minus 3) (number 5)).left.val
            (equ_equ_cac naturals texts_only 0 (minus 3) (number 5)).left.val
            (more_cac naturals texts_only 0 (minus 3) (number 5)).left.val)
cmp_cac-Agree_example =
    cmp_cac-Agree naturals naturals-IsFpu texts_only 0 (minus 3) (number 5) (omega arith)
      (omega arith)

more_equ_cac-less_example :
    Negates
      (less_cac naturals texts_only 0 (minus 1) (number 5))
      (more_equ_cac naturals texts_only 0 (minus 1) (number 5))
    ⊎ Refuses 0
        (minus 1)
        (less_cac naturals texts_only 0 (minus 1) (number 5))
        (more_equ_cac naturals texts_only 0 (minus 1) (number 5))
more_equ_cac-less_example =
    more_equ_cac-less naturals naturals-IsFpu texts_only 0 (minus 1) (number 5) (omega arith)
      (omega arith)

less_equ_cac-more_example :
    Negates
      (more_cac naturals texts_only 0 (minus 1) (number 5))
      (less_equ_cac naturals texts_only 0 (minus 1) (number 5))
    ⊎ Refuses 0
        (minus 1)
        (more_cac naturals texts_only 0 (minus 1) (number 5))
        (less_equ_cac naturals texts_only 0 (minus 1) (number 5))
less_equ_cac-more_example =
    less_equ_cac-more naturals naturals-IsFpu texts_only 0 (minus 1) (number 5) (omega arith)
      (omega arith)

mod_a_cac-div_a_example :
    (((number 2).val ≡ 0)
      × (div_a_cac naturals (minus 7) (number 2) ≡ fails)
      × (mod_a_cac (minus 7) (number 2) ≡ fails))
    ⊎ ((q : ℕ) × (r : ℕ) × (div_a_cac naturals (minus 7) (number 2) ≡ sets q)
        × (mod_a_cac (minus 7) (number 2) ≡ sets r)
        × ((q * 2 + r) % long_word ≡ long_word - 7)
        × (magnitude r < magnitude 2))
mod_a_cac-div_a_example =
    mod_a_cac-div_a naturals (minus 7) (number 2) refl refl (omega arith) (omega arith) refl

swap_cac-swap_cac_example :
    (((is_scalar int && is_scalar int) ≡ false) × (swap_cac naturals (number 3) (number 4) ≡ none))
    ⊎ ((l : Var) × (r : Var) × (swap_cac naturals (number 3) (number 4) ≡ some (l, r))
        × ((l.type ≡ int) × (l.val ≡ 4) × (l.ot ≡ (number 3).ot) × (l.quality ≡ (number 3).quality))
        × ((r.type ≡ int) × (r.val ≡ 3) × (r.ot ≡ (number 4).ot) × (r.quality ≡ (number 4).quality))
        × (swap_cac naturals l r ≡ some (number 3, number 4)))
swap_cac-swap_cac_example = swap_cac-swap_cac naturals (number 3) (number 4) refl

-- -7 / 2 is -3, and -7 % 2 is -1.
quotient : div_a_cac naturals (minus 7) (number 2) ≡ sets (long_word - 3)
unfolding div_a_cac
quotient = refl

remainder : mod_a_cac (minus 7) (number 2) ≡ sets (long_word - 1)
unfolding mod_a_cac
remainder = refl
