-- ===== src/Num/Tests.antt =====
-- The round trip at a concrete number.
use czl.Prelude.{ℕ, ◌≡◌, ◌-◌, some, List, [], ◌∷◌, refl, arith}
use czl.Opt.Var.{long_word}
use czl.Num.{itoa64, atoi, digits_loop, digit_sum, split_exp, pow_loop}
use czl.Num.Read.{get_number_from_str, find_number_header, ignore_sign_filt, dec_number}
use czl.Num.ReadBack.{long_number, get_number_from_str-itoa64}
use czl.Num.Small.{itoa, itoa-itoa64}
use czl.Opt.Tests.{naturals}

-- A C library whose atof knows no text.
abbrev no_atof : List ℕ → ℕ
no_atof s = 0

-- "-123"
written : itoa64 (long_word - 123) ≡ some (45 ∷ 49 ∷ 50 ∷ 51 ∷ [])
unfolding itoa64 digits_loop
written = refl

get_number_from_str-itoa64_example :
    (s : List ℕ) × ((itoa64 (long_word - 123) ≡ some s)
      × (get_number_from_str naturals no_atof s ≡ some (some (long_number (long_word - 123)), [])))
get_number_from_str-itoa64_example =
    get_number_from_str-itoa64 naturals no_atof (long_word - 123) (omega arith) (omega arith)

itoa-itoa64_example : itoa (long_word - 2147483648) ≡ itoa64 (long_word - 2147483648)
itoa-itoa64_example = itoa-itoa64 (long_word - 2147483648) (omega arith)

-- " -12e" is -12, with the `e` left over.
read_run :
    get_number_from_str naturals no_atof (32 ∷ 45 ∷ 49 ∷ 50 ∷ 101 ∷ [])
    ≡ some (some (long_number (long_word - 12)), 101 ∷ [])
unfolding get_number_from_str find_number_header ignore_sign_filt dec_number atoi digit_sum
    split_exp pow_loop
read_run = refl
