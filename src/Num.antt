-- ===== src/Num.antt =====
-- The conversions between integers and decimal texts in code/czl_lib.c: czl_itoa64 and
-- czl_atoi. A text is the list of its characters.
pub mod RoundTrip
pub mod Read
pub mod ReadBack
pub mod Small
mod Tests
use czl.Prelude.{
  ℕ, zero, suc, ◌+◌, ◌-◌, ◌*◌, ◌%◌, ◌^◌, Bool, ◌&&◌, ◌||◌, Option, none, some, List, [], ◌∷◌, ltb,
  leb, ◌==◌, if◌then◌else◌, length,
}
use czl.Opt.Var.{long_word, is_negative, neg_long}
use czl.Opt.Arith.{div_long}

-- czl_get_num_by_char
abbrev pub num_by_char : ℕ → ℕ
num_by_char ch =
    if leb 48 ch && leb ch 57
    then ch - 48
    else if leb 97 ch && leb ch 102
    then ch - 97 + 10
    else if leb 65 ch && leb ch 70
    then ch - 65 + 10
    else 0

-- The loop that divides by ten, with the characters found so far behind; fuel counts the rounds.
-- `(char)(tmp - num*10) + '0'` is cut to a char.
unfoldable pub digits_loop : ℕ → ℕ → List ℕ → Option (List ℕ)
digits_loop zero num res = none
digits_loop (suc fuel) num res =
    let q = div_long num 10 in
    let res' = ((num + long_word - q * 10 % long_word) % 256 + 48) % 256 ∷ res in
    let rest = digits_loop fuel q res' in if q == 0 then some res' else rest

abbrev pub with_sign : Option (List ℕ) → Option (List ℕ)
with_sign none = none
with_sign (some res) = some (45 ∷ res)

-- czl_itoa64. Nineteen rounds are enough for 63 bits.
unfoldable pub itoa64 : ℕ → Option (List ℕ)
itoa64 num =
    if is_negative num then with_sign (digits_loop 19 (neg_long num) []) else digits_loop 19 num []

-- czl_pow, for an exponent of the sign that it has as a czl_long.
unfoldable pub pow_loop : ℕ → ℕ → ℕ
pow_loop b zero = 1
pow_loop b (suc e) = pow_loop b e * b % long_word

abbrev pub pow_long : ℕ → ℕ → ℕ
pow_long b e = if is_negative e then 1 else pow_loop b e

-- The place of a digit is counted in a char; a negative one has the power 1.
abbrev pub char_power : ℕ → ℕ → ℕ
char_power radix i = if ltb (i % 256) 128 then pow_loop radix (i % 256) else 1

-- The sum of the digits, from the last one on.
unfoldable pub digit_sum : ℕ → List ℕ → ℕ
digit_sum radix [] = 0
digit_sum radix (c ∷ s) =
    (digit_sum radix s + num_by_char c * char_power radix (length s)) % long_word

abbrev pub is_exp : ℕ → Bool
is_exp c = c == 101 || c == 69

-- The text in front of the first `e` or `E`, and the text behind it, if there is one.
unfoldable pub split_exp : List ℕ → List ℕ × Option (List ℕ)
split_exp [] = ([], none)
split_exp (c ∷ s) =
    let rest = split_exp s in if is_exp c then ([], some s) else (c ∷ rest.0, rest.1)

-- czl_atoi; `none` where it runs in front of the text, which begins with the exponent.
unfoldable pub atoi : List ℕ → ℕ → Option ℕ
atoi [] radix = some 0
atoi (c ∷ s) radix = go (split_exp (c ∷ s))
  where
    go : List ℕ × Option (List ℕ) → Option ℕ
    go ([], e) = none
    go (d ∷ b, none) = some (digit_sum radix (d ∷ b))
    go (d ∷ b, some e) =
        some (digit_sum radix (d ∷ b) * pow_long radix (digit_sum radix e) % long_word)
