-- ===== src/Opt/Arith.antt =====
-- The unary operators and the arithmetic assignments of code/czl_opt.c, on numbers.
-- Signed overflow of `+`, `-`, `*` and `<<`, which C leaves undefined, wraps. Operands that `+=` and
-- `-=` hand to the code of the strings, arrays and tables are told apart as `to_objects`.
use Prim.Native.Nat.{bit_or, bit_and, bit_xor}
use czl.Prelude.{
  ℕ, ◌+◌, ◌-◌, ◌*◌, ◌/◌, ◌%◌, ◌^◌, Bool, true, false, ◌&&◌, ◌||◌, ltb, ◌==◌, if◌then◌else◌,
}
use czl.Opt.Var.{
  long_word, is_negative, neg_long, truth, OprType, int, float, string, obj, array, table,
  array_list, table_list, Var, Fpu, type_code, obj_code, is_string,
}

-- `a / b` and `a % b` on czl_long: the quotient is cut toward 0, and the remainder has a's sign.
abbrev pub magnitude : ℕ → ℕ
magnitude a = if is_negative a then long_word - a else a

abbrev pub div_long : ℕ → ℕ → ℕ
div_long a b =
    let q = magnitude a / magnitude b in
    if is_negative a
    then if is_negative b then q else neg_long q
    else if is_negative b
    then neg_long q
    else q

abbrev pub mod_long : ℕ → ℕ → ℕ
mod_long a b = let r = magnitude a % magnitude b in if is_negative a then neg_long r else r

-- What an operator does to its left operand: it returns 1, with the operand's value and its type
-- kept; it returns 0, with the operand as it was; it calls the code of the objects; or the C
-- standard does not say (a quotient that overflows, a shift by a negative or a large count).
pub data Effect : Type 0 where
  sets : ℕ → Effect
  fails to_objects undefined : Effect

-- The types that `+=` knows beside the numbers: CZL_ARRAY and CZL_ARRAY_LIST, and CZL_TABLE and
-- CZL_TABLE_LIST.
abbrev pub is_array : OprType → Bool
is_array t = type_code t == obj_code array || type_code t == obj_code array_list

abbrev pub is_table : OprType → Bool
is_table t = type_code t == obj_code table || type_code t == obj_code table_list

abbrev pub links : OprType → Effect
links t = if is_string t || is_array t then to_objects else fails

abbrev add_on : Fpu → OprType → ℕ → OprType → ℕ → Effect
add_on F int a int b = sets ((a + b) % long_word)
add_on F int a float b = sets (F.to_long (F.add (F.of_long a) b))
add_on F int a string b = links string
add_on F int a (obj o) b = links (obj o)
add_on F float a int b = sets (F.add a (F.of_long b))
add_on F float a float b = sets (F.add a b)
add_on F float a string b = links string
add_on F float a (obj o) b = links (obj o)
add_on F string a t b = to_objects
add_on F (obj o) a t b = if is_array (obj o) || is_table (obj o) then to_objects else fails

unfoldable pub add_a_cac : Fpu → Var → Var → Effect
add_a_cac F left right = add_on F left.type left.val right.type right.val

-- The operators that convert as `-=` does: `on_int` on two integers, `on_float` on two doubles, of
-- which the result is cut to an integer where the left operand is one.
abbrev numeric : Fpu → (ℕ → ℕ → Effect) → (ℕ → ℕ → ℕ) → OprType → ℕ → OprType → ℕ → Effect
numeric F on_int on_float int a int b = on_int a b
numeric F on_int on_float int a float b = sets (F.to_long (on_float (F.of_long a) b))
numeric F on_int on_float int a string b = fails
numeric F on_int on_float int a (obj o) b = fails
numeric F on_int on_float float a int b = sets (on_float a (F.of_long b))
numeric F on_int on_float float a float b = sets (on_float a b)
numeric F on_int on_float float a string b = fails
numeric F on_int on_float float a (obj o) b = fails
numeric F on_int on_float string a t b = fails
numeric F on_int on_float (obj o) a t b = fails

unfoldable pub dec_a_cac : Fpu → Var → Var → Effect
dec_a_cac F left right =
    if is_table left.type
    then to_objects
    else numeric F (λ a b. sets ((a + long_word - b) % long_word)) F.sub left.type left.val
        right.type right.val

unfoldable pub mul_a_cac : Fpu → Var → Var → Effect
mul_a_cac F left right =
    numeric F (λ a b. sets (a * b % long_word)) F.mul left.type left.val right.type right.val

-- `0 == right->val.inum` and `0 == right->val.fnum`, by the divisor's type.
abbrev pub is_zero : Fpu → Var → Bool
is_zero F v = zero_of v.type
  where
    zero_of : OprType → Bool
    zero_of int = v.val == 0
    zero_of float = F.equal (F.of_long 0) v.val
    zero_of string = false
    zero_of (obj o) = false

abbrev pub div_overflows : ℕ → ℕ → Bool
div_overflows a b = a == 2 ^ 63 && b == long_word - 1

unfoldable pub div_a_cac : Fpu → Var → Var → Effect
div_a_cac F left right =
    if is_zero F right
    then fails
    else numeric F (λ a b. if div_overflows a b then undefined else sets (div_long a b)) F.div
        left.type left.val right.type right.val

abbrev pub both_int : (ℕ → ℕ → Effect) → Var → Var → Effect
both_int on_int left right =
    if type_code left.type == 0 && type_code right.type == 0
    then on_int left.val right.val
    else fails

unfoldable pub mod_a_cac : Var → Var → Effect
mod_a_cac left right =
    both_int
      (λ a b.
        if b == 0 then fails else if div_overflows a b then undefined else sets (mod_long a b))
      left right

unfoldable pub or_a_cac : Var → Var → Effect
or_a_cac left right = both_int (λ a b. sets (bit_or a b)) left right

unfoldable pub xor_a_cac : Var → Var → Effect
xor_a_cac left right = both_int (λ a b. sets (bit_xor a b)) left right

unfoldable pub and_a_cac : Var → Var → Effect
and_a_cac left right = both_int (λ a b. sets (bit_and a b)) left right

unfoldable pub l_shift_a_cac : Var → Var → Effect
l_shift_a_cac left right =
    both_int (λ a b. if ltb b 64 then sets (a * 2 ^ b % long_word) else undefined) left right

-- `>>` on a negative number repeats the sign.
unfoldable pub r_shift_a_cac : Var → Var → Effect
r_shift_a_cac left right =
    both_int
      (λ a b.
        if ltb b 64
        then sets (if is_negative a then a / 2 ^ b + long_word - 2 ^ (64 - b) else a / 2 ^ b)
        else undefined)
      left right

-- A unary operator writes the result's type even where it refuses the operand.
pub record Unary : Type 0 where
  pub res : Var
  pub opr : Var
  pub ret : Bool

abbrev unary_on : (ℕ → ℕ) → (ℕ → ℕ) → OprType → Var → Var → Unary → Unary
unary_on on_int on_float int res opr refused = record {
  res = record res { type = int; val = on_int opr.val };
  opr = opr;
  ret = true;
}
unary_on on_int on_float float res opr refused = record {
  res = record res { type = float; val = on_float opr.val };
  opr = opr;
  ret = true;
}
unary_on on_int on_float string res opr refused = refused
unary_on on_int on_float (obj o) res opr refused = refused

abbrev pub refused : Var → Var → Unary
refused res opr = record { res = record res { type = opr.type }; opr = opr; ret = false }

unfoldable pub number_not_cac : Fpu → Var → Var → Unary
number_not_cac F res opr = unary_on neg_long F.neg opr.type res opr (refused res opr)

unfoldable pub logic_not_cac : Var → Var → Unary
logic_not_cac res opr = record {
  res = record res { type = int; val = truth (opr.val == 0) };
  opr = opr;
  ret = true;
}

unfoldable pub logic_flit_cac : Var → Var → Unary
logic_flit_cac res opr =
    if type_code opr.type == 0
    then record {
      res = record res { type = int; val = long_word - 1 - opr.val };
      opr = opr;
      ret = true;
    }
    else record { res = res; opr = opr; ret = false }

-- `i++` and `i--` give the old value and change the operand.
abbrev step_on : (ℕ → ℕ) → (ℕ → ℕ) → OprType → Var → Var → Unary
step_on on_int on_float int res opr = record {
  res = record res { type = int; val = opr.val };
  opr = record opr { val = on_int opr.val };
  ret = true;
}
step_on on_int on_float float res opr = record {
  res = record res { type = float; val = opr.val };
  opr = record opr { val = on_float opr.val };
  ret = true;
}
step_on on_int on_float string res opr = refused res opr
step_on on_int on_float (obj o) res opr = refused res opr

unfoldable pub self_add_cac : Fpu → Var → Var → Unary
self_add_cac F res opr = step_on (λ a. (a + 1) % long_word) (λ a. F.add a F.one) opr.type res opr

unfoldable pub self_dec_cac : Fpu → Var → Var → Unary
self_dec_cac F res opr =
    step_on (λ a. (a + long_word - 1) % long_word) (λ a. F.sub a F.one) opr.type res opr
