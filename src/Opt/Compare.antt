-- ===== src/Opt/Compare.antt =====
-- The comparisons of code/czl_opt.c, from czl_num_str_cmp to czl_cmp_cac.
use czl.Prelude.{
  ℕ, ◌+◌, ◌-◌, ◌%◌, Bool, true, false, not, ◌&&◌, ◌||◌, Option, none, some, List, length, ltb, ◌==◌,
  if◌then◌else◌,
}
use czl.Opt.Var.{
  long_word, less_long, truth, obj_of, OprType, int, float, string, obj, Var, Number, Fpu, Heap,
  Outcome, type_code, is_string, tb_cf,
}

-- A char that C's `char` type holds, as a byte: 255 is -1. `char_neg` is `-c` and `char_long` its value.
abbrev pub minus_one : ℕ
minus_one = 255

abbrev pub char_neg : ℕ → ℕ
char_neg c = (256 - c) % 256

abbrev pub char_long : ℕ → ℕ
char_long c = if ltb c 128 then c else c + long_word - 256

-- 0, -1 or 1 by `==`, `<` and the rest.
abbrev pub three_way : Bool → Bool → ℕ
three_way equal less = if equal then 0 else if less then minus_one else 1

-- The switch on a variable's type in czl_num_str_cmp: all but CZL_INT counts as CZL_FLOAT.
abbrev pub not_int : OprType → Bool
not_int int = false
not_int float = true
not_int string = true
not_int (obj o) = true

-- The two switches on the operands' types, which all comparisons share: two numbers, of which one
-- or both may be floats, a pair with a text that czl_str_cmp compares, and the rest.
pub data Pair : Type 0 where
  numbers : Bool → Bool → Pair
  texts others : Pair

unfoldable pub pair : OprType → OprType → Pair
pair int int = numbers false false
pair int float = numbers false true
pair int string = texts
pair int (obj o) = others
pair float int = numbers true false
pair float float = numbers true true
pair float string = texts
pair float (obj o) = others
pair string int = texts
pair string float = texts
pair string string = texts
pair string (obj o) = others
pair (obj o) r = others

-- An object on the left of `==` and `!=` is compared by its address, whatever the right is; a
-- number or a text is never equal to an object.
abbrev pub is_obj : OprType → Bool
is_obj int = false
is_obj float = false
is_obj string = false
is_obj (obj o) = true

abbrev pub same_obj : Var → Var → Bool
same_obj l r = obj_of l.val == obj_of r.val

-- `^^`: the truth of a number is that of its word, so that -0.0 is true; the rest are false.
abbrev pub truth_of : Var → Bool
truth_of v = is_number v.type && not (v.val == 0)
  where
    is_number : OprType → Bool
    is_number int = true
    is_number float = true
    is_number string = false
    is_number (obj o) = false

module _ (F : Fpu) where
  -- The operands of a mixed comparison are compared as doubles, two integers as integers.
  unfoldable pub num_less : Bool → ℕ → Bool → ℕ → Bool
  num_less false a false b = less_long a b
  num_less false a true b = F.less (F.of_long a) b
  num_less true a false b = F.less a (F.of_long b)
  num_less true a true b = F.less a b

  unfoldable pub num_equal : Bool → ℕ → Bool → ℕ → Bool
  num_equal false a false b = a == b
  num_equal false a true b = F.equal (F.of_long a) b
  num_equal true a false b = F.equal a (F.of_long b)
  num_equal true a true b = F.equal a b

  -- C's `a <= b`.
  unfoldable pub num_less_equ : Bool → ℕ → Bool → ℕ → Bool
  num_less_equ x a y b = num_less x a y b || num_equal x a y b

module _ (F : Fpu) (H : Heap) where
  -- A text that is no number is below every number.
  abbrev pub number_cmp : Var → Option Number → ℕ
  number_cmp v none = minus_one
  number_cmp v (some res) =
      three_way (num_equal F res.is_float res.bits (not_int v.type) v.val)
        (num_less F res.is_float res.bits (not_int v.type) v.val)

  unfoldable pub num_str_cmp : Var → List ℕ → ℕ
  num_str_cmp v str = number_cmp v (H.number str)

  unfoldable pub str_str_cmp : List ℕ → List ℕ → ℕ
  str_str_cmp l r =
      if length l == length r
      then H.mem_cmp l r % 256
      else if ltb (length l) (length r)
      then minus_one
      else 1

  -- What czl_str_cmp returns; and what it frees, which is a text on the left.
  unfoldable pub str_cmp : H.Store → Var → Var → ℕ
  str_cmp s l r =
      if is_string l.type
      then if is_string r.type
        then str_str_cmp (H.text s (obj_of l.val)) (H.text s (obj_of r.val))
        else num_str_cmp r (H.text s (obj_of l.val))
      else char_neg (num_str_cmp l (H.text s (obj_of r.val)))

  unfoldable pub str_cmp_free : H.Store → Var → H.Store × Var
  str_cmp_free s l = if is_string l.type then tb_cf H s l else (s, l)

  abbrev pub result : H.Store × Var → ℕ → Outcome H.Store
  result at val = record { store = at.0; left = record at.1 { type = int; val = val }; ret = true }

  -- The body of `>`, `>=`, `<`, `<=` and `??`: `on_num` on two numbers, and `on_str` on what
  -- czl_str_cmp returns.
  unfoldable pub relation_on :
      (Bool → ℕ → Bool → ℕ → ℕ) → (ℕ → ℕ) → Pair → H.Store → Var → Var → Outcome H.Store
  relation_on on_num on_str (numbers x y) s l r = result (s, l) (on_num x l.val y r.val)
  relation_on on_num on_str texts s l r = result (str_cmp_free s l) (on_str (str_cmp s l r))
  relation_on on_num on_str others s l r = record { store = s; left = l; ret = false }

  unfoldable pub more_cac : H.Store → Var → Var → Outcome H.Store
  more_cac s l r =
      relation_on (λ x a y b. truth (num_less F y b x a)) (λ c. truth (c == 1)) (pair l.type r.type)
        s l r

  unfoldable pub more_equ_cac : H.Store → Var → Var → Outcome H.Store
  more_equ_cac s l r =
      relation_on (λ x a y b. truth (num_less_equ F y b x a)) (λ c. truth (not (c == minus_one)))
        (pair l.type r.type) s l r

  unfoldable pub less_cac : H.Store → Var → Var → Outcome H.Store
  less_cac s l r =
      relation_on (λ x a y b. truth (num_less F x a y b)) (λ c. truth (c == minus_one))
        (pair l.type r.type) s l r

  unfoldable pub less_equ_cac : H.Store → Var → Var → Outcome H.Store
  less_equ_cac s l r =
      relation_on (λ x a y b. truth (num_less_equ F x a y b)) (λ c. truth (not (c == 1)))
        (pair l.type r.type) s l r

  unfoldable pub cmp_cac : H.Store → Var → Var → Outcome H.Store
  cmp_cac s l r =
      relation_on (λ x a y b. char_long (three_way (num_equal F x a y b) (num_less F x a y b)))
        char_long (pair l.type r.type) s l r

  -- `==`. An object on the left is compared by its address; a number or a text with an object is 0.
  unfoldable pub equ_on : Pair → H.Store → Var → Var → Outcome H.Store
  equ_on (numbers x y) s l r = result (s, l) (truth (num_equal F x l.val y r.val))
  equ_on texts s l r = result (str_cmp_free s l) (truth (str_cmp s l r == 0))
  equ_on others s l r = result (tb_cf H s l) (if is_obj l.type then truth (same_obj l r) else 0)

  unfoldable pub equ_equ_cac : H.Store → Var → Var → Outcome H.Store
  equ_equ_cac s l r = equ_on (pair l.type r.type) s l r

  -- `!=`. A number or a text with an object is 1.
  unfoldable pub not_equ_on : Pair → H.Store → Var → Var → Outcome H.Store
  not_equ_on (numbers x y) s l r = result (s, l) (truth (not (num_equal F x l.val y r.val)))
  not_equ_on texts s l r = result (str_cmp_free s l) (if str_cmp s l r == 0 then 0 else 1)
  not_equ_on others s l r =
      result (tb_cf H s l) (if is_obj l.type then truth (not (same_obj l r)) else 1)

  unfoldable pub not_equ_cac : H.Store → Var → Var → Outcome H.Store
  not_equ_cac s l r = not_equ_on (pair l.type r.type) s l r

  -- `===` is 0 for different types.
  unfoldable pub equ_3_cac : H.Store → Var → Var → Outcome H.Store
  equ_3_cac s l r =
      if type_code l.type == type_code r.type
      then equ_on (pair l.type r.type) s l r
      else result (tb_cf H s l) 0

  unfoldable pub xor_xor_cac : H.Store → Var → Var → Outcome H.Store
  xor_xor_cac s l r = result (s, l) (truth (if truth_of l then not (truth_of r) else truth_of r))
