-- ===== src/Opt/Var.antt =====
-- The variables of code/czl_vm.h that the operators read and write, and what the operators of
-- code/czl_opt.c ask of the other files and of the machine.
use czl.Prelude.{
  ℕ, ◌+◌, ◌-◌, ◌%◌, ◌^◌, Bool, true, false, Option, List, ltb, leb, ◌==◌, if◌then◌else◌,
}

-- A czl_long is a 64-bit word, two's complement.
abbrev pub long_word : ℕ
long_word = 2 ^ 64

abbrev pub is_negative : ℕ → Bool
is_negative a = leb (2 ^ 63) a

abbrev pub neg_long : ℕ → ℕ
neg_long a = (long_word - a) % long_word

-- `a < b` on czl_long.
abbrev pub less_long : ℕ → ℕ → Bool
less_long a b = ltb ((a + 2 ^ 63) % long_word) ((b + 2 ^ 63) % long_word)

-- A test's result as a czl_long.
abbrev pub truth : Bool → ℕ
truth b = if b then 1 else 0

-- czl_opr_type_enum. CZL_INT, CZL_FLOAT and CZL_STRING are the types that the operators switch on;
-- the others, which mostly share a `default`, stand under one constructor.
pub data ObjType : Type 0 where
  array table instance_obj stack queue file source fun_ref obj_ref array_list table_list lg_var
        ins_var member function new_obj nil usr_fun reg_var enum num char null :
      ObjType

pub data OprType : Type 0 where
  int float string : OprType
  obj : ObjType → OprType

-- czl_var: `val` is the word that the members of the union czl_value share; a float is its bits.
pub record Var : Type 0 where
  pub type : OprType
  pub quality : ℕ
  pub ot : OprType
  pub val : ℕ

-- A number, as czl_get_number_from_str reads one from a text.
pub record Number : Type 0 where
  pub is_float : Bool
  pub bits : ℕ

-- The double arithmetic of the machine, on bits.
pub record Fpu : Type 0 where
  pub add : ℕ → ℕ → ℕ
  pub sub : ℕ → ℕ → ℕ
  pub mul : ℕ → ℕ → ℕ
  pub div : ℕ → ℕ → ℕ
  pub neg : ℕ → ℕ
  pub one : ℕ
  pub less : ℕ → ℕ → Bool
  pub equal : ℕ → ℕ → Bool
  pub of_long : ℕ → ℕ
  pub to_long : ℕ → ℕ

-- What the operators call in the other files: the contents of a string object, memcmp on two texts
-- of one length (an int, as a 32-bit word), czl_get_number_from_str, and what czl_tmp_buf_free does
-- to the heap.
pub record Heap : Type 1 where
  pub Store : Type 0
  pub text : Store → ℕ → List ℕ
  pub mem_cmp : List ℕ → List ℕ → ℕ
  pub number : List ℕ → Option Number
  pub tmp_buf_free : Store → Var → Store

-- An operator's outcome: the heap, the left operand (or the result), and what is returned.
pub record Outcome (S : Type 0) : Type 0 where
  pub store : S
  pub left : Var
  pub ret : Bool

-- The pointer of the union is its low 32 bits.
abbrev pub obj_of : ℕ → ℕ
obj_of val = val % 2 ^ 32

abbrev pub obj_code : ObjType → ℕ
obj_code array = 3
obj_code table = 4
obj_code instance_obj = 5
obj_code stack = 6
obj_code queue = 7
obj_code file = 8
obj_code source = 9
obj_code fun_ref = 10
obj_code obj_ref = 11
obj_code array_list = 12
obj_code table_list = 13
obj_code lg_var = 14
obj_code ins_var = 15
obj_code member = 16
obj_code function = 17
obj_code new_obj = 18
obj_code nil = 19
obj_code usr_fun = 20
obj_code reg_var = 21
obj_code enum = 22
obj_code num = 23
obj_code char = 24
obj_code null = 25

-- The enumeration's numbers.
abbrev pub type_code : OprType → ℕ
type_code int = 0
type_code float = 1
type_code string = 2
type_code (obj o) = obj_code o

abbrev pub is_string : OprType → Bool
is_string int = false
is_string float = false
is_string string = true
is_string (obj o) = false

-- CZL_TB_CF: a temporary's buffer is freed, and the variable is no temporary any more.
module _ (H : Heap) where
  unfoldable pub tb_cf : H.Store → Var → H.Store × Var
  tb_cf s v = if v.quality == 0 then (s, v) else (H.tmp_buf_free s v, record v { quality = 0 })
