-- ===== src/Exp/Registers.antt =====
-- The registers of an expression: czl_set_opt_opr and czl_use_reg of code/czl_vm.c for the
-- operators that leave a temporary result, other than `&&`, `||` and `?:`, and the orders run as
-- CZL_RU2O and CZL_RB2O of code/czl_opt.h do. The limit of registers of a function, the hints on
-- the types of operands and the marks of class members are not modelled. A register is its
-- distance from `gp->exp_reg + gp->reg_cnt`.
use czl.Prelude.{
  ℕ, ◌+◌, Bool, ◌||◌, Option, none, some, List, [], ◌∷◌, ◌++◌, ◌==◌, ltb, leb, if◌then◌else◌,
  update,
}
use czl.Exp.{and_and, or_or}
use czl.Exp.Insert.{is_obj_binary_opt}
use czl.Exp.Stack.{
  ExpEle, EleFlag, operand_ele, unary_ele, binary_ele, condition, three_opt, three_end,
}

-- An operand: a register, or an object that czl_get_opr reads.
pub data Opr : Type 0 where
  reg : ℕ → Opr
  obj : ℕ → Opr

pub data Order : Type 0 where
  unary_order : (kind : ℕ) → (lo : Opr) → (res : ℕ) → Order
  binary_order : (kind : ℕ) → (lo ro : Opr) → (res : ℕ) → Order

-- The array `res` from its end, and the locals `reg_cnt` and `reg`.
pub record RegState : Type 0 where
  pub res : List Opr
  pub reg_cnt : ℕ
  pub last : ℕ

-- czl_is_tmp_unary_opt.
abbrev pub is_tmp_unary_opt : ℕ → Bool
is_tmp_unary_opt kind = leb kind 6 || kind == 44

-- czl_use_reg, and its call for an operand that is no register.
abbrev pub use_reg : (sign : ℕ) → RegState → ℕ
use_reg sign st = if ltb st.reg_cnt 2 then sign + st.reg_cnt else if st.last == 0 then 1 else 0

abbrev pub result_reg : (sign : ℕ) → Opr → RegState → ℕ
result_reg sign (reg r) st = r
result_reg sign (obj o) st = use_reg sign st

abbrev pub result_cnt : Opr → RegState → ℕ
result_cnt (reg r) st = st.reg_cnt
result_cnt (obj o) st = if ltb st.reg_cnt 2 then st.reg_cnt + 1 else st.reg_cnt

-- The result takes the place of the operands.
abbrev pub keep_reg : (sign : ℕ) → Opr → List Opr → RegState → RegState
keep_reg sign l rest st = record {
  res = reg (result_reg sign l st) ∷ rest;
  reg_cnt = result_cnt l st;
  last = result_reg sign l st;
}

abbrev pub Set : Type 0
Set = Option (List Order × RegState)

abbrev pub unary_set : (sign kind : ℕ) → List Opr → RegState → Set
unary_set sign kind [] st = none
unary_set sign kind (l ∷ rest) st =
    if is_tmp_unary_opt kind
    then some (unary_order kind l (result_reg sign l st) ∷ [], keep_reg sign l rest st)
    else none

abbrev pub binary_set : (sign kind : ℕ) → List Opr → RegState → Set
binary_set sign kind [] st = none
binary_set sign kind (r ∷ []) st = none
binary_set sign kind (r ∷ l ∷ rest) st =
    if is_obj_binary_opt kind || (kind == and_and || kind == or_or)
    then none
    else some (binary_order kind l r (result_reg sign l st) ∷ [], keep_reg sign l rest st)

abbrev pub set_step : (sign : ℕ) → EleFlag → ExpEle → RegState → Set
set_step sign operand_ele x st = some ([], record st { res = obj x.obj ∷ st.res })
set_step sign unary_ele x st = unary_set sign x.kind st.res st
set_step sign binary_ele x st = binary_set sign x.kind st.res st
set_step sign condition x st = none
set_step sign three_opt x st = none
set_step sign three_end x st = none

-- Orders in front of those of the rest.
abbrev pub more : List Order → Set → Set
more os none = none
more os (some (ps, st)) = some (os ++ ps, st)

abbrev pub and_then : Set → (RegState → Set) → Set
and_then none next = none
and_then (some (os, st)) next = more os (next st)

unfoldable pub set_opt_opr : (sign : ℕ) → List ExpEle → RegState → Option (List Order × RegState)
set_opt_opr sign [] st = some ([], st)
set_opt_opr sign (x ∷ xs) st = and_then (set_step sign x.flag x st) (λ st'. set_opt_opr sign xs st')

-- The values, and what the operators of code/czl_opt.c make of them; `get_obj` is czl_get_opr.
module _ {V : Type 0} (get_obj : ℕ → V) (unary_cac : ℕ → V → V) (binary_cac : ℕ → V → V → V) where
  abbrev pub get_opr : (ℕ → V) → Opr → V
  get_opr regs (reg r) = regs r
  get_opr regs (obj o) = get_obj o

  -- CZL_RU2O; CZL_RB2O copies the left operand to the result before it reads the right one.
  abbrev pub run_order : Order → (ℕ → V) → ℕ → V
  run_order (unary_order kind lo res) regs = update regs res (unary_cac kind (get_opr regs lo))
  run_order (binary_order kind lo ro res) regs =
      let copied = update regs res (get_opr regs lo) in
      update copied res (binary_cac kind (copied res) (get_opr copied ro))

  abbrev pub run_orders : List Order → (ℕ → V) → ℕ → V
  run_orders [] regs = regs
  run_orders (o ∷ os) regs = run_orders os (run_order o regs)
