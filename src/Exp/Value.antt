-- ===== src/Exp/Value.antt =====
-- The orders of an expression compute the value of its tree: czl_set_opt_opr of code/czl_vm.c
-- where two registers are enough.
use czl.Prelude.{ℕ, ◌+◌, ◌≡◌, Bool, true, false, not, ◌||◌, ◌&&◌, ◌==◌, leb, if◌then◌else◌, arith}
use czl.Exp.{
  ExpOp, ExpNode, null, node, operand, unary_opt, binary_opt, and_and, or_or, que, col,
  holds_operand, Flag,
}
use czl.Exp.Insert.{is_obj_binary_opt}
use czl.Exp.Complete.{
  Complete, IsChain, chain_end, chain_on, complete_operand, complete_unary, complete_binary,
}
use czl.Exp.Registers.{is_tmp_unary_opt}

-- The unary operators that change no variable.
abbrev pub is_pure : ℕ → Bool
is_pure kind = leb kind 2 || (kind == 6 || kind == 44)

pub pure-is_tmp_unary_opt : (kind : ℕ) → is_pure kind ≡ true → is_tmp_unary_opt kind ≡ true
pure-is_tmp_unary_opt kind e = ground arith

pub data PureChain : ExpNode → Type 0 where
  pure_end : PureChain null
  pure_on :
      {op : ExpOp}
      → {l : ExpNode} → op.flag ≡ unary_opt
      → is_pure op.type ≡ true
      → PureChain l
      → PureChain (node op l null)

-- An expression of such operators and of binary operators with a temporary result, other than
-- `&&`, `||` and `?:`.
pub data Simple : ExpNode → Type 0 where
  simple_operand : {op : ExpOp} → op.flag ≡ operand → Simple (node op null null)
  simple_unary :
      {op : ExpOp}
      → {l r : ExpNode} → op.flag ≡ unary_opt
      → is_pure op.type ≡ true
      → PureChain l
      → Simple r
      → Simple (node op l r)
  simple_binary :
      {op : ExpOp}
      → {l r : ExpNode} → op.flag ≡ binary_opt
      → is_obj_binary_opt op.type ≡ false
      → (op.type == and_and || op.type == or_or) ≡ false
      → (op.type == que) ≡ false
      → (op.type == col) ≡ false
      → Simple l
      → Simple r
      → Simple (node op l r)

pub PureChain-IsChain : (l : ExpNode) → PureChain l → IsChain l
PureChain-IsChain null pure_end = chain_end
PureChain-IsChain (node op l null) (pure_on e p c) = chain_on e (PureChain-IsChain l c)
PureChain-IsChain (node op l (node ro rl rr)) c = elim c [ ]

pub Simple-Complete : (t : ExpNode) → Simple t → Complete t
Simple-Complete t (simple_operand e) = complete_operand e
Simple-Complete t (simple_unary {op} {l} {r} e p c s) =
    complete_unary e (PureChain-IsChain l c) (Simple-Complete r s)
Simple-Complete t (simple_binary {op} {l} {r} e o j q k s u) =
    complete_binary e j q k (Simple-Complete l s) (Simple-Complete r u)

-- Whether a register is free at each operator that takes one; `k` results are kept meanwhile.
abbrev pub temps : ExpNode → ℕ
temps t = if holds_operand t then 0 else 1

abbrev pub flag_fits : Flag → ℕ → (l r : ExpNode) → (fits_l fits_r : Bool) → Bool
flag_fits operand k l r fl fr = true
flag_fits unary_opt k l r fl fr = if holds_operand r then leb k 1 else fr
flag_fits binary_opt k l r fl fr = fl && (fr && (not (holds_operand l) || leb (temps r + k) 1))

abbrev pub before_right : Flag → ℕ → ExpNode → ℕ
before_right operand k l = k
before_right unary_opt k l = k
before_right binary_opt k l = temps l + k

unfoldable pub fits : ℕ → ExpNode → Bool
fits k null = true
fits k (node op l r) = flag_fits op.flag k l r (fits k l) (fits (before_right op.flag k l) r)

module _ {V : Type 0} (get_obj : ℕ → V) (unary_cac : ℕ → V → V) (binary_cac : ℕ → V → V → V) where
  -- The value of a tree.
  abbrev pub chain_value : ExpNode → V → V
  chain_value null v = v
  chain_value (node op l r) v = chain_value l (unary_cac op.type v)

  abbrev pub node_value : Flag → ExpOp → ExpNode → (vl vr : V) → V
  node_value operand op l vl vr = get_obj op.obj
  node_value unary_opt op l vl vr = chain_value l (unary_cac op.type vr)
  node_value binary_opt op l vl vr = binary_cac op.type vl vr

  unfoldable pub tree_value : ExpNode → V
  tree_value null = get_obj 0
  tree_value (node op l r) = node_value op.flag op l (tree_value l) (tree_value r)
