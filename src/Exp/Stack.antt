-- ===== src/Exp/Stack.antt =====
-- The tree of an expression as a sequence of elements, its operators behind their operands:
-- czl_tree_to_stack of code/czl_vm.c and what it calls. The line numbers are not modelled.
use czl.Prelude.{ℕ, ◌+◌, ◌%◌, Bool, false, ◌||◌, ◌&&◌, List, [], ◌∷◌, ◌++◌, ◌==◌, if◌then◌else◌}
use czl.Exp.{
  Flag, operand, unary_opt, binary_opt, ExpOp, ExpNode, null, node, is_operand, is_unary, is_binary,
  left_of, right_of, que, col, and_and, or_or,
}

-- An unsigned short and an unsigned char.
abbrev pub short : ℕ
short = 65536

abbrev pub byte : ℕ
byte = 256

-- czl_get_exp_tree_node_num and czl_get_order_num.
abbrev pub is_jump : ExpOp → Bool
is_jump op = is_binary op.flag && ((op.type == col || op.type == and_and) || op.type == or_or)

abbrev pub inc_short : ℕ → ℕ
inc_short n = (n + 1) % short

abbrev pub count_node : ExpOp → ℕ → ℕ
count_node op sum = if is_jump op then inc_short (inc_short sum) else inc_short sum

unfoldable pub get_exp_tree_node_num : ExpNode → ℕ → ℕ
get_exp_tree_node_num null sum = sum
get_exp_tree_node_num (node op l r) sum =
    get_exp_tree_node_num r (get_exp_tree_node_num l (count_node op sum))

abbrev pub count_order : ExpOp → ℕ → ℕ
count_order op sum = if is_operand op.flag then sum else count_node op sum

unfoldable pub get_order_num : ExpNode → ℕ → ℕ
get_order_num null sum = sum
get_order_num (node op l r) sum = get_order_num r (get_order_num l (count_order op sum))

-- czl_exp_ele: `lo` and `ro` are whether CZL_CONDITION has its own address there, `obj` is `res`.
pub data EleFlag : Type 0 where
  operand_ele : EleFlag
  unary_ele : EleFlag
  binary_ele : EleFlag
  condition : EleFlag
  three_opt : EleFlag
  three_end : EleFlag

pub record ExpEle : Type 0 where
  pub flag : EleFlag
  pub kind : ℕ
  pub lo : Bool
  pub ro : Bool
  pub lt : ℕ
  pub rt : ℕ
  pub obj : ℕ

abbrev pub ele_flag : Flag → EleFlag
ele_flag operand = operand_ele
ele_flag unary_opt = unary_ele
ele_flag binary_opt = binary_ele

abbrev pub plain_ele : EleFlag → ℕ → ℕ → ExpEle
plain_ele flag kind obj = record {
  flag = flag;
  kind = kind;
  lo = false;
  ro = false;
  lt = 0;
  rt = 0;
  obj = obj;
}

-- czl_exp_stack_push.
abbrev pub stack_push : ExpOp → ExpEle
stack_push op = plain_ele (ele_flag op.flag) op.type (if is_operand op.flag then op.obj else 0)

-- czl_unary_opt_push.
unfoldable pub unary_opt_push : ExpNode → List ExpEle
unary_opt_push null = []
unary_opt_push (node op l r) = stack_push op ∷ unary_opt_push l

-- CZL_CONDITION, with the numbers of orders of the two sides.
abbrev pub or_one : ℕ → ℕ
or_one n = if n == 0 then 1 else n

abbrev pub condition_ele : ExpOp → (l r : ExpNode) → ExpEle
condition_ele op l r = record {
  flag = condition;
  kind = get_order_num l 0 % byte;
  lo = op.type == or_or;
  ro = op.type == and_and;
  lt = 0;
  rt = or_one (get_order_num r 0 % byte);
  obj = 0;
}

-- CZL_THREE_OPT and its two CZL_THREE_END; `l` is the condition, `m` and `r` the two values.
abbrev pub three_lt : ExpNode → ℕ
three_lt m = (get_order_num m 0 % byte + 2) % byte

abbrev pub three_ele : ExpOp → (l m r : ExpNode) → ExpEle
three_ele op l m r = record {
  flag = three_opt;
  kind = get_order_num l 0 % byte;
  lo = false;
  ro = false;
  lt = three_lt m;
  rt = (get_order_num r 0 % byte + three_lt m + 1) % byte;
  obj = 0;
}

abbrev pub end_ele : ExpNode → ExpEle
end_ele p = plain_ele three_end (get_order_num p 0 % byte) 0

-- The part of a node after its left subtree; the lists are the stacks of the right subtree and of
-- that one's two subtrees.
abbrev pub binary_stack : ExpOp → (l r : ExpNode) → (right middle last : List ExpEle) → List ExpEle
binary_stack op l r right middle last =
    if op.type == and_and || op.type == or_or
    then condition_ele op l r ∷ (right ++ (stack_push op ∷ []))
    else if op.type == que
    then three_ele op l (left_of r) (right_of r)
      ∷ (middle ++ (end_ele (left_of r) ∷ (last ++ (end_ele (right_of r) ∷ []))))
    else right ++ stack_push op ∷ []

abbrev pub node_stack :
    Flag → ExpOp → (l r : ExpNode) → (right middle last : List ExpEle) → List ExpEle
node_stack operand op l r right middle last = stack_push op ∷ []
node_stack unary_opt op l r right middle last = right ++ unary_opt_push (node op l r)
node_stack binary_opt op l r right middle last = binary_stack op l r right middle last

-- czl_tree_to_stack; `chained` is whether the node is the left child of a unary operator.
unfoldable pub tree_to_stack : (chained : Bool) → ExpNode → List ExpEle
tree_to_stack chained null = []
tree_to_stack chained (node op l null) =
    let left = tree_to_stack (is_unary op.flag) l in
    if chained && is_unary op.flag then [] else left ++ node_stack op.flag op l null [] [] []
tree_to_stack chained (node op l (node ro rl rr)) =
    let left = tree_to_stack (is_unary op.flag) l in
    let right = tree_to_stack false (node ro rl rr) in
    let middle = tree_to_stack (is_unary ro.flag) rl in
    let last = tree_to_stack false rr in
    if chained && is_unary op.flag
    then []
    else left ++ node_stack op.flag op l (node ro rl rr) right middle last
