-- ===== src/Exp/Insert.antt =====
-- The next node of an expression joins its tree: czl_exp_node_insert of code/czl_vm.c, by what the
-- node at `cur` and the new one are, and czl_exp_integrity_check with czl_exp_is_integrity, less
-- the merging of constants.
use czl.Prelude.{
  ℕ, ◌+◌, Bool, false, not, ◌&&◌, ◌||◌, Option, none, some, [], ◌==◌, leb, if◌then◌else◌,
}
use czl.Exp.{
  ExpOp, ExpNode, null, node, is_operand, is_binary, is_unary, is_value, Role, value, unary, binary,
  role, is_null, left_of, right_of, set_right, holds_operand, que, col, pos_left, pos_right,
  swap_opt,
}
use czl.Exp.Place.{ExpHandle, binary_opt_node_insert, unary_opt_node_insert, opt_collision_detect}

-- The first node; the handle's `above` is empty.
abbrev pub first_node : ExpOp → ExpNode → ExpHandle → Option ExpHandle
first_node op n h =
    if not (is_operand op.flag) && (is_binary op.flag || op.position == pos_right)
    then none
    else some (record h { above = []; cur = n })

-- `h->cur` is an operand or in brackets; `op` and `l` are the new node's fields and left subtree.
abbrev pub after_value : Role → ExpOp → ExpNode → ExpHandle → Option ExpHandle
after_value value op l h = none
after_value unary op l h =
    if op.position == pos_left then none else some (record h { above = []; cur = node op l h.cur })
after_value binary op l h = binary_opt_node_insert op (node op l null) h

-- `h->cur` is a unary operator: its fields, the operators before it, and its operand.
abbrev pub after_unary : Role → ExpNode → ExpOp → ExpHandle → Option ExpHandle
after_unary value n op h =
    if not (is_null (right_of h.cur)) then none else some (record h { cur = set_right n h.cur })
after_unary unary n op h =
    if is_null (right_of h.cur) && op.position == pos_right
    then none
    else if not (is_null (right_of h.cur)) && op.position == pos_left
    then none
    else some (record h {
      above = if op.position == pos_right then h.above else [];
      cur = unary_opt_node_insert op n h.cur;
    })
after_unary binary n op h = if is_null (right_of h.cur) then none else binary_opt_node_insert op n h

-- What the node at the right of the binary operator `h->cur` is.
abbrev pub right_role : ExpNode → Role
right_role null = value
right_role (node op l r) = role op

abbrev pub value_after_binary : Role → ExpNode → ExpHandle → Option ExpHandle
value_after_binary value n h = none
value_after_binary unary n h =
    some (record h { cur = set_right (set_right n (right_of h.cur)) h.cur })
value_after_binary binary n h = some h

abbrev pub unary_after_binary : Role → ExpNode → ExpOp → ExpHandle → Option ExpHandle
unary_after_binary value n op h =
    if op.position == pos_left
    then none
    else some (record h { cur = set_right (set_right (right_of h.cur) n) h.cur })
unary_after_binary unary n op h =
    if is_null (right_of (right_of h.cur)) && op.position == pos_right
    then none
    else if not (is_null (right_of (right_of h.cur))) && op.position == pos_left
    then none
    else some (record h { cur = set_right (unary_opt_node_insert op n (right_of h.cur)) h.cur })
unary_after_binary binary n op h = some h

-- `h->cur` is a binary operator.
abbrev pub after_binary : Role → ExpNode → ExpOp → ExpHandle → Option ExpHandle
after_binary value n op h =
    if is_null (right_of h.cur)
    then some (record h { cur = set_right n h.cur })
    else value_after_binary (right_role (right_of h.cur)) n h
after_binary unary n op h =
    if is_null (right_of h.cur)
    then if op.position == pos_right then none else some (record h { cur = set_right n h.cur })
    else unary_after_binary (right_role (right_of h.cur)) n op h
after_binary binary n op h =
    if is_null (right_of h.cur)
    then none
    else if not (holds_operand (right_of h.cur)) && is_null (right_of (right_of h.cur))
    then none
    else binary_opt_node_insert op n h

-- The registers kept for the expressions inside this one; `member` is the operands' CZL_MEMBER.
abbrev pub is_obj_binary_opt : ℕ → Bool
is_obj_binary_opt type = leb swap_opt type && leb type 18

abbrev pub is_member : (member : ℕ) → ExpNode → Bool
is_member member null = false
is_member member (node op l r) = is_operand op.flag && op.type == member

abbrev pub keep_regs : (member : ℕ) → ExpOp → ExpNode → ExpHandle → ExpHandle
keep_regs member op left h =
    if h.reg_flag == 0 && is_binary op.flag
    then if is_obj_binary_opt op.type
      then if is_member member left then record h { reg_sign = 1 } else h
      else if not (op.type == que) && not (op.type == col)
      then record h { reg_flag = 1; reg_cnt = h.reg_cnt + 2 }
      else h
    else h

-- `h->cur` by its role, and the new node after the collision test.
abbrev pub insert_at : Role → ExpOp → ExpNode → ExpNode → ExpHandle → Option ExpHandle
insert_at value op l r h = after_value (role op) op l h
insert_at unary op l r h = after_unary (role op) (node op l r) op h
insert_at binary op l r h = after_binary (role op) (node op l r) op h

-- The left subtree of the new node after the insertion.
abbrev pub left_now : ExpOp → ExpNode → ExpHandle → ExpNode
left_now op l h = if is_value op then l else left_of h.cur

abbrev pub keep_result : (member : ℕ) → ExpOp → ExpNode → Option ExpHandle → Option ExpHandle
keep_result member op l none = none
keep_result member op l (some h) = some (keep_regs member op (left_now op l h) h)

-- czl_exp_node_insert; a missing node is an error.
abbrev pub insert_node :
    (member : ℕ) → ExpOp → ExpNode → ExpNode → ExpNode → ExpHandle → Option ExpHandle
insert_node member op l r null h = first_node op (node op l r) h
insert_node member op l r (node co cl cr) h =
    let op' = opt_collision_detect op (node co cl cr) in
    keep_result member op' l (insert_at (role co) op' l r h)

unfoldable pub exp_node_insert : (member : ℕ) → ExpNode → ExpHandle → Option ExpHandle
exp_node_insert member null h = none
exp_node_insert member (node op l r) h = insert_node member op l r h.cur h

-- The operand that an operator at `cur` still needs; `cur` is not NULL here.
abbrev pub misses_operand : ExpNode → Bool
misses_operand null = false
misses_operand (node op l r) =
    not (is_value op)
    && (is_unary op.flag && is_null r
        || is_binary op.flag && (is_null r || is_null (right_of r) && not (holds_operand r)))

-- czl_exp_is_integrity; `empty_ends` is `gp->tmp->condition_flag && '{' == sign`.
unfoldable pub exp_is_integrity : (empty_ends : Bool) → ExpHandle → Bool
exp_is_integrity empty_ends h =
    if is_null h.cur then empty_ends else not (misses_operand h.cur) && h.mtoc == 0
