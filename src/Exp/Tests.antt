-- ===== src/Exp/Tests.antt =====
-- Concrete expressions, and what code/czl_vm.c makes of them.
use czl.Prelude.{
  ℕ, ◌+◌, ◌*◌, ◌%◌, ◌≡◌, refl, inl, true, false, Option, none, some, List, [], ◌∷◌, ◌++◌, ◌==◌,
  if◌then◌else◌, arith, length,
}
use czl.Exp.{
  Flag, operand, unary_opt, binary_opt, ExpOp, ExpNode, null, node, leaf, value, role, add, mul,
  number_not, que, and_and, binary_opt_table, unary_opt_table, pos_left, left_to_right,
  right_to_left,
}
use czl.Exp.Place.{ExpHandle, root, has_operand}
use czl.Exp.Insert.{exp_node_insert}
use czl.Exp.Tokens.{tokens}
use czl.Exp.Shape.{IsToken, token_unary, token_binary, at_binary}
use czl.Exp.Join.{completes, is_some}
use czl.Exp.Branches.{barred}
use czl.Exp.Accept.{IsHandle, corrected, exp_node_insert-accepts, exp_node_insert-tokens}
use czl.Exp.{col}
use czl.Exp.State.{ends_complete, waits_for_col, may_join}
use czl.Exp.Order.{Ordered}
use czl.Exp.Binding.{exp_node_insert-Ordered}
use czl.Exp.Stack.{tree_to_stack, get_exp_tree_node_num, get_order_num, short}
use czl.Exp.Complete.{Complete, complete_operand, complete_binary, complete_logic}
use czl.Exp.Counts.{tree_to_stack-length}
use czl.Exp.Orders.{create_order, orders}
use czl.Exp.Emits.{create_order-tree_to_stack}
use czl.Exp.Registers.{Order, RegState, set_opt_opr, run_orders}
use czl.Exp.Value.{Simple, simple_operand, simple_binary, fits, tree_value}
use czl.Exp.Correct.{no_regs, Leaves, set_opt_opr-tree_value}

abbrev op_of : Flag → (type priority associativity o : ℕ) → ExpOp
op_of flag type priority associativity o = record {
  flag = flag;
  type = type;
  bracket = false;
  position = pos_left;
  priority = priority;
  associativity = associativity;
  obj = o;
}

abbrev var : ℕ → ExpNode
var o = leaf (op_of operand 0 0 0 o)

abbrev add_op : ExpOp
add_op = op_of binary_opt add 12 left_to_right 0

abbrev mul_op : ExpOp
mul_op = op_of binary_opt mul 13 left_to_right 0

abbrev and_op : ExpOp
and_op = op_of binary_opt and_and 7 left_to_right 0

abbrev que_op : ExpOp
que_op = op_of binary_opt que 5 right_to_left 0

abbrev col_op : ExpOp
col_op = op_of binary_opt col 5 right_to_left 0

abbrev minus_op : ExpOp
minus_op = op_of unary_opt number_not 0 0 0

abbrev sum : ExpNode → ExpNode → ExpNode
sum l r = node add_op l r

abbrev product : ExpNode → ExpNode → ExpNode
product l r = node mul_op l r

-- `a + b` is read.
abbrev a_plus_b : ExpHandle
a_plus_b = record {
  above = [];
  cur = sum (var 1) (var 2);
  mtoc = 0;
  colon_flag = 0;
  reg_flag = 0;
  reg_sign = 0;
  reg_cnt = 0;
}

a_plus_b-IsHandle : IsHandle a_plus_b
a_plus_b-IsHandle = record { above = tt; cur = at_binary refl refl (inl (refl, refl)) }

-- Then `*` takes over `b`.
abbrev a_plus_b_mul : ExpHandle
a_plus_b_mul = record {
  above = (add_op, var 1) ∷ [];
  cur = product (var 2) null;
  mtoc = 0;
  colon_flag = 0;
  reg_flag = 1;
  reg_sign = 0;
  reg_cnt = 2;
}

mul-IsToken : IsToken mul_op null null
unfolding binary_opt_table
mul-IsToken = token_binary refl refl

minus-IsToken : IsToken minus_op null null
unfolding unary_opt_table
minus-IsToken = token_unary refl refl

insert_mul : exp_node_insert 0 (leaf mul_op) a_plus_b ≡ some a_plus_b_mul
unfolding exp_node_insert
insert_mul = refl

mul_no_value :
    role (corrected a_plus_b mul_op) ≡ value
    → barred (sum (var 1) (var 2)) (corrected a_plus_b mul_op) ≡ false
mul_no_value e = refl

exp_node_insert-tokens_example :
    IsHandle a_plus_b_mul
    × ((tokens (root a_plus_b_mul)
          ≡ tokens (root a_plus_b) ++ node (corrected a_plus_b mul_op) null null ∷ [])
        × (has_operand (product (var 2) null) ≡ completes (corrected a_plus_b mul_op)))
exp_node_insert-tokens_example =
    exp_node_insert-tokens 0 a_plus_b a_plus_b_mul mul_op null null a_plus_b-IsHandle mul-IsToken
      mul_no_value insert_mul

exp_node_insert-accepts_example :
    is_some (exp_node_insert 0 (leaf minus_op) a_plus_b)
    ≡ may_join (ends_complete (root a_plus_b)) (waits_for_col (root a_plus_b)) minus_op
exp_node_insert-accepts_example =
    exp_node_insert-accepts 0 a_plus_b minus_op null null a_plus_b-IsHandle minus-IsToken
      (λ e. absurd cc)

-- `a ? b` waits for a `:`, which `a ? b : c` has.
answered : waits_for_col (node que_op (var 1) (node col_op (var 2) (var 3))) ≡ false
answered = refl

unanswered : waits_for_col (node que_op (var 1) (var 2)) ≡ true
unanswered = refl

-- `a && b * c`.
abbrev logic_tree : ExpNode
logic_tree = node and_op (var 1) (product (var 2) (var 3))

logic_tree-Complete : Complete logic_tree
logic_tree-Complete =
    complete_logic refl refl (complete_operand refl)
      (complete_binary refl refl refl refl (complete_operand refl) (complete_operand refl))

tree_to_stack-length_example :
    get_exp_tree_node_num logic_tree 0 ≡ length (tree_to_stack false logic_tree) % short
tree_to_stack-length_example = tree_to_stack-length logic_tree logic_tree-Complete

create_order-tree_to_stack_example :
    (create_order (length (tree_to_stack false logic_tree)) (tree_to_stack false logic_tree)
      ≡ (orders (tree_to_stack false logic_tree), []))
    × (get_order_num logic_tree 0 ≡ length (orders (tree_to_stack false logic_tree)) % short)
create_order-tree_to_stack_example =
    create_order-tree_to_stack logic_tree (length (tree_to_stack false logic_tree))
      logic_tree-Complete (omega arith)

logic_node_num : get_exp_tree_node_num logic_tree 0 ≡ 6
unfolding get_exp_tree_node_num
logic_node_num = refl

-- `(a + b) * (c + d)` takes two registers.
abbrev two_sums : ExpNode
two_sums = product (sum (var 1) (var 2)) (sum (var 3) (var 4))

abbrev keep_value : ℕ → ℕ → ℕ
keep_value kind a = a

abbrev calculate : ℕ → ℕ → ℕ → ℕ
calculate kind a b = if kind == mul then a * b else a + b

var-Simple : (o : ℕ) → Simple (var o)
var-Simple o = simple_operand refl

sum-Simple : (l r : ExpNode) → Simple l → Simple r → Simple (sum l r)
sum-Simple l r s u = simple_binary refl refl refl refl refl s u

product-Simple : (l r : ExpNode) → Simple l → Simple r → Simple (product l r)
product-Simple l r s u = simple_binary refl refl refl refl refl s u

two_sums-Simple : Simple two_sums
two_sums-Simple =
    product-Simple (sum (var 1) (var 2)) (sum (var 3) (var 4))
      (sum-Simple (var 1) (var 2) (var-Simple 1) (var-Simple 2))
      (sum-Simple (var 3) (var 4) (var-Simple 3) (var-Simple 4))

two_sums-fits : fits 0 two_sums ≡ true
unfolding fits
two_sums-fits = refl

set_opt_opr-tree_value_example :
    Leaves
      (λ o. o)
      keep_value
      calculate
      (set_opt_opr 0 (tree_to_stack false two_sums) no_regs)
      (tree_value (λ o. o) keep_value calculate two_sums)
set_opt_opr-tree_value_example =
    set_opt_opr-tree_value (λ o. o) keep_value calculate two_sums two_sums-Simple two_sums-fits

-- `(a + b) + (c + d) * (e + f)` takes three: `e + f` is written to the register that still holds
-- `a + b`, and the result is 88 where the tree's value is 80.
abbrev three_sums : ExpNode
three_sums = sum (sum (var 1) (var 2)) (product (sum (var 3) (var 4)) (sum (var 5) (var 6)))

three_sums-fits : fits 0 three_sums ≡ false
unfolding fits
three_sums-fits = refl

three_sums_value : tree_value (λ o. o) keep_value calculate three_sums ≡ 80
unfolding tree_value
three_sums_value = refl

abbrev result : Option (List Order × RegState) → ℕ
result none = 0
result (some (os, st)) = run_orders (λ o. o) keep_value calculate os (λ r. 0) 0

third_register : result (set_opt_opr 0 (tree_to_stack false three_sums) no_regs) ≡ 88
unfolding set_opt_opr tree_to_stack
third_register = refl

-- `a ? b + - c d`: the parser goes on behind `c`, since the `?` waits for its `:`, and `d` takes the
-- place of `c`.
abbrev pending : ExpHandle
pending = record {
  above = (que_op, var 1) ∷ [];
  cur = sum (var 2) (node minus_op null (var 3));
  mtoc = 1;
  colon_flag = 1;
  reg_flag = 1;
  reg_sign = 0;
  reg_cnt = 2;
}

overwritten :
    exp_node_insert 0 (var 4) pending
    ≡ some (record pending { cur = sum (var 2) (node minus_op null (var 4)) })
unfolding exp_node_insert
overwritten = refl

-- `a + b *` keeps `*` under `+`.
a_plus_b-Ordered : Ordered (root a_plus_b)
a_plus_b-Ordered b = (
  record { left = λ e. absurd cc; right = λ e. absurd cc; que_priority = λ e. absurd cc },
  (λ e. absurd cc, λ e. absurd cc),
)

exp_node_insert-Ordered_example : Ordered (root a_plus_b_mul)
exp_node_insert-Ordered_example =
    exp_node_insert-Ordered 0 a_plus_b a_plus_b_mul mul_op null null a_plus_b-IsHandle mul-IsToken
      a_plus_b-Ordered insert_mul
