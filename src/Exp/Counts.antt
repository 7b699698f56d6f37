-- ===== src/Exp/Counts.antt =====
-- The numbers of elements and of orders that code/czl_vm.c counts before it makes them.
use czl.Prelude.{
  ℕ, suc, ◌+◌, ◌%◌, ◌≡◌, refl, ap, ◌∙◌, Bool, true, false, ◌||◌, ◌&&◌, List, [], ◌∷◌, ◌++◌, ◌==◌,
  arith, length, if◌then◌else◌,
}
use czl.Exp.{
  Flag, operand, unary_opt, binary_opt, ExpOp, ExpNode, null, node, col, and_and, or_or, is_binary,
  is_operand,
}
use czl.Exp.Stack.{
  condition_ele, three_ele, end_ele, ele_flag, tree_to_stack, unary_opt_push, stack_push, ExpEle,
  EleFlag, operand_ele, unary_ele, binary_ele, condition, three_opt, three_end,
  get_exp_tree_node_num, get_order_num, short, count_node, count_order, inc_short,
}
use czl.Exp.Complete.{
  Complete, IsChain, chain_on, complete_operand, complete_unary, complete_logic, complete_binary,
  complete_three, stack-operand, stack-unary, stack-logic, stack-binary, stack-three,
}

-- What an element counts; an operand counts `k`.
abbrev pub flag_weight : ℕ → EleFlag → ℕ
flag_weight k operand_ele = k
flag_weight k unary_ele = 1
flag_weight k binary_ele = 1
flag_weight k condition = 1
flag_weight k three_opt = 1
flag_weight k three_end = 1

abbrev pub total : ℕ → List ExpEle → ℕ
total k [] = 0
total k (x ∷ xs) = flag_weight k x.flag + total k xs

abbrev op_weight : ℕ → Flag → (jump : Bool) → ℕ
op_weight k operand jump = k
op_weight k unary_opt jump = 1
op_weight k binary_opt jump = if jump then 2 else 1

abbrev jumps : ℕ → Bool
jumps type = (type == col || type == and_and) || type == or_or

abbrev node_weight : ℕ → ExpOp → ℕ
node_weight k op = op_weight k op.flag (jumps op.type)

abbrev tree_weight : ℕ → ExpNode → ℕ
tree_weight k null = 0
tree_weight k (node op l r) = node_weight k op + tree_weight k l + tree_weight k r

inc_lem : (s : ℕ) → inc_short (s % short) ≡ (s + 1) % short
inc_lem s = omega arith

inc_twice : (s : ℕ) → inc_short (inc_short (s % short)) ≡ (s + 2) % short
inc_twice s = omega arith

count_node_lem : (op : ExpOp) (s : ℕ) → count_node op (s % short) ≡ (s + node_weight 1 op) % short
count_node_lem op s = by_flag op.flag (jumps op.type)
  where
    by_flag :
        (f : Flag) (j : Bool)
        → (if is_binary f && j then inc_short (inc_short (s % short)) else inc_short (s % short))
          ≡ (s + op_weight 1 f j) % short
    by_flag operand j = inc_lem s
    by_flag unary_opt j = inc_lem s
    by_flag binary_opt true = inc_twice s
    by_flag binary_opt false = inc_lem s

count_order_lem : (op : ExpOp) (s : ℕ) → count_order op (s % short) ≡ (s + node_weight 0 op) % short
count_order_lem op s = by_flag op.flag (jumps op.type)
  where
    by_flag :
        (f : Flag) (j : Bool)
        → (if is_operand f
            then s % short
            else if is_binary f && j
            then inc_short (inc_short (s % short))
            else inc_short (s % short))
          ≡ (s + op_weight 0 f j) % short
    by_flag operand j = omega arith
    by_flag unary_opt j = inc_lem s
    by_flag binary_opt true = inc_twice s
    by_flag binary_opt false = inc_lem s

-- The two functions count along the tree, each from what `count` makes of a node.
module _ (num : ExpNode → ℕ → ℕ) (count : ExpOp → ℕ → ℕ) (k : ℕ) (end : (s : ℕ) → num null s ≡ s)
    (step : (op : ExpOp) (l r : ExpNode) (s : ℕ) → num (node op l r) s ≡ num r (num l (count op s)))
    (counts : (op : ExpOp) (s : ℕ) → count op (s % short) ≡ (s + node_weight k op) % short) where
  num-weight : (t : ExpNode) (s : ℕ) → num t (s % short) ≡ (s + tree_weight k t) % short
  num-weight null s = end (s % short) ∙ ap (λ n. n % short) (omega arith)
  num-weight (node op l r) s =
      step op l r (s % short)
      ∙ ap (λ n. num r (num l n)) (counts op s)
      ∙ ap (num r) (num-weight l (s + node_weight k op))
      ∙ num-weight r (s + node_weight k op + tree_weight k l)
      ∙ ap (λ n. n % short) (omega arith)

get_exp_tree_node_num_step :
    (op : ExpOp) (l r : ExpNode) (s : ℕ)
    → get_exp_tree_node_num (node op l r) s
      ≡ get_exp_tree_node_num r (get_exp_tree_node_num l (count_node op s))
unfolding get_exp_tree_node_num
get_exp_tree_node_num_step op l r s = refl

get_exp_tree_node_num_end : (s : ℕ) → get_exp_tree_node_num null s ≡ s
unfolding get_exp_tree_node_num
get_exp_tree_node_num_end s = refl

get_order_num_step :
    (op : ExpOp) (l r : ExpNode) (s : ℕ)
    → get_order_num (node op l r) s ≡ get_order_num r (get_order_num l (count_order op s))
unfolding get_order_num
get_order_num_step op l r s = refl

get_order_num_end : (s : ℕ) → get_order_num null s ≡ s
unfolding get_order_num
get_order_num_end s = refl

total-append : (k : ℕ) (xs ys : List ExpEle) → total k (xs ++ ys) ≡ total k xs + total k ys
total-append k [] ys = omega arith
total-append k (x ∷ xs) ys = let e = total-append k xs ys in omega (arith, e)

push_weight : (k : ℕ) (f : Flag) → flag_weight k (ele_flag f) ≡ op_weight k f false
push_weight k operand = refl
push_weight k unary_opt = refl
push_weight k binary_opt = refl

chain-weight : (k : ℕ) (l : ExpNode) → IsChain l → total k (unary_opt_push l) ≡ tree_weight k l
unfolding unary_opt_push
chain-weight k null c = refl
chain-weight k (node op l null) (chain_on e c) = rw e (omega (arith, chain-weight k l c))
chain-weight k (node op l (node ro rl rr)) c = elim c [ ]

unary-weight :
    (k : ℕ) (op : ExpOp) (l r : ExpNode)
    → op.flag ≡ unary_opt
    → IsChain l
    → total k (unary_opt_push (node op l r)) ≡ 1 + tree_weight k l
unfolding unary_opt_push
unary-weight k op l r e c = rw e (omega (arith, chain-weight k l c))

-- The last element of a binary operator.
push-weight : (k : ℕ) (op : ExpOp) → op.flag ≡ binary_opt → total k (stack_push op ∷ []) ≡ 1
push-weight k op e = rw e refl

logic-jumps : (a b c : Bool) → (b || c) ≡ true → ((a || b) || c) ≡ true
logic-jumps true b c e = refl
logic-jumps false b c e = e

plain-jumps : (a b c : Bool) → a ≡ false → (b || c) ≡ false → ((a || b) || c) ≡ false
plain-jumps true b c e f = absurd cc
plain-jumps false b c e f = f

-- Every node of a finished expression becomes the elements that it counts.
stack-weight :
    (k : ℕ) (t : ExpNode) → Complete t → total k (tree_to_stack false t) ≡ tree_weight k t
stack-weight k t (complete_operand {op} e) = ap (total k) (stack-operand op e) ∙ rw e (omega arith)
stack-weight k t (complete_unary {op} {l} {r} e c d) =
    let w : node_weight k op ≡ 1 = rw e refl in
    ap (total k) (stack-unary op l r e c d)
    ∙ total-append k (tree_to_stack false r) (unary_opt_push (node op l r))
    ∙ omega (arith, unary-weight k op l r e c, stack-weight k r d, w)
stack-weight k t (complete_logic {op} {l} {r} e j c d) =
    let jump = logic-jumps (op.type == col) (op.type == and_and) (op.type == or_or) j in
    let w : node_weight k op ≡ 2 = rw (e, jump) refl in
    let right = total-append k (tree_to_stack false r) (stack_push op ∷ []) in
    ap (total k) (stack-logic op l r e j d)
    ∙ total-append k (tree_to_stack false l)
        (condition_ele op l r ∷ (tree_to_stack false r ++ (stack_push op ∷ [])))
    ∙ omega (arith, right, push-weight k op e, stack-weight k l c, stack-weight k r d, w)
stack-weight k t (complete_binary {op} {l} {r} e j q o c d) =
    let plain = plain-jumps (op.type == col) (op.type == and_and) (op.type == or_or) o j in
    let w : node_weight k op ≡ 1 = rw (e, plain) refl in
    let right = total-append k (tree_to_stack false r) (stack_push op ∷ []) in
    ap (total k) (stack-binary op l r e j q d)
    ∙ total-append k (tree_to_stack false l) (tree_to_stack false r ++ (stack_push op ∷ []))
    ∙ omega (arith, right, push-weight k op e, stack-weight k l c, stack-weight k r d, w)
stack-weight k t (complete_three {op} {co} {l} {m} {r} e q f o c d g) =
    let w : node_weight k op ≡ 1 = rw (e, q) refl in
    let v : node_weight k co ≡ 2 = rw (f, o) refl in
    let last = total-append k (tree_to_stack false r) (end_ele r ∷ []) in
    let middle =
      total-append k (tree_to_stack false m)
        (end_ele m ∷ (tree_to_stack false r ++ (end_ele r ∷ []))) in
    ap (total k) (stack-three op co l m r e q f)
    ∙ total-append k (tree_to_stack false l) (
        three_ele op l m r
        ∷ (tree_to_stack false m ++ (end_ele m ∷ (tree_to_stack false r ++ (end_ele r ∷ [])))))
    ∙ omega (arith, middle, last, stack-weight k l c, stack-weight k m d, stack-weight k r g, w, v)

total-length : (xs : List ExpEle) → total 1 xs ≡ length xs
total-length [] = refl
total-length (x ∷ xs) = one x.flag (total-length xs)
  where
    one : (f : EleFlag) → total 1 xs ≡ length xs → flag_weight 1 f + total 1 xs ≡ suc (length xs)
    one operand_ele e = omega (arith, e)
    one unary_ele e = omega (arith, e)
    one binary_ele e = omega (arith, e)
    one condition e = omega (arith, e)
    one three_opt e = omega (arith, e)
    one three_end e = omega (arith, e)

-- The number that czl_get_exp_tree_node_num counts is that of the elements that czl_tree_to_stack
-- writes for a finished expression, modulo the range of an unsigned short.
pub tree_to_stack-length :
    (t : ExpNode) → Complete t → get_exp_tree_node_num t 0 ≡ length (tree_to_stack false t) % short
tree_to_stack-length t c =
    num-weight get_exp_tree_node_num count_node 1 get_exp_tree_node_num_end
      get_exp_tree_node_num_step count_node_lem t 0
    ∙ ap (λ n. n % short) (omega (arith, stack-weight 1 t c, total-length (tree_to_stack false t)))

-- The number of orders that czl_get_order_num counts.
pub get_order_num-total :
    (t : ExpNode) → Complete t → get_order_num t 0 ≡ total 0 (tree_to_stack false t) % short
get_order_num-total t c =
    num-weight get_order_num count_order 0 get_order_num_end get_order_num_step count_order_lem t 0
    ∙ ap (λ n. n % short) (omega (arith, stack-weight 0 t c))
