-- ===== src/Exp/Complete.antt =====
-- The trees of finished expressions, and the stacks that czl_tree_to_stack of code/czl_vm.c makes
-- of them.
use czl.Prelude.{◌≡◌, refl, ◌∙◌, Bool, true, false, ◌||◌, ◌&&◌, [], ◌∷◌, ◌++◌, ◌==◌, if◌then◌else◌}
use czl.Exp.{
  operand, unary_opt, binary_opt, ExpOp, ExpNode, null, node, is_unary, que, col, and_and, or_or,
}
use czl.Exp.Stack.{
  node_stack, tree_to_stack, unary_opt_push, stack_push, condition_ele, three_ele, end_ele,
}

-- The unary operators behind the first one of a chain.
pub data IsChain : ExpNode → Type 0 where
  chain_end : IsChain null
  chain_on :
      {op : ExpOp} → {l : ExpNode} → op.flag ≡ unary_opt → IsChain l → IsChain (node op l null)

-- Every operator has its operands, and every `?` its `:`.
pub data Complete : ExpNode → Type 0 where
  complete_operand : {op : ExpOp} → op.flag ≡ operand → Complete (node op null null)
  complete_unary :
      {op : ExpOp}
      → {l r : ExpNode} → op.flag ≡ unary_opt
      → IsChain l
      → Complete r
      → Complete (node op l r)
  complete_logic :
      {op : ExpOp}
      → {l r : ExpNode} → op.flag ≡ binary_opt
      → (op.type == and_and || op.type == or_or) ≡ true
      → Complete l
      → Complete r
      → Complete (node op l r)
  complete_binary :
      {op : ExpOp}
      → {l r : ExpNode} → op.flag ≡ binary_opt
      → (op.type == and_and || op.type == or_or) ≡ false
      → (op.type == que) ≡ false
      → (op.type == col) ≡ false
      → Complete l
      → Complete r
      → Complete (node op l r)
  complete_three :
      {op co : ExpOp}
      → {l m r : ExpNode} → op.flag ≡ binary_opt
      → op.type ≡ que
      → co.flag ≡ binary_opt
      → co.type ≡ col
      → Complete l
      → Complete m
      → Complete r
      → Complete (node op l (node co m r))

pub stack-operand :
    (op : ExpOp) → op.flag ≡ operand → tree_to_stack false (node op null null) ≡ stack_push op ∷ []
unfolding tree_to_stack
stack-operand op e = rw e refl

stack-chain : (l : ExpNode) → IsChain l → tree_to_stack true l ≡ []
unfolding tree_to_stack
stack-chain null chain_end = refl
stack-chain (node op l null) (chain_on e c) = rw e refl
stack-chain (node op l (node ro rl rr)) c = elim c [ ]

-- A node with a right subtree.
tree_to_stack_step :
    (chained : Bool) (op : ExpOp) (l : ExpNode) (ro : ExpOp) (rl rr : ExpNode)
    → tree_to_stack chained (node op l (node ro rl rr)) ≡ (
        if chained && is_unary op.flag
        then []
        else tree_to_stack (is_unary op.flag) l
          ++ node_stack op.flag op l
              (node ro rl rr)
              (tree_to_stack false (node ro rl rr))
              (tree_to_stack (is_unary ro.flag) rl)
              (tree_to_stack false rr))
unfolding tree_to_stack
tree_to_stack_step chained op l ro rl rr = refl

pub stack-unary :
    (op : ExpOp) (l r : ExpNode)
    → op.flag ≡ unary_opt
    → IsChain l
    → Complete r
    → tree_to_stack false (node op l r) ≡ tree_to_stack false r ++ unary_opt_push (node op l r)
stack-unary op l null e c d = elim d [ ]
stack-unary op l (node ro rl rr) e c d =
    tree_to_stack_step false op l ro rl rr ∙ rw (e, stack-chain l c) refl

pub stack-logic :
    (op : ExpOp) (l r : ExpNode)
    → op.flag ≡ binary_opt
    → (op.type == and_and || op.type == or_or) ≡ true
    → Complete r
    → tree_to_stack false (node op l r)
      ≡ tree_to_stack false l
        ++ (condition_ele op l r ∷ (tree_to_stack false r ++ (stack_push op ∷ [])))
stack-logic op l null e j d = elim d [ ]
stack-logic op l (node ro rl rr) e j d = tree_to_stack_step false op l ro rl rr ∙ rw (e, j) refl

pub stack-binary :
    (op : ExpOp) (l r : ExpNode)
    → op.flag ≡ binary_opt
    → (op.type == and_and || op.type == or_or) ≡ false
    → (op.type == que) ≡ false
    → Complete r
    → tree_to_stack false (node op l r)
      ≡ tree_to_stack false l ++ (tree_to_stack false r ++ stack_push op ∷ [])
stack-binary op l null e j q d = elim d [ ]
stack-binary op l (node ro rl rr) e j q d =
    tree_to_stack_step false op l ro rl rr ∙ rw (e, j, q) refl

pub stack-three :
    (op co : ExpOp) (l m r : ExpNode)
    → op.flag ≡ binary_opt
    → op.type ≡ que
    → co.flag ≡ binary_opt
    → tree_to_stack false (node op l (node co m r))
      ≡ tree_to_stack false l
        ++ (three_ele op l m r
            ∷ (tree_to_stack false m ++ (end_ele m ∷ (tree_to_stack false r ++ (end_ele r ∷ [])))))
stack-three op co l m r e q f = tree_to_stack_step false op l co m r ∙ rw (e, f, q) refl
