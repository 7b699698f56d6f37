-- ===== src/Exp/Emits.antt =====
-- The orders of a finished expression: czl_create_order of code/czl_vm.c on the stack that
-- czl_tree_to_stack makes.
use czl.Prelude.{
  ℕ, zero, suc, ◌+◌, ◌≤◌, ◌%◌, ◌≡◌, refl, sym, subst, ap, ap₂, ◌∙◌, inl, inr, ◌⊎◌, false, List, [],
  ◌∷◌, ◌++◌, arith, length, append_assoc, append-nil, length-append,
}
use czl.Exp.{unary_opt, binary_opt, ExpOp, ExpNode, null, node}
use czl.Exp.Stack.{
  tree_to_stack, unary_opt_push, stack_push, ExpEle, EleFlag, operand_ele, unary_ele, binary_ele,
  condition, three_opt, three_end, condition_ele, three_ele, end_ele, get_order_num, short,
}
use czl.Exp.Complete.{
  Complete, IsChain, chain_on, complete_operand, complete_unary, complete_logic, complete_binary,
  complete_three, stack-operand, stack-unary, stack-logic, stack-binary, stack-three,
}
use czl.Exp.Counts.{total, flag_weight, get_order_num-total}
use czl.Exp.Orders.{
  Made, order_step, create_order, keep, orders, Makes, create_order_step, Makes-nil, Makes-end,
  Makes-skip, Makes-plain,
}

orders-append : (xs ys : List ExpEle) → orders (xs ++ ys) ≡ orders xs ++ orders ys
orders-append [] ys = refl
orders-append (x ∷ xs) ys = ap (keep x.flag x) (orders-append xs ys) ∙ kept x.flag
  where
    kept : (f : EleFlag) → keep f x (orders xs ++ orders ys) ≡ keep f x (orders xs) ++ orders ys
    kept operand_ele = refl
    kept unary_ele = refl
    kept binary_ele = refl
    kept condition = refl
    kept three_opt = refl
    kept three_end = refl

orders-end : (e : ExpEle) (xs : List ExpEle) → e.flag ≡ three_end → orders (e ∷ xs) ≡ e ∷ orders xs
orders-end e xs f = ap (λ g. keep g e (orders xs)) f

-- A part of a stack becomes its orders, whatever follows.
abbrev Emits : List ExpEle → Type 0
Emits s =
    (n : ℕ) (xs os rest : List ExpEle)
    → Makes n xs (os, rest)
    → Makes (length s + n) (s ++ xs) (orders s ++ os, rest)

Emits-append : (s u : List ExpEle) → Emits s → Emits u → Emits (s ++ u)
Emits-append s u es eu n xs os rest k m h =
    ap (create_order m) (append_assoc s u xs)
    ∙ es (length u + n) (u ++ xs) (orders u ++ os) rest (eu n xs os rest k) m
        (omega (arith, h, length-append s u))
    ∙ ap (λ o. (o, rest))
        (sym (append_assoc (orders s) (orders u) os) ∙ ap (λ o. o ++ os) (sym (orders-append s u)))

Emits-operand : (x : ExpEle) → x.flag ≡ operand_ele → Emits (x ∷ [])
Emits-operand x e n xs os rest k m h =
    Makes-skip n x xs (os, rest) e k m (omega (arith, h)) ∙ rw e refl

Emits-plain :
    (x : ExpEle) (s : List ExpEle)
    → (x.flag ≡ unary_ele) ⊎ ((x.flag ≡ binary_ele) ⊎ (x.flag ≡ condition))
    → Emits s
    → Emits (x ∷ s)
Emits-plain x s e es n xs os rest k m h =
    Makes-plain (length s + n) x (s ++ xs) (orders s ++ os) rest e (es n xs os rest k) m
      (omega (arith, h))
    ∙ ap (λ o. (o, rest)) (by_flag e)
  where
    by_flag :
        (x.flag ≡ unary_ele) ⊎ ((x.flag ≡ binary_ele) ⊎ (x.flag ≡ condition))
        → x ∷ (orders s ++ os) ≡ keep x.flag x (orders s) ++ os
    by_flag (inl f) = rw f refl
    by_flag (inr (inl f)) = rw f refl
    by_flag (inr (inr f)) = rw f refl

Emits-nil : Emits []
Emits-nil n xs os rest k m h = k m (omega (arith, h))

three_made :
    (x : ExpEle) (next : List ExpEle → Made) {l r1 r2 r3 o1 o2 o3 : List ExpEle}
    → next l ≡ (o1, r1)
    → next r1 ≡ (o2, r2)
    → next r2 ≡ (o3, r3)
    → order_step three_opt x l next ≡ (x ∷ (o1 ++ (o2 ++ o3)), r3)
three_made x next a b c = rw (a, b, c) refl

-- A `?:`, each of its values up to its CZL_THREE_END.
Emits-three :
    (x e1 e2 : ExpEle) (s u : List ExpEle)
    → x.flag ≡ three_opt
    → e1.flag ≡ three_end
    → e2.flag ≡ three_end
    → Emits s
    → Emits u
    → Emits (x ∷ (s ++ (e1 ∷ (u ++ (e2 ∷ [])))))
Emits-three x e1 e2 s u f g1 g2 es eu n xs os rest k zero h = absurd (omega arith)
Emits-three x e1 e2 s u f g1 g2 es eu n xs os rest k (suc m) h =
    let len_u = length-append u (e2 ∷ []) in
    let len_s = length-append s (e1 ∷ (u ++ (e2 ∷ []))) in
    let first : create_order m (s ++ (e1 ∷ (u ++ (e2 ∷ xs))))
        ≡ (orders s ++ (e1 ∷ []), u ++ (e2 ∷ xs)) =
      es 1 (e1 ∷ (u ++ (e2 ∷ xs))) (e1 ∷ []) (u ++ (e2 ∷ xs)) (Makes-end e1 (u ++ (e2 ∷ xs)) g1) m
        (omega (arith, h, len_u, len_s)) in
    let second : create_order m (u ++ (e2 ∷ xs)) ≡ (orders u ++ (e2 ∷ []), xs) =
      eu 1 (e2 ∷ xs) (e2 ∷ []) xs (Makes-end e2 xs g2) m (omega (arith, h, len_u, len_s)) in
    let third : create_order m xs ≡ (os, rest) = k m (omega (arith, h, len_u, len_s)) in
    ap (λ l. create_order (suc m) (x ∷ l)) regroup
    ∙ create_order_step m x (s ++ (e1 ∷ (u ++ (e2 ∷ xs))))
    ∙ ap (λ g. order_step g x (s ++ (e1 ∷ (u ++ (e2 ∷ xs)))) (create_order m)) f
    ∙ three_made x (create_order m) first second third
    ∙ ap₂ (λ g o. (g, o)) (ap (λ o. x ∷ o) reorder ∙ sym (kept f)) refl
  where
    regroup : (s ++ (e1 ∷ (u ++ (e2 ∷ [])))) ++ xs ≡ s ++ (e1 ∷ (u ++ (e2 ∷ xs)))
    regroup = simp append_assoc

    both :
        (a b : List ExpEle)
        → (a ++ (e1 ∷ [])) ++ ((b ++ (e2 ∷ [])) ++ os) ≡ (a ++ (e1 ∷ (b ++ (e2 ∷ [])))) ++ os
    both a b = simp append_assoc

    split : orders (s ++ (e1 ∷ (u ++ (e2 ∷ [])))) ≡ orders s ++ (e1 ∷ (orders u ++ (e2 ∷ [])))
    split =
        orders-append s (e1 ∷ (u ++ (e2 ∷ [])))
        ∙ ap (λ o. orders s ++ o)
            (orders-end e1 (u ++ (e2 ∷ [])) g1
              ∙ ap (λ o. e1 ∷ o)
                  (orders-append u (e2 ∷ []) ∙ ap (λ o. orders u ++ o) (orders-end e2 [] g2)))

    reorder :
        (orders s ++ (e1 ∷ [])) ++ ((orders u ++ (e2 ∷ [])) ++ os)
        ≡ orders (s ++ (e1 ∷ (u ++ (e2 ∷ [])))) ++ os
    reorder = both (orders s) (orders u) ∙ ap (λ o. o ++ os) (sym split)

    kept :
        x.flag ≡ three_opt
        → keep x.flag x (orders (s ++ (e1 ∷ (u ++ (e2 ∷ []))))) ++ os
          ≡ x ∷ (orders (s ++ (e1 ∷ (u ++ (e2 ∷ [])))) ++ os)
    kept e = rw e refl

flag_plain : (op : ExpOp) → op.flag ≡ binary_opt → (stack_push op).flag ≡ binary_ele
flag_plain op e = rw e refl

chain-Emits : (l : ExpNode) → IsChain l → Emits (unary_opt_push l)
unfolding unary_opt_push
chain-Emits null c = Emits-nil
chain-Emits (node op l null) (chain_on e c) =
    Emits-plain (stack_push op) (unary_opt_push l) (inl (rw e refl)) (chain-Emits l c)
chain-Emits (node op l (node ro rl rr)) c = elim c [ ]

unary-Emits :
    (op : ExpOp) (l r : ExpNode)
    → op.flag ≡ unary_opt
    → IsChain l
    → Emits (unary_opt_push (node op l r))
unfolding unary_opt_push
unary-Emits op l r e c =
    Emits-plain (stack_push op) (unary_opt_push l) (inl (rw e refl)) (chain-Emits l c)

push-Emits : (op : ExpOp) → op.flag ≡ binary_opt → Emits (stack_push op ∷ [])
push-Emits op e = Emits-plain (stack_push op) [] (inr (inl (flag_plain op e))) Emits-nil

stack-Emits : (t : ExpNode) → Complete t → Emits (tree_to_stack false t)
stack-Emits t (complete_operand {op} e) =
    subst Emits (sym (stack-operand op e)) (Emits-operand (stack_push op) (rw e refl))
stack-Emits t (complete_unary {op} {l} {r} e c d) = subst Emits (sym (stack-unary op l r e c d)) (
    Emits-append (tree_to_stack false r) (unary_opt_push (node op l r)) (stack-Emits r d)
      (unary-Emits op l r e c))
stack-Emits t (complete_logic {op} {l} {r} e j c d) = subst Emits (sym (stack-logic op l r e j d)) (
    Emits-append (tree_to_stack false l)
      (condition_ele op l r ∷ (tree_to_stack false r ++ (stack_push op ∷ []))) (stack-Emits l c)
      (Emits-plain (condition_ele op l r) (tree_to_stack false r ++ (stack_push op ∷ []))
        (inr (inr refl))
        (Emits-append (tree_to_stack false r) (stack_push op ∷ []) (stack-Emits r d)
          (push-Emits op e))))
stack-Emits t (complete_binary {op} {l} {r} e j q o c d) =
    subst Emits (sym (stack-binary op l r e j q d)) (
      Emits-append (tree_to_stack false l) (tree_to_stack false r ++ (stack_push op ∷ []))
        (stack-Emits l c)
        (Emits-append (tree_to_stack false r) (stack_push op ∷ []) (stack-Emits r d)
          (push-Emits op e)))
stack-Emits t (complete_three {op} {co} {l} {m} {r} e q f o c d g) =
    subst Emits (sym (stack-three op co l m r e q f)) (
      Emits-append (tree_to_stack false l)
        (three_ele op l m r
          ∷ (tree_to_stack false m ++ (end_ele m ∷ (tree_to_stack false r ++ (end_ele r ∷ [])))))
        (stack-Emits l c)
        (Emits-three (three_ele op l m r) (end_ele m) (end_ele r) (tree_to_stack false m)
          (tree_to_stack false r) refl refl refl (stack-Emits m d) (stack-Emits r g)))

total-orders : (xs : List ExpEle) → total 0 xs ≡ length (orders xs)
total-orders [] = refl
total-orders (x ∷ xs) = one x.flag (total-orders xs)
  where
    one :
        (f : EleFlag)
        → total 0 xs ≡ length (orders xs)
        → flag_weight 0 f + total 0 xs ≡ length (keep f x (orders xs))
    one operand_ele e = omega (arith, e)
    one unary_ele e = omega (arith, e)
    one binary_ele e = omega (arith, e)
    one condition e = omega (arith, e)
    one three_opt e = omega (arith, e)
    one three_end e = omega (arith, e)

-- From the stack of a finished expression czl_create_order makes the elements that are no operands,
-- in their order, and reaches the end mark, with the number of the elements as fuel or more; their
-- number, modulo the range of an unsigned short, is what czl_get_order_num counts, for which
-- czl_exp_tree_to_stack allocates the orders.
pub create_order-tree_to_stack :
    (t : ExpNode) (n : ℕ)
    → Complete t
    → length (tree_to_stack false t) ≤ n
    → (create_order n (tree_to_stack false t) ≡ (orders (tree_to_stack false t), []))
      × (get_order_num t 0 ≡ length (orders (tree_to_stack false t)) % short)
create_order-tree_to_stack t n c h = (
  ap (create_order n) (sym (append-nil (tree_to_stack false t)))
      ∙ stack-Emits t c 0 [] [] [] Makes-nil n (omega (arith, h))
      ∙ ap (λ o. (o, [])) (append-nil (orders (tree_to_stack false t))),
  get_order_num-total t c ∙ ap (λ k. k % short) (total-orders (tree_to_stack false t)),
)
