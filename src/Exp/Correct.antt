-- ===== src/Exp/Correct.antt =====
-- The orders of an expression compute the value of its tree: czl_set_opt_opr of code/czl_vm.c
-- where two registers are enough.
use czl.Prelude.{
  ℕ, ◌+◌, ◌≤◌, ◌≡◌, refl, sym, ap, subst, ◌∙◌, Bool, true, false, not, inl, inr, ◌⊎◌, ◌||◌, Option,
  none, some, List, [], ◌∷◌, ◌++◌, append_assoc, append-nil, leb, leb→le, if◌then◌else◌, arith,
  length, All, and_split,
}
use czl.Exp.{
  ExpOp, ExpNode, null, node, operand, unary_opt, binary_opt, holds_operand, Flag, is_operand,
}
use czl.Exp.Stack.{ExpEle, stack_push, unary_opt_push, tree_to_stack, operand_ele}
use czl.Exp.Complete.{stack-operand, stack-unary, stack-binary}
use czl.Exp.Registers.{Opr, reg, obj, Order, RegState, and_then, more, set_step, set_opt_opr}
use czl.Exp.Allocate.{is_reg, live, IsRegs}
use czl.Exp.Compile.{Done, get, run, unary-Done, binary-Done, set_opt_opr_step}
use czl.Exp.Value.{
  PureChain, pure_on, Simple, simple_operand, simple_unary, simple_binary, PureChain-IsChain,
  Simple-Complete, pure-is_tmp_unary_opt, temps, flag_fits, before_right, fits, chain_value,
  node_value, tree_value,
}

fits_step :
    (k : ℕ) (op : ExpOp) (l r : ExpNode)
    → fits k (node op l r) ≡ flag_fits op.flag k l r (fits k l) (fits (before_right op.flag k l) r)
unfolding fits
fits_step k op l r = refl

fits-leaf : (k : ℕ) (t : ExpNode) → holds_operand t ≡ true → fits k t ≡ true
fits-leaf k null h = absurd cc
fits-leaf k (node op l r) h = fits_step k op l r ∙ by_flag op.flag h
  where
    by_flag :
        (f : Flag)
        → is_operand f ≡ true
        → flag_fits f k l r (fits k l) (fits (before_right f k l) r) ≡ true
    by_flag operand e = refl
    by_flag unary_opt e = absurd cc
    by_flag binary_opt e = absurd cc

-- A register is free for a unary operator, or its operand is in one.
fits-unary :
    (k : ℕ) (op : ExpOp) (l r : ExpNode)
    → op.flag ≡ unary_opt
    → fits k (node op l r) ≡ true
    → (fits k r ≡ true) × ((not (holds_operand r) ≡ true) ⊎ (k ≤ 1))
fits-unary k op l r e f = split (holds_operand r) refl (
    sym (ap (λ g. flag_fits g k l r (fits k l) (fits (before_right g k l) r)) e)
    ∙ sym (fits_step k op l r)
    ∙ f)
  where
    split :
        (b : Bool)
        → holds_operand r ≡ b
        → (if holds_operand r then leb k 1 else fits k r) ≡ true
        → (fits k r ≡ true) × ((not (holds_operand r) ≡ true) ⊎ (k ≤ 1))
    split true h g = let x : leb k 1 ≡ true = rw h at g in (fits-leaf k r h, inr (leb→le k 1 x))
    split false h g = let x : fits k r ≡ true = rw h at g in (x, inl (rw h refl))

fits-binary :
    (k : ℕ) (op : ExpOp) (l r : ExpNode)
    → op.flag ≡ binary_opt
    → fits k (node op l r) ≡ true
    → (fits k l ≡ true)
      × ((fits (temps l + k) r ≡ true) × ((not (holds_operand l) ≡ true) ⊎ (temps r + k ≤ 1)))
fits-binary k op l r e f =
    let g =
      sym (ap (λ g. flag_fits g k l r (fits k l) (fits (before_right g k l) r)) e)
      ∙ sym (fits_step k op l r)
      ∙ f in
    let a = and_split (fits k l) _ g in
    let b = and_split (fits (temps l + k) r) _ a.1 in
    (a.0, (b.0, split (not (holds_operand l)) b.1))
  where
    split : (b : Bool) → (b || leb (temps r + k) 1) ≡ true → (b ≡ true) ⊎ (temps r + k ≤ 1)
    split true g = inl refl
    split false g = inr (leb→le (temps r + k) 1 g)

length-live :
    (o : Opr) (xs : List Opr) (b : Bool)
    → is_reg o ≡ not b
    → length (live (o ∷ xs)) ≡ (if b then 0 else 1) + length (live xs)
length-live (reg r) xs true e = absurd cc
length-live (reg r) xs false e = omega arith
length-live (obj r) xs true e = omega arith
length-live (obj r) xs false e = absurd cc

-- Where czl_stack_to_reg starts.
abbrev pub no_regs : RegState
no_regs = record { res = []; reg_cnt = 0; last = 0 }

no_regs-IsRegs : IsRegs no_regs
no_regs-IsRegs = record { two = omega arith; below = tt; distinct = tt; head = tt }

module _ {V : Type 0} (get_obj : ℕ → V) (unary_cac : ℕ → V → V) (binary_cac : ℕ → V → V → V) where
  abbrev Computes : List ExpEle → RegState → V → Bool → Type 0
  Computes s st v temp = Done get_obj unary_cac binary_cac s st v temp

  abbrev value_of : ExpNode → V
  value_of t = tree_value get_obj unary_cac binary_cac t

  tree_value_step :
      (op : ExpOp) (l r : ExpNode)
      → value_of (node op l r)
        ≡ node_value get_obj unary_cac binary_cac op.flag op l (value_of l) (value_of r)
  unfolding tree_value
  tree_value_step op l r = refl

  unchanged : (g : ℕ → V) (ys : List ℕ) → All (λ y. g y ≡ g y) ys
  unchanged g [] = tt
  unchanged g (y ∷ ys) = (refl, unchanged g ys)

  operand-Computes :
      (x : ExpEle) (st : RegState)
      → x.flag ≡ operand_ele
      → IsRegs st
      → Computes (x ∷ []) st (get_obj x.obj) false
  operand-Computes x st e is = record {
    made = [];
    after = record st { res = obj x.obj ∷ st.res };
    opr = obj x.obj;
    top = refl;
    set = λ xs.
        set_opt_opr_step x xs st
        ∙ ap (λ f. and_then (set_step 0 f x st) (λ st'. set_opt_opr 0 xs st')) e;
    value = λ g. refl;
    keeps = λ g. unchanged g (live st.res);
    regs = record { two = is.two; below = is.below; distinct = is.distinct; head = is.head };
    place = refl;
  }

  chain-Computes :
      (l : ExpNode) (s : List ExpEle) (st : RegState) (v : V)
      → PureChain l
      → Computes s st v true
      → Computes (s ++ unary_opt_push l) st (chain_value get_obj unary_cac binary_cac l v) true
  unfolding unary_opt_push
  chain-Computes null s st v c d = subst (λ l. Computes l st v true) (sym (append-nil s)) d
  chain-Computes (node op l null) s st v (pure_on e p c) d =
      subst
        (λ xs.
          Computes xs st (chain_value get_obj unary_cac binary_cac l (unary_cac op.type v)) true)
        (append_assoc s (stack_push op ∷ []) (unary_opt_push l))
        (chain-Computes l (s ++ (stack_push op ∷ [])) st (unary_cac op.type v) c (
          unary-Done get_obj unary_cac binary_cac s (stack_push op) st v true (rw e refl)
            (pure-is_tmp_unary_opt op.type p) (inl refl) d))
  chain-Computes (node op l (node ro rl rr)) s st v c d = elim c [ ]

  recast :
      (s s' : List ExpEle) (st : RegState) (v v' : V) (b b' : Bool)
      → s' ≡ s
      → v' ≡ v
      → b' ≡ b
      → Computes s st v b
      → Computes s' st v' b'
  recast s s' st v v' b b' es ev eb d =
      subst (λ xs. Computes xs st v' b') (sym es)
        (subst (λ u. Computes s st u b') (sym ev) (subst (λ c. Computes s st v c) (sym eb) d))

  unary_opt_push_step :
      (op : ExpOp) (l r : ExpNode) → unary_opt_push (node op l r) ≡ stack_push op ∷ unary_opt_push l
  unfolding unary_opt_push
  unary_opt_push_step op l r = refl

  -- The result of the right operand, where the left one is no register.
  spare :
      (b : Bool) (tr k n m : ℕ)
      → (not b ≡ true) ⊎ (tr + k ≤ 1)
      → n ≡ (if b then 0 else 1) + k
      → m ≡ tr + n
      → (not b ≡ true) ⊎ (m ≤ 1)
  spare false tr k n m h e f = inl refl
  spare true tr k n m (inl h) e f = absurd cc
  spare true tr k n m (inr h) e f = inr (omega (arith, h, e, f))

  -- The orders of a tree leave its value.
  tree-Computes :
      (t : ExpNode) (st : RegState)
      → Simple t
      → IsRegs st
      → fits (length (live st.res)) t ≡ true
      → Computes (tree_to_stack false t) st (value_of t) (not (holds_operand t))
  tree-Computes t st (simple_operand {op} e) is f =
      recast (stack_push op ∷ []) (tree_to_stack false (node op null null)) st
        (get_obj (stack_push op).obj) (value_of (node op null null)) false
        (not (holds_operand (node op null null))) (stack-operand op e)
        (tree_value_step op null null ∙ rw e refl) (rw e refl)
        (operand-Computes (stack_push op) st (rw e refl) is)
  tree-Computes t st (simple_unary {op} {l} {r} e p c s) is f =
      let w : V = unary_cac op.type (value_of r) in
      let fu = fits-unary (length (live st.res)) op l r e f in
      recast ((tree_to_stack false r ++ (stack_push op ∷ [])) ++ unary_opt_push l)
        (tree_to_stack false (node op l r)) st (chain_value get_obj unary_cac binary_cac l w)
        (value_of (node op l r)) true (not (holds_operand (node op l r)))
        (stack-unary op l r e (PureChain-IsChain l c) (Simple-Complete r s)
          ∙ ap (λ xs. tree_to_stack false r ++ xs) (unary_opt_push_step op l r)
          ∙ sym (append_assoc (tree_to_stack false r) (stack_push op ∷ []) (unary_opt_push l)))
        (tree_value_step op l r
          ∙ ap (λ g. node_value get_obj unary_cac binary_cac g op l (value_of l) (value_of r)) e)
        (rw e refl)
        (chain-Computes l (tree_to_stack false r ++ (stack_push op ∷ [])) st w c (
          unary-Done get_obj unary_cac binary_cac (tree_to_stack false r) (stack_push op) st
            (value_of r) (not (holds_operand r)) (rw e refl) (pure-is_tmp_unary_opt op.type p) fu.1
            (tree-Computes r st s is fu.0)))
  tree-Computes t st (simple_binary {op} {l} {r} e o j q k s u) is f =
      let fb = fits-binary (length (live st.res)) op l r e f in
      let d = tree-Computes l st s is fb.0 in
      let n =
        ap (λ xs. length (live xs)) d.top ∙ length-live d.opr st.res (holds_operand l) d.place in
      let c = tree-Computes r d.after u d.regs (subst (λ m. fits m r ≡ true) (sym n) fb.1.0) in
      let m =
        ap (λ xs. length (live xs)) c.top
        ∙ length-live c.opr d.after.res (holds_operand r) c.place in
      recast (tree_to_stack false l ++ (tree_to_stack false r ++ (stack_push op ∷ [])))
        (tree_to_stack false (node op l r)) st (binary_cac op.type (value_of l) (value_of r))
        (value_of (node op l r)) true (not (holds_operand (node op l r)))
        (stack-binary op l r e j q (Simple-Complete r u))
        (tree_value_step op l r
          ∙ ap (λ g. node_value get_obj unary_cac binary_cac g op l (value_of l) (value_of r)) e)
        (rw e refl)
        (binary-Done get_obj unary_cac binary_cac (tree_to_stack false l) (tree_to_stack false r)
          (stack_push op) st (value_of l) (value_of r) (not (holds_operand l))
          (not (holds_operand r)) (rw e refl) (rw (o, j) refl) d c
          (spare (holds_operand l) (temps r) (length (live st.res)) (length (live d.after.res))
            (length (live c.after.res)) fb.1.1 n m))

  -- The orders end with one operand left in `res`, which holds the value.
  abbrev LeavesOpr : List Opr → List Order → V → Type 0
  LeavesOpr [] os v = true ≡ false
  LeavesOpr (o ∷ []) os v =
      (g : ℕ → V) → get get_obj unary_cac binary_cac (run get_obj unary_cac binary_cac os g) o ≡ v
  LeavesOpr (o ∷ p ∷ xs) os v = true ≡ false

  -- There are orders, and they do.
  abbrev pub Leaves : Option (List Order × RegState) → V → Type 0
  Leaves none v = true ≡ false
  Leaves (some (os, st)) v = LeavesOpr st.res os v

  set_opt_opr-nil : (st : RegState) → set_opt_opr 0 [] st ≡ some ([], st)
  unfolding set_opt_opr
  set_opt_opr-nil st = refl

  -- For an expression of pure unary operators and binary operators with a temporary result, other
  -- than `&&`, `||` and `?:`, in which a register is free at each operator that takes one, the
  -- orders exist, end with one operand left, and run from any registers they leave the value of the
  -- tree there, whatever the operators and the objects' values are.
  pub set_opt_opr-tree_value :
      (t : ExpNode)
      → Simple t
      → fits 0 t ≡ true
      → Leaves
          (set_opt_opr 0 (tree_to_stack false t) no_regs)
          (tree_value get_obj unary_cac binary_cac t)
  set_opt_opr-tree_value t s f =
      let d = tree-Computes t no_regs s no_regs-IsRegs f in
      let v : V = value_of t in
      let made : set_opt_opr 0 (tree_to_stack false t) no_regs ≡ some (d.made, d.after) =
        ap (λ xs. set_opt_opr 0 xs no_regs) (sym (append-nil (tree_to_stack false t)))
        ∙ d.set []
        ∙ ap (more d.made) (set_opt_opr-nil d.after)
        ∙ ap (λ os. some (os, d.after)) (append-nil d.made) in
      subst (λ o. Leaves o v) (sym made) (subst (λ xs. LeavesOpr xs d.made v) (sym d.top) d.value)
