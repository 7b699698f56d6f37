-- ===== src/Exp/Binding.antt =====
-- A tree whose operators bind as their priorities say stays one: czl_exp_node_insert of
-- code/czl_vm.c.
use czl.Prelude.{
  ℕ, ◌≡◌, refl, sym, subst, Bool, true, false, not, ◌&&◌, ◌||◌, inl, inr, Option, none, some, List,
  [], ◌==◌, if◌then◌else◌, ◌+◌,
}
use czl.Exp.{
  ExpOp, ExpNode, null, node, leaf, is_null, role, Role, value, unary, is_operand, is_binary, que,
  col, pos_right,
}
use czl.Exp.Place.{Frame, ExpHandle, root, plug, has_operand, collide}
use czl.Exp.Insert.{
  insert_at, insert_node, first_node, exp_node_insert, keep_result, keep_regs, left_now,
  is_obj_binary_opt, is_member,
}
use czl.Exp.Tokens.{Above}
use czl.Exp.Shape.{
  IsCur, at_value, at_unary, at_binary, Fits, IsToken, token_value, token_unary, token_binary,
  role-value, role-unary, role-binary,
}
use czl.Exp.Collide.{collide-Fits}
use czl.Exp.Accept.{IsHandle}
use czl.Exp.Behind.{at}
use czl.Exp.Order.{Ordered}
use czl.Exp.Slots.{
  OrderedResult, value-Ordered, unary-Ordered, no_more, bare-Ordered, value_right-Ordered,
  chain-Ordered,
}

-- The branches by the role of the node at `cur`.
abbrev Binds :
    ExpHandle
    → List Frame
    → (co : ExpOp) → (cl cr : ExpNode) → (op : ExpOp) → (l r : ExpNode) → Role
    → Bool
    → Type 0
Binds h fs co cl cr op l r o c =
    Fits c op l r
    → Ordered (plug fs (node co cl cr))
    → OrderedResult (insert_at o op l r (at fs (node co cl cr) h))

insert_at-Binds :
    (h : ExpHandle) (fs : List Frame) (co : ExpOp) (cl cr : ExpNode) (op : ExpOp) (l r : ExpNode)
    → Above fs
    → IsCur fs (node co cl cr)
    → Binds h fs co cl cr op l r (role co) (has_operand (node co cl cr))
insert_at-Binds h fs co cl cr op l r a (at_value e f) =
    let full : has_operand (node co cl cr) ≡ true = rw (role-value co.flag co.bracket f.0) refl in
    subst (λ c. Binds h fs co cl cr op l r (role co) c) (sym full)
      (subst (λ o. Binds h fs co cl cr op l r o true) (sym f.0)
        (subst (λ gs. Binds h gs co cl cr op l r value true) (sym e)
          (value-Ordered h co cl cr op l r f)))
insert_at-Binds h fs co cl cr op l r a (at_unary e f) =
    let g = role-unary co.flag co.bracket f.0 in
    let has : has_operand (node co cl cr) ≡ not (is_null cr) =
      rw (g.0, g.1) (no_more (not (is_null cr))) in
    subst (λ c. Binds h fs co cl cr op l r (role co) c) (sym has)
      (subst (λ o. Binds h fs co cl cr op l r o (not (is_null cr))) (sym f.0)
        (subst (λ gs. Binds h gs co cl cr op l r unary (not (is_null cr))) (sym e)
          (unary-Ordered h co cl cr op l r f)))
insert_at-Binds h fs co cl null op l r a (at_binary b nl f) =
    let g = role-binary co.flag co.bracket b in
    let bare : has_operand (node co cl null) ≡ false = rw (g.0, g.1) refl in
    subst (λ c. Binds h fs co cl null op l r (role co) c) (sym bare)
      (subst (λ o. Binds h fs co cl null op l r o false) (sym b)
        (bare-Ordered h fs co cl b nl a op l r))
insert_at-Binds h fs co cl (node ro rl rr) op l r a (at_binary b nl (inl f)) =
    let g = role-binary co.flag co.bracket b in
    let full : has_operand (node co cl (node ro rl rr)) ≡ true = rw (g.0, g.1, f.1) refl in
    subst (λ c. Binds h fs co cl (node ro rl rr) op l r (role co) c) (sym full)
      (subst (λ o. Binds h fs co cl (node ro rl rr) op l r o true) (sym b)
        (value_right-Ordered h fs co cl b nl a ro rl rr op l r f))
insert_at-Binds h fs co cl (node ro rl rr) op l r a (at_binary b nl (inr f)) =
    let g = role-binary co.flag co.bracket b in
    let k = role-unary ro.flag ro.bracket f.0 in
    let has : has_operand (node co cl (node ro rl rr)) ≡ not (is_null rr) =
      rw (g.0, g.1, k.0) refl in
    subst (λ c. Binds h fs co cl (node ro rl rr) op l r (role co) c) (sym has)
      (subst (λ o. Binds h fs co cl (node ro rl rr) op l r o (not (is_null rr))) (sym b)
        (chain-Ordered h fs co cl b nl a ro rl rr op l r f))

keep_regs-Ordered :
    (member : ℕ) (op : ExpOp) (left : ExpNode) (h : ExpHandle)
    → Ordered (root h)
    → Ordered (root (keep_regs member op left h))
keep_regs-Ordered member op left h o =
    same_root (h.reg_flag == 0 && is_binary op.flag) (is_obj_binary_opt op.type)
      (is_member member left) (not (op.type == que) && not (op.type == col))
  where
    same_root :
        (a b d e : Bool)
        → Ordered (
            root (
              if a
              then if b
                then if d then record h { reg_sign = 1 } else h
                else if e
                then record h { reg_flag = 1; reg_cnt = h.reg_cnt + 2 }
                else h
              else h))
    same_root false b d e = o
    same_root true true true e = o
    same_root true true false e = o
    same_root true false d true = o
    same_root true false d false = o

keep_result-Ordered :
    (member : ℕ) (op : ExpOp) (l : ExpNode) (o : Option ExpHandle)
    → OrderedResult o
    → OrderedResult (keep_result member op l o)
keep_result-Ordered member op l none o = tt
keep_result-Ordered member op l (some g) o = keep_regs-Ordered member op (left_now op l g) g o

first-Ordered :
    (h : ExpHandle) (op : ExpOp) (l r : ExpNode)
    → IsToken op l r
    → OrderedResult (first_node op (node op l r) h)
first-Ordered h op l r (token_value f) =
    started (not (is_operand op.flag) && (is_binary op.flag || op.position == pos_right))
  where
    started :
        (t : Bool)
        → OrderedResult (if t then none else some (record h { above = []; cur = node op l r }))
    started true = tt
    started false = λ b. let v = f.0 in absurd cc
first-Ordered h op l r (token_unary u row) =
    started (not (is_operand op.flag) && (is_binary op.flag || op.position == pos_right))
  where
    started :
        (t : Bool)
        → OrderedResult (if t then none else some (record h { above = []; cur = leaf op }))
    started true = tt
    started false = λ b. absurd cc
first-Ordered h op l r (token_binary b row) = let g = role-binary op.flag op.bracket b in rw g.0 tt

insert_node-Ordered :
    (member : ℕ) (h : ExpHandle) (fs : List Frame) (c : ExpNode) (op : ExpOp) (l r : ExpNode)
    → Above fs
    → IsCur fs c
    → IsToken op l r
    → Ordered (plug fs c)
    → OrderedResult (insert_node member op l r c (at fs c h))
insert_node-Ordered member h fs null op l r a is t o = first-Ordered (at fs null h) op l r t
insert_node-Ordered member h fs (node co cl cr) op l r a is t o =
    let c : Bool = has_operand (node co cl cr) in
    keep_result-Ordered member (collide c op) l
      (insert_at (role co) (collide c op) l r (at fs (node co cl cr) h))
      (insert_at-Binds h fs co cl cr (collide c op) l r a is (collide-Fits c op l r t) o)

-- A tree whose operators bind as their priorities say, those of priority 4 and 5 read from the
-- right and the others from the left, where the left operand of `:` may be of the same priority
-- too, is such a tree after any node that joins. The node is one that the parser makes, and the
-- handle one that the insertions make.
pub exp_node_insert-Ordered :
    (member : ℕ) (h h' : ExpHandle) (op : ExpOp) (l r : ExpNode)
    → IsHandle h
    → IsToken op l r
    → Ordered (root h)
    → exp_node_insert member (node op l r) h ≡ some h'
    → Ordered (root h')
unfolding exp_node_insert
exp_node_insert-Ordered member h h' op l r is t o e =
    subst OrderedResult e (insert_node-Ordered member h h.above h.cur op l r is.above is.cur t o)
