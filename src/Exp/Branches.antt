-- ===== src/Exp/Branches.antt =====
-- The branches of czl_exp_node_insert of code/czl_vm.c by the node at `cur`.
use czl.Prelude.{
  ℕ, ◌≡◌, refl, sym, subst, Bool, true, false, not, ◌&&◌, Option, none, some, List, if◌then◌else◌,
  inl, inr, ◌==◌, ◌+◌,
}
use czl.Exp.{
  ExpOp, ExpNode, null, node, is_null, role, Role, value, unary, que, col, is_unary, is_binary,
}
use czl.Exp.Place.{Frame, ExpHandle, plug, has_operand}
use czl.Exp.Insert.{insert_at, keep_regs, keep_result, left_now, is_obj_binary_opt, is_member}
use czl.Exp.Tokens.{Above}
use czl.Exp.Shape.{IsCur, at_value, at_unary, at_binary, role-binary, role-unary, role-value, Fits}
use czl.Exp.Join.{Joined, Outcome, accepts, completes}
use czl.Exp.Behind.{at, joinable, value-Outcome, waiting-Outcome, unary-Outcome}
use czl.Exp.After.{bare-Outcome, full-Outcome, chain_waits-Outcome, chain-Outcome}

-- Where a value may not join: brackets at the start of an expression are made its root by
-- czl_child_exp_analysis_start, and a value takes the place of the operand that a unary operator
-- at the right of `cur` has.
abbrev pub barred : ExpNode → ExpOp → Bool
barred null op = op.bracket
barred (node co cl null) op = false
barred (node co cl (node ro rl rr)) op = is_binary co.flag && (is_unary ro.flag && not (is_null rr))

-- The registers kept change nothing of the tree.
keep_regs-Joined :
    (member : ℕ) (op : ExpOp) (left t n : ExpNode) (c : Bool) (h : ExpHandle)
    → Joined t n c h
    → Joined t n c (keep_regs member op left h)
keep_regs-Joined member op left t n c h j =
    kept (h.reg_flag == 0 && is_binary op.flag) (is_obj_binary_opt op.type) (is_member member left)
      (not (op.type == que) && not (op.type == col))
  where
    kept :
        (a b d e : Bool)
        → Joined t n c (
            if a
            then if b
              then if d then record h { reg_sign = 1 } else h
              else if e
              then record h { reg_flag = 1; reg_cnt = h.reg_cnt + 2 }
              else h
            else h)
    kept false b d e = j
    kept true true true e = record { above = j.above; cur = j.cur; text = j.text; state = j.state }
    kept true true false e = j
    kept true false d true = record { above = j.above; cur = j.cur; text = j.text; state = j.state }
    kept true false d false = j

pub keep_result-Outcome :
    (member : ℕ) (op : ExpOp) (l t n : ExpNode) (a c : Bool) (o : Option ExpHandle)
    → Outcome t n a c o
    → Outcome t n a c (keep_result member op l o)
keep_result-Outcome member op l t n a c none e = e
keep_result-Outcome member op l t n a c (some h) (e, j) =
    (e, keep_regs-Joined member op (left_now op l h) t n c h j)

-- A branch, where the expression is complete or not.
abbrev pub Branch :
    ExpHandle
    → List Frame
    → (co : ExpOp) → (cl cr : ExpNode) → (op : ExpOp) → (l r : ExpNode) → Role
    → Bool
    → Type 0
Branch h fs co cl cr op l r o c =
    Fits c op l r
    → Outcome (plug fs (node co cl cr)) (node op l r) (accepts c (joinable fs (node co cl cr)) op)
        (completes op) (insert_at o op l r (at fs (node co cl cr) h))

-- The branches by the role of the node at `cur`.
pub insert_at-Branch :
    (h : ExpHandle) (fs : List Frame) (co : ExpOp) (cl cr : ExpNode) (op : ExpOp) (l r : ExpNode)
    → Above fs
    → IsCur fs (node co cl cr)
    → (role op ≡ value → barred (node co cl cr) op ≡ false)
    → Branch h fs co cl cr op l r (role co) (has_operand (node co cl cr))
insert_at-Branch h fs co cl cr op l r a (at_value e f) w =
    let full : has_operand (node co cl cr) ≡ true = rw (role-value co.flag co.bracket f.0) refl in
    subst (λ c. Branch h fs co cl cr op l r (role co) c) (sym full)
      (subst (λ o. Branch h fs co cl cr op l r o true) (sym f.0)
        (subst (λ gs. Branch h gs co cl cr op l r value true) (sym e)
          (value-Outcome h co cl cr op l r f)))
insert_at-Branch h fs co cl null op l r a (at_unary e f) w =
    let g = role-unary co.flag co.bracket f.0 in
    let bare : has_operand (node co cl null) ≡ false = rw (g.0, g.1) refl in
    subst (λ c. Branch h fs co cl null op l r (role co) c) (sym bare)
      (subst (λ o. Branch h fs co cl null op l r o false) (sym f.0)
        (subst (λ gs. Branch h gs co cl null op l r unary false) (sym e)
          (waiting-Outcome h co cl op l r f)))
insert_at-Branch h fs co cl (node ro rl rr) op l r a (at_unary e f) w =
    let g = role-unary co.flag co.bracket f.0 in
    let full : has_operand (node co cl (node ro rl rr)) ≡ true = rw (g.0, g.1) refl in
    subst (λ c. Branch h fs co cl (node ro rl rr) op l r (role co) c) (sym full)
      (subst (λ o. Branch h fs co cl (node ro rl rr) op l r o true) (sym f.0)
        (subst (λ gs. Branch h gs co cl (node ro rl rr) op l r unary true) (sym e)
          (unary-Outcome h co cl (node ro rl rr) op l r f refl)))
insert_at-Branch h fs co cl null op l r a (at_binary b nl f) w =
    let g = role-binary co.flag co.bracket b in
    let bare : has_operand (node co cl null) ≡ false = rw (g.0, g.1) refl in
    subst (λ c. Branch h fs co cl null op l r (role co) c) (sym bare)
      (subst (λ o. Branch h fs co cl null op l r o false) (sym b)
        (bare-Outcome h fs co cl b nl a op l r))
insert_at-Branch h fs co cl (node ro rl rr) op l r a (at_binary b nl (inl f)) w =
    let g = role-binary co.flag co.bracket b in
    let full : has_operand (node co cl (node ro rl rr)) ≡ true = rw (g.0, g.1, f.1) refl in
    subst (λ c. Branch h fs co cl (node ro rl rr) op l r (role co) c) (sym full)
      (subst (λ o. Branch h fs co cl (node ro rl rr) op l r o true) (sym b)
        (full-Outcome h fs co cl b nl a ro rl rr op l r f))
insert_at-Branch h fs co cl (node ro rl null) op l r a (at_binary b nl (inr f)) w =
    let g = role-binary co.flag co.bracket b in
    let k = role-unary ro.flag ro.bracket f.0 in
    let bare : has_operand (node co cl (node ro rl null)) ≡ false = rw (g.0, g.1, k.0) refl in
    subst (λ c. Branch h fs co cl (node ro rl null) op l r (role co) c) (sym bare)
      (subst (λ o. Branch h fs co cl (node ro rl null) op l r o false) (sym b)
        (chain_waits-Outcome h fs co cl b nl a ro rl op l r f))
insert_at-Branch h fs co cl (node ro rl (node so sl sr)) op l r a (at_binary b nl (inr f)) w =
    let g = role-binary co.flag co.bracket b in
    let k = role-unary ro.flag ro.bracket f.0 in
    let rr : ExpNode = node so sl sr in
    let full : has_operand (node co cl (node ro rl rr)) ≡ true = rw (g.0, g.1, k.0) refl in
    let keeps : barred (node co cl (node ro rl rr)) op ≡ true = rw (g.0, k.0) refl in
    subst (λ c. Branch h fs co cl (node ro rl rr) op l r (role co) c) (sym full)
      (subst (λ o. Branch h fs co cl (node ro rl rr) op l r o true) (sym b)
        (chain-Outcome h fs co cl b nl a ro rl rr op l r f refl (λ v. let e = w v in absurd cc)))
