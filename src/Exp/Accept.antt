-- ===== src/Exp/Accept.antt =====
-- czl_exp_node_insert of code/czl_vm.c accepts a node exactly where an operand or an operator may
-- stand, and puts it behind the text that is there.
use czl.Prelude.{
  ap, ◌∙◌, ℕ, ◌≡◌, refl, sym, subst, Bool, true, false, not, ◌&&◌, ◌||◌, Option, none, some, List,
  [], ◌∷◌, ◌++◌, inl, ◌==◌,
}
use czl.Exp.{
  ExpOp, ExpNode, null, node, role, value, role_of, Flag, operand, unary_opt, binary_opt,
  is_operand, is_binary, pos_right,
}
use czl.Exp.Place.{Frame, ExpHandle, root, plug, has_operand, collide}
use czl.Exp.Insert.{first_node, insert_at, insert_node, exp_node_insert}
use czl.Exp.Tokens.{Above, tokens, tokens-value}
use czl.Exp.Shape.{
  IsCur, at_value, at_unary, is_empty, role-binary, role-unary, role-value, Fits, fits_value,
  fits_binary, fits_prefix, fits_postfix, fits_wrong, IsToken,
}
use czl.Exp.Collide.{collide-Fits, collide-same}
use czl.Exp.State.{
  ends_complete, waits_for_col, may_join, collide-may_join, collide-value, has_operand-ends,
  find_que-waits_for_col,
}
use czl.Exp.Join.{Outcome, accepts, completes, is_some}
use czl.Exp.Chains.{join_alone}
use czl.Exp.Tokens.{prefixes-prefix}
use czl.Exp.Behind.{at, joinable}
use czl.Exp.Branches.{barred, insert_at-Branch, keep_result-Outcome}

-- The handle stands on the right edge of a tree that these insertions make.
pub record IsHandle (h : ExpHandle) : Type 0 where
  pub above : Above h.above
  pub cur : IsCur h.above h.cur

-- What the collision test makes of a node, and whether a `?` waits for its `:`.
abbrev pub corrected : ExpHandle → ExpOp → ExpOp
corrected h op = collide (has_operand h.cur) op

abbrev pub waits : ExpHandle → Bool
waits h = joinable h.above h.cur

-- The first node of an expression; no collision is possible.
operand_value : (f : Flag) (b : Bool) → role_of f b ≡ value → b ≡ false → is_operand f ≡ true
operand_value operand b v e = refl
operand_value unary_opt true v e = absurd cc
operand_value unary_opt false v e = absurd cc
operand_value binary_opt true v e = absurd cc
operand_value binary_opt false v e = absurd cc

first-Branch :
    (member : ℕ) (h : ExpHandle) (op : ExpOp) (l r : ExpNode)
    → (role op ≡ value → op.bracket ≡ false)
    → Fits false op l r
    → Outcome null
        (node op l r)
        (accepts false (joinable [] null) op)
        (completes op)
        (first_node op (node op l r) h)
first-Branch member h op l r w (fits_value v) =
    let e = operand_value op.flag op.bracket v.0 (w v.0) in
    rw (v.0, e)
      (
        refl,
        record {
          above = tt;
          cur = at_value refl v;
          text = tokens-value op l r v.0;
          state = rw (role-value op.flag op.bracket v.0) refl;
        },
      )
first-Branch member h op l r w (fits_binary b row) =
    let g = role-binary op.flag op.bracket b in rw (b, g.0) refl
first-Branch member h op l r w (fits_postfix u c p nr nleft) = absurd cc
first-Branch member h op l r w (fits_wrong u c p left) = absurd cc
first-Branch member h op l r w (fits_prefix u c p nr) =
    let g = role-unary op.flag op.bracket u in
    let test : (not (is_operand op.flag) && (is_binary op.flag || op.position == pos_right))
        ≡ false =
      rw (g.0, nr) refl in
    rw (u, test, p)
      (
        refl,
        record {
          above = tt;
          cur = at_unary refl (u, (tt, λ e. (prefixes-prefix op null null p).1));
          text = join_alone op u p;
          state = rw (g.0, g.1) refl;
        },
      )

insert_node-Outcome :
    (member : ℕ) (h : ExpHandle) (fs : List Frame) (c : ExpNode) (op : ExpOp) (l r : ExpNode)
    → Above fs
    → IsCur fs c
    → IsToken op l r
    → (role (collide (has_operand c) op) ≡ value → barred c (collide (has_operand c) op) ≡ false)
    → Outcome
        (plug fs c)
        (node (collide (has_operand c) op) l r)
        (accepts (has_operand c) (joinable fs c) (collide (has_operand c) op))
        (completes (collide (has_operand c) op))
        (insert_node member op l r c (at fs c h))
insert_node-Outcome member h fs (node co cl cr) op l r a is t w =
    let op' : ExpOp = collide (has_operand (node co cl cr)) op in
    keep_result-Outcome member op' l (plug fs (node co cl cr)) (node op' l r)
      (accepts (has_operand (node co cl cr)) (joinable fs (node co cl cr)) op') (completes op')
      (insert_at (role co) op' l r (at fs (node co cl cr) h))
      (insert_at-Branch h fs co cl cr op' l r a is w
        (collide-Fits (has_operand (node co cl cr)) op l r t))
insert_node-Outcome member h fs null op l r a (is_empty e) t w =
    let same = collide-same false op (inl refl) in
    let fit = subst (λ o. Fits false o l r) same (collide-Fits false op l r t) in
    let clear = subst (λ o. role o ≡ value → o.bracket ≡ false) same w in
    subst
      (λ o.
        Outcome (plug fs null) (node o l r) (accepts false (joinable fs null) o) (completes o)
          (first_node op (node op l r) (at fs null h)))
      (sym same)
      (subst
        (λ gs.
          Outcome (plug gs null) (node op l r) (accepts false (joinable gs null) op) (completes op)
            (first_node op (node op l r) (at gs null h)))
        (sym e) (first-Branch member (at [] null h) op l r clear fit))

pub exp_node_insert-Outcome :
    (member : ℕ) (h : ExpHandle) (op : ExpOp) (l r : ExpNode)
    → IsHandle h
    → IsToken op l r
    → (role (corrected h op) ≡ value → barred h.cur (corrected h op) ≡ false)
    → Outcome
        (root h)
        (node (corrected h op) l r)
        (accepts (has_operand h.cur) (waits h) (corrected h op))
        (completes (corrected h op))
        (exp_node_insert member (node op l r) h)
unfolding exp_node_insert
exp_node_insert-Outcome member h op l r is t w =
    insert_node-Outcome member h h.above h.cur op l r is.above is.cur t w

Outcome-is_some :
    (t n : ExpNode) (a c : Bool) (o : Option ExpHandle) → Outcome t n a c o → is_some o ≡ a
Outcome-is_some t n a c none e = sym e
Outcome-is_some t n a c (some h') e = sym e.0

-- Which nodes join, told from the tree alone: where the right edge of the tree lacks an operand, an
-- operand, a subtree in brackets or a unary operator; where it has one, the unary operators `-`,
-- `++` and `--`, and the binary operators, `:` only if a `?` on the right edge has no `:` yet. The
-- node is one that the parser makes, the handle one that the insertions make, and a value is not
-- barred.
pub exp_node_insert-accepts :
    (member : ℕ) (h : ExpHandle) (op : ExpOp) (l r : ExpNode)
    → IsHandle h
    → IsToken op l r
    → (role op ≡ value → barred h.cur op ≡ false)
    → is_some (exp_node_insert member (node op l r) h)
      ≡ may_join (ends_complete (root h)) (waits_for_col (root h)) op
exp_node_insert-accepts member h op l r is t w =
    let clear : role (corrected h op) ≡ value → barred h.cur (corrected h op) ≡ false = λ e.
      let (v, same) = collide-value (has_operand h.cur) op l r t e in
      subst (λ o. barred h.cur o ≡ false) (sym same) (w v) in
    Outcome-is_some (root h) (node (corrected h op) l r)
      (accepts (has_operand h.cur) (waits h) (corrected h op)) (completes (corrected h op))
      (exp_node_insert member (node op l r) h) (exp_node_insert-Outcome member h op l r is t clear)
    ∙ collide-may_join (has_operand h.cur) (waits h) op l r t
    ∙ ap (λ c. may_join c (waits h) op) (has_operand-ends h.above h.cur is.above is.cur)
    ∙ ap (λ b. may_join (ends_complete (root h)) b op)
        (find_que-waits_for_col h.above h.cur is.above is.cur)

-- A node that joins stands behind the text that the tree has, the tree keeps its shape, and the
-- expression is complete after a value or a postfix operator, and waits for an operand after
-- another operator. The node is one that the parser makes, and a value is not barred.
pub exp_node_insert-tokens :
    (member : ℕ) (h h' : ExpHandle) (op : ExpOp) (l r : ExpNode)
    → IsHandle h
    → IsToken op l r
    → (role (corrected h op) ≡ value → barred h.cur (corrected h op) ≡ false)
    → exp_node_insert member (node op l r) h ≡ some h'
    → IsHandle h'
      × ((tokens (root h') ≡ tokens (root h) ++ node (corrected h op) l r ∷ [])
          × (has_operand h'.cur ≡ completes (corrected h op)))
exp_node_insert-tokens member h h' op l r is t w e =
    let o =
      subst
        (Outcome (root h) (node (corrected h op) l r)
          (accepts (has_operand h.cur) (waits h) (corrected h op)) (completes (corrected h op)))
        e (exp_node_insert-Outcome member h op l r is t w) in
    (record { above = o.1.above; cur = o.1.cur }, (o.1.text, o.1.state))
