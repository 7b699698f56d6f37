-- ===== src/Exp/Behind.antt =====
-- The node that joins behind a value, behind a chain of unary operators, and behind a binary
-- operator: the branches of czl_exp_node_insert of code/czl_vm.c.
use czl.Prelude.{◌≡◌, refl, sym, ◌∙◌, Bool, true, false, not, ◌||◌, List, [], ◌==◌}
use czl.Exp.{ExpOp, ExpNode, null, node, leaf, is_null, role, Role, value, unary, binary, que, col}
use czl.Exp.Place.{Frame, ExpHandle, plug, stops, is_open, find_que, binary_opt_node_insert}
use czl.Exp.Insert.{after_value, after_unary}
use czl.Exp.Tokens.{Above}
use czl.Exp.Shape.{
  Full, IsUnary, at_unary, role-unary, Fits, fits_value, fits_binary, fits_prefix, fits_postfix,
  fits_wrong,
}
use czl.Exp.Places.{Edge, stops-binary, is_open-binary}
use czl.Exp.Chains.{
  join_value, join_prefix, join_postfix, join_behind, IsUnary-value, IsUnary-prefix,
  IsUnary-postfix,
}
use czl.Exp.Join.{Outcome, accepts, completes, is_some, binary-Outcome}

-- A search may start at a node that, as a binary operator, has its right operand.
pub node-Edge :
    (test : ExpNode → Bool) (co : ExpOp) (cl cr : ExpNode)
    → (test (node co cl cr) ≡ true → role co ≡ binary)
    → (role co ≡ binary → is_null cr ≡ false)
    → Edge test (node co cl cr)
node-Edge test co cl cr is f = (refl, λ e. f (is e))

-- The handle at a node of a tree.
abbrev pub at : List Frame → ExpNode → ExpHandle → ExpHandle
at fs c h = record h { above = fs; cur = c }

abbrev pub joinable : List Frame → ExpNode → Bool
joinable fs c = is_some (find_que false c fs)

not_binary :
    (co : ExpOp) (cr : ExpNode) (o : Role)
    → role co ≡ o
    → (o ≡ binary → is_null cr ≡ false)
    → role co ≡ binary
    → is_null cr ≡ false
not_binary co cr o e f b = f (sym e ∙ b)

pub operator-Outcome :
    (h : ExpHandle) (fs : List Frame) (co : ExpOp) (cl cr : ExpNode) (op : ExpOp)
    → role op ≡ binary
    → Above fs
    → is_null (plug fs (node co cl cr)) ≡ false
    → (role co ≡ binary → is_null cr ≡ false)
    → Outcome
        (plug fs (node co cl cr))
        (leaf op)
        (not (op.type == col) || joinable fs (node co cl cr))
        false
        (binary_opt_node_insert op (leaf op) (at fs (node co cl cr) h))
operator-Outcome h fs co cl cr op b a n f =
    binary-Outcome op (at fs (node co cl cr) h) b a n
      (node-Edge (stops op.priority) co cl cr (stops-binary op.priority co cl cr) f)
      (node-Edge (is_open que) co cl cr (is_open-binary que co cl cr) f)

pub value-Outcome :
    (h : ExpHandle) (co : ExpOp) (cl cr : ExpNode) (op : ExpOp) (l r : ExpNode)
    → Full co cr
    → Fits true op l r
    → Outcome
        (node co cl cr)
        (node op l r)
        (accepts true (joinable [] (node co cl cr)) op)
        (completes op)
        (after_value (role op) op l (at [] (node co cl cr) h))
value-Outcome h co cl cr op l r f (fits_value v) = rw v.0 refl
value-Outcome h co cl cr op l r f (fits_binary b row) =
    rw b (operator-Outcome h [] co cl cr op b tt refl (not_binary co cr value f.0 (λ e. absurd cc)))
value-Outcome h co cl cr op l r f (fits_prefix u c p nr) = absurd cc
value-Outcome h co cl cr op l r f (fits_wrong u c p left) = rw (u, left, p) refl
value-Outcome h co cl cr op l r f (fits_postfix u c p nr nl) =
    let g = role-unary op.flag op.bracket u in
    rw (u, nl, p)
      (
        refl,
        record {
          above = tt;
          cur = at_unary refl (u, (f, λ e. absurd cc));
          text = join_behind co cl cr op u p;
          state = rw (g.0, g.1) refl;
        },
      )

-- A chain of unary operators that waits for its operand.
pub waiting-Outcome :
    (h : ExpHandle) (co : ExpOp) (cl : ExpNode) (op : ExpOp) (l r : ExpNode)
    → IsUnary co cl null
    → Fits false op l r
    → Outcome
        (node co cl null)
        (node op l r)
        (accepts false (joinable [] (node co cl null)) op)
        (completes op)
        (after_unary (role op) (node op l r) op (at [] (node co cl null) h))
waiting-Outcome h co cl op l r f (fits_value v) =
    let g = role-unary co.flag co.bracket f.0 in
    rw v.0 (
      refl,
      record {
        above = tt;
        cur = at_unary refl (IsUnary-value co cl op l r f v);
        text = join_value co cl op l r f v.0;
        state = rw (g.0, g.1) refl;
      },
    )
waiting-Outcome h co cl op l r f (fits_binary b row) = rw b refl
waiting-Outcome h co cl op l r f (fits_postfix u c p nr nl) = absurd cc
waiting-Outcome h co cl op l r f (fits_wrong u c p left) = absurd cc
waiting-Outcome h co cl op l r f (fits_prefix u c p nr) =
    let g = role-unary op.flag op.bracket u in
    rw (u, nr, p)
      (
        refl,
        record {
          above = tt;
          cur = at_unary refl (IsUnary-prefix co cl op f u p);
          text = join_prefix co cl op f u p;
          state = rw (g.0, g.1) refl;
        },
      )

-- A chain of unary operators that has its operand.
pub unary-Outcome :
    (h : ExpHandle) (co : ExpOp) (cl cr : ExpNode) (op : ExpOp) (l r : ExpNode)
    → IsUnary co cl cr
    → is_null cr ≡ false
    → Fits true op l r
    → Outcome
        (node co cl cr)
        (node op l r)
        (accepts true (joinable [] (node co cl cr)) op)
        (completes op)
        (after_unary (role op) (node op l r) op (at [] (node co cl cr) h))
unary-Outcome h co cl cr op l r f n (fits_value v) = rw (v.0, n) refl
unary-Outcome h co cl cr op l r f n (fits_binary b row) =
    rw (b, n)
      (operator-Outcome h [] co cl cr op b tt refl (not_binary co cr unary f.0 (λ e. absurd cc)))
unary-Outcome h co cl cr op l r f n (fits_prefix u c p nr) = absurd cc
unary-Outcome h co cl cr op l r f n (fits_wrong u c p left) = rw (u, n, left, p) refl
unary-Outcome h co cl cr op l r f n (fits_postfix u c p nr nl) =
    let g = role-unary op.flag op.bracket u in
    rw (u, n, nr, nl, p)
      (
        refl,
        record {
          above = tt;
          cur = at_unary refl (IsUnary-postfix co cl cr op f n u);
          text = join_postfix co cl cr op f u p;
          state = rw (g.0, g.1, n) refl;
        },
      )
