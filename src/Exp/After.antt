-- ===== src/Exp/After.antt =====
-- The node that joins behind a binary operator: the last branches of czl_exp_node_insert of
-- code/czl_vm.c.
use czl.Prelude.{
  ◌≡◌, refl, sym, ap, ◌∙◌, Bool, true, false, not, ◌&&◌, ◌||◌, List, [], ◌∷◌, ◌++◌, append_assoc,
  inl, inr,
}
use czl.Exp.{
  ExpOp, ExpNode, null, node, leaf, is_null, right_of, role, value, binary, is_operand,
  holds_operand,
}
use czl.Exp.Place.{Frame, ExpHandle, plug}
use czl.Exp.Insert.{after_binary}
use czl.Exp.Tokens.{Above, tokens, plug-append, tokens-binary}
use czl.Exp.Shape.{
  Full, IsUnary, IsRight, at_binary, role-binary, role-unary, Fits, fits_value, fits_binary,
  fits_prefix, fits_postfix, fits_wrong,
}
use czl.Exp.Chains.{
  join_value, join_prefix, join_postfix, join_behind, join_alone, IsUnary-value, IsUnary-prefix,
  IsUnary-postfix,
}
use czl.Exp.Join.{Joined, Outcome, accepts, completes}
use czl.Exp.Behind.{at, joinable, operator-Outcome}
use czl.Exp.Tokens.{tokens-value, prefixes-prefix}

open_guard : (b n : Bool) → (b || not n) ≡ true → (not b && n) ≡ false
open_guard true n e = refl
open_guard false true e = absurd cc
open_guard false false e = refl

pub plug-node :
    (fs : List Frame) (op : ExpOp) (l r : ExpNode) → is_null (plug fs (node op l r)) ≡ false
plug-node [] op l r = refl
plug-node (f ∷ fs) op l r = plug-node fs f.0 f.1 (node op l r)

-- The right operand, or what there is of it.
right-Joined :
    (h : ExpHandle) (fs : List Frame) (co : ExpOp) (cl cr cr' n : ExpNode) (c : Bool)
    → role co ≡ binary
    → is_null cl ≡ false
    → Above fs
    → IsRight cr'
    → tokens cr' ≡ tokens cr ++ n ∷ []
    → (not (is_null cr') && (holds_operand cr' || not (is_null (right_of cr')))) ≡ c
    → Joined (plug fs (node co cl cr)) n c (at fs (node co cl cr') h)
right-Joined h fs co cl cr cr' n c b nl a is e s =
    let g = role-binary co.flag co.bracket b in
    record {
      above = a;
      cur = at_binary b nl is;
      text = plug-append fs (node co cl cr) (node co cl cr') (n ∷ []) a (
          tokens-binary co cl cr' b
          ∙ ap (λ ts. tokens cl ++ leaf co ∷ ts) e
          ∙ sym (append_assoc (tokens cl) (leaf co ∷ tokens cr) (n ∷ []))
          ∙ ap (λ ts. ts ++ n ∷ []) (sym (tokens-binary co cl cr b)));
      state = rw (g.0, g.1) s;
    }

module _ (h : ExpHandle) (fs : List Frame) (co : ExpOp) (cl : ExpNode) (b : role co ≡ binary)
    (nl : is_null cl ≡ false) (a : Above fs) where
  -- No right operand yet.
  pub bare-Outcome :
      (op : ExpOp) (l r : ExpNode)
      → Fits false op l r
      → Outcome
          (plug fs (node co cl null))
          (node op l r)
          (accepts false (joinable fs (node co cl null)) op)
          (completes op)
          (after_binary (role op) (node op l r) op (at fs (node co cl null) h))
  bare-Outcome op l r (fits_value v) = rw v.0 (
    refl,
    right-Joined h fs co cl null (node op l r) (node op l r) true b nl a (inl v)
        (tokens-value op l r v.0) v.1,
  )
  bare-Outcome op l r (fits_binary ob row) = rw ob refl
  bare-Outcome op l r (fits_postfix u c p nr nleft) = absurd cc
  bare-Outcome op l r (fits_wrong u c p left) = absurd cc
  bare-Outcome op l r (fits_prefix u c p nr) =
      let g = role-unary op.flag op.bracket u in
      rw (u, nr, p)
        (
          refl,
          right-Joined h fs co cl null (leaf op) (leaf op) false b nl a
              (inr (u, (tt, λ e. (prefixes-prefix op null null p).1))) (join_alone op u p)
              (rw g.0 refl),
        )

  -- A value stands at the right.
  pub full-Outcome :
      (ro : ExpOp) (rl rr : ExpNode) (op : ExpOp) (l r : ExpNode)
      → Full ro rr
      → Fits true op l r
      → Outcome
          (plug fs (node co cl (node ro rl rr)))
          (node op l r)
          (accepts true (joinable fs (node co cl (node ro rl rr))) op)
          (completes op)
          (after_binary (role op) (node op l r) op (at fs (node co cl (node ro rl rr)) h))
  full-Outcome ro rl rr op l r f (fits_value v) = rw (v.0, f.0) refl
  full-Outcome ro rl rr op l r f (fits_binary ob row) =
      rw (ob, open_guard (is_operand ro.flag) (is_null rr) f.1)
        (operator-Outcome h fs co cl (node ro rl rr) op ob a (plug-node fs co cl (node ro rl rr))
          (λ e. refl))
  full-Outcome ro rl rr op l r f (fits_prefix u c p nr) = absurd cc
  full-Outcome ro rl rr op l r f (fits_wrong u c p left) = rw (u, f.0, left, p) refl
  full-Outcome ro rl rr op l r f (fits_postfix u c p nr nleft) =
      let g = role-unary op.flag op.bracket u in
      rw (u, f.0, nleft, p)
        (
          refl,
          right-Joined h fs co cl (node ro rl rr) (node op null (node ro rl rr)) (leaf op) true b nl
              a (inr (u, (f, λ e. absurd cc))) (join_behind ro rl rr op u p) (rw g.0 refl),
        )

  -- Unary operators that wait for their operand stand at the right.
  pub chain_waits-Outcome :
      (ro : ExpOp) (rl : ExpNode) (op : ExpOp) (l r : ExpNode)
      → IsUnary ro rl null
      → Fits false op l r
      → Outcome
          (plug fs (node co cl (node ro rl null)))
          (node op l r)
          (accepts false (joinable fs (node co cl (node ro rl null))) op)
          (completes op)
          (after_binary (role op) (node op l r) op (at fs (node co cl (node ro rl null)) h))
  chain_waits-Outcome ro rl op l r f (fits_value v) =
      let g = role-unary ro.flag ro.bracket f.0 in
      rw (v.0, f.0)
        (
          refl,
          right-Joined h fs co cl (node ro rl null) (node ro rl (node op l r)) (node op l r) true b
              nl a (inr (IsUnary-value ro rl op l r f v)) (join_value ro rl op l r f v.0)
              (rw g.0 refl),
        )
  chain_waits-Outcome ro rl op l r f (fits_binary ob row) =
      let g = role-unary ro.flag ro.bracket f.0 in rw (ob, g.0) refl
  chain_waits-Outcome ro rl op l r f (fits_postfix u c p nr nleft) = absurd cc
  chain_waits-Outcome ro rl op l r f (fits_wrong u c p left) = absurd cc
  chain_waits-Outcome ro rl op l r f (fits_prefix u c p nr) =
      let g = role-unary op.flag op.bracket u in
      rw (u, f.0, nr, p)
        (
          refl,
          right-Joined h fs co cl (node ro rl null) (node op (node ro rl null) null) (leaf op) false
              b nl a (inr (IsUnary-prefix ro rl op f u p)) (join_prefix ro rl op f u p)
              (rw g.0 refl),
        )

  -- Unary operators that have their operand stand at the right.
  pub chain-Outcome :
      (ro : ExpOp) (rl rr : ExpNode) (op : ExpOp) (l r : ExpNode)
      → IsUnary ro rl rr
      → is_null rr ≡ false
      → (role op ≡ value → is_null rr ≡ true)
      → Fits true op l r
      → Outcome
          (plug fs (node co cl (node ro rl rr)))
          (node op l r)
          (accepts true (joinable fs (node co cl (node ro rl rr))) op)
          (completes op)
          (after_binary (role op) (node op l r) op (at fs (node co cl (node ro rl rr)) h))
  chain-Outcome ro rl rr op l r f n no_value (fits_value v) = let e = no_value v.0 in absurd cc
  chain-Outcome ro rl rr op l r f n no_value (fits_binary ob row) =
      let g = role-unary ro.flag ro.bracket f.0 in
      let guard : (not (is_operand ro.flag) && is_null rr) ≡ false = rw (g.0, n) refl in
      rw (ob, guard)
        (operator-Outcome h fs co cl (node ro rl rr) op ob a (plug-node fs co cl (node ro rl rr))
          (λ e. refl))
  chain-Outcome ro rl rr op l r f n no_value (fits_prefix u c p nr) = absurd cc
  chain-Outcome ro rl rr op l r f n no_value (fits_wrong u c p left) = rw (u, f.0, n, left, p) refl
  chain-Outcome ro rl rr op l r f n no_value (fits_postfix u c p nr nleft) =
      let g = role-unary op.flag op.bracket u in
      rw (u, f.0, n, nr, nleft, p)
        (
          refl,
          right-Joined h fs co cl (node ro rl rr) (node op (node ro rl null) rr) (leaf op) true b nl
              a (inr (IsUnary-postfix ro rl rr op f n u)) (join_postfix ro rl rr op f u p)
              (rw (g.0, n) refl),
        )
