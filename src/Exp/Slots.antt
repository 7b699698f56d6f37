-- ===== src/Exp/Slots.antt =====
-- What joins behind a value, a chain of unary operators or a binary operator leaves the priorities
-- as they are: the branches of czl_exp_node_insert of code/czl_vm.c.
use czl.Prelude.{
  ◌≡◌, refl, Bool, true, false, not, ◌&&◌, ◌||◌, inl, inr, ◌⊎◌, Option, none, some, List, [],
  if◌then◌else◌,
}
use czl.Exp.{ExpOp, ExpNode, null, node, leaf, is_null, role, value, unary, binary, is_operand, que}
use czl.Exp.Place.{Frame, ExpHandle, root, plug, is_open, binary_opt_node_insert}
use czl.Exp.Insert.{after_value, after_unary, after_binary}
use czl.Exp.Tokens.{Above}
use czl.Exp.Shape.{
  Full, IsUnary, IsCur, at_value, at_unary, at_binary, IsRow, Fits, fits_value, fits_binary,
  fits_prefix, fits_postfix, fits_wrong, role-unary,
}
use czl.Exp.Places.{is_open-binary}
use czl.Exp.Behind.{at, node-Edge}
use czl.Exp.Order.{Ordered, plug-Ordered, Ordered-plug}
use czl.Exp.Precedence.{binary_opt_node_insert-Ordered}

abbrev pub OrderedResult : Option ExpHandle → Type 0
OrderedResult none = Unit
OrderedResult (some g) = Ordered (root g)

ordered_result :
    (o : Option ExpHandle) → ((g : ExpHandle) → o ≡ some g → Ordered (root g)) → OrderedResult o
ordered_result none f = tt
ordered_result (some g) f = f g refl

-- An operator that joins behind a node with its right operand.
operator-Ordered :
    (h : ExpHandle) (fs : List Frame) (co : ExpOp) (cl cr : ExpNode) (op : ExpOp)
    → role op ≡ binary
    → IsRow op
    → Above fs
    → IsCur fs (node co cl cr)
    → (role co ≡ binary → is_null cr ≡ false)
    → Ordered (plug fs (node co cl cr))
    → OrderedResult (binary_opt_node_insert op (leaf op) (at fs (node co cl cr) h))
operator-Ordered h fs co cl cr op b row a is f o =
    ordered_result (binary_opt_node_insert op (leaf op) (at fs (node co cl cr) h)) (λ g e.
      binary_opt_node_insert-Ordered op (at fs (node co cl cr) h) g row b a is
        (node-Edge (is_open que) co cl cr (is_open-binary que co cl cr) f) o e)

pub value-Ordered :
    (h : ExpHandle) (co : ExpOp) (cl cr : ExpNode) (op : ExpOp) (l r : ExpNode)
    → Full co cr
    → Fits true op l r
    → Ordered (node co cl cr)
    → OrderedResult (after_value (role op) op l (at [] (node co cl cr) h))
value-Ordered h co cl cr op l r f (fits_value v) o = rw v.0 tt
value-Ordered h co cl cr op l r f (fits_binary b row) o =
    rw b (
      operator-Ordered h [] co cl cr op b row tt (at_value refl f) (λ e. let g = f.0 in absurd cc)
        o)
value-Ordered h co cl cr op l r f (fits_prefix u e p nr) o = absurd cc
value-Ordered h co cl cr op l r f (fits_postfix u e p nr nl) o = rw (u, nl) (λ b. absurd cc)
value-Ordered h co cl cr op l r f (fits_wrong u e p left) o = rw (u, left) tt

-- A unary operator that joins a chain, at the root or at the right of an operator.
guarded :
    (a b : Bool) (g : ExpHandle)
    → Ordered (root g)
    → OrderedResult (if a then none else if b then none else some g)
guarded true b g o = tt
guarded false true g o = tt
guarded false false g o = o

pub unary-Ordered :
    (h : ExpHandle) (co : ExpOp) (cl cr : ExpNode) (op : ExpOp) (l r : ExpNode)
    → IsUnary co cl cr
    → Fits (not (is_null cr)) op l r
    → Ordered (node co cl cr)
    → OrderedResult (after_unary (role op) (node op l r) op (at [] (node co cl cr) h))
unary-Ordered h co cl null op l r f (fits_value v) o = rw v.0 (λ b. let g = f.0 in absurd cc)
unary-Ordered h co cl (node ro rl rr) op l r f (fits_value v) o = rw v.0 tt
unary-Ordered h co cl null op l r f (fits_binary b row) o = rw b tt
unary-Ordered h co cl (node ro rl rr) op l r f (fits_binary b row) o =
    rw b (operator-Ordered h [] co cl (node ro rl rr) op b row tt (at_unary refl f) (λ e. refl) o)
unary-Ordered h co cl null op l r f (fits_prefix u e p nr) o = rw (u, nr) (λ b. absurd cc)
unary-Ordered h co cl (node ro rl rr) op l r f (fits_prefix u e p nr) o = absurd cc
unary-Ordered h co cl null op l r f (fits_postfix u e p nr nl) o = absurd cc
unary-Ordered h co cl (node ro rl rr) op l r f (fits_postfix u e p nr nl) o =
    rw (u, nr, nl) (λ b. absurd cc)
unary-Ordered h co cl null op l r f (fits_wrong u e p left) o = absurd cc
unary-Ordered h co cl (node ro rl rr) op l r f (fits_wrong u e p left) o = rw (u, left) tt

full_guard : (b n : Bool) → (b || not n) ≡ true → (not b && n) ≡ false
full_guard true n e = refl
full_guard false true e = absurd cc
full_guard false false e = refl

pub no_more : (b : Bool) → (b || false) ≡ b
no_more true = refl
no_more false = refl

-- What joins at the right of an operator is no operator to its parent.
right-Ordered :
    (fs : List Frame) (co : ExpOp) (cl cr : ExpNode) (xo : ExpOp) (xl xr : ExpNode)
    → Above fs
    → (role xo ≡ value) ⊎ (role xo ≡ unary)
    → Ordered (plug fs (node co cl cr))
    → Ordered (plug fs (node co cl (node xo xl xr)))
right-Ordered fs co cl cr xo xl xr a q o =
    Ordered-plug fs (node co cl cr) (node co cl (node xo xl xr)) a o
      (λ b.
        let n = plug-Ordered fs (node co cl cr) a o b in
        (
          record {
            left = n.0.left;
            right = λ c. elim q [ inl v ↦ absurd cc | inr u ↦ absurd cc ];
            que_priority = n.0.que_priority;
          },
          (n.1.0, λ c. elim q [ inl v ↦ absurd cc | inr u ↦ absurd cc ]),
        ))
      (λ f t. t)

module _ (h : ExpHandle) (fs : List Frame) (co : ExpOp) (cl : ExpNode) (b : role co ≡ binary)
    (nl : is_null cl ≡ false) (a : Above fs) where
  pub bare-Ordered :
      (op : ExpOp) (l r : ExpNode)
      → Fits false op l r
      → Ordered (plug fs (node co cl null))
      → OrderedResult (after_binary (role op) (node op l r) op (at fs (node co cl null) h))
  bare-Ordered op l r (fits_value v) o = rw v.0 (right-Ordered fs co cl null op l r a (inl v.0) o)
  bare-Ordered op l r (fits_binary ob row) o = rw ob tt
  bare-Ordered op l r (fits_prefix u e p nr) o =
      rw (u, nr) (right-Ordered fs co cl null op null null a (inr u) o)
  bare-Ordered op l r (fits_postfix u e p nr nleft) o = absurd cc
  bare-Ordered op l r (fits_wrong u e p left) o = absurd cc

  pub value_right-Ordered :
      (ro : ExpOp) (rl rr : ExpNode) (op : ExpOp) (l r : ExpNode)
      → Full ro rr
      → Fits true op l r
      → Ordered (plug fs (node co cl (node ro rl rr)))
      → OrderedResult
          (after_binary (role op) (node op l r) op (at fs (node co cl (node ro rl rr)) h))
  value_right-Ordered ro rl rr op l r f (fits_value v) o = rw (v.0, f.0) tt
  value_right-Ordered ro rl rr op l r f (fits_binary ob row) o =
      rw (ob, full_guard (is_operand ro.flag) (is_null rr) f.1)
        (operator-Ordered h fs co cl (node ro rl rr) op ob row a (at_binary b nl (inl f))
          (λ e. refl) o)
  value_right-Ordered ro rl rr op l r f (fits_prefix u e p nr) o = absurd cc
  value_right-Ordered ro rl rr op l r f (fits_postfix u e p nr nleft) o =
      rw (u, f.0, nleft)
        (right-Ordered fs co cl (node ro rl rr) op null (node ro rl rr) a (inr u) o)
  value_right-Ordered ro rl rr op l r f (fits_wrong u e p left) o = rw (u, f.0, left) tt

  pub chain-Ordered :
      (ro : ExpOp) (rl rr : ExpNode) (op : ExpOp) (l r : ExpNode)
      → IsUnary ro rl rr
      → Fits (not (is_null rr)) op l r
      → Ordered (plug fs (node co cl (node ro rl rr)))
      → OrderedResult
          (after_binary (role op) (node op l r) op (at fs (node co cl (node ro rl rr)) h))
  chain-Ordered ro rl rr op l r f (fits_value v) o =
      rw (v.0, f.0) (right-Ordered fs co cl (node ro rl rr) ro rl (node op l r) a (inr f.0) o)
  chain-Ordered ro rl null op l r f (fits_binary ob row) o =
      let g = role-unary ro.flag ro.bracket f.0 in rw (ob, g.0) tt
  chain-Ordered ro rl (node so sl sr) op l r f (fits_binary ob row) o =
      let g = role-unary ro.flag ro.bracket f.0 in
      let rr : ExpNode = node so sl sr in
      let guard : (not (is_operand ro.flag) && false) ≡ false = rw g.0 refl in
      rw (ob, guard)
        (operator-Ordered h fs co cl (node ro rl rr) op ob row a (at_binary b nl (inr f))
          (λ e. refl) o)
  chain-Ordered ro rl null op l r f (fits_prefix u e p nr) o =
      rw (u, f.0, nr)
        (right-Ordered fs co cl (node ro rl null) op (node ro rl null) null a (inr u) o)
  chain-Ordered ro rl (node so sl sr) op l r f (fits_prefix u e p nr) o = absurd cc
  chain-Ordered ro rl null op l r f (fits_postfix u e p nr nleft) o = absurd cc
  chain-Ordered ro rl (node so sl sr) op l r f (fits_postfix u e p nr nleft) o =
      rw (u, f.0, nr, nleft)
        (right-Ordered fs co cl (node ro rl (node so sl sr)) op (node ro rl null) (node so sl sr) a
          (inr u) o)
  chain-Ordered ro rl null op l r f (fits_wrong u e p left) o = absurd cc
  chain-Ordered ro rl (node so sl sr) op l r f (fits_wrong u e p left) o = rw (u, f.0, left) tt
