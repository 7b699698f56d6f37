-- ===== src/Exp/State.antt =====
-- The state of an expression that czl_exp_node_insert of code/czl_vm.c reads, told from its tree
-- alone, and the nodes that may join in each state.
use czl.Prelude.{
  ◌≡◌, ◌⊎◌, inl, inr, refl, sym, ap, subst, ◌∙◌, Bool, true, false, not, ◌&&◌, ◌||◌, Option, none,
  some, List, [], ◌∷◌, ◌==◌, if◌then◌else◌, Bool-cases, ℕ,
}
use czl.Exp.{
  ExpOp, ExpNode, null, node, Role, value, unary, binary, role, role_of, Flag, operand, unary_opt,
  binary_opt, is_operand, is_unary, is_binary, is_null, que, col, number_not, add_self, dec_self,
  binary_opt_table,
}
use czl.Exp.Place.{Frame, plug, is_open, find_que, has_operand, collide}
use czl.Exp.Tokens.{Above, is_postfix}
use czl.Exp.Shape.{
  IsCur, is_empty, at_value, at_unary, at_binary, IsRight, IsToken, token_value, token_unary,
  token_binary, role-value, role-unary, role-binary,
}
use czl.Exp.Collide.{collide-same, IsRow-facts, unary-row}
use czl.Exp.Join.{accepts, is_some}

-- The expression ends with an operand: the right edge of the tree leads to one, or to a unary
-- operator that has its operand.
abbrev complete_by : Role → (r : ExpNode) → (at_right : Bool) → Bool
complete_by value r at_right = true
complete_by unary r at_right = not (is_null r)
complete_by binary r at_right = at_right

abbrev pub ends_complete : ExpNode → Bool
ends_complete null = false
ends_complete (node op l r) = complete_by (role op) r (ends_complete r)

-- A binary operator that is not closed by brackets.
abbrev pub is_infix : ExpOp → Bool
is_infix op = is_binary op.flag && not op.bracket

-- Each `:` on the right edge answers the node that it stands under, unless it is answered itself.
abbrev pub answers : ExpNode → Bool
answers null = false
answers (node op l r) = is_infix op && (op.type == col && not (answers r))

-- A `?` on the right edge, reached through binary operators, that no `:` answers.
abbrev pub waits_for_col : ExpNode → Bool
waits_for_col null = false
waits_for_col (node op l r) =
    is_infix op && ((op.type == que && not (answers r)) || waits_for_col r)

-- The nodes that may join. A unary operator stands in front of its operand; of those that the parser
-- makes only `-`, which is the binary operator there, `++` and `--` may stand behind one.
abbrev join_by : Role → (complete waits : Bool) → ExpOp → Bool
join_by value complete waits op = not complete
join_by unary complete waits op =
    not complete || (op.type == number_not || op.type == add_self || op.type == dec_self)
join_by binary complete waits op = complete && (not (op.type == col) || waits)

abbrev pub may_join : (complete waits : Bool) → ExpOp → Bool
may_join complete waits op = join_by (role op) complete waits op

is_infix-binary : (f : Flag) (b : Bool) → role_of f b ≡ binary → (is_binary f && not b) ≡ true
is_infix-binary f b e = let r = role-binary f b e in rw (r.0, r.1) refl

not_infix : (f : Flag) (b : Bool) → (role_of f b ≡ binary → ⊥) → (is_binary f && not b) ≡ false
not_infix operand b n = refl
not_infix unary_opt b n = refl
not_infix binary_opt true n = refl
not_infix binary_opt false n = absurd (n refl)

no_binary : {o : Role} → (o ≡ value) ⊎ (o ≡ unary) → o ≡ binary → ⊥
no_binary (inl v) b = absurd cc
no_binary (inr u) b = absurd cc

is_open-infix :
    (type : ℕ) (op : ExpOp) (l r : ExpNode)
    → is_open type (node op l r) ≡ (is_infix op && op.type == type)
is_open-infix type op l r = by_flag op.flag op.bracket
  where
    by_flag :
        (f : Flag) (b : Bool)
        → (not (is_operand f || is_unary f || b) && op.type == type)
          ≡ ((is_binary f && not b) && op.type == type)
    by_flag operand b = refl
    by_flag unary_opt b = refl
    by_flag binary_opt true = refl
    by_flag binary_opt false = refl

is_some-if :
    {A : Type 0} (s q : Bool) (x : A) (rest : Option A) (o : Bool)
    → (is_some (if not s && q then some x else rest) || o) ≡ (is_some rest || ((q && not s) || o))
is_some-if true q x rest o = swapped q (is_some rest)
  where
    swapped : (q r : Bool) → (r || o) ≡ (r || ((q && false) || o))
    swapped true r = refl
    swapped false r = refl
is_some-if false true x rest o = or_true (is_some rest)
  where
    or_true : (r : Bool) → true ≡ (r || true)
    or_true true = refl
    or_true false = refl
is_some-if false false x rest o = refl

and_comm : (a b : Bool) → (not a && b) ≡ (b && not a)
and_comm true true = refl
and_comm true false = refl
and_comm false true = refl
and_comm false false = refl

-- czl_three_opt_match finds a `?` exactly where one on the right edge waits.
find_que-infix :
    (fs : List Frame) (op : ExpOp) (l r : ExpNode)
    → role op ≡ binary
    → Above fs
    → (is_some (find_que (answers r) (node op l r) fs) || waits_for_col r)
      ≡ waits_for_col (plug fs (node op l r))
find_que-infix [] op l r b a =
    rw (is_open-infix que op l r, is_infix-binary op.flag op.bracket b)
      (is_some-if (answers r) (op.type == que) (node op l r, []) none (waits_for_col r))
find_que-infix (f ∷ fs) op l r b a =
    let p = node op l r in
    let next = find_que (not (answers r) && (op.type == col)) (node f.0 f.1 p) fs in
    let skip : (not (answers r) && (op.type == col)) ≡ answers p =
      rw (is_infix-binary op.flag op.bracket b) (and_comm (answers r) (op.type == col)) in
    let same : is_some next ≡ is_some (find_que (answers p) (node f.0 f.1 p) fs) =
      ap (λ s. is_some (find_que s (node f.0 f.1 p) fs)) skip in
    let here : waits_for_col p ≡ ((op.type == que && not (answers r)) || waits_for_col r) =
      rw (is_infix-binary op.flag op.bracket b) refl in
    let step =
      is_some-if (answers r) (op.type == que) (p, f ∷ fs) next (waits_for_col r)
      ∙ ap (λ b. is_some next || b) (sym here)
      ∙ ap (λ b. b || waits_for_col p) same
      ∙ find_que-infix fs f.0 f.1 p a.0 a.1 in
    rw (is_open-infix que op l r, is_open-infix col op l r, is_infix-binary op.flag op.bracket b)
      step

-- What stands at the right of `cur` answers nothing, and waits for nothing.
right-quiet : (r : ExpNode) → IsRight r → (answers r ≡ false) × (waits_for_col r ≡ false)
right-quiet null h = (refl, refl)
right-quiet (node op l r) h =
    let n = not_infix op.flag op.bracket (no_binary (closed h)) in (rw n refl, rw n refl)
  where
    closed : IsRight (node op l r) → (role op ≡ value) ⊎ (role op ≡ unary)
    closed (inl full) = inl full.0
    closed (inr u) = inr u.0

pub find_que-waits_for_col :
    (fs : List Frame) (c : ExpNode)
    → Above fs
    → IsCur fs c
    → is_some (find_que false c fs) ≡ waits_for_col (plug fs c)
find_que-waits_for_col fs null a (is_empty e) =
    subst (λ gs. is_some (find_que false null gs) ≡ waits_for_col (plug gs null)) (sym e) refl
find_que-waits_for_col fs (node op l r) a (at_value e f) =
    let n = not_infix op.flag op.bracket (no_binary (inl f.0)) in
    rw (e, is_open-infix que op l r, n) refl
find_que-waits_for_col fs (node op l r) a (at_unary e u) =
    let n = not_infix op.flag op.bracket (no_binary (inr u.0)) in
    rw (e, is_open-infix que op l r, n) refl
find_que-waits_for_col fs (node op l r) a (at_binary b n right) =
    let (q, w) = right-quiet r right in
    let e = find_que-infix fs op l r b a in
    sym (or_false (is_some (find_que false (node op l r) fs))) ∙ (rw (q, w) at e)
  where
    or_false : (b : Bool) → (b || false) ≡ b
    or_false true = refl
    or_false false = refl

-- The test of czl_opt_collision_detect on `cur` tells the state of the whole expression.
ends_complete-plug :
    (fs : List Frame) (c : ExpNode) → Above fs → ends_complete (plug fs c) ≡ ends_complete c
ends_complete-plug [] c a = refl
ends_complete-plug (f ∷ fs) c a = ends_complete-plug fs (node f.0 f.1 c) a.1 ∙ rw a.0 refl

has_operand-ends_complete :
    (fs : List Frame) (c : ExpNode) → IsCur fs c → has_operand c ≡ ends_complete c
has_operand-ends_complete fs null h = refl
has_operand-ends_complete fs (node op l r) (at_value e f) =
    rw (role-value op.flag op.bracket f.0, f.0) refl
has_operand-ends_complete fs (node op l r) (at_unary e f) =
    let g = role-unary op.flag op.bracket f.0 in rw (g.0, g.1) (or_off (is_null r))
  where
    or_off : (b : Bool) → (not b || false) ≡ not b
    or_off true = refl
    or_off false = refl
has_operand-ends_complete fs (node op l null) (at_binary b n right) =
    let g = role-binary op.flag op.bracket b in rw (g.0, g.1) refl
has_operand-ends_complete fs (node op l (node ro rl rr)) (at_binary b n right) =
    let g = role-binary op.flag op.bracket b in rw (g.0, g.1) (at_right right)
  where
    at_right :
        IsRight (node ro rl rr)
        → (is_operand ro.flag || not (is_null rr)) ≡ ends_complete (node ro rl rr)
    at_right (inl full) = rw full.0 full.1
    at_right (inr u) = let g = role-unary ro.flag ro.bracket u.0 in rw (g.0, g.1) refl

pub has_operand-ends :
    (fs : List Frame) (c : ExpNode)
    → Above fs
    → IsCur fs c
    → has_operand c ≡ ends_complete (plug fs c)
has_operand-ends fs c a h = has_operand-ends_complete fs c h ∙ sym (ends_complete-plug fs c a)

-- The collision test and the code's errors together let those nodes join.
behind_operand :
    (waits : Bool) (op : ExpOp)
    → role op ≡ unary
    → is_postfix op.type ≡ false
    → accepts true waits (collide true op)
      ≡ (op.type == number_not || op.type == add_self || op.type == dec_self)
unfolding binary_opt_table
behind_operand waits op u post =
    let f = role-unary op.flag op.bracket u in
    elim (Bool-cases (op.type == number_not)) [
      | inl minus ↦ rw (f.0, f.1, minus) refl
      | inr a ↦ elim (Bool-cases (op.type == add_self)) [
        | inl add ↦ rw (f.0, f.1, a, add) refl
        | inr b ↦ elim (Bool-cases (op.type == dec_self)) [
          | inl dec ↦ rw (f.0, f.1, a, b, dec) refl
          | inr c ↦ rw (f.0, f.1, a, b, c, post) refl
        ]
      ]
    ]

pub collide-may_join :
    (complete waits : Bool) (op : ExpOp) (l r : ExpNode)
    → IsToken op l r
    → accepts complete waits (collide complete op) ≡ may_join complete waits op
collide-may_join complete waits op l r (token_value f) =
    rw (role-value op.flag op.bracket f.0, f.0) refl
collide-may_join complete waits op l r (token_binary b row) =
    ap (accepts complete waits) (collide-same complete op (inr (IsRow-facts op row).1.0))
    ∙ rw b refl
collide-may_join false waits op l r (token_unary u row) =
    ap (accepts false waits) (collide-same false op (inl refl)) ∙ rw (u, (unary-row op row).0) refl
collide-may_join true waits op l r (token_unary u row) =
    behind_operand waits op u (unary-row op row).0 ∙ rw u refl

-- What the collision test changes stays an operator.
collide-unary :
    (complete : Bool) (op : ExpOp) → role op ≡ unary → role (collide complete op) ≡ value → ⊥
unfolding binary_opt_table
collide-unary false op u e =
    let f = role-unary op.flag op.bracket u in let e' : unary ≡ value = rw (f.0, f.1) at e in cc
collide-unary true op u e =
    let f = role-unary op.flag op.bracket u in
    elim (Bool-cases (op.type == number_not)) [
      | inl minus ↦ let e' : binary ≡ value = rw (f.0, f.1, minus) at e in cc
      | inr a ↦ elim (Bool-cases (op.type == add_self)) [
        | inl add ↦ let e' : unary ≡ value = rw (f.0, f.1, a, add) at e in cc
        | inr b ↦ elim (Bool-cases (op.type == dec_self)) [
          | inl dec ↦ let e' : unary ≡ value = rw (f.0, f.1, a, b, dec) at e in cc
          | inr c ↦ let e' : unary ≡ value = rw (f.0, f.1, a, b, c) at e in cc
        ]
      ]
    ]

pub collide-value :
    (complete : Bool) (op : ExpOp) (l r : ExpNode)
    → IsToken op l r
    → role (collide complete op) ≡ value
    → (role op ≡ value) × (collide complete op ≡ op)
collide-value complete op l r (token_value f) e = (f.0, rw (role-value op.flag op.bracket f.0) refl)
collide-value complete op l r (token_binary b row) e =
    let same = collide-same complete op (inr (IsRow-facts op row).1.0) in
    let e' : role op ≡ value = rw same at e in absurd (no_binary (inl e') b)
collide-value complete op l r (token_unary u row) e = absurd (collide-unary complete op u e)
