-- ===== src/Exp/Place.antt =====
-- Where the next operator of an expression joins its tree: what czl_exp_node_insert of
-- code/czl_vm.c calls. The handle's `cur` stands on the right edge of the tree: it is kept with the nodes above
-- it, each with its left subtree, from its parent to the root.
use czl.Prelude.{
  ℕ, ◌+◌, ◌-◌, Bool, false, not, ◌&&◌, ◌||◌, Option, none, some, List, [], ◌∷◌, ◌==◌, leb, ltb,
  if◌then◌else◌,
}
use czl.Exp.{
  ExpOp, ExpNode, null, node, BinaryOperator, find_binary, is_operand, is_binary, is_unary,
  is_value, is_null, left_of, right_of, set_right, holds_operand, binary_opt, number_not, self_add,
  self_dec, dec, que, col, add_self, dec_self, pos_right, right_to_left,
}

abbrev pub Frame : Type 0
Frame = ExpOp × ExpNode

-- czl_exp_handle, with what the insertion changes of `gp` and `gp->tmp`.
pub record ExpHandle : Type 0 where
  pub above : List Frame
  pub cur : ExpNode
  pub mtoc : ℕ
  pub colon_flag : ℕ
  pub reg_flag : ℕ
  pub reg_sign : ℕ
  pub reg_cnt : ℕ

-- `h->root`.
abbrev pub plug : List Frame → ExpNode → ExpNode
plug [] p = p
plug (f ∷ fs) p = plug fs (node f.0 f.1 p)

abbrev pub root : ExpHandle → ExpNode
root h = plug h.above h.cur

-- czl_binary_opt_node_insert_find: the nodes that are skipped, and the first that stops the search.
abbrev pub stops : ℕ → ExpNode → Bool
stops priority null = false
stops priority (node op l r) =
    not (is_operand op.flag || is_unary op.flag || op.bracket) && leb op.priority priority

abbrev pub climb : ℕ → ExpNode → List Frame → Option (ExpNode × List Frame)
climb priority p [] = if stops priority p then some (p, []) else none
climb priority p (f ∷ fs) =
    let rest = climb priority (node f.0 f.1 p) fs in
    if stops priority p then some (p, f ∷ fs) else rest

abbrev pub insert_find : ℕ → ExpNode → List Frame → Option (ExpNode × List Frame)
insert_find priority cur fs = if is_null (left_of cur) then none else climb priority cur fs

-- czl_three_opt_match: the search for the nearest `?`, that skips the parent of each `:` it meets.
abbrev pub is_open : ℕ → ExpNode → Bool
is_open type null = false
is_open type (node op l r) =
    not (is_operand op.flag || is_unary op.flag || op.bracket) && op.type == type

abbrev pub find_que : (skip : Bool) → ExpNode → List Frame → Option (ExpNode × List Frame)
find_que skip p [] = if not skip && is_open que p then some (p, []) else none
find_que skip p (f ∷ fs) =
    let rest = find_que (not skip && is_open col p) (node f.0 f.1 p) fs in
    if not skip && is_open que p then some (p, f ∷ fs) else rest

-- An operator takes over the right subtree of `p`, and becomes its right child.
abbrev pub under : ExpNode → ExpNode → List Frame → ExpHandle → ExpHandle
under n null fs h = h
under null (node po pl pr) fs h = h
under (node op l r) (node po pl pr) fs h = record h { above = (po, pl) ∷ fs; cur = node op pr r }

-- An operator takes over `p` in its place.
abbrev pub over : ExpNode → ExpNode → List Frame → ExpHandle → ExpHandle
over null p fs h = h
over (node op l r) p fs h = record h { above = fs; cur = node op p r }

abbrev pub join_que : ExpNode → ExpHandle → Option (ExpNode × List Frame) → Option ExpHandle
join_que n h none = none
join_que n h (some (p, fs)) =
    let h' = under n p fs h in some (record h' { mtoc = h.mtoc - 1; colon_flag = h.colon_flag - 1 })

abbrev pub three_opt_match : ExpNode → ExpHandle → Option ExpHandle
three_opt_match n h = join_que n h (find_que false h.cur h.above)

-- czl_binary_opt_node_insert: the place of an operator that is no `:`.
abbrev pub priority_of : ExpNode → ℕ
priority_of null = 0
priority_of (node op l r) = op.priority

abbrev pub place_operator : ExpOp → ExpNode → Option (ExpNode × List Frame) → ExpHandle → ExpHandle
place_operator op n none h = over n (root h) [] h
place_operator op n (some (p, fs)) h =
    if ltb (priority_of p) op.priority
    then under n p fs h
    else if op.associativity == right_to_left
    then under n p fs h
    else over n p fs h

abbrev pub count_que : ExpOp → ExpHandle → ExpHandle
count_que op h =
    if op.type == que then record h { mtoc = h.mtoc + 1; colon_flag = h.colon_flag + 1 } else h

abbrev pub binary_opt_node_insert : ExpOp → ExpNode → ExpHandle → Option ExpHandle
binary_opt_node_insert op n h =
    if op.type == col
    then three_opt_match n h
    else some (place_operator op n (insert_find op.priority h.cur h.above) (count_que op h))

-- czl_unary_opt_node_insert, for the subtree of `insert`.
abbrev pub append_left : ExpNode → ExpNode → ExpNode
append_left n null = n
append_left n (node op l r) = node op (append_left n l) r

abbrev pub before : ExpNode → ExpNode → ExpNode
before null insert = insert
before (node op l r) insert =
    node op (set_right null insert) (if is_null (right_of insert) then r else right_of insert)

abbrev pub unary_opt_node_insert : ExpOp → ExpNode → ExpNode → ExpNode
unary_opt_node_insert op n insert =
    if op.position == pos_right then append_left n insert else before n insert

-- czl_opt_unary_to_binary and czl_opt_collision_detect.
abbrev pub to_binary : ExpOp → Option BinaryOperator → ExpOp
to_binary op none = op
to_binary op (some x) = record op {
  flag = binary_opt;
  type = x.macro;
  priority = x.priority;
  associativity = x.associativity;
}

abbrev pub opt_unary_to_binary : ℕ → ExpOp → ExpOp
opt_unary_to_binary macro op = to_binary op (find_binary macro)

abbrev pub has_operand : ExpNode → Bool
has_operand null = false
has_operand (node op l r) =
    is_value op
    || is_unary op.flag && not (is_null r)
    || is_binary op.flag && not (is_null r) && (holds_operand r || not (is_null (right_of r)))

-- The test on `cur`, and then the switch.
abbrev pub collide : Bool → ExpOp → ExpOp
collide complete op =
    if is_value op || not complete
    then op
    else if op.type == number_not
    then opt_unary_to_binary dec op
    else if op.type == add_self
    then record op { type = self_add }
    else if op.type == dec_self
    then record op { type = self_dec }
    else op

abbrev pub opt_collision_detect : ExpOp → ExpNode → ExpOp
opt_collision_detect op cur = collide (has_operand cur) op
