-- ===== src/Exp/Shape.antt =====
-- The handles and the nodes that czl_exp_node_insert of code/czl_vm.c meets.
use czl.Prelude.{◌≡◌, ◌⊎◌, refl, Bool, true, false, not, ◌||◌, some, List, [], ◌==◌}
use czl.Exp.{
  Flag, operand, unary_opt, binary_opt, ExpOp, ExpNode, null, node, is_operand, value, unary,
  binary, role, role_of, is_null, find_binary, find_unary, pos_left, pos_right,
}
use czl.Exp.Place.{Frame}
use czl.Exp.Tokens.{is_postfix, postfixes}

-- An operand, or a subtree in brackets that is not an operator alone.
abbrev pub is_full : ExpOp → (r : ExpNode) → Bool
is_full op r = is_operand op.flag || not (is_null r)

abbrev pub Full : ExpOp → (r : ExpNode) → Type 0
Full op r = (role op ≡ value) × (is_full op r ≡ true)

-- The operand of a unary operator, when there is one.
abbrev pub IsSlot : ExpNode → Type 0
IsSlot null = Unit
IsSlot (node op l r) = Full op r

-- A chain of unary operators; those behind an operand are there when it is.
abbrev pub IsUnary : ExpOp → (l r : ExpNode) → Type 0
IsUnary op l r = (role op ≡ unary) × (IsSlot r × (is_null r ≡ true → postfixes (node op l r) ≡ []))

-- The right subtree of the binary operator at `cur`.
abbrev pub IsRight : ExpNode → Type 0
IsRight null = Unit
IsRight (node op l r) = Full op r ⊎ IsUnary op l r

-- The node at `cur`, and what is above it.
pub data IsCur (fs : List Frame) : ExpNode → Type 0 where
  is_empty : fs ≡ [] → IsCur fs null
  at_value : {op : ExpOp} → {l r : ExpNode} → fs ≡ [] → Full op r → IsCur fs (node op l r)
  at_unary : {op : ExpOp} → {l r : ExpNode} → fs ≡ [] → IsUnary op l r → IsCur fs (node op l r)
  at_binary :
      {op : ExpOp}
      → {l r : ExpNode} → role op ≡ binary
      → is_null l ≡ false
      → IsRight r
      → IsCur fs (node op l r)

-- An operator's fields are those of the table's row.
abbrev pub IsRow : ExpOp → Type 0
IsRow op =
    find_binary op.type
    ≡ some (record { macro = op.type; priority = op.priority; associativity = op.associativity })

-- A node as the parser makes it: its fields and its two subtrees.
pub data IsToken : ExpOp → ExpNode → ExpNode → Type 0 where
  token_value : {op : ExpOp} → {l r : ExpNode} → Full op r → IsToken op l r
  token_unary :
      {op : ExpOp}
      → role op ≡ unary
      → find_unary op.type ≡ some (record { macro = op.type; position = op.position })
      → IsToken op null null
  token_binary : {op : ExpOp} → role op ≡ binary → IsRow op → IsToken op null null

-- A node after the collision test; `complete` is whether the expression before it is.
pub data Fits (complete : Bool) : ExpOp → ExpNode → ExpNode → Type 0 where
  fits_value : {op : ExpOp} → {l r : ExpNode} → Full op r → Fits complete op l r
  fits_binary : {op : ExpOp} → role op ≡ binary → IsRow op → Fits complete op null null
  fits_prefix :
      {op : ExpOp}
      → role op ≡ unary
      → complete ≡ false
      → is_postfix op.type ≡ false
      → (op.position == pos_right) ≡ false
      → Fits complete op null null
  fits_postfix :
      {op : ExpOp}
      → role op ≡ unary
      → complete ≡ true
      → is_postfix op.type ≡ true
      → (op.position == pos_right) ≡ false
      → (op.position == pos_left) ≡ false
      → Fits complete op null null
  fits_wrong :
      {op : ExpOp}
      → role op ≡ unary
      → complete ≡ true
      → is_postfix op.type ≡ false
      → (op.position == pos_left) ≡ true
      → Fits complete op null null

pub role-value : (f : Flag) (b : Bool) → role_of f b ≡ value → (is_operand f || b) ≡ true
role-value operand b e = refl
role-value unary_opt true e = refl
role-value unary_opt false e = absurd cc
role-value binary_opt true e = refl
role-value binary_opt false e = absurd cc

pub role-unary : (f : Flag) (b : Bool) → role_of f b ≡ unary → (f ≡ unary_opt) × (b ≡ false)
role-unary operand b e = absurd cc
role-unary unary_opt true e = absurd cc
role-unary unary_opt false e = (refl, refl)
role-unary binary_opt true e = absurd cc
role-unary binary_opt false e = absurd cc

pub role-binary : (f : Flag) (b : Bool) → role_of f b ≡ binary → (f ≡ binary_opt) × (b ≡ false)
role-binary operand b e = absurd cc
role-binary unary_opt true e = absurd cc
role-binary unary_opt false e = absurd cc
role-binary binary_opt true e = absurd cc
role-binary binary_opt false e = (refl, refl)
