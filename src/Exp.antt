-- ===== src/Exp.antt =====
-- The expressions of scripts, from operators to instructions: code/czl_vm.c. This file has the
-- nodes of an expression's tree and the tables of operators (code/czl_vm.h, code/czl_vm.c); the
-- operators' names, which only the reading of the text uses, are not modelled. A node that is NULL
-- is `null`; a node's `parent` is the node that it stands in.
pub mod Place
pub mod Insert
pub mod Tokens
pub mod Shape
pub mod Collide
pub mod Places
pub mod Chains
pub mod Join
pub mod Behind
pub mod After
pub mod Branches
pub mod State
pub mod Accept
pub mod Order
pub mod Precedence
pub mod Slots
pub mod Binding
pub mod Stack
pub mod Complete
pub mod Counts
pub mod Orders
pub mod Emits
pub mod Registers
pub mod Allocate
pub mod Compile
pub mod Value
pub mod Correct
mod Tests
use czl.Prelude.{
  ℕ, Bool, true, false, not, ◌&&◌, ◌||◌, Option, none, some, List, [], ◌∷◌, ◌==◌, if◌then◌else◌,
}

pub data Flag : Type 0 where
  operand : Flag
  unary_opt : Flag
  binary_opt : Flag

-- A node's own fields; the member `op` of the structure is both `obj` and the operator's fields.
pub record ExpOp : Type 0 where
  pub flag : Flag
  pub type : ℕ
  pub bracket : Bool
  pub position : ℕ
  pub priority : ℕ
  pub associativity : ℕ
  pub obj : ℕ

pub data ExpNode : Type 0 where
  null : ExpNode
  node : ExpOp → ExpNode → ExpNode → ExpNode

-- The operators, by their number in czl_op_enum.
abbrev pub number_not : ℕ
number_not = 0

abbrev pub self_add : ℕ
self_add = 3

abbrev pub self_dec : ℕ
self_dec = 4

abbrev pub ref_var : ℕ
ref_var = 5

abbrev pub swap_opt : ℕ
swap_opt = 7

abbrev pub ass : ℕ
ass = 8

abbrev pub add : ℕ
add = 30

abbrev pub dec : ℕ
dec = 31

abbrev pub mul : ℕ
mul = 32

abbrev pub que : ℕ
que = 40

abbrev pub col : ℕ
col = 41

abbrev pub add_self : ℕ
add_self = 42

abbrev pub dec_self : ℕ
dec_self = 43

abbrev pub or_or : ℕ
or_or = 54

abbrev pub and_and : ℕ
and_and = 55

-- czl_unary_opt_pos_enum and czl_binary_opt_ass_enum.
abbrev pub pos_left : ℕ
pos_left = 0

abbrev pub pos_right : ℕ
pos_right = 1

abbrev pub pos_lr : ℕ
pos_lr = 2

abbrev pub left_to_right : ℕ
left_to_right = 0

abbrev pub right_to_left : ℕ
right_to_left = 1

pub record UnaryOperator : Type 0 where
  pub macro : ℕ
  pub position : ℕ

pub record BinaryOperator : Type 0 where
  pub macro : ℕ
  pub priority : ℕ
  pub associativity : ℕ

abbrev unary_row : ℕ → ℕ → UnaryOperator
unary_row macro position = record { macro = macro; position = position }

abbrev binary_row : ℕ → ℕ → ℕ → BinaryOperator
binary_row macro priority associativity = record {
  macro = macro;
  priority = priority;
  associativity = associativity;
}

unfoldable pub unary_opt_table : List UnaryOperator
unary_opt_table =
    unary_row 1 pos_left
    ∷ unary_row 2 pos_left
    ∷ unary_row ref_var pos_left
    ∷ unary_row add_self pos_lr
    ∷ unary_row dec_self pos_lr
    ∷ unary_row number_not pos_left
    ∷ unary_row 6 pos_left
    ∷ unary_row 44 pos_left
    ∷ []

unfoldable pub binary_opt_table : List BinaryOperator
binary_opt_table =
    binary_row 14 4 right_to_left
    ∷ binary_row 15 4 right_to_left
    ∷ binary_row 16 4 right_to_left
    ∷ binary_row 18 4 right_to_left
    ∷ binary_row 17 4 right_to_left
    ∷ binary_row 10 4 right_to_left
    ∷ binary_row 9 4 right_to_left
    ∷ binary_row 13 4 right_to_left
    ∷ binary_row 12 4 right_to_left
    ∷ binary_row 11 4 right_to_left
    ∷ binary_row swap_opt 4 right_to_left
    ∷ binary_row or_or 6 left_to_right
    ∷ binary_row and_and 7 left_to_right
    ∷ binary_row 26 6 left_to_right
    ∷ binary_row 39 11 left_to_right
    ∷ binary_row 38 11 left_to_right
    ∷ binary_row 27 8 left_to_right
    ∷ binary_row 28 8 left_to_right
    ∷ binary_row 29 8 left_to_right
    ∷ binary_row 25 8 left_to_right
    ∷ binary_row 22 8 left_to_right
    ∷ binary_row 23 8 left_to_right
    ∷ binary_row 24 8 left_to_right
    ∷ binary_row 20 8 left_to_right
    ∷ binary_row 21 8 left_to_right
    ∷ binary_row 19 8 left_to_right
    ∷ binary_row ass 4 right_to_left
    ∷ binary_row 35 9 left_to_right
    ∷ binary_row 36 10 left_to_right
    ∷ binary_row 37 10 left_to_right
    ∷ binary_row add 12 left_to_right
    ∷ binary_row dec 12 left_to_right
    ∷ binary_row mul 13 left_to_right
    ∷ binary_row 33 13 left_to_right
    ∷ binary_row 34 13 left_to_right
    ∷ binary_row que 5 right_to_left
    ∷ binary_row col 5 right_to_left
    ∷ []

-- The loops that look an operator up by its number.
abbrev pub find_row : {A : Type 0} → (A → ℕ) → ℕ → List A → Option A
find_row key macro [] = none
find_row key macro (x ∷ xs) =
    let rest = find_row key macro xs in if key x == macro then some x else rest

abbrev pub find_binary : ℕ → Option BinaryOperator
find_binary macro = find_row (λ x. x.macro) macro binary_opt_table

abbrev pub find_unary : ℕ → Option UnaryOperator
find_unary macro = find_row (λ x. x.macro) macro unary_opt_table

-- Tests on nodes.
abbrev pub is_operand : Flag → Bool
is_operand operand = true
is_operand unary_opt = false
is_operand binary_opt = false

abbrev pub is_binary : Flag → Bool
is_binary operand = false
is_binary unary_opt = false
is_binary binary_opt = true

abbrev pub is_unary : Flag → Bool
is_unary operand = false
is_unary unary_opt = true
is_unary binary_opt = false

-- `CZL_OPERAND == node->flag || CZL_BRACKET_YES == node->bracket`.
abbrev pub is_value : ExpOp → Bool
is_value op = is_operand op.flag || op.bracket

-- What the code takes a node for.
pub data Role : Type 0 where
  value : Role
  unary : Role
  binary : Role

abbrev pub role_of : Flag → Bool → Role
role_of operand bracket = value
role_of unary_opt true = value
role_of unary_opt false = unary
role_of binary_opt true = value
role_of binary_opt false = binary

abbrev pub role : ExpOp → Role
role op = role_of op.flag op.bracket

abbrev pub is_null : ExpNode → Bool
is_null null = true
is_null (node op l r) = false

abbrev pub left_of : ExpNode → ExpNode
left_of null = null
left_of (node op l r) = l

abbrev pub right_of : ExpNode → ExpNode
right_of null = null
right_of (node op l r) = r

abbrev pub set_right : ExpNode → ExpNode → ExpNode
set_right x null = null
set_right x (node op l r) = node op l x

-- The flag is that of an operand.
abbrev pub holds_operand : ExpNode → Bool
holds_operand null = false
holds_operand (node op l r) = is_operand op.flag

-- A node that stands alone.
abbrev pub leaf : ExpOp → ExpNode
leaf op = node op null null
