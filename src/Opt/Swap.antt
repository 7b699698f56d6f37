-- ===== src/Opt/Swap.antt =====
-- czl_swap_cac and czl_swap_cac_num_type of code/czl_opt.c (the operator `><`).
use czl.Prelude.{
  ◌≡◌, ◌⊎◌, refl, Bool, true, false, ◌&&◌, ◌||◌, Option, none, some, ◌==◌, if◌then◌else◌, arith,
  Bool-cases, inl, inr,
}
use czl.Opt.Var.{OprType, int, float, string, obj, nil, Var, Fpu, type_code, obj_code}

-- `ot` is the type that the variable is declared with, CZL_NIL if none.
abbrev pub untyped : Var → Bool
untyped v = type_code v.ot == obj_code nil

abbrev pub is_scalar : OprType → Bool
is_scalar int = true
is_scalar float = true
is_scalar string = true
is_scalar (obj o) = false

-- An integer and a float of which at least one is declared: the values go over by conversion, and
-- which type changes depends on which of the two is not declared. What is written is the word that
-- the named member of the union stores.
abbrev swap_types : Fpu → OprType → OprType → Var → Var → Option (Var × Var)
swap_types F int int l r = none
swap_types F int float l r =
    if untyped l
    then some (record l { type = float; val = F.to_long r.val }, record r { val = F.of_long l.val })
    else if untyped r
    then some (record l { val = F.to_long r.val }, record r { type = int; val = l.val })
    else some (record l { val = F.to_long r.val }, record r { val = F.of_long l.val })
swap_types F int string l r = none
swap_types F int (obj o) l r = none
swap_types F float int l r =
    if untyped l
    then some (record l { type = int; val = r.val }, record r { val = F.to_long l.val })
    else if untyped r
    then some (record l { val = F.of_long r.val }, record r { type = float; val = l.val })
    else some (record l { val = F.to_long r.val }, record r { val = F.of_long l.val })
swap_types F float float l r = none
swap_types F float string l r = none
swap_types F float (obj o) l r = none
swap_types F string t l r = none
swap_types F (obj o) t l r = none

unfoldable pub swap_cac_num_type : Fpu → Var → Var → Option (Var × Var)
swap_cac_num_type F l r = swap_types F l.type r.type l r

abbrev pub swaps_freely : Var → Var → Bool
swaps_freely l r = type_code l.type == type_code r.type || untyped l && untyped r

unfoldable pub swap_cac : Fpu → Var → Var → Option (Var × Var)
swap_cac F l r =
    if swaps_freely l r
    then if is_scalar l.type && is_scalar r.type
      then some (record l { type = r.type; val = r.val }, record r { type = l.type; val = l.val })
      else none
    else swap_cac_num_type F l r

-- Where the types agree or neither operand is declared, `><` refuses when an operand is not an
-- integer, a float or a text; else it exchanges the types and the values, leaves the operands'
-- declarations and qualities, and, done again, puts back what there was.
pub swap_cac-swap_cac :
    (F : Fpu) (l r : Var)
    → swaps_freely l r ≡ true
    → (((is_scalar l.type && is_scalar r.type) ≡ false) × (swap_cac F l r ≡ none))
      ⊎ ((l' : Var) × (r' : Var) × (swap_cac F l r ≡ some (l', r'))
          × ((l'.type ≡ r.type) × (l'.val ≡ r.val) × (l'.ot ≡ l.ot) × (l'.quality ≡ l.quality))
          × ((r'.type ≡ l.type) × (r'.val ≡ l.val) × (r'.ot ≡ r.ot) × (r'.quality ≡ r.quality))
          × (swap_cac F l' r' ≡ some (l, r)))
unfolding swap_cac
swap_cac-swap_cac F l r free = elim (Bool-cases (is_scalar l.type && is_scalar r.type)) [
  | inr e ↦ inl (e, rw (free, e) refl)
  | inl e ↦
      let l' = record l { type = r.type; val = r.val } in
      let r' = record r { type = l.type; val = l.val } in
      let free' : swaps_freely l' r' ≡ true = ground arith in
      let e' : (is_scalar r.type && is_scalar l.type) ≡ true = ground arith in
      inr (
        l',
        r',
        rw (free, e) refl,
        (refl, refl, refl, refl),
        (refl, refl, refl, refl),
        rw (free', e') refl,
      )
]
