-- ===== src/Exp/Collide.antt =====
-- The tables of operators of code/czl_vm.c, and what czl_opt_collision_detect makes of a node.
use czl.Prelude.{
  ℕ, ◌≡◌, ◌⊎◌, inl, inr, refl, sym, ap, subst, Bool-cases, Bool, true, false, not, ◌&&◌, ◌||◌, some,
  List, [], ◌∷◌, ◌==◌, ==_iff, if◌then◌else◌, All, ltb,
}
use mathlib.Core.Option.{some-injective}
use czl.Exp.{
  binary_opt, ExpOp, ExpNode, null, is_value, unary, role, role_of, BinaryOperator, UnaryOperator,
  find_unary, find_row, binary_opt_table, unary_opt_table, number_not, add_self, dec_self, self_add,
  self_dec, dec, que, col, pos_left, pos_right, pos_lr, right_to_left, left_to_right,
}
use czl.Exp.Place.{collide, opt_unary_to_binary}
use czl.Exp.Tokens.{is_postfix}
use czl.Exp.Shape.{
  IsRow, IsToken, token_value, token_unary, token_binary, Fits, fits_value, fits_binary,
  fits_prefix, fits_postfix, fits_wrong, role-value, role-unary,
}

-- What every row of a table satisfies, one that the loop finds does.
find_row-All :
    {A : Type 0}
    → (P : A → Type 0) (key : A → ℕ) (macro : ℕ) (xs : List A) (x : A) → All P xs
    → find_row key macro xs ≡ some x
    → P x
find_row-All P key macro [] x a e = absurd cc
find_row-All P key macro (y ∷ xs) x a e = elim (Bool-cases (key y == macro)) [
  | inl hit ↦ let same : some y ≡ some x = rw hit at e in subst P (some-injective y x same) a.0
  | inr miss ↦
      let later : find_row key macro xs ≡ some x = rw miss at e in
      find_row-All P key macro xs x a.1 later
]

abbrev UnaryKind : UnaryOperator → Type 0
UnaryKind x =
    (is_postfix x.macro ≡ false)
    × (((x.position ≡ pos_left) × ((x.macro == add_self || x.macro == dec_self) ≡ false))
        ⊎ ((x.position ≡ pos_lr) × ((x.macro ≡ add_self) ⊎ (x.macro ≡ dec_self))))

unary_opt_table-UnaryKind : All UnaryKind unary_opt_table
unfolding unary_opt_table
unary_opt_table-UnaryKind = (
  (refl, inl (refl, refl)),
  (
    (refl, inl (refl, refl)),
    (
      (refl, inl (refl, refl)),
      (
        (refl, inr (refl, inl refl)),
        (
          (refl, inr (refl, inr refl)),
          ((refl, inl (refl, refl)), ((refl, inl (refl, refl)), ((refl, inl (refl, refl)), tt))),
        ),
      ),
    ),
  ),
)

-- The assignments and `?:` are read from the right, the other operators from the left.
abbrev pub side : ℕ → ℕ
side priority = if ltb priority 6 then right_to_left else left_to_right

abbrev pub is_marked : ℕ → Bool
is_marked macro = macro == number_not || macro == add_self || macro == dec_self

abbrev binary_kind : BinaryOperator → Bool
binary_kind x =
    (x.associativity == side x.priority && not (is_marked x.macro))
    && (not (x.macro == que || x.macro == col) || x.priority == 5)

abbrev BinaryKind : BinaryOperator → Type 0
BinaryKind x = binary_kind x ≡ true

binary_opt_table-BinaryKind : All BinaryKind binary_opt_table
unfolding binary_opt_table
binary_opt_table-BinaryKind = (
  refl,
  (
    refl,
    (
      refl,
      (
        refl,
        (
          refl,
          (
            refl,
            (
              refl,
              (
                refl,
                (
                  refl,
                  (
                    refl,
                    (
                      refl,
                      (
                        refl,
                        (
                          refl,
                          (
                            refl,
                            (
                              refl,
                              (
                                refl,
                                (
                                  refl,
                                  (
                                    refl,
                                    (
                                      refl,
                                      (
                                        refl,
                                        (
                                          refl,
                                          (
                                            refl,
                                            (
                                              refl,
                                              (
                                                refl,
                                                (
                                                  refl,
                                                  (
                                                    refl,
                                                    (
                                                      refl,
                                                      (
                                                        refl,
                                                        (
                                                          refl,
                                                          (
                                                            refl,
                                                            (
                                                            refl,
                                                            (
                                                            refl,
                                                            (
                                                            refl,
                                                            (refl, (refl, (refl, (refl, tt)))),
                                                            ),
                                                            ),
                                                            ),
                                                          ),
                                                        ),
                                                      ),
                                                    ),
                                                  ),
                                                ),
                                              ),
                                            ),
                                          ),
                                        ),
                                      ),
                                    ),
                                  ),
                                ),
                              ),
                            ),
                          ),
                        ),
                      ),
                    ),
                  ),
                ),
              ),
            ),
          ),
        ),
      ),
    ),
  ),
)

-- A row of the table is no operator that the collision test looks for.
pub IsRow-facts :
    (op : ExpOp)
    → IsRow op
    → (op.associativity ≡ side op.priority)
      × ((is_marked op.type ≡ false)
          × ((op.type == que || op.type == col) ≡ true → op.priority ≡ 5))
IsRow-facts op e =
    let k =
      find_row-All BinaryKind (λ x. x.macro) op.type binary_opt_table
        (record { macro = op.type; priority = op.priority; associativity = op.associativity })
        binary_opt_table-BinaryKind e in
    let f =
      split (op.associativity == side op.priority) (is_marked op.type)
        (op.type == que || op.type == col) (op.priority == 5) k in
    (
      (==_iff op.associativity (side op.priority)).0 f.0,
      (f.1.0, λ h. (==_iff op.priority 5).0 (f.1.1 h)),
    )
  where
    split :
        (a b c d : Bool)
        → ((a && not b) && (not c || d)) ≡ true
        → (a ≡ true) × ((b ≡ false) × (c ≡ true → d ≡ true))
    split true true c d e = absurd cc
    split true false true d e = (refl, (refl, λ h. e))
    split true false false d e = (refl, (refl, λ h. absurd cc))
    split false b c d e = absurd cc

kept : (v : Bool) (op x : ExpOp) → (if v || true then op else x) ≡ op
kept true op x = refl
kept false op x = refl

pub collide-same :
    (complete : Bool) (op : ExpOp)
    → (complete ≡ false) ⊎ (is_marked op.type ≡ false)
    → collide complete op ≡ op
collide-same complete op (inl e) = rw e (kept (is_value op) op _)
collide-same complete op (inr e) =
    unmarked (is_value op || not complete) (op.type == number_not) (op.type == add_self)
      (op.type == dec_self) e
  where
    unmarked :
        (v a b c : Bool)
        → ((a || b) || c) ≡ false
        → (if v
            then op
            else if a
            then opt_unary_to_binary dec op
            else if b
            then record op { type = self_add }
            else if c
            then record op { type = self_dec }
            else op)
          ≡ op
    unmarked true a b c e = refl
    unmarked false true b c e = absurd cc
    unmarked false false true c e = absurd cc
    unmarked false false false true e = absurd cc
    unmarked false false false false e = refl

abbrev self_opt : ℕ → ExpOp → ExpOp
self_opt macro op = record op { type = macro }

dec-Fits : (op : ExpOp) → op.bracket ≡ false → Fits true (opt_unary_to_binary dec op) null null
unfolding binary_opt_table
dec-Fits op e = fits_binary (ap (role_of binary_opt) e) refl

not_right : (p : ℕ) → (p ≡ pos_left) ⊎ (p ≡ pos_lr) → (p == pos_right) ≡ false
not_right p (inl e) = rw e refl
not_right p (inr e) = rw e refl

-- A unary operator that stands behind an operand.
unary-Fits :
    (op : ExpOp)
    → role op ≡ unary
    → UnaryKind (record { macro = op.type; position = op.position })
    → Fits true (collide true op) null null
unary-Fits op u (post, inl (left, other)) = elim (Bool-cases (op.type == number_not)) [
  | inl minus ↦
      let f = role-unary op.flag op.bracket u in
      let e : collide true op ≡ opt_unary_to_binary dec op = rw (f.0, f.1, minus) refl in
      subst (λ o. Fits true o null null) (sym e) (dec-Fits op f.1)
  | inr no_minus ↦
      subst (λ o. Fits true o null null)
        (sym (
          collide-same true op (
            inr (
              unmarked (op.type == number_not) (op.type == add_self) (op.type == dec_self) no_minus
                other))))
        (fits_wrong u refl post (rw left refl))
]
  where
    unmarked : (a b c : Bool) → a ≡ false → (b || c) ≡ false → ((a || b) || c) ≡ false
    unmarked false b c e f = f
    unmarked true b c e f = absurd cc
unary-Fits op u (post, inr (lr, inl e)) =
    let f = role-unary op.flag op.bracket u in
    let c : collide true op ≡ self_opt self_add op = rw (f.0, f.1, e) refl in
    subst (λ o. Fits true o null null) (sym c)
      (fits_postfix {op = self_opt self_add op} u refl refl (rw lr refl) (rw lr refl))
unary-Fits op u (post, inr (lr, inr e)) =
    let f = role-unary op.flag op.bracket u in
    let c : collide true op ≡ self_opt self_dec op = rw (f.0, f.1, e) refl in
    subst (λ o. Fits true o null null) (sym c)
      (fits_postfix {op = self_opt self_dec op} u refl refl (rw lr refl) (rw lr refl))

pub unary-row :
    (op : ExpOp)
    → find_unary op.type ≡ some (record { macro = op.type; position = op.position })
    → UnaryKind (record { macro = op.type; position = op.position })
unary-row op row =
    find_row-All UnaryKind (λ x. x.macro) op.type unary_opt_table
      (record { macro = op.type; position = op.position }) unary_opt_table-UnaryKind row

-- A unary operator in front of its operand.
prefix-Fits :
    (op : ExpOp)
    → role op ≡ unary
    → UnaryKind (record { macro = op.type; position = op.position })
    → Fits false op null null
prefix-Fits op u (post, inl (left, other)) =
    fits_prefix u refl post (not_right op.position (inl left))
prefix-Fits op u (post, inr (lr, other)) = fits_prefix u refl post (not_right op.position (inr lr))

-- The collision test leaves a node that joins, or an operator in front of no operand.
pub collide-Fits :
    (complete : Bool) (op : ExpOp) (l r : ExpNode)
    → IsToken op l r
    → Fits complete (collide complete op) l r
collide-Fits complete op l r (token_value f) = rw (role-value op.flag op.bracket f.0) (fits_value f)
collide-Fits complete op l r (token_binary b row) =
    subst (λ o. Fits complete o null null)
      (sym (collide-same complete op (inr (IsRow-facts op row).1.0))) (fits_binary b row)
collide-Fits false op l r (token_unary u row) =
    subst (λ o. Fits false o null null) (sym (collide-same false op (inl refl)))
      (prefix-Fits op u (unary-row op row))
collide-Fits true op l r (token_unary u row) = unary-Fits op u (unary-row op row)
