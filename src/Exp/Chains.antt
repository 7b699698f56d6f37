-- ===== src/Exp/Chains.antt =====
-- What joins a chain of unary operators: czl_unary_opt_node_insert of code/czl_vm.c.
use czl.Prelude.{
  ◌≡◌, refl, sym, ap, ap₂, ◌∙◌, true, false, List, [], ◌∷◌, ◌++◌, append-nil, append_assoc,
}
use czl.Exp.{ExpOp, ExpNode, null, node, leaf, is_null, role, value, unary}
use czl.Exp.Tokens.{
  tokens, prefixes, postfixes, is_postfix, prefixes-prefix, prefixes-postfix, tokens-unary,
  tokens-value,
}
use czl.Exp.Shape.{Full, IsUnary}

-- A value that joins a unary operator without one.
pub join_value :
    (co : ExpOp) (cl : ExpNode) (op : ExpOp) (l r : ExpNode)
    → IsUnary co cl null
    → role op ≡ value
    → tokens (node co cl (node op l r)) ≡ tokens (node co cl null) ++ node op l r ∷ []
join_value co cl op l r u v =
    tokens-unary co cl (node op l r) u.0
    ∙ ap (λ ts. prefixes (node co cl null) ++ ts ++ postfixes (node co cl null))
        (tokens-value op l r v)
    ∙ ends (prefixes (node co cl null)) (postfixes (node co cl null)) (u.1.1 refl)
    ∙ ap (λ ts. ts ++ node op l r ∷ []) (sym (tokens-unary co cl null u.0))
  where
    ends :
        (xs ys : List ExpNode)
        → ys ≡ []
        → (xs ++ node op l r ∷ []) ++ ys ≡ ((xs ++ []) ++ ys) ++ node op l r ∷ []
    ends xs ys e = rw e (simp append_assoc)

-- A unary operator that joins others, in front of their operand or behind it.
pub join_prefix :
    (co : ExpOp) (cl : ExpNode) (op : ExpOp)
    → IsUnary co cl null
    → role op ≡ unary
    → is_postfix op.type ≡ false
    → tokens (node op (node co cl null) null) ≡ tokens (node co cl null) ++ leaf op ∷ []
join_prefix co cl op u e p =
    let c = prefixes-prefix op (node co cl null) null p in
    tokens-unary op (node co cl null) null e
    ∙ ap₂ (λ xs ys. (xs ++ []) ++ ys) c.0 c.1
    ∙ ends (prefixes (node co cl null)) (postfixes (node co cl null)) (u.1.1 refl)
    ∙ ap (λ ts. ts ++ leaf op ∷ []) (sym (tokens-unary co cl null u.0))
  where
    ends :
        (xs ys : List ExpNode)
        → ys ≡ []
        → ((xs ++ leaf op ∷ []) ++ []) ++ (ys ++ []) ≡ ((xs ++ []) ++ ys) ++ leaf op ∷ []
    ends xs ys f = rw f (simp (append_assoc, append-nil))

pub join_postfix :
    (co : ExpOp) (cl cr : ExpNode) (op : ExpOp)
    → IsUnary co cl cr
    → role op ≡ unary
    → is_postfix op.type ≡ true
    → tokens (node op (node co cl null) cr) ≡ tokens (node co cl cr) ++ leaf op ∷ []
join_postfix co cl cr op u e p =
    let c = prefixes-postfix op (node co cl null) cr p in
    tokens-unary op (node co cl null) cr e
    ∙ ap₂ (λ xs ys. (xs ++ tokens cr) ++ ys) c.0 c.1
    ∙ ends (prefixes (node co cl null)) (tokens cr) (postfixes (node co cl null))
    ∙ ap (λ ts. ts ++ leaf op ∷ []) (sym (tokens-unary co cl cr u.0))
  where
    ends :
        (xs ts ys : List ExpNode)
        → ((xs ++ []) ++ ts) ++ (ys ++ leaf op ∷ []) ≡ ((xs ++ ts) ++ ys) ++ leaf op ∷ []
    ends xs ts ys = simp (append_assoc, append-nil)

-- A postfix operator behind a value.
pub join_behind :
    (co : ExpOp) (cl cr : ExpNode) (op : ExpOp)
    → role op ≡ unary
    → is_postfix op.type ≡ true
    → tokens (node op null (node co cl cr)) ≡ tokens (node co cl cr) ++ leaf op ∷ []
join_behind co cl cr op e p =
    let c = prefixes-postfix op null (node co cl cr) p in
    tokens-unary op null (node co cl cr) e
    ∙ ap₂ (λ xs ys. (xs ++ tokens (node co cl cr)) ++ ys) c.0 c.1

-- A prefix operator alone.
pub join_alone :
    (op : ExpOp) → role op ≡ unary → is_postfix op.type ≡ false → tokens (leaf op) ≡ leaf op ∷ []
join_alone op e p =
    let c = prefixes-prefix op null null p in
    tokens-unary op null null e ∙ ap₂ (λ xs ys. (xs ++ []) ++ ys) c.0 c.1

-- The chains that these make.
pub IsUnary-value :
    (co : ExpOp) (cl : ExpNode) (op : ExpOp) (l r : ExpNode)
    → IsUnary co cl null
    → Full op r
    → IsUnary co cl (node op l r)
IsUnary-value co cl op l r u f = (u.0, (f, λ e. absurd cc))

pub IsUnary-prefix :
    (co : ExpOp) (cl : ExpNode) (op : ExpOp)
    → IsUnary co cl null
    → role op ≡ unary
    → is_postfix op.type ≡ false
    → IsUnary op (node co cl null) null
IsUnary-prefix co cl op u e p = (
  e,
  (tt, λ n. (prefixes-prefix op (node co cl null) null p).1 ∙ ap (λ ys. ys ++ []) (u.1.1 refl)),
)

pub IsUnary-postfix :
    (co : ExpOp) (cl cr : ExpNode) (op : ExpOp)
    → IsUnary co cl cr
    → is_null cr ≡ false
    → role op ≡ unary
    → IsUnary op (node co cl null) cr
IsUnary-postfix co cl cr op u f e = (e, (u.1.0, λ n. absurd cc))
