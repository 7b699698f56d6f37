-- ===== src/Exp/Tokens.antt =====
-- An expression's tree read from left to right, and the handles that the insertion of
-- code/czl_vm.c meets. A subtree in brackets is read as one node.
use czl.Prelude.{
  ℕ, ◌≡◌, refl, sym, ap, ◌∙◌, Bool, true, false, ◌&&◌, ◌||◌, List, [], ◌∷◌, ◌++◌, append_assoc,
  ◌==◌, if◌then◌else◌, All,
}
use czl.Exp.{ExpOp, ExpNode, null, node, leaf, Role, value, unary, binary, role, self_add, self_dec}
use czl.Exp.Place.{Frame, plug}

-- The unary operators that stand after their operand.
abbrev pub is_postfix : ℕ → Bool
is_postfix type = type == self_add || type == self_dec

abbrev prefix_part : ExpOp → List ExpNode
prefix_part op = if is_postfix op.type then [] else leaf op ∷ []

abbrev postfix_part : ExpOp → List ExpNode
postfix_part op = if is_postfix op.type then leaf op ∷ [] else []

-- The operators of a chain of unary operators, the last to join at its front.
abbrev pub prefixes : ExpNode → List ExpNode
prefixes null = []
prefixes (node op l r) = prefixes l ++ prefix_part op

abbrev pub postfixes : ExpNode → List ExpNode
postfixes null = []
postfixes (node op l r) = postfixes l ++ postfix_part op

abbrev tokens_of : Role → ExpOp → (l r : ExpNode) → (tl tr : List ExpNode) → List ExpNode
tokens_of value op l r tl tr = node op l r ∷ []
tokens_of unary op l r tl tr = prefixes (node op l r) ++ tr ++ postfixes (node op l r)
tokens_of binary op l r tl tr = tl ++ leaf op ∷ tr

abbrev pub tokens : ExpNode → List ExpNode
tokens null = []
tokens (node op l r) = tokens_of (role op) op l r (tokens l) (tokens r)

-- What stands before the node at `cur`.
abbrev pub ahead : List Frame → List ExpNode
ahead [] = []
ahead (f ∷ fs) = ahead fs ++ tokens f.1 ++ leaf f.0 ∷ []

-- The nodes above `cur` are binary operators.
abbrev pub Above : List Frame → Type 0
Above fs = All (λ f. role f.0 ≡ binary) fs

pub tokens-binary :
    (op : ExpOp) (l r : ExpNode)
    → role op ≡ binary
    → tokens (node op l r) ≡ tokens l ++ leaf op ∷ tokens r
tokens-binary op l r e = rw e refl

pub tokens-unary :
    (op : ExpOp) (l r : ExpNode)
    → role op ≡ unary
    → tokens (node op l r) ≡ prefixes (node op l r) ++ tokens r ++ postfixes (node op l r)
tokens-unary op l r e = rw e refl

pub tokens-value :
    (op : ExpOp) (l r : ExpNode) → role op ≡ value → tokens (node op l r) ≡ node op l r ∷ []
tokens-value op l r e = rw e refl

-- The tree is what stands before `cur` and then the subtree at `cur`.
pub tokens-plug :
    (fs : List Frame) (p : ExpNode) → Above fs → tokens (plug fs p) ≡ ahead fs ++ tokens p
tokens-plug [] p a = refl
tokens-plug (f ∷ fs) p a =
    tokens-plug fs (node f.0 f.1 p) a.1
    ∙ ap (λ ts. ahead fs ++ ts) (tokens-binary f.0 f.1 p a.0)
    ∙ regroup (ahead fs) (tokens f.1)
  where
    regroup :
        (xs ys : List ExpNode)
        → xs ++ (ys ++ leaf f.0 ∷ tokens p) ≡ (xs ++ ys ++ leaf f.0 ∷ []) ++ tokens p
    regroup xs ys = simp append_assoc

and_right : (s b : Bool) → (s && b) ≡ true → b ≡ true
and_right true b e = e
and_right false b e = absurd cc

-- The operator at the front of a chain.
pub prefixes-prefix :
    (op : ExpOp) (l r : ExpNode)
    → is_postfix op.type ≡ false
    → (prefixes (node op l r) ≡ prefixes l ++ leaf op ∷ [])
      × (postfixes (node op l r) ≡ postfixes l ++ [])
prefixes-prefix op l r e = (rw e refl, rw e refl)

pub prefixes-postfix :
    (op : ExpOp) (l r : ExpNode)
    → is_postfix op.type ≡ true
    → (prefixes (node op l r) ≡ prefixes l ++ [])
      × (postfixes (node op l r) ≡ postfixes l ++ leaf op ∷ [])
prefixes-postfix op l r e = (rw e refl, rw e refl)

-- What joins at the end of the subtree at `cur` joins at the end of the tree.
pub plug-append :
    (fs : List Frame) (p p' : ExpNode) (xs : List ExpNode)
    → Above fs
    → tokens p' ≡ tokens p ++ xs
    → tokens (plug fs p') ≡ tokens (plug fs p) ++ xs
plug-append fs p p' xs a e =
    tokens-plug fs p' a
    ∙ ap (λ ts. ahead fs ++ ts) e
    ∙ sym (append_assoc (ahead fs) (tokens p) xs)
    ∙ ap (λ ts. ts ++ xs) (sym (tokens-plug fs p a))
