-- ===== src/Exp/Orders.antt =====
-- The orders of an expression: czl_create_order of code/czl_vm.c. The elements behind the last are
-- the end mark 0XFF. An element that czl_set_special_opt_opr has made an operand keeps its flag in
-- `lt`, by which the code then does the same as by the flag: here it keeps its flag.
use czl.Prelude.{ℕ, zero, suc, ◌≤◌, ◌≡◌, refl, ap, ◌∙◌, inl, inr, ◌⊎◌, List, [], ◌∷◌, ◌++◌, arith}
use czl.Exp.Stack.{
  ExpEle, EleFlag, operand_ele, unary_ele, binary_ele, condition, three_opt, three_end,
}

abbrev pub Made : Type 0
Made = List ExpEle × List ExpEle

-- The switch: `next` makes the orders from a place on, up to a CZL_THREE_END or the end mark; the
-- result is the orders and the rest of the stack.
abbrev pub order_step : EleFlag → ExpEle → List ExpEle → (next : List ExpEle → Made) → Made
order_step operand_ele x xs next = next xs
order_step unary_ele x xs next = (x ∷ (next xs).0, (next xs).1)
order_step binary_ele x xs next = (x ∷ (next xs).0, (next xs).1)
order_step condition x xs next = (x ∷ (next xs).0, (next xs).1)
order_step three_opt x xs next = (
  x ∷ ((next xs).0 ++ ((next (next xs).1).0 ++ (next (next (next xs).1).1).0)),
  (next (next (next xs).1).1).1,
)
order_step three_end x xs next = (x ∷ [], xs)

unfoldable pub create_order : (fuel : ℕ) → List ExpEle → List ExpEle × List ExpEle
create_order zero pc = ([], pc)
create_order (suc n) [] = ([], [])
create_order (suc n) (x ∷ xs) = order_step x.flag x xs (create_order n)

-- The elements that become orders.
abbrev pub keep : EleFlag → ExpEle → List ExpEle → List ExpEle
keep operand_ele x xs = xs
keep unary_ele x xs = x ∷ xs
keep binary_ele x xs = x ∷ xs
keep condition x xs = x ∷ xs
keep three_opt x xs = x ∷ xs
keep three_end x xs = x ∷ xs

abbrev pub orders : List ExpEle → List ExpEle
orders [] = []
orders (x ∷ xs) = keep x.flag x (orders xs)

-- With that much fuel or more, the code makes these orders from `pc` on.
abbrev pub Makes : ℕ → List ExpEle → Made → Type 0
Makes n pc made = (m : ℕ) → n ≤ m → create_order m pc ≡ made

pub create_order_step :
    (n : ℕ) (x : ExpEle) (xs : List ExpEle)
    → create_order (suc n) (x ∷ xs) ≡ order_step x.flag x xs (create_order n)
unfolding create_order
create_order_step n x xs = refl

pub Makes-nil : Makes 0 [] ([], [])
unfolding create_order
Makes-nil zero h = refl
Makes-nil (suc m) h = refl

pub Makes-end : (x : ExpEle) (xs : List ExpEle) → x.flag ≡ three_end → Makes 1 (x ∷ xs) (x ∷ [], xs)
Makes-end x xs e zero h = absurd (omega arith)
Makes-end x xs e (suc m) h = create_order_step m x xs ∙ rw e refl

pub Makes-skip :
    (n : ℕ) (x : ExpEle) (xs : List ExpEle) (made : Made)
    → x.flag ≡ operand_ele
    → Makes n xs made
    → Makes (suc n) (x ∷ xs) made
Makes-skip n x xs made e k zero h = absurd (omega arith)
Makes-skip n x xs made e k (suc m) h = create_order_step m x xs ∙ rw e (k m (omega (arith, h)))

-- An operator, with what follows it.
pub Makes-plain :
    (n : ℕ) (x : ExpEle) (xs os rest : List ExpEle)
    → (x.flag ≡ unary_ele) ⊎ ((x.flag ≡ binary_ele) ⊎ (x.flag ≡ condition))
    → Makes n xs (os, rest)
    → Makes (suc n) (x ∷ xs) (x ∷ os, rest)
Makes-plain n x xs os rest e k zero h = absurd (omega arith)
Makes-plain n x xs os rest e k (suc m) h =
    create_order_step m x xs
    ∙ by_flag e
    ∙ ap (λ made. (x ∷ made.0, made.1)) (k m (omega (arith, h)))
  where
    by_flag :
        (x.flag ≡ unary_ele) ⊎ ((x.flag ≡ binary_ele) ⊎ (x.flag ≡ condition))
        → order_step x.flag x xs (create_order m)
          ≡ (x ∷ (create_order m xs).0, (create_order m xs).1)
    by_flag (inl f) = rw f refl
    by_flag (inr (inl f)) = rw f refl
    by_flag (inr (inr f)) = rw f refl
