-- ===== src/Exp/Order.antt =====
-- The operators of a tree bind as their priorities say: czl_binary_opt_node_insert of
-- code/czl_vm.c.
use czl.Prelude.{
  ℕ, ◌<◌, ◌≡◌, refl, sym, subst, Bool, true, false, ◌&&◌, ◌||◌, inl, inr, ◌⊎◌, Option, none, some,
  List, [], ◌∷◌, ◌==◌, leb, Bool-cases, if◌then◌else◌, arith,
}
use czl.Exp.{
  ExpOp, ExpNode, null, node, is_null, right_of, role, value, unary, binary, que, col,
  right_to_left, left_to_right,
}
use czl.Exp.Place.{Frame, plug, climb, insert_find, stops}
use czl.Exp.Tokens.{Above}
use czl.Exp.Shape.{IsRow, IsCur, is_empty, at_value, at_unary, at_binary, role-binary, IsRight}
use czl.Exp.Collide.{side, IsRow-facts}
use czl.Exp.Places.{stops-binary}

-- The operator at the top of a subtree, where it is a binary one not in brackets, satisfies `P`.
abbrev pub Top : (ExpOp → Type 0) → ExpNode → Type 0
Top P null = Unit
Top P (node op l r) = role op ≡ binary → P op

-- What may stand at the right and at the left of an operator without brackets: operators of higher
-- priority, and those of the same on the side from which they are not read. The left side of `:` is
-- between `?` and `:`, and takes the same priority as well.
abbrev pub RightOf : ExpOp → ExpOp → Type 0
RightOf op po =
    (op.priority < po.priority) ⊎ ((op.priority ≡ po.priority) × (side op.priority ≡ right_to_left))

abbrev pub LeftOf : ExpOp → ExpOp → Type 0
LeftOf op po =
    (op.priority < po.priority)
    ⊎ ((op.priority ≡ po.priority)
        × ((side op.priority ≡ left_to_right) ⊎ ((op.type == col) ≡ true)))

-- Every operator without brackets has such operands.
pub record IsNode (op : ExpOp) (l r : ExpNode) : Type 0 where
  pub left : Top (LeftOf op) l
  pub right : Top (RightOf op) r
  pub que_priority : (op.type == que) ≡ true → op.priority ≡ 5

abbrev pub Ordered : ExpNode → Type 0
Ordered null = Unit
Ordered (node op l r) = role op ≡ binary → IsNode op l r × (Ordered l × Ordered r)

-- The place that the search for a priority finds is the first that stops it.
abbrev pub Kept : ℕ → ExpNode → Option (ExpNode × List Frame) → Type 0
Kept q t none = stops q t ≡ false
Kept q t (some x) =
    (plug x.1 x.0 ≡ t) × (Above x.1 × ((stops q x.0 ≡ true) × (stops q (right_of x.0) ≡ false)))

kept :
    (q : ℕ) (p t : ExpNode) (fs : List Frame) (rest : Option (ExpNode × List Frame))
    → plug fs p ≡ t
    → Above fs
    → (stops q p ≡ true → stops q (right_of p) ≡ false)
    → (stops q p ≡ false → Kept q t rest)
    → Kept q t (if stops q p then some (p, fs) else rest)
kept q p t fs rest e a f g = elim (Bool-cases (stops q p)) [
  | inl s ↦ rw s (e, (a, (s, f s)))
  | inr s ↦ rw s (g s)
]

climb-Kept :
    (q : ℕ) (p : ExpNode) (fs : List Frame)
    → Above fs
    → (stops q p ≡ true → stops q (right_of p) ≡ false)
    → Kept q (plug fs p) (climb q p fs)
climb-Kept q p [] a f = kept q p p [] none refl a f (λ s. s)
climb-Kept q p (g ∷ fs) a f =
    kept q p (plug (g ∷ fs) p) (g ∷ fs) (climb q (node g.0 g.1 p) fs) refl a f
      (λ s. climb-Kept q (node g.0 g.1 p) fs a.1 (λ e. s))

-- A node that is no operator to the search.
quiet :
    (q : ℕ) (op : ExpOp) (l r : ExpNode)
    → (role op ≡ value) ⊎ (role op ≡ unary)
    → stops q (node op l r) ≡ false
quiet q op l r e = elim (Bool-cases (stops q (node op l r))) [
  | inl s ↦ let b = stops-binary q op l r s in elim e [ inl v ↦ absurd cc | inr u ↦ absurd cc ]
  | inr s ↦ s
]

right-quiet : (q : ℕ) (r : ExpNode) → IsRight r → stops q r ≡ false
right-quiet q null i = refl
right-quiet q (node op l r) (inl f) = quiet q op l r (inl f.0)
right-quiet q (node op l r) (inr f) = quiet q op l r (inr f.0)

-- At a root that is no operator the search finds nothing.
quiet-Kept :
    (q : ℕ) (op : ExpOp) (l r : ExpNode) (fs : List Frame)
    → fs ≡ []
    → stops q (node op l r) ≡ false
    → Kept q (plug fs (node op l r)) (insert_find q (node op l r) fs)
quiet-Kept q op l r fs e s =
    subst (λ gs. Kept q (plug gs (node op l r)) (insert_find q (node op l r) gs)) (sym e)
      (elim (Bool-cases (is_null l)) [
        | inl n ↦ rw n s
        | inr n ↦
            rw n (kept q (node op l r) (node op l r) [] none refl tt (λ t. absurd cc) (λ t. t))
      ])

pub insert_find-Kept :
    (q : ℕ) (p : ExpNode) (fs : List Frame)
    → Above fs
    → IsCur fs p
    → Kept q (plug fs p) (insert_find q p fs)
insert_find-Kept q null fs a (is_empty e) = rw e refl
insert_find-Kept q (node op l r) fs a (at_value e f) =
    quiet-Kept q op l r fs e (quiet q op l r (inl f.0))
insert_find-Kept q (node op l r) fs a (at_unary e f) =
    quiet-Kept q op l r fs e (quiet q op l r (inr f.0))
insert_find-Kept q (node op l r) fs a (at_binary b n i) =
    rw n (climb-Kept q (node op l r) fs a (λ e. right-quiet q r i))

-- A subtree of an ordered tree on its right edge, and another in its place.
pub plug-Ordered : (fs : List Frame) (p : ExpNode) → Above fs → Ordered (plug fs p) → Ordered p
plug-Ordered [] p a o = o
plug-Ordered (f ∷ fs) p a o = (plug-Ordered fs (node f.0 f.1 p) a.1 o a.0).1.1

pub Ordered-plug :
    (fs : List Frame) (p p' : ExpNode)
    → Above fs
    → Ordered (plug fs p)
    → Ordered p'
    → ((op : ExpOp) → Top (RightOf op) p → Top (RightOf op) p')
    → Ordered (plug fs p')
Ordered-plug [] p p' a o o' top = o'
Ordered-plug (f ∷ fs) p p' a o o' top =
    let n = plug-Ordered fs (node f.0 f.1 p) a.1 o a.0 in
    Ordered-plug fs (node f.0 f.1 p) (node f.0 f.1 p') a.1 o
      (λ b. (
        record { left = n.0.left; right = top f.0 n.0.right; que_priority = n.0.que_priority },
        (n.1.0, o'),
      ))
      (λ op t. t)

above_lem : (a b : ℕ) → leb a b ≡ false → b < a
above_lem a b e = ground arith

-- What the search passed by binds tighter.
pub passed : (q : ℕ) (p : ExpNode) → stops q p ≡ false → Top (λ po. q < po.priority) p
passed q null s = tt
passed q (node op l r) s = λ b.
    let g = role-binary op.flag op.bracket b in
    let t : (true && leb op.priority q) ≡ false = rw (g.0, g.1) at s in above_lem op.priority q t

pub Top-map :
    (P Q : ExpOp → Type 0) (p : ExpNode) → ((po : ExpOp) → P po → Q po) → Top P p → Top Q p
Top-map P Q null f t = tt
Top-map P Q (node op l r) f t = λ b. f op (t b)

-- A new operator with what it takes over on its left.
pub new-Ordered :
    (op : ExpOp) (l : ExpNode) → IsRow op → Ordered l → Top (LeftOf op) l → Ordered (node op l null)
new-Ordered op l row o t = λ b. (
  record {
    left = t;
    right = tt;
    que_priority = λ q. (IsRow-facts op row).1.1 (or_left (op.type == que) (op.type == col) q);
  },
  (o, tt),
)
  where
    or_left : (a b : Bool) → a ≡ true → (a || b) ≡ true
    or_left true b e = refl
    or_left false b e = absurd cc
