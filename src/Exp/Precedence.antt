-- ===== src/Exp/Precedence.antt =====
-- A new binary operator binds as its priority says: czl_binary_opt_node_insert of code/czl_vm.c.
use czl.Prelude.{
  ℕ, ◌≤◌, ◌<◌, ◌≡◌, refl, sym, ap, subst, ◌∙◌, Bool, true, false, ◌&&◌, ◌||◌, inl, inr, ◌⊎◌, Option,
  none, some, List, ◌==◌, leb, ltb, ltb→lt, leb→le, Bool-cases, if◌then◌else◌, arith, ==_iff, ◌+◌,
}
use czl.Exp.{ExpOp, ExpNode, null, node, leaf, role, binary, que, col, right_to_left, left_to_right}
use czl.Exp.Place.{
  Frame, ExpHandle, root, plug, insert_find, find_que, is_open, place_operator, count_que, join_que,
  binary_opt_node_insert,
}
use czl.Exp.Tokens.{Above}
use czl.Exp.Shape.{IsRow, IsCur, role-binary}
use czl.Exp.Collide.{side, IsRow-facts}
use czl.Exp.Places.{Place, Edge, find_que-Place, stops-binary, is_open-binary}
use czl.Exp.Order.{
  Top, RightOf, LeftOf, Ordered, Kept, insert_find-Kept, plug-Ordered, Ordered-plug, passed,
  Top-map, new-Ordered,
}

under-Ordered :
    (op po : ExpOp) (pl pr : ExpNode) (fs : List Frame)
    → IsRow op
    → Above fs
    → role po ≡ binary
    → Ordered (plug fs (node po pl pr))
    → RightOf po op
    → Top (LeftOf op) pr
    → Ordered (plug fs (node po pl (node op pr null)))
under-Ordered op po pl pr fs row a b o right left =
    let n = plug-Ordered fs (node po pl pr) a o b in
    Ordered-plug fs (node po pl pr) (node po pl (node op pr null)) a o
      (λ b. (
        record { left = n.0.left; right = λ c. right; que_priority = n.0.que_priority },
        (n.1.0, new-Ordered op pr row n.1.1 left),
      ))
      (λ f t. t)

over-Ordered :
    (op po : ExpOp) (pl pr : ExpNode) (fs : List Frame)
    → IsRow op
    → Above fs
    → role po ≡ binary
    → Ordered (plug fs (node po pl pr))
    → op.priority ≡ po.priority
    → side op.priority ≡ left_to_right
    → Ordered (plug fs (node op (node po pl pr) null))
over-Ordered op po pl pr fs row a b o e s =
    Ordered-plug fs (node po pl pr) (node op (node po pl pr) null) a o
      (new-Ordered op (node po pl pr) row (plug-Ordered fs (node po pl pr) a o)
        (λ c. inr (e, inl s)))
      (λ f t c. tighter f (t b))
  where
    tighter : (f : ExpOp) → RightOf f po → RightOf f op
    tighter f (inl l) = inl (omega (arith, l, e))
    tighter f (inr (same, r)) =
        let z : side f.priority ≡ left_to_right = ap side (same ∙ sym e) ∙ s in
        absurd (omega (arith, r, z))

-- `:` behind the `?` that it belongs to.
col-Ordered :
    (op po : ExpOp) (pl pr : ExpNode) (fs : List Frame)
    → IsRow op
    → (op.type == col) ≡ true
    → Above fs
    → role po ≡ binary
    → (po.type == que) ≡ true
    → Ordered (plug fs (node po pl pr))
    → Ordered (plug fs (node po pl (node op pr null)))
col-Ordered op po pl pr fs row c a b q o =
    let n = plug-Ordered fs (node po pl pr) a o b in
    let five = (IsRow-facts op row).1.1 (or_right (op.type == que) (op.type == col) c) in
    let que_five = n.0.que_priority q in
    under-Ordered op po pl pr fs row a b o (inr (que_five ∙ sym five, ap side que_five)) (
      Top-map (RightOf po) (LeftOf op) pr
        (λ x r. elim r [
          | inl l ↦ inl (omega (arith, l, five, que_five))
          | inr e ↦ inr (five ∙ sym que_five ∙ e.0, inr c)
        ])
        n.0.right)
  where
    or_right : (a b : Bool) → b ≡ true → (a || b) ≡ true
    or_right true b e = refl
    or_right false b e = e

side_cases : (n : ℕ) → (side n == right_to_left) ≡ false → side n ≡ left_to_right
side_cases n e = elim (Bool-cases (ltb n 6)) [
  | inl c ↦ let z : (1 == 1) ≡ false = rw c at e in absurd cc
  | inr c ↦ rw c refl
]

not_below : (a b : ℕ) → ltb a b ≡ false → b ≤ a
not_below a b e = ground arith

place-Ordered :
    (op : ExpOp) (h g : ExpHandle) (o : Option (ExpNode × List Frame))
    → IsRow op
    → role op ≡ binary
    → root g ≡ root h
    → Ordered (root h)
    → Kept op.priority (root h) o
    → Ordered (root (place_operator op (leaf op) o g))
place-Ordered op h g none row b e o k =
    subst (λ t. Ordered (node op t null)) (sym e)
      (new-Ordered op (root h) row o
        (Top-map _ (LeftOf op) (root h) (λ po l. inl l) (passed op.priority (root h) k)))
place-Ordered op h g (some (null, fs)) row b e o (same, (a, (s, r))) = absurd cc
place-Ordered op h g (some (node po pl pr, fs)) row b e o (same, (a, (s, r))) =
    elim (Bool-cases (ltb po.priority op.priority)) [
      | inl less ↦ rw less (
          under-Ordered op po pl pr fs row a bp o' (inl (ltb→lt po.priority op.priority less)) left)
      | inr more ↦ elim (Bool-cases (op.associativity == right_to_left)) [
        | inl right ↦
            let read : side op.priority ≡ right_to_left =
              sym uniform ∙ (==_iff op.associativity right_to_left).0 right in
            rw (more, right)
              (under-Ordered op po pl pr fs row a bp o'
                (inr (same_priority more, ap side (same_priority more) ∙ read)) left)
        | inr other ↦
            let read =
              side_cases op.priority (subst (λ n. (n == right_to_left) ≡ false) uniform other) in
            rw (more, other)
              (over-Ordered op po pl pr fs row a bp o' (sym (same_priority more)) read)
      ]
    ]
  where
    bp : role po ≡ binary
    bp = stops-binary op.priority po pl pr s

    o' : Ordered (plug fs (node po pl pr))
    o' = subst Ordered (sym same) o

    uniform : op.associativity ≡ side op.priority
    uniform = (IsRow-facts op row).0

    left : Top (LeftOf op) pr
    left =
        Top-map (λ x. op.priority < x.priority) (LeftOf op) pr (λ x l. inl l)
          (passed op.priority pr r)

    same_priority : ltb po.priority op.priority ≡ false → po.priority ≡ op.priority
    same_priority more =
        let f = role-binary po.flag po.bracket bp in
        let t : (true && leb po.priority op.priority) ≡ true = rw (f.0, f.1) at s in
        omega (arith, leb→le po.priority op.priority t, not_below po.priority op.priority more)

-- A tree whose operators bind as their priorities say, those of priority 4 and 5 read from the
-- right and the others from the left, is such a tree after a binary operator of the table has
-- joined at its end. The handle is one that the insertions make, and `:` finds its `?`.
pub binary_opt_node_insert-Ordered :
    (op : ExpOp) (h h' : ExpHandle)
    → IsRow op
    → role op ≡ binary
    → Above h.above
    → IsCur h.above h.cur
    → Edge (is_open que) h.cur
    → Ordered (root h)
    → binary_opt_node_insert op (leaf op) h ≡ some h'
    → Ordered (root h')
binary_opt_node_insert-Ordered op h h' row b a is eq o e =
    subst OrderedResult e (result (Bool-cases (op.type == col)))
  where
    OrderedResult : Option ExpHandle → Type 0
    OrderedResult none = Unit
    OrderedResult (some g) = Ordered (root g)

    counted :
        (q : Bool)
        → root (if q then record h { mtoc = h.mtoc + 1; colon_flag = h.colon_flag + 1 } else h)
          ≡ root h
    counted true = refl
    counted false = refl

    joined :
        (x : Option (ExpNode × List Frame))
        → (op.type == col) ≡ true
        → Place (is_open que) (root h) x
        → OrderedResult (join_que (leaf op) h x)
    joined none c w = tt
    joined (some (null, fs)) c w = let f = w.full in absurd cc
    joined (some (node po pl pr, fs)) c w =
        let bp = is_open-binary que po pl pr w.passes in
        let f = role-binary po.flag po.bracket bp in
        let w' = w.passes in
        let q : (true && po.type == que) ≡ true = rw (f.0, f.1) at w' in
        col-Ordered op po pl pr fs row c w.above bp q (subst Ordered (sym w.same) o)

    result :
        ((op.type == col) ≡ true) ⊎ ((op.type == col) ≡ false)
        → OrderedResult (binary_opt_node_insert op (leaf op) h)
    result (inl c) =
        rw c (joined (find_que false h.cur h.above) c (find_que-Place false h.cur h.above a eq))
    result (inr c) = rw c (
        place-Ordered op h (count_que op h) (insert_find op.priority h.cur h.above) row b
          (counted (op.type == que)) o (insert_find-Kept op.priority h.cur h.above a is))
