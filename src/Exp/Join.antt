-- ===== src/Exp/Join.antt =====
-- What czl_exp_node_insert of code/czl_vm.c makes of a handle: the nodes that it takes, and the
-- tree that it leaves.
use czl.Prelude.{
  ◌≡◌, refl, sym, ap, subst, ◌∙◌, Bool, true, false, not, ◌&&◌, ◌||◌, Option, none, some, List, [],
  ◌∷◌, ◌++◌, append_assoc, Bool-cases, if◌then◌else◌, inl, inr, ◌==◌, ltb, ◌+◌,
}
use czl.Exp.{
  ExpOp, ExpNode, null, node, leaf, is_null, role, Role, value, unary, binary, que, col,
  right_to_left,
}
use czl.Exp.Place.{
  Frame, ExpHandle, root, plug, has_operand, over, under, insert_find, stops, is_open,
  binary_opt_node_insert, place_operator, join_que, find_que, count_que, priority_of,
}
use czl.Exp.Tokens.{Above, tokens, is_postfix, plug-append, tokens-binary}
use czl.Exp.Shape.{IsCur, at_binary, role-binary}
use czl.Exp.Places.{
  IsPlace, Place, Edge, insert_find-Place, find_que-Place, stops-binary, is_open-binary,
}

-- The two states of an expression that is read: complete, or waiting for an operand. `joinable` is
-- whether a `?` waits for its `:`.
abbrev accepts_role : Role → (complete joinable : Bool) → ExpOp → Bool
accepts_role value complete joinable op = not complete
accepts_role unary complete joinable op = if is_postfix op.type then complete else not complete
accepts_role binary complete joinable op = complete && (not (op.type == col) || joinable)

abbrev pub accepts : (complete joinable : Bool) → ExpOp → Bool
accepts complete joinable op = accepts_role (role op) complete joinable op

abbrev completes_role : Role → ExpOp → Bool
completes_role value op = true
completes_role unary op = is_postfix op.type
completes_role binary op = false

abbrev pub completes : ExpOp → Bool
completes op = completes_role (role op) op

abbrev pub is_some : {A : Type 0} → Option A → Bool
is_some none = false
is_some (some x) = true

-- The handle after a node `n` has joined the tree `t`.
pub record Joined (t n : ExpNode) (complete : Bool) (h : ExpHandle) : Type 0 where
  pub above : Above h.above
  pub cur : IsCur h.above h.cur
  pub text : tokens (root h) ≡ tokens t ++ n ∷ []
  pub state : has_operand h.cur ≡ complete

abbrev pub Outcome : (t n : ExpNode) → (accepted complete : Bool) → Option ExpHandle → Type 0
Outcome t n accepted complete none = accepted ≡ false
Outcome t n accepted complete (some h) = (accepted ≡ true) × Joined t n complete h

-- A binary operator at `cur` that has no right operand yet.
pub binary-Joined :
    (t : ExpNode) (fs : List Frame) (op : ExpOp) (l : ExpNode) (h : ExpHandle)
    → h.above ≡ fs
    → h.cur ≡ node op l null
    → role op ≡ binary
    → is_null l ≡ false
    → Above fs
    → tokens (plug fs (node op l null)) ≡ tokens t ++ leaf op ∷ []
    → Joined t (leaf op) false h
binary-Joined t fs op l h ef ec b n a e =
    let r = role-binary op.flag op.bracket b in
    record {
      above = rw ef a;
      cur = rw ec (at_binary b n tt);
      text = rw (ef, ec) e;
      state = rw (ec, r.0, r.1) refl;
    }

-- The last operator of a subtree takes over what stands at its right.
tokens-under :
    (po : ExpOp) (pl pr : ExpNode) (op : ExpOp)
    → role po ≡ binary
    → role op ≡ binary
    → tokens (node po pl (node op pr null)) ≡ tokens (node po pl pr) ++ leaf op ∷ []
tokens-under po pl pr op bp b =
    tokens-binary po pl (node op pr null) bp
    ∙ ap (λ ts. tokens pl ++ leaf po ∷ ts) (tokens-binary op pr null b)
    ∙ sym (append_assoc (tokens pl) (leaf po ∷ tokens pr) (leaf op ∷ []))
    ∙ ap (λ ts. ts ++ leaf op ∷ []) (sym (tokens-binary po pl pr bp))

module _ (test : ExpNode → Bool) (t : ExpNode) (op : ExpOp) (h : ExpHandle) (fs : List Frame)
    (b : role op ≡ binary)
    (is : (po : ExpOp) (pl pr : ExpNode) → test (node po pl pr) ≡ true → role po ≡ binary) where
  -- `under` and `over` put the operator behind the text.
  under-Joined :
      (p : ExpNode) → IsPlace test t (p, fs) → Joined t (leaf op) false (under (leaf op) p fs h)
  under-Joined null w = let e = w.full in absurd cc
  under-Joined (node po pl pr) w =
      let bp = is po pl pr w.passes in
      binary-Joined t ((po, pl) ∷ fs) op pr (under (leaf op) (node po pl pr) fs h) refl refl b
        w.full (bp, w.above)
        (plug-append fs (node po pl pr) (node po pl (node op pr null)) (leaf op ∷ []) w.above
            (tokens-under po pl pr op bp b)
          ∙ ap (λ u. tokens u ++ leaf op ∷ []) w.same)

  over-Joined :
      (p : ExpNode) → IsPlace test t (p, fs) → Joined t (leaf op) false (over (leaf op) p fs h)
  over-Joined null w = let e = w.full in absurd cc
  over-Joined (node po pl pr) w =
      binary-Joined t fs op (node po pl pr) (over (leaf op) (node po pl pr) fs h) refl refl b refl
        w.above
        (plug-append fs (node po pl pr) (node op (node po pl pr) null) (leaf op ∷ []) w.above
            (tokens-binary op (node po pl pr) null b)
          ∙ ap (λ u. tokens u ++ leaf op ∷ []) w.same)

-- The tree as a whole is the left operand of an operator that finds no place.
root-Joined :
    (op : ExpOp) (h g : ExpHandle)
    → role op ≡ binary
    → is_null (root h) ≡ false
    → Joined (root h) (leaf op) false (over (leaf op) (root h) [] g)
root-Joined op h g b n =
    binary-Joined (root h) [] op (root h) (over (leaf op) (root h) [] g) refl refl b n tt
      (tokens-binary op (root h) null b)

place_operator-Joined :
    (op : ExpOp) (h g : ExpHandle) (o : Option (ExpNode × List Frame))
    → role op ≡ binary
    → root g ≡ root h
    → is_null (root h) ≡ false
    → Place (stops op.priority) (root h) o
    → Joined (root h) (leaf op) false (place_operator op (leaf op) o g)
place_operator-Joined op h g none b e n w =
    subst (λ u. Joined (root h) (leaf op) false (over (leaf op) u [] g)) (sym e)
      (root-Joined op h g b n)
place_operator-Joined op h g (some (p, fs)) b e n w =
    elim (Bool-cases (ltb (priority_of p) op.priority)) [
      | inl less ↦
          rw less
            (under-Joined (stops op.priority) (root h) op g fs b (stops-binary op.priority) p w)
      | inr more ↦ elim (Bool-cases (op.associativity == right_to_left)) [
        | inl right ↦
            rw (more, right)
              (under-Joined (stops op.priority) (root h) op g fs b (stops-binary op.priority) p w)
        | inr left ↦
            rw (more, left)
              (over-Joined (stops op.priority) (root h) op g fs b (stops-binary op.priority) p w)
      ]
    ]

-- A binary operator behind a complete expression.
pub binary-Outcome :
    (op : ExpOp) (h : ExpHandle)
    → role op ≡ binary
    → Above h.above
    → is_null (root h) ≡ false
    → Edge (stops op.priority) h.cur
    → Edge (is_open que) h.cur
    → Outcome
        (root h)
        (leaf op)
        (not (op.type == col) || is_some (find_que false h.cur h.above))
        false
        (binary_opt_node_insert op (leaf op) h)
binary-Outcome op h b a n es eq = elim (Bool-cases (op.type == col)) [
  | inl c ↦ rw c (joined (find_que false h.cur h.above) (find_que-Place false h.cur h.above a eq))
  | inr c ↦ rw c (
    refl,
    place_operator-Joined op h (count_que op h) (insert_find op.priority h.cur h.above) b
        (counted (op.type == que)) n (insert_find-Place op.priority h.cur h.above a es),
  )
]
  where
    counted :
        (q : Bool)
        → root (if q then record h { mtoc = h.mtoc + 1; colon_flag = h.colon_flag + 1 } else h)
          ≡ root h
    counted true = refl
    counted false = refl

    joined :
        (o : Option (ExpNode × List Frame))
        → Place (is_open que) (root h) o
        → Outcome (root h) (leaf op) (is_some o) false (join_que (leaf op) h o)
    joined none w = refl
    joined (some (p, fs)) w =
        let j = under-Joined (is_open que) (root h) op h fs b (is_open-binary que) p w in
        (refl, record { above = j.above; cur = j.cur; text = j.text; state = j.state })
