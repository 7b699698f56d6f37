-- ===== src/Exp/Places.antt =====
-- The places that the searches of code/czl_vm.c find for a binary operator.
use czl.Prelude.{
  ℕ, ◌≡◌, refl, Bool, true, false, not, ◌&&◌, ◌||◌, Option, none, some, List, [], ◌∷◌, Bool-cases,
  if◌then◌else◌, ◌==◌, leb, inl, inr,
}
use czl.Exp.{
  ExpOp, ExpNode, node, is_null, left_of, right_of, role, role_of, binary, Flag, operand, unary_opt,
  binary_opt, que, col, is_operand, is_unary,
}
use czl.Exp.Place.{Frame, plug, climb, insert_find, find_que, stops, is_open}
use czl.Exp.Tokens.{Above}

-- A node on the right edge of the tree `t`, that passes the test, with what is above it.
pub record IsPlace (test : ExpNode → Bool) (t : ExpNode) (x : ExpNode × List Frame) : Type 0 where
  pub same : plug x.1 x.0 ≡ t
  pub above : Above x.1
  pub passes : test x.0 ≡ true
  pub full : is_null (right_of x.0) ≡ false

abbrev pub Place : (test : ExpNode → Bool) → ExpNode → Option (ExpNode × List Frame) → Type 0
Place test t none = Unit
Place test t (some x) = IsPlace test t x

open_role :
    (f : Flag) (b c : Bool)
    → (not ((is_operand f || is_unary f) || b) && c) ≡ true
    → role_of f b ≡ binary
open_role operand b c e = absurd cc
open_role unary_opt b c e = absurd cc
open_role binary_opt true c e = absurd cc
open_role binary_opt false c e = refl

-- A node that a search may start from.
abbrev pub Edge : (test : ExpNode → Bool) → ExpNode → Type 0
Edge test p = (is_null p ≡ false) × (test p ≡ true → is_null (right_of p) ≡ false)

found :
    (test : ExpNode → Bool) (b : Bool) (p t : ExpNode) (fs : List Frame)
    (rest : Option (ExpNode × List Frame))
    → (b ≡ true → test p ≡ true)
    → Edge test p
    → plug fs p ≡ t
    → Above fs
    → Place test t rest
    → Place test t (if b then some (p, fs) else rest)
found test true p t fs rest e f s a r = record {
  same = s;
  above = a;
  passes = e refl;
  full = f.1 (e refl);
}
found test false p t fs rest e f s a r = r

pub climb-Place :
    (q : ℕ) (p : ExpNode) (fs : List Frame)
    → Above fs
    → Edge (stops q) p
    → Place (stops q) (plug fs p) (climb q p fs)
climb-Place q p [] a f = found (stops q) (stops q p) p p [] none (λ e. e) f refl a tt
climb-Place q p (g ∷ fs) a f =
    found (stops q) (stops q p) p (plug (g ∷ fs) p) (g ∷ fs) (climb q (node g.0 g.1 p) fs) (λ e. e)
      f refl a (climb-Place q (node g.0 g.1 p) fs a.1 (refl, λ e. f.0))

pub insert_find-Place :
    (q : ℕ) (p : ExpNode) (fs : List Frame)
    → Above fs
    → Edge (stops q) p
    → Place (stops q) (plug fs p) (insert_find q p fs)
insert_find-Place q p fs a f = elim (Bool-cases (is_null (left_of p))) [
  | inl e ↦ rw e tt
  | inr e ↦ rw e (climb-Place q p fs a f)
]

and_right : (s b : Bool) → (s && b) ≡ true → b ≡ true
and_right true b e = e
and_right false b e = absurd cc

pub find_que-Place :
    (skip : Bool) (p : ExpNode) (fs : List Frame)
    → Above fs
    → Edge (is_open que) p
    → Place (is_open que) (plug fs p) (find_que skip p fs)
find_que-Place skip p [] a f =
    found (is_open que) (not skip && is_open que p) p p [] none
      (and_right (not skip) (is_open que p)) f refl a tt
find_que-Place skip p (g ∷ fs) a f =
    found (is_open que) (not skip && is_open que p) p (plug (g ∷ fs) p) (g ∷ fs)
      (find_que (not skip && is_open col p) (node g.0 g.1 p) fs)
      (and_right (not skip) (is_open que p)) f refl a
      (find_que-Place (not skip && is_open col p) (node g.0 g.1 p) fs a.1 (refl, λ e. f.0))

-- A node that stops a search is a binary operator.
pub stops-binary :
    (q : ℕ) (op : ExpOp) (l r : ExpNode) → stops q (node op l r) ≡ true → role op ≡ binary
stops-binary q op l r e = open_role op.flag op.bracket (leb op.priority q) e

pub is_open-binary :
    (type : ℕ) (op : ExpOp) (l r : ExpNode) → is_open type (node op l r) ≡ true → role op ≡ binary
is_open-binary type op l r e = open_role op.flag op.bracket (op.type == type) e
