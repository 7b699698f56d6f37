-- ===== src/Exp/Allocate.antt =====
-- The registers that czl_use_reg of code/czl_vm.c gives hold no result that is still to be read,
-- where at most one register does.
use czl.Prelude.{
  ◌⊎◌, Bool, true, false, ℕ, ◌≤◌, ◌<◌, ◌≡◌, ◌≢◌, refl, sym, subst, ◌∙◌, false, inl, inr, List, [],
  ◌∷◌, ◌==◌, ltb, ltb→lt, Bool-cases, if◌then◌else◌, arith, length, All, ==_iff,
}
use czl.Exp.Registers.{Opr, reg, obj, RegState, use_reg, result_reg, result_cnt, keep_reg}

-- The registers among the operands.
abbrev pub live : List Opr → List ℕ
live [] = []
live (reg r ∷ xs) = r ∷ live xs
live (obj o ∷ xs) = live xs

abbrev pub Fresh : ℕ → List ℕ → Type 0
Fresh r xs = All (λ y. y ≢ r) xs

abbrev pub Distinct : List ℕ → Type 0
Distinct [] = Unit
Distinct (x ∷ xs) = Fresh x xs × Distinct xs

abbrev pub Below : ℕ → List ℕ → Type 0
Below n xs = All (λ y. y < n) xs

-- `r` is the first of them.
abbrev pub Head : ℕ → List ℕ → Type 0
Head r [] = Unit
Head r (x ∷ xs) = x ≡ r

pub record IsRegs (st : RegState) : Type 0 where
  pub two : st.reg_cnt ≤ 2
  pub below : Below st.reg_cnt (live st.res)
  pub distinct : Distinct (live st.res)
  pub head : Head st.last (live st.res)

Below-Fresh : (n : ℕ) (xs : List ℕ) → Below n xs → Fresh n xs
Below-Fresh n [] b = tt
Below-Fresh n (x ∷ xs) b = ((λ e. omega (arith, b.0, e)), Below-Fresh n xs b.1)

pub Below-more : (n m : ℕ) (xs : List ℕ) → n ≤ m → Below n xs → Below m xs
Below-more n m [] h b = tt
Below-more n m (x ∷ xs) h b = (omega (arith, b.0, h), Below-more n m xs h b.1)

-- With both registers in use the other one than the last result's is taken.
other-Fresh :
    (last : ℕ) (xs : List ℕ) → Head last xs → length xs ≤ 1 → Fresh (if last == 0 then 1 else 0) xs
other-Fresh last [] h n = tt
other-Fresh last (x ∷ []) h n = (apart, tt)
  where
    apart : x ≢ (if last == 0 then 1 else 0)
    apart = elim (Bool-cases (last == 0)) [
      | inl e ↦ let z = (==_iff last 0).0 e in rw e (λ f. omega (arith, f, z, h))
      | inr e ↦ rw e (λ f. let z = (==_iff last 0).1 (sym h ∙ f) in absurd cc)
    ]
other-Fresh last (x ∷ y ∷ xs) h n = absurd (omega (arith, n))

pub use_reg-Fresh :
    (st : RegState) → IsRegs st → length (live st.res) ≤ 1 → Fresh (use_reg 0 st) (live st.res)
use_reg-Fresh st is n = elim (Bool-cases (ltb st.reg_cnt 2)) [
  | inl e ↦ rw e (
      subst (λ r. Fresh r (live st.res)) (omega arith)
        (Below-Fresh st.reg_cnt (live st.res) is.below))
  | inr e ↦ rw e (other-Fresh st.last (live st.res) is.head n)
]

not_less : (a b : ℕ) → ltb a b ≡ false → b ≤ a
not_less a b e = ground arith

pub use_reg-lt : (st : RegState) (o : ℕ) → IsRegs st → use_reg 0 st < result_cnt (obj o) st
use_reg-lt st o is = elim (Bool-cases (ltb st.reg_cnt 2)) [
  | inl e ↦ rw e (omega arith)
  | inr e ↦ elim (Bool-cases (st.last == 0)) [
    | inl z ↦ let b = not_less st.reg_cnt 2 e in rw (e, z) (omega (arith, b))
    | inr z ↦ let b = not_less st.reg_cnt 2 e in rw (e, z) (omega (arith, b))
  ]
]

pub result_cnt-two :
    (l : Opr) (st : RegState)
    → st.reg_cnt ≤ 2
    → (result_cnt l st ≤ 2) × (st.reg_cnt ≤ result_cnt l st)
result_cnt-two (reg r) st h = (h, omega arith)
result_cnt-two (obj o) st h = elim (Bool-cases (ltb st.reg_cnt 2)) [
  | inl e ↦ let b = ltb→lt st.reg_cnt 2 e in rw e (omega (arith, b), omega arith)
  | inr e ↦ rw e (h, omega arith)
]

-- What the result's register keeps, for the operands below.
pub keep_reg-IsRegs :
    (l : Opr) (rest : List Opr) (st : RegState)
    → st.reg_cnt ≤ 2
    → Below st.reg_cnt (live (l ∷ rest))
    → Distinct (live (l ∷ rest))
    → Fresh (result_reg 0 l st) (live rest)
    → result_reg 0 l st < result_cnt l st
    → IsRegs (keep_reg 0 l rest st)
keep_reg-IsRegs (reg r) rest st h b d f lt = record {
  two = h;
  below = b;
  distinct = d;
  head = refl;
}
keep_reg-IsRegs (obj o) rest st h b d f lt =
    let c = result_cnt-two (obj o) st h in
    record {
      two = c.0;
      below = (lt, Below-more st.reg_cnt (result_cnt (obj o) st) (live rest) c.1 b);
      distinct = (f, d);
      head = refl;
    }

abbrev pub is_reg : Opr → Bool
is_reg (reg r) = true
is_reg (obj o) = false

-- The register that the result of an operator takes.
pub result-IsRegs :
    (l : Opr) (rest : List Opr) (st : RegState)
    → IsRegs st
    → Below st.reg_cnt (live (l ∷ rest))
    → Distinct (live (l ∷ rest))
    → (is_reg l ≡ true) ⊎ Fresh (use_reg 0 st) (live rest)
    → IsRegs (keep_reg 0 l rest st) × Fresh (result_reg 0 l st) (live rest)
result-IsRegs (reg r) rest st is b d f = (keep_reg-IsRegs (reg r) rest st is.two b d d.0 b.0, d.0)
result-IsRegs (obj o) rest st is b d (inl e) = absurd cc
result-IsRegs (obj o) rest st is b d (inr f) =
    (keep_reg-IsRegs (obj o) rest st is.two b d f (use_reg-lt st o is), f)

pub free :
    (l : Opr) (rest : List Opr) (st : RegState)
    → st.res ≡ l ∷ rest
    → IsRegs st
    → (is_reg l ≡ true) ⊎ (length (live rest) ≤ 1)
    → (is_reg l ≡ true) ⊎ Fresh (use_reg 0 st) (live rest)
free l rest st e is (inl f) = inl f
free (reg r) rest st e is (inr n) = inl refl
free (obj o) rest st e is (inr n) = inr (
    subst (λ xs. Fresh (use_reg 0 st) (live xs)) e
      (use_reg-Fresh st is (subst (λ xs. length (live xs) ≤ 1) (sym e) n)))

pub drop_Below : (n : ℕ) (o : Opr) (xs : List Opr) → Below n (live (o ∷ xs)) → Below n (live xs)
drop_Below n (reg r) xs b = b.1
drop_Below n (obj r) xs b = b

pub drop_Fresh : (n : ℕ) (o : Opr) (xs : List Opr) → Fresh n (live (o ∷ xs)) → Fresh n (live xs)
drop_Fresh n (reg r) xs b = b.1
drop_Fresh n (obj r) xs b = b

pub drop_Distinct : (o : Opr) (xs : List Opr) → Distinct (live (o ∷ xs)) → Distinct (live xs)
drop_Distinct (reg r) xs b = b.1
drop_Distinct (obj r) xs b = b

pub drop_All : (P : ℕ → Type 0) (o : Opr) (xs : List Opr) → All P (live (o ∷ xs)) → All P (live xs)
drop_All P (reg r) xs b = b.1
drop_All P (obj r) xs b = b

-- The result's register is not the right operand's.
pub apart :
    (p l : Opr) (rest : List Opr) (st : RegState)
    → Distinct (live (p ∷ l ∷ rest))
    → (is_reg l ≡ true) ⊎ Fresh (use_reg 0 st) (live (p ∷ l ∷ rest))
    → Fresh (result_reg 0 l st) (live (p ∷ []))
apart (obj o) l rest st d f = tt
apart (reg q) (reg r) rest st d f = ((λ e. d.0.0 (sym e)), tt)
apart (reg q) (obj o) rest st d (inl e) = absurd cc
apart (reg q) (obj o) rest st d (inr f) = (f.0, tt)

pub free_below :
    (p l : Opr) (rest : List Opr) (st : RegState)
    → (is_reg l ≡ true) ⊎ Fresh (use_reg 0 st) (live (p ∷ l ∷ rest))
    → (is_reg l ≡ true) ⊎ Fresh (use_reg 0 st) (live rest)
free_below p l rest st (inl e) = inl e
free_below p l rest st (inr f) =
    inr (drop_Fresh (use_reg 0 st) l rest (drop_Fresh (use_reg 0 st) p (l ∷ rest) f))
