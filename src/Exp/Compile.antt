-- ===== src/Exp/Compile.antt =====
-- The orders that czl_set_opt_opr of code/czl_vm.c makes of a part of the stack: they leave the
-- part's value in one operand, and keep the registers that are still to be read.
use czl.Prelude.{
  ℕ, ◌≤◌, ◌≡◌, refl, sym, ap, ap₂, subst, ◌∙◌, Bool, true, false, inl, inr, ◌⊎◌, ◌||◌, Option, none,
  some, List, [], ◌∷◌, ◌++◌, append_assoc, ◌==◌, if_true, if_false, length, All, ne→==, update,
  update_same, update_other,
}
use czl.Exp.{and_and, or_or}
use czl.Exp.Insert.{is_obj_binary_opt}
use czl.Exp.Stack.{ExpEle, unary_ele, binary_ele}
use czl.Exp.Registers.{
  Opr, reg, obj, Order, unary_order, binary_order, RegState, result_reg, keep_reg, is_tmp_unary_opt,
  and_then, more, set_step, unary_set, binary_set, set_opt_opr, get_opr, run_order, run_orders,
  use_reg,
}
use czl.Exp.Allocate.{
  is_reg, result-IsRegs, free, drop_Below, drop_Distinct, drop_All, apart, free_below, live, Fresh,
  Distinct, Below, IsRegs, use_reg-Fresh,
}

pub set_opt_opr_step :
    (x : ExpEle) (xs : List ExpEle) (st : RegState)
    → set_opt_opr 0 (x ∷ xs) st ≡ and_then (set_step 0 x.flag x st) (λ st'. set_opt_opr 0 xs st')
unfolding set_opt_opr
set_opt_opr_step x xs st = refl

-- Two parts one behind the other.
more-more :
    (a b : List Order) (o : Option (List Order × RegState)) → more a (more b o) ≡ more (a ++ b) o
more-more a b none = refl
more-more a b (some (ps, st)) = ap (λ os. some (os, st)) (sym (append_assoc a b ps))

module _ {V : Type 0} (get_obj : ℕ → V) (unary_cac : ℕ → V → V) (binary_cac : ℕ → V → V → V) where
  abbrev pub get : (ℕ → V) → Opr → V
  get regs o = get_opr get_obj unary_cac binary_cac regs o

  abbrev pub run : List Order → (ℕ → V) → ℕ → V
  run os regs = run_orders get_obj unary_cac binary_cac os regs

  abbrev run_one : Order → (ℕ → V) → ℕ → V
  run_one o regs = run_order get_obj unary_cac binary_cac o regs

  -- What the orders of the part `s` of a stack do, `temp` whether the result is in a register.
  pub record Done (s : List ExpEle) (st : RegState) (v : V) (temp : Bool) : Type 0 where
    pub made : List Order
    pub after : RegState
    pub opr : Opr
    pub top : after.res ≡ opr ∷ st.res
    pub set :
        (xs : List ExpEle)
        → set_opt_opr 0 (s ++ xs) st ≡ and_then (some (made, after)) (λ st'. set_opt_opr 0 xs st')
    pub value : (g : ℕ → V) → get (run made g) opr ≡ v
    pub keeps : (g : ℕ → V) → All (λ y. run made g y ≡ g y) (live st.res)
    pub regs : IsRegs after
    pub place : is_reg opr ≡ temp

  run-append : (os ps : List Order) (g : ℕ → V) → run (os ++ ps) g ≡ run ps (run os g)
  run-append [] ps g = refl
  run-append (o ∷ os) ps g = run-append os ps (run_one o g)

  -- The orders of `s`, then one more for the last element.
  one_more :
      (s : List ExpEle) (x : ExpEle) (st after : RegState) (made : List Order) (o : Order)
      (st' : RegState)
      → ((xs : List ExpEle)
          → set_opt_opr 0 (s ++ xs) st
            ≡ and_then (some (made, after)) (λ st'. set_opt_opr 0 xs st'))
      → set_step 0 x.flag x after ≡ some (o ∷ [], st')
      → (xs : List ExpEle)
      → set_opt_opr 0 ((s ++ (x ∷ [])) ++ xs) st
        ≡ and_then (some (made ++ (o ∷ []), st')) (λ st'. set_opt_opr 0 xs st')
  one_more s x st after made o st' h e xs =
      ap (λ l. set_opt_opr 0 l st) (append_assoc s (x ∷ []) xs)
      ∙ h (x ∷ xs)
      ∙ ap (more made)
          (set_opt_opr_step x xs after ∙ ap (λ r. and_then r (λ st'. set_opt_opr 0 xs st')) e)
      ∙ more-more made (o ∷ []) (set_opt_opr 0 xs st')

  -- A write to a register that holds nothing.
  keeps-update :
      (r : ℕ) (w : V) (g h : ℕ → V) (ys : List ℕ)
      → Fresh r ys
      → All (λ y. h y ≡ g y) ys
      → All (λ y. update h r w y ≡ g y) ys
  keeps-update r w g h [] f a = tt
  keeps-update r w g h (y ∷ ys) f a =
      (update_other h r y w (ne→== y r f.0) ∙ a.0, keeps-update r w g h ys f.1 a.1)

  -- An operand that is not the register written.
  get-update :
      (r : ℕ) (w : V) (h : ℕ → V) (o : Opr)
      → Fresh r (live (o ∷ []))
      → get (update h r w) o ≡ get h o
  get-update r w h (reg q) f = update_other h r q w (ne→== q r f.0)
  get-update r w h (obj q) f = refl

  -- A unary operator behind its operand.
  pub unary-Done :
      (s : List ExpEle) (x : ExpEle) (st : RegState) (v : V) (temp : Bool)
      → x.flag ≡ unary_ele
      → is_tmp_unary_opt x.kind ≡ true
      → (temp ≡ true) ⊎ (length (live st.res) ≤ 1)
      → Done s st v temp
      → Done (s ++ (x ∷ [])) st (unary_cac x.kind v) true
  unary-Done s x st v temp f k room d =
      let r : ℕ = result_reg 0 d.opr d.after in
      let o : Order = unary_order x.kind d.opr r in
      let w : (ℕ → V) → V = λ g. unary_cac x.kind (get (run d.made g) d.opr) in
      let is =
        result-IsRegs d.opr st.res d.after d.regs
          (subst (λ xs. Below d.after.reg_cnt (live xs)) d.top d.regs.below)
          (subst (λ xs. Distinct (live xs)) d.top d.regs.distinct)
          (free d.opr st.res d.after d.top d.regs (either room)) in
      record {
        made = d.made ++ (o ∷ []);
        after = keep_reg 0 d.opr st.res d.after;
        opr = reg r;
        top = refl;
        set = one_more s x st d.after d.made o (keep_reg 0 d.opr st.res d.after) d.set (
            ap (λ fl. set_step 0 fl x d.after) f
            ∙ ap (λ xs. unary_set 0 x.kind xs d.after) d.top
            ∙ if_true (is_tmp_unary_opt x.kind) _ none k);
        value = λ g.
            ap (λ h. h r) (run-append d.made (o ∷ []) g)
            ∙ update_same (run d.made g) r (w g)
            ∙ ap (unary_cac x.kind) (d.value g);
        keeps = λ g.
            subst (λ h. All (λ y. h y ≡ g y) (live st.res)) (sym (run-append d.made (o ∷ []) g))
              (keeps-update r (w g) g (run d.made g) (live st.res) is.1 (d.keeps g));
        regs = is.0;
        place = refl;
      }
    where
      either :
          (temp ≡ true) ⊎ (length (live st.res) ≤ 1)
          → (is_reg d.opr ≡ true) ⊎ (length (live st.res) ≤ 1)
      either (inl e) = inl (d.place ∙ e)
      either (inr n) = inr n

  get_kept :
      (l : Opr) (rest : List Opr) (g h : ℕ → V) (v : V)
      → get g l ≡ v
      → All (λ y. h y ≡ g y) (live (l ∷ rest))
      → get h l ≡ v
  get_kept (reg r) rest g h v e a = a.0 ∙ e
  get_kept (obj o) rest g h v e a = e

  All-trans :
      (f g h : ℕ → V) (ys : List ℕ)
      → All (λ y. h y ≡ g y) ys
      → All (λ y. g y ≡ f y) ys
      → All (λ y. h y ≡ f y) ys
  All-trans f g h [] a b = tt
  All-trans f g h (y ∷ ys) a b = (a.0 ∙ b.0, All-trans f g h ys a.1 b.1)

  run_one-binary :
      (h : ℕ → V) (kind r : ℕ) (l p : Opr) (v w : V)
      → get h l ≡ v
      → get h p ≡ w
      → Fresh r (live (p ∷ []))
      → run_one (binary_order kind l p r) h r ≡ binary_cac kind v w
  run_one-binary h kind r l p v w el ep f =
      let copied : ℕ → V = update h r (get h l) in
      update_same copied r (binary_cac kind (copied r) (get copied p))
      ∙ ap₂ (binary_cac kind) (update_same h r (get h l) ∙ el) (get-update r (get h l) h p f ∙ ep)

  -- A binary operator behind its operands.
  binary-made :
      (s u : List ExpEle) (x : ExpEle) (st : RegState) (v w : V) (tl tr : Bool)
      → x.flag ≡ binary_ele
      → (is_obj_binary_opt x.kind || (x.kind == and_and || x.kind == or_or)) ≡ false
      → (d : Done s st v tl) → (e : Done u d.after w tr)
      → (is_reg d.opr ≡ true) ⊎ Fresh (use_reg 0 e.after) (live (e.opr ∷ d.opr ∷ st.res))
      → Done ((s ++ u) ++ (x ∷ [])) st (binary_cac x.kind v w) true
  binary-made s u x st v w tl tr f k d e room =
      let top2 : e.after.res ≡ e.opr ∷ d.opr ∷ st.res = e.top ∙ ap (λ xs. e.opr ∷ xs) d.top in
      let r : ℕ = result_reg 0 d.opr e.after in
      let o : Order = binary_order x.kind d.opr e.opr r in
      let below = subst (λ xs. Below e.after.reg_cnt (live xs)) top2 e.regs.below in
      let distinct = subst (λ xs. Distinct (live xs)) top2 e.regs.distinct in
      let is =
        result-IsRegs d.opr st.res e.after e.regs
          (drop_Below e.after.reg_cnt e.opr (d.opr ∷ st.res) below)
          (drop_Distinct e.opr (d.opr ∷ st.res) distinct)
          (free_below e.opr d.opr st.res e.after room) in
      record {
        made = (d.made ++ e.made) ++ (o ∷ []);
        after = keep_reg 0 d.opr st.res e.after;
        opr = reg r;
        top = refl;
        set =
            one_more (s ++ u) x st e.after (d.made ++ e.made) o (keep_reg 0 d.opr st.res e.after)
              both
              (ap (λ fl. set_step 0 fl x e.after) f
                ∙ ap (λ xs. binary_set 0 x.kind xs e.after) top2
                ∙ if_false (is_obj_binary_opt x.kind || (x.kind == and_and || x.kind == or_or)) none
                    _ k);
        value = λ g.
            ap (λ h. h r) (runs g o)
            ∙ run_one-binary (run e.made (run d.made g)) x.kind r d.opr e.opr v w (left g)
                (e.value (run d.made g)) (apart e.opr d.opr st.res e.after distinct room);
        keeps = λ g.
            subst (λ h. All (λ y. h y ≡ g y) (live st.res)) (sym (runs g o))
              (keeps-update r _ g _ (live st.res) is.1 (
                keeps-update r _ g (run e.made (run d.made g)) (live st.res) is.1 (
                  All-trans g (run d.made g) (run e.made (run d.made g)) (live st.res)
                    (drop_All _ d.opr st.res (right_keeps g)) (d.keeps g))));
        regs = is.0;
        place = refl;
      }
    where
      both :
          (xs : List ExpEle)
          → set_opt_opr 0 ((s ++ u) ++ xs) st
            ≡ and_then (some (d.made ++ e.made, e.after)) (λ st'. set_opt_opr 0 xs st')
      both xs =
          ap (λ l. set_opt_opr 0 l st) (append_assoc s u xs)
          ∙ d.set (u ++ xs)
          ∙ ap (more d.made) (e.set xs)
          ∙ more-more d.made e.made (set_opt_opr 0 xs e.after)

      runs :
          (g : ℕ → V) (o : Order)
          → run ((d.made ++ e.made) ++ (o ∷ [])) g ≡ run_one o (run e.made (run d.made g))
      runs g o =
          run-append (d.made ++ e.made) (o ∷ []) g ∙ ap (run_one o) (run-append d.made e.made g)

      right_keeps :
          (g : ℕ → V)
          → All (λ y. run e.made (run d.made g) y ≡ run d.made g y) (live (d.opr ∷ st.res))
      right_keeps g =
          subst (λ xs. All (λ y. run e.made (run d.made g) y ≡ run d.made g y) (live xs)) d.top
            (e.keeps (run d.made g))

      left : (g : ℕ → V) → get (run e.made (run d.made g)) d.opr ≡ v
      left g =
          get_kept d.opr st.res (run d.made g) (run e.made (run d.made g)) v (d.value g)
            (right_keeps g)

  pub binary-Done :
      (s u : List ExpEle) (x : ExpEle) (st : RegState) (v w : V) (tl tr : Bool)
      → x.flag ≡ binary_ele
      → (is_obj_binary_opt x.kind || (x.kind == and_and || x.kind == or_or)) ≡ false
      → (d : Done s st v tl) → (e : Done u d.after w tr)
      → (tl ≡ true) ⊎ (length (live e.after.res) ≤ 1)
      → Done (s ++ (u ++ (x ∷ []))) st (binary_cac x.kind v w) true
  binary-Done s u x st v w tl tr f k d e room =
      subst (λ l. Done l st (binary_cac x.kind v w) true) (append_assoc s u (x ∷ []))
        (binary-made s u x st v w tl tr f k d e (spare room))
    where
      spare :
          (tl ≡ true) ⊎ (length (live e.after.res) ≤ 1)
          → (is_reg d.opr ≡ true) ⊎ Fresh (use_reg 0 e.after) (live (e.opr ∷ d.opr ∷ st.res))
      spare (inl t) = inl (d.place ∙ t)
      spare (inr n) = inr (
          subst (λ xs. Fresh (use_reg 0 e.after) (live xs)) (e.top ∙ ap (λ xs. e.opr ∷ xs) d.top)
            (use_reg-Fresh e.after e.regs n))
