-- ===== src/Sort/Order.antt =====
-- What a sorted sequence is, and what the sorts ask of the comparison.
use czl.Prelude.{◌≡◌, refl, Bool, true, false, not, List, [], ◌∷◌, ◌++◌, All}
use czl.Sort.{CmpRet, descending}
use czl.Prelude.{All-append}

module _ {A : Type 0} where
  -- Each element stands in the relation to all that follow.
  unfoldable pub IsSorted : (A → A → Type 0) → List A → Type 0
  IsSorted R [] = Unit
  IsSorted R (x ∷ xs) = All (R x) xs × IsSorted R xs

  -- The relation of the sorted sequences, and the part an element is sent to.
  pub record Fits (R : A → A → Type 0) (cmp : A → A → CmpRet) : Type 0 where
    pub sent_left : (x y : A) → (cmp x y).left ≡ true → R x y
    pub sent_right : (x y : A) → (cmp x y).left ≡ false → R y x
    pub trans : (x y z : A) → R x y → R y z → R x z

  -- The relations that ascending and descending sequences have: no later element is less, or
  -- greater.
  abbrev pub NotGreater : (A → A → CmpRet) → A → A → Type 0
  NotGreater cmp x y = (cmp y x).left ≡ false

  abbrev pub NotLess : (A → A → CmpRet) → A → A → Type 0
  NotLess cmp x y = (cmp x y).left ≡ false

  -- A strict weak order.
  pub record IsOrder (cmp : A → A → CmpRet) : Type 0 where
    pub asym : (x y : A) → (cmp x y).left ≡ true → (cmp y x).left ≡ false
    pub weak :
        (x y z : A) → (cmp x y).left ≡ false → (cmp y z).left ≡ false → (cmp x z).left ≡ false

  pub Fits-ascending : (cmp : A → A → CmpRet) → IsOrder cmp → Fits (NotGreater cmp) cmp
  Fits-ascending cmp o = record {
    sent_left = o.asym;
    sent_right = λ x y e. e;
    trans = λ x y z xy yz. o.weak z y x yz xy;
  }

  pub Fits-descending : (cmp : A → A → CmpRet) → IsOrder cmp → Fits (NotLess cmp) (descending cmp)
  Fits-descending cmp o = record {
    sent_left = λ x y e. not_true ((cmp x y).left) e;
    sent_right = λ x y e. o.asym x y (not_false ((cmp x y).left) e);
    trans = o.weak;
  }
    where
      not_true : (b : Bool) → not b ≡ true → b ≡ false
      not_true true e = absurd cc
      not_true false e = refl

      not_false : (b : Bool) → not b ≡ false → b ≡ true
      not_false true e = refl
      not_false false e = absurd cc

  pub All-map : {P Q : A → Type 0} (xs : List A) → ((x : A) → P x → Q x) → All P xs → All Q xs
  All-map [] f h = tt
  All-map (x ∷ xs) f h = (f x h.0, All-map xs f h.1)

  -- Two sorted parts with an element between them.
  pub IsSorted-join :
      (R : A → A → Type 0) (lo hi : List A) (p : A)
      → ((x y z : A) → R x y → R y z → R x z)
      → IsSorted R lo
      → IsSorted R hi
      → All (λ x. R x p) lo
      → All (R p) hi
      → IsSorted R (lo ++ p ∷ hi)
  unfolding IsSorted
  IsSorted-join R [] hi p trans sl sh below above = (above, sh)
  IsSorted-join R (x ∷ lo) hi p trans sl sh below above = (
    All-append (R x) lo (p ∷ hi) sl.0 (below.0, All-map hi (λ z pz. trans x p z below.0 pz) above),
    IsSorted-join R lo hi p trans sl.1 sh below.1 above,
  )
