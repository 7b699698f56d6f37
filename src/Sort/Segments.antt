-- ===== src/Sort/Segments.antt =====
-- Segments of an array: what a write, a swap and a cut do to the number of elements that pass a test
-- and to the elements at the other places.
use czl.Prelude.{
  ℕ, zero, suc, ◌+◌, ◌≤◌, ◌<◌, ◌≡◌, ◌≢◌, refl, sym, ap, Bool, true, false, List, [], ◌∷◌, arith,
  get_or, set, length, length-set, get_or-set_self, get_or-set_ne, ◌⊎◌, inl, inr, Bool-cases, All,
  ◌==◌, ==_iff, ltb, ltb→lt,
}
use czl.Hash.Tally.{tally, one_if}
use czl.Sort.{take, drop, swap}

pub true_not_false : {b : Bool} → b ≡ true → b ≡ false → ⊥
true_not_false t f = let e : true ≡ false = cc in absurd cc

pub nat_cases : (i j : ℕ) → (i ≡ j) ⊎ (i ≢ j)
nat_cases i j = elim (Bool-cases (i == j)) [
  | inl same ↦ inl ((==_iff i j).0 same)
  | inr diff ↦
      inr (λ e. let same : (i == j) ≡ true = (==_iff i j).1 e in absurd (true_not_false same diff))
]

pub lt_cases : (i j : ℕ) → (i < j) ⊎ (j ≤ i)
lt_cases i j = elim (Bool-cases (ltb i j)) [
  | inl less ↦ inl (ltb→lt i j less)
  | inr more ↦ inr (ground arith)
]

module _ {A : Type 0} where
  pub tally-write :
      (P : A → Bool) (a : List A) (i : ℕ) (x d : A)
      → i < length a
      → tally P (set a i x) + one_if (P (get_or a i d)) ≡ tally P a + one_if (P x)
  tally-write P [] i x d lt = absurd (omega arith)
  tally-write P (y ∷ a) zero x d lt = omega arith
  tally-write P (y ∷ a) (suc i) x d lt = omega (arith, tally-write P a i x d (omega arith))

  pub length-swap : (d : A) (a : List A) (i j : ℕ) → length (swap d a i j) ≡ length a
  length-swap d a i j =
      rw (length-set (set a i (get_or a j d)) j (get_or a i d), length-set a i (get_or a j d)) refl

  pub get_or-swap_right :
      (d : A) (a : List A) (i j : ℕ) → j < length a → get_or (swap d a i j) j d ≡ get_or a i d
  get_or-swap_right d a i j lt =
      get_or-set_self (set a i (get_or a j d)) j (get_or a i d) d
        (rw (length-set a i (get_or a j d)) lt)

  pub get_or-swap_left :
      (d : A) (a : List A) (i j : ℕ)
      → i < length a
      → j < length a
      → get_or (swap d a i j) i d ≡ get_or a j d
  get_or-swap_left d a i j hi hj = elim (nat_cases i j) [
    | inl e ↦
        rw (ap (λ n. get_or (swap d a i j) n d) e, get_or-swap_right d a i j hj)
          (ap (λ n. get_or a n d) e)
    | inr ne ↦
        rw (get_or-set_ne (set a i (get_or a j d)) j i (get_or a i d) d (λ e. ne (sym e)))
          (get_or-set_self a i (get_or a j d) d hi)
  ]

  pub get_or-swap_other :
      (d : A) (a : List A) (i j k : ℕ) → i ≢ k → j ≢ k → get_or (swap d a i j) k d ≡ get_or a k d
  get_or-swap_other d a i j k hi hj =
      rw (get_or-set_ne (set a i (get_or a j d)) j k (get_or a i d) d hj)
        (get_or-set_ne a i k (get_or a j d) d hi)

  -- A swap loses no element.
  pub tally-swap :
      (P : A → Bool) (d : A) (a : List A) (i j : ℕ)
      → i < length a
      → j < length a
      → tally P (swap d a i j) ≡ tally P a
  tally-swap P d a i j hi hj =
      let once = set a i (get_or a j d) in
      let first = tally-write P a i (get_or a j d) d hi in
      let second = tally-write P once j (get_or a i d) d (rw (length-set a i (get_or a j d)) hj) in
      let at_j : get_or once j d ≡ get_or a j d = written in
      let at_j' = ap (λ x. one_if (P x)) at_j in omega (arith, first, second, at_j')
    where
      written : get_or (set a i (get_or a j d)) j d ≡ get_or a j d
      written = elim (nat_cases i j) [
        | inl e ↦
            rw (ap (λ n. get_or (set a i (get_or a j d)) n d) (sym e))
              (get_or-set_self a i (get_or a j d) d hi)
        | inr ne ↦ get_or-set_ne a i j (get_or a j d) d ne
      ]

  pub take-drop :
      (P : A → Bool) (a : List A) (m : ℕ) (d : A)
      → m < length a
      → tally P (take m a) + (one_if (P (get_or a m d)) + tally P (drop (suc m) a)) ≡ tally P a
  take-drop P [] m d lt = absurd (omega arith)
  take-drop P (x ∷ a) zero d lt = omega arith
  take-drop P (x ∷ a) (suc m) d lt = omega (arith, take-drop P a m d (omega arith))

  pub tally-cut :
      (P : A → Bool) (a : List A) (m : ℕ) → tally P (take m a) + tally P (drop m a) ≡ tally P a
  tally-cut P a zero = omega arith
  tally-cut P [] (suc m) = omega arith
  tally-cut P (x ∷ a) (suc m) = omega (arith, tally-cut P a m)

  pub length-take : (a : List A) (m : ℕ) → m ≤ length a → length (take m a) ≡ m
  length-take a zero le = refl
  length-take [] (suc m) le = absurd (omega arith)
  length-take (x ∷ a) (suc m) le = omega (arith, length-take a m (omega arith))

  pub length-drop : (a : List A) (m : ℕ) → m ≤ length a → length (drop m a) + m ≡ length a
  length-drop a zero le = omega arith
  length-drop [] (suc m) le = absurd (omega arith)
  length-drop (x ∷ a) (suc m) le = omega (arith, length-drop a m (omega arith))

  -- Where no element before `m` passes, none of the first `m` is counted.
  pub tally-take :
      (P : A → Bool) (a : List A) (m : ℕ) (d : A)
      → ((j : ℕ) → j < m → P (get_or a j d) ≡ false)
      → tally P (take m a) ≡ 0
  tally-take P a zero d h = refl
  tally-take P [] (suc m) d h = refl
  tally-take P (x ∷ a) (suc m) d h =
      let rest = tally-take P a m d (λ j lt. h (suc j) (omega arith)) in
      let first : P x ≡ false = h 0 (omega arith) in rw first (omega (arith, rest))

  -- Nor after `m`, among the rest.
  pub tally-drop :
      (P : A → Bool) (a : List A) (m : ℕ) (d : A)
      → ((j : ℕ) → m ≤ j → j < length a → P (get_or a j d) ≡ false)
      → tally P (drop m a) ≡ 0
  tally-drop P [] zero d h = refl
  tally-drop P [] (suc m) d h = refl
  tally-drop P (x ∷ a) zero d h =
      let rest = tally-drop P a zero d (λ j le lt. h (suc j) (omega arith) (omega arith)) in
      let first : P x ≡ false = h 0 (omega arith) (omega arith) in rw first (omega (arith, rest))
  tally-drop P (x ∷ a) (suc m) d h =
      tally-drop P a m d (λ j le lt. h (suc j) (omega arith) (omega arith))

  pub tally-All : (P : A → Bool) (a : List A) → tally P a ≡ 0 → All (λ x. P x ≡ false) a
  tally-All P [] e = tt
  tally-All P (x ∷ a) e = elim (Bool-cases (P x)) [
    | inl hit ↦ let e' : 1 + tally P a ≡ 0 = rw hit at e in absurd (omega arith)
    | inr miss ↦ (miss, tally-All P a (omega (arith, e)))
  ]
