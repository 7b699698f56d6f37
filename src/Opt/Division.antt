-- ===== src/Opt/Division.antt =====
-- The integer arithmetic of code/czl_opt.c: `-=` undoes `+=`, and `/=` and `%=` together give the
-- dividend back.
use czl.Prelude.{
  ℕ, ◌+◌, ◌-◌, ◌*◌, ◌/◌, ◌%◌, ◌^◌, ◌<◌, ◌≤◌, ◌≡◌, ◌≢◌, ◌⊎◌, ◌∙◌, refl, ap, subst, false, ◌==◌,
  if◌then◌else◌, arith, Bool-cases, inl, inr,
}
use czl.Opt.Var.{long_word, is_negative, neg_long, int, Var, Fpu}
use czl.Opt.Arith.{
  magnitude, div_long, mod_long, sets, fails, add_a_cac, dec_a_cac, div_a_cac, mod_a_cac,
  div_overflows,
}
use native.Mathlib.Nat.{div-add-mod', mod-lt, div-le_self}

-- A product with a negated factor, and with two, in words.
neg_mul : (x y : ℕ) → x ≤ long_word → (long_word - x) * y + x * y ≡ long_word * y
neg_mul x y h =
    let e : long_word - x + x ≡ long_word = omega arith in
    distribute (long_word - x) x y ∙ ap (λ t. t * y) e
  where
    distribute : (u x y : ℕ) → u * y + x * y ≡ (u + x) * y
    distribute u x y = grind arith

mul_neg : (x y : ℕ) → y ≤ long_word → x * (long_word - y) + x * y ≡ long_word * x
mul_neg x y h = swapped ∙ neg_mul y x h
  where
    comm : (a b : ℕ) → a * b ≡ b * a
    comm a b = grind arith

    swapped : x * (long_word - y) + x * y ≡ (long_word - y) * x + y * x
    swapped = omega (arith, comm x (long_word - y), comm x y)

-- The quotient and the remainder, for each of the signs.
module _ (q b r : ℕ) (hq : q ≤ 2 ^ 63) (hb : b ≤ 2 ^ 63) (hr : r < b)
    (ha : q * b + r ≤ 2 ^ 63) where
  divide_pos_neg : (neg_long q * (long_word - b) + r) % long_word ≡ q * b + r
  divide_pos_neg = elim (Bool-cases (q == 0)) [
    | inl e ↦ let z : q ≡ 0 = ground arith in rw z (omega arith)
    | inr e ↦
        let n : neg_long q ≡ long_word - q = ground arith in
        let f = neg_mul q (long_word - b) (omega arith) in
        let g = mul_neg q b (omega arith) in rw n (omega (arith, f, g))
  ]

  divide_neg_pos :
      0 < q * b + r → (neg_long q * b + neg_long r) % long_word ≡ long_word - (q * b + r)
  divide_neg_pos pos = elim (Bool-cases (q == 0)) [
    | inl e ↦
        let z : q ≡ 0 = ground arith in
        let z' : 0 < r = omega (arith, ap (λ t. t * b) z, pos) in rw z (omega (arith, z'))
    | inr e ↦
        let n : neg_long q ≡ long_word - q = ground arith in
        let f = neg_mul q b (omega arith) in rw n (omega (arith, f, ha, pos))
  ]

  divide_neg_neg :
      0 < q * b + r → (q * (long_word - b) + neg_long r) % long_word ≡ long_word - (q * b + r)
  divide_neg_neg pos = omega (arith, mul_neg q b (omega arith), ha, pos)

magnitude_le : (a : ℕ) → a < long_word → magnitude a ≤ 2 ^ 63
magnitude_le a h = ground arith

pub div_mod_long :
    (a b : ℕ)
    → a < long_word
    → b < long_word
    → b ≢ 0
    → ((div_long a b * b + mod_long a b) % long_word ≡ a) × (magnitude (mod_long a b) < magnitude b)
div_mod_long a b ha hb ne =
    let A = magnitude a in
    let B = magnitude b in
    let pos : 0 < B = ground arith in
    let hA = magnitude_le a ha in
    let hB = magnitude_le b hb in
    let e : A / B * B + A % B ≡ A = div-add-mod' A B in
    let lt : A % B < B = mod-lt A pos in
    let q : A / B ≤ 2 ^ 63 = omega (arith, div-le_self A B, hA) in
    let sum : A / B * B + A % B ≤ 2 ^ 63 = omega (arith, e, hA) in
    let sizes : magnitude (mod_long a b) < B = remainder_lt a (A % B) B lt hB in
    elim (Bool-cases (is_negative a)) [
      | inl na ↦
          let m : mod_long a b ≡ neg_long (A % B) = rw na refl in
          let mA : long_word - A ≡ a = ground arith in
          let posA : 0 < A / B * B + A % B = omega (arith, e, mA, ha) in
          elim (Bool-cases (is_negative b)) [
            | inl nb ↦
                let d : div_long a b ≡ A / B = rw (na, nb) refl in
                let mB : long_word - B ≡ b = ground arith in
                let v = divide_neg_neg (A / B) B (A % B) q hB lt sum posA in
                (
                  rw (d, m)
                      (subst
                          (λ t.
                            (A / B * t + neg_long (A % B)) % long_word
                            ≡ long_word - (A / B * B + A % B))
                          mB v
                        ∙ ap (λ t. long_word - t) e
                        ∙ mA),
                  sizes,
                )
            | inr nb ↦
                let d : div_long a b ≡ neg_long (A / B) = rw (na, nb) refl in
                let mB : B ≡ b = rw nb refl in
                let v = divide_neg_pos (A / B) B (A % B) q hB lt sum posA in
                (
                  rw (d, m)
                      (subst
                          (λ t.
                            (neg_long (A / B) * t + neg_long (A % B)) % long_word
                            ≡ long_word - (A / B * B + A % B))
                          mB v
                        ∙ ap (λ t. long_word - t) e
                        ∙ mA),
                  sizes,
                )
          ]
      | inr na ↦
          let m : mod_long a b ≡ A % B = rw na refl in
          let mA : A ≡ a = rw na refl in
          elim (Bool-cases (is_negative b)) [
            | inl nb ↦
                let d : div_long a b ≡ neg_long (A / B) = rw (na, nb) refl in
                let mB : long_word - B ≡ b = ground arith in
                let v = divide_pos_neg (A / B) B (A % B) q hB lt sum in
                (
                  rw (d, m)
                      (subst (λ t. (neg_long (A / B) * t + A % B) % long_word ≡ A / B * B + A % B)
                          mB v
                        ∙ e
                        ∙ mA),
                  sizes,
                )
            | inr nb ↦
                let d : div_long a b ≡ A / B = rw (na, nb) refl in
                let mB : B ≡ b = rw nb refl in
                let v : (A / B * B + A % B) % long_word ≡ A / B * B + A % B = omega (arith, sum) in
                (
                  rw (d, m)
                      (subst (λ t. (A / B * t + A % B) % long_word ≡ A / B * B + A % B) mB v
                        ∙ e
                        ∙ mA),
                  sizes,
                )
          ]
    ]
  where
    remainder_lt :
        (a r B : ℕ) → r < B → B ≤ 2 ^ 63 → magnitude (if is_negative a then neg_long r else r) < B
    remainder_lt a r B lt hB = elim (Bool-cases (is_negative a)) [
      | inl n ↦ rw n (ground arith)
      | inr n ↦ rw n (ground arith)
    ]

-- `+=` and then `-=` of the same integer is the identity.
pub dec_a_cac-add_a :
    (F : Fpu) (left right : Var)
    → left.type ≡ int
    → right.type ≡ int
    → left.val < long_word
    → right.val < long_word
    → (sum : ℕ) × (add_a_cac F left right ≡ sets sum)
      × (dec_a_cac F (record left { val = sum }) right ≡ sets left.val)
unfolding add_a_cac dec_a_cac
dec_a_cac-add_a F left right hl hr wl wr =
    let e : ((left.val + right.val) % long_word + long_word - right.val) % long_word ≡ left.val =
      omega arith in
    ((left.val + right.val) % long_word, rw (hl, hr) refl, rw (hl, hr) (ap sets e))

-- Of two integers `/=` and `%=` both refuse where the divisor is 0; else, but for the quotient of the
-- least integer and -1, they give a quotient and a remainder of which the dividend is made up, the
-- remainder being less than the divisor in magnitude.
pub mod_a_cac-div_a :
    (F : Fpu) (left right : Var)
    → left.type ≡ int
    → right.type ≡ int
    → left.val < long_word
    → right.val < long_word
    → div_overflows left.val right.val ≡ false
    → ((right.val ≡ 0) × (div_a_cac F left right ≡ fails) × (mod_a_cac left right ≡ fails))
      ⊎ ((q : ℕ) × (r : ℕ) × (div_a_cac F left right ≡ sets q)
          × (mod_a_cac left right ≡ sets r)
          × ((q * right.val + r) % long_word ≡ left.val)
          × (magnitude r < magnitude right.val))
unfolding div_a_cac mod_a_cac
mod_a_cac-div_a F left right hl hr wl wr fits = elim (Bool-cases (right.val == 0)) [
  | inl e ↦ let z : right.val ≡ 0 = ground arith in inl (z, rw (hr, e) refl, rw (hl, hr, e) refl)
  | inr e ↦
      let ne : right.val ≢ 0 = λ z. absurd (ground arith) in
      let d = div_mod_long left.val right.val wl wr ne in
      inr (
        div_long left.val right.val,
        mod_long left.val right.val,
        rw (hl, hr, e, fits) refl,
        rw (hl, hr, e, fits) refl,
        d.0,
        d.1,
      )
]
