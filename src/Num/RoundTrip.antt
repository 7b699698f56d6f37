-- ===== src/Num/RoundTrip.antt =====
-- czl_atoi on what czl_itoa64 writes.
use czl.Prelude.{
  ℕ, zero, suc, ◌+◌, ◌-◌, ◌*◌, ◌/◌, ◌%◌, ◌^◌, ◌<◌, ◌≤◌, ◌≡◌, ◌≢◌, ◌∙◌, refl, sym, ap, true, false,
  none, some, List, [], ◌∷◌, ◌==◌, length, arith, All, Bool-cases, inl, inr, ==_iff, passes_under,
  passes_under_sound,
}
use czl.Opt.Var.{long_word, is_negative, neg_long}
use czl.Opt.Arith.{div_long, magnitude}
use czl.Num.{
  num_by_char, digits_loop, itoa64, pow_loop, char_power, digit_sum, is_exp, split_exp, atoi,
}
use native.Mathlib.Nat.{pow-suc}

-- The number that a decimal text stands for.
abbrev pub decimal : List ℕ → ℕ
decimal [] = 0
decimal (c ∷ s) = num_by_char c * 10 ^ length s + decimal s

abbrev pub IsDigit : ℕ → Type 0
IsDigit c = (48 ≤ c) × (c ≤ 57)

pub div_ten : (m : ℕ) → m < 2 ^ 63 → div_long m 10 ≡ m / 10
div_ten m h = ground arith

-- The character of the last digit.
abbrev pub last_char : ℕ → ℕ
last_char m = ((m + long_word - div_long m 10 * 10 % long_word) % 256 + 48) % 256

last_char-eq : (m : ℕ) → m < 2 ^ 63 → last_char m ≡ m % 10 + 48
last_char-eq m h = let e = div_ten m h in rw e (omega (arith, h))

digit-value : (d : ℕ) → d < 10 → num_by_char (d + 48) ≡ d
digit-value d h = ground arith

scale : (q d m p t : ℕ) → t ≡ p * 10 → m ≡ q * 10 + d → q * t + d * p ≡ m * p
scale q d m p t e f = rw (e, f) (grind arith)

last_char-IsDigit : (m : ℕ) → m < 2 ^ 63 → IsDigit (last_char m)
last_char-IsDigit m h = let e = last_char-eq m h in (omega (arith, e), omega (arith, e))

-- One more digit in front.
last_char-decimal :
    (m : ℕ) (res : List ℕ)
    → m < 2 ^ 63
    → decimal (last_char m ∷ res) ≡ m % 10 * 10 ^ length res + decimal res
last_char-decimal m res h =
    let e : num_by_char (last_char m) ≡ m % 10 =
      ap num_by_char (last_char-eq m h) ∙ digit-value (m % 10) (omega arith) in
    ap (λ d. d * 10 ^ length res + decimal res) e

-- With a round for each digit, the loop writes digits only, no more than rounds, and what it writes
-- stands for the number, in front of what was there.
pub digits_loop-decimal :
    (fuel m : ℕ) (res : List ℕ)
    → m < 2 ^ 63
    → m < 10 ^ suc fuel
    → All IsDigit res
    → (out : List ℕ) × (digits_loop (suc fuel) m res ≡ some out)
      × All IsDigit out
      × (0 < length out)
      × (length out ≤ suc fuel + length res)
      × (decimal out ≡ m * 10 ^ length res + decimal res)
unfolding digits_loop
digits_loop-decimal zero m res h lt v =
    let q = div_long m 10 in
    let dq : q ≡ m / 10 = div_ten m h in
    let z : (q == 0) ≡ true = ground arith in
    let small : m % 10 ≡ m = omega arith in
    (
      last_char m ∷ res,
      rw z refl,
      (last_char-IsDigit m h, v),
      omega arith,
      omega arith,
      last_char-decimal m res h ∙ ap (λ d. d * 10 ^ length res + decimal res) small,
    )
digits_loop-decimal (suc fuel) m res h lt v =
    let q = div_long m 10 in
    let dq : q ≡ m / 10 = div_ten m h in
    let c = last_char m in
    let dc = last_char-decimal m res h in
    let digit = last_char-IsDigit m h in
    elim (Bool-cases (q == 0)) [
      | inl z ↦
          let zero_q : m / 10 ≡ 0 = sym dq ∙ (==_iff q 0).0 z in
          let small : m % 10 ≡ m = omega (arith, zero_q) in
          (
            c ∷ res,
            rw z refl,
            (digit, v),
            omega arith,
            omega arith,
            dc ∙ ap (λ d. d * 10 ^ length res + decimal res) small,
          )
      | inr z ↦
          let r =
            digits_loop-decimal fuel q (c ∷ res) (omega (arith, dq))
              (omega (arith, dq, pow-suc 10 (suc fuel))) (digit, v) in
          let sc =
            scale q (m % 10) m (10 ^ length res) (10 ^ suc (length res)) (pow-suc 10 (length res))
              (omega (arith, dq)) in
          (r.0, rw z r.1, r.2, r.3, omega (arith, r.4), omega (arith, r.5, dc, sc))
    ]

-- The powers of ten below 2 ^ 64 are computed without wrapping.
ten_power : (i : ℕ) → i < 20 → char_power 10 i ≡ 10 ^ i
unfolding passes_under pow_loop
ten_power i h =
    (==_iff (char_power 10 i) (10 ^ i)).0
      (passes_under_sound (λ i. char_power 10 i == 10 ^ i) 20 i h table)
  where
    table : passes_under (λ i. char_power 10 i == 10 ^ i) 20 ≡ true
    table = refl

pub digit_sum-decimal :
    (s : List ℕ) → length s ≤ 20 → decimal s < long_word → digit_sum 10 s ≡ decimal s
unfolding digit_sum
digit_sum-decimal [] le lt = refl
digit_sum-decimal (c ∷ s) le lt =
    let ih = digit_sum-decimal s (omega (arith, le)) (omega (arith, lt)) in
    let e = ten_power (length s) (omega (arith, le)) in rw (ih, e) (omega (arith, lt))

pub digits-split : (s : List ℕ) → All IsDigit s → split_exp s ≡ (s, none)
unfolding split_exp
digits-split [] v = refl
digits-split (c ∷ s) v =
    let n : is_exp c ≡ false = let h = v.0 in ground arith in rw (n, digits-split s v.1) refl

minus-split : (s : List ℕ) → All IsDigit s → split_exp (45 ∷ s) ≡ (45 ∷ s, none)
unfolding split_exp
minus-split s v = rw (digits-split s v) refl

pub atoi-plain :
    (s : List ℕ) → 0 < length s → split_exp s ≡ (s, none) → atoi s 10 ≡ some (digit_sum 10 s)
unfolding atoi
atoi-plain [] lt e = absurd (omega arith)
atoi-plain (c ∷ s) lt e = rw e refl

-- What the loop writes of a number that is not negative.
pub written :
    (m : ℕ)
    → m < 2 ^ 63
    → (out : List ℕ) × (digits_loop 19 m [] ≡ some out)
      × All IsDigit out
      × (length out ≤ 19)
      × (decimal out ≡ m)
      × (0 < length out)
written m h =
    let r = digits_loop-decimal 18 m [] h (omega (arith, h)) tt in
    (r.0, r.1, r.2, omega (arith, r.4), omega (arith, r.5), r.3)

-- For every czl_long but the least, czl_itoa64 ends, writes at most 20 characters, and czl_atoi reads
-- them, in base ten, as the magnitude of the number (it passes over the sign).
pub itoa64-atoi :
    (num : ℕ)
    → num < long_word
    → num ≢ 2 ^ 63
    → (s : List ℕ) × (itoa64 num ≡ some s) × (length s ≤ 20) × (atoi s 10 ≡ some (magnitude num))
unfolding itoa64
itoa64-atoi num h ne = elim (Bool-cases (is_negative num)) [
  | inl n ↦
      let m : neg_long num ≡ long_word - num = ground arith in
      let w = written (neg_long num) (omega (arith, m, is_negative-le num n, ne)) in
      let mag : magnitude num ≡ neg_long num = rw n (sym m) in
      let minus : split_exp (45 ∷ w.0) ≡ (45 ∷ w.0, none) = minus-split w.0 w.2 in
      let sum = digit_sum-decimal (45 ∷ w.0) (omega (arith, w.3)) (omega (arith, w.4, m, h)) in
      let value : digit_sum 10 (45 ∷ w.0) ≡ neg_long num = sum ∙ omega (arith, w.4) in
      (
        45 ∷ w.0,
        rw (n, w.1) refl,
        omega (arith, w.3),
        atoi-plain (45 ∷ w.0) (omega arith) minus ∙ ap some (value ∙ sym mag),
      )
  | inr n ↦
      let w = written num (is_positive-lt num n) in
      let mag : magnitude num ≡ num = rw n refl in
      let sum = digit_sum-decimal w.0 (omega (arith, w.3)) (omega (arith, w.4, h)) in
      (
        w.0,
        rw n w.1,
        omega (arith, w.3),
        atoi-plain w.0 w.5 (digits-split w.0 w.2) ∙ ap some (sum ∙ w.4 ∙ sym mag),
      )
]
  where
    is_negative-le : (a : ℕ) → is_negative a ≡ true → 2 ^ 63 ≤ a
    is_negative-le a n = ground arith

    is_positive-lt : (a : ℕ) → is_negative a ≡ false → a < 2 ^ 63
    is_positive-lt a n = ground arith
