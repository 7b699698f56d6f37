-- ===== src/Num/Small.antt =====
-- czl_itoa32 and czl_itoa of code/czl_lib.c: integers of 32 bits, and the choice between the two.
use czl.Prelude.{
  ℕ, zero, suc, ◌+◌, ◌-◌, ◌*◌, ◌/◌, ◌%◌, ◌^◌, ◌<◌, ◌≤◌, ◌≡◌, ◌∙◌, refl, sym, ap, Bool, true, false,
  ◌||◌, Option, none, some, List, [], ◌∷◌, ◌==◌, leb, arith, Bool-cases, inl, inr, if◌then◌else◌,
}
use czl.Mm.State.{word}
use czl.Opt.Var.{long_word, is_negative, neg_long}
use czl.Opt.Arith.{div_long}
use czl.Num.{digits_loop, itoa64, with_sign}
use czl.Num.RoundTrip.{div_ten}
use native.Mathlib.Nat.{pow-suc}

-- A long of 32 bits.
abbrev pub is_negative32 : ℕ → Bool
is_negative32 a = leb (2 ^ 31) a

abbrev pub neg32 : ℕ → ℕ
neg32 a = (word - a) % word

abbrev pub div_ten32 : ℕ → ℕ
div_ten32 a = if is_negative32 a then neg32 (neg32 a / 10) else a / 10

unfoldable pub digits_loop32 : ℕ → ℕ → List ℕ → Option (List ℕ)
digits_loop32 zero num res = none
digits_loop32 (suc fuel) num res =
    let q = div_ten32 num in
    let res' = ((num + word - q * 10 % word) % 256 + 48) % 256 ∷ res in
    let rest = digits_loop32 fuel q res' in if q == 0 then some res' else rest

-- czl_itoa32. Ten rounds are enough for 31 bits.
unfoldable pub itoa32 : ℕ → Option (List ℕ)
itoa32 num =
    if is_negative32 num
    then with_sign (digits_loop32 10 (neg32 num) [])
    else digits_loop32 10 num []

-- czl_itoa: from -2147483647 to 2147483647 the number is cut to a long.
abbrev pub fits32 : ℕ → Bool
fits32 num = leb num 2147483647 || leb (long_word - 2147483647) num

unfoldable pub itoa : ℕ → Option (List ℕ)
itoa num = if fits32 num then itoa32 (num % word) else itoa64 num

-- One round of either loop on a number of 31 bits.
digits_loop32_step :
    (k m : ℕ) (res : List ℕ)
    → m < 2 ^ 31
    → digits_loop32 (suc k) m res ≡ (
        if m / 10 == 0
        then some ((m % 10 + 48) ∷ res)
        else digits_loop32 k (m / 10) ((m % 10 + 48) ∷ res))
unfolding digits_loop32
digits_loop32_step k m res h =
    let pos : is_negative32 m ≡ false = ground arith in
    let char : ((m + word - m / 10 * 10 % word) % 256 + 48) % 256 ≡ m % 10 + 48 =
      omega (arith, h) in
    rw (pos, char) refl

digits_loop_step :
    (k m : ℕ) (res : List ℕ)
    → m < 2 ^ 31
    → digits_loop (suc k) m res ≡ (
        if m / 10 == 0
        then some ((m % 10 + 48) ∷ res)
        else digits_loop k (m / 10) ((m % 10 + 48) ∷ res))
unfolding digits_loop
digits_loop_step k m res h =
    let q : div_long m 10 ≡ m / 10 = div_ten m (omega (arith, h)) in
    let char : ((m + long_word - m / 10 * 10 % long_word) % 256 + 48) % 256 ≡ m % 10 + 48 =
      omega (arith, h) in
    rw (q, char) refl

-- On numbers of 31 bits the two loops write the same, with a round for each digit.
loops_agree :
    (k j m : ℕ) (res : List ℕ)
    → m < 10 ^ suc k
    → m < 2 ^ 31
    → digits_loop32 (suc k) m res ≡ digits_loop (suc (k + j)) m res
loops_agree zero j m res lt small =
    let last : (m / 10 == 0) ≡ true = ground arith in
    rw (digits_loop32_step 0 m res small, digits_loop_step (0 + j) m res small, last) refl
loops_agree (suc k) j m res lt small =
    let less : m / 10 < 10 ^ suc k = omega (arith, lt, pow-suc 10 (suc k)) in
    let rest = loops_agree k j (m / 10) ((m % 10 + 48) ∷ res) less (omega (arith, small)) in
    let step = digits_loop_step (suc (k + j)) m res small in
    let shift : suc (suc k + j) ≡ suc (suc (k + j)) = omega arith in
    digits_loop32_step (suc k) m res small
    ∙ ap (λ o. if m / 10 == 0 then some ((m % 10 + 48) ∷ res) else o) rest
    ∙ sym step
    ∙ ap (λ n. digits_loop n m res) (sym shift)

ten_rounds : (m : ℕ) → m < 2 ^ 31 → digits_loop32 10 m [] ≡ digits_loop 19 m []
ten_rounds m small = loops_agree 9 9 m [] (omega (arith, small)) small

-- czl_itoa writes every czl_long as czl_itoa64 does, whichever of the two functions it calls.
pub itoa-itoa64 : (num : ℕ) → num < long_word → itoa num ≡ itoa64 num
unfolding itoa itoa32 itoa64
itoa-itoa64 num h = elim (Bool-cases (fits32 num)) [
  | inr far ↦ rw far refl
  | inl near ↦ elim (Bool-cases (is_negative num)) [
    | inl n ↦
        let low : long_word - 2147483647 ≤ num = ground arith in
        let n32 : is_negative32 (num % word) ≡ true = ground arith in
        let same : neg32 (num % word) ≡ neg_long num = omega (arith, h, low) in
        let small : neg_long num < 2 ^ 31 = omega (arith, h, low) in
        let loops = ten_rounds (neg_long num) small in rw (near, n, n32, same) (ap with_sign loops)
    | inr n ↦
        let high : num ≤ 2147483647 = ground arith in
        let n32 : is_negative32 (num % word) ≡ false = ground arith in
        let same : num % word ≡ num = omega (arith, high) in
        rw (near, n, n32, same) (ten_rounds num (omega (arith, high)))
  ]
]
