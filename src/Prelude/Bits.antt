-- ===== src/Prelude/Bits.antt =====
-- `bit_or` with a mask of leading ones, from the digits that the native operation stands for.
use Prim.Native.Nat.{
  ℕ, zero, suc, ◌+◌, ◌-◌, ◌*◌, ◌/◌, ◌%◌, ◌^◌, ◌≤◌, ◌<◌, max, bit_or, digits, bit_or-bitwise,
}
use mathlib.Core.Path.{◌≡◌, refl, ap, sym, ◌∙◌}
use native.Mathlib.Nat.{pow-suc}
use native.Mathlib.Omega.{arith}

-- What `bit_or` stands for, on a given fuel.
abbrev joined : (fuel a b : ℕ) → ℕ
joined fuel a b = digits (λ rest. rest) max fuel a b

joined_zero : (fuel b : ℕ) → joined fuel 0 b ≡ b
joined_zero zero b = refl
joined_zero (suc fuel) b = refl

-- Any fuel that bounds the left operand gives the same digits.
joined_enough : (a b k l : ℕ) → a ≤ k → a ≤ l → joined k a b ≡ joined l a b
joined_enough zero b k l hk hl = joined_zero k b ∙ sym (joined_zero l b)
joined_enough (suc a) b zero l hk hl = absurd (omega arith)
joined_enough (suc a) b (suc k) zero hk hl = absurd (omega arith)
joined_enough (suc a) b (suc k) (suc l) hk hl =
    let half = suc a / 2 in
    let ih = joined_enough half (b / 2) k l (omega arith) (omega arith) in
    ap (λ t. t * 2 + max (suc a % 2) (b % 2)) ih

pub zero-bit_or : (b : ℕ) → bit_or 0 b ≡ b
zero-bit_or b = bit_or-bitwise 0 b

-- The last digit apart.
pub bit_or_step : (a b : ℕ) → bit_or a b ≡ bit_or (a / 2) (b / 2) * 2 + max (a % 2) (b % 2)
bit_or_step zero b = let none = zero-bit_or (b / 2) in omega (arith, zero-bit_or b, none)
bit_or_step (suc a) b =
    let half = suc a / 2 in
    let whole = bit_or-bitwise (suc a) b in
    let rest = bit_or-bitwise half (b / 2) in
    let fuel = joined_enough half (b / 2) a half (omega arith) (omega arith) in
    omega (arith, whole, rest, fuel)

-- Ones over all places absorb.
bit_or_ones : (n h : ℕ) → h < 2 ^ n → bit_or h (2 ^ n - 1) ≡ 2 ^ n - 1
bit_or_ones zero h lt = let e : h ≡ 0 = omega arith in ap (λ t. bit_or t 0) e ∙ zero-bit_or 0
bit_or_ones (suc n) h lt =
    let e : (2 ^ suc n - 1) / 2 ≡ 2 ^ n - 1 = omega (arith, pow-suc 2 n) in
    let ih = bit_or_ones n (h / 2) (omega (arith, pow-suc 2 n)) in
    let ih' : bit_or (h / 2) ((2 ^ suc n - 1) / 2) ≡ 2 ^ n - 1 = ap (bit_or (h / 2)) e ∙ ih in
    omega (arith, bit_or_step h (2 ^ suc n - 1), ih', pow-suc 2 n, pow_pos n)
  where
    pow_pos : (n : ℕ) → 0 < 2 ^ n
    pow_pos zero = omega arith
    pow_pos (suc n) = omega (arith, pow-suc 2 n, pow_pos n)

-- Over a word of `n + k` bits, a mask with `k` trailing zeros keeps the low `k` bits.
pub bit_or_mask :
    (k n q r : ℕ)
    → q < 2 ^ n
    → r < 2 ^ k
    → bit_or (q * 2 ^ k + r) (2 ^ n * 2 ^ k - 2 ^ k) ≡ 2 ^ n * 2 ^ k - 2 ^ k + r
bit_or_mask zero n q r hq hr =
    let e : q * 2 ^ zero + r ≡ q = omega arith in
    let f : 2 ^ n * 2 ^ zero - 2 ^ zero ≡ 2 ^ n - 1 = omega arith in
    omega (
      arith,
      ap (λ t. bit_or t (2 ^ n * 2 ^ zero - 2 ^ zero)) e,
      ap (bit_or q) f,
      bit_or_ones n q hq,
    )
bit_or_mask (suc k) n q r hq hr =
    let a = q * 2 ^ suc k + r in
    let m = 2 ^ n * 2 ^ suc k - 2 ^ suc k in
    let pa : q * 2 ^ suc k ≡ 2 * (q * 2 ^ k) = twice q (2 ^ k) (2 ^ suc k) (pow-suc 2 k) in
    let pm : 2 ^ n * 2 ^ suc k ≡ 2 * (2 ^ n * 2 ^ k) =
      twice (2 ^ n) (2 ^ k) (2 ^ suc k) (pow-suc 2 k) in
    let e : a / 2 ≡ q * 2 ^ k + r / 2 = omega (arith, pa) in
    let f : m / 2 ≡ 2 ^ n * 2 ^ k - 2 ^ k = omega (arith, pow-suc 2 k, pm) in
    let ih = bit_or_mask k n q (r / 2) hq (omega (arith, pow-suc 2 k)) in
    let ih' : bit_or (a / 2) (m / 2) ≡ 2 ^ n * 2 ^ k - 2 ^ k + r / 2 =
      ap (λ t. bit_or t (m / 2)) e ∙ ap (bit_or (q * 2 ^ k + r / 2)) f ∙ ih in
    let le : 2 ^ k ≤ 2 ^ n * 2 ^ k = grows (2 ^ n) (2 ^ k) (omega (arith, hq)) in
    let am : a % 2 ≡ r % 2 = omega (arith, pa) in
    let mm : m % 2 ≡ 0 = omega (arith, pow-suc 2 k, pm) in
    omega (arith, bit_or_step a m, ih', pow-suc 2 k, pm, am, mm, le)
  where
    twice : (q p s : ℕ) → s ≡ p * 2 → q * s ≡ 2 * (q * p)
    twice q p s e = ap (λ t. q * t) e ∙ grind arith

    grows : (q p : ℕ) → 0 < q → p ≤ q * p
    grows zero p h = absurd (omega arith)
    grows (suc q) p h = grind arith
