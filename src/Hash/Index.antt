-- ===== src/Hash/Index.antt =====
-- The index of a hash: within the table, and the low bits of the hash.
use Prim.Native.Nat.{bit_or}
use czl.Prelude.{
  ℕ, zero, suc, ◌+◌, ◌-◌, ◌*◌, ◌/◌, ◌%◌, ◌^◌, ◌≤◌, ◌<◌, ◌≡◌, ap, ◌∙◌, arith, sym, subst, ap₂,
}
use czl.Prelude.Bits.{bit_or_mask}
use czl.Mm.State.{word}
use czl.Hash.Key.{index_cac}
use native.Mathlib.Nat.{pow-suc, pow-le-pow_right, mod-lt, div-lt_iff_lt-mul, div-add-mod'}

pub pow_pos : (k : ℕ) → 0 < 2 ^ k
pow_pos zero = omega arith
pow_pos (suc k) = omega (arith, pow-suc 2 k, pow_pos k)

pow_add : (n k : ℕ) → 2 ^ (n + k) ≡ 2 ^ n * 2 ^ k
pow_add zero k =
    let unit : (a : ℕ) → a ≡ 1 * a = λ a. omega arith in
    let e : 0 + k ≡ k = omega arith in ap (λ t. 2 ^ t) e ∙ unit (2 ^ k)
pow_add (suc n) k =
    let e : suc n + k ≡ suc (n + k) = omega arith in
    ap (λ t. 2 ^ t) e
    ∙ pow-suc 2 (n + k)
    ∙ ap (λ t. t * 2) (pow_add n k)
    ∙ twice (2 ^ n) (2 ^ k)
    ∙ ap (λ t. t * 2 ^ k) (sym (pow-suc 2 n))
  where
    twice : (a b : ℕ) → a * b * 2 ≡ a * 2 * b
    twice a b = grind arith

word_split : (k : ℕ) → k ≤ 32 → 2 ^ (32 - k) * 2 ^ k ≡ word
word_split k le =
    let e : 32 - k + k ≡ 32 = omega arith in sym (pow_add (32 - k) k) ∙ ap (λ t. 2 ^ t) e

-- With the mask `- 2 ^ k` of a table of `2 ^ k` buckets, the index is `2 ^ k - 1` less the low bits
-- of the hash.
pub index_cac_eq :
    (k hash : ℕ) → k ≤ 31 → hash < word → index_cac hash (word - 2 ^ k) ≡ 2 ^ k - 1 - hash % 2 ^ k
unfolding index_cac
index_cac_eq k hash le lt =
    let w = word_split k (omega arith) in
    let q = hash / 2 ^ k in
    let r = hash % 2 ^ k in
    let hr : r < 2 ^ k = mod-lt hash (pow_pos k) in
    let hq : q < 2 ^ (32 - k) =
      (div-lt_iff_lt-mul {x = hash} {y = 2 ^ (32 - k)} (pow_pos k)).1
        (subst (λ t. hash < t) (sym w) lt) in
    let e : bit_or hash (word - 2 ^ k) ≡ word - 2 ^ k + r =
      ap₂ bit_or (sym (div-add-mod' hash (2 ^ k))) (ap (λ t. t - 2 ^ k) (sym w))
      ∙ bit_or_mask k (32 - k) q r hq hr
      ∙ ap (λ t. t - 2 ^ k + r) w in
    let small : 2 ^ k ≤ 2 ^ 31 = pow-le-pow_right (omega arith) le in
    rw e (ground (arith, small, hr))
