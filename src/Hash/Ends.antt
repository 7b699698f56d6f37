-- ===== src/Hash/Ends.antt =====
-- The loop of czl_num_hash of code/czl_vm.c: for which numbers it ends.
use Prim.Native.Nat.{bit_xor}
use czl.Prelude.{
  leb→le, ne→==, ℕ, zero, suc, ◌+◌, ◌-◌, ◌*◌, ◌/◌, ◌%◌, ◌^◌, ◌≤◌, ◌<◌, ◌≡◌, ◌≢◌, refl, true, false,
  none, some, arith, Bool-cases, inl, inr, leb, ◌==◌,
}
use czl.Mm.State.{word}
use czl.Hash.Key.{long_word, long_negative, mix_loop, num_hash}
use native.Mathlib.Nat.{pow-suc}

-- A number that is not negative is halved to 0.
mix_loop_ends :
    (k hash num key : ℕ)
    → num < 2 ^ k
    → num < 2 ^ 63
    → (h : ℕ) × (mix_loop (suc k) hash num key ≡ some h)
mix_loop_ends zero hash num key lt small =
    let pos : long_negative num ≡ false = ground arith in
    let done : (num / 2 == 0) ≡ true = ground arith in
    ((hash * 131 + num / 2 * (key / 2)) % word, rw (pos, done) refl)
mix_loop_ends (suc k) hash num key lt small =
    let pos : long_negative num ≡ false = ground arith in
    elim (Bool-cases (num / 2 == 0)) [
      | inl done ↦ ((hash * 131 + num / 2 * (key / 2)) % word, rw (pos, done) refl)
      | inr more ↦
          let rest =
            mix_loop_ends k ((hash * 131 + num / 2 * (key / 2)) % word) (num / 2) (key / 2)
              (omega (arith, lt, pow-suc 2 k)) (omega (arith, small)) in
          (rest.0, rw (pos, more) rest.1)
    ]

-- A negative number stays negative.
mix_loop-none :
    (fuel hash num key : ℕ) → 2 ^ 63 ≤ num → num < 2 ^ 64 → mix_loop fuel hash num key ≡ none
mix_loop-none zero hash num key neg lt = refl
mix_loop-none (suc fuel) hash num key neg lt =
    let n : long_negative num ≡ true = ground arith in
    let z : (num / 2 + 2 ^ 63 == 0) ≡ false = ground arith in
    let rest =
      mix_loop-none fuel ((hash * 131 + (num / 2 + 2 ^ 63) * (key / 2)) % word) (num / 2 + 2 ^ 63)
        (key / 2) (omega arith) (omega (arith, neg, lt)) in
    rw (n, z) rest

-- The hash of every number but the least czl_long is computed, with 64 rounds at most, whatever the
-- key and the number of attacks.
pub num_hash_ends :
    (num key attack_cnt : ℕ)
    → num < long_word
    → num ≢ 2 ^ 63
    → (h : ℕ) × (num_hash 64 num key attack_cnt ≡ some h)
unfolding num_hash
num_hash_ends num key attack_cnt lt ne = elim (Bool-cases (attack_cnt == 0)) [
  | inl plain ↦ rw plain (elim (Bool-cases (long_negative num)) [
    | inl neg ↦ (num % word, rw neg refl)
    | inr pos ↦ elim (Bool-cases (leb num (word - 1))) [
      | inl low ↦ (num, rw (pos, low) refl)
      | inr high ↦ (bit_xor (num / word) (num % word), rw (pos, high) refl)
    ]
  ])
  | inr attacked ↦ rw attacked (elim (Bool-cases (long_negative num)) [
    | inl neg ↦
        let low : 2 ^ 63 ≤ num = leb→le (2 ^ 63) num neg in
        rw neg (
          mix_loop_ends 63 0 ((long_word - num) % long_word) key (omega (arith, lt, ne, low))
            (omega (arith, lt, ne, low)))
    | inr pos ↦
        let low : num < 2 ^ 63 = ground arith in
        rw pos (mix_loop_ends 63 0 num key (omega (arith, low)) low)
  ])
]

-- Of the least czl_long it is not, in a table that has been attacked, however many rounds are made.
pub num_hash_diverges :
    (fuel key attack_cnt : ℕ) → attack_cnt ≢ 0 → num_hash fuel (2 ^ 63) key attack_cnt ≡ none
unfolding num_hash
num_hash_diverges fuel key attack_cnt ne =
    let attacked : (attack_cnt == 0) ≡ false = ne→== attack_cnt 0 ne in
    rw attacked (mix_loop-none fuel 0 (2 ^ 63) key (omega arith) (omega arith))
