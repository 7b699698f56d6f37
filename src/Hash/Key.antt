-- ===== src/Hash/Key.antt =====
-- The hash functions of code/czl_vm.c and the macro CZL_INDEX_CAC of code/czl_vm.h.
-- A long is its 32-bit word and a czl_long its 64-bit word, two's complement; signed overflow,
-- which C leaves undefined, wraps as the code's compilers let it.
use Prim.Native.Nat.{bit_or, bit_xor}
use czl.Prelude.{
  ℕ, zero, suc, ◌+◌, ◌-◌, ◌*◌, ◌/◌, ◌%◌, ◌^◌, Bool, Option, none, some, List, [], ◌∷◌, ltb, leb,
  ◌==◌, if◌then◌else◌,
}
use czl.Mm.State.{word}

-- A char is signed: a byte above 127 is a negative number.
abbrev pub char_word : ℕ → ℕ
char_word c = if ltb c 128 then c else c + word - 256

abbrev pub bkdr_from : ℕ → List ℕ → ℕ
bkdr_from hash [] = hash
bkdr_from hash (c ∷ str) = bkdr_from ((hash * 131 + char_word c) % word) str

unfoldable pub bkdr_hash : List ℕ → ℕ
bkdr_hash str = bkdr_from 0 str

-- The key is halved for each character, and starts again from `tmp` when it is used up.
abbrev pub keyed_from : ℕ → ℕ → ℕ → List ℕ → ℕ
keyed_from tmp key hash [] = hash
keyed_from tmp key hash (c ∷ str) =
    let half = key / 2 in
    keyed_from tmp (if half == 0 then tmp else half) ((hash * 131 + char_word c * half) % word) str

unfoldable pub str_hash : List ℕ → ℕ → ℕ → ℕ
str_hash str key attack_cnt = if attack_cnt == 0 then bkdr_from 0 str else keyed_from key key 0 str

abbrev pub long_word : ℕ
long_word = 2 ^ 64

abbrev pub long_negative : ℕ → Bool
long_negative num = leb (2 ^ 63) num

-- `num >>= 1` on a czl_long keeps the sign.
abbrev pub half_long : ℕ → ℕ
half_long num = if long_negative num then num / 2 + 2 ^ 63 else num / 2

-- The do-while loop of the attacked table, run for at most `fuel` turns.
abbrev pub mix_loop : ℕ → ℕ → ℕ → ℕ → Option ℕ
mix_loop zero hash num key = none
mix_loop (suc fuel) hash num key =
    let num' = half_long num in
    let hash' = (hash * 131 + num' * (key / 2)) % word in
    let rest = mix_loop fuel hash' num' (key / 2) in if num' == 0 then some hash' else rest

unfoldable pub num_hash : ℕ → ℕ → ℕ → ℕ → Option ℕ
num_hash fuel num key attack_cnt =
    if attack_cnt == 0
    then if long_negative num
      then some (num % word)
      else if leb num (word - 1)
      then some num
      else some (bit_xor (num / word) (num % word))
    else mix_loop fuel 0 (if long_negative num then (long_word - num) % long_word else num) key

-- CZL_INDEX_CAC: `index = hash | mask`, folded into the table by its sign.
unfoldable pub index_cac : ℕ → ℕ → ℕ
index_cac hash mask =
    let index = bit_or hash mask in
    if leb (2 ^ 31) index then (2 * word - index - 1) % word else (index + word - 1) % word
