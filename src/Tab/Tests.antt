-- ===== src/Tab/Tests.antt =====
-- The theorems on scripts' tables at a table of two elements, and a run of a table that is attacked.
use czl.Prelude.{
  ℕ, zero, suc, ◌+◌, ◌-◌, ◌*◌, ◌%◌, ◌<◌, ◌^◌, ◌≡◌, ◌⊎◌, inl, refl, Bool, true, false, Option, none,
  some, List, [], ◌∷◌, arith, subst,
}
use czl.Mm.State.{word}
use czl.Hash.Key.{str_hash, num_hash, index_cac}
use czl.Hash.Tally.{tally}
use czl.Hash.Table.{push_at, move_bucket}
use czl.Hash.Ends.{num_hash_ends, num_hash_diverges}
use czl.Tab.{
  TabKey, inum, str, Tabkv, Table, query_hash, tabkvs_insert, key_update, collides, tab_size_update,
}
use czl.Tab.Element.{
  no_ins, at_addr, create_key, delete_key, find_key, room, key_hash, chain_of, tabkv_insert,
}
use czl.Tab.Kind.{Computes, entries, IsTab, IsList}
use czl.Tab.Rebuild.{tabkvs_insert-IsTab, tab_size_update-IsTab}
use czl.Tab.Find.{FoundOrAbsent, find_key_lem}
use czl.Tab.Create.{Created, create_key-Created}
use czl.Tab.Remove.{TakenOut, Unchanged, delete_key-IsTab}

-- Memory past the end of a text never matches, and every new key is the same.
abbrev no_overrun : List ℕ → List ℕ → Bool
no_overrun s t = false

abbrev fresh_key : ℕ → ℕ
fresh_key key = 3141592653

abbrev always : ℕ → Bool
always n = true

abbrev five : Tabkv
five = record { addr = 100; key = inum 5; hash = 0 }

abbrev letter : Tabkv
letter = record { addr = 200; key = str (97 ∷ []); hash = 97 }

-- The two elements in the list, before the buckets are filled.
abbrev unfilled : Table
unfilled = record {
  mask = word - 4;
  size = 4;
  count = 2;
  key = 0;
  attack_cnt = 0;
  eles = five ∷ letter ∷ [];
  buckets = [];
}

abbrev two : Table
two = tabkvs_insert no_overrun unfilled

letter_hash : 97 % word ≡ query_hash 0 0 (str (97 ∷ []))
unfolding str_hash
letter_hash = refl

five-Computes : Computes (inum 5)
five-Computes e = absurd (omega (arith, e))

unfilled-IsList : IsList no_overrun 0 0 2 unfilled.eles
unfilled-IsList = record {
  kept = (λ e. absurd (omega (arith, e)), (letter_hash, tt));
  apart = λ a. ground arith;
  counted = refl;
  count_word = omega arith;
}

two-IsTab : IsTab no_overrun 2 two
two-IsTab = tabkvs_insert-IsTab no_overrun 2 unfilled (omega arith) refl refl unfilled-IsList

two-calm : suc two.attack_cnt < word
unfolding tabkvs_insert
two-calm = omega arith

two-count : two.count < 2 ^ 31
unfolding tabkvs_insert
two-count = omega arith

two-fresh : (a : ℕ) → some 300 ≡ some a → tally (at_addr a) two.eles ≡ 0
unfolding tabkvs_insert
two-fresh a e = let x : 300 ≡ a = cc in ground (arith, x)

two-short :
    (u : Table)
    → room no_overrun fresh_key always two ≡ some u
    → (key_hash two u (inum 9) ≡ query_hash u.key u.attack_cnt (inum 9))
      × (collides (chain_of u (inum 9)) ≡ false)
unfolding tabkvs_insert move_bucket push_at index_cac num_hash
two-short u e =
    let x : two ≡ u = cc in (refl, subst (λ t. collides (chain_of t (inum 9)) ≡ false) x refl)

tab_size_update-IsTab_example :
    ((always (2 ^ 3 * 4 % word) ≡ false)
      × (tab_size_update no_overrun fresh_key always 8 unfilled ≡ none))
    ⊎ ((u : Table) × ((always (2 ^ 3 * 4 % word) ≡ true)
          × ((tab_size_update no_overrun fresh_key always 8 unfilled ≡ some u)
              × (IsTab no_overrun 3 u × (entries u.eles ≡ entries unfilled.eles)))))
tab_size_update-IsTab_example =
    tab_size_update-IsTab no_overrun fresh_key always 8 3 unfilled (omega arith) (inl refl)
      (omega arith) unfilled-IsList

find_key_lem_example : FoundOrAbsent no_overrun (inum 5) two (find_key no_overrun (inum 5) two)
find_key_lem_example = find_key_lem no_overrun 2 two (inum 5) two-IsTab five-Computes

create_key-Created_example :
    Created no_overrun always
      (some 300)
      (inum 9)
      true
      two
      (create_key no_overrun fresh_key always (some 300) (inum 9) no_ins true two)
create_key-Created_example =
    create_key-Created no_overrun always (some 300) fresh_key 2 (inum 9) true two two-IsTab
      (λ e. absurd (omega (arith, e))) two-count two-calm two-fresh two-short

delete_key-IsTab_example :
    let out = delete_key no_overrun fresh_key always true (inum 5) two in
    ((m : ℕ) × IsTab no_overrun m out.0)
    × (TakenOut no_overrun (inum 5) two out ⊎ Unchanged no_overrun true (inum 5) two out)
delete_key-IsTab_example =
    delete_key-IsTab no_overrun fresh_key always true 2 (inum 5) two two-IsTab five-Computes
      two-calm

num_hash_ends_example : (h : ℕ) × (num_hash 64 (2 ^ 63 - 1) 12345 1 ≡ some h)
num_hash_ends_example =
    num_hash_ends (2 ^ 63 - 1) 12345 1 (omega arith) (λ e. absurd (omega (arith, e)))

num_hash_diverges_example : num_hash 1000 (2 ^ 63) 12345 1 ≡ none
num_hash_diverges_example = num_hash_diverges 1000 12345 1 (λ e. absurd (omega (arith, e)))

-- The numbers 0, 128, 256 and so on share a bucket of 128.
abbrev multiples : ℕ → List Tabkv
multiples zero = []
multiples (suc n) = record { addr = 1000 + n; key = inum (128 * n); hash = 0 } ∷ multiples n

abbrev crowded : Table
crowded = tabkvs_insert no_overrun (record {
  mask = word - 128;
  size = 128;
  count = 64;
  key = 0;
  attack_cnt = 0;
  eles = multiples 64;
  buckets = [];
})

abbrev found_in : Option (Table × Option Tabkv) → TabKey → Option Tabkv
found_in none q = none
found_in (some out) q = find_key no_overrun q out.0

-- With 64 of them there the key of the table is changed before the 65th is put in, which then is in
-- the wrong bucket: it is not found.
lost_run :
    found_in
      (create_key no_overrun fresh_key always (some 5000) (inum 8192) no_ins true crowded)
      (inum 8192)
    ≡ none
unfolding tabkvs_insert move_bucket push_at index_cac num_hash create_key tabkv_insert find_key
    key_update
lost_run = refl
