-- ===== src/Tab/Rebuild.antt =====
-- The buckets of a script's table of code/czl_vm.c filled anew: czl_hash_tabkvs_insert,
-- czl_hash_key_update, czl_hash_collision_check and czl_hash_size_update.
use czl.Prelude.{
  ℕ, suc, ◌-◌, ◌*◌, ◌%◌, ◌≤◌, ◌<◌, ◌^◌, ◌≡◌, ◌⊎◌, inl, inr, refl, sym, ap, subst, ◌∙◌, Bool, true,
  false, none, some, List, [], ◌∷◌, ◌==◌, arith, All, Bool-cases, replicate, if◌then◌else◌,
}
use czl.Mm.State.{word, add_ulong, sub_ulong}
use czl.Hash.Key.{str_hash}
use czl.Hash.Index.{pow_pos}
use czl.Hash.Table.{move_bucket}
use czl.Hash.Tally.{tally, tally_all, tally-replicate, one_if}
use czl.Hash.Resize.{replicate-Placed, move_bucket-Placed}
use czl.Tab.{
  TabKey, inum, str, Tabkv, Table, kind_of, tabkvs_insert, rehash, new_hash, key_update,
  any_collides, collision_check, tab_size_update,
}
use czl.Tab.Element.{at_addr}
use czl.Tab.Kind.{entries, Kept, KeptKey, tab_kind-Hashes, IsTab, IsList, IsTab-IsList}
use native.Mathlib.Nat.{pow-le-pow_right}

-- A changed key leaves the entries.
entries-rehash : (key : ℕ) (eles : List Tabkv) → entries (rehash key eles) ≡ entries eles
entries-rehash key [] = refl
entries-rehash key (p ∷ eles) = ap (λ r. (p.addr, p.key) ∷ r) (entries-rehash key eles)

keyed_hash :
    (s : List ℕ) (key attack_cnt : ℕ)
    → 0 < attack_cnt
    → str_hash s key 1 ≡ str_hash s key attack_cnt
unfolding str_hash
keyed_hash s key attack_cnt lt = let e : (attack_cnt == 0) ≡ false = ground arith in rw e refl

module _ (overrun : List ℕ → List ℕ → Bool) where
  same_attack :
      (t : Table) → suc t.attack_cnt < word → suc ((tabkvs_insert overrun t).attack_cnt) < word
  unfolding tabkvs_insert
  same_attack t lt = lt

  same_eles : (t : Table) → entries ((tabkvs_insert overrun t).eles) ≡ entries t.eles
  unfolding tabkvs_insert
  same_eles t = refl

  -- The buckets filled from the ordered list make a well-formed table.
  pub tabkvs_insert-IsTab :
      (k : ℕ) (t : Table)
      → k ≤ 31
      → t.size ≡ 2 ^ k
      → t.mask ≡ word - 2 ^ k
      → IsList overrun t.key t.attack_cnt t.count t.eles
      → IsTab overrun k (tabkvs_insert overrun t)
  unfolding tabkvs_insert
  tabkvs_insert-IsTab k t le size mask l =
      let K = kind_of overrun t in
      let law = tab_kind-Hashes overrun t.key t.attack_cnt in
      let moved =
        move_bucket-Placed K law k t.eles (replicate (2 ^ k) []) (replicate-Placed K law k le) in
      let all : (P : Tabkv → Bool)
          → tally_all P (move_bucket K t.mask t.eles (replicate t.size [])) ≡ tally P t.eles =
        λ P. rw (size, mask) (omega (arith, moved.1 P, tally-replicate P (2 ^ k))) in
      record {
        hash = record {
          placed = rw (size, mask) moved.0;
          counts = record {
            counted = l.counted ∙ sym (all (λ _. true));
            count_word = l.count_word;
          };
          size_eq = size;
          mask_eq = mask;
        };
        listed = all;
        kept = l.kept;
        apart = l.apart;
      }

  rehash-tally :
      (P : Tabkv → Bool) (key : ℕ) (eles : List Tabkv)
      → ((p : Tabkv) (h : ℕ) → P (record p { hash = h }) ≡ P p)
      → tally P (rehash key eles) ≡ tally P eles
  rehash-tally P key [] h = refl
  rehash-tally P key (p ∷ eles) h =
      let e = ap one_if (h p (new_hash key p.key p.hash)) in
      omega (arith, e, rehash-tally P key eles h)

  -- Once the table has been attacked all of its hashes are keyed.
  rehash-Kept :
      (key attack_cnt count new_key : ℕ) (eles : List Tabkv)
      → suc attack_cnt < word
      → All (Kept key attack_cnt) eles
      → All (Kept new_key (add_ulong attack_cnt 1)) (rehash new_key eles)
  rehash-Kept key attack_cnt count new_key [] lt h = tt
  rehash-Kept key attack_cnt count new_key (p ∷ eles) lt h =
      (keyed p.key p.hash h.0, rehash-Kept key attack_cnt count new_key eles lt h.1)
    where
      keyed :
          (k : TabKey) (hash : ℕ)
          → KeptKey key attack_cnt k hash
          → KeptKey new_key (add_ulong attack_cnt 1) k (new_hash new_key k hash)
      keyed (inum n) hash h = h
      keyed (str s) hash h =
          ap (λ x. x % word) (keyed_hash s new_key (add_ulong attack_cnt 1) (omega (arith, lt)))

  rehash-IsList :
      (key attack_cnt count new_key : ℕ) (eles : List Tabkv)
      → suc attack_cnt < word
      → IsList overrun key attack_cnt count eles
      → IsList overrun new_key (add_ulong attack_cnt 1) count (rehash new_key eles)
  rehash-IsList key attack_cnt count new_key eles lt l = record {
    kept = rehash-Kept key attack_cnt count new_key eles lt l.kept;
    apart = λ a.
        subst (λ n. n ≤ 1) (sym (rehash-tally (at_addr a) new_key eles (λ p h. refl))) (l.apart a);
    counted = l.counted ∙ sym (rehash-tally (λ _. true) new_key eles (λ p h. refl));
    count_word = l.count_word;
  }

  -- A new key keeps the table well-formed, and its entries.
  pub key_update-IsTab :
      (new_key : ℕ → ℕ) (k : ℕ) (t : Table)
      → suc t.attack_cnt < word
      → IsTab overrun k t
      → IsTab overrun k (key_update overrun new_key t)
        × (entries ((key_update overrun new_key t).eles) ≡ entries t.eles)
  unfolding key_update tabkvs_insert
  key_update-IsTab new_key k t lt v = (
    tabkvs_insert-IsTab k
        (record t {
          attack_cnt = add_ulong t.attack_cnt 1;
          key = new_key t.key;
          eles = rehash (new_key t.key) t.eles;
        })
        v.hash.placed.bounded v.hash.size_eq v.hash.mask_eq
        (rehash-IsList t.key t.attack_cnt t.count (new_key t.key) t.eles lt
          (IsTab-IsList overrun k t v)),
    entries-rehash (new_key t.key) t.eles,
  )

  pub collision_check-IsTab :
      (new_key : ℕ → ℕ) (k : ℕ) (t : Table)
      → suc t.attack_cnt < word
      → IsTab overrun k t
      → IsTab overrun k (collision_check overrun new_key t)
        × (entries ((collision_check overrun new_key t).eles) ≡ entries t.eles)
  unfolding collision_check
  collision_check-IsTab new_key k t lt v = elim (Bool-cases (any_collides t.buckets)) [
    | inl attacked ↦ rw attacked (key_update-IsTab new_key k t lt v)
    | inr calm ↦ rw calm (v, refl)
  ]

  -- Where the allocator serves the buckets, czl_hash_size_update makes a well-formed table of 2 ^ k
  -- buckets (0 counts as 1) with the same entries in the same order, also when it finds a bucket of
  -- 64 elements and changes the key of the table; where the allocator refuses, it returns 0.
  pub tab_size_update-IsTab :
      (new_key : ℕ → ℕ) (granted : ℕ → Bool) (n k : ℕ) (t : Table)
      → k ≤ 31
      → (n ≡ 2 ^ k) ⊎ ((n ≡ 0) × (k ≡ 0))
      → suc t.attack_cnt < word
      → IsList overrun t.key t.attack_cnt t.count t.eles
      → ((granted (2 ^ k * 4 % word) ≡ false)
          × (tab_size_update overrun new_key granted n t ≡ none))
        ⊎ ((u : Table) × ((granted (2 ^ k * 4 % word) ≡ true)
              × ((tab_size_update overrun new_key granted n t ≡ some u)
                  × (IsTab overrun k u × (entries u.eles ≡ entries t.eles)))))
  unfolding tab_size_update
  tab_size_update-IsTab new_key granted n k t le choice lt l =
      let new : (if n == 0 then 1 else n) ≡ 2 ^ k = elim choice [
        | inl e ↦ ground (arith, pow_pos k)
        | inr e ↦ rw (e.0, e.1) refl
      ] in
      let neg : sub_ulong 0 (2 ^ k) ≡ word - 2 ^ k =
        omega (arith, pow_pos k, pow-le-pow_right {n = 2} (omega arith) le) in
      elim (Bool-cases (granted (2 ^ k * 4 % word))) [
        | inl g ↦
            let sized : Table = record t { mask = word - 2 ^ k; size = 2 ^ k } in
            let filled = tabkvs_insert overrun sized in
            let checked =
              collision_check-IsTab new_key k filled (same_attack sized lt)
                (tabkvs_insert-IsTab k sized le refl refl l) in
            inr (
              collision_check overrun new_key filled,
              (g, (rw (new, g, neg) refl, (checked.0, checked.1 ∙ same_eles sized))),
            )
        | inr g ↦ inl (g, rw (new, g) refl)
      ]
