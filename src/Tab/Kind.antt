-- ===== src/Tab/Kind.antt =====
-- The invariant of a script's table of code/czl_vm.h, and its entries in order, which is what a
-- script sees of it.
use czl.Prelude.{
  ℕ, ◌%◌, ◌≤◌, ◌<◌, ◌^◌, ◌≡◌, ◌≢◌, refl, sym, ap, ◌∙◌, Bool, true, List, [], ◌∷◌, ◌==◌, ==_iff,
  and_split, arith, All,
}
use czl.Mm.State.{word}
use czl.Hash.Table.{Hashes, SysHash}
use czl.Hash.Tally.{tally, tally_all}
use czl.Hash.Resize.{IsHash}
use czl.Tab.{
  TabKey, inum, str, Tabkv, Table, query_hash, node_hash, mem_equal, same_key, tab_kind, kind_of,
}
use czl.Tab.Element.{at_addr}

-- An entry: the address of the element and its key.
abbrev pub entries : List Tabkv → List (ℕ × TabKey)
entries [] = []
entries (p ∷ eles) = (p.addr, p.key) ∷ entries eles

-- A key whose hash czl_num_hash computes in every table.
abbrev pub Computes : TabKey → Type 0
Computes (inum n) = n ≢ 2 ^ 63
Computes (str s) = Unit

-- A text is kept with its hash; a number is one whose hash czl_num_hash computes in every table.
abbrev pub KeptKey : (key attack_cnt : ℕ) → TabKey → ℕ → Type 0
KeptKey key attack_cnt (inum n) hash = n ≢ 2 ^ 63
KeptKey key attack_cnt (str s) hash = hash % word ≡ query_hash key attack_cnt (str s)

abbrev pub Kept : (key attack_cnt : ℕ) → Tabkv → Type 0
Kept key attack_cnt p = KeptKey key attack_cnt p.key p.hash

-- What such an element's hash is, in every case.
pub Kept-node_hash :
    (key attack_cnt : ℕ) (k : TabKey) (hash : ℕ)
    → KeptKey key attack_cnt k hash
    → node_hash key attack_cnt k hash ≡ query_hash key attack_cnt k
Kept-node_hash key attack_cnt (inum n) hash h = refl
Kept-node_hash key attack_cnt (str s) hash h = h

module _ (overrun : List ℕ → List ℕ → Bool) where
  same_key-hash :
      (key attack_cnt : ℕ) (q : TabKey) (p : Tabkv) (k : TabKey)
      → same_key overrun (query_hash key attack_cnt q) q p k ≡ true
      → query_hash key attack_cnt q ≡ node_hash key attack_cnt k p.hash
  same_key-hash key attack_cnt (inum n) p (inum m) e =
      ap (λ i. query_hash key attack_cnt (inum i)) ((==_iff n m).0 e)
  same_key-hash key attack_cnt (inum n) p (str t) e = absurd cc
  same_key-hash key attack_cnt (str s) p (inum m) e = absurd cc
  same_key-hash key attack_cnt (str s) p (str t) e =
      let h = query_hash key attack_cnt (str s) in
      (==_iff h (p.hash % word)).0 ((and_split (h == p.hash % word) (mem_equal overrun s t) e).0)

  node_hash-word :
      (key attack_cnt : ℕ) (k : TabKey) (hash : ℕ) → node_hash key attack_cnt k hash < word
  node_hash-word key attack_cnt (inum n) hash = omega arith
  node_hash-word key attack_cnt (str s) hash = omega arith

  pub tab_kind-Hashes : (key attack_cnt : ℕ) → Hashes (tab_kind overrun key attack_cnt)
  tab_kind-Hashes key attack_cnt = record {
    hash_word = λ p. node_hash-word key attack_cnt p.key p.hash;
    same_hash = λ q p e. same_key-hash key attack_cnt q p p.key e;
  }

  -- A memcmp of a text with itself finds no difference.
  mem_equal_refl : (s : List ℕ) → mem_equal overrun s s ≡ true
  mem_equal_refl [] = refl
  mem_equal_refl (c ∷ s) =
      let e : (c == c) ≡ true = (==_iff c c).1 refl in rw (e, mem_equal_refl s) refl

  -- A kept element is found by its key.
  pub same_key_refl :
      (key attack_cnt : ℕ) (p : Tabkv) (k : TabKey)
      → KeptKey key attack_cnt k p.hash
      → same_key overrun (query_hash key attack_cnt k) k p k ≡ true
  same_key_refl key attack_cnt p (inum n) h = (==_iff n n).1 refl
  same_key_refl key attack_cnt p (str s) h =
      let e : (query_hash key attack_cnt (str s) == p.hash % word) ≡ true =
        (==_iff (query_hash key attack_cnt (str s)) (p.hash % word)).1 (sym h) in
      rw (e, mem_equal_refl s) refl

  -- The hash table of the table.
  abbrev pub view : (t : Table) → SysHash (kind_of overrun t)
  view t = record { mask = t.mask; size = t.size; count = t.count; buckets = t.buckets }

  -- A well-formed table of 2 ^ k buckets: a well-formed hash table whose elements are those of the
  -- ordered list, at different addresses, with the hashes that the table's key gives.
  pub record IsTab (k : ℕ) (t : Table) : Type 0 where
    pub hash : IsHash (kind_of overrun t) k (view t)
    pub listed : (P : Tabkv → Bool) → tally_all P t.buckets ≡ tally P t.eles
    pub kept : All (Kept t.key t.attack_cnt) t.eles
    pub apart : (a : ℕ) → tally (at_addr a) t.eles ≤ 1

  -- The same, of the ordered list alone.
  pub record IsList (key attack_cnt count : ℕ) (eles : List Tabkv) : Type 0 where
    pub kept : All (Kept key attack_cnt) eles
    pub apart : (a : ℕ) → tally (at_addr a) eles ≤ 1
    pub counted : count ≡ tally (λ _. true) eles
    pub count_word : count < word

  pub IsTab-IsList : (k : ℕ) (t : Table) → IsTab k t → IsList t.key t.attack_cnt t.count t.eles
  IsTab-IsList k t v = record {
    kept = v.kept;
    apart = v.apart;
    counted = v.hash.counts.counted ∙ v.listed (λ _. true);
    count_word = v.hash.counts.count_word;
  }
