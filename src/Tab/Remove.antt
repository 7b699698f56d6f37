-- ===== src/Tab/Remove.antt =====
-- czl_delete_str_tabkv, czl_delete_num_tabkv and czl_delete_tabkv_node of code/czl_vm.c.
use czl.Prelude.{
  ℕ, suc, ◌+◌, ◌-◌, ◌/◌, ◌≤◌, ◌<◌, ◌^◌, ◌≡◌, ◌≢◌, ◌⊎◌, inl, inr, refl, ap, subst, ◌∙◌, Bool, true,
  false, ◌&&◌, List, [], ◌∷◌, arith, All, Bool-cases, get_or, set, ◌==◌, ==_iff, if◌then◌else◌, leb,
  leb→le, and_split, length, length-set, get_or-set_self, get_or-set_ne,
}
use czl.Mm.State.{word, sub_ulong}
use czl.Hash.Key.{index_cac}
use czl.Hash.Table.{HashKind, unchain}
use czl.Hash.Tally.{tally, tally_all, tally-set, one_if}
use czl.Hash.Resize.{Placed, index_lt}
use czl.Hash.Change.{half_pow}
use czl.Hash.Delete.{All-unchain}
use czl.Tab.{TabKey, inum, str, Tabkv, Table, kind_of, query_hash, same_key}
use czl.Tab.Element.{at_addr, index_of, chain_of, tab_shrink, delete_node, delete_key}
use czl.Tab.Kind.{Computes, entries, Kept, tab_kind-Hashes, IsTab, IsTab-IsList}
use czl.Tab.Rebuild.{tab_size_update-IsTab}
use czl.Tab.Chains.{Has, found-tally}
use czl.Tab.Unchain.{Occurs, unchain-alone}
use czl.Tab.Find.{Matches, Absent, bucket-le, chain_find_lem}

-- The entries without the first at an address.
abbrev pub without_entry : ℕ → List (ℕ × TabKey) → List (ℕ × TabKey)
without_entry a [] = []
without_entry a (e ∷ es) = if e.0 == a then es else e ∷ without_entry a es

entries-unchain :
    (a : ℕ) (eles : List Tabkv)
    → entries (unchain (at_addr a) eles) ≡ without_entry a (entries eles)
entries-unchain a [] = refl
entries-unchain a (p ∷ eles) = elim (Bool-cases (at_addr a p)) [
  | inl e ↦ rw e refl
  | inr e ↦ rw e (ap (λ r. (p.addr, p.key) ∷ r) (entries-unchain a eles))
]

-- A bucket written over by keys that belong there.
Placed-set :
    (K : HashKind) (k i : ℕ) (bs : List (List K.Key)) (b : List K.Key)
    → Placed K k bs
    → i < length bs
    → All (λ p. index_cac (K.hash_key p) (word - 2 ^ k) ≡ i) b
    → Placed K k (set bs i b)
Placed-set K k i bs b v lt h = record {
  bounded = v.bounded;
  len = length-set bs i b ∙ v.len;
  homed = λ j. elim (Bool-cases (i == j)) [
    | inl e ↦
        let ij : i ≡ j = (==_iff i j).0 e in
        subst
          (λ n. All (λ p. index_cac (K.hash_key p) (word - 2 ^ k) ≡ n) (get_or (set bs i b) n []))
          ij (rw (get_or-set_self bs i b [] lt) h)
    | inr e ↦
        let ne : i ≢ j = λ h. absurd (ground arith) in rw (get_or-set_ne bs i j b [] ne) (v.homed j)
  ];
}

query_hash-word : (key attack_cnt : ℕ) (q : TabKey) → query_hash key attack_cnt q < word
query_hash-word key attack_cnt (inum n) = omega arith
query_hash-word key attack_cnt (str s) = omega arith

module _ (overrun : List ℕ → List ℕ → Bool) where
  -- The table without an element of a chain.
  abbrev pub without : Table → (i : ℕ) → Tabkv → Table
  without t i p = record t {
    eles = unchain (at_addr p.addr) t.eles;
    buckets = set t.buckets i (unchain (at_addr p.addr) (get_or t.buckets i []));
    count = sub_ulong t.count 1;
  }

  without-IsTab :
      (k : ℕ) (t : Table) (i : ℕ) (p : Tabkv)
      → IsTab overrun k t
      → i < length t.buckets
      → Occurs p (get_or t.buckets i [])
      → IsTab overrun k (without t i p)
  without-IsTab k t i p v lt occ =
      let K = kind_of overrun t in
      let chain = get_or t.buckets i [] in
      let rest = unchain (at_addr p.addr) chain in
      let self : at_addr p.addr p ≡ true = (==_iff p.addr p.addr).1 refl in
      let one = v.apart p.addr in
      let in_chain : (P : Tabkv → Bool) → tally P chain ≤ tally P t.eles =
        λ P. omega (arith, bucket-le P t.buckets i, v.listed P) in
      let list : (P : Tabkv → Bool)
          → tally P t.eles ≡ one_if (P p) + tally P (unchain (at_addr p.addr) t.eles) =
        λ P.
          unchain-alone (at_addr p.addr) P p t.eles self one
            (λ Q. omega (arith, occ Q, in_chain Q)) in
      let bucket : (P : Tabkv → Bool) → tally P chain ≡ one_if (P p) + tally P rest = λ P.
        unchain-alone (at_addr p.addr) P p chain self
          (omega (arith, one, in_chain (at_addr p.addr))) occ in
      let listed : (P : Tabkv → Bool)
          → tally_all P (set t.buckets i rest) ≡ tally P (unchain (at_addr p.addr) t.eles) =
        λ P. omega (arith, tally-set P t.buckets i rest lt, list P, bucket P, v.listed P) in
      record {
        hash = record {
          placed = Placed-set K k i t.buckets rest v.hash.placed lt (
              All-unchain (λ q. index_cac (K.hash_key q) (word - 2 ^ k) ≡ i) (at_addr p.addr) chain
                (v.hash.placed.homed i));
          counts = record {
            counted = omega (
              arith,
              listed (λ _. true),
              list (λ _. true),
              v.listed (λ _. true),
              v.hash.counts.counted,
              v.hash.counts.count_word,
            );
            count_word = omega arith;
          };
          size_eq = v.hash.size_eq;
          mask_eq = v.hash.mask_eq;
        };
        listed = listed;
        kept = All-unchain (Kept t.key t.attack_cnt) (at_addr p.addr) t.eles v.kept;
        apart = λ a. omega (arith, list (at_addr a), v.apart a);
      }

  -- Halving the table, or failing to, keeps its entries.
  tab_shrink-IsTab :
      (new_key : ℕ → ℕ) (granted : ℕ → Bool) (k : ℕ) (t : Table)
      → suc t.attack_cnt < word
      → IsTab overrun k t
      → ((m : ℕ) × IsTab overrun m (tab_shrink overrun new_key granted t))
        × (entries ((tab_shrink overrun new_key granted t).eles) ≡ entries t.eles)
  unfolding tab_shrink
  tab_shrink-IsTab new_key granted k t calm v =
      elim (Bool-cases (leb t.count (t.size / 4) && leb 16 t.size)) [
        | inr e ↦ rw e ((k, v), refl)
        | inl e ↦
            let big = leb→le 16 t.size (and_split (leb t.count (t.size / 4)) (leb 16 t.size) e).1 in
            let h = half_pow k v.hash.placed.bounded (subst (λ n. 16 ≤ n) v.hash.size_eq big) in
            let n : t.size / 2 ≡ 2 ^ h.0 = ap (λ n. n / 2) v.hash.size_eq ∙ h.2 in
            elim (tab_size_update-IsTab overrun new_key granted (t.size / 2) h.0 t h.1 (inl n) calm
              (IsTab-IsList overrun k t v)) [
                | inl (g, s) ↦ rw (e, s) ((k, v), refl)
                | inr (u, (served, (s, (w, same)))) ↦ rw (e, s) ((h.0, w), same)
              ]
      ]

  -- The key has an entry, which is taken out; czl_val_del, which releases the value, agreed.
  abbrev pub TakenOut : TabKey → Table → Table × Bool → Type 0
  TakenOut q t out =
      (out.1 ≡ true)
      × ((p : Tabkv) × (Has (p.addr, p.key) (entries t.eles)
            × (Matches overrun q p.key
                × (entries out.0.eles ≡ without_entry p.addr (entries t.eles)))))

  abbrev pub Unchanged : (val_del : Bool) → TabKey → Table → Table × Bool → Type 0
  Unchanged val_del q t out =
      (out.1 ≡ false) × ((out.0 ≡ t) × ((val_del ≡ false) ⊎ Absent overrun q (entries t.eles)))

  -- In a well-formed table a deletion, by a text or by any number but the least czl_long, leaves a well-formed table: it takes one entry out, one that
  -- the key matches, and returns 1, where the value can be released; it returns 0 and changes nothing
  -- where no entry has the key or the value cannot be released. Halving the table, or failing to, keeps the
  -- other entries in their order.
  pub delete_key-IsTab :
      (new_key : ℕ → ℕ) (granted : ℕ → Bool) (val_del : Bool) (k : ℕ) (q : TabKey) (t : Table)
      → IsTab overrun k t
      → Computes q
      → suc t.attack_cnt < word
      → let out = delete_key overrun new_key granted val_del q t in
        ((m : ℕ) × IsTab overrun m out.0) × (TakenOut q t out ⊎ Unchanged val_del q t out)
  unfolding delete_key delete_node
  delete_key-IsTab new_key granted val_del k q t v c calm = elim (chain_find_lem overrun k t q v) [
    | inl (n, absent) ↦ rw n ((k, v), inr (refl, (refl, inr absent)))
    | inr (p, (s, (has, m))) ↦ elim (Bool-cases val_del) [
      | inr keep ↦ rw (s, keep) ((k, v), inr (refl, (refl, inl refl)))
      | inl free ↦
          let S = λ (r : Tabkv). same_key overrun (query_hash t.key t.attack_cnt q) q r r.key in
          let law = tab_kind-Hashes overrun t.key t.attack_cnt in
          let i = index_of t q in
          let lt : i < length t.buckets =
            rw (v.hash.mask_eq, v.hash.placed.len)
              (index_lt (kind_of overrun t) law k (query_hash t.key t.attack_cnt q)
                v.hash.placed.bounded (query_hash-word t.key t.attack_cnt q)) in
          let w = without-IsTab k t i p v lt (λ P. found-tally S P (chain_of t q) p s) in
          let h = tab_shrink-IsTab new_key granted k (without t i p) calm w in
          rw (s, free) (h.0, inl (refl, (p, (has, (m, h.1 ∙ entries-unchain p.addr t.eles)))))
    ]
  ]
