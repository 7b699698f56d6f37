-- ===== src/Tab/Find.antt =====
-- czl_find_str_tabkv and czl_find_num_tabkv of code/czl_vm.c: they see every entry of the table.
use czl.Prelude.{
  ℕ, zero, suc, ◌+◌, ◌%◌, ◌≤◌, ◌≡◌, ◌≢◌, ◌⊎◌, inl, inr, refl, sym, ap, subst, ◌∙◌, Bool, true,
  Option, none, some, List, [], ◌∷◌, arith, All, Option-cases, get_or, ◌==◌, ==_iff, and_split,
}
use czl.Mm.State.{word}
use czl.Hash.Key.{index_cac}
use czl.Hash.Tally.{tally, tally_all, search_chain-some, search_chain-none}
use czl.Hash.Find.{query-bucket}
use czl.Tab.{TabKey, inum, str, Tabkv, Table, kind_of, query_hash, mem_equal, same_key}
use czl.Tab.Element.{chain_find, chain_of, find_key}
use czl.Tab.Kind.{Computes, entries, Kept, tab_kind-Hashes, same_key_refl, view, IsTab}
use czl.Tab.Chains.{Has, found-Has}

-- A bucket's elements are among all.
pub bucket-le :
    {A : Type 0} (P : A → Bool) (bs : List (List A)) (i : ℕ)
    → tally P (get_or bs i []) ≤ tally_all P bs
bucket-le P [] i = omega arith
bucket-le P (b ∷ bs) zero = omega arith
bucket-le P (b ∷ bs) (suc i) = omega (arith, bucket-le P bs i)

module _ (overrun : List ℕ → List ℕ → Bool) where
  -- A number is found by itself, a text by one that memcmp finds no difference in.
  abbrev pub Matches : TabKey → TabKey → Type 0
  Matches (inum n) k = k ≡ inum n
  Matches (str s) k = (t : List ℕ) × ((k ≡ str t) × (mem_equal overrun s t ≡ true))

  same_key-Matches :
      (h : ℕ) (q : TabKey) (p : Tabkv) (k : TabKey) → same_key overrun h q p k ≡ true → Matches q k
  same_key-Matches h (inum n) p (inum m) e = ap inum (sym ((==_iff n m).0 e))
  same_key-Matches h (inum n) p (str t) e = absurd cc
  same_key-Matches h (str s) p (inum m) e = absurd cc
  same_key-Matches h (str s) p (str t) e =
      (t, (refl, (and_split (h == p.hash % word) (mem_equal overrun s t) e).1))

  abbrev pub Absent : TabKey → List (ℕ × TabKey) → Type 0
  Absent q es = All (λ e. e.1 ≢ q) es

  -- Where no element passes the comparison, no entry has the key.
  tally-Absent :
      (key attack_cnt : ℕ) (q : TabKey) (eles : List Tabkv)
      → All (Kept key attack_cnt) eles
      → tally (λ p. same_key overrun (query_hash key attack_cnt q) q p p.key) eles ≡ 0
      → Absent q (entries eles)
  tally-Absent key attack_cnt q [] kept e = tt
  tally-Absent key attack_cnt q (p ∷ eles) kept e =
      (λ pq. absurd (counted pq), tally-Absent key attack_cnt q eles kept.1 (omega (arith, e)))
    where
      counted : p.key ≡ q → ⊥
      counted pq =
          let self = same_key_refl overrun key attack_cnt p p.key kept.0 in
          let hit : same_key overrun (query_hash key attack_cnt q) q p p.key ≡ true =
            subst (λ k. same_key overrun (query_hash key attack_cnt k) k p p.key ≡ true) pq self in
          let e' : 1 + tally (λ r. same_key overrun (query_hash key attack_cnt q) q r r.key) eles
              ≡ 0 =
            rw hit at e in
          absurd (omega (arith, e'))

  -- What the search of a bucket says of the entries.
  abbrev pub FoundOrAbsent : TabKey → Table → Option Tabkv → Type 0
  FoundOrAbsent q t o =
      ((o ≡ none) × Absent q (entries t.eles))
      ⊎ ((p : Tabkv) × ((o ≡ some p) × (Has (p.addr, p.key) (entries t.eles) × Matches q p.key)))

  pub chain_find_lem :
      (k : ℕ) (t : Table) (q : TabKey)
      → IsTab overrun k t
      → FoundOrAbsent q t (chain_find overrun t q)
  chain_find_lem k t q v =
      let K = kind_of overrun t in
      let law = tab_kind-Hashes overrun t.key t.attack_cnt in
      let S = λ (p : Tabkv). same_key overrun (query_hash t.key t.attack_cnt q) q p p.key in
      let chain = chain_of t q in
      let bucket : tally_all S t.buckets ≡ tally S chain =
        query-bucket K law k (view overrun t) v.hash q in
      let within : (P : Tabkv → Bool) → tally P chain ≤ tally P t.eles = λ P. omega (
        arith,
        bucket-le P t.buckets (index_cac (query_hash t.key t.attack_cnt q) t.mask),
        v.listed P,
      ) in
      elim (Option-cases (chain_find overrun t q)) [
        | inl n ↦ inl (
          n,
          tally-Absent t.key t.attack_cnt q t.eles v.kept
              (sym (v.listed S) ∙ bucket ∙ search_chain-none S chain n),
        )
        | inr (p, s) ↦ inr (
          p,
          (
            s,
            (
              found-Has S chain t.eles p within s,
              same_key-Matches (query_hash t.key t.attack_cnt q) q p p.key
                  (search_chain-some S chain p s).0,
            ),
          ),
        )
      ]

  -- In a well-formed table a lookup, of a text or of any number but the least czl_long, returns NULL where no entry has the key, and otherwise an
  -- element of the ordered list whose key is the number, or a text in which memcmp finds no
  -- difference from the given one over the given one's length.
  pub find_key_lem :
      (k : ℕ) (t : Table) (q : TabKey)
      → IsTab overrun k t
      → Computes q
      → FoundOrAbsent q t (find_key overrun q t)
  unfolding find_key
  find_key_lem k t q v c = chain_find_lem k t q v
