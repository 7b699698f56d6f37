-- ===== src/Tab/Insert.antt =====
-- czl_hash_tabkv_insert of code/czl_vm.c, for a new element at an
-- end of the ordered list.
use czl.Prelude.{
  ℕ, ◌+◌, ◌-◌, ◌≤◌, ◌<◌, ◌^◌, ◌≡◌, inl, inr, refl, sym, ap, subst, ◌∙◌, Bool, true, false, List, [],
  ◌∷◌, ◌++◌, arith, All, Bool-cases, ◌==◌, ==_iff, All-append, length,
}
use czl.Mm.State.{word}
use czl.Hash.Key.{index_cac}
use czl.Hash.Table.{push_at}
use czl.Hash.Tally.{tally, tally_all, tally-append, one_if}
use czl.Hash.Resize.{Placed, index_lt, push_at-tally, push_at-Placed}
use czl.Tab.{TabKey, inum, str, Tabkv, Table, kind_of, query_hash}
use czl.Tab.Element.{no_ins, at_addr, place, tabkv_insert, index_of, new_node}
use czl.Tab.Kind.{Computes, entries, Kept, KeptKey, Kept-node_hash, tab_kind-Hashes, IsTab}

pub Computes-KeptKey :
    (key attack_cnt : ℕ) (q : TabKey)
    → Computes q
    → KeptKey key attack_cnt q (query_hash key attack_cnt q)
Computes-KeptKey key attack_cnt (inum n) c = c
Computes-KeptKey key attack_cnt (str s) c = omega arith

pub entries-append : (a b : List Tabkv) → entries (a ++ b) ≡ entries a ++ entries b
entries-append [] b = refl
entries-append (p ∷ a) b = ap (λ r. (p.addr, p.key) ∷ r) (entries-append a b)

-- The entries with a new one at the end, or in front.
abbrev pub with_entry : Bool → ℕ × TabKey → List (ℕ × TabKey) → List (ℕ × TabKey)
with_entry true e es = es ++ e ∷ []
with_entry false e es = e ∷ es

pub place-tally :
    (P : Tabkv → Bool) (flag : Bool) (kv : Tabkv) (eles : List Tabkv)
    → tally P (place no_ins flag kv eles) ≡ one_if (P kv) + tally P eles
place-tally P true kv eles = omega (arith, tally-append P eles (kv ∷ []))
place-tally P false kv eles = refl

pub place-entries :
    (flag : Bool) (kv : Tabkv) (eles : List Tabkv)
    → entries (place no_ins flag kv eles) ≡ with_entry flag (kv.addr, kv.key) (entries eles)
place-entries true kv eles = entries-append eles (kv ∷ [])
place-entries false kv eles = refl

place-All :
    (P : Tabkv → Type 0) (flag : Bool) (kv : Tabkv) (eles : List Tabkv)
    → P kv
    → All P eles
    → All P (place no_ins flag kv eles)
place-All P true kv eles h hs = All-append P eles (kv ∷ []) hs (h, tt)
place-All P false kv eles h hs = (h, hs)

module _ (overrun : List ℕ → List ℕ → Bool) where
  -- A new element at a fresh address keeps the table well-formed.
  pub insert-IsTab :
      (k : ℕ) (t : Table) (q : TabKey) (a : ℕ) (flag : Bool)
      → IsTab overrun k t
      → Computes q
      → t.count < 2 ^ 31
      → tally (at_addr a) t.eles ≡ 0
      → IsTab overrun k (tabkv_insert overrun t (new_node t q a) (index_of t q) no_ins flag)
  unfolding tabkv_insert
  insert-IsTab k t q a flag v c small fresh =
      let K = kind_of overrun t in
      let law = tab_kind-Hashes overrun t.key t.attack_cnt in
      let kv = new_node t q a in
      let kept = Computes-KeptKey t.key t.attack_cnt q c in
      let home : index_of t q ≡ index_cac (K.hash_key kv) (word - 2 ^ k) = rw v.hash.mask_eq (
        ap (λ h. index_cac h (word - 2 ^ k))
          (sym (Kept-node_hash t.key t.attack_cnt q kv.hash kept))) in
      let lt : index_of t q < length t.buckets =
        rw (home, v.hash.placed.len)
          (index_lt K law k (K.hash_key kv) v.hash.placed.bounded (law.hash_word kv)) in
      let more : (P : Tabkv → Bool)
          → tally_all P (push_at K t.buckets (index_of t q) kv)
            ≡ one_if (P kv) + tally_all P t.buckets =
        λ P. push_at-tally K law k P t.buckets (index_of t q) kv lt in
      record {
        hash = record {
          placed =
              subst (λ i. Placed K k (push_at K t.buckets i kv)) (sym home)
                (push_at-Placed K law k t.buckets kv v.hash.placed);
          counts = record {
            counted = omega (arith, more (λ _. true), v.hash.counts.counted, small);
            count_word = omega (arith, small);
          };
          size_eq = v.hash.size_eq;
          mask_eq = v.hash.mask_eq;
        };
        listed = λ P.
            more P ∙ ap (λ n. one_if (P kv) + n) (v.listed P) ∙ sym (place-tally P flag kv t.eles);
        kept = place-All (Kept t.key t.attack_cnt) flag kv t.eles kept v.kept;
        apart = λ b. alone b;
      }
    where
      alone : (b : ℕ) → tally (at_addr b) (place no_ins flag (new_node t q a) t.eles) ≤ 1
      alone b =
          rw (place-tally (at_addr b) flag (new_node t q a) t.eles) (elim (Bool-cases (a == b)) [
            | inl e ↦ rw e (
                let f = subst (λ n. tally (at_addr n) t.eles ≡ 0) ((==_iff a b).0 e) fresh in
                omega (arith, f))
            | inr e ↦ rw e (omega (arith, v.apart b))
          ])
