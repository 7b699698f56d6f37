-- ===== src/Tab/Chains.antt =====
-- The ordered list and the chains of a script's table of code/czl_vm.h: which entries they have.
use czl.Prelude.{
  ℕ, ◌+◌, ◌≤◌, ◌<◌, ◌≡◌, ◌⊎◌, inl, inr, refl, ap, ap₂, Bool, true, false, some, List, [], ◌∷◌, ◌==◌,
  ◌&&◌, ==_iff, and_split, arith, Bool-cases,
}
use czl.Hash.Table.{str_eq, search_chain}
use czl.Hash.Kinds.{str_eq-path}
use czl.Hash.Tally.{tally, one_if}
use czl.Tab.{TabKey, inum, str, Tabkv}
use czl.Tab.Element.{at_addr}
use czl.Tab.Kind.{entries}

-- An entry is in the list.
abbrev pub Has : ℕ × TabKey → List (ℕ × TabKey) → Type 0
Has e [] = ⊥
Has e (x ∷ xs) = (x ≡ e) ⊎ Has e xs

abbrev pub key_is : TabKey → TabKey → Bool
key_is (inum n) (inum m) = n == m
key_is (inum n) (str t) = false
key_is (str s) (inum m) = false
key_is (str s) (str t) = str_eq s t

key_is-path : (q k : TabKey) → key_is q k ≡ true → q ≡ k
key_is-path (inum n) (inum m) e = ap inum ((==_iff n m).0 e)
key_is-path (inum n) (str t) e = absurd cc
key_is-path (str s) (inum m) e = absurd cc
key_is-path (str s) (str t) e = ap str (str_eq-path s t e)

pub key_is_refl : (q : TabKey) → key_is q q ≡ true
key_is_refl (inum n) = (==_iff n n).1 refl
key_is_refl (str s) = go s
  where
    go : (s : List ℕ) → str_eq s s ≡ true
    go [] = refl
    go (c ∷ s) = let e : (c == c) ≡ true = (==_iff c c).1 refl in rw (e, go s) refl

abbrev pub entry_is : ℕ → TabKey → Tabkv → Bool
entry_is a q p = at_addr a p && key_is p.key q

-- A count above 0 is an entry.
pub Has-entries :
    (a : ℕ) (q : TabKey) (eles : List Tabkv)
    → 0 < tally (entry_is a q) eles
    → Has (a, q) (entries eles)
Has-entries a q [] lt = absurd (omega arith)
Has-entries a q (p ∷ eles) lt = elim (Bool-cases (entry_is a q p)) [
  | inl hit ↦
      let both = and_split (at_addr a p) (key_is p.key q) hit in
      inl (ap₂ (λ x y. (x, y)) ((==_iff (p.addr) a).0 both.0) (key_is-path p.key q both.1))
  | inr miss ↦
      let rest : 0 < 0 + tally (entry_is a q) eles = rw miss at lt in
      inr (Has-entries a q eles (omega (arith, rest)))
]

entry_is_refl : (p : Tabkv) → entry_is p.addr p.key p ≡ true
entry_is_refl p =
    let e : (p.addr == p.addr) ≡ true = (==_iff p.addr p.addr).1 refl in
    rw (e, key_is_refl p.key) refl

module _ {A : Type 0} where
  -- What a chain's search finds is counted in the chain.
  pub found-tally :
      (S P : A → Bool) (xs : List A) (p : A)
      → search_chain S xs ≡ some p
      → one_if (P p) ≤ tally P xs
  found-tally S P [] p e = absurd cc
  found-tally S P (x ∷ xs) p e = elim (Bool-cases (S x)) [
    | inl hit ↦
        let h : some x ≡ some p = rw hit at e in
        let xp : x ≡ p = cc in let same = ap (λ y. one_if (P y)) xp in omega (arith, same)
    | inr miss ↦
        let h : search_chain S xs ≡ some p = rw miss at e in omega (arith, found-tally S P xs p h)
  ]

-- The element found in a chain whose elements are in the list is an entry of the list.
pub found-Has :
    (S : Tabkv → Bool) (chain eles : List Tabkv) (p : Tabkv)
    → ((P : Tabkv → Bool) → tally P chain ≤ tally P eles)
    → search_chain S chain ≡ some p
    → Has (p.addr, p.key) (entries eles)
found-Has S chain eles p within e =
    let one = ap one_if (entry_is_refl p) in
    Has-entries p.addr p.key eles (
      omega (
        arith,
        found-tally S (entry_is p.addr p.key) chain p e,
        one,
        within (entry_is p.addr p.key),
      ))
