-- ===== src/Hash/Kinds.antt =====
-- The two kinds of keys of the system hash tables agree on hash and comparison.
use czl.Prelude.{
  ℕ, ◌≡◌, ◌<◌, ◌+◌, ◌*◌, ◌%◌, refl, ap, true, List, [], ◌∷◌, arith, ◌==◌, ==_iff, and_split,
}
use czl.Mm.State.{word}
use czl.Hash.Key.{bkdr_hash, bkdr_from, char_word}
use czl.Hash.Table.{Lawful, name_kind, address_kind, str_eq}

-- Names are hashed into a word, and equal names have equal hashes.
pub str_eq-path : (s t : List ℕ) → str_eq s t ≡ true → s ≡ t
str_eq-path [] [] e = refl
str_eq-path [] (d ∷ t) e = absurd cc
str_eq-path (c ∷ s) [] e = absurd cc
str_eq-path (c ∷ s) (d ∷ t) e =
    let h = and_split (c == d) (str_eq s t) e in
    let x : c ≡ d = (==_iff c d).0 h.0 in let y : s ≡ t = str_eq-path s t h.1 in cc

bkdr_hash-word : (s : List ℕ) → bkdr_hash s < word
unfolding bkdr_hash
bkdr_hash-word s = go 0 s (omega arith)
  where
    go : (h : ℕ) (s : List ℕ) → h < word → bkdr_from h s < word
    go h [] lt = lt
    go h (c ∷ s) lt = go ((h * 131 + char_word c) % word) s (omega arith)

pub names-Lawful : Lawful name_kind
names-Lawful = record {
  hashes = record {
    hash_word = λ k. bkdr_hash-word k.name;
    same_hash = λ q k e. ap bkdr_hash (str_eq-path q k.name e);
  };
  query_hash = λ k. refl;
}

pub addresses-Lawful : Lawful address_kind
addresses-Lawful = record {
  hashes = record {
    hash_word = λ k. omega arith;
    same_hash = λ q k e. let x : q ≡ k = (==_iff q k).0 e in ap (λ n. n % word) x;
  };
  query_hash = λ k. refl;
}
