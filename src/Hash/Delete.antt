-- ===== src/Hash/Delete.antt =====
-- czl_sys_hash_delete.
use czl.Prelude.{
  ℕ, ◌+◌, ◌-◌, ◌<◌, ◌^◌, ◌≡◌, ◌≢◌, ◌⊎◌, ◌∙◌, refl, sym, ap, subst, Bool, true, Option, none, some,
  List, [], ◌∷◌, arith, ◌==◌, get_or, set, length, All, Bool-cases, Option-cases, inl, inr, ==_iff,
  length-set, get_or-set_self, get_or-set_ne,
}
use czl.Mm.State.{word, sub_ulong}
use czl.Hash.Key.{index_cac}
use czl.Hash.Table.{HashKind, Lawful, SysHash, search_chain, unchain, sys_hash_delete}
use czl.Hash.Tally.{
  one_if, tally, tally_all, tally-set, search_chain-some, search_chain-none, unchain-tally,
}
use czl.Hash.Resize.{IsHash, index_lt}
use czl.Hash.Find.{query-bucket, tally-le}
use czl.Hash.Change.{OneMore, shrink-IsHash}

pub All-unchain :
    {A : Type 0} (H : A → Type 0) (S : A → Bool) (xs : List A) → All H xs → All H (unchain S xs)
All-unchain H S [] h = h
All-unchain H S (x ∷ xs) h = elim (Bool-cases (S x)) [
  | inl e ↦ rw e h.1
  | inr e ↦ rw e (h.0, All-unchain H S xs h.1)
]

module _ (K : HashKind) where
  abbrev pub Deleted : K.Key → SysHash K → SysHash K × Option K.Key → Type 0
  Deleted key t out =
      ((out.1 ≡ none) × (out.0 ≡ t) × (tally_all (K.same (K.query key)) t.buckets ≡ 0))
      ⊎ ((p : K.Key) × (out.1 ≡ some p)
          × (K.same (K.query key) p ≡ true)
          × ((k : ℕ) × IsHash K k out.0)
          × OneMore K p out.0 t)

module _ (K : HashKind) (law : Lawful K) (k : ℕ) (t : SysHash K) (v : IsHash K k t) where
  -- The table with the first match taken out of its bucket.
  abbrev pub without : K.Key → SysHash K
  without key =
      let i = index_cac (K.hash_key key) t.mask in
      record t {
        buckets = set t.buckets i (unchain (K.same (K.query key)) (get_or t.buckets i []));
        count = sub_ulong t.count 1;
      }

  without-IsHash :
      (key p : K.Key)
      → search_chain
          (K.same (K.query key))
          (get_or t.buckets (index_cac (K.hash_key key) t.mask) [])
        ≡ some p
      → IsHash K k (without key) × OneMore K p (without key) t
  without-IsHash key p found =
      let i = index_cac (K.hash_key key) t.mask in
      let S = K.same (K.query key) in
      let b = get_or t.buckets i [] in
      let lt : i < length t.buckets =
        rw (v.mask_eq, v.placed.len)
          (index_lt K law.hashes k (K.hash_key key) v.placed.bounded (law.hashes.hash_word key)) in
      let one : OneMore K p (without key) t =
        λ P. omega (arith, tally-set P t.buckets i (unchain S b) lt, unchain-tally S P b p found) in
      (
        record {
          placed = record {
            bounded = v.placed.bounded;
            len = length-set t.buckets i (unchain S b) ∙ v.placed.len;
            homed = λ j. elim (Bool-cases (i == j)) [
              | inl e ↦
                  let ij : i ≡ j = (==_iff i j).0 e in
                  subst
                    (λ n.
                      All (λ p. index_cac (K.hash_key p) (word - 2 ^ k) ≡ n)
                        (get_or (set t.buckets i (unchain S b)) n []))
                    ij
                    (rw (get_or-set_self t.buckets i (unchain S b) [] lt) (
                      All-unchain (λ p. index_cac (K.hash_key p) (word - 2 ^ k) ≡ i) S b
                        (v.placed.homed i)))
              | inr e ↦
                  let ne : i ≢ j = λ h. absurd (ground arith) in
                  rw (get_or-set_ne t.buckets i j (unchain S b) [] ne) (v.placed.homed j)
            ];
          };
          counts = record {
            counted = omega (arith, one (λ _. true), v.counts.counted, v.counts.count_word);
            count_word = omega arith;
          };
          size_eq = v.size_eq;
          mask_eq = v.mask_eq;
        },
        one,
      )

  -- In a well-formed table, for keys whose hash agrees with their comparison, a deletion leaves a
  -- well-formed table: it takes exactly one key out that matches the name or address of the given one, and
  -- returns it, or returns NULL and changes nothing where no key matches; halving the table, or
  -- failing to, keeps its keys.
  pub sys_hash_delete-Deleted :
      (granted : ℕ → Bool) (key : K.Key) → Deleted K key t (sys_hash_delete K granted key t)
  unfolding sys_hash_delete
  sys_hash_delete-Deleted granted key =
      let i = index_cac (K.hash_key key) t.mask in
      let S = K.same (K.query key) in
      let qi : index_cac (K.hash_query (K.query key)) t.mask ≡ i =
        ap (λ h. index_cac h t.mask) (law.query_hash key) in
      let all : tally_all S t.buckets ≡ tally S (get_or t.buckets i []) =
        query-bucket K law.hashes k t v (K.query key)
        ∙ ap (λ j. tally S (get_or t.buckets j [])) qi in
      elim (Bool-cases (t.count == 0)) [
        | inl e ↦ rw e (
            inl (
              refl,
              refl,
              let z : t.count ≡ 0 = (==_iff t.count 0).0 e in
                  omega (arith, z, v.counts.counted, tally-le S t.buckets),
            ))
        | inr e ↦ elim (Option-cases (search_chain S (get_or t.buckets i []))) [
          | inl n ↦
              rw (e, n) (inl (refl, refl, all ∙ search_chain-none S (get_or t.buckets i []) n))
          | inr (p, s) ↦
              let m = search_chain-some S (get_or t.buckets i []) p s in
              let w = without-IsHash key p s in
              let h = shrink-IsHash K law.hashes granted k (without key) w.0 in
              rw (e, s)
                (inr (p, refl, m.0, h.0, λ P. w.1 P ∙ ap (λ n. one_if (P p) + n) (sym (h.1 P))))
        ]
      ]
