-- ===== src/Hash/Find.antt =====
-- czl_sys_hash_find: it sees every key of the table.
use czl.Prelude.{
  ℕ, ◌-◌, ◌≤◌, ◌<◌, ◌^◌, ◌≡◌, ◌≢◌, ◌⊎◌, ◌∙◌, refl, sym, ap, subst, Bool, true, false, none, some,
  List, [], ◌∷◌, arith, ◌==◌, get_or, All, Bool-cases, Option-cases, inl, inr, ==_iff,
}
use czl.Mm.State.{word}
use czl.Hash.Key.{index_cac}
use czl.Hash.Table.{HashKind, Hashes, SysHash, search_chain, sys_hash_find}
use czl.Hash.Tally.{
  tally, tally_all, tally-none, tally-bucket, search_chain-some, search_chain-none,
}
use czl.Hash.Resize.{IsHash}

pub tally-le :
    {A : Type 0} (P : A → Bool) (bs : List (List A)) → tally_all P bs ≤ tally_all (λ _. true) bs
tally-le P [] = omega arith
tally-le P (b ∷ bs) = omega (arith, tally-le P bs, chain P b)
  where
    chain : {A : Type 0} (P : A → Bool) (b : List A) → tally P b ≤ tally (λ _. true) b
    chain P [] = omega arith
    chain P (x ∷ xs) = elim (Bool-cases (P x)) [
      | inl e ↦ rw e (omega (arith, chain P xs))
      | inr e ↦ rw e (omega (arith, chain P xs))
    ]

module _ (K : HashKind) (law : Hashes K) (k : ℕ) (t : SysHash K) (v : IsHash K k t) where
  -- The keys that a query matches are all in the bucket that it searches.
  pub query-bucket :
      (q : K.Query)
      → tally_all (K.same q) t.buckets
        ≡ tally (K.same q) (get_or t.buckets (index_cac (K.hash_query q) t.mask) [])
  query-bucket q =
      let i = index_cac (K.hash_query q) t.mask in
      tally-bucket (K.same q) t.buckets i (λ j ne.
        tally-none (K.same q) (get_or t.buckets j [])
          (apart j ne (get_or t.buckets j []) (v.placed.homed j)))
    where
      apart :
          (j : ℕ)
          → j ≢ index_cac (K.hash_query q) t.mask
          → (b : List K.Key) → All (λ p. index_cac (K.hash_key p) (word - 2 ^ k) ≡ j) b
          → All (λ p. K.same q p ≡ false) b
      apart j ne [] h = tt
      apart j ne (p ∷ b) h = (
        elim (Bool-cases (K.same q p)) [
          | inl e ↦
              let w : index_cac (K.hash_query q) t.mask ≡ j =
                rw v.mask_eq (ap (λ n. index_cac n (word - 2 ^ k)) (law.same_hash q p e) ∙ h.0) in
              absurd (ne (sym w))
          | inr e ↦ e
        ],
        apart j ne b h.1,
      )

  -- In a well-formed table, for keys whose hash agrees with their comparison, a lookup returns a key
  -- that the query matches, where the table has such keys, or NULL where it has none.
  pub sys_hash_find_complete :
      (q : K.Query)
      → ((sys_hash_find K q t ≡ none) × (tally_all (K.same q) t.buckets ≡ 0))
        ⊎ ((p : K.Key) × (sys_hash_find K q t ≡ some p)
            × (K.same q p ≡ true)
            × (0 < tally_all (K.same q) t.buckets))
  unfolding sys_hash_find
  sys_hash_find_complete q =
      let chain = get_or t.buckets (index_cac (K.hash_query q) t.mask) [] in
      let all : tally_all (K.same q) t.buckets ≡ tally (K.same q) chain = query-bucket q in
      elim (Bool-cases (t.count == 0)) [
        | inl e ↦ inl (
          rw e refl,
          (let z : t.count ≡ 0 = (==_iff t.count 0).0 e in
              omega (arith, z, v.counts.counted, tally-le (K.same q) t.buckets)),
        )
        | inr e ↦ elim (Option-cases (search_chain (K.same q) chain)) [
          | inl n ↦ inl (rw e n, all ∙ search_chain-none (K.same q) chain n)
          | inr (p, s) ↦
              let f = search_chain-some (K.same q) chain p s in
              inr (p, rw e s, f.0, subst (λ n. 0 < n) (sym all) f.1)
        ]
      ]
