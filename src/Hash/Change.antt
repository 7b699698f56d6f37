-- ===== src/Hash/Change.antt =====
-- czl_sys_hash_insert, and the resizing that it and czl_sys_hash_delete do.
use czl.Prelude.{
  ℕ, zero, suc, ◌+◌, ◌-◌, ◌*◌, ◌/◌, ◌%◌, ◌≤◌, ◌<◌, ◌^◌, ◌≡◌, ◌⊎◌, ◌∙◌, refl, sym, ap, subst, Bool,
  true, false, ◌&&◌, [], arith, ltb, leb, ◌==◌, length, Bool-cases, inl, inr, ==_iff, ltb→lt,
  and_split, leb→le,
}
use czl.Mm.State.{word, add_ulong}
use czl.Hash.Key.{index_cac}
use czl.Hash.Table.{HashKind, Hashes, SysHash, push_at, insert_node, sys_hash_insert, shrink}
use czl.Hash.Tally.{one_if, tally_all}
use czl.Hash.Resize.{Counted, IsHash, index_lt, push_at-tally, push_at-Placed, size_update-IsHash}
use native.Mathlib.Nat.{pow-suc}

-- Half of a size of 16 and more is a power of 2 again.
pub half_pow : (k : ℕ) → k ≤ 31 → 16 ≤ 2 ^ k → (m : ℕ) × (m ≤ 31) × (2 ^ k / 2 ≡ 2 ^ m)
half_pow zero le big = absurd (omega arith)
half_pow (suc k) le big = (k, omega arith, omega (arith, pow-suc 2 k))

module _ (K : HashKind) where
  -- A table as it starts, with no buckets.
  pub record IsEmpty (t : SysHash K) : Type 0 where
    pub no_size : t.size ≡ 0
    pub no_count : t.count ≡ 0
    pub no_buckets : t.buckets ≡ []

  abbrev pub Valid : SysHash K → Type 0
  Valid t = IsEmpty t ⊎ ((k : ℕ) × IsHash K k t)

  abbrev pub SameKeys : SysHash K → SysHash K → Type 0
  SameKeys t u = (P : K.Key → Bool) → tally_all P u.buckets ≡ tally_all P t.buckets

  -- `u` has the keys of `t` and `key` once more.
  abbrev pub OneMore : K.Key → SysHash K → SysHash K → Type 0
  OneMore key t u =
      (P : K.Key → Bool) → tally_all P u.buckets ≡ one_if (P key) + tally_all P t.buckets

  abbrev pub Inserted : (ℕ → Bool) → K.Key → SysHash K → SysHash K × Bool → Type 0
  Inserted granted key t out =
      ((out.1 ≡ true) × ((k : ℕ) × IsHash K k out.0) × OneMore key t out.0)
      ⊎ ((out.1 ≡ false) × ((n : ℕ) × (granted n ≡ false)) × Valid out.0 × SameKeys t out.0)

module _ (K : HashKind) (law : Hashes K) where
  Valid-Counted : (t : SysHash K) → Valid K t → Counted K t
  Valid-Counted t (inl e) = record {
    counted = rw (e.no_count, e.no_buckets) refl;
    count_word = rw e.no_count (omega arith);
  }
  Valid-Counted t (inr (k, v)) = v.counts

  insert_node-Inserted :
      (granted : ℕ → Bool) (key : K.Key) (k : ℕ) (t : SysHash K)
      → IsHash K k t
      → t.count < 2 ^ 31
      → Inserted K granted key t (insert_node K granted key t)
  unfolding insert_node
  insert_node-Inserted granted key k t v small = elim (Bool-cases (granted 8)) [
    | inr g ↦ rw g (inr (refl, (8, g), inr (k, v), λ P. refl))
    | inl g ↦
        let i = index_cac (K.hash_key key) (word - 2 ^ k) in
        let lt : i < length t.buckets =
          subst (λ s. i < s) (sym v.placed.len)
            (index_lt K law k (K.hash_key key) v.placed.bounded (law.hash_word key)) in
        let more : (P : K.Key → Bool)
            → tally_all P (push_at K t.buckets i key) ≡ one_if (P key) + tally_all P t.buckets =
          λ P. push_at-tally K law k P t.buckets i key lt in
        rw (g, v.mask_eq)
          (inl (
            refl,
            (
              k,
              record {
                placed = push_at-Placed K law k t.buckets key v.placed;
                counts = record {
                  counted = omega (arith, more (λ _. true), v.counts.counted);
                  count_word = omega arith;
                };
                size_eq = v.size_eq;
                mask_eq = refl;
              },
            ),
            more,
          ))
  ]

  -- The table is doubled when it is full.
  pub doubled :
      (t : SysHash K)
      → Valid K t
      → ltb t.size (add_ulong t.count 1) ≡ true
      → t.count < 2 ^ 31
      → (k : ℕ) × (k ≤ 31) × ((t.size * 2 % word ≡ 2 ^ k) ⊎ ((t.size * 2 % word ≡ 0) × (k ≡ 0)))
  doubled t (inl e) full small = (0, omega arith, inr (rw e.no_size refl, refl))
  doubled t (inr (k, v)) full small =
      let lt = ltb→lt t.size (add_ulong t.count 1) full in
      let le : 2 ^ k < 2 ^ 31 = omega (arith, v.size_eq) in
      let le' : k < 31 = below k v.placed.bounded le in
      (suc k, omega (arith, le'), inl (omega (arith, pow-suc 2 k, v.size_eq, le)))
    where
      below : (k : ℕ) → k ≤ 31 → 2 ^ k < 2 ^ 31 → k < 31
      below k le lt = elim (Bool-cases (k == 31)) [
        | inl e ↦
            let h : 2 ^ 31 < 2 ^ 31 = subst (λ n. 2 ^ n < 2 ^ 31) ((==_iff k 31).0 e) lt in
            absurd (omega arith)
        | inr e ↦ ground arith
      ]

  -- For keys whose hash agrees with their comparison, an insertion into a well-formed table of less
  -- than 2 ^ 31 keys (or one with no buckets) either stores the key, and the
  -- table is well-formed with that key once more, or reports 0 because the allocator refused a
  -- request, and the table is well-formed with the keys it had.
  pub sys_hash_insert-Inserted :
      (granted : ℕ → Bool) (key : K.Key) (t : SysHash K)
      → Valid K t
      → t.count < 2 ^ 31
      → Inserted K granted key t (sys_hash_insert K granted key t)
  unfolding sys_hash_insert
  sys_hash_insert-Inserted granted key t v small =
      elim (Bool-cases (ltb t.size (add_ulong t.count 1))) [
        | inl full ↦
            let d = doubled t v full small in
            elim (size_update-IsHash K law d.0 granted (t.size * 2 % word) t d.1 d.2
              (Valid-Counted t v)) [
                | inl (g, e) ↦ rw (full, e) (inr (refl, (2 ^ d.0 * 4 % word, g), v, λ P. refl))
                | inr (u, g, e, w, keys) ↦
                    let c : u.count ≡ t.count =
                      w.counts.counted ∙ keys (λ _. true) ∙ sym (Valid-Counted t v).counted in
                    let ins =
                      insert_node-Inserted granted key d.0 u w
                        (subst (λ n. n < 2 ^ 31) (sym c) small) in
                    rw (full, e) (same_keys granted key t u (insert_node K granted key u) keys ins)
              ]
        | inr room ↦ elim v [
          | inl e ↦
              absurd (let c : ltb 0 1 ≡ false = rw (e.no_size, e.no_count) at room in ground arith)
          | inr (k, w) ↦ rw room (insert_node-Inserted granted key k t w small)
        ]
      ]
    where
      same_keys :
          (granted : ℕ → Bool) (key : K.Key) (t u : SysHash K) (out : SysHash K × Bool)
          → SameKeys K t u
          → Inserted K granted key u out
          → Inserted K granted key t out
      same_keys granted key t u out keys (inl (r, w, more)) =
          inl (r, w, λ P. more P ∙ ap (λ n. one_if (P key) + n) (keys P))
      same_keys granted key t u out keys (inr (r, w, x, same)) = inr (r, w, x, λ P. same P ∙ keys P)

  pub shrink-IsHash :
      (granted : ℕ → Bool) (k : ℕ) (t : SysHash K)
      → IsHash K k t
      → ((m : ℕ) × IsHash K m (shrink K granted t)) × SameKeys K t (shrink K granted t)
  unfolding shrink
  shrink-IsHash granted k t v = elim (Bool-cases (leb t.count (t.size / 4) && leb 16 t.size)) [
    | inr e ↦ rw e ((k, v), λ P. refl)
    | inl e ↦
        let big = leb→le 16 t.size (and_split (leb t.count (t.size / 4)) (leb 16 t.size) e).1 in
        let h = half_pow k v.placed.bounded (subst (λ n. 16 ≤ n) v.size_eq big) in
        let n : t.size / 2 ≡ 2 ^ h.0 = ap (λ n. n / 2) v.size_eq ∙ h.2 in
        elim (size_update-IsHash K law h.0 granted (t.size / 2) t h.1 (inl n) v.counts) [
          | inl (g, s) ↦ rw (e, s) ((k, v), λ P. refl)
          | inr (u, g, s, w, keys) ↦ rw (e, s) ((h.0, w), keys)
        ]
  ]
