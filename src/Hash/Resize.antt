-- ===== src/Hash/Resize.antt =====
-- The invariant of a system hash table, and czl_sys_hash_size_update.
use czl.Prelude.{
  ℕ, ◌+◌, ◌-◌, ◌*◌, ◌%◌, ◌≤◌, ◌<◌, ◌^◌, ◌≡◌, ◌≢◌, ◌⊎◌, ◌∙◌, refl, sym, subst, Bool, true, false,
  none, some, List, [], ◌∷◌, arith, if◌then◌else◌, ◌==◌, get_or, set, replicate, length, All,
  length-set, get_or-set_self, get_or-set_ne, length-replicate, get_or-replicate, Bool-cases, inl,
  inr, ==_iff,
}
use czl.Mm.State.{word, sub_ulong}
use czl.Hash.Key.{index_cac}
use czl.Hash.Index.{index_cac_eq, pow_pos}
use czl.Hash.Table.{HashKind, Hashes, SysHash, push_at, move_bucket, move_all, size_update}
use czl.Hash.Tally.{one_if, tally, tally_all, tally-set, tally-replicate}
use native.Mathlib.Nat.{pow-le-pow_right}

module _ (K : HashKind) where
  -- 2 ^ k buckets, each key in the bucket of its hash.
  pub record Placed (k : ℕ) (bs : List (List K.Key)) : Type 0 where
    pub bounded : k ≤ 31
    pub len : length bs ≡ 2 ^ k
    pub homed : (j : ℕ) → All (λ p. index_cac (K.hash_key p) (word - 2 ^ k) ≡ j) (get_or bs j [])

  -- The count is the number of keys.
  pub record Counted (t : SysHash K) : Type 0 where
    pub counted : t.count ≡ tally_all (λ _. true) t.buckets
    pub count_word : t.count < word

  pub record IsHash (k : ℕ) (t : SysHash K) : Type 0 where
    pub placed : Placed k t.buckets
    pub counts : Counted t
    pub size_eq : t.size ≡ 2 ^ k
    pub mask_eq : t.mask ≡ word - 2 ^ k

module _ (K : HashKind) (law : Hashes K) where
  pub index_lt : (k hash : ℕ) → k ≤ 31 → hash < word → index_cac hash (word - 2 ^ k) < 2 ^ k
  index_lt k hash le lt = omega (arith, index_cac_eq k hash le lt, pow_pos k)

  module _ (k : ℕ) where
    pub push_at-tally :
        (P : K.Key → Bool) (bs : List (List K.Key)) (i : ℕ) (p : K.Key)
        → i < length bs
        → tally_all P (push_at K bs i p) ≡ one_if (P p) + tally_all P bs
    unfolding push_at
    push_at-tally P bs i p lt = omega (arith, tally-set P bs i (p ∷ get_or bs i []) lt)

    pub push_at-Placed :
        (bs : List (List K.Key)) (p : K.Key)
        → Placed K k bs
        → Placed K k (push_at K bs (index_cac (K.hash_key p) (word - 2 ^ k)) p)
    unfolding push_at
    push_at-Placed bs p v =
        let i = index_cac (K.hash_key p) (word - 2 ^ k) in
        let b = p ∷ get_or bs i [] in
        let lt : i < length bs =
          subst (λ s. i < s) (sym v.len) (index_lt k (K.hash_key p) v.bounded (law.hash_word p)) in
        record {
          bounded = v.bounded;
          len = length-set bs i b ∙ v.len;
          homed = λ j. elim (Bool-cases (i == j)) [
            | inl e ↦
                let ij : i ≡ j = (==_iff i j).0 e in
                subst
                  (λ n.
                    All (λ p. index_cac (K.hash_key p) (word - 2 ^ k) ≡ n)
                      (get_or (set bs i b) n []))
                  ij (rw (get_or-set_self bs i b [] lt) (refl, v.homed i))
            | inr e ↦
                let ne : i ≢ j = λ h. absurd (ground arith) in
                rw (get_or-set_ne bs i j b [] ne) (v.homed j)
          ];
        }

    -- What `move_bucket` and `move_all` add to the new buckets.
    pub move_bucket-Placed :
        (b : List K.Key) (datas : List (List K.Key))
        → Placed K k datas
        → Placed K k (move_bucket K (word - 2 ^ k) b datas)
          × ((P : K.Key → Bool)
              → tally_all P (move_bucket K (word - 2 ^ k) b datas) ≡ tally P b + tally_all P datas)
    unfolding move_bucket
    move_bucket-Placed [] datas v = (v, λ P. omega arith)
    move_bucket-Placed (p ∷ q) datas v =
        let i = index_cac (K.hash_key p) (word - 2 ^ k) in
        let lt : i < length datas =
          subst (λ s. i < s) (sym v.len) (index_lt k (K.hash_key p) v.bounded (law.hash_word p)) in
        let ih = move_bucket-Placed q (push_at K datas i p) (push_at-Placed datas p v) in
        (ih.0, λ P. omega (arith, ih.1 P, push_at-tally P datas i p lt))

    pub move_all-Placed :
        (bs datas : List (List K.Key))
        → Placed K k datas
        → Placed K k (move_all K (word - 2 ^ k) bs datas)
          × ((P : K.Key → Bool)
              → tally_all P (move_all K (word - 2 ^ k) bs datas)
                ≡ tally_all P bs + tally_all P datas)
    unfolding move_all
    move_all-Placed [] datas v = (v, λ P. omega arith)
    move_all-Placed (b ∷ bs) datas v =
        let step = move_bucket-Placed b datas v in
        let ih = move_all-Placed bs (move_bucket K (word - 2 ^ k) b datas) step.0 in
        (ih.0, λ P. omega (arith, ih.1 P, step.1 P))

    pub replicate-Placed : k ≤ 31 → Placed K k (replicate (2 ^ k) [])
    replicate-Placed le = record {
      bounded = le;
      len = length-replicate (2 ^ k) [];
      homed = λ j. rw (get_or-replicate {A = List K.Key} (2 ^ k) j []) tt;
    }

    abbrev pub resized : SysHash K → SysHash K
    resized t = record t {
      mask = word - 2 ^ k;
      size = 2 ^ k;
      buckets = move_all K (word - 2 ^ k) t.buckets (replicate (2 ^ k) []);
    }

    -- Where the allocator serves `4 * 2 ^ k` bytes, resizing to `2 ^ k` buckets (0 counts as 1) gives
    -- a well-formed table with exactly the keys of the old; where it does not, the table is kept.
    pub size_update-IsHash :
        (granted : ℕ → Bool) (n : ℕ) (t : SysHash K)
        → k ≤ 31
        → (n ≡ 2 ^ k) ⊎ ((n ≡ 0) × (k ≡ 0))
        → Counted K t
        → ((granted (2 ^ k * 4 % word) ≡ false) × (size_update K granted n t ≡ none))
          ⊎ ((u : SysHash K) × (granted (2 ^ k * 4 % word) ≡ true)
              × (size_update K granted n t ≡ some u)
              × IsHash K k u
              × ((P : K.Key → Bool) → tally_all P u.buckets ≡ tally_all P t.buckets))
    unfolding size_update
    size_update-IsHash granted n t le choice v =
        let new : (if n == 0 then 1 else n) ≡ 2 ^ k = elim choice [
          | inl e ↦ ground (arith, pow_pos k)
          | inr e ↦ rw (e.0, e.1) refl
        ] in
        let neg : sub_ulong 0 (2 ^ k) ≡ word - 2 ^ k =
          omega (arith, pow_pos k, pow-le-pow_right {n = 2} (omega arith) le) in
        let moved = move_all-Placed t.buckets (replicate (2 ^ k) []) (replicate-Placed le) in
        let keys : (P : K.Key → Bool)
            → tally_all P (move_all K (word - 2 ^ k) t.buckets (replicate (2 ^ k) []))
              ≡ tally_all P t.buckets =
          λ P. omega (arith, moved.1 P, tally-replicate P (2 ^ k)) in
        elim (Bool-cases (granted (2 ^ k * 4 % word))) [
          | inl g ↦ inr (
            resized t,
            g,
            rw (new, g, neg) refl,
            record {
              placed = moved.0;
              counts = record {
                counted = v.counted ∙ sym (keys (λ _. true));
                count_word = v.count_word;
              };
              size_eq = refl;
              mask_eq = refl;
            },
            keys,
          )
          | inr g ↦ inl (g, rw (new, g) refl)
        ]
