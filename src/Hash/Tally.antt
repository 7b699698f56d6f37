-- ===== src/Hash/Tally.antt =====
-- How many keys of the buckets pass a test, and what a write to one bucket does to that number.
use czl.Prelude.{
  ℕ, zero, suc, ◌+◌, ◌<◌, ◌≡◌, ◌≢◌, refl, ap, Bool, true, false, none, some, List, [], ◌∷◌, ◌++◌,
  arith, if◌then◌else◌, get_or, set, length, All, Bool-cases, replicate, inl, inr, subst,
}
use czl.Hash.Table.{search_chain, unchain}

abbrev pub one_if : Bool → ℕ
one_if b = if b then 1 else 0

module _ {A : Type 0} where
  abbrev pub tally : (A → Bool) → List A → ℕ
  tally P [] = 0
  tally P (x ∷ xs) = one_if (P x) + tally P xs

  abbrev pub tally_all : (A → Bool) → List (List A) → ℕ
  tally_all P [] = 0
  tally_all P (b ∷ bs) = tally P b + tally_all P bs

module _ {A : Type 0} where
  -- A bucket's new content counts in place of the old.
  pub tally-set :
      (P : A → Bool) (bs : List (List A)) (i : ℕ) (b : List A)
      → i < length bs
      → tally_all P (set bs i b) + tally P (get_or bs i []) ≡ tally_all P bs + tally P b
  tally-set P [] i b lt = absurd (omega arith)
  tally-set P (c ∷ bs) zero b lt = omega arith
  tally-set P (c ∷ bs) (suc i) b lt = omega (arith, tally-set P bs i b (omega arith))

  pub tally-replicate : (P : A → Bool) (n : ℕ) → tally_all P (replicate n []) ≡ 0
  tally-replicate P zero = refl
  tally-replicate P (suc n) = omega (arith, tally-replicate P n)

  pub tally-append : (P : A → Bool) (a b : List A) → tally P (a ++ b) ≡ tally P a + tally P b
  tally-append P [] b = omega arith
  tally-append P (x ∷ a) b = omega (arith, tally-append P a b)

  pub tally-none : (P : A → Bool) (xs : List A) → All (λ x. P x ≡ false) xs → tally P xs ≡ 0
  tally-none P [] h = refl
  tally-none P (x ∷ xs) h = let e = tally-none P xs h.1 in rw h.0 (omega (arith, e))

  -- Where only bucket `i` can hold a key that passes, that bucket has them all.
  pub tally-bucket :
      (P : A → Bool) (bs : List (List A)) (i : ℕ)
      → ((j : ℕ) → j ≢ i → tally P (get_or bs j []) ≡ 0)
      → tally_all P bs ≡ tally P (get_or bs i [])
  tally-bucket P [] i out = refl
  tally-bucket P (b ∷ bs) zero out =
      let rest = all_zero bs (λ j. out (suc j) (λ e. absurd (omega arith))) in omega (arith, rest)
    where
      all_zero :
          (bs : List (List A)) → ((j : ℕ) → tally P (get_or bs j []) ≡ 0) → tally_all P bs ≡ 0
      all_zero [] h = refl
      all_zero (b ∷ bs) h = omega (arith, h 0, all_zero bs (λ j. h (suc j)))
  tally-bucket P (b ∷ bs) (suc i) out =
      let first = out 0 (λ e. absurd (omega arith)) in
      let rest = tally-bucket P bs i (λ j ne. out (suc j) (λ e. ne (omega arith))) in
      omega (arith, first, rest)

  -- What `search_chain` returns passes the test, and is in the chain.
  pub search_chain-some :
      (P : A → Bool) (xs : List A) (k : A)
      → search_chain P xs ≡ some k
      → (P k ≡ true) × (0 < tally P xs)
  search_chain-some P [] k e = absurd cc
  search_chain-some P (x ∷ xs) k e = elim (Bool-cases (P x)) [
    | inl t ↦
        let h : some x ≡ some k = rw t at e in
        let xk : x ≡ k = cc in let pk = subst (λ y. P y ≡ true) xk t in (pk, rw t (omega arith))
    | inr f ↦
        let h : search_chain P xs ≡ some k = rw f at e in
        let ih = search_chain-some P xs k h in (ih.0, rw f (omega (arith, ih.1)))
  ]

  pub search_chain-none : (P : A → Bool) (xs : List A) → search_chain P xs ≡ none → tally P xs ≡ 0
  search_chain-none P [] e = refl
  search_chain-none P (x ∷ xs) e = ground (arith, search_chain-none P xs)

  -- `unchain` takes out the key that `search_chain` finds, and nothing else.
  pub unchain-tally :
      (P Q : A → Bool) (xs : List A) (k : A)
      → search_chain P xs ≡ some k
      → tally Q xs ≡ one_if (Q k) + tally Q (unchain P xs)
  unchain-tally P Q [] k e = absurd cc
  unchain-tally P Q (x ∷ xs) k e = elim (Bool-cases (P x)) [
    | inl t ↦
        let h : some x ≡ some k = rw t at e in
        let xk : x ≡ k = cc in rw t (ap (λ y. one_if (Q y) + tally Q xs) xk)
    | inr f ↦
        let h : search_chain P xs ≡ some k = rw f at e in
        let ih = unchain-tally P Q xs k h in rw f (omega (arith, ih))
  ]
