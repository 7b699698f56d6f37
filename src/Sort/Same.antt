-- ===== src/Sort/Same.antt =====
-- Two segments with the same elements.
use czl.Prelude.{
  ℕ, ◌<◌, ◌≡◌, refl, sym, append-nil, length-append, ◌++◌, ◌∙◌, subst, Bool, List, [], ◌∷◌, arith,
  length,
}
use czl.Hash.Tally.{tally, tally-append}
use czl.Sort.{swap}
use czl.Sort.Segments.{length-swap, tally-swap}

module _ {A : Type 0} where
  -- The same elements, each as often.
  pub record SameAs (a b : List A) : Type 0 where
    pub long : length b ≡ length a
    pub count : (P : A → Bool) → tally P b ≡ tally P a

  pub SameAs-refl : (a : List A) → SameAs a a
  SameAs-refl a = record { long = refl; count = λ P. refl }

  pub SameAs-swap :
      (d : A) (a b : List A) (i j : ℕ)
      → i < length b
      → j < length b
      → SameAs a b
      → SameAs a (swap d b i j)
  SameAs-swap d a b i j hi hj same = record {
    long = length-swap d b i j ∙ same.long;
    count = λ P. tally-swap P d b i j hi hj ∙ same.count P;
  }

  pub SameAs-append :
      (a b first second : List A)
      → SameAs a first
      → SameAs b second
      → SameAs (a ++ b) (first ++ second)
  SameAs-append a b first second sf ss = record {
    long = omega (arith, length-append a b, length-append first second, sf.long, ss.long);
    count =
        λ P. omega (arith, tally-append P a b, tally-append P first second, sf.count P, ss.count P);
  }

  pub SameAs-trans : (a b c : List A) → SameAs a b → SameAs b c → SameAs a c
  SameAs-trans a b c ab bc = record {
    long = bc.long ∙ ab.long;
    count = λ P. bc.count P ∙ ab.count P;
  }

  pub SameAs-first :
      (x : A) (first second r : List A)
      → SameAs (first ++ second) r
      → SameAs (x ∷ first ++ second) (x ∷ r)
  SameAs-first x first second r s = record {
    long = omega (arith, s.long);
    count = λ P. omega (arith, s.count P);
  }

  pub SameAs-second :
      (y : A) (first second r : List A)
      → SameAs (first ++ second) r
      → SameAs (first ++ y ∷ second) (y ∷ r)
  SameAs-second y first second r s = record {
    long = omega (arith, s.long, length-append first second, length-append first (y ∷ second));
    count = λ P.
        omega (arith, s.count P, tally-append P first second, tally-append P first (y ∷ second));
  }

  pub SameAs-nil : (first : List A) → SameAs (first ++ []) first
  SameAs-nil first = subst (λ a. SameAs a first) (sym (append-nil first)) (SameAs-refl first)
