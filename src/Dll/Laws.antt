-- ===== src/Dll/Laws.antt =====
-- Segments under concatenation, and under writes to the links.
use mathlib.Core.Bool.{or_assoc}
use czl.Prelude.{
  ℕ, ◌≡◌, refl, true, false, ◌||◌, List, [], ◌∷◌, ◌++◌, arith, ◌==◌, update, Bool-cases, inl, inr,
  subst, sym, ◌∙◌, ==_iff,
}
use czl.Dll.{first, final, has, Distinct, Seg}

pub first-append : (xs ys : List ℕ) (s : ℕ) → first (xs ++ ys) s ≡ first xs (first ys s)
first-append [] ys s = refl
first-append (x ∷ xs) ys s = refl

pub final-append : (l : ℕ) (xs ys : List ℕ) → final l (xs ++ ys) ≡ final (final l xs) ys
final-append l [] ys = refl
final-append l (x ∷ xs) ys = final-append x xs ys

pub has-append : (a : ℕ) (xs ys : List ℕ) → has a (xs ++ ys) ≡ (has a xs || has a ys)
has-append a [] ys = refl
has-append a (x ∷ xs) ys = rw (has-append a xs ys, or_assoc)

-- The last node of a list is a node of it.
pub has-final : (x : ℕ) (xs : List ℕ) → has (final x xs) (x ∷ xs) ≡ true
has-final x [] = ground arith
has-final x (y ∷ ys) = ground (arith, has-final y ys)

-- A node of a list is none that it lacks.
pub has-ne : (x : ℕ) (xs : List ℕ) (a : ℕ) → has x xs ≡ false → has a xs ≡ true → (a == x) ≡ false
has-ne x xs a out h = elim (Bool-cases (a == x)) [
  | inl e ↦
      let h' : has x xs ≡ true = subst (λ b. has b xs ≡ true) ((==_iff a x).0 e) h in
      absurd (let c : true ≡ false = sym h' ∙ out in cc)
  | inr e ↦ e
]

-- What a list lacks is not its last node.
pub final-ne : (x : ℕ) (xs : List ℕ) (a : ℕ) → has a (x ∷ xs) ≡ false → (a == final x xs) ≡ false
final-ne x [] a h = ground arith
final-ne x (y ∷ ys) a h = final-ne y ys a (ground arith)

pub first-ne :
    (xs : List ℕ) (a : ℕ) → has a xs ≡ false → (first xs 0 == 0) ≡ false → (a == first xs 0) ≡ false
first-ne [] a out nz = cc
first-ne (x ∷ xs) a out nz = ground arith

module _ (next last : ℕ → ℕ) where
  pub seg_split :
      (l : ℕ) (xs ys : List ℕ) (s : ℕ)
      → Seg next last l (xs ++ ys) s
      → Seg next last l xs (first ys s) × Seg next last (final l xs) ys s
  seg_split l [] ys s h = (tt, h)
  seg_split l (x ∷ xs) ys s (nz, pl, pn, r) =
      let rest = seg_split x xs ys s r in
      let e : next x ≡ first xs (first ys s) = ground (arith, first-append xs ys s) in
      ((nz, pl, e, rest.0), rest.1)

  pub seg_join :
      (l : ℕ) (xs ys : List ℕ) (s : ℕ)
      → Seg next last l xs (first ys s)
      → Seg next last (final l xs) ys s
      → Seg next last l (xs ++ ys) s
  seg_join l [] ys s h k = k
  seg_join l (x ∷ xs) ys s (nz, pl, pn, r) k =
      let e : next x ≡ first (xs ++ ys) s = ground (arith, first-append xs ys s) in
      (nz, pl, e, seg_join x xs ys s r k)

  -- Links may change elsewhere.
  pub seg_frame :
      (next' last' : ℕ → ℕ) (l : ℕ) (xs : List ℕ) (s : ℕ)
      → ((a : ℕ) → has a xs ≡ true → next' a ≡ next a)
      → ((a : ℕ) → has a xs ≡ true → last' a ≡ last a)
      → Seg next last l xs s
      → Seg next' last' l xs s
  seg_frame next' last' l [] s hn hl h = tt
  seg_frame next' last' l (x ∷ xs) s hn hl (nz, pl, pn, r) =
      let en : next' x ≡ first xs s = ground (arith, hn x) in
      let el : last' x ≡ l = ground (arith, hl x) in
      (
        nz,
        el,
        en,
        seg_frame next' last' x xs s (λ a i. hn a (ground arith)) (λ a i. hl a (ground arith)) r,
      )

  pub seg-update_next :
      (l : ℕ) (xs : List ℕ) (s a v : ℕ)
      → has a xs ≡ false
      → Seg next last l xs s
      → Seg (update next a v) last l xs s
  seg-update_next l xs s a v out = seg_frame _ _ l xs s (λ b i. ground arith) (λ b i. refl)

  pub seg-update_last :
      (l : ℕ) (xs : List ℕ) (s a v : ℕ)
      → has a xs ≡ false
      → Seg next last l xs s
      → Seg next (update last a v) l xs s
  seg-update_last l xs s a v out = seg_frame _ _ l xs s (λ b i. refl) (λ b i. ground arith)

  -- A write to the last node's `next` moves the end.
  pub seg_relink_end :
      (l x : ℕ) (xs : List ℕ) (s s' : ℕ)
      → Distinct (x ∷ xs)
      → Seg next last l (x ∷ xs) s
      → Seg (update next (final x xs) s') last l (x ∷ xs) s'
  seg_relink_end l x [] s s' d (nz, pl, pn, r) = (nz, pl, ground arith, tt)
  seg_relink_end l x (y ∷ ys) s s' (out, d) (nz, pl, pn, r) =
      let ne : (x == final y ys) ≡ false = final-ne y ys x out in
      (nz, pl, ground arith, seg_relink_end x y ys s s' d r)

  -- A write to the first node's `last` moves the start.
  pub seg_relink_start :
      (l l' x : ℕ) (xs : List ℕ) (s : ℕ)
      → Distinct (x ∷ xs)
      → Seg next last l (x ∷ xs) s
      → Seg next (update last x l') l' (x ∷ xs) s
  seg_relink_start l l' x xs s (out, d) (nz, pl, pn, r) =
      (nz, ground arith, pn, seg-update_last x xs s x l' out r)
