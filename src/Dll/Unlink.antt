-- ===== src/Dll/Unlink.antt =====
-- Taking a node out of a doubly linked list, and putting one in front.
use czl.Prelude.{
  ℕ, ◌==◌, false, ◌≡◌, ◌≢◌, true, false, List, [], ◌∷◌, ◌++◌, arith, update, update_same,
  update_other, ◌∙◌, ne→==, subst, sym,
}
use czl.Dll.{
  first, final, has, Distinct, Seg, unlink_next, unlink_last, unlink_head, push_next, push_last,
}
use czl.Dll.Laws.{
  has-append, has-final, final-ne, seg_split, seg_join, seg-update_next, seg-update_last,
  seg_relink_end, seg_relink_start,
}

pub Distinct-split :
    (xs ys : List ℕ)
    → Distinct (xs ++ ys)
    → Distinct xs × Distinct ys × ((a : ℕ) → has a xs ≡ true → has a ys ≡ false)
Distinct-split [] ys d = (tt, d, λ a i. cc)
Distinct-split (x ∷ xs) ys (out, d) =
    let r = Distinct-split xs ys d in
    let h = has-append x xs ys in ((ground arith, r.0), r.1, λ a i. ground (arith, r.2 a))

pub Distinct-join :
    (xs ys : List ℕ)
    → Distinct xs
    → Distinct ys
    → ((a : ℕ) → has a xs ≡ true → has a ys ≡ false)
    → Distinct (xs ++ ys)
Distinct-join [] ys d e apart = e
Distinct-join (x ∷ xs) ys (out, d) e apart =
    let h = has-append x xs ys in
    (ground (arith, apart x), Distinct-join xs ys d e (λ a i. apart a (ground arith)))

-- A list without one of its nodes.
pub Distinct-remove :
    (xs ys : List ℕ) (p : ℕ)
    → Distinct (xs ++ p ∷ ys)
    → Distinct (xs ++ ys) × (has p (xs ++ ys) ≡ false)
Distinct-remove xs ys p d =
    let r = Distinct-split xs (p ∷ ys) d in
    let h = has-append p xs ys in
    (Distinct-join xs ys r.0 r.1.1 (λ a i. ground (arith, r.2 a)), ground (arith, r.2 p))

module _ (next last : ℕ → ℕ) where
  pub final-ne_zero : (l x : ℕ) (xs : List ℕ) (s : ℕ) → Seg next last l (x ∷ xs) s → final x xs ≢ 0
  final-ne_zero l x [] s h = h.0
  final-ne_zero l x (y ∷ ys) s h = final-ne_zero x y ys s h.3

  unlink_next-eq :
      (p a b : ℕ) → last p ≡ a → next p ≡ b → a ≢ 0 → unlink_next next last p ≡ update next a b
  unfolding unlink_next
  unlink_next-eq p a b e f nz = rw (e, f, ne→== a 0 nz)

  unlink_last-eq :
      (p a b : ℕ) → last p ≡ a → next p ≡ b → b ≢ 0 → unlink_last next last p ≡ update last b a
  unfolding unlink_last
  unlink_last-eq p a b e f nz = rw (f, e, ne→== b 0 nz)

  unlink_next-first : (p : ℕ) → last p ≡ 0 → unlink_next next last p ≡ next
  unfolding unlink_next
  unlink_next-first p e = rw e

  unlink_last-final : (p : ℕ) → next p ≡ 0 → unlink_last next last p ≡ last
  unfolding unlink_last
  unlink_last-final p e = rw e

  -- The nodes before `p` now end where `p` pointed, and those behind it are as they were.
  bypass_next :
      (xs ys : List ℕ) (p : ℕ)
      → Distinct xs
      → ((a : ℕ) → has a xs ≡ true → has a ys ≡ false)
      → last p ≡ final 0 xs
      → next p ≡ first ys 0
      → Seg next last 0 xs p
      → Seg next last p ys 0
      → let next' = unlink_next next last p in
        Seg next' last 0 xs (first ys 0) × Seg next' last p ys 0
  bypass_next [] ys p d apart e f h k = (tt, rw (unlink_next-first p e) k)
  bypass_next (x ∷ xs) ys p d apart e f h k =
      let eq = sym (unlink_next-eq p _ _ e f (final-ne_zero 0 x xs p h)) in
      let out = apart (final x xs) (has-final x xs) in
      (
        subst (λ n. Seg n last 0 (x ∷ xs) (first ys 0)) eq
            (seg_relink_end next last 0 x xs p (first ys 0) d h),
        subst (λ n. Seg n last p ys 0) eq (seg-update_next next last p ys 0 _ _ out k),
      )

module _ (next last : ℕ → ℕ) where
  -- The same for `last`, once the `next` links are in place.
  bypass_last :
      (next' : ℕ → ℕ) (xs ys : List ℕ) (p : ℕ)
      → Distinct ys
      → ((a : ℕ) → has a xs ≡ true → has a ys ≡ false)
      → last p ≡ final 0 xs
      → next p ≡ first ys 0
      → Seg next' last 0 xs (first ys 0)
      → Seg next' last p ys 0
      → Seg next' (unlink_last next last p) 0 (xs ++ ys) 0
  bypass_last next' xs [] p d apart e f h k =
      let eq = sym (unlink_last-final next last p f) in
      subst (λ m. Seg next' m 0 (xs ++ []) 0) eq (seg_join next' last 0 xs [] 0 h k)
  bypass_last next' xs (y ∷ ys) p d apart e f h k =
      let eq = sym (unlink_last-eq next last p _ _ e f k.0) in
      let out : has y xs ≡ false = ground (arith, apart y) in
      let before = seg-update_last next' last 0 xs y y (final 0 xs) out h in
      let after = seg_relink_start next' last p (final 0 xs) y ys 0 d k in
      subst (λ m. Seg next' m 0 (xs ++ y ∷ ys) 0) eq
        (seg_join next' (update last y (final 0 xs)) 0 xs (y ∷ ys) 0 before after)

  -- The C pattern takes exactly `p` out of the list, and the head follows.
  pub unlink-Seg :
      (xs ys : List ℕ) (p : ℕ)
      → Distinct (xs ++ p ∷ ys)
      → Seg next last 0 (xs ++ p ∷ ys) 0
      → Seg (unlink_next next last p) (unlink_last next last p) 0 (xs ++ ys) 0
  unlink-Seg xs ys p d h =
      let parts = seg_split next last 0 xs (p ∷ ys) 0 h in
      let (nz, e, f, after) = parts.1 in
      let (dx, d', apart) = Distinct-split xs (p ∷ ys) d in
      let dy = d'.1 in
      let apart' : (a : ℕ) → has a xs ≡ true → has a ys ≡ false =
        λ a i. ground (arith, apart a i) in
      let step = bypass_next next last xs ys p dx apart' e f parts.0 after in
      bypass_last (unlink_next next last p) xs ys p dy apart' e f step.0 step.1

  pub unlink_head-first :
      (xs ys : List ℕ) (p : ℕ)
      → Seg next last 0 (xs ++ p ∷ ys) 0
      → unlink_head next last (first (xs ++ p ∷ ys) 0) p ≡ first (xs ++ ys) 0
  unfolding unlink_head
  unlink_head-first [] ys p h = rw (h.1, h.2)
  unlink_head-first (x ∷ xs) ys p h =
      let e = (seg_split next last 0 (x ∷ xs) (p ∷ ys) 0 h) in
      rw (e.1.1, ne→== (final x xs) 0 (final-ne_zero next last 0 x xs p e.0))

  push_first :
      (xs : List ℕ) (p : ℕ)
      → p ≢ 0
      → has p xs ≡ false
      → Distinct xs
      → Seg next last 0 xs 0
      → Seg (push_next next (first xs 0) p) (push_last last (first xs 0) p) 0 (p ∷ xs) 0
  unfolding push_next push_last
  push_first [] p nz out d h = (nz, ground arith, ground arith, tt)
  push_first (x ∷ xs) p nz out d h =
      let h' = seg-update_next next last 0 (x ∷ xs) 0 p x out h in
      let h'' = seg-update_last (update next p x) last 0 (x ∷ xs) 0 p 0 out h' in
      let r = seg_relink_start (update next p x) (update last p 0) 0 p x xs 0 d h'' in
      let eq : push_last last x p ≡ update (update last p 0) x p = rw (ne→== x 0 h.0) in
      subst (λ m. Seg (update next p x) m 0 (p ∷ x ∷ xs) 0) (sym eq)
        (nz, ground arith, ground arith, r)

  pub push_last-eq :
      (head p : ℕ) → (head == 0) ≡ false → push_last last head p ≡ update (update last p 0) head p
  unfolding push_last
  push_last-eq head p e = rw e

  -- The C pattern puts `p` in front.
  pub push-Seg :
      (xs : List ℕ) (p head : ℕ)
      → head ≡ first xs 0
      → p ≢ 0
      → has p xs ≡ false
      → Distinct xs
      → Seg next last 0 xs 0
      → Seg (push_next next head p) (push_last last head p) 0 (p ∷ xs) 0
  push-Seg xs p head e nz out d h =
      subst (λ k. Seg (push_next next k p) (push_last last k p) 0 (p ∷ xs) 0) (sym e)
        (push_first xs p nz out d h)

  -- A node is linked in behind the last one.
  pub append-Seg :
      (x : ℕ) (xs : List ℕ) (p tail : ℕ)
      → tail ≡ final x xs
      → p ≢ 0
      → has p (x ∷ xs) ≡ false
      → Distinct (x ∷ xs)
      → Seg next last 0 (x ∷ xs) 0
      → Seg (update (update next p 0) tail p) (update last p tail) 0 (x ∷ xs ++ p ∷ []) 0
  append-Seg x xs p tail e nz out d h =
      let h1 = seg-update_next next last 0 (x ∷ xs) 0 p 0 out h in
      let h2 = seg-update_last (update next p 0) last 0 (x ∷ xs) 0 p tail out h1 in
      let h3 = seg_relink_end (update next p 0) (update last p tail) 0 x xs 0 p d h2 in
      let h4 =
        subst (λ t. Seg (update (update next p 0) t p) (update last p tail) 0 (x ∷ xs) p) (sym e)
          h3 in
      let ne : (p == tail) ≡ false = rw e (final-ne x xs p out) in
      let here = update_same last p tail ∙ e in
      let stop = update_other (update next p 0) tail p p ne ∙ update_same next p 0 in
      seg_join (update (update next p 0) tail p) (update last p tail) 0 (x ∷ xs) (p ∷ []) 0 h4
        (nz, here, stop, tt)
