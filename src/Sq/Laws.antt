-- ===== src/Sq/Laws.antt =====
-- The stacks and queues of scripts against lists of values.
use czl.Prelude.{
  ℕ, suc, ◌<◌, ◌≡◌, ◌≢◌, refl, sym, ap, subst, ◌∙◌, Bool, true, false, none, some, List, [], ◌∷◌,
  ◌++◌, ◌==◌, ne→==, update, update_same, update_other, arith, length, length-append, All,
}
use czl.Mm.State.{word}
use czl.Sq.{Datum, Sq, sys_push, sys_in, stapop_queout}

-- An element: its address and its value.
abbrev pub Ele : Type 0
Ele = ℕ × Datum

-- The elements from an address on, none of them locked.
abbrev pub Linked :
    (next : ℕ → ℕ) → (datum : ℕ → Datum) → (locked : ℕ → Bool) → ℕ → List Ele → Type 0
Linked next datum locked p [] = p ≡ 0
Linked next datum locked p (x ∷ xs) =
    (p ≡ x.0)
    × ((x.0 ≢ 0)
        × ((datum x.0 ≡ x.1) × ((locked x.0 ≡ false) × Linked next datum locked (next x.0) xs)))

abbrev pub Last : ℕ → List Ele → Type 0
Last t [] = Unit
Last t (x ∷ []) = t ≡ x.0
Last t (x ∷ y ∷ xs) = Last t (y ∷ xs)

-- No element is at the address.
abbrev pub Fresh : ℕ → List Ele → Type 0
Fresh a xs = All (λ x. x.0 ≢ a) xs

-- The addresses differ.
abbrev pub Distinct : List Ele → Type 0
Distinct [] = Unit
Distinct (x ∷ xs) = Fresh x.0 xs × Distinct xs

pub record IsStack (q : Sq) (xs : List Ele) : Type 0 where
  pub linked : Linked q.next q.datum q.locked q.eles_head xs
  pub counted : q.count ≡ length xs
  pub count_word : q.count < word
  pub distinct : Distinct xs

-- A queue has its tail as well.
pub record IsQueue (q : Sq) (xs : List Ele) : Type 0 where
  pub stack : IsStack q xs
  pub last : Last q.eles_tail xs

-- A write to a fresh element changes no other.
Linked-new :
    (next : ℕ → ℕ) (datum : ℕ → Datum) (locked : ℕ → Bool) (p a n : ℕ) (d : Datum) (xs : List Ele)
    → Fresh a xs
    → Linked next datum locked p xs
    → Linked (update next a n) (update datum a d) (update locked a false) p xs
Linked-new next datum locked p a n d [] f l = l
Linked-new next datum locked p a n d (x ∷ xs) f (px, (nz, (e, (u, rest)))) =
    let other : (x.0 == a) ≡ false = ne→== x.0 a f.0 in
    (
      px,
      (
        nz,
        (
          update_other datum a x.0 d other ∙ e,
          (
            update_other locked a x.0 false other ∙ u,
            subst (λ r. Linked (update next a n) (update datum a d) (update locked a false) r xs)
                (sym (update_other next a x.0 n other))
                (Linked-new next datum locked (next x.0) a n d xs f.1 rest),
          ),
        ),
      ),
    )

-- The last element is none that the address is not in front of.
Last-Fresh : (t a : ℕ) (x : Ele) (xs : List Ele) → Last t (x ∷ xs) → Fresh a (x ∷ xs) → t ≢ a
Last-Fresh t a x [] l f = λ e. f.0 (sym l ∙ e)
Last-Fresh t a x (y ∷ xs) l f = Last-Fresh t a y xs l f.1

-- The last element linked to a new one.
Linked-Last :
    (next : ℕ → ℕ) (datum : ℕ → Datum) (locked : ℕ → Bool) (p t : ℕ) (e : Ele) (x : Ele)
    (xs : List Ele)
    → Linked next datum locked p (x ∷ xs)
    → Last t (x ∷ xs)
    → Distinct (x ∷ xs)
    → Fresh e.0 (x ∷ xs)
    → Linked next datum locked e.0 (e ∷ [])
    → Linked (update next t e.0) datum locked p (x ∷ xs ++ e ∷ [])
Linked-Last next datum locked p t e x [] (px, (nz, (ex, (u, rest)))) l d f
      (pe, (nze, (ee, (ue, end)))) =
    let other : (e.0 == t) ≡ false = ne→== e.0 t (λ same. f.0 (sym l ∙ sym same)) in
    (
      px,
      (
        nz,
        (
          ex,
          (
            u,
            (
              subst (λ a. update next t e.0 a ≡ e.0) l (update_same next t e.0),
              (nze, (ee, (ue, update_other next t e.0 e.0 other ∙ end))),
            ),
          ),
        ),
      ),
    )
Linked-Last next datum locked p t e x (y ∷ xs) (px, (nz, (ex, (u, rest)))) l d f new =
    let other : (x.0 == t) ≡ false = ne→== x.0 t (λ same. Last-Fresh t x.0 y xs l d.0 (sym same)) in
    (
      px,
      (
        nz,
        (
          ex,
          (
            u,
            subst (λ r. Linked (update next t e.0) datum locked r (y ∷ xs ++ e ∷ []))
                (sym (update_other next t x.0 e.0 other))
                (Linked-Last next datum locked (next x.0) t e y xs rest l d.1 f.1 new),
          ),
        ),
      ),
    )

Last-append : (t : ℕ) (e : Ele) (xs : List Ele) → t ≡ e.0 → Last t (xs ++ e ∷ [])
Last-append t e [] h = h
Last-append t e (x ∷ []) h = h
Last-append t e (x ∷ y ∷ xs) h = Last-append t e (y ∷ xs) h

Fresh-append : (a : ℕ) (e : Ele) (xs : List Ele) → Fresh a xs → e.0 ≢ a → Fresh a (xs ++ e ∷ [])
Fresh-append a e [] f ne = (ne, tt)
Fresh-append a e (x ∷ xs) f ne = (f.0, Fresh-append a e xs f.1 ne)

Distinct-append : (e : Ele) (xs : List Ele) → Distinct xs → Fresh e.0 xs → Distinct (xs ++ e ∷ [])
Distinct-append e [] d f = (tt, tt)
Distinct-append e (x ∷ xs) d f =
    (Fresh-append x.0 e xs d.0 (λ same. f.0 (sym same)), Distinct-append e xs d.1 f.1)

-- An element of a fresh address, entered into a queue of less than 2 ^ 32 - 1 elements, is its last.
pub sys_in-IsQueue :
    (ele : ℕ) (d : Datum) (q : Sq) (xs : List Ele)
    → IsQueue q xs
    → ele ≢ 0
    → Fresh ele xs
    → suc q.count < word
    → ((sys_in (some ele) d q).1 ≡ true) × IsQueue ((sys_in (some ele) d q).0) (xs ++ (ele, d) ∷ [])
unfolding sys_in
sys_in-IsQueue ele d q [] v nz f small = rw v.stack.linked (
  refl,
  record {
    stack = record {
      linked = (
        refl,
        (
          nz,
          (update_same q.datum ele d, (update_same q.locked ele false, update_same q.next ele 0)),
        ),
      );
      counted = omega (arith, v.stack.counted, small);
      count_word = omega (arith, small);
      distinct = (tt, tt);
    };
    last = refl;
  },
)
sys_in-IsQueue ele d q (x ∷ xs) v nz f small =
    let head : (q.eles_head == 0) ≡ false =
      ne→== q.eles_head 0 (λ e. v.stack.linked.1.0 (sym v.stack.linked.0 ∙ e)) in
    rw head (
      refl,
      record {
        stack = record {
          linked =
              Linked-Last (update q.next ele 0) (update q.datum ele d) (update q.locked ele false)
                q.eles_head q.eles_tail (ele, d) x xs
                (Linked-new q.next q.datum q.locked q.eles_head ele 0 d (x ∷ xs) f v.stack.linked)
                v.last v.stack.distinct f
                (
                  refl,
                  (
                    nz,
                    (
                      update_same q.datum ele d,
                      (update_same q.locked ele false, update_same q.next ele 0),
                    ),
                  ),
                );
          counted = omega (arith, v.stack.counted, small, length-append xs ((ele, d) ∷ []));
          count_word = omega (arith, small);
          distinct = Distinct-append (ele, d) (x ∷ xs) v.stack.distinct f;
        };
        last = Last-append ele (ele, d) (x ∷ xs) refl;
      },
    )

pub Last-tail : (t : ℕ) (x : Ele) (xs : List Ele) → Last t (x ∷ xs) → Last t xs
Last-tail t x [] l = tt
Last-tail t x (y ∷ xs) l = l

-- The first element leaves, and its value is returned.
pub stapop_queout-IsStack :
    (q : Sq) (x : Ele) (xs : List Ele)
    → IsStack q (x ∷ xs)
    → let out = stapop_queout q in
      (IsStack out.0 xs × (out.0.eles_tail ≡ q.eles_tail)) × ((out.1 ≡ true) × (out.2 ≡ some x.1))
unfolding stapop_queout
stapop_queout-IsStack q x xs v =
    let some_left : (q.count == 0) ≡ false =
      ne→== q.count 0 (λ e. absurd (omega (arith, e, v.counted))) in
    let l = v.linked in
    rw (some_left, l.0, l.1.1.1.0)
      (
        (
          record {
            linked = l.1.1.1.1;
            counted = omega (arith, v.counted, v.count_word);
            count_word = omega (arith, v.count_word);
            distinct = v.distinct.1;
          },
          refl,
        ),
        (refl, ap some l.1.1.0),
      )

-- An element of a fresh address, pushed, is the first.
pub sys_push-IsStack :
    (ele : ℕ) (d : Datum) (q : Sq) (xs : List Ele)
    → IsStack q xs
    → ele ≢ 0
    → Fresh ele xs
    → suc q.count < word
    → ((sys_push (some ele) d q).1 ≡ true) × IsStack ((sys_push (some ele) d q).0) ((ele, d) ∷ xs)
unfolding sys_push
sys_push-IsStack ele d q xs v nz f small = (
  refl,
  record {
    linked = (
      refl,
      (
        nz,
        (
          update_same q.datum ele d,
          (
            update_same q.locked ele false,
            subst
                (λ r.
                  Linked (update q.next ele q.eles_head) (update q.datum ele d)
                    (update q.locked ele false) r xs)
                (sym (update_same q.next ele q.eles_head))
                (Linked-new q.next q.datum q.locked q.eles_head ele q.eles_head d xs f v.linked),
          ),
        ),
      ),
    );
    counted = omega (arith, v.counted, small);
    count_word = omega (arith, small);
    distinct = (f, v.distinct);
  },
)

-- Of an empty one nothing leaves.
pub stapop_queout-empty : (q : Sq) → q.count ≡ 0 → stapop_queout q ≡ (q, true, none)
unfolding stapop_queout
stapop_queout-empty q e = rw e refl
