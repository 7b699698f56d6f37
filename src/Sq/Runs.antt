-- ===== src/Sq/Runs.antt =====
-- Sequences of operations on a queue and on a stack of a script: what comes out, and in which order.
use czl.Prelude.{
  ℕ, ◌+◌, ◌<◌, ◌≡◌, ◌≢◌, refl, sym, ap, ap₂, subst, ◌∙◌, Option, none, some, List, [], ◌∷◌, ◌++◌,
  arith, length, length-append,
}
use czl.Mm.State.{word}
use czl.Sq.{Datum, Sq, sys_push, sys_in, stapop_queout}
use czl.Sq.Laws.{
  Ele, Last, Fresh, IsStack, IsQueue, Last-tail, sys_in-IsQueue, sys_push-IsStack,
  stapop_queout-IsStack, stapop_queout-empty,
}

-- A value goes in, in a new element at an address, or one comes out.
pub data Op : Type 0 where
  enter : ℕ → Datum → Op
  leave : Op

-- What comes out of a queue, and of a stack.
abbrev pub run_queue : List Op → Sq → List (Option Datum)
run_queue [] q = []
run_queue (enter a d ∷ ops) q = run_queue ops ((sys_in (some a) d q).0)
run_queue (leave ∷ ops) q = (stapop_queout q).2 ∷ run_queue ops ((stapop_queout q).0)

abbrev pub run_stack : List Op → Sq → List (Option Datum)
run_stack [] q = []
run_stack (enter a d ∷ ops) q = run_stack ops ((sys_push (some a) d q).0)
run_stack (leave ∷ ops) q = (stapop_queout q).2 ∷ run_stack ops ((stapop_queout q).0)

-- What should come out, of a list of values: the first.
abbrev pub first_out :
    (Datum → List Datum → List Datum) → List Op → List Datum → List (Option Datum)
first_out put [] xs = []
first_out put (enter a d ∷ ops) xs = first_out put ops (put d xs)
first_out put (leave ∷ ops) [] = none ∷ first_out put ops []
first_out put (leave ∷ ops) (x ∷ xs) = some x ∷ first_out put ops xs

abbrev pub at_end : {A : Type 0} → A → List A → List A
at_end d xs = xs ++ d ∷ []

abbrev pub in_front : {A : Type 0} → A → List A → List A
in_front d xs = d ∷ xs

abbrev pub values : List Ele → List Datum
values [] = []
values (x ∷ xs) = x.1 ∷ values xs

abbrev pub rest_of : List Ele → List Ele
rest_of [] = []
rest_of (x ∷ xs) = xs

-- The allocator gives no address of an element that is in, and not 0.
abbrev pub Allocated : (Ele → List Ele → List Ele) → List Op → List Ele → Type 0
Allocated put [] xs = Unit
Allocated put (enter a d ∷ ops) xs = (a ≢ 0) × (Fresh a xs × Allocated put ops (put (a, d) xs))
Allocated put (leave ∷ ops) xs = Allocated put ops (rest_of xs)

values-at_end : (e : Ele) (xs : List Ele) → values (at_end e xs) ≡ at_end e.1 (values xs)
values-at_end e [] = refl
values-at_end e (x ∷ xs) = ap (λ r. x.1 ∷ r) (values-at_end e xs)

-- Whatever goes into a queue and comes out, in whatever order of the calls, what comes out is what
-- went in first of that which is still in, and nothing where nothing is in; the queue has less than
-- 2 ^ 32 elements, and the allocator gives each new one an address of its own.
pub run_queue-first_out :
    (ops : List Op) (q : Sq) (xs : List Ele)
    → IsQueue q xs
    → Allocated at_end ops xs
    → length ops + q.count < word
    → run_queue ops q ≡ first_out at_end ops (values xs)
run_queue-first_out [] q xs v al lt = refl
run_queue-first_out (enter a d ∷ ops) q xs v al lt =
    let w = sys_in-IsQueue a d q xs v al.0 al.1.0 (omega (arith, lt)) in
    let n : length ops + (sys_in (some a) d q).0.count < word =
      omega (arith, lt, w.1.stack.counted, v.stack.counted, length-append xs ((a, d) ∷ [])) in
    run_queue-first_out ops ((sys_in (some a) d q).0) (at_end (a, d) xs) w.1 al.1.1 n
    ∙ ap (first_out at_end ops) (values-at_end (a, d) xs)
run_queue-first_out (leave ∷ ops) q [] v al lt =
    let e = stapop_queout-empty q v.stack.counted in
    rw e (ap (λ r. none ∷ r) (run_queue-first_out ops q [] v al (omega (arith, lt))))
run_queue-first_out (leave ∷ ops) q (x ∷ xs) v al lt =
    let w = stapop_queout-IsStack q x xs v.stack in
    let last = subst (λ t. Last t xs) (sym w.0.1) (Last-tail q.eles_tail x xs v.last) in
    ap₂ (λ o r. o ∷ r) w.1.1
      (run_queue-first_out ops ((stapop_queout q).0) xs (record { stack = w.0.0; last = last }) al
        (omega (arith, lt, w.0.0.counted, v.stack.counted)))

-- What comes out of a stack is what went in last of that which is still in.
pub run_stack-first_out :
    (ops : List Op) (q : Sq) (xs : List Ele)
    → IsStack q xs
    → Allocated in_front ops xs
    → length ops + q.count < word
    → run_stack ops q ≡ first_out in_front ops (values xs)
run_stack-first_out [] q xs v al lt = refl
run_stack-first_out (enter a d ∷ ops) q xs v al lt =
    let w = sys_push-IsStack a d q xs v al.0 al.1.0 (omega (arith, lt)) in
    let n : length ops + (sys_push (some a) d q).0.count < word =
      omega (arith, lt, w.1.counted, v.counted) in
    run_stack-first_out ops ((sys_push (some a) d q).0) ((a, d) ∷ xs) w.1 al.1.1 n
run_stack-first_out (leave ∷ ops) q [] v al lt =
    let e = stapop_queout-empty q v.counted in
    rw e (ap (λ r. none ∷ r) (run_stack-first_out ops q [] v al (omega (arith, lt))))
run_stack-first_out (leave ∷ ops) q (x ∷ xs) v al lt =
    let w = stapop_queout-IsStack q x xs v in
    ap₂ (λ o r. o ∷ r) w.1.1
      (run_stack-first_out ops ((stapop_queout q).0) xs w.0.0 al
        (omega (arith, lt, w.0.0.counted, v.counted)))
