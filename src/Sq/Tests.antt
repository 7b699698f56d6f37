-- ===== src/Sq/Tests.antt =====
-- The theorems on stacks and queues at a few operations.
use czl.Prelude.{ℕ, ◌≡◌, ◌≢◌, refl, false, none, some, List, [], ◌∷◌, arith}
use czl.Opt.Var.{int}
use czl.Sq.{Datum, Sq, sys_in, sys_push, stapop_queout}
use czl.Sq.Laws.{IsStack, IsQueue}
use czl.Sq.Runs.{
  Op, enter, leave, run_queue, run_stack, first_out, at_end, in_front, run_queue-first_out,
  run_stack-first_out,
}

abbrev number : ℕ → Datum
number n = record { type = int; val = n }

abbrev empty_sq : Sq
empty_sq = record {
  eles_head = 0;
  eles_tail = 0;
  foreach_inx = 0;
  count = 0;
  next = λ a. 0;
  datum = λ a. number 0;
  locked = λ a. false;
}

empty-IsStack : IsStack empty_sq []
empty-IsStack = record { linked = refl; counted = refl; count_word = omega arith; distinct = tt }

empty-IsQueue : IsQueue empty_sq []
empty-IsQueue = record { stack = empty-IsStack; last = tt }

abbrev five_ops : List Op
five_ops = enter 100 (number 7) ∷ enter 200 (number 8) ∷ leave ∷ leave ∷ leave ∷ []

hundred : ◌≢◌ {A = ℕ} 100 0
hundred e = absurd (omega (arith, e))

two_hundred : ◌≢◌ {A = ℕ} 200 0
two_hundred e = absurd (omega (arith, e))

apart : ◌≢◌ {A = ℕ} 100 200
apart e = absurd (omega (arith, e))

run_queue-first_out_example : run_queue five_ops empty_sq ≡ first_out at_end five_ops []
run_queue-first_out_example =
    run_queue-first_out five_ops empty_sq [] empty-IsQueue
      (hundred, (tt, (two_hundred, ((apart, tt), tt)))) (omega arith)

run_stack-first_out_example : run_stack five_ops empty_sq ≡ first_out in_front five_ops []
run_stack-first_out_example =
    run_stack-first_out five_ops empty_sq [] empty-IsStack
      (hundred, (tt, (two_hundred, ((apart, tt), tt)))) (omega arith)

queue_run : run_queue five_ops empty_sq ≡ some (number 7) ∷ some (number 8) ∷ none ∷ []
unfolding sys_in stapop_queout
queue_run = refl

stack_run : run_stack five_ops empty_sq ≡ some (number 8) ∷ some (number 7) ∷ none ∷ []
unfolding sys_push stapop_queout
stack_run = refl
