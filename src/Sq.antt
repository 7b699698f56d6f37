-- ===== src/Sq.antt =====
-- The stacks and queues of scripts: czl_sq of code/czl_vm.h, czl_sqele_node_create of code/czl_vm.c,
-- and czl_sys_push, czl_sys_in and czl_stapop_queout of code/czl_lib.c. The fields of the elements
-- are maps from addresses. The stack or queue is not shared (its reference count is 1), and no
-- reference to an element's value is kept.
pub mod Laws
pub mod Runs
mod Tests
use czl.Prelude.{
  ℕ, ◌-◌, Bool, true, false, Option, none, some, List, [], ◌∷◌, ◌++◌, ◌==◌, if◌then◌else◌, update,
}
use czl.Mm.State.{add_ulong, sub_ulong}
use czl.Opt.Var.{OprType, nil, obj, int}

-- The type and the word of a value.
pub record Datum : Type 0 where
  pub type : OprType
  pub val : ℕ

pub record Sq : Type 0 where
  pub eles_head : ℕ
  pub eles_tail : ℕ
  pub foreach_inx : ℕ
  pub count : ℕ
  pub next : ℕ → ℕ
  pub datum : ℕ → Datum
  pub locked : ℕ → Bool

-- czl_sqele_node_create, with the element's `next` and value as the callers then set them.
abbrev pub new_ele : (ele next : ℕ) → Datum → Sq → Sq
new_ele ele next d q = record q {
  next = update q.next ele next;
  datum = update q.datum ele d;
  locked = update q.locked ele false;
  count = add_ulong q.count 1;
}

-- czl_sys_push; `alloc` is the address of the new element, or none.
unfoldable pub sys_push : (alloc : Option ℕ) → Datum → Sq → Sq × Bool
sys_push none d q = (q, false)
sys_push (some ele) d q =
    let q' = new_ele ele q.eles_head d q in (record q' { eles_head = ele }, true)

-- czl_sys_in: `queue->eles_tail->next = ele`, or the head where there is none.
abbrev pub link_last : ℕ → Sq → Sq
link_last ele q =
    if q.eles_head == 0
    then record q { eles_head = ele }
    else record q { next = update q.next q.eles_tail ele }

unfoldable pub sys_in : (alloc : Option ℕ) → Datum → Sq → Sq × Bool
sys_in none d q = (q, false)
sys_in (some ele) d q =
    let q' = link_last ele (new_ele ele 0 d q) in (record q' { eles_tail = ele }, true)

-- czl_stapop_queout: an empty one gives no value and no error, a locked element gives an error.
unfoldable pub stapop_queout : Sq → Sq × Bool × Option Datum
stapop_queout q =
    if q.count == 0 then (q, true, none) else if q.locked q.eles_head then (q, false, none) else (
      record q {
        foreach_inx = if q.eles_head == q.foreach_inx then q.next q.eles_head else q.foreach_inx;
        eles_head = q.next q.eles_head;
        count = sub_ulong q.count 1;
      },
      true,
      some (q.datum q.eles_head),
    )
