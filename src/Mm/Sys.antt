-- ===== src/Mm/Sys.antt =====
-- The blocks that the system allocator serves: czl_mm_sys_alloc, czl_mm_sys_free and
-- czl_mm_sys_realloc of code/czl_mm.c. `fresh` is the payload of the block that malloc returns
-- (0 when it returns NULL), and `moved` the payload of the block that realloc returns.
pub mod Laws
pub mod Realloc
use czl.Prelude.{
  ℕ, ◌+◌, ◌≡◌, Bool, true, false, ◌||◌, Option, none, some, ltb, ◌==◌, if◌then◌else◌, update, All,
  List,
}
use czl.Dll.{first, Distinct, Seg, unlink_next, unlink_last, unlink_head, push_next, push_last}
use czl.Mm.State.{Gp, add_ulong, sub_ulong, sh_head_size}

-- czl_mm_sys_alloc. `size += CZL_MM_SH_HEAD_SIZE` and `gp->mm_cnt+size` wrap.
unfoldable pub sys_alloc : (fresh : ℕ) → ℕ → Gp → ℕ × Gp
sys_alloc fresh size g =
    let total = add_ulong size sh_head_size in
    if ltb g.mm_limit (add_ulong g.mm_cnt total) || fresh == 0 then (0, g) else (
      fresh,
      record g {
        sys_last = push_last g.sys_last g.sh_head fresh;
        sys_next = push_next g.sys_next g.sh_head fresh;
        sh_head = fresh;
        tag = update g.tag fresh none;
        sys_size = update g.sys_size fresh total;
        mm_cnt = add_ulong g.mm_cnt total;
      },
    )

-- The body of czl_mm_sys_free for a block with the flag -1.
unfoldable pub sys_release : ℕ → Gp → Gp
sys_release p g = record g {
  mm_cnt = sub_ulong g.mm_cnt (g.sys_size p);
  sys_next = unlink_next g.sys_next g.sys_last p;
  sh_head = unlink_head g.sys_next g.sys_last g.sh_head p;
  sys_last = unlink_last g.sys_next g.sys_last p;
}

-- What realloc leaves at the new address: the header of the old block, with the new size.
moved_header : ℕ → ℕ → ℕ → Gp → Gp
moved_header p moved new_size g = record g {
  sys_next = update g.sys_next moved (g.sys_next p);
  sys_last = update g.sys_last moved (g.sys_last p);
  tag = update g.tag moved (g.tag p);
  sys_size = update g.sys_size moved (add_ulong sh_head_size new_size);
}

-- The neighbours of a block that realloc moved are pointed to its new place.
relink : ℕ → Gp → Gp
relink p g = record g {
  sys_next = if g.sys_last p == 0 then g.sys_next else update g.sys_next (g.sys_last p) p;
  sh_head = if g.sys_last p == 0 then p else g.sh_head;
  sys_last = if g.sys_next p == 0 then g.sys_last else update g.sys_last (g.sys_next p) p;
  tag = update g.tag p none;
}

-- czl_mm_sys_realloc, on the payload `p` of a block with the flag -1 (others go to
-- czl_mm_diff_page_resize). The result is the payload, 0 for a failure.
unfoldable pub sys_realloc : (moved : ℕ) → ℕ → ℕ → ℕ → Gp → ℕ × Gp
unfolding moved_header relink
sys_realloc moved p new_size old_size g =
    let cnt = add_ulong (sub_ulong new_size old_size) g.mm_cnt in
    if ltb g.mm_limit cnt || moved == 0
    then (0, g)
    else let g' = record (moved_header p moved new_size g) { mm_cnt = cnt } in
      (moved, if moved == p then g' else relink moved g')

-- The list of system blocks at mmp_sh_head: linked both ways, without repetition, each block
-- with the flag -1.
pub record IsSys (g : Gp) (xs : List ℕ) : Type 0 where
  pub links : Seg g.sys_next g.sys_last 0 xs 0
  pub distinct : Distinct xs
  pub head : g.sh_head ≡ first xs 0
  pub flags : All (λ a. g.tag a ≡ none) xs
