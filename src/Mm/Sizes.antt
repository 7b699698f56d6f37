-- ===== src/Mm/Sizes.antt =====
-- The size classes of small blocks: czl_mm_sp_pool_init, czl_mm_pool_init and czl_mm_sp_get of
-- code/czl_mm.c. A pool array is a list of pools.
pub mod Classes
use czl.Prelude.{
  ℕ, zero, suc, ◌+◌, ◌/◌, ◌%◌, ◌^◌, Bool, true, false, List, [], ◌∷◌, ltb, leb, if◌then◌else◌,
  length, get_or,
}

-- czl_mm_sp_type_enum
pub data SpType : Type 0 where
  obj_sp var_sp buf_sp undef_sp : SpType

-- czl_mm_sp_pool (without `obj`, which only tables set)
pub record SpPool : Type 0 where
  pub type : SpType
  pub num : ℕ
  pub min : ℕ
  pub max : ℕ
  pub head : ℕ
  pub free_head : ℕ
  pub cnt : ℕ
  pub sum : ℕ

-- CZL_MM_SP_HEAP_NUM_MIN, CZL_MM_SP_RANGE
abbrev pub heap_num_min : ℕ
heap_num_min = 1

abbrev pub sp_range : ℕ
sp_range = 40

-- czl_mm_sp_pool_init
unfoldable pub sp_pool_init : SpType → ℕ → ℕ → SpPool
sp_pool_init type min max = record {
  type = type;
  num = heap_num_min;
  min = min;
  max = max;
  head = 0;
  free_head = 0;
  cnt = 0;
  sum = 0;
}

-- The do-while loop of czl_mm_pool_init, from one `min` on; `min` and `max` are unsigned short.
-- Fuel counts the rounds.
unfoldable pub range_init : ℕ → SpType → ℕ → List SpPool
range_init zero type min = []
range_init (suc k) type min =
    let max = (min + min / 9) % 2 ^ 16 in
    let next = (max + 1) % 2 ^ 16 in
    let rest = range_init k type next in
    sp_pool_init type min max ∷ (if leb next 512 then rest else [])

-- czl_mm_pool_init: one pool of a fixed size, or the forty pools of the size classes.
unfoldable pub pool_init : ℕ → SpType → List SpPool
unfolding sp_pool_init range_init
pool_init size type =
    if ltb 0 size
    then sp_pool_init type size size ∷ []
    else sp_pool_init type 1 2 ∷ sp_pool_init type 3 4 ∷ range_init sp_range type 5

abbrev pub max_of : List SpPool → ℕ → ℕ
max_of pools i = (get_or pools i (sp_pool_init SpType.undef_sp 0 0)).max

-- czl_mm_sp_get: the class of a size, by a fixed tree of comparisons.
unfoldable pub sp_get : ℕ → List SpPool → ℕ
sp_get size pool =
    if leb size (max_of pool 19)
    then (if leb size (max_of pool 9)
        then (if leb size (max_of pool 4)
            then (if leb size (max_of pool 2)
                then (if leb size (max_of pool 1)
                    then (if leb size (max_of pool 0) then 0 else 1)
                    else 2)
                else (if leb size (max_of pool 3) then 3 else 4))
            else (if leb size (max_of pool 7)
                then (if leb size (max_of pool 6)
                    then (if leb size (max_of pool 5) then 5 else 6)
                    else 7)
                else (if leb size (max_of pool 8) then 8 else 9)))
        else (if leb size (max_of pool 14)
            then (if leb size (max_of pool 12)
                then (if leb size (max_of pool 11)
                    then (if leb size (max_of pool 10) then 10 else 11)
                    else 12)
                else (if leb size (max_of pool 13) then 13 else 14))
            else (if leb size (max_of pool 17)
                then (if leb size (max_of pool 16)
                    then (if leb size (max_of pool 15) then 15 else 16)
                    else 17)
                else (if leb size (max_of pool 18) then 18 else 19))))
    else (if leb size (max_of pool 29)
        then (if leb size (max_of pool 24)
            then (if leb size (max_of pool 22)
                then (if leb size (max_of pool 21)
                    then (if leb size (max_of pool 20) then 20 else 21)
                    else 22)
                else (if leb size (max_of pool 23) then 23 else 24))
            else (if leb size (max_of pool 27)
                then (if leb size (max_of pool 26)
                    then (if leb size (max_of pool 25) then 25 else 26)
                    else 27)
                else (if leb size (max_of pool 28) then 28 else 29)))
        else (if leb size (max_of pool 34)
            then (if leb size (max_of pool 32)
                then (if leb size (max_of pool 31)
                    then (if leb size (max_of pool 30) then 30 else 31)
                    else 32)
                else (if leb size (max_of pool 33) then 33 else 34))
            else (if leb size (max_of pool 37)
                then (if leb size (max_of pool 36)
                    then (if leb size (max_of pool 35) then 35 else 36)
                    else 37)
                else (if leb size (max_of pool 38) then 38 else 39))))
