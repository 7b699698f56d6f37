-- ===== src/Sort/Tests.antt =====
-- The theorems on the sorts at small arrays and tables, and runs of them.
use czl.Prelude.{
  ℕ, ◌≡◌, inl, inr, refl, true, false, some, List, [], ◌∷◌, arith, ltb, ◌==◌, ◌-◌, ◌^◌,
}
use czl.Opt.Var.{Var, long_word, string, obj, nil}
use czl.Opt.Tests.{naturals, texts_only, number}
use czl.Sort.{CmpRet, divide}
use czl.Sort.Compare.{TabEle, key_cmp, sort_array, sort_table, by_mode, czl_strcmp, sort_mode}
use czl.Sort.Order.{IsOrder}
use czl.Sort.Same.{SameAs}
use czl.Sort.Words.{same_lower, czl_strcmp-same_lower}
use czl.Sort.Laws.{
  Direction, Returns, Sorts, IntVar, int_cmp, sort_array_ends, sort_array-Sorts, sort_table_ends,
  sort_array_ints,
}
use czl.Sort.Order.{IsSorted}
use czl.Sort.Tables.{IntEle, InOrder, ele_val, ele_key, sort_table_ints}

-- Natural numbers, and a comparison of theirs that fails at 7.
abbrev by_size : ℕ → ℕ → CmpRet
by_size x y = record { left = ltb x y; failed = false }

abbrev fails_at_seven : ℕ → ℕ → CmpRet
fails_at_seven x y = record { left = ltb x y; failed = x == 7 }

by_size-IsOrder : IsOrder by_size
by_size-IsOrder = record { asym = λ x y e. ground arith; weak = λ x y z xy yz. ground arith }

abbrev five : List ℕ
five = 3 ∷ 1 ∷ 2 ∷ 3 ∷ 0 ∷ []

-- Elements of tables, by key and value; 2 ^ 64 - 1 is -1.
abbrev by_key : ℕ × ℕ → ℕ × ℕ → CmpRet
by_key x y = by_size x.0 y.0

abbrev by_val : ℕ × ℕ → ℕ × ℕ → CmpRet
by_val x y = by_size x.1 y.1

-- The C library's strcmp, where no text is compared.
abbrev same_text : List ℕ → List ℕ → ℕ
same_text a b = 0

abbrev element : (key val : ℕ) → TabEle
element key val = record { value = number val; key = key }

abbrev two_elements : List IntEle
two_elements =
    (element 3 9, (refl, (omega arith, omega arith)))
    ∷ (element (long_word - 1) 4, (refl, (omega arith, omega arith)))
    ∷ []

abbrev four : List (ℕ × ℕ)
four = (2, 9) ∷ (1, 9) ∷ (4, 5) ∷ (3, 7) ∷ []

abbrev ints : List IntVar
ints = (number 5, (refl, omega arith)) ∷ (number 2, (refl, omega arith)) ∷ []

ascending_run : sort_array by_size 0 five ≡ some (0 ∷ 1 ∷ 2 ∷ 3 ∷ 3 ∷ [], false)
unfolding sort_array czl.Sort.quick_sort czl.Sort.partition czl.Sort.part_loop czl.Sort.scan_left
    czl.Sort.scan_right
ascending_run = refl

descending_run : sort_array by_size 2 five ≡ some (3 ∷ 3 ∷ 2 ∷ 1 ∷ 0 ∷ [], false)
unfolding sort_array czl.Sort.quick_sort czl.Sort.partition czl.Sort.part_loop czl.Sort.scan_left
    czl.Sort.scan_right
descending_run = refl

table_run : sort_table by_val by_key 0 four ≡ some ((4, 5) ∷ (3, 7) ∷ (1, 9) ∷ (2, 9) ∷ [], false)
unfolding sort_table czl.Sort.merge_sort czl.Sort.merge
table_run = refl

mode_run : sort_mode (75 ∷ 65 ∷ 115 ∷ 67 ∷ []) ≡ 2
unfolding sort_mode czl_strcmp
mode_run = refl

sort_array_ends_example :
    Returns fails_at_seven (4 ∷ 7 ∷ 1 ∷ []) (sort_array fails_at_seven 0 (4 ∷ 7 ∷ 1 ∷ []))
sort_array_ends_example = sort_array_ends fails_at_seven 0 (4 ∷ 7 ∷ 1 ∷ [])

sort_array-Sorts_example : Sorts (Direction 1 by_size) by_size five (sort_array by_size 1 five)
sort_array-Sorts_example = sort_array-Sorts by_size 1 five by_size-IsOrder

sort_table_ends_example : Returns (by_mode by_val by_key 3) four (sort_table by_val by_key 3 four)
sort_table_ends_example = sort_table_ends by_val by_key 3 four

sort_table_ints_example :
    let val = ele_val naturals texts_only 0 same_text in
    let key = ele_key naturals texts_only 0 same_text in
    (r : List IntEle) × ((sort_table val key 2 two_elements ≡ some (r, false))
      × (SameAs two_elements r × IsSorted (InOrder 2) r))
sort_table_ints_example = sort_table_ints naturals texts_only 0 same_text 2 two_elements

-- Two texts as values: the keys 5 and 3, which are numbers, are compared as what stands at those
-- addresses.
key_run :
    let v : Var = record { type = string; quality = 0; ot = obj nil; val = 0 } in
    let at : ℕ → TabEle = λ key. record { value = v; key = key } in
    (key_cmp (λ a b. 2 ^ 32 - 1) texts_only 0 (at 5) (at 3)).left ≡ true
unfolding key_cmp
key_run = refl

sort_array_ints_example :
    (r : List IntVar) × ((sort_array (int_cmp naturals texts_only 0) 0 ints ≡ some (r, false))
      × (SameAs ints r × IsSorted (Direction 0 (int_cmp naturals texts_only 0)) r))
sort_array_ints_example = sort_array_ints naturals texts_only 0 0 ints

czl_strcmp-same_lower_example :
    czl_strcmp (65 ∷ 98 ∷ []) (97 ∷ 66 ∷ []) ≡ some (same_lower (65 ∷ 98 ∷ []) (97 ∷ 66 ∷ []))
czl_strcmp-same_lower_example =
    czl_strcmp-same_lower (65 ∷ 98 ∷ []) (97 ∷ 66 ∷ [])
      (inl (omega arith, omega arith), (inr (omega arith, omega arith), tt))
      (inr (omega arith, omega arith), (inl (omega arith, omega arith), tt))
