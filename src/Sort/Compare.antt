-- ===== src/Sort/Compare.antt =====
-- The comparisons that the sorts of code/czl_lib.c use, the order that the second argument of sort()
-- names, and the sorts that czl_sys_sort calls.
use czl.Prelude.{
  ℕ, zero, suc, ◌+◌, ◌%◌, Bool, true, false, Option, none, some, List, [], ◌∷◌, ltb, leb, ◌==◌,
  ◌||◌, if◌then◌else◌, length,
}
use czl.Opt.Var.{less_long, obj_of, OprType, int, float, string, obj, Var, Fpu, Heap}
use czl.Opt.Compare.{num_less, num_equal}
use czl.Sort.{CmpRet, descending, quick_sort, merge_sort}

-- A char below 0.
abbrev pub negative_char : ℕ → Bool
negative_char c = leb 128 (c % 256)

module _ (F : Fpu) (H : Heap) (s : H.Store) where
  abbrev str_less : List ℕ → List ℕ → Bool
  str_less l r =
      if length l == length r then negative_char (H.mem_cmp l r) else ltb (length l) (length r)

  -- Two numbers are first tested for `==`.
  abbrev number_less : Bool → Bool → ℕ → ℕ → Bool
  number_less x y a b = if num_equal F x a y b then false else num_less F x a y b

  abbrev less_by_type : OprType → OprType → ℕ → ℕ → Bool
  less_by_type int int a b = number_less false false a b
  less_by_type int float a b = number_less false true a b
  less_by_type int string a b = true
  less_by_type int (obj o) a b = true
  less_by_type float int a b = number_less true false a b
  less_by_type float float a b = number_less true true a b
  less_by_type float string a b = true
  less_by_type float (obj o) a b = true
  less_by_type string int a b = false
  less_by_type string float a b = false
  less_by_type string string a b = str_less (H.text s (obj_of a)) (H.text s (obj_of b))
  less_by_type string (obj o) a b = true
  less_by_type (obj o) r a b = false

  -- czl_val_cmp: the script's function, where there is one, does the comparison, and can fail.
  unfoldable pub val_cmp : Option (Var → Var → CmpRet) → Var → Var → CmpRet
  val_cmp (some script) a b = script a b
  val_cmp none a b = record { left = less_by_type a.type b.type a.val b.val; failed = false }

-- An element of a table, as far as the sort reads it: the value, which says the type, and the word of
-- the key, which is the key's number or holds the address of its text.
pub record TabEle : Type 0 where
  pub value : Var
  pub key : ℕ

-- czl_key_cmp. Its switches read `a->type` and `b->type`, the types of the VALUES: between two integers
-- as values the words of the keys are compared, whatever the keys are, and before a text as value the
-- texts that the keys point to. `strcmp` is the C library's, an int as a 32-bit word; the text at a
-- word that is no text's address is whatever the heap has there.
module _ (strcmp : List ℕ → List ℕ → ℕ) (H : Heap) (s : H.Store) where
  abbrev text_less : ℕ → ℕ → Bool
  text_less a b = negative_char (strcmp (H.text s (obj_of a)) (H.text s (obj_of b)))

  abbrev key_less : OprType → OprType → ℕ → ℕ → Bool
  key_less int int a b = if a == b then false else less_long a b
  key_less int float a b = true
  key_less int string a b = true
  key_less int (obj o) a b = true
  key_less float int a b = false
  key_less float float a b = false
  key_less float string a b = text_less a b
  key_less float (obj o) a b = false
  key_less string int a b = false
  key_less string float a b = false
  key_less string string a b = text_less a b
  key_less string (obj o) a b = false
  key_less (obj o) int a b = false
  key_less (obj o) float a b = false
  key_less (obj o) string a b = text_less a b
  key_less (obj o) (obj p) a b = false

  unfoldable pub key_cmp : TabEle → TabEle → CmpRet
  key_cmp a b = record { left = key_less a.value.type b.value.type a.key b.key; failed = false }

-- czl_strcmp, which takes no notice of case; on chars, which have a sign. `none` stands for a read
-- past the end of the second text.
abbrev pub signed_char : ℕ → ℕ
signed_char c = (c + 128) % 256

abbrev pub same_letter : ℕ → ℕ → Bool
same_letter x y =
    (signed_char x == signed_char y)
    || (signed_char x == signed_char y + 32)
    || (signed_char y == signed_char x + 32)

unfoldable pub czl_strcmp : List ℕ → List ℕ → Option Bool
czl_strcmp [] [] = some true
czl_strcmp [] (y ∷ b) = some false
czl_strcmp (x ∷ a) [] = if same_letter x 0 then none else some false
czl_strcmp (x ∷ a) (y ∷ b) =
    let rest = czl_strcmp a b in if same_letter x y then rest else some false

abbrev is_word : Option Bool → Bool
is_word none = false
is_word (some b) = b

-- "asc", "desc", "kasc" and "kdesc"; any other text counts as "asc".
unfoldable pub sort_mode : List ℕ → ℕ
sort_mode flag =
    if is_word (czl_strcmp (97 ∷ 115 ∷ 99 ∷ []) flag)
    then 0
    else if is_word (czl_strcmp (100 ∷ 101 ∷ 115 ∷ 99 ∷ []) flag)
    then 1
    else if is_word (czl_strcmp (107 ∷ 97 ∷ 115 ∷ 99 ∷ []) flag)
    then 2
    else if is_word (czl_strcmp (107 ∷ 100 ∷ 101 ∷ 115 ∷ 99 ∷ []) flag)
    then 3
    else 0

-- czl_quick_sort_1 differs in its partition only, which is czl_partition_1.
abbrev pub quick_sort_1 :
    {A : Type 0} → (A → A → CmpRet) → (fuel : ℕ) → List A → Option (List A × Bool)
quick_sort_1 cmp n a = quick_sort (descending cmp) n a

-- What czl_sys_sort does with an array: every mode but 0 is the descending sort.
unfoldable pub sort_array :
    {A : Type 0} → (A → A → CmpRet) → (mode : ℕ) → List A → Option (List A × Bool)
sort_array cmp mode a =
    let n = suc (length a) in if mode == 0 then quick_sort cmp n a else quick_sort_1 cmp n a

-- And with a table's elements, by their values or by their keys.
abbrev pub by_mode : {A : Type 0} → (val key : A → A → CmpRet) → (mode : ℕ) → A → A → CmpRet
by_mode val key zero = val
by_mode val key (suc zero) = descending val
by_mode val key (suc (suc zero)) = key
by_mode val key (suc (suc (suc n))) = descending key

unfoldable pub sort_table :
    {A : Type 0} → (val key : A → A → CmpRet) → (mode : ℕ) → List A → Option (List A × Bool)
sort_table val key mode a = merge_sort (by_mode val key mode) (suc (length a)) a
