-- ===== src/Tab/Element.antt =====
-- The operations on one element of a script's table in code/czl_vm.c: czl_hash_tabkv_insert to
-- czl_find_num_tabkv. `alloc` is the address of the new element, with its key, or none where the
-- memory for them is refused. The table is not shared (its reference count is 1).
use czl.Prelude.{
  ℕ, ◌*◌, ◌/◌, ◌%◌, Bool, true, false, Option, none, some, List, [], ◌∷◌, ◌++◌, ltb, leb, ◌==◌,
  ◌&&◌, if◌then◌else◌, get_or, set,
}
use czl.Mm.State.{word, add_ulong, sub_ulong}
use czl.Hash.Key.{index_cac}
use czl.Hash.Table.{push_at, search_chain, unchain}
use czl.Tab.{
  TabKey, inum, str, Tabkv, Table, query_hash, kind_of, same_key, collides, key_update,
  tab_size_update,
}

-- The parameter `ins` of the C functions: NULL, the table itself, or an element.
pub data Ins : Type 0 where
  no_ins : Ins
  the_table : Ins
  behind : ℕ → Ins

abbrev pub at_addr : ℕ → Tabkv → Bool
at_addr a p = p.addr == a

-- The ordered list with an element behind another, and without an element.
abbrev pub insert_after : ℕ → Tabkv → List Tabkv → List Tabkv
insert_after a kv [] = []
insert_after a kv (p ∷ eles) = if at_addr a p then p ∷ kv ∷ eles else p ∷ insert_after a kv eles

abbrev pub place : Ins → (flag : Bool) → Tabkv → List Tabkv → List Tabkv
place (behind a) flag kv eles = insert_after a kv eles
place no_ins true kv eles = eles ++ kv ∷ []
place no_ins false kv eles = kv ∷ eles
place the_table flag kv eles = eles

-- czl_swap_tabkv, where `ins` is another element than `p`.
abbrev pub swap_tabkv : (ins : ℕ) → Tabkv → Table → Table
swap_tabkv ins p t = record t { eles = insert_after ins p (unchain (at_addr p.addr) t.eles) }

abbrev pub next_is : (ins a : ℕ) → List Tabkv → Bool
next_is ins a [] = false
next_is ins a (p ∷ []) = false
next_is ins a (p ∷ q ∷ eles) = if at_addr ins p then at_addr a q else next_is ins a (q ∷ eles)

abbrev pub index_of : Table → TabKey → ℕ
index_of t q = index_cac (query_hash t.key t.attack_cnt q) t.mask

abbrev pub new_node : Table → TabKey → ℕ → Tabkv
new_node t q a = record { addr = a; key = q; hash = query_hash t.key t.attack_cnt q }

abbrev pub chain_of : Table → TabKey → List Tabkv
chain_of t q = get_or t.buckets (index_of t q) []

-- A text is hashed before the table is doubled, a number after it.
abbrev pub key_hash : (was t : Table) → TabKey → ℕ
key_hash was t (inum n) = query_hash t.key t.attack_cnt (inum n)
key_hash was t (str s) = query_hash was.key was.attack_cnt (str s)

abbrev pub is_table : Ins → Bool
is_table no_ins = false
is_table the_table = true
is_table (behind a) = false

abbrev pub shrunk : Table → Option Table → Table
shrunk t none = t
shrunk t (some u) = u

module _ (overrun : List ℕ → List ℕ → Bool) where
  -- czl_hash_tabkv_insert.
  unfoldable pub tabkv_insert : Table → Tabkv → (index : ℕ) → Ins → (flag : Bool) → Table
  tabkv_insert t kv index ins flag = record t {
    buckets = push_at (kind_of overrun t) t.buckets index kv;
    eles = place ins flag kv t.eles;
    count = add_ulong t.count 1;
  }

  -- czl_create_str_tabkv and czl_create_num_tabkv: at the end of the list, without a search.
  unfoldable pub create_new : (alloc : Option ℕ) → TabKey → Table → Table × Option Tabkv
  create_new none q t = (t, none)
  create_new (some a) q t =
      let kv = new_node t q a in (tabkv_insert t kv (index_of t q) no_ins true, some kv)

  abbrev pub search_at : (hash : ℕ) → TabKey → Table → Option Tabkv
  search_at hash q t =
      search_chain (λ p. same_key overrun hash q p p.key)
        (get_or t.buckets (index_cac hash t.mask) [])

  abbrev pub chain_find : Table → TabKey → Option Tabkv
  chain_find t q = search_at (query_hash t.key t.attack_cnt q) q t

  -- An element that is there already is moved behind `ins`, unless it follows it. If it is `ins`
  -- itself, czl_swap_tabkv makes it its own successor; `none` stands for that.
  abbrev pub found_again : Ins → Tabkv → Table → Option (Table × Option Tabkv)
  found_again no_ins p t = some (t, some p)
  found_again the_table p t = some (t, some p)
  found_again (behind a) p t =
      if next_is a p.addr t.eles
      then some (t, some p)
      else if at_addr a p
      then none
      else some (swap_tabkv a p t, some p)

  -- The new element gets the hash and the index that were computed first, also after a change of
  -- the table's key.
  abbrev pub add_to :
      (alloc : Option ℕ)
      → TabKey
      → (index : ℕ) → (hash : ℕ) → Ins
      → (flag : Bool) → Table
      → Table × Option Tabkv
  add_to none q index hash ins flag t = (t, none)
  add_to (some a) q index hash ins flag t =
      let kv : Tabkv = record { addr = a; key = q; hash = hash } in
      (tabkv_insert t kv index ins flag, some kv)

  abbrev pub add_new :
      (new_key : ℕ → ℕ)
      → (alloc : Option ℕ) → (hash : ℕ) → TabKey
      → Ins
      → (flag : Bool) → Table
      → Table × Option Tabkv
  add_new new_key alloc hash q ins flag t =
      let index = index_cac hash t.mask in
      add_to alloc q index hash ins flag
        (if collides (get_or t.buckets index []) then key_update overrun new_key t else t)

  abbrev pub find_or_add :
      (new_key : ℕ → ℕ)
      → (alloc : Option ℕ) → (hash : ℕ) → TabKey
      → Ins
      → (flag : Bool) → Table
      → Option Tabkv
      → Option (Table × Option Tabkv)
  find_or_add new_key alloc hash q ins flag t (some p) = found_again ins p t
  find_or_add new_key alloc hash q ins flag t none =
      some (if is_table ins then (t, none) else add_new new_key alloc hash q ins flag t)

  abbrev pub in_room :
      (new_key : ℕ → ℕ)
      → (alloc : Option ℕ) → TabKey
      → Ins
      → (flag : Bool) → (was : Table) → Option Table
      → Option (Table × Option Tabkv)
  in_room new_key alloc q ins flag was none = some (was, none)
  in_room new_key alloc q ins flag was (some t) =
      let hash = key_hash was t q in
      find_or_add new_key alloc hash q ins flag t (search_at hash q t)

  -- A full table is doubled first.
  abbrev pub room : (new_key : ℕ → ℕ) → (granted : ℕ → Bool) → Table → Option Table
  room new_key granted t =
      if ltb t.size (add_ulong t.count 1)
      then tab_size_update overrun new_key granted (t.size * 2 % word) t
      else some t

  -- czl_create_key_str_tabkv and czl_create_key_num_tabkv: the table, doubled if it is full, and the
  -- element with the key, found or new, or NULL.
  unfoldable pub create_key :
      (new_key : ℕ → ℕ)
      → (granted : ℕ → Bool) → (alloc : Option ℕ) → TabKey
      → Ins
      → (flag : Bool) → Table
      → Option (Table × Option Tabkv)
  create_key new_key granted alloc q ins flag t =
      in_room new_key alloc q ins flag t (room new_key granted t)

  -- czl_delete_tabkv_node from the ordered list and the buckets on; a refusal to halve the table is
  -- ignored.
  unfoldable pub tab_shrink : (new_key : ℕ → ℕ) → (granted : ℕ → Bool) → Table → Table
  tab_shrink new_key granted t =
      if leb t.count (t.size / 4) && leb 16 t.size
      then shrunk t (tab_size_update overrun new_key granted (t.size / 2) t)
      else t

  unfoldable pub delete_node :
      (new_key : ℕ → ℕ) → (granted : ℕ → Bool) → Tabkv → (index : ℕ) → Table → Table
  delete_node new_key granted p index t = tab_shrink new_key granted (record t {
    eles = unchain (at_addr p.addr) t.eles;
    buckets = set t.buckets index (unchain (at_addr p.addr) (get_or t.buckets index []));
    count = sub_ulong t.count 1;
  })

  -- czl_delete_str_tabkv and czl_delete_num_tabkv; `val_del` is what czl_val_del answers.
  abbrev pub delete_found :
      (new_key : ℕ → ℕ)
      → (granted : ℕ → Bool) → (val_del : Bool) → (index : ℕ) → Table
      → Option Tabkv
      → Table × Bool
  delete_found new_key granted val_del index t none = (t, false)
  delete_found new_key granted val_del index t (some p) =
      if val_del then (delete_node new_key granted p index t, true) else (t, false)

  unfoldable pub delete_key :
      (new_key : ℕ → ℕ) → (granted : ℕ → Bool) → (val_del : Bool) → TabKey → Table → Table × Bool
  delete_key new_key granted val_del q t =
      delete_found new_key granted val_del (index_of t q) t (chain_find t q)

  -- czl_find_str_tabkv and czl_find_num_tabkv.
  unfoldable pub find_key : TabKey → Table → Option Tabkv
  find_key q t = chain_find t q
