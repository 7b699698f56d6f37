-- ===== src/Tab/Keys.antt =====
-- The operations of code/czl_vm.c on a script's table by a variable that holds the key: by its type
-- they go to the operation for texts or for numbers, or return NULL or 0.
use czl.Prelude.{ℕ, Bool, false, Option, none, some, List}
use czl.Opt.Var.{OprType, int, float, string, obj, Var, Fpu}
use czl.Hash.Table.{search_chain}
use czl.Tab.{inum, str, Tabkv, Table, same_key}
use czl.Tab.Element.{Ins, create_new, create_key, delete_key, find_key}

module _ (overrun : List ℕ → List ℕ → Bool) where
  abbrev pub get_str_tabkv : List Tabkv → List ℕ → (hash : ℕ) → Option Tabkv
  get_str_tabkv p s hash = search_chain (λ r. same_key overrun hash (str s) r r.key) p

  abbrev pub get_num_tabkv : List Tabkv → (num : ℕ) → Option Tabkv
  get_num_tabkv p num = search_chain (λ r. same_key overrun 0 (inum num) r r.key) p

  abbrev pub create_str_tabkv : (alloc : Option ℕ) → List ℕ → Table → Table × Option Tabkv
  create_str_tabkv alloc s t = create_new overrun alloc (str s) t

  abbrev pub create_num_tabkv : (alloc : Option ℕ) → (num : ℕ) → Table → Table × Option Tabkv
  create_num_tabkv alloc num t = create_new overrun alloc (inum num) t

  abbrev pub find_str_tabkv : List ℕ → Table → Option Tabkv
  find_str_tabkv s t = find_key overrun (str s) t

  abbrev pub find_num_tabkv : (num : ℕ) → Table → Option Tabkv
  find_num_tabkv num t = find_key overrun (inum num) t

  module _ (new_key : ℕ → ℕ) (granted : ℕ → Bool) where
    abbrev pub create_key_str_tabkv :
        (alloc : Option ℕ) → List ℕ → Ins → (flag : Bool) → Table → Option (Table × Option Tabkv)
    create_key_str_tabkv alloc s ins flag t =
        create_key overrun new_key granted alloc (str s) ins flag t

    abbrev pub create_key_num_tabkv :
        (alloc : Option ℕ) → (key : ℕ) → Ins → (flag : Bool) → Table → Option (Table × Option Tabkv)
    create_key_num_tabkv alloc key ins flag t =
        create_key overrun new_key granted alloc (inum key) ins flag t

    abbrev pub delete_str_tabkv : (val_del : Bool) → List ℕ → Table → Table × Bool
    delete_str_tabkv val_del s t = delete_key overrun new_key granted val_del (str s) t

    abbrev pub delete_num_tabkv : (val_del : Bool) → (key : ℕ) → Table → Table × Bool
    delete_num_tabkv val_del key t = delete_key overrun new_key granted val_del (inum key) t

  -- `text` is the contents of the string object of a key that is one; a double is cut to a czl_long.
  module _ (F : Fpu) (text : Var → List ℕ) where
    abbrev find_by : OprType → Var → Table → Option Tabkv
    find_by string key t = find_str_tabkv (text key) t
    find_by int key t = find_num_tabkv key.val t
    find_by float key t = find_num_tabkv (F.to_long key.val) t
    find_by (obj o) key t = none

    unfoldable pub find_tabkv : Var → Table → Option Tabkv
    find_tabkv key t = find_by key.type key t

    module _ (new_key : ℕ → ℕ) (granted : ℕ → Bool) where
      abbrev create_by :
          OprType
          → (alloc : Option ℕ) → Var
          → Ins
          → (flag : Bool) → Table
          → Option (Table × Option Tabkv)
      create_by string alloc key ins flag t =
          create_key_str_tabkv new_key granted alloc (text key) ins flag t
      create_by int alloc key ins flag t =
          create_key_num_tabkv new_key granted alloc key.val ins flag t
      create_by float alloc key ins flag t =
          create_key_num_tabkv new_key granted alloc (F.to_long key.val) ins flag t
      create_by (obj o) alloc key ins flag t = some (t, none)

      unfoldable pub create_tabkv :
          (alloc : Option ℕ) → Var → Ins → (flag : Bool) → Table → Option (Table × Option Tabkv)
      create_tabkv alloc key ins flag t = create_by key.type alloc key ins flag t

      abbrev delete_by : OprType → (val_del : Bool) → Var → Table → Table × Bool
      delete_by string val_del key t = delete_str_tabkv new_key granted val_del (text key) t
      delete_by int val_del key t = delete_num_tabkv new_key granted val_del key.val t
      delete_by float val_del key t = delete_num_tabkv new_key granted val_del (F.to_long key.val) t
      delete_by (obj o) val_del key t = (t, false)

      unfoldable pub delete_tabkv : (val_del : Bool) → Var → Table → Table × Bool
      delete_tabkv val_del key t = delete_by key.type val_del key t
