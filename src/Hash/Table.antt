-- ===== src/Hash/Table.antt =====
-- The system hash table of code/czl_vm.c: czl_sys_hash_size_update, find, insert, delete.
-- A bucket's chain is the list of its keys. The `type` of the C functions picks the hash and the
-- comparison; here they are a record, with an instance for CZL_INT (an address is its own key) and
-- one for CZL_STRING (an object is hashed by its name). `granted n` says whether the allocator
-- serves a request for `n` bytes.
use czl.Prelude.{
  ℕ, ◌*◌, ◌/◌, ◌%◌, ◌<◌, ◌≡◌, Bool, true, false, ◌&&◌, Option, none, some, List, [], ◌∷◌, ltb, leb,
  ◌==◌, if◌then◌else◌, get_or, set, replicate,
}
use czl.Mm.State.{word, add_ulong, sub_ulong}
use czl.Hash.Key.{bkdr_hash, index_cac}

-- Keys as they are stored, what a lookup is given, and the query that delete makes of a stored key.
pub record HashKind : Type 1 where
  pub Key : Type 0
  pub Query : Type 0
  pub hash_key : Key → ℕ
  pub hash_query : Query → ℕ
  pub same : Query → Key → Bool
  pub query : Key → Query

-- What the comparison and the hash must agree on, for a lookup to search the right bucket.
pub record Hashes (K : HashKind) : Type 0 where
  pub hash_word : (k : K.Key) → K.hash_key k < word
  pub same_hash : (q : K.Query) (k : K.Key) → K.same q k ≡ true → K.hash_query q ≡ K.hash_key k

-- And delete's query with the key it is made of.
pub record Lawful (K : HashKind) : Type 0 where
  pub hashes : Hashes K
  pub query_hash : (k : K.Key) → K.hash_query (K.query k) ≡ K.hash_key k

-- CZL_INT: `key != p->key` compares addresses.
abbrev pub address_kind : HashKind
address_kind = record {
  Key = ℕ;
  Query = ℕ;
  hash_key = λ key. key % word;
  hash_query = λ key. key % word;
  same = λ q key. q == key;
  query = λ key. key;
}

-- An object whose first field is its name, as czl_name, czl_var and czl_fun have it.
pub record Named : Type 0 where
  pub name : List ℕ
  pub obj : ℕ

abbrev pub str_eq : List ℕ → List ℕ → Bool
str_eq [] [] = true
str_eq [] (d ∷ t) = false
str_eq (c ∷ s) [] = false
str_eq (c ∷ s) (d ∷ t) = c == d && str_eq s t

-- CZL_STRING: `strcmp` compares names.
abbrev pub name_kind : HashKind
name_kind = record {
  Key = Named;
  Query = List ℕ;
  hash_key = λ key. bkdr_hash key.name;
  hash_query = λ name. bkdr_hash name;
  same = λ name key. str_eq name key.name;
  query = λ key. key.name;
}

module _ {A : Type 0} where
  abbrev pub search_chain : (A → Bool) → List A → Option A
  search_chain stop [] = none
  search_chain stop (p ∷ next) = if stop p then some p else search_chain stop next

  abbrev pub unchain : (A → Bool) → List A → List A
  unchain stop [] = []
  unchain stop (p ∷ next) = if stop p then next else p ∷ unchain stop next

module _ (K : HashKind) where
  pub record SysHash : Type 0 where
    pub mask : ℕ
    pub size : ℕ
    pub count : ℕ
    pub buckets : List (List K.Key)

  abbrev pub empty_hash : SysHash
  empty_hash = record { mask = 0; size = 0; count = 0; buckets = [] }

  -- p->next = datas[index]; datas[index] = p;
  unfoldable pub push_at : List (List K.Key) → ℕ → K.Key → List (List K.Key)
  push_at datas index p = set datas index (p ∷ get_or datas index [])

  unfoldable pub move_bucket : ℕ → List K.Key → List (List K.Key) → List (List K.Key)
  move_bucket mask [] datas = datas
  move_bucket mask (p ∷ q) datas =
      move_bucket mask q (push_at datas (index_cac (K.hash_key p) mask) p)

  unfoldable pub move_all : ℕ → List (List K.Key) → List (List K.Key) → List (List K.Key)
  move_all mask [] datas = datas
  move_all mask (b ∷ bs) datas = move_all mask bs (move_bucket mask b datas)

  unfoldable pub size_update : (ℕ → Bool) → ℕ → SysHash → Option SysHash
  size_update granted n t =
      let new_size = if n == 0 then 1 else n in
      if granted (new_size * 4 % word)
      then some (record t {
        mask = sub_ulong 0 new_size;
        size = new_size;
        buckets = move_all (sub_ulong 0 new_size) t.buckets (replicate new_size []);
      })
      else none

  unfoldable pub sys_hash_find : K.Query → SysHash → Option K.Key
  sys_hash_find q t =
      if t.count == 0
      then none
      else search_chain (K.same q) (get_or t.buckets (index_cac (K.hash_query q) t.mask) [])

  -- The new node, of 8 bytes, once there is room for it.
  unfoldable pub insert_node : (ℕ → Bool) → K.Key → SysHash → SysHash × Bool
  insert_node granted key t =
      if granted 8
      then (
        record t {
          buckets = push_at t.buckets (index_cac (K.hash_key key) t.mask) key;
          count = add_ulong t.count 1;
        },
        true,
      )
      else (t, false)

  unfoldable pub sys_hash_insert : (ℕ → Bool) → K.Key → SysHash → SysHash × Bool
  sys_hash_insert granted key t =
      if ltb t.size (add_ulong t.count 1)
      then (elim (size_update granted (t.size * 2 % word) t) [
        | none ↦ (t, false)
        | some u ↦ insert_node granted key u
      ])
      else insert_node granted key t

  -- The table is halved when a quarter of it or less is used; a refusal of that is ignored.
  unfoldable pub shrink : (ℕ → Bool) → SysHash → SysHash
  shrink granted t =
      if leb t.count (t.size / 4) && leb 16 t.size
      then (elim (size_update granted (t.size / 2) t) [ none ↦ t | some u ↦ u ])
      else t

  unfoldable pub sys_hash_delete : (ℕ → Bool) → K.Key → SysHash → SysHash × Option K.Key
  sys_hash_delete granted key t =
      if t.count == 0
      then (t, none)
      else (let index = index_cac (K.hash_key key) t.mask in
          let chain = get_or t.buckets index [] in
          elim (search_chain (K.same (K.query key)) chain) [
            | none ↦ (t, none)
            | some ret ↦ (
              shrink granted (record t {
                buckets = set t.buckets index (unchain (K.same (K.query key)) chain);
                count = sub_ulong t.count 1;
              }),
              some ret,
            )
          ])
