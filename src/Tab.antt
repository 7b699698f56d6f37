-- ===== src/Tab.antt =====
-- The tables of scripts in code/czl_vm.c: an ordered list of elements with a hash table over it
-- (czl_table of code/czl_vm.h), from czl_hash_tabkvs_insert to czl_find_tabkv.
-- An element is its address, its key and the hash that is kept with a text; its value is not touched
-- here. The same elements stand in the ordered list and in the buckets, whose chains are lists.
-- `overrun s t` is what memcmp says of a text `s` and a shorter text `t`, past the end of `t`. The
-- hash of a text that the compiler has kept with a constant is the one that is computed here.
pub mod Element
pub mod Keys
pub mod Kind
pub mod Chains
pub mod Rebuild
pub mod Insert
pub mod Create
pub mod Unchain
pub mod Remove
pub mod Find
mod Tests
use mathlib.Core.Option
use czl.Prelude.{
  ℕ, zero, suc, ◌+◌, ◌*◌, ◌/◌, ◌%◌, Bool, true, false, not, Option, none, some, List, [], ◌∷◌, ◌++◌,
  ltb, leb, ◌==◌, ◌&&◌, ◌||◌, if◌then◌else◌, length, get_or, set, replicate,
}
use czl.Mm.State.{word, add_ulong, sub_ulong}
use czl.Hash.Key.{num_hash, str_hash, index_cac}
use czl.Hash.Table.{HashKind, push_at, move_bucket, search_chain, unchain}

-- The key of an element: an integer or a text.
pub data TabKey : Type 0 where
  inum : ℕ → TabKey
  str : List ℕ → TabKey

pub record Tabkv : Type 0 where
  pub addr : ℕ
  pub key : TabKey
  pub hash : ℕ

pub record Table : Type 0 where
  pub mask : ℕ
  pub size : ℕ
  pub count : ℕ
  pub key : ℕ
  pub attack_cnt : ℕ
  pub eles : List Tabkv
  pub buckets : List (List Tabkv)

-- czl_num_hash halves a number of 63 bits at most till it is 0. In a table that has been attacked it
-- does not end for the least czl_long, which stands here with the hash 0.
abbrev pub or_zero : Option ℕ → ℕ
or_zero none = 0
or_zero (some h) = h

abbrev pub query_hash : (key attack_cnt : ℕ) → TabKey → ℕ
query_hash key attack_cnt (inum n) = or_zero (num_hash 64 n key attack_cnt) % word
query_hash key attack_cnt (str s) = str_hash s key attack_cnt % word

-- In the buckets an element has its number's hash, or the hash that is kept with its text.
abbrev pub node_hash : (key attack_cnt : ℕ) → TabKey → ℕ → ℕ
node_hash key attack_cnt (inum n) hash = query_hash key attack_cnt (inum n)
node_hash key attack_cnt (str s) hash = hash % word

-- The texts' hashes with a new key.
abbrev pub new_hash : (key : ℕ) → TabKey → ℕ → ℕ
new_hash key (inum n) hash = hash
new_hash key (str s) hash = str_hash s key 1

abbrev pub rehash : (key : ℕ) → List Tabkv → List Tabkv
rehash key [] = []
rehash key (p ∷ eles) = record p { hash = new_hash key p.key p.hash } ∷ rehash key eles

-- CZL_MAX_HASH_COLLISION_CNT is 64.
abbrev pub collides : List Tabkv → Bool
collides chain = leb 64 (length chain)

abbrev pub any_collides : List (List Tabkv) → Bool
any_collides [] = false
any_collides (b ∷ bs) = collides b || any_collides bs

module _ (overrun : List ℕ → List ℕ → Bool) where
  -- `!memcmp(s->str, t->str, s->len)`; a stored text ends with a 0.
  abbrev pub mem_equal : List ℕ → List ℕ → Bool
  mem_equal [] t = true
  mem_equal (c ∷ s) [] = c == 0 && overrun s []
  mem_equal (c ∷ s) (d ∷ t) = c == d && mem_equal s t

  abbrev pub same_key : (hash : ℕ) → TabKey → Tabkv → TabKey → Bool
  same_key hash (inum n) p (inum m) = n == m
  same_key hash (inum n) p (str t) = false
  same_key hash (str s) p (inum m) = false
  same_key hash (str s) p (str t) = (hash == p.hash % word) && mem_equal s t

  abbrev pub tab_kind : (key attack_cnt : ℕ) → HashKind
  tab_kind key attack_cnt = record {
    Key = Tabkv;
    Query = TabKey;
    hash_key = λ p. node_hash key attack_cnt p.key p.hash;
    hash_query = λ q. query_hash key attack_cnt q;
    same = λ q p. same_key (query_hash key attack_cnt q) q p p.key;
    query = λ p. p.key;
  }

  abbrev pub kind_of : Table → HashKind
  kind_of t = tab_kind t.key t.attack_cnt

  -- czl_hash_tabkvs_insert: the buckets are filled anew from the ordered list.
  unfoldable pub tabkvs_insert : Table → Table
  tabkvs_insert t = record t {
    buckets = move_bucket (kind_of t) t.mask t.eles (replicate t.size []);
  }

  -- czl_hash_key_update; `new_key` is what czl_hash_key_create makes of the old key with rand.
  unfoldable pub key_update : (new_key : ℕ → ℕ) → Table → Table
  key_update new_key t = tabkvs_insert (record t {
    attack_cnt = add_ulong t.attack_cnt 1;
    key = new_key t.key;
    eles = rehash (new_key t.key) t.eles;
  })

  unfoldable pub collision_check : (new_key : ℕ → ℕ) → Table → Table
  collision_check new_key t = if any_collides t.buckets then key_update new_key t else t

  unfoldable pub tab_size_update : (new_key : ℕ → ℕ) → (ℕ → Bool) → ℕ → Table → Option Table
  tab_size_update new_key granted n t =
      let new_size = if n == 0 then 1 else n in
      if granted (new_size * 4 % word)
      then some (
          collision_check new_key
            (tabkvs_insert (record t { mask = sub_ulong 0 new_size; size = new_size })))
      else none
