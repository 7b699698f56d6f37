-- ===== src/Lib.antt =====
-- CZL, a scripting language in C (code/*.c, code/*.h): a model of parts of its run-time core and
-- the theorems about them.
--
-- The program. An interpreter (code/czl_vm.c) runs the order code that a compiler
-- (code/czl_paser.c) makes of a script. Values are czl_var structures; the operators on them are
-- in code/czl_opt.c, the library functions in code/czl_lib.c. All memory comes from the memory
-- manager code/czl_mm.c, which the interpreter calls through czl_malloc, czl_calloc, czl_realloc
-- and czl_free; names of variables, functions, classes and keywords, threads, coroutines and
-- timers stand in the system hash tables of code/czl_vm.c.
--
-- The modules.
-- - Prelude: the libraries' names, Boolean tests, list indexing, and `bit_or` with a mask of
--   leading ones (Prelude/Bits).
-- - Dll: the doubly linked lists that the memory manager keeps in its blocks. A field of a C
--   structure is a map from addresses; `Seg` says that a list of addresses is linked both ways.
-- - Mm: code/czl_mm.c. Mm/State has the manager's fields (`Gp`). Mm/Sizes has the forty size
--   classes of blocks up to 515 bytes (czl_mm_pool_init, czl_mm_sp_get). Mm/Cache has the cached
--   blocks from 516 bytes to 1 MB (czl_mm_cache_create, _index, _alloc, _scan, _gc, _free). Mm/Sys has
--   the blocks of malloc itself (czl_mm_sys_alloc, _free, _realloc).
-- - Hash: code/czl_vm.c from czl_num_hash to czl_sys_hash_delete. Hash/Key has the hash functions
--   and CZL_INDEX_CAC, Hash/Table the operations; a bucket's chain is the list of its keys. The
--   argument `type` of the C functions is a record of a hash and a comparison (`HashKind`), with
--   the kinds CZL_INT and CZL_STRING.
-- - Opt: code/czl_opt.c, the unary operators, the arithmetic assignments on numbers, the
--   comparisons and `><`. Opt/Var has czl_var with the word that the union czl_value shares.
-- - Tab: the tables of scripts in code/czl_vm.c (czl_hash_tabkvs_insert to czl_find_tabkv). Tab has
--   the structures, the hash and the rebuilding of the buckets, Tab/Element the operations on one
--   element, Tab/Keys the choice by the type of the key. What a script sees of a table is the list
--   of its entries in order (Tab/Kind); the bucket part is a `SysHash` of a kind of its own, so that
--   the lemmas of Hash serve it.
-- - Sort: the quick sort of arrays and the merge sort of tables in code/czl_lib.c (czl_key_cmp to
--   czl_sys_sort), for any comparison that can fail; Sort/Compare has czl_val_cmp, czl_key_cmp (which
--   reads the types of the values, as the code does), czl_strcmp and the choice of the order.
-- - Sq: the stacks and queues of scripts (czl_sys_push, czl_sys_in and czl_stapop_queout of
--   code/czl_lib.c) with the links of their elements; Sq/Runs has sequences of operations.
-- - Exp: the expressions of scripts, from operators to orders, in code/czl_vm.c. Exp and Exp/Place
--   have the tables of operators, the nodes of the tree and the places where a node joins, Exp/Insert
--   czl_exp_node_insert, Exp/State what may join a tree; the tree is kept from `cur` outwards, with the nodes above it, so that
--   `parent` is not stored. Exp/Stack has czl_tree_to_stack with the counts, Exp/Orders
--   czl_create_order, Exp/Registers czl_set_opt_opr and the run of the orders (code/czl_opt.h). The
--   operators' own results are in Opt; here they are any functions.
-- - Num: czl_itoa32, czl_itoa64, czl_itoa and czl_atoi of code/czl_lib.c, and czl_get_number_from_str
--   with its readers of decimal, hexadecimal and binary numbers (Num/Read).
--
-- Numbers. The build is 32-bit: unsigned long and pointers are words of 32 bits, czl_long of 64
-- bits, two's complement, and wrap; a block is named by the address of its payload, and 0 is NULL.
--
-- Parameters. malloc, calloc and realloc are the addresses or the success that they return. The
-- double arithmetic of the machine is the record `Fpu` on bits, with what IEEE 754 says of its
-- comparisons in `IsFpu`; the comparison of a sort is a function that can fail, as a script's can; what
-- srand and rand make the new key of a table, and what memcmp finds past the end of a text, are
-- functions; memcmp, the contents of the string objects, czl_get_number_from_str and
-- what czl_tmp_buf_free does to the heap are the record `Heap`.
--
-- Fuel. The binary search of czl_mm_cache_index has 14 rounds for 8188 pools (2 ^ 13 > 8188); the
-- loop of czl_mm_cache_scan one round per pool; the loop of czl_mm_pool_init one per class; the
-- loop of czl_itoa64 nineteen, for 63 bits, that of czl_itoa32 ten. A decimal number's text is 31
-- characters at most, as the array `value` of the code has it.
-- The scans and the loop of czl_partition_0 have the length of the segment, since two rounds bring
-- the scans nearer; the sorts have fuel for the depth of their calls, the length and one more, and
-- czl_merge one for each element; the theorems say that these are enough.
-- czl_mm_cache_gc takes a bound of the blocks of a pool. czl_create_order has one round for each
-- element of the stack.
-- The loop of czl_num_hash for attacked tables has fuel as an argument, since it does not end for the
-- least integer; in Tab it has 64 rounds, which are enough for the others,
-- and the theorems leave that integer out.
--
-- Not modelled: the pages of small blocks and their collection (czl_mm_sp_create to czl_mm_free,
-- czl_mm_scan_pool to czl_mm_gc), czl_mm_cache_resize, the hash of constants (CZL_ENUM), assignment
-- and the operators on strings, arrays and tables, the compiler's reading of the text and its merging
-- of constants, the assignments, `&&`, `||` and `?:` in czl_set_opt_opr, the interpreter's loop, and the
-- libraries with their input and output (files, sockets, databases, serial ports).
pub mod Prelude
pub mod Dll
pub mod Mm
pub mod Hash
pub mod Opt
pub mod Num
pub mod Sort
pub mod Tab
pub mod Sq
pub mod Exp
