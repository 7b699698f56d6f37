-- ===== src/Hash.antt =====
-- The hash functions and the system hash table of code/czl_vm.c (num_hash to hash_table_delete).
pub mod Key
pub mod Ends
pub mod Index
pub mod Table
pub mod Tally
pub mod Resize
pub mod Find
pub mod Change
pub mod Delete
pub mod Kinds
mod Tests
