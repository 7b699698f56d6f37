-- ===== src/Opt.antt =====
-- The operators of code/czl_opt.c.
pub mod Var
pub mod Arith
pub mod Compare
pub mod Swap
pub mod Relations
pub mod Order
pub mod Agree
pub mod Division
pub mod Tests
