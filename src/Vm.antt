-- ===== src/Vm.antt =====
-- include/vm and src/vm: rows, their versions, and what is computed over them.
pub mod Versions
pub mod Values
pub mod Tuples
pub mod Eval
pub mod Rewrite
pub mod Columns
pub mod Vectorized
