-- ===== src/Libs.antt =====
-- The C library of the kernel: lab8/libs.
pub mod Memory
pub mod ListEntry
pub mod ListOrder
pub mod SkewHeap
pub mod Text
mod Tests
