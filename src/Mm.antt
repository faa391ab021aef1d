-- ===== src/Mm.antt =====
-- Memory management: lab8/kern/mm, with the other allocators of lab2.
pub mod Page
pub mod FirstFit
pub mod BestFit
pub mod Slob
pub mod Vmm
pub mod Swap
mod Tests
