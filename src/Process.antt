-- ===== src/Process.antt =====
-- Processes: lab5/kern/process/proc.c, the last version of the file in which the functions on the
-- process table have their bodies.
pub mod Pid
pub mod Table
pub mod Family
pub mod Life
mod Tests
