-- ===== src/Sched.antt =====
-- Processes, run queue, timers and waiting: lab8/kern/schedule/sched.c, the round-robin class of
-- lab6/kern/schedule/default_sched_c.c and the stride class of lab6/kern/schedule/default_sched.c.
pub mod Proc
pub mod Core
pub mod RoundRobin
pub mod Stride
pub mod Timer
mod Tests
