-- ===== src/Sched/Proc.antt =====
-- What the scheduler sees of a process (`struct proc_struct` of lab8/kern/process/proc.h), its own
-- state, and the interface of a scheduling class (`struct sched_class` of
-- lab8/kern/schedule/sched.h). A process is named by a number, and the idle process by 0.
use nku_os.Base.{ℕ, ◌/◌, ◌%◌, ◌^◌, List, Bool, true, false, Option, update, ◌==◌}
use nku_os.Base.Result.{Result}

-- `enum proc_state`
pub data ProcState : Type 0 where
  proc_uninit proc_sleeping proc_runnable proc_zombie : ProcState

-- `time_slice` is an `int` that never falls below 0 here.
pub record Proc : Type 0 where
  pub state : ProcState
  pub wait_state : ℕ
  pub need_resched : Bool
  pub runs : ℕ
  pub time_slice : ℕ

-- `timer_t`: the expiry counts from the timer before it.
pub record Timer : Type 0 where
  pub expires : ℕ
  pub proc : ℕ

-- `struct run_queue`: the processes in list order.
pub record RunQueue : Type 0 where
  pub run_list : List ℕ
  pub proc_num : ℕ
  pub max_time_slice : ℕ

pub record Sched : Type 0 where
  pub procs : ℕ → Proc
  pub current : ℕ
  pub rq : RunQueue
  pub timer_list : List Timer

pub record SchedClass : Type 0 where
  pub init : Sched → Sched
  pub enqueue : ℕ → Sched → Result Sched (Unit {0})
  pub dequeue : ℕ → Sched → Result Sched (Unit {0})
  pub pick_next : Sched → Option ℕ
  pub proc_tick : ℕ → Sched → Sched

abbrev pub idleproc : ℕ
idleproc = 0

abbrev pub is_runnable : ProcState → Bool
is_runnable proc_runnable = true
is_runnable _ = false

abbrev pub is_zombie : ProcState → Bool
is_zombie proc_zombie = true
is_zombie _ = false

abbrev pub set_proc : ℕ → Proc → Sched → Sched
set_proc p f s = record s { procs = update s.procs p f }

-- `WT_INTERRUPTED` is the top bit of a 32-bit wait state.
abbrev pub is_interrupted : ℕ → Bool
is_interrupted w = w / 2 ^ 31 % 2 == 1
