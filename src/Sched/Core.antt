-- ===== src/Sched/Core.antt =====
-- The functions of lab8/kern/schedule/sched.c but the timers, over any scheduling class, with
-- `schedule` as it is in lab6/kern/schedule/sched.c: the text is the same, but `proc_run` has a body
-- in lab6/kern/process/proc.c and none in lab8. Interrupts are off in each function, so each is one
-- step.
use nku_os.Base.{ℕ, ◌+◌, true, false, not, Option, none, some, ◌==◌, if◌then◌else◌, []}
use nku_os.Base.Result.{Result, ok, ◌>>=◌, ◌>>◌, return, assert, modify}
use nku_os.Sched.Proc.{proc_runnable, Sched, SchedClass, idleproc, is_runnable, is_zombie, set_proc}

-- MAX_TIME_SLICE
abbrev pub max_slice : ℕ
max_slice = 5

module _ (c : SchedClass) where
  unfoldable pub sched_class_enqueue : ℕ → Sched → Result Sched (Unit {0})
  sched_class_enqueue p s = if not (p == idleproc) then c.enqueue p s else ok tt s

  unfoldable pub sched_class_proc_tick : ℕ → Sched → Sched
  sched_class_proc_tick p s =
      if not (p == idleproc)
      then c.proc_tick p s
      else set_proc p (record (s.procs p) { need_resched = true }) s

  unfoldable pub sched_init : Sched → Sched
  sched_init s =
      c.init (record s { timer_list = []; rq = record s.rq { max_time_slice = max_slice } })

  -- The inner branch of `wakeup_proc`.
  abbrev pub woken : ℕ → Sched → Sched
  woken p s = set_proc p (record (s.procs p) { state = proc_runnable; wait_state = 0 }) s

  unfoldable pub wakeup_proc : ℕ → Sched → Result Sched (Unit {0})
  unfolding sched_class_enqueue
  wakeup_proc p = do
    λ s. assert (not (is_zombie (s.procs p).state)) s
    λ s.
        if not (is_runnable (s.procs p).state)
        then (if not (p == s.current) then sched_class_enqueue p (woken p s) else ok tt (woken p s))
        else ok tt s

  -- `next = NULL` becomes the idle process, and any other leaves the run queue.
  abbrev pub leave : Option ℕ → Sched → Result Sched ℕ
  leave none s = ok idleproc s
  leave (some p) s = (c.dequeue p >> return p) s

  -- `proc_run`, without the switch of the page table and of the stack; the current process stays it.
  abbrev pub proc_run : ℕ → Sched → Sched
  proc_run p s = record s { current = p }

  -- `next->runs ++` and `proc_run(next)`.
  abbrev pub run_next : ℕ → Sched → Sched
  run_next p s = proc_run p (set_proc p (record (s.procs p) { runs = (s.procs p).runs + 1 }) s)

  -- `if (current->state == PROC_RUNNABLE) sched_class_enqueue(current)`
  unfoldable pub enqueue_current : Sched → Result Sched (Unit {0})
  unfolding sched_class_enqueue
  enqueue_current s =
      if is_runnable (s.procs s.current).state then sched_class_enqueue s.current s else ok tt s

  abbrev pub leave_first : Sched → Result Sched ℕ
  leave_first s = leave (c.pick_next s) s

  unfoldable pub schedule : Sched → Result Sched (Unit {0})
  schedule = do
    λ s. modify (set_proc s.current (record (s.procs s.current) { need_resched = false })) s
    enqueue_current
    next ← leave_first
    modify (run_next next)
