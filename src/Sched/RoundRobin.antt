-- ===== src/Sched/RoundRobin.antt =====
-- The round-robin class of lab6/kern/schedule/default_sched_c.c. An entry `run_link` is empty
-- exactly when the process stands in no run queue, and there is one run queue.
pub mod Turn
pub mod Fair
use nku_os.Base.{
  ℕ, ◌+◌, ◌-◌, Bool, true, false, not, ◌||◌, ◌&&◌, Option, none, some, ltb, ◌==◌, if◌then◌else◌,
  List, [], ◌∷◌, ◌++◌,
}
use nku_os.Base.Result.{Result, ok, panic, err, ◌>>=◌, ◌>>◌, return, assert, modify}
use nku_os.Sched.Proc.{Proc, RunQueue, Sched, SchedClass, set_proc}

-- `!list_empty(&(proc->run_link))`
unfoldable pub linked : ℕ → List ℕ → Bool
linked p [] = false
linked p (q ∷ qs) = p == q || linked p qs

-- `list_del_init`
unfoldable pub unlink : ℕ → List ℕ → List ℕ
unlink p [] = []
unlink p (q ∷ qs) = if p == q then qs else q ∷ unlink p qs

unfoldable pub rr_init : Sched → Sched
rr_init s = record s { rq = record s.rq { run_list = []; proc_num = 0 } }

-- A slice that is used up, or too long, is filled to the maximum.
abbrev pub refilled : ℕ → Sched → Proc
refilled p s =
    if (s.procs p).time_slice == 0 || ltb s.rq.max_time_slice (s.procs p).time_slice
    then record (s.procs p) { time_slice = s.rq.max_time_slice }
    else s.procs p

unfoldable pub rr_enqueue : ℕ → Sched → Result Sched (Unit {0})
unfolding linked
rr_enqueue p = do
  λ s. assert (not (linked p s.rq.run_list)) s
  λ s. ok tt (
      set_proc p (refilled p s) (record s {
        rq = record s.rq { run_list = s.rq.run_list ++ p ∷ []; proc_num = s.rq.proc_num + 1 };
      }))

unfoldable pub rr_dequeue : ℕ → Sched → Result Sched (Unit {0})
unfolding linked unlink
rr_dequeue p = do
  λ s. assert (linked p s.rq.run_list) s
  λ s. ok tt (record s {
    rq = record s.rq { run_list = unlink p s.rq.run_list; proc_num = s.rq.proc_num - 1 };
  })

unfoldable pub rr_pick_next : Sched → Option ℕ
rr_pick_next s = elim s.rq.run_list [ [] ↦ none | p ∷ ps ↦ some p ]

unfoldable pub rr_proc_tick : ℕ → Sched → Sched
rr_proc_tick p s =
    let left =
      if ltb 0 (s.procs p).time_slice then (s.procs p).time_slice - 1 else (s.procs p).time_slice in
    set_proc p
      (record (s.procs p) {
        time_slice = left;
        need_resched = if left == 0 then true else (s.procs p).need_resched;
      })
      s

abbrev pub default_sched_class : SchedClass
default_sched_class = record {
  init = rr_init;
  enqueue = rr_enqueue;
  dequeue = rr_dequeue;
  pick_next = rr_pick_next;
  proc_tick = rr_proc_tick;
}
