-- ===== src/Sync/Tests.antt =====
-- Wake-ups at concrete inputs.
use nku_os.Base.{◌==◌, if◌then◌else◌, ◌≡◌, refl, false, [], ◌∷◌, arith}
use nku_os.Base.Result.{ok}
use nku_os.Sched.Proc.{Proc, proc_runnable, proc_sleeping, Sched}
use nku_os.Sched.RoundRobin.{linked, default_sched_class}
use nku_os.Sync.Wait.{Sync}
use nku_os.Sync.Semaphore.{up, wt_ksem}
use nku_os.Sync.Wake.{up_wakes_first}

abbrev sleeper : Proc
sleeper = record {
  state = proc_sleeping;
  wait_state = wt_ksem;
  need_resched = false;
  runs = 1;
  time_slice = 5;
}

-- Process 1 runs, 2 is queued, 3 sleeps.
abbrev one_asleep : Sched
one_asleep = record {
  procs = λ p. if p == 3 then sleeper else record sleeper { state = proc_runnable; wait_state = 0 };
  current = 1;
  rq = record { run_list = 2 ∷ []; proc_num = 1; max_time_slice = 5 };
  timer_list = [];
}

abbrev one_waits : Sync
one_waits = record {
  sched = one_asleep;
  waits = λ w. record { proc = 3; wakeup_flags = 0 };
  queue = 40 ∷ [];
  value = 0;
}

-- The sleeper is not queued.
unqueued : linked 3 (2 ∷ []) ≡ false
unfolding linked
unqueued = refl

up_wakes_first_example :
    (t : Sync) × (up default_sched_class one_waits ≡ ok tt t)
    × (t.queue ≡ [])
    × (t.value ≡ 0)
    × ((t.sched.procs 3).state ≡ proc_runnable)
    × (t.sched.rq.run_list ≡ 2 ∷ 3 ∷ [])
    × ((t.waits 40).wakeup_flags ≡ wt_ksem)
up_wakes_first_example =
    up_wakes_first 40 [] one_waits refl refl refl (λ e. omega (arith, e)) (λ e. omega (arith, e))
      unqueued
