-- ===== src/Sched/Tests.antt =====
-- The scheduler and the timers at concrete inputs.
use nku_os.Base.{
  ◌==◌, if◌then◌else◌, ◌<◌, ◌+◌, ◌%◌, ◌^◌, none, some, ◌≡◌, refl, false, true, List, [], ◌∷◌, arith,
}
use nku_os.Base.Result.{ok}
use nku_os.Sched.Proc.{Proc, proc_runnable, proc_sleeping, Timer, Sched}
use nku_os.Sched.RoundRobin.Fair.{Ready, turns, turns-Ready}
use nku_os.Sched.Stride.{
  StrideQueue, passed_on, stride_dequeue, stride_below, stride_enqueue, stride_pick_next,
}
use nku_os.Libs.SkewHeap.Queue.{IsHeap}
use nku_os.Libs.SkewHeap.Tree.{leaf, fork, size}
use nku_os.Sched.Stride.Next.{Next, stride_pick_next-Next}
use nku_os.Sched.Stride.Pool.{InWindow, Enqueued, stride_enqueue-Enqueued}
use nku_os.Sched.Stride.Starve.{stride_pick_next-stride_below}
use nku_os.Sched.Timer.{add_from, del_at, run_timer_list}
use nku_os.Sched.RoundRobin.{linked, default_sched_class}
use nku_os.Sched.Timer.Fire.{Calm}
use nku_os.Sched.Timer.Tick.{Ticked, run_timer_list-Ticked}
use nku_os.Sched.Timer.Absolute.{
  absolute, insert_due, remove_at, absolute-add_from, absolute-del_at,
}

abbrev running : Proc
running = record {
  state = proc_runnable;
  wait_state = 0;
  need_resched = true;
  runs = 0;
  time_slice = 5;
}

-- Process 1 runs, 2 and 3 are queued.
abbrev three_ready : Sched
three_ready = record {
  procs = λ p. running;
  current = 1;
  rq = record { run_list = 2 ∷ 3 ∷ []; proc_num = 2; max_time_slice = 5 };
  timer_list = [];
}

three_ready-Ready : Ready 1 (2 ∷ 3 ∷ []) three_ready
three_ready-Ready = record {
  current = refl;
  list = refl;
  distinct = (
    (λ e. omega (arith, e), ((λ e. omega (arith, e)), tt)),
    (((λ e. omega (arith, e)), tt), (tt, tt)),
  );
  runnable = (
    λ e. omega (arith, e),
    refl,
    (λ e. omega (arith, e), refl, (λ e. omega (arith, e), refl, tt)),
  );
}

turns-Ready_example :
    (t : Sched) × (turns (5 ∷ 0 ∷ []) three_ready ≡ ok tt t) × Ready 3 (1 ∷ 2 ∷ []) t
turns-Ready_example = turns-Ready (2 ∷ []) [] (5 ∷ 0 ∷ []) 1 3 three_ready three_ready-Ready refl

abbrev two_timers : List Timer
two_timers = record { expires = 3; proc = 1 } ∷ record { expires = 4; proc = 2 } ∷ []

absolute-add_from_example :
    absolute 0 (add_from (record { expires = 5; proc = 3 }) two_timers)
    ≡ insert_due (5, 3) (absolute 0 two_timers)
absolute-add_from_example = absolute-add_from 0 (record { expires = 5; proc = 3 }) two_timers

absolute-del_at_example : absolute 0 (del_at 0 two_timers) ≡ remove_at 0 (absolute 0 two_timers)
absolute-del_at_example = absolute-del_at 0 0 two_timers

-- Processes 1 and 2 have the same stride, and 1 is the root of the pool.
abbrev equal_strides : StrideQueue
equal_strides = record {
  procs = λ p. record { lab6_stride = 9; lab6_priority = 1; time_slice = 0; need_resched = false };
  entries = λ p. record { parent = none; left = none; right = none };
  lab6_run_pool = some 1;
  proc_num = 2;
  max_time_slice = 5;
}

stride_pick_next-stride_below_example :
    (u : StrideQueue) × (stride_pick_next 0 equal_strides ≡ (some 1, u))
    × (((u.procs 1).lab6_stride + 1) % 2 ^ 32 ≡ 9)
    × (stride_below u.procs 1 2 ≡ true)
stride_pick_next-stride_below_example =
    stride_pick_next-stride_below 0 1 2 equal_strides refl refl (λ e. omega (arith, e))
      (omega arith) (omega arith) (omega arith)

equal_strides-InWindow : InWindow 0 equal_strides.procs
equal_strides-InWindow = record {
  low = omega arith;
  words = λ p. omega arith;
  near = λ p. omega arith;
}

one_fits : size (fork leaf 1 leaf) + 1 < 3
unfolding size
one_fits = omega arith

stride_enqueue-Enqueued_example :
    (u : StrideQueue) × (stride_enqueue 3 2 equal_strides ≡ some u)
    × Enqueued 2 (fork leaf 1 leaf) equal_strides u
stride_enqueue-Enqueued_example =
    stride_enqueue-Enqueued 3 0 2 equal_strides (fork leaf 1 leaf) equal_strides-InWindow
      (record {
        shape = (refl, refl, refl, refl);
        single = (tt, tt, tt, tt, tt);
        ordered = (tt, tt, tt, tt);
      })
      ((λ e. omega (arith, e)), tt, tt) one_fits

-- Process 1 is over process 2 in the pool.
abbrev two_waiting : StrideQueue
two_waiting = record equal_strides {
  procs = λ p. record { lab6_stride = 9; lab6_priority = 3; time_slice = 0; need_resched = false };
  entries = λ k.
      if k == 1
      then record { parent = none; left = some 2; right = none }
      else record { parent = some 1; left = none; right = none };
}

two_waiting-InWindow : InWindow 9 (passed_on 0 1 two_waiting).procs
two_waiting-InWindow = record {
  low = omega arith;
  words = λ p. ground arith;
  near = λ p. ground arith;
}

two_fit : size (fork (fork leaf 2 leaf) 1 leaf) < 3
unfolding size
two_fit = omega arith

two_waiting-IsHeap :
    IsHeap
      (stride_below two_waiting.procs)
      two_waiting.entries
      (some 1)
      (fork (fork leaf 2 leaf) 1 leaf)
unfolding stride_below
two_waiting-IsHeap = record {
  shape = (refl, refl, (refl, refl, refl, refl), refl);
  single = (((λ e. omega (arith, e)), tt, tt), tt, (tt, tt, tt), (tt, tt, tt, tt, tt), tt);
  ordered = ((refl, tt, tt), tt, (tt, tt, tt, tt), tt);
}

stride_pick_next-Next_example :
    (u : StrideQueue) × (v : StrideQueue) × (stride_pick_next 0 two_waiting ≡ (some 1, u))
    × (stride_dequeue 3 1 u ≡ some v)
    × Next 1 (fork (fork leaf 2 leaf) 1 leaf) two_waiting v
stride_pick_next-Next_example =
    stride_pick_next-Next 3 9 0 1 two_waiting (fork leaf 2 leaf) leaf refl two_waiting-IsHeap
      two_waiting-InWindow two_fit

-- Process 4 sleeps until the next tick.
abbrev one_due : Sched
one_due = record three_ready {
  procs = λ p. if p == 4 then record running { state = proc_sleeping } else running;
  timer_list = record { expires = 1; proc = 4 } ∷ record { expires = 3; proc = 2 } ∷ [];
}

one_due-Calm : Calm one_due
unfolding linked
one_due-Calm = record {
  alive = λ p. ground arith;
  waits = λ p. ground arith;
  queued = λ p h. ground (arith, h);
}

run_timer_list-Ticked_example :
    (t : Sched) × (run_timer_list default_sched_class one_due ≡ ok tt t) × Ticked one_due t
run_timer_list-Ticked_example = run_timer_list-Ticked one_due one_due-Calm (omega arith)
