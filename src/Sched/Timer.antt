-- ===== src/Sched/Timer.antt =====
-- The timers of lab8/kern/schedule/sched.c: a list in which each expiry counts from the timer before.
pub mod Absolute
pub mod Fire
pub mod Tick
use nku_os.Base.{
  ℕ, zero, suc, ◌+◌, ◌-◌, ◌≤◌, ◌≡◌, Bool, true, false, not, ◌||◌, ltb, ◌==◌, if◌then◌else◌, List,
  [], ◌∷◌, ◌++◌,
}
use nku_os.Base.Result.{Result, ok, err, panic, ◌>>=◌, ◌>>◌, return, assert, modify}
use nku_os.Sched.Proc.{Proc, Timer, Sched, SchedClass, is_interrupted}
use nku_os.Sched.Core.{wakeup_proc, sched_class_proc_tick}

-- The loop of `add_timer` and the insertion before the entry where it stops.
unfoldable pub add_from : Timer → List Timer → List Timer
add_from t [] = t ∷ []
add_from t (u ∷ us) =
    if ltb t.expires u.expires
    then t ∷ record u { expires = u.expires - t.expires } ∷ us
    else u ∷ add_from (record t { expires = t.expires - u.expires }) us

unfoldable pub add_timer : Timer → Sched → Result Sched (Unit {0})
unfolding add_from
add_timer t = do
  assert (ltb 0 t.expires)
  modify (λ s. record s { timer_list = add_from t s.timer_list })

-- `next->expires += timer->expires`, for the timer behind the one that goes.
abbrev pub handed : ℕ → List Timer → List Timer
handed e [] = []
handed e (u ∷ us) = record u { expires = u.expires + e } ∷ us

-- `del_timer` of the timer at this position; out of range it is in no list, and nothing happens.
unfoldable pub del_at : ℕ → List Timer → List Timer
del_at i [] = []
del_at zero (t ∷ ts) = if not (t.expires == 0) then handed t.expires ts else ts
del_at (suc i) (t ∷ ts) = t ∷ del_at i ts

unfoldable pub del_timer : ℕ → Sched → Sched
unfolding del_at
del_timer i s = record s { timer_list = del_at i s.timer_list }

module _ (c : SchedClass) where
  -- The process of a timer that has run out. The warning at `wait_state == 0` is only printed.
  unfoldable pub expire : ℕ → Sched → Result Sched (Unit {0})
  expire p = do
    λ s. assert ((s.procs p).wait_state == 0 || is_interrupted (s.procs p).wait_state) s
    wakeup_proc c p
    modify (del_timer 0)

  -- The `while` loop of `run_timer_list` over the timers that it finds.
  unfoldable pub fire : List Timer → Sched → Result Sched (Unit {0})
  unfolding expire
  fire [] s = ok tt s
  fire (t ∷ ts) s = if t.expires == 0 then (expire t.proc >> fire ts) s else ok tt s

  -- `timer->expires --` for the first timer.
  unfoldable pub count_down : Sched → Result Sched (Unit {0})
  count_down s = elim s.timer_list [
    | [] ↦ ok tt s
    | t ∷ ts ↦
        (assert (not (t.expires == 0))
            >> modify (λ s. record s { timer_list = record t { expires = t.expires - 1 } ∷ ts }))
          s
  ]

  unfoldable pub run_timer_list : Sched → Result Sched (Unit {0})
  unfolding count_down fire
  run_timer_list = do
    count_down
    λ s. fire s.timer_list s
    modify (λ s. sched_class_proc_tick c s.current s)
