-- ===== src/Sync/Wait.antt =====
-- Wait queues: lab8/kern/sync/wait.c. A `wait_t` is named by its address, and its link is empty
-- exactly when it stands in the queue of the semaphore.
use nku_os.Base.{
  ℕ, ◌^◌, Bool, true, false, not, Option, none, some, ◌==◌, if◌then◌else◌, List, [], ◌∷◌, ◌++◌,
  update,
}
use nku_os.Base.Result.{Result, ok, err, panic, ◌>>◌, return, assert, modify}
use nku_os.Sched.Proc.{proc_sleeping, Sched, SchedClass, set_proc}
use nku_os.Sched.Core.{wakeup_proc}
use nku_os.Sched.RoundRobin.{linked, unlink}

pub record Wait : Type 0 where
  pub proc : ℕ
  pub wakeup_flags : ℕ

-- A semaphore with its wait queue, the `wait_t` of all callers, and the scheduler.
pub record Sync : Type 0 where
  pub sched : Sched
  pub waits : ℕ → Wait
  pub queue : List ℕ
  pub value : ℕ

-- WT_INTERRUPTED
abbrev pub wt_interrupted : ℕ
wt_interrupted = 2 ^ 31

abbrev pub set_wait : ℕ → Wait → Sync → Sync
set_wait w f s = record s { waits = update s.waits w f }

unfoldable pub wait_init : ℕ → ℕ → Sync → Sync
wait_init w p s = set_wait w (record { proc = p; wakeup_flags = wt_interrupted }) s

unfoldable pub wait_queue_init : Sync → Sync
wait_queue_init s = record s { queue = [] }

unfoldable pub wait_in_queue : ℕ → Sync → Bool
unfolding linked
wait_in_queue w s = linked w s.queue

unfoldable pub wait_queue_add : ℕ → Sync → Result Sync (Unit {0})
unfolding wait_in_queue
wait_queue_add w = do
  λ s. assert (not (wait_in_queue w s)) s
  modify (λ s. record s { queue = s.queue ++ w ∷ [] })

unfoldable pub wait_queue_del : ℕ → Sync → Result Sync (Unit {0})
unfolding wait_in_queue unlink
wait_queue_del w = do
  λ s. assert (wait_in_queue w s) s
  modify (λ s. record s { queue = unlink w s.queue })

unfoldable pub head_of : List ℕ → Option ℕ
head_of [] = none
head_of (w ∷ ws) = some w

-- The entry behind `w`, and the entry before it, in list order.
unfoldable pub after_entry : ℕ → List ℕ → Option ℕ
unfolding head_of
after_entry w [] = none
after_entry w (v ∷ vs) = if w == v then head_of vs else after_entry w vs

unfoldable pub before_entry : Option ℕ → ℕ → List ℕ → Option ℕ
before_entry last w [] = none
before_entry last w (v ∷ vs) = if w == v then last else before_entry (some v) w vs

unfoldable pub last_entry : Option ℕ → List ℕ → Option ℕ
last_entry last [] = last
last_entry last (v ∷ vs) = last_entry (some v) vs

unfoldable pub wait_queue_next : ℕ → Sync → Result Sync (Option ℕ)
unfolding wait_in_queue after_entry
wait_queue_next w s = (assert (wait_in_queue w s) >> return (after_entry w s.queue)) s

unfoldable pub wait_queue_prev : ℕ → Sync → Result Sync (Option ℕ)
unfolding wait_in_queue before_entry
wait_queue_prev w s = (assert (wait_in_queue w s) >> return (before_entry none w s.queue)) s

unfoldable pub wait_queue_first : Sync → Option ℕ
unfolding head_of
wait_queue_first s = head_of s.queue

unfoldable pub wait_queue_last : Sync → Option ℕ
unfolding last_entry
wait_queue_last s = last_entry none s.queue

unfoldable pub wait_queue_empty : Sync → Bool
wait_queue_empty s = elim s.queue [ [] ↦ true | w ∷ ws ↦ false ]

-- A step of the scheduler inside this state.
abbrev pub lift : Result Sched (Unit {0}) → Sync → Result Sync (Unit {0})
lift (ok a t) s = ok tt (record s { sched = t })
lift (err e t) s = err e (record s { sched = t })
lift panic s = panic

module _ (c : SchedClass) where
  unfoldable pub wakeup_wait : ℕ → ℕ → Bool → Sync → Result Sync (Unit {0})
  wakeup_wait w flags del = do
    (if del then wait_queue_del w else return tt)
    λ s. modify (set_wait w (record (s.waits w) { wakeup_flags = flags })) s
    λ s. lift (wakeup_proc c (s.waits w).proc s.sched) s

  unfoldable pub wakeup_first : ℕ → Bool → Sync → Result Sync (Unit {0})
  unfolding wait_queue_first
  wakeup_first flags del s = elim (wait_queue_first s) [
    | none ↦ ok tt s
    | some w ↦ wakeup_wait w flags del s
  ]

  -- Both loops of `wakeup_queue` go through the queue in order; with `del` each step takes the
  -- first entry out, without it the entries stay.
  unfoldable pub wakeup_each : ℕ → Bool → List ℕ → Sync → Result Sync (Unit {0})
  wakeup_each flags del [] = return tt
  wakeup_each flags del (w ∷ ws) = wakeup_wait w flags del >> wakeup_each flags del ws

  unfoldable pub wakeup_queue : ℕ → Bool → Sync → Result Sync (Unit {0})
  unfolding wakeup_each
  wakeup_queue flags del s = wakeup_each flags del s.queue s

-- The current process goes to sleep and joins the queue. It still runs, until it calls `schedule`.
unfoldable pub wait_current_set : ℕ → ℕ → Sync → Result Sync (Unit {0})
unfolding wait_init wait_queue_add
wait_current_set w wait_state = do
  λ s. modify (wait_init w s.sched.current) s
  λ s.
      let p = s.sched.current in
      modify
        (λ s. record s {
          sched =
              set_proc p
                (record (s.sched.procs p) { state = proc_sleeping; wait_state = wait_state })
                s.sched;
        })
        s
  wait_queue_add w

unfoldable pub wait_current_del : ℕ → Sync → Result Sync (Unit {0})
unfolding wait_in_queue wait_queue_del
wait_current_del w s = if wait_in_queue w s then wait_queue_del w s else ok tt s
