-- ===== src/Sync/Semaphore.antt =====
-- Semaphores: lab8/kern/sync/sem.c. `__down` is cut where it calls `schedule`: what it does before,
-- and what it does when its process runs again. Interrupts are off in each part.
use nku_os.Base.{ℕ, ◌+◌, ◌-◌, Bool, true, false, not, Option, none, some, ltb, ◌==◌, if◌then◌else◌}
use nku_os.Base.Result.{Result, ok, ◌>>=◌, ◌>>◌, return, assert}
use nku_os.Sched.Proc.{SchedClass}
use nku_os.Sched.Core.{schedule}
use nku_os.Sync.Wait.{
  Sync, wait_queue_first, wait_queue_init, wakeup_wait, wait_current_set, wait_current_del, lift,
}

-- WT_KSEM
abbrev pub wt_ksem : ℕ
wt_ksem = 0x100

unfoldable pub sem_init : ℕ → Sync → Sync
unfolding wait_queue_init
sem_init v s = wait_queue_init (record s { value = v })

-- What `__down` comes to at once: the result 0, or a wait.
pub data Entered : Type 0 where
  taken blocked : Entered

module _ (c : SchedClass) where
  -- `__up` with the first waiter.
  abbrev pub up_first : Option ℕ → ℕ → Sync → Result Sync (Unit {0})
  up_first none wait_state s = ok tt (record s { value = s.value + 1 })
  up_first (some w) wait_state s =
      (assert ((s.sched.procs (s.waits w).proc).wait_state == wait_state)
          >> wakeup_wait c w wait_state true)
        s

  unfoldable pub up_as : ℕ → Sync → Result Sync (Unit {0})
  up_as wait_state s = up_first (wait_queue_first s) wait_state s

  unfoldable pub up : Sync → Result Sync (Unit {0})
  unfolding up_as
  up = up_as wt_ksem

  -- The part of `__down` up to the call of `schedule`, which is the last thing it does.
  unfoldable pub down_enter : ℕ → ℕ → Sync → Result Sync Entered
  down_enter w wait_state s =
      if ltb 0 s.value
      then ok taken (record s { value = s.value - 1 })
      else (do wait_current_set w wait_state; λ t. lift (schedule c t.sched) t; return blocked) s

-- The part of `__down` after `schedule`: the flags, or 0 for the expected ones.
unfoldable pub down_resume : ℕ → ℕ → Sync → Result Sync ℕ
down_resume w wait_state = do
  wait_current_del w
  λ s. ok (if not ((s.waits w).wakeup_flags == wait_state) then (s.waits w).wakeup_flags else 0) s

-- `down` asserts that it was woken as it asked.
unfoldable pub down_return : ℕ → Sync → Result Sync (Unit {0})
unfolding down_resume
down_return w = do flags ← down_resume w wt_ksem; assert (flags == 0)

unfoldable pub try_down : Sync → Bool × Sync
try_down s = if ltb 0 s.value then (true, record s { value = s.value - 1 }) else (false, s)
