-- ===== src/Sync/Wake.antt =====
-- What `up` does for the process that has waited longest (lab8/kern/sync/sem.c), under the
-- round-robin class.
use nku_os.Base.{
  update_self, ℕ, ◌≡◌, ◌≢◌, refl, ap, ◌∙◌, true, false, not, ◌==◌, List, [], ◌∷◌, ◌++◌, arith,
}
use nku_os.Base.Result.{ok, Post, Post-ok, assert-Post, if_Post}
use nku_os.Sched.Proc.{is_zombie, proc_runnable, proc_sleeping, Sched, idleproc, is_runnable}
use nku_os.Sched.Core.{woken, wakeup_proc}
use nku_os.Sched.RoundRobin.{linked, rr_enqueue, default_sched_class}
use nku_os.Sync.Wait.{
  set_wait, Wait, Sync, wait_queue_first, head_of, wait_queue_del, wakeup_wait, lift,
}
use nku_os.Sync.Semaphore.{up, wt_ksem}

-- A sleeping process that is neither running nor idle nor queued becomes runnable by
-- `wakeup_proc`, with no wait state, at the end of the run queue.
pub wakeup_sleeper :
    (p : ℕ) (s : Sched)
    → (s.procs p).state ≡ proc_sleeping
    → p ≢ s.current
    → p ≢ idleproc
    → linked p s.rq.run_list ≡ false
    → (t : Sched) × (wakeup_proc default_sched_class p s ≡ ok tt t)
      × ((t.procs p).state ≡ proc_runnable)
      × ((t.procs p).wait_state ≡ 0)
      × (t.rq.run_list ≡ s.rq.run_list ++ p ∷ [])
unfolding wakeup_proc rr_enqueue
wakeup_sleeper p s asleep other busy out =
    let (_, t, runs, q) = Post-ok woke in (t, runs, q.0, q.1, q.2)
  where
    up_now : Sched
    up_now = woken default_sched_class p s

    entered :
        Post
          (λ _ t.
            ((t.procs p).state ≡ proc_runnable)
            × ((t.procs p).wait_state ≡ 0)
            × (t.rq.run_list ≡ s.rq.run_list ++ p ∷ []))
          (λ _. ⊥)
          (rr_enqueue p up_now)
    entered =
        assert-Post (not (linked p s.rq.run_list)) _ up_now (ground (arith, out))
          (Post.returns (ground arith, ground arith, refl))

    woke :
        Post
          (λ _ t.
            ((t.procs p).state ≡ proc_runnable)
            × ((t.procs p).wait_state ≡ 0)
            × (t.rq.run_list ≡ s.rq.run_list ++ p ∷ []))
          (λ _. ⊥)
          (wakeup_proc default_sched_class p s)
    woke = assert-Post (not (is_zombie (s.procs p).state)) _ s (ground (arith, asleep)) (
        if_Post (not (is_runnable (s.procs p).state))
          (λ _.
            if_Post (not (p == s.current))
              (λ _.
                if_Post (not (p == idleproc)) (λ _. entered) λ e. absurd (ground (arith, e, busy)))
              λ e. absurd (ground (arith, e, other)))
          λ e. absurd (ground (arith, e, asleep)))

del_first :
    (w : ℕ) (ws : List ℕ) (s : Sync)
    → s.queue ≡ w ∷ ws
    → wait_queue_del w s ≡ ok tt (record s { queue = ws })
unfolding wait_queue_del
del_first w ws s e = rw (e, wait_queue_del) (ground arith)

wakeup_first_lem :
    (w flags : ℕ) (ws : List ℕ) (s : Sync)
    → s.queue ≡ w ∷ ws
    → wakeup_wait default_sched_class w flags true s
      ≡ lift
          (wakeup_proc default_sched_class (s.waits w).proc s.sched)
          (set_wait w (record (s.waits w) { wakeup_flags = flags }) (record s { queue = ws }))
unfolding wakeup_wait wait_queue_del wakeup_proc
wakeup_first_lem w flags ws s e =
    let woken_wait : Wait = record (s.waits w) { wakeup_flags = flags } in
    rw (del_first w ws s e) (
      ap
        (λ (f : Wait).
          lift (wakeup_proc default_sched_class f.proc s.sched)
            (set_wait w woken_wait (record s { queue = ws })))
        (update_self s.waits w woken_wait))

up_lem :
    (w : ℕ) (ws : List ℕ) (s : Sync)
    → s.queue ≡ w ∷ ws
    → (s.sched.procs (s.waits w).proc).wait_state ≡ wt_ksem
    → up default_sched_class s ≡ wakeup_wait default_sched_class w wt_ksem true s
unfolding up wait_queue_first
up_lem w ws s e waits = rw (ap head_of e) (ground (arith, waits))

-- With waiters in the queue, the first of them asleep on a semaphore, neither running nor idle nor
-- queued, `up` hands over to the first: its process becomes runnable at the end of the run queue, with the wait's flags set, the other waiters keep their order, and the value
-- stays as it is.
pub up_wakes_first :
    (w : ℕ) (ws : List ℕ) (s : Sync)
    → s.queue ≡ w ∷ ws
    → (s.sched.procs (s.waits w).proc).state ≡ proc_sleeping
    → (s.sched.procs (s.waits w).proc).wait_state ≡ wt_ksem
    → (s.waits w).proc ≢ s.sched.current
    → (s.waits w).proc ≢ idleproc
    → linked (s.waits w).proc s.sched.rq.run_list ≡ false
    → (t : Sync) × (up default_sched_class s ≡ ok tt t)
      × (t.queue ≡ ws)
      × (t.value ≡ s.value)
      × ((t.sched.procs (s.waits w).proc).state ≡ proc_runnable)
      × (t.sched.rq.run_list ≡ s.sched.rq.run_list ++ (s.waits w).proc ∷ [])
      × ((t.waits w).wakeup_flags ≡ wt_ksem)
up_wakes_first w ws s e asleep waits other busy out =
    let (t, runs, ready, _, last) = wakeup_sleeper (s.waits w).proc s.sched asleep other busy out in
    let woken_wait : Wait = record (s.waits w) { wakeup_flags = wt_ksem } in
    (
      record (set_wait w woken_wait s) { queue = ws; sched = t },
      up_lem w ws s e waits ∙ wakeup_first_lem w wt_ksem ws s e ∙ rw runs,
      refl,
      refl,
      ready,
      last,
      ap (λ (f : Wait). f.wakeup_flags) (update_self s.waits w woken_wait),
    )
