-- ===== src/Sched/RoundRobin/Turn.antt =====
-- One call of `schedule` under the round-robin class (lab8/kern/schedule/sched.c,
-- lab6/kern/schedule/default_sched_c.c).
use nku_os.Base.{
  ℕ, ◌+◌, ◌≡◌, ◌≢◌, refl, ap, ◌∙◌, true, false, not, ◌||◌, ◌==◌, ltb, some, List, [], ◌∷◌, ◌++◌,
  Bool-cases, inl, inr, arith,
}
use nku_os.Base.Result.{Post, Post-ok, assert-Post, if_Post, >>-Post, >>=-Post, ok}
use nku_os.Sched.Proc.{Proc, ProcState, set_proc, proc_runnable, Sched, is_runnable, idleproc}
use nku_os.Sched.Core.{leave, enqueue_current, leave_first, run_next, schedule, sched_class_enqueue}
use nku_os.Sched.RoundRobin.{
  linked, unlink, rr_enqueue, rr_dequeue, rr_pick_next, refilled, default_sched_class,
}

-- The run queue, and the states of the processes, which no step changes.
record Queued (st : ℕ → ProcState) (ps : List ℕ) (n : ℕ) (t : Sched) : Type 0 where
  list : t.rq.run_list ≡ ps
  num : t.rq.proc_num ≡ n
  states : (x : ℕ) → (t.procs x).state ≡ st x

refilled_state : (p : ℕ) (s : Sched) → (refilled p s).state ≡ (s.procs p).state
refilled_state p s =
    elim (Bool-cases
      ((s.procs p).time_slice == 0 || ltb s.rq.max_time_slice (s.procs p).time_slice)) [
        | inl e ↦ rw e refl
        | inr e ↦ rw e refl
      ]

pub set_proc_state :
    (p : ℕ) (v : Proc) (s : Sched) (x : ℕ)
    → v.state ≡ (s.procs p).state
    → ((set_proc p v s).procs x).state ≡ (s.procs x).state
set_proc_state p v s x e = ground (arith, e)

rr_enqueue-Queued :
    (st : ℕ → ProcState) (p : ℕ) (ps : List ℕ) (n : ℕ) (s : Sched)
    → Queued st ps n s
    → linked p ps ≡ false
    → Post (λ _. Queued st (ps ++ p ∷ []) (n + 1)) (λ _. ⊥) (rr_enqueue p s)
unfolding rr_enqueue
rr_enqueue-Queued st p ps n s h out =
    assert-Post (not (linked p s.rq.run_list)) _ s (rw h.list (ground (arith, out))) (
      Post.returns (record {
        list = ap (λ l. l ++ p ∷ []) h.list;
        num = ap (λ k. k + 1) h.num;
        states = λ x. set_proc_state p (refilled p s) s x (refilled_state p s) ∙ h.states x;
      }))

rr_dequeue-Queued :
    (st : ℕ → ProcState) (p : ℕ) (ps : List ℕ) (n : ℕ) (s : Sched)
    → Queued st (p ∷ ps) (n + 1) s
    → Post (λ _. Queued st ps n) (λ _. ⊥) (rr_dequeue p s)
unfolding rr_dequeue
rr_dequeue-Queued st p ps n s h =
    assert-Post (linked p s.rq.run_list) _ s (rw h.list (ground arith)) (
      Post.returns (record {
        list = ap (unlink p) h.list ∙ ground arith;
        num = omega (arith, h.num);
        states = h.states;
      }))

pick_first : (p : ℕ) (ps : List ℕ) (s : Sched) → s.rq.run_list ≡ p ∷ ps → rr_pick_next s ≡ some p
unfolding rr_pick_next
pick_first p ps s h = ground (arith, h)

leave-Queued :
    (st : ℕ → ProcState) (p : ℕ) (ps : List ℕ) (n : ℕ) (s : Sched)
    → Queued st (p ∷ ps) (n + 1) s
    → Post
        (λ q t. (q ≡ p) × Queued st ps n t)
        (λ _. ⊥)
        (leave default_sched_class (rr_pick_next s) s)
leave-Queued st p ps n s h = rw (pick_first p ps s h.list) (
    >>-Post (λ _. Queued st ps n) (rr_dequeue p) _ (rr_dequeue-Queued st p ps n s h)
      λ _ t k. Post.returns (refl, k))

-- `if (current->state == PROC_RUNNABLE) sched_class_enqueue(current)`
back-Queued :
    (st : ℕ → ProcState) (ps : List ℕ) (n : ℕ) (s : Sched)
    → Queued st ps n s
    → s.current ≢ idleproc
    → is_runnable (s.procs s.current).state ≡ true
    → linked s.current ps ≡ false
    → Post
        (λ _. Queued st (ps ++ s.current ∷ []) (n + 1))
        (λ _. ⊥)
        (enqueue_current default_sched_class s)
unfolding enqueue_current sched_class_enqueue
back-Queued st ps n s h busy ready out =
    if_Post (is_runnable (s.procs s.current).state)
      (λ _.
        if_Post (not (s.current == idleproc)) (λ _. rr_enqueue-Queued st s.current ps n s h out)
          λ e. absurd (ground (arith, e, busy)))
      λ e. absurd (ground (arith, e, ready))

-- What a call of `schedule` leaves: `qs` are queued, `q` is current.
pub record Turned (q : ℕ) (qs : List ℕ) (s t : Sched) : Type 0 where
  pub current : t.current ≡ q
  pub list : t.rq.run_list ≡ qs
  pub num : t.rq.proc_num ≡ s.rq.proc_num
  pub states : (x : ℕ) → (t.procs x).state ≡ (s.procs x).state

run_next-Turned :
    (p q : ℕ) (qs : List ℕ) (s u : Sched)
    → p ≡ q
    → Queued (λ x. (s.procs x).state) qs s.rq.proc_num u
    → Turned q qs s (run_next default_sched_class p u)
run_next-Turned p q qs s u e k = record {
  current = e;
  list = k.list;
  num = k.num;
  states = λ x.
      set_proc_state p (record (u.procs p) { runs = (u.procs p).runs + 1 }) u x refl ∙ k.states x;
}

pub schedule-Turned :
    (s : Sched) (q : ℕ) (qs : List ℕ)
    → s.rq.run_list ≡ q ∷ qs
    → s.current ≢ idleproc
    → (s.procs s.current).state ≡ proc_runnable
    → linked s.current (q ∷ qs) ≡ false
    → Post (λ _. Turned q (qs ++ s.current ∷ []) s) (λ _. ⊥) (schedule default_sched_class s)
unfolding schedule
schedule-Turned s q qs e busy ready out =
    let st : ℕ → ProcState = λ x. (s.procs x).state in
    let asked = set_proc s.current (record (s.procs s.current) { need_resched = false }) s in
    let same : (x : ℕ) → (asked.procs x).state ≡ st x = λ x. set_proc_state s.current _ s x refl in
    >>-Post (λ _. Queued st (q ∷ qs ++ s.current ∷ []) (s.rq.proc_num + 1))
      (enqueue_current default_sched_class) _ {s = asked}
      (back-Queued st (q ∷ qs) s.rq.proc_num asked (record { list = e; num = refl; states = same })
        busy (ap is_runnable (same s.current ∙ ready)) out)
      λ _ t k.
        >>=-Post (λ p u. (p ≡ q) × Queued st (qs ++ s.current ∷ []) s.rq.proc_num u)
          (leave_first default_sched_class) _
          (leave-Queued st q (qs ++ s.current ∷ []) s.rq.proc_num t k)
          λ p u k. Post.returns (run_next-Turned p q (qs ++ s.current ∷ []) s u k.0 k.1)

-- When the current process is runnable, not idle and not queued, and the run queue is not empty,
-- `schedule` puts the current process behind the queued ones, and the first of them runs next.
pub schedule_turn :
    (s : Sched) (q : ℕ) (qs : List ℕ)
    → s.rq.run_list ≡ q ∷ qs
    → s.current ≢ idleproc
    → (s.procs s.current).state ≡ proc_runnable
    → linked s.current (q ∷ qs) ≡ false
    → (t : Sched) × (schedule default_sched_class s ≡ ok tt t)
      × (t.current ≡ q)
      × (t.rq.run_list ≡ qs ++ s.current ∷ [])
      × (t.rq.proc_num ≡ s.rq.proc_num)
schedule_turn s q qs e busy ready out =
    let (_, t, runs, now) = Post-ok (schedule-Turned s q qs e busy ready out) in
    (t, runs, now.current, now.list, now.num)
