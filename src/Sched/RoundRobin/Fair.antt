-- ===== src/Sched/RoundRobin/Fair.antt =====
-- Each runnable process gets its turn under the round-robin class
-- (lab8/kern/schedule/sched.c, lab6/kern/schedule/default_sched_c.c).
use nku_os.Base.{
  ℕ, zero, suc, ◌+◌, ◌≡◌, ◌≢◌, refl, sym, ap, ◌∙◌, subst, false, not, ◌==◌, List, [], ◌∷◌, ◌++◌,
  append_assoc, length, Bool-cases, inl, inr, arith,
}
use nku_os.Base.Result.{Result, ok, Post, Post-ok, >>-Post, ◌>>◌, modify}
use nku_os.Libs.ListOrder.{Off, Distinct, Distinct-append}
use nku_os.Sched.Proc.{proc_runnable, Sched, idleproc}
use nku_os.Sched.Core.{schedule, sched_class_proc_tick}
use nku_os.Sched.RoundRobin.{linked, rr_proc_tick, default_sched_class}
use nku_os.Sched.RoundRobin.Turn.{Turned, set_proc_state, schedule-Turned}

-- As many timer ticks as the number says.
unfoldable pub ticks : ℕ → Sched → Sched
unfolding sched_class_proc_tick
ticks zero s = s
ticks (suc n) s = ticks n (sched_class_proc_tick default_sched_class s.current s)

-- For each number so many ticks and then a call of `schedule`.
unfoldable pub turns : List ℕ → Sched → Result Sched (Unit {0})
unfolding ticks schedule
turns [] s = ok tt s
turns (n ∷ ns) s = (modify (ticks n) >> (schedule default_sched_class >> turns ns)) s

abbrev AllRunnable : List ℕ → Sched → Type 0
AllRunnable [] s = Unit {0}
AllRunnable (p ∷ ps) s = (p ≢ idleproc) × ((s.procs p).state ≡ proc_runnable) × AllRunnable ps s

-- Process `c` runs and `qs` are queued, none of them twice, and all are runnable.
pub record Ready (c : ℕ) (qs : List ℕ) (s : Sched) : Type 0 where
  pub current : s.current ≡ c
  pub list : s.rq.run_list ≡ qs
  pub distinct : Distinct (c ∷ qs)
  pub runnable : AllRunnable (c ∷ qs) s

AllRunnable-same :
    (ps : List ℕ) (s t : Sched)
    → ((x : ℕ) → (t.procs x).state ≡ (s.procs x).state)
    → AllRunnable ps s
    → AllRunnable ps t
AllRunnable-same [] s t same h = tt
AllRunnable-same (p ∷ ps) s t same h = (h.0, same p ∙ h.1, AllRunnable-same ps s t same h.2)

AllRunnable-append :
    (ps : List ℕ) (p : ℕ) (s : Sched)
    → AllRunnable ps s
    → p ≢ idleproc
    → (s.procs p).state ≡ proc_runnable
    → AllRunnable (ps ++ p ∷ []) s
AllRunnable-append [] p s h busy e = (busy, e, tt)
AllRunnable-append (q ∷ ps) p s h busy e = (h.0, h.1, AllRunnable-append ps p s h.2 busy e)

Off-linked : (p : ℕ) (qs : List ℕ) → Off p qs → linked p qs ≡ false
unfolding linked
Off-linked p [] out = refl
Off-linked p (q ∷ qs) out = ground (arith, out.0, Off-linked p qs out.1)

tick_state :
    (s : Sched) (x : ℕ)
    → ((sched_class_proc_tick default_sched_class s.current s).procs x).state ≡ (s.procs x).state
unfolding sched_class_proc_tick rr_proc_tick
tick_state s x = elim (Bool-cases (not (s.current == idleproc))) [
  | inl e ↦ rw e (set_proc_state s.current _ s x refl)
  | inr e ↦ rw e (set_proc_state s.current _ s x refl)
]

tick_rq : (s : Sched) → (sched_class_proc_tick default_sched_class s.current s).rq ≡ s.rq
unfolding sched_class_proc_tick rr_proc_tick
tick_rq s = elim (Bool-cases (not (s.current == idleproc))) [
  | inl e ↦ rw e refl
  | inr e ↦ rw e refl
]

tick_current :
    (s : Sched) → (sched_class_proc_tick default_sched_class s.current s).current ≡ s.current
unfolding sched_class_proc_tick rr_proc_tick
tick_current s = elim (Bool-cases (not (s.current == idleproc))) [
  | inl e ↦ rw e refl
  | inr e ↦ rw e refl
]

-- A tick changes no state of a process and no queue.
tick-Ready :
    (c : ℕ) (qs : List ℕ) (s : Sched)
    → Ready c qs s
    → Ready c qs (sched_class_proc_tick default_sched_class s.current s)
tick-Ready c qs s h = record {
  current = tick_current s ∙ h.current;
  list = ap (λ r. r.run_list) (tick_rq s) ∙ h.list;
  distinct = h.distinct;
  runnable = AllRunnable-same (c ∷ qs) s _ (tick_state s) h.runnable;
}

ticks-Ready : (n c : ℕ) (qs : List ℕ) (s : Sched) → Ready c qs s → Ready c qs (ticks n s)
unfolding ticks
ticks-Ready zero c qs s h = h
ticks-Ready (suc n) c qs s h = ticks-Ready n c qs _ (tick-Ready c qs s h)

Turned-Ready :
    (c q : ℕ) (qs : List ℕ) (s t : Sched)
    → Ready c (q ∷ qs) s
    → Turned q (qs ++ c ∷ []) s t
    → Ready q (qs ++ c ∷ []) t
Turned-Ready c q qs s t h k = record {
  current = k.current;
  list = k.list;
  distinct = Distinct-append (q ∷ qs) c h.distinct.0 h.distinct.1;
  runnable =
      AllRunnable-append (q ∷ qs) c t (AllRunnable-same (q ∷ qs) s t k.states h.runnable.2)
        h.runnable.0 (k.states c ∙ h.runnable.1);
}

schedule-Ready :
    (c q : ℕ) (qs : List ℕ) (s : Sched)
    → Ready c (q ∷ qs) s
    → Post (λ _. Ready q (qs ++ c ∷ [])) (λ _. ⊥) (schedule default_sched_class s)
schedule-Ready c q qs s h =
    let (_, t, runs, k) = Post-ok (
      schedule-Turned s q qs h.list (λ e. h.runnable.0 (sym h.current ∙ e))
        (ap (λ p. (s.procs p).state) h.current ∙ h.runnable.1)
        (subst (λ p. linked p (q ∷ qs) ≡ false) (sym h.current)
          (Off-linked c (q ∷ qs) h.distinct.0))) in
    subst (Post (λ _. Ready q (qs ++ c ∷ [])) (λ _. ⊥)) (sym runs) (
      Post.returns
        (Turned-Ready c q qs s t h (subst (λ c. Turned q (qs ++ c ∷ []) s t) h.current k)))

turns-behind :
    (xs zs ns : List ℕ) (c p : ℕ) (s : Sched)
    → Ready c (xs ++ p ∷ zs) s
    → length ns ≡ length xs + 1
    → Post (λ _. Ready p (zs ++ c ∷ xs)) (λ _. ⊥) (turns ns s)
unfolding turns
turns-behind xs zs [] c p s h e = absurd (omega (arith, e))
turns-behind [] zs (n ∷ []) c p s h e =
    >>-Post (λ _. Ready p (zs ++ c ∷ [])) (schedule default_sched_class) _ {s = ticks n s}
      (schedule-Ready c p zs (ticks n s) (ticks-Ready n c (p ∷ zs) s h)) λ _ t k. Post.returns k
turns-behind [] zs (n ∷ m ∷ ns) c p s h e = absurd (omega (arith, e))
turns-behind (x ∷ xs) zs (n ∷ ns) c p s h e =
    >>-Post (λ _. Ready x ((xs ++ p ∷ zs) ++ c ∷ [])) (schedule default_sched_class) _
      {s = ticks n s}
      (schedule-Ready c x (xs ++ p ∷ zs) (ticks n s) (ticks-Ready n c (x ∷ xs ++ p ∷ zs) s h))
      λ _ t k.
        subst (λ ys. Post (λ _. Ready p ys) (λ _. ⊥) (turns ns t))
          (append_assoc zs (c ∷ []) (x ∷ xs))
          (turns-behind xs (zs ++ c ∷ []) ns x p t
            (subst (λ ys. Ready x ys t) (append_assoc xs (p ∷ zs) (c ∷ [])) k) (omega (arith, e)))

-- The process that is queued behind `xs` runs after as many calls of `schedule` as there are
-- processes in `xs` and one more, whatever the number of ticks before each call, while all
-- processes in the queue and the current one stay runnable. Those that ran before it are then at
-- the end of the queue, in the order in which they ran.
pub turns-Ready :
    (xs zs ns : List ℕ) (c p : ℕ) (s : Sched)
    → Ready c (xs ++ p ∷ zs) s
    → length ns ≡ length xs + 1
    → (t : Sched) × (turns ns s ≡ ok tt t) × Ready p (zs ++ c ∷ xs) t
turns-Ready xs zs ns c p s h e =
    let (_, t, runs, k) = Post-ok (turns-behind xs zs ns c p s h e) in (t, runs, k)
