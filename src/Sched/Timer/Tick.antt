-- ===== src/Sched/Timer/Tick.antt =====
-- One tick of the timers of lab8/kern/schedule/sched.c, with the round-robin class.
use nku_os.Base.{
  ℕ, ◌+◌, ◌-◌, ◌<◌, ◌≡◌, refl, sym, ap, ◌∙◌, Bool, true, false, ◌&&◌, ◌||◌, ◌==◌, if◌then◌else◌,
  List, [], ◌∷◌, Bool-cases, inl, inr, arith,
}
use nku_os.Base.Result.{ok, ◌>>◌}
use nku_os.Sched.Proc.{Timer, Sched, is_runnable}
use nku_os.Sched.Core.{sched_class_proc_tick}
use nku_os.Sched.RoundRobin.{rr_proc_tick, default_sched_class}
use nku_os.Sched.Timer.{count_down, run_timer_list}
use nku_os.Sched.Timer.Absolute.{Due, absolute}
use nku_os.Sched.Timer.Fire.{Calm, still_due, runs_out, fire-Fired}

-- One tick for the timers by the ticks they still have to wait.
unfoldable pub ticked : List Due → List Due
ticked [] = []
ticked ((k, p) ∷ ds) = let rest = ticked ds in if k == 1 then rest else (k - 1, p) ∷ rest

unfoldable pub due_now : ℕ → List Due → Bool
due_now p [] = false
due_now p ((k, q) ∷ ds) = k == 1 && p == q || due_now p ds

ticked-later : (b : ℕ) (ts : List Timer) → 0 < b → ticked (absolute (b + 1) ts) ≡ absolute b ts
unfolding ticked absolute
ticked-later b [] h = refl
ticked-later b (t ∷ ts) h =
    let e : b + 1 + t.expires ≡ b + t.expires + 1 = omega arith in
    let n : (b + t.expires + 1 == 1) ≡ false = ground (arith, h) in
    let m : b + t.expires + 1 - 1 ≡ b + t.expires = omega arith in
    rw (e, n, m)
      (ap (◌∷◌ (b + t.expires, t.proc)) (ticked-later (b + t.expires) ts (omega (arith, h))))

ticked-still_due : (ts : List Timer) → ticked (absolute 1 ts) ≡ absolute 0 (still_due ts)
unfolding ticked absolute still_due
ticked-still_due [] = refl
ticked-still_due (t ∷ ts) = elim (Bool-cases (t.expires == 0)) [
  | inl k ↦ let e : 1 + t.expires ≡ 1 = ground (arith, k) in rw (e, k) (ticked-still_due ts)
  | inr k ↦
      let e : 1 + t.expires ≡ 0 + t.expires + 1 = omega arith in
      let n : (0 + t.expires + 1 == 1) ≡ false = ground (arith, k) in
      let m : 0 + t.expires + 1 - 1 ≡ 0 + t.expires = omega arith in
      rw (e, n, m, k)
        (ap (◌∷◌ (0 + t.expires, t.proc)) (ticked-later (0 + t.expires) ts (ground (arith, k))))
]

due_later : (p b : ℕ) (ts : List Timer) → 1 < b → due_now p (absolute b ts) ≡ false
unfolding due_now absolute
due_later p b [] h = refl
due_later p b (t ∷ ts) h = ground (arith, h, due_later p (b + t.expires) ts (omega (arith, h)))

due_now-runs_out : (p : ℕ) (ts : List Timer) → due_now p (absolute 1 ts) ≡ runs_out p ts
unfolding due_now absolute runs_out
due_now-runs_out p [] = refl
due_now-runs_out p (t ∷ ts) = elim (Bool-cases (t.expires == 0)) [
  | inl k ↦
      let e : 1 + t.expires ≡ 1 = ground (arith, k) in
      rw (e, k) (ap (λ b. p == t.proc || b) (due_now-runs_out p ts))
  | inr k ↦ ground (arith, k, due_later p (1 + t.expires) ts (ground (arith, k)))
]

tick_keeps :
    (s : Sched) (p : ℕ)
    → (((sched_class_proc_tick default_sched_class s.current s).procs p).state ≡ (s.procs p).state)
      × ((sched_class_proc_tick default_sched_class s.current s).timer_list ≡ s.timer_list)
unfolding sched_class_proc_tick rr_proc_tick
tick_keeps s p = (ground arith, ground arith)

-- The first timer has still to wait.
abbrev pub Waiting : List Timer → Type 0
Waiting [] = Unit {0}
Waiting (t ∷ ts) = 0 < t.expires

-- Every timer has one tick less, those with one tick are gone, and their processes are runnable.
pub record Ticked (s t : Sched) : Type 0 where
  pub timers : absolute 0 t.timer_list ≡ ticked (absolute 0 s.timer_list)
  pub runs :
      (p : ℕ) → due_now p (absolute 0 s.timer_list) ≡ true → is_runnable (t.procs p).state ≡ true

counted : List Timer → List Timer
counted [] = []
counted (t ∷ ts) = record t { expires = t.expires - 1 } ∷ ts

counted-timers :
    (ts : List Timer) → Waiting ts → absolute 0 (still_due (counted ts)) ≡ ticked (absolute 0 ts)
unfolding counted still_due absolute ticked
counted-timers [] h = refl
counted-timers (t ∷ ts) h = elim (Bool-cases (t.expires == 1)) [
  | inl k ↦
      let e : 0 + t.expires ≡ 1 = ground (arith, k) in
      let z : (t.expires - 1 == 0) ≡ true = ground (arith, k) in
      rw (z, e) (sym (ticked-still_due ts))
  | inr k ↦
      let z : (t.expires - 1 == 0) ≡ false = ground (arith, k, h) in
      let e : 0 + t.expires ≡ 0 + (t.expires - 1) + 1 = omega (arith, h) in
      let n : (0 + (t.expires - 1) + 1 == 1) ≡ false = ground (arith, k, h) in
      let m : 0 + (t.expires - 1) + 1 - 1 ≡ 0 + (t.expires - 1) = omega arith in
      rw (z, e, n, m)
        (ap (◌∷◌ (0 + (t.expires - 1), t.proc))
          (sym (ticked-later (0 + (t.expires - 1)) ts (ground (arith, k, h)))))
]

counted-due :
    (p : ℕ) (ts : List Timer)
    → Waiting ts
    → due_now p (absolute 0 ts) ≡ true
    → runs_out p (counted ts) ≡ true
unfolding counted runs_out absolute due_now
counted-due p [] h d = d
counted-due p (t ∷ ts) h d = elim (Bool-cases (t.expires == 1)) [
  | inl k ↦
      let e : 0 + t.expires ≡ 1 = ground (arith, k) in
      let same = ap (λ b. due_now p (absolute b ts)) e ∙ due_now-runs_out p ts in
      ground (arith, k, d, same)
  | inr k ↦ ground (arith, k, h, d, due_later p (0 + t.expires) ts (ground (arith, k, h)))
]

counted-run :
    (s : Sched) (ts : List Timer)
    → s.timer_list ≡ ts
    → Waiting ts
    → count_down default_sched_class s ≡ ok tt (record s { timer_list = counted ts })
unfolding counted count_down
counted-run s [] e h = rw e refl
counted-run s (t ∷ ts) e h = rw (e, ◌>>◌, positive h) refl
  where
    positive : 0 < t.expires → t.expires == 0 ≡ false
    positive h = ground (arith, h)

-- With the round-robin class, when no process is a zombie or waits for what a timer may not end, when
-- only runnable processes are queued, and when the first timer, if there is one, has still to wait,
-- `run_timer_list` fails no assertion: every timer then has one tick less to wait, those with one tick
-- are gone, and their processes are runnable.
pub run_timer_list-Ticked :
    (s : Sched)
    → Calm s
    → Waiting s.timer_list
    → (t : Sched) × (run_timer_list default_sched_class s ≡ ok tt t) × Ticked s t
unfolding run_timer_list
run_timer_list-Ticked s c h =
    let s1 = record s { timer_list = counted s.timer_list } in
    let c1 : Calm s1 = record { alive = c.alive; waits = c.waits; queued = c.queued } in
    let (t, run, f) = fire-Fired (counted s.timer_list) s1 c1 refl in
    (
      sched_class_proc_tick default_sched_class t.current t,
      rw (◌>>◌, counted-run s s.timer_list refl h, run) refl,
      record {
        timers = ap (absolute 0) ((tick_keeps t 0).1 ∙ f.list) ∙ counted-timers s.timer_list h;
        runs = λ p d. ap is_runnable (tick_keeps t p).0 ∙ f.runs p (counted-due p s.timer_list h d);
      },
    )
