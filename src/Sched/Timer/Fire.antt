-- ===== src/Sched/Timer/Fire.antt =====
-- The timers of lab8/kern/schedule/sched.c that run out wake their processes, with the round-robin
-- class.
use nku_os.Base.{
  ℕ, ◌+◌, ◌≡◌, ◌⊎◌, refl, ap, ◌∙◌, Bool, true, false, ◌&&◌, ◌||◌, ◌==◌, if◌then◌else◌, List, [],
  ◌∷◌, ◌++◌, Bool-cases, inl, inr, arith,
}
use nku_os.Base.Result.{ok, ◌>>◌}
use nku_os.Sched.Proc.{
  Proc, proc_runnable, Timer, Sched, is_interrupted, is_runnable, is_zombie, set_proc, idleproc,
}
use nku_os.Sched.Core.{wakeup_proc, sched_class_enqueue, woken}
use nku_os.Sched.RoundRobin.{linked, refilled, rr_enqueue, default_sched_class}
use nku_os.Sched.Timer.{del_at, del_timer, expire, fire}

-- No process is a zombie or waits for what a timer may not end, and only runnable ones are queued.
pub record Calm (s : Sched) : Type 0 where
  pub alive : (p : ℕ) → is_zombie (s.procs p).state ≡ false
  pub waits : (p : ℕ) → (s.procs p).wait_state == 0 || is_interrupted (s.procs p).wait_state ≡ true
  pub queued : (p : ℕ) → linked p s.rq.run_list ≡ true → is_runnable (s.procs p).state ≡ true

linked-append : (q p : ℕ) (xs : List ℕ) → linked q (xs ++ p ∷ []) ≡ (linked q xs || q == p)
unfolding linked
linked-append q p [] = ground arith
linked-append q p (x ∷ xs) = ground (arith, linked-append q p xs)

-- What a wake-up by a timer leaves.
record Awake (p : ℕ) (s t : Sched) : Type 0 where
  calm : Calm t
  list : t.timer_list ≡ s.timer_list
  runs : is_runnable (t.procs p).state ≡ true
  keeps : (q : ℕ) → is_runnable (s.procs q).state ≡ true → is_runnable (t.procs q).state ≡ true

-- The process is runnable and waits for nothing, the others are as before, and at most it is new in
-- the run queue.
ready_Awake :
    (p : ℕ) (s t : Sched)
    → Calm s
    → t.timer_list ≡ s.timer_list
    → (t.procs p).state ≡ proc_runnable
    → (t.procs p).wait_state ≡ 0
    → ((q : ℕ) → q == p ≡ false → t.procs q ≡ s.procs q)
    → ((q : ℕ) → linked q t.rq.run_list ≡ true → (linked q s.rq.run_list ≡ true) ⊎ (q == p ≡ true))
    → Awake p s t
ready_Awake p s t c l r w o n = record {
  calm = record {
    alive = λ q. elim (Bool-cases (q == p)) [
      | inl e ↦ ap (λ k. is_zombie (t.procs k).state) (same q e) ∙ ap is_zombie r
      | inr e ↦ ap (λ (f : Proc). is_zombie f.state) (o q e) ∙ c.alive q
    ];
    waits = λ q. elim (Bool-cases (q == p)) [
      | inl e ↦ rw (ap (λ k. (t.procs k).wait_state) (same q e) ∙ w) refl
      | inr e ↦
          ap (λ (f : Proc). f.wait_state == 0 || is_interrupted f.wait_state) (o q e) ∙ c.waits q
    ];
    queued = λ q h. elim (n q h) [
      | inl k ↦ keep q (c.queued q k)
      | inr e ↦ ap (λ k. is_runnable (t.procs k).state) (same q e) ∙ ap is_runnable r
    ];
  };
  list = l;
  runs = ap is_runnable r;
  keeps = keep;
}
  where
    same : (q : ℕ) → q == p ≡ true → q ≡ p
    same q e = ground (arith, e)

    keep : (q : ℕ) → is_runnable (s.procs q).state ≡ true → is_runnable (t.procs q).state ≡ true
    keep q h = elim (Bool-cases (q == p)) [
      | inl e ↦ ap (λ k. is_runnable (t.procs k).state) (same q e) ∙ ap is_runnable r
      | inr e ↦ ap (λ (f : Proc). is_runnable f.state) (o q e) ∙ h
    ]

wakeup-Awake :
    (p : ℕ) (s : Sched)
    → Calm s
    → (t : Sched) × (wakeup_proc default_sched_class p s ≡ ok tt t) × Awake p s t
unfolding wakeup_proc sched_class_enqueue rr_enqueue
wakeup-Awake p s c = elim (Bool-cases (is_runnable (s.procs p).state)) [
  | inl e ↦ (
    s,
    rw (◌>>◌, c.alive p, e) refl,
    record { calm = c; list = refl; runs = e; keeps = λ q h. h },
  )
  | inr e ↦ elim (Bool-cases (p == s.current)) [
    | inl k ↦ (
      woken default_sched_class p s,
      rw (◌>>◌, c.alive p, e, k) refl,
      ready_Awake p s (woken default_sched_class p s) c refl (ground arith) (ground arith)
          (λ q n. ground (arith, n)) (λ q h. inl h),
    )
    | inr k ↦ elim (Bool-cases (p == idleproc)) [
      | inl i ↦ (
        woken default_sched_class p s,
        rw (◌>>◌, c.alive p, e, k, i) refl,
        ready_Awake p s (woken default_sched_class p s) c refl (ground arith) (ground arith)
            (λ q n. ground (arith, n)) (λ q h. inl h),
      )
      | inr i ↦
          let t = woken default_sched_class p s in
          let u = set_proc p (refilled p t) (record t {
            rq = record t.rq { run_list = t.rq.run_list ++ p ∷ []; proc_num = t.rq.proc_num + 1 };
          }) in
          (
            u,
            rw (◌>>◌, c.alive p, e, k, i, out e) refl,
            ready_Awake p s u c refl (ground arith) (ground arith) (λ q n. ground (arith, n))
                (λ q h. elim (Bool-cases (linked q s.rq.run_list)) [
                  | inl l ↦ inl l
                  | inr l ↦ inr (ground (arith, l, h, linked-append q p s.rq.run_list))
                ]),
          )
    ]
  ]
]
  where
    out : is_runnable (s.procs p).state ≡ false → linked p s.rq.run_list ≡ false
    out e = elim (Bool-cases (linked p s.rq.run_list)) [
      | inl l ↦ absurd (ground (arith, e, c.queued p l))
      | inr l ↦ l
    ]

-- The timers that have not run out.
unfoldable pub still_due : List Timer → List Timer
still_due [] = []
still_due (t ∷ ts) = let rest = still_due ts in if t.expires == 0 then rest else t ∷ ts

-- The process has a timer that runs out.
unfoldable pub runs_out : ℕ → List Timer → Bool
runs_out p [] = false
runs_out p (t ∷ ts) = t.expires == 0 && (p == t.proc || runs_out p ts)

pub record Fired (ts : List Timer) (s t : Sched) : Type 0 where
  pub calm : Calm t
  pub list : t.timer_list ≡ still_due ts
  pub runs : (p : ℕ) → runs_out p ts ≡ true → is_runnable (t.procs p).state ≡ true
  pub keeps : (q : ℕ) → is_runnable (s.procs q).state ≡ true → is_runnable (t.procs q).state ≡ true

-- What the end of one timer leaves.
record Expired (p : ℕ) (s t : Sched) : Type 0 where
  calm : Calm t
  list : t.timer_list ≡ del_at 0 s.timer_list
  runs : is_runnable (t.procs p).state ≡ true
  keeps : (q : ℕ) → is_runnable (s.procs q).state ≡ true → is_runnable (t.procs q).state ≡ true

expire-Expired :
    (p : ℕ) (s : Sched)
    → Calm s
    → (t : Sched) × (expire default_sched_class p s ≡ ok tt t) × Expired p s t
unfolding expire del_timer
expire-Expired p s c =
    let (t, run, a) = wakeup-Awake p s c in
    (
      record t { timer_list = del_at 0 t.timer_list },
      rw (◌>>◌, c.waits p, run) refl,
      record {
        calm = record { alive = a.calm.alive; waits = a.calm.waits; queued = a.calm.queued };
        list = ap (del_at 0) a.list;
        runs = a.runs;
        keeps = a.keeps;
      },
    )

first_gone : (t : Timer) (ts : List Timer) → t.expires == 0 ≡ true → del_at 0 (t ∷ ts) ≡ ts
unfolding del_at
first_gone t ts k = rw k refl

pub fire-Fired :
    (ts : List Timer) (s : Sched)
    → Calm s
    → s.timer_list ≡ ts
    → (t : Sched) × (fire default_sched_class ts s ≡ ok tt t) × Fired ts s t
unfolding fire still_due runs_out
fire-Fired [] s c e = (
  s,
  refl,
  record { calm = c; list = e; runs = λ p h. absurd (ground (arith, h)); keeps = λ q h. h },
)
fire-Fired (u ∷ ts) s c e = elim (Bool-cases (u.expires == 0)) [
  | inr k ↦ (
    s,
    rw k refl,
    record {
      calm = c;
      list = rw k e;
      runs = λ p h. absurd (ground (arith, k, h));
      keeps = λ q h. h;
    },
  )
  | inl k ↦
      let (t, run, a) = expire-Expired u.proc s c in
      let (v, runs, f) = fire-Fired ts t a.calm (a.list ∙ ap (del_at 0) e ∙ first_gone u ts k) in
      (
        v,
        rw (k, ◌>>◌, run) runs,
        record {
          calm = f.calm;
          list = rw k f.list;
          runs = λ p h. elim (Bool-cases (p == u.proc)) [
            | inl q ↦
                let same : p ≡ u.proc = ground (arith, q) in
                ap (λ i. is_runnable (v.procs i).state) same ∙ f.keeps u.proc a.runs
            | inr q ↦ f.runs p (ground (arith, k, q, h))
          ];
          keeps = λ q h. f.keeps q (a.keeps q h);
        },
      )
]
