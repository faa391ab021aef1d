-- ===== src/Sched/Stride/Starve.antt =====
-- A process of priority 1 under the stride class (lab6/kern/schedule/default_sched.c).
use nku_os.Base.{
  ℕ, ◌+◌, ◌-◌, ◌%◌, ◌^◌, ◌<◌, ◌≤◌, ◌≡◌, ◌≢◌, refl, sym, ap, ◌∙◌, subst, true, none, some, update,
  arith,
}
use nku_os.Sched.Stride.{
  StrideProc, StrideQueue, proc_stride_comp_f, stride_below, stride_pick_next, pass, passed_on,
}

-- Adding 2 ^ 32 - 1 takes one away.
wrap_back :
    (a b : ℕ)
    → a < 2 ^ 32
    → b < 2 ^ 32
    → (b + 2 ^ 32 - a) % 2 ^ 32 < 2 ^ 31
    → 2 ^ 31 ≤ ((a + (2 ^ 32 - 1)) % 2 ^ 32 + 2 ^ 32 - b) % 2 ^ 32
wrap_back a b ha hb h = omega arith

wrap_one : (a : ℕ) → a < 2 ^ 32 → ((a + (2 ^ 32 - 1)) % 2 ^ 32 + 1) % 2 ^ 32 ≡ a
wrap_one a h = omega arith

less_below :
    (procs : ℕ → StrideProc) (p q : ℕ)
    → 2 ^ 31 ≤ ((procs p).lab6_stride + 2 ^ 32 - (procs q).lab6_stride) % 2 ^ 32
    → stride_below procs p q ≡ true
unfolding stride_below proc_stride_comp_f
less_below procs p q h = ground (arith, h)

-- When a process of priority 1 is picked, and another process is not before it and less than 2^31
-- ahead of it, then the stride of the picked process goes down by 1, modulo 2^32, and the
-- comparison puts it before the other process again.
pub stride_pick_next-stride_below :
    (by_zero p q : ℕ) (rq : StrideQueue)
    → rq.lab6_run_pool ≡ some p
    → (rq.procs p).lab6_priority ≡ 1
    → p ≢ q
    → (rq.procs p).lab6_stride < 2 ^ 32
    → (rq.procs q).lab6_stride < 2 ^ 32
    → ((rq.procs q).lab6_stride + 2 ^ 32 - (rq.procs p).lab6_stride) % 2 ^ 32 < 2 ^ 31
    → (u : StrideQueue) × (stride_pick_next by_zero rq ≡ (some p, u))
      × (((u.procs p).lab6_stride + 1) % 2 ^ 32 ≡ (rq.procs p).lab6_stride)
      × (stride_below u.procs p q ≡ true)
unfolding stride_pick_next
stride_pick_next-stride_below by_zero p q rq pool one ne hp hq ahead =
    let a = (rq.procs p).lab6_stride in
    let b = (rq.procs q).lab6_stride in
    let step = pass by_zero (rq.procs p).lab6_priority in
    let v = record (rq.procs p) { lab6_stride = (a + step) % 2 ^ 32 } in
    let u = passed_on by_zero p rq in
    let full : step ≡ 2 ^ 32 - 1 = subst (λ n. pass by_zero n ≡ 2 ^ 32 - 1) (sym one) refl in
    let mine : (u.procs p).lab6_stride ≡ (a + (2 ^ 32 - 1)) % 2 ^ 32 =
      update_own rq.procs p v ∙ ap (λ n. (a + n) % 2 ^ 32) full in
    let other : (u.procs q).lab6_stride ≡ b = update_other rq.procs p q v ne in
    let gap : 2 ^ 31 ≤ ((u.procs p).lab6_stride + 2 ^ 32 - (u.procs q).lab6_stride) % 2 ^ 32 =
      subst (λ m. 2 ^ 31 ≤ ((u.procs p).lab6_stride + 2 ^ 32 - m) % 2 ^ 32) (sym other)
        (subst (λ n. 2 ^ 31 ≤ (n + 2 ^ 32 - b) % 2 ^ 32) (sym mine) (wrap_back a b hp hq ahead)) in
    (
      u,
      ap (λ o. elim o [ none ↦ (none, rq) | some p ↦ (some p, passed_on by_zero p rq) ]) pool,
      subst (λ n. (n + 1) % 2 ^ 32 ≡ a) (sym mine) (wrap_one a hp),
      less_below u.procs p q gap,
    )
  where
    update_own :
        (procs : ℕ → StrideProc) (p : ℕ) (v : StrideProc)
        → (update procs p v p).lab6_stride ≡ v.lab6_stride
    update_own procs p v = ground arith

    update_other :
        (procs : ℕ → StrideProc) (p q : ℕ) (v : StrideProc)
        → p ≢ q
        → (update procs p v q).lab6_stride ≡ (procs q).lab6_stride
    update_other procs p q v ne = ground (arith, ne)
