-- ===== src/Sched/Stride/Pool.antt =====
-- The pool of the stride class as a priority queue (lab6/kern/schedule/default_sched.c on
-- lab8/libs/skew_heap.h).
use nku_os.Base.{
  ℕ, ◌+◌, ◌-◌, ◌%◌, ◌^◌, ◌<◌, ◌≤◌, ◌≡◌, refl, sym, ap, subst, fun_ext, Bool, true, false, Option,
  some, ltb, ◌==◌, if◌then◌else◌, Bool-cases, inl, inr, arith,
}
use nku_os.Libs.SkewHeap.{Entry, skew_heap_insert}
use nku_os.Libs.SkewHeap.Tree.{Tree, size, Out}
use nku_os.Libs.SkewHeap.Queue.{IsHeap, Inserted, skew_heap_insert-Inserted}
use nku_os.Sched.Stride.{
  StrideProc, StrideQueue, proc_stride_comp_f, stride_below, stride_enqueue, entered, with_pool,
  is_less, greater, same, less,
}

-- All strides lie less than 2^31 above the base, modulo 2^32.
pub record InWindow (base : ℕ) (procs : ℕ → StrideProc) : Type 0 where
  pub low : base < 2 ^ 32
  pub words : (p : ℕ) → (procs p).lab6_stride < 2 ^ 32
  pub near : (p : ℕ) → ((procs p).lab6_stride + 2 ^ 32 - base) % 2 ^ 32 < 2 ^ 31

abbrev offset : ℕ → (ℕ → StrideProc) → ℕ → ℕ
offset base procs p = ((procs p).lab6_stride + 2 ^ 32 - base) % 2 ^ 32

gap_less :
    (base a b : ℕ)
    → base < 2 ^ 32
    → a < 2 ^ 32
    → b < 2 ^ 32
    → (b + 2 ^ 32 - base) % 2 ^ 32 < 2 ^ 31
    → (a + 2 ^ 32 - base) % 2 ^ 32 < (b + 2 ^ 32 - base) % 2 ^ 32
    → 2 ^ 31 ≤ (a + 2 ^ 32 - b) % 2 ^ 32
gap_less base a b hbase ha hb near h = omega arith

gap_not :
    (base a b : ℕ)
    → base < 2 ^ 32
    → a < 2 ^ 32
    → b < 2 ^ 32
    → (a + 2 ^ 32 - base) % 2 ^ 32 < 2 ^ 31
    → (b + 2 ^ 32 - base) % 2 ^ 32 ≤ (a + 2 ^ 32 - base) % 2 ^ 32
    → (a + 2 ^ 32 - b) % 2 ^ 32 < 2 ^ 31
gap_not base a b hbase ha hb near h = omega arith

below_at :
    (procs : ℕ → StrideProc) (p q : ℕ)
    → 2 ^ 31 ≤ ((procs p).lab6_stride + 2 ^ 32 - (procs q).lab6_stride) % 2 ^ 32
    → stride_below procs p q ≡ true
unfolding stride_below proc_stride_comp_f
below_at procs p q h = ground (arith, h)

not_below_at :
    (procs : ℕ → StrideProc) (p q : ℕ)
    → ((procs p).lab6_stride + 2 ^ 32 - (procs q).lab6_stride) % 2 ^ 32 < 2 ^ 31
    → stride_below procs p q ≡ false
unfolding stride_below proc_stride_comp_f
not_below_at procs p q h =
    elim (Bool-cases (((procs p).lab6_stride + 2 ^ 32 - (procs q).lab6_stride) % 2 ^ 32 == 0)) [
      | inl e ↦ rw e refl
      | inr e ↦ ground (arith, e, h)
    ]

-- In a window the comparison is an order.
module _ (base : ℕ) (procs : ℕ → StrideProc) (w : InWindow base procs) where
  not_below : (p q : ℕ) → offset base procs q ≤ offset base procs p → stride_below procs p q ≡ false
  not_below p q h = not_below_at procs p q (
      gap_not base (procs p).lab6_stride (procs q).lab6_stride w.low (w.words p) (w.words q)
        (w.near p) h)

  is_below : (p q : ℕ) → offset base procs p < offset base procs q → stride_below procs p q ≡ true
  is_below p q h = below_at procs p q (
      gap_less base (procs p).lab6_stride (procs q).lab6_stride w.low (w.words p) (w.words q)
        (w.near q) h)

  below_before :
      (p q : ℕ) → stride_below procs p q ≡ true → offset base procs p ≤ offset base procs q
  below_before p q e = elim (Bool-cases (ltb (offset base procs q) (offset base procs p))) [
    | inl k ↦ absurd (ground (arith, e, not_below p q (ground (arith, k))))
    | inr k ↦ ground (arith, k)
  ]

  not_below_before :
      (p q : ℕ) → stride_below procs p q ≡ false → offset base procs q ≤ offset base procs p
  not_below_before p q e = elim (Bool-cases (ltb (offset base procs p) (offset base procs q))) [
    | inl k ↦ absurd (ground (arith, e, is_below p q (ground (arith, k))))
    | inr k ↦ ground (arith, k)
  ]

  pub stride_below_asym : (p q : ℕ) → stride_below procs p q ≡ true → stride_below procs q p ≡ false
  stride_below_asym p q e = not_below q p (below_before p q e)

  pub stride_below_trans :
      (p q r : ℕ)
      → stride_below procs q p ≡ false
      → stride_below procs r q ≡ false
      → stride_below procs r p ≡ false
  stride_below_trans p q r e k =
      not_below r p (omega (arith, not_below_before q p e, not_below_before r q k))

-- The comparison by the strides alone.
by_stride : (ℕ → ℕ) → ℕ → ℕ → Bool
by_stride strides p q =
    let c = (strides p + 2 ^ 32 - strides q) % 2 ^ 32 in
    is_less (if c == 0 then same else if ltb c (2 ^ 31) then greater else less)

-- The stores to time slices keep the comparison.
entered_below :
    (p : ℕ) (rq : StrideQueue) → stride_below (entered p rq).procs ≡ stride_below rq.procs
unfolding stride_below proc_stride_comp_f by_stride
entered_below p rq = ap by_stride (fun_ext (entered_stride p rq))
  where
    entered_stride :
        (p : ℕ) (rq : StrideQueue) (x : ℕ)
        → ((entered p rq).procs x).lab6_stride ≡ (rq.procs x).lab6_stride
    entered_stride p rq x = ground arith

entered_slice : (p : ℕ) (rq : StrideQueue) → ((entered p rq).procs p).time_slice ≤ rq.max_time_slice
entered_slice p rq = elim (Bool-cases (ltb rq.max_time_slice (rq.procs p).time_slice)) [
  | inl e ↦ ground (arith, e)
  | inr e ↦ ground (arith, e)
]

-- What an enqueue of `p` leaves, with a pool of the entries of `t` before.
pub record Enqueued (p : ℕ) (t : Tree) (rq u : StrideQueue) : Type 0 where
  pub pool : Inserted (stride_below u.procs) p t u.entries u.lab6_run_pool
  pub num : u.proc_num ≡ rq.proc_num + 1
  pub slice : (u.procs p).time_slice ≤ rq.max_time_slice

enqueue_run :
    (f p : ℕ) (o : Option ℕ) (g : ℕ → Entry) (rq : StrideQueue)
    → skew_heap_insert (stride_below rq.procs) f rq.lab6_run_pool p rq.entries ≡ some (o, g)
    → stride_enqueue f p rq ≡ some (record (entered p rq) { lab6_run_pool = o; entries = g })
unfolding stride_enqueue
enqueue_run f p o g rq e = ap (λ m. with_pool m (entered p rq)) e

-- While all strides lie less than 2^31 above a base, `stride_enqueue` of a process that is not in
-- the pool ends, with fuel for one process more than the pool and the new one have. The pool is then
-- a heap, by the comparison of strides, of the processes from before and the new one, which has a
-- time slice up to the maximum, and is counted.
pub stride_enqueue-Enqueued :
    (f base p : ℕ) (rq : StrideQueue) (t : Tree)
    → InWindow base rq.procs
    → IsHeap (stride_below rq.procs) rq.entries rq.lab6_run_pool t
    → Out p t
    → size t + 1 < f
    → (u : StrideQueue) × (stride_enqueue f p rq ≡ some u) × Enqueued p t rq u
stride_enqueue-Enqueued f base p rq t w h out fuel =
    let (o, g, run, new) =
      skew_heap_insert-Inserted (stride_below rq.procs) (stride_below_asym base rq.procs w)
        (stride_below_trans base rq.procs w) f p rq.lab6_run_pool rq.entries t h out fuel in
    (
      record (entered p rq) { lab6_run_pool = o; entries = g },
      enqueue_run f p o g rq run,
      record {
        pool = subst (λ b. Inserted b p t g o) (sym (entered_below p rq)) new;
        num = refl;
        slice = entered_slice p rq;
      },
    )
