-- ===== src/Sched/Stride/Next.antt =====
-- The process that the stride class runs next (lab6/kern/schedule/default_sched.c).
use nku_os.Base.{
  ℕ, ◌+◌, ◌-◌, ◌%◌, ◌^◌, ◌<◌, ◌≡◌, ◌≢◌, refl, ap, ap₂, ◌∙◌, Bool, false, Option, none, some, ltb,
  ◌==◌, if◌then◌else◌, update, arith,
}
use nku_os.Libs.SkewHeap.{Entry, skew_heap_remove}
use nku_os.Libs.SkewHeap.Tree.{
  Tree, leaf, fork, size, count, count-merged, AllAt, AllAt-both, Out, Ordered, merged,
  merged-AllAt,
}
use nku_os.Libs.SkewHeap.Queue.{IsHeap, remove_root-IsHeap}
use nku_os.Sched.Stride.{
  StrideProc, StrideQueue, stride_below, proc_stride_comp_f, stride_pick_next, stride_dequeue,
  passed_on, with_pool, is_less, greater, same, less,
}
use nku_os.Sched.Stride.Pool.{InWindow, stride_below_asym, stride_below_trans}

-- Comparisons that agree away from an entry order the same trees without it.
Ordered-same :
    (below above : ℕ → ℕ → Bool) (p : ℕ) (t : Tree)
    → ((x y : ℕ) → p ≢ x → p ≢ y → above x y ≡ below x y)
    → Out p t
    → Ordered below t
    → Ordered above t
Ordered-same below above p leaf agree out h = tt
Ordered-same below above p (fork l x r) agree out h = (
  AllAt-both l (λ y ne e. agree y x ne out.0 ∙ e) out.1 h.0,
  AllAt-both r (λ y ne e. agree y x ne out.0 ∙ e) out.2 h.1,
  Ordered-same below above p l agree out.1 h.2,
  Ordered-same below above p r agree out.2 h.3,
)

-- The comparison of two strides.
stride_less : ℕ → ℕ → Bool
stride_less a b =
    let c = (a + 2 ^ 32 - b) % 2 ^ 32 in
    is_less (if c == 0 then same else if ltb c (2 ^ 31) then greater else less)

passed_below :
    (by_zero p : ℕ) (rq : StrideQueue) (x y : ℕ)
    → p ≢ x
    → p ≢ y
    → stride_below (passed_on by_zero p rq).procs x y ≡ stride_below rq.procs x y
unfolding stride_below proc_stride_comp_f stride_less
passed_below by_zero p rq x y nx ny =
    let u = (passed_on by_zero p rq).procs in
    let at_x : u x ≡ rq.procs x = update_other rq.procs p x _ nx in
    let at_y : u y ≡ rq.procs y = update_other rq.procs p y _ ny in
    ap₂ stride_less (ap (λ v. v.lab6_stride) at_x) (ap (λ v. v.lab6_stride) at_y)
  where
    update_other :
        (procs : ℕ → StrideProc) (p q : ℕ) (v : StrideProc) → p ≢ q → update procs p v q ≡ procs q
    update_other procs p q v ne = ground (arith, ne)

-- What is left when the process `p` was picked and taken out of a pool of the entries of `t`.
pub record Next (p : ℕ) (t : Tree) (rq v : StrideQueue) : Type 0 where
  pub tree : Tree
  pub heap : IsHeap (stride_below v.procs) v.entries v.lab6_run_pool tree
  pub entries : (k : ℕ) → count k tree + (if k == p then 1 else 0) ≡ count k t
  pub least : AllAt (λ y. stride_below rq.procs y p ≡ false) tree
  pub num : v.proc_num ≡ rq.proc_num - 1

dequeue_run :
    (f p : ℕ) (o : Option ℕ) (g : ℕ → Entry) (rq : StrideQueue)
    → skew_heap_remove (stride_below rq.procs) f rq.lab6_run_pool p rq.entries ≡ some (o, g)
    → stride_dequeue f p rq
      ≡ some (record rq { proc_num = rq.proc_num - 1; lab6_run_pool = o; entries = g })
unfolding stride_dequeue
dequeue_run f p o g rq e = ap (λ m. with_pool m (record rq { proc_num = rq.proc_num - 1 })) e

-- From a pool that is a heap by the comparison of strides, `stride_pick_next` picks a process that
-- no other of the pool is below of, and, when all strides then lie less than 2^31 above a base,
-- `stride_dequeue` of it ends, with fuel above the number of processes, in a pool that is a heap of
-- the others, and counts it out.
pub stride_pick_next-Next :
    (f base by_zero p : ℕ) (rq : StrideQueue) (l r : Tree)
    → rq.lab6_run_pool ≡ some p
    → IsHeap (stride_below rq.procs) rq.entries (some p) (fork l p r)
    → InWindow base (passed_on by_zero p rq).procs
    → size (fork l p r) < f
    → (u : StrideQueue) × (v : StrideQueue) × (stride_pick_next by_zero rq ≡ (some p, u))
      × (stride_dequeue f p u ≡ some v)
      × Next p (fork l p r) rq v
unfolding stride_pick_next count
stride_pick_next-Next f base by_zero p rq l r pool h w fuel =
    let u = passed_on by_zero p rq in
    let after = stride_below u.procs in
    let agree = passed_below by_zero p rq in
    let (o, g, run, heap) =
      remove_root-IsHeap after (stride_below_asym base u.procs w)
        (stride_below_trans base u.procs w) f p u.lab6_run_pool u.entries l r h.shape h.single
        (Ordered-same (stride_below rq.procs) after p l agree h.single.0 h.ordered.2)
        (Ordered-same (stride_below rq.procs) after p r agree h.single.1 h.ordered.3) fuel in
    (
      u,
      record u { proc_num = u.proc_num - 1; lab6_run_pool = o; entries = g },
      ap (λ o. elim o [ none ↦ (none, rq) | some p ↦ (some p, passed_on by_zero p rq) ]) pool,
      dequeue_run f p o g u run,
      record {
        tree = merged after l r;
        heap = heap;
        entries = λ k. omega (arith, count-merged after k l r);
        least = merged-AllAt after _ l r h.ordered.0 h.ordered.1;
        num = refl;
      },
    )
