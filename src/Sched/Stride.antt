-- ===== src/Sched/Stride.antt =====
-- The stride class of lab6/kern/schedule/default_sched.c, on the skew heap of the kernel library.
-- An entry of the pool has the number of its process. A call on the pool takes fuel, and `none` is
-- out of fuel.
use nku_os.Base.{
  ℕ, zero, suc, ◌+◌, ◌-◌, ◌/◌, ◌%◌, ◌^◌, Bool, true, false, ◌||◌, Option, none, some, ltb, ◌==◌,
  if◌then◌else◌, update,
}
use nku_os.Libs.SkewHeap.{Entry, skew_heap_insert, skew_heap_remove}
pub mod Starve
pub mod Pool
pub mod Next

pub record StrideProc : Type 0 where
  pub lab6_stride : ℕ
  pub lab6_priority : ℕ
  pub time_slice : ℕ
  pub need_resched : Bool

-- `run_list` is not used by this class.
pub record StrideQueue : Type 0 where
  pub procs : ℕ → StrideProc
  pub entries : ℕ → Entry
  pub lab6_run_pool : Option ℕ
  pub proc_num : ℕ
  pub max_time_slice : ℕ

abbrev pub big_stride : ℕ
big_stride = 2 ^ 32 - 1

-- The values 1, 0 and -1 of the comparison function.
pub data Comparison : Type 0 where
  greater same less : Comparison

-- The difference of two `uint32_t` as an `int32_t`.
unfoldable pub proc_stride_comp_f : (ℕ → StrideProc) → ℕ → ℕ → Comparison
proc_stride_comp_f procs p q =
    let c = ((procs p).lab6_stride + 2 ^ 32 - (procs q).lab6_stride) % 2 ^ 32 in
    if c == 0 then same else if ltb c (2 ^ 31) then greater else less

abbrev pub is_less : Comparison → Bool
is_less greater = false
is_less same = false
is_less less = true

-- `comp(a, b) == -1`
unfoldable pub stride_below : (ℕ → StrideProc) → ℕ → ℕ → Bool
unfolding proc_stride_comp_f
stride_below procs p q = is_less (proc_stride_comp_f procs p q)

unfoldable pub stride_init : StrideQueue → StrideQueue
stride_init rq = record rq { lab6_run_pool = none; proc_num = 0 }

abbrev pub with_pool : Option (Option ℕ × (ℕ → Entry)) → StrideQueue → Option StrideQueue
with_pool none rq = none
with_pool (some (pool, entries)) rq = some (record rq { lab6_run_pool = pool; entries = entries })

-- The stores behind the insertion.
abbrev pub entered : ℕ → StrideQueue → StrideQueue
entered p rq =
    let slice = (rq.procs p).time_slice in
    let full = slice == 0 || ltb rq.max_time_slice slice in
    record rq {
      procs =
          update rq.procs p
            (record (rq.procs p) { time_slice = if full then rq.max_time_slice else slice });
      proc_num = rq.proc_num + 1;
    }

unfoldable pub stride_enqueue : ℕ → ℕ → StrideQueue → Option StrideQueue
unfolding skew_heap_insert stride_below
stride_enqueue f p rq =
    with_pool (skew_heap_insert (stride_below rq.procs) f rq.lab6_run_pool p rq.entries)
      (entered p rq)

unfoldable pub stride_dequeue : ℕ → ℕ → StrideQueue → Option StrideQueue
unfolding skew_heap_remove stride_below
stride_dequeue f p rq =
    with_pool (skew_heap_remove (stride_below rq.procs) f rq.lab6_run_pool p rq.entries)
      (record rq { proc_num = rq.proc_num - 1 })

unfoldable pub stride_proc_tick : ℕ → StrideQueue → StrideQueue
stride_proc_tick p rq =
    let slice = (rq.procs p).time_slice in
    let left = if ltb 0 slice then slice - 1 else slice in
    record rq {
      procs = update rq.procs p (record (rq.procs p) {
        time_slice = left;
        need_resched = if left == 0 then true else (rq.procs p).need_resched;
      });
    }

-- `by_zero` is what a division by 0 gives, which C leaves open.
module _ (by_zero : ℕ) where
  abbrev pub pass : ℕ → ℕ
  pass priority = if priority == 0 then by_zero else big_stride / priority

  -- The branch `skew != NULL`.
  abbrev pub passed_on : ℕ → StrideQueue → StrideQueue
  passed_on p rq =
      let next = (rq.procs p).lab6_stride + pass (rq.procs p).lab6_priority in
      record rq { procs = update rq.procs p (record (rq.procs p) { lab6_stride = next % 2 ^ 32 }) }

  -- The value is NULL or the process.
  unfoldable pub stride_pick_next : StrideQueue → Option ℕ × StrideQueue
  stride_pick_next rq = elim rq.lab6_run_pool [
    | none ↦ (none, rq)
    | some p ↦ (some p, passed_on p rq)
  ]
