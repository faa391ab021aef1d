-- ===== src/Process/Table.antt =====
-- The process table of lab5/kern/process/proc.c with its lists, and `wakeup_proc` of
-- lab5/kern/schedule/sched.c. A process is named by a number, and the idle process by 0.
use nku_os.Base.{
  ℕ, ◌+◌, ◌-◌, ◌*◌, ◌/◌, ◌%◌, ◌^◌, Bool, false, not, ◌&&◌, Option, none, some, ltb, ◌==◌,
  if◌then◌else◌, List, [], ◌∷◌, update,
}
use nku_os.Base.Result.{Result, ok, ◌>>◌, assert}
use nku_os.Sched.Proc.{ProcState, proc_uninit, proc_runnable, is_runnable, is_zombie}
use nku_os.Process.Pid.{max_pid, PidState}

-- The fields of `struct proc_struct` that the table, the family and the waiting use. A pid is the
-- bit pattern of an `int`; `exiting` is the flag PF_EXITING.
pub record Task : Type 0 where
  pub state : ProcState
  pub pid : ℕ
  pub need_resched : Bool
  pub parent : Option ℕ
  pub cptr : Option ℕ
  pub yptr : Option ℕ
  pub optr : Option ℕ
  pub wait_state : ℕ
  pub exiting : Bool
  pub exit_code : ℕ

-- The static variables of the file. `allocated` are the processes that `kmalloc` gave out and that
-- no `kfree` took back.
pub record Table : Type 0 where
  pub tasks : ℕ → Task
  pub proc_list : List ℕ
  pub hash_list : ℕ → List ℕ
  pub nr_process : ℕ
  pub current : ℕ
  pub initproc : ℕ
  pub pids : PidState
  pub allocated : List ℕ

-- WT_CHILD
abbrev pub wt_child : ℕ
wt_child = 2 ^ 31 + 1

abbrev pub set_task : ℕ → Task → Table → Table
set_task p t s = record s { tasks = update s.tasks p t }

-- The values that `alloc_proc` stores; the memory keeps the `exit_code` that it has.
abbrev pub fresh_task : ℕ → Task
fresh_task code = record {
  state = proc_uninit;
  pid = 2 ^ 32 - 1;
  need_resched = false;
  parent = none;
  cptr = none;
  yptr = none;
  optr = none;
  wait_state = 0;
  exiting = false;
  exit_code = code;
}

-- `alloc_proc`, with what `kmalloc` gives.
unfoldable pub alloc_proc : Option ℕ → Table → Table
alloc_proc none s = s
alloc_proc (some p) s =
    set_task p (fresh_task (s.tasks p).exit_code) (record s { allocated = p ∷ s.allocated })

abbrev pub without : ℕ → List ℕ → List ℕ
without p [] = []
without p (q ∷ qs) = if q == p then qs else q ∷ without p qs

-- `kfree` of a process.
unfoldable pub free_proc : ℕ → Table → Table
free_proc p s = record s { allocated = without p s.allocated }

-- `hash32` of lab5/libs/hash.c with HASH_SHIFT bits.
unfoldable pub pid_hashfn : ℕ → ℕ
pid_hashfn pid = pid * 0x9e370001 % 2 ^ 32 / 2 ^ 22

abbrev pub set_bucket : ℕ → List ℕ → Table → Table
set_bucket h ps s = record s { hash_list = update s.hash_list h ps }

unfoldable pub hash_proc : ℕ → Table → Table
unfolding pid_hashfn
hash_proc p s = let h = pid_hashfn (s.tasks p).pid in set_bucket h (p ∷ s.hash_list h) s

-- `list_del` needs no bucket; the process is in the bucket of its pid.
unfoldable pub unhash_proc : ℕ → Table → Table
unfolding pid_hashfn
unhash_proc p s = let h = pid_hashfn (s.tasks p).pid in set_bucket h (without p (s.hash_list h)) s

unfoldable pub find_in : ℕ → List ℕ → (ℕ → Task) → Option ℕ
find_in pid [] t = none
find_in pid (p ∷ ps) t = if (t p).pid == pid then some p else find_in pid ps t

unfoldable pub find_proc : ℕ → Table → Option ℕ
unfolding find_in pid_hashfn
find_proc pid s =
    if ltb 0 pid && ltb pid max_pid
    then find_in pid (s.hash_list (pid_hashfn pid)) s.tasks
    else none

unfoldable pub wakeup_proc : ℕ → Table → Result Table (Unit {0})
wakeup_proc p = do
  λ s. assert (not (is_zombie (s.tasks p).state)) s
  λ s.
      if not (is_runnable (s.tasks p).state)
      then ok tt (set_task p (record (s.tasks p) { state = proc_runnable; wait_state = 0 }) s)
      else ok tt s
