-- ===== src/Process/Life.antt =====
-- The life of a process: `do_fork`, `do_exit`, `do_wait`, `do_kill` and `do_yield` of
-- lab5/kern/process/proc.c. The memory of a process (kernel stack, page table, trap frame) is not
-- in the table: whether the calls that set it up succeed is an argument. `do_exit` and `do_wait`
-- are cut where they call `schedule`.
use nku_os.Base.{
  ℕ, zero, suc, ◌+◌, ◌/◌, ◌%◌, ◌^◌, Bool, true, false, not, ◌&&◌, ◌||◌, Option, none, some, ltb,
  leb, ◌==◌, if◌then◌else◌, List, [], ◌∷◌, map, update,
}
use nku_os.Base.Result.{Result, ok, err, panic, ◌>>=◌, ◌>>◌, return, assert, modify}
use nku_os.Sched.Proc.{proc_sleeping, proc_zombie, is_zombie, is_interrupted, idleproc}
use nku_os.Process.Pid.{PidState, get_pid}
use nku_os.Process.Table.{
  Task, Table, set_task, wt_child, alloc_proc, free_proc, hash_proc, unhash_proc, find_proc,
  wakeup_proc,
}
use nku_os.Process.Family.{set_links, remove_links, give_away}
pub mod Numbered
pub mod Exit
pub mod Fork
pub mod Wait

-- MAX_PROCESS
abbrev pub max_process : ℕ
max_process = 4096

abbrev pub e_bad_proc : ℕ
e_bad_proc = 2

abbrev pub e_inval : ℕ
e_inval = 3

abbrev pub e_no_mem : ℕ
e_no_mem = 4

abbrev pub e_no_free_proc : ℕ
e_no_free_proc = 5

abbrev pub e_killed : ℕ
e_killed = 9

abbrev pub pids_of : Table → List ℕ
pids_of s = map (λ p. (s.tasks p).pid) s.proc_list

-- `proc->pid = get_pid()`
abbrev pub with_pid : ℕ → PidState → Table → Table
with_pid p t s = set_task p (record (s.tasks p) { pid = t.last_pid }) (record s { pids = t })

-- From `hash_proc` to the end: the value is the new pid.
abbrev pub enter : ℕ → Table → Result Table ℕ
unfolding hash_proc set_links wakeup_proc
enter p = do modify (hash_proc p); set_links p; wakeup_proc p; λ s. ok (s.tasks p).pid s

abbrev pub numbered : ℕ → Option PidState → Table → Option (Result Table ℕ)
unfolding enter
numbered p none s = none
numbered p (some t) s = some (enter p (with_pid p t s))

-- From `proc->parent = current` on. `stack` and `memory` tell whether `setup_kstack` and `copy_mm`
-- succeed; the outer option is the fuel of `get_pid`.
abbrev pub fork_child : ℕ → Bool → Bool → ℕ → Table → Option (Result Table ℕ)
unfolding get_pid free_proc
fork_child f stack memory p s =
    let t = set_task p (record (s.tasks p) { parent = some s.current }) s in
    if not ((t.tasks t.current).wait_state == 0)
    then some panic
    else if not (stack && memory)
    then some (err e_no_mem (free_proc p t))
    else numbered p (get_pid f (pids_of t) t.pids) t

-- `first` and `second` are what the two calls of `alloc_proc` get. With none from the first, the
-- code goes on to `put_kstack` of a null pointer, and with none from the second it stores to one.
unfoldable pub do_fork : ℕ → Option ℕ → Option ℕ → Bool → Bool → Table → Option (Result Table ℕ)
unfolding alloc_proc get_pid free_proc
do_fork f first second stack memory s =
    let t = alloc_proc second (alloc_proc first s) in
    if leb max_process s.nr_process then some (err e_no_free_proc s) else elim first [
      | none ↦ some panic
      | some _ ↦ elim second [ none ↦ some panic | some p ↦ fork_child f stack memory p t ]
    ]

-- `if (proc->wait_state == WT_CHILD) wakeup_proc(proc)` for the parent, which is not null.
abbrev pub wake_parent : Option ℕ → Table → Result Table (Unit {0})
unfolding wakeup_proc
wake_parent none s = panic
wake_parent (some p) s = if (s.tasks p).wait_state == wt_child then wakeup_proc p s else ok tt s

abbrev pub after_wake : ℕ → Result Table (Unit {0}) → Option (Result Table (Unit {0}))
unfolding give_away
after_wake f (ok a t) = give_away f t
after_wake f (err e t) = some (err e t)
after_wake f panic = some panic

abbrev pub ended : ℕ → Table → Table
ended code s =
    set_task s.current (record (s.tasks s.current) { state = proc_zombie; exit_code = code }) s

-- `do_exit` up to its call of `schedule`, which does not come back.
unfoldable pub do_exit : ℕ → ℕ → Table → Option (Result Table (Unit {0}))
unfolding give_away wakeup_proc
do_exit f code s =
    let t = ended code s in
    if s.current == idleproc || s.current == s.initproc
    then some panic
    else after_wake f (wake_parent (t.tasks t.current).parent t)

-- What one turn of `do_wait` comes to: a child that has ended, a sleep until `schedule` comes back,
-- or no child.
pub data WaitTurn : Type 0 where
  zombie_child : ℕ → WaitTurn
  sleeps no_child : WaitTurn

-- The loop over the children; `haskid` is whether there was one. `none` is out of fuel.
unfoldable pub find_zombie : ℕ → Bool → Option ℕ → (ℕ → Task) → Option WaitTurn
find_zombie zero haskid o t = none
find_zombie (suc f) haskid none t = some (if haskid then sleeps else no_child)
find_zombie (suc f) haskid (some p) t =
    let rest = find_zombie f true (t p).optr t in
    if is_zombie (t p).state then some (zombie_child p) else rest

abbrev pub is_parent : Option ℕ → ℕ → Bool
is_parent none p = false
is_parent (some q) p = q == p

-- The branch for a given pid.
abbrev pub wait_for : Option ℕ → Table → WaitTurn
wait_for none s = no_child
wait_for (some p) s =
    if is_parent (s.tasks p).parent s.current
    then (if is_zombie (s.tasks p).state then zombie_child p else sleeps)
    else no_child

unfoldable pub look : ℕ → ℕ → Table → Option WaitTurn
unfolding find_zombie find_proc
look f pid s =
    if not (pid == 0)
    then some (wait_for (find_proc pid s) s)
    else find_zombie f false (s.tasks s.current).cptr s.tasks

-- The label `found`: the value is the exit code.
unfoldable pub reap : ℕ → Table → Result Table (Option ℕ)
unfolding unhash_proc remove_links free_proc
reap p = do
  λ s. assert (not (p == idleproc || p == s.initproc)) s
  λ s.
      let code = (s.tasks p).exit_code in
      (modify (unhash_proc p) >> (remove_links p >> (modify (free_proc p) >> return (some code)))) s

abbrev pub turned : WaitTurn → Table → Result Table (Option ℕ)
unfolding reap
turned (zombie_child p) s = reap p s
turned sleeps s = ok none (
    set_task s.current (record (s.tasks s.current) { state = proc_sleeping; wait_state = wt_child })
      s)
turned no_child s = err e_bad_proc s

-- One turn of `do_wait`: `store_ok` is whether `code_store` is null or writable. The value `none`
-- is the call of `schedule`, after which the next turn follows unless the process was killed.
unfoldable pub do_wait : ℕ → Bool → ℕ → Table → Option (Result Table (Option ℕ))
unfolding look reap
do_wait f store_ok pid s =
    if not store_ok
    then some (err e_inval s)
    else elim (look f pid s) [ none ↦ none | some w ↦ some (turned w s) ]

abbrev pub kill : Option ℕ → Table → Result Table (Unit {0})
unfolding wakeup_proc
kill none s = err e_inval s
kill (some p) s =
    let t = set_task p (record (s.tasks p) { exiting = true }) s in
    if (s.tasks p).exiting
    then err e_killed s
    else if is_interrupted (s.tasks p).wait_state
    then wakeup_proc p t
    else ok tt t

unfoldable pub do_kill : ℕ → Table → Result Table (Unit {0})
unfolding find_proc wakeup_proc
do_kill pid s = kill (find_proc pid s) s

unfoldable pub do_yield : Table → Table
do_yield s = set_task s.current (record (s.tasks s.current) { need_resched = true }) s
