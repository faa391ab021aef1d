-- ===== src/Process/Family.antt =====
-- The relation links of lab5/kern/process/proc.c: `set_links`, `remove_links`, and the loop of
-- `do_exit` that gives the children of a process to `initproc`.
use nku_os.Base.{
  ℕ, zero, suc, ◌+◌, ◌-◌, Bool, true, false, ◌&&◌, Option, none, some, ◌==◌, if◌then◌else◌, List,
  [], ◌∷◌, update,
}
use nku_os.Base.Result.{Result, ok, err, panic, ◌>>=◌, ◌>>◌, return, assert, modify}
use nku_os.Sched.Proc.{is_zombie}
use nku_os.Process.Table.{Task, Table, set_task, without, wt_child, wakeup_proc}
pub mod Siblings
pub mod Links
pub mod Adopt
pub mod GiveAway
pub mod Cut

-- The stores to one link, at a process that may be null.
abbrev pub set_yptr : Option ℕ → Option ℕ → (ℕ → Task) → ℕ → Task
set_yptr none y t = t
set_yptr (some p) y t = update t p (record (t p) { yptr = y })

abbrev pub set_optr : ℕ → Option ℕ → (ℕ → Task) → ℕ → Task
set_optr p o t = update t p (record (t p) { optr = o })

abbrev pub set_cptr : ℕ → Option ℕ → (ℕ → Task) → ℕ → Task
set_cptr p c t = update t p (record (t p) { cptr = c })

abbrev pub set_parent : ℕ → ℕ → (ℕ → Task) → ℕ → Task
set_parent p q t = update t p (record (t p) { parent = some q })

-- `set_links` below the list: `p` becomes the first child of `q`.
unfoldable pub link_child : ℕ → ℕ → (ℕ → Task) → ℕ → Task
link_child p q t =
    let bare = set_yptr (some p) none t in
    let older = set_optr p (bare q).cptr bare in
    set_cptr q (some p) (set_yptr (bare q).cptr (some p) older)

-- A parent that is null would be dereferenced.
unfoldable pub set_links : ℕ → Table → Result Table (Unit {0})
unfolding link_child
set_links p s = elim (s.tasks p).parent [
  | none ↦ panic
  | some q ↦ ok tt (record s {
    proc_list = p ∷ s.proc_list;
    tasks = link_child p q s.tasks;
    nr_process = s.nr_process + 1;
  })
]

-- `remove_links` below the list, of a child `p` of `q`.
unfoldable pub unlink_child : ℕ → ℕ → (ℕ → Task) → ℕ → Task
unlink_child p q t =
    let u = set_yptr (t p).optr (t p).yptr t in
    elim (u p).yptr [ none ↦ set_cptr q (u p).optr u | some y ↦ set_optr y (u p).optr u ]

unfoldable pub remove_links : ℕ → Table → Result Table (Unit {0})
unfolding unlink_child
remove_links p s = elim (s.tasks p).parent [
  | none ↦ panic
  | some q ↦ ok tt (record s {
    proc_list = without p s.proc_list;
    tasks = unlink_child p q s.tasks;
    nr_process = s.nr_process - 1;
  })
]

-- One turn of the loop: the child `c` of `p` becomes the first child of `q`.
unfoldable pub adopt : ℕ → ℕ → ℕ → (ℕ → Task) → ℕ → Task
adopt c p q t =
    let cut = set_cptr p (t c).optr t in
    let bare = set_yptr (some c) none cut in
    let older = set_optr c (bare q).cptr bare in
    let back = set_yptr (bare q).cptr (some c) older in set_cptr q (some c) (set_parent c q back)

-- `if (proc->state == PROC_ZOMBIE) if (initproc->wait_state == WT_CHILD) wakeup_proc(initproc)`
abbrev pub wake_init : ℕ → Table → Result Table (Unit {0})
unfolding wakeup_proc
wake_init c s =
    if is_zombie (s.tasks c).state && (s.tasks s.initproc).wait_state == wt_child
    then wakeup_proc s.initproc s
    else ok tt s

-- `while (current->cptr != NULL)`; `none` is out of fuel.
unfoldable pub give_away : ℕ → Table → Option (Result Table (Unit {0}))
unfolding adopt wakeup_proc
give_away zero s = none
give_away (suc f) s = elim (s.tasks s.current).cptr [
  | none ↦ some (ok tt s)
  | some c ↦ elim (wake_init c (record s { tasks = adopt c s.current s.initproc s.tasks })) [
    | ok a t ↦ give_away f t
    | err e t ↦ some (err e t)
    | panic ↦ some panic
  ]
]
