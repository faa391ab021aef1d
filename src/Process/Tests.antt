-- ===== src/Process/Tests.antt =====
-- The process table at concrete inputs.
use nku_os.Base.{ℕ, ◌<◌, ◌≡◌, refl, inl, true, some, [], ◌∷◌, update, arith}
use nku_os.Base.Result.{ok}
use nku_os.Libs.ListOrder.{Off}
use nku_os.Sched.Proc.{proc_runnable, proc_sleeping, proc_zombie}
use nku_os.Process.Pid.{max_pid, PidState, get_pid}
use nku_os.Process.Pid.Fresh.{IsSafe, get_pid_lem}
use nku_os.Process.Table.{Task, Table, wt_child, fresh_task, pid_hashfn}
use nku_os.Process.Family.GiveAway.{Leaves}
use nku_os.Process.Life.{do_fork, do_exit, do_wait}
use nku_os.Process.Life.Numbered.{Numbered}
use nku_os.Process.Life.Exit.{Exited, do_exit-Exited}
use nku_os.Process.Life.Fork.Born.{Unlisted, Forked}
use nku_os.Process.Life.Fork.{do_fork-Forked}
use nku_os.Process.Life.Wait.{Reaped, do_wait-Reaped}

abbrev two_pids : PidState
two_pids = record { next_safe = 8192; last_pid = 2 }

two_pids-IsSafe : IsSafe (2 ∷ 1 ∷ []) two_pids
two_pids-IsSafe = record { bound = omega arith; gap = (inl (omega arith), (inl (omega arith), tt)) }

get_pid_lem_example :
    (t : PidState) × (get_pid 20000 (2 ∷ 1 ∷ []) two_pids ≡ some t)
    × (0 < t.last_pid)
    × (t.last_pid < max_pid)
    × Off t.last_pid (2 ∷ 1 ∷ [])
    × IsSafe (t.last_pid ∷ 2 ∷ 1 ∷ []) t
get_pid_lem_example =
    get_pid_lem 20000 (2 ∷ 1 ∷ []) two_pids two_pids-IsSafe (omega arith) (omega arith)

-- `idleproc` is process 0, which is in no list.
abbrev idle_task : Task
idle_task = record (fresh_task 0) { state = proc_runnable; pid = 0; need_resched = true }

-- The table when `proc_init` forks `initproc`, with the first values of the variables of `get_pid`.
abbrev boot : Table
boot = record {
  tasks = update (λ p. fresh_task 0) 0 idle_task;
  proc_list = [];
  hash_list = λ h. [];
  nr_process = 1;
  current = 0;
  initproc = 0;
  pids = record { next_safe = max_pid; last_pid = max_pid };
  allocated = 0 ∷ [];
}

boot-Numbered : Numbered boot
boot-Numbered = record { count = refl; safe = record { bound = omega arith; gap = tt } }

new_structures : Unlisted 3 4 [] boot
new_structures = record {
  first = tt;
  second = tt;
  first_out = ((λ e. omega (arith, e)), tt);
  second_out = ((λ e. omega (arith, e)), tt);
}

do_fork-Forked_example :
    (pid : ℕ) × (u : Table) × (do_fork 20000 (some 3) (some 4) true true boot ≡ some (ok pid u))
    × Forked 3 4 pid [] boot u
do_fork-Forked_example =
    do_fork-Forked 20000 3 4 [] boot boot-Numbered new_structures
      (record { links = refl; distinct = (tt, tt) }) refl (omega arith) (omega arith)

-- Process 1 is `initproc`, waits for a child and has the child 2, which runs.
abbrev one_child : ℕ → Task
one_child =
    update
      (update (update (λ p. fresh_task 0) 0 (record idle_task { cptr = some 1 })) 1
        (record (fresh_task 0) {
          state = proc_sleeping;
          pid = 1;
          parent = some 0;
          wait_state = wt_child;
          cptr = some 2;
        }))
      2 (record (fresh_task 0) { state = proc_runnable; pid = 2; parent = some 1 })

-- Process 2 has the child 3, which has ended, and `initproc` waits for a child.
abbrev three_tasks : ℕ → Task
three_tasks =
    update
      (update one_child 2
        (record (fresh_task 0) { state = proc_runnable; pid = 2; parent = some 1; cptr = some 3 }))
      3 (record (fresh_task 0) { state = proc_zombie; pid = 3; parent = some 2; exit_code = 7 })

-- Each fork has left a structure behind: 5, 6 and 7.
abbrev grandchild : Table
grandchild = record {
  tasks = three_tasks;
  proc_list = 3 ∷ 2 ∷ 1 ∷ [];
  hash_list =
      update (update (update (λ h. []) (pid_hashfn 1) (1 ∷ [])) (pid_hashfn 2) (2 ∷ []))
        (pid_hashfn 3) (3 ∷ []);
  nr_process = 4;
  current = 2;
  initproc = 1;
  pids = record { next_safe = 8192; last_pid = 3 };
  allocated = 3 ∷ 7 ∷ 2 ∷ 6 ∷ 1 ∷ 5 ∷ 0 ∷ [];
}

grandchild-Leaves : Leaves 2 1 (3 ∷ []) (2 ∷ []) grandchild
grandchild-Leaves = record {
  current = refl;
  initproc = refl;
  differ = λ e. omega (arith, e);
  own = (refl, refl);
  others = record {
    links = (refl, refl, refl, refl);
    distinct = (((λ e. omega (arith, e)), tt), (tt, tt));
  };
  distinct = (((λ e. omega (arith, e)), tt), (tt, tt));
  init_out = ((λ e. omega (arith, e)), tt);
  apart = (((λ e. omega (arith, e)), tt), tt);
  alive = refl;
}

do_exit-Exited_example :
    (u : Table) × (do_exit 2 5 grandchild ≡ some (ok tt u))
    × Exited 2 1 1 5 (3 ∷ []) (2 ∷ []) grandchild u
do_exit-Exited_example =
    do_exit-Exited 2 5 2 1 1 (3 ∷ []) (2 ∷ []) grandchild grandchild-Leaves (λ e. omega (arith, e))
      refl (λ e. omega (arith, e)) refl (omega arith)

grandchild-Numbered : Numbered grandchild
grandchild-Numbered = record {
  count = refl;
  safe = record {
    bound = omega arith;
    gap = (inl (omega arith), (inl (omega arith), (inl (omega arith), tt)));
  };
}

do_wait-Reaped_example :
    (u : Table) × (do_wait 2 true 0 grandchild ≡ some (ok (some 7) u)) × Reaped 3 [] [] grandchild u
do_wait-Reaped_example =
    do_wait-Reaped 2 3 [] [] grandchild
      (record {
        links = (refl, refl, refl, refl);
        distinct = (((λ e. omega (arith, e)), tt), (tt, tt));
      })
      tt refl (λ e. omega (arith, e)) (λ e. omega (arith, e)) grandchild-Numbered
      (λ out. out.0 refl) (omega arith)
