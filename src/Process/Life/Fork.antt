-- ===== src/Process/Life/Fork.antt =====
-- What `do_fork` of lab5/kern/process/proc.c makes.
pub mod Enter
pub mod Born
use nku_os.Base.{
  ℕ, zero, suc, ◌+◌, ◌-◌, ◌*◌, ◌/◌, ◌%◌, ◌^◌, ◌<◌, ◌≤◌, ◌≡◌, ◌≢◌, refl, sym, ap, ◌∙◌, subst, Bool,
  true, false, not, ◌&&◌, Option, none, some, List, [], ◌∷◌, map, ◌==◌, ltb, leb, if◌then◌else◌,
  length, update, Bool-cases, inl, inr, arith,
}
use nku_os.Base.Result.{Result, ok, err, panic, ◌>>◌, ◌>>=◌, >>-ok, modify, assert}
use nku_os.Libs.ListOrder.{Off, Distinct}
use nku_os.Sched.Proc.{is_zombie, is_runnable, proc_runnable, proc_uninit}
use nku_os.Process.Pid.{max_pid, PidState, get_pid}
use nku_os.Process.Pid.Fresh.{IsSafe, get_pid_lem}
use nku_os.Process.Table.{
  Task, Table, set_task, fresh_task, alloc_proc, hash_proc, pid_hashfn, find_in, find_proc,
  wakeup_proc,
}
use nku_os.Process.Family.{set_yptr, set_optr, link_child, set_links}
use nku_os.Process.Family.Siblings.{Siblings, Children, Siblings-eq, Siblings-update}
use nku_os.Process.Family.Links.{awoken, awoken-SameLinks, Children-SameLinks}
use nku_os.Process.Family.Adopt.{link_child-Children}
use nku_os.Process.Life.{max_process, pids_of, with_pid, enter, numbered, fork_child, do_fork}
use nku_os.Process.Life.Numbered.{Numbered}
use nku_os.Process.Life.Fork.Enter.{map_same, enter_run, hashed_in}
use nku_os.Process.Life.Fork.Born.{
  born, drawn, done, Unlisted, Forked, done_own, done_pids, done_found, done_parent, done-Children,
  drawn_state, drawn_own,
}

born_pids :
    (a p : ℕ) (ys : List ℕ) (s : Table) → Unlisted a p ys s → pids_of (born a p s) ≡ pids_of s
unfolding born
born_pids a p ys s new =
    map_same (λ x. ((born a p s).tasks x).pid) (λ x. (s.tasks x).pid) a p s.proc_list new.first
      new.second λ x na np. ground (arith, na, np)

born_wait :
    (a p : ℕ) (ys : List ℕ) (s : Table)
    → Unlisted a p ys s
    → ((born a p s).tasks s.current).wait_state ≡ (s.tasks s.current).wait_state
unfolding born
born_wait a p ys s new = ground (arith, new.first_out.0, new.second_out.0)

numbered_run :
    (f a p : ℕ) (t : PidState) (ys : List ℕ) (s : Table)
    → Unlisted a p ys s
    → (s.tasks s.current).wait_state ≡ 0
    → s.nr_process < max_process
    → get_pid f (pids_of s) s.pids ≡ some t
    → do_fork f (some a) (some p) true true s ≡ some (enter p (drawn a p t s))
unfolding do_fork drawn numbered
numbered_run f a p t ys s new idle room e =
    let space : leb max_process s.nr_process ≡ false = ground (arith, room) in
    let calm : not (((born a p s).tasks s.current).wait_state == 0) ≡ false =
      ap (λ w. not (w == 0)) (born_wait a p ys s new ∙ idle) in
    let pid : get_pid f (pids_of (born a p s)) s.pids ≡ some t =
      ap (λ ns. get_pid f ns s.pids) (born_pids a p ys s new) ∙ e in
    rw (space, do_fork) (rw (calm, fork_child) (rw (pid, fork_child) refl))

done-Forked :
    (a p : ℕ) (t : PidState) (ys : List ℕ) (s : Table)
    → Unlisted a p ys s
    → Numbered s
    → Children s.tasks s.current ys
    → 0 < t.last_pid
    → t.last_pid < max_pid
    → Off t.last_pid (pids_of s)
    → IsSafe (t.last_pid ∷ pids_of s) t
    → Forked a p t.last_pid ys s (done a p t s)
unfolding done
done-Forked a p t ys s new num h low high off safe = record {
  positive = low;
  bounded = high;
  unused = off;
  own = done_own a p t s;
  runnable = ground arith;
  parent = (done-Children a p t ys s new h).links.1;
  children = done-Children a p t ys s new h;
  by_pid = done_found a p t s low high;
  listed = refl;
  numbers = record {
    count = omega (arith, num.count);
    safe = subst (λ ns. IsSafe ns t) (sym (done_pids a p t ys s new)) safe;
  };
  allocated = refl;
}

length_pids : (s : Table) → length (pids_of s) ≡ length s.proc_list
length_pids s = length_map (λ p. (s.tasks p).pid) s.proc_list
  where
    length_map : (f : ℕ → ℕ) (xs : List ℕ) → length (map f xs) ≡ length xs
    length_map f [] = refl
    length_map f (x ∷ xs) = ap suc (length_map f xs)

-- With room for a process, two new structures and all that the child needs, `do_fork` of a process
-- that does not wait returns a pid from 1 up to MAX_PID - 1 that no process had. The child has it,
-- `find_proc` finds the child by it, the child is runnable and the first child of the current
-- process, and the numbers of processes and pids are right again. Of the two structures that are
-- allocated, the list of processes gains only the second.
pub do_fork-Forked :
    (f a p : ℕ) (ys : List ℕ) (s : Table)
    → Numbered s
    → Unlisted a p ys s
    → Children s.tasks s.current ys
    → (s.tasks s.current).wait_state ≡ 0
    → s.nr_process < max_process
    → 2 * max_pid ≤ f
    → (pid : ℕ) × (u : Table) × (do_fork f (some a) (some p) true true s ≡ some (ok pid u))
      × Forked a p pid ys s u
unfolding done
do_fork-Forked f a p ys s num new h idle room fuel =
    let few : length (pids_of s) < max_pid - 1 = omega (arith, length_pids s, num.count, room) in
    let (t, pid, low, high, off, safe) = get_pid_lem f (pids_of s) s.pids num.safe few fuel in
    let run = numbered_run f a p t ys s new idle room pid in
    let entry = enter_run p s.current (drawn a p t s) (done_parent a p t s) (drawn_state a p t s) in
    (
      t.last_pid,
      done a p t s,
      run ∙ ap some (entry ∙ ap (λ n. ok n (done a p t s)) (drawn_own a p t s)),
      done-Forked a p t ys s new num h low high off safe,
    )
