-- ===== src/Process/Life/Fork/Born.antt =====
-- The process that `do_fork` of lab5/kern/process/proc.c sets up, up to its entry.
use nku_os.Base.{ℕ, ◌<◌, ◌≡◌, ◌≢◌, ap, ◌∙◌, subst, true, ◌&&◌, some, List, ◌∷◌, ltb, update, arith}
use nku_os.Libs.ListOrder.{Off}
use nku_os.Sched.Proc.{proc_runnable, proc_uninit}
use nku_os.Process.Pid.{max_pid, PidState}
use nku_os.Process.Table.{Task, Table, set_task, alloc_proc, pid_hashfn, find_in, find_proc}
use nku_os.Process.Family.Siblings.{Children}
use nku_os.Process.Family.Links.{awoken, awoken-SameLinks, Children-SameLinks}
use nku_os.Process.Family.Adopt.{link_child-Children}
use nku_os.Process.Life.{pids_of, with_pid}
use nku_os.Process.Life.Numbered.{Numbered}
use nku_os.Process.Life.Fork.Enter.{Children-update, link_child-SameBody, map_same, hashed_in}

-- The table when `get_pid` is called, with `a` from the first `alloc_proc` and `p` from the second.
unfoldable pub born : ℕ → ℕ → Table → Table
unfolding alloc_proc
born a p s =
    let u = alloc_proc (some p) (alloc_proc (some a) s) in
    set_task p (record (u.tasks p) { parent = some s.current }) u

-- The table after the call.
unfoldable pub drawn : ℕ → ℕ → PidState → Table → Table
unfolding born
drawn a p t s = with_pid p t (born a p s)

pub drawn_pid :
    (a p : ℕ) (t : PidState) (s : Table) (x : ℕ)
    → a ≢ x
    → p ≢ x
    → ((drawn a p t s).tasks x).pid ≡ (s.tasks x).pid
unfolding drawn
drawn_pid a p t s x na np = ground (arith, na, np)

-- The structures `a` and `p` are in no list.
pub record Unlisted (a p : ℕ) (ys : List ℕ) (s : Table) : Type 0 where
  pub first : Off a s.proc_list
  pub second : Off p s.proc_list
  pub first_out : Off a (s.current ∷ ys)
  pub second_out : Off p (s.current ∷ ys)

-- What a call of `do_fork` in the current process, with children `ys`, makes of the structures `a`
-- and `p`.
pub record Forked (a p pid : ℕ) (ys : List ℕ) (s u : Table) : Type 0 where
  pub positive : 0 < pid
  pub bounded : pid < max_pid
  pub unused : Off pid (pids_of s)
  pub own : (u.tasks p).pid ≡ pid
  pub runnable : (u.tasks p).state ≡ proc_runnable
  pub parent : (u.tasks p).parent ≡ some s.current
  pub children : Children u.tasks s.current (p ∷ ys)
  pub by_pid : find_proc pid u ≡ some p
  pub listed : u.proc_list ≡ p ∷ s.proc_list
  pub numbers : Numbered u
  pub allocated : u.allocated ≡ p ∷ a ∷ s.allocated

drawn-Children :
    (a p : ℕ) (t : PidState) (ys : List ℕ) (s : Table)
    → Unlisted a p ys s
    → Children s.tasks s.current ys
    → Children (drawn a p t s).tasks s.current ys
unfolding drawn
drawn-Children a p t ys s new h =
    let made = Children-update s.tasks s.current ys a _ new.first_out h in
    let both = Children-update _ s.current ys p _ new.second_out made in
    let child = Children-update _ s.current ys p _ new.second_out both in
    Children-update _ s.current ys p _ new.second_out child

find_first :
    (pid p : ℕ) (ps : List ℕ) (t : ℕ → Task) → (t p).pid ≡ pid → find_in pid (p ∷ ps) t ≡ some p
unfolding find_in
find_first pid p ps t e = ground (arith, e)

-- The table at the end of the call.
unfoldable pub done : ℕ → ℕ → PidState → Table → Table
unfolding drawn hashed_in
done a p t s = awoken p (hashed_in p s.current (drawn a p t s))

done_pid :
    (a p : ℕ) (t : PidState) (s : Table) (x : ℕ)
    → ((done a p t s).tasks x).pid ≡ ((drawn a p t s).tasks x).pid
unfolding done
done_pid a p t s x =
    let body = link_child-SameBody p s.current (drawn a p t s).tasks in ground (arith, body.pid x)

pub done_own : (a p : ℕ) (t : PidState) (s : Table) → ((done a p t s).tasks p).pid ≡ t.last_pid
unfolding drawn
done_own a p t s = done_pid a p t s p ∙ ground arith

pub done_pids :
    (a p : ℕ) (t : PidState) (ys : List ℕ) (s : Table)
    → Unlisted a p ys s
    → pids_of (done a p t s) ≡ t.last_pid ∷ pids_of s
unfolding done
done_pids a p t ys s new = rw (done_own a p t s) (
    ap (λ ns. t.last_pid ∷ ns)
      (map_same (λ x. ((done a p t s).tasks x).pid) (λ x. (s.tasks x).pid) a p s.proc_list new.first
        new.second λ x na np. done_pid a p t s x ∙ drawn_pid a p t s x na np))

bucket : (l : ℕ → List ℕ) (h k p : ℕ) → h ≡ k → update l h (p ∷ l h) k ≡ p ∷ l k
bucket l h k p e = subst (λ k. update l h (p ∷ l h) k ≡ p ∷ l k) e (ground arith)

drawn_bucket :
    (a p : ℕ) (t : PidState) (s : Table)
    → (done a p t s).hash_list (pid_hashfn t.last_pid) ≡ p ∷ s.hash_list (pid_hashfn t.last_pid)
unfolding done
drawn_bucket a p t s =
    bucket s.hash_list (pid_hashfn ((drawn a p t s).tasks p).pid) (pid_hashfn t.last_pid) p
      (ap pid_hashfn (ground arith))

found_in_range :
    (pid p : ℕ) (ps : List ℕ) (s : Table)
    → 0 < pid
    → pid < max_pid
    → s.hash_list (pid_hashfn pid) ≡ p ∷ ps
    → (s.tasks p).pid ≡ pid
    → find_proc pid s ≡ some p
unfolding find_proc
found_in_range pid p ps s low high e own =
    let guard : ltb 0 pid && ltb pid max_pid ≡ true = ground (arith, low, high) in
    rw (guard, find_proc) (ap (λ qs. find_in pid qs s.tasks) e ∙ find_first pid p ps s.tasks own)

pub done_found :
    (a p : ℕ) (t : PidState) (s : Table)
    → 0 < t.last_pid
    → t.last_pid < max_pid
    → find_proc t.last_pid (done a p t s) ≡ some p
done_found a p t s low high =
    found_in_range t.last_pid p (s.hash_list (pid_hashfn t.last_pid)) (done a p t s) low high
      (drawn_bucket a p t s) (done_own a p t s)

pub drawn_state :
    (a p : ℕ) (t : PidState) (s : Table) → ((drawn a p t s).tasks p).state ≡ proc_uninit
unfolding drawn
drawn_state a p t s = ground arith

pub drawn_own : (a p : ℕ) (t : PidState) (s : Table) → ((drawn a p t s).tasks p).pid ≡ t.last_pid
unfolding drawn
drawn_own a p t s = ground arith

pub done_parent :
    (a p : ℕ) (t : PidState) (s : Table) → ((drawn a p t s).tasks p).parent ≡ some s.current
unfolding drawn
done_parent a p t s = ground arith

pub done-Children :
    (a p : ℕ) (t : PidState) (ys : List ℕ) (s : Table)
    → Unlisted a p ys s
    → Children s.tasks s.current ys
    → Children (done a p t s).tasks s.current (p ∷ ys)
unfolding done
done-Children a p t ys s new h =
    Children-SameLinks (hashed_in p s.current (drawn a p t s)) (done a p t s) s.current (p ∷ ys)
      (awoken-SameLinks p (hashed_in p s.current (drawn a p t s)))
      (link_child-Children p s.current ys (drawn a p t s).tasks new.second_out (done_parent a p t s)
        (drawn-Children a p t ys s new h))
