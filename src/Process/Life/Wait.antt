-- ===== src/Process/Life/Wait.antt =====
-- What `do_wait` of lab5/kern/process/proc.c does with the children.
use nku_os.Base.{
  ℕ, zero, suc, ◌-◌, ◌<◌, ◌≡◌, ◌≢◌, refl, sym, ap, ◌∙◌, subst, Bool, true, false, not, ◌||◌, Option,
  none, some, List, [], ◌∷◌, ◌++◌, ◌==◌, if◌then◌else◌, length, Bool-cases, inl, inr, arith,
}
use nku_os.Base.Result.{Result, ok, ◌>>◌, >>-ok, return, modify, assert}
use nku_os.Libs.ListOrder.{Off}
use nku_os.Sched.Proc.{is_zombie, proc_zombie, idleproc}
use nku_os.Process.Table.{Task, Table, without, free_proc, unhash_proc}
use nku_os.Process.Family.{unlink_child, remove_links}
use nku_os.Process.Family.Siblings.{Siblings, Children}
use nku_os.Process.Family.Cut.{Siblings-tail, unlink_child-Children, unlink_child_pid}
use nku_os.Process.Life.{
  WaitTurn, zombie_child, sleeps, no_child, find_zombie, look, reap, turned, do_wait,
}
use nku_os.Process.Life.Numbered.{Numbered, length-without, without-IsSafe}

-- What the children come to, youngest first; `haskid` is whether there was one before.
pub verdict : Bool → List ℕ → (ℕ → Task) → WaitTurn
verdict haskid [] t = if haskid then sleeps else no_child
verdict haskid (x ∷ xs) t = if is_zombie (t x).state then zombie_child x else verdict true xs t

find_zombie-verdict :
    (f : ℕ) (b : Bool) (p : ℕ) (y o : Option ℕ) (xs : List ℕ) (t : ℕ → Task)
    → Siblings t p y o xs
    → length xs < f
    → find_zombie f b o t ≡ some (verdict b xs t)
unfolding find_zombie verdict
find_zombie-verdict zero b p y o xs t h l = absurd (omega arith)
find_zombie-verdict (suc f) b p y o [] t h l =
    subst (λ o. find_zombie (suc f) b o t ≡ some (if b then sleeps else no_child)) (sym h) refl
find_zombie-verdict (suc f) b p y o (x ∷ xs) t h l =
    subst (λ o. find_zombie (suc f) b o t ≡ some (verdict b (x ∷ xs) t)) (sym h.0)
      (elim (Bool-cases (is_zombie (t x).state)) [
        | inl e ↦ rw e refl
        | inr e ↦ rw e (find_zombie-verdict f true p (some x) (t x).optr xs t h.3 (omega arith))
      ])

-- One turn of `do_wait` for any child comes to what the list of the children says: the youngest of
-- them that has ended is reaped, with children of which none has ended the caller sleeps, and
-- without children the call fails.
pub do_wait-verdict :
    (f : ℕ) (xs : List ℕ) (s : Table)
    → Children s.tasks s.current xs
    → length xs < f
    → do_wait f true 0 s ≡ some (turned (verdict false xs s.tasks) s)
unfolding do_wait look
do_wait-verdict f xs s h l =
    rw
      (
        find_zombie-verdict f false s.current none (s.tasks s.current).cptr xs s.tasks h.links l,
        do_wait,
        look,
      )
      refl

-- None of these has ended.
abbrev pub NoneEnded : List ℕ → (ℕ → Task) → Type 0
NoneEnded [] t = Unit {0}
NoneEnded (x ∷ xs) t = (is_zombie (t x).state ≡ false) × NoneEnded xs t

verdict-first :
    (b : Bool) (c : ℕ) (xs ys : List ℕ) (t : ℕ → Task)
    → NoneEnded xs t
    → (t c).state ≡ proc_zombie
    → verdict b (xs ++ c ∷ ys) t ≡ zombie_child c
unfolding verdict
verdict-first b c [] ys t h e = rw e refl
verdict-first b c (x ∷ xs) ys t h e = rw h.0 (verdict-first true c xs ys t h.1 e)

-- The table after `found`, for a child `c` of `q`.
abbrev reaped : ℕ → ℕ → Table → Table
unfolding unhash_proc unlink_child free_proc
reaped c q s =
    let t = unhash_proc c s in
    free_proc c (record t {
      proc_list = without c t.proc_list;
      tasks = unlink_child c q t.tasks;
      nr_process = t.nr_process - 1;
    })

remove_links_run :
    (c q : ℕ) (s : Table)
    → (s.tasks c).parent ≡ some q
    → remove_links c s
      ≡ ok tt (record s {
        proc_list = without c s.proc_list;
        tasks = unlink_child c q s.tasks;
        nr_process = s.nr_process - 1;
      })
unfolding remove_links
remove_links_run c q s par = ground (arith, par)

reap_run :
    (c q : ℕ) (s : Table)
    → c ≢ idleproc
    → c ≢ s.initproc
    → (s.tasks c).parent ≡ some q
    → reap c s ≡ ok (some (s.tasks c).exit_code) (reaped c q s)
unfolding reap reaped
reap_run c q s ni nq par =
    let guard : not (c == idleproc || c == s.initproc) ≡ true = ground (arith, ni, nq) in
    let last : Table → Result Table (Option ℕ) =
      modify (free_proc c) >> return (some (s.tasks c).exit_code) in
    >>-ok (λ s. assert (not (c == idleproc || c == s.initproc)) s) _ {s = s} {t = s} (rw guard refl)
      (>>-ok (modify (unhash_proc c)) (remove_links c >> last) {s = s} refl (
        >>-ok (remove_links c) last {s = unhash_proc c s}
          (remove_links_run c q (unhash_proc c s) par) refl))

Siblings-parent :
    (t : ℕ → Task) (p : ℕ) (y o : Option ℕ) (c : ℕ) (xs ys : List ℕ)
    → Siblings t p y o (xs ++ c ∷ ys)
    → (t c).parent ≡ some p
Siblings-parent t p y o c [] ys s = s.1
Siblings-parent t p y o c (x ∷ xs) ys s =
    Siblings-parent t p (some x) (t x).optr c xs ys (Siblings-tail t p x y o (xs ++ c ∷ ys) s)

-- What a call of `do_wait` that reaps the child `c` leaves, of children `xs`, `c` and `ys`.
pub record Reaped (c : ℕ) (xs ys : List ℕ) (s u : Table) : Type 0 where
  pub children : Children u.tasks s.current (xs ++ ys)
  pub listed : u.proc_list ≡ without c s.proc_list
  pub freed : u.allocated ≡ without c s.allocated
  pub numbers : Numbered u

-- When of the children `xs`, `c` and `ys`, youngest first, `c` has ended and none of `xs` has, a
-- call of `do_wait` for any child gives the exit code of `c`. The others are then the children, in
-- the same order, `c` is out of the list of processes and freed, and the numbers of processes and
-- pids are right again.
pub do_wait-Reaped :
    (f c : ℕ) (xs ys : List ℕ) (s : Table)
    → Children s.tasks s.current (xs ++ c ∷ ys)
    → NoneEnded xs s.tasks
    → (s.tasks c).state ≡ proc_zombie
    → c ≢ idleproc
    → c ≢ s.initproc
    → Numbered s
    → ¬ Off c s.proc_list
    → length (xs ++ c ∷ ys) < f
    → (u : Table) × (do_wait f true 0 s ≡ some (ok (some (s.tasks c).exit_code) u))
      × Reaped c xs ys s u
unfolding reaped turned reap
do_wait-Reaped f c xs ys s h alive ended ni nq num listed l =
    let run =
      do_wait-verdict f (xs ++ c ∷ ys) s h l
      ∙ ap (λ w. some (turned w s)) (verdict-first false c xs ys s.tasks alive ended)
      ∙ ap some (
          reap_run c s.current s ni nq
            (Siblings-parent s.tasks s.current none _ c xs ys h.links)) in
    (
      reaped c s.current s,
      run,
      record {
        children = unlink_child-Children c s.current xs ys s.tasks h;
        listed = refl;
        freed = refl;
        numbers = record {
          count = omega (arith, num.count, length-without c s.proc_list listed);
          safe =
              without-IsSafe c s (reaped c s.current s) (unlink_child_pid c s.current s.tasks) refl
                num.safe;
        };
      },
    )
