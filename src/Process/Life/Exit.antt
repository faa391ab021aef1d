-- ===== src/Process/Life/Exit.antt =====
-- What `do_exit` of lab5/kern/process/proc.c leaves behind.
use nku_os.Base.{
  ℕ, ◌<◌, ◌≡◌, ◌≢◌, refl, sym, ap, ◌∙◌, subst, Bool, true, false, not, ◌||◌, Option, none, some,
  List, ◌==◌, length, Bool-cases, inl, inr, arith,
}
use nku_os.Base.Result.{Result, ok}
use nku_os.Sched.Proc.{is_zombie, is_runnable, proc_zombie, idleproc}
use nku_os.Process.Table.{Table, wt_child, wakeup_proc}
use nku_os.Process.Family.{give_away}
use nku_os.Process.Family.Siblings.{Older, Children}
use nku_os.Process.Family.Links.{
  SameLinks, awoken, same_self, same_trans, awoken-SameLinks, Older-SameLinks, Children-SameLinks,
}
use nku_os.Process.Family.GiveAway.{onto, Leaves, Left, give_away-Left}
use nku_os.Process.Life.{wake_parent, ended, do_exit}

-- What the wake of the parent `r` of a process `p` does to the rest.
record Called (p q r : ℕ) (s u : Table) : Type 0 where
  links : SameLinks s u
  own : (u.tasks p).state ≡ (s.tasks p).state
  exit_code : (x : ℕ) → (u.tasks x).exit_code ≡ (s.tasks x).exit_code
  alive : is_zombie (u.tasks q).state ≡ false
  up : not ((s.tasks r).wait_state == wt_child) || is_runnable (u.tasks r).state ≡ true

Called-self :
    (p q r : ℕ) (s : Table)
    → is_zombie (s.tasks q).state ≡ false
    → not ((s.tasks r).wait_state == wt_child) || is_runnable (s.tasks r).state ≡ true
    → Called p q r s s
Called-self p q r s h e = record {
  links = same_self s;
  own = refl;
  exit_code = λ x. refl;
  alive = h;
  up = e;
}

Called-woken :
    (p q r : ℕ) (s : Table)
    → r ≢ p
    → is_zombie (s.tasks q).state ≡ false
    → Called p q r s (awoken r s)
Called-woken p q r s ne h = record {
  links = awoken-SameLinks r s;
  own = ground (arith, ne);
  exit_code = λ x. ground arith;
  alive = ground (arith, h);
  up = ground arith;
}

wake_parent-Called :
    (p q r : ℕ) (s : Table)
    → r ≢ p
    → is_zombie (s.tasks r).state ≡ false
    → is_zombie (s.tasks q).state ≡ false
    → (u : Table) × (wake_parent (some r) s ≡ ok tt u) × Called p q r s u
unfolding wakeup_proc
wake_parent-Called p q r s ne alive h = elim (Bool-cases ((s.tasks r).wait_state == wt_child)) [
  | inr e ↦ (s, rw e refl, Called-self p q r s h (rw e refl))
  | inl e ↦ elim (Bool-cases (is_runnable (s.tasks r).state)) [
    | inl a ↦ (s, ground (arith, e, alive, a), Called-self p q r s h (rw (e, a) refl))
    | inr a ↦ (awoken r s, ground (arith, e, alive, a), Called-woken p q r s ne h)
  ]
]

ended-SameLinks : (code : ℕ) (s : Table) → SameLinks s (ended code s)
ended-SameLinks code s = record {
  parent = λ x. ground arith;
  cptr = λ x. ground arith;
  yptr = λ x. ground arith;
  optr = λ x. ground arith;
  current = refl;
  initproc = refl;
}

ended-alive :
    (code q : ℕ) (s : Table)
    → s.current ≢ q
    → is_zombie (s.tasks q).state ≡ false
    → is_zombie ((ended code s).tasks q).state ≡ false
ended-alive code q s ne h = ground (arith, ne, h)

ended_wait_state :
    (code r : ℕ) (s : Table) → ((ended code s).tasks r).wait_state ≡ (s.tasks r).wait_state
ended_wait_state code r s = ground arith

ended_state :
    (code p : ℕ) (s : Table) → s.current ≡ p → ((ended code s).tasks p).state ≡ proc_zombie
ended_state code p s e = ground (arith, e)

ended_exit_code :
    (code p : ℕ) (s : Table) → s.current ≡ p → ((ended code s).tasks p).exit_code ≡ code
ended_exit_code code p s e = ground (arith, e)

Leaves-SameLinks :
    (p q : ℕ) (xs ys : List ℕ) (s u : Table)
    → SameLinks s u
    → is_zombie (u.tasks q).state ≡ false
    → Leaves p q xs ys s
    → Leaves p q xs ys u
Leaves-SameLinks p q xs ys s u k alive h = record {
  current = k.current ∙ h.current;
  initproc = k.initproc ∙ h.initproc;
  differ = h.differ;
  own =
      subst (λ o. Older u.tasks o xs) (sym (k.cptr p))
        (Older-SameLinks s u (s.tasks p).cptr xs k h.own);
  others = Children-SameLinks s u q ys k h.others;
  distinct = h.distinct;
  init_out = h.init_out;
  apart = h.apart;
  alive = alive;
}

-- A process that was woken stays so in the loop.
Left-up :
    (b : Bool) (p q r : ℕ) (zs : List ℕ) (s u : Table)
    → Left p q zs s u
    → b || is_runnable (s.tasks r).state ≡ true
    → b || is_runnable (u.tasks r).state ≡ true
Left-up b p q r zs s u h e = elim (Bool-cases (r == q)) [
  | inl same ↦
      let eq : r ≡ q = ground (arith, same) in
      subst (λ r. b || is_runnable (u.tasks r).state ≡ true) (sym eq)
        (runs (is_runnable (s.tasks q).state) (is_runnable (u.tasks q).state)
          (subst (λ r. b || is_runnable (s.tasks r).state ≡ true) eq e) h.awake)
  | inr other ↦
      subst (λ a. b || is_runnable a ≡ true)
        (sym (h.state r (λ eq. absurd (ground (arith, eq, other))))) e
]
  where
    runs : (a c : Bool) → b || a ≡ true → not a || c ≡ true → b || c ≡ true
    runs a c e f = ground (arith, e, f)

-- What is there when the process `p` with children `xs` has ended and calls `schedule`: `q` is
-- `initproc`, with children `ys` before, and `r` the parent.
pub record Exited (p q r code : ℕ) (xs ys : List ℕ) (s u : Table) : Type 0 where
  pub zombie : (u.tasks p).state ≡ proc_zombie
  pub exit_code : (u.tasks p).exit_code ≡ code
  pub childless : (u.tasks p).cptr ≡ none
  pub children : Children u.tasks q (onto xs ys)
  pub woken : not ((s.tasks r).wait_state == wt_child) || is_runnable (u.tasks r).state ≡ true

do_exit_run :
    (f code r : ℕ) (s u : Table) (v : Option (Result Table (Unit {0})))
    → s.current ≢ idleproc
    → s.current ≢ s.initproc
    → ((ended code s).tasks s.current).parent ≡ some r
    → wake_parent (some r) (ended code s) ≡ ok tt u
    → give_away f u ≡ v
    → do_exit f code s ≡ v
unfolding do_exit
do_exit_run f code r s u v ni nq par woke e =
    let guard : s.current == idleproc || s.current == s.initproc ≡ false = ground (arith, ni, nq) in
    rw (guard, do_exit) (rw (par, do_exit) (rw (woke, do_exit) e))

-- The current process `p`, which is neither the idle process nor `initproc` and has a parent `r`
-- that is not a zombie, ends with more turns of the loop than it has children `xs`: `do_exit`
-- reaches its call of `schedule` with `p` a childless zombie with the exit code given. Its children
-- are in front of the children `ys` of `initproc`, the last of them first, in a sound list of
-- siblings, and the parent is runnable if it waited for a child.
pub do_exit-Exited :
    (f code p q r : ℕ) (xs ys : List ℕ) (s : Table)
    → Leaves p q xs ys s
    → p ≢ idleproc
    → (s.tasks p).parent ≡ some r
    → r ≢ p
    → is_zombie (s.tasks r).state ≡ false
    → length xs < f
    → (u : Table) × (do_exit f code s ≡ some (ok tt u)) × Exited p q r code xs ys s u
do_exit-Exited f code p q r xs ys s h ni par ne alive l =
    let t = ended code s in
    let nq : s.current ≢ q = λ e. h.differ (sym h.current ∙ e) in
    let (u, woke, c) =
      wake_parent-Called p q r t ne (ended-alive code r s (λ e. ne (sym e ∙ h.current)) alive)
        (ended-alive code q s nq h.alive) in
    let (v, runs, done) =
      give_away-Left f p q xs ys u
        (Leaves-SameLinks p q xs ys s u (same_trans (ended-SameLinks code s) c.links) c.alive h)
        l in
    (
      v,
      do_exit_run f code r s u (some (ok tt v)) (λ e. ni (sym h.current ∙ e))
          (λ e. nq (e ∙ h.initproc))
          ((ended-SameLinks code s).parent s.current ∙ ap (λ x. (s.tasks x).parent) h.current ∙ par)
          woke runs,
      record {
        zombie = done.state p h.differ ∙ c.own ∙ ended_state code p s h.current;
        exit_code = done.exit_code p ∙ c.exit_code p ∙ ended_exit_code code p s h.current;
        childless = done.childless;
        children = done.children;
        woken = Left-up (not ((s.tasks r).wait_state == wt_child)) p q r (onto xs ys) u v done (
            subst (λ w. not (w == wt_child) || is_runnable (u.tasks r).state ≡ true)
              (ended_wait_state code r s) c.up);
      },
    )
