-- ===== src/Process/Family/Links.antt =====
-- Steps that keep the links between processes (lab5/kern/process/proc.c).
use nku_os.Base.{ℕ, ◌≡◌, refl, sym, ◌∙◌, subst, Option, none, some, List, [], ◌∷◌, arith}
use nku_os.Sched.Proc.{proc_runnable}
use nku_os.Process.Table.{Table, set_task}
use nku_os.Process.Family.Siblings.{Siblings, Older, Children}

-- No link differs, and the same processes are current and `initproc`.
pub record SameLinks (s u : Table) : Type 0 where
  pub parent : (x : ℕ) → (u.tasks x).parent ≡ (s.tasks x).parent
  pub cptr : (x : ℕ) → (u.tasks x).cptr ≡ (s.tasks x).cptr
  pub yptr : (x : ℕ) → (u.tasks x).yptr ≡ (s.tasks x).yptr
  pub optr : (x : ℕ) → (u.tasks x).optr ≡ (s.tasks x).optr
  pub current : u.current ≡ s.current
  pub initproc : u.initproc ≡ s.initproc

pub same_self : (s : Table) → SameLinks s s
same_self s = record {
  parent = λ x. refl;
  cptr = λ x. refl;
  yptr = λ x. refl;
  optr = λ x. refl;
  current = refl;
  initproc = refl;
}

pub same_trans : {s t u : Table} → SameLinks s t → SameLinks t u → SameLinks s u
same_trans a b = record {
  parent = λ x. b.parent x ∙ a.parent x;
  cptr = λ x. b.cptr x ∙ a.cptr x;
  yptr = λ x. b.yptr x ∙ a.yptr x;
  optr = λ x. b.optr x ∙ a.optr x;
  current = b.current ∙ a.current;
  initproc = b.initproc ∙ a.initproc;
}

-- The table in which `wakeup_proc` has woken `p`.
abbrev pub awoken : ℕ → Table → Table
awoken p s = set_task p (record (s.tasks p) { state = proc_runnable; wait_state = 0 }) s

pub awoken-SameLinks : (p : ℕ) (s : Table) → SameLinks s (awoken p s)
awoken-SameLinks p s = record {
  parent = λ x. ground arith;
  cptr = λ x. ground arith;
  yptr = λ x. ground arith;
  optr = λ x. ground arith;
  current = refl;
  initproc = refl;
}

Siblings-SameLinks :
    (s u : Table) (p : ℕ) (y o : Option ℕ) (xs : List ℕ)
    → SameLinks s u
    → Siblings s.tasks p y o xs
    → Siblings u.tasks p y o xs
Siblings-SameLinks s u p y o [] q h = h
Siblings-SameLinks s u p y o (x ∷ xs) q h = (
  h.0,
  q.parent x ∙ h.1,
  q.yptr x ∙ h.2,
  subst (λ o. Siblings u.tasks p (some x) o xs) (sym (q.optr x))
      (Siblings-SameLinks s u p (some x) (s.tasks x).optr xs q h.3),
)

pub Older-SameLinks :
    (s u : Table) (o : Option ℕ) (xs : List ℕ)
    → SameLinks s u
    → Older s.tasks o xs
    → Older u.tasks o xs
Older-SameLinks s u o [] q h = h
Older-SameLinks s u o (x ∷ xs) q h = (
  h.0,
  subst (λ o. Older u.tasks o xs) (sym (q.optr x)) (Older-SameLinks s u (s.tasks x).optr xs q h.1),
)

pub Children-SameLinks :
    (s u : Table) (p : ℕ) (xs : List ℕ)
    → SameLinks s u
    → Children s.tasks p xs
    → Children u.tasks p xs
Children-SameLinks s u p xs q h = record {
  links =
      subst (λ o. Siblings u.tasks p none o xs) (sym (q.cptr p))
        (Siblings-SameLinks s u p none (s.tasks p).cptr xs q h.links);
  distinct = h.distinct;
}
