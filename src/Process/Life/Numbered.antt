-- ===== src/Process/Life/Numbered.antt =====
-- The numbers of processes and pids (lab5/kern/process/proc.c).
use nku_os.Base.{
  ℕ, ◌+◌, ◌≡◌, refl, sym, ap, ◌∙◌, subst, List, [], ◌∷◌, map, ◌==◌, length, Bool-cases, inl, inr,
  arith,
}
use nku_os.Libs.ListOrder.{Off}
use nku_os.Process.Pid.Scan.{Gap}
use nku_os.Process.Pid.Fresh.{IsSafe}
use nku_os.Process.Table.{Table, without}
use nku_os.Process.Life.{pids_of}

-- `nr_process` counts the processes and `idleproc`, which is in no list, and `get_pid` has the
-- right static variables.
pub record Numbered (s : Table) : Type 0 where
  pub count : s.nr_process ≡ length s.proc_list + 1
  pub safe : IsSafe (pids_of s) s.pids

pub length-without : (p : ℕ) (qs : List ℕ) → ¬ Off p qs → length (without p qs) + 1 ≡ length qs
length-without p [] h = absurd (h tt)
length-without p (q ∷ qs) h = elim (Bool-cases (q == p)) [
  | inl e ↦ rw e (omega arith)
  | inr e ↦ rw e (
      omega (arith, length-without p qs λ out. h ((λ same. absurd (ground (arith, e, same))), out)))
]

without-Gap :
    (lo hi p : ℕ) (f : ℕ → ℕ) (qs : List ℕ)
    → Gap lo hi (map f qs)
    → Gap lo hi (map f (without p qs))
without-Gap lo hi p f [] g = tt
without-Gap lo hi p f (q ∷ qs) g = elim (Bool-cases (q == p)) [
  | inl e ↦ rw e g.1
  | inr e ↦ rw e (g.0, without-Gap lo hi p f qs g.1)
]

-- A process that leaves the list keeps the static variables right.
pub without-IsSafe :
    (p : ℕ) (s u : Table)
    → ((x : ℕ) → (u.tasks x).pid ≡ (s.tasks x).pid)
    → u.proc_list ≡ without p s.proc_list
    → IsSafe (pids_of s) s.pids
    → IsSafe (pids_of u) s.pids
without-IsSafe p s u same e h =
    let pids : pids_of u ≡ map (λ x. (s.tasks x).pid) (without p s.proc_list) =
      map_at (λ x. (u.tasks x).pid) (λ x. (s.tasks x).pid) u.proc_list same
      ∙ ap (map (λ x. (s.tasks x).pid)) e in
    subst (λ ns. IsSafe ns s.pids) (sym pids)
      (record {
        bound = h.bound;
        gap = without-Gap (s.pids.last_pid + 1) s.pids.next_safe p _ s.proc_list h.gap;
      })
  where
    map_at : (f g : ℕ → ℕ) (xs : List ℕ) → ((x : ℕ) → f x ≡ g x) → map f xs ≡ map g xs
    map_at f g [] h = refl
    map_at f g (x ∷ xs) h = rw (h x, map_at f g xs h) refl
