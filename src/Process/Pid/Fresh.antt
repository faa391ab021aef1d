-- ===== src/Process/Pid/Fresh.antt =====
-- `get_pid` of lab5/kern/process/proc.c gives a pid that no process has.
use nku_os.Base.{
  ℕ, zero, suc, ◌+◌, ◌-◌, ◌*◌, ◌≤◌, ◌<◌, ◌≡◌, ◌≢◌, ◌⊎◌, inl, inr, refl, leb, ◌==◌, if◌then◌else◌,
  Option, some, List, [], ◌∷◌, length, Bool-cases, arith,
}
use nku_os.Libs.ListOrder.{Off}
use nku_os.Process.Pid.{
  max_pid, PidState, Round, passed, repeats, restarted, scan_pids, repeat_pids, inside, get_pid,
}
use nku_os.Process.Pid.Scan.{Gap, Gap-narrow, Gap-Off, Scanned, scan_pids-Scanned}

-- What the static variables promise between two calls: the pids behind the last one are free up to
-- `next_safe`.
pub record IsSafe (pids : List ℕ) (s : PidState) : Type 0 where
  pub bound : s.next_safe ≤ max_pid
  pub gap : Gap (s.last_pid + 1) s.next_safe pids

-- What a new pid promises.
record Fresh (pids : List ℕ) (t : PidState) : Type 0 where
  low : 0 < t.last_pid
  high : t.last_pid < t.next_safe
  bound : t.next_safe ≤ max_pid
  gap : Gap t.last_pid t.next_safe pids

-- How far the search is from a pid `k` that is free: upwards, or upwards to the end and from 1.
abbrev distance : ℕ → ℕ → ℕ
distance k last = if leb last k then k - last else max_pid - last + k

round-Fresh :
    (f k : ℕ) (pids : List ℕ) (s : PidState) (r : Round)
    → 0 < k
    → k < max_pid
    → Off k pids
    → 0 < s.last_pid
    → s.last_pid < max_pid
    → s.next_safe ≡ max_pid
    → distance k s.last_pid < suc f
    → Scanned pids s r
    → ((t : PidState)
        → 0 < t.last_pid
        → t.last_pid < max_pid
        → t.next_safe ≡ max_pid
        → distance k t.last_pid < f
        → (u : PidState) × (repeat_pids f pids t ≡ some u) × Fresh pids u)
    → (u : PidState) × ((elim r [ passed t ↦ some t | repeats t ↦ repeat_pids f pids t ]) ≡ some u)
      × Fresh pids u
round-Fresh f k pids s (Round.passed t) pos small free low high full near (a, b, c, g) again =
    (t, refl, record { low = omega arith; high = b; bound = omega arith; gap = g })
round-Fresh f k pids s (Round.repeats t) pos small free low high full near (last, e, a, b, c)
      again =
    rw e (again (restarted last) (ground arith) (ground arith) refl (ground (arith, c k free)))

repeat_pids-Fresh :
    (f k : ℕ) (pids : List ℕ) (s : PidState)
    → 0 < k
    → k < max_pid
    → Off k pids
    → 0 < s.last_pid
    → s.last_pid < max_pid
    → s.next_safe ≡ max_pid
    → distance k s.last_pid < f
    → (u : PidState) × (repeat_pids f pids s ≡ some u) × Fresh pids u
unfolding repeat_pids
repeat_pids-Fresh zero k pids s pos small free low high full near = absurd (omega arith)
repeat_pids-Fresh (suc f) k pids s pos small free low high full near =
    round-Fresh f k pids s (scan_pids pids s) pos small free low high full near
      (scan_pids-Scanned pids s (omega arith)) λ t. repeat_pids-Fresh f k pids t pos small free

drop : ℕ → List ℕ → List ℕ
drop n [] = []
drop n (p ∷ ps) = if p == n then ps else p ∷ drop n ps

-- Of more numbers than the list is long, one is free.
taken_or_free : (n : ℕ) (ps : List ℕ) → Off n ps ⊎ (suc (length (drop n ps)) ≡ length ps)
unfolding drop
taken_or_free n [] = inl tt
taken_or_free n (p ∷ ps) = elim (Bool-cases (p == n)) [
  | inl e ↦ inr (rw e refl)
  | inr e ↦ elim (taken_or_free n ps) [
    | inl o ↦ inl ((λ q. ground (arith, e, q)), o)
    | inr l ↦ inr (rw e (omega (arith, l)))
  ]
]

Off-drop : (k n : ℕ) (ps : List ℕ) → k ≢ n → Off k (drop n ps) → Off k ps
unfolding drop
Off-drop k n [] ne o = tt
Off-drop k n (p ∷ ps) ne o = elim (Bool-cases (p == n)) [
  | inl e ↦ ((λ q. ne (ground (arith, e, q))), rw e at o)
  | inr e ↦ let o' : Off k (p ∷ drop n ps) = rw e at o in (o'.0, Off-drop k n ps ne o'.1)
]

free_pid : (n : ℕ) (ps : List ℕ) → length ps < n → (k : ℕ) × (0 < k) × (k ≤ n) × Off k ps
free_pid zero ps h = absurd (omega arith)
free_pid (suc n) ps h = elim (taken_or_free (suc n) ps) [
  | inl o ↦ (suc n, omega arith, omega arith, o)
  | inr l ↦
      let (k, pos, small, o) = free_pid n (drop (suc n) ps) (omega (arith, l)) in
      (k, pos, omega arith, Off-drop k (suc n) ps (λ e. omega (arith, e, small)) o)
]

Fresh-ends :
    (pids : List ℕ) (t : PidState) {o : Option PidState}
    → o ≡ some t
    → Fresh pids t
    → (t : PidState) × (o ≡ some t)
      × (0 < t.last_pid)
      × (t.last_pid < max_pid)
      × Off t.last_pid pids
      × IsSafe (t.last_pid ∷ pids) t
Fresh-ends pids t e h = (
  t,
  e,
  h.low,
  omega (arith, h.high, h.bound),
  Gap-Off t.last_pid pids h.gap (omega arith) h.high,
  record {
    bound = h.bound;
    gap = (inl (omega arith), Gap-narrow pids h.gap (omega arith) (omega arith));
  },
)

inside-Fresh :
    (f : ℕ) (pids : List ℕ) (s : PidState)
    → length pids < max_pid - 1
    → 2 * max_pid ≤ f
    → 0 < s.last_pid
    → s.last_pid < max_pid
    → (u : PidState) × (inside f pids s ≡ some u) × Fresh pids u
inside-Fresh f pids s few fuel low high =
    let (k, pos, small, free) = free_pid (max_pid - 1) pids few in
    repeat_pids-Fresh f k pids (record s { next_safe = max_pid }) pos (omega (arith, small)) free
      low high refl (ground (arith, small))

-- With fewer than MAX_PID - 1 processes, with static variables that are right and fuel of twice
-- MAX_PID, `get_pid` ends with a pid from 1 up to MAX_PID - 1 that no process has, and the static
-- variables are right when a process with this pid is added.
pub get_pid_lem :
    (f : ℕ) (pids : List ℕ) (s : PidState)
    → IsSafe pids s
    → length pids < max_pid - 1
    → 2 * max_pid ≤ f
    → (t : PidState) × (get_pid f pids s ≡ some t)
      × (0 < t.last_pid)
      × (t.last_pid < max_pid)
      × Off t.last_pid pids
      × IsSafe (t.last_pid ∷ pids) t
unfolding get_pid
get_pid_lem f pids s h few fuel = elim (Bool-cases (leb max_pid (s.last_pid + 1))) [
  | inl e ↦
      let (u, runs, new) =
        inside-Fresh f pids (record s { last_pid = 1 }) few fuel (omega arith) (omega arith) in
      rw e (Fresh-ends pids u runs new)
  | inr e ↦ elim (Bool-cases (leb s.next_safe (s.last_pid + 1))) [
    | inl d ↦
        let (u, runs, new) =
          inside-Fresh f pids (record s { last_pid = s.last_pid + 1 }) few fuel (omega arith)
            (ground (arith, e)) in
        rw (e, d) (Fresh-ends pids u runs new)
    | inr d ↦
        rw (e, d)
          (Fresh-ends pids (record s { last_pid = s.last_pid + 1 }) refl
            (record { low = omega arith; high = ground (arith, d); bound = h.bound; gap = h.gap }))
  ]
]
