-- ===== src/Process/Pid/Scan.antt =====
-- One round of the loop of `get_pid` (lab5/kern/process/proc.c).
use nku_os.Base.{
  ℕ, ◌+◌, ◌≤◌, ◌<◌, ◌≡◌, ◌≢◌, ◌⊎◌, inl, inr, refl, false, ◌&&◌, ltb, leb, ◌==◌, List, [], ◌∷◌,
  Bool-cases, arith,
}
use nku_os.Libs.ListOrder.{Off}
use nku_os.Process.Pid.{PidState, Round, restarted, scan_pids}

-- No pid of the list lies from `lo` up to `hi`.
abbrev pub Gap : ℕ → ℕ → List ℕ → Type 0
Gap lo hi [] = Unit {0}
Gap lo hi (p ∷ ps) = ((p < lo) ⊎ (hi ≤ p)) × Gap lo hi ps

pub Gap-narrow :
    {lo hi lo' hi' : ℕ} (ps : List ℕ) → Gap lo hi ps → lo ≤ lo' → hi' ≤ hi → Gap lo' hi' ps
Gap-narrow [] g l h = tt
Gap-narrow (p ∷ ps) (inl a, g) l h = (inl (omega arith), Gap-narrow ps g l h)
Gap-narrow (p ∷ ps) (inr a, g) l h = (inr (omega arith), Gap-narrow ps g l h)

pub Gap-Off : {lo hi : ℕ} (k : ℕ) (ps : List ℕ) → Gap lo hi ps → lo ≤ k → k < hi → Off k ps
Gap-Off k [] g l h = tt
Gap-Off k (p ∷ ps) (inl a, g) l h = ((λ e. omega (arith, e)), Gap-Off k ps g l h)
Gap-Off k (p ∷ ps) (inr a, g) l h = ((λ e. omega (arith, e)), Gap-Off k ps g l h)

-- What a round says: it passes with a gap from `last_pid` up to `next_safe`, or it repeats behind
-- pids that are all taken.
abbrev pub Scanned : List ℕ → PidState → Round → Type 0
Scanned ps s (Round.passed t) =
    (s.last_pid ≤ t.last_pid)
    × (t.last_pid < t.next_safe)
    × (t.next_safe ≤ s.next_safe)
    × Gap t.last_pid t.next_safe ps
Scanned ps s (Round.repeats t) =
    (last : ℕ) × (t ≡ restarted last)
    × (s.last_pid < last)
    × (last ≤ s.next_safe)
    × ((k : ℕ) → Off k ps → s.last_pid ≤ k → last ≤ k)

-- One more pid in front of the rest of a round.
Scanned-cons :
    (p : ℕ) (ps : List ℕ) (s s' : PidState) (r : Round)
    → s.last_pid ≤ s'.last_pid
    → s'.next_safe ≤ s.next_safe
    → ((p < s'.last_pid) ⊎ (s'.next_safe ≤ p))
    → ((k : ℕ) → k ≢ p → s.last_pid ≤ k → s'.last_pid ≤ k)
    → Scanned ps s' r
    → Scanned (p ∷ ps) s r
Scanned-cons p ps s s' (Round.passed t) l h (inl a) free (b, c, d, g) =
    (omega arith, c, omega arith, (inl (omega arith), g))
Scanned-cons p ps s s' (Round.passed t) l h (inr a) free (b, c, d, g) =
    (omega arith, c, omega arith, (inr (omega arith), g))
Scanned-cons p ps s s' (Round.repeats t) l h a free (last, e, b, c, d) =
    (last, e, omega arith, omega arith, λ k o low. d k o.1 (free k o.0 low))

pub scan_pids-Scanned :
    (ps : List ℕ) (s : PidState) → s.last_pid < s.next_safe → Scanned ps s (scan_pids ps s)
unfolding scan_pids
scan_pids-Scanned [] s h = (omega arith, h, omega arith, tt)
scan_pids-Scanned (p ∷ ps) s h = elim (Bool-cases (p == s.last_pid)) [
  | inl e ↦ elim (Bool-cases (leb s.next_safe (s.last_pid + 1))) [
    | inl d ↦
        rw (e, d)
          (
            s.last_pid + 1,
            refl,
            omega arith,
            omega (arith, h),
            λ k o low. ground (arith, e, o.0, low),
          )
    | inr d ↦
        let s' : PidState = record s { last_pid = s.last_pid + 1 } in
        rw (e, d)
          (Scanned-cons p ps s s' _ (omega arith) (omega arith) (inl (ground (arith, e)))
            (λ k o low. ground (arith, e, o, low)) (scan_pids-Scanned ps s' (ground (arith, d))))
  ]
  | inr e ↦ elim (Bool-cases (ltb s.last_pid p && ltb p s.next_safe)) [
    | inl d ↦
        let s' : PidState = record s { next_safe = p } in
        rw (e, d)
          (Scanned-cons p ps s s' _ (omega arith) (ground (arith, d)) (inr (omega arith))
            (λ k o low. low) (scan_pids-Scanned ps s' (ground (arith, d))))
    | inr d ↦
        rw (e, d)
          (Scanned-cons p ps s s _ (omega arith) (omega arith) (outside d e) (λ k o low. low)
            (scan_pids-Scanned ps s h))
  ]
]
  where
    outside :
        (ltb s.last_pid p && ltb p s.next_safe) ≡ false
        → (p == s.last_pid) ≡ false
        → (p < s.last_pid) ⊎ (s.next_safe ≤ p)
    outside d e = elim (Bool-cases (ltb p s.last_pid)) [
      | inl a ↦ inl (ground (arith, a))
      | inr a ↦ inr (ground (arith, a, d, e))
    ]
