-- ===== src/Sched/Timer/Absolute.antt =====
-- The timer list of lab8/kern/schedule/sched.c by the ticks that each timer still has to wait.
use nku_os.Base.{
  ℕ, zero, suc, ◌+◌, ◌-◌, ◌≡◌, refl, ap, ◌∙◌, true, false, ltb, ◌==◌, if◌then◌else◌, List, [], ◌∷◌,
  arith, Bool-cases, inl, inr,
}
use nku_os.Sched.Proc.{Timer}
use nku_os.Sched.Timer.{add_from, handed, del_at}

abbrev pub Due : Type 0
Due = ℕ × ℕ

-- When each timer runs out, from `base` on, with its process.
unfoldable pub absolute : ℕ → List Timer → List Due
absolute base [] = []
absolute base (t ∷ ts) = (base + t.expires, t.proc) ∷ absolute (base + t.expires) ts

-- Insertion behind all that run out no later.
pub insert_due : Due → List Due → List Due
insert_due (k, p) [] = (k, p) ∷ []
insert_due (k, p) ((j, q) ∷ ds) =
    if ltb k j then (k, p) ∷ (j, q) ∷ ds else (j, q) ∷ insert_due (k, p) ds

next_eq :
    {j k : ℕ} (p : ℕ) (ts : List Timer)
    → j ≡ k
    → ◌≡◌ {A = List Due} ((j, p) ∷ absolute j ts) ((k, p) ∷ absolute k ts)
next_eq p ts e = ap (λ i. (i, p) ∷ absolute i ts) e

-- `add_timer` puts the new timer in its place by time, and leaves the time of every other timer
-- as it was.
pub absolute-add_from :
    (base : ℕ) (t : Timer) (ts : List Timer)
    → absolute base (add_from t ts) ≡ insert_due (base + t.expires, t.proc) (absolute base ts)
unfolding absolute insert_due add_from
absolute-add_from base t [] = refl
absolute-add_from base t (u ∷ us) = elim (Bool-cases (ltb t.expires u.expires)) [
  | inl e ↦
      let later : ltb (base + t.expires) (base + u.expires) ≡ true = ground arith in
      rw (e, later) (ap (◌∷◌ (base + t.expires, t.proc)) (next_eq u.proc us (ground arith)))
  | inr e ↦
      let sooner : ltb (base + t.expires) (base + u.expires) ≡ false = ground arith in
      let rest : Timer = record t { expires = t.expires - u.expires } in
      let again : base + u.expires + rest.expires ≡ base + t.expires = ground arith in
      rw (e, sooner)
        (ap (◌∷◌ (base + u.expires, u.proc)) (
          absolute-add_from (base + u.expires) rest us
          ∙ ap (λ k. insert_due (k, t.proc) (absolute (base + u.expires) us)) again))
]

pub remove_at : ℕ → List Due → List Due
remove_at i [] = []
remove_at zero (d ∷ ds) = ds
remove_at (suc i) (d ∷ ds) = d ∷ remove_at i ds

absolute-handed :
    (base e : ℕ) (ts : List Timer) → absolute base (handed e ts) ≡ absolute (base + e) ts
unfolding absolute
absolute-handed base e [] = refl
absolute-handed base e (u ∷ us) = next_eq u.proc us (omega arith)

-- `del_timer` takes the timer at a position away, if there is one, and leaves the time of every other timer as it was.
pub absolute-del_at :
    (i base : ℕ) (ts : List Timer) → absolute base (del_at i ts) ≡ remove_at i (absolute base ts)
unfolding absolute remove_at del_at
absolute-del_at zero base [] = refl
absolute-del_at (suc i) base [] = refl
absolute-del_at zero base (t ∷ ts) = elim (Bool-cases (t.expires == 0)) [
  | inl e ↦ rw e (ap (λ k. absolute k ts) (ground arith))
  | inr e ↦ rw e (absolute-handed base t.expires ts)
]
absolute-del_at (suc i) base (t ∷ ts) =
    ap (◌∷◌ (base + t.expires, t.proc)) (absolute-del_at i (base + t.expires) ts)
