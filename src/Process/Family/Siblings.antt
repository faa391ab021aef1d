-- ===== src/Process/Family/Siblings.antt =====
-- The children of a process as a sequence, youngest first (lab5/kern/process/proc.c).
use nku_os.Base.{ℕ, ◌≡◌, ◌≢◌, refl, sym, subst, Option, none, some, List, [], ◌∷◌, update, arith}
use nku_os.Libs.ListOrder.{Off, Distinct}
use nku_os.Process.Table.{Task}
use nku_os.Process.Family.{set_yptr, set_cptr}

-- From the link `o` on, the older siblings of `y`, all children of `p`.
abbrev pub Siblings : (ℕ → Task) → ℕ → Option ℕ → Option ℕ → List ℕ → Type 0
Siblings t p y o [] = o ≡ none
Siblings t p y o (x ∷ xs) =
    (o ≡ some x) × ((t x).parent ≡ some p) × ((t x).yptr ≡ y) × Siblings t p (some x) (t x).optr xs

-- From the link `o` on, by the links to the older siblings alone.
abbrev pub Older : (ℕ → Task) → Option ℕ → List ℕ → Type 0
Older t o [] = o ≡ none
Older t o (x ∷ xs) = (o ≡ some x) × Older t (t x).optr xs

-- The children of `p` are these.
pub record Children (t : ℕ → Task) (p : ℕ) (xs : List ℕ) : Type 0 where
  pub links : Siblings t p none (t p).cptr xs
  pub distinct : Distinct (p ∷ xs)

pub Siblings-update :
    (t : ℕ → Task) (p : ℕ) (y o : Option ℕ) (xs : List ℕ) (k : ℕ) (v : Task)
    → Off k xs
    → Siblings t p y o xs
    → Siblings (update t k v) p y o xs
Siblings-update t p y o [] k v out s = s
Siblings-update t p y o (x ∷ xs) k v out s = (
  s.0,
  ground (arith, out.0, s.1),
  ground (arith, out.0, s.2),
  rw (update_other t k v x out.0) (Siblings-update t p (some x) (t x).optr xs k v out.1 s.3),
)
  where
    update_other : (t : ℕ → Task) (k : ℕ) (v : Task) (x : ℕ) → k ≢ x → update t k v x ≡ t x
    update_other t k v x ne = ground arith

pub Older-update :
    (t : ℕ → Task) (o : Option ℕ) (xs : List ℕ) (k : ℕ) (v : Task)
    → Off k xs
    → Older t o xs
    → Older (update t k v) o xs
Older-update t o [] k v out s = s
Older-update t o (x ∷ xs) k v out s =
    (s.0, rw (update_other t k v x out.0) (Older-update t (t x).optr xs k v out.1 s.1))
  where
    update_other : (t : ℕ → Task) (k : ℕ) (v : Task) (x : ℕ) → k ≢ x → update t k v x ≡ t x
    update_other t k v x ne = ground arith

pub Siblings-eq :
    (t : ℕ → Task) (p : ℕ) (y : Option ℕ) {o o' : Option ℕ} (xs : List ℕ)
    → o' ≡ o
    → Siblings t p y o xs
    → Siblings t p y o' xs
Siblings-eq t p y xs e s = subst (λ o. Siblings t p y o xs) (sym e) s

-- The first of some siblings gets a younger one.
pub Siblings-yptr :
    (t : ℕ → Task) (p : ℕ) (y o z : Option ℕ) (xs : List ℕ)
    → Distinct xs
    → Siblings t p y o xs
    → Siblings (set_yptr o z t) p z o xs
Siblings-yptr t p y o z [] d s = s
Siblings-yptr t p y o z (x ∷ xs) d s =
    let u = update t x (record (t x) { yptr = z }) in
    let kept : (u x).optr ≡ (t x).optr = ground arith in
    subst (λ o. Siblings (set_yptr o z t) p z o (x ∷ xs)) (sym s.0)
      (
        refl,
        ground (arith, s.1),
        ground arith,
        Siblings-eq u p (some x) xs kept (Siblings-update t p (some x) (t x).optr xs x _ d.0 s.3),
      )

-- A store to the link to a first child keeps all siblings.
pub Siblings-set_cptr :
    (t : ℕ → Task) (p : ℕ) (y o : Option ℕ) (xs : List ℕ) (k : ℕ) (e : Option ℕ)
    → Siblings t p y o xs
    → Siblings (set_cptr k e t) p y o xs
Siblings-set_cptr t p y o [] k e s = s
Siblings-set_cptr t p y o (x ∷ xs) k e s =
    let older : (set_cptr k e t x).optr ≡ (t x).optr = ground arith in
    (
      s.0,
      ground (arith, s.1),
      ground (arith, s.2),
      Siblings-eq (set_cptr k e t) p (some x) xs older
          (Siblings-set_cptr t p (some x) (t x).optr xs k e s.3),
    )
