-- ===== src/Process/Family/Cut.antt =====
-- A process leaves the children of another: `remove_links` of lab5/kern/process/proc.c.
use nku_os.Base.{
  ℕ, ◌≡◌, ◌≢◌, refl, sym, ap, ◌∙◌, subst, Option, none, some, List, [], ◌∷◌, ◌++◌, arith,
}
use nku_os.Libs.ListOrder.{Off, Distinct}
use nku_os.Process.Table.{Task}
use nku_os.Process.Family.{set_yptr, set_optr, set_cptr, unlink_child}
use nku_os.Process.Family.Siblings.{Siblings, Children, Siblings-eq, Siblings-update, Siblings-yptr}
use nku_os.Process.Family.Adopt.{kept_cptr}

Off-parts :
    (k c : ℕ) (xs ys : List ℕ) → Off k (xs ++ c ∷ ys) → Off k ys × (k ≢ c) × Off k (xs ++ ys)
Off-parts k c [] ys out = (out.1, out.0, out.1)
Off-parts k c (x ∷ xs) ys out = let (a, b, d) = Off-parts k c xs ys out.1 in (a, b, (out.0, d))

Distinct-parts :
    (c : ℕ) (xs ys : List ℕ)
    → Distinct (xs ++ c ∷ ys)
    → Distinct ys × Off c ys × Distinct (xs ++ ys)
Distinct-parts c [] ys d = (d.1, d.0, d.1)
Distinct-parts c (x ∷ xs) ys d =
    let (a, b, e) = Distinct-parts c xs ys d.1 in
    let (u, v, w) = Off-parts x c xs ys d.0 in (a, b, (w, e))

-- The last of some siblings.
abbrev last_of : ℕ → List ℕ → ℕ
last_of x [] = x
last_of x (y ∷ ys) = last_of y ys

Off-last_of : (k c x : ℕ) (xs ys : List ℕ) → Off k (x ∷ xs ++ c ∷ ys) → k ≢ last_of x xs
Off-last_of k c x [] ys out = out.0
Off-last_of k c x (y ∷ xs) ys out = Off-last_of k c y xs ys out.1

pub Siblings-tail :
    (t : ℕ → Task) (p x : ℕ) (y o : Option ℕ) (xs : List ℕ)
    → Siblings t p y o (x ∷ xs)
    → Siblings t p (some x) (t x).optr xs
Siblings-tail t p x y o xs s = s.3

-- What the chain says of the process that is to leave.
at_end :
    (t : ℕ → Task) (p c x : ℕ) (y o : Option ℕ) (xs ys : List ℕ)
    → Siblings t p y o (x ∷ xs ++ c ∷ ys)
    → ((t c).yptr ≡ some (last_of x xs)) × Siblings t p (some c) (t c).optr ys
at_end t p c x y o [] ys s =
    let r : Siblings t p (some x) (t x).optr (c ∷ ys) = Siblings-tail t p x y o (c ∷ ys) s in
    (r.2, Siblings-tail t p c (some x) (t x).optr ys r)
at_end t p c x y o (z ∷ xs) ys s =
    at_end t p c z (some x) (t x).optr xs ys (Siblings-tail t p x y o (z ∷ xs ++ c ∷ ys) s)

-- A store to the first of some siblings reaches no other process.
first_other :
    (t : ℕ → Task) (p x : ℕ) (y o z : Option ℕ) (ys : List ℕ)
    → Off x ys
    → Siblings t p y o ys
    → set_yptr o z t x ≡ t x
first_other t p x y o z [] out s = subst (λ o. set_yptr o z t x ≡ t x) (sym s) refl
first_other t p x y o z (a ∷ ys) out s =
    subst (λ o. set_yptr o z t x ≡ t x) (sym s.0) (ground (arith, out.0))

-- The stores of `remove_links` at the neighbours of a process that is not the first child.
abbrev joined : ℕ → Option ℕ → (ℕ → Task) → ℕ → Task
joined w o t = set_optr w o (set_yptr o (some w) t)

Siblings-joined :
    (t : ℕ → Task) (p c x : ℕ) (y o e : Option ℕ) (xs ys : List ℕ)
    → Distinct (x ∷ xs ++ c ∷ ys)
    → Siblings t p (some c) e ys
    → Siblings t p y o (x ∷ xs ++ c ∷ ys)
    → Siblings (joined (last_of x xs) e t) p y o (x ∷ xs ++ ys)
Siblings-joined t p c x y o e [] ys d rest s =
    let u = set_yptr e (some x) t in
    let same : u x ≡ t x = first_other t p x (some c) e (some x) ys d.0.1 rest in
    let kept : Siblings u p (some x) e ys = Siblings-yptr t p (some c) e (some x) ys d.1.1 rest in
    let older : (joined x e t x).optr ≡ e = ground arith in
    let parent : (joined x e t x).parent ≡ (t x).parent = ground (arith, ap (λ v. v.parent) same) in
    let younger : (joined x e t x).yptr ≡ (t x).yptr = ground (arith, ap (λ v. v.yptr) same) in
    (
      s.0,
      parent ∙ s.1,
      younger ∙ s.2,
      Siblings-eq (joined x e t) p (some x) ys older
          (Siblings-update u p (some x) e ys x _ d.0.1 kept),
    )
Siblings-joined t p c x y o e (z ∷ xs) ys d rest s =
    let w = last_of z xs in
    let (a, _, _) = Off-parts x c (z ∷ xs) ys d.0 in
    let same : joined w e t x ≡ t x =
      other (set_yptr e (some w) t) w x e (λ q. Off-last_of x c z xs ys d.0 (sym q))
      ∙ first_other t p x (some c) e (some w) ys a rest in
    (
      s.0,
      ap (λ v. v.parent) same ∙ s.1,
      ap (λ v. v.yptr) same ∙ s.2,
      Siblings-eq (joined w e t) p (some x) (z ∷ xs ++ ys) (ap (λ v. v.optr) same) (
          Siblings-joined t p c z (some x) (t x).optr e xs ys d.1 rest
            (Siblings-tail t p x y o (z ∷ xs ++ c ∷ ys) s)),
    )
  where
    other : (t : ℕ → Task) (w x : ℕ) (e : Option ℕ) → w ≢ x → set_optr w e t x ≡ t x
    other t w x e ne = ground (arith, ne)

abbrev cut_at : ℕ → Option ℕ → Option ℕ → (ℕ → Task) → ℕ → Task
cut_at q e none t = set_cptr q e (set_yptr e none t)
cut_at q e (some w) t = joined w e t

cut_child : ℕ → Option ℕ → Option ℕ → (ℕ → Task) → ℕ → Task
cut_child q e none u = set_cptr q e u
cut_child q e (some w) u = set_optr w e u

cut_child-elim :
    (q : ℕ) (e y : Option ℕ) (u : ℕ → Task)
    → elim y [ none ↦ set_cptr q e u | some w ↦ set_optr w e u ] ≡ cut_child q e y u
unfolding cut_child
cut_child-elim q e none u = refl
cut_child-elim q e (some w) u = refl

cut_child-at :
    (q : ℕ) (e y : Option ℕ) (t : ℕ → Task) → cut_child q e y (set_yptr e y t) ≡ cut_at q e y t
unfolding cut_child
cut_child-at q e none t = refl
cut_child-at q e (some w) t = refl

unlink_run :
    (c q : ℕ) (y : Option ℕ) (ys : List ℕ) (t : ℕ → Task)
    → Off c ys
    → Siblings t q (some c) (t c).optr ys
    → (t c).yptr ≡ y
    → unlink_child c q t ≡ cut_at q (t c).optr y t
unfolding unlink_child
unlink_run c q y ys t out rest e =
    let u = set_yptr (t c).optr (t c).yptr t in
    let same : u c ≡ t c = first_other t q c (some c) (t c).optr (t c).yptr ys out rest in
    cut_child-elim q (u c).optr (u c).yptr u
    ∙ ap (λ v. cut_child q v.optr v.yptr u) same
    ∙ ap (λ y. cut_child q (t c).optr y (set_yptr (t c).optr y t)) e
    ∙ cut_child-at q (t c).optr y t

-- `remove_links` takes a child out of the children of `q`, wherever it stands among them.
pub unlink_child-Children :
    (c q : ℕ) (xs ys : List ℕ) (t : ℕ → Task)
    → Children t q (xs ++ c ∷ ys)
    → Children (unlink_child c q t) q (xs ++ ys)
unlink_child-Children c q [] ys t h =
    let e = (t c).optr in
    let rest = Siblings-tail t q c none (t q).cptr ys h.links in
    let u = set_yptr e none t in
    let kept : Siblings u q none e ys = Siblings-yptr t q (some c) e none ys h.distinct.1.1 rest in
    let first : (set_cptr q e u q).cptr ≡ e = ground arith in
    subst (λ v. Children v q ys) (sym (unlink_run c q none ys t h.distinct.1.0 rest h.links.2))
      (record {
        links =
            Siblings-eq (set_cptr q e u) q none ys first
              (Siblings-update u q none e ys q _ h.distinct.0.1 kept);
        distinct = (h.distinct.0.1, h.distinct.1.1);
      })
unlink_child-Children c q (x ∷ xs) ys t h =
    let e = (t c).optr in
    let w = last_of x xs in
    let (younger, rest) = at_end t q c x none (t q).cptr xs ys h.links in
    let (_, out, distinct) = Distinct-parts c (q ∷ x ∷ xs) ys h.distinct in
    let first : (joined w e t q).cptr ≡ (t q).cptr =
      other (set_yptr e (some w) t) w q e ∙ kept_cptr e (some w) t q in
    subst (λ v. Children v q (x ∷ xs ++ ys)) (sym (unlink_run c q (some w) ys t out rest younger))
      (record {
        links =
            Siblings-eq (joined w e t) q none (x ∷ xs ++ ys) first
              (Siblings-joined t q c x none (t q).cptr e xs ys h.distinct.1 rest h.links);
        distinct = distinct;
      })
  where
    other : (t : ℕ → Task) (w x : ℕ) (e : Option ℕ) → (set_optr w e t x).cptr ≡ (t x).cptr
    other t w x e = ground arith

set_yptr_pid : (o z : Option ℕ) (t : ℕ → Task) (x : ℕ) → (set_yptr o z t x).pid ≡ (t x).pid
set_yptr_pid none z t x = refl
set_yptr_pid (some y) z t x = ground arith

cut_child_pid :
    (q : ℕ) (e y : Option ℕ) (u : ℕ → Task) (x : ℕ) → (cut_child q e y u x).pid ≡ (u x).pid
unfolding cut_child
cut_child_pid q e none u x = ground arith
cut_child_pid q e (some w) u x = ground arith

pub unlink_child_pid : (c q : ℕ) (t : ℕ → Task) (x : ℕ) → (unlink_child c q t x).pid ≡ (t x).pid
unfolding unlink_child
unlink_child_pid c q t x =
    let u = set_yptr (t c).optr (t c).yptr t in
    ap (λ v. (v x).pid) (cut_child-elim q (u c).optr (u c).yptr u)
    ∙ cut_child_pid q (u c).optr (u c).yptr u x
    ∙ set_yptr_pid (t c).optr (t c).yptr t x
