-- ===== src/Process/Family/GiveAway.antt =====
-- The loop of `do_exit` that gives all children of the current process to `initproc`
-- (lab5/kern/process/proc.c).
use nku_os.Base.{
  ℕ, zero, suc, ◌<◌, ◌≡◌, ◌≢◌, refl, sym, ap, ◌∙◌, subst, Bool, true, false, not, ◌&&◌, ◌||◌,
  Option, none, some, List, [], ◌∷◌, ◌==◌, length, Bool-cases, inl, inr, arith,
}
use nku_os.Base.Result.{ok}
use nku_os.Libs.ListOrder.{Off, Distinct}
use nku_os.Sched.Proc.{is_zombie, is_runnable}
use nku_os.Process.Table.{Task, Table, wt_child, wakeup_proc}
use nku_os.Process.Family.{set_yptr, set_optr, set_cptr, adopt, wake_init, give_away}
use nku_os.Process.Family.Siblings.{Older, Children}
use nku_os.Process.Family.Links.{
  SameLinks, awoken, same_self, awoken-SameLinks, Older-SameLinks, Children-SameLinks,
}
use nku_os.Process.Family.Adopt.{adopt-Children, adopt-Older}

-- The elements of the first list, one after the other, in front of the second.
pub onto : List ℕ → List ℕ → List ℕ
onto [] ys = ys
onto (x ∷ xs) ys = onto xs (x ∷ ys)

-- No element of the first list is in the second.
abbrev pub Apart : List ℕ → List ℕ → Type 0
Apart [] ys = Unit {0}
Apart (x ∷ xs) ys = Off x ys × Apart xs ys

Apart-cons : (c : ℕ) (xs ys : List ℕ) → Off c xs → Apart xs ys → Apart xs (c ∷ ys)
Apart-cons c [] ys out a = tt
Apart-cons c (x ∷ xs) ys out a = (((λ e. out.0 (sym e)), a.0), Apart-cons c xs ys out.1 a.1)

-- A step that changes no link, and no state but that of `initproc`, which is not a zombie and does
-- not stop being runnable.
pub record Quiet (s u : Table) : Type 0 where
  pub links : SameLinks s u
  pub state : (x : ℕ) → x ≢ s.initproc → (u.tasks x).state ≡ (s.tasks x).state
  pub exit_code : (x : ℕ) → (u.tasks x).exit_code ≡ (s.tasks x).exit_code
  pub alive : is_zombie (u.tasks s.initproc).state ≡ false
  pub awake :
      not (is_runnable (s.tasks s.initproc).state) || is_runnable (u.tasks s.initproc).state ≡ true

Quiet-self : (s : Table) → is_zombie (s.tasks s.initproc).state ≡ false → Quiet s s
Quiet-self s h = record {
  links = same_self s;
  state = λ x ne. refl;
  exit_code = λ x. refl;
  alive = h;
  awake = ground arith;
}

Quiet-woken : (s : Table) → Quiet s (awoken s.initproc s)
Quiet-woken s = record {
  links = awoken-SameLinks s.initproc s;
  state = λ x ne. ground arith;
  exit_code = λ x. ground arith;
  alive = ground arith;
  awake = ground arith;
}

wake_init-Quiet :
    (c : ℕ) (s : Table)
    → is_zombie (s.tasks s.initproc).state ≡ false
    → (u : Table) × (wake_init c s ≡ ok tt u) × Quiet s u
unfolding wake_init wakeup_proc
wake_init-Quiet c s h =
    elim (Bool-cases (is_zombie (s.tasks c).state && (s.tasks s.initproc).wait_state == wt_child)) [
      | inr e ↦ (s, rw e refl, Quiet-self s h)
      | inl e ↦ elim (Bool-cases (is_runnable (s.tasks s.initproc).state)) [
        | inl r ↦ (s, ground (arith, e, h, r), Quiet-self s h)
        | inr r ↦ (_, ground (arith, e, h, r), Quiet-woken s)
      ]
    ]

kept_state : (o z : Option ℕ) (t : ℕ → Task) (x : ℕ) → (set_yptr o z t x).state ≡ (t x).state
kept_state none z t x = refl
kept_state (some y) z t x = ground arith

adopt_state : (c p q : ℕ) (t : ℕ → Task) (x : ℕ) → (adopt c p q t x).state ≡ (t x).state
unfolding adopt
adopt_state c p q t x =
    let bare = set_yptr (some c) none (set_cptr p (t c).optr t) in
    let older = set_optr c (bare q).cptr bare in
    ground (arith, kept_state (bare q).cptr (some c) older x)

-- What the loop starts from, with the children `xs` of the current process and `ys` of `initproc`.
pub record Leaves (p q : ℕ) (xs ys : List ℕ) (s : Table) : Type 0 where
  pub current : s.current ≡ p
  pub initproc : s.initproc ≡ q
  pub differ : p ≢ q
  pub own : Older s.tasks (s.tasks p).cptr xs
  pub others : Children s.tasks q ys
  pub distinct : Distinct (p ∷ xs)
  pub init_out : Off q xs
  pub apart : Apart xs ys
  pub alive : is_zombie (s.tasks q).state ≡ false

kept_code : (o z : Option ℕ) (t : ℕ → Task) (x : ℕ) → (set_yptr o z t x).exit_code ≡ (t x).exit_code
kept_code none z t x = refl
kept_code (some y) z t x = ground arith

adopt_code : (c p q : ℕ) (t : ℕ → Task) (x : ℕ) → (adopt c p q t x).exit_code ≡ (t x).exit_code
unfolding adopt
adopt_code c p q t x =
    let bare = set_yptr (some c) none (set_cptr p (t c).optr t) in
    let older = set_optr c (bare q).cptr bare in
    ground (arith, kept_code (bare q).cptr (some c) older x)

-- The table after the links of one turn.
abbrev adopted : ℕ → ℕ → ℕ → Table → Table
adopted c p q s = record s { tasks = adopt c p q s.tasks }

give_step_here :
    (f c : ℕ) (s u : Table)
    → (s.tasks s.current).cptr ≡ some c
    → wake_init c (adopted c s.current s.initproc s) ≡ ok tt u
    → give_away (suc f) s ≡ give_away f u
unfolding give_away
give_step_here f c s u e w = rw (e, give_away) (rw (w, give_away) refl)

give_step :
    (f c p q : ℕ) (s u : Table)
    → s.current ≡ p
    → s.initproc ≡ q
    → (s.tasks p).cptr ≡ some c
    → wake_init c (adopted c p q s) ≡ ok tt u
    → give_away (suc f) s ≡ give_away f u
give_step f c p q s u ep eq =
    subst
      (λ p.
        (s.tasks p).cptr ≡ some c
        → wake_init c (adopted c p q s) ≡ ok tt u
        → give_away (suc f) s ≡ give_away f u)
      ep
      (subst
        (λ q.
          (s.tasks s.current).cptr ≡ some c
          → wake_init c (adopted c s.current q s) ≡ ok tt u
          → give_away (suc f) s ≡ give_away f u)
        eq (give_step_here f c s u))

give_end :
    (f : ℕ) (s : Table) → (s.tasks s.current).cptr ≡ none → give_away (suc f) s ≡ some (ok tt s)
unfolding give_away
give_end f s e = rw (e, give_away) refl

adopted-Leaves :
    (c p q : ℕ) (xs ys : List ℕ) (s u : Table)
    → Leaves p q (c ∷ xs) ys s
    → Quiet (adopted c p q s) u
    → Leaves p q xs (c ∷ ys) u
adopted-Leaves c p q xs ys s u h k = record {
  current = k.links.current ∙ h.current;
  initproc = k.links.initproc ∙ h.initproc;
  differ = h.differ;
  own =
      subst (λ o. Older u.tasks o xs) (sym (k.links.cptr p))
        (Older-SameLinks (adopted c p q s) u (adopt c p q s.tasks p).cptr xs k.links
          (adopt-Older c p q xs s.tasks h.differ h.distinct.1.0 h.own));
  others =
      Children-SameLinks (adopted c p q s) u q (c ∷ ys) k.links (
        adopt-Children c p q ys s.tasks h.differ ((λ e. h.init_out.0 (sym e)), h.apart.0) h.others);
  distinct = (h.distinct.0.1, h.distinct.1.1);
  init_out = h.init_out.1;
  apart = Apart-cons c xs ys h.distinct.1.0 h.apart.1;
  alive = subst (λ q. is_zombie (u.tasks q).state ≡ false) h.initproc k.alive;
}

awake_trans : (a b c : Bool) → not a || b ≡ true → not b || c ≡ true → not a || c ≡ true
awake_trans a b c e f = ground (arith, e, f)

adopted-awake :
    (c p q : ℕ) (s u : Table)
    → s.initproc ≡ q
    → Quiet (adopted c p q s) u
    → not (is_runnable (s.tasks q).state) || is_runnable (u.tasks q).state ≡ true
adopted-awake c p q s u e k =
    subst (λ a. not (is_runnable a) || is_runnable (u.tasks q).state ≡ true)
      (adopt_state c p q s.tasks q)
      (subst
        (λ i.
          not (is_runnable (adopt c p q s.tasks i).state) || is_runnable (u.tasks i).state ≡ true)
        e k.awake)

-- What the loop leaves.
pub record Left (p q : ℕ) (zs : List ℕ) (s u : Table) : Type 0 where
  pub children : Children u.tasks q zs
  pub childless : (u.tasks p).cptr ≡ none
  pub state : (x : ℕ) → x ≢ q → (u.tasks x).state ≡ (s.tasks x).state
  pub exit_code : (x : ℕ) → (u.tasks x).exit_code ≡ (s.tasks x).exit_code
  pub awake : not (is_runnable (s.tasks q).state) || is_runnable (u.tasks q).state ≡ true

pub give_away-Left :
    (f p q : ℕ) (xs ys : List ℕ) (s : Table)
    → Leaves p q xs ys s
    → length xs < f
    → (u : Table) × (give_away f s ≡ some (ok tt u)) × Left p q (onto xs ys) s u
unfolding onto
give_away-Left zero p q xs ys s h l = absurd (omega arith)
give_away-Left (suc f) p q [] ys s h l = (
  s,
  give_end f s (subst (λ p. (s.tasks p).cptr ≡ none) (sym h.current) h.own),
  record {
    children = h.others;
    childless = h.own;
    state = λ x ne. refl;
    exit_code = λ x. refl;
    awake = ground arith;
  },
)
give_away-Left (suc f) p q (c ∷ xs) ys s h l =
    let alive : is_zombie (adopt c p q s.tasks s.initproc).state ≡ false =
      ap is_zombie (adopt_state c p q s.tasks s.initproc)
      ∙ subst (λ q. is_zombie (s.tasks q).state ≡ false) (sym h.initproc) h.alive in
    let (u, woke, k) = wake_init-Quiet c (adopted c p q s) alive in
    let (t, runs, done) =
      give_away-Left f p q xs (c ∷ ys) u (adopted-Leaves c p q xs ys s u h k) (omega arith) in
    (
      t,
      give_step f c p q s u h.current h.initproc h.own.0 woke ∙ runs,
      record {
        children = done.children;
        childless = done.childless;
        state = λ x ne.
            done.state x ne ∙ k.state x (λ e. ne (e ∙ h.initproc)) ∙ adopt_state c p q s.tasks x;
        exit_code = λ x. done.exit_code x ∙ k.exit_code x ∙ adopt_code c p q s.tasks x;
        awake =
            awake_trans (is_runnable (s.tasks q).state) (is_runnable (u.tasks q).state)
              (is_runnable (t.tasks q).state) (adopted-awake c p q s u h.initproc k) done.awake;
      },
    )
