-- ===== src/Process/Life/Fork/Enter.antt =====
-- The entry of a new process into the hash list and the links (`do_fork` of
-- lab5/kern/process/proc.c).
use nku_os.Base.{
  ℕ, ◌+◌, ◌≡◌, ◌≢◌, refl, ap, ◌∙◌, Option, none, some, List, [], ◌∷◌, map, update, arith,
}
use nku_os.Base.Result.{Result, ok, ◌>>◌, >>-ok, modify}
use nku_os.Libs.ListOrder.{Off}
use nku_os.Sched.Proc.{proc_uninit}
use nku_os.Process.Table.{Task, Table, hash_proc, wakeup_proc}
use nku_os.Process.Family.{set_yptr, set_optr, link_child, set_links}
use nku_os.Process.Family.Siblings.{Children, Siblings-eq, Siblings-update}
use nku_os.Process.Family.Links.{awoken}
use nku_os.Process.Life.{enter}

pub Children-update :
    (t : ℕ → Task) (q : ℕ) (ys : List ℕ) (k : ℕ) (v : Task)
    → Off k (q ∷ ys)
    → Children t q ys
    → Children (update t k v) q ys
Children-update t q ys k v out h =
    let same : (update t k v q).cptr ≡ (t q).cptr = ground (arith, out.0) in
    record {
      links =
          Siblings-eq (update t k v) q none ys same
            (Siblings-update t q none (t q).cptr ys k v out.1 h.links);
      distinct = h.distinct;
    }

-- The stores to links change neither state nor pid.
pub record SameBody (t u : ℕ → Task) : Type 0 where
  pub state : (x : ℕ) → (u x).state ≡ (t x).state
  pub pid : (x : ℕ) → (u x).pid ≡ (t x).pid

body_trans : {t u v : ℕ → Task} → SameBody t u → SameBody u v → SameBody t v
body_trans a b = record { state = λ x. b.state x ∙ a.state x; pid = λ x. b.pid x ∙ a.pid x }

set_yptr-SameBody : (o z : Option ℕ) (t : ℕ → Task) → SameBody t (set_yptr o z t)
set_yptr-SameBody none z t = record { state = λ x. refl; pid = λ x. refl }
set_yptr-SameBody (some y) z t = record { state = λ x. ground arith; pid = λ x. ground arith }

pub link_child-SameBody : (p q : ℕ) (t : ℕ → Task) → SameBody t (link_child p q t)
unfolding link_child
link_child-SameBody p q t =
    let bare = set_yptr (some p) none t in
    let older = set_optr p (bare q).cptr bare in
    let linked = set_yptr (bare q).cptr (some p) older in
    let one : SameBody t bare = set_yptr-SameBody (some p) none t in
    let two : SameBody bare older = record { state = λ x. ground arith; pid = λ x. ground arith } in
    let four : SameBody linked (link_child p q t) = record {
      state = λ x. ground arith;
      pid = λ x. ground arith;
    } in
    body_trans one
      (body_trans two (body_trans (set_yptr-SameBody (bare q).cptr (some p) older) four))

pub map_same :
    (f g : ℕ → ℕ) (a p : ℕ) (xs : List ℕ)
    → Off a xs
    → Off p xs
    → ((x : ℕ) → a ≢ x → p ≢ x → f x ≡ g x)
    → map f xs ≡ map g xs
map_same f g a p [] oa op h = refl
map_same f g a p (x ∷ xs) oa op h = rw (h x oa.0 op.0, map_same f g a p xs oa.1 op.1 h) refl

-- The table after `hash_proc` and `set_links` of a child `p` of `q`.
unfoldable pub hashed_in : ℕ → ℕ → Table → Table
unfolding hash_proc link_child
hashed_in p q s =
    let t = hash_proc p s in
    record t {
      proc_list = p ∷ t.proc_list;
      tasks = link_child p q t.tasks;
      nr_process = t.nr_process + 1;
    }

wake_new :
    (p : ℕ) (s : Table) → (s.tasks p).state ≡ proc_uninit → wakeup_proc p s ≡ ok tt (awoken p s)
unfolding wakeup_proc
wake_new p s new = ground (arith, new)

set_links_run :
    (p q : ℕ) (s : Table)
    → (s.tasks p).parent ≡ some q
    → set_links p s
      ≡ ok tt (record s {
        proc_list = p ∷ s.proc_list;
        tasks = link_child p q s.tasks;
        nr_process = s.nr_process + 1;
      })
unfolding set_links
set_links_run p q s par = ground (arith, par)

pub enter_run :
    (p q : ℕ) (s : Table)
    → (s.tasks p).parent ≡ some q
    → (s.tasks p).state ≡ proc_uninit
    → enter p s ≡ ok (s.tasks p).pid (awoken p (hashed_in p q s))
unfolding hashed_in enter
enter_run p q s par new =
    let body = link_child-SameBody p q s.tasks in
    let pid : ((awoken p (hashed_in p q s)).tasks p).pid ≡ (s.tasks p).pid =
      ground (arith, body.pid p) in
    let last : Table → Result Table ℕ = λ s. ok (s.tasks p).pid s in
    >>-ok (modify (hash_proc p)) (set_links p >> (wakeup_proc p >> last)) {s = s} refl (
      >>-ok (set_links p) (wakeup_proc p >> last) {s = hash_proc p s}
        (set_links_run p q (hash_proc p s) par)
        (>>-ok (wakeup_proc p) last {s = hashed_in p q s}
          (wake_new p (hashed_in p q s) (body.state p ∙ new))
          (ap (λ n. ok n (awoken p (hashed_in p q s))) pid)))
