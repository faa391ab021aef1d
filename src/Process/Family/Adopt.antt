-- ===== src/Process/Family/Adopt.antt =====
-- A process joins the children of another, by `set_links` or by the loop of `do_exit`
-- (lab5/kern/process/proc.c).
use nku_os.Base.{ℕ, ◌≡◌, ◌≢◌, refl, sym, ◌∙◌, subst, Option, none, some, List, [], ◌∷◌, arith}
use nku_os.Libs.ListOrder.{Off, Distinct}
use nku_os.Process.Table.{Task}
use nku_os.Process.Family.{set_yptr, set_optr, set_cptr, set_parent, link_child, adopt}
use nku_os.Process.Family.Siblings.{
  Siblings, Older, Children, Siblings-eq, Siblings-update, Siblings-yptr, Siblings-set_cptr,
}

-- The stores that `set_links` and the loop share: `c` goes in front of the children of `q`, but the
-- link from `q` is not yet made.
abbrev in_front : ℕ → ℕ → (ℕ → Task) → ℕ → Task
in_front c q t =
    let bare = set_yptr (some c) none t in
    set_yptr (bare q).cptr (some c) (set_optr c (bare q).cptr bare)

-- What they leave, for children `ys` of `q`.
record InFront (c q : ℕ) (o : Option ℕ) (ys : List ℕ) (t : ℕ → Task) : Type 0 where
  older : (t c).optr ≡ o
  first : (t c).yptr ≡ none
  rest : Siblings t q (some c) o ys

-- A store to the first of the children reaches no other process.
first_yptr :
    (c q : ℕ) (o z : Option ℕ) (ys : List ℕ) (t : ℕ → Task)
    → Off c ys
    → Siblings t q none o ys
    → (set_yptr o z t c).yptr ≡ (t c).yptr
first_yptr c q o z [] t out s = subst (λ o. (set_yptr o z t c).yptr ≡ (t c).yptr) (sym s) refl
first_yptr c q o z (y ∷ ys) t out s =
    subst (λ o. (set_yptr o z t c).yptr ≡ (t c).yptr) (sym s.0) (ground (arith, out.0))

pub kept_optr : (o z : Option ℕ) (t : ℕ → Task) (c : ℕ) → (set_yptr o z t c).optr ≡ (t c).optr
kept_optr none z t c = refl
kept_optr (some y) z t c = ground arith

InFront-at :
    (c q : ℕ) (o : Option ℕ) (ys : List ℕ) (t : ℕ → Task)
    → Off c ys
    → Distinct ys
    → Siblings t q none o ys
    → InFront c q o ys (set_yptr o (some c) (set_optr c o (set_yptr (some c) none t)))
InFront-at c q o ys t out d s =
    let bare = set_yptr (some c) none t in
    let older = set_optr c o bare in
    let kept : Siblings older q none o ys =
      Siblings-update bare q none o ys c _ out (Siblings-update t q none o ys c _ out s) in
    record {
      older = kept_optr o (some c) older c ∙ ground arith;
      first = first_yptr c q o (some c) ys older out kept ∙ ground arith;
      rest = Siblings-yptr older q none o (some c) ys d kept;
    }

in_front-InFront :
    (c q : ℕ) (ys : List ℕ) (t : ℕ → Task)
    → Off c ys
    → Distinct ys
    → Siblings t q none (t q).cptr ys
    → InFront c q (t q).cptr ys (in_front c q t)
in_front-InFront c q ys t out d s =
    let bare = set_yptr (some c) none t in
    let same : (t q).cptr ≡ (bare q).cptr = ground arith in
    subst (λ o. InFront c q (t q).cptr ys (set_yptr o (some c) (set_optr c o bare))) same
      (InFront-at c q (t q).cptr ys t out d s)

-- The link from `q` closes the chain.
closes :
    (c q : ℕ) (o : Option ℕ) (ys : List ℕ) (t : ℕ → Task)
    → c ≢ q
    → Off q ys
    → (t c).parent ≡ some q
    → InFront c q o ys t
    → Siblings (set_cptr q (some c) t) q none (set_cptr q (some c) t q).cptr (c ∷ ys)
closes c q o ys t ne out par f =
    let u = set_cptr q (some c) t in
    let older : (u c).optr ≡ o = ground (arith, f.older) in
    (
      ground arith,
      ground (arith, par),
      ground (arith, f.first),
      Siblings-eq u q (some c) ys older (Siblings-update t q (some c) o ys q _ out f.rest),
    )

kept_parent : (o z : Option ℕ) (t : ℕ → Task) (c : ℕ) → (set_yptr o z t c).parent ≡ (t c).parent
kept_parent none z t c = refl
kept_parent (some y) z t c = ground arith

in_front_parent : (c q : ℕ) (t : ℕ → Task) → (in_front c q t c).parent ≡ (t c).parent
in_front_parent c q t =
    let bare = set_yptr (some c) none t in
    kept_parent (bare q).cptr (some c) (set_optr c (bare q).cptr bare) c ∙ ground arith

-- `set_links` of a child of `q` that is not linked yet puts it in front of the children of `q`.
pub link_child-Children :
    (c q : ℕ) (ys : List ℕ) (t : ℕ → Task)
    → Off c (q ∷ ys)
    → (t c).parent ≡ some q
    → Children t q ys
    → Children (link_child c q t) q (c ∷ ys)
unfolding link_child
link_child-Children c q ys t out par h = record {
  links =
      closes c q (t q).cptr ys (in_front c q t) out.0 h.distinct.0 (in_front_parent c q t ∙ par)
        (in_front-InFront c q ys t out.1 h.distinct.1 h.links);
  distinct = (((λ e. out.0 (sym e)), h.distinct.0), (out.1, h.distinct.1));
}

InFront-parent :
    (c q : ℕ) (o : Option ℕ) (ys : List ℕ) (t : ℕ → Task)
    → Off c ys
    → InFront c q o ys t
    → InFront c q o ys (set_parent c q t)
InFront-parent c q o ys t out f = record {
  older = ground (arith, f.older);
  first = ground (arith, f.first);
  rest = Siblings-update t q (some c) o ys c _ out f.rest;
}

-- One turn of the loop of `do_exit`: the child goes in front of the children of `q`.
pub adopt-Children :
    (c p q : ℕ) (ys : List ℕ) (t : ℕ → Task)
    → p ≢ q
    → Off c (q ∷ ys)
    → Children t q ys
    → Children (adopt c p q t) q (c ∷ ys)
unfolding adopt
adopt-Children c p q ys t ne out h =
    let cut = set_cptr p (t c).optr t in
    let same : (cut q).cptr ≡ (t q).cptr = ground (arith, ne) in
    let kept : Siblings cut q none (cut q).cptr ys =
      Siblings-eq cut q none ys same
        (Siblings-set_cptr t q none (t q).cptr ys p (t c).optr h.links) in
    let front =
      InFront-parent c q (cut q).cptr ys (in_front c q cut) out.1
        (in_front-InFront c q ys cut out.1 h.distinct.1 kept) in
    record {
      links =
          closes c q (cut q).cptr ys (set_parent c q (in_front c q cut)) out.0 h.distinct.0
            (ground arith) front;
      distinct = (((λ e. out.0 (sym e)), h.distinct.0), (out.1, h.distinct.1));
    }

adopt_optr : (c p q : ℕ) (t : ℕ → Task) (x : ℕ) → x ≢ c → (adopt c p q t x).optr ≡ (t x).optr
unfolding adopt
adopt_optr c p q t x ne =
    let cut = set_cptr p (t c).optr t in
    let bare = set_yptr (some c) none cut in
    let mid : (in_front c q cut x).optr ≡ (set_optr c (bare q).cptr bare x).optr =
      kept_optr (bare q).cptr (some c) (set_optr c (bare q).cptr bare) x in
    ground (arith, mid)

pub kept_cptr : (o z : Option ℕ) (t : ℕ → Task) (c : ℕ) → (set_yptr o z t c).cptr ≡ (t c).cptr
kept_cptr none z t c = refl
kept_cptr (some y) z t c = ground arith

adopt_cptr : (c p q : ℕ) (t : ℕ → Task) → p ≢ q → (adopt c p q t p).cptr ≡ (t c).optr
unfolding adopt
adopt_cptr c p q t ne =
    let cut = set_cptr p (t c).optr t in
    let bare = set_yptr (some c) none cut in
    let mid : (in_front c q cut p).cptr ≡ (set_optr c (bare q).cptr bare p).cptr =
      kept_cptr (bare q).cptr (some c) (set_optr c (bare q).cptr bare) p in
    ground (arith, mid)

Older-same :
    (t t' : ℕ → Task) (c : ℕ) (o : Option ℕ) (xs : List ℕ)
    → Off c xs
    → ((x : ℕ) → x ≢ c → (t' x).optr ≡ (t x).optr)
    → Older t o xs
    → Older t' o xs
Older-same t t' c o [] out same s = s
Older-same t t' c o (x ∷ xs) out same s = (
  s.0,
  subst (λ o. Older t' o xs) (sym (same x λ e. out.0 (sym e)))
      (Older-same t t' c (t x).optr xs out.1 same s.1),
)

-- The other children of `p` stay in line.
pub adopt-Older :
    (c p q : ℕ) (xs : List ℕ) (t : ℕ → Task)
    → p ≢ q
    → Off c xs
    → Older t (t p).cptr (c ∷ xs)
    → Older (adopt c p q t) (adopt c p q t p).cptr xs
adopt-Older c p q xs t ne out s =
    subst (λ o. Older (adopt c p q t) o xs) (sym (adopt_cptr c p q t ne))
      (Older-same t (adopt c p q t) c (t c).optr xs out (adopt_optr c p q t) s.1)
