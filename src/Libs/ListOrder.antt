-- ===== src/Libs/ListOrder.antt =====
-- The links of lab8/libs/list.h represent a sequence of entries between two addresses.
pub mod Splice
use nku_os.Base.{ℕ, ◌≡◌, ◌≢◌, ◌↔◌, sym, subst, refl, List, [], ◌∷◌, ◌++◌, true, update, arith}
use nku_os.Libs.ListEntry.{
  Links, list_init, list_link, list_unlink, list_add_after, list_add, list_add_before, list_del,
  list_empty,
}

-- From `a` the links lead through `xs` to `b`, and back.
abbrev pub Chain : Links → ℕ → List ℕ → ℕ → Type 0
Chain l a [] b = (l.next a ≡ b) × (l.prev b ≡ a)
Chain l a (x ∷ xs) b = (l.next a ≡ x) × (l.prev x ≡ a) × Chain l x xs b

abbrev pub Off : ℕ → List ℕ → Type 0
Off k [] = Unit {0}
Off k (x ∷ xs) = (k ≢ x) × Off k xs

abbrev pub Distinct : List ℕ → Type 0
Distinct [] = Unit {0}
Distinct (x ∷ xs) = Off x xs × Distinct xs

-- The list with this head holds these entries.
pub record Holds (l : Links) (head : ℕ) (xs : List ℕ) : Type 0 where
  pub chain : Chain l head xs head
  pub distinct : Distinct (head ∷ xs)

-- A store to `next` outside `a ∷ xs`, and one to `prev` outside `xs` and `b`, keep a chain.
pub Chain-next :
    (l : Links) (a : ℕ) (xs : List ℕ) (b k v : ℕ)
    → Off k (a ∷ xs)
    → Chain l a xs b
    → Chain (record l { next = update l.next k v }) a xs b
Chain-next l a [] b k v o c = ground arith
Chain-next l a (x ∷ xs) b k v o c = (ground arith, c.1, Chain-next l x xs b k v o.1 c.2)

pub Chain-prev :
    (l : Links) (a : ℕ) (xs : List ℕ) (b k v : ℕ)
    → Off k xs
    → k ≢ b
    → Chain l a xs b
    → Chain (record l { prev = update l.prev k v }) a xs b
Chain-prev l a [] b k v o ne c = ground arith
Chain-prev l a (x ∷ xs) b k v o ne c = (c.0, ground arith, Chain-prev l x xs b k v o.1 ne c.2)

-- Both stores of a link at once.
pub Chain-link :
    (l : Links) (e p n a : ℕ) (xs : List ℕ) (b : ℕ)
    → Off e (a ∷ xs)
    → e ≢ b
    → Off p (a ∷ xs)
    → Off n xs
    → n ≢ b
    → Chain l a xs b
    → Chain (list_link e p n l) a xs b
unfolding list_link
Chain-link l e p n a xs b oe eb op on nb c =
    Chain-prev _ a xs b e p oe.1 eb
      (Chain-prev _ a xs b n e on nb (Chain-next _ a xs b e n oe (Chain-next l a xs b p e op c)))

-- The last entry before `b` is one of the chain.
last-Off :
    (l : Links) (a : ℕ) (xs : List ℕ) (b k : ℕ) → Off k (a ∷ xs) → Chain l a xs b → k ≢ l.prev b
last-Off l a [] b k o c = ground (arith, o.0, c.1)
last-Off l a (x ∷ xs) b k o c = last-Off l x xs b k o.1 c.2

-- A new entry after the start of a chain.
pub after_Chain :
    (l : Links) (e a : ℕ) (ys : List ℕ) (b : ℕ)
    → Off e (a ∷ ys)
    → e ≢ b
    → Off b ys
    → Distinct (a ∷ ys)
    → Chain l a ys b
    → Chain (list_add_after a e l) a (e ∷ ys) b
unfolding list_add_after list_link
after_Chain l e a [] b o ne nb d c = ground (arith, o.0, ne, c.0, c.1)
after_Chain l e a (y ∷ ys) b o ne nb d c = (
  ground (arith, o.0),
  ground arith,
  (
    ground (arith, c.0),
    ground (arith, c.0, o.1.0),
    Chain-link l e a (l.next a) y ys b o.1 ne d.0 (rw c.0 d.1.0) (rw c.0 (λ q. nb.0 (sym q))) c.2,
  ),
)

-- A new entry before the end of a chain.
before_Chain :
    (l : Links) (e a : ℕ) (xs : List ℕ) (b : ℕ)
    → Off e (a ∷ xs)
    → e ≢ b
    → Off b xs
    → Distinct (a ∷ xs)
    → Chain l a xs b
    → Chain (list_add_before b e l) a (xs ++ e ∷ []) b
unfolding list_add_before list_link
before_Chain l e a [] b o ne nb d c = ground (arith, o.0, ne, c.0, c.1)
before_Chain l e a (x ∷ xs) b o ne nb d c = (
  ground (arith, o.0, c.0, last-Off l x xs b a d.0 c.2),
  ground (arith, o.1.0, nb.0, c.1),
  before_Chain l e x xs b o.1 ne nb.1 d.1 c.2,
)

-- The first entry leaves a chain.
pub first_Chain :
    (l : Links) (a x : ℕ) (xs : List ℕ) (b : ℕ)
    → Off b (x ∷ xs)
    → Distinct (a ∷ x ∷ xs)
    → Chain l a (x ∷ xs) b
    → Chain (list_del x l) a xs b
unfolding list_del list_unlink
first_Chain l a x [] b nb d c = ground (arith, c.0, c.1, c.2)
first_Chain l a x (y ∷ ys) b nb d c = (
  ground (arith, c.1, c.2.0),
  ground (arith, c.1, c.2.0),
  Chain-prev _ y ys b (l.next x) (l.prev x) (rw c.2.0 d.1.1.0) (rw c.2.0 (λ q. nb.1.0 (sym q))) (
      Chain-next l y ys b (l.prev x) (l.next x) (subst (λ k. Off k (y ∷ ys)) (sym c.1) d.0.1)
        c.2.2),
)

pub Off-append : (k : ℕ) (xs : List ℕ) (e : ℕ) → Off k xs → k ≢ e → Off k (xs ++ e ∷ [])
Off-append k [] e o ne = (ne, tt)
Off-append k (x ∷ xs) e o ne = (o.0, Off-append k xs e o.1 ne)

pub Distinct-append : (xs : List ℕ) (e : ℕ) → Off e xs → Distinct xs → Distinct (xs ++ e ∷ [])
Distinct-append [] e o d = (tt, tt)
Distinct-append (x ∷ xs) e o d =
    (Off-append x xs e d.0 (λ q. o.0 (sym q)), Distinct-append xs e o.1 d.1)

-- `list_init` makes the empty list.
pub list_init-Holds : (head : ℕ) (l : Links) → Holds (list_init head l) head []
unfolding list_init
list_init-Holds head l = record { chain = ground arith; distinct = (tt, tt) }

-- `list_add` at the head of a well linked list puts an entry that is not in it in front.
pub list_add-Holds :
    {l : Links} {head : ℕ} {xs : List ℕ} (e : ℕ)
    → Holds l head xs
    → Off e (head ∷ xs)
    → Holds (list_add head e l) head (e ∷ xs)
unfolding list_add
list_add-Holds {l} {head} {xs} e h o = record {
  chain = after_Chain l e head xs head o o.0 h.distinct.0 h.distinct h.chain;
  distinct = (((λ q. o.0 (sym q)), h.distinct.0), (o.1, h.distinct.1));
}

-- `list_add_before` at the head of a well linked list puts an entry that is not in it at the back.
pub list_add_before-Holds :
    {l : Links} {head : ℕ} {xs : List ℕ} (e : ℕ)
    → Holds l head xs
    → Off e (head ∷ xs)
    → Holds (list_add_before head e l) head (xs ++ e ∷ [])
list_add_before-Holds {l} {head} {xs} e h o = record {
  chain = before_Chain l e head xs head o o.0 h.distinct.0 h.distinct h.chain;
  distinct = Distinct-append (head ∷ xs) e o h.distinct;
}

-- `list_del` of the first entry of a well linked list leaves the others, in order and well linked.
pub list_del-Holds :
    {l : Links} {head x : ℕ} {xs : List ℕ} → Holds l head (x ∷ xs) → Holds (list_del x l) head xs
list_del-Holds {l} {head} {x} {xs} h = record {
  chain = first_Chain l head x xs head h.distinct.0 h.distinct h.chain;
  distinct = (h.distinct.0.1, h.distinct.1.1);
}

-- On a well linked list `list_empty` is true exactly when there is no entry.
pub list_empty_iff :
    {l : Links} {head : ℕ} (xs : List ℕ) → Holds l head xs → (list_empty head l ≡ true) ↔ (xs ≡ [])
unfolding list_empty
list_empty_iff [] h = ((λ _. refl), λ _. ground (arith, h.chain.0))
list_empty_iff (x ∷ xs) h = ((λ e. absurd (h.distinct.0.0 (ground (arith, h.chain.0)))), λ e. cc)
