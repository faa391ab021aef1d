-- ===== src/Libs/ListOrder/Splice.antt =====
-- `list_del` and `list_add` anywhere in a list (lab8/libs/list.h).
use nku_os.Base.{ℕ, ◌≡◌, ◌≢◌, ◌∙◌, sym, List, [], ◌∷◌, ◌++◌, arith}
use nku_os.Libs.ListEntry.{Links, list_link, list_unlink, list_add_after, list_add, list_del}
use nku_os.Libs.ListOrder.{Chain, Off, Distinct, Holds, after_Chain, first_Chain}

-- The last entry of a sequence that begins with `a`.
abbrev pub last_from : ℕ → List ℕ → ℕ
last_from a [] = a
last_from a (x ∷ xs) = last_from x xs

pub Off-right : (k : ℕ) (xs ys : List ℕ) → Off k (xs ++ ys) → Off k ys
Off-right k [] ys o = o
Off-right k (x ∷ xs) ys o = Off-right k xs ys o.1

-- One entry less, and one more.
pub Off-without :
    (k : ℕ) (xs : List ℕ) (x : ℕ) (ys : List ℕ) → Off k (xs ++ x ∷ ys) → Off k (xs ++ ys)
Off-without k [] x ys o = o.1
Off-without k (z ∷ xs) x ys o = (o.0, Off-without k xs x ys o.1)

Distinct-without :
    (xs : List ℕ) (x : ℕ) (ys : List ℕ) → Distinct (xs ++ x ∷ ys) → Distinct (xs ++ ys)
Distinct-without [] x ys d = d.1
Distinct-without (z ∷ xs) x ys d = (Off-without z xs x ys d.0, Distinct-without xs x ys d.1)

Off-with :
    (k : ℕ) (xs : List ℕ) (e : ℕ) (ys : List ℕ) → k ≢ e → Off k (xs ++ ys) → Off k (xs ++ e ∷ ys)
Off-with k [] e ys ne o = (ne, o)
Off-with k (z ∷ xs) e ys ne o = (o.0, Off-with k xs e ys ne o.1)

Distinct-with :
    (xs : List ℕ) (e : ℕ) (ys : List ℕ)
    → Off e (xs ++ ys)
    → Distinct (xs ++ ys)
    → Distinct (xs ++ e ∷ ys)
Distinct-with [] e ys o d = (o, d)
Distinct-with (z ∷ xs) e ys o d =
    (Off-with z xs e ys (λ q. o.0 (sym q)) d.0, Distinct-with xs e ys o.1 d.1)

-- The entry before `x`.
prev_Chain :
    (l : Links) (a : ℕ) (xs : List ℕ) (x : ℕ) (ys : List ℕ) (b : ℕ)
    → Chain l a (xs ++ x ∷ ys) b
    → l.prev x ≡ last_from a xs
prev_Chain l a [] x ys b c = c.1
prev_Chain l a (z ∷ xs) x ys b c = prev_Chain l z xs x ys b c.2

last_from-Off : (k a : ℕ) (xs ys : List ℕ) → Off k (a ∷ xs ++ ys) → k ≢ last_from a xs
last_from-Off k a [] ys o = o.0
last_from-Off k a (x ∷ xs) ys o = last_from-Off k x xs ys o.1

-- The entry behind the last one of `xs`.
next-Off :
    (l : Links) (k a : ℕ) (xs ys : List ℕ) (b : ℕ)
    → Off k ys
    → k ≢ b
    → Chain l a (xs ++ ys) b
    → k ≢ l.next (last_from a xs)
next-Off l k a [] [] b o ne c = ground (arith, ne, c.0)
next-Off l k a [] (y ∷ ys) b o ne c = ground (arith, o.0, c.0)
next-Off l k a (x ∷ xs) ys b o ne c = next-Off l k x xs ys b o ne c.2

-- The entry behind `x`.
behind-Off :
    (l : Links) (k a : ℕ) (xs : List ℕ) (x : ℕ) (ys : List ℕ) (b : ℕ)
    → Off k ys
    → k ≢ b
    → Chain l a (xs ++ x ∷ ys) b
    → k ≢ l.next x
behind-Off l k a [] x [] b o ne c = ground (arith, ne, c.2.0)
behind-Off l k a [] x (y ∷ ys) b o ne c = ground (arith, o.0, c.2.0)
behind-Off l k a (z ∷ xs) x ys b o ne c = behind-Off l k z xs x ys b o ne c.2

del_Chain :
    (l : Links) (a : ℕ) (xs : List ℕ) (x : ℕ) (ys : List ℕ) (b : ℕ)
    → Off b (xs ++ x ∷ ys)
    → Distinct (a ∷ xs ++ x ∷ ys)
    → Chain l a (xs ++ x ∷ ys) b
    → Chain (list_del x l) a (xs ++ ys) b
unfolding list_del list_unlink
del_Chain l a [] x ys b nb d c = first_Chain l a x ys b nb d c
del_Chain l a (z ∷ xs) x ys b nb d c =
    let before : a ≢ l.prev x =
      λ e. last_from-Off a z xs (x ∷ ys) d.0 (e ∙ prev_Chain l z xs x ys b c.2) in
    let behind =
      behind-Off l z z xs x ys b (Off-right z xs (x ∷ ys) d.1.0).1 (λ q. nb.0 (sym q)) c.2 in
    (ground (arith, before, c.0), ground (arith, behind, c.1), del_Chain l z xs x ys b nb.1 d.1 c.2)

add_Chain :
    (l : Links) (e a : ℕ) (xs ys : List ℕ) (b : ℕ)
    → Off e (a ∷ xs ++ ys)
    → e ≢ b
    → Off b (xs ++ ys)
    → Distinct (a ∷ xs ++ ys)
    → Chain l a (xs ++ ys) b
    → Chain (list_add_after (last_from a xs) e l) a (xs ++ e ∷ ys) b
unfolding list_add_after list_link
add_Chain l e a [] ys b o ne nb d c = after_Chain l e a ys b o ne nb d c
add_Chain l e a (z ∷ xs) ys b o ne nb d c =
    let last = last_from-Off a z xs ys d.0 in
    let behind = next-Off l z z xs ys b (Off-right z xs ys d.1.0) (λ q. nb.0 (sym q)) c.2 in
    (
      ground (arith, o.0, last, c.0),
      ground (arith, o.1.0, behind, c.1),
      add_Chain l e z xs ys b o.1 ne nb.1 d.1 c.2,
    )

pub prev-Holds :
    {l : Links} {head : ℕ} (xs : List ℕ) (x : ℕ) (ys : List ℕ)
    → Holds l head (xs ++ x ∷ ys)
    → l.prev x ≡ last_from head xs
prev-Holds {l} {head} xs x ys h = prev_Chain l head xs x ys head h.chain

-- `list_del` of any entry of a well linked list leaves the others, in order and well linked.
pub list_del_at-Holds :
    {l : Links} {head : ℕ} (xs : List ℕ) (x : ℕ) (ys : List ℕ)
    → Holds l head (xs ++ x ∷ ys)
    → Holds (list_del x l) head (xs ++ ys)
list_del_at-Holds {l} {head} xs x ys h = record {
  chain = del_Chain l head xs x ys head h.distinct.0 h.distinct h.chain;
  distinct = Distinct-without (head ∷ xs) x ys h.distinct;
}

-- `list_add` behind any entry of a well linked list puts a new entry there.
pub list_add_at-Holds :
    {l : Links} {head : ℕ} (e : ℕ) (xs ys : List ℕ)
    → Off e (head ∷ xs ++ ys)
    → Holds l head (xs ++ ys)
    → Holds (list_add (last_from head xs) e l) head (xs ++ e ∷ ys)
unfolding list_add
list_add_at-Holds {l} {head} e xs ys o h = record {
  chain = add_Chain l e head xs ys head o o.0 h.distinct.0 h.distinct h.chain;
  distinct = Distinct-with (head ∷ xs) e ys o h.distinct;
}
