-- ===== src/Mm/Swap/Fifo.antt =====
-- The FIFO list of lab8/kern/mm/swap_fifo.c as a queue.
use nku_os.Base.{
  ℕ, zero, suc, ◌≡◌, ◌≢◌, refl, sym, ap, subst, List, [], ◌∷◌, ◌++◌, length, append_assoc,
  append-nil,
}
use nku_os.Base.Result.{Result, ok, ◌>>=◌, return}
use nku_os.Libs.ListEntry.{Links, list_del}
use nku_os.Libs.ListOrder.{
  Off, Distinct, Holds, list_init-Holds, list_add_before-Holds, list_del-Holds,
}
use nku_os.Mm.Swap.{fifo_init_mm, fifo_map_swappable, fifo_swap_out_victim}

-- Pages arrive one after the other.
pub arrive : ℕ → List ℕ → Links → Links
arrive head [] l = l
arrive head (e ∷ es) l = arrive head es (fifo_map_swappable head e l)

-- So many victims are taken.
pub drain : ℕ → ℕ → Links → Result Links (List ℕ)
drain head zero = return []
drain head (suc n) = do e ← fifo_swap_out_victim head 0; es ← drain head n; return (e ∷ es)

Distinct-Off : (xs : List ℕ) (e : ℕ) (es : List ℕ) → Distinct (xs ++ e ∷ es) → Off e xs
Distinct-Off [] e es d = tt
Distinct-Off (x ∷ xs) e es d = (λ q. off_mid x xs e es d.0 (sym q), Distinct-Off xs e es d.1)
  where
    off_mid : (x : ℕ) (xs : List ℕ) (e : ℕ) (es : List ℕ) → Off x (xs ++ e ∷ es) → x ≢ e
    off_mid x [] e es o = o.0
    off_mid x (y ∷ ys) e es o = off_mid x ys e es o.1

arrive-Holds :
    (head : ℕ) (xs es : List ℕ) (l : Links)
    → Holds l head xs
    → Distinct (head ∷ xs ++ es)
    → Holds (arrive head es l) head (xs ++ es)
unfolding arrive fifo_map_swappable
arrive-Holds head xs [] l h d = subst (Holds l head) (sym (append-nil xs)) h
arrive-Holds head xs (e ∷ es) l h d =
    subst (λ ys. Holds (arrive head (e ∷ es) l) head ys) (append_assoc xs (e ∷ []) es)
      (arrive-Holds head (xs ++ e ∷ []) es (fifo_map_swappable head e l)
        (list_add_before-Holds e h (Distinct-Off (head ∷ xs) e es d))
        (subst (λ ys. Distinct (head ∷ ys)) (sym (append_assoc xs (e ∷ []) es)) d))

victim_lem :
    (head e : ℕ) (es : List ℕ) (l : Links)
    → Holds l head (e ∷ es)
    → fifo_swap_out_victim head 0 l ≡ ok e (list_del e l)
unfolding fifo_swap_out_victim
victim_lem head e es l h = ap (λ k. ok k (list_del k l)) h.chain.0

drain_step :
    (head n e : ℕ) (es : List ℕ) (l t l' : Links)
    → fifo_swap_out_victim head 0 l ≡ ok e t
    → drain head n t ≡ ok es l'
    → drain head (suc n) l ≡ ok (e ∷ es) l'
unfolding drain
drain_step head n e es l t l' a b = rw (◌>>=◌, a) (rw (◌>>=◌, b) refl)

drain_lem :
    (head : ℕ) (es : List ℕ) (l : Links)
    → Holds l head es
    → (l' : Links) × (drain head (length es) l ≡ ok es l') × Holds l' head []
unfolding drain
drain_lem head [] l h = (l, refl, h)
drain_lem head (e ∷ es) l h =
    let (l', runs, rest) = drain_lem head es (list_del e l) (list_del-Holds h) in
    (l', drain_step head (length es) e es l (list_del e l) l' (victim_lem head e es l h) runs, rest)

-- Pages that arrive at a fresh list are chosen as victims in the order in which they arrived, and
-- the list is empty again after the last.
pub fifo_order :
    (head : ℕ) (es : List ℕ) (l : Links)
    → Distinct (head ∷ es)
    → (l' : Links) × (drain head (length es) (arrive head es (fifo_init_mm head l)) ≡ ok es l')
      × Holds l' head []
unfolding fifo_init_mm
fifo_order head es l d =
    drain_lem head es (arrive head es (fifo_init_mm head l))
      (arrive-Holds head [] es (fifo_init_mm head l) (list_init-Holds head l) d)
