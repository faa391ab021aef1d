-- ===== src/Mm/FirstFit/Tail.antt =====
-- The insertion of `default_free_pages` and `default_init_memmap` at the end of the free list
-- (lab8/kern/mm/default_pmm.c): the loop runs on after `list_add`, meets the new entry, and links
-- it to itself.
use nku_os.Base.{ℕ, zero, suc, ◌≤◌, ◌<◌, ◌≡◌, ◌≢◌, ◌∙◌, some, List, [], ◌∷◌, map, length, arith}
use nku_os.Libs.ListEntry.{list_empty, Links, list_add}
use nku_os.Libs.ListOrder.{Chain, Holds}
use nku_os.Mm.Page.{free_list, page_link}
use nku_os.Mm.FirstFit.{place, place_from}

-- Every block of the list lies below `base`.
abbrev pub Below : ℕ → List ℕ → Type 0
Below base [] = Unit {0}
Below base (p ∷ ps) = (p < base) × Below base ps

-- The links after the two insertions of an entry behind the last one.
twice_added : ℕ → ℕ → Links → Links
twice_added last base l =
    list_add (page_link base) (page_link base) (list_add last (page_link base) l)

-- One turn of the loop, for each way that it goes on.
turn_stop :
    (f le base : ℕ) (l : Links) → l.next le ≡ free_list → place_from (suc f) le base l ≡ some l
unfolding place_from
turn_stop f le base l e = ground (arith, e)

turn_last :
    (f le base p : ℕ) (l : Links)
    → l.next le ≡ page_link p
    → p ≤ base
    → l.next (page_link p) ≡ free_list
    → place_from (suc f) le base l
      ≡ place_from f (page_link p) base (list_add (page_link p) (page_link base) l)
unfolding place_from
turn_last f le base p l e h z = rw (e, z) (ground arith)

turn_next :
    (f le base p : ℕ) (l : Links)
    → l.next le ≡ page_link p
    → p ≤ base
    → l.next (page_link p) ≢ free_list
    → place_from (suc f) le base l ≡ place_from f (page_link p) base l
unfolding place_from
turn_next f le base p l e h z = rw e (ground (arith, z))

next-list_add : (a e : ℕ) (l : Links) → a ≢ e → (list_add a e l).next a ≡ e
unfolding list_add
next-list_add a e l ne = ground arith

next-list_add_self : (a e : ℕ) (l : Links) → (list_add a e l).next e ≡ l.next a
unfolding list_add
next-list_add_self a e l = ground arith

-- From the last entry the loop makes three turns: it adds `base`, adds it once more behind itself,
-- and stops.
place_last :
    (f base p le : ℕ) (l : Links)
    → p < base
    → l.next le ≡ page_link p
    → l.next (page_link p) ≡ free_list
    → place_from (suc (suc (suc f))) le base l ≡ some (twice_added (page_link p) base l)
unfolding twice_added
place_last f base p le l h e z =
    let once = list_add (page_link p) (page_link base) l in
    let back : once.next (page_link base) ≡ free_list =
      next-list_add_self (page_link p) (page_link base) l ∙ z in
    turn_last (suc (suc f)) le base p l e (omega arith) z
    ∙ turn_last (suc f) (page_link p) base base once
        (next-list_add (page_link p) (page_link base) l (omega arith)) (omega arith) back
    ∙ turn_stop f (page_link base) base (list_add (page_link base) (page_link base) once)
        (next-list_add_self (page_link base) (page_link base) once ∙ back)

pub last_of : ℕ → List ℕ → ℕ
last_of p [] = p
last_of p (q ∷ ps) = last_of q ps

place-Chain :
    (f base p le : ℕ) (l : Links) (ps : List ℕ)
    → Below base (p ∷ ps)
    → l.next le ≡ page_link p
    → Chain l (page_link p) (map page_link ps) free_list
    → length ps < f
    → place_from (suc (suc f)) le base l ≡ some (twice_added (page_link (last_of p ps)) base l)
unfolding last_of
place-Chain zero base p le l ps b e c h = absurd (omega arith)
place-Chain (suc f) base p le l [] b e c h = place_last f base p le l b.0 e c.0
place-Chain (suc f) base p le l (q ∷ ps) b e c h =
    turn_next (suc (suc f)) le base p l e (omega arith) (ground (arith, c.0))
    ∙ place-Chain f base q (page_link p) l ps b.1 c.0 c.2 (omega arith)

last_of-lt : (base p : ℕ) (ps : List ℕ) → Below base (p ∷ ps) → last_of p ps < base
unfolding last_of
last_of-lt base p [] b = b.0
last_of-lt base p (q ∷ ps) b = last_of-lt base q ps b.1

prev-twice_added :
    (k base : ℕ) (l : Links) → (twice_added k base l).prev (page_link base) ≡ page_link base
unfolding twice_added list_add
prev-twice_added k base l = ground arith

next-twice_added :
    (k base : ℕ) (l : Links) → k ≢ page_link base → (twice_added k base l).next k ≡ page_link base
unfolding twice_added list_add
next-twice_added k base l ne = ground arith

place_nonempty :
    (f base p : ℕ) (l : Links)
    → l.next free_list ≡ page_link p
    → place f base l ≡ place_from f free_list base l
unfolding place list_empty
place_nonempty f base p l e = ground (arith, e)

-- Whenever a block is inserted above all the blocks of a nonempty, well linked free list, with fuel
-- for the list and three turns more, the insertion ends with the new entry as its own predecessor, while the entry that was last before
-- leads on to it.
pub place-prev_self :
    (f base p : ℕ) (l : Links) (ps : List ℕ)
    → Holds l free_list (map page_link (p ∷ ps))
    → Below base (p ∷ ps)
    → length ps < f
    → (l' : Links) × (place (suc (suc f)) base l ≡ some l')
      × (l'.prev (page_link base) ≡ page_link base)
      × (l'.next (page_link (last_of p ps)) ≡ page_link base)
place-prev_self f base p l ps h b fuel = (
  twice_added (page_link (last_of p ps)) base l,
  place_nonempty (suc (suc f)) base p l h.chain.0
      ∙ (place-Chain f base p free_list l ps b h.chain.0 h.chain.2 fuel),
  prev-twice_added _ base l,
  next-twice_added _ base l (λ e. absurd (omega (arith, last_of-lt base p ps b, e))),
)
