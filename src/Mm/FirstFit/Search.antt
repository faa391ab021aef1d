-- ===== src/Mm/FirstFit/Search.antt =====
-- What `default_alloc_pages` takes (lab8/kern/mm/default_pmm.c), by the sequence of free blocks.
use nku_os.Base.{
  ℕ, zero, suc, ◌^◌, ◌≤◌, ◌<◌, ◌≡◌, true, leb, if◌then◌else◌, Option, none, some, List, [], ◌∷◌,
  map, length, arith, lt→ltb, refl, ap, inl, inr, Bool-cases,
}
use nku_os.Base.Result.{ok}
use nku_os.Libs.ListOrder.{Chain, Holds}
use nku_os.Mm.Page.{FreeArea, Page, free_list, page_link}
use nku_os.Mm.FirstFit.Taken.{In, AtMost, Apart, Allocated, take_block-Taken}
use nku_os.Mm.FirstFit.{find_fit, take_block, default_alloc_pages}

-- The first block of the sequence with room for `n` pages.
pub first_fit : (ℕ → Page) → ℕ → List ℕ → Option ℕ
first_fit pages n [] = none
first_fit pages n (p ∷ ps) = if leb n (pages p).property then some p else first_fit pages n ps

find_fit_lem :
    (f le n : ℕ) (s : FreeArea) (ps : List ℕ)
    → Chain s.links le (map page_link ps) free_list
    → length ps < f
    → find_fit f le n s ≡ some (first_fit s.pages n ps)
unfolding find_fit first_fit
find_fit_lem zero le n s ps c h = absurd (omega arith)
find_fit_lem (suc f) le n s [] c h = ground (arith, c.0)
find_fit_lem (suc f) le n s (p ∷ ps) c h =
    rw c.0 (ground (arith, find_fit_lem f (suc p) n s ps c.2))

-- The first block with room is a block of the sequence.
first_fit-In : (pages : ℕ → Page) (n p : ℕ) (ps : List ℕ) → first_fit pages n ps ≡ some p → In p ps
unfolding first_fit
first_fit-In pages n p [] e = cc
first_fit-In pages n p (q ∷ ps) e = elim (Bool-cases (leb n (pages q).property)) [
  | inl fits ↦ inl (ap (λ o. elim o [ none ↦ p | some k ↦ k ]) (first e fits))
  | inr short ↦ inr (first_fit-In pages n p ps (ground (arith, e, short)))
]
  where
    first :
        (if leb n (pages q).property then some q else first_fit pages n ps) ≡ some p
        → leb n (pages q).property ≡ true
        → some p ≡ some q
    first e fits = ground (arith, e, fits)

-- The state that an allocation leaves.
unfoldable pub outcome : Option ℕ → ℕ → FreeArea → FreeArea
outcome none n s = s
outcome (some p) n s = take_block p n s

alloc_ends :
    (f n : ℕ) (s : FreeArea) (o : Option ℕ)
    → 0 < n
    → n ≤ s.nr_free
    → find_fit f free_list n s ≡ some o
    → default_alloc_pages f n s ≡ some (ok o (outcome o n s))
unfolding default_alloc_pages outcome
alloc_ends f n s none h k e = rw (e, lt→ltb 0 n h) (ground arith)
alloc_ends f n s (some p) h k e = rw (e, lt→ltb 0 n h) (ground arith)

pub outcome-Allocated :
    (n : ℕ) (s : FreeArea) (ps : List ℕ) (o : Option ℕ)
    → Holds s.links free_list (map page_link ps)
    → Apart s.pages ps ps
    → AtMost s.pages s.nr_free ps
    → s.nr_free < 2 ^ 32
    → 0 < n
    → n ≤ s.nr_free
    → ((p : ℕ) → o ≡ some p → In p ps)
    → Allocated o n ps s (outcome o n s)
unfolding outcome
outcome-Allocated n s ps none h apart most small pos room listed = refl
outcome-Allocated n s ps (some p) h apart most small pos room listed =
    take_block-Taken p n s ps h apart most small pos room (listed p refl)

-- On a well linked free list of blocks that do not overlap, none larger than the number of free
-- pages, which is below 2 ^ 32 and not below the request, and with fuel above the length of the
-- list, `default_alloc_pages` ends with the first block in list order that has room. That block is
-- then out of the list and not marked free, the number of free pages has fallen by the request,
-- what is left of the block stands in its place with the size that remains, and all other pages
-- are as they were. Without such a block nothing changes.
pub alloc_first_fit :
    (f n : ℕ) (s : FreeArea) (ps : List ℕ)
    → Holds s.links free_list (map page_link ps)
    → Apart s.pages ps ps
    → AtMost s.pages s.nr_free ps
    → s.nr_free < 2 ^ 32
    → 0 < n
    → n ≤ s.nr_free
    → length ps < f
    → (t : FreeArea) × (default_alloc_pages f n s ≡ some (ok (first_fit s.pages n ps) t))
      × Allocated (first_fit s.pages n ps) n ps s t
alloc_first_fit f n s ps h apart most small pos room fuel =
    let o = first_fit s.pages n ps in
    (
      outcome o n s,
      alloc_ends f n s o pos room (find_fit_lem f free_list n s ps h.chain fuel),
      outcome-Allocated n s ps o h apart most small pos room (λ p. first_fit-In s.pages n p ps),
    )
