-- ===== src/Mm/BestFit/Least.antt =====
-- What `best_fit_alloc_pages` takes (lab2/kern/mm/best_fit_pmm.c), by the sequence of free blocks.
use nku_os.Base.{
  ℕ, zero, suc, ◌+◌, ◌^◌, ◌≤◌, ◌<◌, ◌≡◌, ◌⊎◌, ◌==◌, inl, inr, refl, sym, ◌∙◌, subst, false, leb,
  ltb, if◌then◌else◌, Option, none, some, List, [], ◌∷◌, map, length, Bool-cases, arith, lt→ltb, ap,
}
use nku_os.Libs.ListOrder.{Chain, Holds}
use nku_os.Mm.Page.{FreeArea, Page, u32, free_list, page_link, le2page}
use nku_os.Mm.FirstFit.Taken.{In, AtMost, Apart, Allocated}
use nku_os.Mm.FirstFit.Search.{outcome, outcome-Allocated}
use nku_os.Base.Result.{ok}
use nku_os.Mm.BestFit.{find_best, best_fit_alloc_pages}

-- Every block has less than `n` pages or at least `m`.
abbrev pub NoneBetween : (ℕ → Page) → ℕ → ℕ → List ℕ → Type 0
NoneBetween pages n m [] = Unit {0}
NoneBetween pages n m (q ∷ qs) =
    (((pages q).property < n) ⊎ (m ≤ (pages q).property)) × NoneBetween pages n m qs

-- The blocks have less than `n` pages.
abbrev pub AllShort : (ℕ → Page) → ℕ → List ℕ → Type 0
AllShort pages n [] = Unit {0}
AllShort pages n (q ∷ qs) = ((pages q).property < n) × AllShort pages n qs

-- A block with room, of the sequence, that beats `m`.
record Better (pages : ℕ → Page) (n m : ℕ) (ps : List ℕ) (p : ℕ) : Type 0 where
  listed : In p ps
  enough : n ≤ (pages p).property
  beats : (pages p).property < m
  least : NoneBetween pages n (pages p).property ps

-- The rest of the loop keeps the page it has, or ends with a better one.
abbrev Ends : (ℕ → Page) → ℕ → ℕ → List ℕ → Option ℕ → Option ℕ → Type 0
Ends pages n m ps best o =
    ((o ≡ best) × NoneBetween pages n m ps) ⊎ ((p : ℕ) × (o ≡ some p) × Better pages n m ps p)

Ends-better :
    (pages : ℕ → Page) (n m q : ℕ) (ps : List ℕ) (best o : Option ℕ)
    → n ≤ (pages q).property
    → (pages q).property < m
    → Ends pages n (pages q).property ps (some q) o
    → Ends pages n m (q ∷ ps) best o
Ends-better pages n m q ps best o room beats (inl (e, least)) = inr (
  q,
  e,
  record { listed = inl refl; enough = room; beats = beats; least = (inr (omega arith), least) },
)
Ends-better pages n m q ps best o room beats (inr (p, e, b)) = inr (
  p,
  e,
  record {
    listed = inr b.listed;
    enough = b.enough;
    beats = omega (arith, b.beats);
    least = (inr (omega (arith, b.beats)), b.least);
  },
)

Ends-rest :
    (pages : ℕ → Page) (n m q : ℕ) (ps : List ℕ) (best o : Option ℕ)
    → (((pages q).property < n) ⊎ (m ≤ (pages q).property))
    → Ends pages n m ps best o
    → Ends pages n m (q ∷ ps) best o
Ends-rest pages n m q ps best o worse (inl (e, least)) = inl (e, (worse, least))
Ends-rest pages n m q ps best o worse (inr (p, e, b)) = inr (
  p,
  e,
  record {
    listed = inr b.listed;
    enough = b.enough;
    beats = b.beats;
    least = (passed worse b.beats, b.least);
  },
)
  where
    passed : {a b c d : ℕ} → ((a < b) ⊎ (c ≤ a)) → d < c → ((a < b) ⊎ (d ≤ a))
    passed (inl h) l = inl h
    passed (inr h) l = inr (omega arith)

-- One turn of the loop at a block.
find_best_step :
    (f le n : ℕ) (s : FreeArea) (m : ℕ) (best : Option ℕ) (p : ℕ)
    → s.links.next le ≡ page_link p
    → find_best (suc f) le n s m best ≡ (
        if leb n (s.pages p).property
        then (if ltb (s.pages p).property m
            then find_best f (suc p) n s (s.pages p).property (some p)
            else find_best f (suc p) n s m best)
        else find_best f (suc p) n s m best)
unfolding find_best
find_best_step f le n s m best p c =
    let ahead : page_link p == free_list ≡ false = ground arith in
    let page : le2page (page_link p) ≡ p = omega arith in rw c (rw (ahead, page) refl)

find_best-Ends :
    (f le n : ℕ) (s : FreeArea) (m : ℕ) (best : Option ℕ) (ps : List ℕ)
    → Chain s.links le (map page_link ps) free_list
    → length ps < f
    → (o : Option ℕ) × (find_best f le n s m best ≡ some o) × Ends s.pages n m ps best o
unfolding find_best
find_best-Ends zero le n s m best ps c h = absurd (omega arith)
find_best-Ends (suc f) le n s m best [] c h = (best, ground (arith, c.0), inl (refl, tt))
find_best-Ends (suc f) le n s m best (p ∷ ps) c h = elim (Bool-cases (leb n (s.pages p).property)) [
  | inr e ↦
      let (o, run, ends) = find_best-Ends f (suc p) n s m best ps c.2 (omega arith) in
      (
        o,
        find_best_step f le n s m best p c.0 ∙ (rw e run),
        Ends-rest s.pages n m p ps best o (inl (ground (arith, e))) ends,
      )
  | inl e ↦ elim (Bool-cases (ltb (s.pages p).property m)) [
    | inl d ↦
        let (o, run, ends) =
          find_best-Ends f (suc p) n s (s.pages p).property (some p) ps c.2 (omega arith) in
        (
          o,
          find_best_step f le n s m best p c.0 ∙ (rw (e, d) run),
          Ends-better s.pages n m p ps best o (ground (arith, e)) (ground (arith, d)) ends,
        )
    | inr d ↦
        let (o, run, ends) = find_best-Ends f (suc p) n s m best ps c.2 (omega arith) in
        (
          o,
          find_best_step f le n s m best p c.0 ∙ (rw (e, d) run),
          Ends-rest s.pages n m p ps best o (inr (ground (arith, d))) ends,
        )
  ]
]

-- How the search ends.
pub record IsBest (pages : ℕ → Page) (n : ℕ) (ps : List ℕ) (p : ℕ) : Type 0 where
  pub listed : In p ps
  pub enough : n ≤ (pages p).property
  pub least : NoneBetween pages n (pages p).property ps

abbrev pub Chosen : (ℕ → Page) → ℕ → List ℕ → Option ℕ → Type 0
Chosen pages n ps none = AllShort pages n ps
Chosen pages n ps (some p) = IsBest pages n ps p

AllShort-none :
    (pages : ℕ → Page) (n m : ℕ) (ps : List ℕ)
    → AtMost pages m ps
    → NoneBetween pages n (m + 1) ps
    → AllShort pages n ps
AllShort-none pages n m [] a h = tt
AllShort-none pages n m (p ∷ ps) a (inl l, h) = (l, AllShort-none pages n m ps a.1 h)
AllShort-none pages n m (p ∷ ps) a (inr l, h) = absurd (omega (arith, a.0))

Ends-Chosen :
    (pages : ℕ → Page) (n m : ℕ) (ps : List ℕ) (o : Option ℕ)
    → AtMost pages m ps
    → Ends pages n (m + 1) ps none o
    → Chosen pages n ps o
Ends-Chosen pages n m ps o a (inl (e, h)) =
    subst (Chosen pages n ps) (sym e) (AllShort-none pages n m ps a h)
Ends-Chosen pages n m ps o a (inr (p, e, b)) =
    subst (Chosen pages n ps) (sym e)
      (record { listed = b.listed; enough = b.enough; least = b.least })

alloc_best_ends :
    (f n : ℕ) (s : FreeArea) (o : Option ℕ)
    → 0 < n
    → n ≤ s.nr_free
    → find_best f free_list n s (u32 (s.nr_free + 1)) none ≡ some o
    → best_fit_alloc_pages f n s ≡ some (ok o (outcome o n s))
unfolding best_fit_alloc_pages outcome
alloc_best_ends f n s none h k e = rw (e, lt→ltb 0 n h) (ground arith)
alloc_best_ends f n s (some p) h k e = rw (e, lt→ltb 0 n h) (ground arith)

Chosen-In :
    (pages : ℕ → Page) (n : ℕ) (ps : List ℕ) (o : Option ℕ)
    → Chosen pages n ps o
    → (p : ℕ) → o ≡ some p
    → In p ps
Chosen-In pages n ps none h p e = cc
Chosen-In pages n ps (some q) h p e =
    subst (λ k. In k ps) (ap (λ o. elim o [ none ↦ p | some k ↦ k ]) e) h.listed

-- On a well linked free list of blocks that do not overlap, none larger than the number of free
-- pages, which is below 2 ^ 32 - 1 and not below the request, and with fuel above the length of the
-- list, `best_fit_alloc_pages` ends. It takes a block of the list that has room and has no more
-- pages than any other block with room: that block is then out of the list and not marked free, the
-- number of free pages has fallen by the request, what is left of the block stands in its place
-- with the size that remains, and all other pages are as they were. When no block has room, it
-- changes nothing.
pub alloc_best_fit :
    (f n : ℕ) (s : FreeArea) (ps : List ℕ)
    → Holds s.links free_list (map page_link ps)
    → Apart s.pages ps ps
    → AtMost s.pages s.nr_free ps
    → s.nr_free + 1 < 2 ^ 32
    → 0 < n
    → n ≤ s.nr_free
    → length ps < f
    → (o : Option ℕ) × (t : FreeArea) × (best_fit_alloc_pages f n s ≡ some (ok o t))
      × Chosen s.pages n ps o
      × Allocated o n ps s t
alloc_best_fit f n s ps h apart most small pos room fuel =
    let size : u32 (s.nr_free + 1) ≡ s.nr_free + 1 = ground arith in
    let (o, run, ends) =
      find_best-Ends f free_list n s (u32 (s.nr_free + 1)) none ps h.chain fuel in
    let chosen =
      Ends-Chosen s.pages n s.nr_free ps o most
        (subst (λ m. Ends s.pages n m ps none o) size ends) in
    (
      o,
      outcome o n s,
      alloc_best_ends f n s o pos room run,
      chosen,
      outcome-Allocated n s ps o h apart most (omega (arith, small)) pos room
          (Chosen-In s.pages n ps o chosen),
    )
