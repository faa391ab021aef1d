-- ===== src/Mm/FirstFit/Taken.antt =====
-- What the allocators do to the free list and the pages when they take a block
-- (lab8/kern/mm/default_pmm.c), by the sequence of free blocks.
use nku_os.Base.{
  ℕ, ◌+◌, ◌-◌, ◌^◌, ◌≤◌, ◌<◌, ◌≡◌, ◌≢◌, ◌⊎◌, inl, inr, refl, sym, ap, ◌∙◌, subst, true, false, ltb,
  ◌==◌, if◌then◌else◌, Option, none, some, List, [], ◌∷◌, ◌++◌, map, Bool-cases, arith,
}
use nku_os.Libs.ListEntry.{Links, list_add, list_del}
use nku_os.Libs.ListOrder.{Off, Holds}
use nku_os.Libs.ListOrder.Splice.{Off-without, prev-Holds, list_del_at-Holds, list_add_at-Holds}
use nku_os.Mm.Page.{FreeArea, Page, free_list, page_link}
use nku_os.Mm.FirstFit.{take_block}

abbrev pub In : ℕ → List ℕ → Type 0
In p [] = ⊥
In p (q ∷ qs) = (p ≡ q) ⊎ In p qs

-- The blocks have at most `m` pages.
abbrev pub AtMost : (ℕ → Page) → ℕ → List ℕ → Type 0
AtMost pages m [] = Unit {0}
AtMost pages m (q ∷ qs) = ((pages q).property ≤ m) × AtMost pages m qs

-- None of the blocks begins inside the `size` pages from `p` on, but at `p`.
abbrev pub Outside : ℕ → ℕ → List ℕ → Type 0
Outside p size [] = Unit {0}
Outside p size (q ∷ qs) = ((q ≤ p) ⊎ (p + size ≤ q)) × Outside p size qs

-- No block of the first sequence reaches into one of the second.
abbrev pub Apart : (ℕ → Page) → List ℕ → List ℕ → Type 0
Apart pages [] qs = Unit {0}
Apart pages (p ∷ ps) qs = Outside p (pages p).property qs × Apart pages ps qs

-- The sequence with the blocks `ms` in the place of `p`.
unfoldable pub replaced : ℕ → List ℕ → List ℕ → List ℕ
replaced p ms [] = []
replaced p ms (q ∷ qs) = if q == p then ms ++ qs else q ∷ replaced p ms qs

-- The block that is left of `p` when `n` pages are taken.
abbrev pub left_of : (ℕ → Page) → ℕ → ℕ → List ℕ
left_of pages p n = if ltb n (pages p).property then (p + n) ∷ [] else []

-- From a free list of the blocks `ps`, `n` pages at the block `p` are taken: the block is out of
-- the list and no longer marked, the counter has fallen by `n`, and what is left of the block
-- stands in its place. No other page has changed.
pub record Taken (p n : ℕ) (ps : List ℕ) (s t : FreeArea) : Type 0 where
  pub counted : t.nr_free + n ≡ s.nr_free
  pub linked : Holds t.links free_list (map page_link (replaced p (left_of s.pages p n) ps))
  pub unmarked : t.pages p ≡ record (s.pages p) { is_property = false }
  pub behind : t.pages (p + n) ≡ (
      if ltb n (s.pages p).property
      then record (s.pages (p + n)) { is_property = true; property = (s.pages p).property - n }
      else s.pages (p + n))
  pub others : (q : ℕ) → q ≢ p → q ≢ p + n → t.pages q ≡ s.pages q

-- Without a block nothing changes.
abbrev pub Allocated : Option ℕ → ℕ → List ℕ → FreeArea → FreeArea → Type 0
Allocated none n ps s t = t ≡ s
Allocated (some p) n ps s t = Taken p n ps s t

In-split :
    (p : ℕ) (ps : List ℕ)
    → In p ps
    → (xs : List ℕ) × (ys : List ℕ) × (ps ≡ xs ++ p ∷ ys)
      × ((ms : List ℕ) → replaced p ms ps ≡ xs ++ (ms ++ ys))
unfolding replaced
In-split p [] h = absurd h
In-split p (q ∷ qs) h = elim (Bool-cases (q == p)) [
  | inl e ↦ let same : q ≡ p = ground (arith, e) in ([], qs, rw same refl, λ ms. rw e refl)
  | inr e ↦
      let (xs, ys, at, keeps) =
        In-split p qs
          (elim h [ inl same ↦ absurd (ground (arith, e, same)) | inr later ↦ later ]) in
      (q ∷ xs, ys, ap (λ zs. q ∷ zs) at, λ ms. rw e (ap (λ zs. q ∷ zs) (keeps ms)))
]

map-append : (f : ℕ → ℕ) (xs ys : List ℕ) → map f (xs ++ ys) ≡ map f xs ++ map f ys
map-append f [] ys = refl
map-append f (x ∷ xs) ys = ap (λ zs. f x ∷ zs) (map-append f xs ys)

Off-Outside :
    (p n size : ℕ) (qs : List ℕ)
    → 0 < n
    → n < size
    → Outside p size qs
    → Off (page_link (p + n)) (map page_link qs)
Off-Outside p n size [] pos more h = tt
Off-Outside p n size (q ∷ qs) pos more (inl low, h) =
    ((λ e. omega (arith, e, low)), Off-Outside p n size qs pos more h)
Off-Outside p n size (q ∷ qs) pos more (inr high, h) =
    ((λ e. omega (arith, e, high)), Off-Outside p n size qs pos more h)

In-Apart :
    (pages : ℕ → Page) (p : ℕ) (ps qs : List ℕ)
    → In p ps
    → Apart pages ps qs
    → Outside p (pages p).property qs
In-Apart pages p [] qs i h = absurd i
In-Apart pages p (q ∷ ps) qs (inl e) h = subst (λ k. Outside k (pages k).property qs) (sym e) h.0
In-Apart pages p (q ∷ ps) qs (inr i) h = In-Apart pages p ps qs i h.1

In-AtMost :
    (pages : ℕ → Page) (m p : ℕ) (ps : List ℕ)
    → In p ps
    → AtMost pages m ps
    → (pages p).property ≤ m
In-AtMost pages m p [] i h = absurd i
In-AtMost pages m p (q ∷ ps) (inl e) h = subst (λ k. (pages k).property ≤ m) (sym e) h.0
In-AtMost pages m p (q ∷ ps) (inr i) h = In-AtMost pages m p ps i h.1

take_links :
    (p n : ℕ) (s : FreeArea)
    → (take_block p n s).links ≡ (
        if ltb n (s.pages p).property
        then list_add
            (s.links.prev (page_link p))
            (page_link (p + n))
            (list_del (page_link p) s.links)
        else list_del (page_link p) s.links)
unfolding take_block
take_links p n s = ground arith

-- The links after both steps, for a list that is split at the block.
split_links :
    (p n : ℕ) (l : Links) (xs ys : List ℕ)
    → Holds l free_list (xs ++ page_link p ∷ ys)
    → Off (page_link (p + n)) (free_list ∷ xs ++ ys)
    → Holds
        (list_add (l.prev (page_link p)) (page_link (p + n)) (list_del (page_link p) l))
        free_list
        (xs ++ page_link (p + n) ∷ ys)
split_links p n l xs ys h o =
    rw (prev-Holds xs (page_link p) ys h)
      (list_add_at-Holds (page_link (p + n)) xs ys o (list_del_at-Holds xs (page_link p) ys h))

-- The entries of the blocks, with others in the place of one.
map_split :
    (xs ms ys ps : List ℕ)
    → ps ≡ xs ++ (ms ++ ys)
    → map page_link ps ≡ map page_link xs ++ (map page_link ms ++ map page_link ys)
map_split xs ms ys ps e =
    ap (map page_link) e
    ∙ map-append page_link xs (ms ++ ys)
    ∙ ap (λ zs. map page_link xs ++ zs) (map-append page_link ms ys)

take_block-Holds :
    (p n : ℕ) (s : FreeArea) (ps : List ℕ)
    → 0 < n
    → Holds s.links free_list (map page_link ps)
    → In p ps
    → Outside p (s.pages p).property ps
    → Holds (take_block p n s).links free_list (map page_link (replaced p (left_of s.pages p n) ps))
take_block-Holds p n s ps pos h i out =
    let (xs, ys, at, keeps) = In-split p ps i in
    let entries = map_split xs (p ∷ []) ys ps at in
    let held = subst (Holds s.links free_list) entries h in
    let left = λ (ms : List ℕ). sym (map_split xs ms ys (replaced p ms ps) (keeps ms)) in
    elim (Bool-cases (ltb n (s.pages p).property)) [
      | inr all ↦
          rw (take_links p n s, all)
            (subst (Holds (list_del (page_link p) s.links) free_list) (left [])
              (list_del_at-Holds (map page_link xs) (page_link p) (map page_link ys) held))
      | inl more ↦
          let off =
            Off-without (page_link (p + n)) (map page_link xs) (page_link p) (map page_link ys) (
              subst (Off (page_link (p + n))) entries
                (Off-Outside p n (s.pages p).property ps pos (ground (arith, more)) out)) in
          rw (take_links p n s, more)
            (subst
              (Holds
                (list_add (s.links.prev (page_link p)) (page_link (p + n))
                  (list_del (page_link p) s.links))
                free_list)
              (left ((p + n) ∷ []))
              (split_links p n s.links (map page_link xs) (map page_link ys) held
                ((λ e. omega (arith, e)), off)))
    ]

-- On a well linked free list of blocks that do not overlap, none larger than the counter, which is
-- below 2 ^ 32, `take_block` takes `n` pages at any block of the list.
pub take_block-Taken :
    (p n : ℕ) (s : FreeArea) (ps : List ℕ)
    → Holds s.links free_list (map page_link ps)
    → Apart s.pages ps ps
    → AtMost s.pages s.nr_free ps
    → s.nr_free < 2 ^ 32
    → 0 < n
    → n ≤ s.nr_free
    → In p ps
    → Taken p n ps s (take_block p n s)
unfolding take_block
take_block-Taken p n s ps h apart most small pos room i =
    let fits = In-AtMost s.pages s.nr_free p ps i most in
    record {
      counted = ground (arith, small, room);
      linked = take_block-Holds p n s ps pos h i (In-Apart s.pages p ps ps i apart);
      unmarked = ground (arith, pos);
      behind = ground (arith, pos, fits, small);
      others = λ q np nn. ground (arith, np, nn);
    }
