-- ===== src/Mm/FirstFit.antt =====
-- The first-fit allocator: lab8/kern/mm/default_pmm.c. A loop over the free list takes fuel and
-- gives `none` when the fuel runs out.
pub mod Taken
pub mod Search
pub mod Tail
use nku_os.Base.{
  ℕ, zero, suc, ◌+◌, ◌-◌, Bool, true, false, not, ◌&&◌, ltb, leb, ◌==◌, if◌then◌else◌, Option, none,
  some,
}
use nku_os.Base.Result.{Result, ok, err, panic, ◌>>=◌, ◌>>◌, return, assert, modify}
use nku_os.Libs.ListEntry.{Links, list_init, list_add, list_add_before, list_del, list_empty}
use nku_os.Mm.Page.{
  Page, FreeArea, u32, free_list, page_link, le2page, set_page, relinked, set_head, clear_head,
}

unfoldable pub default_init : FreeArea → FreeArea
default_init s = record s { links = list_init free_list s.links; nr_free = 0 }

-- The loop of `default_init_memmap` over the `k` pages from `p` on.
unfoldable pub reset_reserved : ℕ → ℕ → FreeArea → Result FreeArea (Unit {0})
reset_reserved zero p = return tt
reset_reserved (suc k) p = do
  λ s. assert (s.pages p).reserved s
  modify (set_page p (record { ref = 0; reserved = false; is_property = false; property = 0 }))
  reset_reserved k (p + 1)

-- The loop of `default_free_pages`.
unfoldable pub reset_used : ℕ → ℕ → FreeArea → Result FreeArea (Unit {0})
reset_used zero p = return tt
reset_used (suc k) p = do
  λ s. assert (not (s.pages p).reserved && not (s.pages p).is_property) s
  λ s. modify (set_page p (record (s.pages p) { ref = 0; reserved = false; is_property = false })) s
  reset_used k (p + 1)

-- `while ((le = list_next(le)) != &free_list)`, which puts `base` in its place by address. The
-- loop goes on after it has added `base` at the end, as the source does.
unfoldable pub place_from : ℕ → ℕ → ℕ → Links → Option Links
place_from zero le base l = none
place_from (suc f) le base l =
    let next = l.next le in
    let last = place_from f next base (list_add next (page_link base) l) in
    let rest = place_from f next base l in
    if next == free_list
    then some l
    else if ltb base (le2page next)
    then some (list_add_before next (page_link base) l)
    else if l.next next == free_list
    then last
    else rest

unfoldable pub place : ℕ → ℕ → Links → Option Links
unfolding place_from
place f base l =
    if list_empty free_list l
    then some (list_add free_list (page_link base) l)
    else place_from f free_list base l

-- A loop that has run out of fuel has no result.
abbrev pub with_links : Option Links → FreeArea → Option FreeArea
with_links none s = none
with_links (some l) s = some (record s { links = l })

abbrev pub grown : ℕ → ℕ → FreeArea → FreeArea
grown base n s = let t = set_head base n s in record t { nr_free = u32 (s.nr_free + n) }

abbrev pub after_reset :
    Result FreeArea (Unit {0}) → (FreeArea → Option FreeArea) → Option (Result FreeArea (Unit {0}))
after_reset (ok a s) k = elim (k s) [ none ↦ none | some t ↦ some (ok tt t) ]
after_reset (err e s) k = some (err e s)
after_reset panic k = some panic

unfoldable pub default_init_memmap : ℕ → ℕ → ℕ → FreeArea → Option (Result FreeArea (Unit {0}))
unfolding reset_reserved place
default_init_memmap f base n s =
    after_reset ((assert (ltb 0 n) >> reset_reserved n base) s)
      λ t. let u = grown base n t in with_links (place f base u.links) u

-- The first loop of `default_alloc_pages`: the inner option is `page`.
unfoldable pub find_fit : ℕ → ℕ → ℕ → FreeArea → Option (Option ℕ)
find_fit zero le n s = none
find_fit (suc f) le n s =
    let next = s.links.next le in
    let rest = find_fit f next n s in
    if next == free_list
    then some none
    else if leb n (s.pages (le2page next)).property
    then some (some (le2page next))
    else rest

-- `if (page->property > n)`: what is left of the block goes back behind `prev`.
abbrev pub split_block : ℕ → ℕ → ℕ → FreeArea → FreeArea
split_block page n before s =
    if ltb n (s.pages page).property
    then relinked (list_add before (page_link (page + n)))
        (set_head (page + n) ((s.pages page).property - n) s)
    else s

-- The branch `page != NULL`.
unfoldable pub take_block : ℕ → ℕ → FreeArea → FreeArea
take_block page n s =
    let before = s.links.prev (page_link page) in
    let t = split_block page n before (relinked (list_del (page_link page)) s) in
    clear_head page (record t { nr_free = u32 (t.nr_free - n) })

-- The inner option of the value is NULL or the page.
unfoldable pub default_alloc_pages : ℕ → ℕ → FreeArea → Option (Result FreeArea (Option ℕ))
unfolding find_fit take_block
default_alloc_pages f n s =
    if not (ltb 0 n)
    then some panic
    else if ltb s.nr_free n
    then some (ok none s)
    else (elim (find_fit f free_list n s) [
      | none ↦ none
      | some none ↦ some (ok none s)
      | some (some page) ↦ some (ok (some page) (take_block page n s))
    ])

-- `default_free_pages` after the insertion: the block before `base` swallows it if they touch.
unfoldable pub merge_before : ℕ → FreeArea → ℕ × FreeArea
merge_before base s =
    let le = s.links.prev (page_link base) in
    let p = le2page le in
    if le == free_list
    then (base, s)
    else if p + (s.pages p).property == base
    then (
      p,
      relinked (list_del (page_link base)) (
          clear_head base (
            set_page p
              (record (s.pages p) {
                property = u32 ((s.pages p).property + (s.pages base).property);
              })
              s)),
    )
    else (base, s)

-- Then `base` swallows the block after it.
unfoldable pub merge_after : ℕ → FreeArea → FreeArea
merge_after base s =
    let le = s.links.next (page_link base) in
    let p = le2page le in
    if le == free_list
    then s
    else if base + (s.pages base).property == p
    then relinked (list_del (page_link p)) (
        clear_head p (
          set_page base
            (record (s.pages base) {
              property = u32 ((s.pages base).property + (s.pages p).property);
            })
            s))
    else s

unfoldable pub merge : ℕ → FreeArea → FreeArea
unfolding merge_before merge_after
merge base s = let (base', t) = merge_before base s in merge_after base' t

unfoldable pub default_free_pages : ℕ → ℕ → ℕ → FreeArea → Option (Result FreeArea (Unit {0}))
unfolding reset_used place merge
default_free_pages f base n s = after_reset ((assert (ltb 0 n) >> reset_used n base) s) λ t.
    let u = grown base n t in
    elim (place f base u.links) [
      | none ↦ none
      | some l ↦ some (merge base (record u { links = l }))
    ]

unfoldable pub default_nr_free_pages : FreeArea → ℕ
default_nr_free_pages s = s.nr_free
