-- ===== src/Mm/BestFit.antt =====
-- The best-fit allocator: lab2/kern/mm/best_fit_pmm.c. It has the pages and the free list of the
-- first-fit allocator, whose loops over the pages and whose steps on one block it repeats. A loop
-- over the free list takes fuel and gives `none` when the fuel runs out.
use nku_os.Base.{
  ℕ, zero, suc, ◌+◌, ◌-◌, Bool, true, false, not, ◌&&◌, ltb, leb, ◌==◌, if◌then◌else◌, Option, none,
  some,
}
use nku_os.Base.Result.{Result, ok, err, panic, ◌>>◌, assert}
use nku_os.Libs.ListEntry.{Links, list_init, list_add, list_add_before, list_empty}
use nku_os.Mm.Page.{FreeArea, u32, free_list, page_link, le2page}
use nku_os.Mm.FirstFit.{
  reset_reserved, reset_used, place, grown, with_links, after_reset, take_block, merge,
}
pub mod Least

unfoldable pub best_fit_init : FreeArea → FreeArea
best_fit_init s = record s { links = list_init free_list s.links; nr_free = 0 }

-- The loop of `best_fit_init_memmap` over the free list, with the `list_add` behind it: at the end
-- of the loop `le` is the head.
unfoldable pub put_from : ℕ → ℕ → ℕ → Links → Option Links
put_from zero le base l = none
put_from (suc f) le base l =
    let next = l.next le in
    let rest = put_from f next base l in
    if next == free_list
    then some (list_add free_list (page_link base) l)
    else if ltb base (le2page next)
    then some (list_add_before next (page_link base) l)
    else rest

unfoldable pub put_block : ℕ → ℕ → Links → Option Links
unfolding put_from
put_block f base l =
    if list_empty free_list l
    then some (list_add free_list (page_link base) l)
    else put_from f free_list base l

unfoldable pub best_fit_init_memmap : ℕ → ℕ → ℕ → FreeArea → Option (Result FreeArea (Unit {0}))
unfolding reset_reserved put_block
best_fit_init_memmap f base n s =
    after_reset ((assert (ltb 0 n) >> reset_reserved n base) s)
      λ t. let u = grown base n t in with_links (put_block f base u.links) u

-- The loop of `best_fit_alloc_pages`: `min_size` and `best_page` are its last two variables.
unfoldable pub find_best : ℕ → ℕ → ℕ → FreeArea → ℕ → Option ℕ → Option (Option ℕ)
find_best zero le n s min_size best_page = none
find_best (suc f) le n s min_size best_page =
    let next = s.links.next le in
    let size = (s.pages (le2page next)).property in
    let better = find_best f next n s size (some (le2page next)) in
    let rest = find_best f next n s min_size best_page in
    if next == free_list
    then some best_page
    else if leb n size
    then (if ltb size min_size then better else rest)
    else rest

-- The inner option of the value is NULL or the page.
unfoldable pub best_fit_alloc_pages : ℕ → ℕ → FreeArea → Option (Result FreeArea (Option ℕ))
unfolding find_best take_block
best_fit_alloc_pages f n s =
    if not (ltb 0 n)
    then some panic
    else if ltb s.nr_free n
    then some (ok none s)
    else (elim (find_best f free_list n s (u32 (s.nr_free + 1)) none) [
      | none ↦ none
      | some none ↦ some (ok none s)
      | some (some page) ↦ some (ok (some page) (take_block page n s))
    ])

unfoldable pub best_fit_free_pages : ℕ → ℕ → ℕ → FreeArea → Option (Result FreeArea (Unit {0}))
unfolding reset_used place merge
best_fit_free_pages f base n s = after_reset ((assert (ltb 0 n) >> reset_used n base) s) λ t.
    let u = grown base n t in
    elim (place f base u.links) [
      | none ↦ none
      | some l ↦ some (merge base (record u { links = l }))
    ]

unfoldable pub best_fit_nr_free_pages : FreeArea → ℕ
best_fit_nr_free_pages s = s.nr_free
