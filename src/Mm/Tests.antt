-- ===== src/Mm/Tests.antt =====
-- The allocators at concrete inputs.
use nku_os.Base.{
  ℕ, ◌*◌, ◌^◌, ◌<◌, ◌≡◌, refl, false, if◌then◌else◌, ◌==◌, Option, some, none, [], ◌∷◌, map, arith,
  inl,
}
use nku_os.Base.Result.{ok, panic}
use nku_os.Libs.ListEntry.{Links}
use nku_os.Libs.ListOrder.{Holds}
use nku_os.Mm.Page.{FreeArea, free_list, page_link}
use nku_os.Mm.FirstFit.{default_alloc_pages, place}
use nku_os.Mm.FirstFit.Search.{first_fit, alloc_first_fit}
use nku_os.Mm.FirstFit.Taken.{Allocated}
use nku_os.Mm.FirstFit.Tail.{last_of, place-prev_self}
use nku_os.Mm.BestFit.{best_fit_alloc_pages}
use nku_os.Mm.BestFit.Least.{Chosen, alloc_best_fit}
use nku_os.Mm.Swap.{fifo_init_mm}
use nku_os.Mm.Swap.Fifo.{arrive, drain, fifo_order}
use nku_os.Mm.Slob.{Slob, PageSource, find_order, page_size}
use nku_os.Mm.Slob.Kmalloc.{kmalloc}
use nku_os.Mm.Slob.Order.{find_order_short, kmalloc_asserts}

-- One free block of 8 pages at page 4, whose entry is at address 5.
abbrev ring : Links
ring = record { next = λ k. if k == 0 then 5 else 0; prev = λ k. if k == 0 then 5 else 0 }

abbrev one_block : FreeArea
one_block = record {
  pages = λ p. record {
    ref = 0;
    reserved = false;
    is_property = p == 4;
    property = if p == 4 then 8 else 0;
  };
  links = ring;
  nr_free = 8;
}

ring-Holds : Holds ring free_list (map page_link (4 ∷ []))
ring-Holds = record {
  chain = (refl, refl, (refl, refl));
  distinct = (((λ e. omega (arith, e)), tt), (tt, tt));
}

alloc_first_fit_example :
    (t : FreeArea) × (default_alloc_pages 3 2 one_block
      ≡ some (ok (first_fit one_block.pages 2 (4 ∷ [])) t))
    × Allocated (first_fit one_block.pages 2 (4 ∷ [])) 2 (4 ∷ []) one_block t
alloc_first_fit_example =
    alloc_first_fit 3 2 one_block (4 ∷ []) ring-Holds ((inl (omega arith), tt), tt)
      (omega arith, tt) (omega arith) (omega arith) (omega arith) (ground arith)

alloc_best_fit_example :
    (o : Option ℕ) × (t : FreeArea) × (best_fit_alloc_pages 3 2 one_block ≡ some (ok o t))
    × Chosen one_block.pages 2 (4 ∷ []) o
    × Allocated o 2 (4 ∷ []) one_block t
alloc_best_fit_example =
    alloc_best_fit 3 2 one_block (4 ∷ []) ring-Holds ((inl (omega arith), tt), tt) (omega arith, tt)
      (omega arith) (omega arith) (omega arith) (ground arith)

place-prev_self_example :
    (l : Links) × (place 5 20 ring ≡ some l)
    × (l.prev (page_link 20) ≡ page_link 20)
    × (l.next (page_link (last_of 4 [])) ≡ page_link 20)
place-prev_self_example =
    place-prev_self 3 20 4 ring [] ring-Holds ((omega arith), tt) (ground arith)

find_order_short_example : (o : ℕ) × (find_order 5 8193 ≡ some o) × (page_size * 2 ^ o < 8193)
find_order_short_example =
    find_order_short 0 5 8193 (omega arith) (omega arith) (omega arith) (omega arith)

abbrev no_pages : PageSource ℕ
no_pages = record { get = λ order s. (none, s); put = λ b order s. s }

abbrev empty_arena : Slob ℕ
empty_arena = record { units = λ b. 1; next = λ b. 0; slobfree = 0; bigblocks = []; pool = 0 }

kmalloc_asserts_example : kmalloc no_pages 5 4070 empty_arena ≡ some panic
kmalloc_asserts_example = kmalloc_asserts no_pages 5 4070 empty_arena (omega arith) (omega arith)

fifo_order_example :
    (l : Links) × (drain 1 2 (arrive 1 (5 ∷ 3 ∷ []) (fifo_init_mm 1 ring)) ≡ ok (5 ∷ 3 ∷ []) l)
    × Holds l 1 []
fifo_order_example = fifo_order 1 (5 ∷ 3 ∷ []) ring (
  ((λ e. omega (arith, e)), ((λ e. omega (arith, e)), tt)),
  (((λ e. omega (arith, e)), tt), (tt, tt)),
)
