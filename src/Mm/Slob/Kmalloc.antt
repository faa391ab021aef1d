-- ===== src/Mm/Slob/Kmalloc.antt =====
-- `kmalloc`, `kfree` and `ksize` of lab8/kern/mm/kmalloc.c, on the small blocks of Mm/Slob.antt.
use nku_os.Base.{
  ℕ, ◌+◌, ◌-◌, ◌*◌, ◌%◌, ◌^◌, Option, none, some, ltb, ◌==◌, if◌then◌else◌, List, [], ◌∷◌,
}
use nku_os.Base.Result.{Result, ok}
use nku_os.Mm.Slob.{
  Slob, Big, PageSource, page_size, slob_unit, bigblock_size, find_order, slob_free, slob_alloc,
}

-- Units in a page.
abbrev pub page_units : ℕ
page_units = 256

-- The lookup by the address of the pages, in list order.
pub find_big : ℕ → List Big → Option Big
find_big b [] = none
find_big b (g ∷ gs) = if g.pages == b then some g else find_big b gs

pub drop_big : ℕ → List Big → List Big
drop_big b [] = []
drop_big b (g ∷ gs) = if g.pages == b then gs else g ∷ drop_big b gs

-- The lookup is made only for an address on a page boundary.
abbrev pub big_at : ℕ → List Big → Option Big
big_at b gs = if b % page_units == 0 then find_big b gs else none

module _ {P : Type 0} (src : PageSource P) where
  abbrev freed : Option (Slob P) → Option (Result (Slob P) (Option ℕ))
  freed none = none
  freed (some s) = some (ok none s)

  abbrev behind_header : Option (Result (Slob P) (Option ℕ)) → Option (Result (Slob P) (Option ℕ))
  behind_header (some (ok (some m) s)) = some (ok (some (m + 1)) s)
  behind_header r = r

  -- The record at `node` gets its order and pages; without pages it is freed.
  abbrev pub fill_big : ℕ → ℕ → ℕ → Slob P → Option (Result (Slob P) (Option ℕ))
  fill_big f node order s =
      let (pages, pool) = src.get order s.pool in
      let t = record s { pool = pool } in
      elim pages [
        | none ↦ freed (slob_free f node bigblock_size t)
        | some b ↦
            let big : Big = record { node = node; order = order; pages = b } in
            some (ok (some b) (record t { bigblocks = big ∷ t.bigblocks }))
      ]

  abbrev pub big_alloc :
      ℕ → ℕ → Option (Result (Slob P) (Option ℕ)) → Option (Result (Slob P) (Option ℕ))
  big_alloc f size (some (ok (some node) s)) = elim (find_order f size) [
    | none ↦ none
    | some order ↦ fill_big f node order s
  ]
  big_alloc f size r = r

  -- `__kmalloc`
  unfoldable pub kmalloc : ℕ → ℕ → Slob P → Option (Result (Slob P) (Option ℕ))
  unfolding find_order slob_free slob_alloc
  kmalloc f size s =
      if ltb size (page_size - slob_unit)
      then behind_header (slob_alloc src f (size + slob_unit) 0 s)
      else big_alloc f size (slob_alloc src f bigblock_size 0 s)

  -- `kfree` of a block that is not null.
  unfoldable pub kfree : ℕ → ℕ → Slob P → Option (Slob P)
  unfolding slob_free find_big drop_big
  kfree f b s = elim (big_at b s.bigblocks) [
    | none ↦ slob_free f (b - 1) 0 s
    | some g ↦
        slob_free f g.node bigblock_size
          (record s { bigblocks = drop_big b s.bigblocks; pool = src.put b g.order s.pool })
  ]

  -- `ksize` of a block that is not null, in bytes.
  unfoldable pub ksize : ℕ → Slob P → ℕ
  unfolding find_big
  ksize b s = elim (big_at b s.bigblocks) [
    | none ↦ s.units (b - 1) * slob_unit
    | some g ↦ page_size * 2 ^ g.order
  ]
