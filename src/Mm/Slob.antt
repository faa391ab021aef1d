-- ===== src/Mm/Slob.antt =====
-- The small-object allocator: lab8/kern/mm/kmalloc.c. Addresses count units of 16 bytes (SLOB_UNIT),
-- so a page has 256 of them. The two fields of a block header are maps over the addresses. The
-- records of big blocks are a list, newest first, each with the address of its own small block.

use nku_os.Base.{
  ℕ, zero, suc, ◌+◌, ◌-◌, ◌*◌, ◌/◌, ◌%◌, ◌^◌, Bool, true, false, not, ◌&&◌, ◌||◌, Option, none,
  some, ltb, leb, ◌==◌, if◌then◌else◌, List, [], ◌∷◌, update,
}
use nku_os.Base.Result.{Result, ok, err, panic}
pub mod Kmalloc
pub mod Order

pub record Big : Type 0 where
  pub node : ℕ
  pub order : ℕ
  pub pages : ℕ

-- `P` is the state of the page allocator.
pub record Slob (P : Type 0) : Type 0 where
  pub units : ℕ → ℕ
  pub next : ℕ → ℕ
  pub slobfree : ℕ
  pub bigblocks : List Big
  pub pool : P

-- `alloc_pages(1 << order)` and `free_pages`, by kernel addresses; `none` is the null pointer.
pub record PageSource (P : Type 0) : Type 0 where
  pub get : ℕ → P → Option ℕ × P
  pub put : ℕ → ℕ → P → P

abbrev pub page_size : ℕ
page_size = 4096

abbrev pub slob_unit : ℕ
slob_unit = 16

-- sizeof(bigblock_t)
abbrev pub bigblock_size : ℕ
bigblock_size = 24

abbrev pub slob_units : ℕ → ℕ
slob_units size = (size + slob_unit - 1) / slob_unit

-- The loop of `find_order`; the fuel bounds the halvings.
unfoldable pub order_from : ℕ → ℕ → ℕ → Option ℕ
order_from zero size order = none
order_from (suc f) size order =
    let rest = order_from f (size / 2) (order + 1) in
    if ltb page_size size then rest else some order

-- `find_order` takes an `int`: of a size the low 32 bits are left, and from 2 ^ 31 on they are a
-- negative number, for which the loop makes no turn.
unfoldable pub find_order : ℕ → ℕ → Option ℕ
unfolding order_from
find_order f size =
    let bits = size % 2 ^ 32 in if leb (2 ^ 31) bits then some 0 else order_from f bits 0

-- `ALIGN` in units; no alignment is 0.
abbrev pub aligned_at : ℕ → ℕ → ℕ
aligned_at align cur = if align == 0 then cur else (cur + align - 1) / align * align

module _ {P : Type 0} where
  abbrev pub set_units : ℕ → ℕ → Slob P → Slob P
  set_units b u s = record s { units = update s.units b u }

  abbrev pub set_next : ℕ → ℕ → Slob P → Slob P
  set_next b n s = record s { next = update s.next b n }

  -- The loop of `slob_free` that finds the block behind which `b` goes.
  unfoldable pub find_place : ℕ → ℕ → ℕ → Slob P → Option ℕ
  find_place zero b cur s = none
  find_place (suc f) b cur s =
      let rest = find_place f b (s.next cur) s in
      if ltb cur b && ltb b (s.next cur)
      then some cur
      else if leb (s.next cur) cur && (ltb cur b || ltb b (s.next cur))
      then some cur
      else rest

  -- `b` joins the block after it, or points to it.
  unfoldable pub join_next : ℕ → ℕ → Slob P → Slob P
  join_next cur b s =
      if b + s.units b == s.next cur
      then set_next b (s.next (s.next cur)) (set_units b (s.units b + s.units (s.next cur)) s)
      else set_next b (s.next cur) s

  -- The block before joins `b`, or points to it.
  unfoldable pub join_prev : ℕ → ℕ → Slob P → Slob P
  join_prev cur b s =
      if cur + s.units cur == b
      then set_next cur (s.next b) (set_units cur (s.units cur + s.units b) s)
      else set_next cur b s

  abbrev insert_at : Option ℕ → ℕ → Slob P → Option (Slob P)
  insert_at none b s = none
  insert_at (some cur) b s = some (record (join_prev cur b (join_next cur b s)) { slobfree = cur })

  -- `slob_free` of a block that is not null.
  unfoldable pub slob_free : ℕ → ℕ → ℕ → Slob P → Option (Slob P)
  unfolding find_place join_next join_prev
  slob_free f b size s =
      let t = if not (size == 0) then set_units b (slob_units size) s else s in
      insert_at (find_place f b t.slobfree t) b t

  -- `if (delta)`: the head is cut off. The result is the new `prev` and `cur`.
  abbrev pub cut_head : ℕ → ℕ → ℕ → Slob P → (ℕ × ℕ) × Slob P
  cut_head align before cur s =
      let aligned = aligned_at align cur in
      let delta = aligned - cur in
      if delta == 0 then ((before, cur), s) else (
        (cur, aligned),
        set_units cur delta (
            set_next cur aligned
              (set_next aligned (s.next cur) (set_units aligned (s.units cur - delta) s))),
      )

  -- The block at `cur` is unlinked, or its tail stays free.
  abbrev pub carve : ℕ → (ℕ × ℕ) × Slob P → ℕ × Slob P
  carve units ((before, cur), s) =
      let u =
        if s.units cur == units
        then set_next before (s.next cur) s
        else set_units cur units (
            set_next (cur + units) (s.next cur)
              (set_units (cur + units) (s.units cur - units) (set_next before (cur + units) s))) in
      (cur, record u { slobfree = before })

  unfoldable pub take_at : ℕ → ℕ → ℕ → ℕ → Slob P → ℕ × Slob P
  take_at units align before cur s = carve units (cut_head align before cur s)

module _ {P : Type 0} (src : PageSource P) where
  -- The branch `cur == slobfree`: a fresh page is freed into the arena, or the allocation fails.
  unfoldable pub grow : ℕ → ℕ → Slob P → Option (Bool × Slob P)
  unfolding slob_free
  grow f size s =
      if size == page_size
      then some (false, s)
      else let (page, pool) = src.get 0 s.pool in
        let t = record s { pool = pool } in
        elim page [
          | none ↦ some (false, t)
          | some b ↦ elim (slob_free f b page_size t) [ none ↦ none | some u ↦ some (true, u) ]
        ]

  -- The `for` loop of `slob_alloc`. The outer option is the fuel, the inner one NULL.
  unfoldable pub slob_search : ℕ → ℕ → ℕ → ℕ → ℕ → ℕ → Slob P → Option (Option ℕ × Slob P)
  unfolding take_at grow
  slob_search zero size units align before cur s = none
  slob_search (suc f) size units align before cur s =
      let found = take_at units align before cur s in
      let rest = slob_search f size units align cur (s.next cur) s in
      let again = λ (t : Slob P). slob_search f size units align t.slobfree (t.next t.slobfree) t in
      if leb (units + (aligned_at align cur - cur)) (s.units cur)
      then some (some found.0, found.1)
      else if cur == s.slobfree
      then (elim (grow f size s) [
        | none ↦ none
        | some (false, t) ↦ some (none, t)
        | some (true, t) ↦ again t
      ])
      else rest

  abbrev searched : Option (Option ℕ × Slob P) → Option (Result (Slob P) (Option ℕ))
  searched none = none
  searched (some (r, s)) = some (ok r s)

  -- `none` is out of fuel.
  unfoldable pub slob_alloc : ℕ → ℕ → ℕ → Slob P → Option (Result (Slob P) (Option ℕ))
  unfolding slob_search
  slob_alloc f size align s =
      if ltb (size + slob_unit) page_size
      then (searched (slob_search f size (slob_units size) align s.slobfree (s.next s.slobfree) s))
      else some panic
