-- ===== src/Mm/Page.antt =====
-- Physical page frames: `struct Page` and `free_area_t` of lab8/kern/mm/memlayout.h. A page is
-- named by its index; the entry `page_link` of page `p` has the address `suc p`, and the head of
-- the free list has the address 0.
use nku_os.Base.{ℕ, suc, ◌-◌, ◌%◌, ◌^◌, Bool, true, false, update}
use nku_os.Libs.ListEntry.{Links}

-- `reserved` and `is_property` are the bits PG_reserved and PG_property of `flags`.
pub record Page : Type 0 where
  pub ref : ℕ
  pub reserved : Bool
  pub is_property : Bool
  pub property : ℕ

pub record FreeArea : Type 0 where
  pub pages : ℕ → Page
  pub links : Links
  pub nr_free : ℕ

-- A store to an `unsigned int`.
abbrev pub u32 : ℕ → ℕ
u32 n = n % 2 ^ 32

abbrev pub free_list : ℕ
free_list = 0

abbrev pub page_link : ℕ → ℕ
page_link p = suc p

-- `le2page(le, page_link)`
abbrev pub le2page : ℕ → ℕ
le2page le = le - 1

abbrev pub set_page : ℕ → Page → FreeArea → FreeArea
set_page p f s = record s { pages = update s.pages p f }

abbrev pub relinked : (Links → Links) → FreeArea → FreeArea
relinked f s = record s { links = f s.links }

-- `SetPageProperty(p)` after `p->property = n`.
abbrev pub set_head : ℕ → ℕ → FreeArea → FreeArea
set_head p n s = set_page p (record (s.pages p) { property = u32 n; is_property = true }) s

-- `ClearPageProperty(p)`
abbrev pub clear_head : ℕ → FreeArea → FreeArea
clear_head p s = set_page p (record (s.pages p) { is_property = false }) s
