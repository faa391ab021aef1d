-- ===== src/Libs/ListEntry.antt =====
-- The circular doubly linked lists of lab8/libs/list.h, on an explicit heap of links.
use nku_os.Base.{ℕ, Bool, ◌==◌, update}

-- The two fields of `struct list_entry`, at every address.
pub record Links : Type 0 where
  pub next : ℕ → ℕ
  pub prev : ℕ → ℕ

unfoldable pub list_init : ℕ → Links → Links
list_init elm l = record { next = update l.next elm elm; prev = update l.prev elm elm }

-- `__list_add`: four stores, in the source's order.
unfoldable pub list_link : ℕ → ℕ → ℕ → Links → Links
list_link elm before after l = record {
  next = update (update l.next before elm) elm after;
  prev = update (update l.prev after elm) elm before;
}

-- `__list_del`
unfoldable pub list_unlink : ℕ → ℕ → Links → Links
list_unlink before after l = record {
  next = update l.next before after;
  prev = update l.prev after before;
}

unfoldable pub list_add_after : ℕ → ℕ → Links → Links
unfolding list_link
list_add_after listelm elm l = list_link elm listelm (l.next listelm) l

unfoldable pub list_add : ℕ → ℕ → Links → Links
unfolding list_add_after
list_add listelm elm l = list_add_after listelm elm l

unfoldable pub list_add_before : ℕ → ℕ → Links → Links
unfolding list_link
list_add_before listelm elm l = list_link elm (l.prev listelm) listelm l

unfoldable pub list_del : ℕ → Links → Links
unfolding list_unlink
list_del listelm l = list_unlink (l.prev listelm) (l.next listelm) l

unfoldable pub list_del_init : ℕ → Links → Links
unfolding list_del list_init
list_del_init listelm l = list_init listelm (list_del listelm l)

unfoldable pub list_empty : ℕ → Links → Bool
list_empty head l = l.next head == head
