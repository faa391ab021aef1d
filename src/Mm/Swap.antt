-- ===== src/Mm/Swap.antt =====
-- The page replacement lists: lab8/kern/mm/swap_fifo.c, and the clock of lab3/kern/mm/swap_clock.c.
-- A page is named by the address of its entry `pra_page_link`; `head` is `pra_list_head`, to which
-- `sm_priv` points.
use nku_os.Base.{
  ℕ, zero, suc, ◌+◌, Bool, true, false, not, Option, none, some, ◌==◌, if◌then◌else◌, update,
}
use nku_os.Base.Result.{Result, ok, err, panic, ◌>>◌, assert}
use nku_os.Libs.ListEntry.{Links, list_init, list_add, list_add_before, list_del}
pub mod Fifo

unfoldable pub fifo_init_mm : ℕ → Links → Links
unfolding list_init
fifo_init_mm head l = list_init head l

unfoldable pub fifo_map_swappable : ℕ → ℕ → Links → Links
unfolding list_add_before
fifo_map_swappable head entry l = list_add_before head entry l

-- The value is the entry of the victim.
unfoldable pub fifo_swap_out_victim : ℕ → ℕ → Links → Result Links ℕ
unfolding list_del
fifo_swap_out_victim head in_tick =
    (λ l. assert (in_tick == 0) l) >> λ l. ok (l.next head) (list_del (l.next head) l)

pub record Clock : Type 0 where
  pub links : Links
  pub visited : ℕ → Bool
  pub curr_ptr : ℕ

unfoldable pub clock_init_mm : ℕ → Clock → Clock
unfolding list_init
clock_init_mm head c = record c { links = list_init head c.links; curr_ptr = head }

unfoldable pub clock_map_swappable : ℕ → ℕ → Clock → Clock
unfolding list_add
clock_map_swappable head entry c = record c {
  links = list_add head entry c.links;
  visited = update c.visited entry true;
}

-- `list_del(list_next(curr_ptr))` after the step back.
abbrev pub take_out : ℕ → Clock → Clock
take_out back c = record c { links = list_del (c.links.next back) c.links; curr_ptr = back }

-- The `while (1)` of `_clock_swap_out_victim`; `none` is out of fuel.
unfoldable pub clock_from : ℕ → ℕ → Clock → Option (ℕ × Clock)
unfolding list_del
clock_from zero head c = none
clock_from (suc f) head c =
    let back = c.links.prev c.curr_ptr in
    let past_head = clock_from f head (record c { curr_ptr = back }) in
    let second =
      clock_from f head
        (record c { visited = update c.visited c.curr_ptr false; curr_ptr = back }) in
    if c.curr_ptr == head
    then past_head
    else if not (c.visited c.curr_ptr)
    then some (c.curr_ptr, take_out back c)
    else second

abbrev clock_turned : Option (ℕ × Clock) → Option (Result Clock ℕ)
clock_turned none = none
clock_turned (some (p, c)) = some (ok p c)

unfoldable pub clock_swap_out_victim : ℕ → ℕ → ℕ → Clock → Option (Result Clock ℕ)
unfolding clock_from
clock_swap_out_victim f head in_tick c =
    if in_tick == 0 then clock_turned (clock_from f head c) else some panic
