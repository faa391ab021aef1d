-- ===== src/Mm/Vmm.antt =====
-- The areas of a user address space: lab8/kern/mm/vmm.c. The list of areas is the sequence that
-- its links represent (Libs/ListOrder.antt). The cache is the area itself instead of a pointer to
-- it: no function writes to an area that is in the list.
use nku_os.Base.{
  ℕ, zero, suc, ◌+◌, ◌-◌, ◌/◌, ◌%◌, ◌^◌, Bool, true, false, not, ◌&&◌, ◌||◌, Option, none, some,
  ltb, leb, ◌==◌, if◌then◌else◌, List, [], ◌∷◌,
}
use nku_os.Base.Result.{Result, ok, err, panic, ◌>>=◌, ◌>>◌, return, assert}
pub mod Areas
pub mod UserMem
pub mod Insert
mod Tests

pub record Vma : Type 0 where
  pub vm_start : ℕ
  pub vm_end : ℕ
  pub vm_flags : ℕ

-- `struct mm_struct` without the page table, the swap data, the count of users and the semaphore.
pub record MmStruct : Type 0 where
  pub mmap_list : List Vma
  pub mmap_cache : Option Vma
  pub map_count : ℕ

abbrev pub pgsize : ℕ
pgsize = 4096

abbrev pub userbase : ℕ
userbase = 0x00200000

abbrev pub usertop : ℕ
usertop = 0x80000000

abbrev pub e_inval : ℕ
e_inval = 3

abbrev pub e_no_mem : ℕ
e_no_mem = 4

-- A sum of type `size_t`.
abbrev pub u64 : ℕ → ℕ
u64 n = n % 2 ^ 64

abbrev pub round_down : ℕ → ℕ
round_down a = a - a % pgsize

abbrev pub round_up : ℕ → ℕ
round_up a = round_down (u64 (a + pgsize - 1))

-- USER_ACCESS
abbrev pub user_access : ℕ → ℕ → Bool
user_access start end = leb userbase start && ltb start end && leb end usertop

-- Whether `kmalloc` gives memory is an argument, here and below.
unfoldable pub mm_create : Bool → Option MmStruct
mm_create false = none
mm_create true = some (record { mmap_list = []; mmap_cache = none; map_count = 0 })

unfoldable pub vma_create : Bool → ℕ → ℕ → ℕ → Option Vma
vma_create false start end flags = none
vma_create true start end flags = some (record { vm_start = start; vm_end = end; vm_flags = flags })

abbrev pub contains : ℕ → Vma → Bool
contains addr v = leb v.vm_start addr && ltb addr v.vm_end

-- The loop of `find_vma`.
unfoldable pub vma_of : ℕ → List Vma → Option Vma
vma_of addr [] = none
vma_of addr (v ∷ vs) = if contains addr v then some v else vma_of addr vs

abbrev cache_hit : ℕ → Option Vma → Bool
cache_hit addr none = false
cache_hit addr (some v) = contains addr v

abbrev pub remember : Option Vma → MmStruct → MmStruct
remember none m = m
remember (some v) m = record m { mmap_cache = some v }

unfoldable pub find_vma : ℕ → MmStruct → Option Vma × MmStruct
unfolding vma_of
find_vma addr m =
    let found = if cache_hit addr m.mmap_cache then m.mmap_cache else vma_of addr m.mmap_list in
    (found, remember found m)

-- The three assertions of `check_vma_overlap`.
abbrev pub check_vma_overlap : Vma → Vma → Bool
check_vma_overlap before next =
    ltb before.vm_start before.vm_end
    && leb before.vm_end next.vm_start
    && ltb next.vm_start next.vm_end

abbrev pub clear_before : Option Vma → Vma → Bool
clear_before none v = true
clear_before (some u) v = check_vma_overlap u v

abbrev pub behind : Vma → Option (List Vma) → Option (List Vma)
behind u none = none
behind u (some l) = some (u ∷ l)

-- The loop of `insert_vma_struct` with the checks at the place that it finds; `none` is a failed
-- assertion.
unfoldable pub insert_from : Option Vma → Vma → List Vma → Option (List Vma)
insert_from before v [] = if clear_before before v then some (v ∷ []) else none
insert_from before v (u ∷ us) =
    let rest = behind u (insert_from (some u) v us) in
    if ltb v.vm_start u.vm_start
    then (if clear_before before v && check_vma_overlap v u then some (v ∷ u ∷ us) else none)
    else rest

abbrev pub with_list : Option (List Vma) → MmStruct → Result MmStruct (Unit {0})
with_list none m = panic
with_list (some l) m = ok tt (record m { mmap_list = l; map_count = m.map_count + 1 })

unfoldable pub insert_vma_struct : Vma → MmStruct → Result MmStruct (Unit {0})
unfolding insert_from
insert_vma_struct v = do
  assert (ltb v.vm_start v.vm_end)
  λ m. with_list (insert_from none v m.mmap_list) m

abbrev insert_new : Option Vma → MmStruct → Result MmStruct Vma
unfolding insert_vma_struct
insert_new none m = err e_no_mem m
insert_new (some v) m = (insert_vma_struct v >> return v) m

-- `(vma = find_vma(mm, start)) != NULL && end > vma->vm_start`
abbrev taken_by : Option Vma → ℕ → Bool
taken_by none end = false
taken_by (some v) end = ltb v.vm_start end

-- The value is the new area, which the source stores behind `vma_store`.
unfoldable pub mm_map : Bool → ℕ → ℕ → ℕ → MmStruct → Result MmStruct Vma
unfolding vma_create insert_vma_struct
mm_map memory addr len flags m =
    let start = round_down addr in
    let end = round_up (u64 (addr + len)) in
    let (hit, t) = find_vma start m in
    if not (user_access start end)
    then err e_inval m
    else if taken_by hit end
    then err e_inval t
    else insert_new (vma_create memory start end flags) t

-- `vma->vm_flags & ((write) ? VM_WRITE : VM_READ)`
abbrev pub permits : Bool → Vma → Bool
permits write v = if write then v.vm_flags / 2 % 2 == 1 else v.vm_flags % 2 == 1

-- VM_STACK
abbrev pub is_stack : Vma → Bool
is_stack v = v.vm_flags / 8 % 2 == 1

-- The tests of one turn of the loop of `user_mem_check`.
abbrev pub usable : Bool → ℕ → Vma → Bool
usable write start v =
    leb v.vm_start start
    && permits write v
    && not (write && is_stack v && ltb start (v.vm_start + pgsize))

-- The loop of `user_mem_check`; `none` is out of fuel.
unfoldable pub check_from : ℕ → ℕ → ℕ → Bool → MmStruct → Option (Bool × MmStruct)
check_from zero start end write m = none
check_from (suc f) start end write m =
    let (hit, t) = find_vma start m in
    let turn : Option (Bool × MmStruct) = elim hit [
      | none ↦ some (false, t)
      | some v ↦
          let rest = check_from f v.vm_end end write t in
          if usable write start v then rest else some (false, t)
    ] in
    if ltb start end then turn else some (true, m)

-- `user_mem_check` with an address space.
unfoldable pub user_mem_check : ℕ → ℕ → ℕ → Bool → MmStruct → Option (Bool × MmStruct)
unfolding check_from
user_mem_check f addr len write m =
    if user_access addr (u64 (addr + len))
    then check_from f addr (u64 (addr + len)) write m
    else some (false, m)
