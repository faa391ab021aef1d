-- ===== src/Mm/Vmm/Tests.antt =====
-- Address spaces at concrete inputs.
use nku_os.Base.{
  ℕ, ◌+◌, ◌≡◌, ◌↔◌, inl, refl, Bool, true, false, none, some, if◌then◌else◌, [], ◌∷◌, arith,
}
use nku_os.Base.Result.{ok, panic}
use nku_os.Mm.Vmm.{
  Vma, MmStruct, contains, vma_of, remember, find_vma, insert_vma_struct, mm_map, user_access, u64,
  user_mem_check,
}
use nku_os.Mm.Vmm.Areas.{IsValid, find_vma_lem}
use nku_os.Mm.Vmm.Insert.{insert-IsValid, mm_map_overlap}
use nku_os.Mm.Vmm.UserMem.{Allowed, user_mem_check_lem}

-- A readable area of two pages, and one for another page.
abbrev code : Vma
code = record { vm_start = 0x800000; vm_end = 0x802000; vm_flags = 5 }

abbrev data_area : Vma
data_area = record { vm_start = 0x804000; vm_end = 0x805000; vm_flags = 3 }

abbrev one_area : MmStruct
one_area = record { mmap_list = code ∷ []; mmap_cache = some code; map_count = 1 }

one_area-IsValid : IsValid one_area
one_area-IsValid = record { ordered = (omega arith, omega arith, tt); cached = inl refl }

find_vma_lem_example :
    find_vma 0x801000 one_area
    ≡ (vma_of 0x801000 (code ∷ []), remember (vma_of 0x801000 (code ∷ [])) one_area)
find_vma_lem_example = find_vma_lem 0x801000 one_area one_area-IsValid

insert-IsValid_example :
    (t : MmStruct) × (insert_vma_struct data_area one_area ≡ ok tt t)
    × IsValid t
    × (t.map_count ≡ 2)
    × ((a : ℕ)
        → vma_of a t.mmap_list
          ≡ (if contains a data_area then some data_area else vma_of a (code ∷ [])))
insert-IsValid_example =
    insert-IsValid data_area one_area one_area-IsValid (omega arith) (inl (omega arith), tt)

-- The first page of the request is free.
unmapped : vma_of 0x7ff000 (code ∷ []) ≡ none
unfolding vma_of
unmapped = refl

mm_map_overlap_example : mm_map true 0x7ff000 0x2000 3 one_area ≡ panic
mm_map_overlap_example =
    mm_map_overlap 0x7ff000 0x2000 3 one_area code one_area-IsValid refl unmapped (inl refl)
      (omega arith) (omega arith)

user_mem_check_lem_example :
    (b : Bool) × (t : MmStruct) × (user_mem_check 0x1001 0x800800 0x1000 false one_area
      ≡ some (b, t))
    × IsValid t
    × (t.mmap_list ≡ code ∷ [])
    × ((b ≡ true) ↔ (
        (user_access 0x800800 (u64 (0x800800 + 0x1000)) ≡ true)
        × Allowed false 0x800800 (u64 (0x800800 + 0x1000)) one_area))
user_mem_check_lem_example =
    user_mem_check_lem 0x1001 0x800800 0x1000 false one_area one_area-IsValid (omega arith)
