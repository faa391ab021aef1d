-- ===== src/Mm/Vmm/Areas.antt =====
-- The sorted list of areas of lab8/kern/mm/vmm.c: what `find_vma` finds, and what
-- `insert_vma_struct` and `mm_map` do to the list.
use nku_os.Base.{
  ℕ, ◌≤◌, ◌<◌, ◌≡◌, ◌⊎◌, inl, inr, refl, sym, ap, ◌∙◌, true, false, Option, none, some, List, [],
  ◌∷◌, Bool-cases, arith,
}
use nku_os.Mm.Vmm.{Vma, MmStruct, contains, vma_of, remember, find_vma}

-- Areas that are not empty, in order and apart, from address `k` on.
abbrev pub From : ℕ → List Vma → Type 0
From k [] = Unit {0}
From k (v ∷ vs) = (k ≤ v.vm_start) × (v.vm_start < v.vm_end) × From v.vm_end vs

abbrev pub Among : Vma → List Vma → Type 0
Among v [] = ⊥
Among v (u ∷ us) = (u ≡ v) ⊎ Among v us

abbrev pub CacheOk : Option Vma → List Vma → Type 0
CacheOk none l = Unit {0}
CacheOk (some v) l = Among v l

pub record IsValid (m : MmStruct) : Type 0 where
  pub ordered : From 0 m.mmap_list
  pub cached : CacheOk m.mmap_cache m.mmap_list

pub start_of : (k : ℕ) (v : Vma) (l : List Vma) → From k l → Among v l → k ≤ v.vm_start
start_of k v [] h p = absurd p
start_of k v (u ∷ us) h (inl e) = grind (arith, h.0, ap (λ (w : Vma). w.vm_start) e)
start_of k v (u ∷ us) h (inr p) = omega (arith, h.0, h.1, start_of u.vm_end v us h.2 p)

-- The areas are apart, so an area that contains the address is the one that is found.
pub Among-vma_of :
    (k a : ℕ) (v : Vma) (l : List Vma)
    → From k l
    → Among v l
    → contains a v ≡ true
    → vma_of a l ≡ some v
unfolding vma_of
Among-vma_of k a v [] h p c = absurd p
Among-vma_of k a v (u ∷ us) h (inl e) c = rw (ap (contains a) e ∙ c) (ap some e)
Among-vma_of k a v (u ∷ us) h (inr p) c =
    let away : contains a u ≡ false = ground (arith, start_of u.vm_end v us h.2 p, c) in
    rw away (Among-vma_of u.vm_end a v us h.2 p c)

pub vma_of-Among :
    (a : ℕ) (v : Vma) (l : List Vma) → vma_of a l ≡ some v → Among v l × (contains a v ≡ true)
unfolding vma_of
vma_of-Among a v [] e = absurd (ground (arith, e))
vma_of-Among a v (u ∷ us) e = elim (Bool-cases (contains a u)) [
  | inl c ↦ let same : u ≡ v = ground (arith, e, c) in (inl same, ap (contains a) (sym same) ∙ c)
  | inr c ↦ let (p, q) = vma_of-Among a v us (ground (arith, e, c)) in (inr p, q)
]

found_cached :
    (a : ℕ) (m : MmStruct) (o : Option Vma)
    → m.mmap_cache ≡ o
    → From 0 m.mmap_list
    → CacheOk o m.mmap_list
    → find_vma a m ≡ (vma_of a m.mmap_list, remember (vma_of a m.mmap_list) m)
unfolding find_vma
found_cached a m none e h c = rw e refl
found_cached a m (some v) e h c = elim (Bool-cases (contains a v)) [
  | inl d ↦ rw (e, d, Among-vma_of 0 a v m.mmap_list h c d) refl
  | inr d ↦ rw (e, d) refl
]

-- In a valid address space the cache is only a shortcut: `find_vma` finds the area of the list
-- that contains the address, or none.
pub find_vma_lem :
    (a : ℕ) (m : MmStruct)
    → IsValid m
    → find_vma a m ≡ (vma_of a m.mmap_list, remember (vma_of a m.mmap_list) m)
find_vma_lem a m h = found_cached a m m.mmap_cache refl h.ordered h.cached

remember-IsValid_at :
    (a : ℕ) (m : MmStruct) (o : Option Vma)
    → vma_of a m.mmap_list ≡ o
    → IsValid m
    → IsValid (remember o m)
remember-IsValid_at a m none e h = h
remember-IsValid_at a m (some v) e h = record {
  ordered = h.ordered;
  cached = (vma_of-Among a v m.mmap_list e).0;
}

pub remember-IsValid :
    (a : ℕ) (m : MmStruct) → IsValid m → IsValid (remember (vma_of a m.mmap_list) m)
remember-IsValid a m h = remember-IsValid_at a m (vma_of a m.mmap_list) refl h
