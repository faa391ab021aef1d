-- ===== src/Mm/Vmm/UserMem.antt =====
-- `user_mem_check` of lab8/kern/mm/vmm.c, address by address.
use nku_os.Base.{
  ℕ, zero, suc, ◌+◌, ◌/◌, ◌%◌, ◌==◌, ◌||◌, ◌≤◌, ◌<◌, ◌≡◌, ◌↔◌, ◌⊎◌, inl, inr, refl, sym, ap, subst,
  ◌∙◌, Bool, true, false, not, ◌&&◌, Option, none, some, ltb, leb, if◌then◌else◌, Bool-cases, arith,
}
use nku_os.Mm.Vmm.{
  Vma, MmStruct, contains, vma_of, remember, find_vma, usable, check_from, user_mem_check,
  user_access, u64,
}
use nku_os.Mm.Vmm.Areas.{Among, IsValid, Among-vma_of, vma_of-Among, find_vma_lem, remember-IsValid}

-- The access to one address, by the area that contains it: a write needs the flag VM_WRITE, and in
-- a stack it has to leave the lowest page alone; a read needs VM_READ.
abbrev pub allowed_by : Bool → ℕ → Option Vma → Bool
allowed_by write a none = false
allowed_by write a (some v) =
    if write
    then v.vm_flags / 2 % 2 == 1 && (not (v.vm_flags / 8 % 2 == 1) || leb (v.vm_start + 4096) a)
    else v.vm_flags % 2 == 1

abbrev pub Allowed : Bool → ℕ → ℕ → MmStruct → Type 0
Allowed write start end m =
    (a : ℕ) → start ≤ a → a < end → allowed_by write a (vma_of a m.mmap_list) ≡ true

-- The answer and the state that a check comes to.
abbrev pub Answers : Bool → ℕ → ℕ → MmStruct → Option (Bool × MmStruct) → Type 0
Answers write start end m r =
    (b : Bool) × (t : MmStruct) × (r ≡ some (b, t))
    × IsValid t
    × (t.mmap_list ≡ m.mmap_list)
    × ((b ≡ true) ↔ Allowed write start end m)

option_cases : (o : Option Vma) → (o ≡ none) ⊎ ((v : Vma) × (o ≡ some v))
option_cases none = inl refl
option_cases (some v) = inr (v, refl)

usable_lem :
    (write : Bool) (a : ℕ) (v : Vma)
    → leb v.vm_start a ≡ true
    → usable write a v ≡ allowed_by write a (some v)
usable_lem true a v h = ground (arith, h)
usable_lem false a v h = ground (arith, h)

-- A later address of the area is allowed too.
allowed_later :
    (write : Bool) (start a : ℕ) (v : Vma)
    → start ≤ a
    → allowed_by write start (some v) ≡ true
    → allowed_by write a (some v) ≡ true
allowed_later true start a v low h = ground (arith, h)
allowed_later false start a v low h = h

-- A turn that stops with a refusal.
refuses :
    (write : Bool) (start end : ℕ) (m : MmStruct)
    → start < end
    → allowed_by write start (vma_of start m.mmap_list) ≡ false
    → (false ≡ true) ↔ Allowed write start end m
refuses write start end m h e = (
  (λ z. absurd (ground (arith, z))),
  λ all. absurd (ground (arith, e, all start (omega arith) h)),
)

-- A turn that goes on behind an area that allows the access.
goes_on :
    (write : Bool) (start end : ℕ) (m t : MmStruct) (v : Vma) (b : Bool)
    → IsValid m
    → t.mmap_list ≡ m.mmap_list
    → vma_of start m.mmap_list ≡ some v
    → usable write start v ≡ true
    → (b ≡ true) ↔ Allowed write v.vm_end end t
    → (b ≡ true) ↔ Allowed write start end m
goes_on write start end m t v b h same found ok rest = (forward, backward)
  where
    here : Among v m.mmap_list × (contains start v ≡ true)
    here = vma_of-Among start v m.mmap_list found

    inside : (a : ℕ) → start ≤ a → a < v.vm_end → allowed_by write a (vma_of a m.mmap_list) ≡ true
    inside a low high =
        rw (Among-vma_of 0 a v m.mmap_list h.ordered here.0 (ground (arith, here.1))) (
          allowed_later write start a v low
            (sym (usable_lem write start v (ground (arith, here.1))) ∙ ok))

    forward : b ≡ true → Allowed write start end m
    forward z a low high = elim (Bool-cases (ltb a v.vm_end)) [
      | inl e ↦ inside a low (ground (arith, e))
      | inr e ↦
          ap (λ l. allowed_by write a (vma_of a l)) (sym same) ∙ rest.0 z a (ground (arith, e)) high
    ]

    backward : Allowed write start end m → b ≡ true
    backward all = rest.1 λ a low high.
        ap (λ l. allowed_by write a (vma_of a l)) same ∙ all a (ground (arith, here.1, low)) high

check_turn :
    (f start end : ℕ) (write : Bool) (m : MmStruct)
    → ltb start end ≡ false
    → check_from (suc f) start end write m ≡ some (true, m)
unfolding check_from
check_turn f start end write m e = rw e refl

found_hit :
    (start : ℕ) (m : MmStruct) (o : Option Vma)
    → IsValid m
    → vma_of start m.mmap_list ≡ o
    → (find_vma start m).0 ≡ o
found_hit start m o h found =
    ap (λ (p : Option Vma × MmStruct). p.0) (find_vma_lem start m h) ∙ found

found_next :
    (start : ℕ) (m : MmStruct) (o : Option Vma)
    → IsValid m
    → vma_of start m.mmap_list ≡ o
    → (find_vma start m).1 ≡ remember o m
found_next start m o h found =
    ap (λ (p : Option Vma × MmStruct). p.1) (find_vma_lem start m h) ∙ ap (λ o. remember o m) found

check_none :
    (f start end : ℕ) (write : Bool) (m : MmStruct)
    → IsValid m
    → ltb start end ≡ true
    → vma_of start m.mmap_list ≡ none
    → check_from (suc f) start end write m ≡ some (false, m)
unfolding check_from
check_none f start end write m h e found =
    rw (found_hit start m _ h found, found_next start m _ h found, e) refl

check_some :
    (f start end : ℕ) (write : Bool) (m : MmStruct) (v : Vma)
    → IsValid m
    → ltb start end ≡ true
    → vma_of start m.mmap_list ≡ some v
    → check_from (suc f) start end write m ≡ (
        if usable write start v
        then check_from f v.vm_end end write (remember (some v) m)
        else some (false, remember (some v) m))
unfolding check_from
check_some f start end write m v h e found =
    rw (found_hit start m _ h found, found_next start m _ h found, e) refl

-- The turn at an area, when the rest of the loop answers.
turn_some :
    (f start end : ℕ) (write : Bool) (m : MmStruct) (v : Vma)
    → IsValid m
    → ltb start end ≡ true
    → vma_of start m.mmap_list ≡ some v
    → Answers write v.vm_end end
        (remember (some v) m)
        (check_from f v.vm_end end write (remember (some v) m))
    → IsValid (remember (some v) m)
    → Answers write start end m (check_from (suc f) start end write m)
turn_some f start end write m v h e found (b, t, runs, valid, same, iff) k =
    rw (check_some f start end write m v h e found) (elim (Bool-cases (usable write start v)) [
      | inr bad ↦
          let no : allowed_by write start (vma_of start m.mmap_list) ≡ false =
            ap (allowed_by write start) found
            ∙ sym (
                usable_lem write start v
                  (ground (arith, (vma_of-Among start v m.mmap_list found).1)))
            ∙ bad in
          rw bad (
            false,
            remember (some v) m,
            refl,
            k,
            refl,
            refuses write start end m (ground (arith, e)) no,
          )
      | inl good ↦ rw good (
        b,
        t,
        runs,
        valid,
        same,
        goes_on write start end m (remember (some v) m) v b h refl found good iff,
      )
    ])

turn_none :
    (f start end : ℕ) (write : Bool) (m : MmStruct)
    → IsValid m
    → ltb start end ≡ true
    → vma_of start m.mmap_list ≡ none
    → Answers write start end m (check_from (suc f) start end write m)
turn_none f start end write m h e found = (
  false,
  m,
  check_none f start end write m h e found,
  h,
  refl,
  refuses write start end m (ground (arith, e)) (ap (allowed_by write start) found),
)

remembers :
    (start : ℕ) (m : MmStruct) (v : Vma)
    → IsValid m
    → vma_of start m.mmap_list ≡ some v
    → IsValid (remember (some v) m)
remembers start m v h found = subst (λ o. IsValid (remember o m)) found (remember-IsValid start m h)

check_from-Answers :
    (f start end : ℕ) (write : Bool) (m : MmStruct)
    → IsValid m
    → 0 < f
    → end < start + f
    → Answers write start end m (check_from f start end write m)
check_from-Answers zero start end write m h pos fuel = absurd (omega arith)
check_from-Answers (suc f) start end write m h pos fuel = elim (Bool-cases (ltb start end)) [
  | inr e ↦ (
    true,
    m,
    check_turn f start end write m e,
    h,
    refl,
    ((λ _ a low high. absurd (ground (arith, e, low, high))), λ _. refl),
  )
  | inl e ↦ elim (option_cases (vma_of start m.mmap_list)) [
    | inl found ↦ turn_none f start end write m h e found
    | inr (v, found) ↦
        let past : start < v.vm_end = ground (arith, (vma_of-Among start v m.mmap_list found).1) in
        let k = remembers start m v h found in
        turn_some f start end write m v h e found
          (check_from-Answers f v.vm_end end write (remember (some v) m) k (ground (arith, e))
            (omega (arith, past)))
          k
  ]
]

-- In a valid address space, with fuel above the length, `user_mem_check` ends, and it returns true
-- exactly when the range is a nonempty range of user addresses and the area of every single address
-- allows the access.
pub user_mem_check_lem :
    (f addr len : ℕ) (write : Bool) (m : MmStruct)
    → IsValid m
    → len < f
    → (b : Bool) × (t : MmStruct) × (user_mem_check f addr len write m ≡ some (b, t))
      × IsValid t
      × (t.mmap_list ≡ m.mmap_list)
      × ((b ≡ true) ↔ (
          (user_access addr (u64 (addr + len)) ≡ true) × Allowed write addr (u64 (addr + len)) m))
unfolding user_mem_check
user_mem_check_lem f addr len write m h fuel =
    elim (Bool-cases (user_access addr (u64 (addr + len)))) [
      | inl e ↦
          let (b, t, runs, valid, same, iff) =
            check_from-Answers f addr (u64 (addr + len)) write m h (omega arith) (omega arith) in
          (b, t, rw e runs, valid, same, ((λ z. (e, iff.0 z)), λ p. iff.1 p.1))
      | inr e ↦ (
        false,
        m,
        rw e refl,
        h,
        refl,
        ((λ z. absurd (ground (arith, z))), λ p. absurd (ground (arith, e, p.0))),
      )
    ]
