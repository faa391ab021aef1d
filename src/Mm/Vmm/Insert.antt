-- ===== src/Mm/Vmm/Insert.antt =====
-- `insert_vma_struct` and `mm_map` of lab8/kern/mm/vmm.c: an area that is apart from the others
-- goes in, and one that overlaps a later area fails an assertion.
use nku_os.Base.{
  ℕ, ◌+◌, ◌≤◌, ◌<◌, ◌≡◌, ◌⊎◌, inl, inr, refl, ap, true, false, Option, none, some, ltb,
  if◌then◌else◌, List, [], ◌∷◌, Bool-cases, arith,
}
use nku_os.Base.Result.{ok, panic, ◌>>◌, return}
use nku_os.Mm.Vmm.{
  Vma, MmStruct, behind, contains, vma_of, check_vma_overlap, clear_before, insert_from,
  insert_vma_struct, mm_map, vma_create, round_down, round_up, u64, user_access,
}
use nku_os.Mm.Vmm.Areas.{From, Among, CacheOk, IsValid, start_of, find_vma_lem}

-- `v` has no address in common with an area of the list.
abbrev pub Apart : Vma → List Vma → Type 0
Apart v [] = Unit {0}
Apart v (u ∷ us) = ((u.vm_end ≤ v.vm_start) ⊎ (v.vm_end ≤ u.vm_start)) × Apart v us

-- What the insertion promises of the new list.
record Inserted (k : ℕ) (v : Vma) (l l' : List Vma) : Type 0 where
  ordered : From k l'
  kept : (u : Vma) → Among u l → Among u l'
  found : (a : ℕ) → vma_of a l' ≡ (if contains a v then some v else vma_of a l)

insert_first :
    (before : Option Vma) (v u : Vma) (us : List Vma)
    → clear_before before v ≡ true
    → v.vm_start < v.vm_end
    → u.vm_start < u.vm_end
    → v.vm_end ≤ u.vm_start
    → insert_from before v (u ∷ us) ≡ some (v ∷ u ∷ us)
unfolding insert_from
insert_first before v u us c h k z =
    let first : ltb v.vm_start u.vm_start ≡ true = ground arith in
    let over : check_vma_overlap v u ≡ true = ground arith in rw (first, c, over) refl

insert_later :
    (before : Option Vma) (v u : Vma) (us l : List Vma)
    → u.vm_start ≤ v.vm_start
    → insert_from (some u) v us ≡ some l
    → insert_from before v (u ∷ us) ≡ some (u ∷ l)
unfolding insert_from
insert_later before v u us l h e =
    let later : ltb v.vm_start u.vm_start ≡ false = ground arith in rw (later, e) refl

insert_end :
    (before : Option Vma) (v : Vma)
    → clear_before before v ≡ true
    → insert_from before v [] ≡ some (v ∷ [])
unfolding insert_from
insert_end before v c = rw c refl

found_later :
    (k a : ℕ) (v u : Vma) (us l : List Vma)
    → From k (u ∷ us)
    → u.vm_end ≤ v.vm_start
    → vma_of a l ≡ (if contains a v then some v else vma_of a us)
    → vma_of a (u ∷ l) ≡ (if contains a v then some v else vma_of a (u ∷ us))
unfolding vma_of
found_later k a v u us l h z e = elim (Bool-cases (contains a u)) [
  | inl c ↦ let out : contains a v ≡ false = ground (arith, c) in rw (c, out) refl
  | inr c ↦ rw (c, e) refl
]

found_first :
    (a : ℕ) (v : Vma) (l : List Vma)
    → vma_of a (v ∷ l) ≡ (if contains a v then some v else vma_of a l)
unfolding vma_of
found_first a v l = refl

insert_lem :
    (k : ℕ) (before : Option Vma) (v : Vma) (l : List Vma)
    → From k l
    → k ≤ v.vm_start
    → v.vm_start < v.vm_end
    → clear_before before v ≡ true
    → Apart v l
    → (l' : List Vma) × (insert_from before v l ≡ some l') × Inserted k v l l'
insert_lem k before v [] h low full c apart = (
  v ∷ [],
  insert_end before v c,
  record { ordered = (low, full, tt); kept = λ u p. inr p; found = λ a. found_first a v [] },
)
insert_lem k before v (u ∷ us) h low full c (inl z, apart) =
    let (l, runs, done) =
      insert_lem u.vm_end (some u) v us h.2 z full (ground (arith, h.1)) apart in
    (
      u ∷ l,
      insert_later before v u us l (omega (arith, h.1)) runs,
      record {
        ordered = (h.0, h.1, done.ordered);
        kept = λ w p. elim p [ inl e ↦ inl e | inr q ↦ inr (done.kept w q) ];
        found = λ a. found_later k a v u us l h z (done.found a);
      },
    )
insert_lem k before v (u ∷ us) h low full c (inr z, apart) = (
  v ∷ u ∷ us,
  insert_first before v u us c full h.1 z,
  record {
    ordered = (low, full, (z, h.1, h.2));
    kept = λ w p. inr p;
    found = λ a. found_first a v (u ∷ us);
  },
)

CacheOk-kept :
    (o : Option Vma) (l l' : List Vma)
    → ((u : Vma) → Among u l → Among u l')
    → CacheOk o l
    → CacheOk o l'
CacheOk-kept none l l' f c = tt
CacheOk-kept (some v) l l' f c = f v c

insert_runs :
    (v : Vma) (m : MmStruct) (l : List Vma)
    → v.vm_start < v.vm_end
    → insert_from none v m.mmap_list ≡ some l
    → insert_vma_struct v m ≡ ok tt (record m { mmap_list = l; map_count = m.map_count + 1 })
unfolding insert_vma_struct
insert_runs v m l h e =
    let full : ltb v.vm_start v.vm_end ≡ true = ground arith in rw (full, e) refl

-- An area that is not empty and apart from the areas of a valid address space is inserted: the
-- result is valid, it has one area more, and every address finds the new area if it lies in it,
-- and what it found before if not.
pub insert-IsValid :
    (v : Vma) (m : MmStruct)
    → IsValid m
    → v.vm_start < v.vm_end
    → Apart v m.mmap_list
    → (t : MmStruct) × (insert_vma_struct v m ≡ ok tt t)
      × IsValid t
      × (t.map_count ≡ m.map_count + 1)
      × ((a : ℕ) → vma_of a t.mmap_list ≡ (if contains a v then some v else vma_of a m.mmap_list))
insert-IsValid v m h full apart =
    let (l, runs, done) = insert_lem 0 none v m.mmap_list h.ordered (omega arith) full refl apart in
    (
      record m { mmap_list = l; map_count = m.map_count + 1 },
      insert_runs v m l full runs,
      record {
        ordered = done.ordered;
        cached = CacheOk-kept m.mmap_cache m.mmap_list l done.kept h.cached;
      },
      refl,
      done.found,
    )

insert_overlap :
    (k : ℕ) (before : Option Vma) (v u : Vma) (l : List Vma)
    → From k l
    → Among u l
    → v.vm_start < u.vm_start
    → u.vm_start < v.vm_end
    → insert_from before v l ≡ none
unfolding insert_from
insert_overlap k before v u [] h p low high = absurd p
insert_overlap k before v u (x ∷ xs) h p low high = elim (Bool-cases (ltb v.vm_start x.vm_start)) [
  | inl e ↦
      let near : x.vm_start ≤ u.vm_start = first_start k u x xs h p in
      let over : check_vma_overlap v x ≡ false = ground (arith, near) in rw e (ground (arith, over))
  | inr e ↦ rw e (
      ap (behind x) (
        insert_overlap x.vm_end (some x) v u xs h.2 (not_first u x xs p (ground (arith, e))) low
          high))
]
  where
    first_start :
        (k : ℕ) (u x : Vma) (xs : List Vma)
        → From k (x ∷ xs)
        → Among u (x ∷ xs)
        → x.vm_start ≤ u.vm_start
    first_start k u x xs h (inl e) = grind (arith, ap (λ (w : Vma). w.vm_start) e)
    first_start k u x xs h (inr p) = omega (arith, h.1, start_of x.vm_end u xs h.2 p)

    not_first :
        (u x : Vma) (xs : List Vma) → Among u (x ∷ xs) → x.vm_start < u.vm_start → Among u xs
    not_first u x xs (inl e) lt = absurd (grind (arith, ap (λ (w : Vma). w.vm_start) e))
    not_first u x xs (inr p) lt = p

insert_panics :
    (v : Vma) (m : MmStruct)
    → v.vm_start < v.vm_end
    → insert_from none v m.mmap_list ≡ none
    → insert_vma_struct v m ≡ panic
unfolding insert_vma_struct
insert_panics v m h e =
    let full : ltb v.vm_start v.vm_end ≡ true = ground arith in rw (full, e) refl

new_panics :
    (v : Vma) (m : MmStruct)
    → insert_vma_struct v m ≡ panic
    → (insert_vma_struct v >> return v) m ≡ panic
new_panics v m e = rw (◌>>◌, e) refl

-- When the first page of the request lies in no area but a later page lies in one, `mm_map` fails
-- an assertion instead of returning -E_INVAL.
pub mm_map_overlap :
    (addr len flags : ℕ) (m : MmStruct) (u : Vma)
    → IsValid m
    → user_access (round_down addr) (round_up (u64 (addr + len))) ≡ true
    → vma_of (round_down addr) m.mmap_list ≡ none
    → Among u m.mmap_list
    → round_down addr < u.vm_start
    → u.vm_start < round_up (u64 (addr + len))
    → mm_map true addr len flags m ≡ panic
unfolding mm_map vma_create
mm_map_overlap addr len flags m u h user free p low high =
    let v : Vma = record {
      vm_start = round_down addr;
      vm_end = round_up (u64 (addr + len));
      vm_flags = flags;
    } in
    let fails : insert_from none v m.mmap_list ≡ none =
      insert_overlap 0 none v u m.mmap_list h.ordered p low high in
    rw (find_vma_lem (round_down addr) m h, free, user)
      (new_panics v m (insert_panics v m (omega (arith, low, high)) fails))
