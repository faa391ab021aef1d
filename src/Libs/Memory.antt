-- ===== src/Libs/Memory.antt =====
-- The byte blocks of lab8/libs/string.c: `memset`, `memcpy`, `memmove` and `memcmp`. Memory is a
-- function from addresses to bytes, and an address is a number that does not wrap.
use nku_os.Base.{
  ℕ, zero, suc, ◌+◌, ◌-◌, ◌≤◌, ◌<◌, ◌≡◌, ◌↔◌, ◌⊎◌, inl, inr, refl, ◌&&◌, ltb, leb, ◌==◌,
  if◌then◌else◌, update, ℤ, pos, sub_ℕ, arith, Bool-cases,
}

abbrev pub Memory : Type 0
Memory = ℕ → ℕ

-- The loop of `memset`.
unfoldable pub memset : ℕ → ℕ → ℕ → Memory → Memory
memset s c zero m = m
memset s c (suc n) m = memset (s + 1) c n (update m s c)

-- `while (n -- > 0) *d ++ = *s ++;`
unfoldable pub copy_up : ℕ → ℕ → ℕ → Memory → Memory
copy_up d s zero m = m
copy_up d s (suc n) m = copy_up (d + 1) (s + 1) n (update m d (m s))

-- `while (n -- > 0) *-- d = *-- s;`
unfoldable pub copy_down : ℕ → ℕ → ℕ → Memory → Memory
copy_down d s zero m = m
copy_down d s (suc n) m = copy_down (d - 1) (s - 1) n (update m (d - 1) (m (s - 1)))

unfoldable pub memcpy : ℕ → ℕ → ℕ → Memory → Memory
memcpy d s n m = copy_up d s n m

unfoldable pub memmove : ℕ → ℕ → ℕ → Memory → Memory
memmove d s n m =
    if ltb s d && ltb d (s + n) then copy_down (d + n) (s + n) n m else copy_up d s n m

unfoldable pub memcmp : ℕ → ℕ → ℕ → Memory → ℤ
memcmp s1 s2 zero m = pos 0
memcmp s1 s2 (suc n) m =
    let rest = memcmp (s1 + 1) (s2 + 1) n m in if m s1 == m s2 then rest else sub_ℕ (m s1) (m s2)

-- The block of `n` bytes at `d` holds what stood at `s`, and all else is as before.
abbrev pub moved : ℕ → ℕ → ℕ → Memory → Memory
moved d s n m j = if leb d j && ltb j (d + n) then m (s + (j - d)) else m j

memset_lem :
    (s c n : ℕ) (m : Memory) (j : ℕ)
    → memset s c n m j ≡ (if leb s j && ltb j (s + n) then c else m j)
unfolding memset
memset_lem s c zero m j = ground arith
memset_lem s c (suc n) m j = ground (arith, memset_lem (s + 1) c n (update m s c) j)

copy_up_lem :
    (d s n : ℕ) (m : Memory) (j : ℕ) → (d ≤ s) ⊎ (s + n ≤ d) → copy_up d s n m j ≡ moved d s n m j
unfolding copy_up
copy_up_lem d s zero m j h = ground arith
copy_up_lem d s (suc n) m j h = grind (arith, copy_up_lem (d + 1) (s + 1) n (update m d (m s)) j)

copy_down_lem :
    (d s n : ℕ) (m : Memory) (j : ℕ) → s ≤ d → copy_down (d + n) (s + n) n m j ≡ moved d s n m j
unfolding copy_down
copy_down_lem d s zero m j h = ground arith
copy_down_lem d s (suc n) m j h =
    let target : d + suc n - 1 ≡ d + n = omega arith in
    let origin : s + suc n - 1 ≡ s + n = omega arith in
    rw (target, origin, copy_down_lem d s n (update m (d + n) (m (s + n))) j h) (ground arith)

-- After `memmove`, whether or not the areas overlap, the destination holds the bytes that the
-- source held before the call, and every other byte is unchanged.
pub memmove_lem : (d s n : ℕ) (m : Memory) (j : ℕ) → memmove d s n m j ≡ moved d s n m j
unfolding memmove
memmove_lem d s n m j = elim (Bool-cases (ltb s d && ltb d (s + n))) [
  | inl e ↦ rw e (copy_down_lem d s n m j (ground arith))
  | inr e ↦ rw e (copy_up_lem d s n m j (ground arith))
]

-- Where the destination does not start inside the source, behind its first byte, `memcpy` leaves
-- the bytes of the source in the destination, and every other byte unchanged.
pub memcpy_lem :
    (d s n : ℕ) (m : Memory) (j : ℕ) → (d ≤ s) ⊎ (s + n ≤ d) → memcpy d s n m j ≡ moved d s n m j
unfolding memcpy
memcpy_lem d s n m j h = copy_up_lem d s n m j h

abbrev pub SameBytes : ℕ → ℕ → ℕ → Memory → Type 0
SameBytes s1 s2 n m = (i : ℕ) → i < n → m (s1 + i) ≡ m (s2 + i)

-- A comparison of the first bytes, and of the rest.
pub SameBytes-tail :
    (s1 s2 n : ℕ) (m : Memory) → SameBytes s1 s2 (suc n) m → SameBytes (s1 + 1) (s2 + 1) n m
SameBytes-tail s1 s2 n m h i lt = grind (arith, h (suc i) (omega arith))

pub SameBytes-cons :
    (s1 s2 n : ℕ) (m : Memory)
    → m s1 ≡ m s2
    → SameBytes (s1 + 1) (s2 + 1) n m
    → SameBytes s1 s2 (suc n) m
SameBytes-cons s1 s2 n m e h zero lt = grind (arith, e)
SameBytes-cons s1 s2 n m e h (suc i) lt = grind (arith, h i (omega arith))

memcmp-SameBytes : (s1 s2 n : ℕ) (m : Memory) → memcmp s1 s2 n m ≡ pos 0 → SameBytes s1 s2 n m
unfolding memcmp
memcmp-SameBytes s1 s2 zero m e = λ i h. absurd (omega arith)
memcmp-SameBytes s1 s2 (suc n) m e =
    SameBytes-cons s1 s2 n m (ground arith) (memcmp-SameBytes (s1 + 1) (s2 + 1) n m (ground arith))

SameBytes-memcmp : (s1 s2 n : ℕ) (m : Memory) → SameBytes s1 s2 n m → memcmp s1 s2 n m ≡ pos 0
unfolding memcmp
SameBytes-memcmp s1 s2 zero m e = refl
SameBytes-memcmp s1 s2 (suc n) m e =
    let first : m s1 ≡ m s2 = grind (arith, e 0 (omega arith)) in
    ground (arith, first, SameBytes-memcmp (s1 + 1) (s2 + 1) n m (SameBytes-tail s1 s2 n m e))

-- `memcmp` returns 0 exactly when the two blocks hold the same bytes.
pub memcmp_zero : (s1 s2 n : ℕ) (m : Memory) → (memcmp s1 s2 n m ≡ pos 0) ↔ SameBytes s1 s2 n m
memcmp_zero s1 s2 n m = (memcmp-SameBytes s1 s2 n m, SameBytes-memcmp s1 s2 n m)
