-- ===== src/Libs/Text.antt =====
-- The strings of lab8/libs/string.c: bytes up to a zero byte. A loop that runs to the terminator
-- takes fuel, and gives `none` when the fuel runs out.
use nku_os.Base.{
  ◌↔◌, ◌∙◌, ap, ℕ, zero, suc, ◌+◌, ◌≤◌, ◌<◌, ◌≡◌, ◌≢◌, ◌⊎◌, inl, inr, refl, not, ◌&&◌, ◌==◌,
  if◌then◌else◌, update, ℤ, pos, sub_ℕ, arith, Bool-cases, Option, none, some,
}
use nku_os.Libs.Memory.{SameBytes, SameBytes-cons, SameBytes-tail, Memory, moved}
use mathlib.Core.Option

-- The loop of `strlen`, which counts from `cnt` on.
unfoldable pub strlen_from : ℕ → ℕ → ℕ → Memory → Option ℕ
strlen_from zero s cnt m = none
strlen_from (suc f) s cnt m =
    let rest = strlen_from f (s + 1) (cnt + 1) m in if m s == 0 then some cnt else rest

unfoldable pub strlen : ℕ → ℕ → Memory → Option ℕ
unfolding strlen_from
strlen f s m = strlen_from f s 0 m

-- `strnlen`: the recursion is on `len - cnt`.
unfoldable pub strnlen_from : ℕ → ℕ → ℕ → Memory → ℕ
strnlen_from zero s cnt m = cnt
strnlen_from (suc k) s cnt m =
    let rest = strnlen_from k (s + 1) (cnt + 1) m in if m s == 0 then cnt else rest

unfoldable pub strnlen : ℕ → ℕ → Memory → ℕ
unfolding strnlen_from
strnlen s len m = strnlen_from len s 0 m

unfoldable pub strcpy : ℕ → ℕ → ℕ → Memory → Option Memory
strcpy zero d s m = none
strcpy (suc f) d s m =
    let rest = strcpy f (d + 1) (s + 1) (update m d (m s)) in
    if m s == 0 then some (update m d (m s)) else rest

-- The source pointer stays at the terminator, so the rest is filled with zeros.
unfoldable pub strncpy : ℕ → ℕ → ℕ → Memory → Memory
strncpy d s zero m = m
strncpy d s (suc n) m = strncpy (d + 1) (if m s == 0 then s else s + 1) n (update m d (m s))

unfoldable pub strcat : ℕ → ℕ → ℕ → Memory → Option Memory
unfolding strlen strcpy
strcat f d s m = Option.bind (strlen f d m) λ n. strcpy f (d + n) s m

unfoldable pub strcmp : ℕ → ℕ → ℕ → Memory → Option ℤ
strcmp zero s1 s2 m = none
strcmp (suc f) s1 s2 m =
    let rest = strcmp f (s1 + 1) (s2 + 1) m in
    if not (m s1 == 0) && m s1 == m s2 then rest else some (sub_ℕ (m s1) (m s2))

unfoldable pub strncmp : ℕ → ℕ → ℕ → Memory → ℤ
strncmp s1 s2 zero m = pos 0
strncmp s1 s2 (suc n) m =
    let rest = strncmp (s1 + 1) (s2 + 1) n m in
    if not (m s1 == 0) && m s1 == m s2 then rest else sub_ℕ (m s1) (m s2)

-- The outer option is the fuel, the inner one the null pointer.
unfoldable pub strchr : ℕ → ℕ → ℕ → Memory → Option (Option ℕ)
strchr zero s c m = none
strchr (suc f) s c m =
    let rest = strchr f (s + 1) c m in
    if m s == 0 then some none else if m s == c then some (some s) else rest

unfoldable pub strfind : ℕ → ℕ → ℕ → Memory → Option ℕ
strfind zero s c m = none
strfind (suc f) s c m =
    let rest = strfind f (s + 1) c m in
    if m s == 0 then some s else if m s == c then some s else rest

-- A string of `n` bytes at `s`.
pub record IsText (s n : ℕ) (m : Memory) : Type 0 where
  pub bytes : (i : ℕ) → i < n → m (s + i) ≢ 0
  pub ends : m (s + n) ≡ 0

IsText-tail : {s n : ℕ} {m : Memory} → IsText s (suc n) m → IsText (s + 1) n m
IsText-tail {s} {n} {m} t = record {
  bytes = λ i h e. t.bytes (suc i) (omega arith) (grind (arith, e));
  ends = grind (arith, t.ends);
}

IsText-head : {s n : ℕ} {m : Memory} → IsText s (suc n) m → m s ≢ 0
IsText-head t e = t.bytes 0 (omega arith) (grind (arith, e))

IsText-nil : {s : ℕ} {m : Memory} → IsText s 0 m → m s ≡ 0
IsText-nil t = grind (arith, t.ends)

strlen_from_lem :
    (f s cnt n : ℕ) (m : Memory) → IsText s n m → n < f → strlen_from f s cnt m ≡ some (cnt + n)
unfolding strlen_from
strlen_from_lem zero s cnt n m t h = absurd (omega arith)
strlen_from_lem (suc f) s cnt zero m t h = ground (arith, IsText-nil t)
strlen_from_lem (suc f) s cnt (suc n) m t h =
    ground (arith, IsText-head t, strlen_from_lem f (s + 1) (cnt + 1) n m (IsText-tail t))

-- `strlen` stops at the terminator of a string and returns its length, given fuel above it.
pub strlen_lem : (f s n : ℕ) (m : Memory) → IsText s n m → n < f → strlen f s m ≡ some n
unfolding strlen
strlen_lem f s n m t h = strlen_from_lem f s 0 n m t h ∙ ap some (omega arith)

-- On two strings, with fuel above the length of the first, `strcmp` ends, and returns 0 exactly when
-- they have the same length and bytes.
pub strcmp_lem :
    (f s1 s2 n1 n2 : ℕ) (m : Memory)
    → IsText s1 n1 m
    → IsText s2 n2 m
    → n1 < f
    → (r : ℤ) × (strcmp f s1 s2 m ≡ some r) × ((r ≡ pos 0) ↔ ((n1 ≡ n2) × SameBytes s1 s2 n1 m))
unfolding strcmp
strcmp_lem zero s1 s2 n1 n2 m t u h = absurd (omega arith)
strcmp_lem (suc f) s1 s2 zero zero m t u h = (
  pos 0,
  ground (arith, IsText-nil t, IsText-nil u),
  ((λ _. (refl, λ i lt. absurd (omega arith))), λ _. refl),
)
strcmp_lem (suc f) s1 s2 zero (suc n2) m t u h = (
  sub_ℕ (m s1) (m s2),
  ground (arith, IsText-nil t),
  ((λ e. absurd (ground (arith, IsText-nil t, IsText-head u))), λ p. absurd (omega (arith, p.0))),
)
strcmp_lem (suc f) s1 s2 (suc n1) zero m t u h = (
  sub_ℕ (m s1) (m s2),
  ground (arith, IsText-head t, IsText-nil u),
  ((λ e. absurd (ground (arith, IsText-head t, IsText-nil u))), λ p. absurd (omega (arith, p.0))),
)
strcmp_lem (suc f) s1 s2 (suc n1) (suc n2) m t u h = elim (Bool-cases (m s1 == m s2)) [
  | inl e ↦
      let (r, runs, same) =
        strcmp_lem f (s1 + 1) (s2 + 1) n1 n2 m (IsText-tail t) (IsText-tail u) (omega arith) in
      (
        r,
        ground (arith, IsText-head t, e, runs),
        (
          (λ z. (
            omega (arith, (same.0 z).0),
            SameBytes-cons s1 s2 n1 m (ground (arith, e)) (same.0 z).1,
          )),
          λ p. same.1 (omega (arith, p.0), SameBytes-tail s1 s2 n1 m p.1),
        ),
      )
  | inr e ↦ (
    sub_ℕ (m s1) (m s2),
    ground (arith, e),
    ((λ z. absurd (ground (arith, e))), λ p. absurd (grind (arith, e, p.1 0 (omega arith)))),
  )
]

IsText-update :
    {s n : ℕ} {m : Memory} (d c : ℕ)
    → IsText s n m
    → (d < s) ⊎ (s + n < d)
    → IsText s n (update m d c)
IsText-update {s} {n} d c t o = record {
  bytes = λ i h. ground (arith, t.bytes i h);
  ends = ground (arith, t.ends);
}

moved-suc :
    (d s n : ℕ) (m : Memory) (j : ℕ)
    → (d ≤ s) ⊎ (s + suc n < d)
    → moved (d + 1) (s + 1) (n + 1) (update m d (m s)) j ≡ moved d s (suc n + 1) m j
moved-suc d s n m j h = grind arith

-- Where the destination does not start inside the string behind its first byte, and with fuel above
-- its length, `strcpy` ends, and it moves the string with its terminator and no other byte.
pub strcpy_lem :
    (f d s n : ℕ) (m : Memory)
    → IsText s n m
    → n < f
    → (d ≤ s) ⊎ (s + n < d)
    → (m' : Memory) × (strcpy f d s m ≡ some m') × ((j : ℕ) → m' j ≡ moved d s (n + 1) m j)
unfolding strcpy
strcpy_lem zero d s n m t h o = absurd (omega arith)
strcpy_lem (suc f) d s zero m t h o =
    (update m d (m s), ground (arith, IsText-nil t), λ j. grind arith)
strcpy_lem (suc f) d s (suc n) m t h o =
    let (m', runs, same) =
      strcpy_lem f (d + 1) (s + 1) n (update m d (m s))
        (IsText-update d (m s) (IsText-tail t) (ground arith)) (omega arith) (ground arith) in
    (m', ground (arith, IsText-head t, runs), λ j. same j ∙ moved-suc d s n m j o)
