-- ===== src/Libs/Tests.antt =====
-- The strings and lists of lab8/libs at concrete inputs.
use nku_os.Base.{ℕ, ◌≡◌, ◌↔◌, refl, some, ℤ, pos, ltb, if◌then◌else◌, arith}
use nku_os.Libs.Memory.{Memory, memmove, moved, SameBytes, memmove_lem}
use nku_os.Libs.Text.{IsText, strcmp, strcmp_lem}

-- Byte `i` is `i` up to 9, then 0: a string of 9 bytes at 1.
abbrev digits : Memory
digits i = if ltb i 10 then i else 0

digits-IsText : IsText 1 9 digits
digits-IsText = record { bytes = λ i h e. ground (arith, h, e); ends = refl }

digits_tail : IsText 4 6 digits
digits_tail = record { bytes = λ i h e. ground (arith, h, e); ends = refl }

memmove_lem_example : memmove 3 1 4 digits 5 ≡ moved 3 1 4 digits 5
memmove_lem_example = memmove_lem 3 1 4 digits 5

strcmp_lem_example :
    (r : ℤ) × (strcmp 10 1 4 digits ≡ some r)
    × ((r ≡ pos 0) ↔ ((◌≡◌ {A = ℕ} 9 6) × SameBytes 1 4 9 digits))
strcmp_lem_example = strcmp_lem 10 1 4 9 6 digits digits-IsText digits_tail (omega arith)
