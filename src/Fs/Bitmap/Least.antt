-- ===== src/Fs/Bitmap/Least.antt =====
-- `bitmap_alloc` of lab8/kern/fs/sfs/bitmap.c takes the least free block, and `bitmap_free` gives
-- it back.
use nku_os.Base.{
  ℕ, zero, suc, ◌+◌, ◌*◌, ◌≤◌, ◌<◌, ◌≡◌, ◌⊎◌, inl, inr, refl, ap, ◌∙◌, Bool, true, false, none,
  some, ltb, ◌==◌, if◌then◌else◌, Bool-cases, arith,
}
use nku_os.Base.Result.{ok, err}
use nku_os.Fs.Bitmap.{
  Bitmap, e_no_mem, first_bit, any_bit, scan_words, set_bit, bitmap_alloc, bitmap_translate,
  bitmap_test, bitmap_free,
}

-- No bit is set from `i` up to `n`.
abbrev pub Clear : ℕ → ℕ → (ℕ → Bool) → Type 0
Clear i n map = (j : ℕ) → i ≤ j → j < n → map j ≡ false

-- `p` is the first bit set from `i` up to `n`.
pub record First (i n : ℕ) (map : ℕ → Bool) (p : ℕ) : Type 0 where
  pub low : i ≤ p
  pub high : p < n
  pub one : map p ≡ true
  pub before : Clear i p map

Clear-step : (i n : ℕ) (map : ℕ → Bool) → map i ≡ false → Clear (i + 1) n map → Clear i n map
Clear-step i n map e c j low high = elim (Bool-cases (i == j)) [
  | inl q ↦ ap map (ground (arith, q)) ∙ e
  | inr q ↦ c j (ground (arith, q)) high
]

first_bit_cases :
    (k i : ℕ) (map : ℕ → Bool)
    → ((any_bit k i map ≡ false) × Clear i (i + k) map)
      ⊎ ((p : ℕ) × (any_bit k i map ≡ true) × (first_bit k i map ≡ some p) × First i (i + k) map p)
unfolding first_bit any_bit
first_bit_cases zero i map = inl (refl, λ j low high. absurd (omega arith))
first_bit_cases (suc k) i map = elim (Bool-cases (map i)) [
  | inl e ↦ inr (
    i,
    rw e refl,
    rw e refl,
    record {
      low = omega arith;
      high = omega arith;
      one = e;
      before = λ j low high. absurd (omega arith);
    },
  )
  | inr e ↦ elim (first_bit_cases k (i + 1) map) [
    | inl (unset, c) ↦ inl (rw e unset, Clear-step i _ map e (λ j low high. c j low (omega arith)))
    | inr (p, isset, runs, f) ↦ inr (
      p,
      rw e isset,
      rw e runs,
      record {
        low = omega (arith, f.low);
        high = omega (arith, f.high);
        one = f.one;
        before = Clear-step i p map e f.before;
      },
    )
  ]
]

Clear-append : (i k n : ℕ) (map : ℕ → Bool) → Clear i k map → Clear k n map → Clear i n map
Clear-append i k n map c d j low high = elim (Bool-cases (ltb j k)) [
  | inl e ↦ c j low (ground (arith, e))
  | inr e ↦ d j (ground (arith, e)) high
]

-- The search by words finds the first bit of all of them.
scan_words_cases :
    (k ix : ℕ) (map : ℕ → Bool)
    → ((scan_words k ix map ≡ some none) × Clear (ix * 32) ((ix + k) * 32) map)
      ⊎ ((p : ℕ) × (scan_words k ix map ≡ some (some p)) × First (ix * 32) ((ix + k) * 32) map p)
unfolding scan_words
scan_words_cases zero ix map = inl (refl, λ j low high. absurd (omega arith))
scan_words_cases (suc k) ix map = elim (first_bit_cases 32 (ix * 32) map) [
  | inr (p, isset, runs, f) ↦ inr (
    p,
    rw (isset, runs) refl,
    record { low = f.low; high = omega (arith, f.high); one = f.one; before = f.before },
  )
  | inl (unset, c) ↦ elim (scan_words_cases k (ix + 1) map) [
    | inl (runs, d) ↦ inl (
      rw (unset, runs) refl,
      λ j low high.
          Clear-append (ix * 32) (ix * 32 + 32) ((ix + suc k) * 32) map c
            (λ i l h. d i (omega arith) (omega arith)) j low high,
    )
    | inr (p, runs, f) ↦ inr (
      p,
      rw (unset, runs) refl,
      record {
        low = omega (arith, f.low);
        high = omega (arith, f.high);
        one = f.one;
        before =
            Clear-append (ix * 32) (ix * 32 + 32) p map c (λ i l h. f.before i (omega arith) h);
      },
    )
  ]
]

-- `bitmap_alloc` fails no assertion: if a bit of the words is set, it clears the lowest such bit
-- and returns its index, and if none is, it returns -E_NO_MEM and changes nothing.
pub bitmap_alloc_lem :
    (b : Bitmap)
    → ((bitmap_alloc b ≡ err e_no_mem b) × Clear 0 (b.nwords * 32) b.map)
      ⊎ ((p : ℕ) × (bitmap_alloc b ≡ ok p (set_bit p false b)) × First 0 (b.nwords * 32) b.map p)
unfolding bitmap_alloc
bitmap_alloc_lem b = elim (scan_words_cases b.nwords 0 b.map) [
  | inl (runs, c) ↦ inl (rw runs refl, λ j low high. c j (omega arith) (omega arith))
  | inr (p, runs, f) ↦ inr (
    p,
    rw (runs, f.one) refl,
    record {
      low = omega arith;
      high = omega (arith, f.high);
      one = f.one;
      before = λ j low high. f.before j (omega arith) high;
    },
  )
]

-- A block that is in use and in range is free after `bitmap_free`, `bitmap_test` says so, and every
-- other bit is as before.
pub bitmap_free_lem :
    (p : ℕ) (b : Bitmap)
    → p < b.nbits
    → b.map p ≡ false
    → (t : Bitmap) × (bitmap_free p b ≡ ok tt t)
      × (bitmap_test p t ≡ ok true t)
      × ((j : ℕ) → t.map j ≡ (if j == p then true else b.map j))
unfolding bitmap_free bitmap_test bitmap_translate
bitmap_free_lem p b h e =
    (set_bit p true b, ground (arith, h, e), ground (arith, h), λ j. ground arith)
