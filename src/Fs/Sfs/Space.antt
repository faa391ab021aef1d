-- ===== src/Fs/Sfs/Space.antt =====
-- How many blocks are free: the superblock's `unused_blocks` against the bitmap, for
-- lab8/kern/fs/sfs/sfs_inode.c.
use nku_os.Base.{
  ℕ, zero, suc, ◌+◌, ◌-◌, ◌*◌, ◌%◌, ◌^◌, ◌≤◌, ◌<◌, ◌≡◌, refl, ap, Bool, true, false, ◌==◌, update,
  Bool-cases, inl, inr, arith,
}

abbrev pub one_if : Bool → ℕ
one_if true = 1
one_if false = 0

-- How many of the first `n` blocks are free, as the mount counts them.
unfoldable pub free_count : ℕ → (ℕ → Bool) → ℕ
free_count zero map = 0
free_count (suc n) map = one_if (map n) + free_count n map

free_count-outside :
    (n : ℕ) (map : ℕ → Bool) (p : ℕ) (v : Bool)
    → n ≤ p
    → free_count n (update map p v) ≡ free_count n map
unfolding free_count
free_count-outside zero map p v h = refl
free_count-outside (suc n) map p v h =
    ground (arith, h, free_count-outside n map p v (omega (arith, h)))

free_count-update :
    (n : ℕ) (map : ℕ → Bool) (p : ℕ) (v : Bool)
    → p < n
    → free_count n (update map p v) + one_if (map p) ≡ free_count n map + one_if v
unfolding free_count
free_count-update zero map p v h = absurd (omega (arith, h))
free_count-update (suc n) map p v h = elim (Bool-cases (n == p)) [
  | inl e ↦ ground (
    arith,
    e,
    free_count-outside n map p v (ground (arith, e)),
    ap (λ i. one_if (map i)) (is_last e),
  )
  | inr e ↦ ground (arith, h, e, free_count-update n map p v (ground (arith, h, e)))
]
  where
    is_last : n == p ≡ true → n ≡ p
    is_last e = ground (arith, e)

free_count-bound : (n : ℕ) (map : ℕ → Bool) → free_count n map ≤ n
unfolding free_count
free_count-bound zero map = omega arith
free_count-bound (suc n) map = elim (Bool-cases (map n)) [
  | inl e ↦ ground (arith, e, free_count-bound n map)
  | inr e ↦ ground (arith, e, free_count-bound n map)
]

-- Every free block is one of the file system's but not block 0, the superblock knows how many there
-- are, and the bitmap covers all of them. `small` keeps a block's place on the device in 32 bits.
pub record Space (blocks unused nbits nwords : ℕ) (map : ℕ → Bool) : Type 0 where
  pub small : blocks ≤ 2 ^ 20
  pub covers : blocks ≤ nbits
  pub words : blocks ≤ nwords * 32
  pub low : (j : ℕ) → map j ≡ true → 0 < j
  pub high : (j : ℕ) → map j ≡ true → j < blocks
  pub counted : unused ≡ free_count blocks map

module _ {blocks unused nbits nwords : ℕ} {map : ℕ → Bool} where
  pub Space-positive : Space blocks unused nbits nwords map → (p : ℕ) → map p ≡ true → 0 < unused
  Space-positive w p e =
      ground (arith, e, w.counted, free_count-update blocks map p false (w.high p e))

  pub Space-take :
      Space blocks unused nbits nwords map
      → (p : ℕ) → map p ≡ true
      → Space blocks (unused - 1) nbits nwords (update map p false)
  Space-take w p e = record {
    small = w.small;
    covers = w.covers;
    words = w.words;
    low = λ j k. w.low j (kept j k);
    high = λ j k. w.high j (kept j k);
    counted = ground (arith, e, w.counted, free_count-update blocks map p false (w.high p e));
  }
    where
      kept : (j : ℕ) → update map p false j ≡ true → map j ≡ true
      kept j k = ground (arith, k)

  pub Space-give :
      Space blocks unused nbits nwords map
      → (p : ℕ) → 0 < p
      → p < blocks
      → map p ≡ false
      → Space blocks ((unused + 1) % 2 ^ 32) nbits nwords (update map p true)
  Space-give w p l h e = record {
    small = w.small;
    covers = w.covers;
    words = w.words;
    low = λ j k. elim (Bool-cases (j == p)) [
      | inl q ↦ ground (arith, q, l)
      | inr q ↦ w.low j (kept j q k)
    ];
    high = λ j k. elim (Bool-cases (j == p)) [
      | inl q ↦ ground (arith, q, h)
      | inr q ↦ w.high j (kept j q k)
    ];
    counted = ground (
      arith,
      e,
      w.counted,
      w.small,
      free_count-bound blocks map,
      free_count-update blocks map p true h,
    );
  }
    where
      kept : (j : ℕ) → j == p ≡ false → update map p true j ≡ true → map j ≡ true
      kept j q k = ground (arith, q, k)

-- When none of its first `n` bits is set, no block is free.
pub free_count-none :
    (n : ℕ) (map : ℕ → Bool) → ((j : ℕ) → j < n → map j ≡ false) → free_count n map ≡ 0
unfolding free_count
free_count-none zero map h = refl
free_count-none (suc n) map h =
    ground (arith, h n (omega arith), free_count-none n map (λ j k. h j (omega (arith, k))))
