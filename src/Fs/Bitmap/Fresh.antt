-- ===== src/Fs/Bitmap/Fresh.antt =====
-- A bitmap that `bitmap_create` of lab8/kern/fs/sfs/bitmap.c has just made.
use nku_os.Base.{
  ℕ, zero, suc, ◌+◌, ◌-◌, ◌*◌, ◌/◌, ◌≤◌, ◌<◌, ◌≡◌, inl, inr, refl, Bool, true, not, ◌&&◌, ltb, leb,
  ◌==◌, some, if◌then◌else◌, update, Bool-cases, arith,
}
use nku_os.Fs.Bitmap.{Bitmap, flip_from, bitmap_create}

flip_from_lem :
    (k i : ℕ) (map : ℕ → Bool) (j : ℕ)
    → flip_from k i map j ≡ (if leb i j && ltb j (i + k) then not (map j) else map j)
unfolding flip_from
flip_from_lem zero i map j = ground arith
flip_from_lem (suc k) i map j =
    ground (arith, flip_from_lem k (i + 1) (update map i (not (map i))) j)

-- For a number of blocks that is not 0 and with memory for it, `bitmap_create` fails no assertion,
-- and in the new bitmap exactly the blocks of this number are free, all of them within the words.
pub bitmap_create_lem :
    (n : ℕ)
    → 0 < n
    → (b : Bitmap) × (bitmap_create true true n ≡ some (some b))
      × (b.nbits ≡ n)
      × (n ≤ b.nwords * 32)
      × ((j : ℕ) → b.map j ≡ ltb j n)
unfolding bitmap_create
bitmap_create_lem n h =
    let w : ℕ = (n + 31) / 32 in
    elim (Bool-cases (n == w * 32)) [
      | inl e ↦ (
        record { nbits = n; nwords = w; map = λ i. ltb i (w * 32) },
        ground (arith, e),
        refl,
        ground arith,
        λ j. ground (arith, e),
      )
      | inr e ↦ (
        record {
          nbits = n;
          nwords = w;
          map =
              flip_from (32 - (n - (w - 1) * 32)) ((w - 1) * 32 + (n - (w - 1) * 32))
                (λ i. ltb i (w * 32));
        },
        ground (arith, e),
        refl,
        ground arith,
        λ j. ground (
          arith,
          e,
          flip_from_lem (32 - (n - (w - 1) * 32)) ((w - 1) * 32 + (n - (w - 1) * 32))
              (λ i. ltb i (w * 32)) j,
        ),
      )
    ]
