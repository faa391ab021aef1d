-- ===== src/Fs/Bitmap/Cycle.antt =====
-- A block that is taken and given back (lab8/kern/fs/sfs/bitmap.c).
use nku_os.Base.{
  ℕ, ◌*◌, ◌≤◌, ◌<◌, ◌≡◌, ap, ◌∙◌, Bool, true, false, ◌==◌, ltb, update, Bool-cases, inl, inr, arith,
}
use nku_os.Base.Result.{ok}
use nku_os.Fs.Bitmap.{Bitmap, set_bit, bitmap_alloc, bitmap_free, bitmap_translate}
use nku_os.Fs.Bitmap.Least.{bitmap_alloc_lem}

update_back : (m : ℕ → Bool) (p : ℕ) → m p ≡ true → update (update m p false) p true ≡ m
update_back m p e i j = at j i
  where
    at : (j : ℕ) → update (update m p false) p true j ≡ m j
    at j = elim (Bool-cases (j == p)) [ inl k ↦ ground (arith, k, e) | inr k ↦ ground (arith, k) ]

free_taken :
    (b : Bitmap) (p : ℕ)
    → p < b.nbits
    → b.map p ≡ true
    → bitmap_free p (set_bit p false b) ≡ ok tt b
unfolding bitmap_free bitmap_translate
free_taken b p h e =
    let run : bitmap_free p (set_bit p false b) ≡ ok tt (set_bit p true (set_bit p false b)) =
      ground (arith, h) in
    run ∙ ap (λ m. ok tt (record b { map = m })) (update_back b.map p e)

-- In a bitmap with a free block among its words and without free blocks behind its last bit,
-- `bitmap_alloc` gives a block, and `bitmap_free` of it gives the bitmap from before back.
pub bitmap_alloc-bitmap_free :
    (q : ℕ) (b : Bitmap)
    → q < b.nwords * 32
    → b.map q ≡ true
    → ((j : ℕ) → b.nbits ≤ j → b.map j ≡ false)
    → (p : ℕ) × (t : Bitmap) × (bitmap_alloc b ≡ ok p t) × (bitmap_free p t ≡ ok tt b)
bitmap_alloc-bitmap_free q b h e behind = elim (bitmap_alloc_lem b) [
  | inl (run, c) ↦ absurd (ground (arith, e, c q (omega arith) h))
  | inr (p, run, f) ↦ (p, set_bit p false b, run, free_taken b p (in_range p f.one) f.one)
]
  where
    in_range : (p : ℕ) → b.map p ≡ true → p < b.nbits
    in_range p one = elim (Bool-cases (ltb p b.nbits)) [
      | inl k ↦ ground (arith, k)
      | inr k ↦ absurd (ground (arith, one, behind p (ground (arith, k))))
    ]
