-- ===== src/Fs/Sfs/Alloc.antt =====
-- What the calls on blocks that lab8/kern/fs/sfs/sfs_inode.c makes do to the file system: the block I/O
-- of lab8/kern/fs/sfs/sfs_io.c, `sfs_block_alloc` and `sfs_block_free`.
use nku_os.Base.{
  ℕ, ◌+◌, ◌-◌, ◌*◌, ◌%◌, ◌^◌, ◌≤◌, ◌<◌, ◌≡◌, ◌⊎◌, refl, ◌∙◌, Bool, true, false, not, ◌||◌, ltb,
  ◌==◌, List, [], ◌∷◌, update, update_self, Bool-cases, inl, inr, arith,
}
use nku_os.Base.Result.{Result, ok, err, ◌>>=◌, ◌>>◌, return}
use nku_os.Fs.Bitmap.{set_bit, e_no_mem, bitmap_translate, bitmap_test, bitmap_free, bitmap_alloc}
use nku_os.Fs.Bitmap.Least.{First, bitmap_alloc_lem}
use nku_os.Fs.Sfs.{
  Sfs, device_block, dop_io, rblock, wblock, sfs_clear_block, sfs_block_inuse, sfs_block_alloc,
  sfs_block_free, assert_inuse,
}
use nku_os.Fs.Sfs.Space.{free_count-none, Space-positive}
use nku_os.Fs.Sfs.Wf.{Wf, LooseIn}

-- Some coming call of the device fails.
unfoldable pub faulty : List ℕ → Bool
faulty [] = false
faulty (e ∷ es) = not (e == 0) || faulty es

abbrev pub heard : List ℕ → Sfs → Sfs
heard es s = record s { answers = es }

abbrev pub wrote : ℕ → (ℕ → ℕ) → Sfs → Sfs
wrote b words s = record s { disk = update s.disk b words }

abbrev pub took : ℕ → Sfs → Sfs
took p s = record s {
  freemap = set_bit p false s.freemap;
  unused_blocks = s.unused_blocks - 1;
  super_dirty = true;
}

abbrev pub gave : ℕ → Sfs → Sfs
gave p s = record s {
  freemap = set_bit p true s.freemap;
  unused_blocks = (s.unused_blocks + 1) % 2 ^ 32;
  super_dirty = true;
}

dop_io_cases :
    (s : Sfs)
    → ((es : List ℕ) × (dop_io s ≡ ok tt (heard es s)) × (faulty es ≡ faulty s.answers))
      ⊎ ((es : List ℕ) × (e : ℕ) × (dop_io s ≡ err e (heard es s)) × (faulty s.answers ≡ true))
unfolding dop_io faulty
dop_io_cases s = go s.answers refl
  where
    go :
        (l : List ℕ)
        → s.answers ≡ l
        → ((es : List ℕ) × (dop_io s ≡ ok tt (heard es s)) × (faulty es ≡ faulty l))
          ⊎ ((es : List ℕ) × (e : ℕ) × (dop_io s ≡ err e (heard es s)) × (faulty l ≡ true))
    go [] q = inl (s.answers, rw q refl, rw q refl)
    go (e ∷ es) q = elim (Bool-cases (e == 0)) [
      | inl k ↦ inl (es, rw (q, k) refl, rw k refl)
      | inr k ↦ inr (es, e, rw (q, k) refl, rw k refl)
    ]

device_block_lem : (b n : ℕ) → n ≤ 2 ^ 20 → b < n → device_block b ≡ b
device_block_lem b n h l = ground (arith, h, l)

nonzero : (b : ℕ) → 0 < b → b == 0 ≡ false
nonzero b l = ground (arith, l)

within : (b n : ℕ) → b < n → ltb b n ≡ true
within b n h = ground (arith, h)

pub rblock_cases :
    (b : ℕ) (s : Sfs)
    → s.blocks ≤ 2 ^ 20
    → 0 < b
    → b < s.blocks
    → ((es : List ℕ) × (rblock b true s ≡ ok (s.disk b) (heard es s))
        × (faulty es ≡ faulty s.answers))
      ⊎ ((es : List ℕ) × (e : ℕ) × (rblock b true s ≡ err e (heard es s))
          × (faulty s.answers ≡ true))
unfolding rblock
rblock_cases b s n l h = elim (dop_io_cases s) [
  | inl (es, run, f) ↦ inl (
    es,
    rw (◌>>◌, nonzero b l, within b s.blocks h, run, device_block_lem b s.blocks n h) refl,
    f,
  )
  | inr (es, e, run, f) ↦ inr (es, e, rw (◌>>◌, nonzero b l, within b s.blocks h, run) refl, f)
]

pub wblock_cases :
    (b : ℕ) (words : ℕ → ℕ) (s : Sfs)
    → s.blocks ≤ 2 ^ 20
    → 0 < b
    → b < s.blocks
    → ((es : List ℕ) × (wblock b words true s ≡ ok tt (wrote b words (heard es s)))
        × (faulty es ≡ faulty s.answers))
      ⊎ ((es : List ℕ) × (e : ℕ) × (wblock b words true s ≡ err e (heard es s))
          × (faulty s.answers ≡ true))
unfolding wblock
wblock_cases b words s n l h = elim (dop_io_cases s) [
  | inl (es, run, f) ↦ inl (
    es,
    rw (◌>>◌, nonzero b l, within b s.blocks h, run, device_block_lem b s.blocks n h) refl,
    f,
  )
  | inr (es, e, run, f) ↦ inr (es, e, rw (◌>>◌, nonzero b l, within b s.blocks h, run) refl, f)
]

pub sfs_block_inuse_lem :
    (p : ℕ) (s : Sfs)
    → 0 < p
    → p < s.blocks
    → s.blocks ≤ s.freemap.nbits
    → sfs_block_inuse p s ≡ ok (not (s.freemap.map p)) s
unfolding sfs_block_inuse bitmap_test bitmap_translate
sfs_block_inuse_lem p s l h n =
    rw
      (
        ◌>>◌,
        nonzero p l,
        within p s.blocks h,
        ◌>>=◌,
        within p s.freemap.nbits (omega (arith, h, n)),
      )
      refl

-- How `sfs_block_alloc` ends: no block is free; the device fails, and the block is lost; or the
-- block is in use and filled with zeros.
pub data Allocs (s : Sfs) : Result Sfs ℕ → Type 0 where
  full : s.unused_blocks ≡ 0 → Allocs s (err e_no_mem s)
  loses :
      (p : ℕ) (es : List ℕ) (e : ℕ)
      → s.freemap.map p ≡ true
      → faulty s.answers ≡ true
      → Allocs s (err e (heard es (took p s)))
  gets :
      (p : ℕ) (es : List ℕ)
      → s.freemap.map p ≡ true
      → faulty es ≡ faulty s.answers
      → Allocs s (ok p (wrote p (λ i. 0) (heard es (took p s))))

-- In a well formed file system `sfs_block_alloc` fails no assertion. It ends with -E_NO_MEM and an
-- unchanged state only if no block is free; with the error of the device and a formerly free block
-- marked as used and counted, whose number is not returned, only if the device fails; or with a
-- formerly free block that is marked as used, counted and filled with zeros.
pub sfs_block_alloc-Allocs : (s : Sfs) → Wf s → Allocs s (sfs_block_alloc s)
unfolding sfs_block_alloc sfs_clear_block assert_inuse
sfs_block_alloc-Allocs s w = elim (bitmap_alloc_lem s.freemap) [
  | inl (run, c) ↦
      rw (◌>>=◌, run)
        (Allocs.full (
          w.space.counted
          ∙ free_count-none s.blocks s.freemap.map
              (λ j h. c j (omega arith) (omega (arith, h, w.space.words)))))
  | inr (p, run, f) ↦
      let l = w.space.low p f.one in
      let h = w.space.high p f.one in
      elim (wblock_cases p (λ i. 0) (took p s) w.space.small l h) [
        | inl (es, runs, k) ↦ rw (starts p run f, ◌>>◌, runs) (Allocs.gets p es f.one k)
        | inr (es, e, runs, k) ↦ rw (starts p run f, ◌>>◌, runs) (Allocs.loses p es e f.one k)
      ]
]
  where
    starts :
        (p : ℕ)
        → bitmap_alloc s.freemap ≡ ok p (set_bit p false s.freemap)
        → First 0 (s.freemap.nwords * 32) s.freemap.map p
        → sfs_block_alloc s ≡ (sfs_clear_block p 1 >> return p) (took p s)
    starts p run f =
        rw
          (
            ◌>>=◌,
            run,
            ◌>>◌,
            within 0 s.unused_blocks (Space-positive w.space p f.one),
            sfs_block_inuse_lem p (took p s) (w.space.low p f.one) (w.space.high p f.one)
                w.space.covers,
            update_self s.freemap.map p false,
          )
          refl

pub sfs_block_free_run :
    (p : ℕ) (s : Sfs)
    → 0 < p
    → p < s.blocks
    → s.blocks ≤ s.freemap.nbits
    → s.freemap.map p ≡ false
    → sfs_block_free p s ≡ ok tt (gave p s)
unfolding sfs_block_free bitmap_free bitmap_translate assert_inuse
sfs_block_free_run p s l h n used =
    rw
      (
        ◌>>◌,
        ◌>>=◌,
        sfs_block_inuse_lem p s l h n,
        used,
        ◌>>◌,
        within p s.freemap.nbits (omega (arith, h, n)),
        used,
      )
      refl

pub sfs_block_free_lem :
    (p : ℕ) (s : Sfs) → Wf s → LooseIn s p → sfs_block_free p s ≡ ok tt (gave p s)
sfs_block_free_lem p s w f = sfs_block_free_run p s f.nonzero f.within w.space.covers f.used
