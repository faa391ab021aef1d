-- ===== src/Fs/Sfs/Blocks.antt =====
-- Whole blocks: `sfs_rblock` and `sfs_wblock` of lab8/kern/fs/sfs/sfs_io.c. A buffer is a sequence of
-- blocks of words.
use nku_os.Base.{
  ℕ, zero, suc, ◌+◌, ◌-◌, ◌%◌, ◌^◌, ◌≤◌, ◌<◌, ◌≡◌, refl, ap, ◌∙◌, true, false, ◌&&◌, ltb, leb, ◌==◌,
  if◌then◌else◌, update, Bool-cases, inl, inr, arith,
}
use nku_os.Base.Result.{Result, ok, ◌>>=◌, ◌>>◌, return}
use nku_os.Fs.Sfs.{Sfs, rblock, wblock}
use nku_os.Fs.Sfs.Alloc.{faulty, heard, wrote, rblock_cases, wblock_cases}

-- The loop of `sfs_rwblock` over `k` blocks from `blkno` on, reading to the block `i` of the buffer.
unfoldable pub read_from : ℕ → ℕ → ℕ → (ℕ → ℕ → ℕ) → Sfs → Result Sfs (ℕ → ℕ → ℕ)
unfolding rblock
read_from zero blkno i buf = return buf
read_from (suc k) blkno i buf = do
  words ← rblock blkno true
  read_from k ((blkno + 1) % 2 ^ 32) (i + 1) (update buf i words)

-- The loop, writing.
unfoldable pub write_from : ℕ → ℕ → ℕ → (ℕ → ℕ → ℕ) → Sfs → Result Sfs (Unit {0})
unfolding wblock
write_from zero blkno i buf = return tt
write_from (suc k) blkno i buf = do
  wblock blkno (buf i) true
  write_from k ((blkno + 1) % 2 ^ 32) (i + 1) buf

-- The value is the buffer afterwards.
unfoldable pub sfs_rblock : (ℕ → ℕ → ℕ) → ℕ → ℕ → Sfs → Result Sfs (ℕ → ℕ → ℕ)
unfolding read_from
sfs_rblock buf blkno nblks = read_from nblks blkno 0 buf

unfoldable pub sfs_wblock : (ℕ → ℕ → ℕ) → ℕ → ℕ → Sfs → Result Sfs (Unit {0})
unfolding write_from
sfs_wblock buf blkno nblks = write_from nblks blkno 0 buf

no_wrap : (c k n : ℕ) → c + suc k ≤ n → n ≤ 2 ^ 20 → (c + 1) % 2 ^ 32 ≡ c + 1
no_wrap c k n h l = ground (arith, h, l)

-- One block first, then the others.
one_more :
    (c k i : ℕ) (buf disk : ℕ → ℕ → ℕ) (x : ℕ)
    → (if leb (c + 1) x && ltb x (c + 1 + k)
        then buf (i + 1 + (x - (c + 1)))
        else update disk c (buf i) x)
      ≡ (if leb c x && ltb x (c + suc k) then buf (i + (x - c)) else disk x)
one_more c k i buf disk x = elim (Bool-cases (x == c)) [
  | inl e ↦ let at : i + (x - c) ≡ i = ground (arith, e) in ground (arith, e, ap buf at)
  | inr e ↦ elim (Bool-cases (ltb c x)) [
    | inl q ↦
        let at : i + 1 + (x - (c + 1)) ≡ i + (x - c) = ground (arith, q) in
        ground (arith, e, q, ap buf at)
    | inr q ↦ ground (arith, e, q)
  ]
]

one_read :
    (c k i : ℕ) (buf disk : ℕ → ℕ → ℕ) (x : ℕ)
    → (if leb (i + 1) x && ltb x (i + 1 + k)
        then disk (c + 1 + (x - (i + 1)))
        else update buf i (disk c) x)
      ≡ (if leb i x && ltb x (i + suc k) then disk (c + (x - i)) else buf x)
one_read c k i buf disk x = one_more i k c disk buf x

write_from_lem :
    (k c i : ℕ) (buf : ℕ → ℕ → ℕ) (s : Sfs)
    → s.blocks ≤ 2 ^ 20
    → 0 < c
    → c + k ≤ s.blocks
    → faulty s.answers ≡ false
    → (t : Sfs) × (write_from k c i buf s ≡ ok tt t)
      × (t.blocks ≡ s.blocks)
      × (faulty t.answers ≡ false)
      × ((d : ℕ) → t.disk d ≡ (if leb c d && ltb d (c + k) then buf (i + (d - c)) else s.disk d))
unfolding write_from
write_from_lem zero c i buf s n l h f = (s, refl, refl, f, λ d. ground arith)
write_from_lem (suc k) c i buf s n l h f = elim (wblock_cases c (buf i) s n l (omega (arith, h))) [
  | inr (es, e, run, m) ↦ absurd (ground (arith, m, f))
  | inl (es, run, m) ↦
      let s1 = wrote c (buf i) (heard es s) in
      let (t, runs, b, g, d) =
        write_from_lem k (c + 1) (i + 1) buf s1 n (omega arith) (omega (arith, h)) (m ∙ f) in
      (
        t,
        rw (◌>>◌, run, no_wrap c k s.blocks h n) runs,
        b,
        g,
        λ x. d x ∙ one_more c k i buf s.disk x,
      )
]

read_from_lem :
    (k c i : ℕ) (buf : ℕ → ℕ → ℕ) (s : Sfs)
    → s.blocks ≤ 2 ^ 20
    → 0 < c
    → c + k ≤ s.blocks
    → faulty s.answers ≡ false
    → (out : ℕ → ℕ → ℕ) × (t : Sfs) × (read_from k c i buf s ≡ ok out t)
      × ((j : ℕ) → out j ≡ (if leb i j && ltb j (i + k) then s.disk (c + (j - i)) else buf j))
unfolding read_from
read_from_lem zero c i buf s n l h f = (buf, s, refl, λ d. ground arith)
read_from_lem (suc k) c i buf s n l h f = elim (rblock_cases c s n l (omega (arith, h))) [
  | inr (es, e, run, m) ↦ absurd (ground (arith, m, f))
  | inl (es, run, m) ↦
      let (out, t, runs, d) =
        read_from_lem k (c + 1) (i + 1) (update buf i (s.disk c)) (heard es s) n (omega arith)
          (omega (arith, h)) (m ∙ f) in
      (
        out,
        t,
        rw (◌>>=◌, run, no_wrap c k s.blocks h n) runs,
        λ x. d x ∙ one_read c k i buf s.disk x,
      )
]

read_back :
    (b n j : ℕ) (buf old after before : ℕ → ℕ → ℕ)
    → ((d : ℕ) → after d ≡ (if leb b d && ltb d (b + n) then buf (0 + (d - b)) else before d))
    → (if leb 0 j && ltb j (0 + n) then after (b + (j - 0)) else old j)
      ≡ (if ltb j n then buf j else old j)
read_back b n j buf old after before d = elim (Bool-cases (ltb j n)) [
  | inl q ↦
      let at : 0 + (b + (j - 0) - b) ≡ j = omega arith in
      ground (arith, q, d (b + (j - 0)), ap buf at)
  | inr q ↦ ground (arith, q)
]

-- With a device that does not fail, in a file system of at most 2 ^ 20 blocks, `sfs_wblock` of `n`
-- blocks behind block 0 changes these blocks of the device and no other, and `sfs_rblock` of the same
-- blocks gives the buffer back that was written.
pub sfs_wblock-sfs_rblock :
    (b n : ℕ) (buf old : ℕ → ℕ → ℕ) (s : Sfs)
    → s.blocks ≤ 2 ^ 20
    → 0 < b
    → b + n ≤ s.blocks
    → faulty s.answers ≡ false
    → (t : Sfs) × (out : ℕ → ℕ → ℕ) × (u : Sfs) × (sfs_wblock buf b n s ≡ ok tt t)
      × ((d : ℕ) → t.disk d ≡ (if leb b d && ltb d (b + n) then buf (d - b) else s.disk d))
      × (sfs_rblock old b n t ≡ ok out u)
      × ((j : ℕ) → out j ≡ (if ltb j n then buf j else old j))
unfolding sfs_wblock sfs_rblock
sfs_wblock-sfs_rblock b n buf old s small l h f =
    let (t, run, e, g, d) = write_from_lem n b 0 buf s small l h f in
    let (out, u, runs, r) =
      read_from_lem n b 0 old t (omega (arith, e, small)) l (omega (arith, e, h)) g in
    (
      t,
      out,
      u,
      run,
      λ x. d x ∙ ap (λ m. if leb b x && ltb x (b + n) then buf m else s.disk x) (omega arith),
      runs,
      λ j. r j ∙ read_back b n j buf old t.disk s.disk d,
    )
