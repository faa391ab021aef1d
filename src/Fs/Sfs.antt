-- ===== src/Fs/Sfs.antt =====
-- The block map of an SFS inode: the first part of lab8/kern/fs/sfs/sfs_inode.c on the block I/O of
-- lab8/kern/fs/sfs/sfs_io.c. The state is the file system with the one inode that a call is about.
-- The locks are left out: each function runs while its caller holds them.
pub mod Again
pub mod Alloc
pub mod Blocks
pub mod Bmap
pub mod Entry
pub mod Free
pub mod Get
pub mod Indirect
pub mod Length
pub mod Mapped
pub mod Places
pub mod Space
pub mod Steps
pub mod Tests
pub mod Trunc
pub mod Wf
pub mod Words
use nku_os.Base.{
  ℕ, zero, suc, ◌+◌, ◌-◌, ◌*◌, ◌/◌, ◌%◌, ◌^◌, Bool, true, false, not, ◌&&◌, ◌||◌, ltb, leb, ◌==◌,
  if◌then◌else◌, List, [], ◌∷◌, update,
}
use nku_os.Base.Result.{Result, ok, err, panic, ◌>>=◌, ◌>>◌, return, fail, assert, modify}
use nku_os.Fs.Bitmap.{Bitmap, bitmap_alloc, bitmap_test, bitmap_free}

-- `answers` are the values that the coming calls of the device return, as error codes with 0 for
-- success; after the last one all calls succeed. A block of `disk` is a sequence of 32-bit words.
-- From `size` on the fields are those of the inode and its `struct sfs_disk_inode`.
pub record Sfs : Type 0 where
  pub blocks : ℕ
  pub unused_blocks : ℕ
  pub super_dirty : Bool
  pub freemap : Bitmap
  pub disk : ℕ → ℕ → ℕ
  pub answers : List ℕ
  pub size : ℕ
  pub nblocks : ℕ
  pub direct : ℕ → ℕ
  pub indirect : ℕ
  pub dirty : Bool

-- SFS_NDIRECT and SFS_BLK_NENTRY
abbrev pub ndirect : ℕ
ndirect = 12

abbrev pub blk_nentry : ℕ
blk_nentry = 1024

abbrev pub blksize : ℕ
blksize = 4096

-- `blkno * SFS_BLKSIZE` is a product of 32 bits, and the device takes it as a block again.
abbrev pub device_block : ℕ → ℕ
device_block blkno = blkno * blksize % 2 ^ 32 / blksize

-- The next answer of the device.
unfoldable pub dop_io : Sfs → Result Sfs (Unit {0})
dop_io s = elim s.answers [
  | [] ↦ ok tt s
  | e ∷ es ↦ let t = record s { answers = es } in if e == 0 then ok tt t else err e t
]

abbrev pub in_device : ℕ → Bool → Sfs → Bool
in_device blkno check s = (not (blkno == 0) || not check) && ltb blkno s.blocks

-- `sfs_rwblock_nolock` for reading, and for writing a block given by its words.
unfoldable pub rblock : ℕ → Bool → Sfs → Result Sfs (ℕ → ℕ)
unfolding dop_io
rblock blkno check = do
  λ s. assert (in_device blkno check s) s
  dop_io
  λ s. ok (s.disk (device_block blkno)) s

unfoldable pub wblock : ℕ → (ℕ → ℕ) → Bool → Sfs → Result Sfs (Unit {0})
unfolding dop_io
wblock blkno words check = do
  λ s. assert (in_device blkno check s) s
  dop_io
  λ s. ok tt (record s { disk = update s.disk (device_block blkno) words })

-- `sfs_rbuf` and `sfs_wbuf` of one word, at `index * sizeof(uint32_t)`.
unfoldable pub sfs_rbuf : ℕ → ℕ → Sfs → Result Sfs ℕ
unfolding rblock
sfs_rbuf blkno index = do
  assert (ltb (index * 4) blksize && leb (index * 4 + 4) blksize)
  words ← rblock blkno true
  return (words index)

unfoldable pub sfs_wbuf : ℕ → ℕ → ℕ → Sfs → Result Sfs (Unit {0})
unfolding rblock wblock
sfs_wbuf v blkno index = do
  assert (ltb (index * 4) blksize && leb (index * 4 + 4) blksize)
  words ← rblock blkno true
  wblock blkno (update words index v) true

unfoldable pub sfs_clear_block : ℕ → ℕ → Sfs → Result Sfs (Unit {0})
unfolding wblock
sfs_clear_block blkno zero = return tt
sfs_clear_block blkno (suc nblks) = do
  wblock blkno (λ i. 0) true
  sfs_clear_block ((blkno + 1) % 2 ^ 32) nblks

-- A call on the bitmap.
abbrev pub freemap_of : {A : Type 0} → Sfs → Result Bitmap A → Result Sfs A
freemap_of s (ok a b) = ok a (record s { freemap = b })
freemap_of s (err e b) = err e (record s { freemap = b })
freemap_of s panic = panic

unfoldable pub sfs_block_inuse : ℕ → Sfs → Result Sfs Bool
unfolding bitmap_test
sfs_block_inuse ino = do
  λ s. assert (not (ino == 0) && ltb ino s.blocks) s
  unset ← λ s. freemap_of s (bitmap_test ino s.freemap)
  return (not unset)

unfoldable pub assert_inuse : ℕ → Sfs → Result Sfs (Unit {0})
unfolding sfs_block_inuse
assert_inuse ino = do used ← sfs_block_inuse ino; assert used

-- The value is the new block.
unfoldable pub sfs_block_alloc : Sfs → Result Sfs ℕ
unfolding bitmap_alloc sfs_block_inuse sfs_clear_block
sfs_block_alloc = do
  ino ← λ s. freemap_of s (bitmap_alloc s.freemap)
  λ s. assert (ltb 0 s.unused_blocks) s
  modify (λ s. record s { unused_blocks = s.unused_blocks - 1; super_dirty = true })
  assert_inuse ino
  sfs_clear_block ino 1
  return ino

unfoldable pub sfs_block_free : ℕ → Sfs → Result Sfs (Unit {0})
unfolding bitmap_free sfs_block_inuse
sfs_block_free ino = do
  assert_inuse ino
  λ s. freemap_of s (bitmap_free ino s.freemap)
  modify (λ s. record s { unused_blocks = (s.unused_blocks + 1) % 2 ^ 32; super_dirty = true })
