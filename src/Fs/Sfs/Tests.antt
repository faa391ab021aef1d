-- ===== src/Fs/Sfs/Tests.antt =====
-- An inode with an entry block, for the theorems about lab8/kern/fs/sfs/sfs_inode.c.
use nku_os.Base.{
  ℕ, ◌+◌, ◌-◌, ◌<◌, ◌≡◌, refl, true, false, ◌&&◌, leb, ltb, ◌==◌, if◌then◌else◌, [], arith,
}
use nku_os.Base.Result.{ok, Post}
use nku_os.Fs.Sfs.{Sfs, sfs_block_alloc}
use nku_os.Fs.Sfs.Bmap.{
  sfs_bmap_get_nolock, sfs_bmap_free_nolock, sfs_bmap_load_nolock, sfs_bmap_truncate_nolock,
}
use nku_os.Fs.Sfs.Space.{Space, free_count}
use nku_os.Fs.Sfs.Wf.{Wf, Owns, place_of}
use nku_os.Fs.Sfs.Alloc.{faulty, Allocs, sfs_block_alloc-Allocs}
use nku_os.Fs.Sfs.Mapped.{Mapped, Unmapped}
use nku_os.Fs.Sfs.Get.{sfs_bmap_get_nolock-Mapped}
use nku_os.Fs.Sfs.Again.{sfs_bmap_get_nolock-sfs_bmap_get_nolock}
use nku_os.Fs.Sfs.Blocks.{sfs_rblock, sfs_wblock, sfs_wblock-sfs_rblock}
use nku_os.Fs.Sfs.Free.{Freed, Unfreed, sfs_bmap_free_nolock-Freed}
use nku_os.Fs.Sfs.Length.{
  WellSized, sfs_bmap_load_nolock-WellSized, sfs_bmap_truncate_nolock-WellSized,
}

-- A file of 13 blocks, from 2 on with the entry block 14, and 8 free blocks from 16 on.
abbrev pub thirteen : Sfs
thirteen = record {
  blocks = 24;
  unused_blocks = 8;
  super_dirty = false;
  freemap = record { nbits = 32; nwords = 1; map = λ i. leb 16 i && ltb i 24 };
  disk = λ b k. if b == 14 && k == 0 then 15 else 0;
  answers = [];
  size = 53248;
  nblocks = 13;
  direct = λ i. if ltb i 12 then i + 2 else 0;
  indirect = 14;
  dirty = false;
}

thirteen-Space : Space 24 8 32 1 (λ i. leb 16 i && ltb i 24)
unfolding free_count
thirteen-Space = record {
  small = omega arith;
  covers = omega arith;
  words = omega arith;
  low = λ j e. ground (arith, e);
  high = λ j e. ground (arith, e);
  counted = refl;
}

thirteen-Owns : Owns 24 (λ i. leb 16 i && ltb i 24) (place_of thirteen)
thirteen-Owns = record {
  in_range = λ j h. ground (arith, h);
  in_use = λ j h. ground (arith, h);
  apart = λ j k e h. ground (arith, e, h);
}

thirteen-Wf : Wf thirteen
thirteen-Wf = record { space = thirteen-Space; owns = thirteen-Owns }

pub thirteen-WellSized : WellSized thirteen
thirteen-WellSized = (thirteen-Wf, omega arith, λ j l. ground (arith, l))

sfs_block_alloc-Allocs_example : Allocs thirteen (sfs_block_alloc thirteen)
sfs_block_alloc-Allocs_example = sfs_block_alloc-Allocs thirteen thirteen-Wf

sfs_bmap_get_nolock-Mapped_example :
    Post (Mapped thirteen 20 true) (Unmapped thirteen 20) (sfs_bmap_get_nolock 20 true thirteen)
sfs_bmap_get_nolock-Mapped_example =
    sfs_bmap_get_nolock-Mapped thirteen 20 true thirteen-Wf (omega arith)

thirteen_works : faulty thirteen.answers ≡ false
unfolding faulty
thirteen_works = refl

sfs_bmap_get_nolock-sfs_bmap_get_nolock_example :
    (p : ℕ) × (t : Sfs) × (u : Sfs) × (sfs_bmap_get_nolock 20 true thirteen ≡ ok p t)
    × (0 < p)
    × (sfs_bmap_get_nolock 20 false t ≡ ok p u)
    × ((j : ℕ) → j < 1036 → place_of u j ≡ place_of t j)
sfs_bmap_get_nolock-sfs_bmap_get_nolock_example =
    sfs_bmap_get_nolock-sfs_bmap_get_nolock thirteen 20 thirteen-Wf (omega arith) thirteen_works
      (omega arith)

sfs_bmap_free_nolock-Freed_example :
    Post (λ _. Freed thirteen 12) (Unfreed thirteen) (sfs_bmap_free_nolock 12 thirteen)
sfs_bmap_free_nolock-Freed_example =
    sfs_bmap_free_nolock-Freed thirteen 12 thirteen-Wf (omega arith)

sfs_bmap_load_nolock-WellSized_example :
    Post
      (λ p t. WellSized t × (0 < p) × (place_of t 13 ≡ p) × (t.nblocks ≡ 14) × (t.size ≡ 53248))
      (Unmapped thirteen 13)
      (sfs_bmap_load_nolock 13 thirteen)
sfs_bmap_load_nolock-WellSized_example =
    sfs_bmap_load_nolock-WellSized thirteen 13 thirteen-WellSized (omega arith) (omega arith)

sfs_bmap_truncate_nolock-WellSized_example :
    Post
      (λ _ t. WellSized t × (t.nblocks + 1 ≡ 13) × (t.size ≡ 53248))
      (Unfreed thirteen)
      (sfs_bmap_truncate_nolock thirteen)
sfs_bmap_truncate_nolock-WellSized_example =
    sfs_bmap_truncate_nolock-WellSized thirteen thirteen-WellSized (omega arith)

sfs_wblock-sfs_rblock_example :
    (t : Sfs) × (out : ℕ → ℕ → ℕ) × (u : Sfs) × (sfs_wblock (λ i k. i + k) 16 3 thirteen ≡ ok tt t)
    × ((d : ℕ) → t.disk d ≡ (if leb 16 d && ltb d 19 then (λ k. d - 16 + k) else thirteen.disk d))
    × (sfs_rblock (λ i k. 0) 16 3 t ≡ ok out u)
    × ((j : ℕ) → out j ≡ (if ltb j 3 then (λ k. j + k) else (λ k. 0)))
sfs_wblock-sfs_rblock_example =
    sfs_wblock-sfs_rblock 16 3 (λ i k. i + k) (λ i k. 0) thirteen (omega arith) (omega arith)
      (omega arith) thirteen_works
