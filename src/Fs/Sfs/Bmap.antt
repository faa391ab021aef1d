-- ===== src/Fs/Sfs/Bmap.antt =====
-- The block map of an inode: the `sfs_bmap_` functions of lab8/kern/fs/sfs/sfs_inode.c.
use nku_os.Base.{
  ℕ, ◌+◌, ◌-◌, ◌%◌, ◌^◌, Bool, true, not, ◌&&◌, ◌||◌, ltb, leb, ◌==◌, if◌then◌else◌, update,
}
use nku_os.Base.Result.{Result, ok, err, panic, ◌>>=◌, ◌>>◌, return, fail, assert, modify}
use nku_os.Fs.Sfs.{
  Sfs, ndirect, blk_nentry, sfs_rbuf, sfs_wbuf, sfs_block_inuse, assert_inuse, sfs_block_alloc,
  sfs_block_free,
}

-- `goto` a clean-up when a call fails.
abbrev pub or_else : {A : Type 0} → (ℕ → Sfs → Result Sfs A) → Result Sfs A → Result Sfs A
or_else h (ok a s) = ok a s
or_else h (err e s) = h e s
or_else h panic = panic

-- `failed_cleanup`: an entry block that this call has allocated is freed.
unfoldable pub cleanup : {A : Type 0} → ℕ → ℕ → ℕ → Sfs → Result Sfs A
unfolding sfs_block_free
cleanup old ent e = if not (ent == old) then (do sfs_block_free ent; fail e) else fail e

-- The second half of `sfs_bmap_get_sub_nolock`: a new block for an entry of `ent`.
unfoldable pub new_entry : ℕ → ℕ → ℕ → Sfs → Result Sfs (ℕ × ℕ)
unfolding sfs_block_alloc sfs_wbuf sfs_block_free cleanup
new_entry old ent index = do
  ino ← λ s. or_else (cleanup old ent) (sfs_block_alloc s)
  λ s. or_else (λ e. do sfs_block_free ino; cleanup old ent e) (sfs_wbuf ino ent index s)
  return (ino, ent)

unfoldable pub read_entry : ℕ → ℕ → Bool → Sfs → Result Sfs (ℕ × ℕ)
unfolding sfs_rbuf new_entry
read_entry ent index create = do
  ino ← sfs_rbuf ent index
  if not (ino == 0) || not create then return (ino, ent) else new_entry ent ent index

-- The value is the block and the entry block; `entp` is the entry block before.
unfoldable pub sfs_bmap_get_sub_nolock : ℕ → ℕ → Bool → Sfs → Result Sfs (ℕ × ℕ)
unfolding read_entry new_entry sfs_block_alloc
sfs_bmap_get_sub_nolock entp index create = do
  assert (ltb index blk_nentry)
  if not (entp == 0)
      then read_entry entp index create
      else (if not create then return (0, 0) else (do ent ← sfs_block_alloc; new_entry 0 ent index))

-- `din->direct[index] = ino` for a new block.
unfoldable pub new_direct : ℕ → Sfs → Result Sfs ℕ
unfolding sfs_block_alloc
new_direct index = do
  ino ← sfs_block_alloc
  modify (λ s. record s { direct = update s.direct index ino; dirty = true })
  return ino

unfoldable pub get_direct : ℕ → Bool → Sfs → Result Sfs ℕ
unfolding new_direct
get_direct index create s =
    if s.direct index == 0 && create then new_direct index s else ok (s.direct index) s

-- `if (ent != din->indirect)`
abbrev pub keep_indirect : ℕ → Sfs → Result Sfs (Unit {0})
keep_indirect ent s =
    if not (ent == s.indirect)
    then (assert (s.indirect == 0) >> modify (λ s. record s { indirect = ent; dirty = true })) s
    else ok tt s

unfoldable pub get_indirect : ℕ → Bool → Sfs → Result Sfs ℕ
unfolding sfs_bmap_get_sub_nolock
get_indirect index create = do
  (ino, ent) ← λ s. sfs_bmap_get_sub_nolock s.indirect index create s
  keep_indirect ent
  return ino

-- `assert(ino == 0 || sfs_block_inuse(sfs, ino))` at the label `out`.
unfoldable pub checked : ℕ → Sfs → Result Sfs ℕ
unfolding sfs_block_inuse
checked ino = if ino == 0 then return ino else (do assert_inuse ino; return ino)

unfoldable pub sfs_bmap_get_nolock : ℕ → Bool → Sfs → Result Sfs ℕ
unfolding get_direct get_indirect checked
sfs_bmap_get_nolock index create s =
    if ltb index ndirect
    then (get_direct index create >>= checked) s
    else if ltb (index - ndirect) blk_nentry
    then (get_indirect (index - ndirect) create >>= checked) s
    else panic

-- The branch `ino != 0`.
unfoldable pub drop_entry : ℕ → ℕ → ℕ → Sfs → Result Sfs (Unit {0})
unfolding sfs_wbuf sfs_block_free
drop_entry ino ent index s =
    if not (ino == 0) then (do sfs_wbuf 0 ent index; sfs_block_free ino) s else ok tt s

unfoldable pub sfs_bmap_free_sub_nolock : ℕ → ℕ → Sfs → Result Sfs (Unit {0})
unfolding sfs_rbuf sfs_block_inuse drop_entry
sfs_bmap_free_sub_nolock ent index = do
  assert_inuse ent
  assert (ltb index blk_nentry)
  ino ← sfs_rbuf ent index
  drop_entry ino ent index

unfoldable pub free_direct : ℕ → Sfs → Result Sfs (Unit {0})
unfolding sfs_block_free
free_direct index s =
    if not (s.direct index == 0)
    then (do
      sfs_block_free (s.direct index)
      modify (λ s. record s { direct = update s.direct index 0; dirty = true }))
        s
    else ok tt s

unfoldable pub sfs_bmap_free_nolock : ℕ → Sfs → Result Sfs (Unit {0})
unfolding free_direct sfs_bmap_free_sub_nolock
sfs_bmap_free_nolock index s =
    if ltb index ndirect
    then free_direct index s
    else if ltb (index - ndirect) blk_nentry && not (s.indirect == 0)
    then sfs_bmap_free_sub_nolock s.indirect (index - ndirect) s
    else ok tt s

-- What follows the first assertion of `sfs_bmap_load_nolock`.
unfoldable pub load_block : ℕ → Bool → Sfs → Result Sfs ℕ
unfolding sfs_bmap_get_nolock assert_inuse
load_block index create = do
  ino ← sfs_bmap_get_nolock index create
  assert_inuse ino
  modify (λ s. record s { nblocks = if create then (s.nblocks + 1) % 2 ^ 32 else s.nblocks })
  return ino

unfoldable pub sfs_bmap_load_nolock : ℕ → Sfs → Result Sfs ℕ
unfolding load_block
sfs_bmap_load_nolock index s =
    (assert (leb index s.nblocks) >> load_block index (index == s.nblocks)) s

unfoldable pub sfs_bmap_truncate_nolock : Sfs → Result Sfs (Unit {0})
unfolding sfs_bmap_free_nolock
sfs_bmap_truncate_nolock s =
    (do
      assert (not (s.nblocks == 0))
      sfs_bmap_free_nolock (s.nblocks - 1)
      modify (λ t. record t { nblocks = t.nblocks - 1; dirty = true }))
      s
