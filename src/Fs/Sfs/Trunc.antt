-- ===== src/Fs/Sfs/Trunc.antt =====
-- The size of a file: `sfs_truncfile` and `sfs_tryseek` of lab8/kern/fs/sfs/sfs_inode.c. The theorems
-- are in the module Resize.
pub mod Resize
pub mod Tests
use nku_os.Base.{ℕ, zero, suc, ◌+◌, ◌-◌, ◌*◌, ◌/◌, Bool, true, false, ltb, leb, ◌==◌, if◌then◌else◌}
use nku_os.Base.Result.{Result, ok, err, panic, ◌>>=◌, ◌>>◌, return, assert, modify}
use nku_os.Fs.Sfs.{Sfs, blksize}
use nku_os.Fs.Sfs.Bmap.{sfs_bmap_load_nolock, sfs_bmap_truncate_nolock}

-- SFS_MAX_FILE_SIZE
abbrev pub max_file_size : ℕ
max_file_size = 134217728

abbrev pub sfs_e_inval : ℕ
sfs_e_inval = 3

-- ROUNDUP_DIV(len, SFS_BLKSIZE)
abbrev pub blocks_for : ℕ → ℕ
blocks_for len = (len + blksize - 1) / blksize

-- The loop that enlarges the file, with `k` blocks to go.
unfoldable pub enlarge : ℕ → ℕ → Sfs → Result Sfs (Unit {0})
unfolding sfs_bmap_load_nolock
enlarge zero nblks = return tt
enlarge (suc k) nblks = do sfs_bmap_load_nolock nblks; enlarge k (nblks + 1)

-- The loop that reduces it.
unfoldable pub reduce : ℕ → Sfs → Result Sfs (Unit {0})
unfolding sfs_bmap_truncate_nolock
reduce zero = return tt
reduce (suc k) = do sfs_bmap_truncate_nolock; reduce k

unfoldable pub resize : ℕ → Sfs → Result Sfs (Unit {0})
unfolding enlarge reduce
resize tblks s =
    if ltb s.nblocks tblks
    then enlarge (tblks - s.nblocks) s.nblocks s
    else reduce (s.nblocks - tblks) s

-- What is done when the size is another one: the loops, the assertion and the new size.
unfoldable pub set_size : ℕ → Sfs → Result Sfs (Unit {0})
unfolding resize
set_size len = do
  resize (blocks_for len)
  λ t. assert (t.nblocks == blocks_for len) t
  modify (λ t. record t { size = len; dirty = true })

-- An offset is a natural number here, and so the first tests for `len < 0` are not written.
unfoldable pub sfs_truncfile : ℕ → Sfs → Result Sfs (Unit {0})
unfolding set_size
sfs_truncfile len s =
    if ltb max_file_size len
    then err sfs_e_inval s
    else if s.size == len
    then assert (blocks_for len == s.nblocks) s
    else set_size len s

unfoldable pub sfs_tryseek : ℕ → Sfs → Result Sfs (Unit {0})
unfolding sfs_truncfile
sfs_tryseek pos s =
    if leb max_file_size pos
    then err sfs_e_inval s
    else if ltb s.size pos
    then sfs_truncfile pos s
    else ok tt s
