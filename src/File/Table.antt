-- ===== src/File/Table.antt =====
-- One entry of the open-files table and the table itself: `struct file` of lab8/kern/fs/file.h and
-- the functions `fd_array_*` and `fd2file` of lab8/kern/fs/file.c.
use nku_os.Base.{
  ℕ, zero, suc, ◌+◌, ◌-◌, List, ℤ, pos, negsuc, Bool, true, false, ◌&&◌, ◌||◌, Option, none, some,
  ltb, ◌==◌, if◌then◌else◌, update,
}
use nku_os.Base.Result.{Result, ok, err, panic, ◌>>=◌, ◌>>◌, return, assert, modify}

-- The anonymous enum of `struct file`.
pub data Status : Type 0 where
  fd_none fd_init fd_opened fd_closed : Status

-- An inode pointer is an opaque number. `open_count` and `pos` do not wrap in the model.
pub record File : Type 0 where
  pub status : Status
  pub readable : Bool
  pub writable : Bool
  pub fd : ℕ
  pub pos : ℤ
  pub node : Option ℕ
  pub open_count : ℕ

-- The answer of a VFS call: a value, or the code `-e`.
pub data Reply : Type 0 where
  done : ℕ → Reply
  failed : ℕ → Reply

-- What the file layer calls of the VFS. `S` is the state behind it. A return code `e` stands for
-- `-e`, and 0 for success; `read`, `write` and `getdirentry` also say how much of the buffer was
-- used.
pub record Vfs (S : Type 0) : Type 0 where
  pub open_node : List ℕ → ℕ → S → Reply × S
  pub close : ℕ → S → S
  pub fstat : ℕ → S → Reply × S
  pub read : ℕ → ℕ → ℤ → S → ℕ × ℕ × S
  pub write : ℕ → ℕ → ℤ → S → ℕ × ℕ × S
  pub tryseek : ℕ → ℤ → S → ℕ × S
  pub fsync : ℕ → S → ℕ × S
  pub getdirentry : ℕ → ℤ → S → ℕ × ℕ × S
  pub ref_inc : ℕ → S → S
  pub open_inc : ℕ → S → S

-- `struct files_struct` without `pwd` and the semaphore, beside the state of the VFS.
pub record Table (S : Type 0) : Type 0 where
  pub files : ℕ → File
  pub files_count : ℕ
  pub fs : S

-- FILES_STRUCT_NENTRY: (4096 - 48) / 56 on riscv64.
abbrev pub files_struct_nentry : ℕ
files_struct_nentry = 72

abbrev pub e_inval : ℕ
e_inval = 3

abbrev pub e_busy : ℕ
e_busy = 15

abbrev pub e_max_open : ℕ
e_max_open = 22

-- NO_FD is -0x9527.
abbrev pub no_fd : ℤ
no_fd = negsuc 0x9526

abbrev pub is_no_fd : ℤ → Bool
is_no_fd (pos n) = false
is_no_fd (negsuc n) = n == 0x9526

abbrev pub is_none : Status → Bool
is_none fd_none = true
is_none _ = false

abbrev pub is_init : Status → Bool
is_init fd_init = true
is_init _ = false

abbrev pub is_opened : Status → Bool
is_opened fd_opened = true
is_opened _ = false

abbrev pub is_closed : Status → Bool
is_closed fd_closed = true
is_closed _ = false

abbrev pub is_some : Option ℕ → Bool
is_some none = false
is_some (some n) = true

-- The loop of `fd_array_alloc` from index `fd` on, over the `k` entries that are left.
unfoldable pub first_none : ℕ → ℕ → (ℕ → File) → Option ℕ
first_none zero fd t = none
first_none (suc k) fd t =
    let rest = first_none k (fd + 1) t in if is_none (t fd).status then some fd else rest

module _ {S : Type 0} where
  abbrev pub put : ℕ → File → Table S → Table S
  put i f s = record s { files = update s.files i f }

  abbrev pub file_at : ℕ → Table S → Result (Table S) File
  file_at i s = ok (s.files i) s

  -- `get_fd_array`: the pointer is the state itself, so only its assertion is left.
  abbrev pub get_fd_array : Table S → Result (Table S) (Unit {0})
  get_fd_array s = assert (ltb 0 s.files_count) s

  -- The label `found` of `fd_array_alloc`.
  unfoldable pub found : ℕ → Table S → Result (Table S) ℕ
  found i = do
    file ← file_at i
    assert (file.open_count == 0)
    modify (put i (record file { status = fd_init; node = none }))
    return i

  -- The branch of `fd_array_alloc` for a descriptor that the caller chose.
  unfoldable pub alloc_at : ℤ → Table S → Result (Table S) ℕ
  unfolding found
  alloc_at (pos i) s =
      if ltb i files_struct_nentry
      then (if is_none (s.files i).status then found i s else err e_busy s)
      else err e_inval s
  alloc_at (negsuc n) s = err e_inval s

  unfoldable pub alloc_first : Option ℕ → Table S → Result (Table S) ℕ
  unfolding found
  alloc_first none s = err e_max_open s
  alloc_first (some i) s = found i s

  unfoldable pub fd_array_alloc : ℤ → Table S → Result (Table S) ℕ
  unfolding alloc_at alloc_first
  fd_array_alloc fd = do
    get_fd_array
    λ s.
        if is_no_fd fd
        then alloc_first (first_none files_struct_nentry 0 s.files) s
        else alloc_at fd s

  -- `file->status == FD_OPENED && file->fd == fd`
  unfoldable pub opened_at : ℕ → Table S → Result (Table S) ℕ
  opened_at i s =
      if is_opened (s.files i).status && (s.files i).fd == i then ok i s else err e_inval s

  unfoldable pub fd2file : ℤ → Table S → Result (Table S) ℕ
  unfolding opened_at
  fd2file (pos i) s =
      if ltb i files_struct_nentry then (get_fd_array >> opened_at i) s else err e_inval s
  fd2file (negsuc n) s = err e_inval s

module _ {S : Type 0} (v : Vfs S) where
  -- `vfs_close(file->node)`; a null node would be dereferenced.
  abbrev close_node : Option ℕ → Table S → Result (Table S) (Unit {0})
  close_node none s = panic
  close_node (some n) s = ok tt (record s { fs = v.close n s.fs })

  unfoldable pub fd_array_free : ℕ → Table S → Result (Table S) (Unit {0})
  fd_array_free i = do
    file ← file_at i
    assert (is_init file.status || is_closed file.status)
    assert (file.open_count == 0)
    (if is_closed file.status then close_node file.node else return tt)
    modify (put i (record file { status = fd_none }))

  -- `fopen_count_inc`
  abbrev count_inc : ℕ → Table S → Result (Table S) (Unit {0})
  count_inc i s = modify (put i (record (s.files i) { open_count = (s.files i).open_count + 1 })) s

  -- `if (fopen_count_dec(file) == 0) fd_array_free(file)`
  abbrev count_dec : ℕ → Table S → Result (Table S) (Unit {0})
  unfolding fd_array_free
  count_dec i = do
    file ← file_at i
    modify (put i (record file { open_count = file.open_count - 1 }))
    (if file.open_count - 1 == 0 then fd_array_free i else return tt)

  unfoldable pub fd_array_acquire : ℕ → Table S → Result (Table S) (Unit {0})
  fd_array_acquire i = do file ← file_at i; assert (is_opened file.status); count_inc i

  unfoldable pub fd_array_release : ℕ → Table S → Result (Table S) (Unit {0})
  unfolding fd_array_free
  fd_array_release i = do
    file ← file_at i
    assert (is_opened file.status || is_closed file.status)
    assert (ltb 0 file.open_count)
    count_dec i

  unfoldable pub fd_array_open : ℕ → Table S → Result (Table S) (Unit {0})
  fd_array_open i = do
    file ← file_at i
    assert (is_init file.status && is_some file.node)
    modify (put i (record file { status = fd_opened }))
    count_inc i

  unfoldable pub fd_array_close : ℕ → Table S → Result (Table S) (Unit {0})
  unfolding fd_array_free
  fd_array_close i = do
    file ← file_at i
    assert (is_opened file.status)
    assert (ltb 0 file.open_count)
    modify (put i (record file { status = fd_closed }))
    count_dec i

  -- The node of an opened file is never null; a null one would be dereferenced.
  unfoldable pub share_node : Option ℕ → Table S → Result (Table S) (Unit {0})
  share_node none s = panic
  share_node (some n) s = ok tt (record s { fs = v.open_inc n (v.ref_inc n s.fs) })

  -- `fd_array_dup(to, from)`
  unfoldable pub fd_array_dup : ℕ → ℕ → Table S → Result (Table S) (Unit {0})
  unfolding fd_array_open
  fd_array_dup to from = do
    file ← file_at from
    into ← file_at to
    assert (is_init into.status && is_opened file.status)
    share_node file.node
    modify (
        put to (record into {
          pos = file.pos;
          readable = file.readable;
          writable = file.writable;
          node = file.node;
        }))
    fd_array_open to
