-- ===== src/File/Calls.antt =====
-- The system calls on descriptors: the functions `file_*` of lab8/kern/fs/file.c. The bytes that a
-- transfer moves stay behind the VFS.
use nku_os.Base.{
  ℕ, ◌/◌, ◌%◌, List, ℤ, pos, ◌+ℤ◌, Bool, true, false, ◌&&◌, ◌||◌, not, Option, none, some, ◌==◌,
  if◌then◌else◌,
}
use nku_os.Base.Result.{Result, ok, err, panic, ◌>>=◌, ◌>>◌, return, fail, modify}
use nku_os.File.Table.{
  Reply, done, failed, Vfs, Table, e_inval, no_fd, is_opened, put, file_at, fd_array_alloc, fd2file,
  fd_array_free, fd_array_acquire, fd_array_release, fd_array_open, fd_array_close, fd_array_dup,
}

-- The `switch` of `file_open`: which of `readable` and `writable` the access mode sets.
abbrev pub access_mode : ℕ → Option (Bool × Bool)
access_mode flags =
    if flags % 4 == 0
    then some (true, false)
    else if flags % 4 == 1
    then some (false, true)
    else if flags % 4 == 2
    then some (true, true)
    else none

-- `open_flags & O_APPEND`
abbrev pub is_append : ℕ → Bool
is_append flags = flags / 32 % 2 == 1

module _ {S : Type 0} (v : Vfs S) where
  -- The result of a call `ret = vop_...`, with the function's own exit `e` on a nonzero code.
  abbrev pub or_else :
      Reply × S
      → Table S
      → (ℕ → Table S → Result (Table S) ℕ)
      → (ℕ → Table S → Result (Table S) ℕ)
      → Result (Table S) ℕ
  or_else (done a, fs) s e k = k a (record s { fs = fs })
  or_else (failed c, fs) s e k = e c (record s { fs = fs })

  -- The last part of `file_open`: the entry gets its node and modes and is opened.
  unfoldable pub open_entry : ℕ → ℕ → Bool × Bool → ℤ → Table S → Result (Table S) ℕ
  open_entry i n (r, w) p = do
    file ← file_at i
    modify (put i (record file { pos = p; node = some n; readable = r; writable = w }))
    fd_array_open v i
    file ← file_at i
    return file.fd

  -- `file->pos = 0`, and the size of the file under O_APPEND.
  unfoldable pub open_at : ℕ → ℕ → Bool × Bool → ℕ → Table S → Result (Table S) ℕ
  unfolding open_entry
  open_at i n mode flags s =
      if is_append flags
      then or_else (v.fstat n s.fs) (put i (record (s.files i) { pos = pos 0 }) s)
          (λ e t. (fd_array_free v i >> fail e) (record t { fs = v.close n t.fs }))
          (λ size. open_entry i n mode (pos size))
      else open_entry i n mode (pos 0) s

  unfoldable pub open_with : List ℕ → ℕ → Bool × Bool → Table S → Result (Table S) ℕ
  unfolding open_at
  open_with path flags mode = do
    i ← fd_array_alloc no_fd
    λ s.
        or_else (v.open_node path flags s.fs) s (λ e. fd_array_free v i >> fail e)
          (λ n. open_at i n mode flags)

  unfoldable pub file_open : List ℕ → ℕ → Table S → Result (Table S) ℕ
  unfolding open_with
  file_open path flags s = elim (access_mode flags) [
    | none ↦ err e_inval s
    | some mode ↦ open_with path flags mode s
  ]

  unfoldable pub file_close : ℤ → Table S → Result (Table S) (Unit {0})
  file_close fd = do i ← fd2file fd; fd_array_close v i

  unfoldable pub file_testfd : ℤ → Bool → Bool → Table S → Bool
  file_testfd fd readable writable s = elim (fd2file fd s) [
    | ok i t ↦ (not readable || (t.files i).readable) && (not writable || (t.files i).writable)
    | _ ↦ false
  ]

  -- `vop_*(file->node, ...)`: a null node would be dereferenced.
  unfoldable pub node_of : ℕ → Table S → Result (Table S) ℕ
  node_of i s = elim (s.files i).node [ none ↦ panic | some n ↦ ok n s ]

  -- `if (file->status == FD_OPENED) file->pos += copied`
  unfoldable pub advance : ℕ → ℕ → Table S → Result (Table S) (Unit {0})
  advance i copied s =
      if is_opened (s.files i).status
      then ok tt (put i (record (s.files i) { pos = (s.files i).pos +ℤ pos copied }) s)
      else ok tt s

  -- `fd_array_acquire(file)`, the body, `fd_array_release(file)`, and the body's value.
  unfoldable pub acquired :
      {A : Type 0} → ℕ → (Table S → Result (Table S) A) → Table S → Result (Table S) A
  acquired i body = do fd_array_acquire v i; a ← body; fd_array_release v i; return a

  -- `vop_read` or `vop_write` at `file->pos`: the code, and `iobuf_used(iob)`.
  unfoldable pub call_vop :
      (ℕ → ℕ → ℤ → S → ℕ × ℕ × S) → ℕ → ℕ → ℕ → Table S → Result (Table S) (ℕ × ℕ)
  call_vop vop i len n s =
      let (ret, copied, fs) = vop n len (s.files i).pos s.fs in
      ok (ret, copied) (record s { fs = fs })

  -- What `file_read` and `file_write` do between acquire and release.
  unfoldable pub transfer : (ℕ → ℕ → ℤ → S → ℕ × ℕ × S) → ℕ → ℕ → Table S → Result (Table S) (ℕ × ℕ)
  transfer vop i len = do n ← node_of i; r ← call_vop vop i len n; advance i r.1; return r

  -- The code of the call, and the count behind `*copied_store`.
  unfoldable pub file_read : ℤ → ℕ → Table S → Result (Table S) (ℕ × ℕ)
  file_read fd len = do
    i ← fd2file fd
    λ s. if (s.files i).readable then acquired i (transfer v.read i len) s else err e_inval s

  unfoldable pub file_write : ℤ → ℕ → Table S → Result (Table S) (ℕ × ℕ)
  file_write fd len = do
    i ← fd2file fd
    λ s. if (s.files i).writable then acquired i (transfer v.write i len) s else err e_inval s

  -- The `switch` of `file_seek`: the code and the position.
  unfoldable pub sized : ℤ → Reply × S → Table S → Result (Table S) (ℕ × ℤ)
  sized p (done size, fs) s = ok (0, p +ℤ pos size) (record s { fs = fs })
  sized p (failed e, fs) s = ok (e, p) (record s { fs = fs })

  unfoldable pub seek_target : ℕ → ℕ → ℤ → ℕ → Table S → Result (Table S) (ℕ × ℤ)
  unfolding sized
  seek_target i n p whence s =
      if whence == 0
      then ok (0, p) s
      else if whence == 1
      then ok (0, p +ℤ (s.files i).pos) s
      else if whence == 2
      then sized p (v.fstat n s.fs) s
      else ok (e_inval, p) s

  -- `if ((ret = vop_tryseek(file->node, pos)) == 0) file->pos = pos`
  tried : ℕ → ℤ → ℕ × S → Table S → Result (Table S) ℕ
  tried i p (ret, fs) s =
      if ret == 0
      then ok ret (put i (record (s.files i) { pos = p }) (record s { fs = fs }))
      else ok ret (record s { fs = fs })

  unfoldable pub seek_to : ℕ → ℕ → ℕ × ℤ → Table S → Result (Table S) ℕ
  unfolding tried
  seek_to i n (ret, p) s = if ret == 0 then tried i p (v.tryseek n p s.fs) s else ok ret s

  unfoldable pub seek : ℕ → ℤ → ℕ → Table S → Result (Table S) ℕ
  seek i p whence = do n ← node_of i; target ← seek_target i n p whence; seek_to i n target

  unfoldable pub file_seek : ℤ → ℤ → ℕ → Table S → Result (Table S) ℕ
  file_seek fd p whence = do i ← fd2file fd; acquired i (seek i p whence)

  -- The code with the size of `*stat`.
  unfoldable pub stat_code : Reply × S → Table S → Result (Table S) (ℕ × ℕ)
  stat_code (done size, fs) s = ok (0, size) (record s { fs = fs })
  stat_code (failed e, fs) s = ok (e, 0) (record s { fs = fs })

  unfoldable pub stat : ℕ → Table S → Result (Table S) (ℕ × ℕ)
  unfolding stat_code
  stat i = do n ← node_of i; λ s. stat_code (v.fstat n s.fs) s

  unfoldable pub file_fstat : ℤ → Table S → Result (Table S) (ℕ × ℕ)
  file_fstat fd = do i ← fd2file fd; acquired i (stat i)

  unfoldable pub sync : ℕ → Table S → Result (Table S) ℕ
  sync i = do n ← node_of i; λ s. let (ret, fs) = v.fsync n s.fs in ok ret (record s { fs = fs })

  unfoldable pub file_fsync : ℤ → Table S → Result (Table S) ℕ
  file_fsync fd = do i ← fd2file fd; acquired i (sync i)

  -- The code with the new `direntp->offset`.
  unfoldable pub next_entry : ℕ → ℤ → Table S → Result (Table S) (ℕ × ℤ)
  next_entry i offset = do
    n ← node_of i
    λ s.
        let (ret, used, fs) = v.getdirentry n offset s.fs in
        ok (ret, if ret == 0 then offset +ℤ pos used else offset) (record s { fs = fs })

  unfoldable pub file_getdirentry : ℤ → ℤ → Table S → Result (Table S) (ℕ × ℤ)
  file_getdirentry fd offset = do i ← fd2file fd; acquired i (next_entry i offset)

  unfoldable pub file_dup : ℤ → ℤ → Table S → Result (Table S) ℕ
  file_dup fd1 fd2 = do
    from ← fd2file fd1
    to ← fd_array_alloc fd2
    fd_array_dup v to from
    λ s. ok (s.files to).fd s
