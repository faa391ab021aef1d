-- ===== src/File/Life.antt =====
-- The open-files table at the start and the end of a process: `fd_array_init` of
-- lab8/kern/fs/file.c and `files_closeall` of lab8/kern/fs/fs.c.
use nku_os.Base.{ℕ, zero, suc, ◌+◌, ◌-◌, ltb, if◌then◌else◌, update}
use nku_os.Base.Result.{Result, ok, err, panic, ◌>>=◌, ◌>>◌, return, assert, modify}
use nku_os.File.Table.{
  Status, fd_none, File, Vfs, Table, files_struct_nentry, is_opened, fd_array_close,
}
pub mod Closeall

-- The loop of `fd_array_init` over `k` entries from `fd` on.
unfoldable pub init_from : ℕ → ℕ → (ℕ → File) → ℕ → File
init_from zero fd t = t
init_from (suc k) fd t =
    init_from k (fd + 1) (update t fd (record (t fd) { open_count = 0; status = fd_none; fd = fd }))

unfoldable pub fd_array_init : (ℕ → File) → ℕ → File
unfolding init_from
fd_array_init t = init_from files_struct_nentry 0 t

module _ {S : Type 0} (v : Vfs S) where
  -- The loop of `files_closeall` over `k` entries from `i` on.
  unfoldable pub close_from : ℕ → ℕ → Table S → Result (Table S) (Unit {0})
  unfolding fd_array_close
  close_from zero i = return tt
  close_from (suc k) i = do
    λ s. if is_opened (s.files i).status then fd_array_close v i s else ok tt s
    close_from k (i + 1)

  -- Without the entries 0 and 1, stdin and stdout.
  unfoldable pub files_closeall : Table S → Result (Table S) (Unit {0})
  unfolding close_from
  files_closeall = do λ s. assert (ltb 0 s.files_count) s; close_from (files_struct_nentry - 2) 2
