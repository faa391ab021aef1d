-- ===== src/File/Tests.antt =====
-- The open-files table of lab8/kern/fs/file.c at concrete inputs.
use nku_os.Base.{◌≡◌, ℕ, ◌≤◌, ◌<◌, zero, suc, refl, pos, true, false, some, none, arith}
use nku_os.Base.Result.{Ends, ok}
use nku_os.File.Table.{File, Table, Vfs, done, fd_opened, fd_none, files_struct_nentry}
use nku_os.File.Valid.{IsValid, FileOk}
use nku_os.File.Life.{files_closeall}
use nku_os.File.Life.Closeall.{files_closeall_lem}
use nku_os.File.Keeps.{step, closes, step-IsValid}

-- A file system that counts the calls.
abbrev counting : Vfs ℕ
counting = record {
  open_node = λ path flags s. (done 7, suc s);
  close = λ n s. suc s;
  fstat = λ n s. (done 0, suc s);
  read = λ n len p s. (0, len, suc s);
  write = λ n len p s. (0, len, suc s);
  tryseek = λ n p s. (0, suc s);
  fsync = λ n s. (0, suc s);
  getdirentry = λ n p s. (0, 0, suc s);
  ref_inc = λ n s. suc s;
  open_inc = λ n s. suc s;
}

abbrev opened_file : ℕ → File
opened_file i = record {
  status = fd_opened;
  readable = true;
  writable = false;
  fd = i;
  pos = pos 0;
  node = some 7;
  open_count = 1;
}

abbrev free_file : ℕ → File
free_file i = record {
  status = fd_none;
  readable = false;
  writable = false;
  fd = i;
  pos = pos 0;
  node = none;
  open_count = 0;
}

-- The entries 0 and 2 are open.
abbrev entry : ℕ → File
entry zero = opened_file 0
entry (suc zero) = free_file 1
entry (suc (suc zero)) = opened_file 2
entry (suc (suc (suc i))) = free_file (suc (suc (suc i)))

abbrev two_open : Table ℕ
two_open = record { files = entry; files_count = 1; fs = 0 }

entry-FileOk : (i : ℕ) → FileOk i (entry i)
entry-FileOk zero = (refl, (refl, refl))
entry-FileOk (suc zero) = (refl, refl)
entry-FileOk (suc (suc zero)) = (refl, (refl, refl))
entry-FileOk (suc (suc (suc i))) = (refl, refl)

two_open-IsValid : IsValid two_open
two_open-IsValid = record { each = entry-FileOk; shared = omega arith }

step-IsValid_example : Ends IsValid (step counting (closes (pos 0)) two_open)
step-IsValid_example = step-IsValid counting (closes (pos 0)) two_open-IsValid

files_closeall_lem_example :
    (t : Table ℕ) × (files_closeall counting two_open ≡ ok tt t)
    × IsValid t
    × ((j : ℕ) → 2 ≤ j → j < files_struct_nentry → (t.files j).status ≡ fd_none)
    × ((j : ℕ) → j < 2 → t.files j ≡ entry j)
files_closeall_lem_example = files_closeall_lem counting two_open two_open-IsValid
