-- ===== src/Fs/Iobuf.antt =====
-- Transfers through an io buffer: lab8/kern/fs/iobuf.c, on the memory of Libs/Memory.antt.
use nku_os.Base.{
  ℕ, ◌+◌, ◌-◌, ◌≤◌, ◌≡◌, refl, ap, Bool, true, false, ltb, leb, ◌==◌, if◌then◌else◌, ℤ, pos, ◌+ℤ◌,
  min, inl, inr, Bool-cases, arith,
}
use nku_os.Base.Result.{Result, ok, err, panic, ◌>>=◌, ◌>>◌, return, assert, modify}
use nku_os.Libs.Memory.{Memory, memmove, memset, moved, memmove_lem}
pub mod Move

pub record Iobuf : Type 0 where
  pub io_base : ℕ
  pub io_offset : ℤ
  pub io_len : ℕ
  pub io_resid : ℕ

pub record Io : Type 0 where
  pub iob : Iobuf
  pub memory : Memory

abbrev pub e_no_mem : ℕ
e_no_mem = 4

unfoldable pub iobuf_init : ℕ → ℕ → ℤ → Iobuf
iobuf_init base len offset = record {
  io_base = base;
  io_offset = offset;
  io_len = len;
  io_resid = len;
}

unfoldable pub iobuf_skip : ℕ → Io → Result Io (Unit {0})
iobuf_skip n = do
  λ s. assert (leb n s.iob.io_resid) s
  λ s. ok tt (record s {
    iob = record s.iob {
      io_base = s.iob.io_base + n;
      io_offset = s.iob.io_offset +ℤ pos n;
      io_resid = s.iob.io_resid - n;
    };
  })

-- `alen`, the part of the request that the buffer has room for.
abbrev pub room : ℕ → Io → ℕ
room len s = if ltb len s.iob.io_resid then len else s.iob.io_resid

-- `(len == 0) ? 0 : -E_NO_MEM` and `*copiedp`, after `len -= alen`.
abbrev pub answer : ℕ → ℕ → Io → Result Io (ℕ × ℕ)
answer len alen s = ok ((if len - alen == 0 then 0 else e_no_mem), alen) s

abbrev pub with_memory : (Memory → Memory) → Io → Result Io (Unit {0})
with_memory f s = ok tt (record s { memory = f s.memory })

-- `if (alen > 0)`
abbrev pub if_room : ℕ → (Memory → Memory) → Io → Result Io (Unit {0})
unfolding iobuf_skip
if_room alen f s = if ltb 0 alen then (with_memory f >> iobuf_skip alen) s else ok tt s

unfoldable pub iobuf_move : ℕ → ℕ → Bool → Io → Result Io (ℕ × ℕ)
unfolding iobuf_skip
iobuf_move data_ len m2b s =
    let alen = room len s in
    let src = if m2b then data_ else s.iob.io_base in
    let dst = if m2b then s.iob.io_base else data_ in
    (if_room alen (memmove dst src alen) >> answer len alen) s

unfoldable pub iobuf_move_zeros : ℕ → Io → Result Io (ℕ × ℕ)
unfolding iobuf_skip
iobuf_move_zeros len s =
    let alen = room len s in (if_room alen (memset s.iob.io_base 0 alen) >> answer len alen) s
