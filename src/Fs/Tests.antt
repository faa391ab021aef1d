-- ===== src/Fs/Tests.antt =====
-- Buffers and bitmaps at concrete inputs.
use nku_os.Base.{
  ℕ, some, ◌≤◌, ◌*◌, ◌+◌, ltb, leb, ◌&&◌, ◌≡◌, ◌⊎◌, refl, true, false, pos, ◌+ℤ◌, arith,
}
use nku_os.Base.Result.{ok, err}
use nku_os.Libs.Memory.{moved}
use nku_os.Fs.Iobuf.{Io, e_no_mem, iobuf_move}
use nku_os.Fs.Iobuf.Move.{iobuf_move_lem}
use nku_os.Fs.Bitmap.Fresh.{bitmap_create_lem}
use nku_os.Fs.Bitmap.{bitmap_create, Bitmap, bitmap_alloc, bitmap_free, set_bit}
use nku_os.Fs.Bitmap.Cycle.{bitmap_alloc-bitmap_free}
use nku_os.Fs.Bitmap.Least.{Clear, First, bitmap_alloc_lem}

-- A buffer of 8 bytes at 100.
abbrev eight : Io
eight = record {
  iob = record { io_base = 100; io_offset = pos 0; io_len = 8; io_resid = 8 };
  memory = λ a. a;
}

iobuf_move_lem_example :
    (code : ℕ) × (t : Io) × (iobuf_move 40 12 true eight ≡ ok (code, 8) t)
    × (code ≡ e_no_mem)
    × ((j : ℕ) → t.memory j ≡ moved 100 40 8 eight.memory j)
    × (t.iob.io_resid + 8 ≡ 8)
    × (t.iob.io_base ≡ 108)
    × (t.iob.io_offset ≡ pos 0 +ℤ pos 8)
    × (t.iob.io_len ≡ 8)
iobuf_move_lem_example = iobuf_move_lem 40 12 true eight

-- Of 40 blocks those from 35 on are free.
abbrev five_free : Bitmap
five_free = record { nbits = 40; nwords = 2; map = λ i. leb 35 i && ltb i 40 }

bitmap_alloc_lem_example :
    ((bitmap_alloc five_free ≡ err 4 five_free) × Clear 0 64 five_free.map)
    ⊎ ((p : ℕ) × (bitmap_alloc five_free ≡ ok p (set_bit p false five_free))
        × First 0 64 five_free.map p)
bitmap_alloc_lem_example = bitmap_alloc_lem five_free

five_free_end : (j : ℕ) → 40 ≤ j → five_free.map j ≡ false
five_free_end j h = ground (arith, h)

bitmap_create_lem_example :
    (b : Bitmap) × (bitmap_create true true 40 ≡ some (some b))
    × (b.nbits ≡ 40)
    × (40 ≤ b.nwords * 32)
    × ((j : ℕ) → b.map j ≡ ltb j 40)
bitmap_create_lem_example = bitmap_create_lem 40 (omega arith)

bitmap_alloc-bitmap_free_example :
    (p : ℕ) × (t : Bitmap) × (bitmap_alloc five_free ≡ ok p t) × (bitmap_free p t ≡ ok tt five_free)
bitmap_alloc-bitmap_free_example =
    bitmap_alloc-bitmap_free 36 five_free (omega arith) refl five_free_end
