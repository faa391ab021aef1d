-- ===== src/Fs/Iobuf/Move.antt =====
-- What `iobuf_move` of lab8/kern/fs/iobuf.c moves, and how it advances the buffer.
use nku_os.Base.{
  ℕ, ◌+◌, ◌-◌, ◌≤◌, ◌≡◌, refl, ap, ◌∙◌, Bool, false, ltb, leb, ◌==◌, if◌then◌else◌, pos, ◌+ℤ◌,
  add_zero, sym, arith,
}
use nku_os.Base.Result.{ok, Post, Post-ok, assert-Post, if_Post, >>-Post}
use nku_os.Libs.Memory.{memmove, moved, memmove_lem}
use nku_os.Fs.Iobuf.{Io, e_no_mem, iobuf_skip, iobuf_move, if_room, room}

-- The state after `alen` bytes have gone through the buffer.
record Advanced (dst src alen : ℕ) (s t : Io) : Type 0 where
  bytes : (j : ℕ) → t.memory j ≡ moved dst src alen s.memory j
  resid : t.iob.io_resid + alen ≡ s.iob.io_resid
  base : t.iob.io_base ≡ s.iob.io_base + alen
  offset : t.iob.io_offset ≡ s.iob.io_offset +ℤ pos alen
  len : t.iob.io_len ≡ s.iob.io_len

skip-Advanced :
    (dst src alen : ℕ) (s : Io)
    → alen ≤ s.iob.io_resid
    → Post
        (λ _. Advanced dst src alen s)
        (λ _. ⊥)
        (iobuf_skip alen (record s { memory = memmove dst src alen s.memory }))
unfolding iobuf_skip
skip-Advanced dst src alen s h =
    assert-Post (leb alen s.iob.io_resid) _ (record s { memory = memmove dst src alen s.memory })
      (ground (arith, h))
      (Post.returns (record {
        bytes = memmove_lem dst src alen s.memory;
        resid = omega (arith, h);
        base = refl;
        offset = refl;
        len = refl;
      }))

still-Advanced : (dst src alen : ℕ) (s : Io) → ltb 0 alen ≡ false → Advanced dst src alen s s
still-Advanced dst src alen s e = record {
  bytes = λ j. ground (arith, e);
  resid = ground (arith, e);
  base = ground (arith, e);
  offset = let none : alen ≡ 0 = ground (arith, e) in rw none (sym (add_zero s.iob.io_offset));
  len = refl;
}

goes-Advanced :
    (dst src len : ℕ) (s : Io)
    → Post
        (λ _. Advanced dst src (room len s) s)
        (λ _. ⊥)
        (if_room (room len s) (memmove dst src (room len s)) s)
unfolding if_room
goes-Advanced dst src len s =
    if_Post (ltb 0 (room len s)) (λ _. skip-Advanced dst src (room len s) s (ground arith))
      λ e. Post.returns (still-Advanced dst src (room len s) s e)

code_lem :
    (len : ℕ) (s : Io)
    → (if len - room len s == 0 then 0 else e_no_mem)
      ≡ (if leb len s.iob.io_resid then 0 else e_no_mem)
code_lem len s = ground arith

-- Where the bytes come from, and where they go.
abbrev pub source_of : ℕ → Bool → Io → ℕ
source_of data_ m2b s = if m2b then data_ else s.iob.io_base

abbrev pub target_of : ℕ → Bool → Io → ℕ
target_of data_ m2b s = if m2b then s.iob.io_base else data_

-- `iobuf_move` fails no assertion. It moves as many bytes as the request and the rest of the buffer
-- allow, in the given direction, writes nothing else, advances the base and the offset of the
-- buffer by as many, takes as many from what is left, keeps its length, and returns 0 exactly when that was all of the request.
pub iobuf_move_lem :
    (data_ len : ℕ) (m2b : Bool) (s : Io)
    → (code : ℕ) × (t : Io) × (iobuf_move data_ len m2b s ≡ ok (code, room len s) t)
      × (code ≡ (if leb len s.iob.io_resid then 0 else e_no_mem))
      × ((j : ℕ)
          → t.memory j
            ≡ moved (target_of data_ m2b s) (source_of data_ m2b s) (room len s) s.memory j)
      × (t.iob.io_resid + room len s ≡ s.iob.io_resid)
      × (t.iob.io_base ≡ s.iob.io_base + room len s)
      × (t.iob.io_offset ≡ s.iob.io_offset +ℤ pos (room len s))
      × (t.iob.io_len ≡ s.iob.io_len)
unfolding iobuf_move
iobuf_move_lem data_ len m2b s =
    let (r, t, runs, (e, done)) = Post-ok moves in
    (
      (if len - room len s == 0 then 0 else e_no_mem),
      t,
      runs ∙ ap (λ q. ok q t) e,
      code_lem len s,
      done.bytes,
      done.resid,
      done.base,
      done.offset,
      done.len,
    )
  where
    moves :
        Post
          (λ r t.
            ◌≡◌ {A = ℕ × ℕ} r ((if len - room len s == 0 then 0 else e_no_mem), room len s)
            × Advanced (target_of data_ m2b s) (source_of data_ m2b s) (room len s) s t)
          (λ _. ⊥)
          (iobuf_move data_ len m2b s)
    moves =
        >>-Post (λ _. Advanced (target_of data_ m2b s) (source_of data_ m2b s) (room len s) s)
          (if_room (room len s)
            (memmove (target_of data_ m2b s) (source_of data_ m2b s) (room len s)))
          _ {s = s} (goes-Advanced (target_of data_ m2b s) (source_of data_ m2b s) len s)
          λ _ t k. Post.returns (refl, k)
