-- ===== src/File/Keeps.antt =====
-- The system calls keep the open-files table well formed, and none of them fails an assertion.
use nku_os.Base.{◌∙◌, ap, refl, ◌==◌, ◌&&◌, true, ℕ, ◌<◌, ◌≡◌, ℤ, List, Option, none, some, arith}
use nku_os.Base.Result.{
  assert-Post, assert-Post, Result, ok, err, panic, Ends, Post, >>=-Post, >>-Post, if_Post, ◌>>=◌,
}
use nku_os.File.Table.{
  share_node, is_init, is_some, is_opened, put, fd_opened, File, Vfs, Table, Reply, done, failed,
  fd_array_alloc, fd2file, fd_array_close, fd_array_dup,
}
use nku_os.File.Calls.{
  access_mode, stat_code, sized, acquired, node_of, seek_target, seek_to, seek, stat, sync,
  next_entry, file_open, file_close, file_read, file_write, file_seek, file_fstat, file_fsync,
  file_getdirentry, file_dup, access_mode,
}
use nku_os.File.Claim.{
  Claimed, Allocated, fd_array_alloc-Claimed, open_mode, put-Claimed, fs-Claimed, open-IsValid,
}
use nku_os.File.Valid.{
  IsValid, FileOk, Held, Opened, fd2file-Opened, node_of-Held, fs-Held, pos-Held, transfer-Held,
  acquired-IsValid,
}

-- Every call on a descriptor, with its arguments.
pub data Call : Type 0 where
  opens : List ℕ → ℕ → Call
  closes : ℤ → Call
  reads writes : ℤ → ℕ → Call
  seeks : ℤ → ℤ → ℕ → Call
  stats syncs : ℤ → Call
  lists : ℤ → ℤ → Call
  dups : ℤ → ℤ → Call

module _ {S : Type 0} where
  -- The state that a call leaves, whatever it returns.
  abbrev pub done_with : {A : Type 0} → Result (Table S) A → Result (Table S) (Unit {0})
  done_with (ok a s) = ok tt s
  done_with (err e s) = err e s
  done_with panic = panic

  done_with-Post :
      {A : Type 0} {r : Result (Table S) A}
      → Post (λ _. IsValid) IsValid r
      → Ends IsValid (done_with r)
  done_with-Post (Post.returns p) = p
  done_with-Post (Post.fails p) = p

module _ {S : Type 0} (v : Vfs S) where
  pub step : Call → Table S → Result (Table S) (Unit {0})
  step (opens path flags) s = done_with (file_open v path flags s)
  step (closes fd) s = done_with (file_close v fd s)
  step (reads fd len) s = done_with (file_read v fd len s)
  step (writes fd len) s = done_with (file_write v fd len s)
  step (seeks fd p whence) s = done_with (file_seek v fd p whence s)
  step (stats fd) s = done_with (file_fstat v fd s)
  step (syncs fd) s = done_with (file_fsync v fd s)
  step (lists fd offset) s = done_with (file_getdirentry v fd offset s)
  step (dups fd1 fd2) s = done_with (file_dup v fd1 fd2 s)

  close_at :
      (i : ℕ) (s : Table S)
      → Opened i s
      → (j : ℕ) → Ends (λ t. FileOk j (t.files j) × (0 < t.files_count)) (fd_array_close v i s)
  unfolding fd_array_close
  close_at i s o j = ground (arith, o.open_, o.valid.each i, o.valid.each j, o.valid.shared)

  pointwise :
      (r : Result (Table S) (Unit {0}))
      → ((j : ℕ) → Ends (λ t. FileOk j (t.files j) × (0 < t.files_count)) r)
      → Post (λ _. IsValid) IsValid r
  pointwise (ok a s) h = Post.returns (record { each = λ j. (h j).0; shared = (h 0).1 })
  pointwise (err e s) h = Post.fails (record { each = λ j. (h j).0; shared = (h 0).1 })
  pointwise panic h = absurd (h 0)

  share_at :
      (to : ℕ) (o : Option ℕ) {s : Table S}
      → Claimed to s
      → is_some o ≡ true
      → Post (λ _. Claimed to) IsValid (share_node v o s)
  unfolding share_node
  share_at to none h e = absurd (ground (arith, e))
  share_at to (some n) h e = Post.returns (fs-Claimed v to _ h)

  dup_at :
      (to from : ℕ) (s : Table S)
      → Claimed to s
      → (s.files from).status ≡ fd_opened
      → is_some (s.files from).node ≡ true
      → Post (λ _. IsValid) IsValid (fd_array_dup v to from s)
  unfolding fd_array_dup share_node
  dup_at to from s h o k =
      let copy : File = record (s.files to) {
        pos = (s.files from).pos;
        readable = (s.files from).readable;
        writable = (s.files from).writable;
        node = (s.files from).node;
      } in
      assert-Post (is_init (s.files to).status && is_opened (s.files from).status) _ s
        (ground (arith, o, h.fresh))
        (>>-Post (λ _. Claimed to) (share_node v (s.files from).node) _
          (share_at to (s.files from).node h k)
          λ _ t c.
            open-IsValid v to {s = put to copy t} (put-Claimed v to copy c h.name h.fresh h.unused)
              (ground (arith, k)))

  file_dup-IsValid :
      (fd1 fd2 : ℤ) (s : Table S) → IsValid s → Post (λ _. IsValid) IsValid (file_dup v fd1 fd2 s)
  unfolding file_dup
  file_dup-IsValid fd1 fd2 s h =
      >>=-Post Opened (fd2file fd1) _ (fd2file-Opened v fd1 h) λ from t o.
        >>=-Post (Allocated t) (fd_array_alloc fd2) _ (fd_array_alloc-Claimed fd2 o.valid) λ to u a.
          >>-Post (λ _. IsValid) (fd_array_dup v to from) _
            (dup_at to from u a.claimed (ap (λ f. f.status) (a.kept from o.open_) ∙ o.open_)
              (ground (arith, a.kept from o.open_, o.open_, o.valid.each from)))
            λ _ w k. Post.returns k

  sized_at :
      (i : ℕ) (p : ℤ) (r : Reply × S) {s : Table S}
      → Held i s
      → Post (λ _. Held i) IsValid (sized v p r s)
  unfolding sized
  sized_at i p (done size, fs) h = Post.returns (fs-Held v i fs h)
  sized_at i p (failed e, fs) h = Post.returns (fs-Held v i fs h)

  seek_target-Held :
      (i n : ℕ) (p : ℤ) (whence : ℕ) {s : Table S}
      → Held i s
      → Post (λ _. Held i) IsValid (seek_target v i n p whence s)
  unfolding seek_target
  seek_target-Held i n p whence {s} h =
      if_Post (whence == 0) (λ _. Post.returns h)
        λ _.
          if_Post (whence == 1) (λ _. Post.returns h)
            λ _. if_Post (whence == 2) (λ _. sized_at i p (v.fstat n s.fs) h) λ _. Post.returns h

  seek_to-Held :
      (i n : ℕ) (target : ℕ × ℤ) {s : Table S}
      → Held i s
      → Post (λ _. Held i) IsValid (seek_to v i n target s)
  unfolding seek_to
  seek_to-Held i n (ret, p) {s} h =
      if_Post (ret == 0)
        (λ _.
          if_Post ((v.tryseek n p s.fs).0 == 0)
            (λ _. Post.returns (pos-Held v i p (fs-Held v i _ h)))
            (λ _. Post.returns (fs-Held v i _ h)))
        (λ _. Post.returns h)

  seek-Held :
      (i : ℕ) (p : ℤ) (whence : ℕ) {s : Table S}
      → Held i s
      → Post (λ _. Held i) IsValid (seek v i p whence s)
  unfolding seek
  seek-Held i p whence {s} h =
      >>=-Post (λ _. Held i) (node_of v i) _ (node_of-Held v i h)
        λ n t k.
          >>=-Post (λ _. Held i) (seek_target v i n p whence) _ (seek_target-Held i n p whence k)
            λ target u k. seek_to-Held i n target k

  stat_at :
      (i : ℕ) (r : Reply × S) {s : Table S}
      → Held i s
      → Post (λ _. Held i) IsValid (stat_code v r s)
  unfolding stat_code
  stat_at i (done size, fs) h = Post.returns (fs-Held v i fs h)
  stat_at i (failed e, fs) h = Post.returns (fs-Held v i fs h)

  stat-Held : (i : ℕ) {s : Table S} → Held i s → Post (λ _. Held i) IsValid (stat v i s)
  unfolding stat
  stat-Held i h =
      >>=-Post (λ _. Held i) (node_of v i) _ (node_of-Held v i h)
        λ n t k. stat_at i (v.fstat n t.fs) k

  sync-Held : (i : ℕ) {s : Table S} → Held i s → Post (λ _. Held i) IsValid (sync v i s)
  unfolding sync
  sync-Held i h =
      >>=-Post (λ _. Held i) (node_of v i) _ (node_of-Held v i h)
        λ n t k. Post.returns (fs-Held v i _ k)

  next_entry-Held :
      (i : ℕ) (offset : ℤ) {s : Table S}
      → Held i s
      → Post (λ _. Held i) IsValid (next_entry v i offset s)
  unfolding next_entry
  next_entry-Held i offset h =
      >>=-Post (λ _. Held i) (node_of v i) _ (node_of-Held v i h)
        λ n t k. Post.returns (fs-Held v i _ k)

  on_fd :
      {A : Type 0} (fd : ℤ) (body : ℕ → Table S → Result (Table S) A) {s : Table S}
      → IsValid s
      → ((i : ℕ) (t : Table S) → Held i t → Post (λ _. Held i) IsValid (body i t))
      → Post (λ _. IsValid) IsValid ((fd2file fd >>= λ i. acquired v i (body i)) s)
  on_fd fd body h keep =
      >>=-Post Opened (fd2file fd) _ (fd2file-Opened v fd h)
        λ i t o. acquired-IsValid v i (body i) o (keep i)

  -- From a well formed table every call on a descriptor, whatever the VFS answers, fails no
  -- assertion and leaves a well formed table, on success and on each error return.
  pub step-IsValid : (c : Call) {s : Table S} → IsValid s → Ends IsValid (step c s)
  unfolding step file_close file_read file_write file_seek file_fstat file_fsync file_getdirentry
  step-IsValid (opens path flags) h =
      done_with-Post (open_mode v path flags (access_mode flags) h refl)
  step-IsValid (closes fd) h =
      done_with-Post (
        >>=-Post Opened (fd2file fd) _ (fd2file-Opened v fd h)
          λ i t o. pointwise _ (close_at i t o))
  step-IsValid (reads fd len) h = done_with-Post (
      >>=-Post Opened (fd2file fd) _ (fd2file-Opened v fd h) λ i t o.
        if_Post (t.files i).readable
          (λ _. acquired-IsValid v i _ o (λ u k. transfer-Held v v.read i len k))
          λ _. Post.fails o.valid)
  step-IsValid (writes fd len) h = done_with-Post (
      >>=-Post Opened (fd2file fd) _ (fd2file-Opened v fd h) λ i t o.
        if_Post (t.files i).writable
          (λ _. acquired-IsValid v i _ o (λ u k. transfer-Held v v.write i len k))
          λ _. Post.fails o.valid)
  step-IsValid (seeks fd p whence) h = done_with-Post (on_fd fd _ h (λ i t. seek-Held i p whence))
  step-IsValid (stats fd) h = done_with-Post (on_fd fd _ h (λ i t. stat-Held i))
  step-IsValid (syncs fd) h = done_with-Post (on_fd fd _ h (λ i t. sync-Held i))
  step-IsValid (lists fd offset) h = done_with-Post (on_fd fd _ h (λ i t. next_entry-Held i offset))
  step-IsValid (dups fd1 fd2) h = done_with-Post (file_dup-IsValid fd1 fd2 _ h)
