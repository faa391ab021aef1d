-- ===== src/File/Claim.antt =====
-- The state between `fd_array_alloc` and the end of `file_open` (lab8/kern/fs/file.c).
use nku_os.Base.{
  ltb, lt→ltb, refl, ◌&&◌, true, Bool, pos, negsuc, zero, suc, ◌+◌, ℕ, ◌<◌, ◌≡◌, ℤ, List, Option,
  none, some, arith,
}
use nku_os.Base.Result.{assert-Post, fail, Result, ok, Post, >>=-Post, >>-Post, if_Post, ◌>>◌}
use nku_os.File.Table.{
  is_init, files_struct_nentry, is_some, is_none, put, fd_none, fd_init, fd_opened, File, Vfs,
  Table, Reply, done, failed, found, alloc_at, alloc_first, first_none, fd_array_alloc,
  fd_array_free, fd_array_open, no_fd, is_no_fd,
}
use nku_os.File.Calls.{or_else, file_open, open_entry, open_at, open_with, access_mode, is_append}
use nku_os.File.Valid.{IsValid, Others, Others-update, Others-each, IsValid-Others}

-- The state while a call has claimed entry `i` with `fd_array_alloc`.
pub record Claimed {S : Type 0} (i : ℕ) (s : Table S) : Type 0 where
  pub others : Others i s.files
  pub name : (s.files i).fd ≡ i
  pub fresh : (s.files i).status ≡ fd_init
  pub unused : (s.files i).open_count ≡ 0
  pub counted : 0 < s.files_count

-- The loop stops at a free entry.
first_none-is_none :
    (k i : ℕ) (t : ℕ → File) {j : ℕ} → first_none k i t ≡ some j → is_none (t j).status ≡ true
unfolding first_none
first_none-is_none zero i t e = cc
first_none-is_none (suc k) i t {j} e = ground (arith, first_none-is_none k (i + 1) t {j = j})

-- What an allocation promises: the entry is claimed, and open entries are left alone.
pub record Allocated {S : Type 0} (s : Table S) (i : ℕ) (t : Table S) : Type 0 where
  pub claimed : Claimed i t
  pub kept : (j : ℕ) → (s.files j).status ≡ fd_opened → t.files j ≡ s.files j

module _ {S : Type 0} where
  pub found-Claimed :
      (i : ℕ) {s : Table S}
      → IsValid s
      → is_none (s.files i).status ≡ true
      → Post (Allocated s) IsValid (found i s)
  unfolding found
  found-Claimed i {s} h e =
      let zero_count : (s.files i).open_count ≡ 0 = ground (arith, h.each i) in
      rw zero_count (
        Post.returns (record {
          claimed = record {
            others = Others-update s.files i _ (IsValid-Others i h);
            name = ground (arith, h.each i);
            fresh = ground arith;
            unused = ground (arith, zero_count);
            counted = h.shared;
          };
          kept = λ j o. ground (arith, o, e);
        }))

  pub alloc_at-Claimed :
      (fd : ℤ) {s : Table S} → IsValid s → Post (Allocated s) IsValid (alloc_at fd s)
  unfolding alloc_at
  alloc_at-Claimed (pos i) {s} h =
      if_Post (ltb i files_struct_nentry)
        (λ _. if_Post (is_none (s.files i).status) (λ e. found-Claimed i h e) (λ _. Post.fails h))
        (λ _. Post.fails h)
  alloc_at-Claimed (negsuc n) h = Post.fails h

  alloc_first-Claimed :
      (o : Option ℕ) {s : Table S}
      → IsValid s
      → ((j : ℕ) → o ≡ some j → is_none (s.files j).status ≡ true)
      → Post (Allocated s) IsValid (alloc_first o s)
  unfolding alloc_first
  alloc_first-Claimed none h k = Post.fails h
  alloc_first-Claimed (some i) h k = found-Claimed i h (k i refl)

  pub fd_array_alloc-Claimed :
      (fd : ℤ) {s : Table S} → IsValid s → Post (Allocated s) IsValid (fd_array_alloc fd s)
  unfolding fd_array_alloc
  fd_array_alloc-Claimed fd {s} h =
      assert-Post (ltb 0 s.files_count) _ s (lt→ltb 0 s.files_count h.shared) (
        if_Post (is_no_fd fd)
          (λ _.
            alloc_first-Claimed (first_none files_struct_nentry 0 s.files) h
              (λ j e. first_none-is_none files_struct_nentry 0 s.files e))
          λ _. alloc_at-Claimed fd h)

module _ {S : Type 0} (v : Vfs S) where
  free_lem :
      (i : ℕ) {s : Table S}
      → Claimed i s
      → fd_array_free v i s ≡ ok tt (put i (record (s.files i) { status = fd_none }) s)
  unfolding fd_array_free
  free_lem i h = ground (arith, h.fresh, h.unused)

  free-IsValid :
      (i : ℕ) {s : Table S} → Claimed i s → Post (λ _. IsValid) IsValid (fd_array_free v i s)
  free-IsValid i {s} h = rw (free_lem i h) (
      Post.returns (record {
        each = Others-each s.files i _ h.others (ground (arith, h.name, h.unused));
        shared = h.counted;
      }))

  -- The entry is claimed and its node is set: it can be opened.
  pub open-IsValid :
      (i : ℕ) {s : Table S}
      → Claimed i s
      → is_some (s.files i).node ≡ true
      → Post (λ _. IsValid) IsValid (fd_array_open v i s)
  unfolding fd_array_open
  open-IsValid i {s} h k =
      assert-Post (is_init (s.files i).status && is_some (s.files i).node) _ s
        (ground (arith, h.fresh, k))
        (Post.returns (record {
          each =
              Others-each _ i _ (Others-update s.files i _ h.others)
                (ground (arith, h.name, h.unused, k));
          shared = h.counted;
        }))

  pub put-Claimed :
      (i : ℕ) (f : File) {s : Table S}
      → Claimed i s
      → f.fd ≡ i
      → f.status ≡ fd_init
      → f.open_count ≡ 0
      → Claimed i (put i f s)
  put-Claimed i f {s} h n t c = record {
    others = Others-update s.files i f h.others;
    name = ground (arith, n);
    fresh = ground (arith, t);
    unused = ground (arith, c);
    counted = h.counted;
  }

  pub fs-Claimed : (i : ℕ) (fs : S) {s : Table S} → Claimed i s → Claimed i (record s { fs = fs })
  fs-Claimed i fs h = record {
    others = h.others;
    name = h.name;
    fresh = h.fresh;
    unused = h.unused;
    counted = h.counted;
  }

  open_entry-IsValid :
      (i n : ℕ) (mode : Bool × Bool) (p : ℤ) {s : Table S}
      → Claimed i s
      → Post (λ _. IsValid) IsValid (open_entry v i n mode p s)
  unfolding open_entry
  open_entry-IsValid i n (r, w) p {s} h =
      >>-Post (λ _. IsValid) (fd_array_open v i) _
        (open-IsValid i (put-Claimed i _ h h.name h.fresh h.unused) (ground arith))
        λ _ t k. Post.returns k

  -- The exits of `file_open` after an error of the VFS.
  give_up :
      (i e : ℕ) {s : Table S}
      → Claimed i s
      → Post {A = ℕ} (λ _. IsValid) IsValid ((fd_array_free v i >> fail e) s)
  give_up i e h =
      >>-Post (λ _. IsValid) (fd_array_free v i) _ (free-IsValid i h) λ _ t k. Post.fails k

  or_else-Post :
      (i : ℕ) (r : Reply × S) {s : Table S} {e k : ℕ → Table S → Result (Table S) ℕ}
      → Claimed i s
      → ((c : ℕ) (t : Table S) → Claimed i t → Post (λ _. IsValid) IsValid (e c t))
      → ((a : ℕ) (t : Table S) → Claimed i t → Post (λ _. IsValid) IsValid (k a t))
      → Post (λ _. IsValid) IsValid (or_else v r s e k)
  or_else-Post i (done a, fs) h p q = q a _ (fs-Claimed i fs h)
  or_else-Post i (failed c, fs) h p q = p c _ (fs-Claimed i fs h)

  open_at-IsValid :
      (i n : ℕ) (mode : Bool × Bool) (flags : ℕ) {s : Table S}
      → Claimed i s
      → Post (λ _. IsValid) IsValid (open_at v i n mode flags s)
  unfolding open_at
  open_at-IsValid i n mode flags {s} h =
      if_Post (is_append flags)
        (λ _.
          or_else-Post i (v.fstat n s.fs) (put-Claimed i _ h h.name h.fresh h.unused)
            (λ c t k. give_up i c (fs-Claimed i _ k))
            (λ a t k. open_entry-IsValid i n mode (pos a) k))
        (λ _. open_entry-IsValid i n mode (pos 0) h)

  open_with-IsValid :
      (path : List ℕ) (flags : ℕ) (mode : Bool × Bool) {s : Table S}
      → IsValid s
      → Post (λ _. IsValid) IsValid (open_with v path flags mode s)
  unfolding open_with
  open_with-IsValid path flags mode {s} h =
      >>=-Post (Allocated s) (fd_array_alloc no_fd) _ (fd_array_alloc-Claimed no_fd h) λ i t k.
        or_else-Post i (v.open_node path flags t.fs) k.claimed (λ c t k. give_up i c k)
          (λ n t k. open_at-IsValid i n mode flags k)

  pub open_mode :
      (path : List ℕ) (flags : ℕ) (o : Option (Bool × Bool)) {s : Table S}
      → IsValid s
      → access_mode flags ≡ o
      → Post (λ _. IsValid) IsValid (file_open v path flags s)
  unfolding file_open
  open_mode path flags none h e = rw (e, file_open) (Post.fails h)
  open_mode path flags (some mode) h e = rw (e, file_open) (open_with-IsValid path flags mode h)
