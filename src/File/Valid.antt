-- ===== src/File/Valid.antt =====
-- The invariant of the open-files table between system calls, and that the calls keep it.
use nku_os.Base.{
  ltb, lt→ltb, refl, update, ◌==◌, ◌&&◌, true, ℕ_discrete, Bool-cases, inl, inr, pos, negsuc, ◌+◌,
  ◌-◌, ℕ, ◌<◌, ◌≡◌, ◌≢◌, ℤ, Option, none, some, arith,
}
use nku_os.Base.Result.{if_Post, Result, ok, err, panic, Ends, Post, >>=-Post, >>-Post}
use nku_os.File.Table.{
  get_fd_array, files_struct_nentry, is_some, is_opened, put, Status, fd_none, fd_opened, File, Vfs,
  Table, opened_at, fd2file, fd_array_acquire, fd_array_release, fd_array_close,
}
use nku_os.File.Calls.{call_vop, acquired, transfer, node_of, advance, file_close}

-- No call leaves an entry half opened, and a free entry is not counted.
abbrev pub StatusOk : Status → Option ℕ → ℕ → Type 0
StatusOk fd_none _ count = count ≡ 0
StatusOk fd_opened n count = (count ≡ 1) × (is_some n ≡ true)
StatusOk _ _ count = ⊥

abbrev pub FileOk : ℕ → File → Type 0
FileOk i f = (f.fd ≡ i) × StatusOk f.status f.node f.open_count

pub record IsValid {S : Type 0} (s : Table S) : Type 0 where
  pub each : (i : ℕ) → FileOk i (s.files i)
  pub shared : 0 < s.files_count

abbrev ValidAt : {S : Type 0} → ℕ → Table S → Type 0
ValidAt j s = FileOk j (s.files j) × (0 < s.files_count)

-- It is enough to follow one entry.
Ends-IsValid :
    {S A : Type 0} (r : Result (Table S) A) → ((j : ℕ) → Ends (ValidAt j) r) → Ends IsValid r
Ends-IsValid (ok a s) h = record { each = λ j. (h j).0; shared = (h 0).1 }
Ends-IsValid (err e s) h = record { each = λ j. (h j).0; shared = (h 0).1 }
Ends-IsValid panic h = h 0

module _ {S : Type 0} (v : Vfs S) where
  close_at : (fd : ℤ) (s : Table S) → IsValid s → (j : ℕ) → Ends (ValidAt j) (file_close v fd s)
  unfolding file_close fd2file fd_array_close
  close_at (ℤ.pos i) s h j = ground (arith, h.each i, h.each j, h.shared)
  close_at (ℤ.negsuc i) s h j = ground (arith, h.each j, h.shared)

-- One write to the table.
unfoldable pub Others : ℕ → (ℕ → File) → Type 0
Others i t = (j : ℕ) → j ≢ i → FileOk j (t j)

pub Others-update : (t : ℕ → File) (i : ℕ) (f : File) → Others i t → Others i (update t i f)
unfolding Others
Others-update t i f h j ne = ground (arith, h j ne)

pub Others-each :
    (t : ℕ → File) (i : ℕ) (f : File)
    → Others i t
    → FileOk i f
    → (j : ℕ) → FileOk j (update t i f j)
unfolding Others
Others-each t i f h k j = elim (ℕ_discrete j i) [
  | yes e ↦ ground (arith, e, k)
  | no ne ↦ ground (arith, h j ne)
]

pub IsValid-Others : {S : Type 0} {s : Table S} (i : ℕ) → IsValid s → Others i s.files
unfolding Others
IsValid-Others i h j ne = h.each j

-- The state while a call holds entry `i`: it is open and counted once more.
pub record Held {S : Type 0} (i : ℕ) (s : Table S) : Type 0 where
  pub others : Others i s.files
  pub name : (s.files i).fd ≡ i
  pub open_ : (s.files i).status ≡ fd_opened
  pub twice : (s.files i).open_count ≡ 2
  pub full : is_some (s.files i).node ≡ true
  pub counted : 0 < s.files_count

-- What `fd2file` promises of the entry that it finds.
pub record Opened {S : Type 0} (i : ℕ) (s : Table S) : Type 0 where
  pub valid : IsValid s
  pub open_ : (s.files i).status ≡ fd_opened

module _ {S : Type 0} (v : Vfs S) where
  acquire_lem :
      (i : ℕ) (s : Table S)
      → (s.files i).status ≡ fd_opened
      → fd_array_acquire v i s
        ≡ ok tt (put i (record (s.files i) { open_count = (s.files i).open_count + 1 }) s)
  unfolding fd_array_acquire
  acquire_lem i s o = ground (arith, o)

  acquire-Held :
      (i : ℕ) {s : Table S} → Opened i s → Post (λ _. Held i) IsValid (fd_array_acquire v i s)
  acquire-Held i {s} o = rw (acquire_lem i s o.open_) (
      Post.returns (record {
        others = Others-update s.files i _ (IsValid-Others i o.valid);
        name = ground (arith, o.valid.each i);
        open_ = ground (arith, o.open_);
        twice = ground (arith, o.valid.each i, o.open_);
        full = ground (arith, o.valid.each i, o.open_);
        counted = o.valid.shared;
      }))

  release_lem :
      (i : ℕ) (s : Table S)
      → Held i s
      → fd_array_release v i s
        ≡ ok tt (put i (record (s.files i) { open_count = (s.files i).open_count - 1 }) s)
  unfolding fd_array_release
  release_lem i s h = ground (arith, h.twice, h.open_)

  release-IsValid :
      (i : ℕ) {s : Table S} → Held i s → Post (λ _. IsValid) IsValid (fd_array_release v i s)
  release-IsValid i {s} h = rw (release_lem i s h) (
      Post.returns
        (record { each = Others-each s.files i _ h.others (ground arith); shared = h.counted }))

  opened_at-Opened : (i : ℕ) {s : Table S} → IsValid s → Post Opened IsValid (opened_at i s)
  unfolding opened_at
  opened_at-Opened i {s} h =
      elim (Bool-cases (is_opened (s.files i).status && (s.files i).fd == i)) [
        | inl e ↦ rw e (Post.returns (record { valid = h; open_ = ground arith }))
        | inr e ↦ rw e (Post.fails h)
      ]

  pub fd2file-Opened : (fd : ℤ) {s : Table S} → IsValid s → Post Opened IsValid (fd2file fd s)
  unfolding fd2file
  fd2file-Opened (pos i) {s} h =
      if_Post (ltb i files_struct_nentry)
        (λ _.
          >>-Post (λ _ t. IsValid t) get_fd_array (opened_at i) {s = s}
            (rw (lt→ltb 0 s.files_count h.shared) (Post.returns h)) λ _ t k. opened_at-Opened i k)
        λ _. Post.fails h
  fd2file-Opened (negsuc n) h = Post.fails h

  put-Held :
      (i : ℕ) (f : File) {s : Table S}
      → Held i s
      → FileOk i (record f { open_count = 1 })
      → f.status ≡ fd_opened
      → f.open_count ≡ 2
      → Held i (put i f s)
  put-Held i f {s} h k o c = record {
    others = Others-update s.files i f h.others;
    name = ground (arith, k);
    open_ = ground (arith, o);
    twice = ground (arith, c);
    full = ground (arith, k, o);
    counted = h.counted;
  }

  node_cases :
      (i : ℕ) (o : Option ℕ) {s : Table S}
      → Held i s
      → (s.files i).node ≡ o
      → is_some o ≡ true
      → Post (λ _. Held i) IsValid (node_of v i s)
  unfolding node_of
  node_cases i none h e k = absurd (ground (arith, k))
  node_cases i (some n) h e k = rw (e, node_of) (Post.returns h)

  pub node_of-Held : (i : ℕ) {s : Table S} → Held i s → Post (λ _. Held i) IsValid (node_of v i s)
  node_of-Held i {s} h = node_cases i (s.files i).node h refl h.full

  pub fs-Held : (i : ℕ) (fs : S) {s : Table S} → Held i s → Held i (record s { fs = fs })
  fs-Held i fs h = record {
    others = h.others;
    name = h.name;
    open_ = h.open_;
    twice = h.twice;
    full = h.full;
    counted = h.counted;
  }

  pub pos-Held :
      (i : ℕ) (p : ℤ) {s : Table S} → Held i s → Held i (put i (record (s.files i) { pos = p }) s)
  pos-Held i p h = put-Held i _ h (ground (arith, h.name, h.open_, h.full)) h.open_ h.twice

  advance-Held :
      (i copied : ℕ) {s : Table S} → Held i s → Post (λ _. Held i) IsValid (advance v i copied s)
  unfolding advance
  advance-Held i copied {s} h =
      if_Post (is_opened (s.files i).status) (λ _. Post.returns (pos-Held i _ h))
        λ _. Post.returns h

  pub transfer-Held :
      (vop : ℕ → ℕ → ℤ → S → ℕ × ℕ × S) (i len : ℕ) {s : Table S}
      → Held i s
      → Post (λ _. Held i) IsValid (transfer v vop i len s)
  unfolding transfer call_vop
  transfer-Held vop i len h =
      >>=-Post (λ _. Held i) (node_of v i) _ (node_of-Held i h)
        λ n t h.
          >>-Post (λ _. Held i) (advance v i _) _ (advance-Held i _ (fs-Held i _ h))
            λ _ t h. Post.returns h

  pub acquired-IsValid :
      {A : Type 0} (i : ℕ) (body : Table S → Result (Table S) A) {s : Table S}
      → Opened i s
      → ((t : Table S) → Held i t → Post (λ _. Held i) IsValid (body t))
      → Post (λ _. IsValid) IsValid (acquired v i body s)
  unfolding acquired
  acquired-IsValid i body o keep =
      >>-Post (λ _. Held i) (fd_array_acquire v i) _ (acquire-Held i o)
        λ _ t h.
          >>=-Post (λ _. Held i) body _ (keep t h)
            λ _ t h.
              >>-Post (λ _. IsValid) (fd_array_release v i) _ (release-IsValid i h)
                λ _ t h. Post.returns h
