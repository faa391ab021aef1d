-- ===== src/Fs/Sfs/Trunc/Resize.antt =====
-- What `sfs_truncfile` of lab8/kern/fs/sfs/sfs_inode.c leaves of the number of blocks and the size.
use nku_os.Base.{
  ℕ, zero, suc, ◌+◌, ◌-◌, ◌*◌, ◌≤◌, ◌<◌, ◌≡◌, ◌≢◌, refl, ap₂, subst, ◌∙◌, true, false, ltb, leb,
  ◌==◌, if◌then◌else◌, arith,
}
use nku_os.Base.Result.{Result, err, panic, ◌>>=◌, ◌>>◌, Post, if_Post, >>-Post}
use nku_os.Fs.Sfs.{Sfs, blksize}
use nku_os.Fs.Sfs.Bmap.{
  load_block, sfs_bmap_get_nolock, sfs_bmap_load_nolock, sfs_bmap_truncate_nolock,
}
use nku_os.Fs.Sfs.Wf.{place_of, entry_place}
use nku_os.Fs.Sfs.Length.{
  WellSized, sfs_bmap_load_nolock-WellSized, sfs_bmap_truncate_nolock-WellSized,
}
use nku_os.Fs.Sfs.Mapped.{Unmapped}
use nku_os.Fs.Sfs.Free.{Unfreed}
use nku_os.Fs.Sfs.Trunc.{
  blocks_for, enlarge, reduce, resize, set_size, sfs_truncfile, sfs_tryseek, max_file_size,
}

-- What an error leaves: a well formed file of the old size in bytes, whatever its number of blocks.
abbrev pub Partly : Sfs → Sfs → Type 0
Partly s t = WellSized t × (t.size ≡ s.size)

Unmapped-Partly : (s t : Sfs) (i : ℕ) → WellSized s → Unmapped s i t → Partly s t
Unmapped-Partly s t i (w, n, d) (a, (b, c, e), f) =
    ((a, omega (arith, n, c), λ j l. ground (arith, b j, c, d j l)), e)

Unfreed-Partly : (s t : Sfs) → WellSized s → Unfreed s t → Partly s t
Unfreed-Partly s t (w, n, d) (a, (b, c, e), f) =
    ((a, omega (arith, n, c), λ j l. ground (arith, b j, c, d j l)), e)

-- An error may be described more weakly.
weaken :
    {A : Type 0} {Q : A → Sfs → Type 0} {E F : Sfs → Type 0} {r : Result Sfs A}
    → ((t : Sfs) → E t → F t)
    → Post Q E r
    → Post Q F r
weaken f (Post.returns q) = Post.returns q
weaken f (Post.fails {s = t} e) = Post.fails (f t e)

enlarge-Post :
    (k n : ℕ) (s o : Sfs)
    → Partly o s
    → s.nblocks ≡ n
    → n + k ≤ entry_place
    → Post (λ _ t. Partly o t × (t.nblocks ≡ n + k)) (Partly o) (enlarge k n s)
unfolding enlarge
enlarge-Post zero n s o w e h = Post.returns (w, omega (arith, e))
enlarge-Post (suc k) n s o (w, z) e h =
    >>-Post
      (λ p t.
        WellSized t
        × (0 < p)
        × (place_of t n ≡ p)
        × (t.nblocks ≡ (if n == s.nblocks then s.nblocks + 1 else s.nblocks))
        × (t.size ≡ s.size))
      (sfs_bmap_load_nolock n) (enlarge k (n + 1)) {s = s}
      (weaken (λ t u. let (a, b) = Unmapped-Partly s t n w u in (a, b ∙ z))
        (sfs_bmap_load_nolock-WellSized s n w (omega (arith, e)) (omega (arith, h))))
      (λ p t (a, b, c, d, f).
        subst (λ m. Post (λ _ u. Partly o u × (u.nblocks ≡ m)) (Partly o) (enlarge k (n + 1) t))
          (omega arith)
          (enlarge-Post k (n + 1) t o (a, f ∙ z) (ground (arith, d, e)) (omega (arith, h))))

reduce-Post :
    (k n : ℕ) (s o : Sfs)
    → Partly o s
    → s.nblocks ≡ n + k
    → Post (λ _ t. Partly o t × (t.nblocks ≡ n)) (Partly o) (reduce k s)
unfolding reduce
reduce-Post zero n s o w e = Post.returns (w, omega (arith, e))
reduce-Post (suc k) n s o (w, z) e =
    >>-Post (λ _ t. WellSized t × (t.nblocks + 1 ≡ s.nblocks) × (t.size ≡ s.size))
      sfs_bmap_truncate_nolock (reduce k) {s = s}
      (weaken (λ t u. let (a, b) = Unfreed-Partly s t w u in (a, b ∙ z))
        (sfs_bmap_truncate_nolock-WellSized s w (omega (arith, e))))
      (λ _ t (a, b, c). reduce-Post k n t o (a, c ∙ z) (omega (arith, b, e)))

-- The file has blocks at exactly the places below its length, and as many as its size asks for.
abbrev pub Sized : Sfs → Type 0
Sized s = WellSized s × (s.nblocks ≡ blocks_for s.size)

resize-Post :
    (m : ℕ) (s : Sfs)
    → WellSized s
    → m ≤ entry_place
    → Post (λ _ t. Partly s t × (t.nblocks ≡ m)) (Partly s) (resize m s)
unfolding resize
resize-Post m s w h =
    if_Post (ltb s.nblocks m)
      (λ q.
        subst
          (λ j.
            Post (λ _ t. Partly s t × (t.nblocks ≡ j)) (Partly s)
              (enlarge (m - s.nblocks) s.nblocks s))
          (ground (arith, q))
          (enlarge-Post (m - s.nblocks) s.nblocks s s (w, refl) refl (ground (arith, q, h))))
      (λ q. reduce-Post (s.nblocks - m) m s s (w, refl) (ground (arith, q)))

is_equal : (m n : ℕ) → m ≡ n → m == n ≡ true
is_equal m n e = ground (arith, e)

set_size-Post :
    (len : ℕ) (s : Sfs)
    → WellSized s
    → blocks_for len ≤ entry_place
    → Post (λ _ t. Sized t × (t.size ≡ len)) (Partly s) (set_size len s)
unfolding set_size
set_size-Post len s w h =
    >>-Post (λ _ t. Partly s t × (t.nblocks ≡ blocks_for len)) (resize (blocks_for len)) _ {s = s}
      (resize-Post (blocks_for len) s w h)
      (λ _ t (((a, b, c), z), e).
        rw (◌>>◌, is_equal t.nblocks (blocks_for len) e)
          (Post.returns (((record { space = a.space; owns = a.owns }, b, c), e), refl)))

-- The largest size that the block map can hold.
abbrev pub map_size : ℕ
map_size = entry_place * blksize

-- From a well formed file system whose file has blocks at exactly the places below its length, and as
-- many as its size asks for, `sfs_truncfile` to a size of at most 1036 blocks fails no assertion. On
-- success this holds again with the new size. After an error the file has the size it had, and blocks
-- at exactly the places below a length that need not fit this size.
pub sfs_truncfile-Sized :
    (s : Sfs) (len : ℕ)
    → Sized s
    → len ≤ map_size
    → Post (λ _ t. Sized t × (t.size ≡ len)) (Partly s) (sfs_truncfile len s)
unfolding sfs_truncfile
sfs_truncfile-Sized s len (w, z) h =
    if_Post (ltb max_file_size len) (λ q. absurd (ground (arith, q, h)))
      (λ q.
        if_Post (s.size == len)
          (λ e.
            rw (is_equal (blocks_for len) s.nblocks (ground (arith, z, e)))
              (Post.returns ((w, z), ground (arith, e))))
          (λ e. set_size-Post len s w (ground (arith, h))))

error_state :
    {A : Type 0} {Q : A → Sfs → Type 0} {E : Sfs → Type 0} {r : Result Sfs A} (e : ℕ) (t : Sfs)
    → Post Q E r
    → r ≡ err e t
    → E t
error_state e t p q = go (subst (Post _ _) q p)
  where
    go :
        {A : Type 0} {Q : A → Sfs → Type 0} {E : Sfs → Type 0} {e : ℕ} {t : Sfs}
        → Post Q E (err e t)
        → E t
    go (Post.fails k) = k

size_small : (n a b : ℕ) → n ≤ entry_place → n ≡ blocks_for a → b ≡ a → ltb max_file_size b ≡ false
size_small n a b h e d = ground (arith, h, e, d)

size_differs : (n m a b : ℕ) → n ≡ blocks_for a → b ≡ a → m ≢ n → blocks_for b == m ≡ false
size_differs n m a b e d k = ground (arith, e, d, k)

-- When `sfs_truncfile` of a file with as many blocks as its size asks for, to at most 1036 blocks,
-- ends with an error after the number of blocks has changed, a call that asks for the size the file
-- then has fails an assertion.
pub sfs_truncfile-panic :
    (s t : Sfs) (len e : ℕ)
    → Sized s
    → len ≤ map_size
    → sfs_truncfile len s ≡ err e t
    → t.nblocks ≢ s.nblocks
    → sfs_truncfile t.size t ≡ panic
unfolding sfs_truncfile
sfs_truncfile-panic s t len e (w, z) h run n =
    let ((a, b, c), d) = error_state e t (sfs_truncfile-Sized s len (w, z) h) run in
    rw
      (
        size_small s.nblocks s.size t.size w.1 z d,
        is_equal t.size t.size refl,
        size_differs s.nblocks t.nblocks s.size t.size z d n,
      )
      refl

-- One block more than the block map holds.
full_panic : (k : ℕ) (s : Sfs) → s.nblocks ≡ entry_place → enlarge (suc k) entry_place s ≡ panic
unfolding enlarge sfs_bmap_load_nolock load_block sfs_bmap_get_nolock
full_panic k s e = rw (◌>>◌, is_low e, ◌>>=◌) refl
  where
    is_low : s.nblocks ≡ entry_place → leb entry_place s.nblocks ≡ true
    is_low e = ground (arith, e)

resize_panic : (m : ℕ) (s : Sfs) → s.nblocks ≡ entry_place → entry_place < m → resize m s ≡ panic
unfolding resize
resize_panic m s e h =
    rw (longer e) (ap₂ (λ a b. enlarge a b s) (left e) e ∙ full_panic (m - entry_place - 1) s e)
  where
    longer : s.nblocks ≡ entry_place → ltb s.nblocks m ≡ true
    longer e = ground (arith, e, h)

    left : s.nblocks ≡ entry_place → m - s.nblocks ≡ suc (m - entry_place - 1)
    left e = omega (arith, e, h)

-- A position beyond what the block map holds, and below the limit.
seek_tests :
    (n a pos : ℕ)
    → n ≤ entry_place
    → n ≡ blocks_for a
    → map_size < pos
    → pos < max_file_size
    → (leb max_file_size pos ≡ false)
      × (ltb a pos ≡ true)
      × (ltb max_file_size pos ≡ false)
      × (a == pos ≡ false)
      × (entry_place < blocks_for pos)
seek_tests n a pos h e l m = (
  ground (arith, m),
  ground (arith, h, e, l),
  ground (arith, m),
  ground (arith, h, e, l),
  ground (arith, l),
)

-- When a file of the right size has all the 1036 blocks that a block map can hold, `sfs_tryseek` to a
-- position behind them and below SFS_MAX_FILE_SIZE panics instead of returning an error.
pub sfs_tryseek-panic :
    (s : Sfs) (pos : ℕ)
    → Sized s
    → s.nblocks ≡ entry_place
    → map_size < pos
    → pos < max_file_size
    → sfs_tryseek pos s ≡ panic
unfolding sfs_tryseek sfs_truncfile set_size
sfs_tryseek-panic s pos (w, z) e l h =
    let (a, b, c, d, f) = seek_tests s.nblocks s.size pos w.1 z l h in
    rw (a, b, c, d, ◌>>◌, resize_panic (blocks_for pos) s e f) refl
