-- ===== src/Fs/Sfs/Words.antt =====
-- One word of a block, read and written by the calls of lab8/kern/fs/sfs/sfs_io.c, and what an error
-- leaves.
use nku_os.Base.{
  ℕ, ◌+◌, ◌*◌, ◌^◌, ◌≤◌, ◌<◌, ◌≡◌, ◌⊎◌, sym, ◌∙◌, true, ltb, leb, List, update, inl, inr, arith,
}
use nku_os.Base.Result.{Result, ok, err, panic, ◌>>=◌, ◌>>◌}
use nku_os.Fs.Sfs.{Sfs, blksize, blk_nentry, sfs_rbuf, sfs_wbuf}
use nku_os.Fs.Sfs.Wf.{Wf}
use nku_os.Fs.Sfs.Alloc.{faulty, heard, wrote, rblock_cases, wblock_cases}
use nku_os.Fs.Sfs.Steps.{Kept}

-- How a call of the device layer ends: with a value and a change, or an error that changes nothing.
pub data Io {A : Type 0} (s : Sfs) (a : A) (f : Sfs → Sfs) : Result Sfs A → Type 0 where
  done : (es : List ℕ) → faulty es ≡ faulty s.answers → Io s a f (ok a (f (heard es s)))
  failed : (es : List ℕ) (e : ℕ) → faulty s.answers ≡ true → Io s a f (err e (heard es s))

module _ (b index : ℕ) (s : Sfs) (n : s.blocks ≤ 2 ^ 20) (l : 0 < b) (h : b < s.blocks)
    (i : index < blk_nentry) where
  first : ltb (index * 4) blksize ≡ true
  first = ground (arith, i)

  last : leb (index * 4 + 4) blksize ≡ true
  last = ground (arith, i)

  pub sfs_rbuf-Io : Io s (s.disk b index) (λ t. t) (sfs_rbuf b index s)
  unfolding sfs_rbuf
  sfs_rbuf-Io = elim (rblock_cases b s n l h) [
    | inl (es, run, k) ↦ rw (◌>>◌, first, last, ◌>>=◌, run) (Io.done es k)
    | inr (es, e, run, k) ↦ rw (◌>>◌, first, last, ◌>>=◌, run) (Io.failed es e k)
  ]

  pub sfs_wbuf-Io :
      (v : ℕ) → Io s tt (λ t. wrote b (update (s.disk b) index v) t) (sfs_wbuf v b index s)
  unfolding sfs_wbuf
  sfs_wbuf-Io v = elim (rblock_cases b s n l h) [
    | inr (es, e, run, k) ↦ rw (◌>>◌, first, last, ◌>>=◌, run) (Io.failed es e k)
    | inl (es, run, k) ↦ elim (wblock_cases b (update (s.disk b) index v) (heard es s) n l h) [
      | inl (fs, runs, m) ↦ rw (◌>>◌, first, last, ◌>>=◌, run, runs) (Io.done fs (m ∙ k))
      | inr (fs, e, runs, m) ↦ rw (◌>>◌, first, last, ◌>>=◌, run, runs) (Io.failed fs e (sym k ∙ m))
    ]
  ]

-- Why a block cannot be had.
abbrev pub Short : Sfs → ℕ → Type 0
Short s n = (faulty s.answers ≡ true) ⊎ (s.unused_blocks ≤ n)

-- An error that leaves the invariant and every place.
pub data Fails {A : Type 0} (s : Sfs) (n : ℕ) : Result Sfs A → Type 0 where
  fails : (e : ℕ) (t : Sfs) → Wf t → Kept s t → Short s n → Fails s n (err e t)

-- What comes after a call that fails does not run.
pub then_Fails :
    {A B : Type 0} (s : Sfs) (n : ℕ) (f : A → Sfs → Result Sfs B) {r : Result Sfs A}
    → Fails s n r
    → Fails s n (elim r [ ok a t ↦ f a t | err e t ↦ err e t | panic ↦ panic ])
then_Fails s n f (Fails.fails e t w q k) = Fails.fails e t w q k
