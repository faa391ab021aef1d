-- ===== src/Fs/Sfs/Get.antt =====
-- `sfs_bmap_get_nolock` of lab8/kern/fs/sfs/sfs_inode.c finds or makes the block of a place.
use nku_os.Base.{
  ℕ, ◌+◌, ◌-◌, ◌<◌, ◌≡◌, ◌⊎◌, refl, subst, Bool, true, false, ltb, ◌==◌, Bool-cases, inl, inr,
  arith,
}
use nku_os.Base.Result.{Result, ok, ◌>>=◌, Post, >>=-Post, if_Post}
use nku_os.Fs.Sfs.{Sfs, ndirect, blk_nentry, sfs_block_alloc}
use nku_os.Fs.Sfs.Bmap.{new_direct, get_direct, get_indirect, checked, sfs_bmap_get_nolock}
use nku_os.Fs.Sfs.Wf.{Wf, place_of}
use nku_os.Fs.Sfs.Alloc.{took, Allocs, sfs_block_alloc-Allocs}
use nku_os.Fs.Sfs.Steps.{Wf-heard, Wf-took}
use nku_os.Fs.Sfs.Mapped.{Mapped, Unmapped, checked_lem, Mapped-direct, Mapped-kept}
use nku_os.Fs.Sfs.Indirect.{get_indirect-Post}

module _ (s : Sfs) (w : Wf s) where
  new_direct-Post :
      (i : ℕ)
      → i < ndirect
      → s.direct i ≡ 0
      → Post (Mapped s i true) (Unmapped s i) (new_direct i s)
  unfolding new_direct
  new_direct-Post i h e = go _ refl (sfs_block_alloc-Allocs s w)
    where
      go :
          (r : Result Sfs ℕ)
          → sfs_block_alloc s ≡ r
          → Allocs s r
          → Post (Mapped s i true) (Unmapped s i) (new_direct i s)
      go _ q (Allocs.full k) =
          rw (◌>>=◌, q)
            (Post.fails
              (w, ((λ j. refl), refl, refl), inr (ground (arith, e, h), omega (arith, k))))
      go _ q (Allocs.loses p es e' k f) =
          rw (◌>>=◌, q)
            (Post.fails
              (Wf-heard (took p s) es (Wf-took s w p k), ((λ j. refl), refl, refl), inl f))
      go _ q (Allocs.gets p es k f) =
          rw (◌>>=◌, q) (Post.returns (Mapped-direct s w i p es h e k f))

  get_direct-Post :
      (i : ℕ) (create : Bool)
      → i < ndirect
      → Post (Mapped s i create) (Unmapped s i) (get_direct i create s)
  unfolding get_direct
  get_direct-Post i create h = elim (Bool-cases (s.direct i == 0)) [
    | inr q ↦ rw q (kept create (inl (ground (arith, q, h))))
    | inl q ↦ elim (Bool-cases create) [
      | inl c ↦ rw (q, c) (new_direct-Post i h (ground (arith, q)))
      | inr c ↦ rw (q, c) (kept false (inr refl))
    ]
  ]
    where
      kept :
          (b : Bool)
          → (0 < place_of s i) ⊎ (b ≡ false)
          → Post (Mapped s i b) (Unmapped s i) (ok (s.direct i) s)
      kept b k =
          Post.returns (
            subst (λ p. Mapped s i b p s) (ground (arith, h))
              (Mapped-kept s w i b s.answers k refl))

checked-Post :
    (s : Sfs) (i : ℕ) (create : Bool) (m : Sfs → Result Sfs ℕ)
    → Post (Mapped s i create) (Unmapped s i) (m s)
    → Post (Mapped s i create) (Unmapped s i) ((m >>= checked) s)
checked-Post s i create m p =
    >>=-Post (Mapped s i create) m checked p
      (λ a t k. rw (checked_lem t i a k.wf k.value) (Post.returns k))

-- In a well formed file system, for a place of the file, `sfs_bmap_get_nolock` fails no assertion
-- and keeps the file system well formed. On success the value is the block of the place afterwards;
-- every other place of the file has the block it had, and the contents of all blocks of the file
-- are as before. The block had the place before, or, if the call may make one and there was none,
-- it was free and is full of zeros; it is 0 only if the call makes none. An error changes no place
-- and comes only from a failing device or, for a place without a block, from at most one free block.
pub sfs_bmap_get_nolock-Mapped :
    (s : Sfs) (i : ℕ) (create : Bool)
    → Wf s
    → i < ndirect + blk_nentry
    → Post (Mapped s i create) (Unmapped s i) (sfs_bmap_get_nolock i create s)
unfolding sfs_bmap_get_nolock
sfs_bmap_get_nolock-Mapped s i create w h =
    if_Post (ltb i ndirect)
      (λ q.
        checked-Post s i create (get_direct i create)
          (get_direct-Post s w i create (ground (arith, q))))
      (λ q.
        if_Post (ltb (i - ndirect) blk_nentry)
          (λ b. checked-Post s i create (get_indirect (i - ndirect) create) (
            subst
              (λ j. Post (Mapped s j create) (Unmapped s j) (get_indirect (i - ndirect) create s))
              (back q) (get_indirect-Post s w (i - ndirect) (ground (arith, b)) create)))
          (λ b. absurd (ground (arith, q, b, h))))
  where
    back : ltb i ndirect ≡ false → i - ndirect + ndirect ≡ i
    back q = ground (arith, q)
