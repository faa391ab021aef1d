-- ===== src/Fs/Sfs/Length.antt =====
-- The number of blocks of an inode and its block map: `sfs_bmap_load_nolock` and
-- `sfs_bmap_truncate_nolock` of lab8/kern/fs/sfs/sfs_inode.c.
use nku_os.Base.{
  ℕ, ◌+◌, ◌-◌, ◌%◌, ◌^◌, ◌≤◌, ◌<◌, ◌≡◌, ap, Bool, true, not, leb, ◌==◌, if◌then◌else◌, Bool-cases,
  inl, inr, arith,
}
use nku_os.Base.Result.{◌>>◌, modify, Post, assert-Post, >>=-Post, >>-Post}
use nku_os.Fs.Sfs.{Sfs}
use nku_os.Fs.Sfs.Bmap.{
  sfs_bmap_get_nolock, sfs_bmap_free_nolock, load_block, sfs_bmap_load_nolock,
  sfs_bmap_truncate_nolock,
}
use nku_os.Fs.Sfs.Wf.{Wf, place_of, entry_place}
use nku_os.Fs.Sfs.Mapped.{Mapped, Unmapped, assert_inuse_lem}
use nku_os.Fs.Sfs.Get.{sfs_bmap_get_nolock-Mapped}
use nku_os.Fs.Sfs.Free.{Freed, Unfreed, sfs_bmap_free_nolock-Freed}

-- Exactly the places below the length have a block.
abbrev pub Dense : Sfs → Type 0
Dense s = (j : ℕ) → j < entry_place → (place_of s j == 0) ≡ leb s.nblocks j

abbrev pub WellSized : Sfs → Type 0
WellSized s = Wf s × (s.nblocks ≤ entry_place) × Dense s

shorter :
    (s t : Sfs)
    → WellSized s
    → 0 < s.nblocks
    → Freed s (s.nblocks - 1) t
    → Dense (record t { nblocks = t.nblocks - 1; dirty = true })
shorter s t (w, n, d) h m j l = elim (Bool-cases (j == s.nblocks - 1)) [
  | inl e ↦ ground (arith, h, m.length, m.empty, ap (place_of t) (last e), e)
  | inr e ↦ ground (arith, h, e, m.length, d j l, m.others j (λ q. ground (arith, e, q)))
]
  where
    last : j == s.nblocks - 1 ≡ true → j ≡ s.nblocks - 1
    last e = ground (arith, e)

-- From a well formed file system whose file has blocks at exactly the places below its length, which
-- is not 0, `sfs_bmap_truncate_nolock` fails no assertion, and on success this holds again, with a
-- length less by 1 and the same size in bytes. An error comes from a failing device and changes no place.
pub sfs_bmap_truncate_nolock-WellSized :
    (s : Sfs)
    → WellSized s
    → 0 < s.nblocks
    → Post
        (λ _ t. WellSized t × (t.nblocks + 1 ≡ s.nblocks) × (t.size ≡ s.size))
        (Unfreed s)
        (sfs_bmap_truncate_nolock s)
unfolding sfs_bmap_truncate_nolock
sfs_bmap_truncate_nolock-WellSized s (w, n, d) h =
    assert-Post (not (s.nblocks == 0))
      (sfs_bmap_free_nolock (s.nblocks - 1)
        >> modify (λ x. record x { nblocks = x.nblocks - 1; dirty = true }))
      s (ground (arith, h))
      (>>-Post (λ _. Freed s (s.nblocks - 1)) (sfs_bmap_free_nolock (s.nblocks - 1))
        (modify (λ x. record x { nblocks = x.nblocks - 1; dirty = true })) {s = s}
        (sfs_bmap_free_nolock-Freed s (s.nblocks - 1) w (omega (arith, n, h)))
        (λ a t m. Post.returns (
          (
            record { space = m.wf.space; owns = m.wf.owns },
            omega (arith, m.length, n),
            shorter s t (w, n, d) h m,
          ),
          omega (arith, m.length, h),
          m.bytes,
        )))

-- The state after `load_block`, which counts a block that it has made.
abbrev loaded : Bool → Sfs → Sfs
loaded create t = record t { nblocks = if create then (t.nblocks + 1) % 2 ^ 32 else t.nblocks }

longer :
    (s t : Sfs) (i p : ℕ)
    → WellSized s
    → i ≤ s.nblocks
    → i < entry_place
    → Mapped s i (i == s.nblocks) p t
    → 0 < p
    → Dense (loaded (i == s.nblocks) t)
longer s t i p (w, n, d) h b m l j c = elim (Bool-cases (j == i)) [
  | inl e ↦ ground (arith, e, h, n, l, m.value, m.length, ap (place_of t) (the_place e))
  | inr e ↦ ground (arith, e, h, n, d j c, m.length, m.others j (λ q. ground (arith, e, q)) c)
]
  where
    the_place : j == i ≡ true → j ≡ i
    the_place e = ground (arith, e)

loaded_positive :
    (s t : Sfs) (i p : ℕ)
    → WellSized s
    → i ≤ s.nblocks
    → i < entry_place
    → Mapped s i (i == s.nblocks) p t
    → 0 < p
loaded_positive s t i p (w, n, d) h b m = elim m.origin [
  | inl (e, inl l) ↦ l
  | inl (e, inr c) ↦ ground (arith, c, e, h, d i b)
  | inr (c, e, k, z) ↦ w.space.low p k
]

-- From a well formed file system whose file has blocks at exactly the places below its length,
-- `sfs_bmap_load_nolock` of an index up to the length, and below 1036, fails no assertion. On success
-- this holds again, the value is the block of the index and not 0, and the length is greater by 1 if
-- the index was the length, and the size in bytes is as before. An error comes from the device or a lack of free blocks and changes no
-- place.
pub sfs_bmap_load_nolock-WellSized :
    (s : Sfs) (i : ℕ)
    → WellSized s
    → i ≤ s.nblocks
    → i < entry_place
    → Post
        (λ p t.
          WellSized t
          × (0 < p)
          × (place_of t i ≡ p)
          × (t.nblocks ≡ (if i == s.nblocks then s.nblocks + 1 else s.nblocks))
          × (t.size ≡ s.size))
        (Unmapped s i)
        (sfs_bmap_load_nolock i s)
unfolding sfs_bmap_load_nolock load_block
sfs_bmap_load_nolock-WellSized s i (w, n, d) h b =
    assert-Post (leb i s.nblocks) (load_block i (i == s.nblocks)) s (ground (arith, h)) (
      >>=-Post (Mapped s i (i == s.nblocks)) (sfs_bmap_get_nolock i (i == s.nblocks)) _ {s = s}
        (sfs_bmap_get_nolock-Mapped s i (i == s.nblocks) w b)
        (λ p t m.
          let l = loaded_positive s t i p (w, n, d) h b m in
          rw (◌>>◌, assert_inuse_lem t i p m.wf m.value l)
            (Post.returns (
              (
                record { space = m.wf.space; owns = m.wf.owns },
                ground (arith, m.length, n, h, b),
                longer s t i p (w, n, d) h b m l,
              ),
              l,
              m.value,
              ground (arith, m.length, n),
              m.bytes,
            ))))
