-- ===== src/Fs/Sfs/Again.antt =====
-- A block that `sfs_bmap_get_nolock` of lab8/kern/fs/sfs/sfs_inode.c has made is found again.
use nku_os.Base.{
  ℕ, ◌+◌, ◌<◌, ◌≡◌, ◌≢◌, ◌⊎◌, ◌==◌, Bool-cases, sym, ap, subst, ◌∙◌, true, false, inl, inr, arith,
}
use nku_os.Base.Result.{Result, ok, Post, Post-ok}
use nku_os.Fs.Sfs.{Sfs, ndirect, blk_nentry}
use nku_os.Fs.Sfs.Bmap.{sfs_bmap_get_nolock}
use nku_os.Fs.Sfs.Wf.{Wf, place_of, entry_place}
use nku_os.Fs.Sfs.Alloc.{faulty}
use nku_os.Fs.Sfs.Mapped.{Mapped, Unmapped, Origin}
use nku_os.Fs.Sfs.Get.{sfs_bmap_get_nolock-Mapped}

no_error :
    {Q : ℕ → Sfs → Type 0} {r : Result Sfs ℕ} (s : Sfs) (i : ℕ)
    → Post Q (Unmapped s i) r
    → faulty s.answers ≡ false
    → (0 < place_of s i) ⊎ (1 < s.unused_blocks)
    → Post Q (λ t. ⊥) r
no_error s i (Post.returns q) f k = Post.returns q
no_error s i (Post.fails (w, e, inl m)) f k = absurd (ground (arith, m, f))
no_error s i (Post.fails (w, e, inr (z, m))) f (inl l) = absurd (omega (arith, z, l))
no_error s i (Post.fails (w, e, inr (z, m))) f (inr l) = absurd (omega (arith, l, m))

pub made_positive : (s t : Sfs) (i p : ℕ) → Wf s → Mapped s i true p t → 0 < p
made_positive s t i p w m = go m.origin
  where
    go : Origin s i true p t → 0 < p
    go (inl (e, inl l)) = l
    go (inl (e, inr c)) = absurd (ground (arith, c))
    go (inr (c, e, k, z)) = w.space.low p k

found_value : (s t : Sfs) (i p a : ℕ) → place_of s i ≡ p → Mapped s i false a t → a ≡ p
found_value s t i p a e m = go m.origin
  where
    go : Origin s i false a t → a ≡ p
    go (inl (k, l)) = sym k ∙ e
    go (inr (c, l, k, z)) = absurd (ground (arith, c))

-- In a well formed file system with two free blocks and a device that does not fail,
-- `sfs_bmap_get_nolock` with `create` succeeds for every place of the file, its block is not 0, and
-- a second call without `create` finds the same block and changes no place.
pub sfs_bmap_get_nolock-sfs_bmap_get_nolock :
    (s : Sfs) (i : ℕ)
    → Wf s
    → i < ndirect + blk_nentry
    → faulty s.answers ≡ false
    → 1 < s.unused_blocks
    → (p : ℕ) × (t : Sfs) × (u : Sfs) × (sfs_bmap_get_nolock i true s ≡ ok p t)
      × (0 < p)
      × (sfs_bmap_get_nolock i false t ≡ ok p u)
      × ((j : ℕ) → j < ndirect + blk_nentry → place_of u j ≡ place_of t j)
sfs_bmap_get_nolock-sfs_bmap_get_nolock s i w h f l =
    let (p, t, run, m) =
      Post-ok (no_error s i (sfs_bmap_get_nolock-Mapped s i true w h) f (inr l)) in
    let q = made_positive s t i p w m in
    let (a, u, runs, n) = Post-ok (
      no_error t i (sfs_bmap_get_nolock-Mapped t i false m.wf h) (m.answered ∙ f)
        (inl (omega (arith, m.value, q)))) in
    let e = found_value t u i p a m.value n in
    (
      p,
      t,
      u,
      run,
      q,
      subst (λ b. sfs_bmap_get_nolock i false t ≡ ok b u) e runs,
      same t u p m.value n.others (n.value ∙ e),
    )
  where
    same :
        (t u : Sfs) (p : ℕ)
        → place_of t i ≡ p
        → ((j : ℕ) → j ≢ i → j < entry_place → place_of u j ≡ place_of t j)
        → place_of u i ≡ p
        → (j : ℕ) → j < ndirect + blk_nentry
        → place_of u j ≡ place_of t j
    same t u p a o b j l = elim (Bool-cases (j == i)) [
      | inl e ↦
          let q : j ≡ i = ground (arith, e) in
          ap (place_of u) q ∙ b ∙ sym a ∙ ap (place_of t) (sym q)
      | inr e ↦ o j (λ k. ground (arith, e, k)) l
    ]
