-- ===== src/Fs/Sfs/Entry.antt =====
-- A new block in an entry block: the second half of `sfs_bmap_get_sub_nolock` in
-- lab8/kern/fs/sfs/sfs_inode.c, with its clean-up.
use nku_os.Base.{
  ℕ, ◌<◌, ◌≡◌, ◌≢◌, ◌⊎◌, refl, sym, ap, ◌∙◌, true, false, ◌==◌, List, update, inl, inr, arith,
}
use nku_os.Base.Result.{Result, ok, err, panic, ◌>>=◌, ◌>>◌}
use nku_os.Fs.Bitmap.{e_no_mem}
use nku_os.Fs.Sfs.{Sfs, blk_nentry, sfs_block_alloc, sfs_block_free}
use nku_os.Fs.Sfs.Bmap.{or_else, cleanup, new_entry}
use nku_os.Fs.Sfs.Wf.{Wf, LooseIn}
use nku_os.Fs.Sfs.Alloc.{
  faulty, heard, wrote, took, gave, Allocs, sfs_block_alloc-Allocs, sfs_block_free_lem,
}
use nku_os.Fs.Sfs.Words.{Io, Short, Fails, then_Fails, sfs_wbuf-Io}
use nku_os.Fs.Sfs.Steps.{
  Kept, Wf-heard, Wf-took, LooseIn-took, LooseIn-took_other, Wf-gave, LooseIn-gave_other,
  LooseIn-wrote, cleared, Wf-cleared, block_at-wrote, not_entry,
}

-- The entry block was there before, or this call has allocated it.
abbrev pub Mine : ℕ → ℕ → Sfs → Type 0
Mine old ent s = (ent ≡ old) ⊎ ((ent ≢ old) × LooseIn s ent)

the_same : (a b : ℕ) → a ≡ b → a == b ≡ true
the_same a b e = ground (arith, e)

not_same : (a b : ℕ) → a ≢ b → a == b ≡ false
not_same a b n = ground (arith, n)

cleanup-Fails :
    {A : Type 0} (old ent e : ℕ) (s t : Sfs) (n : ℕ)
    → Wf t
    → Kept s t
    → Short s n
    → Mine old ent t
    → Fails {A = A} s n (cleanup old ent e t)
unfolding cleanup
cleanup-Fails old ent e s t n w q k (inl m) = rw (the_same ent old m) (Fails.fails e t w q k)
cleanup-Fails old ent e s t n w q k (inr (m, f)) =
    rw (not_same ent old m, ◌>>◌, sfs_block_free_lem ent t w f)
      (Fails.fails e (gave ent t) (Wf-gave t ent w f) q k)

-- The state after a new block in an entry block.
abbrev pub with_entry : ℕ → ℕ → ℕ → List ℕ → Sfs → Sfs
with_entry p ent index es s = let z = cleared p es s in wrote ent (update (z.disk ent) index p) z

pub data Enters (s : Sfs) (ent index : ℕ) : Result Sfs (ℕ × ℕ) → Type 0 where
  enters :
      (p : ℕ) (es : List ℕ)
      → s.freemap.map p ≡ true
      → faulty es ≡ faulty s.answers
      → Enters s ent index (ok (p, ent) (with_entry p ent index es s))
  quits : {r : Result Sfs (ℕ × ℕ)} → Fails s 0 r → Enters s ent index r

module _ (old ent index : ℕ) (s : Sfs) (w : Wf s) (l : 0 < ent) (h : ent < s.blocks)
    (used : s.freemap.map ent ≡ false) (mine : Mine old ent s) (i : index < blk_nentry) where
  -- It is another block than the one allocated here.
  other : (p : ℕ) → s.freemap.map p ≡ true → p ≢ ent
  other p k e = ground (arith, k, used, ap s.freemap.map e)

  Mine-took : (p : ℕ) → s.freemap.map p ≡ true → Mine old ent (took p s)
  Mine-took p k = elim mine [ inl m ↦ inl m | inr (m, f) ↦ inr (m, LooseIn-took_other s p ent k f) ]

  -- Both blocks go back when the entry cannot be written.
  undo-Fails :
      (p e : ℕ) (t : Sfs)
      → Wf t
      → Kept s t
      → Short s 0
      → LooseIn t p
      → Mine old ent (gave p t)
      → Fails {A = Unit {0}} s 0 ((sfs_block_free p >> cleanup old ent e) t)
  undo-Fails p e t a q k f m =
      rw (◌>>◌, sfs_block_free_lem p t a f)
        (cleanup-Fails old ent e s (gave p t) 0 (Wf-gave t p a f) q k m)

  entry_Enters :
      (p : ℕ) (es : List ℕ) {r : Result Sfs (Unit {0})}
      → s.freemap.map p ≡ true
      → faulty es ≡ faulty s.answers
      → Io (cleared p es s) tt (λ t. wrote ent (update ((cleared p es s).disk ent) index p) t) r
      → Enters s ent index (elim (or_else (λ e. sfs_block_free p >> cleanup old ent e) r) [
        | ok a t ↦ ok (p, ent) t
        | err e t ↦ err e t
        | panic ↦ panic
      ])
  entry_Enters p es k f (Io.done fs m) = Enters.enters p fs k (m ∙ f)
  entry_Enters p es k f (Io.failed fs e m) =
      let t = heard fs (cleared p es s) in
      let own = LooseIn-took s w p k in
      Enters.quits (
        then_Fails s 0 _ (
          undo-Fails p e t (Wf-heard (cleared p es s) fs (Wf-cleared s w p es k))
            (block_at-wrote (took p s) p (λ j. 0) (not_entry (took p s) p own), refl, refl)
            (inl (sym f ∙ m)) (LooseIn-wrote (took p s) p p (λ j. 0) own own) (kept p own k)))
    where
      kept :
          (p : ℕ)
          → LooseIn (took p s) p
          → s.freemap.map p ≡ true
          → Mine old ent (gave p (wrote p (λ j. 0) (took p s)))
      kept p own k = elim mine [
        | inl m ↦ inl m
        | inr (m, g) ↦ inr (
          m,
          LooseIn-gave_other (wrote p (λ j. 0) (took p s)) p ent (other p k)
              (LooseIn-wrote (took p s) p ent (λ j. 0) own (LooseIn-took_other s p ent k g)),
        )
      ]

  pub new_entry-Enters : Enters s ent index (new_entry old ent index s)
  unfolding new_entry
  new_entry-Enters = go _ refl (sfs_block_alloc-Allocs s w)
    where
      go :
          (r : Result Sfs ℕ)
          → sfs_block_alloc s ≡ r
          → Allocs s r
          → Enters s ent index (new_entry old ent index s)
      go _ q (Allocs.full k) =
          rw (◌>>=◌, q)
            (Enters.quits (
              then_Fails s 0 _ (
                cleanup-Fails old ent e_no_mem s s 0 w ((λ j. refl), refl, refl)
                  (inr (omega (arith, k))) mine)))
      go _ q (Allocs.loses p es e k f) =
          let t = heard es (took p s) in
          rw (◌>>=◌, q)
            (Enters.quits (
              then_Fails s 0 _ (
                cleanup-Fails old ent e s t 0 (Wf-heard (took p s) es (Wf-took s w p k))
                  ((λ j. refl), refl, refl) (inl f) (Mine-took p k))))
      go _ q (Allocs.gets p es k f) =
          rw (◌>>=◌, q, ◌>>◌)
            (entry_Enters p es k f (sfs_wbuf-Io ent index (cleared p es s) w.space.small l h i p))
