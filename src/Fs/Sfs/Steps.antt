-- ===== src/Fs/Sfs/Steps.antt =====
-- What the steps on blocks of lab8/kern/fs/sfs/sfs_inode.c do to the invariant and to the places.
use nku_os.Base.{ℕ, ◌≡◌, ◌≢◌, sym, ap, subst, ◌∙◌, fun_ext, true, List, update_ne, arith}
use nku_os.Fs.Sfs.{Sfs}
use nku_os.Fs.Sfs.Space.{Space-take, Space-give}
use nku_os.Fs.Sfs.Wf.{
  Wf, LooseIn, Owns, Owns-take, Owns-give, Loose-take, block_at, place_of, entry_place,
}
use nku_os.Fs.Sfs.Alloc.{heard, wrote, took, gave}

-- No place changes its block.
abbrev pub Same : Sfs → Sfs → Type 0
Same s t = (j : ℕ) → place_of t j ≡ place_of s j

-- Neither does the file change in length.
abbrev pub Kept : Sfs → Sfs → Type 0
Kept s t = Same s t × (t.nblocks ≡ s.nblocks) × (t.size ≡ s.size)

-- The state after a block has been allocated and filled with zeros.
abbrev pub cleared : ℕ → List ℕ → Sfs → Sfs
cleared p es s = wrote p (λ k. 0) (heard es (took p s))

module _ (s : Sfs) where
  pub Wf-heard : (es : List ℕ) → Wf s → Wf (heard es s)
  Wf-heard es w = record { space = w.space; owns = w.owns }

  pub Wf-took : Wf s → (p : ℕ) → s.freemap.map p ≡ true → Wf (took p s)
  Wf-took w p e = record { space = Space-take w.space p e; owns = Owns-take w.owns p e }

  pub LooseIn-took : Wf s → (p : ℕ) → s.freemap.map p ≡ true → LooseIn (took p s) p
  LooseIn-took w p e = Loose-take w.owns p e (w.space.low p e) (w.space.high p e)

  pub LooseIn-took_other : (p q : ℕ) → s.freemap.map p ≡ true → LooseIn s q → LooseIn (took p s) q
  LooseIn-took_other p q e f = record {
    nonzero = f.nonzero;
    within = f.within;
    used = ground (arith, f.used);
    placeless = f.placeless;
  }

  pub Wf-gave : (p : ℕ) → Wf s → LooseIn s p → Wf (gave p s)
  Wf-gave p w f = record {
    space = Space-give w.space p f.nonzero f.within f.used;
    owns = Owns-give p w.owns f;
  }

  pub LooseIn-gave_other : (p q : ℕ) → p ≢ q → LooseIn s q → LooseIn (gave p s) q
  LooseIn-gave_other p q n f = record {
    nonzero = f.nonzero;
    within = f.within;
    used = ground (arith, f.used, n);
    placeless = f.placeless;
  }

  -- A block that is not the entry block is no part of the block map.
  pub block_at-wrote : (p : ℕ) (words : ℕ → ℕ) → p ≢ s.indirect → Same s (wrote p words s)
  block_at-wrote p words n j =
      ap (λ d. block_at s.direct s.indirect (λ b. d) j) (update_ne s.disk words n)

  pub not_entry : (p : ℕ) → LooseIn s p → p ≢ s.indirect
  not_entry p f e = f.placeless entry_place (sym e)

  pub Wf-wrote : (p : ℕ) (words : ℕ → ℕ) → Wf s → LooseIn s p → Wf (wrote p words s)
  Wf-wrote p words w f = record {
    space = w.space;
    owns =
        subst (Owns s.blocks s.freemap.map) (sym (fun_ext (block_at-wrote p words (not_entry p f))))
          w.owns;
  }

  pub LooseIn-wrote :
      (p q : ℕ) (words : ℕ → ℕ) → LooseIn s p → LooseIn s q → LooseIn (wrote p words s) q
  LooseIn-wrote p q words f g = record {
    nonzero = g.nonzero;
    within = g.within;
    used = g.used;
    placeless = λ j e. g.placeless j (sym (block_at-wrote p words (not_entry p f) j) ∙ e);
  }

module _ (s : Sfs) (w : Wf s) (p : ℕ) (es : List ℕ) (k : s.freemap.map p ≡ true) where
  pub Wf-cleared : Wf (cleared p es s)
  Wf-cleared =
      Wf-wrote (heard es (took p s)) p (λ j. 0) (Wf-heard (took p s) es (Wf-took s w p k))
        (LooseIn-took s w p k)

  pub LooseIn-cleared : LooseIn (cleared p es s) p
  LooseIn-cleared =
      LooseIn-wrote (took p s) p p (λ j. 0) (LooseIn-took s w p k) (LooseIn-took s w p k)

  pub cleared-Same : Same s (cleared p es s)
  cleared-Same =
      block_at-wrote (took p s) p (λ j. 0) (not_entry (took p s) p (LooseIn-took s w p k))
