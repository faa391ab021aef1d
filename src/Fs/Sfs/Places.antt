-- ===== src/Fs/Sfs/Places.antt =====
-- A place of the inode takes a block: the three stores of `sfs_bmap_get_nolock` in
-- lab8/kern/fs/sfs/sfs_inode.c.
use nku_os.Base.{ℕ, ◌+◌, ◌-◌, ◌<◌, ◌≡◌, sym, subst, fun_ext, true, update, update_self, arith}
use nku_os.Fs.Sfs.{Sfs, ndirect, blk_nentry}
use nku_os.Fs.Sfs.Wf.{Wf, LooseIn, Owns, Owns-put, place_of, entry_place}
use nku_os.Fs.Sfs.Alloc.{wrote}

-- Place `i` has the block `p`, and all others are as before.
abbrev pub Puts : ℕ → ℕ → Sfs → Sfs → Type 0
Puts i p s t = (j : ℕ) → place_of t j ≡ update (place_of s) i p j

abbrev pub direct_set : ℕ → ℕ → Sfs → Sfs
direct_set i p s = record s { direct = update s.direct i p; dirty = true }

abbrev pub indirect_set : ℕ → Sfs → Sfs
indirect_set q s = record s { indirect = q; dirty = true }

abbrev pub word_set : ℕ → ℕ → Sfs → Sfs
word_set index p s = wrote s.indirect (update (s.disk s.indirect) index p) s

module _ (s : Sfs) where
  pub direct_set-Puts : (i p : ℕ) → i < ndirect → Puts i p s (direct_set i p s)
  direct_set-Puts i p h j = ground (arith, h)

  pub indirect_set-Puts :
      (q : ℕ)
      → s.indirect ≡ 0
      → ((k : ℕ) → s.disk q k ≡ 0)
      → Puts entry_place q s (indirect_set q s)
  indirect_set-Puts q e z j = ground (arith, e, z (j - ndirect))

  pub word_set-Puts :
      (index p : ℕ)
      → 0 < s.indirect
      → index < blk_nentry
      → Puts (index + ndirect) p s (word_set index p s)
  word_set-Puts index p l h j =
      ground (arith, l, h, update_self s.disk s.indirect (update (s.disk s.indirect) index p))

  Owns-Puts :
      (t : Sfs) (i p : ℕ)
      → Puts i p s t
      → Wf s
      → LooseIn s p
      → Owns s.blocks s.freemap.map (place_of t)
  Owns-Puts t i p e w f =
      subst (Owns s.blocks s.freemap.map) (sym (fun_ext e)) (Owns-put i p w.owns f)

  pub Wf-direct_set : (i p : ℕ) → i < ndirect → Wf s → LooseIn s p → Wf (direct_set i p s)
  Wf-direct_set i p h w f = record {
    space = w.space;
    owns = Owns-Puts (direct_set i p s) i p (direct_set-Puts i p h) w f;
  }

  pub Wf-indirect_set :
      (q : ℕ)
      → s.indirect ≡ 0
      → ((k : ℕ) → s.disk q k ≡ 0)
      → Wf s
      → LooseIn s q
      → Wf (indirect_set q s)
  Wf-indirect_set q e z w f = record {
    space = w.space;
    owns = Owns-Puts (indirect_set q s) entry_place q (indirect_set-Puts q e z) w f;
  }

  pub Wf-word_set :
      (index p : ℕ)
      → 0 < s.indirect
      → index < blk_nentry
      → Wf s
      → LooseIn s p
      → Wf (word_set index p s)
  Wf-word_set index p l h w f = record {
    space = w.space;
    owns = Owns-Puts (word_set index p s) (index + ndirect) p (word_set-Puts index p l h) w f;
  }
