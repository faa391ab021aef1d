-- ===== src/Fs/Sfs/Indirect.antt =====
-- A block of the file behind the direct ones: `sfs_bmap_get_sub_nolock` of
-- lab8/kern/fs/sfs/sfs_inode.c and what its caller does then.
use nku_os.Base.{
  ℕ, ◌+◌, ◌<◌, ◌≡◌, ◌⊎◌, refl, sym, ap, subst, ◌∙◌, Bool, true, false, ltb, ◌==◌, List, update_self,
  Bool-cases, inl, inr, arith,
}
use nku_os.Base.Result.{Result, ok, ◌>>=◌, ◌>>◌, return, Post, >>=-Post}
use nku_os.Fs.Sfs.{Sfs, ndirect, blk_nentry, sfs_rbuf, sfs_block_alloc}
use nku_os.Fs.Sfs.Bmap.{new_entry, read_entry, sfs_bmap_get_sub_nolock, keep_indirect, get_indirect}
use nku_os.Fs.Sfs.Wf.{Wf, place_of, entry_place}
use nku_os.Fs.Sfs.Alloc.{faulty, heard, took, Allocs, sfs_block_alloc-Allocs}
use nku_os.Fs.Sfs.Steps.{Wf-heard, Wf-took, cleared, Wf-cleared, LooseIn-cleared, cleared-Same}
use nku_os.Fs.Sfs.Words.{Io, Fails, sfs_rbuf-Io}
use nku_os.Fs.Sfs.Entry.{with_entry, Enters, new_entry-Enters}
use nku_os.Fs.Sfs.Places.{indirect_set, Wf-indirect_set}
use nku_os.Fs.Sfs.Mapped.{Mapped, Unmapped, Mapped-word, Mapped-after, Mapped-kept}

-- The call of `sfs_bmap_get_sub_nolock` leaves what `get_indirect` finishes.
abbrev Done : Sfs → ℕ → Bool → ℕ × ℕ → Sfs → Type 0
Done s index create (p, x) t =
    (u : Sfs) × ((keep_indirect x >> return p) t ≡ ok p u) × Mapped s (index + ndirect) create p u

abbrev DonePost : Sfs → ℕ → Bool → Result Sfs (ℕ × ℕ) → Type 0
DonePost s index create = Post (Done s index create) (Unmapped s (index + ndirect))

itself : (n : ℕ) → n == n ≡ true
itself n = ground arith

keep_indirect_lem : (t : Sfs) (p : ℕ) → (keep_indirect t.indirect >> return p) t ≡ ok p t
keep_indirect_lem t p = rw (◌>>◌, itself t.indirect) refl

module _ (s : Sfs) (w : Wf s) (index : ℕ) (h : index < blk_nentry) where
  -- The entry block is there, and the entry is 0.
  old_entry :
      (es : List ℕ) {r : Result Sfs (ℕ × ℕ)}
      → 0 < s.indirect
      → s.disk s.indirect index ≡ 0
      → faulty es ≡ faulty s.answers
      → Enters (heard es s) s.indirect index r
      → DonePost s index true r
  old_entry es l e f (Enters.enters p fs k m) = Post.returns (
    with_entry p s.indirect index fs s,
    keep_indirect_lem (with_entry p s.indirect index fs s) p,
    Mapped-word s w index p fs h l e k (m ∙ f),
  )
  old_entry es l e f (Enters.quits (Fails.fails e' t a q k)) = Post.fails (
    a,
    q,
    elim k [ inl m ↦ inl (sym f ∙ m) | inr m ↦ inr (ground (arith, e, h, l), omega (arith, m)) ],
  )

  -- The entry block is new.
  new_entry_block :
      (q : ℕ) (es : List ℕ) {r : Result Sfs (ℕ × ℕ)}
      → s.indirect ≡ 0
      → s.freemap.map q ≡ true
      → faulty es ≡ faulty s.answers
      → Enters (cleared q es s) q index r
      → DonePost s index true r
  new_entry_block q es e k f (Enters.enters p fs m n) =
      let s1 = indirect_set q (cleared q es s) in
      let w1 =
        Wf-indirect_set (cleared q es s) q e (zeros q es) (Wf-cleared s w q es k)
          (LooseIn-cleared s w q es k) in
      let t = with_entry p q index fs s1 in
      let l = w.space.low q k in
      Post.returns (
        t,
        rw (◌>>◌, is_new q e l, is_zero e) refl,
        Mapped-after s w q (index + ndirect) p es t e k (omega (arith, h))
            (Mapped-word s1 w1 index p fs h l (zeros q es index) m n) (w1.space.low p m)
            (ground (arith, e, h)) f,
      )
    where
      zeros : (q : ℕ) (es : List ℕ) (b : ℕ) → (cleared q es s).disk q b ≡ 0
      zeros q es b = ap (λ f. f b) (update_self s.disk q (λ n. 0))

      is_new : (q : ℕ) → s.indirect ≡ 0 → 0 < q → q == s.indirect ≡ false
      is_new q e l = ground (arith, e, l)

      is_zero : s.indirect ≡ 0 → s.indirect == 0 ≡ true
      is_zero e = ground (arith, e)
  new_entry_block q es e k f (Enters.quits (Fails.fails e' t a (same, m, n) b)) = Post.fails (
    a,
    ((λ j. same j ∙ cleared-Same s w q es k j), m, n),
    elim b [ inl c ↦ inl (sym f ∙ c) | inr m ↦ inr (ground (arith, e, h), omega (arith, m)) ],
  )

  -- The entry that is read is that of the place.
  word_place : 0 < s.indirect → place_of s (index + ndirect) ≡ s.disk s.indirect index
  word_place l = ground (arith, l, h)

  -- Nothing is made.
  found_entry :
      (es : List ℕ) (create : Bool)
      → 0 < s.indirect
      → (0 < s.disk s.indirect index) ⊎ (create ≡ false)
      → faulty es ≡ faulty s.answers
      → DonePost s index create (ok (s.disk s.indirect index, s.indirect) (heard es s))
  found_entry es create l k f = Post.returns (
    heard es s,
    keep_indirect_lem (heard es s) (s.disk s.indirect index),
    subst (λ p. Mapped s (index + ndirect) create p (heard es s)) (word_place l)
        (Mapped-kept s w (index + ndirect) create es
          (subst (λ p. (0 < p) ⊎ (create ≡ false)) (sym (word_place l)) k) f),
  )

  read_entry-Post :
      (create : Bool)
      → 0 < s.indirect
      → DonePost s index create (read_entry s.indirect index create s)
  unfolding read_entry
  read_entry-Post create l =
      go _ refl (sfs_rbuf-Io s.indirect index s w.space.small l (w.owns.in_range entry_place l) h)
    where
      go :
          (r : Result Sfs ℕ)
          → sfs_rbuf s.indirect index s ≡ r
          → Io s (s.disk s.indirect index) (λ t. t) r
          → DonePost s index create (read_entry s.indirect index create s)
      go _ q (Io.failed es e k) =
          rw (◌>>=◌, q) (Post.fails (Wf-heard s es w, ((λ j. refl), refl, refl), inl k))
      go _ q (Io.done es k) = elim (Bool-cases (s.disk s.indirect index == 0)) [
        | inr e ↦ rw (◌>>=◌, q, e) (found_entry es create l (inl (ground (arith, e))) k)
        | inl e ↦ elim (Bool-cases create) [
          | inr c ↦ rw (◌>>=◌, q, e, c) (found_entry es false l (inr refl) k)
          | inl c ↦
              rw (◌>>=◌, q, e, c)
                (old_entry es l (ground (arith, e)) k (
                  new_entry-Enters s.indirect s.indirect index (heard es s) (Wf-heard s es w) l
                    (w.owns.in_range entry_place l) (w.owns.in_use entry_place l) (inl refl) h))
        ]
      ]

  -- There is no entry block, and none is made.
  no_entry-Post : s.indirect ≡ 0 → DonePost s index false (ok (0, 0) s)
  no_entry-Post e = Post.returns (
    s,
    rw (◌>>◌, is_none) refl,
    subst (λ p. Mapped s (index + ndirect) false p s) none
        (Mapped-kept s w (index + ndirect) false s.answers (inr refl) refl),
  )
    where
      is_none : 0 == s.indirect ≡ true
      is_none = ground (arith, e)

      none : place_of s (index + ndirect) ≡ 0
      none = ground (arith, e, h)

  -- There is none, and it is made.
  make_entry-Post :
      s.indirect ≡ 0
      → DonePost s index true ((sfs_block_alloc >>= (λ ent. new_entry 0 ent index)) s)
  make_entry-Post e = go _ refl (sfs_block_alloc-Allocs s w)
    where
      go :
          (r : Result Sfs ℕ)
          → sfs_block_alloc s ≡ r
          → Allocs s r
          → DonePost s index true ((sfs_block_alloc >>= (λ ent. new_entry 0 ent index)) s)
      go _ q (Allocs.full k) =
          rw (◌>>=◌, q)
            (Post.fails
              (w, ((λ j. refl), refl, refl), inr (ground (arith, e, h), omega (arith, k))))
      go _ q (Allocs.loses p es e' k f) =
          rw (◌>>=◌, q)
            (Post.fails
              (Wf-heard (took p s) es (Wf-took s w p k), ((λ j. refl), refl, refl), inl f))
      go _ q (Allocs.gets p es k f) =
          let own = LooseIn-cleared s w p es k in
          rw (◌>>=◌, q)
            (new_entry_block p es e k f (
              new_entry-Enters 0 p index (cleared p es s) (Wf-cleared s w p es k) own.nonzero
                own.within own.used (inr ((λ n. omega (arith, n, own.nonzero)), own)) h))

  sfs_bmap_get_sub_nolock-Post :
      (create : Bool) → DonePost s index create (sfs_bmap_get_sub_nolock s.indirect index create s)
  unfolding sfs_bmap_get_sub_nolock
  sfs_bmap_get_sub_nolock-Post create = elim (Bool-cases (s.indirect == 0)) [
    | inr e ↦ rw (◌>>◌, in_block, e) (read_entry-Post create (ground (arith, e)))
    | inl e ↦ elim (Bool-cases create) [
      | inr c ↦ rw (◌>>◌, in_block, e, c) (no_entry-Post (ground (arith, e)))
      | inl c ↦ rw (◌>>◌, in_block, e, c) (make_entry-Post (ground (arith, e)))
    ]
  ]
    where
      in_block : ltb index blk_nentry ≡ true
      in_block = ground (arith, h)

  pub get_indirect-Post :
      (create : Bool)
      → Post
          (Mapped s (index + ndirect) create)
          (Unmapped s (index + ndirect))
          (get_indirect index create s)
  unfolding get_indirect
  get_indirect-Post create =
      >>=-Post (Done s index create) (λ x. sfs_bmap_get_sub_nolock x.indirect index create x)
        (λ a. keep_indirect a.1 >> return a.0) (sfs_bmap_get_sub_nolock-Post create)
        (λ a t (u, run, m). rw run (Post.returns m))
