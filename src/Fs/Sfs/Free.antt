-- ===== src/Fs/Sfs/Free.antt =====
-- `sfs_bmap_free_nolock` of lab8/kern/fs/sfs/sfs_inode.c gives the block of a place back.
use nku_os.Base.{
  ℕ, ◌+◌, ◌-◌, ◌<◌, ◌≡◌, ◌≢◌, refl, sym, ap, subst, ◌∙◌, fun_ext, true, not, ◌&&◌, ltb, ◌==◌,
  if◌then◌else◌, List, update, update_ne, Bool-cases, inl, inr, arith,
}
use nku_os.Base.Result.{Result, ok, ◌>>=◌, ◌>>◌, Post, if_Post}
use nku_os.Fs.Sfs.{Sfs, ndirect, blk_nentry, sfs_rbuf, sfs_wbuf, assert_inuse, sfs_block_free}
use nku_os.Fs.Sfs.Bmap.{drop_entry, sfs_bmap_free_sub_nolock, free_direct, sfs_bmap_free_nolock}
use nku_os.Fs.Sfs.Wf.{Wf, LooseIn, Owns, Owns-drop, Loose, Loose-drop, place_of, entry_place}
use nku_os.Fs.Sfs.Alloc.{faulty, heard, wrote, gave, sfs_block_free_run, sfs_block_free_lem}
use nku_os.Fs.Sfs.Steps.{Kept, Wf-heard, Wf-gave}
use nku_os.Fs.Sfs.Words.{Io, sfs_rbuf-Io, sfs_wbuf-Io}
use nku_os.Fs.Sfs.Places.{Puts, direct_set, direct_set-Puts, word_set, word_set-Puts}
use nku_os.Fs.Sfs.Mapped.{assert_inuse_lem, value-Puts}

-- The place is empty, its block is free, and the rest of the file is as before.
pub record Freed (s : Sfs) (i : ℕ) (t : Sfs) : Type 0 where
  pub wf : Wf t
  pub length : t.nblocks ≡ s.nblocks
  pub bytes : t.size ≡ s.size
  pub empty : place_of t i ≡ 0
  pub others : (j : ℕ) → j ≢ i → place_of t j ≡ place_of s j
  pub free :
      (b : ℕ)
      → t.freemap.map b
        ≡ (if b == place_of s i && not (place_of s i == 0) then true else s.freemap.map b)
  pub contents :
      (j k : ℕ)
      → j < entry_place
      → 0 < place_of s j
      → t.disk (place_of s j) k ≡ s.disk (place_of s j) k

abbrev pub Unfreed : Sfs → Sfs → Type 0
Unfreed s t = Wf t × Kept s t × (faulty s.answers ≡ true)

module _ (s : Sfs) (w : Wf s) where
  -- There is nothing to give back.
  Freed-none : (i : ℕ) (es : List ℕ) → place_of s i ≡ 0 → Freed s i (heard es s)
  Freed-none i es e = record {
    wf = Wf-heard s es w;
    length = refl;
    bytes = refl;
    empty = e;
    others = λ j n. refl;
    free = λ b. ground (arith, e);
    contents = λ j k l m. refl;
  }

  -- A place loses its block, and then the block is given back.
  module _ (i : ℕ) (z : Sfs) (e : Puts i 0 s z) (l : 0 < place_of s i) where
    dropped-Owns : Owns s.blocks s.freemap.map (place_of z)
    dropped-Owns = subst (Owns s.blocks s.freemap.map) (sym (fun_ext e)) (Owns-drop i w.owns)

    dropped-Loose : Loose s.blocks s.freemap.map (place_of z) (place_of s i)
    dropped-Loose =
        subst (λ m. Loose s.blocks s.freemap.map m (place_of s i)) (sym (fun_ext e))
          (Loose-drop i w.owns l)

  direct_zero :
      (i : ℕ) → i < ndirect → 0 < place_of s i → Freed s i (gave (place_of s i) (direct_set i 0 s))
  direct_zero i h l =
      let z = direct_set i 0 s in
      let e = direct_set-Puts s i 0 h in
      let wz : Wf z = record { space = w.space; owns = dropped-Owns i z e l } in
      record {
        wf = Wf-gave z (place_of s i) wz (dropped-Loose i z e l);
        length = refl;
        bytes = refl;
        empty = value-Puts i 0 s z e;
        others = λ j n. e j ∙ update_ne (place_of s) 0 (λ k. n (sym k));
        free = λ b. ground (arith, l);
        contents = λ j k a b. refl;
      }

  free_direct-Post : (i : ℕ) → i < ndirect → Post (λ _. Freed s i) (Unfreed s) (free_direct i s)
  unfolding free_direct
  free_direct-Post i h = elim (Bool-cases (s.direct i == 0)) [
    | inl e ↦ rw e (Post.returns (Freed-none i s.answers (ground (arith, e, h))))
    | inr e ↦
        let l : 0 < place_of s i = ground (arith, e, h) in
        rw
          (
            e,
            ◌>>◌,
            sfs_block_free_run (s.direct i) s (omega (arith, l, at))
                (omega (arith, at, w.owns.in_range i l)) w.space.covers
                (sym (ap s.freemap.map at) ∙ w.owns.in_use i l),
          )
          (Post.returns (subst (λ b. Freed s i (gave b (direct_set i 0 s))) at (direct_zero i h l)))
  ]
    where
      at : place_of s i ≡ s.direct i
      at = ground (arith, h)

  module _ (index : ℕ) (h : index < blk_nentry) (l : 0 < s.indirect) where
    at_word : place_of s (index + ndirect) ≡ s.disk s.indirect index
    at_word = ground (arith, h, l)

    word_zero :
        (es : List ℕ)
        → 0 < place_of s (index + ndirect)
        → Wf (word_set index 0 (heard es s))
          × LooseIn (word_set index 0 (heard es s)) (place_of s (index + ndirect))
          × Freed s
              (index + ndirect)
              (gave (place_of s (index + ndirect)) (word_set index 0 (heard es s)))
    word_zero es m =
        let z = word_set index 0 (heard es s) in
        let i = index + ndirect in
        let e = word_set-Puts s index 0 l h in
        let wz : Wf z = record { space = w.space; owns = dropped-Owns i z e m } in
        (
          wz,
          dropped-Loose i z e m,
          record {
            wf = Wf-gave z (place_of s i) wz (dropped-Loose i z e m);
            length = refl;
            bytes = refl;
            empty = value-Puts i 0 s z e;
            others = λ j n. e j ∙ update_ne (place_of s) 0 (λ k. n (sym k));
            free = λ b. ground (arith, m);
            contents = λ j k a b.
                ap (λ f. f k)
                  (update_ne s.disk (update (s.disk s.indirect) index 0)
                    (λ q. omega (arith, a, w.owns.apart j entry_place (sym q) b)));
          },
        )

    give_word :
        (es : List ℕ)
        → 0 < s.disk s.indirect index
        → Freed s (index + ndirect) (gave (s.disk s.indirect index) (word_set index 0 (heard es s)))
          × (sfs_block_free (s.disk s.indirect index) (word_set index 0 (heard es s))
              ≡ ok tt (gave (s.disk s.indirect index) (word_set index 0 (heard es s))))
    give_word es m =
        let z = word_set index 0 (heard es s) in
        subst (λ p. Freed s (index + ndirect) (gave p z) × (sfs_block_free p z ≡ ok tt (gave p z)))
          at_word
          (let (a, b, c) = word_zero es (omega (arith, at_word, m)) in
            (c, sfs_block_free_lem (place_of s (index + ndirect)) z a b))

    drop_entry-Post :
        (es : List ℕ)
        → faulty es ≡ faulty s.answers
        → Post
            (λ _. Freed s (index + ndirect))
            (Unfreed s)
            (drop_entry (s.disk s.indirect index) s.indirect index (heard es s))
    unfolding drop_entry
    drop_entry-Post es f =
        if_Post (not (s.disk s.indirect index == 0))
          (λ c. go (ground (arith, c)) _ refl (
            sfs_wbuf-Io s.indirect index (heard es s) w.space.small l
              (w.owns.in_range entry_place l) h 0))
          (λ c. Post.returns (Freed-none (index + ndirect) es (ground (arith, at_word, c))))
      where
        go :
            0 < s.disk s.indirect index
            → (r : Result Sfs (Unit {0})) → sfs_wbuf 0 s.indirect index (heard es s) ≡ r
            → Io (heard es s) tt (λ t. wrote s.indirect (update (s.disk s.indirect) index 0) t) r
            → Post
                (λ _. Freed s (index + ndirect))
                (Unfreed s)
                ((sfs_wbuf 0 s.indirect index >> sfs_block_free (s.disk s.indirect index))
                  (heard es s))
        go m _ q (Io.failed fs e k) =
            rw (◌>>◌, q) (Post.fails (Wf-heard s fs w, ((λ j. refl), refl, refl), sym f ∙ k))
        go m _ q (Io.done fs k) = let (a, b) = give_word fs m in rw (◌>>◌, q, b) (Post.returns a)

    sfs_bmap_free_sub_nolock-Post :
        Post
          (λ _. Freed s (index + ndirect))
          (Unfreed s)
          (sfs_bmap_free_sub_nolock s.indirect index s)
    unfolding sfs_bmap_free_sub_nolock
    sfs_bmap_free_sub_nolock-Post =
        go _ refl (sfs_rbuf-Io s.indirect index s w.space.small l (w.owns.in_range entry_place l) h)
      where
        in_block : ltb index blk_nentry ≡ true
        in_block = ground (arith, h)

        used : assert_inuse s.indirect s ≡ ok tt s
        used = assert_inuse_lem s entry_place s.indirect w refl l

        go :
            (r : Result Sfs ℕ)
            → sfs_rbuf s.indirect index s ≡ r
            → Io s (s.disk s.indirect index) (λ t. t) r
            → Post
                (λ _. Freed s (index + ndirect))
                (Unfreed s)
                (sfs_bmap_free_sub_nolock s.indirect index s)
        go _ q (Io.failed es e k) =
            rw (◌>>◌, used, in_block, ◌>>=◌, q)
              (Post.fails (Wf-heard s es w, ((λ j. refl), refl, refl), k))
        go _ q (Io.done es k) = rw (◌>>◌, used, in_block, ◌>>=◌, q) (drop_entry-Post es k)

-- In a well formed file system, for a place of the file, `sfs_bmap_free_nolock` fails no assertion
-- and keeps the file system well formed. On success the place is empty, its block, if it had one,
-- is free and no other block changes, every other place has the block it had, and the contents of
-- the file's blocks are as before. An error comes from a failing device and changes no place.
pub sfs_bmap_free_nolock-Freed :
    (s : Sfs) (i : ℕ)
    → Wf s
    → i < ndirect + blk_nentry
    → Post (λ _. Freed s i) (Unfreed s) (sfs_bmap_free_nolock i s)
unfolding sfs_bmap_free_nolock
sfs_bmap_free_nolock-Freed s i w h =
    if_Post (ltb i ndirect) (λ q. free_direct-Post s w i (ground (arith, q)))
      (λ q.
        if_Post (ltb (i - ndirect) blk_nentry && not (s.indirect == 0))
          (λ c.
            subst
              (λ j.
                Post (λ _. Freed s j) (Unfreed s)
                  (sfs_bmap_free_sub_nolock s.indirect (i - ndirect) s))
              (ground (arith, q))
              (sfs_bmap_free_sub_nolock-Post s w (i - ndirect) (ground (arith, c))
                (ground (arith, c))))
          (λ c. Post.returns (Freed-none s w i s.answers (ground (arith, q, c, h)))))
