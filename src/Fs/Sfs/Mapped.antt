-- ===== src/Fs/Sfs/Mapped.antt =====
-- The state after a block has been found or made by `sfs_bmap_get_nolock` of
-- lab8/kern/fs/sfs/sfs_inode.c.
use nku_os.Base.{
  ℕ, ◌+◌, ◌≤◌, ◌<◌, ◌≡◌, ◌≢◌, ◌⊎◌, refl, sym, ap, subst, ◌∙◌, Bool, true, false, ◌==◌,
  if◌then◌else◌, List, update, update_self, update_ne, Bool-cases, inl, inr, arith,
}
use nku_os.Base.Result.{ok, ◌>>=◌, ◌>>◌, return, >>-ok}
use nku_os.Fs.Sfs.{Sfs, ndirect, blk_nentry, assert_inuse}
use nku_os.Fs.Sfs.Bmap.{checked}
use nku_os.Fs.Sfs.Wf.{Wf, place_of, entry_place}
use nku_os.Fs.Sfs.Alloc.{faulty, heard, sfs_block_inuse_lem}
use nku_os.Fs.Sfs.Steps.{Same, Kept, Wf-heard, cleared, Wf-cleared, LooseIn-cleared, cleared-Same}
use nku_os.Fs.Sfs.Entry.{with_entry}
use nku_os.Fs.Sfs.Places.{
  Puts, direct_set, direct_set-Puts, Wf-direct_set, indirect_set, indirect_set-Puts, word_set,
  word_set-Puts, Wf-word_set,
}

-- Where the block comes from: it had the place before, and nothing was to be made; or it was free
-- and is full of zeros now.
abbrev pub Origin : Sfs → ℕ → Bool → ℕ → Sfs → Type 0
Origin s i create p t =
    ((place_of s i ≡ p) × ((0 < p) ⊎ (create ≡ false)))
    ⊎ ((create ≡ true) × (place_of s i ≡ 0) × (s.freemap.map p ≡ true) × ((k : ℕ) → t.disk p k ≡ 0))

-- The place has the block `p`, and the rest of the file is as before, its contents included.
pub record Mapped (s : Sfs) (i : ℕ) (create : Bool) (p : ℕ) (t : Sfs) : Type 0 where
  pub wf : Wf t
  pub value : place_of t i ≡ p
  pub others : (j : ℕ) → j ≢ i → j < entry_place → place_of t j ≡ place_of s j
  pub contents :
      (j k : ℕ)
      → j < entry_place
      → 0 < place_of s j
      → t.disk (place_of s j) k ≡ s.disk (place_of s j) k
  pub length : t.nblocks ≡ s.nblocks
  pub bytes : t.size ≡ s.size
  pub answered : faulty t.answers ≡ faulty s.answers
  pub origin : Origin s i create p t

-- The call fails because the device does, or because it was to make a block and at most one is free.
abbrev pub Unmapped : Sfs → ℕ → Sfs → Type 0
Unmapped s i t =
    Wf t × Kept s t × ((faulty s.answers ≡ true) ⊎ ((place_of s i ≡ 0) × (s.unused_blocks ≤ 1)))

if_not : {A : Type 0} (b : Bool) (x y : A) → b ≡ false → (if b then x else y) ≡ y
if_not b x y e = rw e refl

pub assert_inuse_lem :
    (t : Sfs) (i p : ℕ) → Wf t → place_of t i ≡ p → 0 < p → assert_inuse p t ≡ ok tt t
unfolding assert_inuse
assert_inuse_lem t i p w e l =
    let m : 0 < place_of t i = omega (arith, e, l) in
    rw
      (
        ◌>>=◌,
        sfs_block_inuse_lem p t l (omega (arith, e, w.owns.in_range i m)) w.space.covers,
        sym (ap t.freemap.map e) ∙ w.owns.in_use i m,
      )
      refl

pub checked_lem : (t : Sfs) (i p : ℕ) → Wf t → place_of t i ≡ p → checked p t ≡ ok p t
unfolding checked
checked_lem t i p w e = elim (Bool-cases (p == 0)) [
  | inl q ↦ rw q refl
  | inr q ↦
      ap (λ f. f t) (if_not (p == 0) (return p) (assert_inuse p >> return p) q)
      ∙ >>-ok (assert_inuse p) (return p) (assert_inuse_lem t i p w e (ground (arith, q))) refl
]

pub value-Puts : (i p : ℕ) (z t : Sfs) → Puts i p z t → place_of t i ≡ p
value-Puts i p z t e = e i ∙ update_self (place_of z) i p

others-Puts :
    (i p : ℕ) (s z t : Sfs)
    → Same s z
    → Puts i p z t
    → (j : ℕ) → j ≢ i
    → place_of t j ≡ place_of s j
others-Puts i p s z t q e j n = e j ∙ update_ne (place_of z) p (λ k. n (sym k)) ∙ q j

module _ (s : Sfs) (w : Wf s) where
  -- A free block has no place.
  no_place : (p j : ℕ) → s.freemap.map p ≡ true → 0 < place_of s j → p ≢ place_of s j
  no_place p j k l e = ground (arith, k, ap s.freemap.map e, w.owns.in_use j l)

  pub Mapped-direct :
      (i p : ℕ) (es : List ℕ)
      → i < ndirect
      → s.direct i ≡ 0
      → s.freemap.map p ≡ true
      → faulty es ≡ faulty s.answers
      → Mapped s i true p (direct_set i p (cleared p es s))
  Mapped-direct i p es h e k f =
      let z = cleared p es s in
      let puts = direct_set-Puts z i p h in
      record {
        wf = Wf-direct_set z i p h (Wf-cleared s w p es k) (LooseIn-cleared s w p es k);
        value = value-Puts i p z (direct_set i p z) puts;
        others = λ j n l. others-Puts i p s z (direct_set i p z) (cleared-Same s w p es k) puts j n;
        contents = λ j b l m. ap (λ f. f b) (update_ne s.disk (λ a. 0) (no_place p j k m));
        length = refl;
        bytes = refl;
        answered = f;
        origin =
            inr (refl, ground (arith, e, h), k, λ b. ap (λ f. f b) (update_self s.disk p (λ a. 0)));
      }

  pub Mapped-word :
      (index p : ℕ) (es : List ℕ)
      → index < blk_nentry
      → 0 < s.indirect
      → s.disk s.indirect index ≡ 0
      → s.freemap.map p ≡ true
      → faulty es ≡ faulty s.answers
      → Mapped s (index + ndirect) true p (with_entry p s.indirect index es s)
  Mapped-word index p es h l e k f =
      let z = cleared p es s in
      let t = word_set index p z in
      let puts = word_set-Puts z index p l h in
      record {
        wf = Wf-word_set z index p l h (Wf-cleared s w p es k) (LooseIn-cleared s w p es k);
        value = value-Puts (index + ndirect) p z t puts;
        others = λ j n m. others-Puts (index + ndirect) p s z t (cleared-Same s w p es k) puts j n;
        contents = λ j b m n.
            ap (λ f. f b)
              (update_ne z.disk (update (z.disk s.indirect) index p) (no_entry j m n)
                ∙ update_ne s.disk (λ a. 0) (no_place p j k n));
        length = refl;
        bytes = refl;
        answered = f;
        origin = inr (
          refl,
          ground (arith, e, h, l),
          k,
          λ b.
              ap (λ f. f b)
                (update_ne z.disk (update (z.disk s.indirect) index p)
                    (λ q. no_place p entry_place k l (sym q))
                  ∙ update_self s.disk p (λ a. 0)),
        );
      }
    where
      no_entry : (j : ℕ) → j < entry_place → 0 < place_of s j → s.indirect ≢ place_of s j
      no_entry j m n q = omega (arith, m, w.owns.apart j entry_place (sym q) n)

  -- Nothing is made.
  pub Mapped-kept :
      (i : ℕ) (create : Bool) (es : List ℕ)
      → (0 < place_of s i) ⊎ (create ≡ false)
      → faulty es ≡ faulty s.answers
      → Mapped s i create (place_of s i) (heard es s)
  Mapped-kept i create es k f = record {
    wf = Wf-heard s es w;
    value = refl;
    others = λ j n l. refl;
    contents = λ j b l m. refl;
    length = refl;
    bytes = refl;
    answered = f;
    origin = inl (refl, k);
  }

-- The entry block is new too.
pub Mapped-after :
    (s : Sfs) (w : Wf s) (q i p : ℕ) (es : List ℕ) (t : Sfs)
    → s.indirect ≡ 0
    → s.freemap.map q ≡ true
    → i < entry_place
    → Mapped (indirect_set q (cleared q es s)) i true p t
    → 0 < p
    → place_of s i ≡ 0
    → faulty es ≡ faulty s.answers
    → Mapped s i true p t
Mapped-after s w q i p es t e k h m l none f = record {
  wf = m.wf;
  value = m.value;
  others = λ j n a. m.others j n a ∙ early j a;
  contents = λ j b a c.
      subst (λ x. t.disk x b ≡ (cleared q es s).disk x b) (early j a)
        (m.contents j b a (omega (arith, c, early j a)))
      ∙ ap (λ f. f b) (update_ne s.disk (λ n. 0) (no_place s w q j k c));
  length = m.length;
  bytes = m.bytes;
  answered = m.answered ∙ f;
  origin = elim m.origin [
    | inl (a, b) ↦ absurd (omega (arith, a, l, none, early i h))
    | inr (a, b, c, d) ↦ inr (refl, none, ground (arith, c), d)
  ];
}
  where
    early : (j : ℕ) → j < entry_place → place_of (indirect_set q (cleared q es s)) j ≡ place_of s j
    early j a =
        others-Puts entry_place q s (cleared q es s) (indirect_set q (cleared q es s))
          (cleared-Same s w q es k)
          (indirect_set-Puts (cleared q es s) q e
            (λ b. ap (λ f. f b) (update_self s.disk q (λ n. 0))))
          j (λ n. omega (arith, n, a))
