-- ===== src/Fs/Sfs/Wf.antt =====
-- Which block belongs to which place of the inode of lab8/kern/fs/sfs/sfs_inode.c, and that no block
-- belongs to two.
use nku_os.Base.{
  ℕ, ◌+◌, ◌-◌, ◌<◌, ◌≡◌, ◌≢◌, ◌⊎◌, sym, ap, ◌∙◌, Bool, true, false, ltb, ◌==◌, if◌then◌else◌,
  update, Bool-cases, inl, inr, arith,
}
use nku_os.Fs.Sfs.{Sfs, ndirect, blk_nentry}
use nku_os.Fs.Sfs.Space.{Space}

-- Place 1036 holds the entry block.
abbrev pub entry_place : ℕ
entry_place = ndirect + blk_nentry

-- The block of a place, or 0: the blocks of the file by their index, then the entry block.
abbrev pub block_at : (ℕ → ℕ) → ℕ → (ℕ → ℕ → ℕ) → ℕ → ℕ
block_at direct indirect disk j =
    if ltb j ndirect
    then direct j
    else if ltb j entry_place
    then (if indirect == 0 then 0 else disk indirect (j - ndirect))
    else if j == entry_place
    then indirect
    else 0

abbrev pub place_of : Sfs → ℕ → ℕ
place_of s = block_at s.direct s.indirect s.disk

-- Every place's block is in use and in range, and no block has two places.
pub record Owns (blocks : ℕ) (map : ℕ → Bool) (m : ℕ → ℕ) : Type 0 where
  pub in_range : (j : ℕ) → 0 < m j → m j < blocks
  pub in_use : (j : ℕ) → 0 < m j → map (m j) ≡ false
  pub apart : (j k : ℕ) → m j ≡ m k → 0 < m j → j ≡ k

-- A block that is in use but has no place yet.
pub record Loose (blocks : ℕ) (map : ℕ → Bool) (m : ℕ → ℕ) (p : ℕ) : Type 0 where
  pub nonzero : 0 < p
  pub within : p < blocks
  pub used : map p ≡ false
  pub placeless : (j : ℕ) → m j ≢ p

update_cases :
    (m : ℕ → ℕ) (i v j : ℕ) → ((j ≡ i) × (update m i v j ≡ v)) ⊎ ((j ≢ i) × (update m i v j ≡ m j))
update_cases m i v j = elim (Bool-cases (j == i)) [
  | inl q ↦ inl (ground (arith, q), ground (arith, q))
  | inr q ↦ inr ((λ e. ground (arith, q, e)), ground (arith, q))
]

module _ {blocks : ℕ} {map : ℕ → Bool} {m : ℕ → ℕ} where
  pub Owns-take : Owns blocks map m → (p : ℕ) → map p ≡ true → Owns blocks (update map p false) m
  Owns-take w p e = record {
    in_range = w.in_range;
    in_use = λ j h. ground (arith, w.in_use j h);
    apart = w.apart;
  }

  pub Loose-take :
      Owns blocks map m
      → (p : ℕ) → map p ≡ true
      → 0 < p
      → p < blocks
      → Loose blocks (update map p false) m p
  Loose-take w p e l h = record {
    nonzero = l;
    within = h;
    used = ground arith;
    placeless = λ j q. ground (arith, e, ap map q, w.in_use j (omega (arith, q, l)));
  }

  pub Owns-give :
      (p : ℕ) → Owns blocks map m → Loose blocks map m p → Owns blocks (update map p true) m
  Owns-give p w f = record {
    in_range = w.in_range;
    in_use = λ j h. ground (arith, w.in_use j h, f.placeless j);
    apart = w.apart;
  }

  -- A place takes a new value: 0, or a block that is in use and has no place.
  Owns-set :
      (i v : ℕ)
      → Owns blocks map m
      → (0 < v → Loose blocks map m v)
      → Owns blocks map (update m i v)
  Owns-set i v w f = record {
    in_range = λ j h. elim (update_cases m i v j) [
      | inl (q, r) ↦ omega (arith, r, (f (omega (arith, r, h))).within)
      | inr (q, r) ↦ omega (arith, r, w.in_range j (omega (arith, r, h)))
    ];
    in_use = λ j h. elim (update_cases m i v j) [
      | inl (q, r) ↦ ap map r ∙ (f (omega (arith, r, h))).used
      | inr (q, r) ↦ ap map r ∙ w.in_use j (omega (arith, r, h))
    ];
    apart = λ j k e h. elim (update_cases m i v j) [
      | inl (q, r) ↦ elim (update_cases m i v k) [
        | inl (q', r') ↦ q ∙ sym q'
        | inr (q', r') ↦ absurd ((f (omega (arith, r, h))).placeless k (sym r' ∙ sym e ∙ r))
      ]
      | inr (q, r) ↦ elim (update_cases m i v k) [
        | inl (q', r') ↦ absurd ((f (omega (arith, r', e, h))).placeless j (sym r ∙ e ∙ r'))
        | inr (q', r') ↦ w.apart j k (sym r ∙ e ∙ r') (omega (arith, r, h))
      ]
    ];
  }

  pub Owns-put :
      (i p : ℕ) → Owns blocks map m → Loose blocks map m p → Owns blocks map (update m i p)
  Owns-put i p w f = Owns-set i p w (λ h. f)

  pub Owns-drop : (i : ℕ) → Owns blocks map m → Owns blocks map (update m i 0)
  Owns-drop i w = Owns-set i 0 w (λ h. absurd (omega (arith, h)))

  pub Loose-drop : (i : ℕ) → Owns blocks map m → 0 < m i → Loose blocks map (update m i 0) (m i)
  Loose-drop i w h = record {
    nonzero = h;
    within = w.in_range i h;
    used = w.in_use i h;
    placeless = λ j e. elim (update_cases m i 0 j) [
      | inl (q, r) ↦ omega (arith, e, r, h)
      | inr (q, r) ↦ q (sym (w.apart i j (sym e ∙ r) h))
    ];
  }

-- The whole invariant.
pub record Wf (s : Sfs) : Type 0 where
  pub space : Space s.blocks s.unused_blocks s.freemap.nbits s.freemap.nwords s.freemap.map
  pub owns : Owns s.blocks s.freemap.map (place_of s)

abbrev pub LooseIn : Sfs → ℕ → Type 0
LooseIn s p = Loose s.blocks s.freemap.map (place_of s) p
