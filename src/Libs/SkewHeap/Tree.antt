-- ===== src/Libs/SkewHeap/Tree.antt =====
-- Skew heaps as trees, without links (lab8/libs/skew_heap.h).
use nku_os.Base.{
  ℕ, ◌+◌, ◌≡◌, ◌≢◌, sym, Bool, true, false, ◌==◌, if◌then◌else◌, Bool-cases, inl, inr, arith,
}

pub data Tree : Type 0 where
  leaf : Tree
  fork : Tree → ℕ → Tree → Tree

unfoldable pub size : Tree → ℕ
size leaf = 0
size (fork l x r) = size l + size r + 1

-- How often an entry occurs.
unfoldable pub count : ℕ → Tree → ℕ
count k leaf = 0
count k (fork l x r) = count k l + count k r + (if k == x then 1 else 0)

-- Every entry of the tree has the property.
abbrev pub AllAt : (ℕ → Type 0) → Tree → Type 0
AllAt P leaf = Unit {0}
AllAt P (fork l x r) = P x × AllAt P l × AllAt P r

abbrev pub Out : ℕ → Tree → Type 0
Out k t = AllAt (λ x. k ≢ x) t

abbrev pub Apart : Tree → Tree → Type 0
Apart t u = AllAt (λ x. Out x u) t

-- No entry occurs twice.
abbrev pub Single : Tree → Type 0
Single leaf = Unit {0}
Single (fork l x r) = Out x l × Out x r × Apart l r × Single l × Single r

module _ (below : ℕ → ℕ → Bool) where
  -- Nothing is below an entry over it.
  abbrev pub Ordered : Tree → Type 0
  Ordered leaf = Unit {0}
  Ordered (fork l x r) =
      AllAt (λ y. below y x ≡ false) l × AllAt (λ y. below y x ≡ false) r × Ordered l × Ordered r

  -- The merge on trees: the right spines are merged, and the children change sides on the way.
  unfoldable pub merged : Tree → Tree → Tree
  merged leaf u = u
  merged (fork l x r) leaf = fork l x r
  merged (fork l x r) (fork m y s) =
      if below x y then fork (merged r (fork m y s)) x l else fork (merged (fork l x r) s) y m

pub AllAt-map : {P Q : ℕ → Type 0} (t : Tree) → ((x : ℕ) → P x → Q x) → AllAt P t → AllAt Q t
AllAt-map leaf f h = tt
AllAt-map (fork l x r) f h = (f x h.0, AllAt-map l f h.1, AllAt-map r f h.2)

pub AllAt-both :
    {P Q R : ℕ → Type 0} (t : Tree)
    → ((x : ℕ) → P x → Q x → R x)
    → AllAt P t
    → AllAt Q t
    → AllAt R t
AllAt-both leaf f h k = tt
AllAt-both (fork l x r) f h k = (f x h.0 k.0, AllAt-both l f h.1 k.1, AllAt-both r f h.2 k.2)

pub Apart-sym : (t u : Tree) → Apart t u → Apart u t
Apart-sym t leaf h = tt
Apart-sym t (fork l y r) h = (
  AllAt-map t (λ x o e. o.0 (sym e)) h,
  Apart-sym t l (AllAt-map t (λ x o. o.1) h),
  Apart-sym t r (AllAt-map t (λ x o. o.2) h),
)

module _ (below : ℕ → ℕ → Bool) where
  -- A merge has the entries of both.
  pub merged-AllAt :
      (P : ℕ → Type 0) (t u : Tree) → AllAt P t → AllAt P u → AllAt P (merged below t u)
  unfolding merged
  merged-AllAt P leaf u h k = k
  merged-AllAt P (fork l x r) leaf h k = h
  merged-AllAt P (fork l x r) (fork m y s) h k = elim (Bool-cases (below x y)) [
    | inl e ↦ rw e (h.0, merged-AllAt P r (fork m y s) h.2 k, h.1)
    | inr e ↦ rw e (k.0, merged-AllAt P (fork l x r) s h k.2, k.1)
  ]

  pub count-merged : (k : ℕ) (t u : Tree) → count k (merged below t u) ≡ count k t + count k u
  unfolding merged count
  count-merged k leaf u = omega arith
  count-merged k (fork l x r) leaf = omega arith
  count-merged k (fork l x r) (fork m y s) = elim (Bool-cases (below x y)) [
    | inl e ↦ rw e (omega (arith, count-merged k r (fork m y s)))
    | inr e ↦ rw e (omega (arith, count-merged k (fork l x r) s))
  ]

  pub merged-Single : (t u : Tree) → Single t → Single u → Apart t u → Single (merged below t u)
  unfolding merged
  merged-Single leaf u h k a = k
  merged-Single (fork l x r) leaf h k a = h
  merged-Single (fork l x r) (fork m y s) h k a = elim (Bool-cases (below x y)) [
    | inl e ↦
        let u = fork m y s in
        rw e (
          merged-AllAt _ r u h.1 a.0,
          h.0,
          merged-AllAt _ r u (Apart-sym l r h.2) (Apart-sym l u a.1),
          merged-Single r (fork m y s) h.4 k a.2,
          h.3,
        )
    | inr e ↦
        let t = fork l x r in
        let b = Apart-sym t (fork m y s) a in
        rw e (
          merged-AllAt _ t s b.0 k.1,
          k.0,
          merged-AllAt _ t s (AllAt-map t (λ z o. o.1) a) (Apart-sym m s k.2),
          merged-Single (fork l x r) s h k.4 (AllAt-map t (λ z o. o.2) a),
          k.3,
        )
  ]

  module _ (asym : (a b : ℕ) → below a b ≡ true → below b a ≡ false)
      (trans : (a b c : ℕ) → below b a ≡ false → below c b ≡ false → below c a ≡ false) where
    pub merged-Ordered :
        (t u : Tree) → Ordered below t → Ordered below u → Ordered below (merged below t u)
    unfolding merged
    merged-Ordered leaf u h k = k
    merged-Ordered (fork l x r) leaf h k = h
    merged-Ordered (fork l x r) (fork m y s) h k = elim (Bool-cases (below x y)) [
      | inl e ↦
          let u = fork m y s in
          let over : AllAt (λ z. below z x ≡ false) u = (
            asym x y e,
            AllAt-map m (λ z b. trans x y z (asym x y e) b) k.0,
            AllAt-map s (λ z b. trans x y z (asym x y e) b) k.1,
          ) in
          rw e (merged-AllAt _ r u h.1 over, h.0, merged-Ordered r (fork m y s) h.3 k, h.2)
      | inr e ↦
          let t = fork l x r in
          let over : AllAt (λ z. below z y ≡ false) t = (
            e,
            AllAt-map l (λ z b. trans y x z e b) h.0,
            AllAt-map r (λ z b. trans y x z e b) h.1,
          ) in
          rw e (merged-AllAt _ t s over k.1, k.0, merged-Ordered (fork l x r) s h k.3, k.2)
    ]
