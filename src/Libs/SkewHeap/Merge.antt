-- ===== src/Libs/SkewHeap/Merge.antt =====
-- `skew_heap_merge` of lab8/libs/skew_heap.h on the trees that the links represent.
use nku_os.Base.{
  ℕ, zero, suc, ◌+◌, ◌<◌, ◌≡◌, ◌⊎◌, refl, sym, ap, ◌∙◌, subst, Bool, true, false, Option, none,
  some, Bool-cases, inl, inr, arith,
}
use nku_os.Libs.SkewHeap.{Entry, hung, skew_heap_merge}
use nku_os.Libs.SkewHeap.Tree.{
  Tree, leaf, fork, size, AllAt, Out, Apart, Single, merged, AllAt-both, Apart-sym, merged-AllAt,
  merged-Single,
}
use nku_os.Libs.SkewHeap.Shape.{Shape, stored, stored_other, stored-Shape}

-- What a merge into the tree `v` leaves: its root keeps the parent that it had, and only the
-- entries of the two trees change.
pub record Merged (h : ℕ → Entry) (pa pb : Option ℕ) (t u v : Tree) (o : Option ℕ) (g : ℕ → Entry)
    : Type 0 where
  pub parent : Option ℕ
  pub parents : (parent ≡ pa) ⊎ (parent ≡ pb)
  pub shape : Shape g parent o v
  pub frame : (x : ℕ) → Out x t → Out x u → g x ≡ h x

module _ (below : ℕ → ℕ → Bool) where
  merge_left :
      (f x y : ℕ) (o : Option ℕ) (h g : ℕ → Entry)
      → below x y ≡ true
      → skew_heap_merge below f (h x).right (some y) h ≡ some (o, g)
      → skew_heap_merge below (suc f) (some x) (some y) h ≡ some (some x, stored x o (h x).left g)
  unfolding skew_heap_merge
  merge_left f x y o h g e run = rw e (ap (hung x (h x).left) run)

  merge_right :
      (f x y : ℕ) (o : Option ℕ) (h g : ℕ → Entry)
      → below x y ≡ false
      → skew_heap_merge below f (some x) (h y).right h ≡ some (o, g)
      → skew_heap_merge below (suc f) (some x) (some y) h ≡ some (some y, stored y o (h y).left g)
  unfolding skew_heap_merge
  merge_right f x y o h g e run = rw e (ap (hung y (h y).left) run)

  merge_none :
      (f : ℕ) (b : Option ℕ) (h : ℕ → Entry) → skew_heap_merge below (suc f) none b h ≡ some (b, h)
  unfolding skew_heap_merge
  merge_none f b h = refl

  merge_some :
      (f x : ℕ) (h : ℕ → Entry) → skew_heap_merge below (suc f) (some x) none h ≡ some (some x, h)
  unfolding skew_heap_merge
  merge_some f x h = refl

  Ran : ℕ → Option ℕ → Option ℕ → (ℕ → Entry) → Option ℕ → Option ℕ → Tree → Tree → Type 0
  Ran f a b h pa pb t u =
      (o : Option ℕ) × (g : ℕ → Entry) × (skew_heap_merge below f a b h ≡ some (o, g))
      × Merged h pa pb t u (merged below t u) o g

  into_left :
      (f x y : ℕ) (pa pb : Option ℕ) (h : ℕ → Entry) (l r m s : Tree)
      → below x y ≡ true
      → Shape h pa (some x) (fork l x r)
      → Single (fork l x r)
      → Single (fork m y s)
      → Apart (fork l x r) (fork m y s)
      → Ran f (h x).right (some y) h (some x) pb r (fork m y s)
      → Ran (suc f) (some x) (some y) h pa pb (fork l x r) (fork m y s)
  unfolding Ran merged
  into_left f x y pa pb h l r m s e sx dt du a (o, g, run, done) =
      let u = fork m y s in
      let v = merged below r u in
      let outv : Out x v = merged-AllAt below _ r u dt.1 a.0 in
      let kept : AllAt (λ z. g z ≡ h z) l = AllAt-both l (λ z p q. done.frame z p q) dt.2 a.1 in
      let dv : Single v = merged-Single below r u dt.4 du a.2 in
      let apart : Apart l v = AllAt-both l (λ z p q. merged-AllAt below _ r u p q) dt.2 a.1 in
      let w = stored x o (h x).left g in
      let same : g x ≡ h x = done.frame x dt.1 a.0 in
      let tree : Shape w pa (some x) (fork v x l) =
        stored-Shape h g pa done.parent o l v x sx.1 sx.2 done.shape dv outv dt.0 apart same kept in
      (
        some x,
        w,
        merge_left f x y o h g e run,
        rw e (record {
          parent = pa;
          parents = inl refl;
          shape = tree;
          frame = λ z p q.
              stored_other g done.parent o (h x).left v x z done.shape
                (merged-AllAt below _ r u p.2 q) (λ k. p.0 (sym k))
              ∙ done.frame z p.2 q;
        }),
      )

  into_right :
      (f x y : ℕ) (pa pb : Option ℕ) (h : ℕ → Entry) (l r m s : Tree)
      → below x y ≡ false
      → Shape h pb (some y) (fork m y s)
      → Single (fork l x r)
      → Single (fork m y s)
      → Apart (fork m y s) (fork l x r)
      → Ran f (some x) (h y).right h pa (some y) (fork l x r) s
      → Ran (suc f) (some x) (some y) h pa pb (fork l x r) (fork m y s)
  unfolding Ran merged
  into_right f x y pa pb h l r m s e sy dt du a (o, g, run, done) =
      let t = fork l x r in
      let v = merged below t s in
      let outv : Out y v = merged-AllAt below _ t s a.0 du.1 in
      let kept : AllAt (λ z. g z ≡ h z) m = AllAt-both m (λ z p q. done.frame z p q) a.1 du.2 in
      let dv : Single v = merged-Single below t s dt du.4 (Apart-sym s t a.2) in
      let apart : Apart m v = AllAt-both m (λ z p q. merged-AllAt below _ t s p q) a.1 du.2 in
      let w = stored y o (h y).left g in
      let same : g y ≡ h y = done.frame y a.0 du.1 in
      let tree : Shape w pb (some y) (fork v y m) =
        stored-Shape h g pb done.parent o m v y sy.1 sy.2 done.shape dv outv du.0 apart same kept in
      (
        some y,
        w,
        merge_right f x y o h g e run,
        rw e (record {
          parent = pb;
          parents = inr refl;
          shape = tree;
          frame = λ z p q.
              stored_other g done.parent o (h y).left v y z done.shape
                (merged-AllAt below _ t s p q.2) (λ k. q.0 (sym k))
              ∙ done.frame z p q.2;
        }),
      )

  Ran-at :
      (f : ℕ) (a a' b b' : Option ℕ) (h : ℕ → Entry) (pa pb : Option ℕ) (t u : Tree)
      → a ≡ a'
      → b ≡ b'
      → Ran f a' b' h pa pb t u
      → Ran f a b h pa pb t u
  Ran-at f a a' b b' h pa pb t u e k r =
      subst (λ a. Ran f a b h pa pb t u) (sym e) (subst (λ b. Ran f a' b h pa pb t u) (sym k) r)

  -- With fuel above the number of entries of two trees that share none, `skew_heap_merge` ends, and
  -- the links then represent the merge of the trees.
  pub skew_heap_merge-Merged :
      (f : ℕ) (a b : Option ℕ) (h : ℕ → Entry) (pa pb : Option ℕ) (t u : Tree)
      → Shape h pa a t
      → Shape h pb b u
      → Single t
      → Single u
      → Apart t u
      → size t + size u < f
      → (o : Option ℕ) × (g : ℕ → Entry) × (skew_heap_merge below f a b h ≡ some (o, g))
        × Merged h pa pb t u (merged below t u) o g
  unfolding merged size Ran
  skew_heap_merge-Merged zero a b h pa pb t u st su dt du ap l = absurd (omega arith)
  skew_heap_merge-Merged (suc f) a b h pa pb leaf u st su dt du apart l =
      Ran-at (suc f) a none b b h pa pb leaf u st refl (
        b,
        h,
        merge_none f b h,
        record { parent = pb; parents = inr refl; shape = su; frame = λ z p q. refl },
      )
  skew_heap_merge-Merged (suc f) a b h pa pb (fork l x r) leaf st su dt du apart fuel =
      Ran-at (suc f) a (some x) b none h pa pb (fork l x r) leaf st.0 su (
        some x,
        h,
        merge_some f x h,
        record {
          parent = pa;
          parents = inl refl;
          shape = (refl, st.1, st.2, st.3);
          frame = λ z p q. refl;
        },
      )
  skew_heap_merge-Merged (suc f) a b h pa pb (fork l x r) (fork m y s) st su dt du apart fuel =
      Ran-at (suc f) a (some x) b (some y) h pa pb (fork l x r) (fork m y s) st.0 su.0
        (elim (Bool-cases (below x y)) [
          | inl e ↦
              into_left f x y pa pb h l r m s e (refl, st.1, st.2, st.3) dt du apart
                (skew_heap_merge-Merged f (h x).right (some y) h (some x) pb r (fork m y s) st.3
                  (refl, su.1, su.2, su.3) dt.4 du apart.2 (omega arith))
          | inr e ↦
              let back = Apart-sym (fork l x r) (fork m y s) apart in
              into_right f x y pa pb h l r m s e (refl, su.1, su.2, su.3) dt du back
                (skew_heap_merge-Merged f (some x) (h y).right h pa (some y) (fork l x r) s
                  (refl, st.1, st.2, st.3) su.3 dt du.4 (Apart-sym s (fork l x r) back.2)
                  (omega arith))
        ])
