-- ===== src/Libs/SkewHeap/Queue.antt =====
-- A skew heap as a priority queue: insertion and removal of the root (lab8/libs/skew_heap.h).
use nku_os.Base.{
  ℕ, ◌+◌, ◌<◌, ◌≡◌, ◌⊎◌, refl, sym, ap, ◌∙◌, subst, Bool, true, false, Option, none, some, ◌==◌,
  if◌then◌else◌, inl, inr, arith,
}
use nku_os.Libs.SkewHeap.{
  Entry, set_up, spliced, skew_heap_init, skew_heap_merge, skew_heap_insert, skew_heap_remove,
}
use nku_os.Libs.SkewHeap.Tree.{
  Tree, leaf, fork, size, count, Out, Apart, Single, Ordered, merged, AllAt-map, count-merged,
  merged-Single, merged-Ordered,
}
use nku_os.Libs.SkewHeap.Shape.{Shape, Shape-update, Shape-set_up}
use nku_os.Libs.SkewHeap.Merge.{skew_heap_merge-Merged}

-- The root `o` is that of a skew heap.
pub record IsHeap (below : ℕ → ℕ → Bool) (h : ℕ → Entry) (o : Option ℕ) (t : Tree) : Type 0 where
  pub shape : Shape h none o t
  pub single : Single t
  pub ordered : Ordered below t

abbrev pub alone : ℕ → Tree
alone b = fork leaf b leaf

-- What an insertion of `b` leaves.
pub record Inserted (below : ℕ → ℕ → Bool) (b : ℕ) (t : Tree) (g : ℕ → Entry) (o : Option ℕ)
    : Type 0 where
  pub tree : Tree
  pub heap : IsHeap below g o tree
  pub entries : (k : ℕ) → count k tree ≡ count k t + (if k == b then 1 else 0)

same_parent : {p q : Option ℕ} → ((p ≡ q) ⊎ (p ≡ q)) → p ≡ q
same_parent (inl e) = e
same_parent (inr e) = e

module _ (below : ℕ → ℕ → Bool) (asym : (a b : ℕ) → below a b ≡ true → below b a ≡ false)
    (trans : (a b c : ℕ) → below b a ≡ false → below c b ≡ false → below c a ≡ false) where
  -- When the comparison is an order, `skew_heap_insert` of an entry that is not in the heap ends,
  -- with fuel for one entry more than the heap and the new one have, in a heap that has the entry
  -- and those from before, each as often as before.
  pub skew_heap_insert-Inserted :
      (f b : ℕ) (a : Option ℕ) (h : ℕ → Entry) (t : Tree)
      → IsHeap below h a t
      → Out b t
      → size t + 1 < f
      → (o : Option ℕ) × (g : ℕ → Entry) × (skew_heap_insert below f a b h ≡ some (o, g))
        × Inserted below b t g o
  unfolding skew_heap_insert skew_heap_init size count
  skew_heap_insert-Inserted f b a h t k out fuel =
      let start = skew_heap_init b h in
      let new : Shape start none (some b) (alone b) =
        (refl, ground arith, ground arith, ground arith) in
      let apart : Apart t (alone b) = AllAt-map t (λ x ne. ((λ e. ne (sym e)), tt, tt)) out in
      let (o, g, run, done) =
        skew_heap_merge-Merged below f a (some b) start none none t (alone b)
          (Shape-update h none a t b _ out k.shape) new k.single (tt, tt, tt, tt, tt) apart fuel in
      (
        o,
        g,
        run,
        record {
          tree = merged below t (alone b);
          heap = record {
            shape =
                subst (λ p. Shape g p o (merged below t (alone b))) (same_parent done.parents)
                  done.shape;
            single = merged-Single below t (alone b) k.single (tt, tt, tt, tt, tt) apart;
            ordered = merged-Ordered below asym trans t (alone b) k.ordered (tt, tt, tt, tt);
          };
          entries = λ k. omega (arith, count-merged below k t (alone b));
        },
      )

  remove_run :
      (f x : ℕ) (a o : Option ℕ) (h g : ℕ → Entry)
      → (h x).parent ≡ none
      → skew_heap_merge below f (h x).left (h x).right h ≡ some (o, g)
      → skew_heap_remove below f a x h ≡ some (o, set_up o none g)
  unfolding skew_heap_remove
  remove_run f x a o h g par run =
      ap (λ p. spliced below p x a (skew_heap_merge below f (h x).left (h x).right h)) par
      ∙ ap (spliced below none x a) run

  -- When the comparison is an order, `skew_heap_remove` of the root ends, with fuel above the number
  -- of entries, in a heap of the others. The root may be out of order.
  pub remove_root-IsHeap :
      (f x : ℕ) (a : Option ℕ) (h : ℕ → Entry) (l r : Tree)
      → Shape h none (some x) (fork l x r)
      → Single (fork l x r)
      → Ordered below l
      → Ordered below r
      → size (fork l x r) < f
      → (o : Option ℕ) × (g : ℕ → Entry) × (skew_heap_remove below f a x h ≡ some (o, g))
        × IsHeap below g o (merged below l r)
  unfolding size
  remove_root-IsHeap f x a h l r shape single ol or fuel =
      let (o, g, run, done) =
        skew_heap_merge-Merged below f (h x).left (h x).right h (some x) (some x) l r shape.2
          shape.3 single.3 single.4 single.2 (omega (arith, fuel)) in
      let all = merged-Single below l r single.3 single.4 single.2 in
      (
        o,
        set_up o none g,
        remove_run f x a o h g shape.1 run,
        record {
          shape = Shape-set_up g done.parent o none (merged below l r) all done.shape;
          single = all;
          ordered = merged-Ordered below asym trans l r ol or;
        },
      )
