-- ===== src/Libs/SkewHeap.antt =====
-- The skew heap of lab8/libs/skew_heap.h, on entries that are named by numbers. `below a b` is
-- whether the comparison function gives -1 for them. A merge takes fuel, and `none` is out of fuel.
use nku_os.Base.{ℕ, zero, suc, Bool, true, false, Option, none, some, ◌==◌, if◌then◌else◌, update}
pub mod Tree
pub mod Shape
pub mod Merge
pub mod Queue

pub record Entry : Type 0 where
  pub parent : Option ℕ
  pub left : Option ℕ
  pub right : Option ℕ

unfoldable pub skew_heap_init : ℕ → (ℕ → Entry) → ℕ → Entry
skew_heap_init a h = update h a (record { parent = none; left = none; right = none })

-- `if (l) l->parent = p`
abbrev pub set_up : Option ℕ → Option ℕ → (ℕ → Entry) → ℕ → Entry
set_up none p h = h
set_up (some l) p h = update h l (record (h l) { parent = p })

-- The stores behind the inner call, whose value is `l`.
abbrev pub hung : ℕ → Option ℕ → Option (Option ℕ × (ℕ → Entry)) → Option (Option ℕ × (ℕ → Entry))
hung x r none = none
hung x r (some (l, h)) =
    some (some x, set_up l (some x) (update h x (record (h x) { left = l; right = r })))

module _ (below : ℕ → ℕ → Bool) where
  -- Both inner calls are named, for one of them is made.
  unfoldable pub skew_heap_merge :
      ℕ → Option ℕ → Option ℕ → (ℕ → Entry) → Option (Option ℕ × (ℕ → Entry))
  skew_heap_merge zero a b h = none
  skew_heap_merge (suc f) none b h = some (b, h)
  skew_heap_merge (suc f) (some a) none h = some (some a, h)
  skew_heap_merge (suc f) (some a) (some b) h =
      let into_a = skew_heap_merge f (h a).right (some b) h in
      let into_b = skew_heap_merge f (some a) (h b).right h in
      if below a b then hung a (h a).left into_a else hung b (h b).left into_b

  unfoldable pub skew_heap_insert : ℕ → Option ℕ → ℕ → (ℕ → Entry) → Option (Option ℕ × (ℕ → Entry))
  unfolding skew_heap_init skew_heap_merge
  skew_heap_insert f a b h = skew_heap_merge f a (some b) (skew_heap_init b h)

  -- `p->left = rep` or `p->right = rep`
  abbrev pub put_child : ℕ → ℕ → Option ℕ → (ℕ → Entry) → ℕ → Entry
  put_child p b rep h = update h p (elim (h p).left [
    | none ↦ record (h p) { right = rep }
    | some l ↦ if l == b then record (h p) { left = rep } else record (h p) { right = rep }
  ])

  -- From `p` and what the merge gives.
  abbrev pub spliced :
      Option ℕ → ℕ → Option ℕ → Option (Option ℕ × (ℕ → Entry)) → Option (Option ℕ × (ℕ → Entry))
  spliced p b a none = none
  spliced none b a (some (rep, h)) = some (rep, set_up rep none h)
  spliced (some p) b a (some (rep, h)) = some (a, put_child p b rep (set_up rep (some p) h))

  unfoldable pub skew_heap_remove : ℕ → Option ℕ → ℕ → (ℕ → Entry) → Option (Option ℕ × (ℕ → Entry))
  unfolding skew_heap_merge
  skew_heap_remove f a b h = spliced (h b).parent b a (skew_heap_merge f (h b).left (h b).right h)
