-- ===== src/Libs/SkewHeap/Shape.antt =====
-- The links of a skew heap as a tree (lab8/libs/skew_heap.h).
use nku_os.Base.{ℕ, ◌≡◌, ◌≢◌, refl, sym, ap, ◌∙◌, subst, Option, none, some, update, arith}
use nku_os.Libs.SkewHeap.{Entry, set_up}
use nku_os.Libs.SkewHeap.Tree.{Tree, leaf, fork, AllAt, Out, Apart, Single, AllAt-map, AllAt-both}

-- The link `o` leads to the tree, whose root has the parent `p`.
abbrev pub Shape : (ℕ → Entry) → Option ℕ → Option ℕ → Tree → Type 0
Shape h p o leaf = o ≡ none
Shape h p o (fork l x r) =
    (o ≡ some x)
    × ((h x).parent ≡ p)
    × Shape h (some x) (h x).left l
    × Shape h (some x) (h x).right r

Shape-at :
    (h : ℕ → Entry) (p : Option ℕ) {o o' : Option ℕ} (t : Tree)
    → o' ≡ o
    → Shape h p o t
    → Shape h p o' t
Shape-at h p t e s = subst (λ o. Shape h p o t) (sym e) s

-- Stores elsewhere keep a tree.
pub Shape-same :
    (h g : ℕ → Entry) (p o : Option ℕ) (t : Tree)
    → AllAt (λ x. g x ≡ h x) t
    → Shape h p o t
    → Shape g p o t
Shape-same h g p o leaf e s = s
Shape-same h g p o (fork l x r) e s = (
  s.0,
  ap (λ v. v.parent) e.0 ∙ s.1,
  Shape-at g (some x) l (ap (λ v. v.left) e.0) (Shape-same h g (some x) (h x).left l e.1 s.2),
  Shape-at g (some x) r (ap (λ v. v.right) e.0) (Shape-same h g (some x) (h x).right r e.2 s.3),
)

update_other : (h : ℕ → Entry) (k x : ℕ) (v : Entry) → k ≢ x → update h k v x ≡ h x
update_other h k x v ne = ground (arith, ne)

pub Shape-update :
    (h : ℕ → Entry) (p o : Option ℕ) (t : Tree) (k : ℕ) (v : Entry)
    → Out k t
    → Shape h p o t
    → Shape (update h k v) p o t
Shape-update h p o t k v out s =
    Shape-same h (update h k v) p o t (AllAt-map t (λ x ne. update_other h k x v ne) out) s

-- The root of a tree is all that `l->parent = p` changes.
pub set_up_other :
    (h g : ℕ → Entry) (p o q : Option ℕ) (t : Tree) (x : ℕ)
    → Shape h p o t
    → Out x t
    → set_up o q g x ≡ g x
set_up_other h g p o q leaf x s out = subst (λ o. set_up o q g x ≡ g x) (sym s) refl
set_up_other h g p o q (fork l y r) x s out =
    subst (λ o. set_up o q g x ≡ g x) (sym s.0)
      (update_other g y x (record (g y) { parent = q }) λ e. out.0 (sym e))

pub Shape-set_up :
    (h : ℕ → Entry) (p o q : Option ℕ) (t : Tree)
    → Single t
    → Shape h p o t
    → Shape (set_up o q h) q o t
Shape-set_up h p o q leaf d s = s
Shape-set_up h p o q (fork l x r) d s =
    let g = update h x (record (h x) { parent = q }) in
    let parent : (g x).parent ≡ q = ground arith in
    let left : (g x).left ≡ (h x).left = ground arith in
    let right : (g x).right ≡ (h x).right = ground arith in
    subst (λ o. Shape (set_up o q h) q o (fork l x r)) (sym s.0)
      (
        refl,
        parent,
        Shape-at g (some x) l left (Shape-update h (some x) (h x).left l x _ d.0 s.2),
        Shape-at g (some x) r right (Shape-update h (some x) (h x).right r x _ d.1 s.3),
      )

-- The links after the stores behind the inner call.
abbrev pub stored : ℕ → Option ℕ → Option ℕ → (ℕ → Entry) → ℕ → Entry
stored x l r g = set_up l (some x) (update g x (record (g x) { left = l; right = r }))

pub stored_other :
    (g : ℕ → Entry) (p o r : Option ℕ) (v : Tree) (x z : ℕ)
    → Shape g p o v
    → Out z v
    → x ≢ z
    → stored x o r g z ≡ g z
stored_other g p o r v x z s out ne =
    set_up_other g (update g x (record (g x) { left = o; right = r })) p o (some x) v z s out
    ∙ update_other g x z _ ne

-- The tree after the stores: the new left child is `v`, the new right child is the old left one.
pub stored-Shape :
    (h g : ℕ → Entry) (px p o : Option ℕ) (l v : Tree) (x : ℕ)
    → (h x).parent ≡ px
    → Shape h (some x) (h x).left l
    → Shape g p o v
    → Single v
    → Out x v
    → Out x l
    → Apart l v
    → g x ≡ h x
    → AllAt (λ z. g z ≡ h z) l
    → Shape (stored x o (h x).left g) px (some x) (fork v x l)
stored-Shape h g px p o l v x par sl sv dv outv outl apart same kept =
    let r = (h x).left in
    let mid = update g x (record (g x) { left = o; right = r }) in
    let u = stored x o r g in
    let at_x : u x ≡ mid x = set_up_other g mid p o (some x) v x sv outv in
    let mid_parent : (mid x).parent ≡ (g x).parent = ground arith in
    let mid_left : (mid x).left ≡ o = ground arith in
    let mid_right : (mid x).right ≡ r = ground arith in
    let stores : AllAt (λ z. u z ≡ g z) l =
      AllAt-both l (λ z ne out. stored_other g p o r v x z sv out ne) outl apart in
    let moved : AllAt (λ z. u z ≡ h z) l = AllAt-both l (λ z a b. a ∙ b) stores kept in
    (
      refl,
      ap (λ v. v.parent) at_x ∙ mid_parent ∙ ap (λ v. v.parent) same ∙ par,
      Shape-at u (some x) v (ap (λ v. v.left) at_x ∙ mid_left)
          (Shape-set_up mid p o (some x) v dv (Shape-update g p o v x _ outv sv)),
      Shape-at u (some x) l (ap (λ v. v.right) at_x ∙ mid_right)
          (Shape-same h u (some x) r l moved sl),
    )
