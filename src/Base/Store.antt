-- ===== src/Base/Store.antt =====
-- Memory seen as a function from addresses (or indices) to cells, and one write to it.
use Prim.Native.Nat.{ℕ, compare, Ordering}
use mathlib.Core.Path.{◌≡◌}
use mathlib.Core.Logic.{◌≢◌}
use native.Mathlib.Omega.{arith}

module _ {ℓ} {A : Type ℓ} where
  -- `m[k] = v`
  abbrev pub update : (ℕ → A) → ℕ → A → ℕ → A
  update m k v j = elim (compare k j) [ Ordering.eq ↦ v | _ ↦ m j ]

  pub update_self : (m : ℕ → A) (k : ℕ) (v : A) → update m k v k ≡ v
  update_self m k v = ground arith

  pub update_ne : (m : ℕ → A) {k j : ℕ} (v : A) → k ≢ j → update m k v j ≡ m j
  update_ne m v h = ground arith
