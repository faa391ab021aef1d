-- ===== src/Mm/Slob/Order.antt =====
-- The number of pages that `kmalloc` takes for a big block, and the sizes that it does not accept
-- (lab8/kern/mm/kmalloc.c).
use nku_os.Base.{
  ℕ, zero, suc, ◌+◌, ◌*◌, ◌/◌, ◌%◌, ◌^◌, ◌≤◌, ◌<◌, ◌≡◌, refl, ◌∙◌, ap, leb, false, some, arith,
}
use nku_os.Base.Result.{panic}
use nku_os.Mm.Slob.{Slob, PageSource, page_size, order_from, find_order, slob_alloc}
use nku_os.Mm.Slob.Kmalloc.{kmalloc}

order_small : (f size o : ℕ) → size ≤ page_size → order_from (suc f) size o ≡ some o
unfolding order_from
order_small f size o h = ground arith

order_halve :
    (f size o : ℕ) → page_size < size → order_from (suc f) size o ≡ order_from f (size / 2) (o + 1)
unfolding order_from
order_halve f size o h = ground arith

order_one :
    (f size o : ℕ) → 4097 ≤ size → size < 4097 * 2 → 1 < f → order_from f size o ≡ some (o + 1)
order_one zero size o h k z = absurd (omega arith)
order_one (suc zero) size o h k z = absurd (omega arith)
order_one (suc (suc f)) size o h k z =
    order_halve (suc f) size o (omega arith) ∙ order_small f (size / 2) (o + 1) (omega arith)

pow_pos : (k : ℕ) → 0 < 2 ^ k
pow_pos zero = omega arith
pow_pos (suc k) = omega (arith, pow_pos k)

-- From 4097 * 2 ^ k bytes up to twice that, and with fuel above k + 1, the loop ends with k + 1 more
-- than it started from.
pub order_from_lem :
    (k f size o : ℕ)
    → 4097 * 2 ^ k ≤ size
    → size < 4097 * 2 ^ suc k
    → suc k < f
    → order_from f size o ≡ some (o + suc k)
order_from_lem zero f size o h k z = order_one f size o (omega arith) (omega arith) z
order_from_lem (suc k) zero size o h l z = absurd (omega arith)
order_from_lem (suc k) (suc f) size o h l z =
    order_halve f size o (omega (arith, pow_pos k))
    ∙ order_from_lem k f (size / 2) (o + 1) (omega arith) (omega arith) (omega arith)
    ∙ ap some (omega arith)

-- A size below 2 ^ 31 is its own `int`.
find_order_int : (f size : ℕ) → size < 2 ^ 31 → find_order f size ≡ order_from f size 0
unfolding find_order
find_order_int f size small =
    let bits : size % 2 ^ 32 ≡ size = omega (arith, small) in
    let sign : leb (2 ^ 31) size ≡ false = ground (arith, small) in rw (bits, sign) refl

-- For a size below 2 ^ 31 that is less than 2 ^ (k + 1) bytes above 2 ^ (k + 1) whole pages, the
-- pages of the order that `find_order` gives, with fuel above k + 1, are smaller than the size.
pub find_order_short :
    (k f size : ℕ)
    → page_size * 2 ^ suc k < size
    → size < (page_size + 1) * 2 ^ suc k
    → size < 2 ^ 31
    → suc k < f
    → (o : ℕ) × (find_order f size ≡ some o) × (page_size * 2 ^ o < size)
find_order_short k f size h l small z = (
  suc k,
  find_order_int f size small
      ∙ order_from_lem k f size 0 (omega (arith, pow_pos k)) (omega arith) z
      ∙ ap some (omega arith),
  h,
)

-- The sizes from 4064 up to 4079 pass the test of `kmalloc` for a small block and then fail the
-- assertion of `slob_alloc`.
pub kmalloc_asserts :
    {P : Type 0} (src : PageSource P) (f size : ℕ) (s : Slob P)
    → 4064 ≤ size
    → size < 4080
    → kmalloc src f size s ≡ some panic
unfolding kmalloc slob_alloc
kmalloc_asserts src f size s h l = ground arith
