-- ===== src/Fs/Bitmap.antt =====
-- The bitmap of free blocks: lab8/kern/fs/sfs/bitmap.c. The words are given by their bits: bit `i`
-- is bit `i % 32` of `map[i / 32]`, and a free block has a 1.
use nku_os.Base.{
  ℕ, zero, suc, ◌+◌, ◌-◌, ◌*◌, ◌/◌, Bool, true, false, not, ◌&&◌, ◌||◌, Option, none, some, ltb,
  ◌==◌, if◌then◌else◌, update,
}
use nku_os.Base.Result.{Result, ok, err, panic, ◌>>=◌, ◌>>◌, return, assert, modify}
pub mod Least
pub mod Fresh
pub mod Cycle

pub record Bitmap : Type 0 where
  pub nbits : ℕ
  pub nwords : ℕ
  pub map : ℕ → Bool

abbrev pub word_bits : ℕ
word_bits = 32

abbrev pub e_no_mem : ℕ
e_no_mem = 4

-- The loop that marks the bits behind the last one: `k` bits from `i` on are flipped.
unfoldable pub flip_from : ℕ → ℕ → (ℕ → Bool) → ℕ → Bool
flip_from zero i map = map
flip_from (suc k) i map = flip_from k (i + 1) (update map i (not (map i)))

-- `bitmap_create`, with the answers of the two calls of `kmalloc`. The outer `none` is a failed
-- assertion; the second half of the first one holds always, for the sum has 64 bits.
unfoldable pub bitmap_create : Bool → Bool → ℕ → Option (Option Bitmap)
unfolding flip_from
bitmap_create first second nbits =
    let nwords = (nbits + word_bits - 1) / word_bits in
    let ix = nwords - 1 in
    let overbits = nbits - ix * word_bits in
    let ones : ℕ → Bool = λ i. ltb i (nwords * word_bits) in
    if nbits == 0
    then none
    else if not (first && second)
    then some none
    else if nbits == nwords * word_bits
    then some (some (record { nbits = nbits; nwords = nwords; map = ones }))
    else if nbits / word_bits == ix && ltb 0 overbits && ltb overbits word_bits
    then (some (
        some (record {
          nbits = nbits;
          nwords = nwords;
          map = flip_from (word_bits - overbits) (ix * word_bits + overbits) ones;
        })))
    else none

-- The inner loop of `bitmap_alloc`, over `k` bits from `i` on.
unfoldable pub first_bit : ℕ → ℕ → (ℕ → Bool) → Option ℕ
first_bit zero i map = none
first_bit (suc k) i map = let rest = first_bit k (i + 1) map in if map i then some i else rest

-- `map[ix] != 0`
unfoldable pub any_bit : ℕ → ℕ → (ℕ → Bool) → Bool
any_bit zero i map = false
any_bit (suc k) i map = map i || any_bit k (i + 1) map

abbrev pub in_word : Option ℕ → Option (Option ℕ)
in_word none = none
in_word (some i) = some (some i)

-- The outer loop over `k` words from `ix` on. The outer `none` is `assert(0)`.
unfoldable pub scan_words : ℕ → ℕ → (ℕ → Bool) → Option (Option ℕ)
unfolding first_bit any_bit
scan_words zero ix map = some none
scan_words (suc k) ix map =
    let rest = scan_words k (ix + 1) map in
    if any_bit word_bits (ix * word_bits) map
    then in_word (first_bit word_bits (ix * word_bits) map)
    else rest

abbrev pub set_bit : ℕ → Bool → Bitmap → Bitmap
set_bit i v b = record b { map = update b.map i v }

abbrev pub taken : Option (Option ℕ) → Bitmap → Result Bitmap ℕ
taken none b = panic
taken (some none) b = err e_no_mem b
taken (some (some i)) b = ok i (set_bit i (not (b.map i)) b)

unfoldable pub bitmap_alloc : Bitmap → Result Bitmap ℕ
unfolding scan_words
bitmap_alloc b = taken (scan_words b.nwords 0 b.map) b

-- `bitmap_translate`: its assertion; the bit is named by the index.
unfoldable pub bitmap_translate : ℕ → Bitmap → Result Bitmap (Unit {0})
bitmap_translate index b = assert (ltb index b.nbits) b

unfoldable pub bitmap_test : ℕ → Bitmap → Result Bitmap Bool
unfolding bitmap_translate
bitmap_test index = do bitmap_translate index; λ b. ok (b.map index) b

unfoldable pub bitmap_free : ℕ → Bitmap → Result Bitmap (Unit {0})
unfolding bitmap_translate
bitmap_free index = do
  bitmap_translate index
  λ b. assert (not (b.map index)) b
  modify (set_bit index true)
