-- ===== src/Base/Result.antt =====
-- How a kernel function ends: with a value, with an error code, or in a failed `assert`. The state
-- is kept on an error, for the source changes it before it returns `-E_...`.
use Prim.Native.Nat.{ℕ}
use mathlib.Core.Path.{◌≡◌, refl}
use nku_os.Base.Tests.{if◌then◌else◌}
use mathlib.Core.Bool.{Bool, true, false}

-- `err e` is the return value `-e`; `panic` is a failed assertion, after which nothing runs.
pub data Result (S : Type 0) (A : Type 0) : Type 0 where
  ok : A → S → Result S A
  err : ℕ → S → Result S A
  panic : Result S A

infixl 5 ◌>>=◌ ◌>>◌
abbrev pub ◌>>=◌ : {S A B : Type 0} → (S → Result S A) → (A → S → Result S B) → S → Result S B
◌>>=◌ m f s = elim (m s) [ ok a t ↦ f a t | err e t ↦ err e t | panic ↦ panic ]

abbrev pub ◌>>◌ : {S A B : Type 0} → (S → Result S A) → (S → Result S B) → S → Result S B
◌>>◌ m k s = elim (m s) [ ok a t ↦ k t | err e t ↦ err e t | panic ↦ panic ]

abbrev pub return : {S A : Type 0} → A → S → Result S A
return a s = ok a s

abbrev pub fail : {S A : Type 0} → ℕ → S → Result S A
fail e s = err e s

-- `assert(b)`
abbrev pub assert : {S : Type 0} → Bool → S → Result S (Unit {0})
assert true s = ok tt s
assert false s = panic

abbrev pub modify : {S : Type 0} → (S → S) → S → Result S (Unit {0})
modify f s = ok tt (f s)

-- The call does not fail an assertion, and it leaves a state that satisfies the predicate.
abbrev pub Ends : {S A : Type 0} → (S → Type 0) → Result S A → Type 0
Ends P (ok a s) = P s
Ends P (err e s) = P s
Ends P panic = ⊥

-- What holds of the value and the state on success, and of the state on an error; a panic has no
-- postcondition.
pub data Post {S A : Type 0} (Q : A → S → Type 0) (E : S → Type 0) : Result S A → Type 0 where
  returns : {a : A} {s : S} → Q a s → Post Q E (ok a s)
  fails : {e : ℕ} {s : S} → E s → Post Q E (err e s)

module _ {S A B : Type 0} {E : S → Type 0} where
  then_Post :
      (R : A → S → Type 0) {Q : B → S → Type 0} (f : A → S → Result S B) {r : Result S A}
      → Post R E r
      → ((a : A) (s : S) → R a s → Post Q E (f a s))
      → Post Q E (elim r [ ok a t ↦ f a t | err e t ↦ err e t | panic ↦ panic ])
  then_Post R f (Post.returns {a = a} {s = s} p) k = k a s p
  then_Post R f (Post.fails p) k = Post.fails p

  -- The rule for a bind, from what its first part gives.
  pub >>=-Post :
      (R : A → S → Type 0) {Q : B → S → Type 0} (m : S → Result S A) (f : A → S → Result S B)
      {s : S}
      → Post R E (m s)
      → ((a : A) (t : S) → R a t → Post Q E (f a t))
      → Post Q E ((m >>= f) s)
  >>=-Post R m f p k = then_Post R f p k

  pub >>-Post :
      (R : A → S → Type 0) {Q : B → S → Type 0} (m : S → Result S A) (f : S → Result S B) {s : S}
      → Post R E (m s)
      → ((a : A) (t : S) → R a t → Post Q E (f t))
      → Post Q E ((m >> f) s)
  >>-Post R m f p k = then_Post R (λ _. f) p k

pub Post-Ends : {S A : Type 0} {P : S → Type 0} {r : Result S A} → Post (λ _. P) P r → Ends P r
Post-Ends (Post.returns p) = p
Post-Ends (Post.fails p) = p

pub if_Post :
    {S A : Type 0} {Q : A → S → Type 0} {E : S → Type 0} (b : Bool) {x y : Result S A}
    → (b ≡ true → Post Q E x)
    → (b ≡ false → Post Q E y)
    → Post Q E (if b then x else y)
if_Post true p q = p refl
if_Post false p q = q refl

pub assert-Post :
    {S A : Type 0} {Q : A → S → Type 0} {E : S → Type 0} (b : Bool) (k : S → Result S A) (s : S)
    → b ≡ true
    → Post Q E (k s)
    → Post Q E ((assert b >> k) s)
assert-Post b k s h p = rw h p

-- A call that returns no error ends with a value.
pub Post-ok :
    {S A : Type 0} {Q : A → S → Type 0} {r : Result S A}
    → Post Q (λ _. ⊥) r
    → (a : A) × (s : S) × (r ≡ ok a s) × Q a s
Post-ok (Post.returns {a = a} {s = s} q) = (a, s, refl, q)
Post-ok (Post.fails q) = absurd q

-- A sequence whose first part is known to succeed.
pub >>-ok :
    {S A B : Type 0} (m : S → Result S A) (f : S → Result S B) {s t : S} {a : A} {r : Result S B}
    → m s ≡ ok a t
    → f t ≡ r
    → (m >> f) s ≡ r
>>-ok m f e g = rw (e, ◌>>◌) g
