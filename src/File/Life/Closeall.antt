-- ===== src/File/Life/Closeall.antt =====
-- `files_closeall` of lab8/kern/fs/fs.c frees every entry but the first two.
use nku_os.Base.{
  ℕ, zero, suc, ◌+◌, ◌≤◌, ◌<◌, ◌≡◌, inl, inr, refl, ap, subst, ◌∙◌, true, false, ltb, ◌==◌,
  if◌then◌else◌, Option, Bool-cases, arith,
}
use nku_os.Base.Result.{Result, ok, err, panic, Post, assert-Post, if_Post, >>-Post, Post-ok}
use nku_os.File.Table.{
  Status, fd_none, File, Vfs, Table, files_struct_nentry, is_opened, fd_array_close,
}
use nku_os.File.Valid.{IsValid, FileOk, StatusOk}
use nku_os.File.Life.{close_from, files_closeall}

-- What the closing of entry `i` does to entry `j`.
abbrev ClosedAt : {S : Type 0} → ℕ → ℕ → Table S → Table S → Type 0
ClosedAt i j s t =
    FileOk j (t.files j)
    × (0 < t.files_count)
    × ((t.files i).status ≡ fd_none)
    × (t.files j ≡ (if j == i then t.files i else s.files j))

-- The call returns a value, in such a state.
abbrev Returns : {S A : Type 0} → (S → Type 0) → Result S A → Type 0
Returns P (ok a s) = P s
Returns P (err e s) = ⊥
Returns P panic = ⊥

Returns-Post :
    {S A : Type 0} {Q : ℕ → S → Type 0} (r : Result S A)
    → ((j : ℕ) → Returns (Q j) r)
    → Post (λ _ t. (j : ℕ) → Q j t) (λ _. ⊥) r
Returns-Post (ok a s) h = Post.returns h
Returns-Post (err e s) h = absurd (h 0)
Returns-Post panic h = absurd (h 0)

-- The entries from 2 up to `n` are free, and the first two are as in `s`.
record Freed {S : Type 0} (n : ℕ) (s t : Table S) : Type 0 where
  valid : IsValid t
  free : (j : ℕ) → 2 ≤ j → j < n → (t.files j).status ≡ fd_none
  below : (j : ℕ) → j < 2 → t.files j ≡ s.files j

free_or_opened :
    (o : Status) (n : Option ℕ) (count : ℕ) → StatusOk o n count → is_opened o ≡ false → o ≡ fd_none
free_or_opened Status.fd_none n count h e = refl
free_or_opened Status.fd_init n count h e = absurd h
free_or_opened Status.fd_opened n count h e = absurd (ground (arith, e))
free_or_opened Status.fd_closed n count h e = absurd h

module _ {S : Type 0} (v : Vfs S) where
  close-ClosedAt :
      (i : ℕ) (s : Table S)
      → IsValid s
      → is_opened (s.files i).status ≡ true
      → (j : ℕ) → Returns (ClosedAt i j s) (fd_array_close v i s)
  unfolding fd_array_close
  close-ClosedAt i s h o j = ground (arith, h.each i, h.each j, h.shared, o)

  Closed-Freed :
      (i : ℕ) (s t u : Table S)
      → Freed i s t
      → 2 ≤ i
      → ((j : ℕ) → ClosedAt i j t u)
      → Freed (i + 1) s u
  Closed-Freed i s t u f low c = record {
    valid = record { each = λ j. (c j).0; shared = (c 0).1 };
    free = λ j l h. elim (Bool-cases (j == i)) [
      | inl e ↦ ap (λ k. (u.files k).status) (ground (arith, e)) ∙ (c i).2
      | inr e ↦
          let same : u.files j ≡ t.files j = (c j).3 ∙ rw e refl in
          ap (λ (g : File). g.status) same ∙ f.free j l (ground (arith, e, h))
    ];
    below = λ j h. let other : (j == i) ≡ false = ground arith in (c j).3 ∙ rw other (f.below j h);
  }

  still-Freed :
      (i : ℕ) (s t : Table S)
      → Freed i s t
      → is_opened (t.files i).status ≡ false
      → Freed (i + 1) s t
  still-Freed i s t f e = record {
    valid = f.valid;
    free = λ j l h. elim (Bool-cases (j == i)) [
      | inl q ↦
          ap (λ k. (t.files k).status) (ground (arith, q))
          ∙ free_or_opened (t.files i).status (t.files i).node (t.files i).open_count
              (f.valid.each i).1 e
      | inr q ↦ f.free j l (ground (arith, q))
    ];
    below = f.below;
  }

  step-Freed :
      (i : ℕ) (s t : Table S)
      → Freed i s t
      → 2 ≤ i
      → Post
          (λ _. Freed (i + 1) s)
          (λ _. ⊥)
          (if is_opened (t.files i).status then fd_array_close v i t else ok tt t)
  step-Freed i s t f low =
      if_Post (is_opened (t.files i).status)
        (λ e.
          let (a, u, runs, c) =
            Post-ok (Returns-Post (fd_array_close v i t) (close-ClosedAt i t f.valid e)) in
          rw runs (Post.returns (Closed-Freed i s t u f low c)))
        λ e. Post.returns (still-Freed i s t f e)

  close_from-Freed :
      (k i : ℕ) (s t : Table S)
      → Freed i s t
      → 2 ≤ i
      → Post (λ _. Freed (i + k) s) (λ _. ⊥) (close_from v k i t)
  unfolding close_from
  close_from-Freed zero i s t f low = Post.returns (subst (λ n. Freed n s t) (omega arith) f)
  close_from-Freed (suc k) i s t f low =
      subst (λ n. Post (λ _. Freed n s) (λ _. ⊥) (close_from v (suc k) i t)) (omega arith)
        (>>-Post (λ _. Freed (i + 1) s)
          (λ x. if is_opened (x.files i).status then fd_array_close v i x else ok tt x)
          (close_from v k (i + 1)) {s = t} (step-Freed i s t f low)
          λ _ u g. close_from-Freed k (i + 1) s u g (omega arith))

-- From a well formed table `files_closeall` fails no assertion: it leaves a well formed table in
-- which every entry from 2 on is free, and stdin and stdout are as before.
pub files_closeall_lem :
    {S : Type 0} (v : Vfs S) (s : Table S)
    → IsValid s
    → (t : Table S) × (files_closeall v s ≡ ok tt t)
      × IsValid t
      × ((j : ℕ) → 2 ≤ j → j < files_struct_nentry → (t.files j).status ≡ fd_none)
      × ((j : ℕ) → j < 2 → t.files j ≡ s.files j)
unfolding files_closeall
files_closeall_lem v s h =
    let start : Freed 2 s s = record {
      valid = h;
      free = λ j low high. absurd (omega arith);
      below = λ j low. refl;
    } in
    let (_, t, runs, f) = Post-ok (
      assert-Post (ltb 0 s.files_count) _ s (ground (arith, h.shared))
        (close_from-Freed v 70 2 s s start (omega arith))) in
    (t, runs, f.valid, f.free, f.below)
