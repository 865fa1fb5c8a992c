-- ===== src/Prelude/Exec.antt =====
-- Methods with `&mut self` that return `io::Result`: what was changed before an error stays changed,
-- so the state comes back beside the error too. `Ensures` states what holds after either outcome.
use fuse_scrollfs.Prelude.{refl, ◌≡◌}
use fuse_scrollfs.Prelude.Result.{ErrorKind, Result, err, ok}

abbrev pub Exec {ℓ} : Type ℓ → Type ℓ → Type ℓ
Exec S A = S → Result A × S

module _ {ℓ} {S A : Type ℓ} where
  abbrev pub pure : A → Exec S A
  pure a s = (ok a, s)

  abbrev pub lift : Result A → Exec S A
  lift r s = (r, s)

  abbrev pub gets : (S → A) → Exec S A
  gets f s = (ok (f s), s)

abbrev pub modify : {S : Type 0} → (S → S) → Exec S (Unit {0})
modify f s = (ok tt, f s)

module _ {ℓ} {S A B : Type ℓ} where
  abbrev pub continue_with : (A → Exec S B) → Result A × S → Result B × S
  continue_with f (ok a, s) = f a s
  continue_with f (err e, s) = (err e, s)

  infixl 5 ◌>>=◌
  abbrev pub ◌>>=◌ : Exec S A → (A → Exec S B) → Exec S B
  ◌>>=◌ m f s = continue_with f (m s)

infixl 5 ◌>>◌
abbrev pub ◌>>◌ : {S B : Type 0} → Exec S (Unit {0}) → Exec S B → Exec S B
m >> n = m >>= λ _. n

module _ {S A : Type 0} where
  -- `Q` after a success, `E` after an error.
  abbrev pub Ensures : (A → S → Type 0) → (S → Type 0) → Result A × S → Type 0
  Ensures Q E (ok a, s) = Q a s
  Ensures Q E (err e, s) = E s

module _ {S A B : Type 0} (Q : A → S → Type 0) (R : B → S → Type 0) (E : S → Type 0) where
  -- The rule for `?`: the rest runs after a success only.
  pub Ensures-bind :
      (r : Result A × S) (f : A → Exec S B)
      → Ensures Q E r
      → ((a : A) (s : S) → Q a s → Ensures R E (f a s))
      → Ensures R E (continue_with f r)
  Ensures-bind (ok a, s) f h k = k a s h
  Ensures-bind (err e, s) f h k = h

pub continue_with_assoc :
    {S A B C : Type 0} (f : B → Exec S C) (g : A → Exec S B) (r : Result A × S)
    → continue_with f (continue_with g r) ≡ continue_with (λ a s. continue_with f (g a s)) r
continue_with_assoc f g (ok a, s) = refl
continue_with_assoc f g (err e, s) = refl

module _ {S A : Type 0} (Q R : A → S → Type 0) (E : S → Type 0) where
  pub Ensures-mono :
      (r : Result A × S) → ((a : A) (s : S) → Q a s → R a s) → Ensures Q E r → Ensures R E r
  Ensures-mono (ok a, s) k h = k a s h
  Ensures-mono (err e, s) k h = h

module _ {S A B : Type 0} (R : B → S → Type 0) (E : S → Type 0) where
  -- The rule for a result that does not change the state.
  pub Ensures-lift :
      (r : Result A) (s : S) (f : A → Exec S B)
      → ((a : A) → r ≡ ok a → Ensures R E (f a s))
      → ((e : ErrorKind) → r ≡ err e → E s)
      → Ensures R E (continue_with f (r, s))
  Ensures-lift (ok a) s f h k = h a refl
  Ensures-lift (err e) s f h k = k e refl
