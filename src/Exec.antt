-- ===== src/Exec.antt =====
-- Code that reads and writes a mutable object and may raise. What was written before a raise
-- stays written.
use btptester_core.Prelude.{Option, none, some}
use btptester_core.Result.{Exc, Result, ok, err, attribute_error}

abbrev pub Exec {ℓ} : Type ℓ → Type ℓ → Type ℓ
Exec S A = S → Result A × S

module _ {ℓ} {S A : Type ℓ} where
  abbrev pub pure : A → Exec S A
  pure a s = (ok a, s)

  abbrev pub raise : Exc → Exec S A
  raise e s = (err e, s)

  abbrev pub lift : Result A → Exec S A
  lift r s = (r, s)

  abbrev pub gets : (S → A) → Exec S A
  gets f s = (ok (f s), s)

  -- an attribute of what may be None
  abbrev pub of_option : Option A → Exec S A
  of_option none s = (err attribute_error, s)
  of_option (some a) s = (ok a, s)

abbrev pub modify : {S : Type 0} → (S → S) → Exec S (Unit {0})
modify f s = (ok tt, f s)

module _ {ℓ} {S A B : Type ℓ} where
  abbrev pub resume : Result A → (A → Exec S B) → Exec S B
  resume (ok a) f s = f a s
  resume (err e) f s = (err e, s)

  infixl 5 ◌>>=◌ ◌>>◌
  abbrev pub ◌>>=◌ : Exec S A → (A → Exec S B) → Exec S B
  ◌>>=◌ m f s = let (r, t) = m s in resume r f t

  abbrev pub ◌>>◌ : Exec S A → Exec S B → Exec S B
  ◌>>◌ m n s = let (r, t) = m s in resume r (λ _. n) t
