-- ===== src/Action.antt =====
-- Python methods that change an object and may raise: what was changed before a raise stays changed,
-- so the state comes back beside the exception too.
use mini_postgres.Base.{Result, ok, err, Error}

abbrev pub Action {ℓ} : Type ℓ → Type ℓ → Type ℓ
Action S A = S → Result A × S

module _ {ℓ} {S A : Type ℓ} where
  abbrev pub pure : A → Action S A
  pure a s = (ok a, s)

  abbrev pub raise : Error → Action S A
  raise e s = (err e, s)

  -- a call that does not change the state
  abbrev pub lift : Result A → Action S A
  lift r s = (r, s)

module _ {ℓ} {S A B : Type ℓ} where
  abbrev pub and_then : Result A × S → (A → Action S B) → Result B × S
  and_then (ok a, s) f = f a s
  and_then (err e, s) f = (err e, s)

  infixl 5 ◌>>=◌ ◌>>◌
  abbrev pub ◌>>=◌ : Action S A → (A → Action S B) → Action S B
  ◌>>=◌ m f s = and_then (m s) f

  abbrev pub ◌>>◌ : Action S A → Action S B → Action S B
  m >> k = m >>= λ _. k
