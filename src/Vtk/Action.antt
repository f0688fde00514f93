-- ===== src/Vtk/Action.antt =====
-- A method that may throw and changes a state: a stream, or that of a parser.
pub mod Keeps
use cae_openusd_plugins.Prelude.{ℕ, zero, suc, Bool, true, false}
use cae_openusd_plugins.Prelude.Result.{Result, ok, err}
use cae_openusd_plugins.Vtk.Error.{Error}

abbrev pub Action : Type 0 → Type 0 → Type 0
Action S A = S → Result Error (A × S)

module _ {S A : Type 0} where
  unfoldable pub pure : A → Action S A
  pure a s = ok (a, s)

  unfoldable pub throw : Error → Action S A
  throw e s = err e

  -- The value of a call that does not touch the state.
  unfoldable pub lift : Result Error A → Action S A
  lift (ok a) s = ok (a, s)
  lift (err e) s = err e

  unfoldable pub gets : (S → A) → Action S A
  gets f s = ok (f s, s)

  -- A call that changes the state and does not throw.
  unfoldable pub act : (S → A × S) → Action S A
  act f s = ok (f s)

module _ {S : Type 0} where
  unfoldable pub modify : (S → S) → Action S (Unit {0})
  modify f s = ok (tt, f s)

  -- `if (!test) throw e;`
  unfoldable pub ensure : Bool → Error → Action S (Unit {0})
  ensure true e s = ok (tt, s)
  ensure false e s = err e

infixl 5 ◌>>=◌ ◌>>◌
unfoldable pub ◌>>=◌ : {S A B : Type 0} → Action S A → (A → Action S B) → Action S B
◌>>=◌ m f s = elim (m s) [ ok (a, s') ↦ f a s' | err e ↦ err e ]

unfoldable pub ◌>>◌ : {S A B : Type 0} → Action S A → Action S B → Action S B
unfolding ◌>>=◌
m >> k = m >>= λ _. k

-- `for (i = 0; i < n; ++i) body;`
unfoldable pub repeat : {S A : Type 0} → ℕ → Action S A → Action S (Unit {0})
repeat zero body = pure tt
repeat (suc n) body = body >> repeat n body
