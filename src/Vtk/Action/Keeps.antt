-- ===== src/Vtk/Action/Keeps.antt =====
-- Rules for what actions keep, one for each way to build an action.
use cae_openusd_plugins.Prelude.{ℕ, zero, suc, ◌≡◌, refl, Bool, true, false, if◌then◌else◌}
use cae_openusd_plugins.Prelude.Result.{Result, ok, err}
use cae_openusd_plugins.Vtk.Error.{Error}
use cae_openusd_plugins.Vtk.Action.{
  Action, pure, throw, lift, gets, act, modify, ensure, ◌>>=◌, ◌>>◌, repeat,
}

-- What a call that returns may leave, and what one that throws may throw.
pub data Leaves {S A : Type 0} (P : S → Type 0) (Q : A → Type 0) (E : Error → Type 0)
    : Result Error (A × S) → Type 0 where
  returns : {a : A} {s : S} → Q a → P s → Leaves P Q E (ok (a, s))
  throws : {e : Error} → E e → Leaves P Q E (err e)

-- `m` keeps `P`; the value that it returns has `Q`, and an exception has `E`.
pub record Keeps {S A : Type 0} (P : S → Type 0) (E : Error → Type 0) (Q : A → Type 0)
    (m : Action S A) : Type 0 where
  pub at : (s : S) → P s → Leaves P Q E (m s)

-- A value of which nothing is said.
abbrev pub Any : {A : Type 0} → A → Type 0
Any a = Unit {0}

module _ {S A : Type 0} {P : S → Type 0} {E : Error → Type 0} {Q : A → Type 0} where
  pub Keeps-pure : (a : A) → Q a → Keeps P E Q (pure a)
  unfolding pure
  Keeps-pure a q = record { at = λ s h. returns q h }

  pub Keeps-throw : (e : Error) → E e → Keeps P E Q (throw e)
  unfolding throw
  Keeps-throw e k = record { at = λ s h. throws k }

  pub Keeps-lift :
      (r : Result Error A)
      → ((a : A) → r ≡ ok a → Q a)
      → ((e : Error) → r ≡ err e → E e)
      → Keeps P E Q (lift r)
  unfolding lift
  Keeps-lift (ok a) q k = record { at = λ s h. returns (q a refl) h }
  Keeps-lift (err e) q k = record { at = λ s h. throws (k e refl) }

  pub Keeps-gets : (f : S → A) → ((s : S) → P s → Q (f s)) → Keeps P E Q (gets f)
  unfolding gets
  Keeps-gets f q = record { at = λ s h. returns (q s h) h }

  pub Keeps-act : (f : S → A × S) → ((s : S) → P s → Q (f s).0 × P (f s).1) → Keeps P E Q (act f)
  unfolding act
  Keeps-act f keep = record { at = λ s h. returns (keep s h).0 (keep s h).1 }

  pub Keeps-if :
      (b : Bool) (m n : Action S A)
      → (b ≡ true → Keeps P E Q m)
      → (b ≡ false → Keeps P E Q n)
      → Keeps P E Q (if b then m else n)
  Keeps-if true m n km kn = km refl
  Keeps-if false m n km kn = kn refl

  weaken_at :
      {R : A → Type 0} {r : Result Error (A × S)}
      → ((a : A) → Q a → R a)
      → Leaves P Q E r
      → Leaves P R E r
  weaken_at f (returns q h) = returns (f _ q) h
  weaken_at f (throws e) = throws e

  pub weaken :
      {R : A → Type 0} {m : Action S A} → ((a : A) → Q a → R a) → Keeps P E Q m → Keeps P E R m
  weaken f k = record { at = λ s h. weaken_at f (k.at s h) }

module _ {S : Type 0} {P : S → Type 0} {E : Error → Type 0} where
  pub Keeps-modify : (f : S → S) → ((s : S) → P s → P (f s)) → Keeps P E Any (modify f)
  unfolding modify
  Keeps-modify f keep = record { at = λ s h. returns tt (keep s h) }

  pub Keeps-ensure : (b : Bool) (e : Error) → E e → Keeps P E (λ _. b ≡ true) (ensure b e)
  unfolding ensure
  Keeps-ensure true e k = record { at = λ s h. returns refl h }
  Keeps-ensure false e k = record { at = λ s h. throws k }

module _ {S A B : Type 0} {P : S → Type 0} {E : Error → Type 0} {Q : A → Type 0}
    {R : B → Type 0} where
  bind_at :
      (r : Result Error (A × S)) (f : A → Action S B)
      → Leaves P Q E r
      → ((a : A) → Q a → Keeps P E R (f a))
      → Leaves P R E (elim r [ ok (a, s') ↦ f a s' | err e ↦ err e ])
  bind_at _ f (returns {a} {s} q h) kf = (kf a q).at s h
  bind_at _ f (throws k) kf = throws k

  pub Keeps-bind :
      (m : Action S A) (f : A → Action S B)
      → Keeps P E Q m
      → ((a : A) → Q a → Keeps P E R (f a))
      → Keeps P E R (m >>= f)
  unfolding ◌>>=◌
  Keeps-bind m f km kf = record { at = λ s h. bind_at (m s) f (km.at s h) kf }

  pub Keeps-then :
      (m : Action S A) (k : Action S B)
      → Keeps P E Q m
      → ((a : A) → Q a → Keeps P E R k)
      → Keeps P E R (m >> k)
  unfolding ◌>>◌
  Keeps-then m k km kk = Keeps-bind m (λ _. k) km kk

module _ {S A : Type 0} {P : S → Type 0} {E : Error → Type 0} where
  pub Keeps-repeat :
      (n : ℕ) (body : Action S A) → Keeps P E Any body → Keeps P E Any (repeat n body)
  unfolding repeat
  Keeps-repeat zero body kb = Keeps-pure tt tt
  Keeps-repeat (suc n) body kb = Keeps-then body _ kb (λ _ _. Keeps-repeat n body kb)

module _ {S A B : Type 0} {P : S → Type 0} {E : Error → Type 0} {R : B → Type 0} where
  -- What a block leaves at one state, where its first part is a call that does not touch it.
  pub lift-bind_at :
      (r : Result Error A) (f : A → Action S B) (s : S)
      → ((a : A) → r ≡ ok a → Leaves P R E (f a s))
      → ((e : Error) → r ≡ err e → E e)
      → Leaves P R E ((lift r >>= f) s)
  unfolding ◌>>=◌ lift
  lift-bind_at (ok a) f s q k = q a refl
  lift-bind_at (err e) f s q k = throws (k e refl)

  pub bind-ok_at :
      (m : Action S A) (f : A → Action S B) (s : S) (a : A) (s' : S)
      → m s ≡ ok (a, s')
      → Leaves P R E (f a s')
      → Leaves P R E ((m >>= f) s)
  unfolding ◌>>=◌
  bind-ok_at m f s a s' e h = rw (◌>>=◌, e) h

  pub bind-err_at :
      (m : Action S A) (f : A → Action S B) (s : S) (e : Error)
      → m s ≡ err e
      → E e
      → Leaves P R E ((m >>= f) s)
  unfolding ◌>>=◌
  bind-err_at m f s e h k = rw (◌>>=◌, h) (throws k)

-- A chain at one state, where its first part is known to return, or to throw.
pub lift_ok-bind :
    {S A B : Type 0} (r : Result Error A) (f : A → Action S B) (s : S) {a : A}
    → r ≡ ok a
    → (lift r >>= f) s ≡ f a s
unfolding ◌>>=◌ lift
lift_ok-bind r f s h = rw h refl

pub bind_ok :
    {S A B : Type 0} (m : Action S A) (f : A → Action S B) (s : S) {a : A} {s' : S}
    → m s ≡ ok (a, s')
    → (m >>= f) s ≡ f a s'
unfolding ◌>>=◌
bind_ok m f s h = rw (◌>>=◌, h) refl

pub bind_err :
    {S A B : Type 0} (m : Action S A) (f : A → Action S B) (s : S) {e : Error}
    → m s ≡ err e
    → (m >>= f) s ≡ err e
unfolding ◌>>=◌
bind_err m f s h = rw (◌>>=◌, h) refl
