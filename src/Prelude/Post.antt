-- ===== src/Prelude/Post.antt =====
-- What holds of the value or of the exception of a computation that throws, with one rule for each
-- construct.
use cae_openusd_plugins.Prelude.{
  ◌≡◌, refl, subst, Bool, true, false, Option, none, some, if◌then◌else◌,
}
use cae_openusd_plugins.Prelude.Result.{Result, ok, err, ◌>>=◌, ◌>>◌, guard, require}

pub data Post {E A : Type 0} (P : A → Type 0) (Q : E → Type 0) : Result E A → Type 0 where
  returns : {a : A} → P a → Post P Q (ok a)
  throws : {e : E} → Q e → Post P Q (err e)

module _ {E A : Type 0} {P : A → Type 0} {Q : E → Type 0} where
  pub Post-eq-ok : {m : Result E A} {a : A} → Post P Q m → m ≡ ok a → P a
  Post-eq-ok {m} {a} h e = from_ok (subst (Post P Q) e h)
    where
      from_ok : {a : A} → Post P Q (ok a) → P a
      from_ok (returns h) = h

  pub Post-eq-err : {m : Result E A} {x : E} → Post P Q m → m ≡ err x → Q x
  Post-eq-err {m} {x} h e = from_err (subst (Post P Q) e h)
    where
      from_err : {x : E} → Post P Q (err x) → Q x
      from_err (throws h) = h

  -- The value is the one of the computation.
  pub Post-value : (m : Result E A) → Post P Q m → Post (λ a. P a × (m ≡ ok a)) Q m
  Post-value (ok a) h = returns (Post-eq-ok h refl, refl)
  Post-value (err e) h = throws (Post-eq-err h refl)

  pub Post-guard :
      (t : Bool) (e : E) (k : Result E A)
      → Q e
      → (t ≡ true → Post P Q k)
      → Post P Q (guard t e >> k)
  unfolding ◌>>◌ ◌>>=◌ guard
  Post-guard true e k h later = later refl
  Post-guard false e k h later = throws h

module _ {E A : Type 0} {P R : A → Type 0} {Q : E → Type 0} where
  pub Post-weaken : {m : Result E A} → Post P Q m → ((a : A) → P a → R a) → Post R Q m
  Post-weaken (returns h) f = returns (f _ h)
  Post-weaken (throws h) f = throws h

module _ {E A B : Type 0} {P : A → Type 0} {R : B → Type 0} {Q : E → Type 0} where
  pub Post-bind :
      (m : Result E A) (f : A → Result E B)
      → Post P Q m
      → ((a : A) → P a → Post R Q (f a))
      → Post R Q (m >>= f)
  unfolding ◌>>=◌
  Post-bind (ok a) f h k = k a (Post-eq-ok h refl)
  Post-bind (err e) f h k = throws (Post-eq-err h refl)

module _ {E A B : Type 0} {R : B → Type 0} {Q : E → Type 0} where
  pub Post-require :
      (o : Option A) (e : E) (f : A → Result E B)
      → Q e
      → ((a : A) → o ≡ some a → Post R Q (f a))
      → Post R Q (require o e >>= f)
  unfolding ◌>>=◌ require
  Post-require none e f h k = throws h
  Post-require (some a) e f h k = k a refl

module _ {ℓ} {A : Type ℓ} (P : A → Type 0) where
  pub if_holds :
      (test : Bool) {x y : A}
      → (test ≡ true → P x)
      → (test ≡ false → P y)
      → P (if test then x else y)
  if_holds true h k = h refl
  if_holds false h k = k refl
