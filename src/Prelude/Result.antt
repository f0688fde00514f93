-- ===== src/Prelude/Result.antt =====
-- A computation that throws: its value, or the exception.
use cae_openusd_plugins.Prelude.{◌≡◌, ◌≢◌, refl, ap, Bool, true, false, Option, none, some}

pub data Result {ℓ} (E : Type 0) (A : Type ℓ) : Type ℓ where
  ok : A → Result E A
  err : E → Result E A

infixl 5 ◌>>=◌ ◌>>◌
unfoldable pub ◌>>=◌ {ℓ κ} :
    {E : Type 0} {A : Type ℓ} {B : Type κ} → Result E A → (A → Result E B) → Result E B
ok a >>= f = f a
err e >>= f = err e

unfoldable pub ◌>>◌ {ℓ} : {E : Type 0} {B : Type ℓ} → Result E (Unit {0}) → Result E B → Result E B
unfolding ◌>>=◌
m >> k = m >>= λ _. k

-- `if (!test) throw e;`
unfoldable pub guard : {E : Type 0} → Bool → E → Result E (Unit {0})
guard true e = ok tt
guard false e = err e

unfoldable pub require {ℓ} : {E : Type 0} {A : Type ℓ} → Option A → E → Result E A
require none e = err e
require (some a) e = ok a

-- Inversions of a successful chain; the sequence is shut, so that its parts are found by `_`.
module _ {ℓ κ} {E : Type 0} {A : Type ℓ} {B : Type κ} where
  pub bind-eq-ok :
      (m : Result E A) (f : A → Result E B) {b : B}
      → (m >>= f) ≡ ok b
      → (a : A) × (m ≡ ok a) × (f a ≡ ok b)
  unfolding ◌>>=◌
  bind-eq-ok (ok a) f h = (a, refl, h)
  bind-eq-ok (err e) f h = cc

  pub ok-bind : (a : A) (f : A → Result E B) → (ok a >>= f) ≡ f a
  unfolding ◌>>=◌
  ok-bind a f = refl

module _ {ℓ} {E : Type 0} {B : Type ℓ} where
  pub guard-bind-eq-ok :
      (t : Bool) (e : E) (k : Result E B) {b : B}
      → (guard t e >> k) ≡ ok b
      → (t ≡ true) × (k ≡ ok b)
  unfolding ◌>>◌ guard
  guard-bind-eq-ok true e k h = (refl, h)
  guard-bind-eq-ok false e k h = cc

module _ {ℓ κ} {E : Type 0} {A : Type ℓ} {B : Type κ} where
  pub require-bind-eq-ok :
      (o : Option A) (e : E) (f : A → Result E B) {b : B}
      → (require o e >>= f) ≡ ok b
      → (a : A) × (o ≡ some a) × (f a ≡ ok b)
  unfolding ◌>>=◌ require
  require-bind-eq-ok none e f h = cc
  require-bind-eq-ok (some a) e f h = (a, refl, h)

pub ok-injective {ℓ} :
    {E : Type 0} {A : Type ℓ} {a b : A} → ◌≡◌ {A = Result E A} (ok a) (ok b) → a ≡ b
ok-injective h = cc

-- A chain does not throw `e` if none of its parts does.
module _ {ℓ κ} {E : Type 0} {A : Type ℓ} {B : Type κ} where
  pub bind-ne-err :
      (m : Result E A) (f : A → Result E B) (e : E)
      → m ≢ err e
      → ((a : A) → m ≡ ok a → f a ≢ err e)
      → (m >>= f) ≢ err e
  unfolding ◌>>=◌
  bind-ne-err (ok a) f e h k = k a refl
  bind-ne-err (err x) f e h k = λ p. h (ap err (err-injective p))
    where
      err-injective : ◌≡◌ {A = Result E B} (err x) (err e) → x ≡ e
      err-injective p = cc

module _ {ℓ} {E : Type 0} {B : Type ℓ} where
  pub guard-bind-ne-err :
      (t : Bool) (x : E) (k : Result E B) (e : E)
      → x ≢ e
      → (t ≡ true → k ≢ err e)
      → (guard t x >> k) ≢ err e
  unfolding ◌>>◌ guard
  guard-bind-ne-err true x k e n h = h refl
  guard-bind-ne-err false x k e n h = λ p. n (err-injective p)
    where
      err-injective : ◌≡◌ {A = Result E B} (err x) (err e) → x ≡ e
      err-injective p = cc

module _ {ℓ κ} {E : Type 0} {A : Type ℓ} {B : Type κ} where
  pub require-bind-ne-err :
      (o : Option A) (x : E) (f : A → Result E B) (e : E)
      → x ≢ e
      → ((a : A) → o ≡ some a → f a ≢ err e)
      → (require o x >>= f) ≢ err e
  unfolding ◌>>=◌ require
  require-bind-ne-err none x f e n h = λ p. n (err-injective p)
    where
      err-injective : ◌≡◌ {A = Result E B} (err x) (err e) → x ≡ e
      err-injective p = cc
  require-bind-ne-err (some a) x f e n h = h a refl

module _ {ℓ} {E : Type 0} {B : Type ℓ} where
  pub true-bind : (x : E) (k : Result E B) → (guard true x >> k) ≡ k
  unfolding ◌>>◌ guard
  true-bind x k = refl

pub err-injective {ℓ} :
    {E : Type 0} {A : Type ℓ} {a b : E} → ◌≡◌ {A = Result E A} (err a) (err b) → a ≡ b
err-injective h = cc
