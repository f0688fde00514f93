-- ===== src/Prelude/Pointwise.antt =====
-- Lists compared position by position.
use Prim.Native.Nat.{ℕ, zero, suc, ◌+◌, ◌<◌}
use mathlib.Core.Path.{◌≡◌, refl, ap, ◌∙◌}
use mathlib.Core.Option.{some}
use mathlib.Core.List.{List, [], ◌∷◌, ◌++◌}
use native.Mathlib.Omega.{arith}
use cae_openusd_plugins.Prelude.Lists.{length, get_elem?, take, drop}

module _ {ℓ} {A : Type ℓ} where
  pub get_elem?-append_left :
      (xs ys : List A) (j : ℕ) → j < length xs → get_elem? (xs ++ ys) j ≡ get_elem? xs j
  get_elem?-append_left [] ys j h = absurd (omega arith)
  get_elem?-append_left (x ∷ xs) ys zero h = refl
  get_elem?-append_left (x ∷ xs) ys (suc j) h = get_elem?-append_left xs ys j (omega arith)

  pub get_elem?-append_right :
      (xs ys : List A) (j : ℕ) → get_elem? (xs ++ ys) (length xs + j) ≡ get_elem? ys j
  get_elem?-append_right [] ys j = let e : 0 + j ≡ j = omega arith in ap (get_elem? ys) e
  get_elem?-append_right (x ∷ xs) ys j =
      let e : suc (length xs) + j ≡ suc (length xs + j) = omega arith in
      ap (get_elem? (x ∷ (xs ++ ys))) e ∙ get_elem?-append_right xs ys j

  pub get_elem?-take :
      (n : ℕ) (xs : List A) (j : ℕ) → j < n → get_elem? (take n xs) j ≡ get_elem? xs j
  get_elem?-take zero xs j h = absurd (omega arith)
  get_elem?-take (suc n) [] j h = refl
  get_elem?-take (suc n) (x ∷ xs) zero h = refl
  get_elem?-take (suc n) (x ∷ xs) (suc j) h = get_elem?-take n xs j (omega arith)

  pub get_elem?-drop :
      (n : ℕ) (xs : List A) (j : ℕ) → get_elem? (drop n xs) j ≡ get_elem? xs (n + j)
  get_elem?-drop zero xs j = let e : j ≡ 0 + j = omega arith in ap (get_elem? xs) e
  get_elem?-drop (suc n) [] j = refl
  get_elem?-drop (suc n) (x ∷ xs) j =
      let e : suc n + j ≡ suc (n + j) = omega arith in
      get_elem?-drop n xs j
      ∙ ap (get_elem? (x ∷ xs)) (let e' : suc (n + j) ≡ suc n + j = omega arith in e')

  -- Lists of the same length that agree everywhere are equal.
  pub pointwise-eq :
      (xs ys : List A)
      → length xs ≡ length ys
      → ((j : ℕ) → j < length ys → get_elem? xs j ≡ get_elem? ys j)
      → xs ≡ ys
  pointwise-eq [] [] h same = refl
  pointwise-eq [] (y ∷ ys) h same = absurd (omega arith)
  pointwise-eq (x ∷ xs) [] h same = absurd (omega arith)
  pointwise-eq (x ∷ xs) (y ∷ ys) h same =
      let head : some x ≡ some y = same 0 (omega arith) in
      let tail = pointwise-eq xs ys (omega arith) (λ j k. same (suc j) (omega arith)) in
      joined x y xs ys (injective head) tail
    where
      injective : {x y : A} → some x ≡ some y → x ≡ y
      injective e = cc

      joined : (x y : A) (xs ys : List A) → x ≡ y → xs ≡ ys → x ∷ xs ≡ y ∷ ys
      joined x y xs ys e f = cc
