-- ===== src/Vtk/Cache/Entries.antt =====
-- What the entries of the cache hold, and how many they are.
use cae_openusd_plugins.Prelude.{
  ℕ, zero, suc, ◌+◌, ◌≤◌, ◌≡◌, ◌⊎◌, inl, inr, refl, sym, ap, subst, ◌≢◌, some-injective, Bool, true,
  false, not, Bool-cases, Option, none, some, Option-cases, List, [], ◌∷◌, Bytes, same, length, ltb,
  if◌then◌else◌, arith,
}
use cae_openusd_plugins.Vtk.Cache.{
  keep_first, or_else, max_cached_specs, find, erase, assign, erase_other, erase_victim, evict_loop,
  evict_if_needed,
}

module _ {A : Type 0} where
  -- A value of one of the entries.
  abbrev pub IsStored : A → List (Bytes × A) → Type 0
  IsStored x [] = ⊥
  IsStored x ((k, a) ∷ rest) = (x ≡ a) ⊎ IsStored x rest

  pub find-IsStored :
      (key : Bytes) (entries : List (Bytes × A)) (a : A)
      → find key entries ≡ some a
      → IsStored a entries
  unfolding find
  find-IsStored key [] a h = cc
  find-IsStored key ((k, b) ∷ rest) a h = elim (Bool-cases (same k key)) [
    | inl e ↦ inl (hit e h)
    | inr e ↦ inr (find-IsStored key rest a (miss e h))
  ]
    where
      hit : same k key ≡ true → (if same k key then some b else find key rest) ≡ some a → a ≡ b
      hit e h = let h' : some b ≡ some a = rw e at h in cc

      miss :
          same k key ≡ false
          → (if same k key then some b else find key rest) ≡ some a
          → find key rest ≡ some a
      miss e h = rw e at h

  if-IsStored :
      (b : Bool) (xs ys : List (Bytes × A)) (a : A)
      → IsStored a (if b then xs else ys)
      → IsStored a xs ⊎ IsStored a ys
  if-IsStored true xs ys a h = inl h
  if-IsStored false xs ys a h = inr h

  pub erase-IsStored :
      (key : Bytes) (entries : List (Bytes × A)) (a : A)
      → IsStored a (erase key entries)
      → IsStored a entries
  unfolding erase
  erase-IsStored key [] a h = h
  erase-IsStored key ((k, b) ∷ rest) a h =
      elim (if-IsStored (same k key) rest ((k, b) ∷ erase key rest) a h) [
        | inl later ↦ inr later
        | inr (inl e) ↦ inl e
        | inr (inr later) ↦ inr (erase-IsStored key rest a later)
      ]

  pub length-erase :
      (key : Bytes) (entries : List (Bytes × A)) → length (erase key entries) ≤ length entries
  unfolding erase
  length-erase key [] = omega arith
  length-erase key ((k, b) ∷ rest) = let later = length-erase key rest in ground (arith, later)

  pub assign-IsStored :
      (key : Bytes) (new : A) (entries : List (Bytes × A)) (a : A)
      → IsStored a (assign key new entries)
      → (a ≡ new) ⊎ IsStored a entries
  unfolding assign
  assign-IsStored key new [] a h = h
  assign-IsStored key new ((k, b) ∷ rest) a h =
      elim (if-IsStored (same k key) ((k, new) ∷ rest) ((k, b) ∷ assign key new rest) a h) [
        | inl (inl e) ↦ inl e
        | inl (inr later) ↦ inr (inr later)
        | inr (inl e) ↦ inr (inl e)
        | inr (inr later) ↦ elim (assign-IsStored key new rest a later) [
          | inl e ↦ inl e
          | inr r ↦ inr (inr r)
        ]
      ]

  -- What is left after an erasure: one entry fewer, and none that was not there.
  Erases : List (Bytes × A) → List (Bytes × A) → Type 0
  Erases left entries =
      (suc (length left) ≡ length entries) × ((a : A) → IsStored a left → IsStored a entries)

  keep_first-Erases :
      (test : Bool) (k : Bytes) (b : A) (rest left : List (Bytes × A))
      (later : Option (List (Bytes × A)))
      → ((l : List (Bytes × A)) → later ≡ some l → Erases l rest)
      → (if test then some rest else keep_first (k, b) later) ≡ some left
      → Erases left ((k, b) ∷ rest)
  unfolding Erases
  keep_first-Erases true k b rest left later ih h =
      subst (λ l. Erases l ((k, b) ∷ rest)) (some-injective h) (refl, λ a s. inr s)
  keep_first-Erases false k b rest left none ih h = absurd (none≢some h)
    where
      none≢some : none ≢ some left
      none≢some e = cc
  keep_first-Erases false k b rest left (some l) ih h =
      let (size, stored) = ih l refl in
      subst (λ l. Erases l ((k, b) ∷ rest)) (some-injective h)
        (ap suc size, λ a s. elim s [ inl e ↦ inl e | inr r ↦ inr (stored a r) ])

  erase_other-Erases :
      (protected : Bytes) (entries left : List (Bytes × A))
      → erase_other protected entries ≡ some left
      → Erases left entries
  unfolding erase_other
  erase_other-Erases protected [] left h = absurd (none≢some h)
    where
      none≢some : none ≢ some left
      none≢some e = cc
  erase_other-Erases protected ((k, b) ∷ rest) left h =
      keep_first-Erases (not (same k protected)) k b rest left (erase_other protected rest)
        (λ l e. erase_other-Erases protected rest l e) h

  erase_victim-Erases :
      (protected k : Bytes) (b : A) (rest : List (Bytes × A))
      → Erases (erase_victim protected ((k, b) ∷ rest)) ((k, b) ∷ rest)
  unfolding erase_victim Erases
  erase_victim-Erases protected k b rest =
      elim (Option-cases (erase_other protected ((k, b) ∷ rest))) [
        | inl e ↦ subst (λ o. Erases (or_else o rest) ((k, b) ∷ rest)) (sym e) (refl, λ a h. inr h)
        | inr (left, e) ↦
            subst (λ o. Erases (or_else o rest) ((k, b) ∷ rest)) (sym e)
              (erase_other-Erases protected ((k, b) ∷ rest) left e)
      ]

  if-small :
      (entries left : List (Bytes × A))
      → length left ≤ max_cached_specs
      → length (if ltb max_cached_specs (length entries) then left else entries) ≤ max_cached_specs
  if-small entries left h = ground (arith, h)

  -- The loop leaves entries that were there, and with enough fuel no more than the limit.
  pub evict_loop-small :
      (fuel : ℕ) (protected : Bytes) (entries : List (Bytes × A))
      → (length entries ≤ fuel + max_cached_specs
          → length (evict_loop fuel protected entries) ≤ max_cached_specs)
        × ((a : A) → IsStored a (evict_loop fuel protected entries) → IsStored a entries)
  unfolding evict_loop erase_victim Erases
  evict_loop-small zero protected entries = (λ h. omega (arith, h), λ a s. s)
  evict_loop-small (suc fuel) protected [] = (λ h. omega arith, λ a s. s)
  evict_loop-small (suc fuel) protected ((k, b) ∷ rest) =
      let (size, stored) = erase_victim-Erases protected k b rest in
      let left = erase_victim protected ((k, b) ∷ rest) in
      let (small, kept) = evict_loop-small fuel protected left in
      (
        (λ h.
            if-small ((k, b) ∷ rest) (evict_loop fuel protected left)
              (small (omega (arith, h, size)))),
        λ a s. elim (if-IsStored (ltb max_cached_specs (suc (length rest))) _ ((k, b) ∷ rest) a s) [
          | inl t ↦ stored a (kept a t)
          | inr t ↦ t
        ],
      )

  -- As many rounds as there are entries are enough.
  pub evict_if_needed-small :
      (protected : Bytes) (entries : List (Bytes × A))
      → (length (evict_if_needed protected entries) ≤ max_cached_specs)
        × ((a : A) → IsStored a (evict_if_needed protected entries) → IsStored a entries)
  unfolding evict_if_needed
  evict_if_needed-small protected entries =
      let (small, kept) = evict_loop-small (length entries) protected entries in
      (small (omega arith), kept)
