-- ===== src/Vtk/Registry/Unique.antt =====
-- The names that a registry hands out.
use cae_openusd_plugins.Prelude.{
  contains, ℕ, zero, suc, ◌+◌, ◌%◌, ◌^◌, ◌≤◌, ◌<◌, ◌≡◌, ◌≢◌, refl, sym, ap, subst, ◌∙◌, inl, inr,
  true, false, not, ◌&&◌, Bool-cases, Option, none, some, some-injective, List, [], ◌∷◌, ◌++◌,
  Bytes, length, same, same_iff, if◌then◌else◌, arith,
}
use cae_openusd_plugins.Prelude.Decimal.{to_string, to_string-injective}
use cae_openusd_plugins.Vtk.Registry.{
  ArrayNameRegistry, find, put, candidate, search_suffix, make_unique_base, make_unique_name,
  is_none, or_zero, is_nil, record_suffix,
}

append_left : (xs ys zs : Bytes) → xs ++ ys ≡ xs ++ zs → ys ≡ zs
append_left [] ys zs h = h
append_left (x ∷ xs) ys zs h = append_left xs ys zs (cc)

candidate-injective : (base : Bytes) (a b : ℕ) → candidate base a ≡ candidate base b → a ≡ b
unfolding candidate
candidate-injective base a b h =
    let tails : b'_' ∷ to_string a ≡ b'_' ∷ to_string b = append_left base _ _ h in
    to_string-injective a b (cc tails)

-- A set without one of its names.
erase : Bytes → List Bytes → List Bytes
erase name [] = []
erase name (x ∷ xs) = if same x name then xs else x ∷ erase name xs

length-erase :
    (name : Bytes) (xs : List Bytes)
    → contains xs name ≡ true
    → suc (length (erase name xs)) ≡ length xs
unfolding contains erase
length-erase name [] h = cc
length-erase name (x ∷ xs) h = ground (arith, length-erase name xs)

contains-erase :
    (name other : Bytes) (xs : List Bytes)
    → name ≢ other
    → contains xs other ≡ true
    → contains (erase name xs) other ≡ true
unfolding contains erase
contains-erase name other [] n h = h
contains-erase name other (x ∷ xs) n h =
    ground (arith, contains-erase name other xs n, same_iff x name, same_iff x other)

-- The suffix after `k` rounds.
abbrev after : ℕ → ℕ → ℕ
after suffix k = (suffix + k) % 2 ^ 64

-- Among more suffixes than there are names one is unused: `left` holds the used ones not yet met.
search_suffix_finds :
    (fuel : ℕ) (used left : List Bytes) (base : Bytes) (suffix : ℕ)
    → suffix < 2 ^ 64
    → fuel ≤ 2 ^ 64
    → length left < fuel
    → ((k : ℕ)
        → k < fuel
        → contains used (candidate base (after suffix k)) ≡ true
        → contains left (candidate base (after suffix k)) ≡ true)
    → (name : Bytes) × (next : ℕ) × (search_suffix fuel used base suffix ≡ some (name, next))
      × (contains used name ≡ false)
      × (next < 2 ^ 64)
unfolding search_suffix
search_suffix_finds zero used left base suffix small bound h covers = absurd (omega arith)
search_suffix_finds (suc fuel) used left base suffix small bound h covers =
    elim (Bool-cases (contains used (candidate base suffix))) [
      | inl e ↦
          let here : after suffix 0 ≡ suffix = omega (arith, small) in
          let met : contains left (candidate base suffix) ≡ true =
            rw here at (covers 0 (omega arith) (rw here e)) in
          let shorter = length-erase (candidate base suffix) left met in
          let (name, next, found, unused, is_small) =
            search_suffix_finds fuel used (erase (candidate base suffix) left) base (after suffix 1)
              (omega arith) (omega arith) (omega (arith, shorter))
              (λ k below is_used.
                let shift : after (after suffix 1) k ≡ after suffix (suc k) = omega arith in
                let other : candidate base suffix ≢ candidate base (after suffix (suc k)) = λ p.
                  let q = candidate-injective base _ _ p in
                  absurd (omega (arith, q, small, below, bound)) in
                rw shift (
                  contains-erase _ _ left other
                    (covers (suc k) (omega (arith, below)) (rw shift at is_used)))) in
          (name, next, rw e found, unused, is_small)
      | inr e ↦ (candidate base suffix, after suffix 1, rw e, e, omega arith)
    ]

-- Every suffix kept fits 64 bits.
abbrev AllSmall : List (Bytes × ℕ) → Type 0
AllSmall [] = Unit {0}
AllSmall ((k, v) ∷ rest) = (v < 2 ^ 64) × AllSmall rest

-- No name occurs twice.
abbrev pub AllDistinct : List Bytes → Type 0
AllDistinct [] = Unit {0}
AllDistinct (x ∷ xs) = (contains xs x ≡ false) × AllDistinct xs

pub record IsRegistry (names : ArrayNameRegistry) : Type 0 where
  pub distinct : AllDistinct names.used_names
  pub small : AllSmall names.next_suffix

put-AllSmall :
    (key : Bytes) (value : ℕ) (m : List (Bytes × ℕ))
    → value < 2 ^ 64
    → AllSmall m
    → AllSmall (put key value m)
unfolding put
put-AllSmall key value [] h s = (h, tt)
put-AllSmall key value ((k, v) ∷ rest) h (hv, s) = elim (Bool-cases (same k key)) [
  | inl e ↦ rw e (h, s)
  | inr e ↦ rw e (hv, put-AllSmall key value rest h s)
]

find-AllSmall : (key : Bytes) (m : List (Bytes × ℕ)) → AllSmall m → or_zero (find key m) < 2 ^ 64
unfolding find
find-AllSmall key [] s = omega arith
find-AllSmall key ((k, v) ∷ rest) (hv, s) = elim (Bool-cases (same k key)) [
  | inl e ↦ rw e hv
  | inr e ↦ rw e (find-AllSmall key rest s)
]

-- What a call does to a registry: one new name.
pub record IsNewName (names : ArrayNameRegistry) (name : Bytes) (names' : ArrayNameRegistry)
    : Type 0 where
  pub unused : contains names.used_names name ≡ false
  pub added : names'.used_names ≡ name ∷ names.used_names
  pub valid : IsRegistry names'

record_suffix_finds :
    (names : ArrayNameRegistry) (base name : Bytes) (next : ℕ)
    → IsRegistry names
    → contains names.used_names name ≡ false
    → next < 2 ^ 64
    → (names' : ArrayNameRegistry) × (record_suffix names base (some (name, next))
        ≡ some (name, names'))
      × IsNewName names name names'
record_suffix_finds names base name next valid unused small = (
  record { used_names = name ∷ names.used_names; next_suffix = put base next names.next_suffix },
  refl,
  record {
    unused = unused;
    added = refl;
    valid = record {
      distinct = (unused, valid.distinct);
      small = put-AllSmall base next names.next_suffix small valid.small;
    };
  },
)

fresh_base :
    (base : Bytes) (names : ArrayNameRegistry)
    → (is_none (find base names.next_suffix) && not (contains names.used_names base)) ≡ true
    → contains names.used_names base ≡ false
fresh_base base names h = ground arith

make_unique_base_lem :
    (base : Bytes) (names : ArrayNameRegistry)
    → IsRegistry names
    → length names.used_names < 2 ^ 64
    → (name : Bytes) × (names' : ArrayNameRegistry) × (make_unique_base base names
        ≡ some (name, names'))
      × IsNewName names name names'
unfolding make_unique_base
make_unique_base_lem base names valid room =
    elim (Bool-cases
      (is_none (find base names.next_suffix) && not (contains names.used_names base))) [
        | inl e ↦
            let (names', made, new) =
              record_suffix_finds names base base 1 valid (fresh_base base names e) (omega arith) in
            (base, names', rw e made, new)
        | inr e ↦
            let (name, next, found, unused, small) =
              search_suffix_finds (suc (length names.used_names)) names.used_names names.used_names
                base (or_zero (find base names.next_suffix))
                (find-AllSmall base names.next_suffix valid.small) (omega (arith, room))
                (omega arith) (λ k below is_used. is_used) in
            let (names', made, new) = record_suffix_finds names base name next valid unused small in
            (name, names', rw (e, found) made, new)
      ]

-- A registry of names which are all distinct, with suffixes below 2 ^ 64 and fewer than 2 ^ 64
-- names, always finds a name, with the fuel of its loop; the name is not one of those before, it
-- is the one name that the registry then has more, and the registry is such a one again.
pub make_unique_name_lem :
    (make_valid : Bytes → Bytes) (source_name fallback_base : Bytes) (names : ArrayNameRegistry)
    → IsRegistry names
    → length names.used_names < 2 ^ 64
    → (name : Bytes) × (names' : ArrayNameRegistry) × (make_unique_name make_valid source_name
          fallback_base names
        ≡ some (name, names'))
      × IsNewName names name names'
unfolding make_unique_name
make_unique_name_lem make_valid source_name fallback_base names valid room =
    make_unique_base_lem _ names valid room

-- A name that is returned is a new one, also with no bound on the number of names.
search_suffix-unused :
    (fuel : ℕ) (used : List Bytes) (base : Bytes) (suffix : ℕ) (name : Bytes) (next : ℕ)
    → search_suffix fuel used base suffix ≡ some (name, next)
    → (contains used name ≡ false) × (next < 2 ^ 64)
unfolding search_suffix
search_suffix-unused zero used base suffix name next h = cc
search_suffix-unused (suc fuel) used base suffix name next h =
    elim (Bool-cases (contains used (candidate base suffix))) [
      | inl e ↦ search_suffix-unused fuel used base _ name next (rw e at h)
      | inr e ↦ found e (rw e at h)
    ]
  where
    found :
        contains used (candidate base suffix) ≡ false
        → ◌≡◌ {A = Option (Bytes × ℕ)}
            (some (candidate base suffix, (suffix + 1) % 2 ^ 64))
            (some (name, next))
        → (contains used name ≡ false) × (next < 2 ^ 64)
    found e p =
        let pair = some-injective p in
        let is_name : candidate base suffix ≡ name = ap (λ (x : Bytes × ℕ). x.0) pair in
        let is_next : (suffix + 1) % 2 ^ 64 ≡ next = ap (λ (x : Bytes × ℕ). x.1) pair in
        (rw is_name at e, omega (arith, is_next))

record_suffix_inv :
    (names : ArrayNameRegistry) (base : Bytes) (o : Option (Bytes × ℕ)) (name : Bytes)
    (names' : ArrayNameRegistry)
    → IsRegistry names
    → ((found : Bytes) (next : ℕ)
        → o ≡ some (found, next)
        → (contains names.used_names found ≡ false) × (next < 2 ^ 64))
    → record_suffix names base o ≡ some (name, names')
    → IsNewName names name names'
record_suffix_inv names base none name names' valid sound h = cc
record_suffix_inv names base (some (found, next)) name names' valid sound h =
    let (unused, small) = sound found next refl in
    let (made, is_made, new) = record_suffix_finds names base found next valid unused small in
    let pair = some-injective (sym is_made ∙ h) in
    let is_name : found ≡ name = ap (λ (x : Bytes × ArrayNameRegistry). x.0) pair in
    let is_names : made ≡ names' = ap (λ (x : Bytes × ArrayNameRegistry). x.1) pair in
    subst (λ n. IsNewName names n names') is_name
      (subst (λ r. IsNewName names found r) is_names new)

pub make_unique_name-IsNewName :
    (make_valid : Bytes → Bytes) (source_name fallback_base : Bytes) (names : ArrayNameRegistry)
    (name : Bytes) (names' : ArrayNameRegistry)
    → IsRegistry names
    → make_unique_name make_valid source_name fallback_base names ≡ some (name, names')
    → IsNewName names name names'
unfolding make_unique_name make_unique_base
make_unique_name-IsNewName make_valid source_name fallback_base names name names' valid h =
    let base = make_valid (if is_nil source_name then fallback_base else source_name) in
    elim (Bool-cases
      (is_none (find base names.next_suffix) && not (contains names.used_names base))) [
        | inl e ↦
            record_suffix_inv names base (some (base, 1)) name names' valid
              (λ found next p.
                let pair = some-injective p in
                let is_name : base ≡ found = ap (λ (x : Bytes × ℕ). x.0) pair in
                let is_next : 1 ≡ next = ap (λ (x : Bytes × ℕ). x.1) pair in
                (rw is_name at (fresh_base base names e), omega (arith, is_next)))
              (rw e at h)
        | inr e ↦
            record_suffix_inv names base _ name names' valid
              (λ found next p. search_suffix-unused _ names.used_names base _ found next p)
              (rw e at h)
      ]
