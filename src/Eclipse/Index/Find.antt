-- ===== src/Eclipse/Index/Find.antt =====
-- `find_first_record`, by the records before the one that it finds.
use cae_openusd_plugins.Prelude.{
  ◌≡◌, ◌↔◌, refl, ap, ◌∙◌, false, not, ◌&&◌, Bool-cases, inl, inr, some, some-injective, Bytes,
  List, [], ◌∷◌, ◌++◌, same, same_iff,
}
use cae_openusd_plugins.Eclipse.Record.{Record}
use cae_openusd_plugins.Eclipse.Index.{find_first_record}

-- The search goes on behind `r`.
abbrev pub Passed : Bytes → Bytes → Record → Type 0
Passed keyword stop_before r =
    ((not (same stop_before []) && same r.keyword stop_before) ≡ false)
    × (same r.keyword keyword ≡ false)

abbrev pub AllPassed : Bytes → Bytes → List Record → Type 0
AllPassed keyword stop_before [] = Unit {0}
AllPassed keyword stop_before (r ∷ rs) =
    Passed keyword stop_before r × AllPassed keyword stop_before rs

-- `r` is the first record named `keyword`, and no record up to it, itself included, is the bound.
pub record IsFirst (rs : List Record) (keyword stop_before : Bytes) (r : Record) : Type 0 where
  pub before : List Record
  pub after : List Record
  pub splits : rs ≡ before ++ r ∷ after
  pub passed : AllPassed keyword stop_before before
  pub found : r.keyword ≡ keyword
  pub unbounded : (not (same stop_before []) && same r.keyword stop_before) ≡ false

find_first_record_sound :
    (rs : List Record) (keyword stop_before : Bytes) (r : Record)
    → find_first_record rs keyword stop_before ≡ some r
    → IsFirst rs keyword stop_before r
unfolding find_first_record
find_first_record_sound [] keyword stop_before r h = cc
find_first_record_sound (x ∷ xs) keyword stop_before r h =
    elim (Bool-cases (not (same stop_before []) && same x.keyword stop_before)) [
      | inl bound ↦ cc (rw (bound, find_first_record) at h)
      | inr free ↦ elim (Bool-cases (same x.keyword keyword)) [
        | inl here ↦
            let x_is = some-injective (rw (free, here, find_first_record) at h) in
            rw (← x_is) (record {
              before = [];
              after = xs;
              splits = refl;
              passed = tt;
              found = (same_iff x.keyword keyword).0 here;
              unbounded = free;
            })
        | inr other ↦
            let rest =
              find_first_record_sound xs keyword stop_before r
                (rw (free, other, find_first_record) at h) in
            record {
              before = x ∷ rest.before;
              after = rest.after;
              splits = ap (λ l. x ∷ l) rest.splits;
              passed = ((free, other), rest.passed);
              found = rest.found;
              unbounded = rest.unbounded;
            }
      ]
    ]

find_first_record_complete :
    (before : List Record) (r : Record) (after : List Record) (keyword stop_before : Bytes)
    → AllPassed keyword stop_before before
    → r.keyword ≡ keyword
    → (not (same stop_before []) && same r.keyword stop_before) ≡ false
    → find_first_record (before ++ r ∷ after) keyword stop_before ≡ some r
unfolding find_first_record
find_first_record_complete [] r after keyword stop_before p f u =
    rw (u, (same_iff r.keyword keyword).1 f, find_first_record)
find_first_record_complete (x ∷ xs) r after keyword stop_before ((a, b), p) f u =
    rw (a, b, find_first_record) (find_first_record_complete xs r after keyword stop_before p f u)

-- The search finds a record exactly if it is the first one of its name and no record up to it is
-- the bound.
pub find_first_record_iff :
    (rs : List Record) (keyword stop_before : Bytes) (r : Record)
    → (find_first_record rs keyword stop_before ≡ some r) ↔ IsFirst rs keyword stop_before r
find_first_record_iff rs keyword stop_before r = (
  find_first_record_sound rs keyword stop_before r,
  (λ f.
      ap (λ l. find_first_record l keyword stop_before) f.splits
      ∙ find_first_record_complete f.before r f.after keyword stop_before f.passed f.found
          f.unbounded),
)
