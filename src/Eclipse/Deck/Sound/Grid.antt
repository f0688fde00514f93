-- ===== src/Eclipse/Deck/Sound/Grid.antt =====
-- The records that change the grid of a text deck, by what Sound states of it.
use cae_openusd_plugins.Prelude.{
  ℕ, ◌≡◌, inr, refl, sym, ap, subst, ◌∙◌, Bool, true, false, ◌&&◌, ◌==◌, Option, none, some, List,
  [], ◌∷◌, Bytes, length, length-take, same, same_iff, leb, leb→le, arith,
}
use cae_openusd_plugins.Prelude.Chars.{codes}
use cae_openusd_plugins.Prelude.Decimal.{negate, in_range}
use cae_openusd_plugins.Prelude.Int.{ℤ, pos}
use cae_openusd_plugins.Prelude.Result.{require}
use cae_openusd_plugins.Prelude.Post.{
  Post, returns, throws, Post-bind, Post-guard, Post-require, if_holds,
}
use cae_openusd_plugins.Eclipse.Deck.{Token}
use cae_openusd_plugins.Eclipse.Deck.Numbers.{
  DeckError, bad_dimensions, nonpositive_dimensions, expected_value, expected_count,
  expected_repeated, parse_int, int_within, unsigned_number, expand_token, expand_split,
  repeated_value, parse_size, parse_double, split_star,
}
use cae_openusd_plugins.Eclipse.Deck.Grid.{
  ArrayRef, GridInfo, is_positive, is_supported_cell_property_keyword, set_property,
  parse_dim_record, parse_grid_unit_record, parse_map_axes_record, expand_record,
}
use cae_openusd_plugins.Eclipse.Deck.Sound.{IsThrown, IsRef, AreProperties, IsGrid}

int_within-in_range :
    (sign : ℕ → ℤ) (o : Option ℕ) (n : ℤ) → int_within sign o ≡ some n → in_range 32 n ≡ true
int_within-in_range sign none n h = cc
int_within-in_range sign (some m) n h =
    if_holds (λ o. o ≡ some n → in_range 32 n ≡ true) (in_range 32 (sign m))
      (λ t e. let e' : sign m ≡ n = cc in ap (in_range 32) (sym e') ∙ t) (λ t e. cc) h

-- What ParseInt gives is an int.
pub parse_int-in_range : (text : Bytes) (n : ℤ) → parse_int text ≡ some n → in_range 32 n ≡ true
unfolding parse_int
parse_int-in_range [] n h = cc
parse_int-in_range (c ∷ text) n h =
    if_holds (λ o. o ≡ some n → in_range 32 n ≡ true) (c == b'-')
      (λ _. int_within-in_range negate (unsigned_number text) n)
      (λ _. int_within-in_range pos (unsigned_number (c ∷ text)) n) h

-- The expansion of a token throws one of three exceptions.
module _ {V : Type 0} (default : V) (parse : Bytes → Option V) {Q : DeckError → Type 0}
    (value_thrown : Q expected_value) (count_thrown : Q expected_count)
    (repeated_thrown : Q expected_repeated) where
  Post-repeated_value :
      (payload : Bytes) → Post (λ value. Unit {0}) Q (repeated_value default parse payload)
  unfolding require
  Post-repeated_value [] = returns tt
  Post-repeated_value (c ∷ payload) = required (parse (c ∷ payload))
    where
      required : (o : Option V) → Post (λ value. Unit {0}) Q (require o expected_repeated)
      required none = throws repeated_thrown
      required (some value) = returns tt

  pub Post-expand_token :
      (token : Bytes) → Post (λ values. Unit {0}) Q (expand_token default parse token)
  unfolding expand_token
  Post-expand_token token =
      elim (split_star token)
        as (λ o. Post (λ values. Unit {0}) Q (expand_split default parse token o)) [
          | none ↦ Post-require (parse token) expected_value _ value_thrown (λ value e. returns tt)
          | some (count, payload) ↦
              Post-require (parse_size count) expected_count _ count_thrown (λ copies e.
                Post-bind (repeated_value default parse payload) _ (Post-repeated_value payload)
                  (λ value _. returns tt))
        ]

module _ (files : Bytes → Option Bytes) {D : Type 0} where
  pub Post-parse_dim_record :
      (record_tokens : List Token) (grid : GridInfo D)
      → IsGrid files grid
      → Post (IsGrid files) IsThrown (parse_dim_record record_tokens grid)
  unfolding parse_dim_record
  Post-parse_dim_record [] grid h = returns h
  Post-parse_dim_record (x ∷ []) grid h = returns h
  Post-parse_dim_record (x ∷ y ∷ []) grid h = returns h
  Post-parse_dim_record (x ∷ y ∷ z ∷ rest) grid h =
      Post-require (parse_int x.text) bad_dimensions _ tt (λ nx ex.
        Post-require (parse_int y.text) bad_dimensions _ tt (λ ny ey.
          Post-require (parse_int z.text) bad_dimensions _ tt (λ nz ez.
            Post-guard (is_positive nx && is_positive ny && is_positive nz) nonpositive_dimensions _
              tt
              (λ positive.
                let (pxy, pz) = both (is_positive nx && is_positive ny) (is_positive nz) positive in
                let (px, py) = both (is_positive nx) (is_positive ny) pxy in
                returns (record {
                  dims = λ _. (
                    (px, parse_int-in_range x.text nx ex),
                    (py, parse_int-in_range y.text ny ey),
                    (pz, parse_int-in_range z.text nz ez),
                  );
                  coord = h.coord;
                  zcorn = h.zcorn;
                  actnum = h.actnum;
                  map_axes = h.map_axes;
                  properties = h.properties;
                })))))
    where
      both : (a b : Bool) → (a && b) ≡ true → (a ≡ true) × (b ≡ true)
      both true b e = (refl, e)
      both false b e = cc

  pub IsGrid-with_unit :
      (unit : Bytes) (grid : GridInfo D)
      → IsGrid files grid
      → IsGrid files (record grid { length_unit = unit })
  IsGrid-with_unit unit grid h = record {
    dims = h.dims;
    coord = h.coord;
    zcorn = h.zcorn;
    actnum = h.actnum;
    map_axes = h.map_axes;
    properties = h.properties;
  }

  pub IsGrid-with_coord :
      (ref : ArrayRef) (grid : GridInfo D)
      → IsRef files (codes "COORD") false ref
      → IsGrid files grid
      → IsGrid files (record grid { coord = some ref })
  IsGrid-with_coord ref grid r h = record {
    dims = h.dims;
    coord = r;
    zcorn = h.zcorn;
    actnum = h.actnum;
    map_axes = h.map_axes;
    properties = h.properties;
  }

  pub IsGrid-with_zcorn :
      (ref : ArrayRef) (grid : GridInfo D)
      → IsRef files (codes "ZCORN") false ref
      → IsGrid files grid
      → IsGrid files (record grid { zcorn = some ref })
  IsGrid-with_zcorn ref grid r h = record {
    dims = h.dims;
    coord = h.coord;
    zcorn = r;
    actnum = h.actnum;
    map_axes = h.map_axes;
    properties = h.properties;
  }

  pub IsGrid-with_actnum :
      (ref : ArrayRef) (grid : GridInfo D)
      → IsRef files (codes "ACTNUM") true ref
      → IsGrid files grid
      → IsGrid files (record grid { actnum = some ref })
  IsGrid-with_actnum ref grid r h = record {
    dims = h.dims;
    coord = h.coord;
    zcorn = h.zcorn;
    actnum = r;
    map_axes = h.map_axes;
    properties = h.properties;
  }

  pub IsGrid-parse_grid_unit_record :
      (record_tokens : List Token) (grid : GridInfo D)
      → IsGrid files grid
      → IsGrid files (parse_grid_unit_record record_tokens grid)
  unfolding parse_grid_unit_record
  IsGrid-parse_grid_unit_record [] grid h = h
  IsGrid-parse_grid_unit_record (unit ∷ rest) grid h = IsGrid-with_unit _ grid h

  module _ (double_zero : D) (strtod : Bytes → Option D) where
    Post-expand_record :
        (record_tokens : List Token)
        → Post (λ values. Unit {0}) IsThrown (expand_record double_zero strtod record_tokens)
    unfolding expand_record
    Post-expand_record [] = returns tt
    Post-expand_record (token ∷ rest) =
        Post-bind (expand_token double_zero (parse_double strtod) token.text) _
          (Post-expand_token double_zero (parse_double strtod) tt tt tt token.text)
          (λ values _.
            Post-bind (expand_record double_zero strtod rest) _ (Post-expand_record rest)
              (λ later _. returns tt))

    pub Post-parse_map_axes_record :
        (record_tokens : List Token) (grid : GridInfo D)
        → IsGrid files grid
        → Post (IsGrid files) IsThrown (parse_map_axes_record double_zero strtod record_tokens grid)
    unfolding parse_map_axes_record
    Post-parse_map_axes_record record_tokens grid h =
        Post-bind (expand_record double_zero strtod record_tokens) _
          (Post-expand_record record_tokens)
          (λ values _. returns (
            if_holds (IsGrid files) (leb 6 (length values))
              (λ t.
                let enough = leb→le 6 (length values) t in
                record {
                  dims = h.dims;
                  coord = h.coord;
                  zcorn = h.zcorn;
                  actnum = h.actnum;
                  map_axes = inr (omega (arith, length-take 6 values, enough));
                  properties = h.properties;
                })
              (λ _. h)))

module _ (files : Bytes → Option Bytes) where
  pub AreProperties-set_property :
      (keyword : Bytes) (ref : ArrayRef) (properties : List (Bytes × ArrayRef))
      → is_supported_cell_property_keyword keyword ≡ some ref.integer
      → IsRef files keyword ref.integer ref
      → AreProperties files properties
      → AreProperties files (set_property keyword ref properties)
  unfolding set_property
  AreProperties-set_property keyword ref [] s r h = (s, r, tt)
  AreProperties-set_property keyword ref ((k, other) ∷ properties) s r (s', r', h) =
      if_holds (AreProperties files) (same k keyword)
        (λ t.
          let e : keyword ≡ k = sym ((same_iff k keyword).0 t) in
          subst (λ k. AreProperties files ((k, ref) ∷ properties)) e (s, r, h))
        (λ _. (s', r', AreProperties-set_property keyword ref properties s r h))
