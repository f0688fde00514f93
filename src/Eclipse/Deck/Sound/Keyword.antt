-- ===== src/Eclipse/Deck/Sound/Keyword.antt =====
-- One keyword of a text deck, by what Sound states of a grid.
use Prim.Native.String.{String}
use cae_openusd_plugins.Prelude.{
  ◌≡◌, refl, subst, Bool, true, false, ◌||◌, Option, none, some, List, [], ◌∷◌, Bytes, same_iff,
}
use cae_openusd_plugins.Prelude.Chars.{codes}
use cae_openusd_plugins.Prelude.Result.{Result}
use cae_openusd_plugins.Prelude.Post.{Post, returns, Post-bind, Post-require, if_holds}
use cae_openusd_plugins.Eclipse.Deck.{Token, new_tokenizer, tokens, read_record_tokens}
use cae_openusd_plugins.Eclipse.Deck.Numbers.{DeckError, not_resolved}
use cae_openusd_plugins.Eclipse.Deck.Grid.{
  Asset, GridInfo, ParseState, is_keyword, is_no_data_keyword, is_block_keyword,
  is_supported_cell_property_keyword,
}
use cae_openusd_plugins.Eclipse.Deck.Parse.{
  array_ref, then_grid, include_record, parse_property, parse_array, parse_keyword,
}
use cae_openusd_plugins.Eclipse.Deck.Sound.{IsThrown, HasKeyword, IsRef, IsGrid}
use cae_openusd_plugins.Eclipse.Deck.Sound.Rest.{
  IsRest, IsRest-refl, IsRest-read_record_tokens, IsRest-skip_single_record, IsRest-skip_block_from,
}
use cae_openusd_plugins.Eclipse.Deck.Sound.Grid.{
  Post-parse_dim_record, IsGrid-with_unit, IsGrid-with_coord, IsGrid-with_zcorn, IsGrid-with_actnum,
  IsGrid-parse_grid_unit_record, Post-parse_map_axes_record, AreProperties-set_property,
}

module _ {D : Type 0} (double_zero : D) (strtod : Bytes → Option D) (files : Bytes → Option Bytes)
    (resolve : Bytes → Bytes → Option Asset) where
  abbrev pub IsState : ParseState D → Type 0
  IsState state = IsGrid files state.grid

  -- An include may run out of levels only.
  module _ (include : Asset → ParseState D → Result DeckError (ParseState D)) (asset : Asset)
      (content : Bytes) (opens : files asset.local_path ≡ some content)
      (keeps : (included : Asset) (state : ParseState D)
        → IsState state
        → Post IsState IsThrown (include included state)) where
    abbrev pub deck : List Token
    deck = tokens (new_tokenizer content)

    -- What is said of the tokens that a keyword leaves, and of the state.
    abbrev pub IsParsed : List Token → List Token × ParseState D → Type 0
    IsParsed rest (later, state) = IsRest rest later × IsState state

    IsRef-array_ref :
        (keyword : Bytes) (integer : Bool)
        → HasKeyword keyword deck
        → IsRef files keyword integer (array_ref keyword asset integer)
    IsRef-array_ref keyword integer found = record {
      keyword_eq = refl;
      integer_eq = refl;
      content = content;
      opens = opens;
      found = found;
    }

    Post-include_record :
        (record_tokens : List Token) (state : ParseState D)
        → IsState state
        → Post IsState IsThrown
            (include_record double_zero strtod files resolve include asset record_tokens state)
    unfolding include_record
    Post-include_record [] state h = returns h
    Post-include_record (path ∷ record_tokens) state h =
        Post-require (resolve asset.identifier path.text) not_resolved _ tt
          (λ included _. keeps included state h)

    Post-then_grid :
        (rest later : List Token) (state : ParseState D) (parsed : Result DeckError (GridInfo D))
        → IsRest rest later
        → Post (IsGrid files) IsThrown parsed
        → Post
            (IsParsed rest)
            IsThrown
            (then_grid double_zero strtod files resolve later state parsed)
    Post-then_grid rest later state parsed r h = Post-bind parsed _ h (λ grid g. returns (r, g))

    Post-parse_property :
        (keyword : Bytes) (supported : Option Bool) (rest : List Token) (state : ParseState D)
        → is_supported_cell_property_keyword keyword ≡ supported
        → HasKeyword keyword deck
        → IsState state
        → Post (IsParsed rest) IsThrown (
            parse_property double_zero strtod files resolve include asset keyword supported rest
              state)
    unfolding parse_property
    Post-parse_property keyword (some integer) rest state s found h = returns (
      IsRest-skip_single_record rest,
      record {
        dims = h.dims;
        coord = h.coord;
        zcorn = h.zcorn;
        actnum = h.actnum;
        map_axes = h.map_axes;
        properties =
            AreProperties-set_property files keyword (array_ref keyword asset integer)
              state.grid.properties s (IsRef-array_ref keyword integer found) h.properties;
      },
    )
    Post-parse_property keyword none rest state s found h =
        if_holds (Post (IsParsed rest) IsThrown) (is_block_keyword keyword)
          (λ _. returns (IsRest-skip_block_from false rest, h))
          (λ _. returns (IsRest-skip_single_record rest, h))

    -- A reference under a keyword that the source compares with a name.
    IsRef-named :
        (keyword : Bytes) (name : String) (integer : Bool)
        → is_keyword keyword name ≡ true
        → HasKeyword keyword deck
        → IsRef files (codes name) integer (array_ref keyword asset integer)
    IsRef-named keyword name integer t found =
        subst (λ k. IsRef files k integer (array_ref keyword asset integer))
          ((same_iff keyword (codes name)).0 t) (IsRef-array_ref keyword integer found)

    Post-parse_array :
        (keyword : Bytes) (rest : List Token) (state : ParseState D)
        → HasKeyword keyword deck
        → IsState state
        → Post
            (IsParsed rest)
            IsThrown
            (parse_array double_zero strtod files resolve include asset keyword rest state)
    unfolding parse_array
    Post-parse_array keyword rest state found h =
        let skipped = IsRest-skip_single_record rest in
        let Q = Post (IsParsed rest) IsThrown in
        let named = λ (name : String) (integer : Bool) (t : is_keyword keyword name ≡ true).
          IsRef-named keyword name integer t found in
        if_holds Q (is_keyword keyword "COORD")
          (λ t. returns (skipped, IsGrid-with_coord files _ state.grid (named "COORD" false t) h))
          (λ _.
            if_holds Q (is_keyword keyword "ZCORN")
              (λ t.
                returns (skipped, IsGrid-with_zcorn files _ state.grid (named "ZCORN" false t) h))
              (λ _.
                if_holds Q (is_keyword keyword "ACTNUM")
                  (λ t.
                    returns
                      (skipped, IsGrid-with_actnum files _ state.grid (named "ACTNUM" true t) h))
                  (λ _.
                    Post-parse_property keyword (is_supported_cell_property_keyword keyword) rest
                      state refl found h)))

    pub Post-parse_keyword :
        (keyword : Bytes) (rest : List Token) (state : ParseState D)
        → HasKeyword keyword deck
        → IsState state
        → Post
            (IsParsed rest)
            IsThrown
            (parse_keyword double_zero strtod files resolve include asset keyword rest state)
    unfolding parse_keyword
    Post-parse_keyword keyword rest state found h =
        let record_tokens = (read_record_tokens rest).0 in
        let later = (read_record_tokens rest).1 in
        let read = IsRest-read_record_tokens rest in
        let Q = Post (IsParsed rest) IsThrown in
        let unit_kept = λ (unit : Bytes). IsGrid-with_unit files unit state.grid h in
        if_holds Q (is_keyword keyword "METRIC") (λ _. returns (IsRest-refl rest, unit_kept _))
          (λ _.
            if_holds Q
              (is_keyword keyword "FIELD"
                || is_keyword keyword "FIELD_US"
                || is_keyword keyword "FIELD_USA")
              (λ _. returns (IsRest-refl rest, unit_kept _))
              (λ _.
                if_holds Q (is_no_data_keyword keyword) (λ _. returns (IsRest-refl rest, h))
                  (λ _.
                    if_holds Q (is_keyword keyword "INCLUDE")
                      (λ _.
                        Post-bind _ _ (Post-include_record record_tokens state h)
                          (λ state' h'. returns (read, h')))
                      (λ _.
                        if_holds Q (is_keyword keyword "DIMENS" || is_keyword keyword "SPECGRID")
                          (λ _.
                            Post-then_grid rest later state _ read
                              (Post-parse_dim_record files record_tokens state.grid h))
                          (λ _.
                            if_holds Q (is_keyword keyword "MAPAXES")
                              (λ _. Post-then_grid rest later state _ read (
                                Post-parse_map_axes_record files double_zero strtod record_tokens
                                  state.grid h))
                              (λ _.
                                if_holds Q
                                  (is_keyword keyword "GRIDUNIT" || is_keyword keyword "MAPUNITS")
                                  (λ _. returns (
                                    read,
                                    IsGrid-parse_grid_unit_record files record_tokens state.grid h,
                                  ))
                                  (λ _. Post-parse_array keyword rest state found h)))))))
