-- ===== src/Eclipse/Deck/Sound/Parse.antt =====
-- The parse of a text deck, by what Sound states of a grid.
use cae_openusd_plugins.Prelude.{
  contains, ℕ, zero, suc, ◌+◌, ◌≤◌, ◌<◌, ◌≡◌, ◌≢◌, inl, refl, Bool, true, false, not, Option, none,
  some, List, [], ◌∷◌, Bytes, length, same_iff, ltb, arith,
}
use cae_openusd_plugins.Prelude.Result.{Result, ok, err}
use cae_openusd_plugins.Prelude.Post.{
  Post, returns, Post-bind, Post-guard, Post-require, Post-eq-ok, Post-eq-err, if_holds,
}
use cae_openusd_plugins.Eclipse.Text.{to_upper}
use cae_openusd_plugins.Eclipse.Deck.{Token, is_slash, new_tokenizer, tokens}
use cae_openusd_plugins.Eclipse.Deck.Numbers.{
  DeckError, too_deep, cannot_open, no_dimensions, no_coord, no_zcorn, out_of_fuel,
}
use cae_openusd_plugins.Eclipse.Deck.Grid.{
  Asset, ArrayRef, GridInfo, new_grid, ParseState, is_deck_stop_keyword,
}
use cae_openusd_plugins.Eclipse.Deck.Parse.{
  parse_deck_tokens, parse_content, parse_deck_file, parse_deck, is_some,
}
use cae_openusd_plugins.Eclipse.Deck.Arrays.{find_keyword}
use cae_openusd_plugins.Eclipse.Deck.Sound.{
  IsThrown, HasKeyword, IsRef, IsRefIfAny, IsGrid, IsDeckGrid,
}
use cae_openusd_plugins.Eclipse.Deck.Sound.Rest.{IsRest, IsRest-refl, IsRest-cons, IsRest-trans}
use cae_openusd_plugins.Eclipse.Deck.Sound.Keyword.{Post-parse_keyword}

module _ {D : Type 0} (double_zero : D) (strtod : Bytes → Option D) (files : Bytes → Option Bytes)
    (resolve : Bytes → Bytes → Option Asset) where
  abbrev IsState : ParseState D → Type 0
  IsState state = IsGrid files state.grid

  -- An include may run out of levels only.
  module _ (include : Asset → ParseState D → Result DeckError (ParseState D)) (asset : Asset)
      (content : Bytes) (opens : files asset.local_path ≡ some content)
      (keeps : (included : Asset) (state : ParseState D)
        → IsState state
        → Post IsState IsThrown (include included state)) where
    abbrev deck : List Token
    deck = tokens (new_tokenizer content)

    -- The token at the front is among the tokens.
    HasKeyword-head :
        (token : Token) (rest : List Token) → HasKeyword (to_upper token.text) (token ∷ rest)
    unfolding find_keyword
    HasKeyword-head token rest =
        (rest, rw ((same_iff (to_upper token.text) (to_upper token.text)).1 refl) refl)

    Post-parse_deck_tokens :
        (fuel : ℕ) (left : List Token) (state : ParseState D)
        → length left ≤ fuel
        → IsRest deck left
        → IsState state
        → Post IsState IsThrown
            (parse_deck_tokens double_zero strtod files resolve include asset fuel left state)
    unfolding parse_deck_tokens
    Post-parse_deck_tokens zero [] state h r k = returns k
    Post-parse_deck_tokens (suc fuel) [] state h r k = returns k
    Post-parse_deck_tokens zero (token ∷ rest) state h r k = absurd (omega arith)
    Post-parse_deck_tokens (suc fuel) (token ∷ rest) state h r k =
        let r' =
          IsRest-trans deck (token ∷ rest) rest r
            (IsRest-cons token rest rest (IsRest-refl rest)) in
        if_holds (Post IsState IsThrown) (is_slash token)
          (λ _. Post-parse_deck_tokens fuel rest state (omega (arith, h)) r' k)
          (λ _.
            if_holds (Post IsState IsThrown) (is_deck_stop_keyword (to_upper token.text))
              (λ _. returns k)
              (λ _.
                Post-bind _ _
                  (Post-parse_keyword double_zero strtod files resolve include asset content opens
                    keeps (to_upper token.text) rest state
                    (r.within (to_upper token.text) (HasKeyword-head token rest)) k)
                  (λ parsed p.
                    Post-parse_deck_tokens fuel parsed.0 parsed.1 (omega (arith, h, p.0.shorter))
                      (IsRest-trans deck rest parsed.0 r' p.0) p.1)))

  Post-parse_deck_file :
      (levels depth : ℕ) (asset : Asset) (state : ParseState D)
      → 65 < levels + depth
      → depth ≤ 65
      → IsState state
      → Post IsState IsThrown
          (parse_deck_file double_zero strtod files resolve levels depth asset state)
  unfolding parse_deck_file parse_content
  Post-parse_deck_file zero depth asset state h d k = absurd (omega arith)
  Post-parse_deck_file (suc levels) depth asset state h d k =
      Post-guard (not (ltb 64 depth)) too_deep _ tt (λ t.
        if_holds (Post IsState IsThrown) (contains state.visited_files asset.identifier)
          (λ _. returns k)
          (λ _. Post-require (files asset.local_path) cannot_open _ tt (λ content opens.
            Post-parse_deck_tokens
              (parse_deck_file double_zero strtod files resolve levels (suc depth)) asset content
              opens
              (λ included state' k'.
                Post-parse_deck_file levels (suc depth) included state' (omega (arith, h))
                  (not_deep depth t) k')
              (length (tokens (new_tokenizer content))) (tokens (new_tokenizer content)) _
              (omega arith) (IsRest-refl (tokens (new_tokenizer content))) k)))
    where
      not_deep : (depth : ℕ) → not (ltb 64 depth) ≡ true → suc depth ≤ 65
      not_deep depth t = ground arith

  Post-parse_deck :
      (asset : Asset)
      → Post (IsDeckGrid files) IsThrown (parse_deck double_zero strtod files resolve asset)
  unfolding parse_deck
  Post-parse_deck asset =
      Post-bind _ _
        (Post-parse_deck_file 66 0 asset (record { grid = new_grid; visited_files = [] })
          (omega arith) (omega arith) new_grid-IsGrid)
        (λ state h. Post-guard state.grid.has_dims no_dimensions _ tt (λ dims.
          Post-guard (is_some state.grid.coord) no_coord _ tt (λ coord.
            Post-guard (is_some state.grid.zcorn) no_zcorn _ tt (λ zcorn. returns (record {
              dims = h.dims dims;
              coord = present state.grid.coord coord h.coord;
              zcorn = present state.grid.zcorn zcorn h.zcorn;
              actnum = h.actnum;
              map_axes = h.map_axes;
              properties = h.properties;
            })))))
    where
      new_grid-IsGrid : IsGrid files {D = D} new_grid
      new_grid-IsGrid = record {
        dims = λ e. cc;
        coord = tt;
        zcorn = tt;
        actnum = tt;
        map_axes = inl refl;
        properties = tt;
      }

      present :
          {keyword : Bytes} {integer : Bool} (o : Option ArrayRef)
          → is_some o ≡ true
          → IsRefIfAny files keyword integer o
          → (ref : ArrayRef) × (o ≡ some ref) × IsRef files keyword integer ref
      present none e h = cc
      present (some ref) e h = (ref, refl, h)

  -- The parse of a text deck ends, whatever the files, the included ones and their resolver are:
  -- neither the levels of included files nor the loop over the tokens of a file run out of fuel.
  -- A grid that it gives has three positive dimensions, each an int; the arrays COORD and ZCORN,
  -- and possibly ACTNUM; axes of no or of six numbers; and properties that the reader supports,
  -- of the type of their keyword. Each array is in a file that opens and has its keyword.
  pub parse_deck_sound :
      (asset : Asset)
      → (parse_deck double_zero strtod files resolve asset ≢ err out_of_fuel)
        × ((grid : GridInfo D)
            → parse_deck double_zero strtod files resolve asset ≡ ok grid
            → IsDeckGrid files grid)
  parse_deck_sound asset = (
    (λ e. let clash : true ≡ false = Post-eq-err (Post-parse_deck asset) e in cc),
    (λ grid e. Post-eq-ok (Post-parse_deck asset) e),
  )
