-- ===== src/Targets/Parse/RoundTrip.antt =====
-- Target filters that the parser (server/src/engine/target_filter.cpp) reads back.
use Prim.Native.String.{String}
use uud.Base.{
  &&_split, all_of, ◌≡◌, refl, sym, ap, ◌∙◌, ◌≢◌, Bool, true, false, Option, none, some, List, [],
  ◌∷◌, ◌++◌, arith,
}
use uud.Card.{CardType, creature, instant, sorcery, enchantment, artifact, planeswalker, land}
use uud.Targets.{Controller, TargetZone, TargetFilter, new_filter, any_zone}
use uud.Targets.Parse.{parse_tokens, finish, parse_filter}
use uud.Targets.Parse.Tokens.{is_unmarked, join, is_clean, split_tokens-join}
use uud.Targets.Parse.Words.{
  type_tokens, subtype_tokens, player_tokens, controller_tokens, keyword_tokens, zone_tokens,
  tokens_of,
}
use uud.Targets.Parse.Steps.{state, noun_parts, IsNoun, IsKeyword, tokens_back}

all_of_append :
    {A : Type 0} (test : A → Bool) (xs ys : List A)
    → all_of test xs ≡ true
    → all_of test ys ≡ true
    → all_of test (xs ++ ys) ≡ true
all_of_append test [] ys h k = k
all_of_append test (x ∷ xs) ys h k =
    let (first, others) = &&_split (test x) _ h in rw first (all_of_append test xs ys others k)

type_clean : (t : Option CardType) → all_of is_clean (type_tokens t) ≡ true
unfolding is_unmarked
type_clean none = refl
type_clean (some creature) = refl
type_clean (some instant) = refl
type_clean (some sorcery) = refl
type_clean (some enchantment) = refl
type_clean (some artifact) = refl
type_clean (some planeswalker) = refl
type_clean (some land) = refl

subtype_clean : (s : Option String) → IsNoun s → all_of is_clean (subtype_tokens s) ≡ true
subtype_clean none h = refl
subtype_clean (some s) h = rw ((noun_parts s h).0) refl

player_clean : (b : Bool) → all_of is_clean (player_tokens b) ≡ true
unfolding is_unmarked
player_clean b = ground arith

controller_clean : (c : Controller) → all_of is_clean (controller_tokens c) ≡ true
unfolding is_unmarked
controller_clean c = ground arith

keyword_clean : (k : Option String) → IsKeyword k → all_of is_clean (keyword_tokens k) ≡ true
unfolding is_unmarked
keyword_clean none h = refl
keyword_clean (some k) h = rw h refl

zone_clean : (z : TargetZone) → all_of is_clean (zone_tokens z) ≡ true
unfolding is_unmarked
zone_clean z = ground arith

tokens_clean :
    (f : TargetFilter)
    → IsNoun f.subtype
    → IsKeyword f.required_keyword
    → all_of is_clean (tokens_of f) ≡ true
tokens_clean f noun key =
    all_of_append is_clean (type_tokens f.card_type) _ (type_clean f.card_type) (
      all_of_append is_clean (subtype_tokens f.subtype) _ (subtype_clean f.subtype noun) (
        all_of_append is_clean (player_tokens f.targets_players) _ (player_clean f.targets_players)
          (all_of_append is_clean (controller_tokens f.controller) _ (controller_clean f.controller)
            (all_of_append is_clean (keyword_tokens f.required_keyword) _
              (keyword_clean f.required_keyword key) (zone_clean f.zone)))))

-- A filter that has no bound on the mana value, names one zone, and whose subtype and keyword are
-- single tokens, the subtype none of the parser's own words, is read back from its text.
pub parse_filter-print :
    (f : TargetFilter)
    → f.max_mana_value ≡ none
    → f.zone ≢ any_zone
    → IsNoun f.subtype
    → IsKeyword f.required_keyword
    → parse_filter (join (tokens_of f)) ≡ f
unfolding parse_filter
parse_filter-print f free named noun key =
    ap (λ tokens. finish (parse_tokens false tokens (state new_filter)))
      (split_tokens-join (tokens_of f) (tokens_clean f noun key))
    ∙ ap finish (tokens_back f noun named)
    ∙ ap (λ m. record f { max_mana_value = m }) (sym free)
