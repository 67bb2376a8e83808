-- ===== src/Targets/Parse/Steps.antt =====
-- What the parser reads from the tokens of a filter (server/src/engine/target_filter.cpp).
use Prim.Native.String.{String}
use text.Mathlib.Text.{◌==◌ as str_eq}
use uud.Base.{
  is_some, All, any_of, ℕ, ◌≡◌, refl, ◌∙◌, ◌≢◌, Bool, true, false, not, ◌&&◌, ◌||◌, Option, none,
  some, List, [], ◌∷◌, ◌++◌, arith,
}
use uud.Card.{CardType, creature, instant, sorcery, enchantment, artifact, planeswalker, land}
use uud.Targets.{
  Controller, TargetZone, TargetFilter, new_filter, bytes, any, you, opponent, battlefield,
  graveyard, hand, any_zone,
}
use uud.Targets.Parse.{
  try_parse_card_type, ParseState, value_text, parse_token, next_token, takes_next, parse_tokens,
}
use uud.Targets.Parse.Tokens.{is_clean}
use uud.Targets.Parse.Words.{
  type_word, type_tokens, subtype_tokens, player_tokens, controller_tokens, keyword_tokens,
  zone_tokens, tokens_of, reserved, is_noun,
}

-- What the tokens do to a filter that was read so far.
abbrev pub state : TargetFilter → ParseState
state f = record { filter = f; permanent = false }

type_step :
    (t : CardType) (tokens : List String) (f : TargetFilter)
    → parse_tokens false (type_word t ∷ tokens) (state f)
      ≡ parse_tokens false tokens (state (record f { card_type = some t }))
unfolding parse_tokens parse_token try_parse_card_type bytes
type_step creature [] f = refl
type_step creature (x ∷ xs) f = refl
type_step instant [] f = refl
type_step instant (x ∷ xs) f = refl
type_step sorcery [] f = refl
type_step sorcery (x ∷ xs) f = refl
type_step enchantment [] f = refl
type_step enchantment (x ∷ xs) f = refl
type_step artifact [] f = refl
type_step artifact (x ∷ xs) f = refl
type_step planeswalker [] f = refl
type_step planeswalker (x ∷ xs) f = refl
type_step land [] f = refl
type_step land (x ∷ xs) f = refl

three_parts : (a b c : Bool) → (a && not b && not c) ≡ true → (a ≡ true) × (b ≡ false) × (c ≡ false)
three_parts a b c h = ground arith

neither : (a b : Bool) → (a || b) ≡ false → (a ≡ false) × (b ≡ false)
neither a b h = ground arith

pub noun_parts :
    (s : String)
    → is_noun s ≡ true
    → (is_clean s ≡ true)
      × (any_of (λ w. str_eq s w) reserved ≡ false)
      × (is_some (value_text (bytes s)) ≡ false)
noun_parts s h = three_parts (is_clean s) _ _ h

no_value : (o : Option (List ℕ)) → is_some o ≡ false → o ≡ none
no_value none h = refl
no_value (some l) h = absurd (cc)

-- A text that is no reserved word is none of them.
any_of-All :
    {A : Type 0} (test : A → Bool) (xs : List A)
    → any_of test xs ≡ false
    → All (λ x. test x ≡ false) xs
any_of-All test [] h = tt
any_of-All test (x ∷ xs) h =
    let (first, others) = neither (test x) _ h in (first, any_of-All test xs others)

noun_token :
    (s : String) (next : Option String) (f : TargetFilter)
    → is_noun s ≡ true
    → parse_token s next (state f) ≡ state (record f { subtype = some s })
unfolding parse_token try_parse_card_type
noun_token s none f h =
    let (_, free, plain) = noun_parts s h in
    let (
      e1,
      (
        e2,
        (
          e3,
          (
            e16,
            (e17, (e4, (e5, (e6, (e7, (e8, (e9, (e10, (e11, (e12, (e13, (e14, (e15, _))))))))))))),
          ),
        ),
      ),
    ) =
      any_of-All (λ w. str_eq s w) reserved free in
    rw (e1, e2, e3, no_value _ plain, e4, e5, e6, e7, e8, e9, e10, e11, e12, e13, e14, e15) refl
noun_token s (some next) f h =
    let (_, free, plain) = noun_parts s h in
    let (
      e1,
      (
        e2,
        (
          e3,
          (
            e16,
            (e17, (e4, (e5, (e6, (e7, (e8, (e9, (e10, (e11, (e12, (e13, (e14, (e15, _))))))))))))),
          ),
        ),
      ),
    ) =
      any_of-All (λ w. str_eq s w) reserved free in
    rw
      (e1, e2, e3, e16, e17, no_value _ plain, e4, e5, e6, e7, e8, e9, e10, e11, e12, e13, e14, e15)
      refl

noun_alone : (s : String) → is_noun s ≡ true → takes_next s ≡ false
noun_alone s h = ground arith

subtype_step :
    (s : String) (tokens : List String) (f : TargetFilter)
    → is_noun s ≡ true
    → parse_tokens false (s ∷ tokens) (state f)
      ≡ parse_tokens false tokens (state (record f { subtype = some s }))
unfolding parse_tokens
subtype_step s tokens f h = rw (noun_alone s h, noun_token s (next_token tokens) f h) refl

player_step :
    (players : Bool) (tokens : List String) (f : TargetFilter)
    → parse_tokens false
        (player_tokens players ++ tokens)
        (state (record f { targets_players = false }))
      ≡ parse_tokens false tokens (state (record f { targets_players = players }))
unfolding parse_tokens parse_token bytes
player_step false tokens f = refl
player_step true [] f = refl
player_step true (x ∷ xs) f = refl

controller_step :
    (c : Controller) (tokens : List String) (f : TargetFilter)
    → parse_tokens false (controller_tokens c ++ tokens) (state (record f { controller = any }))
      ≡ parse_tokens false tokens (state (record f { controller = c }))
unfolding parse_tokens parse_token
controller_step any tokens f = refl
controller_step you tokens f = refl
controller_step opponent tokens f = refl

keyword_step :
    (k : Option String) (tokens : List String) (f : TargetFilter)
    → parse_tokens false (keyword_tokens k ++ tokens) (state (record f { required_keyword = none }))
      ≡ parse_tokens false tokens (state (record f { required_keyword = k }))
unfolding parse_tokens parse_token
keyword_step none tokens f = refl
keyword_step (some k) tokens f = refl

zone_step :
    (z : TargetZone) (f : TargetFilter)
    → z ≢ any_zone
    → parse_tokens false (zone_tokens z) (state (record f { zone = battlefield }))
      ≡ state (record f { zone = z })
unfolding parse_tokens parse_token
zone_step battlefield f h = refl
zone_step graveyard f h = refl
zone_step hand f h = refl
zone_step any_zone f h = absurd (h refl)

types_step :
    (t : Option CardType) (tokens : List String) (f : TargetFilter)
    → parse_tokens false (type_tokens t ++ tokens) (state (record f { card_type = none }))
      ≡ parse_tokens false tokens (state (record f { card_type = t }))
types_step none tokens f = refl
types_step (some t) tokens f = type_step t tokens (record f { card_type = none })

abbrev pub IsNoun : Option String → Type 0
IsNoun none = Unit
IsNoun (some s) = is_noun s ≡ true

abbrev pub IsKeyword : Option String → Type 0
IsKeyword none = Unit
IsKeyword (some k) = is_clean k ≡ true

subtypes_step :
    (s : Option String) (tokens : List String) (f : TargetFilter)
    → IsNoun s
    → parse_tokens false (subtype_tokens s ++ tokens) (state (record f { subtype = none }))
      ≡ parse_tokens false tokens (state (record f { subtype = s }))
subtypes_step none tokens f h = refl
subtypes_step (some s) tokens f h = subtype_step s tokens (record f { subtype = none }) h

pub tokens_back :
    (f : TargetFilter)
    → IsNoun f.subtype
    → f.zone ≢ any_zone
    → parse_tokens false (tokens_of f) (state new_filter)
      ≡ state (record f { max_mana_value = none })
tokens_back f noun named =
    types_step f.card_type _ new_filter
    ∙ subtypes_step f.subtype _ (record new_filter { card_type = f.card_type }) noun
    ∙ player_step f.targets_players _
        (record new_filter { card_type = f.card_type; subtype = f.subtype })
    ∙ controller_step f.controller _ (record new_filter {
      card_type = f.card_type;
      subtype = f.subtype;
      targets_players = f.targets_players;
    })
    ∙ keyword_step f.required_keyword _ (record new_filter {
      card_type = f.card_type;
      subtype = f.subtype;
      targets_players = f.targets_players;
      controller = f.controller;
    })
    ∙ zone_step f.zone (record f { max_mana_value = none }) named
