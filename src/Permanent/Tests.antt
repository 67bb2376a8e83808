-- ===== src/Permanent/Tests.antt =====
-- Tests and witnesses for permanents.
use uud.Base.{◌≡◌, refl, ◌⊎◌, true, false, ◌&&◌, some, [], ◌∷◌, arith}
use uud.Base.Int.{◌+ℤ◌, ◌-ℤ◌, ltb_ℤ, pos}
use uud.Base.StringMaps
use uud.Card.{Card, new_card, creature}
use uud.Permanent.{
  Permanent, new_permanent, get_counters, remove_counter, is_creature, plus_one, minus_one,
  counter_mod, effective_power, effective_toughness, has_lethal_damage, has_keyword, mark_damage,
  cancel_counters,
}
use uud.Permanent.Annihilation.{cancel_counters-keeps_stats, cancel_counters-one_kind}
use uud.Permanent.Keywords.{keyword_steps, IsCounted, keyword_steps-IsCounted}

abbrev bear : Card
bear = record (new_card 7 "Grizzly Bears" creature) {
  creature_stats = some (record { power = pos 2; toughness = pos 2 });
  keywords = "Trample" ∷ [];
}

abbrev grown_bear : Permanent
grown_bear = record (new_permanent bear 1 1) { counters = ("+1/+1", pos 3) ∷ ("-1/-1", pos 1) ∷ [] }

grown_power : effective_power grown_bear ≡ pos 4
unfolding effective_power counter_mod get_counters StringMaps.lookup ◌+ℤ◌ ◌-ℤ◌
grown_power = refl

annihilated : (cancel_counters grown_bear).counters ≡ ("+1/+1", pos 2) ∷ []
unfolding cancel_counters get_counters remove_counter StringMaps.lookup StringMaps.insert
    StringMaps.erase ◌-ℤ◌
annihilated = refl

lethal : has_lethal_damage (mark_damage (pos 4) grown_bear) ≡ true
unfolding has_lethal_damage mark_damage is_creature effective_toughness counter_mod get_counters
    StringMaps.lookup ◌+ℤ◌ ◌-ℤ◌
lethal = refl

bear-IsCounted : IsCounted "Flying" grown_bear
unfolding has_keyword get_counters StringMaps.lookup
bear-IsCounted = record { unprinted = refl; nonneg = omega arith; agrees = refl }

cancel_counters-keeps_stats_example :
    (effective_power (cancel_counters grown_bear) ≡ effective_power grown_bear)
    × (effective_toughness (cancel_counters grown_bear) ≡ effective_toughness grown_bear)
cancel_counters-keeps_stats_example = cancel_counters-keeps_stats grown_bear

both_kinds :
    ltb_ℤ (pos 0) (get_counters plus_one grown_bear)
      && ltb_ℤ (pos 0) (get_counters minus_one grown_bear)
    ≡ true
unfolding get_counters StringMaps.lookup
both_kinds = refl

cancel_counters-one_kind_example :
    (get_counters plus_one (cancel_counters grown_bear) ≡ pos 0)
    ⊎ (get_counters minus_one (cancel_counters grown_bear) ≡ pos 0)
cancel_counters-one_kind_example = cancel_counters-one_kind grown_bear both_kinds

keyword_steps-IsCounted_example :
    IsCounted "Flying" (keyword_steps "Flying" (true ∷ true ∷ false ∷ []) grown_bear)
keyword_steps-IsCounted_example =
    keyword_steps-IsCounted "Flying" (true ∷ true ∷ false ∷ []) grown_bear bear-IsCounted
