-- ===== src/Combat/Tests.antt =====
-- Tests and witnesses for combat.
use Prim.Native.String.{String}
use uud.Base.Int.{◌+ℤ◌, ◌-ℤ◌, ◌≤ℤ◌, ltb_ℤ, pos}
use uud.Base.Maps
use uud.Base.StringMaps
use uud.Base.{
  ◌==◌, any_of, ℕ, ◌≡◌, refl, ◌⊎◌, true, false, ◌&&◌, ◌||◌, none, some, List, [], ◌∷◌, arith,
}
use uud.Card.{Card, new_card, creature}
use uud.Permanent.{
  Permanent, new_permanent, get_counters, is_creature, counter_mod, effective_power,
  effective_toughness, has_keyword, has_protection_from,
}
use uud.Zones.{ZoneManager, no_zones, find_permanent}
use uud.Combat.{
  AttackDeclaration, BlockDeclaration, CombatManager, new_state, begin_combat, set_attackers,
  order_blocks, set_blockers, is_blocked, get_blockers_for, strikes, hit, hit_blockers, hits_of,
  attacker_damage, blocker_damage, resolve_combat_damage,
}
use uud.Combat.Blocks.{declared_for, set_blockers_lem}
use uud.Combat.Damage.{total_damage, AllNonneg, lethal_hits, hit_blockers-lethal}
use uud.Combat.Rules.{validate_attacker, validate_blocker, validate_menace}
use uud.Combat.Strikes.{attacker_damage-one_pass}
use uud.Combat.Trample.{is_empty, attacker_damage-total}

abbrev creature_card : ℕ → ℕ → ℕ → List String → Card
creature_card id power toughness kws = record (new_card id "Creature" creature) {
  creature_stats = some (record { power = pos power; toughness = pos toughness });
  keywords = kws;
}

abbrev rhino : Permanent
rhino = new_permanent (creature_card 1 4 5 ("Trample" ∷ [])) 1 1

abbrev bear : Permanent
bear = new_permanent (creature_card 2 2 2 []) 2 2

abbrev field : ZoneManager
field = record no_zones { battlefield = (1, rhino) ∷ (2, bear) ∷ [] }

abbrev attack : AttackDeclaration
attack = record { attacker_id = 1; defending_player_id = 9 }

abbrev combat : CombatManager
combat =
    set_blockers (record { blocker_id = 2; attacker_id = 1 } ∷ []) (
      set_attackers (attack ∷ []) (begin_combat (record { state = new_state; custom_damage = [] })))

damage_dealt :
    resolve_combat_damage combat field false
    ≡ hit 1 2 (pos 2) ∷ hit 1 9 (pos 2) ∷ hit 2 1 (pos 2) ∷ []
unfolding resolve_combat_damage attacker_damage blocker_damage hits_of hit_blockers strikes
    find_permanent set_blockers order_blocks set_attackers begin_combat get_blockers_for Maps.lookup
    Maps.insert effective_power effective_toughness is_creature has_keyword counter_mod get_counters
    StringMaps.lookup ◌+ℤ◌ ◌-ℤ◌
damage_dealt = refl

rules_hold : validate_attacker 1 field ≡ false
unfolding validate_attacker find_permanent Maps.lookup is_creature has_keyword
rules_hold = refl

block_allowed : validate_blocker 2 1 field && validate_menace combat field ≡ true
unfolding validate_blocker validate_menace find_permanent Maps.lookup is_creature has_keyword
    has_protection_from set_blockers order_blocks set_attackers begin_combat Maps.insert
block_allowed = refl

rhino_there : find_permanent 1 field ≡ some rhino
unfolding find_permanent Maps.lookup
rhino_there = refl

rhino_ready :
    is_creature rhino && strikes false rhino && ltb_ℤ (pos 0) (effective_power rhino) ≡ true
unfolding strikes is_creature has_keyword effective_power counter_mod get_counters StringMaps.lookup
    ◌+ℤ◌ ◌-ℤ◌
rhino_ready = refl

unchosen : Maps.lookup 1 combat.custom_damage ≡ none
unfolding set_blockers set_attackers begin_combat Maps.lookup
unchosen = refl

rhino_single : has_keyword "Double Strike" rhino ≡ false
unfolding has_keyword
rhino_single = refl

power_left : ltb_ℤ (pos 0) ((hit_blockers 1 rhino field (2 ∷ []) (pos 4)).1) ≡ true
unfolding hit_blockers find_permanent Maps.lookup has_keyword effective_toughness counter_mod
    get_counters StringMaps.lookup ◌+ℤ◌ ◌-ℤ◌
power_left = refl

attacker_damage-total_example :
    AllNonneg (attacker_damage combat field false attack)
    × (total_damage (attacker_damage combat field false attack) ≤ℤ effective_power rhino)
    × ((total_damage (attacker_damage combat field false attack) ≡ effective_power rhino)
        ⊎ (is_empty (get_blockers_for 1 combat) || has_keyword "Trample" rhino ≡ false))
attacker_damage-total_example =
    attacker_damage-total combat field false attack rhino rhino_there rhino_ready unchosen

hit_blockers-lethal_example :
    (hit_blockers 1 rhino field (2 ∷ []) (pos 4)).0 ≡ lethal_hits 1 rhino field (2 ∷ [])
hit_blockers-lethal_example =
    hit_blockers-lethal 1 rhino field (2 ∷ []) (pos 4) (omega arith) power_left

attacker_damage-one_pass_example :
    (attacker_damage combat field false attack ≡ [])
    ⊎ (attacker_damage combat field true attack ≡ [])
attacker_damage-one_pass_example =
    attacker_damage-one_pass combat field attack rhino rhino_there rhino_single

set_blockers_lem_example :
    (get_blockers_for 1 (set_blockers (record { blocker_id = 2; attacker_id = 1 } ∷ []) combat)
      ≡ declared_for 1 (record { blocker_id = 2; attacker_id = 1 } ∷ []))
    × (is_blocked 1 (set_blockers (record { blocker_id = 2; attacker_id = 1 } ∷ []) combat)
        ≡ any_of
            (λ (b : BlockDeclaration). b.attacker_id == 1)
            (record { blocker_id = 2; attacker_id = 1 } ∷ []))
set_blockers_lem_example =
    set_blockers_lem 1 (record { blocker_id = 2; attacker_id = 1 } ∷ []) combat
