-- ===== src/Combat/Rules.antt =====
-- The checks of server/src/engine/combat_manager.cpp on attackers and blockers.
use uud.Base.Maps.{Map}
use uud.Base.{
  ltb, leb, ◌==◌, if◌then◌else◌, length, all_of, keep_if, ℕ, Bool, true, false, not, ◌&&◌, ◌||◌,
  Option, none, some, List, [], ◌∷◌, map,
}
use uud.Card.{same_type, color_colorless, color_and, artifact}
use uud.Permanent.{Permanent, is_creature, has_keyword, has_protection_from}
use uud.Zones.{ZoneManager, find_permanent}
use uud.Combat.{CombatManager, is_blocked, strikes}

unfoldable pub attackers_needing_blocker_order : Map (List ℕ) → List ℕ
attackers_needing_blocker_order [] = []
attackers_needing_blocker_order ((id, blockers) ∷ m) =
    let rest = attackers_needing_blocker_order m in
    if leb 2 (length blockers) then id ∷ rest else rest

unfoldable pub tramples : CombatManager → ZoneManager → Bool → ℕ → Bool
tramples c zones first_strike_only id = elim (find_permanent id zones) [
  | none ↦ false
  | some perm ↦
      is_creature perm
      && has_keyword "Trample" perm
      && is_blocked id c
      && strikes first_strike_only perm
]

unfoldable pub trample_attackers : CombatManager → ZoneManager → Bool → List ℕ
trample_attackers c zones first_strike_only =
    keep_if (tramples c zones first_strike_only) (map (λ a. a.attacker_id) c.state.attackers)

unfoldable pub validate_attacker : ℕ → ZoneManager → Bool
validate_attacker creature_id zones = elim (find_permanent creature_id zones) [
  | none ↦ false
  | some perm ↦
      if not (is_creature perm)
      then false
      else (if perm.tapped
          then false
          else (if perm.summoning_sick && not (has_keyword "Haste" perm)
              then false
              else (if has_keyword "Defender" perm
                  then false
                  else (if has_keyword "Can't Attack" perm then false else true))))
]

abbrev must_attack : ℕ → Permanent → Bool
must_attack player_id perm =
    if not (perm.controller_id == player_id)
    then false
    else (if not (is_creature perm) || perm.tapped
        then false
        else (if perm.summoning_sick && not (has_keyword "Haste" perm)
            then false
            else (if has_keyword "Defender" perm then false else has_keyword "Must Attack" perm)))

abbrev ids_that_must : ℕ → Map Permanent → List ℕ
ids_that_must player_id [] = []
ids_that_must player_id ((id, perm) ∷ m) =
    let rest = ids_that_must player_id m in if must_attack player_id perm then id ∷ rest else rest

unfoldable pub must_attack_creatures : ℕ → ZoneManager → List ℕ
must_attack_creatures player_id zones = ids_that_must player_id zones.battlefield

abbrev evades : Permanent → Permanent → Bool
evades attacker blocker =
    has_keyword "Flying" attacker
    && not (has_keyword "Flying" blocker)
    && not (has_keyword "Reach" blocker)

abbrev intimidates : Permanent → Permanent → Bool
intimidates attacker blocker =
    let shares_color =
      not (color_and attacker.card.colors blocker.card.colors == color_colorless) in
    has_keyword "Intimidate" attacker
    && not (same_type blocker.card.type artifact)
    && not shares_color

abbrev can_block : Permanent → Permanent → Bool
can_block blocker attacker =
    if not (is_creature blocker)
    then false
    else (if blocker.tapped
        then false
        else (if has_keyword "Can't Block" blocker
            then false
            else (if evades attacker blocker
                then false
                else (if intimidates attacker blocker
                    then false
                    else (if has_protection_from blocker attacker then false else true)))))

unfoldable pub validate_blocker : ℕ → ℕ → ZoneManager → Bool
validate_blocker blocker_id attacker_id zones = elim (find_permanent blocker_id zones) [
  | none ↦ false
  | some blocker ↦ elim (find_permanent attacker_id zones) [
    | none ↦ false
    | some attacker ↦ can_block blocker attacker
  ]
]

abbrev pub has_menace : Option Permanent → Bool
has_menace none = false
has_menace (some attacker) = has_keyword "Menace" attacker

abbrev pub menace_kept : ZoneManager → ℕ × List ℕ → Bool
menace_kept zones (id, []) = true
menace_kept zones (id, b ∷ bs) =
    not (has_menace (find_permanent id zones) && ltb (length (b ∷ bs)) 2)

unfoldable pub validate_menace : CombatManager → ZoneManager → Bool
validate_menace c zones = all_of (menace_kept zones) c.state.damage_order
