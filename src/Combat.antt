-- ===== src/Combat.antt =====
-- combat_manager.hpp and combat_manager.cpp (server/src/engine): the declarations of a combat and
-- the damage that they deal. An `int` is an integer.
pub mod Beyond
pub mod Blocks
pub mod Damage
pub mod Rules
pub mod Strikes
pub mod Trample
mod Tests
use Prim.Native.String.{String}
use uud.Base.Int.{ℤ, ◌-ℤ◌, ltb_ℤ, pos}
use uud.Base.Maps.{Map}
use uud.Base.Maps
use uud.Base.{
  if◌then◌else◌, push_back, ℕ, Bool, true, false, not, ◌&&◌, ◌||◌, Option, none, some, List, [],
  ◌∷◌, ◌++◌,
}
use uud.Permanent.{
  Permanent, max_ℤ, min_ℤ, is_creature, effective_power, effective_toughness, has_keyword,
}
use uud.Zones.{ZoneManager, find_permanent}

pub record AttackDeclaration : Type 0 where
  pub attacker_id : ℕ
  pub defending_player_id : ℕ

pub record BlockDeclaration : Type 0 where
  pub blocker_id : ℕ
  pub attacker_id : ℕ

pub record DamageAssignment : Type 0 where
  pub source_id : ℕ
  pub target_id : ℕ
  pub amount : ℤ
  pub is_combat_damage : Bool

pub record CombatState : Type 0 where
  pub attackers : List AttackDeclaration
  pub blockers : List BlockDeclaration
  pub damage_order : Map (List ℕ)
  pub active : Bool

pub record CustomDamage : Type 0 where
  pub blocker_damage : List ℤ
  pub player_damage : ℤ

pub record CombatManager : Type 0 where
  pub state : CombatState
  pub custom_damage : Map CustomDamage

abbrev pub new_state : CombatState
new_state = record { attackers = []; blockers = []; damage_order = []; active = false }

unfoldable pub begin_combat : CombatManager → CombatManager
begin_combat c = record c { state = record new_state { active = true } }

unfoldable pub set_attackers : List AttackDeclaration → CombatManager → CombatManager
set_attackers attackers c = record c { state = record c.state { attackers = attackers } }

abbrev pub push_id : ℕ → ℕ → Map (List ℕ) → Map (List ℕ)
push_id key id m = Maps.insert key (push_back (Maps.at [] key m) id) m

unfoldable pub order_blocks : List BlockDeclaration → Map (List ℕ) → Map (List ℕ)
order_blocks [] m = m
order_blocks (b ∷ bs) m = order_blocks bs (push_id b.attacker_id b.blocker_id m)

unfoldable pub set_blockers : List BlockDeclaration → CombatManager → CombatManager
set_blockers blockers c = record c {
  state = record c.state { blockers = blockers; damage_order = order_blocks blockers [] };
}

abbrev pub has_entry : Option (List ℕ) → Bool
has_entry none = false
has_entry (some _) = true

unfoldable pub is_blocked : ℕ → CombatManager → Bool
is_blocked attacker_id c = has_entry (Maps.lookup attacker_id c.state.damage_order)

unfoldable pub get_blockers_for : ℕ → CombatManager → List ℕ
get_blockers_for attacker_id c = Maps.at [] attacker_id c.state.damage_order

-- Whether a creature strikes in the first strike pass (true) or in the regular one (false).
unfoldable pub strikes : Bool → Permanent → Bool
strikes first_strike_only p =
    let has_first_strike = has_keyword "First Strike" p || has_keyword "Double Strike" p in
    let has_regular = not (has_keyword "First Strike" p) || has_keyword "Double Strike" p in
    if first_strike_only && not has_first_strike
    then false
    else (if not first_strike_only && not has_regular then false else true)

abbrev pub hit : ℕ → ℕ → ℤ → DamageAssignment
hit source_id target_id amount = record {
  source_id = source_id;
  target_id = target_id;
  amount = amount;
  is_combat_damage = true;
}

-- The loop over the blockers and the given damage, as long as both last.
unfoldable pub custom_hits : ℕ → List ℕ → List ℤ → List DamageAssignment
custom_hits source (b ∷ bs) (d ∷ ds) =
    let rest = custom_hits source bs ds in if ltb_ℤ (pos 0) d then hit source b d ∷ rest else rest
custom_hits source _ _ = []

abbrev pub lethal_for : Permanent → Permanent → ℤ
lethal_for attacker blocker =
    if has_keyword "Deathtouch" attacker
    then pos 1
    else effective_toughness blocker -ℤ blocker.damage_marked

abbrev pub assigned : Permanent → Permanent → ℤ → ℤ
assigned attacker blocker remaining = min_ℤ remaining (max_ℤ (lethal_for attacker blocker) (pos 0))

-- The damage to one blocker: none for one that has left, or when nothing remains.
abbrev pub share : Permanent → ℤ → Option Permanent → Option ℤ
share attacker remaining none = none
share attacker remaining (some blocker) =
    if ltb_ℤ (pos 0) remaining then some (assigned attacker blocker remaining) else none

abbrev pub left_of : ℤ → Option ℤ → ℤ
left_of remaining none = remaining
left_of remaining (some amount) = remaining -ℤ amount

abbrev pub add_hit : ℕ → ℕ → Option ℤ → List DamageAssignment → List DamageAssignment
add_hit source b none hits = hits
add_hit source b (some amount) hits = hit source b amount ∷ hits

-- The damage to the blockers in order, and what remains of the power.
unfoldable pub hit_blockers : ℕ → Permanent → ZoneManager → List ℕ → ℤ → List DamageAssignment × ℤ
hit_blockers source attacker zones [] remaining = ([], remaining)
hit_blockers source attacker zones (b ∷ bs) remaining =
    let amount = share attacker remaining (find_permanent b zones) in
    let rest = hit_blockers source attacker zones bs (left_of remaining amount) in
    (add_hit source b amount rest.0, rest.1)

abbrev pub one_hit : Bool → DamageAssignment → List DamageAssignment
one_hit b d = if b then d ∷ [] else []

-- What a blocked attacker deals without a chosen assignment.
abbrev pub ordered_hits :
    AttackDeclaration → Permanent → ZoneManager → List ℕ → ℤ → List DamageAssignment
ordered_hits atk attacker zones blockers power =
    let dealt = hit_blockers atk.attacker_id attacker zones blockers power in
    dealt.0
    ++ one_hit (ltb_ℤ (pos 0) dealt.1 && has_keyword "Trample" attacker)
        (hit atk.attacker_id atk.defending_player_id dealt.1)

abbrev pub chosen_hits : AttackDeclaration → List ℕ → CustomDamage → List DamageAssignment
chosen_hits atk blockers cd =
    custom_hits atk.attacker_id blockers cd.blocker_damage
    ++ one_hit (ltb_ℤ (pos 0) cd.player_damage)
        (hit atk.attacker_id atk.defending_player_id cd.player_damage)

unfoldable pub hits_of :
    AttackDeclaration
    → Permanent
    → ZoneManager
    → List ℕ
    → Option CustomDamage
    → ℤ
    → List DamageAssignment
hits_of atk attacker zones [] custom power = hit atk.attacker_id atk.defending_player_id power ∷ []
hits_of atk attacker zones (b ∷ bs) none power = ordered_hits atk attacker zones (b ∷ bs) power
hits_of atk attacker zones (b ∷ bs) (some cd) power = chosen_hits atk (b ∷ bs) cd

-- One round of the first loop.
unfoldable pub attacker_damage :
    CombatManager → ZoneManager → Bool → AttackDeclaration → List DamageAssignment
attacker_damage c zones first_strike_only atk = elim (find_permanent atk.attacker_id zones) [
  | none ↦ []
  | some attacker ↦
      let power = effective_power attacker in
      if is_creature attacker && strikes first_strike_only attacker && ltb_ℤ (pos 0) power
      then hits_of atk attacker zones (get_blockers_for atk.attacker_id c)
          (Maps.lookup atk.attacker_id c.custom_damage) power
      else []
]

-- One round of the second loop.
unfoldable pub blocker_damage : ZoneManager → Bool → BlockDeclaration → List DamageAssignment
blocker_damage zones first_strike_only blk = elim (find_permanent blk.blocker_id zones) [
  | none ↦ []
  | some blocker ↦
      let power = effective_power blocker in
      one_hit (is_creature blocker && strikes first_strike_only blocker && ltb_ℤ (pos 0) power)
        (hit blk.blocker_id blk.attacker_id power)
]

abbrev pub concat_map {ℓ} :
    {A : Type ℓ} → (A → List DamageAssignment) → List A → List DamageAssignment
concat_map f [] = []
concat_map f (x ∷ xs) = f x ++ concat_map f xs

unfoldable pub resolve_combat_damage : CombatManager → ZoneManager → Bool → List DamageAssignment
resolve_combat_damage c zones first_strike_only =
    concat_map (attacker_damage c zones first_strike_only) c.state.attackers
    ++ concat_map (blocker_damage zones first_strike_only) c.state.blockers

unfoldable pub end_combat : CombatManager → CombatManager
end_combat c = record { state = new_state; custom_damage = [] }

unfoldable pub set_custom_damage : ℕ → List ℤ → ℤ → CombatManager → CombatManager
set_custom_damage attacker_id damage player c = record c {
  custom_damage =
      Maps.insert attacker_id (record { blocker_damage = damage; player_damage = player })
        c.custom_damage;
}

unfoldable pub clear_custom_damage : CombatManager → CombatManager
clear_custom_damage c = record c { custom_damage = [] }

unfoldable pub set_damage_order : ℕ → List ℕ → CombatManager → CombatManager
set_damage_order attacker_id ordered c = record c {
  state = record c.state { damage_order = Maps.insert attacker_id ordered c.state.damage_order };
}
