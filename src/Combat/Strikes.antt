-- ===== src/Combat/Strikes.antt =====
-- The two damage passes of a combat (server/src/engine/combat_manager.cpp).
use uud.Base.{Bool-cases, ◌≡◌, ◌∙◌, ◌⊎◌, inl, inr, Bool, true, false, ◌&&◌, ◌||◌, some, [], arith}
use uud.Permanent.{Permanent, is_creature, has_keyword}
use uud.Zones.{ZoneManager, find_permanent}
use uud.Combat.{AttackDeclaration, CombatManager, strikes, attacker_damage}

-- Every creature strikes in a pass, and in both exactly when it has Double Strike.
strikes-passes :
    (p : Permanent)
    → (strikes false p || strikes true p ≡ true)
      × (strikes false p && strikes true p ≡ has_keyword "Double Strike" p)
unfolding strikes
strikes-passes p = ground arith

no_attack_hits :
    (c : CombatManager) (zones : ZoneManager) (first : Bool) (atk : AttackDeclaration)
    (attacker : Permanent)
    → find_permanent atk.attacker_id zones ≡ some attacker
    → strikes first attacker ≡ false
    → attacker_damage c zones first atk ≡ []
unfolding attacker_damage
no_attack_hits c zones first atk attacker found idle = elim (Bool-cases (is_creature attacker)) [
  | inl e ↦ rw (found, attacker_damage, e, idle)
  | inr e ↦ rw (found, attacker_damage, e)
]

one_of : (a b : Bool) → a && b ≡ false → (a ≡ false) ⊎ (b ≡ false)
one_of a b h = ground arith

-- An attacker without Double Strike deals damage in at most one of the two passes.
pub attacker_damage-one_pass :
    (c : CombatManager) (zones : ZoneManager) (atk : AttackDeclaration) (attacker : Permanent)
    → find_permanent atk.attacker_id zones ≡ some attacker
    → has_keyword "Double Strike" attacker ≡ false
    → (attacker_damage c zones false atk ≡ []) ⊎ (attacker_damage c zones true atk ≡ [])
attacker_damage-one_pass c zones atk attacker found single =
    let (_, both) = strikes-passes attacker in
    elim (one_of (strikes false attacker) (strikes true attacker) (both ∙ single)) [
      | inl idle ↦ inl (no_attack_hits c zones false atk attacker found idle)
      | inr idle ↦ inr (no_attack_hits c zones true atk attacker found idle)
    ]
