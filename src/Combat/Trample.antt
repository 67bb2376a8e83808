-- ===== src/Combat/Trample.antt =====
-- The whole damage of an attacker, and trample (server/src/engine/combat_manager.cpp).
use uud.Base.Int.{ℤ, ◌+ℤ◌, ◌≤ℤ◌, ltb_ℤ, int_laws, parts_of_eq, false-ltb_ℤ, pos}
use uud.Base.Maps
use uud.Base.{
  Bool-cases, ℕ, ◌≡◌, refl, ap, ◌∙◌, ◌⊎◌, inl, inr, Bool, true, false, ◌&&◌, ◌||◌, none, some, List,
  [], ◌∷◌, ◌++◌, arith,
}
use uud.Permanent.{Permanent, is_creature, effective_power, has_keyword}
use uud.Zones.{ZoneManager, find_permanent}
use uud.Combat.{
  AttackDeclaration, DamageAssignment, CombatManager, get_blockers_for, strikes, hit, hit_blockers,
  one_hit, ordered_hits, hits_of, attacker_damage,
}
use uud.Combat.Damage.{total_damage, AllNonneg, total_damage-append, hit_blockers-conserves}

AllNonneg-append :
    (xs ys : List DamageAssignment) → AllNonneg xs → AllNonneg ys → AllNonneg (xs ++ ys)
AllNonneg-append [] ys a b = b
AllNonneg-append (x ∷ xs) ys (h, a) b = (h, AllNonneg-append xs ys a b)

pub attacker_damage-striking :
    (c : CombatManager) (zones : ZoneManager) (first : Bool) (atk : AttackDeclaration)
    (attacker : Permanent)
    → find_permanent atk.attacker_id zones ≡ some attacker
    → is_creature attacker && strikes first attacker && ltb_ℤ (pos 0) (effective_power attacker)
      ≡ true
    → attacker_damage c zones first atk
      ≡ hits_of atk attacker zones
          (get_blockers_for atk.attacker_id c)
          (Maps.lookup atk.attacker_id c.custom_damage)
          (effective_power attacker)
unfolding attacker_damage
attacker_damage-striking c zones first atk attacker found now = rw (found, attacker_damage, now)

pub and_last : (a b d : Bool) → a && b && d ≡ true → d ≡ true
and_last a b d h = ground arith

abbrev pub is_empty : List ℕ → Bool
is_empty [] = true
is_empty (_ ∷ _) = false

-- What `hits_of` deals without a chosen assignment.
abbrev Divides : List ℕ → Permanent → List DamageAssignment → ℤ → Type 0
Divides blockers attacker hits power =
    AllNonneg hits
    × (total_damage hits ≤ℤ power)
    × ((total_damage hits ≡ power) ⊎ (is_empty blockers || has_keyword "Trample" attacker ≡ false))

no_rest : (left : ℤ) → pos 0 ≤ℤ left → ltb_ℤ (pos 0) left ≡ false → pos 0 ≡ left
no_rest left h e = omega (int_laws, false-ltb_ℤ (pos 0) left e)

one_total : (source target : ℕ) (left : ℤ) → total_damage (hit source target left ∷ []) ≡ left
unfolding total_damage
one_total source target left = omega int_laws

none_total : total_damage [] ≡ pos 0
unfolding total_damage
none_total = refl

-- What goes to the player.
player_part :
    (source target : ℕ) (left : ℤ) (trample : Bool)
    → pos 0 ≤ℤ left
    → let hits = one_hit (ltb_ℤ (pos 0) left && trample) (hit source target left) in
      AllNonneg hits
      × ((total_damage hits ≡ left) ⊎ ((trample ≡ false) × (total_damage hits ≡ pos 0)))
player_part source target left trample h = elim (Bool-cases (ltb_ℤ (pos 0) left)) [
  | inr f ↦ rw f (tt, inl (none_total ∙ no_rest left h f))
  | inl t ↦ elim (Bool-cases trample) [
    | inl has ↦ rw (t, has) ((h, tt), inl (one_total source target left))
    | inr lacks ↦ rw (t, lacks) (tt, inr (refl, none_total))
  ]
]

ordered_hits-Divides :
    (atk : AttackDeclaration) (attacker : Permanent) (zones : ZoneManager) (b : ℕ) (bs : List ℕ)
    (power : ℤ)
    → pos 0 ≤ℤ power
    → Divides (b ∷ bs) attacker (ordered_hits atk attacker zones (b ∷ bs) power) power
ordered_hits-Divides atk attacker zones b bs power h =
    let dealt = hit_blockers atk.attacker_id attacker zones (b ∷ bs) power in
    let (sum, left, all) = hit_blockers-conserves atk.attacker_id attacker zones (b ∷ bs) power h in
    let to_player =
      one_hit (ltb_ℤ (pos 0) dealt.1 && has_keyword "Trample" attacker)
        (hit atk.attacker_id atk.defending_player_id dealt.1) in
    let (nonneg, rest) =
      player_part atk.attacker_id atk.defending_player_id dealt.1 (has_keyword "Trample" attacker)
        left in
    let split = total_damage-append dealt.0 to_player in
    elim rest [
      | inl whole ↦
          let all_of_it : total_damage (dealt.0 ++ to_player) ≡ power =
            split ∙ ap (◌+ℤ◌ (total_damage dealt.0)) whole ∙ sum in
          (
            AllNonneg-append dealt.0 to_player all nonneg,
            omega (int_laws, parts_of_eq all_of_it),
            inl all_of_it,
          )
      | inr (no_trample, no_hit) ↦ (
        AllNonneg-append dealt.0 to_player all nonneg,
        omega (int_laws, parts_of_eq split, parts_of_eq no_hit, parts_of_eq sum, left),
        inr no_trample,
      )
    ]

hits_of-Divides :
    (atk : AttackDeclaration) (attacker : Permanent) (zones : ZoneManager) (blockers : List ℕ)
    (power : ℤ)
    → pos 0 ≤ℤ power
    → Divides blockers attacker (hits_of atk attacker zones blockers none power) power
unfolding hits_of
hits_of-Divides atk attacker zones [] power h =
    let whole = one_total atk.attacker_id atk.defending_player_id power in
    ((h, tt), omega (int_laws, parts_of_eq whole), inl whole)
hits_of-Divides atk attacker zones (b ∷ bs) power h =
    ordered_hits-Divides atk attacker zones b bs power h

pub positive : (a : ℤ) → ltb_ℤ (pos 0) a ≡ true → pos 0 ≤ℤ a
positive a h = ground arith

-- An attacker that strikes in this pass with positive power and without a chosen assignment deals
-- no negative damage, at most its power in all, and exactly its power unless it is blocked and has
-- no Trample.
pub attacker_damage-total :
    (c : CombatManager) (zones : ZoneManager) (first : Bool) (atk : AttackDeclaration)
    (attacker : Permanent)
    → find_permanent atk.attacker_id zones ≡ some attacker
    → is_creature attacker && strikes first attacker && ltb_ℤ (pos 0) (effective_power attacker)
      ≡ true
    → Maps.lookup atk.attacker_id c.custom_damage ≡ none
    → AllNonneg (attacker_damage c zones first atk)
      × (total_damage (attacker_damage c zones first atk) ≤ℤ effective_power attacker)
      × ((total_damage (attacker_damage c zones first atk) ≡ effective_power attacker)
          ⊎ (is_empty (get_blockers_for atk.attacker_id c) || has_keyword "Trample" attacker
              ≡ false))
attacker_damage-total c zones first atk attacker found now unchosen =
    let power = effective_power attacker in
    let some_power =
      positive power
        (and_last (is_creature attacker) (strikes first attacker) (ltb_ℤ (pos 0) power) now) in
    rw (attacker_damage-striking c zones first atk attacker found now, unchosen)
      (hits_of-Divides atk attacker zones (get_blockers_for atk.attacker_id c) power some_power)
