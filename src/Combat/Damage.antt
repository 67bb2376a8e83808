-- ===== src/Combat/Damage.antt =====
-- How an attacker divides its damage (server/src/engine/combat_manager.cpp).
use uud.Base.Int.{ℤ, ◌+ℤ◌, ◌-ℤ◌, ◌≤ℤ◌, ltb_ℤ, int_laws, parts_of_eq, pos}
use uud.Base.{
  Bool-cases, Option-cases, some_inj, All, ℕ, ◌≡◌, refl, sym, ap, ap₂, ◌∙◌, inl, inr, true, false,
  Option, none, some, List, [], ◌∷◌, ◌++◌, arith,
}
use uud.Permanent.{Permanent, max_ℤ, min_ℤ}
use uud.Zones.{ZoneManager, find_permanent}
use uud.Combat.{DamageAssignment, hit, lethal_for, assigned, share, hit_blockers}

-- The damage of a list of assignments.
unfoldable pub total_damage : List DamageAssignment → ℤ
total_damage [] = pos 0
total_damage (d ∷ ds) = d.amount +ℤ total_damage ds

abbrev pub AllNonneg : List DamageAssignment → Type 0
AllNonneg = All (λ d. pos 0 ≤ℤ d.amount)

-- The blockers that are still present, each with its lethal damage.
unfoldable pub lethal_hits : ℕ → Permanent → ZoneManager → List ℕ → List DamageAssignment
lethal_hits source attacker zones [] = []
lethal_hits source attacker zones (b ∷ bs) =
    let rest = lethal_hits source attacker zones bs in
    elim (find_permanent b zones) [
      | none ↦ rest
      | some blocker ↦ hit source b (max_ℤ (lethal_for attacker blocker) (pos 0)) ∷ rest
    ]

pub total_damage-append :
    (xs ys : List DamageAssignment) → total_damage (xs ++ ys) ≡ total_damage xs +ℤ total_damage ys
unfolding total_damage
total_damage-append [] ys = omega int_laws
total_damage-append (x ∷ xs) ys = omega (int_laws, parts_of_eq (total_damage-append xs ys))

min_bounds :
    (r x : ℤ) → pos 0 ≤ℤ r → (pos 0 ≤ℤ min_ℤ r (max_ℤ x (pos 0))) × (min_ℤ r (max_ℤ x (pos 0)) ≤ℤ r)
min_bounds r x h = ground arith

share-positive :
    (attacker blocker : Permanent) (remaining : ℤ)
    → ltb_ℤ (pos 0) remaining ≡ true
    → share attacker remaining (some blocker) ≡ some (assigned attacker blocker remaining)
share-positive attacker blocker remaining e = rw e

share-spent :
    (attacker : Permanent) (remaining : ℤ) (o : Option Permanent)
    → ltb_ℤ (pos 0) remaining ≡ false
    → share attacker remaining o ≡ none
share-spent attacker remaining none e = refl
share-spent attacker remaining (some b) e = rw e

share_bounds :
    (attacker : Permanent) (remaining : ℤ) (o : Option Permanent) (amount : ℤ)
    → pos 0 ≤ℤ remaining
    → share attacker remaining o ≡ some amount
    → (pos 0 ≤ℤ amount) × (amount ≤ℤ remaining)
share_bounds attacker remaining none amount h e = absurd (cc)
share_bounds attacker remaining (some blocker) amount h e =
    elim (Bool-cases (ltb_ℤ (pos 0) remaining)) [
      | inl t ↦
          let same : assigned attacker blocker remaining ≡ amount =
            some_inj (sym (share-positive attacker blocker remaining t) ∙ e) in
          rw (← same) (min_bounds remaining (lethal_for attacker blocker) h)
      | inr f ↦ let spent = share-spent attacker remaining (some blocker) f in absurd (cc)
    ]

-- The hits and what remains of the power make up the power, and nothing is negative.
pub hit_blockers-conserves :
    (source : ℕ) (attacker : Permanent) (zones : ZoneManager) (bs : List ℕ) (remaining : ℤ)
    → pos 0 ≤ℤ remaining
    → let dealt = hit_blockers source attacker zones bs remaining in
      (total_damage dealt.0 +ℤ dealt.1 ≡ remaining) × (pos 0 ≤ℤ dealt.1) × AllNonneg dealt.0
unfolding hit_blockers total_damage
hit_blockers-conserves source attacker zones [] remaining h = (omega int_laws, h, tt)
hit_blockers-conserves source attacker zones (b ∷ bs) remaining h =
    let o = find_permanent b zones in
    elim (Option-cases (share attacker remaining o)) [
      | inl e ↦ rw e (hit_blockers-conserves source attacker zones bs remaining h)
      | inr (amount, e) ↦
          let (nonneg, most) = share_bounds attacker remaining o amount h e in
          let (sum, left, all) =
            hit_blockers-conserves source attacker zones bs (remaining -ℤ amount)
              (omega int_laws) in
          rw e (omega (int_laws, parts_of_eq sum), left, (nonneg, all))
    ]

spent_min : (r x : ℤ) → pos 0 ≤ℤ r → ltb_ℤ (pos 0) (r -ℤ min_ℤ r x) ≡ true → min_ℤ r x ≡ x
unfolding ◌-ℤ◌
spent_min r x h e = ground arith

-- What remains never grows.
remaining-falls :
    (source : ℕ) (attacker : Permanent) (zones : ZoneManager) (bs : List ℕ) (remaining : ℤ)
    → pos 0 ≤ℤ remaining
    → (hit_blockers source attacker zones bs remaining).1 ≤ℤ remaining
unfolding hit_blockers
remaining-falls source attacker zones [] remaining h = omega arith
remaining-falls source attacker zones (b ∷ bs) remaining h =
    let o = find_permanent b zones in
    elim (Option-cases (share attacker remaining o)) [
      | inl e ↦ rw e (remaining-falls source attacker zones bs remaining h)
      | inr (amount, e) ↦
          let (nonneg, most) = share_bounds attacker remaining o amount h e in
          let less =
            remaining-falls source attacker zones bs (remaining -ℤ amount) (omega int_laws) in
          rw e (omega (int_laws, less, nonneg))
    ]

nothing_hit :
    (source : ℕ) (attacker : Permanent) (zones : ZoneManager) (remaining : ℤ)
    → (hit_blockers source attacker zones [] remaining).0 ≡ lethal_hits source attacker zones []
unfolding hit_blockers lethal_hits
nothing_hit source attacker zones remaining = refl

pub step-gone :
    (source : ℕ) (attacker : Permanent) (zones : ZoneManager) (b : ℕ) (bs : List ℕ) (remaining : ℤ)
    → find_permanent b zones ≡ none
    → (hit_blockers source attacker zones (b ∷ bs) remaining
        ≡ hit_blockers source attacker zones bs remaining)
      × (lethal_hits source attacker zones (b ∷ bs) ≡ lethal_hits source attacker zones bs)
unfolding hit_blockers lethal_hits
step-gone source attacker zones b bs remaining e = (rw e, rw (e, lethal_hits))

pub step-there :
    (source : ℕ) (attacker blocker : Permanent) (zones : ZoneManager) (b : ℕ) (bs : List ℕ)
    (remaining : ℤ)
    → find_permanent b zones ≡ some blocker
    → ltb_ℤ (pos 0) remaining ≡ true
    → let amount = assigned attacker blocker remaining in
      let rest = hit_blockers source attacker zones bs (remaining -ℤ amount) in
      (hit_blockers source attacker zones (b ∷ bs) remaining
        ≡ (hit source b amount ∷ rest.0, rest.1))
      × (lethal_hits source attacker zones (b ∷ bs)
          ≡ hit source b (max_ℤ (lethal_for attacker blocker) (pos 0))
            ∷ lethal_hits source attacker zones bs)
unfolding hit_blockers lethal_hits
step-there source attacker blocker zones b bs remaining e t =
    (rw (e, share-positive attacker blocker remaining t), rw (e, lethal_hits))

still_positive : (a b : ℤ) → a ≤ℤ b → ltb_ℤ (pos 0) a ≡ true → ltb_ℤ (pos 0) b ≡ true
still_positive a b h e = ground arith

-- When a power that is not negative is divided and damage remains after the blockers, each blocker
-- that is still there got exactly its lethal damage, in order.
pub hit_blockers-lethal :
    (source : ℕ) (attacker : Permanent) (zones : ZoneManager) (bs : List ℕ) (remaining : ℤ)
    → pos 0 ≤ℤ remaining
    → ltb_ℤ (pos 0) ((hit_blockers source attacker zones bs remaining).1) ≡ true
    → (hit_blockers source attacker zones bs remaining).0 ≡ lethal_hits source attacker zones bs
hit_blockers-lethal source attacker zones [] remaining h e =
    nothing_hit source attacker zones remaining
hit_blockers-lethal source attacker zones (b ∷ bs) remaining h e =
    elim (Option-cases (find_permanent b zones)) [
      | inl gone ↦
          let (skip, lethal) = step-gone source attacker zones b bs remaining gone in
          rw (skip, lethal)
            (hit_blockers-lethal source attacker zones bs remaining h (rw (← skip) e))
      | inr (blocker, present) ↦
          let positive =
            still_positive _ remaining (remaining-falls source attacker zones (b ∷ bs) remaining h)
              e in
          let (step, lethal) =
            step-there source attacker blocker zones b bs remaining present positive in
          let x = max_ℤ (lethal_for attacker blocker) (pos 0) in
          let amount = assigned attacker blocker remaining in
          let (nonneg, most) = min_bounds remaining (lethal_for attacker blocker) h in
          let left : ltb_ℤ (pos 0) (hit_blockers source attacker zones bs (remaining -ℤ amount)).1
              ≡ true =
            ap (λ r. ltb_ℤ (pos 0) r.1) (sym step) ∙ e in
          let h' : pos 0 ≤ℤ remaining -ℤ amount = omega int_laws in
          let whole : amount ≡ x = spent_min remaining x h (
            still_positive _ (remaining -ℤ amount)
              (remaining-falls source attacker zones bs (remaining -ℤ amount) h') left) in
          let rest = hit_blockers-lethal source attacker zones bs (remaining -ℤ amount) h' left in
          ap (λ r. r.0) step ∙ ap₂ (λ a ds. hit source b a ∷ ds) whole rest ∙ sym lethal
    ]
