-- ===== src/Combat/Beyond.antt =====
-- Damage beyond what is lethal for the blockers (server/src/engine/combat_manager.cpp).
use uud.Base.Int.{ℤ, ◌+ℤ◌, ◌-ℤ◌, ◌≤ℤ◌, ltb_ℤ, int_laws, pos}
use uud.Base.Maps
use uud.Base.{
  Option-cases, ℕ, ◌≡◌, refl, sym, ap, ap₂, ◌∙◌, inl, inr, true, none, some, List, [], ◌∷◌, arith,
}
use uud.Permanent.{Permanent, max_ℤ, min_ℤ}
use uud.Zones.{ZoneManager, find_permanent}
use uud.Combat.{DamageAssignment, hit, lethal_for, hit_blockers}
use uud.Combat.Damage.{total_damage, lethal_hits, step-gone, step-there}

max_nonneg : (x : ℤ) → pos 0 ≤ℤ max_ℤ x (pos 0)
max_nonneg x = ground arith

-- The damage that is lethal for all the blockers is never negative.
lethal_hits-nonneg :
    (source : ℕ) (attacker : Permanent) (zones : ZoneManager) (bs : List ℕ)
    → pos 0 ≤ℤ total_damage (lethal_hits source attacker zones bs)
unfolding lethal_hits total_damage
lethal_hits-nonneg source attacker zones [] = omega arith
lethal_hits-nonneg source attacker zones (b ∷ bs) =
    let rest = lethal_hits-nonneg source attacker zones bs in
    elim (Option-cases (find_permanent b zones)) [
      | inl gone ↦ rw (gone, lethal_hits) rest
      | inr (blocker, present) ↦
          let x = lethal_for attacker blocker in
          rw (present, lethal_hits) (omega (int_laws, max_nonneg x, rest))
    ]

enough :
    (x t r : ℤ)
    → pos 0 ≤ℤ x
    → pos 0 ≤ℤ t
    → ltb_ℤ (x +ℤ t) r ≡ true
    → (ltb_ℤ (pos 0) r ≡ true)
      × (min_ℤ r x ≡ x)
      × (ltb_ℤ t (r -ℤ x) ≡ true)
      × (r -ℤ (x +ℤ t) ≡ r -ℤ x -ℤ t)
unfolding ◌+ℤ◌ ◌-ℤ◌
enough x t r h k e = ground arith

lethal-present :
    (source : ℕ) (attacker blocker : Permanent) (zones : ZoneManager) (b : ℕ) (bs : List ℕ)
    → find_permanent b zones ≡ some blocker
    → lethal_hits source attacker zones (b ∷ bs)
      ≡ hit source b (max_ℤ (lethal_for attacker blocker) (pos 0))
        ∷ lethal_hits source attacker zones bs
unfolding lethal_hits
lethal-present source attacker blocker zones b bs e = rw (e, lethal_hits)

total_damage-cons :
    (source b : ℕ) (x : ℤ) (ds : List DamageAssignment)
    → total_damage (hit source b x ∷ ds) ≡ x +ℤ total_damage ds
unfolding total_damage
total_damage-cons source b x ds = refl

minus_zero : (a : ℤ) → a ≡ a -ℤ pos 0
minus_zero a = omega int_laws

-- The statement of the lemma below.
abbrev Enough : ℕ → Permanent → ZoneManager → List ℕ → ℤ → Type 0
Enough source attacker zones bs remaining = hit_blockers source attacker zones bs remaining ≡ (
  lethal_hits source attacker zones bs,
  remaining -ℤ total_damage (lethal_hits source attacker zones bs),
)

gone_step :
    (source : ℕ) (attacker : Permanent) (zones : ZoneManager) (b : ℕ) (bs : List ℕ) (remaining : ℤ)
    → find_permanent b zones ≡ none
    → ltb_ℤ (total_damage (lethal_hits source attacker zones (b ∷ bs))) remaining ≡ true
    → (ltb_ℤ (total_damage (lethal_hits source attacker zones bs)) remaining ≡ true
        → Enough source attacker zones bs remaining)
    → Enough source attacker zones (b ∷ bs) remaining
gone_step source attacker zones b bs remaining gone e rest =
    let (skip, lethal) = step-gone source attacker zones b bs remaining gone in
    rw (skip, lethal) (rest (ap (λ l. ltb_ℤ (total_damage l) remaining) (sym lethal) ∙ e))

present_step :
    (source : ℕ) (attacker blocker : Permanent) (zones : ZoneManager) (b : ℕ) (bs : List ℕ)
    (remaining : ℤ)
    → find_permanent b zones ≡ some blocker
    → ltb_ℤ (total_damage (lethal_hits source attacker zones (b ∷ bs))) remaining ≡ true
    → (ltb_ℤ
            (total_damage (lethal_hits source attacker zones bs))
            (remaining -ℤ max_ℤ (lethal_for attacker blocker) (pos 0))
          ≡ true
        → Enough source attacker zones bs
            (remaining -ℤ max_ℤ (lethal_for attacker blocker) (pos 0)))
    → Enough source attacker zones (b ∷ bs) remaining
present_step source attacker blocker zones b bs remaining present e rest =
    let x = max_ℤ (lethal_for attacker blocker) (pos 0) in
    let others = total_damage (lethal_hits source attacker zones bs) in
    let lethal = lethal-present source attacker blocker zones b bs present in
    let whole : total_damage (lethal_hits source attacker zones (b ∷ bs)) ≡ x +ℤ others =
      ap total_damage lethal
      ∙ total_damage-cons source b x (lethal_hits source attacker zones bs) in
    let (some_left, least, more, regrouped) =
      enough x others remaining (max_nonneg (lethal_for attacker blocker))
        (lethal_hits-nonneg source attacker zones bs)
        (ap (λ t. ltb_ℤ t remaining) (sym whole) ∙ e) in
    let (step, _) = step-there source attacker blocker zones b bs remaining present some_left in
    step
    ∙ ap
        (λ a.
          let r = hit_blockers source attacker zones bs (remaining -ℤ a) in
          (hit source b a ∷ r.0, r.1))
        least
    ∙ ap (λ r. (hit source b x ∷ r.0, r.1)) (rest more)
    ∙ ap₂ (λ ds l. (ds, l)) (sym lethal) (sym (ap (λ t. remaining -ℤ t) whole ∙ regrouped))

-- With more than lethal damage for all the blockers, each gets its lethal damage.
pub hit_blockers-enough :
    (source : ℕ) (attacker : Permanent) (zones : ZoneManager) (bs : List ℕ) (remaining : ℤ)
    → ltb_ℤ (total_damage (lethal_hits source attacker zones bs)) remaining ≡ true
    → hit_blockers source attacker zones bs remaining ≡ (
      lethal_hits source attacker zones bs,
      remaining -ℤ total_damage (lethal_hits source attacker zones bs),
    )
unfolding hit_blockers lethal_hits total_damage
hit_blockers-enough source attacker zones [] remaining e = ap (λ r. ([], r)) (minus_zero remaining)
hit_blockers-enough source attacker zones (b ∷ bs) remaining e =
    elim (Option-cases (find_permanent b zones)) [
      | inl gone ↦
          gone_step source attacker zones b bs remaining gone e
            (hit_blockers-enough source attacker zones bs remaining)
      | inr (blocker, present) ↦
          present_step source attacker blocker zones b bs remaining present e (
            hit_blockers-enough source attacker zones bs
              (remaining -ℤ max_ℤ (lethal_for attacker blocker) (pos 0)))
    ]
