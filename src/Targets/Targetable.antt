-- ===== src/Targets/Targetable.antt =====
-- The legal targets of a filter (server/src/engine/target_filter.cpp), as predicates.
use Prim.Native.String.{String}
use uud.Base.Int.{ℤ, ◌≤ℤ◌, pos}
use uud.Base.{In, ℕ, ◌≡◌, ◌≢◌, ◌⊎◌, Bool, true, false, Option, none, some, List}
use uud.Card.{CardType, Card}
use uud.Mana.Cost.{mana_value}
use uud.Permanent.{Permanent, has_keyword}
use uud.Player.{Player}
use uud.Zones.{ZoneManager, cards_of}
use uud.Targets.{
  Controller, TargetZone, TargetFilter, lower, bytes, any, you, opponent, battlefield, graveyard,
  hand, any_zone,
}

abbrev pub HasType : Option CardType → Card → Type 0
HasType none card = Unit
HasType (some t) card = card.type ≡ t

abbrev pub HasSubtype : Option String → Card → Type 0
HasSubtype none card = Unit
HasSubtype (some s) card = (st : String) × In st card.subtypes × (lower st ≡ bytes s)

abbrev pub HasKeyword : Option String → Permanent → Type 0
HasKeyword none perm = Unit
HasKeyword (some k) perm = has_keyword k perm ≡ true

abbrev pub HasValue : Option ℤ → Card → Type 0
HasValue none card = Unit
HasValue (some n) card = pos (mana_value card.mana_cost) ≤ℤ n

abbrev pub IsControlled : Controller → ℕ → ℕ → Type 0
IsControlled any choosing id = Unit
IsControlled you choosing id = id ≡ choosing
IsControlled opponent choosing id = id ≢ choosing

-- A permanent that the player may choose: without Shroud, without an opponent's Hexproof, and with
-- everything that the filter asks for.
abbrev pub IsLegalPermanent : TargetFilter → ℕ → Permanent → Type 0
IsLegalPermanent filter choosing perm =
    (has_keyword "Shroud" perm ≡ false)
    × (((has_keyword "Hexproof" perm ≡ false) ⊎ (perm.controller_id ≡ choosing))
        × (HasType filter.card_type perm.card
            × (IsControlled filter.controller choosing perm.controller_id
                × (HasSubtype filter.subtype perm.card
                    × (HasKeyword filter.required_keyword perm
                        × HasValue filter.max_mana_value perm.card)))))

abbrev pub IsLegalCard : TargetFilter → Card → Type 0
IsLegalCard filter card =
    HasType filter.card_type card
    × (HasSubtype filter.subtype card × HasValue filter.max_mana_value card)

-- Something in the list with this id that has the property.
abbrev pub Among : {A : Type 0} → (A → Type 0) → (A → ℕ) → List A → ℕ → Type 0
Among {A} P id_of xs id = (x : A) × In x xs × (id_of x ≡ id) × P x

abbrev pub InBattlefield : TargetFilter → ℕ → ZoneManager → ℕ → Type 0
InBattlefield filter choosing z =
    Among (λ (entry : ℕ × Permanent). IsLegalPermanent filter choosing entry.1) (λ entry. entry.0)
      z.battlefield

abbrev pub InGraveyard : TargetFilter → ℕ → ZoneManager → List Player → ℕ → Type 0
InGraveyard filter choosing z players id =
    (p : Player) × In p players
    × IsControlled filter.controller choosing p.id
    × Among (IsLegalCard filter) (λ card. card.instance_id) (cards_of p.id z.graveyards) id

abbrev pub InHand : TargetFilter → ℕ → ZoneManager → ℕ → Type 0
InHand filter choosing z =
    Among (HasType filter.card_type) (λ card. card.instance_id) (cards_of choosing z.hands)

abbrev pub IsPlayerTarget : TargetFilter → ℕ → List Player → ℕ → Type 0
IsPlayerTarget filter choosing =
    Among (λ (p : Player). (p.has_lost ≡ false) × IsControlled filter.controller choosing p.id)
      (λ p. p.id)

abbrev pub InZone : TargetZone → TargetFilter → ℕ → ZoneManager → List Player → ℕ → Type 0
InZone battlefield filter choosing z players id = InBattlefield filter choosing z id
InZone graveyard filter choosing z players id = InGraveyard filter choosing z players id
InZone hand filter choosing z players id = InHand filter choosing z id
InZone any_zone filter choosing z players id =
    InBattlefield filter choosing z id ⊎ InGraveyard filter choosing z players id

abbrev pub TargetOf : Bool → TargetFilter → ℕ → ZoneManager → List Player → ℕ → Type 0
TargetOf true filter choosing z players id = IsPlayerTarget filter choosing players id
TargetOf false filter choosing z players id = InZone filter.zone filter choosing z players id

-- A legal target of the filter.
abbrev pub IsTarget : TargetFilter → ℕ → ZoneManager → List Player → ℕ → Type 0
IsTarget filter choosing z players id = TargetOf filter.targets_players filter choosing z players id
