-- ===== src/Effects.antt =====
-- continuous_effect.{hpp,cpp} and replacement_effect.{hpp,cpp} (server/src/engine). The function of
-- an effect is a function on the permanent or on the event; one that changes its event returns the
-- new one beside its answer.
pub mod Replacing
mod Tests
use uud.Base.Int.{ℤ}
use uud.Base.{
  ltb, leb, ◌==◌, if◌then◌else◌, length, push_back, erase_if, ℕ, Bool, true, false, not, ◌&&◌,
  Option, none, some, List, [], ◌∷◌, map,
}
use uud.Permanent.{Permanent}

pub data Layer : Type 0 where
  copy_effects control_changing text_changing type_changing color_changing : Layer
  ability_adding_removing power_toughness_changing : Layer

abbrev pub layer_number : Layer → ℕ
layer_number copy_effects = 1
layer_number control_changing = 2
layer_number text_changing = 3
layer_number type_changing = 4
layer_number color_changing = 5
layer_number ability_adding_removing = 6
layer_number power_toughness_changing = 7

pub record ContinuousEffect : Type 0 where
  pub source_permanent_id : ℕ
  pub layer : Layer
  pub until_end_of_turn_id : Option ℕ
  pub apply : Permanent → Permanent

abbrev pub max_continuous : ℕ
max_continuous = 512

unfoldable pub register_continuous :
    ContinuousEffect → List ContinuousEffect → List ContinuousEffect
register_continuous effect effects =
    if leb max_continuous (length effects) then effects else push_back effects effect

unfoldable pub remove_continuous_from : ℕ → List ContinuousEffect → List ContinuousEffect
remove_continuous_from source effects =
    erase_if (λ (e : ContinuousEffect). e.source_permanent_id == source) effects

abbrev ends_with : ℕ → Option ℕ → Bool
ends_with turn_id none = false
ends_with turn_id (some t) = t == turn_id

unfoldable pub remove_end_of_turn_effects : ℕ → List ContinuousEffect → List ContinuousEffect
remove_end_of_turn_effects turn_id effects =
    erase_if (λ (e : ContinuousEffect). ends_with turn_id e.until_end_of_turn_id) effects

-- std::stable_sort by the layer: an effect goes behind those of its own layer.
abbrev place : ContinuousEffect → List ContinuousEffect → List ContinuousEffect
place e [] = e ∷ []
place e (x ∷ xs) =
    let rest = place e xs in
    if ltb (layer_number e.layer) (layer_number x.layer) then e ∷ x ∷ xs else x ∷ rest

abbrev place_each : List ContinuousEffect → List ContinuousEffect → List ContinuousEffect
place_each sorted [] = sorted
place_each sorted (e ∷ es) = place_each (place e sorted) es

abbrev apply_each : List ContinuousEffect → List Permanent → List Permanent
apply_each [] permanents = permanents
apply_each (e ∷ es) permanents = apply_each es (map e.apply permanents)

unfoldable pub apply_all : List ContinuousEffect → List Permanent → List Permanent
apply_all effects permanents = apply_each (place_each [] effects) permanents

unfoldable pub clear_continuous : List ContinuousEffect → List ContinuousEffect
clear_continuous effects = []

pub data ReplacementEventType : Type 0 where
  would_draw would_die would_deal_damage would_gain_life would_enter_battlefield :
      ReplacementEventType

abbrev pub same_event_type : ReplacementEventType → ReplacementEventType → Bool
same_event_type would_draw would_draw = true
same_event_type would_die would_die = true
same_event_type would_deal_damage would_deal_damage = true
same_event_type would_gain_life would_gain_life = true
same_event_type would_enter_battlefield would_enter_battlefield = true
same_event_type _ _ = false

pub record ReplacementEvent : Type 0 where
  pub type : ReplacementEventType
  pub source_id : ℕ
  pub target_id : ℕ
  pub player_id : ℕ
  pub amount : ℤ
  pub replaced : Bool

pub record ReplacementEffect : Type 0 where
  pub source_permanent_id : ℕ
  pub event_type : ReplacementEventType
  pub apply : ReplacementEvent → Bool × ReplacementEvent

abbrev pub max_replacement : ℕ
max_replacement = 256

unfoldable pub register_replacement :
    ReplacementEffect → List ReplacementEffect → List ReplacementEffect
register_replacement effect effects =
    if leb max_replacement (length effects) then effects else push_back effects effect

unfoldable pub remove_replacement_from : ℕ → List ReplacementEffect → List ReplacementEffect
remove_replacement_from source effects =
    erase_if (λ (e : ReplacementEffect). e.source_permanent_id == source) effects

-- Whether an effect is for an event, and of the event's own source or (false) of another one.
abbrev pub concerns : Bool → ReplacementEvent → ReplacementEffect → Bool
concerns own event e =
    same_event_type e.event_type event.type
    && (if own
        then e.source_permanent_id == event.source_id
        else not (e.source_permanent_id == event.source_id))

-- One loop: true when an effect has replaced the event.
unfoldable pub replace_loop :
    Bool → List ReplacementEffect → ReplacementEvent → Bool × ReplacementEvent
replace_loop own [] event = (false, event)
replace_loop own (e ∷ es) event =
    let applied = if concerns own event e then e.apply event else (false, event) in
    let rest = replace_loop own es applied.1 in
    if applied.0 then (true, record applied.1 { replaced = true }) else rest

abbrev pub second_loop : List ReplacementEffect → Bool × ReplacementEvent → ReplacementEvent
second_loop effects first =
    let second = replace_loop false effects first.1 in if first.0 then first.1 else second.1

unfoldable pub apply_replacements : List ReplacementEffect → ReplacementEvent → ReplacementEvent
apply_replacements effects event = second_loop effects (replace_loop true effects event)

unfoldable pub clear_replacements : List ReplacementEffect → List ReplacementEffect
clear_replacements effects = []
