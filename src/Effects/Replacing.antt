-- ===== src/Effects/Replacing.antt =====
-- Which effect replaces an event (server/src/engine/replacement_effect.cpp).
use uud.Base.{
  ◌==◌, if◌then◌else◌, Bool-cases, All, keep_if, ◌≡◌, refl, sym, ap, subst, ◌∙◌, ◌⊎◌, inl, inr,
  Bool, true, false, not, ◌&&◌, List, [], ◌∷◌, ◌++◌,
}
use uud.Effects.{
  same_event_type, ReplacementEvent, ReplacementEffect, concerns, replace_loop, second_loop,
  apply_replacements,
}

-- Every effect of a list leaves an event as it is when it does not replace it.
abbrev pub AllDecline : List ReplacementEffect → Type 0
AllDecline =
    All (λ e. (event : ReplacementEvent) → ((e.apply event).0 ≡ false) → (e.apply event).1 ≡ event)

-- The first effect of a list that replaces an event.
unfoldable first_replacement : List ReplacementEffect → ReplacementEvent → Bool × ReplacementEvent
first_replacement [] event = (false, event)
first_replacement (e ∷ es) event =
    let rest = first_replacement es event in
    if (e.apply event).0 then (true, record (e.apply event).1 { replaced = true }) else rest

-- The effects for the type of an event, those of its own source first.
unfoldable pub in_order : ReplacementEvent → List ReplacementEffect → List ReplacementEffect
in_order event effects =
    keep_if
      (λ e. same_event_type e.event_type event.type && e.source_permanent_id == event.source_id)
      effects
    ++ keep_if
        (λ e.
          same_event_type e.event_type event.type && not (e.source_permanent_id == event.source_id))
        effects

-- What becomes of an event: nobody in the list replaces it and it stays as it is, or it is what the
-- first effect of the list that replaces it makes of it, marked as replaced.
abbrev pub Replaced : List ReplacementEffect → ReplacementEvent → ReplacementEvent → Type 0
Replaced effects event result =
    (All (λ e. (e.apply event).0 ≡ false) effects × (result ≡ event))
    ⊎ ((before after : List ReplacementEffect) × (e : ReplacementEffect) × (effects
          ≡ before ++ e ∷ after)
        × All (λ d. (d.apply event).0 ≡ false) before
        × ((e.apply event).0 ≡ true)
        × (result ≡ record (e.apply event).1 { replaced = true }))

replace_loop-keep_if :
    (own : Bool) (effects : List ReplacementEffect) (event : ReplacementEvent)
    → AllDecline effects
    → replace_loop own effects event
      ≡ first_replacement (keep_if (concerns own event) effects) event
unfolding replace_loop first_replacement
replace_loop-keep_if own [] event h = refl
replace_loop-keep_if own (e ∷ es) event h =
    let rest = replace_loop-keep_if own es event h.1 in
    elim (Bool-cases (concerns own event e)) [
      | inr other ↦ rw other rest
      | inl for_it ↦ elim (Bool-cases (e.apply event).0) [
        | inl yes_it ↦ rw (for_it, yes_it)
        | inr declined ↦ rw (for_it, declined, h.0 event declined) rest
      ]
    ]

first_replacement-append :
    (xs ys : List ReplacementEffect) (event : ReplacementEvent)
    → first_replacement (xs ++ ys) event ≡ (
        if (first_replacement xs event).0
        then first_replacement xs event
        else first_replacement ys event)
unfolding first_replacement
first_replacement-append [] ys event = refl
first_replacement-append (x ∷ xs) ys event = elim (Bool-cases (x.apply event).0) [
  | inl replaces ↦ rw replaces
  | inr declined ↦ rw declined (first_replacement-append xs ys event)
]

append-declined :
    (xs ys : List ReplacementEffect) (event : ReplacementEvent)
    → first_replacement xs event ≡ (false, event)
    → first_replacement (xs ++ ys) event ≡ first_replacement ys event
append-declined xs ys event e =
    first_replacement-append xs ys event ∙ ap (λ r. if r.0 then r else first_replacement ys event) e

append-replaced :
    (xs ys : List ReplacementEffect) (event : ReplacementEvent)
    → (first_replacement xs event).0 ≡ true
    → first_replacement (xs ++ ys) event ≡ first_replacement xs event
append-replaced xs ys event e =
    first_replacement-append xs ys event
    ∙ ap (λ b. if b then first_replacement xs event else first_replacement ys event) e

outcome :
    (xs : List ReplacementEffect) (event : ReplacementEvent)
    → (first_replacement xs event ≡ (false, event)) ⊎ ((first_replacement xs event).0 ≡ true)
unfolding first_replacement
outcome [] event = inl refl
outcome (x ∷ xs) event = elim (Bool-cases (x.apply event).0) [
  | inl replaces ↦ inr (rw replaces)
  | inr declined ↦ rw declined (outcome xs event)
]

second_loop-replaced :
    (effects : List ReplacementEffect) (first : Bool × ReplacementEvent)
    → first.0 ≡ true
    → second_loop effects first ≡ first.1
second_loop-replaced effects first h = rw h

apply_in_order :
    (effects : List ReplacementEffect) (event : ReplacementEvent)
    → AllDecline effects
    → apply_replacements effects event ≡ (first_replacement (in_order event effects) event).1
unfolding apply_replacements in_order
apply_in_order effects event h =
    let own = keep_if (concerns true event) effects in
    let others = keep_if (concerns false event) effects in
    let first = replace_loop-keep_if true effects event h in
    let second = replace_loop-keep_if false effects event h in
    ap (second_loop effects) first ∙ elim (outcome own event) [
      | inl declined ↦
          ap (second_loop effects) declined
          ∙ ap (λ r. r.1) second
          ∙ sym (ap (λ r. r.1) (append-declined own others event declined))
      | inr replaced ↦
          second_loop-replaced effects (first_replacement own event) replaced
          ∙ sym (ap (λ r. r.1) (append-replaced own others event replaced))
    ]

first_replacement-Replaced :
    (es : List ReplacementEffect) (event : ReplacementEvent)
    → Replaced es event (first_replacement es event).1
unfolding first_replacement
first_replacement-Replaced [] event = inl (tt, refl)
first_replacement-Replaced (e ∷ es) event = elim (Bool-cases (e.apply event).0) [
  | inl replaces ↦ inr ([], es, e, refl, tt, replaces, rw replaces refl)
  | inr declined ↦ elim (first_replacement-Replaced es event) [
    | inl (all, same) ↦ inl ((declined, all), rw declined same)
    | inr (before, after, d, whole, all, replaces, result) ↦
        inr (e ∷ before, after, d, ap (◌∷◌ e) whole, (declined, all), replaces, rw declined result)
  ]
]

-- When no effect changes an event that it does not replace, an event is replaced by at most one
-- effect: the first that accepts it among the effects for its type, where those of the event's own
-- source come before all others, each in the order of registration. The event is then marked as
-- replaced. Without such an effect it stays as it is.
pub apply_replacements_lem :
    (effects : List ReplacementEffect) (event : ReplacementEvent)
    → AllDecline effects
    → Replaced (in_order event effects) event (apply_replacements effects event)
apply_replacements_lem effects event h =
    subst (Replaced (in_order event effects) event) (sym (apply_in_order effects event h))
      (first_replacement-Replaced (in_order event effects) event)
