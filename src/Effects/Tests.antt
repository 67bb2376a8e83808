-- ===== src/Effects/Tests.antt =====
-- Tests and witnesses for effects.
use uud.Base.Int.{pos}
use uud.Base.{ℕ, ◌≡◌, refl, true, false, List, [], ◌∷◌}
use uud.Effects.{ReplacementEvent, ReplacementEffect, replace_loop, apply_replacements, would_draw}
use uud.Effects.Replacing.{AllDecline, in_order, Replaced, apply_replacements_lem}

abbrev draw_event : ReplacementEvent
draw_event = record {
  type = would_draw;
  source_id = 3;
  target_id = 0;
  player_id = 1;
  amount = pos 1;
  replaced = false;
}

abbrev set_amount : ℕ → ℕ → ReplacementEffect
set_amount source n = record {
  source_permanent_id = source;
  event_type = would_draw;
  apply = λ event. (true, record event { amount = pos n });
}

abbrev decline : ReplacementEffect
decline = record {
  source_permanent_id = 3;
  event_type = would_draw;
  apply = λ event. (false, event);
}

abbrev effects : List ReplacementEffect
effects = set_amount 5 7 ∷ decline ∷ set_amount 3 2 ∷ []

own_first : (apply_replacements effects draw_event).amount ≡ pos 2
unfolding apply_replacements replace_loop
own_first = refl

effects-AllDecline : AllDecline effects
effects-AllDecline = ((λ event e. absurd (cc)), ((λ event e. refl), ((λ event e. absurd (cc)), tt)))

apply_replacements_lem_example :
    Replaced (in_order draw_event effects) draw_event (apply_replacements effects draw_event)
apply_replacements_lem_example = apply_replacements_lem effects draw_event effects-AllDecline
