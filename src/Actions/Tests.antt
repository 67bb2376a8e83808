-- ===== src/Actions/Tests.antt =====
-- Tests and witnesses for the action queue.
use Prim.Native.String.{String}
use uud.Base.{
  length, find_erase, any_of, Found, ℕ, ◌≡◌, refl, ◌⊎◌, false, none, some, List, [], ◌∷◌,
}
use uud.Base.Int.{pos}
use uud.Actions.{ActionData, ActionQueue, submit, has_type, try_take_if}
use uud.Actions.Fifo.{submit_all, first_of, take_all, take_all-submit_all, try_take_if_outcome}

abbrev action : ℕ → String → ActionData
action player type = record {
  player_id = player;
  prompt_id = "";
  action_type = type;
  target_id = 0;
  ids = [];
  indices = [];
  flag = false;
  text = "";
  x_value = pos 0;
  convoke_ids = [];
  delve_count = pos 0;
  mana_payment = record {
    white = pos 0;
    blue = pos 0;
    black = pos 0;
    red = pos 0;
    green = pos 0;
    colorless = pos 0;
  };
}

abbrev sent : List ActionData
sent = action 1 "pass" ∷ action 2 "concede" ∷ []

abbrev queue : ActionQueue
queue = record { pending = sent; generation = some 3 }

conceded :
    try_take_if "concede" queue
    ≡ (some (action 2 "concede"), record queue { pending = action 1 "pass" ∷ [] })
unfolding try_take_if find_erase
conceded = refl

notified : (submit (action 3 "pass") queue).1.generation ≡ some 4
unfolding submit
notified = refl

take_all-submit_all_example :
    take_all
      (length (submit_all sent (record { pending = []; generation = none })).pending)
      (submit_all sent (record { pending = []; generation = none }))
    ≡ first_of 64 sent
take_all-submit_all_example = take_all-submit_all sent none

try_take_if_outcome_example :
    ((any_of (has_type "concede") sent ≡ false) × (try_take_if "concede" queue ≡ (none, queue)))
    ⊎ ((a : ActionData) × (rest : List ActionData) × Found (has_type "concede") sent a rest
        × (try_take_if "concede" queue ≡ (some a, record queue { pending = rest })))
try_take_if_outcome_example = try_take_if_outcome "concede" queue
