-- ===== src/Game/CastUntouched.antt =====
-- The hands and the stack while the costs of a spell are paid (Game::process_action of
-- server/src/engine/game.cpp).
use Prim.Native.String.{String}
use uud.Base.Int.{ℤ}
use uud.Base.{
  if◌then◌else◌, ℕ, zero, suc, ◌≡◌, refl, ◌∙◌, Bool, true, false, Option, none, some, List, [], ◌∷◌,
}
use uud.Card.{ActivatedAbility, Card}
use uud.Mana.Cost.{ManaCost}
use uud.Mana.Pool.{ManaPayment, pay_cost}
use uud.Permanent.{Permanent, set_tapped}
use uud.Player.{Player}
use uud.Zones.{ZoneManager, find_permanent, add_to_exile}
use uud.Game.{Game, find_player}
use uud.Game.Tapping.{
  change_found, change_permanent, push_mana_undo, pool_pays, ability_of, run_ability, tap_with,
  tap_each, auto_tap_lands,
}
use uud.Game.Paying.{
  convokes, convoke_with, convoke_each, delve_card, delve_cards, delve, has_cost, pay_with, pay_now,
}
use uud.Game.Casting.{tap_and_pay, pay_spell}

-- The hands and the stack are as before.
abbrev pub IsUntouched : Game → Game → Type 0
IsUntouched g g' = (g'.zones.hands ≡ g.zones.hands) × (g'.stack ≡ g.stack)

pub both :
    {A B : Type 0} {a b c : A} {x y z : B}
    → (b ≡ a) × (y ≡ x)
    → (c ≡ b) × (z ≡ y)
    → (c ≡ a) × (z ≡ x)
both (h, s) (h', s') = (h' ∙ h, s' ∙ s)

pub either_same :
    {A : Type 0} (b : Bool) (x y : A × Game) (g : Game)
    → IsUntouched g x.1
    → IsUntouched g y.1
    → IsUntouched g ((if b then x else y).1)
either_same true x y g f f' = f
either_same false x y g f f' = f'

either_game :
    (b : Bool) (x y g : Game)
    → IsUntouched g x
    → IsUntouched g y
    → IsUntouched g (if b then x else y)
either_game true x y g f f' = f
either_game false x y g f f' = f'

change_found-hands :
    (id : ℕ) (change : Permanent → Permanent) (perm : Option Permanent) (z : ZoneManager)
    → (change_found id change perm z).hands ≡ z.hands
change_found-hands id change none z = refl
change_found-hands id change (some perm) z = refl

change_permanent-same :
    (id : ℕ) (change : Permanent → Permanent) (g : Game)
    → IsUntouched g (change_permanent id change g)
unfolding change_permanent
change_permanent-same id change g =
    (change_found-hands id change (find_permanent id g.zones) g.zones, refl)

convoke_with-same :
    (p id : ℕ) (perm : Option Permanent) (cost : ManaCost) (g : Game)
    → IsUntouched g ((convoke_with p id perm (cost, g)).1)
convoke_with-same p id none cost g = (refl, refl)
convoke_with-same p id (some perm) cost g =
    either_same (convokes p perm) _ (cost, g) g (change_permanent-same id (set_tapped true) g)
      (refl, refl)

pub convoke_each-same :
    (p : ℕ) (ids : List ℕ) (st : ManaCost × Game) → IsUntouched st.1 ((convoke_each p ids st).1)
unfolding convoke_each
convoke_each-same p [] (cost, g) = (refl, refl)
convoke_each-same p (id ∷ ids) (cost, g) =
    both (convoke_with-same p id (find_permanent id g.zones) cost g)
      (convoke_each-same p ids (convoke_with p id (find_permanent id g.zones) (cost, g)))

delve_card-same : (p : ℕ) (card : Option Card) (g : Game) → IsUntouched g ((delve_card p card g).1)
unfolding add_to_exile
delve_card-same p none g = (refl, refl)
delve_card-same p (some card) g = (refl, refl)

delve_cards-same : (n p : ℕ) (g : Game) → IsUntouched g ((delve_cards n p g).1)
unfolding delve_cards
delve_cards-same zero p g = (refl, refl)
delve_cards-same (suc n) p g = both (delve_card-same p _ g) (delve_cards-same n p _)

pub delve-same :
    (p : ℕ) (count : ℤ) (st : ManaCost × Game) → IsUntouched st.1 ((delve p count st).1)
unfolding delve
delve-same p count (cost, g) = delve_cards-same _ p g

pay_with-same :
    (p : ℕ) (payment : Option ManaPayment) (player : Option Player) (g : Game)
    → IsUntouched g ((pay_with p payment player g).1)
pay_with-same p none player g = (refl, refl)
pay_with-same p (some payment) none g = (refl, refl)
pay_with-same p (some payment) (some player) g =
    either_same ((pay_cost payment player.mana_pool).1) _ (false, g) g (refl, refl) (refl, refl)

module _ (run_effect : ℕ → ℕ → ℕ → Game → Game)
    (keeps : (e p s : ℕ) (g : Game) → IsUntouched g (run_effect e p s g)) where
  run_ability-same :
      (effect : Option ℕ) (p s : ℕ) (g : Game) → IsUntouched g (run_ability run_effect effect p s g)
  run_ability-same none p s g = (refl, refl)
  run_ability-same (some e) p s g = keeps e p s g

  tap_with-same :
      (ability : Option ActivatedAbility) (p : ℕ) (site : ℕ × String) (g : Game)
      → IsUntouched g (tap_with run_effect ability p site g)
  unfolding push_mana_undo
  tap_with-same none p site g = (refl, refl)
  tap_with-same (some a) p site g =
      both (change_permanent-same site.0 (set_tapped true) g) (run_ability-same a.effect p site.0 _)

  tap_each-same :
      (cost : ManaCost) (p : ℕ) (lands : List (ℕ × String)) (g : Game)
      → IsUntouched g (tap_each run_effect cost p lands g)
  unfolding tap_each
  tap_each-same cost p [] g = (refl, refl)
  tap_each-same cost p (site ∷ lands) g =
      either_game (pool_pays cost (find_player p g.players)) g _ g (refl, refl)
        (both (tap_with-same (ability_of (find_permanent site.0 g.zones)) p site g)
          (tap_each-same cost p lands _))

  auto_tap_lands-same :
      (p : ℕ) (cost : ManaCost) (g : Game) → IsUntouched g (auto_tap_lands run_effect p cost g)
  unfolding auto_tap_lands
  auto_tap_lands-same p cost g =
      either_game (pool_pays cost (find_player p g.players)) g _ g (refl, refl)
        (tap_each-same cost p _ g)

  pub pay_spell-same :
      (p : ℕ) (cost : ManaCost) (g : Game) → IsUntouched g ((pay_spell run_effect p cost g).1)
  unfolding tap_and_pay pay_now
  pay_spell-same p cost g =
      either_same (has_cost cost) _ (true, g) g
        (both (auto_tap_lands-same p cost g) (pay_with-same p _ _ _)) (refl, refl)
