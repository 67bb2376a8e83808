-- ===== src/Game/EndTests.antt =====
-- A game of two players that ends (server/src/engine/game.cpp).
use uud.Base.{◌≡◌, refl, inl, true, some, [], ◌∷◌}
use uud.Player.{Player, new_player, is_alive}
use uud.Game.{Game, new_game, erase_id, in_progress}
use uud.Game.Process.{concede, answer_yes_no, request_concede, offer_draw, agreed_draw, answer_draw}
use uud.Game.Concession.{last_standing, IsOver, concede-IsOver}

abbrev ann : Player
ann = new_player 1 "ann"

abbrev bob : Player
bob = new_player 2 "bob"

abbrev two_players : Game
two_players = record (new_game "game-000001") {
  state = in_progress;
  players = ann ∷ bob ∷ [];
  running = true;
}

bob-lives : is_alive bob ≡ true
unfolding is_alive
bob-lives = refl

concede-IsOver_example :
    (let cancelled = record two_players {
      pending_concede = erase_id 1 two_players.pending_concede;
    } in
      IsOver (last_standing bob) (answer_yes_no 1 true (request_concede 1 two_players))
      × IsOver (last_standing bob) (concede 1 "forced" two_players)
      × (answer_yes_no 1 true cancelled ≡ cancelled))
concede-IsOver_example = concede-IsOver ann bob two_players (inl refl) refl bob-lives

-- An offer that the other player accepts.
agreed : (answer_draw 2 true (offer_draw 1 two_players)).result ≡ some agreed_draw
unfolding answer_draw offer_draw
agreed = refl

-- A player cannot accept an own offer.
own_offer : (answer_draw 1 true (offer_draw 1 two_players)).state ≡ in_progress
unfolding answer_draw offer_draw
own_offer = refl
