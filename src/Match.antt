-- ===== src/Match.antt =====
-- match.hpp and match.cpp (server/src/engine): the games of a best-of-n match. `best_of` is not
-- negative.
pub mod Winner
mod Tests
use Prim.Native.String.{String}
use uud.Base.{
  leb, ◌==◌, if◌then◌else◌, push_back, any_of, count_if, ℕ, ◌+◌, ◌/◌, Bool, List, [], ◌∷◌,
}

pub record MatchConfig : Type 0 where
  pub best_of : ℕ
  pub sideboard_time_seconds : ℕ

pub record GameResult : Type 0 where
  pub game_number : ℕ
  pub winner_id : ℕ
  pub reason : String

pub data MatchState : Type 0 where
  waiting_for_players in_game sideboarding finished : MatchState

pub record Match : Type 0 where
  pub match_id : String
  pub config : MatchConfig
  pub state : MatchState
  pub current_game_number : ℕ
  pub results : List GameResult

abbrev pub new_match : String → MatchConfig → Match
new_match match_id config = record {
  match_id = match_id;
  config = config;
  state = waiting_for_players;
  current_game_number = 0;
  results = [];
}

unfoldable pub record_game_result : ℕ → String → Match → Match
record_game_result winner_id reason m = record m {
  results =
      push_back m.results
        (record { game_number = m.current_game_number; winner_id = winner_id; reason = reason });
}

abbrev pub won_by : ℕ → GameResult → Bool
won_by player_id r = r.winner_id == player_id

unfoldable pub wins_for : ℕ → Match → ℕ
wins_for player_id m = count_if (won_by player_id) m.results

abbrev pub needed : Match → ℕ
needed m = m.config.best_of / 2 + 1

abbrev pub enough_wins : Match → GameResult → Bool
enough_wins m r = leb (needed m) (wins_for r.winner_id m)

unfoldable pub is_match_over : Match → Bool
is_match_over m = any_of (enough_wins m) m.results

abbrev pub first_winner : Match → List GameResult → ℕ
first_winner m [] = 0
first_winner m (r ∷ rs) = if enough_wins m r then r.winner_id else first_winner m rs

unfoldable pub match_winner : Match → ℕ
match_winner m = first_winner m m.results

unfoldable pub begin_sideboarding : Match → Match
begin_sideboarding m = record m { state = sideboarding }

unfoldable pub begin_next_game : Match → Match
begin_next_game m = record m { current_game_number = m.current_game_number + 1; state = in_game }

unfoldable pub finish : Match → Match
finish m = record m { state = finished }
