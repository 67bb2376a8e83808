-- ===== src/Match/Tests.antt =====
-- Tests and witnesses for matches.
use uud.Base.{length, ◌≤◌, ◌≡◌, refl, true, arith}
use uud.Match.{
  Match, new_match, record_game_result, wins_for, needed, is_match_over, match_winner,
  begin_next_game,
}
use uud.Match.Winner.{match_winner_lem}

abbrev played : Match
played = record_game_result 7 "life" (
    begin_next_game (
      record_game_result 5 "life" (
        begin_next_game (
          record_game_result 7 "deck" (
            begin_next_game
              (new_match "m" (record { best_of = 3; sideboard_time_seconds = 180 })))))))

seven_wins : match_winner played ≡ 7
unfolding match_winner record_game_result begin_next_game wins_for
seven_wins = refl

games_played : length played.results ≤ played.config.best_of
unfolding record_game_result begin_next_game
games_played = omega arith

wins_of_seven : needed played ≤ wins_for 7 played
unfolding record_game_result begin_next_game wins_for
wins_of_seven = omega arith

match_winner_lem_example : (match_winner played ≡ 7) × (is_match_over played ≡ true)
match_winner_lem_example = match_winner_lem 7 played games_played wins_of_seven
