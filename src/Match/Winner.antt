-- ===== src/Match/Winner.antt =====
-- Who wins a match (server/src/engine/match.cpp).
use uud.Base.{
  leb, ◌==◌, Bool-cases, length, any_of, count_if, ℕ, ◌+◌, ◌≤◌, ◌≡◌, subst, inl, inr, true, false,
  List, [], ◌∷◌, arith,
}
use uud.Match.{
  GameResult, Match, won_by, wins_for, needed, enough_wins, is_match_over, first_winner,
  match_winner,
}

-- Two players' wins are different games.
wins-disjoint :
    (p q : ℕ) (rs : List GameResult)
    → (p == q) ≡ false
    → count_if (won_by p) rs + count_if (won_by q) rs ≤ length rs
wins-disjoint p q [] h = omega arith
wins-disjoint p q (r ∷ rs) h = ground (arith, wins-disjoint p q rs h)

some_win : (p : ℕ) (rs : List GameResult) → 1 ≤ count_if (won_by p) rs → any_of (won_by p) rs ≡ true
some_win p [] h = absurd (omega (arith, h))
some_win p (r ∷ rs) h = ground (arith, some_win p rs)

-- In a match of at most best_of games only one player can have enough wins.
only_one :
    (p q : ℕ) (m : Match)
    → length m.results ≤ m.config.best_of
    → needed m ≤ wins_for p m
    → leb (needed m) (wins_for q m) ≡ true
    → (q == p) ≡ true
unfolding wins_for
only_one p q m games enough also = elim (Bool-cases (q == p)) [
  | inl same ↦ same
  | inr other ↦
      let both = wins-disjoint q p m.results other in
      absurd (ground (arith, both, games, enough, also))
]

won_later :
    (p : ℕ) (m : Match) (r : GameResult) (rs : List GameResult)
    → needed m ≤ wins_for p m
    → enough_wins m r ≡ false
    → any_of (won_by p) (r ∷ rs) ≡ true
    → any_of (won_by p) rs ≡ true
won_later p m r rs enough short h = elim (Bool-cases (won_by p r)) [
  | inr other ↦ ground (arith, other, h)
  | inl won ↦
      let same : r.winner_id ≡ p = ground (arith, won) in
      let too_few = subst (λ w. leb (needed m) (wins_for w m) ≡ false) same short in
      absurd (ground (arith, too_few, enough))
]

found_winner :
    (p : ℕ) (m : Match) (rs : List GameResult)
    → length m.results ≤ m.config.best_of
    → needed m ≤ wins_for p m
    → any_of (won_by p) rs ≡ true
    → (first_winner m rs ≡ p) × (any_of (enough_wins m) rs ≡ true)
found_winner p m [] games enough h = absurd (cc)
found_winner p m (r ∷ rs) games enough h = elim (Bool-cases (enough_wins m r)) [
  | inl wins ↦
      let same : r.winner_id ≡ p = ground (arith, only_one p r.winner_id m games enough wins) in
      (rw wins same, rw wins)
  | inr short ↦
      let later : any_of (won_by p) rs ≡ true = won_later p m r rs enough short h in
      let (first, over) = found_winner p m rs games enough later in (rw short first, rw short over)
]

-- Once a player has won more than half of the games of a match that has at most best_of games, the
-- match is over and this player is its winner.
pub match_winner_lem :
    (p : ℕ) (m : Match)
    → length m.results ≤ m.config.best_of
    → needed m ≤ wins_for p m
    → (match_winner m ≡ p) × (is_match_over m ≡ true)
unfolding match_winner is_match_over wins_for
match_winner_lem p m games enough =
    found_winner p m m.results games enough (some_win p m.results (omega (arith, enough)))
