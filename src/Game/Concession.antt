-- ===== src/Game/Concession.antt =====
-- Concessions (Game::process_action of server/src/engine/game.cpp and the win condition of
-- server/src/engine/win_condition.cpp).
use uud.Base.{
  ◌==◌, if◌then◌else◌, Bool-cases, push_back, ℕ, ◌≡◌, refl, sym, ap, subst, ◌∙◌, ◌⊎◌, inl, inr,
  Bool, true, false, not, Option, none, some, List, [], ◌∷◌, map, arith,
}
use Prim.Native.String.{String}
use uud.Player.{Player, is_alive, eliminate}
use uud.Game.{
  GameOverResult, Game, contains_id, insert_id, erase_id, find_player, update_player, winner_among,
  check_win, end_with, finished,
}
use uud.Game.Process.{concede_as, concede, answer_yes_no, request_concede}

refl_test : (n : ℕ) → (n == n) ≡ true
refl_test n = ground arith

contains-push : (id : ℕ) (ids : List ℕ) → contains_id id (push_back ids id) ≡ true
contains-push id [] = ground (arith, refl_test id)
contains-push id (x ∷ ids) = ground (arith, contains-push id ids)

if_true : {A : Type 0} (b : Bool) (x y : A) → b ≡ true → (if b then x else y) ≡ x
if_true b x y e = rw e refl

if_false : {A : Type 0} (b : Bool) (x y : A) → b ≡ false → (if b then x else y) ≡ y
if_false b x y e = rw e refl

contains-insert : (id : ℕ) (ids : List ℕ) → contains_id id (insert_id id ids) ≡ true
contains-insert id ids = elim (Bool-cases (contains_id id ids)) [
  | inl e ↦ ap (contains_id id) (if_true (contains_id id ids) ids (push_back ids id) e) ∙ e
  | inr e ↦
      ap (contains_id id) (if_false (contains_id id ids) ids (push_back ids id) e)
      ∙ contains-push id ids
]

-- Two players, in either order.
abbrev pub IsPair : Player → Player → List Player → Type 0
IsPair p q players = (players ≡ p ∷ q ∷ []) ⊎ (players ≡ q ∷ p ∷ [])

abbrev pub last_standing : Player → GameOverResult
last_standing q = record { winner_id = q.id; reason = "Last player standing"; is_draw = false }

first_gone : (p q : Player) → update_player p.id eliminate (p ∷ q ∷ []) ≡ eliminate p ∷ q ∷ []
unfolding update_player
first_gone p q = if_true (p.id == p.id) _ _ (refl_test p.id)

second_gone :
    (p q : Player)
    → (q.id == p.id) ≡ false
    → update_player p.id eliminate (q ∷ p ∷ []) ≡ q ∷ eliminate p ∷ []
unfolding update_player
second_gone p q other =
    if_false (q.id == p.id) _ _ other
    ∙ ap (λ ps. q ∷ ps) (if_true (p.id == p.id) _ _ (refl_test p.id))

first_result :
    (p q : Player) → is_alive q ≡ true → check_win (eliminate p ∷ q ∷ []) ≡ some (last_standing q)
unfolding check_win is_alive eliminate
first_result p q alive = ap (λ b. winner_among (map (λ x. x.id) (if b then q ∷ [] else []))) alive

second_result :
    (p q : Player) → is_alive q ≡ true → check_win (q ∷ eliminate p ∷ []) ≡ some (last_standing q)
unfolding check_win is_alive eliminate
second_result p q alive = ap (λ b. winner_among (map (λ x. x.id) (if b then q ∷ [] else []))) alive

left_winner :
    (p q : Player) (players : List Player)
    → IsPair p q players
    → (q.id == p.id) ≡ false
    → is_alive q ≡ true
    → check_win (update_player p.id eliminate players) ≡ some (last_standing q)
left_winner p q players (inl e) other alive =
    ap (λ ps. check_win (update_player p.id eliminate ps)) e
    ∙ ap check_win (first_gone p q)
    ∙ first_result p q alive
left_winner p q players (inr e) other alive =
    ap (λ ps. check_win (update_player p.id eliminate ps)) e
    ∙ ap check_win (second_gone p q other)
    ∙ second_result p q alive

found_first : (p q : Player) → find_player p.id (p ∷ q ∷ []) ≡ some p
unfolding find_player
found_first p q = if_true (p.id == p.id) _ _ (refl_test p.id)

found_second : (p q : Player) → (q.id == p.id) ≡ false → find_player p.id (q ∷ p ∷ []) ≡ some p
unfolding find_player
found_second p q other =
    if_false (q.id == p.id) _ _ other ∙ if_true (p.id == p.id) _ _ (refl_test p.id)

found :
    (p q : Player) (players : List Player)
    → IsPair p q players
    → (q.id == p.id) ≡ false
    → find_player p.id players ≡ some p
found p q players (inl e) other = ap (find_player p.id) e ∙ found_first p q
found p q players (inr e) other = ap (find_player p.id) e ∙ found_second p q other

-- The game has ended with a result.
unfoldable pub IsOver : GameOverResult → Game → Type 0
IsOver win g = (g.state ≡ finished) × (g.running ≡ false) × (g.result ≡ some win)

end_with-IsOver :
    (result : Option GameOverResult) (win : GameOverResult) (reason : Option String) (g : Game)
    → result ≡ some win
    → IsOver win (end_with result reason g)
unfolding IsOver
end_with-IsOver result win reason g e =
    subst (λ r. IsOver win (end_with r reason g)) (sym e) (refl, refl, refl)

concede_as-IsOver :
    (p q : Player) (g : Game)
    → IsPair p q g.players
    → (q.id == p.id) ≡ false
    → is_alive q ≡ true
    → IsOver (last_standing q) (concede_as p.id (find_player p.id g.players) g)
concede_as-IsOver p q g pair other alive =
    subst (λ o. IsOver (last_standing q) (concede_as p.id o g))
      (sym (found p q g.players pair other))
      (end_with-IsOver (check_win (update_player p.id eliminate g.players)) (last_standing q) none _
        (left_winner p q g.players pair other alive))

contains-erase : (id : ℕ) (ids : List ℕ) → contains_id id (erase_id id ids) ≡ false
contains-erase id [] = refl
contains-erase id (x ∷ ids) = ground (arith, contains-erase id ids)

if_IsOver :
    (b : Bool) (win : GameOverResult) (x y : Game)
    → b ≡ true
    → IsOver win x
    → IsOver win (if b then x else y)
if_IsOver b win x y e over = subst (IsOver win) (sym (if_true b x y e)) over

else_IsOver :
    (b : Bool) (win : GameOverResult) (x y : Game)
    → b ≡ false
    → IsOver win y
    → IsOver win (if b then x else y)
else_IsOver b win x y e over = subst (IsOver win) (sym (if_false b x y e)) over

-- When two players are left and the other one lives, a player who asks to concede and says yes to
-- the question, or who is made to concede, has lost: the game ends at once with the other as the
-- last player standing. After a cancelled request a yes changes nothing.
pub concede-IsOver :
    (p q : Player) (g : Game)
    → IsPair p q g.players
    → (q.id == p.id) ≡ false
    → is_alive q ≡ true
    → (let cancelled = record g { pending_concede = erase_id p.id g.pending_concede } in
        IsOver (last_standing q) (answer_yes_no p.id true (request_concede p.id g))
        × IsOver (last_standing q) (concede p.id "forced" g)
        × (answer_yes_no p.id true cancelled ≡ cancelled))
unfolding answer_yes_no request_concede concede
concede-IsOver p q g pair other alive =
    let asked = contains-insert p.id g.pending_concede in
    (
      if_IsOver (contains_id p.id (insert_id p.id g.pending_concede)) _ _ _ asked (
          else_IsOver (not (contains_id p.id (insert_id p.id g.pending_concede))) _ _ _
            (ap not asked) (concede_as-IsOver p q _ pair other alive)),
      concede_as-IsOver p q _ pair other alive,
      if_false (contains_id p.id (erase_id p.id g.pending_concede)) _ _
          (contains-erase p.id g.pending_concede),
    )
