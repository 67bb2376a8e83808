-- ===== src/StateBased/Kept.antt =====
-- Checks of the players that applied nothing, and of the whole game
-- (server/src/engine/state_based_actions.cpp).
use Prim.Native.String.{String}
use uud.Base.{
  Bool-cases, push_back, any_of, ◌≤◌, ◌≡◌, refl, subst, ◌∙◌, inl, inr, Bool, true, false, not, ◌&&◌,
  ◌||◌, List, [], ◌∷◌, arith,
}
use uud.Player.{Player, is_alive, eliminate}
use uud.StateBased.{
  Board, Outcome, and_then, eliminate_if, out_of_life, poisoned, check_player, is_empty, check_each,
  check_players, DyingCreature, Choice, check_legends, check_attachments, check_counters,
  check_creatures, check_and_apply,
}
use uud.StateBased.Measure.{measure, Progress, and_then-Progress}
use uud.StateBased.Players.{not_empty}
use uud.StateBased.Removal.{check_legends-Progress, check_players-Progress}
use uud.StateBased.Passes.{check_attachments-Progress, check_counters-Progress}
use uud.StateBased.Creatures.{unapplied-same, check_creatures-Progress}
use uud.StateBased.Rest.{has_to_lose, IsSettled}
use uud.StateBased.Quiet.{true-false, creatures-none, neither, attachments-none, counters-none}

eliminated :
    (lost : Bool) (reason : String) (p : Player) (reasons : List String)
    → (lost && is_alive p) ≡ true
    → eliminate_if lost reason (p, reasons) ≡ (eliminate p, push_back reasons reason)
eliminated lost reason p reasons e = rw e refl

-- A test of a player that added no reason left the player alone.
kept_step :
    (lost : Bool) (reason : String) (st : Player × List String)
    → is_empty (eliminate_if lost reason st).1 ≡ true
    → ((lost && is_alive st.0) ≡ false) × (eliminate_if lost reason st ≡ st)
kept_step lost reason (p, reasons) h = elim (Bool-cases (lost && is_alive p)) [
  | inl e ↦ absurd (
      true-false _ (subst (λ st. is_empty st.1 ≡ true) (eliminated lost reason p reasons e) h)
        (not_empty reasons reason))
  | inr e ↦ (e, rw e refl)
]

not-not : (b : Bool) → not b ≡ false → b ≡ true
not-not b h = ground arith

no_reason :
    (alive life poison draw : Bool)
    → (life && alive) ≡ false
    → (poison && alive) ≡ false
    → (draw && alive) ≡ false
    → (alive && (life || poison || draw)) ≡ false
no_reason alive life poison draw e f g = ground arith

player_kept : (p : Player) → is_empty (check_player p).1 ≡ true → has_to_lose p ≡ false
unfolding check_player
player_kept p h =
    let (e1, s1) = kept_step p.failed_to_draw "Failed to draw from empty library" _ h in
    let (e2, s2) =
      kept_step (poisoned p) "Received 10 poison counters" _
        (subst (λ st. is_empty st.1 ≡ true) s1 h) in
    let (e3, s3) =
      kept_step (out_of_life p) "Life total reached zero" (p, [])
        (subst (λ st. is_empty st.1 ≡ true) (s1 ∙ s2) h) in
    no_reason (is_alive p) (out_of_life p) (poisoned p) p.failed_to_draw e3
      (subst (λ st. (poisoned p && is_alive st.0) ≡ false) s3 e2)
      (subst (λ st. (p.failed_to_draw && is_alive st.0) ≡ false) (s2 ∙ s3) e1)

each-none :
    (players : List Player) → (check_each players).2 ≡ false → any_of has_to_lose players ≡ false
unfolding check_each
each-none [] h = refl
each-none (p ∷ players) h =
    let (kept, others) = neither (not (is_empty (check_player p).1)) _ h in
    rw (player_kept p (not-not _ kept)) (each-none players others)

players-none :
    (b : Board) → (check_players b).applied ≡ false → any_of has_to_lose b.players ≡ false
unfolding check_players
players-none b h = each-none b.players h

and_then-none :
    (o : Outcome) (b : Board) (next : Board → Outcome)
    → Progress o b
    → (and_then o next).applied ≡ false
    → (o.applied ≡ false) × ((next b).applied ≡ false)
and_then-none o b next progress h =
    let (first, later) = neither o.applied _ h in
    (first, subst (λ c. (next c).applied ≡ false) (unapplied-same o b progress first) later)

module _ (fire_death : DyingCreature → Board → Board) (choose : Choice)
    (keeps : (d : DyingCreature) (b : Board) → measure (fire_death d b) ≤ measure b) where
  two_checks : (b : Board) → Progress (and_then (check_players b) (check_creatures fire_death)) b
  two_checks b =
      and_then-Progress (check_players b) b (check_creatures fire_death) (check_players-Progress b)
        (check_creatures-Progress fire_death keeps)

  three_checks :
      (b : Board)
      → Progress
          (and_then
            (and_then (check_players b) (check_creatures fire_death))
            (check_legends choose))
          b
  three_checks b =
      and_then-Progress _ b (check_legends choose) (two_checks b) (check_legends-Progress choose)

  four_checks :
      (b : Board)
      → Progress
          (and_then
            (and_then
              (and_then (check_players b) (check_creatures fire_death))
              (check_legends choose))
            check_attachments)
          b
  four_checks b =
      and_then-Progress _ b check_attachments (three_checks b) check_attachments-Progress

  pub check_and_apply-Progress : (b : Board) → Progress (check_and_apply fire_death choose b) b
  unfolding check_and_apply
  check_and_apply-Progress b =
      and_then-Progress _ b check_counters (four_checks b) check_counters-Progress

  pub unapplied-IsSettled :
      (b : Board) → (check_and_apply fire_death choose b).applied ≡ false → IsSettled b
  unfolding check_and_apply IsSettled
  unapplied-IsSettled b h =
      let (h4, counters) = and_then-none _ b check_counters (four_checks b) h in
      let (h3, attachments) = and_then-none _ b check_attachments (three_checks b) h4 in
      let (h2, _) = and_then-none _ b (check_legends choose) (two_checks b) h3 in
      let (players, creatures) =
        and_then-none _ b (check_creatures fire_death) (check_players-Progress b) h2 in
      (
        players-none b players,
        creatures-none fire_death b creatures,
        attachments-none b attachments,
        counters-none b counters,
      )
