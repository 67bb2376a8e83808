-- ===== src/StateBased/Players.antt =====
-- The check of the players (server/src/engine/state_based_actions.cpp).
use Prim.Native.String.{String}
use uud.Base.{
  Bool-cases, push_back, ℕ, ◌+◌, ◌≤◌, ◌<◌, ◌≡◌, refl, subst, ◌⊎◌, inl, inr, Bool, true, false, not,
  ◌&&◌, List, [], ◌∷◌, arith,
}
use uud.Player.{Player, is_alive, eliminate}
use uud.StateBased.{eliminate_if, out_of_life, poisoned, check_player, is_empty, check_each}
use uud.StateBased.Measure.{tally, alive_count}

-- A player after some of the three tests: unchanged, or eliminated by one of them.
abbrev Checked : Player → Player × List String → Type 0
Checked p st =
    (st ≡ (p, [])) ⊎ ((is_empty st.1 ≡ false) × (p.has_lost ≡ false) × (st.0.has_lost ≡ true))

pub not_empty : {A : Type 0} (xs : List A) (x : A) → is_empty (push_back xs x) ≡ false
not_empty [] x = refl
not_empty (y ∷ xs) x = refl

lost_and_alive : (lost gone : Bool) → (lost && not gone) ≡ true → gone ≡ false
lost_and_alive lost gone h = ground arith

eliminate_if-Checked :
    (lost : Bool) (reason : String) (p : Player) (st : Player × List String)
    → Checked p st
    → Checked p (eliminate_if lost reason st)
unfolding is_alive eliminate
eliminate_if-Checked lost reason p (q, reasons) checked =
    elim (Bool-cases (lost && not q.has_lost)) [
      | inr e ↦ rw e checked
      | inl e ↦ elim checked [
        | inl same ↦
            let living : p.has_lost ≡ false =
              subst (λ s. s.0.has_lost ≡ false) same (lost_and_alive lost q.has_lost e) in
            rw e (inr (not_empty reasons reason, living, refl))
        | inr (some_reason, living, gone) ↦ rw e (inr (not_empty reasons reason, living, refl))
      ]
    ]

check_player-Checked : (p : Player) → Checked p (check_player p)
unfolding check_player
check_player-Checked p = eliminate_if-Checked p.failed_to_draw _ p _ (
    eliminate_if-Checked (poisoned p) _ p _
      (eliminate_if-Checked (out_of_life p) _ p (p, []) (inl refl)))

fewer_alive :
    (before after : Bool) (n m : ℕ)
    → before ≡ false
    → after ≡ true
    → n ≤ m
    → tally (not after) + n < tally (not before) + m
fewer_alive before after n m living gone le = rw (living, gone) (omega (arith, le))

no_more :
    (players : List Player)
    → (check_each players ≡ (players, [], false))
      ⊎ (((check_each players).2 ≡ true) × alive_count (check_each players).0 < alive_count players)
    → alive_count (check_each players).0 ≤ alive_count players
no_more players (inl same) = rw same (omega arith)
no_more players (inr (_, fewer)) = omega (arith, fewer)

-- The loop over the players: nobody is eliminated and nothing changes, or fewer are alive.
pub check_each-progress :
    (players : List Player)
    → (check_each players ≡ (players, [], false))
      ⊎ (((check_each players).2 ≡ true) × alive_count (check_each players).0 < alive_count players)
unfolding check_each alive_count is_alive
check_each-progress [] = inl refl
check_each-progress (p ∷ players) = elim (check_player-Checked p) [
  | inl same ↦ elim (check_each-progress players) [
    | inl others ↦ inl (rw (same, others) refl)
    | inr (applied, fewer) ↦ inr (rw (same, applied) refl, rw same (omega (arith, fewer)))
  ]
  | inr (some_reason, living, gone) ↦
      let fewer : alive_count (check_each players).0 ≤ alive_count players =
        no_more players (check_each-progress players) in
      inr (rw some_reason refl, fewer_alive _ _ _ _ living gone fewer)
]
