-- ===== src/Turn/Cycle.antt =====
-- The order of the phases under `advance_phase`, and the phase predicates along it.
use uud.Base.{
  ℕ, zero, suc, ◌+◌, ◌%◌, ◌≤◌, ◌<◌, ◌≡◌, refl, sym, ap, ◌∙◌, ◌↔◌, ◌⊎◌, true, arith, dec_lt,
}
use uud.Turn.{
  Phase, index, of_index, TurnMachine, is_main_phase, is_combat_phase, phase_needs_priority,
  advance_phase, new_turn, untap,
}

abbrev pub advances : ℕ → TurnMachine → TurnMachine
advances zero t = t
advances (suc n) t = advance_phase (advances n t)

index-of_index : (n : ℕ) → n < 13 → index (of_index n) ≡ n
index-of_index n h = ground arith

of_index-index : (p : Phase) → of_index (index p) ≡ p
of_index-index untap = refl
of_index-index _ = refl

index-lt : (p : Phase) → index p < 13
index-lt untap = omega arith
index-lt _ = omega arith

index-advance_phase : (t : TurnMachine) → index (advance_phase t).phase ≡ (index t.phase + 1) % 13
unfolding advance_phase
index-advance_phase t = elim (dec_lt (index t.phase + 1) 13) [
  | yes h ↦ ground (arith, index-of_index (index t.phase + 1))
  | no h ↦ ground (arith, index-lt t.phase)
]

turn-advance_phase :
    (t : TurnMachine)
    → ((advance_phase t).active_player ≡ t.active_player)
      × ((advance_phase t).turn_number ≡ t.turn_number)
unfolding advance_phase
turn-advance_phase t = ground arith

-- After n calls of `advance_phase` the phase is the n-th after the present one, counted round the
-- thirteen phases, and the active player and the turn number are as they were.
pub advances-index :
    (n : ℕ) (t : TurnMachine)
    → (index (advances n t).phase ≡ (index t.phase + n) % 13)
      × ((advances n t).active_player ≡ t.active_player)
      × ((advances n t).turn_number ≡ t.turn_number)
advances-index zero t = (omega (arith, index-lt t.phase), refl, refl)
advances-index (suc n) t =
    let ih = advances-index n t in
    (
      omega (arith, index-advance_phase (advances n t), ih.0),
      (turn-advance_phase (advances n t)).0 ∙ ih.1,
      (turn-advance_phase (advances n t)).1 ∙ ih.2,
    )

phase-eq : (p q : Phase) → index p ≡ index q → p ≡ q
phase-eq p q h = sym (of_index-index p) ∙ ap of_index h ∙ of_index-index q

-- A new turn for a player starts at its untap step; from there the n-th phase, for n below thirteen,
-- is a combat phase exactly for n from 4 to 9, a main phase exactly for 3 and 10, and gives priority
-- exactly if it is neither the first nor the last, and the thirteenth call is back at untap.
pub new_turn_phases :
    (p n : ℕ) (t : TurnMachine)
    → n < 13
    → let u = advances n (new_turn p t) in
      (u.phase ≡ of_index n)
      × ((is_combat_phase u ≡ true) ↔ ((4 ≤ n) × (n ≤ 9)))
      × ((is_main_phase u ≡ true) ↔ ((n ≡ 3) ⊎ (n ≡ 10)))
      × ((phase_needs_priority u ≡ true) ↔ ((0 < n) × (n < 12)))
      × (u.turn_number ≡ t.turn_number + 1)
      × (u.active_player ≡ p)
      × ((advances 13 (new_turn p t)).phase ≡ untap)
unfolding is_combat_phase is_main_phase phase_needs_priority new_turn
new_turn_phases p n t h =
    let a = advances-index n (new_turn p t) in
    let k : index (advances n (new_turn p t)).phase ≡ n = omega (arith, a.0) in
    (
      sym (of_index-index _) ∙ ap of_index k,
      (rw k (ground arith)),
      (rw k (ground arith)),
      (rw k (ground arith)),
      a.2,
      a.1,
      phase-eq _ untap ((advances-index 13 (new_turn p t)).0),
    )
