-- ===== src/StateBased/Measure.antt =====
-- What the state-based actions use up (server/src/engine/state_based_actions.cpp): living players,
-- permanents, attachments and pairs of counters.
use uud.Base.Maps.{Map}
use uud.Base.Maps
use uud.Base.{
  ◌==◌, if◌then◌else◌, Bool-cases, is_some, ℕ, ◌+◌, ◌≤◌, ◌<◌, ◌≡◌, refl, subst, ◌∙◌, ◌⊎◌, inl, inr,
  Bool, true, false, ◌||◌, List, [], ◌∷◌, arith,
}
use uud.Permanent.{Permanent}
use uud.Player.{Player, is_alive}
use uud.StateBased.{Board, Outcome, no_change, and_then, has_both_counters}

abbrev pub tally : Bool → ℕ
tally b = if b then 1 else 0

unfoldable pub weight : Permanent → ℕ
weight perm = 1 + tally (is_some perm.attached_to) + tally (has_both_counters perm)

abbrev pub weight_all : Map Permanent → ℕ
weight_all [] = 0
weight_all ((id, perm) ∷ m) = weight perm + weight_all m

unfoldable pub alive_count : List Player → ℕ
alive_count [] = 0
alive_count (p ∷ players) = tally (is_alive p) + alive_count players

unfoldable pub measure : Board → ℕ
measure b = alive_count b.players + weight_all b.zones.battlefield

-- A check either uses something up and says so, or leaves the game as it is and says that.
unfoldable pub Progress : Outcome → Board → Type 0
Progress o b =
    ((o.applied ≡ true) × measure o.board < measure b) ⊎ ((o.applied ≡ false) × (o.board ≡ b))

pub no_change-Progress : (b : Board) → Progress (no_change b) b
unfolding Progress
no_change-Progress b = inr (refl, refl)

pub and_then-Progress :
    (o : Outcome) (b : Board) (next : Board → Outcome)
    → Progress o b
    → ((b' : Board) → Progress (next b') b')
    → Progress (and_then o next) b
unfolding Progress
and_then-Progress o b next first later = joined o b (next o.board) first (later o.board)
  where
    joined :
        (o : Outcome) (b : Board) (o' : Outcome)
        → ((o.applied ≡ true) × measure o.board < measure b) ⊎ ((o.applied ≡ false) × (o.board ≡ b))
        → ((o'.applied ≡ true) × measure o'.board < measure o.board)
          ⊎ ((o'.applied ≡ false) × (o'.board ≡ o.board))
        → (((o.applied || o'.applied) ≡ true) × measure o'.board < measure b)
          ⊎ (((o.applied || o'.applied) ≡ false) × (o'.board ≡ b))
    joined o b o' (inl (a, less)) (inl (a', less')) = inl (rw a refl, omega (arith, less, less'))
    joined o b o' (inl (a, less)) (inr (a', same)) = inl (rw a refl, rw same less)
    joined o b o' (inr (a, same)) (inl (a', less')) =
        inl (rw (a, a') refl, subst (λ c. measure o'.board < measure c) same less')
    joined o b o' (inr (a, same)) (inr (a', same')) = inr (rw (a, a') refl, same' ∙ same)

-- A permanent that leaves.
pub weight_all-erase :
    (id : ℕ) (m : Map Permanent)
    → weight_all (Maps.erase id m) + tally (is_some (Maps.lookup id m)) ≤ weight_all m
unfolding Maps.erase Maps.lookup weight
weight_all-erase id [] = omega arith
weight_all-erase id ((k, perm) ∷ m) =
    let rest = weight_all-erase id m in
    elim (Bool-cases (k == id)) [
      | inl e ↦ rw e (omega (arith, rest))
      | inr e ↦ rw e (omega (arith, rest))
    ]
