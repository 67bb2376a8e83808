-- ===== src/StateBased/Rest.antt =====
-- What holds of a game without state-based actions to do
-- (server/src/engine/state_based_actions.cpp).
use uud.Base.{any_of, ◌≡◌, Bool, false, ◌&&◌, ◌||◌}
use uud.Permanent.{Permanent}
use uud.Player.{Player, is_alive}
use uud.StateBased.{Board, out_of_life, poisoned, dies, lost_target, has_both_counters}

abbrev pub has_to_lose : Player → Bool
has_to_lose p = is_alive p && (out_of_life p || poisoned p || p.failed_to_draw)

-- Some permanent on the battlefield passes the test.
abbrev pub any_permanent : (Permanent → Bool) → Board → Bool
any_permanent test b = any_of (λ entry. test entry.1) b.zones.battlefield

-- Nobody who has to lose is left, no creature that dies, nothing attached to what is gone, and no
-- permanent with counters of both kinds.
unfoldable pub IsSettled : Board → Type 0
IsSettled b =
    (any_of has_to_lose b.players ≡ false)
    × (any_permanent dies b ≡ false)
    × (any_permanent (λ perm. lost_target perm.attached_to b.zones) b ≡ false)
    × (any_permanent has_both_counters b ≡ false)
