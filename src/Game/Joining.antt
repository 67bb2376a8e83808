-- ===== src/Game/Joining.antt =====
-- Players who join a game and bring decks (server/src/engine/game.cpp).
use uud.Base.{◌==◌, push_back, ℕ, ◌≡◌, refl, ◌∙◌, Bool, false, ◌||◌, List, [], ◌∷◌, arith}
use uud.Player.{Player}
use uud.Game.Sound.{is_known, IsDistinct}

pub neither : (a b : Bool) → (a || b) ≡ false → (a ≡ false) × (b ≡ false)
neither a b h = ground arith

swap_test : (a b : ℕ) → (a == b) ≡ false → (b == a) ≡ false
swap_test a b h = ground arith

is_known-push :
    (id : ℕ) (players : List Player) (p : Player)
    → is_known id (push_back players p) ≡ (is_known id players || p.id == id)
is_known-push id [] p = ground arith
is_known-push id (q ∷ players) p = ground (arith, is_known-push id players p)

pub push-IsDistinct :
    (players : List Player) (p : Player)
    → is_known p.id players ≡ false
    → IsDistinct players
    → IsDistinct (push_back players p)
push-IsDistinct [] p new d = (refl, tt)
push-IsDistinct (q ∷ players) p new (fresh, d) =
    let (other, rest) = neither (q.id == p.id) _ new in
    (
      is_known-push q.id players p ∙ rw fresh (swap_test q.id p.id other),
      push-IsDistinct players p rest d,
    )
