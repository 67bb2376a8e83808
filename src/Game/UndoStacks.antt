-- ===== src/Game/UndoStacks.antt =====
-- Undo stacks that the payment of costs keeps (server/src/engine/game.cpp).
use uud.Actions.{ActionData}
use uud.Base.Int.{ℤ}
use uud.Base.Maps
use uud.Base.{
  ◌==◌, if◌then◌else◌, Bool-cases, ℕ, zero, suc, ◌≡◌, refl, ap, ◌∙◌, inl, inr, Bool, true, false,
  Option, none, some, List, [], ◌∷◌,
}
use uud.Card.{Card}
use uud.Mana.Cost.{ManaCost}
use uud.Mana.Pool.{ManaPayment, pay_cost}
use uud.Permanent.{Permanent}
use uud.Player.{Player}
use uud.Zones.{find_permanent}
use uud.Game.{ManaUndoEntry, Game, find_player, update_player}
use uud.Game.Tapping.{change_permanent, undo_stack, set_undo_stack}
use uud.Game.Paying.{
  has_card_keyword, convokes, convoke_with, convoke_each, delve_card, delve_cards, delve, set_pool,
  pay_with, pay_now,
}

-- Nobody has anything to undo.
unfoldable pub IsUndoFree : Game → Type 0
IsUndoFree g = (q : ℕ) → undo_stack q g ≡ []

-- A change for one player that leaves the others' undo stacks alone.
abbrev pub LeavesOthers : ℕ → Game → Game → Type 0
LeavesOthers p g g' = (q : ℕ) → (p == q) ≡ false → undo_stack q g' ≡ undo_stack q g

if_false : {A : Type 0} (b : Bool) (x y : A) → b ≡ false → (if b then x else y) ≡ y
if_false b x y e = rw e refl

if_true : {A : Type 0} (b : Bool) (x y : A) → b ≡ true → (if b then x else y) ≡ x
if_true b x y e = rw e refl

pub set_stack_other :
    (p q : ℕ) (entries : List ManaUndoEntry) (g : Game)
    → (p == q) ≡ false
    → undo_stack q (set_undo_stack p entries g) ≡ undo_stack q g
set_stack_other p q entries g e =
    ap (Maps.get_or_default {V = List ManaUndoEntry} [])
      (Maps.lookup-insert p q entries g.mana_undo_stacks ∙ if_false (p == q) _ _ e)

pub either_kept :
    (b : Bool) (q : ℕ) (g g' : Game)
    → undo_stack q g' ≡ undo_stack q g
    → undo_stack q (if b then g else g') ≡ undo_stack q g
either_kept true q g g' e = refl
either_kept false q g g' e = e

same_stacks :
    (paid : Bool) (p : ℕ) (payment : ManaPayment) (g : Game)
    → (if◌then◌else◌ {A = Bool × Game} paid
        (true, record g { players = update_player p (set_pool payment) g.players })
        (false, g)).1.mana_undo_stacks
      ≡ g.mana_undo_stacks
same_stacks true p payment g = refl
same_stacks false p payment g = refl

pay_with-keeps :
    (p : ℕ) (payment : Option ManaPayment) (player : Option Player) (g : Game)
    → (pay_with p payment player g).1.mana_undo_stacks ≡ g.mana_undo_stacks
pay_with-keeps p none player g = refl
pay_with-keeps p (some payment) none g = refl
pay_with-keeps p (some payment) (some player) g =
    same_stacks ((pay_cost payment player.mana_pool).1) p payment g

pub pay_now-keeps :
    (p : ℕ) (cost : ManaCost) (g : Game)
    → (pay_now p cost g).1.mana_undo_stacks ≡ g.mana_undo_stacks
unfolding pay_now
pay_now-keeps p cost g = pay_with-keeps p _ (find_player p g.players) g

-- A stack that is cleared, where the others are empty.
pub emptied :
    (p q : ℕ) (g : Game)
    → ((p == q) ≡ false → undo_stack q g ≡ [])
    → undo_stack q (set_undo_stack p [] g) ≡ []
emptied p q g others = elim (Bool-cases (p == q)) [
  | inl e ↦
      ap (Maps.get_or_default {V = List ManaUndoEntry} [])
        (Maps.lookup-insert p q [] g.mana_undo_stacks ∙ if_true (p == q) _ _ e)
  | inr e ↦ set_stack_other p q [] g e ∙ others e
]

pub either_paid :
    {A : Type 0} (b : Bool) (x y : A × Game)
    → IsUndoFree x.1
    → IsUndoFree y.1
    → IsUndoFree ((if b then x else y).1)
either_paid true x y f g = f
either_paid false x y f g = g

convoke_with-IsUndoFree :
    (p id : ℕ) (perm : Option Permanent) (cost : ManaCost) (g : Game)
    → IsUndoFree g
    → IsUndoFree ((convoke_with p id perm (cost, g)).1)
unfolding IsUndoFree change_permanent
convoke_with-IsUndoFree p id none cost g free = free
convoke_with-IsUndoFree p id (some perm) cost g free =
    either_paid (convokes p perm) _ (cost, g) free free

convoke_each-IsUndoFree :
    (p : ℕ) (ids : List ℕ) (st : ManaCost × Game)
    → IsUndoFree st.1
    → IsUndoFree ((convoke_each p ids st).1)
unfolding convoke_each
convoke_each-IsUndoFree p [] (cost, g) free = free
convoke_each-IsUndoFree p (id ∷ ids) (cost, g) free =
    convoke_each-IsUndoFree p ids _
      (convoke_with-IsUndoFree p id (find_permanent id g.zones) cost g free)

pub convoked :
    (p : ℕ) (action : ActionData) (card : Card) (cost : ManaCost) (g : Game)
    → IsUndoFree g
    → IsUndoFree (
        (if has_card_keyword "Convoke" card
          then convoke_each p action.convoke_ids (cost, g)
          else (cost, g)).1)
convoked p action card cost g free =
    either_paid (has_card_keyword "Convoke" card) _ (cost, g)
      (convoke_each-IsUndoFree p action.convoke_ids (cost, g) free) free

delve_card-IsUndoFree :
    (p : ℕ) (card : Option Card) (g : Game) → IsUndoFree g → IsUndoFree ((delve_card p card g).1)
unfolding IsUndoFree
delve_card-IsUndoFree p none g free = free
delve_card-IsUndoFree p (some card) g free = free

delve_cards-IsUndoFree : (n p : ℕ) (g : Game) → IsUndoFree g → IsUndoFree ((delve_cards n p g).1)
unfolding delve_cards
delve_cards-IsUndoFree zero p g free = free
delve_cards-IsUndoFree (suc n) p g free =
    delve_cards-IsUndoFree n p _ (delve_card-IsUndoFree p _ g free)

pub delve-IsUndoFree :
    (p : ℕ) (count : ℤ) (st : ManaCost × Game) → IsUndoFree st.1 → IsUndoFree ((delve p count st).1)
unfolding delve
delve-IsUndoFree p count (cost, g) free = delve_cards-IsUndoFree _ p g free
