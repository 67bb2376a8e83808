-- ===== src/Zones/Draws.antt =====
-- The order in which cards leave a library (server/src/engine/zone_manager.cpp).
use uud.Base.Maps.{Map}
use uud.Base.Maps
use uud.Base.{
  Option-cases, length, push_back, back, pop_back, back-push_back, pop_back-push_back, back_cases,
  ℕ, zero, suc, ◌≡◌, refl, sym, ap, ◌∙◌, inl, inr, none, some, List, [], ◌∷◌, ◌++◌, reverse,
  append-nil, append_assoc, reverse-cons, arith,
}
use uud.Card.{Card}
use uud.Zones.{ZoneManager, cards_of, draw_card, put_on_top, put_on_bottom}
use uud.Zones.Libraries.{draw_card-empty, draw_card-some}

-- draw_card, the given number of times.
unfoldable pub draw_cards : ℕ → ℕ → ZoneManager → ZoneManager
draw_cards zero player_id z = z
draw_cards (suc n) player_id z = draw_cards n player_id ((draw_card player_id z).1)

cards_of-insert :
    (player_id : ℕ) (cards : List Card) (m : Map (List Card))
    → cards_of player_id (Maps.insert player_id cards m) ≡ cards
cards_of-insert player_id cards m =
    ap (Maps.get_or_default []) (Maps.lookup-insert player_id player_id cards m) ∙ ground arith

-- Drawing from a library that ends with a card moves that card to the end of the hand.
draw_card-top :
    (player_id : ℕ) (cards : List Card) (card : Card) (z : ZoneManager)
    → cards_of player_id z.libraries ≡ push_back cards card
    → ((draw_card player_id z).0 ≡ some card)
      × (cards_of player_id (draw_card player_id z).1.libraries ≡ cards)
      × (cards_of player_id (draw_card player_id z).1.hands
          ≡ push_back (cards_of player_id z.hands) card)
draw_card-top player_id cards card z e =
    let drawn = draw_card-some player_id card z (ap back e ∙ back-push_back cards card) in
    (
      rw drawn,
      rw drawn (
          cards_of-insert player_id (pop_back (cards_of player_id z.libraries)) z.libraries
          ∙ ap pop_back e
          ∙ pop_back-push_back cards card),
      rw drawn (cards_of-insert player_id (push_back (cards_of player_id z.hands) card) z.hands),
    )

-- Drawing as many cards as a list has, from a library that ends with the list reversed, leaves the
-- rest of the library and appends the list to the hand: cards are drawn from the end, one by one.
pub draw_cards-order :
    (player_id : ℕ) (taken rest : List Card) (z : ZoneManager)
    → cards_of player_id z.libraries ≡ rest ++ reverse taken
    → (cards_of player_id (draw_cards (length taken) player_id z).libraries ≡ rest)
      × (cards_of player_id (draw_cards (length taken) player_id z).hands
          ≡ cards_of player_id z.hands ++ taken)
unfolding draw_cards
draw_cards-order player_id [] rest z e =
    (e ∙ append-nil rest, sym (append-nil (cards_of player_id z.hands)))
draw_cards-order player_id (c ∷ cs) rest z e =
    let shape : cards_of player_id z.libraries ≡ push_back (rest ++ reverse cs) c =
      e ∙ ap (◌++◌ rest) (reverse-cons c cs) ∙ sym (append_assoc rest (reverse cs) (c ∷ [])) in
    let (_, lib, hand) = draw_card-top player_id (rest ++ reverse cs) c z shape in
    let (left, got) = draw_cards-order player_id cs rest ((draw_card player_id z).1) lib in
    (left, got ∙ ap (λ h. h ++ cs) hand ∙ append_assoc (cards_of player_id z.hands) (c ∷ []) cs)

draw_card-result :
    (player_id : ℕ) (z : ZoneManager)
    → (draw_card player_id z).0 ≡ back (cards_of player_id z.libraries)
draw_card-result player_id z = elim (Option-cases (back (cards_of player_id z.libraries))) [
  | inl e ↦ ap (λ r. r.0) (draw_card-empty player_id z e) ∙ sym e
  | inr (card, e) ↦ ap (λ r. r.0) (draw_card-some player_id card z e) ∙ sym e
]

libraries-put_on_top :
    (player_id : ℕ) (card : Card) (z : ZoneManager)
    → cards_of player_id (put_on_top player_id card z).libraries
      ≡ push_back (cards_of player_id z.libraries) card
unfolding put_on_top
libraries-put_on_top player_id card z =
    cards_of-insert player_id (push_back (cards_of player_id z.libraries) card) z.libraries

libraries-put_on_bottom :
    (player_id : ℕ) (card : Card) (z : ZoneManager)
    → cards_of player_id (put_on_bottom player_id card z).libraries
      ≡ card ∷ cards_of player_id z.libraries
unfolding put_on_bottom
libraries-put_on_bottom player_id card z =
    cards_of-insert player_id (card ∷ cards_of player_id z.libraries) z.libraries

back-cons :
    (x : Card) (xs : List Card)
    → back (x ∷ xs) ≡ (elim (back xs) [ none ↦ some x | some c ↦ some c ])
back-cons x [] = refl
back-cons x (y ∷ ys) = elim (back_cases (y ∷ ys)) [
  | inl (e, _) ↦ absurd (cc)
  | inr (z, _, b) ↦ rw b
]

-- A card that is put on top of a library is the next one drawn, and the library is then as before;
-- a card that is put on the bottom is drawn next only when the library is empty.
draw_card-put :
    (player_id : ℕ) (card : Card) (z : ZoneManager)
    → ((draw_card player_id (put_on_top player_id card z)).0 ≡ some card)
      × (cards_of player_id (draw_card player_id (put_on_top player_id card z)).1.libraries
          ≡ cards_of player_id z.libraries)
      × ((draw_card player_id (put_on_bottom player_id card z)).0
          ≡ (elim (back (cards_of player_id z.libraries)) [ none ↦ some card | some c ↦ some c ]))
draw_card-put player_id card z =
    let (drawn, left, _) =
      draw_card-top player_id (cards_of player_id z.libraries) card (put_on_top player_id card z)
        (libraries-put_on_top player_id card z) in
    (
      drawn,
      left,
      draw_card-result player_id (put_on_bottom player_id card z)
          ∙ ap back (libraries-put_on_bottom player_id card z)
          ∙ back-cons card (cards_of player_id z.libraries),
    )
