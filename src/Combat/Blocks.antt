-- ===== src/Combat/Blocks.antt =====
-- The blockers of each attacker (server/src/engine/combat_manager.cpp).
use uud.Base.Maps.{Map}
use uud.Base.Maps
use uud.Base.{
  ◌==◌, if◌then◌else◌, Bool-cases, push_back, any_of, keep_if, ℕ, ◌≡◌, sym, ap, ◌∙◌, inl, inr, ◌||◌,
  List, [], ◌∷◌, ◌++◌, map, append-nil, append_assoc, arith,
}
use uud.Combat.{
  BlockDeclaration, CombatManager, push_id, order_blocks, set_blockers, has_entry, is_blocked,
  get_blockers_for,
}

-- The blockers that were declared for an attacker, in order.
unfoldable pub declared_for : ℕ → List BlockDeclaration → List ℕ
declared_for id bs = map (λ b. b.blocker_id) (keep_if (λ b. b.attacker_id == id) bs)

at-push_id :
    (key x id : ℕ) (m : Map (List ℕ))
    → Maps.at [] id (push_id key x m) ≡ Maps.at [] id m ++ (if key == id then x ∷ [] else [])
at-push_id key x id m =
    ap (Maps.get_or_default []) (Maps.lookup-insert key id (push_back (Maps.at [] key m) x) m)
    ∙ elim (Bool-cases (key == id)) [
      | inl e ↦
          let same : key ≡ id = ground (arith, e) in
          rw e (ap (λ k. push_back (Maps.at [] k m) x) same)
      | inr e ↦ rw e (sym (append-nil (Maps.at [] id m)))
    ]

at-order_blocks :
    (id : ℕ) (bs : List BlockDeclaration) (m : Map (List ℕ))
    → Maps.at [] id (order_blocks bs m) ≡ Maps.at [] id m ++ declared_for id bs
unfolding order_blocks declared_for
at-order_blocks id [] m = sym (append-nil (Maps.at [] id m))
at-order_blocks id (b ∷ bs) m =
    at-order_blocks id bs (push_id b.attacker_id b.blocker_id m)
    ∙ ap (λ l. l ++ declared_for id bs) (at-push_id b.attacker_id b.blocker_id id m)
    ∙ append_assoc (Maps.at [] id m) _ (declared_for id bs)
    ∙ elim (Bool-cases (b.attacker_id == id)) [ inl e ↦ rw e | inr e ↦ rw e ]

has_entry-push_id :
    (key x id : ℕ) (m : Map (List ℕ))
    → has_entry (Maps.lookup id (push_id key x m)) ≡ (key == id) || has_entry (Maps.lookup id m)
has_entry-push_id key x id m =
    ap has_entry (Maps.lookup-insert key id (push_back (Maps.at [] key m) x) m)
    ∙ elim (Bool-cases (key == id)) [ inl e ↦ rw e | inr e ↦ rw e ]

has_entry-order_blocks :
    (id : ℕ) (bs : List BlockDeclaration) (m : Map (List ℕ))
    → has_entry (Maps.lookup id (order_blocks bs m))
      ≡ has_entry (Maps.lookup id m) || any_of (λ b. b.attacker_id == id) bs
unfolding order_blocks
has_entry-order_blocks id [] m = ground arith
has_entry-order_blocks id (b ∷ bs) m =
    let rest = has_entry-order_blocks id bs (push_id b.attacker_id b.blocker_id m) in
    let here = has_entry-push_id b.attacker_id b.blocker_id id m in ground (arith, rest, here)

-- After set_blockers the blockers of an attacker are those that were declared for it, in the order
-- of the declarations, and it is blocked when there is one.
pub set_blockers_lem :
    (id : ℕ) (bs : List BlockDeclaration) (c : CombatManager)
    → (get_blockers_for id (set_blockers bs c) ≡ declared_for id bs)
      × (is_blocked id (set_blockers bs c) ≡ any_of (λ b. b.attacker_id == id) bs)
unfolding get_blockers_for is_blocked set_blockers Maps.lookup
set_blockers_lem id bs c = (at-order_blocks id bs [], has_entry-order_blocks id bs [])
