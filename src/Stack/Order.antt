-- ===== src/Stack/Order.antt =====
-- Last in, first out.
use mathlib.Core.List.{reverse-cons, reverse-reverse}
use uud.Base.{
  length, length-append, push_back, back-push_back, pop_back-push_back, length-reverse, ℕ, zero,
  suc, ◌+◌, ◌%◌, ◌^◌, ◌≤◌, ◌≡◌, refl, sym, ap, ◌∙◌, false, none, some, List, [], ◌∷◌, reverse,
  arith,
}
use uud.Stack.{StackEntry, TheStack, push, resolve_top, peek, is_empty}

push-not_empty : (e : StackEntry) (s : TheStack) → is_empty (push e s).0 ≡ false
unfolding push is_empty
push-not_empty e s = ground (arith, length-append s.entries (record e { id = s.next_id } ∷ []))

-- Pushing an entry and resolving the top gives the entry back under the id that the push returned,
-- with all else of it unchanged, and leaves the entries that were there; `peek` shows the same entry.
pub resolve_top-push :
    (e : StackEntry) (s : TheStack)
    → let (t, i) = push e s in
      (resolve_top t
        ≡ (record s { next_id = (s.next_id + 1) % 2 ^ 64 }, some (record e { id = i })))
      × (peek t ≡ some (record e { id = i }))
      × (is_empty t ≡ false)
unfolding resolve_top push peek is_empty
resolve_top-push e s =
    (rw (pop_back-push_back, back-push_back), back-push_back s.entries _, push-not_empty e s)

-- Resolves the top until the stack is empty, and collects what came off, first to resolve first.
-- `n` is a bound on the number of rounds.
unfoldable pub resolve_all : ℕ → TheStack → List StackEntry
resolve_all zero s = []
resolve_all (suc n) s =
    let rest = resolve_all n (resolve_top s).0 in
    elim (resolve_top s).1 [ none ↦ [] | some e ↦ e ∷ rest ]

same_entries :
    (s : TheStack) {es : List StackEntry} → s.entries ≡ es → s ≡ record s { entries = es }
same_entries s e = ground arith

resolve_all-push_back :
    (es : List StackEntry) (x : StackEntry) (k n : ℕ)
    → resolve_all (suc n) (record { entries = push_back es x; next_id = k })
      ≡ x ∷ resolve_all n (record { entries = es; next_id = k })
unfolding resolve_all resolve_top
resolve_all-push_back es x k n = rw (resolve_all, back-push_back es x, pop_back-push_back es x)

resolve_all_lem :
    (s : TheStack) (n : ℕ) (xs : List StackEntry)
    → s.entries ≡ reverse xs
    → length xs ≤ n
    → resolve_all n s ≡ xs
unfolding resolve_all resolve_top
resolve_all_lem s zero [] e h = refl
resolve_all_lem s zero (x ∷ xs) e h = elim h [ ]
resolve_all_lem s (suc n) [] e h = rw e refl
resolve_all_lem s (suc n) (x ∷ xs) e h =
    ap (resolve_all (suc n)) (same_entries s (e ∙ reverse-cons x xs))
    ∙ resolve_all-push_back (reverse xs) x s.next_id n
    ∙ ap (◌∷◌ x) (resolve_all_lem (record s { entries = reverse xs }) n xs refl (omega arith))

-- A whole stack resolves in the reverse of the order in which its entries stand, so the entry that
-- came last is the first to resolve, and the number of entries is enough rounds.
pub resolve_all_reverses :
    (s : TheStack) (n : ℕ) → length s.entries ≤ n → resolve_all n s ≡ reverse s.entries
unfolding resolve_all resolve_top
resolve_all_reverses s n h =
    resolve_all_lem s n (reverse s.entries) (sym (reverse-reverse s.entries)) (rw length-reverse h)
