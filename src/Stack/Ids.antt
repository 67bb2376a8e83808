-- ===== src/Stack/Ids.antt =====
-- The ids of the entries: distinct as long as the 64-bit counter has not wrapped.
use uud.Base.{
  push_back, pop_back, any_of, find_erase_cases, find_erase-push_back, ℕ, suc, ◌+◌, ◌%◌, ◌^◌, ◌≤◌,
  ◌<◌, ◌≡◌, refl, subst, inl, inr, false, some, List, [], ◌∷◌, ◌++◌, arith,
}
use uud.Stack.{StackEntry, TheStack, push, resolve_top, has_id, remove, clear}

-- The ids rise from the bottom to the top: from `lo` on, and below `hi`.
abbrev pub Rising : ℕ → List StackEntry → ℕ → Type 0
Rising lo [] hi = lo ≤ hi
Rising lo (e ∷ es) hi = (lo ≤ e.id) × Rising (suc e.id) es hi

abbrev pub IsValid : TheStack → Type 0
IsValid s = Rising 1 s.entries s.next_id

Rising-down : (lo lo' hi : ℕ) (es : List StackEntry) → lo' ≤ lo → Rising lo es hi → Rising lo' es hi
Rising-down lo lo' hi [] h r = omega arith
Rising-down lo lo' hi (e ∷ es) h r = (omega arith, r.1)

Rising-push_back :
    (lo hi : ℕ) (es : List StackEntry) (e : StackEntry)
    → e.id ≡ hi
    → Rising lo es hi
    → Rising lo (push_back es e) (hi + 1)
Rising-push_back lo hi [] e h r = omega arith
Rising-push_back lo hi (x ∷ es) e h r = (r.0, Rising-push_back (suc x.id) hi es e h r.1)

Rising-pop_back : (lo hi : ℕ) (es : List StackEntry) → Rising lo es hi → Rising lo (pop_back es) hi
Rising-pop_back lo hi [] r = r
Rising-pop_back lo hi (x ∷ []) r = omega arith
Rising-pop_back lo hi (x ∷ y ∷ ys) r = (r.0, Rising-pop_back (suc x.id) hi (y ∷ ys) r.1)

Rising-drop_one :
    (lo hi : ℕ) (before after : List StackEntry) (a : StackEntry)
    → Rising lo (before ++ a ∷ after) hi
    → Rising lo (before ++ after) hi
Rising-drop_one lo hi [] after a r = Rising-down (suc a.id) lo hi after (omega arith) r.1
Rising-drop_one lo hi (x ∷ before) after a r =
    (r.0, Rising-drop_one (suc x.id) hi before after a r.1)

Rising-le : (lo hi : ℕ) (es : List StackEntry) → Rising lo es hi → lo ≤ hi
Rising-le lo hi [] r = r
Rising-le lo hi (e ∷ es) r = omega (arith, Rising-le (suc e.id) hi es r.1)

Rising-fresh : (lo hi : ℕ) (es : List StackEntry) → Rising lo es hi → any_of (has_id hi) es ≡ false
Rising-fresh lo hi [] r = refl
Rising-fresh lo hi (e ∷ es) r =
    ground (arith, Rising-fresh (suc e.id) hi es r.1, Rising-le (suc e.id) hi es r.1)

pub data Call : Type 0 where
  pushes : StackEntry → Call
  resolves : Call
  removes : ℕ → Call
  clears : Call

pub run : List Call → TheStack → TheStack
run [] s = s
run (pushes e ∷ cs) s = run cs (push e s).0
run (resolves ∷ cs) s = run cs (resolve_top s).0
run (removes i ∷ cs) s = run cs (remove i s).0
run (clears ∷ cs) s = run cs (clear s)

abbrev pub count_pushes : List Call → ℕ
count_pushes [] = 0
count_pushes (pushes e ∷ cs) = suc (count_pushes cs)
count_pushes (resolves ∷ cs) = count_pushes cs
count_pushes (removes i ∷ cs) = count_pushes cs
count_pushes (clears ∷ cs) = count_pushes cs

push-next_id :
    (e : StackEntry) (s : TheStack) → s.next_id + 1 < 2 ^ 64 → (push e s).0.next_id ≡ s.next_id + 1
unfolding push
push-next_id e s h = omega arith

push-IsValid :
    (e : StackEntry) (s : TheStack) → s.next_id + 1 < 2 ^ 64 → IsValid s → IsValid (push e s).0
unfolding push
push-IsValid e s h v =
    let k : (s.next_id + 1) % 2 ^ 64 ≡ s.next_id + 1 = omega arith in
    rw k (Rising-push_back 1 s.next_id s.entries (record e { id = s.next_id }) refl v)

remove-IsValid :
    (i : ℕ) (s : TheStack)
    → IsValid s
    → IsValid (remove i s).0 × ((remove i s).0.next_id ≡ s.next_id)
unfolding remove
remove-IsValid i s v = elim (find_erase_cases (has_id i) s.entries) [
  | inl (m, e) ↦ rw (e, remove) (v, refl)
  | inr (a, rest, f, e) ↦
      rw (e, remove)
        (
          rw f.left (
              Rising-drop_one 1 s.next_id f.before f.after a
                (subst (λ es. Rising 1 es s.next_id) f.whole v)),
          refl,
        )
]

-- From a valid stack, and as long as the counter plus the pushes to come stay below 2^64, every
-- sequence of calls leads to a stack whose ids rise strictly from the bottom to the top and stay
-- below the counter, so no two entries share an id.
pub run-IsValid :
    (cs : List Call) (s : TheStack)
    → s.next_id + count_pushes cs < 2 ^ 64
    → IsValid s
    → IsValid (run cs s)
unfolding run resolve_top clear
run-IsValid [] s h v = v
run-IsValid (pushes e ∷ cs) s h v =
    let small : s.next_id + 1 < 2 ^ 64 = omega arith in
    run-IsValid cs (push e s).0 (rw (push-next_id e s small) (omega arith))
      (push-IsValid e s small v)
run-IsValid (resolves ∷ cs) s h v =
    run-IsValid cs (record s { entries = pop_back s.entries }) h
      (Rising-pop_back 1 s.next_id s.entries v)
run-IsValid (removes i ∷ cs) s h v =
    let r = remove-IsValid i s v in run-IsValid cs (remove i s).0 (rw r.1 h) r.0
run-IsValid (clears ∷ cs) s h v =
    run-IsValid cs (record s { entries = [] }) h (Rising-le 1 s.next_id s.entries v)

-- On a valid stack the id that `push` returns picks out the entry just pushed, and removing it
-- leaves the entries as they were before the push.
remove-push :
    (e : StackEntry) (s : TheStack)
    → IsValid s
    → let (t, i) = push e s in
      remove i t ≡ (record t { entries = s.entries }, some (record e { id = i }))
unfolding remove push
remove-push e s v =
    let pushed = record e { id = s.next_id } in
    rw (
      find_erase-push_back (has_id s.next_id) s.entries pushed
          (Rising-fresh 1 s.next_id s.entries v) (ground arith),
      remove,
    )
