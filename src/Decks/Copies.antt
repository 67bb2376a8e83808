-- ===== src/Decks/Copies.antt =====
-- The count of copies of the deck validator (server/src/engine/deck_validator.cpp).
use Prim.Native.String.{String}
use text.Mathlib.Text.{◌==◌ as str_eq}
use text.Mathlib.TextEquality.{eq_iff}
use uud.Base.StringMaps
use uud.Base.StringMaps.{StringMap}
use uud.Base.{
  ltb, if◌then◌else◌, ltb→lt, Bool-cases, count_if, ℕ, ◌+◌, ◌≤◌, ◌<◌, ◌≡◌, refl, subst, ◌∙◌, ◌↔◌,
  inl, inr, Bool, true, false, not, ◌&&◌, List, [], ◌∷◌, arith,
}
use uud.Decks.{
  DeckValidationResult, fail, max_copies, is_basic_land, count_at, counted, copies_error,
  check_copies,
}

-- How often the name stands in the list.
unfoldable pub copies_of : String → List String → ℕ
copies_of name = count_if (λ n. str_eq n name)

-- The limit on copies, for a list that is counted from `counts` on.
abbrev pub WithinLimit : List String → StringMap ℕ → Type 0
WithinLimit names counts =
    (name : String)
    → is_basic_land name ≡ false
    → 0 < copies_of name names
    → count_at name counts + copies_of name names ≤ max_copies

pub none_of : (name : String) → copies_of name [] ≡ 0
unfolding copies_of
none_of name = refl

pub copies_of-cons :
    (name n : String) (names : List String)
    → copies_of name (n ∷ names) ≡ (if str_eq n name then 1 else 0) + copies_of name names
unfolding copies_of
copies_of-cons name n names = ground arith

-- counts after the loop has seen a name
abbrev counts_after : String → StringMap ℕ → StringMap ℕ
counts_after n counts =
    if is_basic_land n then counts else StringMaps.insert n (counted n counts) counts

count_after :
    (n name : String) (counts : StringMap ℕ)
    → is_basic_land name ≡ false
    → count_at name (counts_after n counts)
      ≡ (if str_eq n name then 1 else 0) + count_at name counts
count_after n name counts b = elim (Bool-cases (str_eq n name)) [
  | inl e ↦
      let same : n ≡ name = (eq_iff n name).0 e in
      let self : str_eq name name ≡ true = subst (λ m. str_eq m name ≡ true) same e in
      rw (same, b, StringMaps.lookup-insert name name (counted name counts) counts, self)
        (omega arith)
  | inr e ↦ elim (Bool-cases (is_basic_land n)) [
    | inl k ↦ rw (k, e) (omega arith)
    | inr k ↦ rw (k, StringMaps.lookup-insert n name (counted n counts) counts, e) (omega arith)
  ]
]

-- The result after a check, whose failure adds an error.
pub still_valid :
    (failed : Bool) (error : String) (r : DeckValidationResult)
    → ((if failed then fail error r else r).valid ≡ true) ↔ ((failed ≡ false) × (r.valid ≡ true))
still_valid true error r = (λ v. absurd (cc), λ (f, v). absurd (cc))
still_valid false error r = (λ v. (refl, v), λ (f, v). v)

-- The counts when the next name is the one that is counted, and when it is another.
limit_same :
    (at now copies all : ℕ)
    → ltb max_copies (at + 1) ≡ false
    → now ≡ 1 + at
    → all ≡ 1 + copies
    → (0 < copies → now + copies ≤ max_copies)
    → at + all ≤ max_copies
limit_same at now copies all ok a m rest = elim (Bool-cases (ltb 0 copies)) [
  | inl p ↦ omega (arith, rest (ltb→lt 0 copies p), a, m)
  | inr p ↦ ground (arith, ok, a, m, p)
]

limit_other :
    (at now copies all : ℕ)
    → now ≡ 0 + at
    → all ≡ 0 + copies
    → 0 < all
    → (0 < copies → now + copies ≤ max_copies)
    → at + all ≤ max_copies
limit_other at now copies all a m f rest = omega (arith, rest (omega (arith, f, m)), a, m)

limit_sum :
    (at now copies all own : ℕ)
    → now ≡ own + at
    → all ≡ own + copies
    → 0 < copies
    → (0 < all → at + all ≤ max_copies)
    → now + copies ≤ max_copies
limit_sum at now copies all own a m f within = omega (arith, within (omega (arith, m, f)), a, m)

below_limit :
    (at copies all : ℕ)
    → all ≡ 1 + copies
    → (0 < all → at + all ≤ max_copies)
    → ltb max_copies (at + 1) ≡ false
below_limit at copies all m within =
    let bound = within (omega (arith, m)) in ground (arith, bound, m)

right_half : (b over : Bool) → b ≡ false → (not b && over) ≡ false → over ≡ false
right_half b over e h = ground arith

-- One more name: the counts that the rest of the list starts from bound it, and its own copy is
-- checked as it is counted.
limit_step :
    (n name : String) (names : List String) (counts : StringMap ℕ)
    → is_basic_land name ≡ false
    → (not (is_basic_land n) && ltb max_copies (counted n counts)) ≡ false
    → (0 < copies_of name names
        → count_at name (counts_after n counts) + copies_of name names ≤ max_copies)
    → 0 < copies_of name (n ∷ names)
    → count_at name counts + copies_of name (n ∷ names) ≤ max_copies
limit_step n name names counts b ok rest f = elim (Bool-cases (str_eq n name)) [
  | inl e ↦
      let same : n ≡ name = (eq_iff n name).0 e in
      let here : (not (is_basic_land name) && ltb max_copies (counted name counts)) ≡ false =
        subst (λ m. (not (is_basic_land m) && ltb max_copies (counted m counts)) ≡ false) same ok in
      let more : copies_of name (n ∷ names) ≡ 1 + copies_of name names =
        copies_of-cons name n names ∙ rw e refl in
      let after : count_at name (counts_after n counts) ≡ 1 + count_at name counts =
        count_after n name counts b ∙ rw e refl in
      limit_same (count_at name counts) _ (copies_of name names) _ (right_half _ _ b here) after
        more rest
  | inr e ↦
      let more : copies_of name (n ∷ names) ≡ 0 + copies_of name names =
        copies_of-cons name n names ∙ rw e refl in
      let after : count_at name (counts_after n counts) ≡ 0 + count_at name counts =
        count_after n name counts b ∙ rw e refl in
      limit_other (count_at name counts) _ (copies_of name names) _ after more f rest
]

module _ (to_string : ℕ → String) where
  pub check_copies-valid :
      (names : List String) (counts : StringMap ℕ) (r : DeckValidationResult)
      → (check_copies to_string names counts r).valid ≡ true
      → (r.valid ≡ true) × WithinLimit names counts
  unfolding check_copies
  check_copies-valid [] counts r v = (v, λ name b f. absurd (omega (arith, f, none_of name)))
  check_copies-valid (n ∷ names) counts r v =
      let (ok, within) = check_copies-valid names (counts_after n counts) _ v in
      let (passed, ok') = (still_valid _ (copies_error to_string n) r).0 ok in
      (ok', λ name b f. limit_step n name names counts b passed (within name b) f)

  limit_here :
      (n : String) (names : List String) (counts : StringMap ℕ)
      → WithinLimit (n ∷ names) counts
      → (not (is_basic_land n) && ltb max_copies (counted n counts)) ≡ false
  limit_here n names counts within = elim (Bool-cases (is_basic_land n)) [
    | inl b ↦ rw b refl
    | inr b ↦
        let more : copies_of n (n ∷ names) ≡ 1 + copies_of n names =
          copies_of-cons n n names ∙ rw ((eq_iff n n).1 refl) refl in
        rw b (below_limit (count_at n counts) (copies_of n names) _ more (λ f. within n b f))
  ]

  limit_rest :
      (n : String) (names : List String) (counts : StringMap ℕ)
      → WithinLimit (n ∷ names) counts
      → WithinLimit names (counts_after n counts)
  limit_rest n names counts within name b f =
      limit_sum (count_at name counts) _ (copies_of name names) _ _ (count_after n name counts b)
        (copies_of-cons name n names) f (within name b)

  pub valid-check_copies :
      (names : List String) (counts : StringMap ℕ) (r : DeckValidationResult)
      → r.valid ≡ true
      → WithinLimit names counts
      → (check_copies to_string names counts r).valid ≡ true
  unfolding check_copies
  valid-check_copies [] counts r v within = v
  valid-check_copies (n ∷ names) counts r v within =
      valid-check_copies names (counts_after n counts) _
        ((still_valid _ (copies_error to_string n) r).1 (limit_here n names counts within, v))
        (limit_rest n names counts within)
