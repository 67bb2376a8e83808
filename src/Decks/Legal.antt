-- ===== src/Decks/Legal.antt =====
-- What the deck validator accepts (server/src/engine/deck_validator.cpp).
use Prim.Native.String.{String}
use text.Mathlib.Text.{◌==◌ as str_eq}
use text.Mathlib.TextEquality.{eq_iff}
use uud.Base.StringMaps
use uud.Base.{
  leb, ◌==◌, if◌then◌else◌, Bool-cases, is_some, &&_split, length, all_of, ℕ, ◌+◌, ◌≤◌, ◌<◌, ◌≡◌,
  refl, sym, subst, ◌∙◌, inl, inr, Bool, true, false, ◌&&◌, ◌||◌, List, [], ◌∷◌, arith,
}
use uud.Decks.{no_errors, fail, is_basic_land, count_at, validate}
use uud.Decks.Copies.{copies_of, none_of, copies_of-cons, check_copies-valid, valid-check_copies}
use uud.Decks.Known.{check_known-valid, valid-check_known}

-- A test of every name in a list, by the names that stand in it.
all_of_known :
    (ok : String → Bool) (names : List String)
    → all_of ok names ≡ true
    → (name : String) → 0 < copies_of name names
    → ok name ≡ true
all_of_known ok [] h name f = absurd (omega (arith, f, none_of name))
all_of_known ok (n ∷ names) h name f =
    let (first, others) = &&_split (ok n) _ h in
    elim (Bool-cases (str_eq n name)) [
      | inl e ↦ subst (λ m. ok m ≡ true) ((eq_iff n name).0 e) first
      | inr e ↦
          let more : copies_of name (n ∷ names) ≡ 0 + copies_of name names =
            copies_of-cons name n names ∙ rw e refl in
          all_of_known ok names others name (omega (arith, f, more))
    ]

known_all_of :
    (ok : String → Bool) (names : List String)
    → ((name : String) → 0 < copies_of name names → ok name ≡ true)
    → all_of ok names ≡ true
known_all_of ok [] h = refl
known_all_of ok (n ∷ names) h =
    let more : copies_of n (n ∷ names) ≡ 1 + copies_of n names =
      copies_of-cons n n names ∙ rw ((eq_iff n n).1 refl) refl in
    rw (h n (omega (arith, more)))
      (known_all_of ok names (λ name f. h name (omega (arith, f, copies_of-cons name n names))))

same_answer : (a b : Bool) → (a ≡ true → b ≡ true) → (b ≡ true → a ≡ true) → a ≡ b
same_answer true b f g = sym (f refl)
same_answer false true f g = g refl
same_answer false false f g = refl

-- At most four copies, or a basic land.
abbrev pub few_copies : List String → String → Bool
few_copies names name = is_basic_land name || leb (copies_of name names) 4

few_of : (basic : Bool) (n : ℕ) → (basic ≡ false → n ≤ 4) → (basic || leb n 4) ≡ true
few_of basic n h = ground arith

of_few : (basic : Bool) (n : ℕ) → (basic || leb n 4) ≡ true → basic ≡ false → n ≤ 4
of_few basic n h e = ground arith

all_three : (a b c : Bool) → (a && b && c) ≡ true → (a ≡ true) × (b ≡ true) × (c ≡ true)
all_three a b c h = ground arith

sized :
    (same : Bool) (error : String)
    → (if same then no_errors else fail error no_errors).valid ≡ true
    → same ≡ true
sized same error h = ground arith

fresh_count : (name : String) → count_at name [] ≡ 0
unfolding StringMaps.lookup
fresh_count name = refl

unchecked : (name : String) → is_some (StringMaps.lookup {V = Bool} name []) ≡ false
unfolding StringMaps.lookup
unchecked name = refl

module _ (to_string : ℕ → String) (has_card : String → Bool) (names : List String) where
  valid-conditions :
      (validate to_string has_card names).valid ≡ true
      → (length names == 40 && all_of (few_copies names) names && all_of has_card names) ≡ true
  unfolding validate
  valid-conditions v =
      let (v', known) = check_known-valid has_card names [] _ v in
      let (v'', within) = check_copies-valid to_string names [] _ v' in
      rw
        (
          sized (length names == 40) _ v'',
          known_all_of (few_copies names) names (λ name f.
              few_of (is_basic_land name) _
                (λ b. omega (arith, within name b f, fresh_count name))),
        )
        (known_all_of has_card names (λ name f. known name f (unchecked name)))

  conditions-valid :
      (length names == 40 && all_of (few_copies names) names && all_of has_card names) ≡ true
      → (validate to_string has_card names).valid ≡ true
  unfolding validate
  conditions-valid h =
      let (size, few, known) = all_three (length names == 40) _ _ h in
      valid-check_known has_card names [] _
        (valid-check_copies to_string names [] _ (rw size refl) (λ name b f.
          let most = of_few _ _ (all_of_known (few_copies names) names few name f) b in
          omega (arith, most, fresh_count name)))
        (λ name f new. all_of_known has_card names known name f)

-- A deck is valid just when it has forty cards, has of no name but a basic land's more than four
-- copies, and the registry knows every name in it.
pub validate_lem :
    (to_string : ℕ → String) (has_card : String → Bool) (names : List String)
    → (validate to_string has_card names).valid
      ≡ (length names == 40 && all_of (few_copies names) names && all_of has_card names)
validate_lem to_string has_card names =
    same_answer _ _ (valid-conditions to_string has_card names)
      (conditions-valid to_string has_card names)
