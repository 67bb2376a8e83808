-- ===== src/Decks/Known.antt =====
-- The loop of the deck validator that asks the card registry
-- (server/src/engine/deck_validator.cpp).
use Prim.Native.String.{String}
use text.Mathlib.Text.{◌==◌ as str_eq}
use text.Mathlib.TextEquality.{eq_iff}
use uud.Base.StringMaps
use uud.Base.StringMaps.{StringMap}
use uud.Base.{
  if◌then◌else◌, Bool-cases, is_some, ◌+◌, ◌<◌, ◌≡◌, refl, sym, subst, ◌∙◌, inl, inr, Bool, true,
  false, not, ◌&&◌, ◌||◌, Option, some, List, [], ◌∷◌, arith,
}
use uud.Decks.{DeckValidationResult, check_known}
use uud.Decks.Copies.{copies_of, none_of, copies_of-cons, still_valid}

some_or : (b : Bool) (o : Option Bool) → is_some (if b then some true else o) ≡ (b || is_some o)
some_or true o = refl
some_or false o = refl

known_half : (seen known : Bool) → seen ≡ false → (not seen && not known) ≡ false → known ≡ true
known_half seen known e h = ground arith

known_first : (seen known : Bool) → (seen ≡ false → known ≡ true) → (not seen && not known) ≡ false
known_first true known h = refl
known_first false known h = rw (h refl) refl

or_false : (a b : Bool) → (a || b) ≡ false → (a ≡ false) × (b ≡ false)
or_false a b h = ground arith

-- What the loop over the registry needs: the names that were not asked for yet are known.
abbrev pub KnownFrom : (String → Bool) → List String → StringMap Bool → Type 0
KnownFrom has_card names checked =
    (name : String)
    → 0 < copies_of name names
    → is_some (StringMaps.lookup name checked) ≡ false
    → has_card name ≡ true

abbrev checked_after : String → StringMap Bool → StringMap Bool
checked_after n checked =
    if not (is_some (StringMaps.lookup n checked))
    then StringMaps.insert n true checked
    else checked

checked_lookup :
    (n name : String) (checked : StringMap Bool)
    → is_some (StringMaps.lookup name (checked_after n checked))
      ≡ (str_eq n name || is_some (StringMaps.lookup name checked))
checked_lookup n name checked = elim (Bool-cases (is_some (StringMaps.lookup n checked))) [
  | inl k ↦ elim (Bool-cases (str_eq n name)) [
    | inl e ↦
        let same : n ≡ name = (eq_iff n name).0 e in
        rw (k, e) (subst (λ m. is_some (StringMaps.lookup m checked) ≡ true) same k)
    | inr e ↦ rw (k, e) refl
  ]
  | inr k ↦ rw (k, StringMaps.lookup-insert n name true checked) (some_or (str_eq n name) _)
]

module _ (has_card : String → Bool) where
  known_step :
      (n name : String) (names : List String) (checked : StringMap Bool)
      → (not (is_some (StringMaps.lookup n checked)) && not (has_card n)) ≡ false
      → KnownFrom has_card names (checked_after n checked)
      → 0 < copies_of name (n ∷ names)
      → is_some (StringMaps.lookup name checked) ≡ false
      → has_card name ≡ true
  known_step n name names checked ok rest f new = elim (Bool-cases (str_eq n name)) [
    | inl e ↦
        let same : n ≡ name = (eq_iff n name).0 e in
        let here : (not (is_some (StringMaps.lookup name checked)) && not (has_card name)) ≡ false =
          subst (λ m. (not (is_some (StringMaps.lookup m checked)) && not (has_card m)) ≡ false)
            same ok in
        known_half _ _ new here
    | inr e ↦
        let more : copies_of name (n ∷ names) ≡ 0 + copies_of name names =
          copies_of-cons name n names ∙ rw e refl in
        rest name (omega (arith, f, more)) (checked_lookup n name checked ∙ rw (e, new) refl)
  ]

  pub check_known-valid :
      (names : List String) (checked : StringMap Bool) (r : DeckValidationResult)
      → (check_known has_card names checked r).valid ≡ true
      → (r.valid ≡ true) × KnownFrom has_card names checked
  unfolding check_known
  check_known-valid [] checked r v = (v, λ name f new. absurd (omega (arith, f, none_of name)))
  check_known-valid (n ∷ names) checked r v =
      let (ok, known) = check_known-valid names (checked_after n checked) _ v in
      let (passed, ok') = (still_valid _ _ r).0 ok in
      (ok', λ name f new. known_step n name names checked passed known f new)

  pub valid-check_known :
      (names : List String) (checked : StringMap Bool) (r : DeckValidationResult)
      → r.valid ≡ true
      → KnownFrom has_card names checked
      → (check_known has_card names checked r).valid ≡ true
  unfolding check_known
  valid-check_known [] checked r v known = v
  valid-check_known (n ∷ names) checked r v known =
      let more : copies_of n (n ∷ names) ≡ 1 + copies_of n names =
        copies_of-cons n n names ∙ rw ((eq_iff n n).1 refl) refl in
      let here : (not (is_some (StringMaps.lookup n checked)) && not (has_card n)) ≡ false =
        known_first _ _ (known n (omega (arith, more))) in
      valid-check_known names (checked_after n checked) _ ((still_valid _ _ r).1 (here, v))
        (λ name f new.
          known name (omega (arith, f, copies_of-cons name n names))
            ((or_false _ _ (sym (checked_lookup n name checked) ∙ new)).1))
