-- ===== src/Permanent/Keywords.antt =====
-- The keywords of a permanent and its keyword counters (server/src/engine/permanent.cpp).
use Prim.Native.String.{String}
use text.Mathlib.Text.{◌==◌ as str_eq}
use text.Mathlib.TextEquality.{eq_iff}
use uud.Base.{
  Bool-cases, Option-cases, push_back, erase_if, ◌≡◌, refl, sym, ap, ◌∙◌, ◌⊎◌, inl, inr, Bool, true,
  false, List, [], ◌∷◌, arith,
}
use uud.Base.Int.{ℤ, ◌+ℤ◌, ◌-ℤ◌, ◌≤ℤ◌, ltb_ℤ, pos}
use uud.Base.StringMaps
use uud.Permanent.{
  Permanent, get_counters, add_counter, max_ℤ, eqb_ℤ, store_counter, remove_counter, contains,
  has_keyword, grant_keyword, remove_keyword, counter_name, add_keyword_counter,
  remove_keyword_counter,
}
use uud.Permanent.Counters.{
  get_counters-add_counter, remove_counter-absent, remove_counter-present,
  get_counters-remove_counter,
}

-- One call on a permanent: add (true) or remove (false) a counter of the keyword.
unfoldable pub keyword_step : String → Bool → Permanent → Permanent
keyword_step keyword true p = add_keyword_counter keyword p
keyword_step keyword false p = remove_keyword_counter keyword p

unfoldable pub keyword_steps : String → List Bool → Permanent → Permanent
keyword_steps keyword [] p = p
keyword_steps keyword (s ∷ ss) p = keyword_steps keyword ss (keyword_step keyword s p)

-- The card does not have the keyword, and the permanent has it exactly when it has a counter of it.
pub record IsCounted (keyword : String) (p : Permanent) : Type 0 where
  pub unprinted : contains keyword p.card.keywords ≡ false
  pub nonneg : pos 0 ≤ℤ get_counters (counter_name keyword) p
  pub agrees : has_keyword keyword p ≡ ltb_ℤ (pos 0) (get_counters (counter_name keyword) p)

contains-push_back :
    (keyword : String) (kws : List String) → contains keyword (push_back kws keyword) ≡ true
contains-push_back keyword [] = ground (arith, eq_iff keyword keyword)
contains-push_back keyword (k ∷ kws) = ground (arith, contains-push_back keyword kws)

contains-erase_if :
    (keyword : String) (kws : List String)
    → contains keyword (erase_if (λ k. str_eq k keyword) kws) ≡ false
contains-erase_if keyword [] = refl
contains-erase_if keyword (k ∷ kws) = ground (arith, contains-erase_if keyword kws)

-- After grant_keyword the permanent has the keyword.
pub has_keyword-grant_keyword :
    (keyword : String) (p : Permanent) → has_keyword keyword (grant_keyword keyword p) ≡ true
unfolding grant_keyword has_keyword
has_keyword-grant_keyword keyword p = elim (Bool-cases (has_keyword keyword p)) [
  | inl e ↦ rw e e
  | inr e ↦ rw (e, contains-push_back keyword p.granted_keywords)
]

-- After remove_keyword it has the keyword only if its card has it.
pub has_keyword-remove_keyword :
    (keyword : String) (p : Permanent)
    → has_keyword keyword (remove_keyword keyword p) ≡ contains keyword p.card.keywords
unfolding has_keyword remove_keyword
has_keyword-remove_keyword keyword p = rw (contains-erase_if keyword p.granted_keywords)

-- What the keywords of a permanent do not depend on.
has_keyword-store_counter :
    (keyword type : String) (left : ℤ) (p : Permanent)
    → (has_keyword keyword (store_counter type left p) ≡ has_keyword keyword p)
      × ((store_counter type left p).card ≡ p.card)
unfolding has_keyword
has_keyword-store_counter keyword type left p = elim (Bool-cases (eqb_ℤ left (pos 0))) [
  | inl e ↦ (rw e, rw e)
  | inr e ↦ (rw e, rw e)
]

has_keyword-remove_counter :
    (keyword type : String) (amount : ℤ) (p : Permanent)
    → (has_keyword keyword (remove_counter type amount p) ≡ has_keyword keyword p)
      × ((remove_counter type amount p).card ≡ p.card)
has_keyword-remove_counter keyword type amount p =
    elim (Option-cases (StringMaps.lookup type p.counters)) [
      | inl absent ↦
          let same = remove_counter-absent type amount p absent in
          (ap (has_keyword keyword) same, ap (λ q. q.card) same)
      | inr (n, present) ↦
          let same = remove_counter-present type amount p n present in
          let (has, card) =
            has_keyword-store_counter keyword type (max_ℤ (pos 0) (n -ℤ amount)) p in
          (ap (has_keyword keyword) same ∙ has, ap (λ q. q.card) same ∙ card)
    ]

grant_keyword-keeps :
    (keyword type : String) (p : Permanent)
    → ((grant_keyword keyword p).card ≡ p.card)
      × (get_counters type (grant_keyword keyword p) ≡ get_counters type p)
unfolding grant_keyword get_counters
grant_keyword-keeps keyword type p = elim (Bool-cases (has_keyword keyword p)) [
  | inl e ↦ (rw e, rw e)
  | inr e ↦ (rw e, rw e)
]

one_more : (n : ℤ) → pos 0 ≤ℤ n → (pos 0 ≤ℤ n +ℤ pos 1) × (ltb_ℤ (pos 0) (n +ℤ pos 1) ≡ true)
unfolding ◌+ℤ◌
one_more n h = ground arith

str_eq_refl : (s : String) → str_eq s s ≡ true
str_eq_refl s = ground (arith, eq_iff s s)

add_keyword_counter-IsCounted :
    (keyword : String) (p : Permanent)
    → IsCounted keyword p
    → IsCounted keyword (add_keyword_counter keyword p)
unfolding add_keyword_counter add_counter
add_keyword_counter-IsCounted keyword p v =
    let name = counter_name keyword in
    let added = add_counter name (pos 1) p in
    let (card, kept) = grant_keyword-keeps keyword name added in
    let count : get_counters name (grant_keyword keyword added) ≡ get_counters name p +ℤ pos 1 =
      kept ∙ get_counters-add_counter name name (pos 1) p ∙ rw (str_eq_refl name) in
    let (nonneg, positive) = one_more (get_counters name p) v.nonneg in
    record {
      unprinted = rw card v.unprinted;
      nonneg = rw count nonneg;
      agrees = has_keyword-grant_keyword keyword added ∙ sym (rw count positive);
    }

one_less : (n : ℤ) → ltb_ℤ (pos 0) n ≡ true → pos 0 ≤ℤ max_ℤ (pos 0) (n -ℤ pos 1)
unfolding ◌-ℤ◌
one_less n h = ground arith

still_some : (n : ℤ) → pos 0 ≤ℤ n → eqb_ℤ n (pos 0) ≡ false → ltb_ℤ (pos 0) n ≡ true
still_some n h e = ground arith

-- What remove_keyword_counter does on its three branches.
removal_cases :
    (keyword : String) (p : Permanent)
    → let name = counter_name keyword in
      let less = remove_counter name (pos 1) p in
      ((ltb_ℤ (pos 0) (get_counters name p) ≡ false) × (remove_keyword_counter keyword p ≡ p))
      ⊎ ((ltb_ℤ (pos 0) (get_counters name p) ≡ true)
          × (eqb_ℤ (get_counters name less) (pos 0) ≡ true)
          × (remove_keyword_counter keyword p ≡ remove_keyword keyword less))
      ⊎ ((ltb_ℤ (pos 0) (get_counters name p) ≡ true)
          × (eqb_ℤ (get_counters name less) (pos 0) ≡ false)
          × (remove_keyword_counter keyword p ≡ less))
unfolding remove_keyword_counter
removal_cases keyword p =
    let name = counter_name keyword in
    let less = remove_counter name (pos 1) p in
    elim (Bool-cases (ltb_ℤ (pos 0) (get_counters name p))) [
      | inr none_there ↦ inl (none_there, rw none_there)
      | inl some_there ↦ elim (Bool-cases (eqb_ℤ (get_counters name less) (pos 0))) [
        | inl last ↦ inr (inl (some_there, last, rw (some_there, last)))
        | inr more ↦ inr (inr (some_there, more, rw (some_there, more)))
      ]
    ]

get_counters-remove_keyword :
    (keyword type : String) (p : Permanent)
    → get_counters type (remove_keyword keyword p) ≡ get_counters type p
unfolding get_counters remove_keyword
get_counters-remove_keyword keyword type p = refl

counters_less :
    (keyword : String) (p : Permanent)
    → let name = counter_name keyword in
      get_counters name (remove_counter name (pos 1) p)
      ≡ max_ℤ (pos 0) (get_counters name p -ℤ pos 1)
counters_less keyword p =
    let name = counter_name keyword in
    get_counters-remove_counter name name (pos 1) p (omega arith) ∙ rw (str_eq_refl name)

eqb_ℤ-zero : (n : ℤ) → eqb_ℤ n (pos 0) ≡ true → ltb_ℤ (pos 0) n ≡ false
eqb_ℤ-zero n e = ground arith

card-remove_keyword : (keyword : String) (p : Permanent) → (remove_keyword keyword p).card ≡ p.card
unfolding remove_keyword
card-remove_keyword keyword p = refl

remove_keyword_counter-IsCounted :
    (keyword : String) (p : Permanent)
    → IsCounted keyword p
    → IsCounted keyword (remove_keyword_counter keyword p)
remove_keyword_counter-IsCounted keyword p v =
    let name = counter_name keyword in
    let less = remove_counter name (pos 1) p in
    let (kept, card) = has_keyword-remove_counter keyword name (pos 1) p in
    let count = counters_less keyword p in
    let unprinted : contains keyword less.card.keywords ≡ false = rw card v.unprinted in
    elim (removal_cases keyword p) [
      | inl (_, same) ↦ rw same v
      | inr (inl (positive, last, same)) ↦ rw same (record {
        unprinted = rw (card-remove_keyword keyword less) unprinted;
        nonneg =
            rw (get_counters-remove_keyword keyword name less, count)
              (one_less (get_counters name p) positive);
        agrees =
            has_keyword-remove_keyword keyword less
            ∙ unprinted
            ∙ sym (
                rw (get_counters-remove_keyword keyword name less)
                  (eqb_ℤ-zero (get_counters name less) last));
      })
      | inr (inr (positive, more, same)) ↦ rw same (record {
        unprinted = unprinted;
        nonneg = rw count (one_less (get_counters name p) positive);
        agrees =
            kept
            ∙ v.agrees
            ∙ positive
            ∙ sym (
                still_some (get_counters name less)
                  (rw count (one_less (get_counters name p) positive)) more);
      })
    ]

-- A permanent whose card does not have the keyword, and which has the keyword exactly when it has
-- a counter of it, stays so over every sequence of calls that add or remove a counter of it, and
-- the number of these counters never falls below zero.
pub keyword_steps-IsCounted :
    (keyword : String) (steps : List Bool) (p : Permanent)
    → IsCounted keyword p
    → IsCounted keyword (keyword_steps keyword steps p)
unfolding keyword_steps keyword_step
keyword_steps-IsCounted keyword [] p v = v
keyword_steps-IsCounted keyword (true ∷ ss) p v =
    keyword_steps-IsCounted keyword ss (add_keyword_counter keyword p)
      (add_keyword_counter-IsCounted keyword p v)
keyword_steps-IsCounted keyword (false ∷ ss) p v =
    keyword_steps-IsCounted keyword ss (remove_keyword_counter keyword p)
      (remove_keyword_counter-IsCounted keyword p v)
