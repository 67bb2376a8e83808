-- ===== src/Mana/Cost/Ending.antt =====
-- The loop of ManaCost::from_string ends by itself (engine/include/cle/mana).
use uud.Base.{
  ◌==◌, Bool-cases, Option-cases, length, ℕ, zero, suc, ◌≤◌, ◌<◌, ◌≡◌, refl, sym, subst, ◌≢◌, ◌↔◌,
  ◌⊎◌, inl, inr, true, false, none, some, List, [], ◌∷◌, arith,
}
use uud.Mana.Color.{ManaParseError, Result, invalid_format, ok, err}
use uud.Mana.Cost.{ManaCost, split_at, apply_token, parse_tokens}

-- The runs of the loop as the code has it, without fuel: on what is left of the input and the cost
-- so far, up to the result. A run has finitely many rounds.
pub data Parses : List ℕ → ManaCost → Result ManaCost → Type 0 where
  at_end : {c : ManaCost} → Parses [] c (ok c)
  no_brace :
      {ch : ℕ} {rest : List ℕ} {c : ManaCost}
      → ch ≢ b'{'
      → Parses (ch ∷ rest) c (err invalid_format)
  unclosed :
      {rest : List ℕ} {c : ManaCost}
      → split_at b'}' rest ≡ none
      → Parses (b'{' ∷ rest) c (err invalid_format)
  bad_token :
      {rest token after : List ℕ} {c : ManaCost} {e : ManaParseError}
      → split_at b'}' rest ≡ some (token, after)
      → apply_token token c ≡ err e
      → Parses (b'{' ∷ rest) c (err e)
  round :
      {rest token after : List ℕ} {c c' : ManaCost} {result : Result ManaCost}
      → split_at b'}' rest ≡ some (token, after)
      → apply_token token c ≡ ok c'
      → Parses after c' result
      → Parses (b'{' ∷ rest) c result

split_at-shorter :
    (mark : ℕ) (xs : List ℕ) {a b : List ℕ} → split_at mark xs ≡ some (a, b) → length b < length xs
unfolding split_at
split_at-shorter mark [] h = cc
split_at-shorter mark (x ∷ xs) {b = b} h = elim (Option-cases (split_at mark xs)) [
  | inl e ↦ ground arith
  | inr ((a', b'), e) ↦ ground (arith, split_at-shorter mark xs {a = a'} {b = b'} e)
]

same_byte : (a b : ℕ) → (a == b) ≡ true → a ≡ b
same_byte a b h = ground arith

other_byte : (a b : ℕ) → (a == b) ≡ false → a ≢ b
other_byte a b h = ground arith

differs : (a b : ℕ) → a ≢ b → (a == b) ≡ false
differs a b h = ground arith

Result-cases :
    (r : Result ManaCost) → ((c : ManaCost) × (r ≡ ok c)) ⊎ ((e : ManaParseError) × (r ≡ err e))
Result-cases (ok c) = inl (c, refl)
Result-cases (err e) = inr (e, refl)

-- The function on enough fuel makes a run.
parse_run :
    (fuel : ℕ) (input : List ℕ) (c : ManaCost)
    → length input ≤ fuel
    → Parses input c (parse_tokens fuel input c)
unfolding parse_tokens
parse_run zero [] c h = at_end
parse_run (suc fuel) [] c h = at_end
parse_run zero (ch ∷ rest) c h = absurd (omega (arith, h))
parse_run (suc fuel) (ch ∷ rest) c h = elim (Bool-cases (ch == b'{')) [
  | inr other ↦ rw other (no_brace (other_byte ch b'{' other))
  | inl brace ↦
      subst (λ x. Parses (x ∷ rest) c (parse_tokens (suc fuel) (x ∷ rest) c))
        (sym (same_byte ch b'{' brace))
        (elim (Option-cases (split_at b'}' rest)) [
          | inl e ↦ rw e (unclosed e)
          | inr ((token, after), e) ↦ elim (Result-cases (apply_token token c)) [
            | inl (c', a) ↦
                rw (e, a)
                  (round e a (
                    parse_run fuel after c'
                      (omega (arith, h, split_at-shorter b'}' rest {a = token} {b = after} e))))
            | inr (error, a) ↦ rw (e, a) (bad_token e a)
          ]
        ])
]

-- And every run ends with the result of the function.
run_result :
    {input : List ℕ} {c : ManaCost} {result : Result ManaCost}
    → Parses input c result
    → (fuel : ℕ) → length input ≤ fuel
    → parse_tokens fuel input c ≡ result
unfolding parse_tokens
run_result at_end zero h = refl
run_result at_end (suc fuel) h = refl
run_result (no_brace {ch} {rest} other) zero h = absurd (omega (arith, h))
run_result (no_brace {ch} {rest} {c} other) (suc fuel) h = rw (differs ch b'{' other) refl
run_result (unclosed {rest} e) zero h = absurd (omega (arith, h))
run_result (unclosed e) (suc fuel) h = rw e refl
run_result (bad_token e a) zero h = absurd (omega (arith, h))
run_result (bad_token e a) (suc fuel) h = rw (e, a) refl
run_result (round e a more) zero h = absurd (omega (arith, h))
run_result (round {rest} {token} {after} e a more) (suc fuel) h =
    rw (e, a)
      (run_result more fuel
        (omega (arith, h, split_at-shorter b'}' rest {a = token} {b = after} e)))

-- The loop of the parser always ends by itself, and the length of what is left of the input is
-- enough fuel: with at least that much, the function returns a result exactly when the loop, which
-- has no fuel, reaches it in finitely many rounds. So it never returns because the fuel has run out.
pub parse_tokens-Parses :
    (fuel : ℕ) (input : List ℕ) (c : ManaCost)
    → length input ≤ fuel
    → Parses input c (parse_tokens fuel input c)
      × ((result : Result ManaCost) → Parses input c result ↔ (parse_tokens fuel input c ≡ result))
parse_tokens-Parses fuel input c h =
    let run = parse_run fuel input c h in
    (run, λ result. (λ other. run_result other fuel h, λ e. subst (Parses input c) e run))
