-- ===== src/Targets/Parse/Tokens.antt =====
-- How the parser of target filters (server/src/engine/target_filter.cpp) splits a text.
use Prim.Native.Char.{Char, code}
use Prim.Native.String.append
use Prim.Native.String.{String, [] as no_text, ◌∷◌ as text_cons, ◌++◌ as str_append}
use uud.Base.{
  ◌==◌, if◌then◌else◌, &&_split, all_of, keep_if, ◌≡◌, refl, ap, ◌∙◌, Bool, true, false, not, ◌&&◌,
  List, [], ◌∷◌,
}
use uud.Targets.Parse.{onto_first, split_parts, is_token, split_tokens}

-- Texts without the mark, which a list of tokens can be joined from.
unfoldable pub is_unmarked : String → Bool
is_unmarked no_text = true
is_unmarked (text_cons ch s) = not (code ch == b'_') && is_unmarked s

abbrev pub join : List String → String
join [] = ""
join (tok ∷ []) = tok
join (tok ∷ next ∷ tokens) = str_append tok (str_append "_" (join (next ∷ tokens)))

-- One character that is not the mark goes onto the first part.
onto_part :
    (mark : Bool) (ch : Char) (parts : List String) (part : String) (others : List String)
    → not mark ≡ true
    → parts ≡ part ∷ others
    → (if mark then no_text ∷ parts else onto_first parts (λ p. text_cons ch p))
      ≡ text_cons ch part ∷ others
onto_part true ch parts part others h e = absurd (cc)
onto_part false ch parts part others h e = ap (λ l. onto_first l (λ p. text_cons ch p)) e

split_parts-unmarked : (tok : String) → is_unmarked tok ≡ true → split_parts b'_' tok ≡ tok ∷ []
unfolding split_parts is_unmarked
split_parts-unmarked no_text h = refl
split_parts-unmarked (text_cons ch s) h =
    let (other, rest) = &&_split (not (code ch == b'_')) _ h in
    onto_part (code ch == b'_') ch _ s [] other (split_parts-unmarked s rest)

split_parts-append :
    (tok s : String)
    → is_unmarked tok ≡ true
    → split_parts b'_' (str_append tok (str_append "_" s)) ≡ tok ∷ split_parts b'_' s
unfolding split_parts is_unmarked
split_parts-append no_text s h =
    ap (split_parts b'_') (append.nil (str_append "_" s) ∙ append.cons "_" "" s)
    ∙ ap (λ l. "" ∷ split_parts b'_' l) (append.nil s)
split_parts-append (text_cons ch tok) s h =
    let (other, rest) = &&_split (not (code ch == b'_')) _ h in
    ap (split_parts b'_') (append.cons ch tok (str_append "_" s))
    ∙ onto_part (code ch == b'_') ch _ tok (split_parts b'_' s) other
        (split_parts-append tok s rest)

-- A token, as the parser keeps it.
abbrev pub is_clean : String → Bool
is_clean tok = is_token tok && is_unmarked tok

split_parts-join :
    (tok : String) (tokens : List String)
    → all_of is_clean (tok ∷ tokens) ≡ true
    → split_parts b'_' (join (tok ∷ tokens)) ≡ tok ∷ tokens
split_parts-join tok [] h =
    let (first, _) = &&_split (is_clean tok) _ h in
    split_parts-unmarked tok ((&&_split (is_token tok) _ first).1)
split_parts-join tok (next ∷ tokens) h =
    let (first, others) = &&_split (is_clean tok) _ h in
    split_parts-append tok (join (next ∷ tokens)) ((&&_split (is_token tok) _ first).1)
    ∙ ap (◌∷◌ tok) (split_parts-join next tokens others)

keep_if_all :
    (tokens : List String) → all_of is_clean tokens ≡ true → keep_if is_token tokens ≡ tokens
keep_if_all [] h = refl
keep_if_all (tok ∷ tokens) h =
    let (first, others) = &&_split (is_clean tok) _ h in
    rw ((&&_split (is_token tok) _ first).0) (ap (◌∷◌ tok) (keep_if_all tokens others))

pub split_tokens-join :
    (tokens : List String) → all_of is_clean tokens ≡ true → split_tokens (join tokens) ≡ tokens
unfolding split_tokens
split_tokens-join [] h = refl
split_tokens-join (tok ∷ tokens) h =
    ap (keep_if is_token) (split_parts-join tok tokens h) ∙ keep_if_all (tok ∷ tokens) h
