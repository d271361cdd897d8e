-- ===== src/Script/Lexer/Progress.antt =====
-- The lexer comes to the end of every text, unless it runs into the end in the middle of a token.
use lld_or1k.Base.{
  ℕ, zero, suc, ◌<◌, ◌≡◌, ◌∙◌, refl, sym, nat_eq_iff, ◌++◌, false, ◌||◌, not, List, [], ◌∷◌, nat_eq,
  length, arith, if◌then◌else◌, Bool-cases, Option-cases, inl, inr, subst, ap,
}
use lld_or1k.Base.Text.{Text, drop, take_while, drop_while}
use lld_or1k.Core.Outcome.{Outcome, ok, assertion_failure, ◌>>=◌}
use lld_or1k.Script.Token.{Token, eof, is_kind, libname, unknown, minus, identifier}
use lld_or1k.Script.Stream.{token}
use lld_or1k.Script.Spelling.{fixed_tokens, fixed_token, can_start_name, can_continue_name}
use lld_or1k.Script.Lexer.{
  skip_whitespace, lib_token, first, lex_minus, lex_quoted, lex_default, lex_token, lex, tokens,
  cut, take,
}
use lld_or1k.Script.Lexer.Remainder.{
  ends_line, skip_whitespace-Behind, Behind, Behind-refl, Behind-trans, Behind-open, tail-Behind,
  later, drop-Behind, drop_while-Behind, List-cases, lex_default-Behind,
}

-- How a call of the lexer ends at a character in front of a text.
data Leaves (c : ℕ) (s : Text) (o : Outcome (Token × Text)) : Type 0 where
  reads : (read : Token × Text) → o ≡ ok read → Behind read.1 s → Leaves c s o
  runs_out : o ≡ assertion_failure → ends_line (c ∷ s) ≡ false → Leaves c s o

Leaves-same :
    (c : ℕ) (s : Text) {o o' : Outcome (Token × Text)} → o ≡ o' → Leaves c s o' → Leaves c s o
Leaves-same c s same (reads read e behind) = reads read (same ∙ e) behind
Leaves-same c s same (runs_out e cut_off) = runs_out (same ∙ e) cut_off

-- Where the name behind `-l` begins.
abbrev name_start : Text → ℕ
name_start s = if nat_eq (first s) b':' then 1 else 0

-- A text that ends in front of that name stands in front of no newline.
ends_line-cut : (s : Text) → drop (name_start s) s ≡ [] → ends_line (b'-' ∷ b'l' ∷ s) ≡ false
unfolding ends_line drop
ends_line-cut [] same = refl
ends_line-cut (d ∷ s) same = elim (Bool-cases (nat_eq d b':')) [
  | inl colon ↦ let ended : s ≡ [] = rw colon at same in rw ended (ground (arith, colon))
  | inr other ↦ absurd (cc (rw other at same))
]

lib_token-Leaves : (s : Text) → Leaves b'-' (b'l' ∷ s) (lib_token (name_start s) s)
unfolding lib_token
lib_token-Leaves s = elim (List-cases (drop (name_start s) s)) [
  | inl ended ↦ runs_out (ground (arith, ended)) (ends_line-cut s ended)
  | inr ((d, rest), same) ↦
      let behind : Behind rest s =
        Behind-trans (tail-Behind d rest)
          (subst (λ left. Behind left s) same (drop-Behind (name_start s) s)) in
      elim (Bool-cases (can_start_name d)) [
        | inl starts ↦
            reads
              (
                token libname (take (suc (name_start s)) s ++ take_while can_continue_name rest),
                drop_while can_continue_name rest,
              )
              (ground (arith, same, starts))
              (later b'l' (Behind-trans (drop_while-Behind can_continue_name rest) behind))
        | inr bare ↦
            reads (cut 1 unknown s) (ground (arith, same, bare)) (later b'l' (drop-Behind 1 s))
      ]
]

lex_minus-Leaves : (s : Text) → Leaves b'-' s (lex_minus s)
unfolding lex_minus drop
lex_minus-Leaves [] = reads (cut 1 minus (b'-' ∷ [])) refl (Behind-refl [])
lex_minus-Leaves (c ∷ s) = elim (Bool-cases (nat_eq c b'l')) [
  | inl named ↦ Leaves-same b'-' (c ∷ s) (ground (arith, named)) (
      subst (λ d. Leaves b'-' (d ∷ s) (lib_token (name_start s) s))
        (sym ((nat_eq_iff c b'l').0 named)) (lib_token-Leaves s))
  | inr bare ↦ reads (cut 1 minus (b'-' ∷ c ∷ s)) (ground (arith, bare)) (Behind-refl (c ∷ s))
]

lex_quoted-Leaves :
    (quote : ℕ) (s : Text) → nat_eq quote 10 ≡ false → Leaves quote s (lex_quoted quote s)
unfolding lex_quoted ends_line
lex_quoted-Leaves quote [] h = runs_out refl h
lex_quoted-Leaves quote (c ∷ s) h =
    let inside = λ (d : ℕ). not (nat_eq d quote) in
    let word = take_while inside (c ∷ s) in
    let rest = drop_while inside (c ∷ s) in
    elim (Bool-cases (nat_eq (length word) 0 || nat_eq (length rest) 0)) [
      | inl bad ↦ reads (cut 1 unknown (c ∷ s)) (ground (arith, bad)) (drop-Behind 1 (c ∷ s))
      | inr good ↦
          reads (token identifier word, drop 1 rest) (ground (arith, good))
            (Behind-trans (drop-Behind 1 rest) (drop_while-Behind inside (c ∷ s)))
    ]

lex_token-Leaves : (c : ℕ) (s : Text) → Leaves c s (lex_token (c ∷ s))
unfolding lex_token drop
lex_token-Leaves c s = elim (Bool-cases (nat_eq c 0)) [
  | inl nul ↦ reads (cut 1 eof (c ∷ s)) (ground (arith, nul)) (Behind-refl s)
  | inr other ↦ elim (Option-cases (fixed_token fixed_tokens c s)) [
    | inr ((behind, kind), fits) ↦
        reads (cut (suc behind) kind (c ∷ s)) (ground (arith, other, fits)) (drop-Behind behind s)
    | inl none_fits ↦ elim (Bool-cases (nat_eq c b'-')) [
      | inl dash ↦ Leaves-same c s (ground (arith, other, none_fits, dash)) (
          subst (λ d. Leaves d s (lex_minus s)) (sym ((nat_eq_iff c b'-').0 dash))
            (lex_minus-Leaves s))
      | inr no_dash ↦ elim (Bool-cases (nat_eq c b'"' || nat_eq c b'\'')) [
        | inl quotes ↦
            Leaves-same c s (ground (arith, other, none_fits, no_dash, quotes))
              (lex_quoted-Leaves c s (ground (arith, quotes)))
        | inr plain ↦
            reads (lex_default c s) (ground (arith, other, none_fits, no_dash, plain))
              (lex_default-Behind c s)
      ]
    ]
  ]
]

-- How the lexer ends on a whole text.
pub data Lexes (s : Text) (o : Outcome (List Token)) : Type 0 where
  finishes : (ts : List Token) → o ≡ ok ts → Lexes s o
  cut_off : o ≡ assertion_failure → ends_line s ≡ false → Lexes s o

tokens-Lexes_with : (n : ℕ) (s : Text) → length s < n → Lexes s (tokens n s)
unfolding tokens
tokens-Lexes_with zero s lt = absurd (omega arith)
tokens-Lexes_with (suc n) s lt = elim (List-cases (skip_whitespace s)) [
  | inl ended ↦ finishes [] (rw (ended, tokens) refl)
  | inr ((c, left), same) ↦
      let skipped : Behind (c ∷ left) s = subst (λ l. Behind l s) same (skip_whitespace-Behind s) in
      let lexed : lex s ≡ lex_token (c ∷ left) = ap lex_token same in
      elim (lex_token-Leaves c left) [
        | runs_out e open_ ↦ cut_off (rw (lexed ∙ e)) (Behind-open skipped open_)
        | reads read e behind ↦ elim (Bool-cases (is_kind read.0.kind eof)) [
          | inl ended ↦ finishes [] (rw (lexed ∙ e, ◌>>=◌, ended))
          | inr goes_on ↦
              let onward = Behind-trans behind (Behind-trans (tail-Behind c left) skipped) in
              elim (tokens-Lexes_with n read.1
                (omega (arith, behind.shorter, skipped.shorter, lt))) [
                  | finishes ts run ↦
                      finishes (read.0 ∷ ts) (rw (lexed ∙ e, ◌>>=◌, goes_on) (rw run))
                  | cut_off run open_ ↦
                      cut_off (rw (lexed ∙ e, ◌>>=◌, goes_on) (rw run)) (Behind-open onward open_)
                ]
        ]
      ]
]

-- One call of `lex` more than there are characters is enough for every text: the lexer comes to an
-- `eof`, or it runs into the end of the text in the middle of a token and fails an assertion, which
-- happens only to a text that does not end in a newline.
pub tokens-Lexes : (s : Text) → Lexes s (tokens (suc (length s)) s)
tokens-Lexes s = tokens-Lexes_with (suc (length s)) s (omega arith)
