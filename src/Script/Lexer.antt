-- ===== src/Script/Lexer.antt =====
-- `Lexer` of lib/ReaderWriter/LinkerScript.cpp.
pub mod Remainder
pub mod Progress
use lld_or1k.Base.{
  ℕ, zero, suc, ◌+◌, Bool, true, false, ◌||◌, ◌&&◌, not, Option, none, some, List, [], ◌∷◌, ◌++◌,
  nat_eq, length, if◌then◌else◌,
}
use lld_or1k.Base.Text.{Text, same_text, starts_with, drop, take_while, drop_while}
use lld_or1k.Script.Token.{
  Token, Kind, unknown, eof, star, starequal, minus, slash, slashequal, number, question,
  identifier, libname, is_kind,
}
use lld_or1k.Core.Outcome.{Outcome, ok, assertion_failure, out_of_fuel, ◌>>=◌}
use lld_or1k.Script.Stream.{token}
use lld_or1k.Script.Spelling.{
  is_space, can_start_number, can_continue_number, can_start_name, can_continue_name, fixed_tokens,
  fixed_token, keywords, keyword,
}

-- White space and comments; in a comment, with the character in front.
unfoldable mutual
  pub skip_whitespace : Text → Text
  skip_whitespace [] = []
  skip_whitespace (c ∷ []) = elim (is_space c) [ true ↦ [] | false ↦ c ∷ [] ]
  skip_whitespace (c ∷ d ∷ s) = elim (is_space c) [
    | true ↦ skip_whitespace (d ∷ s)
    | false ↦ elim (nat_eq c b'/' && nat_eq d b'*') [ true ↦ skip_opened s | false ↦ c ∷ d ∷ s ]
  ]

  pub skip_opened : Text → Text
  skip_opened [] = []
  skip_opened (c ∷ s) = skip_comment c s

  pub skip_comment : ℕ → Text → Text
  skip_comment last [] = []
  skip_comment last (c ∷ s) = elim (nat_eq c b'/' && nat_eq last b'*') [
    | true ↦ skip_whitespace s
    | false ↦ skip_comment c s
  ]

unfoldable pub take : ℕ → Text → Text
take zero s = []
take (suc n) [] = []
take (suc n) (c ∷ s) = c ∷ take n s

-- `Token(drop(_buffer, n), kind)`, with the buffer that is left.
abbrev pub cut : ℕ → Kind → Text → Token × Text
cut n kind s = (token kind (take n s), drop n s)

-- The first character, or the NUL behind the buffer.
abbrev pub first : Text → ℕ
first [] = 0
first (c ∷ s) = c

-- Behind `-l`: the colon and the first character of the name, then the rest of it. A buffer that ends
-- in front of that character fails the assertion of `StringRef::operator[]`.
unfoldable pub lib_token : ℕ → Text → Outcome (Token × Text)
unfolding drop take take_while drop_while
lib_token start s = elim (drop start s) [
  | [] ↦ assertion_failure
  | c ∷ rest ↦ elim (can_start_name c) [
    | true ↦ ok (
      token libname (take (suc start) s ++ take_while can_continue_name rest),
      drop_while can_continue_name rest,
    )
    | false ↦ ok (cut 1 unknown s)
  ]
]

unfoldable pub lex_minus : Text → Outcome (Token × Text)
unfolding lib_token drop take
lex_minus [] = ok (cut 1 minus (b'-' ∷ []))
lex_minus (c ∷ s) = elim (nat_eq c b'l') [
  | true ↦ lib_token (if nat_eq (first s) b':' then 1 else 0) s
  | false ↦ ok (cut 1 minus (b'-' ∷ c ∷ s))
]

-- A quoted text, up to the next quote; an empty one, or one that is not closed, is unknown. A quote
-- at the end of the buffer fails the assertion of `drop_front`.
unfoldable pub lex_quoted : ℕ → Text → Outcome (Token × Text)
unfolding drop take take_while drop_while
lex_quoted quote [] = assertion_failure
lex_quoted quote (c ∷ s) =
    let word = take_while (λ d. not (nat_eq d quote)) (c ∷ s) in
    let rest = drop_while (λ d. not (nat_eq d quote)) (c ∷ s) in
    elim (nat_eq (length word) 0 || nat_eq (length rest) 0) [
      | true ↦ ok (cut 1 unknown (c ∷ s))
      | false ↦ ok (token identifier word, drop 1 rest)
    ]

-- A number, which is unknown at the end of the buffer.
unfoldable pub lex_number : ℕ → Text → Token × Text
unfolding drop take take_while drop_while
lex_number c s = elim (drop_while can_continue_number s) [
  | [] ↦ cut 1 unknown (c ∷ s)
  | d ∷ rest ↦ (token number (c ∷ take_while can_continue_number s), d ∷ rest)
]

-- `_buffer.size() > 1 && !canContinueName(_buffer[1])`
abbrev pub stands_alone : Text → Bool
stands_alone [] = false
stands_alone (c ∷ s) = not (can_continue_name c)

-- A keyword or an identifier, which is unknown at the end of the buffer.
unfoldable pub lex_name : ℕ → Text → Token × Text
unfolding drop take take_while drop_while same_text
lex_name c s = elim (can_start_name c) [
  | false ↦ cut 1 unknown (c ∷ s)
  | true ↦ elim (drop_while can_continue_name s) [
    | [] ↦ cut 1 unknown (c ∷ s)
    | d ∷ rest ↦
        let word = c ∷ take_while can_continue_name s in
        (token (keyword keywords word) word, d ∷ rest)
  ]
]

unfoldable pub lex_default : ℕ → Text → Token × Text
unfolding lex_number lex_name drop take
lex_default c s =
    if can_start_number c
    then lex_number c s
    else if nat_eq c b'/' && nat_eq (first s) b'='
    then cut 2 slashequal (c ∷ s)
    else if nat_eq c b'/' && stands_alone s
    then cut 1 slash (c ∷ s)
    else if nat_eq c b'*' && nat_eq (first s) b'='
    then cut 2 starequal (c ∷ s)
    else if nat_eq c b'*' && stands_alone s
    then cut 1 star (c ∷ s)
    else if nat_eq c b'?' && stands_alone s
    then cut 1 question (c ∷ s)
    else lex_name c s

-- `lex` behind the white space.
unfoldable pub lex_token : Text → Outcome (Token × Text)
unfolding lex_default lex_minus lex_quoted drop take starts_with
lex_token [] = ok (token eof [], [])
lex_token (c ∷ s) = elim (nat_eq c 0) [
  | true ↦ ok (cut 1 eof (c ∷ s))
  | false ↦ elim (fixed_token fixed_tokens c s) [
    | some (behind, kind) ↦ ok (cut (suc behind) kind (c ∷ s))
    | none ↦ elim (nat_eq c b'-') [
      | true ↦ lex_minus s
      | false ↦ elim (nat_eq c b'"' || nat_eq c b'\'') [
        | true ↦ lex_quoted c s
        | false ↦ ok (lex_default c s)
      ]
    ]
  ]
]

unfoldable pub lex : Text → Outcome (Token × Text)
unfolding lex_token skip_whitespace
lex s = lex_token (skip_whitespace s)

-- The tokens in front of the first `eof`.
unfoldable pub tokens : ℕ → Text → Outcome (List Token)
unfolding lex
tokens zero s = out_of_fuel
tokens (suc fuel) s = lex s >>= λ read. elim (is_kind read.0.kind eof) [
  | true ↦ ok []
  | false ↦ tokens fuel read.1 >>= λ ts. ok (read.0 ∷ ts)
]
