-- ===== src/Script/Tests/Expressions.antt =====
-- Expressions of linker scripts.
use lld_or1k.Base.{
  suc, ◌+◌, ◌-◌, ◌*◌, ◌^◌, ◌≡◌, refl, Bool, true, false, none, some, contains, address_eq, List, [],
  ◌∷◌, ◌++◌, length, arith, ◌↔◌,
}
use Prim.Native.String.{String}
use lld_or1k.Core.Outcome.{ok, assertion_failure}
use lld_or1k.Base.Text.{codes, text_eq, drop}
use lld_or1k.Script.Token.{
  Token, number, identifier, plusequal, unknown, star, plus, minus, question, colon, less, l_paren,
  r_paren, semicolon,
}
use lld_or1k.Script.Stream.{token, found}
use lld_or1k.Script.Number.{parse_num}
use lld_or1k.Script.ByteStream.{
  parse_hex_to_byte_stream, dump_byte_stream, parse_hex_to_byte_stream-dump_byte_stream,
}
use lld_or1k.Script.Expression.{
  Expression, constant, symbol, bin_op, sum_op, mul_op, shl_op, div_op, ternary_conditional,
  function_call, unary, minus_sign, no_more, bad_unary, compare_less, eval_expr, value,
  undefined_behaviour,
}
use lld_or1k.Script.Expression.Parser.{parse_expression, token_to_bin_op}
use lld_or1k.Script.Expression.Grammar.{Whole, plain, applied, single, a_number, a_symbol, Stops}
use lld_or1k.Script.Expression.Grammar.Agreement.{parse_expression-Whole}
use lld_or1k.Script.Expression.Termination.{Advances, parse_expression-Advances}
use lld_or1k.Script.Lexer.{tokens}
use lld_or1k.Script.Lexer.Progress.{tokens-Lexes, Lexes}
use lld_or1k.Script.Wildcard.{wildcard_match}
use lld_or1k.Script.Wildcard.Meaning.{Matches, IsSimple, empty, one, wildcard_match-Matches}

abbrev digits : String → Token
digits s = token number (codes s)

abbrev name : String → Token
name s = token identifier (codes s)

-- `1 * 2 + 0x10K`
products_first :
    parse_expression 30 13
      (digits "1" ∷ token star [] ∷ digits "2" ∷ token plus [] ∷ digits "0x10K" ∷ [])
    ≡ found (bin_op (bin_op (constant 1) mul_op (constant 2)) sum_op (constant 16384)) []
unfolding parse_expression
products_first = refl

-- `a < 3 ? 1 : b ? 2 : 4` groups to the right.
conditionals_right :
    parse_expression 60 13 (
      name "a"
      ∷ token less []
      ∷ digits "3"
      ∷ token question []
      ∷ digits "1"
      ∷ token colon []
      ∷ name "b"
      ∷ token question []
      ∷ digits "2"
      ∷ token colon []
      ∷ digits "4"
      ∷ [])
    ≡ found
        (ternary_conditional
          (bin_op (symbol (codes "a")) compare_less (constant 3))
          (constant 1)
          (ternary_conditional (symbol (codes "b")) (constant 2) (constant 4)))
        []
unfolding parse_expression
conditionals_right = refl

-- A call without arguments takes the text behind its parentheses for its name.
call_name :
    parse_expression 30 13
      (name "f" ∷ token l_paren [] ∷ token r_paren [] ∷ token semicolon (codes ";") ∷ [])
    ≡ found (function_call (codes ";") no_more) (token semicolon (codes ";") ∷ [])
unfolding parse_expression
call_name = refl

-- A sign without an operand is an object whose child is null.
sign_alone :
    parse_expression 30 13 (token minus [] ∷ token semicolon [] ∷ [])
    ≡ found (bad_unary minus_sign) (token semicolon [] ∷ [])
unfolding parse_expression
sign_alone = refl

-- -7 / 2, and 1 << 64
quotient :
    eval_expr [] (bin_op (unary minus_sign (constant 7)) div_op (constant 2)) ≡ value (2 ^ 64 - 3)
unfolding eval_expr
quotient = refl

long_shift : eval_expr [] (bin_op (constant 1) shl_op (constant 64)) ≡ undefined_behaviour
unfolding eval_expr
long_shift = refl

abbrev sum_tokens : List Token
sum_tokens = digits "1" ∷ token plus (codes "+") ∷ name "x" ∷ []

abbrev sum_expression : Expression
sum_expression = bin_op (constant 1) sum_op (symbol (codes "x"))

sum_derivation : Whole sum_expression sum_tokens
unfolding parse_num token_to_bin_op
sum_derivation = plain (
    applied plus (codes "+") sum_op refl (omega arith) (single (a_number (codes "1") 1 refl))
      (single (a_symbol (codes "x"))))

abbrev sum_rest : List Token
sum_rest = token semicolon (codes ";") ∷ []

sum_rest-Stops : Stops sum_rest
unfolding token_to_bin_op
sum_rest-Stops = (refl, refl, refl)

parse_expression-Whole_example :
    parse_expression (3 * length sum_tokens + 1) 13 (sum_tokens ++ sum_rest)
    ≡ found sum_expression sum_rest
parse_expression-Whole_example =
    parse_expression-Whole sum_expression sum_tokens sum_rest sum_derivation sum_rest-Stops

parse_expression-Advances_example :
    Advances (length sum_tokens) (parse_expression (3 * length sum_tokens + 2) 4 sum_tokens)
parse_expression-Advances_example = parse_expression-Advances 4 sum_tokens

parse_hex_to_byte_stream-dump_byte_stream_example :
    parse_hex_to_byte_stream (drop 2 (dump_byte_stream (144 ∷ 10 ∷ []))) ≡ some (144 ∷ 10 ∷ [])
parse_hex_to_byte_stream-dump_byte_stream_example =
    parse_hex_to_byte_stream-dump_byte_stream (144 ∷ 10 ∷ []) (omega arith, (omega arith, tt))

-- A star matches one character at least.
star_empty : wildcard_match [] (codes ".text*") (codes ".text") ≡ some false
unfolding wildcard_match
star_empty = refl

star_some : wildcard_match [] (codes "*.o") (codes "lib.o.o") ≡ some true
unfolding wildcard_match
star_some = refl

-- When nothing matches behind a star, the name is dropped beyond its end.
star_other : wildcard_match [] (codes "*b") (codes "a") ≡ none
unfolding wildcard_match
star_other = refl

-- A bracket does not match one of the characters that it lists.
bracket : wildcard_match [] (codes "a[bc]") (codes "ab") ≡ some true
unfolding wildcard_match
bracket = refl

bracket_longer : wildcard_match [] (codes "a[bc]d") (codes "abd") ≡ some false
unfolding wildcard_match
bracket_longer = refl

any_t : IsSimple (codes "*t")
any_t =
    one b'*' (λ e. omega (arith, e)) (λ e. omega (arith, e))
      (one b't' (λ e. omega (arith, e)) (λ e. omega (arith, e)) empty)

wildcard_match-Matches_example :
    ((wildcard_match [] (codes "*t") (codes "cat") ≡ some true)
      ↔ Matches (codes "*t") (codes "cat"))
    × (contains b'*' (codes "*t") ≡ false
        → (b : Bool) × (wildcard_match [] (codes "*t") (codes "cat") ≡ some b))
wildcard_match-Matches_example = wildcard_match-Matches [] (codes "*t") (codes "cat") any_t

abbrev assigned : List Token
assigned =
    token identifier (codes "x")
    ∷ token plusequal (codes "+=")
    ∷ token number (codes "0x1F")
    ∷ token semicolon (codes ";")
    ∷ []

-- A name ends at a space or at any other character that cannot continue it; comments are skipped.
tokens_of_assignment : tokens 20 (codes "x /* one */ += 0x1F;\n") ≡ ok assigned
unfolding tokens
tokens_of_assignment = refl

-- The name at the end of the buffer is unknown, character by character.
name_at_end :
    tokens 20 (codes "a;bc")
    ≡ ok (
        token identifier (codes "a")
        ∷ token semicolon (codes ";")
        ∷ token unknown (codes "b")
        ∷ token unknown (codes "c")
        ∷ [])
unfolding tokens
name_at_end = refl

-- A quote, or `-l`, at the very end is no token.
quote_at_end : tokens 20 (codes "a '") ≡ assertion_failure
unfolding tokens
quote_at_end = refl

tokens-Lexes_example :
    Lexes (codes "x = 1;\n") (tokens (suc (length (codes "x = 1;\n"))) (codes "x = 1;\n"))
tokens-Lexes_example = tokens-Lexes (codes "x = 1;\n")
