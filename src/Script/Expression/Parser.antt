-- ===== src/Script/Expression/Parser.antt =====
-- The expression parser of lib/ReaderWriter/LinkerScript.cpp, from `parseFunctionCall` to
-- `parseTernaryCondOp`. The functions call each other with one unit of fuel less.
use lld_or1k.Base.{ℕ, zero, suc, ◌-◌, Bool, true, false, ◌&&◌, Option, none, some, List, leb}
use lld_or1k.Script.Token.{
  Token, Kind, identifier, number, kw_align, l_paren, r_paren, minus, tilde, comma, colon, question,
  star, slash, plus, lessless, greatergreater, less, greater, lessequal, greaterequal, equalequal,
  exclaimequal, amp, pipe, is_kind,
}
use lld_or1k.Script.Stream.{
  kind_of, range_of, consume, peek, Parsed, found, null, out_of_fuel, ◌>>=◌, expect,
}
use lld_or1k.Script.Number.{parse_num}
use lld_or1k.Script.Expression.{
  Expression, Arguments, constant, symbol, function_call, unary, bad_unary, bin_op,
  ternary_conditional, no_more, more, Operation, and_op, compare_different, compare_equal,
  compare_greater, compare_greater_equal, compare_less, compare_less_equal, div_op, mul_op, or_op,
  shl_op, shr_op, sub_op, sum_op, UnaryOperation, minus_sign, not_sign,
}

unfoldable pub token_to_bin_op : Kind → Option (Operation × ℕ)
token_to_bin_op star = some (mul_op, 3)
token_to_bin_op slash = some (div_op, 3)
token_to_bin_op plus = some (sum_op, 4)
token_to_bin_op minus = some (sub_op, 4)
token_to_bin_op lessless = some (shl_op, 5)
token_to_bin_op greatergreater = some (shr_op, 5)
token_to_bin_op less = some (compare_less, 6)
token_to_bin_op greater = some (compare_greater, 6)
token_to_bin_op lessequal = some (compare_less_equal, 6)
token_to_bin_op greaterequal = some (compare_greater_equal, 6)
token_to_bin_op equalequal = some (compare_equal, 7)
token_to_bin_op exclaimequal = some (compare_different, 7)
token_to_bin_op amp = some (and_op, 8)
token_to_bin_op pipe = some (or_op, 10)
token_to_bin_op _ = none

unfoldable pub expect_expr_operand : Kind → Bool
expect_expr_operand identifier = true
expect_expr_operand number = true
expect_expr_operand kw_align = true
expect_expr_operand l_paren = true
expect_expr_operand minus = true
expect_expr_operand tilde = true
expect_expr_operand _ = false

-- `Unary(op, child)`, whatever the child is.
abbrev pub unary_of : UnaryOperation → Parsed Expression → Parsed Expression
unary_of op (found e ts) = found (unary op e) ts
unary_of op (null ts) = found (bad_unary op) ts
unary_of op out_of_fuel = out_of_fuel

-- `)` is expected behind an expression that may be null.
abbrev pub close_paren : Parsed Expression → Parsed Expression
close_paren (found e ts) = expect r_paren ts (λ rest. found e rest)
close_paren (null ts) =
    null (elim (is_kind (kind_of ts) r_paren) [ true ↦ consume ts | false ↦ ts ])
close_paren out_of_fuel = out_of_fuel

abbrev pub binop_or_null : Option Expression → List Token → Parsed Expression
binop_or_null none ts = null ts
binop_or_null (some e) ts = found e ts

unfoldable mutual
  unfolding parse_num token_to_bin_op expect_expr_operand

  pub parse_function_call : ℕ → List Token → Parsed Expression
  parse_function_call zero ts = out_of_fuel
  parse_function_call (suc fuel) ts = expect l_paren (consume ts) (λ inside.
      elim (is_kind (kind_of inside) r_paren) [
        | true ↦ let rest = consume inside in found (function_call (range_of rest) no_more) rest
        | false ↦ parse_expression fuel 13 inside >>= (λ first more_tokens.
            parse_arguments fuel more_tokens >>= (λ args behind.
              expect r_paren behind
                (λ rest. found (function_call (range_of ts) (more first args)) rest)))
      ])

  -- The loop over `, expression`.
  pub parse_arguments : ℕ → List Token → Parsed Arguments
  parse_arguments zero ts = out_of_fuel
  parse_arguments (suc fuel) ts = elim (is_kind (kind_of ts) comma) [
    | true ↦ parse_expression fuel 13 (consume ts) >>= (λ param rest.
        parse_arguments fuel rest >>= (λ args behind. found (more param args) behind))
    | false ↦ found no_more ts
  ]

  pub parse_expr_operand : ℕ → List Token → Parsed Expression
  parse_expr_operand zero ts = out_of_fuel
  parse_expr_operand (suc fuel) ts = elim (kind_of ts) [
    | identifier ↦ elim (is_kind (peek ts) l_paren) [
      | true ↦ parse_function_call fuel ts
      | false ↦ found (symbol (range_of ts)) (consume ts)
    ]
    | kw_align ↦ parse_function_call fuel ts
    | minus ↦ unary_of minus_sign (parse_expr_operand fuel (consume ts))
    | tilde ↦ unary_of not_sign (parse_expr_operand fuel (consume ts))
    | number ↦ elim (parse_num (range_of ts)) [
      | none ↦ null ts
      | some v ↦ found (constant v) (consume ts)
    ]
    | l_paren ↦ close_paren (parse_expression fuel 13 (consume ts))
    | _ ↦ null ts
  ]

  pub parse_expression : ℕ → ℕ → List Token → Parsed Expression
  parse_expression zero highest ts = out_of_fuel
  parse_expression (suc fuel) highest ts = elim (expect_expr_operand (kind_of ts)) [
    | false ↦ null ts
    | true ↦ parse_expr_operand fuel ts >>= (λ expr rest. elim (token_to_bin_op (kind_of rest)) [
      | some (op, precedence) ↦ elim (leb precedence highest) [
        | true ↦ parse_operator_operand_loop fuel highest expr none rest
        | false ↦ found expr rest
      ]
      | none ↦ elim (is_kind (kind_of rest) question && leb 13 highest) [
        | true ↦ parse_operator_operand_loop fuel highest expr none rest
        | false ↦ found expr rest
      ]
    ])
  ]

  -- The last argument but one is `binOp`.
  pub parse_operator_operand_loop :
      ℕ → ℕ → Expression → Option Expression → List Token → Parsed Expression
  parse_operator_operand_loop zero highest lhs last_op ts = out_of_fuel
  parse_operator_operand_loop (suc fuel) highest lhs last_op ts =
      elim (token_to_bin_op (kind_of ts)) [
        | none ↦ elim (is_kind (kind_of ts) question && leb 13 highest) [
          | true ↦ parse_ternary_cond_op fuel lhs ts
          | false ↦ binop_or_null last_op ts
        ]
        | some (op, precedence) ↦ elim (leb precedence highest) [
          | false ↦ binop_or_null last_op ts
          | true ↦ parse_expression fuel (precedence - 1) (consume ts) >>= (λ rhs rest.
              let e = bin_op lhs op rhs in parse_operator_operand_loop fuel highest e (some e) rest)
        ]
      ]

  pub parse_ternary_cond_op : ℕ → Expression → List Token → Parsed Expression
  parse_ternary_cond_op zero lhs ts = out_of_fuel
  parse_ternary_cond_op (suc fuel) lhs ts =
      parse_expression fuel 13 (consume ts) >>= (λ true_expr behind. expect colon behind (λ after.
        parse_expression fuel 13 after
        >>= (λ false_expr rest. found (ternary_conditional lhs true_expr false_expr) rest)))
