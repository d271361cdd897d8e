-- ===== src/Script/Expression/Grammar/Loop.antt =====
-- The operator loop of the parser, token by token, and the first tokens of what the grammar derives.
use lld_or1k.Base.{
  ℕ, zero, suc, ◌<◌, ◌≡◌, refl, true, false, ◌&&◌, leb, none, some, List, ◌++◌, length, arith,
  Option-cases, Bool-cases, inl, inr,
}
use lld_or1k.Script.Token.{Token, Kind, l_paren, question, is_kind}
use lld_or1k.Script.Stream.{kind_of, found}
use lld_or1k.Script.Expression.{Expression, Operation}
use lld_or1k.Script.Expression.Parser.{
  token_to_bin_op, expect_expr_operand, parse_expr_operand, parse_expression,
  parse_operator_operand_loop,
}
use lld_or1k.Script.Expression.Grammar.{
  by_identifier, by_align, Operand, a_symbol, a_number, in_parens, negated, complemented, a_call,
  Stops,
}

-- An operand is announced by its first token.
pub expect_expr_operand-Operand :
    {e : Expression} {ts : List Token} (rest : List Token)
    → Operand e ts
    → expect_expr_operand (kind_of (ts ++ rest)) ≡ true
unfolding expect_expr_operand
expect_expr_operand-Operand rest (a_symbol r) = refl
expect_expr_operand-Operand rest (a_number r v h) = refl
expect_expr_operand-Operand rest (in_parens r s d) = refl
expect_expr_operand-Operand rest (negated r d) = refl
expect_expr_operand-Operand rest (complemented r d) = refl
expect_expr_operand-Operand rest (a_call name r s by_identifier d t) = refl
expect_expr_operand-Operand rest (a_call name r s by_align d t) = refl

pub length-Operand : {e : Expression} {ts : List Token} → Operand e ts → 0 < length ts
length-Operand (a_symbol r) = omega arith
length-Operand (a_number r v h) = omega arith
length-Operand (in_parens r s d) = omega arith
length-Operand (negated r d) = omega arith
length-Operand (complemented r d) = omega arith
length-Operand (a_call name r s kind d t) = omega arith

pub l_paren-token_to_bin_op :
    (k : Kind) (o : Operation × ℕ) → token_to_bin_op k ≡ some o → is_kind k l_paren ≡ false
unfolding token_to_bin_op
l_paren-token_to_bin_op l_paren o h = cc
l_paren-token_to_bin_op _ o h = refl

-- The loop returns what it has where nothing continues it.
pub loop-Stops :
    (n highest : ℕ) (e : Expression) (rest : List Token)
    → 0 < n
    → Stops rest
    → parse_operator_operand_loop n highest e (some e) rest ≡ found e rest
unfolding parse_operator_operand_loop
loop-Stops zero highest e rest lt stops = absurd (omega arith)
loop-Stops (suc n) highest e rest lt stops = ground (arith, stops.0, stops.1)

pub loop-question :
    (n highest : ℕ) (e : Expression) (rest : List Token)
    → 0 < n
    → token_to_bin_op (kind_of rest) ≡ none
    → (is_kind (kind_of rest) question && leb 13 highest) ≡ false
    → parse_operator_operand_loop n highest e (some e) rest ≡ found e rest
unfolding parse_operator_operand_loop
loop-question zero highest e rest lt h le = absurd (omega arith)
loop-question (suc n) highest e rest lt h le = ground (arith, h, le)

pub loop-looser :
    (n highest : ℕ) (e : Expression) (rest : List Token) (op : Operation) (q : ℕ)
    → 0 < n
    → token_to_bin_op (kind_of rest) ≡ some (op, q)
    → leb q highest ≡ false
    → parse_operator_operand_loop n highest e (some e) rest ≡ found e rest
unfolding parse_operator_operand_loop
loop-looser zero highest e rest op q lt h le = absurd (omega arith)
loop-looser (suc n) highest e rest op q lt h le = ground (arith, h, le)

-- At an operator that it takes, the loop does not look at its last result.
pub loop-none :
    (n highest : ℕ) (e : Expression) (rest : List Token) (op : Operation) (q : ℕ)
    → token_to_bin_op (kind_of rest) ≡ some (op, q)
    → leb q highest ≡ true
    → parse_operator_operand_loop n highest e none rest
      ≡ parse_operator_operand_loop n highest e (some e) rest
unfolding parse_operator_operand_loop
loop-none zero highest e rest op q h le = refl
loop-none (suc n) highest e rest op q h le = ground (arith, h, le)

pub loop-none_question :
    (n highest : ℕ) (e : Expression) (rest : List Token)
    → token_to_bin_op (kind_of rest) ≡ none
    → (is_kind (kind_of rest) question && leb 13 highest) ≡ true
    → parse_operator_operand_loop n highest e none rest
      ≡ parse_operator_operand_loop n highest e (some e) rest
unfolding parse_operator_operand_loop
loop-none_question zero highest e rest h le = refl
loop-none_question (suc n) highest e rest h le = ground (arith, h, le)

-- Behind its operand an expression goes on as the loop does.
pub expression-operand :
    (n highest : ℕ) (e : Expression) (ts rest : List Token)
    → 0 < n
    → expect_expr_operand (kind_of ts) ≡ true
    → parse_expr_operand n ts ≡ found e rest
    → parse_expression (suc n) highest ts ≡ parse_operator_operand_loop n highest e (some e) rest
unfolding parse_expression
expression-operand n highest e ts rest lt h operand =
    elim (Option-cases (token_to_bin_op (kind_of rest))) [
      | inl none_op ↦ elim (Bool-cases (is_kind (kind_of rest) question && leb 13 highest)) [
        | inl takes ↦
            ground
              (arith, h, operand, none_op, takes, loop-none_question n highest e rest none_op takes)
        | inr other ↦
            ground
              (arith, h, operand, none_op, other, loop-question n highest e rest lt none_op other)
      ]
      | inr ((op, q), some_op) ↦ elim (Bool-cases (leb q highest)) [
        | inl takes ↦
            ground
              (arith, h, operand, some_op, takes, loop-none n highest e rest op q some_op takes)
        | inr other ↦
            ground (
              arith,
              h,
              operand,
              some_op,
              other,
              loop-looser n highest e rest op q lt some_op other,
            )
      ]
    ]
