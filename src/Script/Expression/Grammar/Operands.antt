-- ===== src/Script/Expression/Grammar/Operands.antt =====
-- The parser reads the operands of the grammar, calls among them.
use mathlib.Core.List.{append_assoc}
use lld_or1k.Base.{
  ℕ, zero, suc, ◌+◌, ◌*◌, ◌≤◌, ◌<◌, ◌≡◌, refl, ◌∙◌, ap, true, false, some, List, [], ◌∷◌, ◌++◌,
  length, length-append, arith,
}
use lld_or1k.Base.Text.{Text}
use lld_or1k.Script.Token.{
  Token, Kind, identifier, number, l_paren, r_paren, minus, tilde, comma, colon, question, is_kind,
}
use lld_or1k.Script.Stream.{token, kind_of, found}
use lld_or1k.Script.Number.{parse_num}
use lld_or1k.Script.Expression.{
  Expression, Arguments, constant, symbol, function_call, unary, more, minus_sign, not_sign,
}
use lld_or1k.Script.Expression.Parser.{
  token_to_bin_op, expect_expr_operand, parse_function_call, parse_arguments, parse_expr_operand,
  parse_expression, parse_operator_operand_loop, close_paren, unary_of,
}
use lld_or1k.Script.Expression.Grammar.{
  NameKind, by_identifier, by_align, Chain, single, applied, Whole, plain, conditional, Tail,
  at_end, another, Follows, Stops,
}
use lld_or1k.Script.Expression.Grammar.Loop.{expect_expr_operand-Operand}

-- What is proved by induction on a derivation: fuel of three units for each token is enough.
abbrev pub ParsesOperand : Expression → List Token → Type 0
ParsesOperand e ts =
    (n : ℕ) (rest : List Token)
    → 3 * length ts ≤ n
    → is_kind (kind_of rest) l_paren ≡ false
    → parse_expr_operand n (ts ++ rest) ≡ found e rest

abbrev pub ParsesChain : ℕ → Expression → List Token → Type 0
ParsesChain p e ts =
    (n highest : ℕ) (rest : List Token)
    → p ≤ highest
    → highest ≤ 13
    → 3 * length ts < n
    → Follows p rest
    → (j : ℕ) × (n ≤ j + 3 * length ts)
      × (parse_expression n highest (ts ++ rest)
          ≡ parse_operator_operand_loop j highest e (some e) rest)

abbrev pub ParsesWhole : Expression → List Token → Type 0
ParsesWhole e ts =
    (n : ℕ) (rest : List Token)
    → 3 * length ts < n
    → Stops rest
    → parse_expression n 13 (ts ++ rest) ≡ found e rest

abbrev pub ParsesTail : Arguments → List Token → Type 0
ParsesTail args ts =
    (n : ℕ) (rest : List Token)
    → 3 * length ts < n
    → is_kind (kind_of rest) comma ≡ false
    → Stops rest
    → parse_arguments n (ts ++ rest) ≡ found args rest

pub symbol-agrees : (r : Text) → ParsesOperand (symbol r) (token identifier r ∷ [])
unfolding parse_expr_operand
symbol-agrees r zero rest le h = absurd (omega arith)
symbol-agrees r (suc n) rest le h = ground (arith, h)

pub number-agrees :
    (r : Text) (v : ℕ) → parse_num r ≡ some v → ParsesOperand (constant v) (token number r ∷ [])
unfolding parse_expr_operand
number-agrees r v value zero rest le h = absurd (omega arith)
number-agrees r v value (suc n) rest le h = ground (arith, value)

pub in_parens-agrees :
    (r s : Text) (e : Expression) (ts : List Token)
    → ParsesWhole e ts
    → ParsesOperand e (token l_paren r ∷ (ts ++ token r_paren s ∷ []))
unfolding parse_expr_operand
in_parens-agrees r s e ts ih zero rest le h = absurd (omega arith)
in_parens-agrees r s e ts ih (suc n) rest le h =
    let close = token r_paren s in
    let short : 3 * length ts < n = omega (arith, le, length-append ts (close ∷ [])) in
    let inner = ih n (close ∷ rest) short (refl, refl, refl) in
    ap (close_paren) (ap (parse_expression n 13) (append_assoc ts (close ∷ []) rest) ∙ inner)

pub negated-agrees :
    (r : Text) (e : Expression) (ts : List Token)
    → ParsesOperand e ts
    → ParsesOperand (unary minus_sign e) (token minus r ∷ ts)
unfolding parse_expr_operand
negated-agrees r e ts ih zero rest le h = absurd (omega arith)
negated-agrees r e ts ih (suc n) rest le h = ap (unary_of minus_sign) (ih n rest (omega arith) h)

pub complemented-agrees :
    (r : Text) (e : Expression) (ts : List Token)
    → ParsesOperand e ts
    → ParsesOperand (unary not_sign e) (token tilde r ∷ ts)
unfolding parse_expr_operand
complemented-agrees r e ts ih zero rest le h = absurd (omega arith)
complemented-agrees r e ts ih (suc n) rest le h = ap (unary_of not_sign) (ih n rest (omega arith) h)

-- A whole expression is announced by its first token too; an argument list ends it.
pub Chain-starts :
    {p : ℕ} {e : Expression} {ts : List Token} (rest : List Token)
    → Chain p e ts
    → expect_expr_operand (kind_of (ts ++ rest)) ≡ true
Chain-starts rest (single d) = expect_expr_operand-Operand rest d
Chain-starts rest (applied k s op {ts = ts} {us = us} h le d d') =
    ap (λ l. expect_expr_operand (kind_of l)) (append_assoc ts (token k s ∷ us) rest)
    ∙ Chain-starts (token k s ∷ us ++ rest) d

pub Whole-starts :
    {e : Expression} {ts : List Token} (rest : List Token)
    → Whole e ts
    → expect_expr_operand (kind_of (ts ++ rest)) ≡ true
Whole-starts rest (plain d) = Chain-starts rest d
Whole-starts rest (conditional r s {ts = ts} {us = us} {vs = vs} c a b) =
    ap (λ l. expect_expr_operand (kind_of l))
      (append_assoc ts (token question r ∷ (us ++ token colon s ∷ vs)) rest)
    ∙ Chain-starts (token question r ∷ (us ++ token colon s ∷ vs) ++ rest) c

pub Tail-Stops :
    {args : Arguments} {us : List Token} (rest : List Token)
    → Tail args us
    → Stops rest
    → Stops (us ++ rest)
unfolding token_to_bin_op
Tail-Stops rest at_end stops = stops
Tail-Stops rest (another r d t) stops = (refl, refl, refl)

pub r_paren-operand : (k : Kind) → expect_expr_operand k ≡ true → is_kind k r_paren ≡ false
unfolding expect_expr_operand
r_paren-operand r_paren h = cc
r_paren-operand _ h = refl

pub call-agrees :
    (name r s : Text) (k : Kind) (e : Expression) (args : Arguments) (ts us : List Token)
    → NameKind k
    → ParsesWhole e ts
    → ((rest : List Token) → expect_expr_operand (kind_of (ts ++ rest)) ≡ true)
    → ParsesTail args us
    → ((rest : List Token) → Stops rest → Stops (us ++ rest))
    → (n : ℕ) (rest : List Token) → 3 * (length ts + length us) + 4 < n
    → parse_function_call n
        (token k name ∷ token l_paren r ∷ (ts ++ (us ++ token r_paren s ∷ rest)))
      ≡ found (function_call name (more e args)) rest
unfolding parse_function_call
call-agrees name r s k e args ts us kind whole starts tail stops zero rest lt = absurd (omega arith)
call-agrees name r s k e args ts us kind whole starts tail stops (suc n) rest lt =
    let close = token r_paren s in
    ground (
      arith,
      r_paren-operand (kind_of (ts ++ (us ++ close ∷ rest))) (starts (us ++ close ∷ rest)),
      whole n (us ++ close ∷ rest) (omega arith) (stops (close ∷ rest) (refl, refl, refl)),
      tail n (close ∷ rest) (omega arith) refl (refl, refl, refl),
    )

-- A name in front of a parenthesis is a call.
pub named-call :
    {k : Kind} (n : ℕ) (name r : Text) (ts : List Token)
    → NameKind k
    → parse_expr_operand (suc n) (token k name ∷ token l_paren r ∷ ts)
      ≡ parse_function_call n (token k name ∷ token l_paren r ∷ ts)
unfolding parse_expr_operand
named-call n name r ts by_identifier = refl
named-call n name r ts by_align = refl

pub a_call-agrees :
    (name r s : Text) (k : Kind) (e : Expression) (args : Arguments) (ts us : List Token)
    → NameKind k
    → ParsesWhole e ts
    → ((rest : List Token) → expect_expr_operand (kind_of (ts ++ rest)) ≡ true)
    → ParsesTail args us
    → ((rest : List Token) → Stops rest → Stops (us ++ rest))
    → ParsesOperand
        (function_call name (more e args))
        (token k name ∷ token l_paren r ∷ (ts ++ (us ++ token r_paren s ∷ [])))
a_call-agrees name r s k e args ts us kind whole starts tail stops zero rest le h =
    absurd (omega arith)
a_call-agrees name r s k e args ts us kind whole starts tail stops (suc n) rest le h =
    let close = token r_paren s in
    let short : 3 * (length ts + length us) + 4 < n =
      omega (arith, le, length-append ts (us ++ close ∷ []), length-append us (close ∷ [])) in
    let assoc =
      append_assoc ts (us ++ close ∷ []) rest
      ∙ ap (λ (l : List Token). ts ++ l) (append_assoc us (close ∷ []) rest) in
    let called =
      ap (λ (l : List Token). parse_function_call n (token k name ∷ token l_paren r ∷ l)) assoc
      ∙ call-agrees name r s k e args ts us kind whole starts tail stops n rest short in
    named-call n name r ((ts ++ (us ++ close ∷ [])) ++ rest) kind ∙ called
