-- ===== src/Script/Expression/Grammar/Agreement.antt =====
-- The parser accepts what the grammar derives.
use mathlib.Core.List.{append_assoc}
use lld_or1k.Base.{
  ℕ, zero, suc, ◌+◌, ◌*◌, ◌≤◌, ◌<◌, ◌≡◌, refl, ◌∙◌, ap, true, some, List, [], ◌∷◌, ◌++◌, length,
  length-append, arith, Option-cases, inl, inr,
}
use lld_or1k.Base.Text.{Text}
use lld_or1k.Script.Token.{Token, Kind, comma, colon, question}
use lld_or1k.Script.Stream.{token, kind_of, found}
use lld_or1k.Script.Expression.{
  Expression, Arguments, bin_op, ternary_conditional, no_more, more, Operation,
}
use lld_or1k.Script.Expression.Parser.{
  token_to_bin_op, expect_expr_operand, parse_arguments, parse_expression,
  parse_operator_operand_loop, parse_ternary_cond_op,
}
use lld_or1k.Script.Expression.Grammar.{
  Operand, a_symbol, a_number, in_parens, negated, complemented, a_call, Chain, single, applied,
  Whole, plain, conditional, Tail, at_end, another, Follows, Stops,
}
use lld_or1k.Script.Expression.Grammar.Loop.{
  expect_expr_operand-Operand, length-Operand, l_paren-token_to_bin_op, loop-Stops, loop-question,
  loop-looser, expression-operand,
}
use lld_or1k.Script.Expression.Grammar.Operands.{
  ParsesOperand, ParsesChain, ParsesWhole, ParsesTail, symbol-agrees, number-agrees,
  in_parens-agrees, negated-agrees, complemented-agrees, Whole-starts, Tail-Stops, a_call-agrees,
}

single-agrees :
    (p : ℕ) (e : Expression) (ts : List Token)
    → ParsesOperand e ts
    → ((rest : List Token) → expect_expr_operand (kind_of (ts ++ rest)) ≡ true)
    → 0 < length ts
    → ParsesChain p e ts
single-agrees p e ts ih starts some_token zero highest rest le le' lt follows = absurd (omega arith)
single-agrees p e ts ih starts some_token (suc n) highest rest le le' lt follows = (
  n,
  omega arith,
  expression-operand n highest e (ts ++ rest) rest (omega arith) (starts rest)
      (ih n rest (omega arith) follows.0),
)

-- One turn of the loop.
loop-applied :
    (k : Kind) (s : Text) (op : Operation) (q n highest : ℕ) (lhs rhs : Expression)
    (us rest : List Token)
    → token_to_bin_op k ≡ some (op, suc q)
    → suc q ≤ highest
    → parse_expression n q (us ++ rest) ≡ found rhs rest
    → parse_operator_operand_loop (suc n) highest lhs (some lhs) (token k s ∷ us ++ rest)
      ≡ parse_operator_operand_loop n highest (bin_op lhs op rhs) (some (bin_op lhs op rhs)) rest
unfolding parse_operator_operand_loop
loop-applied k s op q n highest lhs rhs us rest h le inner = ground (arith, h, inner)

-- Behind a right operand the loop ends.
loop-Follows :
    (n q : ℕ) (e : Expression) (rest : List Token)
    → 0 < n
    → q < 13
    → Follows (suc q) rest
    → parse_operator_operand_loop n q e (some e) rest ≡ found e rest
loop-Follows n q e rest lt below follows = elim (Option-cases (token_to_bin_op (kind_of rest))) [
  | inl none_op ↦ loop-question n q e rest lt none_op (ground (arith, below))
  | inr ((op, r), some_op) ↦
      loop-looser n q e rest op r lt some_op (ground (arith, follows.1 op r some_op))
]

applied-turn :
    (k : Kind) (s : Text) (op : Operation) (q : ℕ) (lhs rhs : Expression) (us : List Token)
    → token_to_bin_op k ≡ some (op, suc q)
    → ParsesChain q rhs us
    → (j highest : ℕ) (rest : List Token) → suc q ≤ highest
    → highest ≤ 13
    → 3 * length us + 1 < j
    → Follows (suc q) rest
    → (m : ℕ) × (j ≡ suc m)
      × (parse_operator_operand_loop j highest lhs (some lhs) (token k s ∷ us ++ rest)
          ≡ parse_operator_operand_loop m highest
              (bin_op lhs op rhs)
              (some (bin_op lhs op rhs))
              rest)
applied-turn k s op q lhs rhs us h ih zero highest rest le le2 lt follows = absurd (omega arith)
applied-turn k s op q lhs rhs us h ih (suc j) highest rest le le2 lt follows =
    let (m, bound, inner) =
      ih j q rest (omega arith) (omega arith) (omega arith)
        (follows.0, λ op' q' h'. omega (arith, follows.1 op' q' h')) in
    let ended = inner ∙ loop-Follows m q rhs rest (omega arith) (omega arith) follows in
    (j, refl, loop-applied k s op q j highest lhs rhs us rest h le ended)

applied-agrees :
    (k : Kind) (s : Text) (op : Operation) (p q : ℕ) (lhs rhs : Expression) (ts us : List Token)
    → token_to_bin_op k ≡ some (op, suc q)
    → suc q ≤ p
    → ParsesChain (suc q) lhs ts
    → ParsesChain q rhs us
    → ParsesChain p (bin_op lhs op rhs) (ts ++ token k s ∷ us)
applied-agrees k s op p q lhs rhs ts us h le ih ih' n highest rest le' le2 lt follows =
    let operator = token k s in
    let sum = length-append ts (operator ∷ us) in
    let (j, bound, left) =
      ih n highest (operator ∷ us ++ rest) (omega arith) le2 (omega (arith, sum))
        (l_paren-token_to_bin_op k (op, suc q) h, λ op' q' h'. ground (arith, h, h')) in
    let (m, bound', turn) =
      applied-turn k s op q lhs rhs us h ih' j highest rest (omega arith) le2 (omega (arith, sum))
        (follows.0, λ op' q' h'. omega (arith, follows.1 op' q' h')) in
    (
      m,
      omega (arith, sum, bound, bound'),
      ap (parse_expression n highest) (append_assoc ts (operator ∷ us) rest) ∙ left ∙ turn,
    )

plain-agrees : (e : Expression) (ts : List Token) → ParsesChain 13 e ts → ParsesWhole e ts
plain-agrees e ts ih n rest lt stops =
    let (j, bound, same) =
      ih n 13 rest (omega arith) (omega arith) lt (stops.2, λ op q h. absurd (cc (h, stops.0))) in
    same ∙ loop-Stops j 13 e rest (omega (arith, bound)) stops

at_end-agrees : ParsesTail no_more []
unfolding parse_arguments
at_end-agrees zero rest lt behind stops = absurd (omega arith)
at_end-agrees (suc n) rest lt behind stops = ground (arith, behind)

another-agrees :
    (r : Text) (e : Expression) (args : Arguments) (ts us : List Token)
    → ParsesWhole e ts
    → ((rest : List Token) → Stops rest → Stops (us ++ rest))
    → ParsesTail args us
    → ParsesTail (more e args) (token comma r ∷ (ts ++ us))
unfolding parse_arguments
another-agrees r e args ts us whole stops' tail zero rest lt behind stops = absurd (omega arith)
another-agrees r e args ts us whole stops' tail (suc n) rest lt behind stops =
    let sum = length-append ts us in
    let first =
      ap (parse_expression n 13) (append_assoc ts us rest)
      ∙ whole n (us ++ rest) (omega (arith, sum)) (stops' rest stops) in
    ground (arith, first, tail n rest (omega (arith, sum)) behind stops)

ternary-agrees :
    (r s : Text) (c a b : Expression) (us vs : List Token)
    → ParsesWhole a us
    → ParsesWhole b vs
    → (j : ℕ) (rest : List Token) → 3 * (length us + length vs) + 5 < j
    → Stops rest
    → parse_ternary_cond_op j c (token question r ∷ (us ++ token colon s ∷ (vs ++ rest)))
      ≡ found (ternary_conditional c a b) rest
unfolding parse_ternary_cond_op token_to_bin_op
ternary-agrees r s c a b us vs first second zero rest lt stops = absurd (omega arith)
ternary-agrees r s c a b us vs first second (suc j) rest lt stops = ground (
  arith,
  first j (token colon s ∷ (vs ++ rest)) (omega arith) (refl, refl, refl),
  second j rest (omega arith) stops,
)

loop-ternary :
    (j : ℕ) (r : Text) (c : Expression) (ts : List Token)
    → parse_operator_operand_loop (suc j) 13 c (some c) (token question r ∷ ts)
      ≡ parse_ternary_cond_op j c (token question r ∷ ts)
unfolding parse_operator_operand_loop token_to_bin_op
loop-ternary j r c ts = refl

conditional-turn :
    (r s : Text) (c a b : Expression) (us vs : List Token)
    → ParsesWhole a us
    → ParsesWhole b vs
    → (j : ℕ) (rest : List Token) → 3 * (length us + length vs) + 6 < j
    → Stops rest
    → parse_operator_operand_loop j 13 c
        (some c)
        (token question r ∷ (us ++ token colon s ∷ (vs ++ rest)))
      ≡ found (ternary_conditional c a b) rest
conditional-turn r s c a b us vs first second zero rest lt stops = absurd (omega arith)
conditional-turn r s c a b us vs first second (suc j) rest lt stops =
    loop-ternary j r c (us ++ token colon s ∷ (vs ++ rest))
    ∙ ternary-agrees r s c a b us vs first second j rest (omega arith) stops

conditional-agrees :
    (r s : Text) (c a b : Expression) (ts us vs : List Token)
    → ParsesChain 13 c ts
    → ParsesWhole a us
    → ParsesWhole b vs
    → ParsesWhole (ternary_conditional c a b) (ts ++ token question r ∷ (us ++ token colon s ∷ vs))
unfolding token_to_bin_op
conditional-agrees r s c a b ts us vs ih first second n rest lt stops =
    let behind = token question r ∷ (us ++ token colon s ∷ vs) in
    let sum : length (ts ++ behind) ≡ length ts + length us + length vs + 2 =
      omega (arith, length-append ts behind, length-append us (token colon s ∷ vs)) in
    let (j, bound, start) =
      ih n 13 (token question r ∷ (us ++ token colon s ∷ (vs ++ rest))) (omega arith) (omega arith)
        (omega (arith, sum)) (refl, λ op q h. cc h) in
    let assoc =
      append_assoc ts behind rest
      ∙ ap (λ (l : List Token). ts ++ token question r ∷ l)
          (append_assoc us (token colon s ∷ vs) rest) in
    ap (parse_expression n 13) assoc
    ∙ start
    ∙ conditional-turn r s c a b us vs first second j rest (omega (arith, bound, sum)) stops

mutual
  Operand-agrees : {e : Expression} {ts : List Token} → Operand e ts → ParsesOperand e ts
  Operand-agrees (a_symbol r) = symbol-agrees r
  Operand-agrees (a_number r v h) = number-agrees r v h
  Operand-agrees (in_parens r s d) = in_parens-agrees r s _ _ (Whole-agrees d)
  Operand-agrees (negated r d) = negated-agrees r _ _ (Operand-agrees d)
  Operand-agrees (complemented r d) = complemented-agrees r _ _ (Operand-agrees d)
  Operand-agrees (a_call name r s kind d t) =
      a_call-agrees name r s _ _ _ _ _ kind (Whole-agrees d) (λ rest. Whole-starts rest d)
        (Tail-agrees t) (λ rest. Tail-Stops rest t)

  Chain-agrees : {p : ℕ} {e : Expression} {ts : List Token} → Chain p e ts → ParsesChain p e ts
  Chain-agrees (single d) =
      single-agrees _ _ _ (Operand-agrees d) (λ rest. expect_expr_operand-Operand rest d)
        (length-Operand d)
  Chain-agrees (applied k s op h le d d') =
      applied-agrees k s op _ _ _ _ _ _ h le (Chain-agrees d) (Chain-agrees d')

  Whole-agrees : {e : Expression} {ts : List Token} → Whole e ts → ParsesWhole e ts
  Whole-agrees (plain d) = plain-agrees _ _ (Chain-agrees d)
  Whole-agrees (conditional r s c a b) =
      conditional-agrees r s _ _ _ _ _ _ (Chain-agrees c) (Whole-agrees a) (Whole-agrees b)

  Tail-agrees : {args : Arguments} {ts : List Token} → Tail args ts → ParsesTail args ts
  Tail-agrees at_end = at_end-agrees
  Tail-agrees (another r d t) =
      another-agrees r _ _ _ _ (Whole-agrees d) (λ rest. Tail-Stops rest t) (Tail-agrees t)

-- The parser reads every derivable token list as the expression that it derives, in front of
-- anything that does not continue it, with three units of fuel for each token and one more.
pub parse_expression-Whole :
    (e : Expression) (ts rest : List Token)
    → Whole e ts
    → Stops rest
    → parse_expression (3 * length ts + 1) 13 (ts ++ rest) ≡ found e rest
parse_expression-Whole e ts rest d stops =
    Whole-agrees d (3 * length ts + 1) rest (omega arith) stops
