-- ===== src/Script/Expression/Grammar.antt =====
-- The grammar of expressions that the tables of lib/ReaderWriter/LinkerScript.cpp describe, by
-- precedence, and the parser's agreement with it.
pub mod Loop
pub mod Operands
pub mod Agreement
use lld_or1k.Base.{ℕ, suc, ◌≤◌, ◌≡◌, false, Option, none, some, List, [], ◌∷◌, ◌++◌}
use lld_or1k.Base.Text.{Text}
use lld_or1k.Script.Token.{
  Token, Kind, identifier, number, kw_align, l_paren, r_paren, minus, tilde, comma, colon, question,
  is_kind,
}
use lld_or1k.Script.Stream.{token, kind_of}
use lld_or1k.Script.Number.{parse_num}
use lld_or1k.Script.Expression.{
  Expression, Arguments, constant, symbol, function_call, unary, bin_op, ternary_conditional,
  no_more, more, Operation, UnaryOperation, minus_sign, not_sign,
}
use lld_or1k.Script.Expression.Parser.{token_to_bin_op}

-- The kind that the name of a function has.
pub data NameKind : Kind → Type 0 where
  by_identifier : NameKind identifier
  by_align : NameKind kw_align

mutual
  -- What stands between two operators.
  pub data Operand : Expression → List Token → Type 0 where
    a_symbol : (r : Text) → Operand (symbol r) (token identifier r ∷ [])
    a_number :
        (r : Text) (v : ℕ) → parse_num r ≡ some v → Operand (constant v) (token number r ∷ [])
    in_parens :
        (r s : Text) {e : Expression} {ts : List Token}
        → Whole e ts
        → Operand e (token l_paren r ∷ (ts ++ token r_paren s ∷ []))
    negated :
        (r : Text) {e : Expression} {ts : List Token}
        → Operand e ts
        → Operand (unary minus_sign e) (token minus r ∷ ts)
    complemented :
        (r : Text) {e : Expression} {ts : List Token}
        → Operand e ts
        → Operand (unary not_sign e) (token tilde r ∷ ts)
    a_call :
        (name r s : Text) {k : Kind} {e : Expression} {args : Arguments} {ts us : List Token}
        → NameKind k
        → Whole e ts
        → Tail args us
        → Operand
            (function_call name (more e args))
            (token k name ∷ token l_paren r ∷ (ts ++ (us ++ token r_paren s ∷ [])))

  -- A left-associative chain of operators of the precedence `p` at most.
  pub data Chain : ℕ → Expression → List Token → Type 0 where
    single : {p : ℕ} {e : Expression} {ts : List Token} → Operand e ts → Chain p e ts
    applied :
        (k : Kind) (s : Text) (op : Operation) {p q : ℕ} {lhs rhs : Expression} {ts us : List Token}
        → token_to_bin_op k ≡ some (op, suc q)
        → suc q ≤ p
        → Chain (suc q) lhs ts
        → Chain q rhs us
        → Chain p (bin_op lhs op rhs) (ts ++ token k s ∷ us)

  -- An expression, a conditional included, which associates to the right.
  pub data Whole : Expression → List Token → Type 0 where
    plain : {e : Expression} {ts : List Token} → Chain 13 e ts → Whole e ts
    conditional :
        (r s : Text) {c a b : Expression} {ts us vs : List Token}
        → Chain 13 c ts
        → Whole a us
        → Whole b vs
        → Whole (ternary_conditional c a b) (ts ++ token question r ∷ (us ++ token colon s ∷ vs))

  -- The arguments behind the first one.
  pub data Tail : Arguments → List Token → Type 0 where
    at_end : Tail no_more []
    another :
        (r : Text) {e : Expression} {args : Arguments} {ts us : List Token}
        → Whole e ts
        → Tail args us
        → Tail (more e args) (token comma r ∷ (ts ++ us))

-- What may stand behind a chain of the precedence `p`: no parenthesis, and no operator that binds
-- tighter; behind a whole expression: nothing that continues it.
abbrev pub Follows : ℕ → List Token → Type 0
Follows p rest =
    (is_kind (kind_of rest) l_paren ≡ false)
    × ((op : Operation) (q : ℕ) → token_to_bin_op (kind_of rest) ≡ some (op, q) → p ≤ q)

abbrev pub Stops : List Token → Type 0
Stops rest =
    (token_to_bin_op (kind_of rest) ≡ none)
    × (is_kind (kind_of rest) question ≡ false)
    × (is_kind (kind_of rest) l_paren ≡ false)
