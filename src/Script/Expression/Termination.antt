-- ===== src/Script/Expression/Termination.antt =====
-- Every run of the expression parser ends: what it leaves of its input, and the fuel that it needs.
use lld_or1k.Base.{
  ℕ, zero, suc, ◌+◌, ◌-◌, ◌*◌, ◌≤◌, ◌<◌, ◌≡◌, refl, Bool, true, false, ◌&&◌, Option, none, some,
  List, [], ◌∷◌, length, arith, leb,
}
use lld_or1k.Base.Text.{Text}
use lld_or1k.Script.Token.{
  Token, Kind, eof, identifier, number, kw_align, l_paren, r_paren, minus, tilde, comma, colon,
  question, is_kind,
}
use lld_or1k.Script.Stream.{token, kind_of, consume, Parsed, found, null, out_of_fuel, ◌>>=◌}
use lld_or1k.Script.Number.{parse_num}
use lld_or1k.Script.Expression.{Expression, UnaryOperation, minus_sign, not_sign}
use lld_or1k.Script.Expression.Parser.{
  token_to_bin_op, expect_expr_operand, parse_function_call, parse_arguments, parse_expr_operand,
  parse_expression, parse_operator_operand_loop, parse_ternary_cond_op, close_paren, unary_of,
  binop_or_null,
}

-- A result was reached, and fewer than `k` tokens are left behind an object, at most `k` behind null.
abbrev pub Advances {ℓ} : {A : Type ℓ} → ℕ → Parsed A → Type 0
Advances k (found a rest) = length rest < k
Advances k (null rest) = length rest ≤ k
Advances k out_of_fuel = ⊥

pub Advances-weaken {ℓ} :
    {A : Type ℓ} (j k : ℕ) (x : Parsed A) → Advances j x → j ≤ k → Advances k x
Advances-weaken j k (found a rest) h le = omega arith
Advances-weaken j k (null rest) h le = omega arith
Advances-weaken j k out_of_fuel h le = h

pub Advances-bind {ℓ κ} :
    {A : Type ℓ} {B : Type κ} (j k : ℕ) (x : Parsed A) (f : A → List Token → Parsed B)
    → Advances j x
    → j ≤ k
    → ((a : A) (rest : List Token) → length rest < j → Advances k (f a rest))
    → Advances k (x >>= f)
Advances-bind j k (found a rest) f h le g = g a rest h
Advances-bind j k (null rest) f h le g = omega arith
Advances-bind j k out_of_fuel f h le g = absurd h

pub Advances-if {ℓ} :
    {A : Type ℓ} (k : ℕ) (b : Bool) (x y : Parsed A)
    → Advances k x
    → Advances k y
    → Advances k (elim b [ true ↦ x | false ↦ y ])
Advances-if k true x y h h' = h
Advances-if k false x y h h' = h'

pub Advances-option {ℓ κ} :
    {A : Type ℓ} {B : Type κ} (k : ℕ) (o : Option A) (x : Parsed B) (f : A → Parsed B)
    → Advances k x
    → ((a : A) → Advances k (f a))
    → Advances k (elim o [ none ↦ x | some a ↦ f a ])
Advances-option k none x f h g = h
Advances-option k (some a) x f h g = g a

pub length-consume : (ts : List Token) → length (consume ts) ≡ length ts - 1
length-consume [] = refl
length-consume (t ∷ ts) = omega arith

pub Advances-expect {ℓ} :
    {A : Type ℓ} (k : ℕ) (kind : Kind) (ts : List Token) (x : Parsed A)
    → is_kind eof kind ≡ false
    → length ts ≤ k
    → (0 < length ts → Advances k x)
    → Advances k (elim (is_kind (kind_of ts) kind) [ true ↦ x | false ↦ null ts ])
Advances-expect k kind [] x h le g = ground (arith, h)
Advances-expect k kind (t ∷ ts) x h le g =
    Advances-if k (is_kind t.kind kind) _ _ (g (omega arith)) le

Advances-close_paren :
    (k : ℕ) (x : Parsed Expression) → Advances k x → Advances (suc k) (close_paren x)
Advances-close_paren k (found e ts) h =
    Advances-expect (suc k) r_paren ts _ refl (omega arith) (λ lt. omega (arith, length-consume ts))
Advances-close_paren k (null []) h = omega arith
Advances-close_paren k (null (t ∷ ts)) h = ground arith
Advances-close_paren k out_of_fuel h = h

Advances-unary_of :
    (k : ℕ) (op : UnaryOperation) (x : Parsed Expression)
    → Advances k x
    → Advances (suc k) (unary_of op x)
Advances-unary_of k op (found e ts) h = omega arith
Advances-unary_of k op (null ts) h = omega arith
Advances-unary_of k op out_of_fuel h = h

Advances-binop_or_null :
    (o : Option Expression) (ts : List Token) → Advances (suc (length ts)) (binop_or_null o ts)
Advances-binop_or_null none ts = omega arith
Advances-binop_or_null (some e) ts = omega arith

-- The fuel that each function needs on `k` tokens, with the promise that it keeps.
module _ (n : ℕ) where
  abbrev ExpressionAt : Type 0
  ExpressionAt =
      (highest : ℕ) (ts : List Token)
      → 3 * length ts + 2 ≤ n
      → Advances (length ts) (parse_expression n highest ts)

  abbrev OperandAt : Type 0
  OperandAt =
      (ts : List Token) → 3 * length ts + 1 ≤ n → Advances (length ts) (parse_expr_operand n ts)

  abbrev CallAt : Type 0
  CallAt =
      (ts : List Token)
      → 3 * length ts ≤ n
      → 0 < length ts
      → Advances (length ts) (parse_function_call n ts)

  abbrev ArgumentsAt : Type 0
  ArgumentsAt =
      (ts : List Token) → 3 * length ts + 1 ≤ n → Advances (suc (length ts)) (parse_arguments n ts)

  abbrev LoopAt : Type 0
  LoopAt =
      (highest : ℕ) (lhs : Expression) (last_op : Option Expression) (ts : List Token)
      → 3 * length ts + 1 ≤ n
      → Advances (suc (length ts)) (parse_operator_operand_loop n highest lhs last_op ts)

  abbrev TernaryAt : Type 0
  TernaryAt =
      (lhs : Expression) (ts : List Token)
      → 3 * length ts ≤ n
      → 0 < length ts
      → Advances (length ts) (parse_ternary_cond_op n lhs ts)

Advances-call : (n : ℕ) → ExpressionAt n → ArgumentsAt n → CallAt (suc n)
unfolding parse_function_call
Advances-call n expression arguments [] le lt = absurd (omega arith)
Advances-call n expression arguments (t ∷ ts) le lt =
    let k = suc (length ts) in
    let size = length-consume ts in
    Advances-expect k l_paren ts _ refl (omega arith) (λ some_token.
      Advances-if k (is_kind (kind_of (consume ts)) r_paren) _ _
        (omega (arith, size, length-consume (consume ts)))
        (Advances-bind (length (consume ts)) k _ _
          (expression 13 (consume ts) (omega (arith, size))) (omega (arith, size))
          (λ first rest lt'.
            Advances-bind (suc (length rest)) k _ _ (arguments rest (omega (arith, size)))
              (omega (arith, size))
              (λ args behind lt2.
                Advances-expect k r_paren behind _ refl (omega (arith, size))
                  (λ lt3. omega (arith, size, length-consume behind))))))

Advances-arguments : (n : ℕ) → ExpressionAt n → ArgumentsAt n → ArgumentsAt (suc n)
unfolding parse_arguments
Advances-arguments n expression arguments [] le = omega arith
Advances-arguments n expression arguments (t ∷ ts) le =
    Advances-if (suc (suc (length ts))) (is_kind t.kind comma) _ _
      (Advances-bind (length ts) (suc (suc (length ts))) _ _ (expression 13 ts (omega arith))
        (omega arith)
        (λ param rest lt.
          Advances-bind (suc (length rest)) (suc (suc (length ts))) _ _
            (arguments rest (omega arith)) (omega arith) (λ args behind lt'. omega arith)))
      (omega arith)

Advances-operand_kind :
    (n : ℕ) (k : Kind) (r : Text) (ts : List Token)
    → ExpressionAt n
    → OperandAt n
    → CallAt n
    → 3 * suc (length ts) + 1 ≤ suc n
    → Advances (suc (length ts)) (parse_expr_operand (suc n) (token k r ∷ ts))
unfolding parse_expr_operand
Advances-operand_kind n identifier r ts expression operand call le =
    Advances-if (suc (length ts)) (is_kind (kind_of ts) l_paren) _ _
      (call (token identifier r ∷ ts) (omega arith) (omega arith)) (omega arith)
Advances-operand_kind n kw_align r ts expression operand call le =
    call (token kw_align r ∷ ts) (omega arith) (omega arith)
Advances-operand_kind n minus r ts expression operand call le =
    Advances-unary_of (length ts) minus_sign _ (operand ts (omega arith))
Advances-operand_kind n tilde r ts expression operand call le =
    Advances-unary_of (length ts) not_sign _ (operand ts (omega arith))
Advances-operand_kind n number r ts expression operand call le =
    Advances-option (suc (length ts)) (parse_num r) _ _ (omega arith) (λ v. omega arith)
Advances-operand_kind n l_paren r ts expression operand call le =
    Advances-close_paren (length ts) _ (expression 13 ts (omega arith))
Advances-operand_kind n _ r ts expression operand call le = omega arith

Advances-operand : (n : ℕ) → ExpressionAt n → OperandAt n → CallAt n → OperandAt (suc n)
unfolding parse_expr_operand
Advances-operand n expression operand call [] le = omega arith
Advances-operand n expression operand call (t ∷ ts) le =
    Advances-operand_kind n t.kind t.range ts expression operand call le

Advances-expression : (n : ℕ) → OperandAt n → LoopAt n → ExpressionAt (suc n)
unfolding parse_expression
Advances-expression n operand loop highest ts le =
    Advances-if (length ts) (expect_expr_operand (kind_of ts)) _ _
      (Advances-bind (length ts) (length ts) _ _ (operand ts (omega arith)) (omega arith)
        (λ expr rest lt.
          let continued =
            Advances-weaken (suc (length rest)) (length ts) _
              (loop highest expr none rest (omega arith)) (omega arith) in
          Advances-option (length ts) (token_to_bin_op (kind_of rest)) _ _
            (Advances-if (length ts) (is_kind (kind_of rest) question && leb 13 highest) _ _
              continued (omega arith))
            (λ o. Advances-if (length ts) (leb o.1 highest) _ _ continued (omega arith))))
      (omega arith)

Advances-loop : (n : ℕ) → ExpressionAt n → LoopAt n → TernaryAt n → LoopAt (suc n)
unfolding parse_operator_operand_loop token_to_bin_op
Advances-loop n expression loop ternary highest lhs none [] le = omega arith
Advances-loop n expression loop ternary highest lhs (some e) [] le = omega arith
Advances-loop n expression loop ternary highest lhs last_op (t ∷ ts) le =
    let here = Advances-binop_or_null last_op (t ∷ ts) in
    Advances-option (suc (suc (length ts))) (token_to_bin_op t.kind) _ _
      (Advances-if (suc (suc (length ts))) (is_kind t.kind question && leb 13 highest) _ _
        (Advances-weaken (suc (length ts)) (suc (suc (length ts))) _
          (ternary lhs (t ∷ ts) (omega arith) (omega arith)) (omega arith))
        here)
      (λ o.
        Advances-if (suc (suc (length ts))) (leb o.1 highest) _ _
          (Advances-bind (length ts) (suc (suc (length ts))) _ _
            (expression (o.1 - 1) ts (omega arith)) (omega arith)
            (λ rhs rest lt.
              Advances-weaken (suc (length rest)) (suc (suc (length ts))) _
                (loop highest _ _ rest (omega arith)) (omega arith)))
          here)

Advances-ternary : (n : ℕ) → ExpressionAt n → TernaryAt (suc n)
unfolding parse_ternary_cond_op
Advances-ternary n expression lhs [] le lt = absurd (omega arith)
Advances-ternary n expression lhs (t ∷ ts) le lt =
    let k = suc (length ts) in
    Advances-bind (length ts) k _ _ (expression 13 ts (omega arith)) (omega arith) (λ a behind lt'.
      let size = length-consume behind in
      Advances-expect k colon behind _ refl (omega arith) (λ some_token.
        Advances-bind (length (consume behind)) k _ _
          (expression 13 (consume behind) (omega (arith, size))) (omega (arith, size))
          (λ b rest lt2. omega (arith, size))))

-- All six, for every amount of fuel.
abbrev AllAt : ℕ → Type 0
AllAt n = ExpressionAt n × OperandAt n × CallAt n × ArgumentsAt n × LoopAt n × TernaryAt n

all_advance : (n : ℕ) → AllAt n
all_advance zero = (
  λ highest ts le. absurd (omega arith),
  λ ts le. absurd (omega arith),
  λ ts le lt. absurd (omega arith),
  λ ts le. absurd (omega arith),
  λ highest lhs last_op ts le. absurd (omega arith),
  λ lhs ts le lt. absurd (omega arith),
)
all_advance (suc n) =
    let (expression, operand, call, arguments, loop, ternary) = all_advance n in
    (
      Advances-expression n operand loop,
      Advances-operand n expression operand call,
      Advances-call n expression arguments,
      Advances-arguments n expression arguments,
      Advances-loop n expression loop ternary,
      Advances-ternary n expression,
    )

-- Three units of fuel for each token and two more are enough on every input, well formed or not: an
-- object is returned with fewer tokens left, or the null pointer with no more of them.
pub parse_expression-Advances :
    (highest : ℕ) (ts : List Token)
    → Advances (length ts) (parse_expression (3 * length ts + 2) highest ts)
parse_expression-Advances highest ts = (all_advance (3 * length ts + 2)).0 highest ts (omega arith)

pub expression-Advances :
    (n highest : ℕ) (ts : List Token)
    → 3 * length ts + 2 ≤ n
    → Advances (length ts) (parse_expression n highest ts)
expression-Advances n highest ts le = (all_advance n).0 highest ts le
