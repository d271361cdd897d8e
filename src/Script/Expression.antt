-- ===== src/Script/Expression.antt =====
-- The expressions of include/lld/ReaderWriter/LinkerScript.h, their values (`evalExpr`) and the
-- tokens of their text (`dump`). An `int64_t` is kept as its bit pattern, below 2 ^ 64.
pub mod Parser
pub mod Grammar
pub mod Termination
use lld_or1k.Base.{
  ℕ, ◌+◌, ◌-◌, ◌*◌, ◌/◌, ◌%◌, ◌^◌, Bool, true, false, ◌||◌, ◌&&◌, not, Option, none, some, List, [],
  ◌∷◌, nat_eq, ltb, leb, if◌then◌else◌,
}
use lld_or1k.Base.Text.{Text, text_eq}
use lld_or1k.Base.Table.{Table, find}
use Prim.Native.Nat.{bit_and, bit_or}

-- Unary::Operation
pub data UnaryOperation : Type 0 where
  minus_sign not_sign : UnaryOperation

-- BinOp::Operation
pub data Operation : Type 0 where
  and_op compare_different compare_equal compare_greater compare_greater_equal : Operation
  compare_less compare_less_equal div_op mul_op or_op shl_op shr_op sub_op sum_op : Operation

-- The subclasses of Expression. `bad_unary` is a Unary whose child is the null pointer.
mutual
  pub data Expression : Type 0 where
    constant : ℕ → Expression
    symbol : Text → Expression
    function_call : Text → Arguments → Expression
    unary : UnaryOperation → Expression → Expression
    bad_unary : UnaryOperation → Expression
    bin_op : Expression → Operation → Expression → Expression
    ternary_conditional : Expression → Expression → Expression → Expression

  pub data Arguments : Type 0 where
    no_more : Arguments
    more : Expression → Arguments → Arguments

-- ErrorOr<int64_t>. The last two are the null dereference of `bad_unary` and the operations that the
-- language leaves undefined.
pub data Value : Type 0 where
  value : ℕ → Value
  unknown_symbol_in_expr unrecognized_function_in_expr null_dereference undefined_behaviour : Value

-- The sign of a bit pattern.
abbrev pub is_negative : ℕ → Bool
is_negative a = leb (2 ^ 63) a

abbrev pub negate : ℕ → ℕ
negate a = (2 ^ 64 - a) % 2 ^ 64

-- `<` on `int64_t`: the patterns compare once the sign bit is flipped.
abbrev pub signed_less : ℕ → ℕ → Bool
signed_less a b = ltb ((a + 2 ^ 63) % 2 ^ 64) ((b + 2 ^ 63) % 2 ^ 64)

abbrev pub from_bool : Bool → ℕ
from_bool true = 1
from_bool false = 0

abbrev pub magnitude : ℕ → ℕ
magnitude a = if is_negative a then negate a else a

-- `/`, which truncates towards zero.
unfoldable pub signed_div : ℕ → ℕ → Value
signed_div a b =
    if nat_eq b 0 || nat_eq a (2 ^ 63) && nat_eq b (2 ^ 64 - 1)
    then undefined_behaviour
    else let quotient = magnitude a / magnitude b in
      value (
        if is_negative a && not (is_negative b) || not (is_negative a) && is_negative b
        then negate quotient
        else quotient)

-- `<<`; an overflowing shift keeps the low 64 bits.
unfoldable pub shift_left : ℕ → ℕ → Value
shift_left a b = if leb 64 b then undefined_behaviour else value (a * 2 ^ b % 2 ^ 64)

-- `>>`, which repeats the sign.
unfoldable pub shift_right : ℕ → ℕ → Value
shift_right a b =
    if leb 64 b
    then undefined_behaviour
    else value (if is_negative a then 2 ^ 64 - 1 - (2 ^ 64 - 1 - a) / 2 ^ b else a / 2 ^ b)

unfoldable pub eval_unary : UnaryOperation → ℕ → ℕ
eval_unary minus_sign a = negate a
eval_unary not_sign a = 2 ^ 64 - 1 - a

unfoldable pub eval_operation : Operation → ℕ → ℕ → Value
unfolding signed_div shift_left shift_right
eval_operation and_op a b = value (bit_and a b)
eval_operation compare_different a b = value (from_bool (not (nat_eq a b)))
eval_operation compare_equal a b = value (from_bool (nat_eq a b))
eval_operation compare_greater a b = value (from_bool (signed_less b a))
eval_operation compare_greater_equal a b = value (from_bool (not (signed_less a b)))
eval_operation compare_less a b = value (from_bool (signed_less a b))
eval_operation compare_less_equal a b = value (from_bool (not (signed_less b a)))
eval_operation div_op a b = signed_div a b
eval_operation mul_op a b = value (a * b % 2 ^ 64)
eval_operation or_op a b = value (bit_or a b)
eval_operation shl_op a b = shift_left a b
eval_operation shr_op a b = shift_right a b
eval_operation sub_op a b = value ((a + (2 ^ 64 - b)) % 2 ^ 64)
eval_operation sum_op a b = value ((a + b) % 2 ^ 64)

-- `if (v.getError()) return v.getError();`
abbrev pub on_value : Value → (ℕ → Value) → Value
on_value (value a) k = k a
on_value unknown_symbol_in_expr k = unknown_symbol_in_expr
on_value unrecognized_function_in_expr k = unrecognized_function_in_expr
on_value null_dereference k = null_dereference
on_value undefined_behaviour k = undefined_behaviour

unfoldable pub eval_expr : Table Text ℕ → Expression → Value
unfolding find eval_unary eval_operation
eval_expr symbols (constant n) = value n
eval_expr symbols (symbol name) = elim (find name symbols) [
  | none ↦ unknown_symbol_in_expr
  | some v ↦ value v
]
eval_expr symbols (function_call name args) = unrecognized_function_in_expr
eval_expr symbols (unary op child) =
    on_value (eval_expr symbols child) (λ a. value (eval_unary op a))
eval_expr symbols (bad_unary op) = null_dereference
eval_expr symbols (bin_op lhs op rhs) =
    on_value (eval_expr symbols lhs)
      (λ a. on_value (eval_expr symbols rhs) (λ b. eval_operation op a b))
eval_expr symbols (ternary_conditional c a b) =
    on_value (eval_expr symbols c)
      (λ v. elim (nat_eq v 0) [ true ↦ eval_expr symbols b | false ↦ eval_expr symbols a ])
