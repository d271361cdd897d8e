-- ===== src/Script/Commands/Assignments.antt =====
-- Symbol assignments: `parseSymbolAssignment` of lib/ReaderWriter/LinkerScript.cpp on what the grammar
-- of expressions derives.
use lld_or1k.Base.{◌+◌, ◌*◌, ◌≡◌, true, some, List, ◌∷◌, ◌++◌, arith, length}
use lld_or1k.Base.Text.{Text}
use lld_or1k.Script.Token.{Token, Kind, identifier}
use lld_or1k.Script.Stream.{token, kind_of, found}
use lld_or1k.Script.Ast.{AssignmentKind, simple, default}
use lld_or1k.Script.Expression.{Expression}
use lld_or1k.Script.Expression.Grammar.{Whole, Stops}
use lld_or1k.Script.Expression.Grammar.Agreement.{parse_expression-Whole}
use lld_or1k.Script.Commands.{
  assignment_kind_of, begins_value, assignment_from, parse_symbol_assignment,
}

-- An assignment with any of the nine operators, in front of what does not continue its value, becomes
-- one whose kind is `simple`.
pub parse_symbol_assignment-simple :
    (name operator : Text) (k : Kind) (kind : AssignmentKind) (e : Expression)
    (ts rest : List Token)
    → assignment_kind_of k ≡ some kind
    → Whole e ts
    → begins_value (kind_of (ts ++ rest)) ≡ true
    → Stops rest
    → parse_symbol_assignment
        (3 * length ts + 1)
        (token identifier name ∷ token k operator ∷ (ts ++ rest))
      ≡ found
          (record {
            expression = e;
            symbol = name;
            assignment_kind = simple;
            assignment_visibility = default;
          })
          rest
unfolding parse_symbol_assignment assignment_from
parse_symbol_assignment-simple name operator k kind e ts rest h d starts stops =
    ground (arith, h, starts, parse_expression-Whole e ts rest d stops)
