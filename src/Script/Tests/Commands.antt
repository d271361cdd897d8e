-- ===== src/Script/Tests/Commands.antt =====
-- Commands of linker scripts.
use lld_or1k.Base.{◌+◌, ◌*◌, ◌≡◌, refl, true, false, some, List, [], ◌∷◌, ◌++◌, length}
use lld_or1k.Base.Text.{codes}
use lld_or1k.Script.Token.{
  kw_as_needed, libname, Token, number, identifier, minusequal, semicolon, l_paren, r_paren,
  l_brace, r_brace, colon, kw_entry, kw_sections, kw_input,
}
use lld_or1k.Script.Stream.{token, found}
use lld_or1k.Script.Number.{parse_num}
use lld_or1k.Script.Ast.{InputPath, simple, sub, default, entry}
use lld_or1k.Script.Expression.{constant}
use lld_or1k.Script.Expression.Parser.{token_to_bin_op}
use lld_or1k.Script.Expression.Grammar.{Whole, plain, single, a_number, Stops}
use lld_or1k.Script.Commands.{parse_path_list, parse_symbol_assignment, assignment_kind_of}
use lld_or1k.Script.Commands.Assignments.{parse_symbol_assignment-simple}
use lld_or1k.Script.Commands.TopLevel.{parse, complete, parse_error}

abbrev entry_tokens : List Token
entry_tokens =
    token kw_entry (codes "ENTRY")
    ∷ token l_paren (codes "(")
    ∷ token identifier (codes "main")
    ∷ token r_paren (codes ")")
    ∷ token semicolon (codes ";")
    ∷ []

entry_parsed : parse 40 entry_tokens ≡ complete (entry (codes "main") ∷ [])
unfolding parse
entry_parsed = refl

-- `SECTIONS { .text : }`
broken :
    parse 40 (
      token kw_sections []
      ∷ token l_brace []
      ∷ token identifier (codes ".text")
      ∷ token colon []
      ∷ token r_brace []
      ∷ [])
    ≡ parse_error []
unfolding parse
broken = refl

abbrev two_paths : List InputPath
two_paths =
    record { path = codes "a.o"; as_needed = false; is_dashl_prefix = false }
    ∷ record { path = codes "m"; as_needed = true; is_dashl_prefix = true }
    ∷ []

-- A path list may hold names, libraries and groups of names that are needed only where they are used.
paths_parsed :
    parse_path_list 6 (
      token kw_input (codes "INPUT")
      ∷ token l_paren (codes "(")
      ∷ token identifier (codes "a.o")
      ∷ token kw_as_needed (codes "AS_NEEDED")
      ∷ token l_paren (codes "(")
      ∷ token libname (codes "m")
      ∷ token r_paren (codes ")")
      ∷ token r_paren (codes ")")
      ∷ entry_tokens)
    ≡ found two_paths entry_tokens
unfolding parse_path_list
paths_parsed = refl

-- `x -= 8 ;`
abbrev eight : List Token
eight = token number (codes "8") ∷ []

eight-Whole : Whole (constant 8) eight
unfolding parse_num
eight-Whole = plain (single (a_number (codes "8") 8 refl))

abbrev at_end : List Token
at_end = token semicolon (codes ";") ∷ []

at_end-Stops : Stops at_end
unfolding token_to_bin_op
at_end-Stops = (refl, refl, refl)

subtraction : assignment_kind_of minusequal ≡ some sub
unfolding assignment_kind_of
subtraction = refl

parse_symbol_assignment-simple_example :
    parse_symbol_assignment
      (3 * length eight + 1)
      (token identifier (codes "x") ∷ token minusequal (codes "-=") ∷ (eight ++ at_end))
    ≡ found
        (record {
          expression = constant 8;
          symbol = codes "x";
          assignment_kind = simple;
          assignment_visibility = default;
        })
        at_end
parse_symbol_assignment-simple_example =
    parse_symbol_assignment-simple (codes "x") (codes "-=") minusequal sub (constant 8) eight at_end
      subtraction eight-Whole refl at_end-Stops
