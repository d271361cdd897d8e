-- ===== src/Script/Commands.antt =====
-- The command parsers of lib/ReaderWriter/LinkerScript.cpp that stand outside SECTIONS. A loop takes
-- one unit of fuel for each turn.
pub mod Sections
pub mod TopLevel
pub mod Assignments
use lld_or1k.Base.{ℕ, zero, suc, Bool, true, false, ◌||◌, Option, none, some, List, [], ◌∷◌, ◌++◌}
use lld_or1k.Base.Text.{Text}
use lld_or1k.Script.Token.{
  Token, Kind, identifier, libname, number, kw_align, l_paren, r_paren, l_brace, r_brace, comma,
  colon, equal, plusequal, minusequal, starequal, slashequal, ampequal, pipeequal, lesslessequal,
  greatergreaterequal, kw_as_needed, kw_hidden, kw_provide, kw_provide_hidden, kw_origin, kw_length,
  is_kind,
}
use lld_or1k.Script.Stream.{
  kind_of, range_of, consume, Parsed, found, null, out_of_fuel, ◌>>=◌, expect,
}
use lld_or1k.Script.Expression.{Expression}
use lld_or1k.Script.Expression.Parser.{parse_expression}
use lld_or1k.Script.Ast.{
  InputPath, AssignmentKind, simple, sum, sub, mul, div, shl, shr, and, or, AssignmentVisibility,
  default, hidden, provide, provide_hidden, SymbolAssignment, new_assignment, MemoryBlock,
}

-- `while (_tok._kind == Token::identifier)`, which collects the names; each turn consumes a token.
abbrev pub names : List Token → List Text
names [] = []
names (t ∷ ts) = elim (is_kind t.kind identifier) [ true ↦ t.range ∷ names ts | false ↦ [] ]

abbrev pub behind_names : List Token → List Token
behind_names [] = []
behind_names (t ∷ ts) = elim (is_kind t.kind identifier) [ true ↦ behind_names ts | false ↦ t ∷ ts ]

-- `( identifier )` behind a keyword: `parseOutput`, `parseOutputArch`, `parseEntry` and
-- `parseSearchDir` up to the object that they make.
unfoldable pub parse_one_name : List Token → Parsed Text
parse_one_name ts = expect l_paren (consume ts) (λ inside.
    elim (is_kind (kind_of inside) identifier) [
      | true ↦ expect r_paren (consume inside) (λ rest. found (range_of inside) rest)
      | false ↦ null inside
    ])

-- The loop of `parseOutputFormat` over `, identifier`.
abbrev pub format_names : ℕ → List Token → Parsed (List Text)
format_names zero ts = out_of_fuel
format_names (suc fuel) ts = elim (is_kind (kind_of ts) comma) [
  | false ↦ found [] ts
  | true ↦ elim (is_kind (kind_of (consume ts)) identifier) [
    | false ↦ null (consume ts)
    | true ↦
        format_names fuel (consume (consume ts))
        >>= (λ formats rest. found (range_of (consume ts) ∷ formats) rest)
  ]
]

unfoldable pub parse_output_format : ℕ → List Token → Parsed (List Text)
parse_output_format fuel ts = expect l_paren (consume ts) (λ inside.
    elim (is_kind (kind_of inside) identifier) [
      | true ↦ format_names fuel (consume inside) >>= (λ formats behind.
          expect r_paren behind (λ rest. found (range_of inside ∷ formats) rest))
      | false ↦ null inside
    ])

-- The loop of `parseAsNeeded`.
abbrev pub as_needed_paths : ℕ → List Token → Parsed (List InputPath)
as_needed_paths zero ts = out_of_fuel
as_needed_paths (suc fuel) ts = elim (kind_of ts) [
  | identifier ↦ as_needed_paths fuel (consume ts) >>= (λ paths rest.
      found (record { path = range_of ts; as_needed = true; is_dashl_prefix = false } ∷ paths) rest)
  | libname ↦ as_needed_paths fuel (consume ts) >>= (λ paths rest.
      found (record { path = range_of ts; as_needed = true; is_dashl_prefix = true } ∷ paths) rest)
  | _ ↦ found [] ts
]

unfoldable pub parse_as_needed : ℕ → List Token → Parsed (List InputPath)
parse_as_needed fuel ts = expect l_paren (consume ts) (λ inside.
    as_needed_paths fuel inside
    >>= (λ paths behind. expect r_paren behind (λ rest. found paths rest)))

-- The loop of `parsePathList`.
abbrev pub path_list : ℕ → List Token → Parsed (List InputPath)
path_list zero ts = out_of_fuel
path_list (suc fuel) ts = elim (kind_of ts) [
  | identifier ↦ path_list fuel (consume ts) >>= (λ paths rest.
      found (record { path = range_of ts; as_needed = false; is_dashl_prefix = false } ∷ paths)
        rest)
  | libname ↦ path_list fuel (consume ts) >>= (λ paths rest.
      found (record { path = range_of ts; as_needed = false; is_dashl_prefix = true } ∷ paths) rest)
  | kw_as_needed ↦
      parse_as_needed fuel ts
      >>= (λ needed rest. path_list fuel rest >>= (λ paths behind. found (needed ++ paths) behind))
  | _ ↦ found [] ts
]

unfoldable pub parse_path_list : ℕ → List Token → Parsed (List InputPath)
unfolding parse_as_needed
parse_path_list fuel ts = expect l_paren (consume ts) (λ inside.
    path_list fuel inside >>= (λ paths behind. expect r_paren behind (λ rest. found paths rest)))

unfoldable pub assignment_kind_of : Kind → Option AssignmentKind
assignment_kind_of equal = some simple
assignment_kind_of plusequal = some sum
assignment_kind_of minusequal = some sub
assignment_kind_of starequal = some mul
assignment_kind_of slashequal = some div
assignment_kind_of ampequal = some and
assignment_kind_of pipeequal = some or
assignment_kind_of lesslessequal = some shl
assignment_kind_of greatergreaterequal = some shr
assignment_kind_of _ = none

-- The visibility, and whether a parenthesis is opened behind the keyword.
abbrev pub visibility_of : Kind → AssignmentVisibility × Bool
visibility_of kw_hidden = (hidden, true)
visibility_of kw_provide = (provide, true)
visibility_of kw_provide_hidden = (provide_hidden, true)
visibility_of _ = (default, false)

-- The kinds that may begin the value of an assignment.
abbrev pub begins_value : Kind → Bool
begins_value k = is_kind k number || is_kind k kw_align || is_kind k identifier || is_kind k l_paren

-- `parseSymbolAssignment` from the name on.
unfoldable pub assignment_from : ℕ → AssignmentVisibility → List Token → Parsed SymbolAssignment
unfolding assignment_kind_of parse_expression
assignment_from fuel visibility ts = elim (assignment_kind_of (kind_of (consume ts))) [
  | none ↦ null (consume ts)
  | some kind ↦ elim (begins_value (kind_of (consume (consume ts)))) [
    | false ↦ null (consume (consume ts))
    | true ↦
        parse_expression fuel 13 (consume (consume ts))
        >>= (λ expr rest. found (new_assignment (range_of ts) expr kind visibility) rest)
  ]
]

unfoldable pub parse_symbol_assignment : ℕ → List Token → Parsed SymbolAssignment
unfolding assignment_from
parse_symbol_assignment fuel ts =
    let (visibility, in_parens) = visibility_of (kind_of ts) in
    elim in_parens [
      | true ↦ expect l_paren (consume ts) (λ inside.
          assignment_from fuel visibility inside
          >>= (λ made behind. expect r_paren behind (λ rest. found made rest)))
      | false ↦ assignment_from fuel visibility ts
    ]

-- The attributes of a memory block, where there are any.
abbrev pub memory_attributes : List Token → Parsed Text
memory_attributes ts = elim (is_kind (kind_of ts) l_paren) [
  | false ↦ found [] ts
  | true ↦ elim (is_kind (kind_of (consume ts)) identifier) [
    | false ↦ null (consume ts)
    | true ↦ expect r_paren (consume (consume ts)) (λ rest. found (range_of (consume ts)) rest)
  ]
]

abbrev pub memory_block : ℕ → List Token → Parsed MemoryBlock
memory_block fuel ts = memory_attributes (consume ts) >>= (λ attrs behind. expect colon behind (λ s.
    expect kw_origin s (λ s1. expect equal s1 (λ s2. parse_expression fuel 13 s2 >>= (λ origin s3.
      expect comma s3 (λ s4. expect kw_length s4 (λ s5. expect equal s5 (λ s6.
        parse_expression fuel 13 s6 >>= (λ extent rest.
          found (record { name = range_of ts; attr = attrs; origin = origin; extent = extent })
            rest)))))))))

abbrev pub memory_blocks : ℕ → List Token → Parsed (List MemoryBlock)
memory_blocks zero ts = out_of_fuel
memory_blocks (suc fuel) ts = elim (is_kind (kind_of ts) identifier) [
  | false ↦ found [] ts
  | true ↦ memory_block fuel ts >>= (λ block rest.
      memory_blocks fuel rest >>= (λ blocks behind. found (block ∷ blocks) behind))
]

unfoldable pub parse_memory : ℕ → List Token → Parsed (List MemoryBlock)
unfolding parse_expression
parse_memory fuel ts = expect l_brace (consume ts) (λ inside.
    memory_blocks fuel inside
    >>= (λ blocks behind. expect r_brace behind (λ rest. found blocks rest)))

unfoldable pub parse_extern : List Token → Parsed (List Text)
parse_extern ts = expect l_paren (consume ts) (λ inside.
    elim (is_kind (kind_of inside) identifier) [
      | true ↦ expect r_paren (behind_names inside) (λ rest. found (names inside) rest)
      | false ↦ null inside
    ])
