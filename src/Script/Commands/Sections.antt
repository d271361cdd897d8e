-- ===== src/Script/Commands/Sections.antt =====
-- The parsers of lib/ReaderWriter/LinkerScript.cpp for SECTIONS, from `parseExcludeFile` to
-- `parseSections`. A loop takes one unit of fuel for each turn.
use lld_or1k.Base.{
  ℕ, zero, suc, ◌+◌, Bool, true, false, ◌||◌, ◌&&◌, not, Option, none, some, List, [], ◌∷◌, ltb,
  nat_eq, if◌then◌else◌,
}
use lld_or1k.Base.Text.{Text, codes, starts_with, drop}
use lld_or1k.Script.Token.{
  Token, Kind, identifier, number, semicolon, star, slash, plus, minus, lessless, greatergreater,
  less, greater, lessequal, greaterequal, equalequal, exclaimequal, amp, pipe, question, l_paren,
  r_paren, l_brace, r_brace, colon, equal, kw_align, kw_align_with_input, kw_at, kw_discard,
  kw_entry, kw_exclude_file, kw_hidden, kw_keep, kw_only_if_ro, kw_only_if_rw, kw_overlay,
  kw_provide, kw_provide_hidden, kw_sort_by_alignment, kw_sort_by_init_priority, kw_sort_by_name,
  kw_sort_none, kw_subalign, is_kind,
}
use lld_or1k.Script.Stream.{
  kind_of, range_of, consume, peek, Parsed, found, null, out_of_fuel, ◌>>=◌, expect,
}
use lld_or1k.Script.ByteStream.{parse_hex_to_byte_stream}
use lld_or1k.Script.Expression.{Expression}
use lld_or1k.Script.Expression.Parser.{parse_expression}
use lld_or1k.Script.Ast.{
  WildcardSortMode, na, by_alignment, by_alignment_and_name, by_init_priority, by_name,
  by_name_and_alignment, none_mode, InputSection, input_section_name, sorted_group, InputSections,
  no_sections, section_then, InputSectionsCmd, OutputSectionCommand, assignment, input_sections,
  Constraint, c_none, c_only_if_ro, c_only_if_rw, OutputSectionDescription, SectionsCommand,
  symbol_assignment, output_section, section_entry,
}
use lld_or1k.Script.Commands.{
  names, behind_names, parse_one_name, parse_symbol_assignment, assignment_kind_of,
}

-- `expectAndConsume(Token::r_paren)`, as many times.
abbrev pub close_parens {ℓ} : {A : Type ℓ} → ℕ → List Token → (List Token → Parsed A) → Parsed A
close_parens zero ts next = next ts
close_parens (suc n) ts next = expect r_paren ts (λ rest. close_parens n rest next)

abbrev pub named_sections : Bool → List Text → InputSections → InputSections
named_sections exclude_file [] rest = rest
named_sections exclude_file (n ∷ ns) rest =
    section_then (input_section_name n exclude_file) (named_sections exclude_file ns rest)

unfoldable pub parse_exclude_file : List Token → Parsed (List Text)
parse_exclude_file ts =
    expect l_paren (consume ts)
      (λ inside. expect r_paren (behind_names inside) (λ rest. found (names inside) rest))

-- One `if` of `parseSortDirectives`: `directives` and `sortMode` with what the keyword makes of them.
abbrev pub sort_directive :
    Bool
    → Kind
    → WildcardSortMode
    → ℕ
    → WildcardSortMode
    → List Token
    → Parsed (ℕ × WildcardSortMode)
sort_directive allowed k changed directives mode ts = elim (allowed && is_kind (kind_of ts) k) [
  | false ↦ found (directives, mode) ts
  | true ↦ expect l_paren (consume ts) (λ rest. found (directives + 1, changed) rest)
]

abbrev pub with_alignment : WildcardSortMode → WildcardSortMode
with_alignment by_name = by_name_and_alignment
with_alignment _ = by_alignment

abbrev pub with_name : WildcardSortMode → WildcardSortMode
with_name by_alignment = by_alignment_and_name
with_name mode = mode

-- The number of directives, that is of the parentheses that are open, and the mode. The -1 of the
-- source is `null`.
unfoldable pub parse_sort_directives : List Token → Parsed (ℕ × WildcardSortMode)
parse_sort_directives ts = sort_directive true kw_sort_by_name by_name 0 na ts >>= (λ s t1.
    sort_directive true kw_sort_by_init_priority by_init_priority s.0 s.1 t1 >>= (λ s1 t2.
      sort_directive true kw_sort_by_alignment (with_alignment s1.1) s1.0 s1.1 t2 >>= (λ s2 t3.
        sort_directive (ltb s2.0 2) kw_sort_by_name (with_name s2.1) s2.0 s2.1 t3 >>= (λ s3 t4.
          sort_directive (ltb s3.0 2) kw_sort_by_alignment s3.1 s3.0 s3.1 t4
          >>= (λ s4 t5. sort_directive (nat_eq s4.0 0) kw_sort_none none_mode s4.0 s4.1 t5)))))

unfoldable pub parse_sorted_input_sections : List Token → Parsed InputSection
unfolding parse_sort_directives
parse_sorted_input_sections ts = parse_sort_directives ts >>= (λ s inside.
    close_parens s.0 (behind_names inside)
      (λ rest. found (sorted_group s.1 (named_sections false (names inside) no_sections)) rest))

abbrev pub is_sort : Kind → Bool
is_sort k =
    is_kind k kw_sort_by_name
    || is_kind k kw_sort_by_alignment
    || is_kind k kw_sort_by_init_priority
    || is_kind k kw_sort_none

-- The loop of `parseInputSectionsCmd` over the section names.
abbrev pub input_section_list : ℕ → List Token → Parsed InputSections
input_section_list zero ts = out_of_fuel
input_section_list (suc fuel) ts = elim (is_kind (kind_of ts) kw_exclude_file) [
  | true ↦ parse_exclude_file ts >>= (λ files rest.
      input_section_list fuel rest
      >>= (λ more behind. found (named_sections true files more) behind))
  | false ↦ elim (is_kind (kind_of ts) identifier) [
    | true ↦ input_section_list fuel (consume ts) >>= (λ more behind.
        found (section_then (input_section_name (range_of ts) false) more) behind)
    | false ↦ elim (is_sort (kind_of ts)) [
      | true ↦ parse_sorted_input_sections ts >>= (λ made rest.
          input_section_list fuel rest >>= (λ more behind. found (section_then made more) behind))
      | false ↦ found no_sections ts
    ]
  ]
]

-- A name inside its sort directives.
abbrev pub sorted_name : List Token → Parsed (Text × WildcardSortMode)
sorted_name ts = parse_sort_directives ts >>= (λ s at_name.
    close_parens s.0 (consume at_name) (λ rest. found (range_of at_name, s.1) rest))

-- `KEEP (`
abbrev pub keep_prefix : List Token → Parsed Bool
keep_prefix ts = elim (is_kind (kind_of ts) kw_keep) [
  | true ↦ expect l_paren (consume ts) (λ rest. found true rest)
  | false ↦ found false ts
]

abbrev pub member_part : List Token → Parsed (Text × WildcardSortMode)
member_part ts = elim (is_kind (kind_of ts) colon) [
  | true ↦ found ([], na) ts
  | false ↦ sorted_name ts
]

abbrev pub archive_part : List Token → Parsed (Text × WildcardSortMode)
archive_part ts = elim (is_kind (kind_of ts) colon) [
  | false ↦ found ([], na) ts
  | true ↦ elim (is_kind (peek ts) identifier || is_sort (peek ts)) [
    | true ↦ sorted_name (consume ts)
    | false ↦ found ([], na) (consume ts)
  ]
]

-- What follows the names in `parseInputSectionsCmd`, for `numParen` open parentheses.
abbrev pub section_part : ℕ → ℕ → List Token → Parsed InputSections
section_part fuel num_paren ts = elim (is_kind (kind_of ts) l_paren) [
  | false ↦ found no_sections ts
  | true ↦
      input_section_list fuel (consume ts)
      >>= (λ made behind. close_parens num_paren behind (λ rest. found made rest))
]

unfoldable pub parse_input_sections_cmd : ℕ → List Token → Parsed InputSectionsCmd
unfolding parse_sort_directives parse_sorted_input_sections parse_exclude_file
parse_input_sections_cmd fuel ts = keep_prefix ts >>= (λ keep t1. member_part t1 >>= (λ member t2.
    archive_part t2 >>= (λ archive t3.
      section_part fuel (if keep then 2 else 1) t3 >>= (λ made rest.
        found
          (record {
            member_name = member.0;
            archive_name = archive.0;
            keep = keep;
            file_sort_mode = member.1;
            archive_sort_mode = archive.1;
            sections = made;
          })
          rest))))

-- The kinds that begin the optional address of an output section.
abbrev pub begins_address : Kind → Bool
begins_address k =
    is_kind k number || is_kind k identifier || is_kind k kw_align || is_kind k l_paren

abbrev pub expression_if : ℕ → Bool → List Token → Parsed (Option Expression)
expression_if fuel test ts = elim test [
  | false ↦ found none ts
  | true ↦ parse_expression fuel 13 ts >>= (λ e rest. found (some e) rest)
]

-- `AT`, `ALIGN` and `SUBALIGN` with their expressions.
abbrev pub keyword_expression : ℕ → Kind → List Token → Parsed (Option Expression)
keyword_expression fuel k ts = elim (is_kind (kind_of ts) k) [
  | false ↦ found none ts
  | true ↦ expression_if fuel true (consume ts)
]

abbrev pub flag_keyword : Kind → List Token → Bool × List Token
flag_keyword k ts = elim (is_kind (kind_of ts) k) [
  | true ↦ (true, consume ts)
  | false ↦ (false, ts)
]

abbrev pub constraint_part : List Token → Constraint × List Token
constraint_part ts = elim (is_kind (kind_of ts) kw_only_if_ro) [
  | true ↦ (c_only_if_ro, consume ts)
  | false ↦ elim (is_kind (kind_of ts) kw_only_if_rw) [
    | true ↦ (c_only_if_rw, consume ts)
    | false ↦ (c_none, ts)
  ]
]

-- What the loop of `parseOutputSectionDescription` does at a token: an assignment, an input
-- section command, or nothing that it knows.
pub data Turn : Type 0 where
  skip an_assignment an_input a_section an_entry stop : Turn

abbrev pub named_turn : Kind → Turn → Turn
named_turn next other = elim (assignment_kind_of next) [ some kind ↦ an_assignment | none ↦ other ]

unfoldable pub output_turn : Kind → Kind → Turn
unfolding assignment_kind_of
output_turn semicolon next = skip
output_turn identifier next = named_turn next an_input
output_turn kw_keep next = an_input
output_turn star next = an_input
output_turn colon next = an_input
output_turn kw_sort_by_name next = an_input
output_turn kw_sort_by_alignment next = an_input
output_turn kw_sort_by_init_priority next = an_input
output_turn kw_sort_none next = an_input
output_turn kw_hidden next = an_assignment
output_turn kw_provide next = an_assignment
output_turn kw_provide_hidden next = an_assignment
output_turn _ next = stop

abbrev pub output_section_commands : ℕ → List Token → Parsed (List OutputSectionCommand)
output_section_commands zero ts = out_of_fuel
output_section_commands (suc fuel) ts = elim (is_kind (kind_of ts) r_brace) [
  | true ↦ found [] ts
  | false ↦ elim (output_turn (kind_of ts) (peek ts)) [
    | skip ↦ output_section_commands fuel (consume ts)
    | an_assignment ↦ parse_symbol_assignment fuel ts >>= (λ made rest.
        output_section_commands fuel rest
        >>= (λ more behind. found (assignment made ∷ more) behind))
    | an_input ↦ parse_input_sections_cmd fuel ts >>= (λ made rest.
        output_section_commands fuel rest
        >>= (λ more behind. found (input_sections made ∷ more) behind))
    | _ ↦ null ts
  ]
]

-- `isExpressionOperator`
unfoldable pub is_expression_operator : Kind → Bool
is_expression_operator star = true
is_expression_operator slash = true
is_expression_operator plus = true
is_expression_operator minus = true
is_expression_operator lessless = true
is_expression_operator greatergreater = true
is_expression_operator less = true
is_expression_operator greater = true
is_expression_operator lessequal = true
is_expression_operator greaterequal = true
is_expression_operator equalequal = true
is_expression_operator exclaimequal = true
is_expression_operator amp = true
is_expression_operator pipe = true
is_expression_operator question = true
is_expression_operator _ = false

-- The bytes that a number stands for behind `=`, where it is no expression.
abbrev pub fill_bytes : List Token → Option (List ℕ)
fill_bytes ts =
    if not (is_kind (kind_of ts) number)
      || not (starts_with (codes "0x") (range_of ts) || starts_with (codes "0X") (range_of ts))
    then none
    else if is_expression_operator (peek ts)
    then none
    else parse_hex_to_byte_stream (drop 2 (range_of ts))

abbrev pub fill_part : ℕ → List Token → Parsed (Option Expression × Text)
fill_part fuel ts = elim (is_kind (kind_of ts) equal) [
  | false ↦ found (none, []) ts
  | true ↦ elim (fill_bytes (consume ts)) [
    | some bytes ↦ found (none, bytes) (consume (consume ts))
    | none ↦ parse_expression fuel 13 (consume ts) >>= (λ e rest. found (some e, []) rest)
  ]
]

-- `parseOutputSectionDescription` from the brace on.
unfoldable pub output_section_body :
    ℕ
    → (List OutputSectionCommand → Option Expression × Text → OutputSectionDescription)
    → List Token
    → Parsed OutputSectionDescription
unfolding parse_expression parse_symbol_assignment parse_input_sections_cmd output_turn
    is_expression_operator parse_hex_to_byte_stream
output_section_body fuel make ts = expect l_brace ts (λ inside.
    output_section_commands fuel inside >>= (λ made behind.
      expect r_brace behind
        (λ after. fill_part fuel after >>= (λ fill rest. found (make made fill) rest))))

unfoldable pub parse_output_section_description : ℕ → List Token → Parsed OutputSectionDescription
unfolding parse_expression output_section_body
parse_output_section_description fuel ts =
    let discard = is_kind (kind_of ts) kw_discard in
    expression_if fuel (begins_address (kind_of (consume ts))) (consume ts) >>= (λ address t1.
      expect colon t1 (λ t2. keyword_expression fuel kw_at t2 >>= (λ at t3.
        keyword_expression fuel kw_align t3 >>= (λ align t4.
          let (with_input, t5) = flag_keyword kw_align_with_input t4 in
          keyword_expression fuel kw_subalign t5 >>= (λ sub_align t6.
            let (constraint, t7) = constraint_part t6 in
            output_section_body fuel
              (λ made fill. record {
                section_name = if discard then [] else range_of ts;
                address = address;
                align = align;
                sub_align = sub_align;
                at = at;
                fill_expr = fill.0;
                fill_stream = fill.1;
                align_with_input = with_input;
                discard = discard;
                constraint = constraint;
                commands = made;
              })
              t7)))))

-- The loop of `parseSections`; OVERLAY is an error.
unfoldable pub sections_turn : Kind → Kind → Turn
unfolding assignment_kind_of
sections_turn semicolon next = skip
sections_turn identifier next = named_turn next a_section
sections_turn kw_discard next = a_section
sections_turn star next = a_section
sections_turn kw_entry next = an_entry
sections_turn kw_hidden next = an_assignment
sections_turn kw_provide next = an_assignment
sections_turn kw_provide_hidden next = an_assignment
sections_turn _ next = stop

abbrev pub sections_commands : ℕ → List Token → Parsed (List SectionsCommand)
sections_commands zero ts = out_of_fuel
sections_commands (suc fuel) ts = elim (sections_turn (kind_of ts) (peek ts)) [
  | skip ↦ sections_commands fuel (consume ts)
  | an_assignment ↦ parse_symbol_assignment fuel ts >>= (λ made rest.
      sections_commands fuel rest >>= (λ more behind. found (symbol_assignment made ∷ more) behind))
  | a_section ↦ parse_output_section_description fuel ts >>= (λ made rest.
      sections_commands fuel rest >>= (λ more behind. found (output_section made ∷ more) behind))
  | an_entry ↦ parse_one_name ts >>= (λ made rest.
      sections_commands fuel rest >>= (λ more behind. found (section_entry made ∷ more) behind))
  | _ ↦ elim (is_kind (kind_of ts) kw_overlay) [ true ↦ null ts | false ↦ found [] ts ]
]

unfoldable pub parse_sections : ℕ → List Token → Parsed (List SectionsCommand)
unfolding parse_one_name parse_symbol_assignment parse_output_section_description sections_turn
parse_sections fuel ts = expect l_brace (consume ts) (λ inside.
    sections_commands fuel inside
    >>= (λ made behind. expect r_brace behind (λ rest. found made rest)))
