-- ===== src/Script/Commands/TopLevel.antt =====
-- `Parser::parse` of lib/ReaderWriter/LinkerScript.cpp. The loop takes one unit of fuel for each turn.
use lld_or1k.Base.{ℕ, zero, suc, List, [], ◌∷◌}
use lld_or1k.Script.Token.{
  Token, eof, semicolon, identifier, kw_output, kw_output_format, kw_output_arch, kw_input,
  kw_group, kw_entry, kw_search_dir, kw_sections, kw_hidden, kw_provide, kw_provide_hidden,
  kw_memory, kw_extern,
}
use lld_or1k.Script.Stream.{kind_of, consume, Parsed, found, null, out_of_fuel, ◌>>=◌}
use lld_or1k.Script.Ast.{
  Command, output, output_format, output_arch, input, group, entry, search_dir, sections,
  top_assignment, memory, extern,
}
use lld_or1k.Script.Commands.{
  parse_one_name, parse_output_format, parse_path_list, parse_symbol_assignment, parse_memory,
  parse_extern,
}
use lld_or1k.Script.Commands.Sections.{parse_sections}

-- The error code, with `_script._commands`.
pub data Script : Type 0 where
  complete : List Command → Script
  parse_error : List Command → Script
  unfinished : Script

abbrev pub push : Command → Script → Script
push c (complete cs) = complete (c ∷ cs)
push c (parse_error cs) = parse_error (c ∷ cs)
push c unfinished = unfinished

-- The command that a keyword announces; `null` for any other token.
unfoldable pub parse_command : ℕ → List Token → Parsed Command
unfolding parse_one_name parse_output_format parse_path_list parse_symbol_assignment parse_memory
    parse_extern parse_sections
parse_command fuel ts = elim (kind_of ts) [
  | kw_output ↦ parse_one_name ts >>= (λ n rest. found (output n) rest)
  | kw_output_format ↦ parse_output_format fuel ts >>= (λ ns rest. found (output_format ns) rest)
  | kw_output_arch ↦ parse_one_name ts >>= (λ n rest. found (output_arch n) rest)
  | kw_input ↦ parse_path_list fuel ts >>= (λ ps rest. found (input ps) rest)
  | kw_group ↦ parse_path_list fuel ts >>= (λ ps rest. found (group ps) rest)
  | kw_entry ↦ parse_one_name ts >>= (λ n rest. found (entry n) rest)
  | kw_search_dir ↦ parse_one_name ts >>= (λ n rest. found (search_dir n) rest)
  | kw_sections ↦ parse_sections fuel ts >>= (λ cs rest. found (sections cs) rest)
  | identifier ↦ parse_symbol_assignment fuel ts >>= (λ a rest. found (top_assignment a) rest)
  | kw_hidden ↦ parse_symbol_assignment fuel ts >>= (λ a rest. found (top_assignment a) rest)
  | kw_provide ↦ parse_symbol_assignment fuel ts >>= (λ a rest. found (top_assignment a) rest)
  | kw_provide_hidden ↦
      parse_symbol_assignment fuel ts >>= (λ a rest. found (top_assignment a) rest)
  | kw_memory ↦ parse_memory fuel ts >>= (λ bs rest. found (memory bs) rest)
  | kw_extern ↦ parse_extern ts >>= (λ ns rest. found (extern ns) rest)
  | _ ↦ null ts
]

unfoldable pub parse : ℕ → List Token → Script
unfolding parse_command
parse zero ts = unfinished
parse (suc fuel) ts = elim (kind_of ts) [
  | eof ↦ complete []
  | semicolon ↦ parse fuel (consume ts)
  | _ ↦ elim (parse_command fuel ts) [
    | found c rest ↦ push c (parse fuel rest)
    | null rest ↦ parse_error []
    | out_of_fuel ↦ unfinished
  ]
]
