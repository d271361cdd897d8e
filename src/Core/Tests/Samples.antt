-- ===== src/Core/Tests/Samples.antt =====
-- Sample atoms and options for lib/Core.
use lld_or1k.Base.{true, false, none, List, [], ◌∷◌, String, nat_eq, if◌then◌else◌}
use lld_or1k.Core.Atom.{
  Address, Memory, defined_atom, undefined_atom, shared_library_atom, DefinedAtom, UndefinedAtom,
  SharedLibraryAtom, merge_no, global, type_code, perm_rx, based_on_content, strip_normal,
  Reference, elf, never, data_symbol,
}
use lld_or1k.Core.Context.{LinkingContext}

abbrev pub context : LinkingContext
context = record {
  allow_duplicates = false;
  notify_coalesce = λ existing new use_new. use_new;
  dead_strip = true;
  globals_are_dead_strip_roots = false;
  dead_strip_roots = "main" ∷ [];
  allow_shlib_undefines = false;
  allow_remaining_undefines = false;
  search_archives_to_override = false;
  search_shared_libraries_to_override = false;
}

abbrev pub reference_to : Address → Reference
reference_to a = record { kind_namespace = elf; kind_value = 6; offset_in_atom = 0; target = a }

abbrev pub function : String → List Reference → DefinedAtom
function name references = record {
  name = name;
  file = 1;
  ordinal = 0;
  size = 4;
  section_size = 4;
  scope = global;
  merge = merge_no;
  content_type = type_code;
  permissions = perm_rx;
  section_choice = based_on_content;
  custom_section_name = "";
  dead_strip = strip_normal;
  raw_content = 0 ∷ 0 ∷ 0 ∷ 0 ∷ [];
  references = references;
}

abbrev pub undefined_named : String → UndefinedAtom
undefined_named name = record { name = name; file = 1; can_be_null = never; fallback = none }

abbrev pub export_named : String → SharedLibraryAtom
export_named name = record {
  name = name;
  file = 3;
  load_name = "libc.so";
  can_be_null_at_runtime = false;
  type = data_symbol;
}

-- 10 `main` calls 11, an undefined `f`; 12 defines `f`; 13 exports `f`; nothing calls 14, `unused`.
abbrev pub memory : Memory
memory a =
    if nat_eq a 10
    then defined_atom (function "main" (reference_to 11 ∷ []))
    else if nat_eq a 11
    then undefined_atom (undefined_named "f")
    else if nat_eq a 12
    then defined_atom (function "f" [])
    else if nat_eq a 13
    then shared_library_atom (export_named "f")
    else defined_atom (function "unused" [])
