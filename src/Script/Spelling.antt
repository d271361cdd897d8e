-- ===== src/Script/Spelling.antt =====
-- The characters of names and numbers, the fixed tokens and the keywords of `Lexer` in
-- lib/ReaderWriter/LinkerScript.cpp. The text of a buffer is followed by a NUL, which the searches
-- with `strchr` find in every set.
use lld_or1k.Base.{
  ℕ, Bool, true, false, ◌||◌, ◌&&◌, Option, none, some, List, [], ◌∷◌, nat_eq, leb, length,
  contains, address_eq,
}
use lld_or1k.Base.Text.{Text, codes, same_text, starts_with}
use lld_or1k.Script.Token.{
  Kind, exclaim, exclaimequal, amp, ampequal, l_paren, r_paren, plus, plusequal, comma, minusequal,
  colon, semicolon, less, lessequal, lessless, lesslessequal, equal, equalequal, greater,
  greaterequal, greatergreater, greatergreaterequal, identifier, kw_align, kw_align_with_input,
  kw_as_needed, kw_at, kw_discard, kw_entry, kw_exclude_file, kw_extern, kw_group, kw_hidden,
  kw_input, kw_keep, kw_length, kw_memory, kw_origin, kw_provide, kw_provide_hidden, kw_only_if_ro,
  kw_only_if_rw, kw_output, kw_output_arch, kw_output_format, kw_overlay, kw_search_dir,
  kw_sections, kw_sort_by_alignment, kw_sort_by_init_priority, kw_sort_by_name, kw_sort_none,
  kw_subalign, l_brace, pipe, pipeequal, r_brace, tilde,
}

abbrev pub is_letter : ℕ → Bool
is_letter c = leb b'A' c && leb c b'Z' || leb b'a' c && leb c b'z'

abbrev pub can_start_number : ℕ → Bool
can_start_number c = leb b'0' c && leb c b'9'

abbrev pub can_continue_number : ℕ → Bool
can_continue_number c = nat_eq c 0 || contains c (codes "0123456789ABCDEFabcdefxXhHoOMK")

abbrev pub can_start_name : ℕ → Bool
can_start_name c = nat_eq c 0 || is_letter c || contains c (codes "_.$/\\*")

abbrev pub can_continue_name : ℕ → Bool
can_continue_name c = nat_eq c 0 || is_letter c || contains c (codes "0123456789_.$/\\~=+[]*?-:")

abbrev pub is_space : ℕ → Bool
is_space c = nat_eq c b' ' || nat_eq c 13 || nat_eq c 10 || nat_eq c 9

-- The tokens that a fixed text makes, in the order of the `switch`: the number of its characters is
-- one more than that of the characters behind the first.
abbrev pub fixed_tokens : List ((ℕ × Text) × Kind)
fixed_tokens =
    ((b'(', []), l_paren)
    ∷ ((b')', []), r_paren)
    ∷ ((b'{', []), l_brace)
    ∷ ((b'}', []), r_brace)
    ∷ ((b'=', codes "="), equalequal)
    ∷ ((b'=', []), equal)
    ∷ ((b'!', codes "="), exclaimequal)
    ∷ ((b'!', []), exclaim)
    ∷ ((b',', []), comma)
    ∷ ((b';', []), semicolon)
    ∷ ((b':', []), colon)
    ∷ ((b'&', codes "="), ampequal)
    ∷ ((b'&', []), amp)
    ∷ ((b'|', codes "="), pipeequal)
    ∷ ((b'|', []), pipe)
    ∷ ((b'+', codes "="), plusequal)
    ∷ ((b'+', []), plus)
    ∷ ((b'-', codes "="), minusequal)
    ∷ ((b'<', codes "<="), lesslessequal)
    ∷ ((b'<', codes "<"), lessless)
    ∷ ((b'<', codes "="), lessequal)
    ∷ ((b'<', []), less)
    ∷ ((b'>', codes ">="), greatergreaterequal)
    ∷ ((b'>', codes ">"), greatergreater)
    ∷ ((b'>', codes "="), greaterequal)
    ∷ ((b'>', []), greater)
    ∷ ((b'~', []), tilde)
    ∷ []

abbrev pub fixed_token : List ((ℕ × Text) × Kind) → ℕ → Text → Option (ℕ × Kind)
fixed_token [] c s = none
fixed_token (((d, more), kind) ∷ rows) c s = elim (nat_eq d c && starts_with more s) [
  | true ↦ some (length more, kind)
  | false ↦ fixed_token rows c s
]

abbrev pub keywords : List (Text × Kind)
keywords =
    (codes "ALIGN", kw_align)
    ∷ (codes "ALIGN_WITH_INPUT", kw_align_with_input)
    ∷ (codes "AS_NEEDED", kw_as_needed)
    ∷ (codes "AT", kw_at)
    ∷ (codes "ENTRY", kw_entry)
    ∷ (codes "EXCLUDE_FILE", kw_exclude_file)
    ∷ (codes "EXTERN", kw_extern)
    ∷ (codes "GROUP", kw_group)
    ∷ (codes "HIDDEN", kw_hidden)
    ∷ (codes "INPUT", kw_input)
    ∷ (codes "KEEP", kw_keep)
    ∷ (codes "LENGTH", kw_length)
    ∷ (codes "l", kw_length)
    ∷ (codes "len", kw_length)
    ∷ (codes "MEMORY", kw_memory)
    ∷ (codes "ONLY_IF_RO", kw_only_if_ro)
    ∷ (codes "ONLY_IF_RW", kw_only_if_rw)
    ∷ (codes "ORIGIN", kw_origin)
    ∷ (codes "o", kw_origin)
    ∷ (codes "org", kw_origin)
    ∷ (codes "OUTPUT", kw_output)
    ∷ (codes "OUTPUT_ARCH", kw_output_arch)
    ∷ (codes "OUTPUT_FORMAT", kw_output_format)
    ∷ (codes "OVERLAY", kw_overlay)
    ∷ (codes "PROVIDE", kw_provide)
    ∷ (codes "PROVIDE_HIDDEN", kw_provide_hidden)
    ∷ (codes "SEARCH_DIR", kw_search_dir)
    ∷ (codes "SECTIONS", kw_sections)
    ∷ (codes "SORT", kw_sort_by_name)
    ∷ (codes "SORT_BY_ALIGNMENT", kw_sort_by_alignment)
    ∷ (codes "SORT_BY_INIT_PRIORITY", kw_sort_by_init_priority)
    ∷ (codes "SORT_BY_NAME", kw_sort_by_name)
    ∷ (codes "SORT_NONE", kw_sort_none)
    ∷ (codes "SUBALIGN", kw_subalign)
    ∷ (codes "/DISCARD/", kw_discard)
    ∷ []

abbrev pub keyword : List (Text × Kind) → Text → Kind
keyword [] word = identifier
keyword ((text, kind) ∷ rows) word = elim (same_text text word) [
  | true ↦ kind
  | false ↦ keyword rows word
]
