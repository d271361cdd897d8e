-- ===== src/Script/Token.antt =====
-- Tokens of linker scripts: `Token` of include/lld/ReaderWriter/LinkerScript.h.
use lld_or1k.Base.{ℕ, Bool, nat_eq}
use lld_or1k.Base.Text.{Text}

-- Token::Kind
pub data Kind : Type 0 where
  unknown eof exclaim exclaimequal amp ampequal l_paren r_paren star starequal plus : Kind
  plusequal comma minus minusequal slash slashequal number colon semicolon less : Kind
  lessequal lessless lesslessequal equal equalequal greater greaterequal : Kind
  greatergreater greatergreaterequal question identifier libname kw_align : Kind
  kw_align_with_input kw_as_needed kw_at kw_discard kw_entry kw_exclude_file kw_extern : Kind
  kw_group kw_hidden kw_input kw_keep kw_length kw_memory kw_origin kw_provide : Kind
  kw_provide_hidden kw_only_if_ro kw_only_if_rw kw_output kw_output_arch : Kind
  kw_output_format kw_overlay kw_search_dir kw_sections kw_sort_by_alignment : Kind
  kw_sort_by_init_priority kw_sort_by_name kw_sort_none kw_subalign l_brace pipe : Kind
  pipeequal r_brace tilde : Kind

-- The enumerator's number, for `==`.
abbrev pub kind_number : Kind → ℕ
kind_number unknown = 0
kind_number eof = 1
kind_number exclaim = 2
kind_number exclaimequal = 3
kind_number amp = 4
kind_number ampequal = 5
kind_number l_paren = 6
kind_number r_paren = 7
kind_number star = 8
kind_number starequal = 9
kind_number plus = 10
kind_number plusequal = 11
kind_number comma = 12
kind_number minus = 13
kind_number minusequal = 14
kind_number slash = 15
kind_number slashequal = 16
kind_number number = 17
kind_number colon = 18
kind_number semicolon = 19
kind_number less = 20
kind_number lessequal = 21
kind_number lessless = 22
kind_number lesslessequal = 23
kind_number equal = 24
kind_number equalequal = 25
kind_number greater = 26
kind_number greaterequal = 27
kind_number greatergreater = 28
kind_number greatergreaterequal = 29
kind_number question = 30
kind_number identifier = 31
kind_number libname = 32
kind_number kw_align = 33
kind_number kw_align_with_input = 34
kind_number kw_as_needed = 35
kind_number kw_at = 36
kind_number kw_discard = 37
kind_number kw_entry = 38
kind_number kw_exclude_file = 39
kind_number kw_extern = 40
kind_number kw_group = 41
kind_number kw_hidden = 42
kind_number kw_input = 43
kind_number kw_keep = 44
kind_number kw_length = 45
kind_number kw_memory = 46
kind_number kw_origin = 47
kind_number kw_provide = 48
kind_number kw_provide_hidden = 49
kind_number kw_only_if_ro = 50
kind_number kw_only_if_rw = 51
kind_number kw_output = 52
kind_number kw_output_arch = 53
kind_number kw_output_format = 54
kind_number kw_overlay = 55
kind_number kw_search_dir = 56
kind_number kw_sections = 57
kind_number kw_sort_by_alignment = 58
kind_number kw_sort_by_init_priority = 59
kind_number kw_sort_by_name = 60
kind_number kw_sort_none = 61
kind_number kw_subalign = 62
kind_number l_brace = 63
kind_number pipe = 64
kind_number pipeequal = 65
kind_number r_brace = 66
kind_number tilde = 67

abbrev pub is_kind : Kind → Kind → Bool
is_kind k l = nat_eq (kind_number k) (kind_number l)

-- A token with its text, `_range`.
pub record Token : Type 0 where
  pub range : Text
  pub kind : Kind
