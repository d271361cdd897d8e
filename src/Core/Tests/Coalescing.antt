-- ===== src/Core/Tests/Coalescing.antt =====
-- The symbol table at work: an undefined `f`, an export of it, and its definition.
use lld_or1k.Base.{
  ◌+◌, ◌≤◌, ◌≡◌, String, length, nat_eq, inl, inr, contains-cons, ◌↔◌, refl, true, false, some, [],
  ◌∷◌, arith, address_eq, if◌then◌else◌,
}
use lld_or1k.Base.Table.{find, set}
use lld_or1k.Core.Atom.{
  Address, Memory, DefinedAtom, defined_atom, as_tentative, type_cstring, perm_r, by_content,
}
use lld_or1k.Core.Outcome.{ok, fatal_error}
use lld_or1k.Core.SymbolTable.Collide.{use_new, dup_def}
use lld_or1k.Core.SymbolTable.Content.{
  SameContent, same_content-SameContent, get_hash_value, get_hash_value-same_content, AllDistinct,
  AddByContent, add_by_content-AllDistinct,
}
use lld_or1k.Core.SymbolTable.History.Keeps.{replacement-ends, replacement-find_by_name}
use lld_or1k.Core.SymbolTable.History.{Built, start, add_step}
use lld_or1k.Core.SymbolTable.Merging.{dup_def-flip, use_new-conflicts, conflicts, flip}
use lld_or1k.Core.SymbolTable.Strength.{strength, find_by_name-strength}
use lld_or1k.Core.SymbolTable.{
  SymbolTable, empty_table, add, find_by_name, replacement, is_coalesced_away, same_content,
  add_by_content, is_equal,
}
use lld_or1k.Core.Tests.Samples.{context, memory, function}

-- The run 11, 13, 12: the definition stands at last, and both other atoms lead to it.
abbrev pub after_three : SymbolTable
after_three = record {
  replaced_atoms = (11, 13) ∷ (13, 12) ∷ [];
  name_table = ("f", 12) ∷ [];
  group_table = [];
  content_table = [];
}

pub built : Built memory context (12 ∷ 13 ∷ 11 ∷ []) (12 ∷ 13 ∷ 11 ∷ []) after_three
unfolding add find set
built = add_step 12 (add_step 13 (add_step 11 start refl refl) refl refl) refl refl

replacement-ends_example :
    (r : Address) × (replacement 11 after_three ≡ some r)
    × (is_coalesced_away r after_three ≡ false)
replacement-ends_example = replacement-ends memory context after_three 11 built

replacement-find_by_name_example :
    (r : Address) × (find_by_name "f" after_three ≡ some r)
    × (replacement 11 after_three ≡ some r)
    × (is_coalesced_away r after_three ≡ false)
replacement-find_by_name_example = replacement-find_by_name memory context after_three 11 built refl

find_by_name-strength_example : strength (memory 13) ≤ strength (memory 12)
unfolding find
find_by_name-strength_example =
    find_by_name-strength memory context (λ e n b. refl) after_three 13 12 built refl refl

use_new-conflicts_example :
    (use_new false (memory 10) (memory 12) ≡ fatal_error)
    ↔ (conflicts (memory 10) (memory 12) ≡ true)
use_new-conflicts_example = use_new-conflicts (memory 10) (memory 12)

-- A tentative definition of eight bytes and a strong one of four.
abbrev tentative_f : DefinedAtom
tentative_f = record (function "f" []) { merge = as_tentative; section_size = 8 }

tentative_first :
    dup_def false (defined_atom tentative_f) (defined_atom (function "f" [])) ≡ ok true
unfolding dup_def
tentative_first = refl

dup_def-flip_example :
    dup_def false (defined_atom (function "f" [])) (defined_atom tentative_f)
    ≡ flip (dup_def false (defined_atom tentative_f) (defined_atom (function "f" [])))
dup_def-flip_example = dup_def-flip tentative_f (function "f" []) (λ e. cc) (omega arith)

-- A nameless constant of two bytes, in the section `name`.
abbrev constant : String → DefinedAtom
constant name = record (function "" []) {
  size = 2;
  content_type = type_cstring;
  permissions = perm_r;
  merge = by_content;
  custom_section_name = name;
  raw_content = 65 ∷ 0 ∷ [];
}

same_content_example :
    (same_content (constant "a") (constant "b") ≡ true) ↔ SameContent (constant "a") (constant "b")
same_content_example = same_content-SameContent (constant "a") (constant "b") refl refl

get_hash_value_example :
    get_hash_value (λ size kind range. size + range) length (constant "a")
    ≡ get_hash_value (λ size kind range. size + range) length (constant "b")
unfolding same_content
get_hash_value_example =
    get_hash_value-same_content (λ size kind range. size + range) length (constant "a")
      (constant "b") refl refl refl

-- 20 and 21 hold the same string, and 22 another.
abbrev constants : Memory
constants a =
    if nat_eq a 22
    then defined_atom (record (constant "c") { raw_content = 7 ∷ 0 ∷ [] })
    else defined_atom (constant "a")

abbrev with_constants : SymbolTable
with_constants = record empty_table { content_table = 22 ∷ 20 ∷ [] }

constants_differ : AllDistinct constants with_constants.content_table
unfolding is_equal same_content
constants_differ = (
  λ e h. elim (contains-cons e 20 [] h) [ inl same ↦ rw same | inr none_left ↦ cc ],
  (λ e h. cc, tt),
)

add_by_content_example :
    AddByContent constants 21 with_constants (add_by_content constants 21 with_constants)
    × AllDistinct constants (add_by_content constants 21 with_constants).1.content_table
add_by_content_example =
    add_by_content-AllDistinct constants 21 with_constants (constant "a", refl, refl)
      (
        (record (constant "c") { raw_content = 7 ∷ 0 ∷ [] }, refl, refl),
        ((constant "a", refl, refl), tt),
      )
      constants_differ
