-- ===== src/Core/SymbolTable.antt =====
-- include/lld/Core/SymbolTable.h and lib/Core/SymbolTable.cpp: the state and the operations.
-- Each method takes the table and returns it; its name is the source's. Messages to the error
-- stream are left out. A hash table is an association list, a `DenseSet` a list.
pub mod Collide
pub mod History
pub mod Merging
pub mod Content
pub mod Strength
pub mod Effect
pub mod Replacement
use lld_or1k.Base.{
  ℕ, zero, suc, ◌-◌, ◌^◌, Bool, true, false, not, ◌&&◌, ◌||◌, Option, none, some, List, [], ◌∷◌,
  String, nat_eq, if◌then◌else◌, ◌==◌, length, address_eq, name_eq,
}
use lld_or1k.Base.Table.{Table, find, set}
use lld_or1k.Core.Atom.{
  Address, Memory, Atom, defined_atom, undefined_atom, shared_library_atom, absolute_atom,
  DefinedAtom, Scope, translation_unit, Merge, as_tentative, by_content, custom_required,
  SectionChoice, based_on_content, custom_preferred, perm_r, ContentPermissions, type_index,
  atom_name, is_undefined,
}
use lld_or1k.Core.Context.{LinkingContext}
use lld_or1k.Core.Outcome.{Outcome, ok, fatal_error, assertion_failure, ◌>>=◌}
use Collide.{use_new}

pub record SymbolTable : Type 0 where
  pub replaced_atoms : Table Address Address
  pub name_table : Table String Address
  pub group_table : Table String Address
  pub content_table : List Address

abbrev pub empty_table : SymbolTable
empty_table = record { replaced_atoms = []; name_table = []; group_table = []; content_table = [] }

abbrev pub find_by_name : String → SymbolTable → Option Address
find_by_name name t = find name t.name_table

-- `_replacedAtoms.count(atom) > 0`
unfoldable pub is_coalesced_away : Address → SymbolTable → Bool
is_coalesced_away a t = elim (find a t.replaced_atoms) [ none ↦ false | some _ ↦ true ]

unfoldable pub add_replacement : Address → Address → SymbolTable → SymbolTable
add_replacement old new t = record t { replaced_atoms = set old new t.replaced_atoms }

-- The loop of `replacement`, on fuel; `none` says that the fuel ran out.
unfoldable pub chase : ℕ → Table Address Address → Address → Option Address
chase zero m a = none
chase (suc fuel) m a = elim (find a m) [ none ↦ some a | some b ↦ chase fuel m b ]

-- `replacement`, with fuel for one pass over every entry.
unfoldable pub replacement : Address → SymbolTable → Option Address
unfolding chase
replacement a t = chase (suc (length t.replaced_atoms)) t.replaced_atoms a

-- The end of `addByName`: the hook, and the two tables.
unfoldable pub coalesce :
    LinkingContext → String → Address → Address → Bool → SymbolTable → SymbolTable
unfolding add_replacement
coalesce ctx name existing new chosen t =
    if ctx.notify_coalesce existing new chosen
    then add_replacement existing new (record t { name_table = set name new t.name_table })
    else add_replacement new existing t

abbrev pub is_by_content : Merge → Bool
is_by_content by_content = true
is_by_content _ = false

abbrev pub is_as_tentative : Merge → Bool
is_as_tentative as_tentative = true
is_as_tentative _ = false

abbrev pub is_tentative : Atom → Bool
is_tentative (defined_atom d) = is_as_tentative d.merge
is_tentative _ = false

abbrev pub is_local : Scope → Bool
is_local translation_unit = true
is_local _ = false

abbrev pub is_empty : String → Bool
is_empty s = s == ""

abbrev pub is_custom_required : SectionChoice → Bool
is_custom_required custom_required = true
is_custom_required _ = false

abbrev pub choice_index : SectionChoice → ℕ
choice_index based_on_content = 0
choice_index custom_preferred = 1
choice_index custom_required = 2

abbrev pub is_read_only : ContentPermissions → Bool
is_read_only perm_r = true
is_read_only _ = false

-- `memcmp(lc, rc, lc.size()) == 0`. Where `rc` ends first the source reads past it; here the two
-- then count as different.
unfoldable pub memcmp_equal : List ℕ → List ℕ → Bool
memcmp_equal [] rc = true
memcmp_equal (x ∷ lc) [] = false
memcmp_equal (x ∷ lc) (y ∷ rc) = nat_eq x y && memcmp_equal lc rc

-- AtomMappingInfo::isEqual after the tests on the two pointers.
unfoldable pub same_content : DefinedAtom → DefinedAtom → Bool
unfolding memcmp_equal
same_content l r =
    nat_eq (type_index l.content_type) (type_index r.content_type)
    && nat_eq l.size r.size
    && nat_eq (choice_index l.section_choice) (choice_index r.section_choice)
    && (not (is_custom_required l.section_choice) || l.custom_section_name == r.custom_section_name)
    && memcmp_equal l.raw_content r.raw_content

abbrev compare_atoms : Atom → Atom → Bool
unfolding same_content
compare_atoms (defined_atom d) (defined_atom e) = same_content d e
compare_atoms _ _ = false

-- What the hashes are made of agrees.
unfoldable pub same_hash : Atom → Atom → Bool
unfolding memcmp_equal
same_hash (defined_atom d) (defined_atom e) =
    nat_eq d.size e.size
    && nat_eq (type_index d.content_type) (type_index e.content_type)
    && nat_eq (length d.raw_content) (length e.raw_content)
    && memcmp_equal d.raw_content e.raw_content
same_hash _ _ = false

-- The null pointer and the pointer -1 mark the free slots of a `DenseSet`.
abbrev pub is_key : Address → Bool
is_key a = not (nat_eq a 0) && not (nat_eq a (2 ^ 64 - 1))

module _ (mem : Memory) where
  -- AtomMappingInfo::isEqual
  unfoldable pub is_equal : Address → Address → Bool
  unfolding same_content
  is_equal l r = if l == r then true else is_key l && is_key r && compare_atoms (mem l) (mem r)

  -- LLVM's set compares only atoms with one hash. `getHashValue` makes it of the size, the content type
  -- and all bytes; atoms that differ in these are taken to differ in the hash.
  unfoldable pub same_content_key : Address → Address → Bool
  unfolding same_hash is_equal
  same_content_key a b = same_hash (mem a) (mem b) && is_equal a b

  -- `_contentTable.find(&newAtom)`
  unfoldable pub find_content : Address → List Address → Option Address
  find_content a [] = none
  find_content a (b ∷ bs) = if same_content_key a b then some b else find_content a bs

  unfoldable pub add_by_content : Address → SymbolTable → Bool × SymbolTable
  unfolding find_content add_replacement
  add_by_content new t = elim (find_content new t.content_table) [
    | none ↦ (true, record t { content_table = new ∷ t.content_table })
    | some existing ↦ (false, add_replacement new existing t)
  ]

  unfoldable pub is_defined : String → SymbolTable → Bool
  is_defined name t = elim (find_by_name name t) [
    | none ↦ false
    | some a ↦ not (is_undefined (mem a))
  ]

  -- Addresses are told apart before the atoms' attributes are read.
  unfoldable pub add_by_name : LinkingContext → Address → SymbolTable → Outcome (Bool × SymbolTable)
  unfolding use_new coalesce
  add_by_name ctx new t =
      let name = atom_name (mem new) in
      if is_empty name then assertion_failure else elim (find_by_name name t) [
        | none ↦ ok (true, record t { name_table = set name new t.name_table })
        | some existing ↦
            if existing == new
            then ok (false, t)
            else (use_new ctx.allow_duplicates (mem existing) (mem new) >>= λ chosen.
                ok (false, coalesce ctx name existing new chosen t))
      ]

  -- SymbolTable::add(const DefinedAtom &)
  unfoldable pub add_defined :
      LinkingContext → Address → DefinedAtom → SymbolTable → Outcome (Bool × SymbolTable)
  unfolding add_by_name add_by_content
  add_defined ctx new d t =
      if not (is_empty d.name) && not (is_local d.scope)
      then if is_by_content d.merge then assertion_failure else add_by_name ctx new t
      else if is_by_content d.merge
      then if is_empty d.name
        then if is_read_only d.permissions then ok (add_by_content new t) else ok (false, t)
        else assertion_failure
      else ok (false, t)

  -- The four overloads of SymbolTable::add.
  unfoldable pub add : LinkingContext → Address → SymbolTable → Outcome (Bool × SymbolTable)
  unfolding add_defined add_by_name
  add ctx new t = elim (mem new) [
    | defined_atom d ↦ add_defined ctx new d t
    | _ ↦ add_by_name ctx new t
  ]

  -- SymbolTable::addGroup behind its assertion that the name is not empty, which the caller's model
  -- makes.
  unfoldable pub add_group : Address → SymbolTable → Bool × SymbolTable
  unfolding add_replacement
  add_group new t =
      let name = atom_name (mem new) in
      elim (find name t.group_table) [
        | none ↦ (true, record t { group_table = set name new t.group_table })
        | some existing ↦ (false, add_replacement new existing t)
      ]

  -- SymbolTable::undefines, over the entries of the name table.
  unfoldable pub undefines_in : SymbolTable → Table String Address → List Address
  unfolding is_coalesced_away
  undefines_in t [] = []
  undefines_in t ((n, a) ∷ rest) =
      let others = undefines_in t rest in
      if is_undefined (mem a) && not (is_coalesced_away a t) then a ∷ others else others

  abbrev pub undefines : SymbolTable → List Address
  undefines t = undefines_in t t.name_table

  unfoldable pub tentative_in : Table String Address → List String
  tentative_in [] = []
  tentative_in ((n, a) ∷ rest) =
      let others = tentative_in rest in if is_tentative (mem a) then n ∷ others else others

  abbrev pub tentative_definitions : SymbolTable → List String
  tentative_definitions t = tentative_in t.name_table
