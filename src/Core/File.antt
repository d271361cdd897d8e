-- ===== src/Core/File.antt =====
-- The input files as the resolver sees them: include/lld/Core/File.h, ArchiveLibraryFile.h,
-- SharedLibraryFile.h and Node.h, and `FileArchive::find` of lib/ReaderWriter/FileArchive.cpp.
-- A file is known by its address, a number. What a file holds is read by a reader, or by LLVM's
-- archive library, and is given as data.
pub mod Members
use lld_or1k.Base.{
  ℕ, Bool, not, ◌&&◌, Option, none, some, List, ◌∷◌, String, contains, address_eq, name_eq,
  if◌then◌else◌,
}
use lld_or1k.Base.Table.{Table, find}
use lld_or1k.Core.Atom.{Address}

-- File::Kind
pub data FileKind : Type 0 where
  object archive_library shared_library_file : FileKind

abbrev pub FileAddress : Type 0
FileAddress = ℕ

-- `symbol_member_map` gives the start of the member that defines a symbol; `instantiate` reads the
-- file of a member, and `is_data_symbol` asks the member's own symbol table.
pub record File : Type 0 where
  pub kind : FileKind
  pub parses : Bool
  pub defined : List Address
  pub undefined : List Address
  pub shared_library : List Address
  pub absolute : List Address
  pub symbol_member_map : Table String ℕ
  pub instantiate : ℕ → Option FileAddress
  pub is_data_symbol : ℕ → String → Bool
  pub exports : String → Bool → Option Address

-- Node and GroupEnd
pub data Node : Type 0 where
  file_node : FileAddress → Node
  group_end : ℕ → Node

-- FileArchive::find. The state is `_membersInstantiated`; whether the member was read ahead in
-- another thread does not show in the result.
unfoldable pub archive_find : File → String → Bool → List ℕ → Option FileAddress × List ℕ
archive_find f name data_only instantiated = elim (find name f.symbol_member_map) [
  | none ↦ (none, instantiated)
  | some start ↦
      if contains start instantiated
      then (none, instantiated)
      else if data_only && not (f.is_data_symbol start name)
      then (none, instantiated)
      else (f.instantiate start, start ∷ instantiated)
]
