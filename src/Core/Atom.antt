-- ===== src/Core/Atom.antt =====
-- The atoms of the link graph: include/lld/Core/Atom.h, DefinedAtom.h, UndefinedAtom.h,
-- SharedLibraryAtom.h, AbsoluteAtom.h and Reference.h, with lib/Core/DefinedAtom.cpp.
-- An atom is known by its address, a number: `const Atom *` is an `Address`, and a `Memory` says
-- which object stands there. The class hierarchy is a data type with a constructor for each class.
pub mod Permissions
pub use Permissions.*
use lld_or1k.Base.{
  ℕ, ◌≡◌, refl, Bool, true, false, Option, none, some, List, [], String, nat_eq, ◌&&◌, ◌||◌, ltb,
  if◌then◌else◌, arith,
}

abbrev pub Address : Type 0
Address = ℕ

-- Atom::Definition
pub data Definition : Type 0 where
  regular absolute undefined shared_library : Definition

-- Atom::Scope
pub data Scope : Type 0 where
  translation_unit linkage_unit global : Scope

-- DefinedAtom::Merge
pub data Merge : Type 0 where
  merge_no as_tentative as_weak as_weak_and_address_used : Merge
  same_name_and_size by_largest_section by_content : Merge

-- DefinedAtom::SectionChoice
pub data SectionChoice : Type 0 where
  based_on_content custom_preferred custom_required : SectionChoice

-- DefinedAtom::DeadStripKind
pub data DeadStripKind : Type 0 where
  strip_normal strip_never strip_always : DeadStripKind

-- UndefinedAtom::CanBeNull
pub data CanBeNull : Type 0 where
  never at_runtime at_buildtime : CanBeNull

-- Reference::KindNamespace
pub data KindNamespace : Type 0 where
  all testing elf coff mach_o : KindNamespace

-- SharedLibraryAtom::Type
pub data SharedLibraryType : Type 0 where
  unknown code data_symbol : SharedLibraryType

pub record Reference : Type 0 where
  pub kind_namespace : KindNamespace
  pub kind_value : ℕ
  pub offset_in_atom : ℕ
  pub target : Address

-- The enumerators `kindLayoutAfter`, `kindGroupChild`, `kindAssociate`.
abbrev pub kind_layout_after : ℕ
kind_layout_after = 1

abbrev pub kind_group_child : ℕ
kind_group_child = 2

abbrev pub kind_associate : ℕ
kind_associate = 3

-- `file` is the address of the owning file.
pub record DefinedAtom : Type 0 where
  pub name : String
  pub file : ℕ
  pub ordinal : ℕ
  pub size : ℕ
  pub section_size : ℕ
  pub scope : Scope
  pub merge : Merge
  pub content_type : ContentType
  pub permissions : ContentPermissions
  pub section_choice : SectionChoice
  pub custom_section_name : String
  pub dead_strip : DeadStripKind
  pub raw_content : List ℕ
  pub references : List Reference

pub record UndefinedAtom : Type 0 where
  pub name : String
  pub file : ℕ
  pub can_be_null : CanBeNull
  pub fallback : Option Address

pub record SharedLibraryAtom : Type 0 where
  pub name : String
  pub file : ℕ
  pub load_name : String
  pub can_be_null_at_runtime : Bool
  pub type : SharedLibraryType

pub record AbsoluteAtom : Type 0 where
  pub name : String
  pub file : ℕ
  pub value : ℕ
  pub scope : Scope

pub data Atom : Type 0 where
  defined_atom : DefinedAtom → Atom
  undefined_atom : UndefinedAtom → Atom
  shared_library_atom : SharedLibraryAtom → Atom
  absolute_atom : AbsoluteAtom → Atom

abbrev pub Memory : Type 0
Memory = Address → Atom

abbrev pub atom_name : Atom → String
atom_name (defined_atom d) = d.name
atom_name (undefined_atom u) = u.name
atom_name (shared_library_atom s) = s.name
atom_name (absolute_atom a) = a.name

abbrev pub definition : Atom → Definition
definition (defined_atom d) = regular
definition (undefined_atom u) = undefined
definition (shared_library_atom s) = shared_library
definition (absolute_atom a) = absolute

-- isa<UndefinedAtom>(atom)
abbrev pub is_undefined : Atom → Bool
is_undefined (undefined_atom u) = true
is_undefined _ = false

-- `for (const Reference *r : *defAtom)`; the other classes have no references.
abbrev pub references_of : Atom → List Reference
references_of (defined_atom d) = d.references
references_of _ = []

-- The enumerators' order, by which `canBeNull` is compared.
abbrev pub null_rank : CanBeNull → ℕ
null_rank never = 0
null_rank at_runtime = 1
null_rank at_buildtime = 2

abbrev pub is_kind : KindNamespace → Bool
is_kind all = true
is_kind _ = false

-- A reference of the namespace `all` with the given kind value.
abbrev pub has_kind : ℕ → Reference → Bool
has_kind k r = is_kind r.kind_namespace && nat_eq r.kind_value k

-- DefinedAtom::isGroupParent
abbrev pub is_group_parent : DefinedAtom → Bool
is_group_parent d = is_group_type d.content_type

-- DefinedAtom::occupiesDiskSpace
pub occupies_disk_space : DefinedAtom → Bool
occupies_disk_space d = is_on_disk d.content_type
