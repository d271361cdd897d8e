-- ===== src/Script/Ast.antt =====
-- The commands of include/lld/ReaderWriter/LinkerScript.h, less the expressions.
use lld_or1k.Base.{Bool, Option, List}
use lld_or1k.Base.Text.{Text}
use lld_or1k.Script.Expression.{Expression}

pub record InputPath : Type 0 where
  pub path : Text
  pub as_needed : Bool
  pub is_dashl_prefix : Bool

-- SymbolAssignment::AssignmentKind and SymbolAssignment::AssignmentVisibility
pub data AssignmentKind : Type 0 where
  simple sum sub mul div shl shr and or : AssignmentKind

pub data AssignmentVisibility : Type 0 where
  default hidden provide provide_hidden : AssignmentVisibility

pub record SymbolAssignment : Type 0 where
  pub expression : Expression
  pub symbol : Text
  pub assignment_kind : AssignmentKind
  pub assignment_visibility : AssignmentVisibility

-- The constructor of the class, which passes `kind` over.
abbrev pub new_assignment :
    Text → Expression → AssignmentKind → AssignmentVisibility → SymbolAssignment
new_assignment name expr kind visibility = record {
  expression = expr;
  symbol = name;
  assignment_kind = simple;
  assignment_visibility = visibility;
}

pub data WildcardSortMode : Type 0 where
  na by_alignment by_alignment_and_name by_init_priority by_name : WildcardSortMode
  by_name_and_alignment none_mode : WildcardSortMode

-- InputSectionName and InputSectionSortedGroup
mutual
  pub data InputSection : Type 0 where
    input_section_name : Text → Bool → InputSection
    sorted_group : WildcardSortMode → InputSections → InputSection

  pub data InputSections : Type 0 where
    no_sections : InputSections
    section_then : InputSection → InputSections → InputSections

pub record InputSectionsCmd : Type 0 where
  pub member_name : Text
  pub archive_name : Text
  pub keep : Bool
  pub file_sort_mode : WildcardSortMode
  pub archive_sort_mode : WildcardSortMode
  pub sections : InputSections

pub data OutputSectionCommand : Type 0 where
  assignment : SymbolAssignment → OutputSectionCommand
  input_sections : InputSectionsCmd → OutputSectionCommand

-- OutputSectionDescription::Constraint
pub data Constraint : Type 0 where
  c_none c_only_if_ro c_only_if_rw : Constraint

pub record OutputSectionDescription : Type 0 where
  pub section_name : Text
  pub address : Option Expression
  pub align : Option Expression
  pub sub_align : Option Expression
  pub at : Option Expression
  pub fill_expr : Option Expression
  pub fill_stream : Text
  pub align_with_input : Bool
  pub discard : Bool
  pub constraint : Constraint
  pub commands : List OutputSectionCommand

-- What `parseSections` puts into a Sections.
pub data SectionsCommand : Type 0 where
  symbol_assignment : SymbolAssignment → SectionsCommand
  output_section : OutputSectionDescription → SectionsCommand
  section_entry : Text → SectionsCommand

pub record MemoryBlock : Type 0 where
  pub name : Text
  pub attr : Text
  pub origin : Expression
  pub extent : Expression

-- The subclasses of Command that stand at the top level.
pub data Command : Type 0 where
  output : Text → Command
  output_format : List Text → Command
  output_arch : Text → Command
  input : List InputPath → Command
  group : List InputPath → Command
  entry : Text → Command
  search_dir : Text → Command
  sections : List SectionsCommand → Command
  top_assignment : SymbolAssignment → Command
  memory : List MemoryBlock → Command
  extern : List Text → Command
