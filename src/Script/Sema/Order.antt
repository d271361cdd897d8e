-- ===== src/Script/Sema/Order.antt =====
-- `Sema::less` of lib/ReaderWriter/LinkerScript.cpp with `localCompare`. `none` is a failed assertion
-- or `llvm_unreachable`.
pub mod Laws
use lld_or1k.Base.{
  ℕ, Bool, true, false, ◌&&◌, ◌||◌, not, Option, none, some, List, [], ◌∷◌, ltb, nat_eq, get_elem?,
  if◌then◌else◌,
}
use lld_or1k.Base.Text.{Text, same_text}
use lld_or1k.Script.Ast.{
  InputSection, InputSections, input_section_name, sorted_group, no_sections, section_then,
  InputSectionsCmd, WildcardSortMode, na, by_alignment, by_alignment_and_name, by_init_priority,
  by_name, by_name_and_alignment, none_mode,
}
use lld_or1k.Script.Sema.{Sema, SectionKey, LayoutCommand, layout_input, wildcard, get_layout_order}

-- `lhs.compare(rhs) < 0` for two texts, what stands behind a name in memory, and `equal_range`.
module _ (text_less : Text → Text → Bool) (behind : Text → Text)
    (equal_range : List (Text × ℕ) → Text → List ℕ) where
  unfoldable pub compare_sorted_names : WildcardSortMode → Text → Text → Option Bool
  compare_sorted_names none_mode lhs rhs = some false
  compare_sorted_names na lhs rhs = some false
  compare_sorted_names by_alignment lhs rhs = none
  compare_sorted_names by_init_priority lhs rhs = none
  compare_sorted_names by_alignment_and_name lhs rhs = none
  compare_sorted_names by_name lhs rhs = some (text_less lhs rhs)
  compare_sorted_names by_name_and_alignment lhs rhs = elim (same_text lhs rhs) [
    | true ↦ none
    | false ↦ some (text_less lhs rhs)
  ]

  -- `sortedGroupContains`, for a child and for a group's children.
  unfoldable mutual
    unfolding wildcard

    pub section_contains : InputSection → Text → Bool
    section_contains (input_section_name n exclude_file) name = wildcard behind equal_range n name
    section_contains (sorted_group mode children) name = sorted_group_contains children name

    pub sorted_group_contains : InputSections → Text → Bool
    sorted_group_contains no_sections name = false
    sorted_group_contains (section_then child rest) name =
        section_contains child name || sorted_group_contains rest name

  -- The loop of `localCompare` over the input sections.
  unfoldable pub compare_in_rule : InputSections → Text → Text → Option Bool
  unfolding wildcard sorted_group_contains compare_sorted_names
  compare_in_rule no_sections lhs rhs = none
  compare_in_rule (section_then (input_section_name n exclude_file) rest) lhs rhs =
      elim (wildcard behind equal_range n rhs) [
        | true ↦ some false
        | false ↦ elim (wildcard behind equal_range n lhs) [
          | true ↦ some true
          | false ↦ compare_in_rule rest lhs rhs
        ]
      ]
  compare_in_rule (section_then (sorted_group mode children) rest) lhs rhs =
      let a = sorted_group_contains children lhs in
      let b = sorted_group_contains children rhs in
      elim (a && not b) [
        | true ↦ some false
        | false ↦ elim (b && not a) [
          | true ↦ some true
          | false ↦ elim (not a && not a) [
            | true ↦ compare_in_rule rest lhs rhs
            | false ↦ compare_sorted_names mode lhs rhs
          ]
        ]
      ]

  unfoldable pub compare_by_rule : InputSectionsCmd → SectionKey → SectionKey → Option Bool
  unfolding compare_in_rule
  compare_by_rule cmd lhs rhs = elim (same_text lhs.archive_path rhs.archive_path) [
    | false ↦ compare_sorted_names cmd.archive_sort_mode lhs.archive_path rhs.archive_path
    | true ↦ elim (same_text lhs.member_path rhs.member_path) [
      | false ↦ compare_sorted_names cmd.file_sort_mode lhs.member_path rhs.member_path
      | true ↦ compare_in_rule cmd.sections lhs.section_name rhs.section_name
    ]
  ]

  unfoldable pub local_compare : Sema → ℕ → SectionKey → SectionKey → Option Bool
  unfolding compare_by_rule
  local_compare s order lhs rhs = elim (get_elem? s.layout_commands order) [
    | some (layout_input cmd) ↦ compare_by_rule cmd lhs rhs
    | _ ↦ none
  ]

  -- `less`, from the two orders on.
  abbrev pub less_at : Sema → Option ℕ → Option ℕ → SectionKey → SectionKey → Option Bool
  less_at s none none lhs rhs = some false
  less_at s none (some b) lhs rhs = some false
  less_at s (some a) none lhs rhs = some true
  less_at s (some a) (some b) lhs rhs = elim (nat_eq a b) [
    | true ↦ local_compare s a lhs rhs
    | false ↦ some (ltb a b)
  ]

  unfoldable pub less : SectionKey → SectionKey → Sema → Option Bool × Sema
  unfolding get_layout_order local_compare
  less lhs rhs s =
      let (a, s1) = get_layout_order behind equal_range true lhs s in
      let (b, s2) = get_layout_order behind equal_range true rhs s1 in (less_at s2 a b lhs rhs, s2)
