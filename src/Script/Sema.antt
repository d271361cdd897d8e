-- ===== src/Script/Sema.antt =====
-- `Sema` of lib/ReaderWriter/LinkerScript.cpp: the layout that a script describes. An `int` that may
-- be -1 is an option. `none` as the answer of a comparison is a failed assertion.
pub mod Caches
pub mod Delivery
pub mod Rules
pub mod Order
use lld_or1k.Base.{
  ℕ, zero, suc, ◌+◌, ◌≡◌, ◌↔◌, Bool, true, false, ◌||◌, ◌&&◌, not, Option, none, some, List, [],
  ◌∷◌, ◌++◌, nat_eq, ltb, length, get_elem?, Eq, ◌==◌, if◌then◌else◌, arith, contains, address_eq,
}
use lld_or1k.Base.Text.{Text, codes, same_text, same_text_iff, text_eq}
use lld_or1k.Base.Table.{Table, find, set}
use lld_or1k.Script.Ast.{
  SymbolAssignment, InputSection, InputSections, input_section_name, sorted_group, no_sections,
  section_then, InputSectionsCmd, OutputSectionCommand, assignment, input_sections,
  OutputSectionDescription, SectionsCommand, symbol_assignment, output_section, section_entry,
  Command, sections, WildcardSortMode, na, by_alignment, by_alignment_and_name, by_init_priority,
  by_name, by_name_and_alignment, none_mode,
}
use lld_or1k.Script.Expression.{Expression, Value, value, eval_expr}
use lld_or1k.Script.Wildcard.{wildcard_match}

-- Sema::SectionKey with SectionKeyEq
pub record SectionKey : Type 0 where
  pub archive_path : Text
  pub member_path : Text
  pub section_name : Text

abbrev pub same_key : SectionKey → SectionKey → Bool
same_key k l =
    same_text k.archive_path l.archive_path
    && same_text k.member_path l.member_path
    && same_text k.section_name l.section_name

pub same_key_sound : (k l : SectionKey) → same_key k l ≡ true → k ≡ l
same_key_sound k l h =
    let archive = (same_text_iff k.archive_path l.archive_path).0 (ground (arith, h)) in
    let member = (same_text_iff k.member_path l.member_path).0 (ground (arith, h)) in
    let name = (same_text_iff k.section_name l.section_name).0 (ground (arith, h)) in
    λ i. record { archive_path = archive i; member_path = member i; section_name = name i }

pub same_key_complete : (k l : SectionKey) → k ≡ l → same_key k l ≡ true
same_key_complete k l h = ground (
  arith,
  (same_text_iff k.archive_path l.archive_path).1 (λ i. (h i).archive_path),
  (same_text_iff k.member_path l.member_path).1 (λ i. (h i).member_path),
  (same_text_iff k.section_name l.section_name).1 (λ i. (h i).section_name),
)

instance abbrev pub key_eq : Eq SectionKey
key_eq = record { same = same_key; same_iff = λ k l. (same_key_sound k l, same_key_complete k l) }

-- The commands that `_layoutCommands` holds.
pub data LayoutCommand : Type 0 where
  layout_output : OutputSectionDescription → LayoutCommand
  layout_input : InputSectionsCmd → LayoutCommand
  layout_name : Text → LayoutCommand
  layout_assignment : SymbolAssignment → LayoutCommand

pub record Sema : Type 0 where
  pub layout_commands : List LayoutCommand
  pub member_to_layout_order : List (Text × ℕ)
  pub member_name_wildcards : List (Text × ℕ)
  pub cache_section_order : Table SectionKey (Option ℕ)
  pub cache_expression_order : Table SectionKey (Option ℕ)
  pub delivered_exprs : List ℕ
  pub defined_symbols : List Text
  pub symbol_table : Table Text ℕ

abbrev pub new_sema : Sema
new_sema = record {
  layout_commands = [];
  member_to_layout_order = [];
  member_name_wildcards = [];
  cache_section_order = [];
  cache_expression_order = [];
  delivered_exprs = [];
  defined_symbols = [];
  symbol_table = [];
}

abbrev pub is_wildcard : ℕ → Bool
is_wildcard c = nat_eq c b'*' || nat_eq c b'?' || nat_eq c b'[' || nat_eq c b'\\'

unfoldable pub has_wildcard : Text → Bool
has_wildcard [] = false
has_wildcard (c ∷ name) = is_wildcard c || has_wildcard name

-- `linearizeAST(const InputSection *)`: what it adds to the layout.
unfoldable mutual
  pub linearize_section : InputSection → List LayoutCommand
  linearize_section (input_section_name n exclude_file) = layout_name n ∷ []
  linearize_section (sorted_group mode children) = linearize_children children

  pub linearize_children : InputSections → List LayoutCommand
  linearize_children no_sections = []
  linearize_children (section_then child rest) = linearize_section child ++ linearize_children rest

-- A name with a wildcard goes to the one list, another that is not empty to the other.
abbrev pub register_as : Bool → Text → ℕ → Sema → Sema
register_as true name id s = record s {
  member_name_wildcards = s.member_name_wildcards ++ (name, id) ∷ [];
}
register_as false [] id s = s
register_as false (c ∷ name) id s = record s {
  member_to_layout_order = s.member_to_layout_order ++ (c ∷ name, id) ∷ [];
}

abbrev pub register_member : InputSectionsCmd → Sema → Sema
register_member cmd s =
    register_as (has_wildcard cmd.member_name) cmd.member_name (length s.layout_commands) s

abbrev pub push_layout : List LayoutCommand → Sema → Sema
push_layout cs s = record s { layout_commands = s.layout_commands ++ cs }

-- `linearizeAST(const InputSectionsCmd *)`
unfoldable pub linearize_input_sections : InputSectionsCmd → Sema → Sema
unfolding has_wildcard linearize_section
linearize_input_sections cmd s =
    push_layout (layout_input cmd ∷ linearize_children cmd.sections) (register_member cmd s)

unfoldable pub linearize_output_commands : List OutputSectionCommand → Sema → Sema
unfolding linearize_input_sections
linearize_output_commands [] s = s
linearize_output_commands (assignment a ∷ cs) s =
    linearize_output_commands cs (push_layout (layout_assignment a ∷ []) s)
linearize_output_commands (input_sections cmd ∷ cs) s =
    linearize_output_commands cs (linearize_input_sections cmd s)

-- `linearizeAST(const Sections *)`
unfoldable pub linearize_sections : List SectionsCommand → Sema → Sema
unfolding linearize_output_commands
linearize_sections [] s = s
linearize_sections (symbol_assignment a ∷ cs) s =
    linearize_sections cs (push_layout (layout_assignment a ∷ []) s)
linearize_sections (output_section d ∷ cs) s =
    linearize_sections cs
      (linearize_output_commands d.commands (push_layout (layout_output d ∷ []) s))
linearize_sections (section_entry n ∷ cs) s = linearize_sections cs s

unfoldable pub perform_script : List Command → Sema → Sema
unfolding linearize_sections
perform_script [] s = s
perform_script (sections cs ∷ commands) s = perform_script commands (linearize_sections cs s)
perform_script (_ ∷ commands) s = perform_script commands s

unfoldable pub perform : List (List Command) → Sema → Sema
unfolding perform_script
perform [] s = s
perform (script ∷ scripts) s = perform scripts (perform_script script s)

abbrev pub drop_layout : ℕ → List LayoutCommand → List LayoutCommand
drop_layout zero l = l
drop_layout (suc n) [] = []
drop_layout (suc n) (c ∷ l) = drop_layout n l

-- `unordered_map::insert`, which keeps an entry that is there.
abbrev pub insert_new :
    SectionKey → Option ℕ → Table SectionKey (Option ℕ) → Table SectionKey (Option ℕ)
insert_new k v t = elim (find k t) [ some old ↦ t | none ↦ set k v t ]

-- The name of the last output section among the commands, the latest first.
abbrev pub last_output : List LayoutCommand → Text → Text
last_output [] name = name
last_output (layout_output d ∷ cs) name = last_output cs d.section_name
last_output (layout_input cmd ∷ cs) name = last_output cs name
last_output (layout_name n ∷ cs) name = last_output cs name
last_output (layout_assignment a ∷ cs) name = last_output cs name

abbrev pub take_layout : ℕ → List LayoutCommand → List LayoutCommand
take_layout zero l = []
take_layout (suc n) [] = []
take_layout (suc n) (c ∷ l) = c ∷ take_layout n l

-- The assignments behind the last input section among the commands, in the script's order.
abbrev pub trailing_assignments : List LayoutCommand → List SymbolAssignment → List SymbolAssignment
trailing_assignments [] made = made
trailing_assignments (layout_assignment a ∷ cs) made = trailing_assignments cs (made ++ a ∷ [])
trailing_assignments (layout_name n ∷ cs) made = trailing_assignments cs []
trailing_assignments (layout_input cmd ∷ cs) made = trailing_assignments cs made
trailing_assignments (layout_output d ∷ cs) made = trailing_assignments cs made

-- What `getLayoutOrder` returns and keeps for what its loops found.
abbrev pub remember : Bool → SectionKey → Sema → Option (ℕ × ℕ) → Option ℕ × Sema
remember true key s (some (order, expr_order)) = (
  some order,
  record s { cache_section_order = insert_new key (some order) s.cache_section_order },
)
remember false key s (some (order, expr_order)) = (
  some expr_order,
  record s { cache_expression_order = insert_new key (some expr_order) s.cache_expression_order },
)
remember coarse key s none = (
  none,
  record s {
    cache_section_order = insert_new key none s.cache_section_order;
    cache_expression_order = insert_new key none s.cache_expression_order;
  },
)

-- `getExprs` behind its layout order.
abbrev pub deliver : Option ℕ → Sema → List SymbolAssignment × Sema
deliver none s = ([], s)
deliver (some n) s = elim (contains n s.delivered_exprs) [
  | true ↦ ([], s)
  | false ↦ (
    trailing_assignments (take_layout n s.layout_commands) [],
    record s { delivered_exprs = n ∷ s.delivered_exprs },
  )
]

-- What stands behind a name in memory, and what `equal_range` finds, in its order.
module _ (behind : Text → Text) (equal_range : List (Text × ℕ) → Text → List ℕ) where
  -- A run of `wildcardMatch` that the language leaves undefined is taken as no match.
  unfoldable pub wildcard : Text → Text → Bool
  unfolding wildcard_match
  wildcard pattern name = elim (wildcard_match (behind name) pattern name) [
    | none ↦ false
    | some b ↦ b
  ]

  unfoldable pub match_names : List LayoutCommand → ℕ → Text → Option ℕ
  unfolding wildcard
  match_names (layout_name n ∷ rest) id name = elim (wildcard n name) [
    | true ↦ some id
    | false ↦ match_names rest (suc id) name
  ]
  match_names _ id name = none

  unfoldable pub match_section_name : List LayoutCommand → ℕ → SectionKey → Option ℕ
  unfolding match_names
  match_section_name layout id key = elim (get_elem? layout id) [
    | some (layout_input cmd) ↦ elim (wildcard cmd.archive_name key.archive_path) [
      | true ↦ match_names (drop_layout (suc id) layout) (suc id) key.section_name
      | false ↦ none
    ]
    | _ ↦ none
  ]

  -- The loop over the orders of the rules that name the file, and the one over the wildcards.
  unfoldable pub first_exact : List LayoutCommand → SectionKey → List ℕ → Option (ℕ × ℕ)
  unfolding match_section_name
  first_exact layout key [] = none
  first_exact layout key (order ∷ orders) = elim (match_section_name layout order key) [
    | some expr_order ↦ some (order, expr_order)
    | none ↦ first_exact layout key orders
  ]

  unfoldable pub first_wildcard : List LayoutCommand → SectionKey → List (Text × ℕ) → Option (ℕ × ℕ)
  unfolding match_section_name
  first_wildcard layout key [] = none
  first_wildcard layout key ((pattern, order) ∷ rules) = elim (wildcard pattern key.member_path) [
    | false ↦ first_wildcard layout key rules
    | true ↦ elim (match_section_name layout order key) [
      | some expr_order ↦ some (order, expr_order)
      | none ↦ first_wildcard layout key rules
    ]
  ]

  -- Both loops of `getLayoutOrder`.
  unfoldable pub search_orders : Sema → SectionKey → Option (ℕ × ℕ)
  unfolding first_exact first_wildcard
  search_orders s key =
      elim (first_exact s.layout_commands key
        (equal_range s.member_to_layout_order key.member_path)) [
          | some orders ↦ some orders
          | none ↦ first_wildcard s.layout_commands key s.member_name_wildcards
        ]

  unfoldable pub get_layout_order : Bool → SectionKey → Sema → Option ℕ × Sema
  unfolding search_orders
  get_layout_order coarse key s =
      elim (find key (if coarse then s.cache_section_order else s.cache_expression_order)) [
        | some answer ↦ (answer, s)
        | none ↦ remember coarse key s (search_orders s key)
      ]

  unfoldable pub get_output_section : SectionKey → Sema → Text × Sema
  unfolding get_layout_order
  get_output_section key s =
      let (order, s1) = get_layout_order true key s in
      elim order [
        | none ↦ ([], s1)
        | some n ↦ (last_output (take_layout n s1.layout_commands) [], s1)
      ]

  unfoldable pub get_exprs : SectionKey → Sema → List SymbolAssignment × Sema
  unfolding get_layout_order
  get_exprs key s = let (order, s1) = get_layout_order false key s in deliver order s1

-- `Sema::evalExpr` for the position `cur_pos`: the error or the new position.
unfoldable pub eval_assignment : SymbolAssignment → ℕ → Sema → (Value × ℕ) × Sema
unfolding eval_expr
eval_assignment a cur_pos s =
    let s1 = record s { symbol_table = set (codes ".") cur_pos s.symbol_table } in
    elim (eval_expr s1.symbol_table a.expression) [
      | value result ↦ elim (same_text a.symbol (codes ".")) [
        | true ↦ ((value result, result), s1)
        | false ↦ (
          (value result, cur_pos),
          record s1 { symbol_table = set a.symbol result s1.symbol_table },
        )
      ]
      | error ↦ ((error, cur_pos), s1)
    ]
