-- ===== src/Script/Tests/Layouts.antt =====
-- The layout of a small script.
use lld_or1k.Base.{
  ℕ, ◌≡◌, refl, Bool, true, false, ◌||◌, ◌&&◌, none, some, List, [], ◌∷◌, arith, ltb, nat_eq,
  if◌then◌else◌,
}
use lld_or1k.Base.Text.{Text, codes, same_text}
use lld_or1k.Base.Table.{find, set}
use lld_or1k.Script.Ast.{
  SymbolAssignment, simple, default, na, by_name, input_section_name, no_sections, section_then,
  InputSectionsCmd, assignment, input_sections, OutputSectionDescription, c_none, output_section,
  Command, sections,
}
use lld_or1k.Script.Expression.{constant}
use lld_or1k.Script.Sema.{
  SectionKey, Sema, new_sema, perform, search_orders, get_layout_order, get_exprs,
  get_output_section,
}
use lld_or1k.Script.Sema.Caches.{Coherent, SameRules, answer_of, get_layout_order-answer}
use lld_or1k.Script.Sema.Delivery.{get_exprs-once}
use lld_or1k.Script.Sema.Rules.{Filed, Filed-perform, Coherent-perform}
use lld_or1k.Script.Sema.Order.{less}
use lld_or1k.Script.Sema.Order.Laws.{less-asym}

abbrev no_memory : Text → Text
no_memory n = []

-- The orders that are filed under a name, in the list's order.
abbrev orders_of : List (Text × ℕ) → Text → List ℕ
orders_of [] n = []
orders_of ((m, order) ∷ rules) n =
    if same_text m n then order ∷ orders_of rules n else orders_of rules n

abbrev before : Text → Text → Bool
before [] [] = false
before [] (d ∷ t) = true
before (c ∷ s) [] = false
before (c ∷ s) (d ∷ t) = ltb c d || nat_eq c d && before s t

before-asym : (s t : Text) → before s t ≡ true → before t s ≡ false
before-asym [] [] h = refl
before-asym [] (d ∷ t) h = refl
before-asym (c ∷ s) [] h = cc h
before-asym (c ∷ s) (d ∷ t) h = ground (arith, h, before-asym s t)

abbrev mark : SymbolAssignment
mark = record {
  expression = constant 1;
  symbol = codes "m";
  assignment_kind = simple;
  assignment_visibility = default;
}

-- `*:*(NAME)`
abbrev rule : Text → InputSectionsCmd
rule n = record {
  member_name = codes "*";
  archive_name = codes "*";
  keep = false;
  file_sort_mode = by_name;
  archive_sort_mode = na;
  sections = section_then (input_section_name n false) no_sections;
}

abbrev output : Text → OutputSectionDescription
output n = record {
  section_name = n;
  address = none;
  align = none;
  sub_align = none;
  at = none;
  fill_expr = none;
  fill_stream = [];
  align_with_input = false;
  discard = false;
  constraint = c_none;
  commands = assignment mark ∷ input_sections (rule n) ∷ [];
}

abbrev scripts : List (List Command)
scripts =
    (sections (output_section (output (codes ".t")) ∷ output_section (output (codes ".d")) ∷ [])
      ∷ [])
    ∷ []

abbrev sema : Sema
sema = perform scripts new_sema

abbrev key : Text → Text → SectionKey
key member section = record {
  archive_path = codes "l";
  member_path = member;
  section_name = section;
}

abbrev text_of_a : SectionKey
text_of_a = key (codes "a") (codes ".t")

abbrev text_of_b : SectionKey
text_of_b = key (codes "b") (codes ".t")

abbrev data_of_a : SectionKey
data_of_a = key (codes "a") (codes ".d")

data_second : (get_layout_order no_memory orders_of true data_of_a sema).0 ≡ some 6
unfolding get_layout_order perform find
data_second = refl

data_output : (get_output_section no_memory orders_of data_of_a sema).0 ≡ codes ".d"
unfolding get_output_section perform find
data_output = refl

data_exprs : (get_exprs no_memory orders_of data_of_a sema).0 ≡ mark ∷ []
unfolding get_exprs perform find
data_exprs = refl

sema-Coherent : Coherent no_memory orders_of sema
sema-Coherent = Coherent-perform no_memory orders_of scripts

get_layout_order-answer_example :
    ((get_layout_order no_memory orders_of true data_of_a sema).0
      ≡ answer_of true (search_orders no_memory orders_of sema data_of_a))
    × Coherent no_memory orders_of (get_layout_order no_memory orders_of true data_of_a sema).1
    × SameRules no_memory orders_of sema
        (get_layout_order no_memory orders_of true data_of_a sema).1
get_layout_order-answer_example =
    get_layout_order-answer no_memory orders_of true data_of_a sema sema-Coherent

same_line :
    answer_of false (search_orders no_memory orders_of sema text_of_b)
    ≡ answer_of false (search_orders no_memory orders_of sema text_of_a)
unfolding search_orders perform
same_line = refl

get_exprs-once_example :
    (get_exprs no_memory orders_of text_of_b (get_exprs no_memory orders_of text_of_a sema).1).0
    ≡ []
get_exprs-once_example =
    get_exprs-once no_memory orders_of text_of_a text_of_b sema sema-Coherent same_line

text_first : (less before no_memory orders_of text_of_a data_of_a sema).0 ≡ some true
unfolding less perform find set same_text
text_first = refl

less-asym_example :
    (less before no_memory orders_of data_of_a text_of_a
      (less before no_memory orders_of text_of_a data_of_a sema).1).0
    ≡ some false
less-asym_example =
    less-asym before before-asym no_memory orders_of text_of_a data_of_a sema sema-Coherent
      text_first

Filed-perform_example : Filed (perform scripts new_sema)
Filed-perform_example = Filed-perform scripts
