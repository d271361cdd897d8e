-- ===== src/Script/Sema/Order/Laws.antt =====
-- `Sema::less` never puts two sections in front of each other.
use lld_or1k.Base.{
  ℕ, ◌≡◌, refl, sym, ap, ◌∙◌, Bool, true, false, Option, none, some, List, arith, inl, inr,
  get_elem?, Option-cases,
}
use lld_or1k.Base.Text.{Text, same_text, same_text_iff}
use lld_or1k.Script.Ast.{
  InputSections, input_section_name, sorted_group, no_sections, section_then, InputSectionsCmd,
  WildcardSortMode, na, by_alignment, by_alignment_and_name, by_init_priority, by_name,
  by_name_and_alignment, none_mode,
}
use lld_or1k.Script.Sema.{
  Sema, SectionKey, layout_input, layout_output, layout_name, layout_assignment, search_orders,
  get_layout_order,
}
use lld_or1k.Script.Sema.Caches.{Coherent, answer_of, get_layout_order-answer}
use lld_or1k.Script.Sema.Delivery.{search_orders-SameRules}
use lld_or1k.Script.Sema.Order.{
  compare_sorted_names, compare_in_rule, compare_by_rule, local_compare, less_at, less,
}

same_text-sym : (s t : Text) → same_text s t ≡ same_text t s
same_text-sym s t = ground (arith, same_text_iff s t, same_text_iff t s)

-- The order of texts is asymmetric.
module _ (text_less : Text → Text → Bool)
    (text_less-asym : (s t : Text) → text_less s t ≡ true → text_less t s ≡ false)
    (behind : Text → Text) (equal_range : List (Text × ℕ) → Text → List ℕ) where
  compare_sorted_names-asym :
      (mode : WildcardSortMode) (lhs rhs : Text)
      → compare_sorted_names text_less behind equal_range mode lhs rhs ≡ some true
      → compare_sorted_names text_less behind equal_range mode rhs lhs ≡ some false
  unfolding compare_sorted_names
  compare_sorted_names-asym none_mode lhs rhs h = cc
  compare_sorted_names-asym na lhs rhs h = cc
  compare_sorted_names-asym by_alignment lhs rhs h = cc h
  compare_sorted_names-asym by_init_priority lhs rhs h = cc h
  compare_sorted_names-asym by_alignment_and_name lhs rhs h = cc h
  compare_sorted_names-asym by_name lhs rhs h = ground (arith, h, text_less-asym lhs rhs)
  compare_sorted_names-asym by_name_and_alignment lhs rhs h =
      ground (arith, h, text_less-asym lhs rhs, same_text-sym lhs rhs)

  compare_in_rule-asym :
      (made : InputSections) (lhs rhs : Text)
      → compare_in_rule text_less behind equal_range made lhs rhs ≡ some true
      → compare_in_rule text_less behind equal_range made rhs lhs ≡ some false
  unfolding compare_in_rule
  compare_in_rule-asym no_sections lhs rhs h = cc h
  compare_in_rule-asym (section_then (input_section_name n exclude_file) rest) lhs rhs h =
      ground (arith, h, compare_in_rule-asym rest lhs rhs)
  compare_in_rule-asym (section_then (sorted_group mode children) rest) lhs rhs h =
      ground (arith, h, compare_in_rule-asym rest lhs rhs, compare_sorted_names-asym mode lhs rhs)

  compare_by_rule-asym :
      (cmd : InputSectionsCmd) (lhs rhs : SectionKey)
      → compare_by_rule text_less behind equal_range cmd lhs rhs ≡ some true
      → compare_by_rule text_less behind equal_range cmd rhs lhs ≡ some false
  unfolding compare_by_rule
  compare_by_rule-asym cmd lhs rhs h = ground (
    arith,
    h,
    same_text-sym lhs.archive_path rhs.archive_path,
    same_text-sym lhs.member_path rhs.member_path,
    compare_sorted_names-asym cmd.archive_sort_mode lhs.archive_path rhs.archive_path,
    compare_sorted_names-asym cmd.file_sort_mode lhs.member_path rhs.member_path,
    compare_in_rule-asym cmd.sections lhs.section_name rhs.section_name,
  )

  local_compare-asym :
      (s : Sema) (order : ℕ) (lhs rhs : SectionKey)
      → local_compare text_less behind equal_range s order lhs rhs ≡ some true
      → local_compare text_less behind equal_range s order rhs lhs ≡ some false
  unfolding local_compare
  local_compare-asym s order lhs rhs h = elim (Option-cases (get_elem? s.layout_commands order)) [
    | inl no_rule ↦ ground (arith, h, no_rule)
    | inr (layout_input cmd, rule) ↦ ground (arith, h, rule, compare_by_rule-asym cmd lhs rhs)
    | inr (layout_output d, rule) ↦ ground (arith, h, rule)
    | inr (layout_name n, rule) ↦ ground (arith, h, rule)
    | inr (layout_assignment a, rule) ↦ ground (arith, h, rule)
  ]

  less_at-asym :
      (s : Sema) (a b : Option ℕ) (lhs rhs : SectionKey)
      → less_at text_less behind equal_range s a b lhs rhs ≡ some true
      → less_at text_less behind equal_range s b a rhs lhs ≡ some false
  less_at-asym s none none lhs rhs h = cc
  less_at-asym s none (some b) lhs rhs h = cc
  less_at-asym s (some a) none lhs rhs h = refl
  less_at-asym s (some a) (some b) lhs rhs h = ground (arith, h, local_compare-asym s a lhs rhs)

  less_at-SameRules :
      (s t : Sema) (a b : Option ℕ) (lhs rhs : SectionKey)
      → t.layout_commands ≡ s.layout_commands
      → less_at text_less behind equal_range t a b lhs rhs
        ≡ less_at text_less behind equal_range s a b lhs rhs
  unfolding local_compare
  less_at-SameRules s t none none lhs rhs same = refl
  less_at-SameRules s t none (some b) lhs rhs same = refl
  less_at-SameRules s t (some a) none lhs rhs same = refl
  less_at-SameRules s t (some a) (some b) lhs rhs same = λ i.
      less_at text_less behind equal_range (record t { layout_commands = same i }) (some a) (some b)
        lhs rhs

  -- The order that the rules give a section.
  abbrev rule_order : Sema → SectionKey → Option ℕ
  rule_order s key = answer_of true (search_orders behind equal_range s key)

  less-answer :
      (lhs rhs : SectionKey) (s : Sema)
      → Coherent behind equal_range s
      → ((less text_less behind equal_range lhs rhs s).0
          ≡ less_at text_less behind equal_range s (rule_order s lhs) (rule_order s rhs) lhs rhs)
        × Coherent behind equal_range (less text_less behind equal_range lhs rhs s).1
        × ((key : SectionKey)
            → rule_order (less text_less behind equal_range lhs rhs s).1 key ≡ rule_order s key)
        × ((less text_less behind equal_range lhs rhs s).1.layout_commands ≡ s.layout_commands)
  unfolding less
  less-answer lhs rhs s h =
      let (answer, coherent, rules) = get_layout_order-answer behind equal_range true lhs s h in
      let (a, s1) = get_layout_order behind equal_range true lhs s in
      let (answer', coherent', rules') =
        get_layout_order-answer behind equal_range true rhs s1 coherent in
      let (b, s2) = get_layout_order behind equal_range true rhs s1 in
      let layout = rules'.layout ∙ rules.layout in
      let first = λ (key : SectionKey).
        ap (answer_of true) (search_orders-SameRules behind equal_range s s1 key rules) in
      let second = λ (key : SectionKey).
        ap (answer_of true) (search_orders-SameRules behind equal_range s1 s2 key rules') in
      (
        less_at-SameRules s s2 a b lhs rhs layout ∙ (λ i.
            less_at text_less behind equal_range s (answer i) ((answer' ∙ first rhs) i) lhs rhs),
        coherent',
        λ key. second key ∙ first key,
        layout,
      )

  -- If `less` puts one section in front of another, it does not put the other in front of the one,
  -- whatever it has answered in between these two calls.
  pub less-asym :
      (lhs rhs : SectionKey) (s : Sema)
      → Coherent behind equal_range s
      → (less text_less behind equal_range lhs rhs s).0 ≡ some true
      → (less text_less behind equal_range rhs lhs
          (less text_less behind equal_range lhs rhs s).1).0
        ≡ some false
  less-asym lhs rhs s h before =
      let (answer, coherent, orders, layout) = less-answer lhs rhs s h in
      let s1 = (less text_less behind equal_range lhs rhs s).1 in
      let answer' = (less-answer rhs lhs s1 coherent).0 in
      answer'
      ∙ less_at-SameRules s s1 (rule_order s1 rhs) (rule_order s1 lhs) rhs lhs layout
      ∙ (λ i. less_at text_less behind equal_range s (orders rhs i) (orders lhs i) rhs lhs)
      ∙ less_at-asym s (rule_order s lhs) (rule_order s rhs) lhs rhs (sym answer ∙ before)
