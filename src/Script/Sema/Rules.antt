-- ===== src/Script/Sema/Rules.antt =====
-- `Sema::perform`: the rules that name a file point into the layout, and the caches begin empty.
use lld_or1k.Base.{
  ℕ, zero, suc, ◌≡◌, refl, ap, Bool, true, false, some, List, [], ◌∷◌, ◌++◌, length, get_elem?, All,
}
use lld_or1k.Base.Text.{Text}
use lld_or1k.Base.Table.{find}
use lld_or1k.Script.Ast.{
  InputSectionsCmd, OutputSectionCommand, assignment, input_sections, SectionsCommand,
  symbol_assignment, output_section, section_entry, Command, sections,
}
use lld_or1k.Script.Sema.{
  key_eq, Sema, new_sema, LayoutCommand, layout_input, layout_assignment, layout_output,
  push_layout, register_as, has_wildcard, linearize_children, linearize_input_sections,
  linearize_output_commands, linearize_sections, perform_script, perform,
}
use lld_or1k.Script.Sema.Caches.{Coherent}

-- A rule stands where the index says, and names the file.
abbrev pub PointsAt : List LayoutCommand → Text × ℕ → Type 0
PointsAt layout rule =
    (cmd : InputSectionsCmd) × (get_elem? layout rule.1 ≡ some (layout_input cmd))
    × (cmd.member_name ≡ rule.0)

pub record Filed (s : Sema) : Type 0 where
  pub exact : All (PointsAt s.layout_commands) s.member_to_layout_order
  pub wild :
      All
        (λ rule. PointsAt s.layout_commands rule × (has_wildcard rule.0 ≡ true))
        s.member_name_wildcards
  pub sections_unasked : s.cache_section_order ≡ []
  pub expressions_unasked : s.cache_expression_order ≡ []

module _ {ℓ} {A : Type ℓ} where
  get_elem?-append :
      (l m : List A) (i : ℕ) (a : A) → get_elem? l i ≡ some a → get_elem? (l ++ m) i ≡ some a
  get_elem?-append [] m i a h = cc h
  get_elem?-append (x ∷ l) m zero a h = h
  get_elem?-append (x ∷ l) m (suc i) a h = get_elem?-append l m i a h

  get_elem?-length : (l m : List A) (a : A) → get_elem? (l ++ a ∷ m) (length l) ≡ some a
  get_elem?-length [] m a = refl
  get_elem?-length (x ∷ l) m a = get_elem?-length l m a

module _ {ℓ κ} {A : Type ℓ} where
  All-map : {P Q : A → Type κ} (l : List A) → ((a : A) → P a → Q a) → All P l → All Q l
  All-map [] f h = h
  All-map (a ∷ l) f h = (f a h.0, All-map l f h.1)

  All-append : (P : A → Type κ) (l m : List A) → All P l → All P m → All P (l ++ m)
  All-append P [] m h h' = h'
  All-append P (a ∷ l) m h h' = (h.0, All-append P l m h.1 h')

PointsAt-append :
    (layout more_ : List LayoutCommand) (rule : Text × ℕ)
    → PointsAt layout rule
    → PointsAt (layout ++ more_) rule
PointsAt-append layout more_ rule (cmd, here, name) =
    (cmd, get_elem?-append layout more_ rule.1 (layout_input cmd) here, name)

Filed-push_layout : (cs : List LayoutCommand) (s : Sema) → Filed s → Filed (push_layout cs s)
Filed-push_layout cs s h = record {
  exact = All-map s.member_to_layout_order (PointsAt-append s.layout_commands cs) h.exact;
  wild =
      All-map s.member_name_wildcards
        (λ rule w. (PointsAt-append s.layout_commands cs rule w.0, w.1)) h.wild;
  sections_unasked = h.sections_unasked;
  expressions_unasked = h.expressions_unasked;
}

Filed-register_as :
    (b : Bool) (name : Text) (cmd : InputSectionsCmd) (cs : List LayoutCommand) (s : Sema)
    → has_wildcard name ≡ b
    → cmd.member_name ≡ name
    → Filed s
    → Filed (push_layout (layout_input cmd ∷ cs) (register_as b name (length s.layout_commands) s))
Filed-register_as true name cmd cs s test same h =
    let pushed = Filed-push_layout (layout_input cmd ∷ cs) s h in
    let here : PointsAt (s.layout_commands ++ layout_input cmd ∷ cs)
        (name, length s.layout_commands) =
      (cmd, get_elem?-length s.layout_commands cs (layout_input cmd), same) in
    record {
      exact = pushed.exact;
      wild =
          All-append _ s.member_name_wildcards ((name, length s.layout_commands) ∷ []) pushed.wild
            ((here, test), tt);
      sections_unasked = h.sections_unasked;
      expressions_unasked = h.expressions_unasked;
    }
Filed-register_as false [] cmd cs s test same h = Filed-push_layout (layout_input cmd ∷ cs) s h
Filed-register_as false (c ∷ name) cmd cs s test same h =
    let pushed = Filed-push_layout (layout_input cmd ∷ cs) s h in
    let here : PointsAt (s.layout_commands ++ layout_input cmd ∷ cs)
        (c ∷ name, length s.layout_commands) =
      (cmd, get_elem?-length s.layout_commands cs (layout_input cmd), same) in
    record {
      exact =
          All-append _ s.member_to_layout_order ((c ∷ name, length s.layout_commands) ∷ [])
            pushed.exact (here, tt);
      wild = pushed.wild;
      sections_unasked = h.sections_unasked;
      expressions_unasked = h.expressions_unasked;
    }

Filed-linearize_output_commands :
    (cs : List OutputSectionCommand) (s : Sema) → Filed s → Filed (linearize_output_commands cs s)
unfolding linearize_output_commands linearize_input_sections
Filed-linearize_output_commands [] s h = h
Filed-linearize_output_commands (assignment a ∷ cs) s h =
    Filed-linearize_output_commands cs (push_layout (layout_assignment a ∷ []) s)
      (Filed-push_layout (layout_assignment a ∷ []) s h)
Filed-linearize_output_commands (input_sections cmd ∷ cs) s h =
    Filed-linearize_output_commands cs (linearize_input_sections cmd s) (
      Filed-register_as (has_wildcard cmd.member_name) cmd.member_name cmd
        (linearize_children cmd.sections) s refl refl h)

Filed-linearize_sections :
    (cs : List SectionsCommand) (s : Sema) → Filed s → Filed (linearize_sections cs s)
unfolding linearize_sections
Filed-linearize_sections [] s h = h
Filed-linearize_sections (symbol_assignment a ∷ cs) s h =
    Filed-linearize_sections cs (push_layout (layout_assignment a ∷ []) s)
      (Filed-push_layout (layout_assignment a ∷ []) s h)
Filed-linearize_sections (output_section d ∷ cs) s h =
    Filed-linearize_sections cs
      (linearize_output_commands d.commands (push_layout (layout_output d ∷ []) s))
      (Filed-linearize_output_commands d.commands (push_layout (layout_output d ∷ []) s)
        (Filed-push_layout (layout_output d ∷ []) s h))
Filed-linearize_sections (section_entry n ∷ cs) s h = Filed-linearize_sections cs s h

Filed-perform_script : (cs : List Command) (s : Sema) → Filed s → Filed (perform_script cs s)
unfolding perform_script
Filed-perform_script [] s h = h
Filed-perform_script (sections d ∷ cs) s h =
    Filed-perform_script cs (linearize_sections d s) (Filed-linearize_sections d s h)
Filed-perform_script (_ ∷ cs) s h = Filed-perform_script cs s h

Filed-perform_on : (scripts : List (List Command)) (s : Sema) → Filed s → Filed (perform scripts s)
unfolding perform
Filed-perform_on [] s h = h
Filed-perform_on (script ∷ scripts) s h =
    Filed-perform_on scripts (perform_script script s) (Filed-perform_script script s h)

-- After `perform`, every rule that the two lists hold stands in the layout at its index, with the
-- name that it is filed under; the names with wildcards are in the list of their own; no question has been
-- answered.
pub Filed-perform : (scripts : List (List Command)) → Filed (perform scripts new_sema)
Filed-perform scripts =
    Filed-perform_on scripts new_sema
      (record { exact = tt; wild = tt; sections_unasked = refl; expressions_unasked = refl })

-- So the answers of the caches begin as those of the rules.
module _ (behind : Text → Text) (equal_range : List (Text × ℕ) → Text → List ℕ) where
  pub Coherent-perform :
      (scripts : List (List Command)) → Coherent behind equal_range (perform scripts new_sema)
  unfolding find
  Coherent-perform scripts =
      let filed = Filed-perform scripts in
      record {
        section = λ key v seen. cc (seen, ap (find key) filed.sections_unasked);
        expression = λ key v seen. cc (seen, ap (find key) filed.expressions_unasked);
      }
