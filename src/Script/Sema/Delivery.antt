-- ===== src/Script/Sema/Delivery.antt =====
-- `Sema::getExprs` hands the assignments in front of a rule out once.
use lld_or1k.Base.{
  ℕ, ◌≡◌, refl, sym, ap, ◌∙◌, subst, Bool, true, false, Option, none, some, List, [], ◌∷◌, arith,
  Bool-cases, inl, inr, contains, contains-head, address_eq,
}
use lld_or1k.Base.Text.{Text}
use lld_or1k.Script.Ast.{SymbolAssignment}
use lld_or1k.Script.Sema.{
  SectionKey, Sema, search_orders, first_exact, first_wildcard, get_layout_order, get_exprs,
  deliver, take_layout, trailing_assignments,
}
use lld_or1k.Script.Sema.Caches.{Coherent, SameRules, answer_of, get_layout_order-answer}

-- The assignments of an order were handed out, if it is one.
abbrev Delivered : Option ℕ → Sema → Type 0
Delivered none s = Unit
Delivered (some n) s = contains n s.delivered_exprs ≡ true

Delivered-rules :
    (o : Option ℕ) (s t : Sema)
    → t.delivered_exprs ≡ s.delivered_exprs
    → Delivered o s
    → Delivered o t
Delivered-rules none s t same h = tt
Delivered-rules (some n) s t same h = ap (λ (l : List ℕ). contains n l) same ∙ h

deliver-again : (o : Option ℕ) (s : Sema) → Delivered o s → (deliver o s).0 ≡ []
deliver-again none s h = refl
deliver-again (some n) s h = ground (arith, h)

Delivered-deliver : (o : Option ℕ) (s : Sema) → Delivered o (deliver o s).1
Delivered-deliver none s = tt
Delivered-deliver (some n) s = elim (Bool-cases (contains n s.delivered_exprs)) [
  | inl old ↦ ground (arith, old)
  | inr new ↦ ground (arith, new, contains-head n s.delivered_exprs)
]

-- What `deliver` gives for an order that was handed out, and for one that was not.
abbrev picked : ℕ → Sema → Bool → List SymbolAssignment × Sema
picked n s b = elim b [
  | true ↦ ([], s)
  | false ↦ (
    trailing_assignments (take_layout n s.layout_commands) [],
    record s { delivered_exprs = n ∷ s.delivered_exprs },
  )
]

-- A property that does not depend on what was handed out.
deliver-keeps :
    (P : Sema → Type 0) (o : Option ℕ) (s : Sema)
    → ((n : ℕ) → P (record s { delivered_exprs = n ∷ s.delivered_exprs }))
    → P s
    → P (deliver o s).1
deliver-keeps P none s step h = h
deliver-keeps P (some n) s step h = elim (Bool-cases (contains n s.delivered_exprs)) [
  | inl old ↦ subst (λ (b : Bool). P (picked n s b).1) (sym old) h
  | inr new ↦ subst (λ (b : Bool). P (picked n s b).1) (sym new) (step n)
]

module _ (behind : Text → Text) (equal_range : List (Text × ℕ) → Text → List ℕ) where
  pub search_orders-SameRules :
      (s t : Sema) (key : SectionKey)
      → SameRules behind equal_range s t
      → search_orders behind equal_range t key ≡ search_orders behind equal_range s key
  unfolding search_orders
  search_orders-SameRules s t key h = λ i.
      elim (first_exact behind equal_range (h.layout i) key
        (equal_range (h.members i) key.member_path)) [
          | some orders ↦ some orders
          | none ↦ first_wildcard behind equal_range (h.layout i) key (h.wildcards i)
        ]

  -- What is known behind the first call.
  abbrev Ready : SectionKey → Option ℕ → Sema → Type 0
  Ready key o t =
      Coherent behind equal_range t × (answer_of false (search_orders behind equal_range t key) ≡ o)

  Ready-deliver :
      (key : SectionKey) (o o' : Option ℕ) (s : Sema) → Ready key o s → Ready key o (deliver o' s).1
  unfolding search_orders
  Ready-deliver key o o' s h =
      deliver-keeps (Ready key o) o' s
        (λ n. (record { section = h.0.section; expression = h.0.expression }, h.1)) h

  get_exprs-Ready :
      (first : SectionKey) (o : Option ℕ) (s : Sema)
      → Coherent behind equal_range s
      → answer_of false (search_orders behind equal_range s first) ≡ o
      → (second : SectionKey) → answer_of false (search_orders behind equal_range s second) ≡ o
      → Ready second o (get_exprs behind equal_range first s).1
        × Delivered o (get_exprs behind equal_range first s).1
  unfolding get_exprs
  get_exprs-Ready first o s h mine second same =
      let (answer, coherent, rules) = get_layout_order-answer behind equal_range false first s h in
      let (order, s1) = get_layout_order behind equal_range false first s in
      let is_o = answer ∙ mine in
      let kept = ap (answer_of false) (search_orders-SameRules s s1 second rules) ∙ same in
      (
        Ready-deliver second o order s1 (coherent, kept),
        subst (λ (x : Option ℕ). Delivered x (deliver order s1).1) is_o
            (Delivered-deliver order s1),
      )

  get_exprs-Delivered :
      (key : SectionKey) (o : Option ℕ) (s : Sema)
      → Ready key o s
      → Delivered o s
      → (get_exprs behind equal_range key s).0 ≡ []
  unfolding get_exprs
  get_exprs-Delivered key o s ready given =
      let (answer, coherent, rules) =
        get_layout_order-answer behind equal_range false key s ready.0 in
      let (order, s1) = get_layout_order behind equal_range false key s in
      let is_o : o ≡ order = sym (answer ∙ ready.1) in
      deliver-again order s1 (
        Delivered-rules order s s1 rules.delivered
          (subst (λ (x : Option ℕ). Delivered x s) is_o given))

  -- Of two sections that belong to the same line of the rules, the second gets no assignment.
  pub get_exprs-once :
      (first second : SectionKey) (s : Sema)
      → Coherent behind equal_range s
      → answer_of false (search_orders behind equal_range s second)
        ≡ answer_of false (search_orders behind equal_range s first)
      → (get_exprs behind equal_range second (get_exprs behind equal_range first s).1).0 ≡ []
  get_exprs-once first second s h same =
      let (ready, given) = get_exprs-Ready first _ s h refl second same in
      get_exprs-Delivered second _ (get_exprs behind equal_range first s).1 ready given
