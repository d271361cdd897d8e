-- ===== src/Script/Sema/Caches.antt =====
-- The caches of `Sema::getLayoutOrder` do not change its answers.
use lld_or1k.Base.{
  ℕ, ◌≡◌, refl, sym, ap, ◌∙◌, subst, Bool, true, false, Option, none, some, List, ◌==◌,
  if◌then◌else◌, Option-cases, Bool-cases, inl, inr,
}
use lld_or1k.Base.Text.{Text}
use lld_or1k.Base.Table.{Table, find, set, find-set}
use lld_or1k.Script.Sema.{
  SectionKey, key_eq, Sema, insert_new, search_orders, get_layout_order, remember,
}

-- The answer to a question, from the rules alone.
abbrev pub answer_of : Bool → Option (ℕ × ℕ) → Option ℕ
answer_of coarse none = none
answer_of true (some (order, expr_order)) = some order
answer_of false (some (order, expr_order)) = some expr_order

-- A cache that holds true answers only.
abbrev Holds : (SectionKey → Option ℕ) → Table SectionKey (Option ℕ) → Type 0
Holds answer t = (key : SectionKey) (v : Option ℕ) → find key t ≡ some v → v ≡ answer key

Holds-set :
    (answer : SectionKey → Option ℕ) (k : SectionKey) (v : Option ℕ)
    (t : Table SectionKey (Option ℕ))
    → Holds answer t
    → v ≡ answer k
    → Holds answer (set k v t)
Holds-set answer k v t h true_ key w seen = elim (Bool-cases (key == k)) [
  | inl is_k ↦
      let looked : find key (set k v t) ≡ some v =
        find-set key k v t ∙ ap (λ (b : Bool). if b then some v else find key t) is_k in
      cc (looked, seen, true_, (key_eq.same_iff key k).0 is_k)
  | inr other ↦
      h key w (
        sym (find-set key k v t ∙ ap (λ (b : Bool). if b then some v else find key t) other) ∙ seen)
]

Holds-insert_new :
    (answer : SectionKey → Option ℕ) (k : SectionKey) (v : Option ℕ)
    (t : Table SectionKey (Option ℕ))
    → Holds answer t
    → v ≡ answer k
    → Holds answer (insert_new k v t)
Holds-insert_new answer k v t h true_ =
    elim (find k t) as (λ o. Holds answer (elim o [ some old ↦ t | none ↦ set k v t ])) [
      | some old ↦ h
      | none ↦ Holds-set answer k v t h true_
    ]

module _ (behind : Text → Text) (equal_range : List (Text × ℕ) → Text → List ℕ) where
  -- Both caches hold true answers only.
  pub record Coherent (s : Sema) : Type 0 where
    pub section :
        Holds (λ key. answer_of true (search_orders behind equal_range s key)) s.cache_section_order
    pub expression :
        Holds
          (λ key. answer_of false (search_orders behind equal_range s key))
          s.cache_expression_order

  -- What a question leaves as it was.
  pub record SameRules (s t : Sema) : Type 0 where
    pub layout : t.layout_commands ≡ s.layout_commands
    pub members : t.member_to_layout_order ≡ s.member_to_layout_order
    pub wildcards : t.member_name_wildcards ≡ s.member_name_wildcards
    pub delivered : t.delivered_exprs ≡ s.delivered_exprs
    pub symbols : t.symbol_table ≡ s.symbol_table

  abbrev Answers : Bool → SectionKey → Sema → Option ℕ × Sema → Type 0
  Answers coarse key s r =
      (r.0 ≡ answer_of coarse (search_orders behind equal_range s key))
      × Coherent r.1
      × SameRules s r.1

  same_rules : (s : Sema) → SameRules s s
  same_rules s = record {
    layout = refl;
    members = refl;
    wildcards = refl;
    delivered = refl;
    symbols = refl;
  }

  -- A question that the cache does not answer.
  remember-Answers :
      (coarse : Bool) (key : SectionKey) (s : Sema) (o : Option (ℕ × ℕ))
      → Coherent s
      → search_orders behind equal_range s key ≡ o
      → Answers coarse key s (remember coarse key s o)
  unfolding search_orders
  remember-Answers true key s (some (order, expr_order)) h found =
      let answer = sym (ap (answer_of true) found) in
      (
        answer,
        record {
          section = Holds-insert_new _ key (some order) s.cache_section_order h.section answer;
          expression = h.expression;
        },
        record {
          layout = refl;
          members = refl;
          wildcards = refl;
          delivered = refl;
          symbols = refl;
        },
      )
  remember-Answers false key s (some (order, expr_order)) h found =
      let answer = sym (ap (answer_of false) found) in
      (
        answer,
        record {
          section = h.section;
          expression =
              Holds-insert_new _ key (some expr_order) s.cache_expression_order h.expression answer;
        },
        record {
          layout = refl;
          members = refl;
          wildcards = refl;
          delivered = refl;
          symbols = refl;
        },
      )
  remember-Answers coarse key s none h found = (
    sym (ap (answer_of coarse) found),
    record {
      section =
          Holds-insert_new _ key none s.cache_section_order h.section
            (sym (ap (answer_of true) found));
      expression =
          Holds-insert_new _ key none s.cache_expression_order h.expression
            (sym (ap (answer_of false) found));
    },
    record { layout = refl; members = refl; wildcards = refl; delivered = refl; symbols = refl },
  )

  known :
      (coarse : Bool) (key : SectionKey) (s : Sema) (v : Option ℕ)
      → Coherent s
      → find key (if coarse then s.cache_section_order else s.cache_expression_order) ≡ some v
      → v ≡ answer_of coarse (search_orders behind equal_range s key)
  known true key s v h seen = h.section key v seen
  known false key s v h seen = h.expression key v seen

  -- A layout order is the answer that the rules give, whatever was asked before, and asking keeps the
  -- caches coherent and everything else as it was.
  pub get_layout_order-answer :
      (coarse : Bool) (key : SectionKey) (s : Sema)
      → Coherent s
      → Answers coarse key s (get_layout_order behind equal_range coarse key s)
  unfolding get_layout_order
  get_layout_order-answer coarse key s h =
      let cache = if coarse then s.cache_section_order else s.cache_expression_order in
      let next : Option (Option ℕ) → Option ℕ × Sema = λ o. elim o [
        | some answer ↦ (answer, s)
        | none ↦ remember coarse key s (search_orders behind equal_range s key)
      ] in
      elim (Option-cases (find key cache)) [
        | inl fresh ↦
            subst (Answers coarse key s) (sym (ap next fresh))
              (remember-Answers coarse key s (search_orders behind equal_range s key) h refl)
        | inr (v, seen) ↦
            subst (Answers coarse key s) (sym (ap next seen))
              (known coarse key s v h seen, h, same_rules s)
      ]
