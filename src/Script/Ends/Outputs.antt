-- ===== src/Script/Ends/Outputs.antt =====
-- Input section commands, output sections and SECTIONS end on every input.
use lld_or1k.Base.{
  ℕ, zero, suc, ◌-◌, ◌≤◌, ◌<◌, ◌≡◌, refl, Bool, true, false, ◌||◌, List, [], ◌∷◌, length, arith,
}
use lld_or1k.Base.Text.{Text}
use lld_or1k.Script.Token.{
  Token, Kind, eof, identifier, colon, l_paren, r_paren, kw_exclude_file, kw_keep,
  kw_sort_by_alignment, kw_sort_by_init_priority, kw_sort_by_name, kw_sort_none, is_kind,
}
use lld_or1k.Script.Stream.{token, kind_of, consume, peek, Parsed, found, null, out_of_fuel, ◌>>=◌}
use lld_or1k.Script.Expression.Termination.{Advances, length-consume}
use lld_or1k.Script.Ast.{section_then}
use lld_or1k.Script.Ends.Sorts.{exclude_file-Advances, directives-Advances, sorted-Advances}
use lld_or1k.Script.Commands.Sections.{
  input_section_list, sorted_name, keep_prefix, archive_part, is_sort, parse_sorted_input_sections,
  close_parens, section_part, Turn, skip, an_assignment, an_input,
}

-- A result was reached, and fewer than `k` tokens are left behind an object.
abbrev pub Ends {ℓ} : {A : Type ℓ} → ℕ → Parsed A → Type 0
Ends k (found a rest) = length rest < k
Ends k (null rest) = Unit
Ends k out_of_fuel = ⊥

pub Ends-Advances {ℓ} : {A : Type ℓ} (j k : ℕ) (x : Parsed A) → Advances j x → j ≤ k → Ends k x
Ends-Advances j k (found a rest) h le = omega arith
Ends-Advances j k (null rest) h le = tt
Ends-Advances j k out_of_fuel h le = h

pub Ends-bind {ℓ κ} :
    {A : Type ℓ} {B : Type κ} (j k : ℕ) (x : Parsed A) (f : A → List Token → Parsed B)
    → Ends j x
    → ((a : A) (rest : List Token) → length rest < j → Ends k (f a rest))
    → Ends k (x >>= f)
Ends-bind j k (found a rest) f h g = g a rest h
Ends-bind j k (null rest) f h g = tt
Ends-bind j k out_of_fuel f h g = absurd h

pub Ends-if {ℓ} :
    {A : Type ℓ} (k : ℕ) (b : Bool) (x y : Parsed A)
    → Ends k x
    → Ends k y
    → Ends k (elim b [ true ↦ x | false ↦ y ])
Ends-if k true x y h h' = h
Ends-if k false x y h h' = h'

pub Ends-weaken {ℓ} : {A : Type ℓ} (j k : ℕ) (x : Parsed A) → Ends j x → j ≤ k → Ends k x
Ends-weaken j k (found a rest) h le = omega arith
Ends-weaken j k (null rest) h le = tt
Ends-weaken j k out_of_fuel h le = h

pub Ends-expect {ℓ} :
    {A : Type ℓ} (k : ℕ) (kind : Kind) (ts : List Token) (x : Parsed A)
    → is_kind eof kind ≡ false
    → (suc (length (consume ts)) ≡ length ts → Ends k x)
    → Ends k (elim (is_kind (kind_of ts) kind) [ true ↦ x | false ↦ null ts ])
Ends-expect k kind [] x h next = ground (arith, h)
Ends-expect k kind (t ∷ ts) x h next = Ends-if k (is_kind t.kind kind) _ _ (next (omega arith)) tt

pub Ends-turn {ℓ} :
    {A : Type ℓ} (k : ℕ) (turn : Turn) (a b c d : Parsed A)
    → Ends k a
    → Ends k b
    → Ends k c
    → Ends k d
    → Ends k (elim turn [ skip ↦ a | an_assignment ↦ b | an_input ↦ c | _ ↦ d ])
Ends-turn k skip a b c d ha hb hc hd = ha
Ends-turn k an_assignment a b c d ha hb hc hd = hb
Ends-turn k an_input a b c d ha hb hc hd = hc
Ends-turn k _ a b c d ha hb hc hd = hd

-- The list of an input section command, at a token of each kind.
module _ (n : ℕ) (ts : List Token)
    (list : (us : List Token)
      → length us ≤ length ts
      → Ends (suc (length us)) (input_section_list n us)) where
  sorted_turn :
      (kind : Kind) (r : Text)
      → is_sort kind ≡ true
      → Ends (suc (suc (length ts))) (
          parse_sorted_input_sections (token kind r ∷ ts) >>= (λ made rest.
            input_section_list n rest
            >>= (λ others behind. found (section_then made others) behind)))
  sorted_turn kind r h =
      Ends-bind (suc (length ts)) _ _ _
        (Ends-Advances _ _ _ (sorted-Advances kind r ts h) (omega arith))
        (λ made rest lt.
          Ends-bind (suc (length rest)) _ _ _ (list rest (omega arith))
            (λ others behind lt'. omega arith))

  section_kind :
      (kind : Kind) (r : Text)
      → Ends (suc (suc (length ts))) (input_section_list (suc n) (token kind r ∷ ts))
  section_kind kw_exclude_file r =
      Ends-bind (suc (length ts)) _ _ _
        (Ends-Advances _ _ _ (exclude_file-Advances (token kw_exclude_file r ∷ ts) (omega arith))
          (omega arith))
        (λ files rest lt.
          Ends-bind (suc (length rest)) _ _ _ (list rest (omega arith))
            (λ others behind lt'. omega arith))
  section_kind identifier r =
      Ends-bind (suc (length ts)) _ (input_section_list n ts) _ (list ts (omega arith))
        (λ others behind lt. omega arith)
  section_kind kw_sort_by_name r = sorted_turn kw_sort_by_name r refl
  section_kind kw_sort_by_alignment r = sorted_turn kw_sort_by_alignment r refl
  section_kind kw_sort_by_init_priority r = sorted_turn kw_sort_by_init_priority r refl
  section_kind kw_sort_none r = sorted_turn kw_sort_none r refl
  section_kind _ r = omega arith

section_list-Ends :
    (n : ℕ) (ts : List Token) → length ts < n → Ends (suc (length ts)) (input_section_list n ts)
section_list-Ends zero ts lt = absurd (omega arith)
section_list-Ends (suc n) [] lt = omega arith
section_list-Ends (suc n) (t ∷ ts) lt =
    section_kind n ts (λ us le. section_list-Ends n us (omega arith)) t.kind t.range

close_parens-Ends {ℓ} :
    {A : Type ℓ} (k n : ℕ) (ts : List Token) (next : List Token → Parsed A)
    → ((rest : List Token) → length rest ≤ length ts → Ends k (next rest))
    → Ends k (close_parens n ts next)
close_parens-Ends k zero ts next step = step ts (omega arith)
close_parens-Ends k (suc n) ts next step =
    Ends-expect k r_paren ts _ refl
      (λ h. close_parens-Ends k n (consume ts) next (λ rest le'. step rest (omega (arith, h))))

-- A name takes a token, if there is one.
pub sorted_name-Ends : (ts : List Token) → Ends (suc (length ts - 1)) (sorted_name ts)
sorted_name-Ends ts =
    Ends-bind (suc (length ts)) _ _ _
      (Ends-Advances _ _ _ (directives-Advances (suc (length ts)) ts (omega arith)) (omega arith))
      (λ s at_name lt.
        let size = length-consume at_name in
        close_parens-Ends _ s.0 (consume at_name) _ (λ rest le. omega (arith, size)))

pub keep_prefix-Ends : (ts : List Token) → Ends (suc (length ts)) (keep_prefix ts)
keep_prefix-Ends ts =
    let size = length-consume ts in
    Ends-if _ (is_kind (kind_of ts) kw_keep) _ _
      (Ends-expect _ l_paren (consume ts) _ refl (λ h. omega (arith, size, h))) (omega arith)

pub archive_part-Ends : (ts : List Token) → Ends (suc (length ts)) (archive_part ts)
archive_part-Ends ts =
    let size = length-consume ts in
    Ends-if _ (is_kind (kind_of ts) colon) _ _
      (Ends-if _ (is_kind (peek ts) identifier || is_sort (peek ts)) _ _
        (Ends-weaken _ _ _ (sorted_name-Ends (consume ts)) (omega (arith, size)))
        (omega (arith, size)))
      (omega arith)

pub section_part-Ends :
    (n num_paren : ℕ) (ts : List Token)
    → length ts < n
    → Ends (suc (length ts)) (section_part n num_paren ts)
section_part-Ends n num_paren ts lt =
    let size = length-consume ts in
    Ends-if _ (is_kind (kind_of ts) l_paren) _ _
      (Ends-bind (suc (length (consume ts))) _ _ _
        (section_list-Ends n (consume ts) (omega (arith, size)))
        (λ made behind lt'.
          close_parens-Ends _ num_paren behind _ (λ rest le. omega (arith, size))))
      (omega arith)
