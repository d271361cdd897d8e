-- ===== src/Script/Ends/Sorts.antt =====
-- The parsers for SECTIONS end on every input, with the fuel that the tokens give.
use lld_or1k.Base.{
  ℕ, zero, suc, ◌≤◌, ◌<◌, ◌≡◌, refl, Bool, true, ◌&&◌, List, ◌∷◌, length, arith, ltb, nat_eq,
}
use lld_or1k.Base.Text.{Text}
use lld_or1k.Script.Token.{
  Token, Kind, l_paren, r_paren, kw_sort_by_alignment, kw_sort_by_init_priority, kw_sort_by_name,
  kw_sort_none, is_kind,
}
use lld_or1k.Script.Stream.{token, kind_of, consume, Parsed, ◌>>=◌}
use lld_or1k.Script.Expression.Termination.{Advances, Advances-bind, Advances-if, length-consume}
use lld_or1k.Script.Ast.{WildcardSortMode, na, by_init_priority, by_name, none_mode}
use lld_or1k.Script.Commands.{behind_names}
use lld_or1k.Script.Ends.{expecting, length-behind_names}
use lld_or1k.Script.Commands.Sections.{
  close_parens, parse_exclude_file, sort_directive, with_alignment, with_name,
  parse_sort_directives, parse_sorted_input_sections, is_sort,
}

pub close_parens-Advances {ℓ} :
    {A : Type ℓ} (k n : ℕ) (ts : List Token) (next : List Token → Parsed A)
    → length ts ≤ k
    → ((rest : List Token) → length rest ≤ length ts → Advances k (next rest))
    → Advances k (close_parens n ts next)
close_parens-Advances k zero ts next le step = step ts (omega arith)
close_parens-Advances k (suc n) ts next le step = expecting k r_paren ts _ refl le (λ h.
    close_parens-Advances k n (consume ts) next (omega (arith, h))
      (λ rest le'. step rest (omega (arith, h))))

pub exclude_file-Advances :
    (ts : List Token) → 0 < length ts → Advances (length ts) (parse_exclude_file ts)
unfolding parse_exclude_file
exclude_file-Advances ts lt =
    let k = length ts in
    let size = length-consume ts in
    expecting k l_paren (consume ts) _ refl (omega (arith, size)) (λ first.
      let inside = consume (consume ts) in
      let shorter = length-behind_names inside in
      expecting k r_paren (behind_names inside) _ refl (omega (arith, size, first, shorter))
        (λ second. omega (arith, size, first, shorter, second)))

-- The sort directives, from each of them on.
module _ (k : ℕ) where
  directive-Advances :
      (allowed : Bool) (kind : Kind) (changed : WildcardSortMode) (n : ℕ) (mode : WildcardSortMode)
      (ts : List Token)
      → length ts < k
      → Advances k (sort_directive allowed kind changed n mode ts)
  directive-Advances allowed kind changed n mode ts lt =
      let size = length-consume ts in
      Advances-if k (allowed && is_kind (kind_of ts) kind) _ _
        (expecting k l_paren (consume ts) _ refl (omega (arith, size))
          (λ h. omega (arith, size, h)))
        (omega arith)

  abbrev from_sixth : ℕ × WildcardSortMode → List Token → Parsed (ℕ × WildcardSortMode)
  from_sixth s ts = sort_directive (nat_eq s.0 0) kw_sort_none none_mode s.0 s.1 ts

  abbrev from_fifth : ℕ × WildcardSortMode → List Token → Parsed (ℕ × WildcardSortMode)
  from_fifth s ts = sort_directive (ltb s.0 2) kw_sort_by_alignment s.1 s.0 s.1 ts >>= from_sixth

  abbrev from_fourth : ℕ × WildcardSortMode → List Token → Parsed (ℕ × WildcardSortMode)
  from_fourth s ts =
      sort_directive (ltb s.0 2) kw_sort_by_name (with_name s.1) s.0 s.1 ts >>= from_fifth

  abbrev from_third : ℕ × WildcardSortMode → List Token → Parsed (ℕ × WildcardSortMode)
  from_third s ts =
      sort_directive true kw_sort_by_alignment (with_alignment s.1) s.0 s.1 ts >>= from_fourth

  abbrev from_second : ℕ × WildcardSortMode → List Token → Parsed (ℕ × WildcardSortMode)
  from_second s ts =
      sort_directive true kw_sort_by_init_priority by_init_priority s.0 s.1 ts >>= from_third

  fifth-Advances :
      (s : ℕ × WildcardSortMode) (ts : List Token) → length ts < k → Advances k (from_fifth s ts)
  fifth-Advances s ts lt =
      Advances-bind k k (sort_directive (ltb s.0 2) kw_sort_by_alignment s.1 s.0 s.1 ts) from_sixth
        (directive-Advances (ltb s.0 2) kw_sort_by_alignment s.1 s.0 s.1 ts lt) (omega arith)
        (λ s' rest lt'.
          directive-Advances (nat_eq s'.0 0) kw_sort_none none_mode s'.0 s'.1 rest lt')

  fourth-Advances :
      (s : ℕ × WildcardSortMode) (ts : List Token) → length ts < k → Advances k (from_fourth s ts)
  fourth-Advances s ts lt =
      Advances-bind k k (sort_directive (ltb s.0 2) kw_sort_by_name (with_name s.1) s.0 s.1 ts)
        from_fifth (directive-Advances (ltb s.0 2) kw_sort_by_name (with_name s.1) s.0 s.1 ts lt)
        (omega arith) fifth-Advances

  third-Advances :
      (s : ℕ × WildcardSortMode) (ts : List Token) → length ts < k → Advances k (from_third s ts)
  third-Advances s ts lt =
      Advances-bind k k (sort_directive true kw_sort_by_alignment (with_alignment s.1) s.0 s.1 ts)
        from_fourth
        (directive-Advances true kw_sort_by_alignment (with_alignment s.1) s.0 s.1 ts lt)
        (omega arith) fourth-Advances

  second-Advances :
      (s : ℕ × WildcardSortMode) (ts : List Token) → length ts < k → Advances k (from_second s ts)
  second-Advances s ts lt =
      Advances-bind k k (sort_directive true kw_sort_by_init_priority by_init_priority s.0 s.1 ts)
        from_third (directive-Advances true kw_sort_by_init_priority by_init_priority s.0 s.1 ts lt)
        (omega arith) third-Advances

  pub directives-Advances :
      (ts : List Token) → length ts < k → Advances k (parse_sort_directives ts)
  unfolding parse_sort_directives
  directives-Advances ts lt =
      Advances-bind k k (sort_directive true kw_sort_by_name by_name 0 na ts) from_second
        (directive-Advances true kw_sort_by_name by_name 0 na ts lt) (omega arith) second-Advances

-- Where a directive stands, a token is taken.
pub sort-Advances :
    (kind : Kind) (r : Text) (ts : List Token)
    → is_sort kind ≡ true
    → Advances (suc (length ts)) (parse_sort_directives (token kind r ∷ ts))
unfolding parse_sort_directives
sort-Advances kw_sort_by_name r ts h =
    let k = suc (length ts) in
    Advances-bind k k _ (from_second k)
      (expecting k l_paren ts _ refl (omega arith) (λ e. omega (arith, e))) (omega arith)
      (second-Advances k)
sort-Advances kw_sort_by_init_priority r ts h =
    let k = suc (length ts) in
    Advances-bind k k _ (from_third k)
      (expecting k l_paren ts _ refl (omega arith) (λ e. omega (arith, e))) (omega arith)
      (third-Advances k)
sort-Advances kw_sort_by_alignment r ts h =
    let k = suc (length ts) in
    Advances-bind k k _ (from_fourth k)
      (expecting k l_paren ts _ refl (omega arith) (λ e. omega (arith, e))) (omega arith)
      (fourth-Advances k)
sort-Advances kw_sort_none r ts h =
    expecting (suc (length ts)) l_paren ts _ refl (omega arith) (λ e. omega (arith, e))
sort-Advances _ r ts h = cc h

pub sorted-Advances :
    (kind : Kind) (r : Text) (ts : List Token)
    → is_sort kind ≡ true
    → Advances (suc (length ts)) (parse_sorted_input_sections (token kind r ∷ ts))
unfolding parse_sorted_input_sections
sorted-Advances kind r ts h =
    let k = suc (length ts) in
    Advances-bind k k _ _ (sort-Advances kind r ts h) (omega arith) (λ s inside lt.
      let shorter = length-behind_names inside in
      close_parens-Advances k s.0 (behind_names inside) _ (omega (arith, shorter))
        (λ rest le. omega (arith, shorter)))
