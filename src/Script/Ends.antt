-- ===== src/Script/Ends.antt =====
-- The command parsers outside SECTIONS end on every input, with the fuel that the tokens give.
pub mod Sorts
pub mod Outputs
pub mod Whole
use lld_or1k.Base.{
  ℕ, zero, suc, ◌+◌, ◌-◌, ◌*◌, ◌≤◌, ◌<◌, ◌≡◌, refl, ap, Bool, true, false, List, [], ◌∷◌, length,
  arith, Option, none, some,
}
use lld_or1k.Base.Text.{Text}
use lld_or1k.Script.Token.{
  Token, Kind, eof, identifier, libname, kw_as_needed, l_paren, r_paren, l_brace, r_brace, comma,
  colon, equal, kw_origin, kw_length, is_kind,
}
use lld_or1k.Script.Stream.{token, kind_of, consume, Parsed, found, null, out_of_fuel}
use lld_or1k.Script.Expression.Termination.{
  Advances, Advances-weaken, Advances-bind, Advances-if, Advances-option, Advances-expect,
  length-consume, expression-Advances,
}
use lld_or1k.Script.Ast.{AssignmentVisibility, InputPath}
use lld_or1k.Script.Commands.{
  behind_names, parse_one_name, format_names, parse_output_format, as_needed_paths, parse_as_needed,
  path_list, parse_path_list, assignment_kind_of, begins_value, assignment_from, visibility_of,
  parse_symbol_assignment, memory_attributes, memory_block, memory_blocks, parse_memory,
  parse_extern,
}

-- `( … )` behind a keyword, where what stands inside takes no more than there is.
pub length-behind_names : (ts : List Token) → length (behind_names ts) ≤ length ts
length-behind_names [] = omega arith
length-behind_names (t ∷ ts) = ground (arith, length-behind_names ts)

pub one_name-Advances : (ts : List Token) → 0 < length ts → Advances (length ts) (parse_one_name ts)
unfolding parse_one_name
one_name-Advances ts lt =
    let k = length ts in
    let size = length-consume ts in
    let size' = length-consume (consume ts) in
    Advances-expect k l_paren (consume ts) _ refl (omega (arith, size)) (λ some_token.
      Advances-if k (is_kind (kind_of (consume (consume ts))) identifier) _ _
        (Advances-expect k r_paren (consume (consume (consume ts))) _ refl
          (omega (arith, size, size', length-consume (consume (consume ts))))
          (λ lt'. omega (
            arith,
            size,
            size',
            length-consume (consume (consume ts)),
            length-consume (consume (consume (consume ts))),
          )))
        (omega (arith, size, size')))

format_names-Advances :
    (n : ℕ) (ts : List Token) → length ts < n → Advances (suc (length ts)) (format_names n ts)
format_names-Advances zero ts lt = absurd (omega arith)
format_names-Advances (suc n) [] lt = omega arith
format_names-Advances (suc n) (t ∷ ts) lt =
    let k = suc (suc (length ts)) in
    let size = length-consume ts in
    Advances-if k (is_kind t.kind comma) _ _
      (Advances-if k (is_kind (kind_of ts) identifier) _ _
        (Advances-bind (suc (length (consume ts))) k _ _
          (format_names-Advances n (consume ts) (omega (arith, size))) (omega (arith, size))
          (λ formats rest lt'. omega (arith, size)))
        (omega arith))
      (omega arith)

pub output_format-Advances :
    (n : ℕ) (ts : List Token)
    → length ts ≤ n
    → 0 < length ts
    → Advances (length ts) (parse_output_format n ts)
unfolding parse_output_format
output_format-Advances n ts le lt =
    let k = length ts in
    let size = length-consume ts in
    let size' = length-consume (consume ts) in
    let size2 = length-consume (consume (consume ts)) in
    Advances-expect k l_paren (consume ts) _ refl (omega (arith, size)) (λ some_token.
      Advances-if k (is_kind (kind_of (consume (consume ts))) identifier) _ _
        (Advances-bind (suc (length (consume (consume (consume ts))))) k _ _
          (format_names-Advances n (consume (consume (consume ts)))
            (omega (arith, size, size', size2)))
          (omega (arith, size, size', size2))
          (λ formats behind lt'.
            Advances-expect k r_paren behind _ refl (omega (arith, size, size', size2))
              (λ lt2. omega (arith, size, size', size2, length-consume behind))))
        (omega (arith, size, size')))

-- `expect`, where the token that it takes is counted.
pub expecting {ℓ} :
    {A : Type ℓ} (k : ℕ) (kind : Kind) (ts : List Token) (x : Parsed A)
    → is_kind eof kind ≡ false
    → length ts ≤ k
    → (suc (length (consume ts)) ≡ length ts → Advances k x)
    → Advances k (elim (is_kind (kind_of ts) kind) [ true ↦ x | false ↦ null ts ])
expecting k kind ts x h le next =
    Advances-expect k kind ts x h le (λ lt. next (omega (arith, length-consume ts)))

-- The loops over path names, at a token of each kind.
as_needed_kind :
    (n : ℕ) (kind : Kind) (r : Text) (ts : List Token)
    → Advances (suc (length ts)) (as_needed_paths n ts)
    → Advances (suc (suc (length ts))) (as_needed_paths (suc n) (token kind r ∷ ts))
as_needed_kind n identifier r ts h =
    Advances-bind (suc (length ts)) _ (as_needed_paths n ts) _ h (omega arith)
      (λ paths rest lt. omega arith)
as_needed_kind n libname r ts h =
    Advances-bind (suc (length ts)) _ (as_needed_paths n ts) _ h (omega arith)
      (λ paths rest lt. omega arith)
as_needed_kind n _ r ts h = omega arith

as_needed_paths-Advances :
    (n : ℕ) (ts : List Token) → length ts < n → Advances (suc (length ts)) (as_needed_paths n ts)
as_needed_paths-Advances zero ts lt = absurd (omega arith)
as_needed_paths-Advances (suc n) [] lt = omega arith
as_needed_paths-Advances (suc n) (t ∷ ts) lt =
    as_needed_kind n t.kind t.range ts (as_needed_paths-Advances n ts (omega arith))

as_needed-Advances :
    (n : ℕ) (ts : List Token)
    → length ts ≤ n
    → 0 < length ts
    → Advances (length ts) (parse_as_needed n ts)
unfolding parse_as_needed
as_needed-Advances n ts le lt =
    let k = length ts in
    let size = length-consume ts in
    expecting k l_paren (consume ts) _ refl (omega (arith, size)) (λ first.
      let inside = consume (consume ts) in
      Advances-bind (suc (length inside)) k _ _
        (as_needed_paths-Advances n inside (omega (arith, size, first)))
        (omega (arith, size, first))
        (λ paths behind lt'.
          expecting k r_paren behind _ refl (omega (arith, size, first))
            (λ second. omega (arith, size, first, second))))

path_list_kind :
    (n : ℕ) (kind : Kind) (r : Text) (ts : List Token)
    → suc (length ts) ≤ n
    → ((us : List Token) → length us ≤ length ts → Advances (suc (length us)) (path_list n us))
    → Advances (suc (suc (length ts))) (path_list (suc n) (token kind r ∷ ts))
path_list_kind n identifier r ts le h =
    Advances-bind (suc (length ts)) _ (path_list n ts) _ (h ts (omega arith)) (omega arith)
      (λ paths rest lt. omega arith)
path_list_kind n libname r ts le h =
    Advances-bind (suc (length ts)) _ (path_list n ts) _ (h ts (omega arith)) (omega arith)
      (λ paths rest lt. omega arith)
path_list_kind n kw_as_needed r ts le h =
    Advances-bind (suc (length ts)) _ _ _
      (as_needed-Advances n (token kw_as_needed r ∷ ts) le (omega arith)) (omega arith)
      (λ needed rest lt.
        Advances-bind (suc (length rest)) _ _ _ (h rest (omega arith)) (omega arith)
          (λ paths behind lt'. omega arith))
path_list_kind n _ r ts le h = omega arith

path_list-Advances :
    (n : ℕ) (ts : List Token) → length ts < n → Advances (suc (length ts)) (path_list n ts)
path_list-Advances zero ts lt = absurd (omega arith)
path_list-Advances (suc n) [] lt = omega arith
path_list-Advances (suc n) (t ∷ ts) lt =
    path_list_kind n t.kind t.range ts (omega arith)
      (λ us le. path_list-Advances n us (omega arith))

pub parse_path_list-Advances :
    (n : ℕ) (ts : List Token)
    → length ts ≤ n
    → 0 < length ts
    → Advances (length ts) (parse_path_list n ts)
unfolding parse_path_list
parse_path_list-Advances n ts le lt =
    let k = length ts in
    let size = length-consume ts in
    expecting k l_paren (consume ts) _ refl (omega (arith, size)) (λ first.
      let inside = consume (consume ts) in
      Advances-bind (suc (length inside)) k _ _
        (path_list-Advances n inside (omega (arith, size, first))) (omega (arith, size, first))
        (λ paths behind lt'.
          expecting k r_paren behind _ refl (omega (arith, size, first))
            (λ second. omega (arith, size, first, second))))

assignment_from-Advances :
    (n : ℕ) (visibility : AssignmentVisibility) (ts : List Token)
    → 3 * length ts + 2 ≤ n
    → Advances (length ts) (assignment_from n visibility ts)
unfolding assignment_from
assignment_from-Advances n visibility ts le =
    let k = length ts in
    let size = length-consume ts in
    let value = consume (consume ts) in
    let size' = length-consume (consume ts) in
    Advances-option k (assignment_kind_of (kind_of (consume ts))) _ _ (omega (arith, size)) (λ kind.
      Advances-if k (begins_value (kind_of value)) _ _
        (Advances-bind (length value) k _ _
          (expression-Advances n 13 value (omega (arith, size, size'))) (omega (arith, size, size'))
          (λ expr rest lt. omega (arith, size, size')))
        (omega (arith, size, size')))

pub assignment-Advances :
    (n : ℕ) (ts : List Token)
    → 3 * length ts + 2 ≤ n
    → Advances (length ts) (parse_symbol_assignment n ts)
unfolding parse_symbol_assignment
assignment-Advances n ts le =
    let k = length ts in
    let size = length-consume ts in
    Advances-if k (visibility_of (kind_of ts)).1 _ _
      (expecting k l_paren (consume ts) _ refl (omega (arith, size)) (λ first.
        let inside = consume (consume ts) in
        Advances-bind (length inside) k _ _
          (assignment_from-Advances n _ inside (omega (arith, size, first)))
          (omega (arith, size, first))
          (λ made behind lt.
            expecting k r_paren behind _ refl (omega (arith, size, first))
              (λ second. omega (arith, size, first, second)))))
      (assignment_from-Advances n _ ts le)

memory_attributes-Advances : (ts : List Token) → Advances (suc (length ts)) (memory_attributes ts)
memory_attributes-Advances ts =
    let k = suc (length ts) in
    let size = length-consume ts in
    let size' = length-consume (consume ts) in
    Advances-if k (is_kind (kind_of ts) l_paren) _ _
      (Advances-if k (is_kind (kind_of (consume ts)) identifier) _ _
        (expecting k r_paren (consume (consume ts)) _ refl (omega (arith, size, size'))
          (λ first. omega (arith, size, size', first)))
        (omega (arith, size)))
      (omega arith)

memory_block-Advances :
    (n : ℕ) (ts : List Token)
    → 3 * length ts + 2 ≤ n
    → 0 < length ts
    → Advances (length ts) (memory_block n ts)
memory_block-Advances n ts le lt =
    let k = length ts in
    let size = length-consume ts in
    Advances-bind (suc (length (consume ts))) k _ _ (memory_attributes-Advances (consume ts))
      (omega (arith, size))
      (λ attrs s lt'. expecting k colon s _ refl (omega (arith, size)) (λ h.
        expecting k kw_origin (consume s) _ refl (omega (arith, size, h)) (λ h1.
          expecting k equal (consume (consume s)) _ refl (omega (arith, size, h, h1)) (λ h2.
            let s2 = consume (consume (consume s)) in
            Advances-bind (length s2) k _ _
              (expression-Advances n 13 s2 (omega (arith, size, h, h1, h2)))
              (omega (arith, size, h, h1, h2))
              (λ origin s3 lt2. expecting k comma s3 _ refl (omega (arith, size, h, h1, h2)) (λ h3.
                expecting k kw_length (consume s3) _ refl (omega (arith, size, h, h1, h2, h3))
                  (λ h4.
                    expecting k equal (consume (consume s3)) _ refl
                      (omega (arith, size, h, h1, h2, h3, h4))
                      (λ h5.
                        let s6 = consume (consume (consume s3)) in
                        Advances-bind (length s6) k _ _
                          (expression-Advances n 13 s6 (omega (arith, size, h, h1, h2, h3, h4, h5)))
                          (omega (arith, size, h, h1, h2, h3, h4, h5))
                          (λ extent rest lt3. omega (arith, size, h, h1, h2, h3, h4, h5))))))))))

memory_blocks-Advances :
    (n : ℕ) (ts : List Token)
    → 3 * length ts + 3 ≤ n
    → Advances (suc (length ts)) (memory_blocks n ts)
memory_blocks-Advances zero ts le = absurd (omega arith)
memory_blocks-Advances (suc n) [] le = omega arith
memory_blocks-Advances (suc n) (t ∷ ts) le =
    let k = suc (suc (length ts)) in
    Advances-if k (is_kind t.kind identifier) _ _
      (Advances-bind (suc (length ts)) k _ _
        (memory_block-Advances n (t ∷ ts) (omega arith) (omega arith)) (omega arith)
        (λ block rest lt.
          Advances-bind (suc (length rest)) k _ _ (memory_blocks-Advances n rest (omega arith))
            (omega arith) (λ blocks behind lt'. omega arith)))
      (omega arith)

pub memory-Advances :
    (n : ℕ) (ts : List Token)
    → 3 * length ts + 3 ≤ n
    → 0 < length ts
    → Advances (length ts) (parse_memory n ts)
unfolding parse_memory
memory-Advances n ts le lt =
    let k = length ts in
    let size = length-consume ts in
    expecting k l_brace (consume ts) _ refl (omega (arith, size)) (λ first.
      let inside = consume (consume ts) in
      Advances-bind (suc (length inside)) k _ _
        (memory_blocks-Advances n inside (omega (arith, size, first))) (omega (arith, size, first))
        (λ blocks behind lt'.
          expecting k r_brace behind _ refl (omega (arith, size, first))
            (λ second. omega (arith, size, first, second))))

pub extern-Advances : (ts : List Token) → 0 < length ts → Advances (length ts) (parse_extern ts)
unfolding parse_extern
extern-Advances ts lt =
    let k = length ts in
    let size = length-consume ts in
    expecting k l_paren (consume ts) _ refl (omega (arith, size)) (λ first.
      let inside = consume (consume ts) in
      let shorter = length-behind_names inside in
      Advances-if k (is_kind (kind_of inside) identifier) _ _
        (expecting k r_paren (behind_names inside) _ refl (omega (arith, size, first, shorter))
          (λ second. omega (arith, size, first, shorter, second)))
        (omega (arith, size, first)))
