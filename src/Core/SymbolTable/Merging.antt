-- ===== src/Core/SymbolTable/Merging.antt =====
-- When two definitions of one name clash, and that the choice does not hang on the order of the
-- input files: the table `mergeCases` and the `switch` of `addByName` in lib/Core/SymbolTable.cpp.
use lld_or1k.Base.{◌≡◌, ◌≢◌, ◌↔◌, Bool, true, false, not, ◌&&◌, ◌||◌, arith, nat_eq}
use lld_or1k.Core.Atom.{
  Atom, defined_atom, absolute_atom, DefinedAtom, Merge, merge_no, same_name_and_size, by_content,
}
use lld_or1k.Core.Outcome.{Outcome, ok, fatal_error, assertion_failure, out_of_fuel, ◌>>=◌}
use lld_or1k.Core.SymbolTable.Collide.{use_new, dup_def, merge_select, merge_decides}

-- The answer for the two atoms in the other order.
abbrev pub flip : Outcome Bool → Outcome Bool
flip (ok b) = ok (not b)
flip fatal_error = fatal_error
flip assertion_failure = assertion_failure
flip out_of_fuel = out_of_fuel

abbrev decides_as : Merge → Merge → DefinedAtom → DefinedAtom → Outcome Bool
unfolding merge_select merge_decides
decides_as m n d e = merge_select m n >>= λ r. merge_decides false r d e

decides_as-flip :
    (m n : Merge) (d e : DefinedAtom)
    → m ≢ n
    → d.section_size ≢ e.section_size
    → decides_as n m e d ≡ flip (decides_as m n d e)
unfolding merge_select merge_decides
decides_as-flip m n d e h s = ground arith

-- Without `--allow-multiple-definition`, for two definitions of different merge kinds and of
-- different section sizes: whichever comes first, the same one is kept, or the link fails.
pub dup_def-flip :
    (d e : DefinedAtom)
    → d.merge ≢ e.merge
    → d.section_size ≢ e.section_size
    → dup_def false (defined_atom e) (defined_atom d)
      ≡ flip (dup_def false (defined_atom d) (defined_atom e))
unfolding dup_def
dup_def-flip d e h s = decides_as-flip d.merge e.merge d e h s

abbrev pub is_strong : Merge → Bool
is_strong merge_no = true
is_strong _ = false

abbrev pub wants_same_size : Merge → Bool
wants_same_size same_name_and_size = true
wants_same_size _ = false

abbrev pub merges_by_content : Merge → Bool
merges_by_content by_content = true
merges_by_content _ = false

-- Two atoms of one name that cannot stand side by side.
abbrev pub conflicts : Atom → Atom → Bool
conflicts (absolute_atom a) (absolute_atom b) = true
conflicts (absolute_atom a) (defined_atom e) = true
conflicts (defined_atom d) (absolute_atom b) = true
conflicts (defined_atom d) (defined_atom e) =
    not (merges_by_content d.merge || merges_by_content e.merge)
    && (is_strong d.merge && is_strong e.merge
        || (wants_same_size d.merge || wants_same_size e.merge)
          && not (nat_eq d.section_size e.section_size))
conflicts _ _ = false

merge_conflicts :
    (m n : Merge) (d e : DefinedAtom)
    → (decides_as m n d e ≡ fatal_error) ↔ (
        (not (merges_by_content m || merges_by_content n)
          && (is_strong m && is_strong n
              || (wants_same_size m || wants_same_size n)
                && not (nat_eq d.section_size e.section_size)))
        ≡ true)
unfolding merge_select merge_decides
merge_conflicts m n d e = ground arith

-- Without `--allow-multiple-definition` the link fails on two atoms of one name exactly if both are
-- definitions and one of these holds: one is absolute; both are strong; or one of them asks for
-- equal sizes and the sizes differ (neither being merged by content).
pub use_new-conflicts : (e n : Atom) → (use_new false e n ≡ fatal_error) ↔ (conflicts e n ≡ true)
unfolding use_new
use_new-conflicts (defined_atom d) (defined_atom e) = merge_conflicts d.merge e.merge d e
use_new-conflicts e n = ground arith
