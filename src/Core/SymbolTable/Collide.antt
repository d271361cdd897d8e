-- ===== src/Core/SymbolTable/Collide.antt =====
-- Which of two atoms of one name is kept: the tables `cases` and `mergeCases` of
-- lib/Core/SymbolTable.cpp, and the `switch` of `addByName` that reads them.
use lld_or1k.Base.{Bool, true, false, none, some, leb, nat_eq, ltb, if◌then◌else◌}
use lld_or1k.Core.Atom.{
  Atom, defined_atom, undefined_atom, DefinedAtom, UndefinedAtom, Definition, regular, absolute,
  undefined, shared_library, Merge, merge_no, as_tentative, as_weak, as_weak_and_address_used,
  same_name_and_size, by_largest_section, by_content, definition, null_rank,
}
use lld_or1k.Core.Outcome.{Outcome, ok, fatal_error, assertion_failure, ◌>>=◌}

pub data NameCollisionResolution : Type 0 where
  ncr_first ncr_second ncr_dup_def ncr_dup_undef ncr_dup_sh_lib ncr_error : NameCollisionResolution

-- The table `cases`, a row for each definition of the first atom.
unfoldable pub collide : Definition → Definition → NameCollisionResolution
collide regular regular = ncr_dup_def
collide regular absolute = ncr_error
collide regular undefined = ncr_first
collide regular shared_library = ncr_first
collide absolute regular = ncr_error
collide absolute absolute = ncr_error
collide absolute undefined = ncr_first
collide absolute shared_library = ncr_first
collide undefined regular = ncr_second
collide undefined absolute = ncr_second
collide undefined undefined = ncr_dup_undef
collide undefined shared_library = ncr_second
collide shared_library regular = ncr_second
collide shared_library absolute = ncr_second
collide shared_library undefined = ncr_first
collide shared_library shared_library = ncr_dup_sh_lib

pub data MergeResolution : Type 0 where
  mcr_first mcr_second mcr_largest mcr_same_size mcr_error : MergeResolution

-- The table `mergeCases`, a row for each kind of the first atom.
unfoldable pub merge_cases : Merge → Merge → MergeResolution
merge_cases merge_no merge_no = mcr_error
merge_cases merge_no as_tentative = mcr_first
merge_cases merge_no as_weak = mcr_first
merge_cases merge_no as_weak_and_address_used = mcr_first
merge_cases merge_no same_name_and_size = mcr_same_size
merge_cases merge_no by_largest_section = mcr_largest
merge_cases as_tentative merge_no = mcr_second
merge_cases as_tentative as_tentative = mcr_largest
merge_cases as_tentative as_weak = mcr_second
merge_cases as_tentative as_weak_and_address_used = mcr_second
merge_cases as_tentative same_name_and_size = mcr_same_size
merge_cases as_tentative by_largest_section = mcr_largest
merge_cases as_weak merge_no = mcr_second
merge_cases as_weak as_tentative = mcr_first
merge_cases as_weak as_weak = mcr_first
merge_cases as_weak as_weak_and_address_used = mcr_second
merge_cases as_weak same_name_and_size = mcr_same_size
merge_cases as_weak by_largest_section = mcr_largest
merge_cases as_weak_and_address_used merge_no = mcr_second
merge_cases as_weak_and_address_used as_tentative = mcr_first
merge_cases as_weak_and_address_used as_weak = mcr_first
merge_cases as_weak_and_address_used as_weak_and_address_used = mcr_first
merge_cases as_weak_and_address_used same_name_and_size = mcr_same_size
merge_cases as_weak_and_address_used by_largest_section = mcr_largest
merge_cases same_name_and_size by_largest_section = mcr_same_size
merge_cases same_name_and_size _ = mcr_same_size
merge_cases by_largest_section same_name_and_size = mcr_same_size
merge_cases by_largest_section _ = mcr_largest
merge_cases _ _ = mcr_error

-- `mergeSelect`, with its two asserts: the table has no row and no column for `mergeByContent`.
unfoldable pub merge_select : Merge → Merge → Outcome MergeResolution
unfolding merge_cases
merge_select by_content _ = assertion_failure
merge_select _ by_content = assertion_failure
merge_select first second = ok (merge_cases first second)

-- The case `MCR_Error`, to which a size mismatch falls through.
abbrev pub duplicate : Bool → Outcome Bool
duplicate true = ok false
duplicate false = fatal_error

-- The `switch` on a merge resolution; the result is `useNew`.
unfoldable pub merge_decides : Bool → MergeResolution → DefinedAtom → DefinedAtom → Outcome Bool
merge_decides allow mcr_first existing new = ok false
merge_decides allow mcr_second existing new = ok true
merge_decides allow mcr_largest existing new = ok (leb existing.section_size new.section_size)
merge_decides allow mcr_same_size existing new =
    if nat_eq existing.section_size new.section_size then ok true else duplicate allow
merge_decides allow mcr_error existing new = duplicate allow

abbrev pub has_fallback : UndefinedAtom → Bool
has_fallback u = elim u.fallback [ none ↦ false | some _ ↦ true ]

-- The case `NCR_DupUndef`.
unfoldable pub undef_decides : UndefinedAtom → UndefinedAtom → Bool
undef_decides existing new =
    if nat_eq (null_rank existing.can_be_null) (null_rank new.can_be_null)
    then has_fallback new
    else ltb (null_rank new.can_be_null) (null_rank existing.can_be_null)

-- The case `NCR_DupDef`; `cast` fails on an atom of another class.
unfoldable pub dup_def : Bool → Atom → Atom → Outcome Bool
unfolding merge_select merge_decides
dup_def allow (defined_atom e) (defined_atom n) = do
  r ← merge_select e.merge n.merge
  merge_decides allow r e n
dup_def allow _ _ = assertion_failure

unfoldable pub dup_undef : Atom → Atom → Outcome Bool
unfolding undef_decides
dup_undef (undefined_atom e) (undefined_atom n) = ok (undef_decides e n)
dup_undef _ _ = assertion_failure

-- The whole `switch` of `addByName`: whether the new atom takes the place of the existing one.
unfoldable pub use_new : Bool → Atom → Atom → Outcome Bool
unfolding collide dup_def dup_undef
use_new allow existing new = elim (collide (definition existing) (definition new)) [
  | ncr_first ↦ ok false
  | ncr_second ↦ ok true
  | ncr_dup_def ↦ dup_def allow existing new
  | ncr_dup_undef ↦ dup_undef existing new
  | ncr_dup_sh_lib ↦ ok false
  | ncr_error ↦ fatal_error
]
