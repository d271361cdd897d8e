-- ===== src/Core/Resolver/Finish.antt =====
-- The end of a link: `updateReferences`, `checkUndefines`, `removeCoalescedAwayAtoms` of
-- lib/Core/Resolver.cpp. `setTarget` writes to the atom in memory.
pub mod Associates
pub mod References
use lld_or1k.Base.{
  ℕ, Bool, true, false, not, ◌&&◌, ◌||◌, Option, none, some, List, [], ◌∷◌, String, if◌then◌else◌,
  ◌==◌, contains, address_eq,
}
use lld_or1k.Core.Atom.{
  Address, Memory, Atom, defined_atom, undefined_atom, UndefinedAtom, Reference, has_kind,
  kind_associate, CanBeNull, never,
}
use lld_or1k.Core.Context.{LinkingContext}
use lld_or1k.Core.File.{File, FileAddress, FileKind, shared_library_file}
use lld_or1k.Core.Outcome.{Outcome, ok, assertion_failure, ◌>>=◌, or_fuel}
use lld_or1k.Core.Resolver.Strip.{keep_if}
use lld_or1k.Core.Resolver.{Resolver, insert}
use lld_or1k.Core.SymbolTable.{SymbolTable, replacement, is_coalesced_away, undefines}

abbrev pub store : Memory → Address → Atom → Memory
store mem a x b = if b == a then x else mem b

-- The loop over the references of one atom; `away` says that the atom is coalesced away. The
-- references as they are afterwards, and `_deadAtoms`.
unfoldable pub update_targets :
    SymbolTable → Bool → List Reference → List Address → Outcome (List Reference × List Address)
update_targets t away [] dead = ok ([], dead)
update_targets t away (r ∷ rs) dead = elim (has_kind kind_associate r) [
  | true ↦ update_targets t away rs (if away then insert r.target dead else dead) >>= λ rest.
      ok (r ∷ rest.0, rest.1)
  | false ↦ or_fuel (replacement r.target t) >>= λ target.
      update_targets t away rs dead >>= λ rest. ok ((record r { target = target }) ∷ rest.0, rest.1)
]

-- The loop over `_atoms`.
unfoldable pub update_atoms :
    SymbolTable → List Address → Memory → List Address → Outcome (Memory × List Address)
update_atoms t [] mem dead = ok (mem, dead)
update_atoms t (a ∷ rest) mem dead = elim (mem a) [
  | defined_atom d ↦ update_targets t (is_coalesced_away a t) d.references dead >>= λ result.
      update_atoms t rest (store mem a (defined_atom (record d { references = result.0 }))) result.1
  | _ ↦ update_atoms t rest mem dead
]

unfoldable pub update_references : Resolver → Outcome Resolver
unfolding update_atoms
update_references r = update_atoms r.symbol_table r.atoms r.memory r.dead_atoms >>= λ result.
    ok (record r { memory = result.0; dead_atoms = result.1 })

abbrev is_never : CanBeNull → Bool
is_never never = true
is_never _ = false

abbrev is_shared : FileKind → Bool
is_shared shared_library_file = true
is_shared _ = false

-- The body of the loop of `checkUndefines`: the symbol is reported.
unfoldable pub is_reported :
    LinkingContext → (FileAddress → File) → SymbolTable → Address → UndefinedAtom → Bool
unfolding is_coalesced_away
is_reported ctx files t a u =
    is_never u.can_be_null
    && not (is_shared (files u.file).kind && ctx.allow_shlib_undefines)
    && not (is_coalesced_away a t)

unfoldable pub reported_at :
    LinkingContext → (FileAddress → File) → Memory → SymbolTable → Address → Bool
unfolding is_reported
reported_at ctx files mem t a = elim (mem a) [
  | undefined_atom u ↦ is_reported ctx files t a u
  | _ ↦ false
]

unfoldable pub any_reported : (Address → Bool) → List Address → Bool
any_reported p [] = false
any_reported p (a ∷ rest) = p a || any_reported p rest

-- `true` says that undefined symbols remain.
unfoldable pub check_undefines : LinkingContext → (FileAddress → File) → Resolver → Bool
unfolding reported_at
check_undefines ctx files r =
    let remaining = undefines r.memory r.symbol_table in
    let watched =
      if ctx.dead_strip then keep_if (λ a. contains a r.live_atoms) remaining else remaining in
    any_reported (reported_at ctx files r.memory r.symbol_table) watched

unfoldable pub remove_coalesced_away_atoms : Resolver → Resolver
unfolding keep_if is_coalesced_away
remove_coalesced_away_atoms r = record r {
  atoms =
      keep_if (λ a. not (is_coalesced_away a r.symbol_table || contains a r.dead_atoms)) r.atoms;
}
