-- ===== src/Core/SymbolTable/Effect.antt =====
-- What one call of `SymbolTable::add` does, case by case: `add-Effect` reads the calls in
-- lib/Core/SymbolTable.cpp once, and the later modules reason from its cases.
use lld_or1k.Base.{
  ◌≡◌, ◌≢◌, refl, Bool, true, false, not, ◌&&◌, none, some, ◌∷◌, arith, ◌==◌, address_eq, name_eq,
  Option-cases, Bool-cases, inl, inr,
}
use lld_or1k.Base.Table.{set}
use lld_or1k.Core.Atom.{
  Address, Memory, Atom, defined_atom, undefined_atom, shared_library_atom, absolute_atom,
  DefinedAtom, atom_name,
}
use lld_or1k.Core.Context.{LinkingContext}
use lld_or1k.Core.Outcome.{ok, ◌>>=◌, >>=-eq-ok}
use lld_or1k.Core.SymbolTable.Collide.{use_new}
use lld_or1k.Core.SymbolTable.{
  SymbolTable, add, add_defined, add_by_name, add_by_content, add_replacement, coalesce,
  find_content, find_by_name, is_empty, is_local, is_by_content, is_read_only,
}

-- Whether `add` files the atom under its name.
abbrev pub goes_by_name : Atom → Bool
goes_by_name (defined_atom d) = not (is_empty d.name) && not (is_local d.scope)
goes_by_name _ = true

module _ (mem : Memory) (ctx : LinkingContext) where
  -- `add` of the atom at `a` to `t` returned `b` and left `u`.
  pub data Effect (a : Address) (t : SymbolTable) (b : Bool) (u : SymbolTable) : Type 0 where
    registered :
        goes_by_name (mem a) ≡ true
        → find_by_name (atom_name (mem a)) t ≡ none
        → b ≡ true
        → u ≡ record t { name_table = set (atom_name (mem a)) a t.name_table }
        → Effect a t b u
    added_again :
        goes_by_name (mem a) ≡ true
        → find_by_name (atom_name (mem a)) t ≡ some a
        → b ≡ false
        → u ≡ t
        → Effect a t b u
    coalesced :
        (e : Address) (chosen : Bool)
        → goes_by_name (mem a) ≡ true
        → find_by_name (atom_name (mem a)) t ≡ some e
        → e ≢ a
        → use_new ctx.allow_duplicates (mem e) (mem a) ≡ ok chosen
        → b ≡ false
        → u ≡ coalesce ctx (atom_name (mem a)) e a chosen t
        → Effect a t b u
    new_content :
        goes_by_name (mem a) ≡ false
        → find_content mem a t.content_table ≡ none
        → b ≡ true
        → u ≡ record t { content_table = a ∷ t.content_table }
        → Effect a t b u
    old_content :
        (e : Address)
        → goes_by_name (mem a) ≡ false
        → find_content mem a t.content_table ≡ some e
        → b ≡ false
        → u ≡ add_replacement a e t
        → Effect a t b u
    ignored : goes_by_name (mem a) ≡ false → b ≡ false → u ≡ t → Effect a t b u

  module _ (a : Address) (t : SymbolTable) {b : Bool} {u : SymbolTable} where
    chosen_part :
        (w : Address)
        → find_by_name (atom_name (mem a)) t ≡ some w
        → (w == a) ≡ false
        → add_by_name mem ctx a t ≡ ok (b, u)
        → ◌>>=◌ {B = Bool × SymbolTable}
            (use_new ctx.allow_duplicates (mem w) (mem a))
            (λ chosen. ok (false, coalesce ctx (atom_name (mem a)) w a chosen t))
          ≡ ok (b, u)
    unfolding add_by_name
    chosen_part w e other h = ground arith

    add_by_name-Effect :
        goes_by_name (mem a) ≡ true → add_by_name mem ctx a t ≡ ok (b, u) → Effect a t b u
    unfolding add_by_name
    add_by_name-Effect g h = elim (Option-cases (find_by_name (atom_name (mem a)) t)) [
      | inl e ↦ registered g e (ground arith) (ground arith)
      | inr (w, e) ↦ elim (Bool-cases (w == a)) [
        | inl same ↦
            added_again g (ground (arith, address_eq.same_iff w a)) (ground arith) (ground arith)
        | inr other ↦
            let (c, decided, rest) =
              >>=-eq-ok (use_new ctx.allow_duplicates (mem w) (mem a)) _
                (chosen_part w e other h) in
            coalesced w c g e (ground arith) decided (ground arith) (ground arith)
      ]
    ]

    add_by_content-Effect :
        goes_by_name (mem a) ≡ false → ok (add_by_content mem a t) ≡ ok (b, u) → Effect a t b u
    unfolding add_by_content
    add_by_content-Effect g h = elim (Option-cases (find_content mem a t.content_table)) [
      | inl e ↦ new_content g e (ground arith) (ground arith)
      | inr (w, e) ↦ old_content w g e (ground arith) (ground arith)
    ]

    add_defined-Effect :
        (d : DefinedAtom)
        → mem a ≡ defined_atom d
        → add_defined mem ctx a d t ≡ ok (b, u)
        → Effect a t b u
    unfolding add_defined
    add_defined-Effect d e h = elim (Bool-cases (not (is_empty d.name) && not (is_local d.scope))) [
      | inl named ↦ add_by_name-Effect (rw e named) (ground arith)
      | inr unnamed ↦ elim (Bool-cases (is_by_content d.merge)) [
        | inl by ↦ elim (Bool-cases (is_read_only d.permissions)) [
          | inl r ↦ add_by_content-Effect (rw e unnamed) (ground arith)
          | inr w ↦ ignored (rw e unnamed) (ground arith) (ground arith)
        ]
        | inr not_by ↦ ignored (rw e unnamed) (ground arith) (ground arith)
      ]
    ]

    Effect-of_class : (x : Atom) → mem a ≡ x → add mem ctx a t ≡ ok (b, u) → Effect a t b u
    unfolding add
    Effect-of_class (defined_atom d) e h = add_defined-Effect d e (rw (e, add) at h)
    Effect-of_class (undefined_atom d) e h = add_by_name-Effect (rw e) (rw (e, add) at h)
    Effect-of_class (shared_library_atom d) e h = add_by_name-Effect (rw e) (rw (e, add) at h)
    Effect-of_class (absolute_atom d) e h = add_by_name-Effect (rw e) (rw (e, add) at h)

    pub add-Effect : add mem ctx a t ≡ ok (b, u) → Effect a t b u
    add-Effect h = Effect-of_class (mem a) refl h
