-- ===== src/Elf/Or1k/Pass/Null.antt =====
-- The static `handleGOT` of OR1KRelocationPass.cpp at an undefined atom.
use lld_or1k.Base.{◌+◌, ◌≡◌, ◌++◌, refl, none, some, [], ◌∷◌, arith, address_eq}
use lld_or1k.Base.Table.{find, set}
use lld_or1k.Core.Atom.{Address, Memory}
use lld_or1k.Core.Atom.Permissions.{type_got}
use lld_or1k.Core.Outcome.{ok}
use lld_or1k.Elf.Or1k.Pass.{got_atom, refers, static_pass, Pass, get_null_got, get_got}
use lld_or1k.Elf.Or1k.Pass.Handlers.{
  PassReference, undefined_class, defined_class, class_at, got_of_defined, handle_got,
}
use lld_or1k.Elf.Or1k.Relocation.{r_32}

abbrev with_null : Pass → Pass
with_null s = record s {
  made = (s.next, got_atom ".got.plt" []) ∷ s.made;
  next = s.next + 1;
  null = some s.next;
}

class_at-with_null :
    (mem : Memory) (s : Pass)
    → class_at mem static_pass s.next (with_null s) ≡ defined_class type_got
unfolding class_at find
class_at-with_null mem s = ground arith

-- In a static link, the first reference through the global offset table to an undefined atom,
-- where the next address is not that of an atom with an entry: the null entry is made, but the
-- reference leads to a second new entry, which holds the address of the null entry.
pub handle_got-null :
    (mem : Memory) (ref : PassReference) (s : Pass) (a : Address)
    → ref.target ≡ some a
    → class_at mem static_pass a s ≡ undefined_class
    → s.null ≡ none
    → find s.next s.got_map ≡ none
    → (ref' : PassReference) × (s' : Pass) × (handle_got mem static_pass ref s ≡ ok (ref', s'))
      × (s'.null ≡ some s.next)
      × (ref'.target ≡ some (s.next + 1))
      × (find (s.next + 1) s'.made ≡ some (got_atom ".got" (refers r_32 0 s.next ∷ [])))
unfolding handle_got got_of_defined get_null_got get_got find
handle_got-null mem ref s a at undef first fresh =
    let made = (s.next, got_atom ".got.plt" []) ∷ s.made in
    (
      record ref { target = some (s.next + 1) },
      record s {
        made = (s.next + 1, got_atom ".got" (refers r_32 0 s.next ∷ [])) ∷ made;
        next = s.next + 1 + 1;
        null = some s.next;
        got_map = set s.next (s.next + 1) s.got_map;
        got_vector = s.got_vector ++ (s.next + 1) ∷ [];
      },
      ground (arith, at, undef, first, class_at-with_null mem s, fresh),
      refl,
      refl,
      ground (arith),
    )
