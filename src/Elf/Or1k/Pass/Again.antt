-- ===== src/Elf/Or1k/Pass/Again.antt =====
-- The entries of OR1KRelocationPass.cpp are made once.
use lld_or1k.Base.{◌≡◌, refl, some, arith, address_eq, ==_refl, Option-cases, inl, inr}
use lld_or1k.Base.Table.{Table, find, set, find-set}
use lld_or1k.Core.Atom.{Address}
use lld_or1k.Elf.Or1k.Pass.{Flavor, Pass, get_got, get_plt_entry, get_object_entry}
use lld_or1k.Elf.Or1k.Relocation.{Kind}

find-set_same : (a g : Address) (t : Table Address Address) → find a (set a g t) ≡ some g
find-set_same a g t = ground (arith, find-set a a g t, ==_refl a)

get_plt_entry-known :
    (flavor : Flavor) (a : Address) (s : Pass) (p : Address)
    → find a s.plt_map ≡ some p
    → get_plt_entry flavor a s ≡ (p, s)
unfolding get_plt_entry
get_plt_entry-known flavor a s p found = rw (found, get_plt_entry) refl

get_plt_entry-there :
    (flavor : Flavor) (a : Address) (s : Pass)
    → find a (get_plt_entry flavor a s).1.plt_map ≡ some (get_plt_entry flavor a s).0
unfolding get_plt_entry
get_plt_entry-there flavor a s = elim (Option-cases (find a s.plt_map)) [
  | inl fresh ↦ rw (fresh, get_plt_entry) (find-set_same a _ _)
  | inr (p, found) ↦ rw (found, get_plt_entry) found
]

get_got-known :
    (kind : Kind) (a : Address) (s : Pass) (p : Address)
    → find a s.got_map ≡ some p
    → get_got kind a s ≡ (p, s)
unfolding get_got
get_got-known kind a s p found = rw (found, get_got) refl

get_got-there :
    (kind : Kind) (a : Address) (s : Pass)
    → find a (get_got kind a s).1.got_map ≡ some (get_got kind a s).0
unfolding get_got
get_got-there kind a s = elim (Option-cases (find a s.got_map)) [
  | inl fresh ↦ rw (fresh, get_got) (find-set_same a _ _)
  | inr (p, found) ↦ rw (found, get_got) found
]

get_object_entry-known :
    (a : Address) (s : Pass) (p : Address)
    → find a s.object_map ≡ some p
    → get_object_entry a s ≡ (p, s)
unfolding get_object_entry
get_object_entry-known a s p found = rw (found, get_object_entry) refl

get_object_entry-there :
    (a : Address) (s : Pass)
    → find a (get_object_entry a s).1.object_map ≡ some (get_object_entry a s).0
unfolding get_object_entry
get_object_entry-there a s = elim (Option-cases (find a s.object_map)) [
  | inl fresh ↦ rw (fresh, get_object_entry) (find-set_same a _ _)
  | inr (p, found) ↦ rw (found, get_object_entry) found
]

-- Asked a second time for the entry of an atom, `getPLTEntry`, `getGOT`, `getSharedGOT` and
-- `getObjectEntry` answer with the first entry and make nothing.
pub entries-again :
    (flavor : Flavor) (kind : Kind) (a : Address) (s : Pass)
    → (get_plt_entry flavor a (get_plt_entry flavor a s).1 ≡ get_plt_entry flavor a s)
      × (get_got kind a (get_got kind a s).1 ≡ get_got kind a s)
      × (get_object_entry a (get_object_entry a s).1 ≡ get_object_entry a s)
entries-again flavor kind a s = (
  get_plt_entry-known flavor a _ _ (get_plt_entry-there flavor a s),
  get_got-known kind a _ _ (get_got-there kind a s),
  get_object_entry-known a _ _ (get_object_entry-there a s),
)
