-- ===== src/Elf/Or1k/PassTests.antt =====
-- Runs of OR1KRelocationPass.cpp on a few references.
use lld_or1k.Base.{
  ◌≡◌, refl, true, false, none, some, List, [], ◌∷◌, nat_eq, address_eq, if◌then◌else◌,
}
use lld_or1k.Base.Table.{find, set}
use lld_or1k.Core.Atom.{
  Address, Memory, undefined_atom, shared_library_atom, data_symbol, code, never,
}
use lld_or1k.Core.Outcome.{ok}
use lld_or1k.Elf.Or1k.Pass.Again.{entries-again}
use lld_or1k.Elf.Or1k.Pass.Entries.{Filed, handle_all-Filed}
use lld_or1k.Elf.Or1k.Pass.Handlers.{PassReference, class_at, handle_got, handle_all}
use lld_or1k.Elf.Or1k.Pass.Null.{handle_got-null}
use lld_or1k.Elf.Or1k.Pass.{
  static_pass, dynamic_pass, Pass, new_pass, got_atom, refers, get_plt_entry, get_got,
  get_object_entry,
}
use lld_or1k.Elf.Or1k.Relocation.{Kind, r_32, r_got16, r_plt26}

-- 5 is a variable of a shared library, 6 a function; 7 is undefined.
abbrev symbols : Memory
symbols a =
    if nat_eq a 7
    then undefined_atom (record { name = "u"; file = 1; can_be_null = never; fallback = none })
    else shared_library_atom (record {
      name = "s";
      file = 2;
      load_name = "libc.so";
      can_be_null_at_runtime = false;
      type = if nat_eq a 5 then data_symbol else code;
    })

abbrev to : Kind → Address → PassReference
to kind a = record { is_elf = true; is_or1k = true; kind = kind; target = some a }

abbrev references : List PassReference
references = to r_32 5 ∷ to r_plt26 6 ∷ to r_got16 7 ∷ to r_plt26 6 ∷ []

abbrev led : List PassReference × Pass
unfolding handle_all find set
led = elim (handle_all symbols dynamic_pass references (new_pass 100)) [
  | ok r ↦ r
  | _ ↦ ([], new_pass 0)
]

led_run : handle_all symbols dynamic_pass references (new_pass 100) ≡ ok led
unfolding handle_all find set
led_run = refl

-- Both calls of 6 go through one stub.
led_targets : led.0 ≡ to r_32 100 ∷ to r_plt26 106 ∷ to r_got16 107 ∷ to r_plt26 106 ∷ []
unfolding handle_all find set
led_targets = refl

Filed-new_pass : Filed (new_pass 100)
unfolding find
Filed-new_pass = record { plt = refl; objects = refl; got = λ a g h. cc h }

handle_all-Filed_example : Filed led.1
handle_all-Filed_example =
    handle_all-Filed symbols dynamic_pass references led.0 (new_pass 100) led.1 Filed-new_pass
      led_run

handle_got-null_example :
    (ref' : PassReference) × (s' : Pass) × (handle_got symbols static_pass
        (to r_got16 7)
        (new_pass 100)
      ≡ ok (ref', s'))
    × (s'.null ≡ some 100)
    × (ref'.target ≡ some 101)
    × (find 101 s'.made ≡ some (got_atom ".got" (refers r_32 0 100 ∷ [])))
unfolding find class_at
handle_got-null_example =
    handle_got-null symbols (to r_got16 7) (new_pass 100) 7 refl refl refl refl

entries-again_example :
    (get_plt_entry dynamic_pass 6 (get_plt_entry dynamic_pass 6 (new_pass 100)).1
      ≡ get_plt_entry dynamic_pass 6 (new_pass 100))
    × (get_got r_32 6 (get_got r_32 6 (new_pass 100)).1 ≡ get_got r_32 6 (new_pass 100))
    × (get_object_entry 6 (get_object_entry 6 (new_pass 100)).1 ≡ get_object_entry 6 (new_pass 100))
entries-again_example = entries-again dynamic_pass r_32 6 (new_pass 100)
