-- ===== src/Elf/Or1k/Pass/Entries.antt =====
-- The tables of OR1KRelocationPass.cpp agree with its lists: one entry for each atom.
use lld_or1k.Base.{
  ◌+◌, ◌≡◌, refl, subst, ap, ◌∙◌, true, none, some, List, [], ◌∷◌, ◌++◌, arith, contains,
  contains-append, address_eq, Option-cases, inl, inr,
}
use lld_or1k.Base.Table.{Table, find, set, find-set}
use lld_or1k.Core.Atom.{Address, Memory}
use lld_or1k.Core.Outcome.{Outcome, ok, >>=-eq-ok, ◌>>=◌}
use lld_or1k.Elf.Or1k.Pass.{
  NewReference, Flavor, static_pass, dynamic_pass, Pass, add_entry, get_ifunc_plt_entry,
  get_null_got, get_got, get_plt0, get_plt_entry, get_object_entry,
}
use lld_or1k.Elf.Or1k.Pass.Handlers.{
  PassReference, handle_ifunc, handle_plain, got_of_defined, handle_got, handle_plt, handle_kind,
  handle_reference, handle_all,
}
use lld_or1k.Elf.Or1k.Relocation.{Kind, r_32, r_glob_dat, r_32_pcrel}

abbrev pub values : Table Address Address → List Address
values [] = []
values ((k, v) ∷ t) = v ∷ values t

-- A key that is not there is entered at the end.
values-set_fresh :
    (k v : Address) (t : Table Address Address)
    → find k t ≡ none
    → values (set k v t) ≡ values t ++ v ∷ []
unfolding find set
values-set_fresh k v [] h = refl
values-set_fresh k v ((j, w) ∷ t) h = ground (arith, values-set_fresh k v t)

-- The stubs and the copied objects of the lists are those of the tables, one for each key, and
-- each entry of the global offset table that an atom leads to is in the list.
pub record Filed (s : Pass) : Type 0 where
  pub plt : values s.plt_map ≡ s.plt_vector
  pub objects : values s.object_map ≡ s.object_vector
  pub got : (a g : Address) → find a s.got_map ≡ some g → contains g s.got_vector ≡ true

-- The list grows by the new entry.
grown :
    (a g : Address) (t : Table Address Address) (l : List Address)
    → ((b h : Address) → find b t ≡ some h → contains h l ≡ true)
    → (b h : Address) → find b (set a g t) ≡ some h
    → contains h (l ++ g ∷ []) ≡ true
grown a g t l old b h found =
    ground (arith, find-set b a g t, contains-append h l (g ∷ []), old b h, address_eq.same_iff h g)

Filed-get_object_entry : (a : Address) (s : Pass) → Filed s → Filed (get_object_entry a s).1
unfolding get_object_entry
Filed-get_object_entry a s f = elim (Option-cases (find a s.object_map)) [
  | inl fresh ↦
      rw (fresh, get_object_entry)
        (record {
          plt = f.plt;
          objects =
              values-set_fresh a s.next s.object_map fresh
              ∙ ap (λ (l : List Address). l ++ s.next ∷ []) f.objects;
          got = f.got;
        })
  | inr (o, found) ↦ rw (found, get_object_entry) f
]

Filed-add_entry :
    (flavor : Flavor) (a : Address) (refs : List NewReference) (s : Pass)
    → find a s.plt_map ≡ none
    → Filed s
    → Filed (add_entry flavor a refs s).1
Filed-add_entry flavor a refs s fresh f = record {
  plt =
      values-set_fresh a (s.next + 1) s.plt_map fresh
      ∙ ap (λ (l : List Address). l ++ (s.next + 1) ∷ []) f.plt;
  objects = f.objects;
  got = grown a s.next s.got_map s.got_vector f.got;
}

Filed-get_got : (kind : Kind) (a : Address) (s : Pass) → Filed s → Filed (get_got kind a s).1
unfolding get_got
Filed-get_got kind a s f = elim (Option-cases (find a s.got_map)) [
  | inl fresh ↦
      rw (fresh, get_got)
        (record {
          plt = f.plt;
          objects = f.objects;
          got = grown a s.next s.got_map s.got_vector f.got;
        })
  | inr (g, found) ↦ rw (found, get_got) f
]

Filed-get_null_got : (s : Pass) → Filed s → Filed (get_null_got s).1
unfolding get_null_got
Filed-get_null_got s f = elim (Option-cases s.null) [
  | inl fresh ↦ rw (fresh, get_null_got) (record { plt = f.plt; objects = f.objects; got = f.got })
  | inr (g, found) ↦ rw (found, get_null_got) f
]

plt_map-get_null_got : (s : Pass) → (get_null_got s).1.plt_map ≡ s.plt_map
unfolding get_null_got
plt_map-get_null_got s = elim (Option-cases s.null) [
  | inl fresh ↦ rw (fresh, get_null_got) refl
  | inr (g, found) ↦ rw (found, get_null_got) refl
]

Filed-get_plt0 :
    (flavor : Flavor) (s : Pass)
    → Filed s
    → Filed (get_plt0 flavor s).1 × ((get_plt0 flavor s).1.plt_map ≡ s.plt_map)
unfolding get_plt0 get_null_got
Filed-get_plt0 flavor s f = elim (Option-cases s.plt0) [
  | inl fresh ↦
      let g = Filed-get_null_got s f in
      rw (fresh, get_plt0)
        (record { plt = g.plt; objects = g.objects; got = g.got }, plt_map-get_null_got s)
  | inr (p, found) ↦ rw (found, get_plt0) (f, refl)
]

Filed-get_plt_entry :
    (flavor : Flavor) (a : Address) (s : Pass) → Filed s → Filed (get_plt_entry flavor a s).1
unfolding get_plt_entry
Filed-get_plt_entry flavor a s f = elim (Option-cases (find a s.plt_map)) [
  | inl fresh ↦
      let (f0, same) = Filed-get_plt0 flavor s f in
      rw (fresh, get_plt_entry)
        (Filed-add_entry flavor a _ (get_plt0 flavor s).1 (ap (find a) same ∙ fresh) f0)
  | inr (p, found) ↦ rw (found, get_plt_entry) f
]

Filed-get_ifunc_plt_entry :
    (flavor : Flavor) (a : Address) (s : Pass) → Filed s → Filed (get_ifunc_plt_entry flavor a s).1
unfolding get_ifunc_plt_entry
Filed-get_ifunc_plt_entry flavor a s f = elim (Option-cases (find a s.plt_map)) [
  | inl fresh ↦ rw (fresh, get_ifunc_plt_entry) (Filed-add_entry flavor a _ s fresh f)
  | inr (p, found) ↦ rw (found, get_ifunc_plt_entry) f
]

module _ (mem : Memory) where
  Filed-handle_ifunc :
      (flavor : Flavor) (ref : PassReference) (s : Pass)
      → Filed s
      → Filed (handle_ifunc mem flavor ref s).1
  unfolding handle_ifunc
  Filed-handle_ifunc flavor ref s f = elim (Option-cases ref.target) [
    | inl null ↦ rw (null, handle_ifunc) f
    | inr (a, at) ↦ ground (arith, f, at, Filed-get_ifunc_plt_entry flavor a s f)
  ]

  Filed-got_of_defined :
      (flavor : Flavor) (ref : PassReference) (s : Pass)
      → Filed s
      → Filed (got_of_defined mem flavor ref s).1
  unfolding got_of_defined
  Filed-got_of_defined flavor ref s f = elim (Option-cases ref.target) [
    | inl null ↦ rw (null, got_of_defined) f
    | inr (a, at) ↦ ground (arith, f, at, Filed-get_got r_32 a s f)
  ]

  -- What is left after a call that may fail.
  abbrev IsFiledIn {ℓ} : {R : Type ℓ} → Outcome (R × Pass) → Type 0
  IsFiledIn (ok r) = Filed r.1
  IsFiledIn _ = Unit

  IsFiledIn-handle_plain :
      (flavor : Flavor) (ref : PassReference) (s : Pass)
      → Filed s
      → IsFiledIn (handle_plain mem flavor ref s)
  unfolding handle_plain
  IsFiledIn-handle_plain static_pass ref s f = Filed-handle_ifunc static_pass ref s f
  IsFiledIn-handle_plain dynamic_pass ref s f = elim (Option-cases ref.target) [
    | inl null ↦ rw (null, handle_plain) f
    | inr (a, at) ↦ ground (
      arith,
      f,
      at,
      Filed-handle_ifunc dynamic_pass ref s f,
      Filed-get_object_entry a s f,
      Filed-get_plt_entry dynamic_pass a s f,
    )
  ]

  IsFiledIn-handle_got :
      (flavor : Flavor) (ref : PassReference) (s : Pass)
      → Filed s
      → IsFiledIn (handle_got mem flavor ref s)
  unfolding handle_got
  IsFiledIn-handle_got flavor ref s f = elim (Option-cases ref.target) [
    | inl null ↦ rw (null, handle_got) tt
    | inr (a, at) ↦ ground (
      arith,
      at,
      Filed-got_of_defined flavor ref s f,
      Filed-get_got r_glob_dat a s f,
      Filed-got_of_defined flavor (record ref { target = some (get_null_got s).0 })
          (get_null_got s).1 (Filed-get_null_got s f),
    )
  ]

  IsFiledIn-handle_plt :
      (flavor : Flavor) (ref : PassReference) (s : Pass)
      → Filed s
      → IsFiledIn (handle_plt mem flavor ref s)
  unfolding handle_plt
  IsFiledIn-handle_plt static_pass ref s f =
      Filed-handle_ifunc static_pass (record ref { kind = r_32_pcrel }) s f
  IsFiledIn-handle_plt dynamic_pass ref s f = elim (Option-cases ref.target) [
    | inl null ↦ rw (null, handle_plt) tt
    | inr (a, at) ↦
        ground (
          arith,
          at,
          Filed-handle_ifunc dynamic_pass ref s f,
          Filed-get_plt_entry dynamic_pass a s f,
        )
  ]

  IsFiledIn-handle_reference :
      (flavor : Flavor) (ref : PassReference) (s : Pass)
      → Filed s
      → IsFiledIn (handle_reference mem flavor ref s)
  unfolding handle_reference handle_kind
  IsFiledIn-handle_reference flavor ref s f = ground (
    arith,
    f,
    IsFiledIn-handle_plain flavor ref s f,
    IsFiledIn-handle_got flavor ref s f,
    IsFiledIn-handle_plt flavor ref s f,
  )

  -- Over any references, the loops of `perform` keep the tables and the lists in agreement.
  pub handle_all-Filed :
      (flavor : Flavor) (refs refs' : List PassReference) (s s' : Pass)
      → Filed s
      → handle_all mem flavor refs s ≡ ok (refs', s')
      → Filed s'
  unfolding handle_all
  handle_all-Filed flavor [] refs' s s' f h = let same : s ≡ s' = cc h in subst Filed same f
  handle_all-Filed flavor (ref ∷ refs) refs' s s' f h =
      let (first, e, rest) =
        >>=-eq-ok (handle_reference mem flavor ref s)
          (λ one. handle_all mem flavor refs one.1 >>= λ more. ok (one.0 ∷ more.0, more.1)) h in
      let (more, e', last) =
        >>=-eq-ok (handle_all mem flavor refs first.1) (λ more. ok (first.0 ∷ more.0, more.1))
          rest in
      let same : more.1 ≡ s' = cc last in
      let held = subst IsFiledIn e (IsFiledIn-handle_reference flavor ref s f) in
      subst Filed same (handle_all-Filed flavor refs more.0 first.1 more.1 held e')
