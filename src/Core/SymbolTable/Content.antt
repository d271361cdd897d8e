-- ===== src/Core/SymbolTable/Content.antt =====
-- Merging by content: `AtomMappingInfo::isEqual`, `getHashValue` and `addByContent` of
-- lib/Core/SymbolTable.cpp.
use lld_or1k.Base.{
  ℕ, ◌≡◌, ◌↔◌, refl, sym, ap, ◌∙◌, Bool, true, false, not, ◌&&◌, ◌||◌, none, some, List, [], ◌∷◌,
  String, arith, nat_eq_iff, ◌==◌, length, get_elem?, contains, All, subst, Option-cases,
  Bool-cases, inl, inr, name_eq, address_eq,
}
use lld_or1k.Base.Table.{find, find-set}
use lld_or1k.Core.Atom.{
  Address, Memory, defined_atom, DefinedAtom, ContentType, type_index, SectionChoice,
  based_on_content, custom_preferred, custom_required, type_unknown, type_code, type_resolver,
  type_branch_island, type_branch_shim, type_stub, type_stub_helper, type_constant, type_cstring,
  type_utf16_string, type_cfi, type_lsda, type_literal4, type_literal8, type_literal16, type_data,
  type_data_fast, type_zero_fill, type_zero_fill_fast, type_const_data, type_objc1_class,
  type_lazy_pointer, type_lazy_dylib_pointer, type_cf_string, type_got, type_initializer_ptr,
  type_terminator_ptr, type_cstring_ptr, type_objc_class_ptr, type_objc2_category_list,
  type_d_trace_dof, type_interposing_tuples, type_temp_lto, type_compact_unwind_info,
  type_processed_unwind_info, type_thunk_tlv, type_tlv_initial_data, type_tlv_initial_zero_fill,
  type_tlv_initializer_ptr, type_mach_header, type_thread_zero_fill, type_thread_data, type_ro_note,
  type_rw_note, type_no_alloc, type_group_comdat, type_gnu_link_once,
}
use lld_or1k.Core.SymbolTable.{
  SymbolTable, same_content, memcmp_equal, is_custom_required, choice_index, is_equal, same_hash,
  is_key, same_content_key, find_content, add_by_content, add_replacement,
}

-- The bytes of an atom are as many as its size says.
abbrev pub IsSized : DefinedAtom → Type 0
IsSized d = length d.raw_content ≡ d.size

memcmp_equal-eq : (xs ys : List ℕ) → length xs ≡ length ys → (memcmp_equal xs ys ≡ true) ↔ (xs ≡ ys)
unfolding memcmp_equal
memcmp_equal-eq [] [] h = (λ _. refl, λ _. refl)
memcmp_equal-eq [] (y ∷ ys) h = absurd (omega arith)
memcmp_equal-eq (x ∷ xs) [] h = absurd (omega arith)
memcmp_equal-eq (x ∷ xs) (y ∷ ys) h = ground (arith, memcmp_equal-eq xs ys)

-- What it means that two constants can be merged.
pub record SameContent (l r : DefinedAtom) : Type 0 where
  pub content_type : l.content_type ≡ r.content_type
  pub size : l.size ≡ r.size
  pub section_choice : l.section_choice ≡ r.section_choice
  pub section_name :
      l.section_choice ≡ custom_required → l.custom_section_name ≡ r.custom_section_name
  pub raw_content : l.raw_content ≡ r.raw_content

-- The enumerators in order, to read one from its index.
content_types : List ContentType
content_types =
    type_unknown ∷ type_code ∷ type_resolver ∷ type_branch_island ∷ type_branch_shim ∷ type_stub
    ∷ type_stub_helper ∷ type_constant ∷ type_cstring ∷ type_utf16_string ∷ type_cfi ∷ type_lsda
    ∷ type_literal4 ∷ type_literal8 ∷ type_literal16 ∷ type_data ∷ type_data_fast ∷ type_zero_fill
    ∷ type_zero_fill_fast ∷ type_const_data ∷ type_objc1_class ∷ type_lazy_pointer
    ∷ type_lazy_dylib_pointer ∷ type_cf_string ∷ type_got ∷ type_initializer_ptr
    ∷ type_terminator_ptr ∷ type_cstring_ptr ∷ type_objc_class_ptr ∷ type_objc2_category_list
    ∷ type_d_trace_dof ∷ type_interposing_tuples ∷ type_temp_lto ∷ type_compact_unwind_info
    ∷ type_processed_unwind_info ∷ type_thunk_tlv ∷ type_tlv_initial_data
    ∷ type_tlv_initial_zero_fill ∷ type_tlv_initializer_ptr ∷ type_mach_header
    ∷ type_thread_zero_fill ∷ type_thread_data ∷ type_ro_note ∷ type_rw_note ∷ type_no_alloc
    ∷ type_group_comdat ∷ type_gnu_link_once ∷ []

type_at-type_index : (t : ContentType) → get_elem? content_types (type_index t) ≡ some t
unfolding content_types
type_at-type_index type_unknown = refl
type_at-type_index _ = refl

type_index-injective : (s t : ContentType) → type_index s ≡ type_index t → s ≡ t
type_index-injective s t e =
    cc (type_at-type_index s, type_at-type_index t, ap (get_elem? content_types) e)

choice_index-injective : (s t : SectionChoice) → choice_index s ≡ choice_index t → s ≡ t
choice_index-injective s t e = ground arith

every_test :
    (a b c d e : Bool)
    → ((a && b && c && d && e) ≡ true)
      ↔ ((a ≡ true) × (b ≡ true) × (c ≡ true) × (d ≡ true) × (e ≡ true))
every_test a b c d e = ground arith

last_test : (x y z : Bool) → (x && y && z) ≡ true → z ≡ true
last_test x y z h = ground (arith, h)

named_alike :
    (c : SectionChoice) (m n : String)
    → ((not (is_custom_required c) || m == n) ≡ true) ↔ (c ≡ custom_required → m ≡ n)
named_alike based_on_content m n = (λ _ e. cc, λ _. refl)
named_alike custom_preferred m n = (λ _ e. cc, λ _. refl)
named_alike custom_required m n =
    (λ h _. (name_eq.same_iff m n).0 h, λ f. (name_eq.same_iff m n).1 (f refl))

-- For two atoms whose content has the length that their size states, the test answers yes exactly
-- if they have the same content type, size, section choice and bytes, and the same custom section
-- where the choice requires one.
pub same_content-SameContent :
    (l r : DefinedAtom) → IsSized l → IsSized r → (same_content l r ≡ true) ↔ SameContent l r
unfolding same_content
same_content-SameContent l r sized_l sized_r = (
  λ h.
      let (t, z, c, n, b) = (every_test _ _ _ _ _).0 h in
      record {
        content_type = type_index-injective _ _ ((nat_eq_iff _ _).0 t);
        size = (nat_eq_iff _ _).0 z;
        section_choice = choice_index-injective _ _ ((nat_eq_iff _ _).0 c);
        section_name = (named_alike _ _ _).0 n;
        raw_content = (memcmp_equal-eq _ _ (sized_l ∙ (nat_eq_iff _ _).0 z ∙ sym sized_r)).0 b;
      },
  λ s. (every_test _ _ _ _ _).1 (
    (nat_eq_iff _ _).1 (ap type_index s.content_type),
    (nat_eq_iff _ _).1 s.size,
    (nat_eq_iff _ _).1 (ap choice_index s.section_choice),
    (named_alike _ _ _).1 s.section_name,
    (memcmp_equal-eq _ _ (ap length s.raw_content)).1 s.raw_content,
  ),
)

module _ (hash_combine : ℕ → ContentType → ℕ → ℕ) (hash_combine_range : List ℕ → ℕ) where
  -- AtomMappingInfo::getHashValue; the two hash functions are LLVM's.
  pub get_hash_value : DefinedAtom → ℕ
  get_hash_value d = hash_combine d.size d.content_type (hash_combine_range d.raw_content)

  -- Two atoms that count as equal, and whose content has the length that their size states, have
  -- one hash, whatever the two hash functions are.
  pub get_hash_value-same_content :
      (l r : DefinedAtom)
      → IsSized l
      → IsSized r
      → same_content l r ≡ true
      → get_hash_value l ≡ get_hash_value r
  unfolding get_hash_value
  get_hash_value-same_content l r sized_l sized_r h =
      let same = (same_content-SameContent l r sized_l sized_r).0 h in
      rw (same.size, same.content_type, same.raw_content)

module _ (mem : Memory) where
  -- No two atoms of the set count as equal.
  abbrev pub AllDistinct : List Address → Type 0
  AllDistinct [] = Unit
  AllDistinct (x ∷ xs) =
      ((e : Address) → contains e xs ≡ true → is_equal mem x e ≡ false) × AllDistinct xs

  -- A constant whose bytes are as many as its size says.
  abbrev pub IsSizedAt : Address → Type 0
  IsSizedAt a = (d : DefinedAtom) × (mem a ≡ defined_atom d) × IsSized d

  same_hash_refl : (a : Address) → IsSizedAt a → same_hash (mem a) (mem a) ≡ true
  unfolding same_hash
  same_hash_refl a (d, e, sized) =
      rw e (ground (arith, (memcmp_equal-eq d.raw_content d.raw_content refl).1 refl))

  same_hash-SameContent :
      (d e : DefinedAtom) → SameContent d e → same_hash (defined_atom d) (defined_atom e) ≡ true
  unfolding same_hash
  same_hash-SameContent d e same =
      rw (same.size, same.content_type, same.raw_content)
        (ground (arith, (memcmp_equal-eq e.raw_content e.raw_content refl).1 refl))

  -- Equal atoms are found by their hash.
  is_equal-same_hash :
      (a b : Address)
      → IsSizedAt a
      → IsSizedAt b
      → is_equal mem a b ≡ true
      → same_hash (mem a) (mem b) ≡ true
  unfolding is_equal
  is_equal-same_hash a b (d, at_a, sized_d) (e, at_b, sized_e) h = elim (Bool-cases (a == b)) [
    | inl here ↦
        subst (λ c. same_hash (mem a) (mem c) ≡ true) ((address_eq.same_iff a b).0 here)
          (same_hash_refl a (d, at_a, sized_d))
    | inr apart ↦
        (let content : same_content d e ≡ true =
            last_test (is_key a) (is_key b) (same_content d e)
              (rw (apart, is_equal, at_a, at_b) at h) in
          rw (at_a, at_b)
            (same_hash-SameContent d e ((same_content-SameContent d e sized_d sized_e).0 content)))
  ]

  is_equal-same_content_key :
      (a b : Address)
      → IsSizedAt a
      → IsSizedAt b
      → is_equal mem a b ≡ true
      → same_content_key mem a b ≡ true
  unfolding same_content_key
  is_equal-same_content_key a b sized_a sized_b h =
      rw (is_equal-same_hash a b sized_a sized_b h) (rw h)

  not_key-is_equal :
      (a b : Address)
      → IsSizedAt a
      → IsSizedAt b
      → same_content_key mem a b ≡ false
      → is_equal mem a b ≡ false
  not_key-is_equal a b sized_a sized_b h = elim (Bool-cases (is_equal mem a b)) [
    | inl same ↦ absurd (cc (is_equal-same_content_key a b sized_a sized_b same, h))
    | inr differs ↦ differs
  ]

  same_content_key-is_equal :
      (a b : Address) → same_content_key mem a b ≡ true → is_equal mem a b ≡ true
  unfolding same_content_key
  same_content_key-is_equal a b h = elim (Bool-cases (same_hash (mem a) (mem b))) [
    | inl same ↦ rw same at h
    | inr differs ↦ absurd (cc (rw differs at h))
  ]

  find_content-eq-none :
      (a : Address) (l : List Address)
      → IsSizedAt a
      → All IsSizedAt l
      → find_content mem a l ≡ none
      → (e : Address) → contains e l ≡ true
      → is_equal mem a e ≡ false
  unfolding find_content
  find_content-eq-none a [] sized all_sized h e m = cc
  find_content-eq-none a (x ∷ l) sized (sized_x, all_sized) h e m =
      elim (Bool-cases (same_content_key mem a x)) [
        | inl same ↦ absurd (cc (rw (same, find_content) at h))
        | inr differs ↦ elim (Bool-cases (e == x)) [
          | inl here ↦
              rw ((address_eq.same_iff e x).0 here) (not_key-is_equal a x sized sized_x differs)
          | inr there ↦
              find_content-eq-none a l sized all_sized (rw (differs, find_content) at h) e
                (rw there at m)
        ]
      ]

  find_content-eq-some :
      (a e : Address) (l : List Address)
      → find_content mem a l ≡ some e
      → (contains e l ≡ true) × (is_equal mem a e ≡ true)
  unfolding find_content
  find_content-eq-some a e [] h = cc
  find_content-eq-some a e (x ∷ l) h =
      ground (arith, find_content-eq-some a e l, same_content_key-is_equal a x)

  -- The two ways in which a call ends: the atom joins the set, or an equal atom of the set
  -- replaces it.
  pub data AddByContent (a : Address) (t : SymbolTable) (r : Bool × SymbolTable) : Type 0 where
    joins : r.0 ≡ true → r.1.content_table ≡ a ∷ t.content_table → AddByContent a t r
    gives_way :
        (e : Address)
        → r.0 ≡ false
        → contains e t.content_table ≡ true
        → is_equal mem a e ≡ true
        → find a r.1.replaced_atoms ≡ some e
        → r.1.content_table ≡ t.content_table
        → AddByContent a t r

  -- For atoms whose content has the length that their size states, `addByContent` adds an atom or
  -- replaces it by an equal atom of the set, and in both cases no two atoms of the set count as equal
  -- afterwards if none did before.
  pub add_by_content-AllDistinct :
      (a : Address) (t : SymbolTable)
      → IsSizedAt a
      → All IsSizedAt t.content_table
      → AllDistinct t.content_table
      → AddByContent a t (add_by_content mem a t)
        × AllDistinct (add_by_content mem a t).1.content_table
  unfolding add_by_content add_replacement
  add_by_content-AllDistinct a t sized all_sized distinct =
      elim (Option-cases (find_content mem a t.content_table)) [
        | inl e ↦
            rw (e, add_by_content)
              (
                joins refl refl,
                (find_content-eq-none a t.content_table sized all_sized e, distinct),
              )
        | inr (w, e) ↦
            let (here, same) = find_content-eq-some a w t.content_table e in
            rw (e, add_by_content)
              (
                gives_way w refl here same (ground (arith, find-set a a w t.replaced_atoms)) refl,
                distinct,
              )
      ]
