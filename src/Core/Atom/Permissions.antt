-- ===== src/Core/Atom/Permissions.antt =====
-- Content types and what they decide: lib/Core/DefinedAtom.cpp `permissions`, and the predicates on
-- content types of include/lld/Core/DefinedAtom.h. The constructors stand in the source's order.
use lld_or1k.Base.{ℕ, Bool, true, false}

-- DefinedAtom::ContentType
pub data ContentType : Type 0 where
  type_unknown type_code type_resolver type_branch_island type_branch_shim type_stub : ContentType
  type_stub_helper type_constant type_cstring type_utf16_string type_cfi type_lsda : ContentType
  type_literal4 type_literal8 type_literal16 type_data type_data_fast type_zero_fill : ContentType
  type_zero_fill_fast type_const_data type_objc1_class type_lazy_pointer : ContentType
  type_lazy_dylib_pointer type_cf_string type_got type_initializer_ptr : ContentType
  type_terminator_ptr type_cstring_ptr type_objc_class_ptr type_objc2_category_list : ContentType
  type_d_trace_dof type_interposing_tuples type_temp_lto type_compact_unwind_info : ContentType
  type_processed_unwind_info type_thunk_tlv type_tlv_initial_data : ContentType
  type_tlv_initial_zero_fill type_tlv_initializer_ptr type_mach_header : ContentType
  type_thread_zero_fill type_thread_data type_ro_note type_rw_note type_no_alloc : ContentType
  type_group_comdat type_gnu_link_once : ContentType

-- DefinedAtom::ContentPermissions
pub data ContentPermissions : Type 0 where
  perm_none perm_r perm_rw perm_rwl perm_rx perm_rwx perm_unknown : ContentPermissions

-- The bits of a permission, the enumerators' values.
abbrev pub permission_bits : ContentPermissions → ℕ
permission_bits perm_none = 0
permission_bits perm_r = 8
permission_bits perm_rw = 10
permission_bits perm_rwl = 11
permission_bits perm_rx = 12
permission_bits perm_rwx = 14
permission_bits perm_unknown = 16

-- DefinedAtom::permissions(ContentType)
unfoldable pub content_permissions : ContentType → ContentPermissions
content_permissions type_unknown = perm_unknown
content_permissions type_code = perm_rx
content_permissions type_resolver = perm_rx
content_permissions type_branch_island = perm_rx
content_permissions type_branch_shim = perm_rx
content_permissions type_stub = perm_rx
content_permissions type_stub_helper = perm_rx
content_permissions type_constant = perm_r
content_permissions type_cstring = perm_r
content_permissions type_utf16_string = perm_r
content_permissions type_cfi = perm_r
content_permissions type_lsda = perm_r
content_permissions type_literal4 = perm_r
content_permissions type_literal8 = perm_r
content_permissions type_literal16 = perm_r
content_permissions type_data = perm_rw
content_permissions type_data_fast = perm_rw
content_permissions type_zero_fill = perm_rw
content_permissions type_zero_fill_fast = perm_rw
content_permissions type_const_data = perm_rwl
content_permissions type_objc1_class = perm_rw
content_permissions type_lazy_pointer = perm_rw
content_permissions type_lazy_dylib_pointer = perm_rw
content_permissions type_cf_string = perm_rwl
content_permissions type_got = perm_rwl
content_permissions type_initializer_ptr = perm_rwl
content_permissions type_terminator_ptr = perm_rwl
content_permissions type_cstring_ptr = perm_rwl
content_permissions type_objc_class_ptr = perm_rwl
content_permissions type_objc2_category_list = perm_rwl
content_permissions type_d_trace_dof = perm_r
content_permissions type_interposing_tuples = perm_rwl
content_permissions type_temp_lto = perm_unknown
content_permissions type_compact_unwind_info = perm_r
content_permissions type_processed_unwind_info = perm_r
content_permissions type_thunk_tlv = perm_rw
content_permissions type_tlv_initial_data = perm_rwl
content_permissions type_tlv_initial_zero_fill = perm_rwl
content_permissions type_tlv_initializer_ptr = perm_rwl
content_permissions type_mach_header = perm_rx
content_permissions type_thread_zero_fill = perm_rwl
content_permissions type_thread_data = perm_rwl
content_permissions type_ro_note = perm_r
content_permissions type_rw_note = perm_rw
content_permissions type_no_alloc = perm_r
content_permissions type_group_comdat = perm_unknown
content_permissions type_gnu_link_once = perm_unknown

-- The test of DefinedAtom::isGroupParent
abbrev pub is_group_type : ContentType → Bool
is_group_type type_group_comdat = true
is_group_type type_gnu_link_once = true
is_group_type _ = false

-- The test of DefinedAtom::occupiesDiskSpace
abbrev pub is_on_disk : ContentType → Bool
is_on_disk type_zero_fill = false
is_on_disk type_zero_fill_fast = false
is_on_disk type_tlv_initial_zero_fill = false
is_on_disk type_thread_zero_fill = false
is_on_disk _ = true

-- The index of an enumerator.
abbrev pub type_index : ContentType → ℕ
type_index type_unknown = 0
type_index type_code = 1
type_index type_resolver = 2
type_index type_branch_island = 3
type_index type_branch_shim = 4
type_index type_stub = 5
type_index type_stub_helper = 6
type_index type_constant = 7
type_index type_cstring = 8
type_index type_utf16_string = 9
type_index type_cfi = 10
type_index type_lsda = 11
type_index type_literal4 = 12
type_index type_literal8 = 13
type_index type_literal16 = 14
type_index type_data = 15
type_index type_data_fast = 16
type_index type_zero_fill = 17
type_index type_zero_fill_fast = 18
type_index type_const_data = 19
type_index type_objc1_class = 20
type_index type_lazy_pointer = 21
type_index type_lazy_dylib_pointer = 22
type_index type_cf_string = 23
type_index type_got = 24
type_index type_initializer_ptr = 25
type_index type_terminator_ptr = 26
type_index type_cstring_ptr = 27
type_index type_objc_class_ptr = 28
type_index type_objc2_category_list = 29
type_index type_d_trace_dof = 30
type_index type_interposing_tuples = 31
type_index type_temp_lto = 32
type_index type_compact_unwind_info = 33
type_index type_processed_unwind_info = 34
type_index type_thunk_tlv = 35
type_index type_tlv_initial_data = 36
type_index type_tlv_initial_zero_fill = 37
type_index type_tlv_initializer_ptr = 38
type_index type_mach_header = 39
type_index type_thread_zero_fill = 40
type_index type_thread_data = 41
type_index type_ro_note = 42
type_index type_rw_note = 43
type_index type_no_alloc = 44
type_index type_group_comdat = 45
type_index type_gnu_link_once = 46
