-- ===== src/Ntdll/NativePrototypes.antt =====
-- The prototypes in ServiceCall/Native.h: the types of the parameters. NtDuplicateToken has a second
-- definition in ServiceCall/Native.cpp, with EffectiveOnly.
use service_call.Base.{List, [], ◌∷◌}
use service_call.Layout.{CType}
use service_call.Layout.Structs.{byte, dword, pointer}

abbrev pub nt_open_process_token_prototype : List CType
nt_open_process_token_prototype = pointer ∷ dword ∷ pointer ∷ []

abbrev pub nt_duplicate_token_prototype : List CType
nt_duplicate_token_prototype = pointer ∷ dword ∷ pointer ∷ dword ∷ dword ∷ pointer ∷ []

abbrev pub nt_adjust_privileges_token_prototype : List CType
nt_adjust_privileges_token_prototype = pointer ∷ byte ∷ pointer ∷ dword ∷ pointer ∷ pointer ∷ []

abbrev pub nt_allocate_locally_unique_id_prototype : List CType
nt_allocate_locally_unique_id_prototype = pointer ∷ []

abbrev pub nt_query_object_prototype : List CType
nt_query_object_prototype = pointer ∷ dword ∷ pointer ∷ dword ∷ pointer ∷ []

abbrev pub nt_set_information_object_prototype : List CType
nt_set_information_object_prototype = pointer ∷ dword ∷ pointer ∷ dword ∷ []

abbrev pub nt_open_thread_token_prototype : List CType
nt_open_thread_token_prototype = pointer ∷ dword ∷ byte ∷ pointer ∷ []

abbrev pub rtl_free_heap_prototype : List CType
rtl_free_heap_prototype = pointer ∷ dword ∷ pointer ∷ []

abbrev pub rtl_allocate_heap_prototype : List CType
rtl_allocate_heap_prototype = pointer ∷ dword ∷ pointer ∷ []

abbrev pub rtl_create_heap_prototype : List CType
rtl_create_heap_prototype = dword ∷ pointer ∷ pointer ∷ pointer ∷ pointer ∷ pointer ∷ []

abbrev pub rtl_destroy_heap_prototype : List CType
rtl_destroy_heap_prototype = pointer ∷ []

abbrev pub nt_create_token_prototype : List CType
nt_create_token_prototype =
    pointer ∷ dword ∷ pointer ∷ dword ∷ pointer ∷ pointer ∷ pointer ∷ pointer ∷ pointer ∷ pointer
    ∷ pointer ∷ pointer ∷ pointer ∷ []

abbrev pub nt_duplicate_object_prototype : List CType
nt_duplicate_object_prototype = pointer ∷ pointer ∷ pointer ∷ pointer ∷ dword ∷ byte ∷ dword ∷ []

abbrev pub rtl_nt_status_to_dos_error_prototype : List CType
rtl_nt_status_to_dos_error_prototype = dword ∷ []

abbrev pub nt_duplicate_token_effective_only_prototype : List CType
nt_duplicate_token_effective_only_prototype =
    pointer ∷ dword ∷ pointer ∷ byte ∷ dword ∷ pointer ∷ []

abbrev pub nt_query_system_information_prototype : List CType
nt_query_system_information_prototype = dword ∷ pointer ∷ dword ∷ pointer ∷ []

abbrev pub nt_query_information_process_prototype : List CType
nt_query_information_process_prototype = pointer ∷ dword ∷ pointer ∷ dword ∷ pointer ∷ []

abbrev pub nt_query_information_thread_prototype : List CType
nt_query_information_thread_prototype = pointer ∷ dword ∷ pointer ∷ dword ∷ pointer ∷ []

abbrev pub create_process_internal_w_prototype : List CType
create_process_internal_w_prototype =
    pointer ∷ pointer ∷ pointer ∷ pointer ∷ pointer ∷ dword ∷ dword ∷ pointer ∷ pointer ∷ pointer
    ∷ pointer ∷ pointer ∷ []

abbrev pub create_process_internal_a_prototype : List CType
create_process_internal_a_prototype =
    pointer ∷ pointer ∷ pointer ∷ pointer ∷ pointer ∷ dword ∷ dword ∷ pointer ∷ pointer ∷ pointer
    ∷ pointer ∷ pointer ∷ []

abbrev pub rtl_init_unicode_string_prototype : List CType
rtl_init_unicode_string_prototype = pointer ∷ pointer ∷ []

abbrev pub rtl_create_unicode_string_prototype : List CType
rtl_create_unicode_string_prototype = pointer ∷ pointer ∷ []

abbrev pub rtl_free_unicode_string_prototype : List CType
rtl_free_unicode_string_prototype = pointer ∷ []

abbrev pub nt_close_prototype : List CType
nt_close_prototype = pointer ∷ []

abbrev pub rtl_create_user_thread_prototype : List CType
rtl_create_user_thread_prototype =
    pointer ∷ pointer ∷ byte ∷ dword ∷ pointer ∷ pointer ∷ pointer ∷ pointer ∷ pointer ∷ pointer
    ∷ []

abbrev pub nt_allocate_virtual_memory_prototype : List CType
nt_allocate_virtual_memory_prototype = pointer ∷ pointer ∷ dword ∷ pointer ∷ dword ∷ dword ∷ []

abbrev pub nt_free_virtual_memory_prototype : List CType
nt_free_virtual_memory_prototype = pointer ∷ pointer ∷ pointer ∷ dword ∷ []

abbrev pub nt_read_virtual_memory_prototype : List CType
nt_read_virtual_memory_prototype = pointer ∷ pointer ∷ pointer ∷ dword ∷ pointer ∷ []

abbrev pub nt_write_virtual_memory_prototype : List CType
nt_write_virtual_memory_prototype = pointer ∷ pointer ∷ pointer ∷ dword ∷ pointer ∷ []

abbrev pub nt_protect_virtual_memory_prototype : List CType
nt_protect_virtual_memory_prototype = pointer ∷ pointer ∷ pointer ∷ dword ∷ pointer ∷ []

abbrev pub nt_lock_virtual_memory_prototype : List CType
nt_lock_virtual_memory_prototype = pointer ∷ pointer ∷ pointer ∷ dword ∷ []

abbrev pub nt_unlock_virtual_memory_prototype : List CType
nt_unlock_virtual_memory_prototype = pointer ∷ pointer ∷ pointer ∷ dword ∷ []

abbrev pub nt_query_virtual_memory_prototype : List CType
nt_query_virtual_memory_prototype = pointer ∷ pointer ∷ dword ∷ pointer ∷ dword ∷ pointer ∷ []
