-- ===== src/Ntdll/Memory.antt =====
-- The wrappers of ServiceCall/Native.cpp from RtlInitUnicodeString on: strings, threads and memory.
use service_call.Base.{ℕ, [], ◌∷◌}
use service_call.Layout.Structs.{byte, dword, pointer}
use service_call.Ntdll.{Call, pass, via_rtl_get_nt_proc_address}

abbrev pub rtl_init_unicode_string : (destination_string source_string : ℕ) → Call
rtl_init_unicode_string destination_string source_string = record {
  lookup = via_rtl_get_nt_proc_address;
  export_name = "RtlInitUnicodeString";
  arguments = pass pointer destination_string ∷ pass pointer source_string ∷ [];
}

abbrev pub rtl_create_unicode_string : (destination_string source_string : ℕ) → Call
rtl_create_unicode_string destination_string source_string = record {
  lookup = via_rtl_get_nt_proc_address;
  export_name = "RtlCreateUnicodeString";
  arguments = pass pointer destination_string ∷ pass pointer source_string ∷ [];
}

abbrev pub rtl_free_unicode_string : (unicode_string : ℕ) → Call
rtl_free_unicode_string unicode_string = record {
  lookup = via_rtl_get_nt_proc_address;
  export_name = "RtlFreeUnicodeString";
  arguments = pass pointer unicode_string ∷ [];
}

abbrev pub nt_close : (handle : ℕ) → Call
nt_close handle = record {
  lookup = via_rtl_get_nt_proc_address;
  export_name = "NtClose";
  arguments = pass pointer handle ∷ [];
}

abbrev pub rtl_create_user_thread :
    (process_handle security_descriptor create_suspended stack_zero_bits stack_reserved stack_commit
      start_address start_parameter thread_handle client_id : ℕ)
    → Call
rtl_create_user_thread process_handle security_descriptor create_suspended stack_zero_bits
      stack_reserved stack_commit start_address start_parameter thread_handle client_id =
    record {
      lookup = via_rtl_get_nt_proc_address;
      export_name = "RtlCreateUserThread";
      arguments =
          pass pointer process_handle
          ∷ pass pointer security_descriptor
          ∷ pass byte create_suspended
          ∷ pass dword stack_zero_bits
          ∷ pass pointer stack_reserved
          ∷ pass pointer stack_commit
          ∷ pass pointer start_address
          ∷ pass pointer start_parameter
          ∷ pass pointer thread_handle
          ∷ pass pointer client_id
          ∷ [];
    }

abbrev pub nt_allocate_virtual_memory :
    (process_handle base_address zero_bits region_size allocation_type protect : ℕ) → Call
nt_allocate_virtual_memory process_handle base_address zero_bits region_size allocation_type
      protect =
    record {
      lookup = via_rtl_get_nt_proc_address;
      export_name = "NtAllocateVirtualMemory";
      arguments =
          pass pointer process_handle
          ∷ pass pointer base_address
          ∷ pass dword zero_bits
          ∷ pass pointer region_size
          ∷ pass dword allocation_type
          ∷ pass dword protect
          ∷ [];
    }

abbrev pub nt_free_virtual_memory : (process_handle base_address region_size free_type : ℕ) → Call
nt_free_virtual_memory process_handle base_address region_size free_type = record {
  lookup = via_rtl_get_nt_proc_address;
  export_name = "NtFreeVirtualMemory";
  arguments =
      pass pointer process_handle
      ∷ pass pointer base_address
      ∷ pass pointer region_size
      ∷ pass dword free_type
      ∷ [];
}

abbrev pub nt_read_virtual_memory :
    (process_handle base_address buffer number_of_bytes_to_read number_of_bytes_readed : ℕ) → Call
nt_read_virtual_memory process_handle base_address buffer number_of_bytes_to_read
      number_of_bytes_readed =
    record {
      lookup = via_rtl_get_nt_proc_address;
      export_name = "NtReadVirtualMemory";
      arguments =
          pass pointer process_handle
          ∷ pass pointer base_address
          ∷ pass pointer buffer
          ∷ pass dword number_of_bytes_to_read
          ∷ pass pointer number_of_bytes_readed
          ∷ [];
    }

abbrev pub nt_write_virtual_memory :
    (process_handle base_address buffer number_of_bytes_to_write number_of_bytes_written : ℕ) → Call
nt_write_virtual_memory process_handle base_address buffer number_of_bytes_to_write
      number_of_bytes_written =
    record {
      lookup = via_rtl_get_nt_proc_address;
      export_name = "NtWriteVirtualMemory";
      arguments =
          pass pointer process_handle
          ∷ pass pointer base_address
          ∷ pass pointer buffer
          ∷ pass dword number_of_bytes_to_write
          ∷ pass pointer number_of_bytes_written
          ∷ [];
    }

abbrev pub nt_protect_virtual_memory :
    (process_handle base_address number_of_bytes_to_protect new_access_protection
      old_access_protection : ℕ)
    → Call
nt_protect_virtual_memory process_handle base_address number_of_bytes_to_protect
      new_access_protection old_access_protection =
    record {
      lookup = via_rtl_get_nt_proc_address;
      export_name = "NtProtectVirtualMemory";
      arguments =
          pass pointer process_handle
          ∷ pass pointer base_address
          ∷ pass pointer number_of_bytes_to_protect
          ∷ pass dword new_access_protection
          ∷ pass pointer old_access_protection
          ∷ [];
    }

abbrev pub nt_lock_virtual_memory :
    (process_handle base_address number_of_bytes_to_lock lock_option : ℕ) → Call
nt_lock_virtual_memory process_handle base_address number_of_bytes_to_lock lock_option = record {
  lookup = via_rtl_get_nt_proc_address;
  export_name = "NtLockVirtualMemory";
  arguments =
      pass pointer process_handle
      ∷ pass pointer base_address
      ∷ pass pointer number_of_bytes_to_lock
      ∷ pass dword lock_option
      ∷ [];
}

abbrev pub nt_unlock_virtual_memory :
    (process_handle base_address number_of_bytes_to_unlock lock_type : ℕ) → Call
nt_unlock_virtual_memory process_handle base_address number_of_bytes_to_unlock lock_type = record {
  lookup = via_rtl_get_nt_proc_address;
  export_name = "NtUnlockVirtualMemory";
  arguments =
      pass pointer process_handle
      ∷ pass pointer base_address
      ∷ pass pointer number_of_bytes_to_unlock
      ∷ pass dword lock_type
      ∷ [];
}

abbrev pub nt_query_virtual_memory :
    (process_handle base_address memory_information_class buffer size result_length : ℕ) → Call
nt_query_virtual_memory process_handle base_address memory_information_class buffer size
      result_length =
    record {
      lookup = via_rtl_get_nt_proc_address;
      export_name = "NtQueryVirtualMemory";
      arguments =
          pass pointer process_handle
          ∷ pass pointer base_address
          ∷ pass dword memory_information_class
          ∷ pass pointer buffer
          ∷ pass dword size
          ∷ pass pointer result_length
          ∷ [];
    }
