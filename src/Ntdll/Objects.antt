-- ===== src/Ntdll/Objects.antt =====
-- The wrappers of ServiceCall/Native.cpp up to RtlDestroyHeap: tokens, objects and heaps.
use Prim.Native.Nat.{bit_or}
use service_call.Base.{ℕ, [], ◌∷◌}
use service_call.Layout.Structs.{byte, dword, pointer}
use service_call.Ntdll.{Call, pass, via_rtl_get_nt_proc_address}

abbrev pub nt_open_process_token : (process_handle desired_access token_handle : ℕ) → Call
nt_open_process_token process_handle desired_access token_handle = record {
  lookup = via_rtl_get_nt_proc_address;
  export_name = "NtOpenProcessToken";
  arguments =
      pass pointer process_handle ∷ pass dword desired_access ∷ pass pointer token_handle ∷ [];
}

abbrev pub nt_duplicate_token :
    (existing_token desired_access object_attributes impersonation_level token_type new_token : ℕ)
    → Call
nt_duplicate_token existing_token desired_access object_attributes impersonation_level token_type
      new_token =
    record {
      lookup = via_rtl_get_nt_proc_address;
      export_name = "NtDuplicateToken";
      arguments =
          pass pointer existing_token
          ∷ pass dword desired_access
          ∷ pass pointer object_attributes
          ∷ pass dword impersonation_level
          ∷ pass dword token_type
          ∷ pass pointer new_token
          ∷ [];
    }

abbrev pub nt_adjust_privileges_token :
    (token_handle disable_all_privileges token_privileges previous_privileges_length
      previous_privileges required_length : ℕ)
    → Call
nt_adjust_privileges_token token_handle disable_all_privileges token_privileges
      previous_privileges_length previous_privileges required_length =
    record {
      lookup = via_rtl_get_nt_proc_address;
      export_name = "NtAdjustPrivilegesToken";
      arguments =
          pass pointer token_handle
          ∷ pass byte disable_all_privileges
          ∷ pass pointer token_privileges
          ∷ pass dword previous_privileges_length
          ∷ pass pointer previous_privileges
          ∷ pass pointer required_length
          ∷ [];
    }

abbrev pub nt_allocate_locally_unique_id : (locally_unique_id : ℕ) → Call
nt_allocate_locally_unique_id locally_unique_id = record {
  lookup = via_rtl_get_nt_proc_address;
  export_name = "NtAllocateLocallyUniqueId";
  arguments = pass pointer locally_unique_id ∷ [];
}

abbrev pub nt_query_object :
    (object_handle object_information_class object_information size result_length : ℕ) → Call
nt_query_object object_handle object_information_class object_information size result_length =
    record {
      lookup = via_rtl_get_nt_proc_address;
      export_name = "NtQueryObject";
      arguments =
          pass pointer object_handle
          ∷ pass dword object_information_class
          ∷ pass pointer object_information
          ∷ pass dword size
          ∷ pass pointer result_length
          ∷ [];
    }

abbrev pub nt_set_information_object :
    (object_handle object_information_class object_information size : ℕ) → Call
nt_set_information_object object_handle object_information_class object_information size = record {
  lookup = via_rtl_get_nt_proc_address;
  export_name = "NtSetInformationObject";
  arguments =
      pass pointer object_handle
      ∷ pass dword object_information_class
      ∷ pass pointer object_information
      ∷ pass dword size
      ∷ [];
}

abbrev pub nt_open_thread_token :
    (thread_handle desired_access open_as_self token_handle : ℕ) → Call
nt_open_thread_token thread_handle desired_access open_as_self token_handle = record {
  lookup = via_rtl_get_nt_proc_address;
  export_name = "NtOpenThreadToken";
  arguments =
      pass pointer thread_handle
      ∷ pass dword desired_access
      ∷ pass byte open_as_self
      ∷ pass pointer token_handle
      ∷ [];
}

abbrev pub rtl_free_heap : (heap_handle flags base_address : ℕ) → Call
rtl_free_heap heap_handle flags base_address = record {
  lookup = via_rtl_get_nt_proc_address;
  export_name = "RtlFreeHeap";
  arguments = pass pointer heap_handle ∷ pass dword flags ∷ pass pointer base_address ∷ [];
}

abbrev pub rtl_allocate_heap : (heap_handle flags size : ℕ) → Call
rtl_allocate_heap heap_handle flags size = record {
  lookup = via_rtl_get_nt_proc_address;
  export_name = "RtlAllocateHeap";
  arguments = pass pointer heap_handle ∷ pass dword flags ∷ pass pointer size ∷ [];
}

abbrev pub rtl_create_heap :
    (flags heap_base reserve_size commit_size lock_address parameters : ℕ) → Call
rtl_create_heap flags heap_base reserve_size commit_size lock_address parameters = record {
  lookup = via_rtl_get_nt_proc_address;
  export_name = "RtlCreateHeap";
  arguments =
      pass dword flags
      ∷ pass pointer heap_base
      ∷ pass pointer reserve_size
      ∷ pass pointer commit_size
      ∷ pass pointer lock_address
      ∷ pass pointer parameters
      ∷ [];
}

abbrev pub rtl_destroy_heap : (heap_handle : ℕ) → Call
rtl_destroy_heap heap_handle = record {
  lookup = via_rtl_get_nt_proc_address;
  export_name = "RtlDestroyHeap";
  arguments = pass pointer heap_handle ∷ [];
}

-- BsRtlCreateHeap; HEAP_GROWABLE is not of this program.
abbrev pub bs_rtl_create_heap : (heap_growable flags reserve_size commit_size : ℕ) → Call
bs_rtl_create_heap heap_growable flags reserve_size commit_size =
    rtl_create_heap (bit_or flags heap_growable) 0 reserve_size commit_size 0 0
