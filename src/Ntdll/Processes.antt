-- ===== src/Ntdll/Processes.antt =====
-- The wrappers of ServiceCall/Native.cpp from NtCreateToken on: tokens, queries, and processes.
use service_call.Base.{ℕ, [], ◌∷◌}
use service_call.Layout.Structs.{byte, dword, pointer}
use service_call.Ntdll.{Call, pass, via_get_nt_proc_address, via_module}

abbrev pub nt_create_token :
    (token_handle desired_access object_attributes token_type authentication_id expiration_time
      token_user token_groups token_privileges token_owner token_primary_group token_default_dacl
      token_source : ℕ)
    → Call
nt_create_token token_handle desired_access object_attributes token_type authentication_id
      expiration_time token_user token_groups token_privileges token_owner token_primary_group
      token_default_dacl token_source =
    record {
      lookup = via_get_nt_proc_address;
      export_name = "NtCreateToken";
      arguments =
          pass pointer token_handle
          ∷ pass dword desired_access
          ∷ pass pointer object_attributes
          ∷ pass dword token_type
          ∷ pass pointer authentication_id
          ∷ pass pointer expiration_time
          ∷ pass pointer token_user
          ∷ pass pointer token_groups
          ∷ pass pointer token_privileges
          ∷ pass pointer token_owner
          ∷ pass pointer token_primary_group
          ∷ pass pointer token_default_dacl
          ∷ pass pointer token_source
          ∷ [];
    }

abbrev pub nt_duplicate_object :
    (source_process_handle source_handle target_process_handle target_handle desired_access
      inherit_handle options : ℕ)
    → Call
nt_duplicate_object source_process_handle source_handle target_process_handle target_handle
      desired_access inherit_handle options =
    record {
      lookup = via_get_nt_proc_address;
      export_name = "NtDuplicateObject";
      arguments =
          pass pointer source_process_handle
          ∷ pass pointer source_handle
          ∷ pass pointer target_process_handle
          ∷ pass pointer target_handle
          ∷ pass dword desired_access
          ∷ pass byte inherit_handle
          ∷ pass dword options
          ∷ [];
    }

abbrev pub rtl_nt_status_to_dos_error : (status : ℕ) → Call
rtl_nt_status_to_dos_error status = record {
  lookup = via_get_nt_proc_address;
  export_name = "RtlNtStatusToDosError";
  arguments = pass dword status ∷ [];
}

abbrev pub nt_duplicate_token_effective_only :
    (existing_token_handle desired_access object_attributes effective_only token_type
      new_token_handle : ℕ)
    → Call
nt_duplicate_token_effective_only existing_token_handle desired_access object_attributes
      effective_only token_type new_token_handle =
    record {
      lookup = via_get_nt_proc_address;
      export_name = "NtDuplicateToken";
      arguments =
          pass pointer existing_token_handle
          ∷ pass dword desired_access
          ∷ pass pointer object_attributes
          ∷ pass byte effective_only
          ∷ pass dword token_type
          ∷ pass pointer new_token_handle
          ∷ [];
    }

abbrev pub nt_query_system_information : (class_ buffer buffer_size out_len : ℕ) → Call
nt_query_system_information class_ buffer buffer_size out_len = record {
  lookup = via_get_nt_proc_address;
  export_name = "NtQuerySystemInformation";
  arguments =
      pass dword class_ ∷ pass pointer buffer ∷ pass dword buffer_size ∷ pass pointer out_len ∷ [];
}

abbrev pub nt_query_information_process : (h_process class_ buffer buffer_size out_len : ℕ) → Call
nt_query_information_process h_process class_ buffer buffer_size out_len = record {
  lookup = via_get_nt_proc_address;
  export_name = "NtQueryInformationProcess";
  arguments =
      pass pointer h_process
      ∷ pass dword class_
      ∷ pass pointer buffer
      ∷ pass dword buffer_size
      ∷ pass pointer out_len
      ∷ [];
}

abbrev pub nt_query_information_thread : (h_thread class_ buffer buffer_size out_len : ℕ) → Call
nt_query_information_thread h_thread class_ buffer buffer_size out_len = record {
  lookup = via_get_nt_proc_address;
  export_name = "NtQueryInformationThread";
  arguments =
      pass pointer h_thread
      ∷ pass dword class_
      ∷ pass pointer buffer
      ∷ pass dword buffer_size
      ∷ pass pointer out_len
      ∷ [];
}

abbrev pub create_process_internal_w :
    (h_user_token lp_application_name lp_command_line lp_process_attributes lp_thread_attributes
      b_inherit_handles dw_creation_flags lp_environment lp_current_directory lp_startup_info
      lp_process_information h_restricted_user_token : ℕ)
    → Call
create_process_internal_w h_user_token lp_application_name lp_command_line lp_process_attributes
      lp_thread_attributes b_inherit_handles dw_creation_flags lp_environment lp_current_directory
      lp_startup_info lp_process_information h_restricted_user_token =
    record {
      lookup = via_module "kernel32.dll";
      export_name = "CreateProcessInternalW";
      arguments =
          pass pointer h_user_token
          ∷ pass pointer lp_application_name
          ∷ pass pointer lp_command_line
          ∷ pass pointer lp_process_attributes
          ∷ pass pointer lp_thread_attributes
          ∷ pass dword b_inherit_handles
          ∷ pass dword dw_creation_flags
          ∷ pass pointer lp_environment
          ∷ pass pointer lp_current_directory
          ∷ pass pointer lp_startup_info
          ∷ pass pointer lp_process_information
          ∷ pass pointer h_restricted_user_token
          ∷ [];
    }

abbrev pub create_process_internal_a :
    (h_user_token lp_application_name lp_command_line lp_process_attributes lp_thread_attributes
      b_inherit_handles dw_creation_flags lp_environment lp_current_directory lp_startup_info
      lp_process_information h_restricted_user_token : ℕ)
    → Call
create_process_internal_a h_user_token lp_application_name lp_command_line lp_process_attributes
      lp_thread_attributes b_inherit_handles dw_creation_flags lp_environment lp_current_directory
      lp_startup_info lp_process_information h_restricted_user_token =
    record {
      lookup = via_module "kernel32.dll";
      export_name = "CreateProcessInternalA";
      arguments =
          pass pointer h_user_token
          ∷ pass pointer lp_application_name
          ∷ pass pointer lp_command_line
          ∷ pass pointer lp_process_attributes
          ∷ pass pointer lp_thread_attributes
          ∷ pass dword b_inherit_handles
          ∷ pass dword dw_creation_flags
          ∷ pass pointer lp_environment
          ∷ pass pointer lp_current_directory
          ∷ pass pointer lp_startup_info
          ∷ pass pointer lp_process_information
          ∷ pass pointer h_restricted_user_token
          ∷ [];
    }
