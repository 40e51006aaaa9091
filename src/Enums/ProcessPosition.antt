-- ===== src/Enums/ProcessPosition.antt =====
-- The constants of PROCESSINFOCLASS stand in the list of constants at their values.
use service_call.Base.{◌≡◌, refl, some, get_elem?}
use service_call.Enums.ProcessInformation
use service_call.Enums.ProcessInformation.{
  ProcessInfoClass, process_info_class_constants, process_info_class_value,
}

pub process_position :
    (k : ProcessInfoClass)
    → get_elem? process_info_class_constants (process_info_class_value k) ≡ some k
process_position k =
    elim k as (λ k. get_elem? process_info_class_constants (process_info_class_value k) ≡ some k) [
      | ProcessInformation.process_basic_information ↦ refl
      | ProcessInformation.process_quota_limits ↦ refl
      | ProcessInformation.process_io_counters ↦ refl
      | ProcessInformation.process_vm_counters ↦ refl
      | ProcessInformation.process_times ↦ refl
      | ProcessInformation.process_base_priority ↦ refl
      | ProcessInformation.process_raise_priority ↦ refl
      | ProcessInformation.process_debug_port ↦ refl
      | ProcessInformation.process_exception_port ↦ refl
      | ProcessInformation.process_access_token ↦ refl
      | ProcessInformation.process_ldt_information ↦ refl
      | ProcessInformation.process_ldt_size ↦ refl
      | ProcessInformation.process_default_hard_error_mode ↦ refl
      | ProcessInformation.process_io_port_handlers ↦ refl
      | ProcessInformation.process_pooled_usage_and_limits ↦ refl
      | ProcessInformation.process_working_set_watch ↦ refl
      | ProcessInformation.process_user_mode_iopl ↦ refl
      | ProcessInformation.process_enable_alignment_fault_fixup ↦ refl
      | ProcessInformation.process_priority_class ↦ refl
      | ProcessInformation.process_wx86_information ↦ refl
      | ProcessInformation.process_handle_count ↦ refl
      | ProcessInformation.process_affinity_mask ↦ refl
      | ProcessInformation.process_priority_boost ↦ refl
      | ProcessInformation.process_device_map ↦ refl
      | ProcessInformation.process_session_information ↦ refl
      | ProcessInformation.process_foreground_information ↦ refl
      | ProcessInformation.process_wow64_information ↦ refl
      | ProcessInformation.process_image_file_name ↦ refl
      | ProcessInformation.process_luid_device_maps_enabled ↦ refl
      | ProcessInformation.process_break_on_termination ↦ refl
      | ProcessInformation.process_debug_object_handle ↦ refl
      | ProcessInformation.process_debug_flags ↦ refl
      | ProcessInformation.process_handle_tracing ↦ refl
      | ProcessInformation.process_io_priority ↦ refl
      | ProcessInformation.process_execute_flags ↦ refl
      | ProcessInformation.process_resource_management ↦ refl
      | ProcessInformation.process_cookie ↦ refl
      | ProcessInformation.process_image_information ↦ refl
      | ProcessInformation.process_cycle_time ↦ refl
      | ProcessInformation.process_page_priority ↦ refl
      | ProcessInformation.process_instrumentation_callback ↦ refl
      | ProcessInformation.process_thread_stack_allocation ↦ refl
      | ProcessInformation.process_working_set_watch_ex ↦ refl
      | ProcessInformation.process_image_file_name_win32 ↦ refl
      | ProcessInformation.process_image_file_mapping ↦ refl
      | ProcessInformation.process_affinity_update_mode ↦ refl
      | ProcessInformation.process_memory_allocation_mode ↦ refl
      | ProcessInformation.process_group_information ↦ refl
      | ProcessInformation.process_token_virtualization_enabled ↦ refl
      | ProcessInformation.process_console_host_process ↦ refl
      | ProcessInformation.process_window_information ↦ refl
      | ProcessInformation.process_handle_information ↦ refl
      | ProcessInformation.process_mitigation_policy ↦ refl
      | ProcessInformation.process_dynamic_function_table_information ↦ refl
      | ProcessInformation.process_handle_checking_mode ↦ refl
      | ProcessInformation.process_keep_alive_count ↦ refl
      | ProcessInformation.process_revoke_file_handles ↦ refl
      | ProcessInformation.process_working_set_control ↦ refl
      | ProcessInformation.process_handle_table ↦ refl
      | ProcessInformation.process_check_stack_extents_mode ↦ refl
      | ProcessInformation.process_command_line_information ↦ refl
      | ProcessInformation.process_protection_information ↦ refl
      | ProcessInformation.process_memory_exhaustion ↦ refl
      | ProcessInformation.process_fault_information ↦ refl
      | ProcessInformation.process_telemetry_id_information ↦ refl
      | ProcessInformation.process_commit_release_information ↦ refl
      | ProcessInformation.process_default_cpu_sets_information ↦ refl
      | ProcessInformation.process_allowed_cpu_sets_information ↦ refl
      | ProcessInformation.process_subsystem_process ↦ refl
      | ProcessInformation.process_job_memory_information ↦ refl
      | ProcessInformation.process_in_private ↦ refl
      | ProcessInformation.process_raise_um_exception_on_invalid_handle_close ↦ refl
      | ProcessInformation.process_ium_challenge_response ↦ refl
      | ProcessInformation.process_child_process_information ↦ refl
      | ProcessInformation.process_high_graphics_priority_information ↦ refl
      | ProcessInformation.process_subsystem_information ↦ refl
      | ProcessInformation.process_energy_values ↦ refl
      | ProcessInformation.process_activity_throttle_state ↦ refl
      | ProcessInformation.process_activity_throttle_policy ↦ refl
      | ProcessInformation.process_win32k_syscall_filter_information ↦ refl
      | ProcessInformation.process_disable_system_allowed_cpu_sets ↦ refl
      | ProcessInformation.process_wake_information ↦ refl
      | ProcessInformation.process_energy_tracking_state ↦ refl
      | ProcessInformation.process_manage_writes_to_executable_memory ↦ refl
      | ProcessInformation.process_capture_trustlet_live_dump ↦ refl
      | ProcessInformation.process_telemetry_coverage ↦ refl
      | ProcessInformation.process_enclave_information ↦ refl
      | ProcessInformation.process_enable_read_write_vm_logging ↦ refl
      | ProcessInformation.process_uptime_information ↦ refl
      | ProcessInformation.process_image_section ↦ refl
      | ProcessInformation.process_debug_auth_information ↦ refl
      | ProcessInformation.process_system_resource_management ↦ refl
      | ProcessInformation.process_sequence_number ↦ refl
      | ProcessInformation.process_loader_detour ↦ refl
      | ProcessInformation.process_security_domain_information ↦ refl
      | ProcessInformation.process_combine_security_domains_information ↦ refl
      | ProcessInformation.process_enable_logging ↦ refl
      | ProcessInformation.process_leap_second_information ↦ refl
      | ProcessInformation.max_process_info_class ↦ refl
    ]
