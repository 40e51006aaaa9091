-- ===== src/Enums/ProcessInformation.antt =====
-- What can be asked of a process: an enumeration of ServiceCall/Native.h. A constant without a value
-- has that of the one before it, and 1.
use service_call.Base.{ℕ, List, [], ◌∷◌}

-- PROCESSINFOCLASS.
pub data ProcessInfoClass : Type 0 where
  process_basic_information process_quota_limits process_io_counters process_vm_counters
        process_times process_base_priority process_raise_priority process_debug_port
        process_exception_port process_access_token process_ldt_information process_ldt_size
        process_default_hard_error_mode process_io_port_handlers process_pooled_usage_and_limits
        process_working_set_watch process_user_mode_iopl process_enable_alignment_fault_fixup
        process_priority_class process_wx86_information process_handle_count process_affinity_mask
        process_priority_boost process_device_map process_session_information
        process_foreground_information process_wow64_information process_image_file_name
        process_luid_device_maps_enabled process_break_on_termination process_debug_object_handle
        process_debug_flags process_handle_tracing process_io_priority process_execute_flags
        process_resource_management process_cookie process_image_information process_cycle_time
        process_page_priority process_instrumentation_callback process_thread_stack_allocation
        process_working_set_watch_ex process_image_file_name_win32 process_image_file_mapping
        process_affinity_update_mode process_memory_allocation_mode process_group_information
        process_token_virtualization_enabled process_console_host_process process_window_information
        process_handle_information process_mitigation_policy
        process_dynamic_function_table_information process_handle_checking_mode
        process_keep_alive_count process_revoke_file_handles process_working_set_control
        process_handle_table process_check_stack_extents_mode process_command_line_information
        process_protection_information process_memory_exhaustion process_fault_information
        process_telemetry_id_information process_commit_release_information
        process_default_cpu_sets_information process_allowed_cpu_sets_information
        process_subsystem_process process_job_memory_information process_in_private
        process_raise_um_exception_on_invalid_handle_close process_ium_challenge_response
        process_child_process_information process_high_graphics_priority_information
        process_subsystem_information process_energy_values process_activity_throttle_state
        process_activity_throttle_policy process_win32k_syscall_filter_information
        process_disable_system_allowed_cpu_sets process_wake_information
        process_energy_tracking_state process_manage_writes_to_executable_memory
        process_capture_trustlet_live_dump process_telemetry_coverage process_enclave_information
        process_enable_read_write_vm_logging process_uptime_information process_image_section
        process_debug_auth_information process_system_resource_management process_sequence_number
        process_loader_detour process_security_domain_information
        process_combine_security_domains_information process_enable_logging
        process_leap_second_information max_process_info_class :
      ProcessInfoClass

abbrev pub process_info_class_value : ProcessInfoClass → ℕ
process_info_class_value process_basic_information = 0
process_info_class_value process_quota_limits = 1
process_info_class_value process_io_counters = 2
process_info_class_value process_vm_counters = 3
process_info_class_value process_times = 4
process_info_class_value process_base_priority = 5
process_info_class_value process_raise_priority = 6
process_info_class_value process_debug_port = 7
process_info_class_value process_exception_port = 8
process_info_class_value process_access_token = 9
process_info_class_value process_ldt_information = 10
process_info_class_value process_ldt_size = 11
process_info_class_value process_default_hard_error_mode = 12
process_info_class_value process_io_port_handlers = 13
process_info_class_value process_pooled_usage_and_limits = 14
process_info_class_value process_working_set_watch = 15
process_info_class_value process_user_mode_iopl = 16
process_info_class_value process_enable_alignment_fault_fixup = 17
process_info_class_value process_priority_class = 18
process_info_class_value process_wx86_information = 19
process_info_class_value process_handle_count = 20
process_info_class_value process_affinity_mask = 21
process_info_class_value process_priority_boost = 22
process_info_class_value process_device_map = 23
process_info_class_value process_session_information = 24
process_info_class_value process_foreground_information = 25
process_info_class_value process_wow64_information = 26
process_info_class_value process_image_file_name = 27
process_info_class_value process_luid_device_maps_enabled = 28
process_info_class_value process_break_on_termination = 29
process_info_class_value process_debug_object_handle = 30
process_info_class_value process_debug_flags = 31
process_info_class_value process_handle_tracing = 32
process_info_class_value process_io_priority = 33
process_info_class_value process_execute_flags = 34
process_info_class_value process_resource_management = 35
process_info_class_value process_cookie = 36
process_info_class_value process_image_information = 37
process_info_class_value process_cycle_time = 38
process_info_class_value process_page_priority = 39
process_info_class_value process_instrumentation_callback = 40
process_info_class_value process_thread_stack_allocation = 41
process_info_class_value process_working_set_watch_ex = 42
process_info_class_value process_image_file_name_win32 = 43
process_info_class_value process_image_file_mapping = 44
process_info_class_value process_affinity_update_mode = 45
process_info_class_value process_memory_allocation_mode = 46
process_info_class_value process_group_information = 47
process_info_class_value process_token_virtualization_enabled = 48
process_info_class_value process_console_host_process = 49
process_info_class_value process_window_information = 50
process_info_class_value process_handle_information = 51
process_info_class_value process_mitigation_policy = 52
process_info_class_value process_dynamic_function_table_information = 53
process_info_class_value process_handle_checking_mode = 54
process_info_class_value process_keep_alive_count = 55
process_info_class_value process_revoke_file_handles = 56
process_info_class_value process_working_set_control = 57
process_info_class_value process_handle_table = 58
process_info_class_value process_check_stack_extents_mode = 59
process_info_class_value process_command_line_information = 60
process_info_class_value process_protection_information = 61
process_info_class_value process_memory_exhaustion = 62
process_info_class_value process_fault_information = 63
process_info_class_value process_telemetry_id_information = 64
process_info_class_value process_commit_release_information = 65
process_info_class_value process_default_cpu_sets_information = 66
process_info_class_value process_allowed_cpu_sets_information = 67
process_info_class_value process_subsystem_process = 68
process_info_class_value process_job_memory_information = 69
process_info_class_value process_in_private = 70
process_info_class_value process_raise_um_exception_on_invalid_handle_close = 71
process_info_class_value process_ium_challenge_response = 72
process_info_class_value process_child_process_information = 73
process_info_class_value process_high_graphics_priority_information = 74
process_info_class_value process_subsystem_information = 75
process_info_class_value process_energy_values = 76
process_info_class_value process_activity_throttle_state = 77
process_info_class_value process_activity_throttle_policy = 78
process_info_class_value process_win32k_syscall_filter_information = 79
process_info_class_value process_disable_system_allowed_cpu_sets = 80
process_info_class_value process_wake_information = 81
process_info_class_value process_energy_tracking_state = 82
process_info_class_value process_manage_writes_to_executable_memory = 83
process_info_class_value process_capture_trustlet_live_dump = 84
process_info_class_value process_telemetry_coverage = 85
process_info_class_value process_enclave_information = 86
process_info_class_value process_enable_read_write_vm_logging = 87
process_info_class_value process_uptime_information = 88
process_info_class_value process_image_section = 89
process_info_class_value process_debug_auth_information = 90
process_info_class_value process_system_resource_management = 91
process_info_class_value process_sequence_number = 92
process_info_class_value process_loader_detour = 93
process_info_class_value process_security_domain_information = 94
process_info_class_value process_combine_security_domains_information = 95
process_info_class_value process_enable_logging = 96
process_info_class_value process_leap_second_information = 97
process_info_class_value max_process_info_class = 98

-- The constants in the order of their declaration.
abbrev pub process_info_class_constants : List ProcessInfoClass
process_info_class_constants =
    process_basic_information ∷ process_quota_limits ∷ process_io_counters ∷ process_vm_counters
    ∷ process_times ∷ process_base_priority ∷ process_raise_priority ∷ process_debug_port
    ∷ process_exception_port ∷ process_access_token ∷ process_ldt_information ∷ process_ldt_size
    ∷ process_default_hard_error_mode ∷ process_io_port_handlers ∷ process_pooled_usage_and_limits
    ∷ process_working_set_watch ∷ process_user_mode_iopl ∷ process_enable_alignment_fault_fixup
    ∷ process_priority_class ∷ process_wx86_information ∷ process_handle_count
    ∷ process_affinity_mask ∷ process_priority_boost ∷ process_device_map
    ∷ process_session_information ∷ process_foreground_information ∷ process_wow64_information
    ∷ process_image_file_name ∷ process_luid_device_maps_enabled ∷ process_break_on_termination
    ∷ process_debug_object_handle ∷ process_debug_flags ∷ process_handle_tracing
    ∷ process_io_priority ∷ process_execute_flags ∷ process_resource_management ∷ process_cookie
    ∷ process_image_information ∷ process_cycle_time ∷ process_page_priority
    ∷ process_instrumentation_callback ∷ process_thread_stack_allocation
    ∷ process_working_set_watch_ex ∷ process_image_file_name_win32 ∷ process_image_file_mapping
    ∷ process_affinity_update_mode ∷ process_memory_allocation_mode ∷ process_group_information
    ∷ process_token_virtualization_enabled ∷ process_console_host_process
    ∷ process_window_information ∷ process_handle_information ∷ process_mitigation_policy
    ∷ process_dynamic_function_table_information ∷ process_handle_checking_mode
    ∷ process_keep_alive_count ∷ process_revoke_file_handles ∷ process_working_set_control
    ∷ process_handle_table ∷ process_check_stack_extents_mode ∷ process_command_line_information
    ∷ process_protection_information ∷ process_memory_exhaustion ∷ process_fault_information
    ∷ process_telemetry_id_information ∷ process_commit_release_information
    ∷ process_default_cpu_sets_information ∷ process_allowed_cpu_sets_information
    ∷ process_subsystem_process ∷ process_job_memory_information ∷ process_in_private
    ∷ process_raise_um_exception_on_invalid_handle_close ∷ process_ium_challenge_response
    ∷ process_child_process_information ∷ process_high_graphics_priority_information
    ∷ process_subsystem_information ∷ process_energy_values ∷ process_activity_throttle_state
    ∷ process_activity_throttle_policy ∷ process_win32k_syscall_filter_information
    ∷ process_disable_system_allowed_cpu_sets ∷ process_wake_information
    ∷ process_energy_tracking_state ∷ process_manage_writes_to_executable_memory
    ∷ process_capture_trustlet_live_dump ∷ process_telemetry_coverage ∷ process_enclave_information
    ∷ process_enable_read_write_vm_logging ∷ process_uptime_information ∷ process_image_section
    ∷ process_debug_auth_information ∷ process_system_resource_management ∷ process_sequence_number
    ∷ process_loader_detour ∷ process_security_domain_information
    ∷ process_combine_security_domains_information ∷ process_enable_logging
    ∷ process_leap_second_information ∷ max_process_info_class ∷ []
