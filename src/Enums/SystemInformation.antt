-- ===== src/Enums/SystemInformation.antt =====
-- What can be asked of the system: an enumeration of ServiceCall/Native.h.
use service_call.Base.{List, [], ◌∷◌}

-- SYSTEM_INFORMATION_CLASS.
pub data SystemInformationClass : Type 0 where
  system_basic_information system_processor_information system_performance_information
        system_time_of_day_information system_path_information system_process_information
        system_call_count_information system_device_information
        system_processor_performance_information system_flags_information
        system_call_time_information system_module_information system_locks_information
        system_stack_trace_information system_paged_pool_information
        system_non_paged_pool_information system_handle_information system_object_information
        system_page_file_information system_vdm_instemul_information system_vdm_bop_information
        system_file_cache_information system_pool_tag_information system_interrupt_information
        system_dpc_behavior_information system_full_memory_information
        system_load_gdi_driver_information system_unload_gdi_driver_information
        system_time_adjustment_information system_summary_memory_information
        system_mirror_memory_information system_performance_trace_information
        system_crash_dump_information system_exception_information
        system_crash_dump_state_information system_kernel_debugger_information
        system_context_switch_information system_registry_quota_information
        system_extend_service_table_information system_priority_seperation
        system_verifier_add_driver_information system_verifier_remove_driver_information
        system_processor_idle_information system_legacy_driver_information
        system_current_time_zone_information system_lookaside_information
        system_time_slip_notification system_session_create system_session_detach
        system_session_information system_range_start_information system_verifier_information
        system_verifier_thunk_extend system_session_process_information
        system_load_gdi_driver_in_system_space system_numa_processor_map
        system_prefetcher_information system_extended_process_information
        system_recommended_shared_data_alignment system_com_plus_package
        system_numa_available_memory system_processor_power_information
        system_emulation_basic_information system_emulation_processor_information
        system_extended_handle_information system_lost_delayed_write_information
        system_big_pool_information system_session_pool_tag_information
        system_session_mapped_view_information system_hotpatch_information
        system_object_security_mode system_watchdog_timer_handler system_watchdog_timer_information
        system_logical_processor_information system_wow64_shared_information_obsolete
        system_register_firmware_table_information_handler system_firmware_table_information
        system_module_information_ex system_verifier_triage_information
        system_superfetch_information system_memory_list_information
        system_file_cache_information_ex system_thread_priority_client_id_information
        system_processor_idle_cycle_time_information system_verifier_cancellation_information
        system_processor_power_information_ex system_ref_trace_information
        system_special_pool_information system_process_id_information system_error_port_information
        system_boot_environment_information system_hypervisor_information
        system_verifier_information_ex system_time_zone_information
        system_image_file_execution_options_information system_coverage_information
        system_prefetch_patch_information system_verifier_faults_information
        system_system_partition_information system_system_disk_information
        system_processor_performance_distribution system_numa_proximity_node_information
        system_dynamic_time_zone_information system_code_integrity_information
        system_processor_microcode_update_information system_processor_brand_string
        system_virtual_address_information system_logical_processor_and_group_information
        system_processor_cycle_time_information system_store_information
        system_registry_append_string system_ait_sampling_value system_vhd_boot_information
        system_cpu_quota_information system_native_basic_information system_error_port_timeouts
        system_low_priority_io_information system_boot_entropy_information
        system_verifier_counters_information system_paged_pool_information_ex
        system_system_ptes_information_ex system_node_distance_information
        system_acpi_audit_information system_basic_performance_information
        system_query_performance_counter_information system_session_big_pool_information
        system_boot_graphics_information system_scrub_physical_memory_information
        system_bad_page_information system_processor_profile_control_area
        system_combine_physical_memory_information system_entropy_interrupt_timing_information
        system_console_information system_platform_binary_information
        system_throttle_notification_information system_hypervisor_processor_count_information
        system_device_data_information system_device_data_enumeration_information
        system_memory_topology_information system_memory_channel_information
        system_boot_logo_information system_processor_performance_information_ex system_spare0
        system_secure_boot_policy_information system_page_file_information_ex
        system_secure_boot_information system_entropy_interrupt_timing_raw_information
        system_portable_workspace_efi_launcher_information system_full_process_information
        max_system_info_class :
      SystemInformationClass

-- The constants in the order of their declaration.
abbrev pub system_information_class_constants : List SystemInformationClass
system_information_class_constants =
    system_basic_information ∷ system_processor_information ∷ system_performance_information
    ∷ system_time_of_day_information ∷ system_path_information ∷ system_process_information
    ∷ system_call_count_information ∷ system_device_information
    ∷ system_processor_performance_information ∷ system_flags_information
    ∷ system_call_time_information ∷ system_module_information ∷ system_locks_information
    ∷ system_stack_trace_information ∷ system_paged_pool_information
    ∷ system_non_paged_pool_information ∷ system_handle_information ∷ system_object_information
    ∷ system_page_file_information ∷ system_vdm_instemul_information ∷ system_vdm_bop_information
    ∷ system_file_cache_information ∷ system_pool_tag_information ∷ system_interrupt_information
    ∷ system_dpc_behavior_information ∷ system_full_memory_information
    ∷ system_load_gdi_driver_information ∷ system_unload_gdi_driver_information
    ∷ system_time_adjustment_information ∷ system_summary_memory_information
    ∷ system_mirror_memory_information ∷ system_performance_trace_information
    ∷ system_crash_dump_information ∷ system_exception_information
    ∷ system_crash_dump_state_information ∷ system_kernel_debugger_information
    ∷ system_context_switch_information ∷ system_registry_quota_information
    ∷ system_extend_service_table_information ∷ system_priority_seperation
    ∷ system_verifier_add_driver_information ∷ system_verifier_remove_driver_information
    ∷ system_processor_idle_information ∷ system_legacy_driver_information
    ∷ system_current_time_zone_information ∷ system_lookaside_information
    ∷ system_time_slip_notification ∷ system_session_create ∷ system_session_detach
    ∷ system_session_information ∷ system_range_start_information ∷ system_verifier_information
    ∷ system_verifier_thunk_extend ∷ system_session_process_information
    ∷ system_load_gdi_driver_in_system_space ∷ system_numa_processor_map
    ∷ system_prefetcher_information ∷ system_extended_process_information
    ∷ system_recommended_shared_data_alignment ∷ system_com_plus_package
    ∷ system_numa_available_memory ∷ system_processor_power_information
    ∷ system_emulation_basic_information ∷ system_emulation_processor_information
    ∷ system_extended_handle_information ∷ system_lost_delayed_write_information
    ∷ system_big_pool_information ∷ system_session_pool_tag_information
    ∷ system_session_mapped_view_information ∷ system_hotpatch_information
    ∷ system_object_security_mode ∷ system_watchdog_timer_handler
    ∷ system_watchdog_timer_information ∷ system_logical_processor_information
    ∷ system_wow64_shared_information_obsolete ∷ system_register_firmware_table_information_handler
    ∷ system_firmware_table_information ∷ system_module_information_ex
    ∷ system_verifier_triage_information ∷ system_superfetch_information
    ∷ system_memory_list_information ∷ system_file_cache_information_ex
    ∷ system_thread_priority_client_id_information ∷ system_processor_idle_cycle_time_information
    ∷ system_verifier_cancellation_information ∷ system_processor_power_information_ex
    ∷ system_ref_trace_information ∷ system_special_pool_information ∷ system_process_id_information
    ∷ system_error_port_information ∷ system_boot_environment_information
    ∷ system_hypervisor_information ∷ system_verifier_information_ex ∷ system_time_zone_information
    ∷ system_image_file_execution_options_information ∷ system_coverage_information
    ∷ system_prefetch_patch_information ∷ system_verifier_faults_information
    ∷ system_system_partition_information ∷ system_system_disk_information
    ∷ system_processor_performance_distribution ∷ system_numa_proximity_node_information
    ∷ system_dynamic_time_zone_information ∷ system_code_integrity_information
    ∷ system_processor_microcode_update_information ∷ system_processor_brand_string
    ∷ system_virtual_address_information ∷ system_logical_processor_and_group_information
    ∷ system_processor_cycle_time_information ∷ system_store_information
    ∷ system_registry_append_string ∷ system_ait_sampling_value ∷ system_vhd_boot_information
    ∷ system_cpu_quota_information ∷ system_native_basic_information ∷ system_error_port_timeouts
    ∷ system_low_priority_io_information ∷ system_boot_entropy_information
    ∷ system_verifier_counters_information ∷ system_paged_pool_information_ex
    ∷ system_system_ptes_information_ex ∷ system_node_distance_information
    ∷ system_acpi_audit_information ∷ system_basic_performance_information
    ∷ system_query_performance_counter_information ∷ system_session_big_pool_information
    ∷ system_boot_graphics_information ∷ system_scrub_physical_memory_information
    ∷ system_bad_page_information ∷ system_processor_profile_control_area
    ∷ system_combine_physical_memory_information ∷ system_entropy_interrupt_timing_information
    ∷ system_console_information ∷ system_platform_binary_information
    ∷ system_throttle_notification_information ∷ system_hypervisor_processor_count_information
    ∷ system_device_data_information ∷ system_device_data_enumeration_information
    ∷ system_memory_topology_information ∷ system_memory_channel_information
    ∷ system_boot_logo_information ∷ system_processor_performance_information_ex ∷ system_spare0
    ∷ system_secure_boot_policy_information ∷ system_page_file_information_ex
    ∷ system_secure_boot_information ∷ system_entropy_interrupt_timing_raw_information
    ∷ system_portable_workspace_efi_launcher_information ∷ system_full_process_information
    ∷ max_system_info_class ∷ []
