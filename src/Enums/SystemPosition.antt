-- ===== src/Enums/SystemPosition.antt =====
-- The constants of SYSTEM_INFORMATION_CLASS stand in the list of constants at their values.
use service_call.Base.{◌≡◌, refl, some, get_elem?}
use service_call.Enums.SystemInformation
use service_call.Enums.SystemInformation.{
  SystemInformationClass, system_information_class_constants,
}
use service_call.Enums.SystemInformationValue.{system_information_class_value}

pub system_position :
    (k : SystemInformationClass)
    → get_elem? system_information_class_constants (system_information_class_value k) ≡ some k
system_position k =
    elim k
      as (λ k.
        get_elem? system_information_class_constants (system_information_class_value k) ≡ some k) [
          | SystemInformation.system_basic_information ↦ refl
          | SystemInformation.system_processor_information ↦ refl
          | SystemInformation.system_performance_information ↦ refl
          | SystemInformation.system_time_of_day_information ↦ refl
          | SystemInformation.system_path_information ↦ refl
          | SystemInformation.system_process_information ↦ refl
          | SystemInformation.system_call_count_information ↦ refl
          | SystemInformation.system_device_information ↦ refl
          | SystemInformation.system_processor_performance_information ↦ refl
          | SystemInformation.system_flags_information ↦ refl
          | SystemInformation.system_call_time_information ↦ refl
          | SystemInformation.system_module_information ↦ refl
          | SystemInformation.system_locks_information ↦ refl
          | SystemInformation.system_stack_trace_information ↦ refl
          | SystemInformation.system_paged_pool_information ↦ refl
          | SystemInformation.system_non_paged_pool_information ↦ refl
          | SystemInformation.system_handle_information ↦ refl
          | SystemInformation.system_object_information ↦ refl
          | SystemInformation.system_page_file_information ↦ refl
          | SystemInformation.system_vdm_instemul_information ↦ refl
          | SystemInformation.system_vdm_bop_information ↦ refl
          | SystemInformation.system_file_cache_information ↦ refl
          | SystemInformation.system_pool_tag_information ↦ refl
          | SystemInformation.system_interrupt_information ↦ refl
          | SystemInformation.system_dpc_behavior_information ↦ refl
          | SystemInformation.system_full_memory_information ↦ refl
          | SystemInformation.system_load_gdi_driver_information ↦ refl
          | SystemInformation.system_unload_gdi_driver_information ↦ refl
          | SystemInformation.system_time_adjustment_information ↦ refl
          | SystemInformation.system_summary_memory_information ↦ refl
          | SystemInformation.system_mirror_memory_information ↦ refl
          | SystemInformation.system_performance_trace_information ↦ refl
          | SystemInformation.system_crash_dump_information ↦ refl
          | SystemInformation.system_exception_information ↦ refl
          | SystemInformation.system_crash_dump_state_information ↦ refl
          | SystemInformation.system_kernel_debugger_information ↦ refl
          | SystemInformation.system_context_switch_information ↦ refl
          | SystemInformation.system_registry_quota_information ↦ refl
          | SystemInformation.system_extend_service_table_information ↦ refl
          | SystemInformation.system_priority_seperation ↦ refl
          | SystemInformation.system_verifier_add_driver_information ↦ refl
          | SystemInformation.system_verifier_remove_driver_information ↦ refl
          | SystemInformation.system_processor_idle_information ↦ refl
          | SystemInformation.system_legacy_driver_information ↦ refl
          | SystemInformation.system_current_time_zone_information ↦ refl
          | SystemInformation.system_lookaside_information ↦ refl
          | SystemInformation.system_time_slip_notification ↦ refl
          | SystemInformation.system_session_create ↦ refl
          | SystemInformation.system_session_detach ↦ refl
          | SystemInformation.system_session_information ↦ refl
          | SystemInformation.system_range_start_information ↦ refl
          | SystemInformation.system_verifier_information ↦ refl
          | SystemInformation.system_verifier_thunk_extend ↦ refl
          | SystemInformation.system_session_process_information ↦ refl
          | SystemInformation.system_load_gdi_driver_in_system_space ↦ refl
          | SystemInformation.system_numa_processor_map ↦ refl
          | SystemInformation.system_prefetcher_information ↦ refl
          | SystemInformation.system_extended_process_information ↦ refl
          | SystemInformation.system_recommended_shared_data_alignment ↦ refl
          | SystemInformation.system_com_plus_package ↦ refl
          | SystemInformation.system_numa_available_memory ↦ refl
          | SystemInformation.system_processor_power_information ↦ refl
          | SystemInformation.system_emulation_basic_information ↦ refl
          | SystemInformation.system_emulation_processor_information ↦ refl
          | SystemInformation.system_extended_handle_information ↦ refl
          | SystemInformation.system_lost_delayed_write_information ↦ refl
          | SystemInformation.system_big_pool_information ↦ refl
          | SystemInformation.system_session_pool_tag_information ↦ refl
          | SystemInformation.system_session_mapped_view_information ↦ refl
          | SystemInformation.system_hotpatch_information ↦ refl
          | SystemInformation.system_object_security_mode ↦ refl
          | SystemInformation.system_watchdog_timer_handler ↦ refl
          | SystemInformation.system_watchdog_timer_information ↦ refl
          | SystemInformation.system_logical_processor_information ↦ refl
          | SystemInformation.system_wow64_shared_information_obsolete ↦ refl
          | SystemInformation.system_register_firmware_table_information_handler ↦ refl
          | SystemInformation.system_firmware_table_information ↦ refl
          | SystemInformation.system_module_information_ex ↦ refl
          | SystemInformation.system_verifier_triage_information ↦ refl
          | SystemInformation.system_superfetch_information ↦ refl
          | SystemInformation.system_memory_list_information ↦ refl
          | SystemInformation.system_file_cache_information_ex ↦ refl
          | SystemInformation.system_thread_priority_client_id_information ↦ refl
          | SystemInformation.system_processor_idle_cycle_time_information ↦ refl
          | SystemInformation.system_verifier_cancellation_information ↦ refl
          | SystemInformation.system_processor_power_information_ex ↦ refl
          | SystemInformation.system_ref_trace_information ↦ refl
          | SystemInformation.system_special_pool_information ↦ refl
          | SystemInformation.system_process_id_information ↦ refl
          | SystemInformation.system_error_port_information ↦ refl
          | SystemInformation.system_boot_environment_information ↦ refl
          | SystemInformation.system_hypervisor_information ↦ refl
          | SystemInformation.system_verifier_information_ex ↦ refl
          | SystemInformation.system_time_zone_information ↦ refl
          | SystemInformation.system_image_file_execution_options_information ↦ refl
          | SystemInformation.system_coverage_information ↦ refl
          | SystemInformation.system_prefetch_patch_information ↦ refl
          | SystemInformation.system_verifier_faults_information ↦ refl
          | SystemInformation.system_system_partition_information ↦ refl
          | SystemInformation.system_system_disk_information ↦ refl
          | SystemInformation.system_processor_performance_distribution ↦ refl
          | SystemInformation.system_numa_proximity_node_information ↦ refl
          | SystemInformation.system_dynamic_time_zone_information ↦ refl
          | SystemInformation.system_code_integrity_information ↦ refl
          | SystemInformation.system_processor_microcode_update_information ↦ refl
          | SystemInformation.system_processor_brand_string ↦ refl
          | SystemInformation.system_virtual_address_information ↦ refl
          | SystemInformation.system_logical_processor_and_group_information ↦ refl
          | SystemInformation.system_processor_cycle_time_information ↦ refl
          | SystemInformation.system_store_information ↦ refl
          | SystemInformation.system_registry_append_string ↦ refl
          | SystemInformation.system_ait_sampling_value ↦ refl
          | SystemInformation.system_vhd_boot_information ↦ refl
          | SystemInformation.system_cpu_quota_information ↦ refl
          | SystemInformation.system_native_basic_information ↦ refl
          | SystemInformation.system_error_port_timeouts ↦ refl
          | SystemInformation.system_low_priority_io_information ↦ refl
          | SystemInformation.system_boot_entropy_information ↦ refl
          | SystemInformation.system_verifier_counters_information ↦ refl
          | SystemInformation.system_paged_pool_information_ex ↦ refl
          | SystemInformation.system_system_ptes_information_ex ↦ refl
          | SystemInformation.system_node_distance_information ↦ refl
          | SystemInformation.system_acpi_audit_information ↦ refl
          | SystemInformation.system_basic_performance_information ↦ refl
          | SystemInformation.system_query_performance_counter_information ↦ refl
          | SystemInformation.system_session_big_pool_information ↦ refl
          | SystemInformation.system_boot_graphics_information ↦ refl
          | SystemInformation.system_scrub_physical_memory_information ↦ refl
          | SystemInformation.system_bad_page_information ↦ refl
          | SystemInformation.system_processor_profile_control_area ↦ refl
          | SystemInformation.system_combine_physical_memory_information ↦ refl
          | SystemInformation.system_entropy_interrupt_timing_information ↦ refl
          | SystemInformation.system_console_information ↦ refl
          | SystemInformation.system_platform_binary_information ↦ refl
          | SystemInformation.system_throttle_notification_information ↦ refl
          | SystemInformation.system_hypervisor_processor_count_information ↦ refl
          | SystemInformation.system_device_data_information ↦ refl
          | SystemInformation.system_device_data_enumeration_information ↦ refl
          | SystemInformation.system_memory_topology_information ↦ refl
          | SystemInformation.system_memory_channel_information ↦ refl
          | SystemInformation.system_boot_logo_information ↦ refl
          | SystemInformation.system_processor_performance_information_ex ↦ refl
          | SystemInformation.system_spare0 ↦ refl
          | SystemInformation.system_secure_boot_policy_information ↦ refl
          | SystemInformation.system_page_file_information_ex ↦ refl
          | SystemInformation.system_secure_boot_information ↦ refl
          | SystemInformation.system_entropy_interrupt_timing_raw_information ↦ refl
          | SystemInformation.system_portable_workspace_efi_launcher_information ↦ refl
          | SystemInformation.system_full_process_information ↦ refl
          | SystemInformation.max_system_info_class ↦ refl
        ]
